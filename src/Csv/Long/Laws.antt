-- ===== src/Csv/Long/Laws.antt =====
-- What `toLongOrNull` accepts: printed numbers come back, and nothing outside the range of a Long.
use when_i_off.Prelude.{
  Str, ℕ, zero, suc, ◌+◌, ◌-◌, ◌*◌, ◌≤◌, ◌<◌, ◌≡◌, refl, Bool, true, false, [], ◌∷◌, ◌∙◌, ap,
  Option, none, some, leb, arith, Bool-cases, inl, inr, length,
}
use when_i_off.Prelude.Int.{ℤ, pos, negsuc, ◌≤ℤ◌}
use when_i_off.Prelude.Decimal.{
  decimal, AreDigits, decimal-AreDigits, number_of-decimal, number_from, number_of,
  length-decimal-pos,
}
use when_i_off.Csv.Unicode.{Unicode, IsUnicode}
use when_i_off.Csv.Long.{
  nd_start, digit_of, digits_value, in_long, to_long_or_null, long_text, long_min, long_max,
}

module _ (u : Unicode) (law : IsUnicode u) where
  nd_start_ascii : (c : ℕ) → 48 ≤ c → c ≤ 57 → nd_start u c ≡ 48
  unfolding nd_start
  nd_start_ascii zero h k = absurd (omega arith)
  nd_start_ascii (suc c) h k = elim (Bool-cases (leb 48 c)) [
    | inl e ↦
        let nd : u.is_nd c ≡ true = law.nd_ascii c (omega arith) ∙ ground arith in
        rw nd (nd_start_ascii c (ground arith) (omega arith))
    | inr e ↦
        let nd : u.is_nd c ≡ false = law.nd_ascii c (omega arith) ∙ ground arith in
        rw nd (ground arith)
  ]

  digit_of_ascii : (c : ℕ) → 48 ≤ c → c ≤ 57 → digit_of u c ≡ some (c - 48)
  unfolding digit_of
  digit_of_ascii c h k =
      let nd : u.is_nd c ≡ true = law.nd_ascii c (omega arith) ∙ ground arith in
      rw (nd, nd_start_ascii c h k) (ap some (omega arith))

  digits_value_of_digits :
      (v : ℕ) (s : Str) → AreDigits s → digits_value u v s ≡ some (number_from v s)
  unfolding digits_value number_from
  digits_value_of_digits v [] h = refl
  digits_value_of_digits v (c ∷ s) ((lo, hi), h) =
      rw (digit_of_ascii c lo hi, digits_value) (digits_value_of_digits (v * 10 + (c - 48)) s h)

  unsigned_text :
      (s : Str)
      → AreDigits s
      → 0 < length s
      → to_long_or_null u s ≡ in_long u false (some (number_of s))
  unfolding to_long_or_null
  unsigned_text [] h p = absurd (omega arith)
  unsigned_text (c ∷ []) h p = rw (digits_value_of_digits 0 (c ∷ []) h) (ground arith)
  unsigned_text (c ∷ d ∷ s) h p = rw (digits_value_of_digits 0 (c ∷ d ∷ s) h) (ground arith)

  negative_text :
      (s : Str)
      → AreDigits s
      → 0 < length s
      → to_long_or_null u (b'-' ∷ s) ≡ in_long u true (some (number_of s))
  unfolding to_long_or_null
  negative_text [] h p = absurd (omega arith)
  negative_text (d ∷ s) h p = rw (digits_value_of_digits 0 (d ∷ s) h)

  -- The decimal text of every integer in the range of a Long is read back as that integer.
  pub to_long_or_null-long_text :
      (v : ℤ) → long_min ≤ℤ v → v ≤ℤ long_max → to_long_or_null u (long_text v) ≡ some v
  unfolding long_text in_long
  to_long_or_null-long_text (pos n) lo hi =
      unsigned_text (decimal n) (decimal-AreDigits n) (length-decimal-pos n)
      ∙ rw (number_of-decimal n) (ground arith)
  to_long_or_null-long_text (negsuc n) lo hi =
      negative_text (decimal (suc n)) (decimal-AreDigits (suc n)) (length-decimal-pos (suc n))
      ∙ rw (number_of-decimal (suc n)) (ground arith)

module _ (u : Unicode) where
  in_long_bounds :
      (b : Bool) (o : Option ℕ) (v : ℤ) → in_long u b o ≡ some v → (long_min ≤ℤ v) × (v ≤ℤ long_max)
  unfolding in_long
  in_long_bounds b none v h = absurd (cc)
  in_long_bounds true (some zero) v h = ground arith
  in_long_bounds true (some (suc n)) v h = ground arith
  in_long_bounds false (some n) v h = ground arith

  -- Whatever the text, a result lies in the range of a Long.
  pub to_long_or_null_bounds :
      (s : Str) (v : ℤ) → to_long_or_null u s ≡ some v → (long_min ≤ℤ v) × (v ≤ℤ long_max)
  unfolding to_long_or_null
  to_long_or_null_bounds [] v h = absurd (cc)
  to_long_or_null_bounds (c ∷ []) v h =
      ground (arith, in_long_bounds false (digits_value u 0 (c ∷ [])) v)
  to_long_or_null_bounds (c ∷ d ∷ s) v h = ground (
    arith,
    in_long_bounds true (digits_value u 0 (d ∷ s)) v,
    in_long_bounds false (digits_value u 0 (d ∷ s)) v,
    in_long_bounds false (digits_value u 0 (c ∷ d ∷ s)) v,
  )
