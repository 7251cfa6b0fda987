-- ===== src/Csv/Long.antt =====
-- csv.ts `isNd`, `digitOf`, `toLongOrNull`: Kotlin's `String.toLongOrNull()`, over exact integers
-- (`bigint`), and the decimal text of a result.
pub mod Laws
use when_i_off.Prelude.{
  Str, ℕ, zero, suc, ◌+◌, ◌*◌, ◌-◌, ◌%◌, ◌^◌, ◌≤◌, ◌<◌, ◌≡◌, refl, Bool, true, false, ◌||◌, List,
  [], ◌∷◌, Option, none, some, if◌then◌else◌, ltb, ◌==◌, arith,
}
use when_i_off.Prelude.Int.{ℤ, pos, negsuc, negate, ◌≤ℤ◌, ltb_ℤ}
use when_i_off.Prelude.Decimal.{decimal}
use when_i_off.Csv.Unicode.{Unicode}

-- LONG_MIN, LONG_MAX
abbrev pub long_min : ℤ
long_min = negsuc 9_223_372_036_854_775_807

abbrev pub long_max : ℤ
long_max = pos 9_223_372_036_854_775_807

module _ (u : Unicode) where
  -- `while (isNd(start - 1)) start--`; there is no unit before 0
  pub nd_start : ℕ → ℕ
  nd_start zero = zero
  nd_start (suc c) = let before = nd_start c in if u.is_nd c then before else suc c

  -- the value of a digit; `none` is -1
  pub digit_of : ℕ → Option ℕ
  digit_of code =
      let start = nd_start code in if u.is_nd code then some ((code - start) % 10) else none

  pub digits_value : ℕ → Str → Option ℕ
  digits_value value [] = some value
  digits_value value (c ∷ s) = elim (digit_of c) [
    | none ↦ none
    | some d ↦ digits_value (value * 10 + d) s
  ]

  -- the sign is put on and the range is checked
  pub in_long : Bool → Option ℕ → Option ℤ
  in_long negative none = none
  in_long negative (some v) =
      let value = if negative then negate v else pos v in
      if ltb_ℤ value long_min || ltb_ℤ long_max value then none else some value

  unfoldable pub to_long_or_null : Str → Option ℤ
  unfolding in_long digits_value digit_of nd_start
  to_long_or_null [] = none
  to_long_or_null (c ∷ []) = if ltb c 0x30 then none else in_long false (digits_value 0 (c ∷ []))
  to_long_or_null (c ∷ d ∷ s) =
      if ltb c 0x30
      then (if c == b'-'
          then in_long true (digits_value 0 (d ∷ s))
          else if c == b'+'
          then in_long false (digits_value 0 (d ∷ s))
          else none)
      else in_long false (digits_value 0 (c ∷ d ∷ s))

-- `bigint.toString()`
unfoldable pub long_text : ℤ → Str
long_text (pos n) = decimal n
long_text (negsuc n) = b'-' ∷ decimal (suc n)
