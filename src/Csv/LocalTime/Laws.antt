-- ===== src/Csv/LocalTime/Laws.antt =====
-- Printing a time of day and reading it again, and the canonical form of `parseLocalTime`.
use when_i_off.Prelude.{
  Str, ℕ, ◌+◌, ◌-◌, ◌*◌, ◌/◌, ◌%◌, ◌^◌, ◌≤◌, ◌<◌, ◌≡◌, refl, sym, Bool, true, ◌||◌, [], ◌∷◌, ◌∙◌,
  ◌++◌, Option, none, some, if◌then◌else◌, ltb, ◌==◌, arith, all, Bool-cases, inl, inr, le→leb,
  length, take,
}
use when_i_off.Prelude.Decimal.{
  is_digit, AreDigits, number_from, number_of, number_from-append, fixed, fixed-AreDigits,
  length-fixed, number_of-fixed, pad_start-decimal, pad_end, number_from-zeros,
}
use when_i_off.Csv.LocalTime.{
  Time, exec_fraction, exec_second, with_second, exec_local_time, time_of, time_of_groups,
  fraction_text, format_time, read_time, nanos_of, number_or_zero, pad,
}

-- The ranges of a `LocalTime`.
pub record IsTime (t : Time) : Type 0 where
  pub hour_le : t.hour ≤ 23
  pub minute_le : t.minute ≤ 59
  pub second_le : t.second ≤ 59
  pub nanos_lt : t.nanos < 1_000_000_000

all_digits : (s : Str) → AreDigits s → all is_digit s ≡ true
all_digits [] h = refl
all_digits (c ∷ s) (p, h) = ground (arith, all_digits s h)

pad_two : (n : ℕ) → n < 100 → pad n ≡ (48 + n / 10 % 10) ∷ (48 + n % 10) ∷ []
unfolding fixed
pad_two n h = pad_start-decimal 1 n (omega arith)

take_three : (n : ℕ) → take 3 (fixed 9 n) ≡ fixed 3 (n / 10 / 10 / 10 / 10 / 10 / 10)
unfolding fixed
take_three n = refl

take_six : (n : ℕ) → take 6 (fixed 9 n) ≡ fixed 6 (n / 10 / 10 / 10)
unfolding fixed
take_six n = refl

-- the text stands for the nanoseconds, and the expression accepts it
abbrev IsFraction : ℕ → Str → Type 0
IsFraction n s = AreDigits s × (length s ≤ 9) × (number_of (pad_end 9 s) ≡ n)

fixed-IsFraction :
    (k j m n : ℕ) → k + j ≡ 9 → m < 10 ^ k → m * 10 ^ j ≡ n → IsFraction n (fixed k m)
fixed-IsFraction k j m n e h v =
    let gap : 9 - length (fixed k m) ≡ j = omega (arith, length-fixed k m) in
    (
      fixed-AreDigits k m,
      omega (arith, length-fixed k m),
      rw gap (
          number_from-append 0 (fixed k m) _
          ∙ rw (number_of-fixed k m h) (number_from-zeros j m ∙ v)),
    )

fraction_text-IsFraction : (n : ℕ) → n < 1_000_000_000 → IsFraction n (fraction_text n)
unfolding fraction_text
fraction_text-IsFraction n h =
    rw (pad_start-decimal 8 n (omega arith)) (elim (Bool-cases (n % 1_000_000 == 0)) [
      | inl e ↦ rw (e, take_three n) (fixed-IsFraction 3 6 _ n refl (omega arith) (ground arith))
      | inr e ↦ elim (Bool-cases (n % 1000 == 0)) [
        | inl d ↦ rw (e, d, take_six n) (fixed-IsFraction 6 3 _ n refl (omega arith) (ground arith))
        | inr d ↦ rw (e, d) (fixed-IsFraction 9 0 n n refl (omega arith) (omega arith))
      ]
    ])

exec_fraction_text :
    (n : ℕ)
    → n < 1_000_000_000
    → exec_fraction (b'.' ∷ fraction_text n) ≡ some (some (fraction_text n))
unfolding exec_fraction
exec_fraction_text n h =
    let (digits, short, value) = fraction_text-IsFraction n h in
    rw (all_digits (fraction_text n) digits, le→leb _ _ short)

number_of-pad : (n : ℕ) → n < 100 → number_of (pad n) ≡ n
unfolding number_from
number_of-pad n h = rw (pad_two n h) (omega arith)

exec_head :
    (h mi : ℕ) (rest : Str)
    → h < 100
    → mi < 100
    → exec_local_time (pad h ++ b':' ∷ (pad mi ++ rest)) ≡ exec_second (pad h) (pad mi) rest
unfolding exec_local_time
exec_head h mi rest p q = rw (pad_two h p, pad_two mi q) (ground arith)

exec_seconds :
    (h mi : Str) (s : ℕ) (rest : Str)
    → s < 100
    → exec_second h mi (b':' ∷ (pad s ++ rest)) ≡ with_second h mi (pad s) (exec_fraction rest)
unfolding exec_second
exec_seconds h mi s rest p = rw (pad_two s p) (ground arith)

pub read_time_lem : (s : Str) → read_time s ≡ time_of_groups (exec_local_time s)
unfolding read_time
read_time_lem s = refl

format_time_lem :
    (t : Time)
    → format_time t
      ≡ pad t.hour
        ++ b':'
          ∷ (pad t.minute
              ++ ((if ltb 0 t.second || ltb 0 t.nanos then b':' ∷ pad t.second else [])
                  ++ (if ltb 0 t.nanos then b'.' ∷ fraction_text t.nanos else [])))
unfolding format_time
format_time_lem t = refl

or_true : (b : Bool) → (b || true) ≡ true
or_true b = ground arith

module _ (t : Time) (ok : IsTime t) where
  time_of_parts :
      (s f : Option Str)
      → number_or_zero s ≡ t.second
      → nanos_of f ≡ t.nanos
      → time_of (record { hour = pad t.hour; minute = pad t.minute; second = s; fraction = f })
        ≡ some t
  unfolding time_of
  time_of_parts s f p q =
      ground (arith, number_of-pad t.hour (omega arith), number_of-pad t.minute (omega arith))

  read_with_fraction :
      read_time (
        pad t.hour
        ++ b':' ∷ (pad t.minute ++ b':' ∷ (pad t.second ++ b'.' ∷ fraction_text t.nanos)))
      ≡ some t
  unfolding with_second time_of_groups
  read_with_fraction =
      let frac = fraction_text-IsFraction t.nanos ok.nanos_lt in
      rw
        (
          read_time_lem,
          exec_head t.hour t.minute _ (omega arith) (omega arith),
          exec_seconds (pad t.hour) (pad t.minute) t.second _ (omega arith),
          exec_fraction_text t.nanos ok.nanos_lt,
        )
        (time_of_parts (some (pad t.second)) (some (fraction_text t.nanos))
          (number_of-pad t.second (omega arith)) (frac.2))

  read_with_second :
      t.nanos ≡ 0
      → read_time (pad t.hour ++ b':' ∷ (pad t.minute ++ b':' ∷ (pad t.second ++ []))) ≡ some t
  unfolding with_second time_of_groups exec_fraction number_from
  read_with_second z =
      rw
        (
          read_time_lem,
          exec_head t.hour t.minute _ (omega arith) (omega arith),
          exec_seconds (pad t.hour) (pad t.minute) t.second _ (omega arith),
        )
        (time_of_parts (some (pad t.second)) none (number_of-pad t.second (omega arith)) (sym z))

  read_short :
      t.second ≡ 0 → t.nanos ≡ 0 → read_time (pad t.hour ++ b':' ∷ (pad t.minute ++ [])) ≡ some t
  unfolding time_of_groups exec_second number_from
  read_short y z =
      rw (read_time_lem, exec_head t.hour t.minute _ (omega arith) (omega arith))
        (time_of_parts none none (sym y) (sym z))

  -- A time of day in range is read back from its text.
  pub read_time-format_time : read_time (format_time t) ≡ some t
  read_time-format_time = elim (Bool-cases (ltb 0 t.nanos)) [
    | inl e ↦ rw (format_time_lem, e, or_true) read_with_fraction
    | inr e ↦ elim (Bool-cases (ltb 0 t.second)) [
      | inl d ↦ rw (format_time_lem, d, e) (read_with_second (ground arith))
      | inr d ↦ rw (format_time_lem, d, e) (read_short (ground arith) (ground arith))
    ]
  ]
