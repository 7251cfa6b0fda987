-- ===== src/Csv/LocalTime/Canonical.antt =====
-- What `parseLocalTime` accepts: times of day in range, each printed in one way.
use when_i_off.Prelude.{
  Str, ℕ, zero, suc, ◌+◌, ◌-◌, ◌*◌, ◌^◌, ◌≤◌, ◌<◌, ◌≡◌, refl, sym, Bool, true, false, ◌&&◌, [], ◌∷◌,
  ap, ◌++◌, Option, none, some, if◌then◌else◌, leb, ◌==◌, arith, all, Bool-cases, inl, inr, length,
  replicate, length-append, length-replicate, All-append, Option-cases,
}
use when_i_off.Prelude.Decimal.{is_digit, AreDigits, number_from}
use native.Mathlib.Nat.{pow-suc}
use when_i_off.Csv.LocalTime.{
  Groups, Time, exec_fraction, exec_second, with_second, exec_local_time, time_of, time_of_groups,
  format_time, read_time, text_of_time, parse_local_time, nanos_of,
}
use when_i_off.Csv.LocalTime.Laws.{IsTime, read_time-format_time, read_time_lem}

number_from-lt : (v : ℕ) (s : Str) → AreDigits s → number_from v s < (v + 1) * 10 ^ length s
unfolding number_from
number_from-lt v [] h = omega arith
number_from-lt v (c ∷ s) ((lo, hi), h) =
    let step : v * 10 + (c - 48) + 1 ≤ (v + 1) * 10 = omega arith in
    rw (pow-suc 10 (length s)) (grind (arith, number_from-lt (v * 10 + (c - 48)) s h, step))

-- the fraction, when the expression took one, is at most nine digits
abbrev IsNanos : Option Str → Type 0
IsNanos none = Unit
IsNanos (some s) = AreDigits s × (length s ≤ 9)

digits_of_all : (s : Str) → all is_digit s ≡ true → AreDigits s
digits_of_all [] h = tt
digits_of_all (c ∷ s) h = ((ground arith, ground arith), digits_of_all s (ground arith))

zeros-AreDigits : (k : ℕ) → AreDigits (replicate k 48)
zeros-AreDigits zero = tt
zeros-AreDigits (suc k) = ((omega arith, omega arith), zeros-AreDigits k)

nanos_of-lt : (f : Option Str) → IsNanos f → nanos_of f < 1_000_000_000
unfolding number_from
nanos_of-lt none h = omega arith
nanos_of-lt (some s) (d, l) =
    let zeros = replicate {A = ℕ} (9 - length s) 48 in
    let nine : length (s ++ zeros) ≡ 9 =
      omega (arith, length-append s zeros, length-replicate {A = ℕ} (9 - length s) 48) in
    rw nine at
      (number_from-lt 0 (s ++ zeros) (All-append _ s zeros d (zeros-AreDigits (9 - length s))))

exec_fraction-IsNanos : (s : Str) (f : Option Str) → exec_fraction s ≡ some f → IsNanos f
unfolding exec_fraction
exec_fraction-IsNanos [] f h = let e : none ≡ f = cc in rw (← e) tt
exec_fraction-IsNanos (c ∷ s) f h =
    elim (Bool-cases (c == b'.' && all is_digit s && leb (length s) 9)) [
      | inl e ↦
          let g : some s ≡ f = ground arith in
          rw (← g) (digits_of_all s (ground arith), ground arith)
      | inr e ↦ absurd (ground arith)
    ]

exec_second-IsNanos : (h mi s : Str) (g : Groups) → exec_second h mi s ≡ some g → IsNanos g.fraction
unfolding exec_second with_second
exec_second-IsNanos h mi [] g e =
    let r : record { hour = h; minute = mi; second = none; fraction = none } ≡ g = cc in rw (← r) tt
exec_second-IsNanos h mi (c ∷ []) g e = absurd (cc)
exec_second-IsNanos h mi (c ∷ a ∷ []) g e = absurd (cc)
exec_second-IsNanos h mi (c ∷ a ∷ b ∷ s) g e = elim (Option-cases (exec_fraction s)) [
  | inl n ↦ absurd (ground arith)
  | inr (f, n) ↦ let r : f ≡ g.fraction = ground arith in rw (← r) (exec_fraction-IsNanos s f n)
]

exec_local_time-IsNanos : (s : Str) (g : Groups) → exec_local_time s ≡ some g → IsNanos g.fraction
unfolding exec_local_time
exec_local_time-IsNanos [] g e = absurd (cc)
exec_local_time-IsNanos (a ∷ []) g e = absurd (cc)
exec_local_time-IsNanos (a ∷ b ∷ []) g e = absurd (cc)
exec_local_time-IsNanos (a ∷ b ∷ c ∷ []) g e = absurd (cc)
exec_local_time-IsNanos (a ∷ b ∷ c ∷ d ∷ []) g e = absurd (cc)
exec_local_time-IsNanos (a ∷ b ∷ c ∷ d ∷ x ∷ s) g e =
    exec_second-IsNanos (a ∷ b ∷ []) (d ∷ x ∷ []) s g (inner _ _ e)
  where
    inner : (t : Bool) (o : Option Groups) → (if t then o else none) ≡ some g → o ≡ some g
    inner true o h = h
    inner false o h = absurd (cc)

time_of-IsTime : (g : Groups) (t : Time) → IsNanos g.fraction → time_of g ≡ some t → IsTime t
unfolding time_of
time_of-IsTime g t n h =
    let bound = nanos_of-lt g.fraction n in
    record {
      hour_le = ground arith;
      minute_le = ground arith;
      second_le = ground arith;
      nanos_lt = ground arith;
    }

pub read_time-IsTime : (s : Str) (t : Time) → read_time s ≡ some t → IsTime t
unfolding time_of_groups
read_time-IsTime s t h = elim (Option-cases (exec_local_time s)) [
  | inl e ↦ absurd (let k = rw (read_time_lem, e) at h in cc)
  | inr (g, e) ↦ time_of-IsTime g t (exec_local_time-IsNanos s g e) (rw (read_time_lem, e) at h)
]

parse_local_time_lem : (s : Str) → parse_local_time s ≡ text_of_time (read_time s)
unfolding parse_local_time
parse_local_time_lem s = refl

-- A text that `parseLocalTime` accepts stands for a time of day in range, its result is that time
-- printed, and reading the result gives the same time again: equal times have one text.
pub parse_local_time_canonical :
    (s o : Str)
    → parse_local_time s ≡ some o
    → (t : Time) × IsTime t
      × (read_time s ≡ some t)
      × (o ≡ format_time t)
      × (read_time o ≡ some t)
      × (parse_local_time o ≡ some o)
unfolding text_of_time
parse_local_time_canonical s o h = elim (Option-cases (read_time s)) [
  | inl e ↦ absurd (let k = rw (parse_local_time_lem, e, text_of_time) at h in cc)
  | inr (t, e) ↦
      let same : o ≡ format_time t =
        (let k = rw (parse_local_time_lem, e, text_of_time) at h in ground arith) in
      let range = read_time-IsTime s t e in
      let again : read_time o ≡ some t = rw same (read_time-format_time t range) in
      (
        t,
        range,
        e,
        same,
        again,
        rw (parse_local_time_lem, again, text_of_time) (ap some (sym same)),
      )
]
