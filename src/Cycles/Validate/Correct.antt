-- ===== src/Cycles/Validate/Correct.antt =====
-- `validateCycleRequests` reports nothing exactly for the lists that the server's rules accept.
use when_i_off.Prelude.{
  ℕ, ◌+◌, ◌≤◌, ◌<◌, ◌≡◌, ◌↔◌, refl, sym, ◌∙◌, Bool, true, false, ◌||◌, not, List, [], ◌∷◌, ◌++◌,
  Option, none, some, if◌then◌else◌, leb, ltb, length, All, All-append, arith, append-eq_nil,
  append-nil_of,
}
use when_i_off.Prelude.{Pairs}
use when_i_off.Prelude.Number.{
  Number, IsNat, of_ℕ, is_integer, num_le, IsNat-of, num_le-nat, num_le-zero, is_integer-nat,
  num_le-of_not_le, lt-of_not_le, not_le-of_lt,
}
use when_i_off.Api.{DayType, weekday, saturday, sunday_holiday, day_eq}
use when_i_off.Cycles.{TrafficSignalCycleRequest, seconds_of_day}
use when_i_off.Cycles.Validate.{
  too_many_rows, Band, cycle_ok, duration_errors, check_band, band_of, check_rows, day_overlaps,
  validate_cycle_requests,
}
use when_i_off.Cycles.Validate.Overlap.{IsBand, Apart, day_overlaps_iff, Apart-iff}

-- The durations: a whole cycle of 30 to 300 seconds with a whole red time inside it.
abbrev pub HasDurations : Number → Number → Type 0
HasDurations cycle red =
    (c : ℕ) × (r : ℕ) × IsNat c cycle × IsNat r red × (30 ≤ c) × (c ≤ 300) × (0 < r) × (r < c)

-- The band: two times of day in order.
abbrev pub HasBand : Option ℕ → Option ℕ → Type 0
HasBand (some s) (some e) = s < e
HasBand _ _ = ⊥

abbrev pub IsRow : TrafficSignalCycleRequest → Type 0
IsRow r =
    HasDurations r.cycle_duration_sec r.red_duration_sec
    × HasBand (seconds_of_day r.time_band_start) (seconds_of_day r.time_band_end)

cycle_ok→nat : (x : Number) → cycle_ok x ≡ true → (c : ℕ) × IsNat c x × (30 ≤ c) × (c ≤ 300)
unfolding cycle_ok
cycle_ok→nat x h =
    let int : is_integer x ≡ true = ground arith in
    let low : num_le (of_ℕ 30) x ≡ true = ground arith in
    let high : num_le x (of_ℕ 300) ≡ true = ground arith in
    let (c, p) = IsNat-of x int (num_le-zero x 30 low) in
    (
      c,
      p,
      (num_le-nat (of_ℕ 30) x 30 c refl p).0 low,
      (num_le-nat x (of_ℕ 300) c 300 p refl).0 high,
    )

nat→cycle_ok : (x : Number) (c : ℕ) → IsNat c x → 30 ≤ c → c ≤ 300 → cycle_ok x ≡ true
unfolding cycle_ok
nat→cycle_ok x c p l h = rw (
  is_integer-nat x c p,
  (num_le-nat (of_ℕ 30) x 30 c refl p).1 l,
  (num_le-nat x (of_ℕ 300) c 300 p refl).1 h,
)

duration_errors→ :
    (i : ℕ) (cycle red : Number) → duration_errors i cycle red ≡ [] → HasDurations cycle red
unfolding duration_errors
duration_errors→ i cycle red h =
    let fine : cycle_ok cycle ≡ true = ground arith in
    let whole : is_integer red ≡ true = ground arith in
    let above : num_le red (of_ℕ 0) ≡ false = ground arith in
    let inside : num_le cycle red ≡ false = ground arith in
    let (c, p, low, high) = cycle_ok→nat cycle fine in
    let (r, q) = IsNat-of red whole (num_le-of_not_le red 0 whole above) in
    (
      c,
      r,
      p,
      q,
      low,
      high,
      lt-of_not_le red (of_ℕ 0) r 0 q refl above,
      lt-of_not_le cycle red c r p q inside,
    )

duration_errors← :
    (i : ℕ) (cycle red : Number) → HasDurations cycle red → duration_errors i cycle red ≡ []
unfolding duration_errors
duration_errors← i cycle red (c, r, p, q, l, h, pos, lt) = rw (
  nat→cycle_ok cycle c p l h,
  is_integer-nat red r q,
  not_le-of_lt red (of_ℕ 0) r 0 q refl pos,
  not_le-of_lt cycle red c r p q lt,
)

check_band→ :
    (i : ℕ) (r : TrafficSignalCycleRequest) (s e : Option ℕ)
    → (check_band i r s e).0 ≡ []
    → HasBand s e
unfolding check_band
check_band→ i r none e h = absurd (cc)
check_band→ i r (some s) none h = absurd (cc)
check_band→ i r (some s) (some e) h = ground arith

check_band← :
    (i : ℕ) (r : TrafficSignalCycleRequest) (s e : Option ℕ)
    → HasBand s e
    → (check_band i r s e).0 ≡ []
unfolding check_band
check_band← i r none e h = absurd h
check_band← i r (some s) none h = absurd h
check_band← i r (some s) (some e) h = ground arith

-- whatever is pushed to `bands` is a band
check_band-IsBand :
    (i : ℕ) (r : TrafficSignalCycleRequest) (s e : Option ℕ) → All IsBand (check_band i r s e).1
unfolding check_band
check_band-IsBand i r none e = tt
check_band-IsBand i r (some s) none = tt
check_band-IsBand i r (some s) (some e) = ground arith

check_rows-IsBand : (i : ℕ) (rs : List TrafficSignalCycleRequest) → All IsBand (check_rows i rs).1
unfolding check_rows band_of
check_rows-IsBand i [] = tt
check_rows-IsBand i (r ∷ rs) =
    All-append IsBand _ _
      (check_band-IsBand i r (seconds_of_day r.time_band_start) (seconds_of_day r.time_band_end))
      (check_rows-IsBand (i + 1) rs)

check_rows→ :
    (i : ℕ) (rs : List TrafficSignalCycleRequest) → (check_rows i rs).0 ≡ [] → All IsRow rs
unfolding check_rows band_of
check_rows→ i [] h = tt
check_rows→ i (r ∷ rs) h =
    let (own, rest) = append-eq_nil _ (check_rows (i + 1) rs).0 h in
    let (durations, band) = append-eq_nil _ _ own in
    (
      (duration_errors→ (i + 1) _ _ durations, check_band→ i r _ _ band),
      check_rows→ (i + 1) rs rest,
    )

check_rows← :
    (i : ℕ) (rs : List TrafficSignalCycleRequest) → All IsRow rs → (check_rows i rs).0 ≡ []
unfolding check_rows band_of
check_rows← i [] h = refl
check_rows← i (r ∷ rs) ((durations, band), h) =
    append-nil_of _ _
      (append-nil_of _ _ (duration_errors← (i + 1) _ _ durations) (check_band← i r _ _ band))
      (check_rows← (i + 1) rs h)

-- The times of two rows have no second in common.
abbrev pub times_apart : Option ℕ → Option ℕ → Option ℕ → Option ℕ → Bool
times_apart (some s) (some e) (some t) (some f) = leb e t || leb f s
times_apart _ _ _ _ = true

-- Two rows are of different day types, or their times are apart.
abbrev pub RowsApart : TrafficSignalCycleRequest → TrafficSignalCycleRequest → Type 0
RowsApart r q =
    (not (day_eq q.day_type r.day_type)
      || times_apart (seconds_of_day r.time_band_start) (seconds_of_day r.time_band_end)
          (seconds_of_day q.time_band_start) (seconds_of_day q.time_band_end))
    ≡ true

HasBand-some :
    (s e : Option ℕ) → HasBand s e → (a : ℕ) × (b : ℕ) × (s ≡ some a) × (e ≡ some b) × (a < b)
HasBand-some none e h = absurd h
HasBand-some (some a) none h = absurd h
HasBand-some (some a) (some b) h = (a, b, refl, refl, h)

abbrev band_at : ℕ → TrafficSignalCycleRequest → ℕ → ℕ → Band
band_at i r a b = record { i = i; day_type = r.day_type; start = a; end = b }

-- the bands of a list whose first row is in order
check_rows-band :
    (i : ℕ) (r : TrafficSignalCycleRequest) (rs : List TrafficSignalCycleRequest) (a b : ℕ)
    → seconds_of_day r.time_band_start ≡ some a
    → seconds_of_day r.time_band_end ≡ some b
    → a < b
    → (check_rows i (r ∷ rs)).1 ≡ band_at i r a b ∷ (check_rows (i + 1) rs).1
unfolding check_rows band_of check_band
check_rows-band i r rs a b s e h = rw (s, e) (ground arith)

All-Apart :
    (i j : ℕ) (r : TrafficSignalCycleRequest) (rs : List TrafficSignalCycleRequest) (a b : ℕ)
    → seconds_of_day r.time_band_start ≡ some a
    → seconds_of_day r.time_band_end ≡ some b
    → All IsRow rs
    → All (Apart (band_at j r a b)) (check_rows i rs).1 ↔ All (RowsApart r) rs
unfolding check_rows
All-Apart i j r [] a b s e h = ((λ _. tt), (λ _. tt))
All-Apart i j r (q ∷ rs) a b s e ((_, band), h) =
    let (c, d, t, f, lt) = HasBand-some _ _ band in
    let (to, from) = All-Apart (i + 1) j r rs a b s e h in
    rw (check_rows-band i q rs c d t f lt, s, e, t, f)
      ((λ (x, y). (x, to y)), λ (x, y). (x, from y))

Pairs-Apart :
    (i : ℕ) (rs : List TrafficSignalCycleRequest)
    → All IsRow rs
    → Pairs Apart (check_rows i rs).1 ↔ Pairs RowsApart rs
unfolding check_rows
Pairs-Apart i [] h = ((λ _. tt), (λ _. tt))
Pairs-Apart i (r ∷ rs) ((_, band), h) =
    let (a, b, s, e, lt) = HasBand-some _ _ band in
    let (to, from) = All-Apart (i + 1) i r rs a b s e h in
    let (all_to, all_from) = Pairs-Apart (i + 1) rs h in
    rw (check_rows-band i r rs a b s e lt)
      ((λ (x, y). (to x, all_to y)), λ (x, y). (from x, all_from y))

-- What the server's rules ask of a list.
pub record IsValid (requests : List TrafficSignalCycleRequest) : Type 0 where
  pub at_most : length requests ≤ 100
  pub rows : All IsRow requests
  pub apart : Pairs RowsApart requests

validate_lem :
    (requests : List TrafficSignalCycleRequest)
    → validate_cycle_requests requests
      ≡ (if ltb 100 (length requests) then too_many_rows ∷ [] else [])
        ++ ((check_rows 0 requests).0
            ++ (day_overlaps (check_rows 0 requests).1 weekday
                ++ (day_overlaps (check_rows 0 requests).1 saturday
                    ++ day_overlaps (check_rows 0 requests).1 sunday_holiday)))
unfolding validate_cycle_requests
validate_lem requests = refl

few_le : (n : ℕ) → (if ltb 100 n then too_many_rows ∷ [] else []) ≡ [] → n ≤ 100
few_le n h = ground arith

validate→ :
    (requests : List TrafficSignalCycleRequest)
    → validate_cycle_requests requests ≡ []
    → IsValid requests
validate→ requests h =
    let bands = (check_rows 0 requests).1 in
    let all = check_rows-IsBand 0 requests in
    let (few, h1) = append-eq_nil _ _ (sym (validate_lem requests) ∙ h) in
    let (rows, h2) = append-eq_nil _ _ h1 in
    let (w, h3) = append-eq_nil _ _ h2 in
    let (s, u) = append-eq_nil _ _ h3 in
    let valid = check_rows→ 0 requests rows in
    record {
      at_most = few_le (length requests) few;
      rows = valid;
      apart =
          (Pairs-Apart 0 requests valid).0 (
            (Apart-iff bands).0 (λ day. (day_overlaps_iff day bands all).0 (each bands w s u day)));
    }
  where
    each :
        (bands : List Band)
        → day_overlaps bands weekday ≡ []
        → day_overlaps bands saturday ≡ []
        → day_overlaps bands sunday_holiday ≡ []
        → (day : DayType) → day_overlaps bands day ≡ []
    each bands w s u weekday = w
    each bands w s u saturday = s
    each bands w s u sunday_holiday = u

validate← :
    (requests : List TrafficSignalCycleRequest)
    → IsValid requests
    → validate_cycle_requests requests ≡ []
validate← requests v =
    let bands = (check_rows 0 requests).1 in
    let all = check_rows-IsBand 0 requests in
    let pairs = (Pairs-Apart 0 requests v.rows).1 v.apart in
    let none_on =
      λ (day : DayType). (day_overlaps_iff day bands all).1 ((Apart-iff bands).1 pairs day) in
    let few : ltb 100 (length requests) ≡ false = (let k = v.at_most in ground arith) in
    validate_lem requests
    ∙ rw (
      few,
      check_rows← 0 requests v.rows,
      none_on weekday,
      none_on saturday,
      none_on sunday_holiday,
    )

-- The client finds no problem in a list of requests if and only if it has at most 100 rows, every row
-- has whole durations in range and a band in order, and no two rows of one day type overlap.
pub validate_cycle_requests_iff :
    (requests : List TrafficSignalCycleRequest)
    → (validate_cycle_requests requests ≡ []) ↔ IsValid requests
validate_cycle_requests_iff requests = (validate→ requests, validate← requests)
