-- ===== src/Cycles/Validate.antt =====
-- cycleRules.ts `validateCycleRequests`: the list of problems, each by what it says and the values that
-- its text holds.
pub mod Overlap
pub mod Correct
use when_i_off.Prelude.{
  Str, ℕ, suc, ◌+◌, ◌≡◌, Bool, true, false, ◌&&◌, ◌||◌, not, List, [], ◌∷◌, ◌++◌, Option, none,
  some, if◌then◌else◌, leb, ltb, ◌==◌, length, filter,
}
use when_i_off.Prelude.Sort.{sort}
use when_i_off.Prelude.Number.{Number, of_ℕ, is_integer, num_le, num_lt}
use when_i_off.Api.{DayType, weekday, saturday, sunday_holiday, day_eq}
use when_i_off.Cycles.{TrafficSignalCycleRequest, seconds_of_day}

pub data CycleError : Type 0 where
  too_many_rows : CycleError
  bad_cycle bad_red : ℕ → CycleError
  red_not_below : ℕ → Number → Number → CycleError
  bad_band : ℕ → CycleError
  band_order : ℕ → Str → Str → CycleError
  overlap : ℕ → ℕ → DayType → CycleError

-- An entry of `bands`.
pub record Band : Type 0 where
  pub i : ℕ
  pub day_type : DayType
  pub start : ℕ
  pub end : ℕ

pub cycle_ok : Number → Bool
cycle_ok cycle = is_integer cycle && num_le (of_ℕ 30) cycle && num_le cycle (of_ℕ 300)

pub duration_errors : ℕ → Number → Number → List CycleError
duration_errors p cycle red =
    (if cycle_ok cycle then [] else bad_cycle p ∷ [])
    ++ (if not (is_integer red) || num_le red (of_ℕ 0)
        then bad_red p ∷ []
        else if cycle_ok cycle && num_le cycle red
        then red_not_below p red cycle ∷ []
        else [])

-- the problem of a band, and the band if it has none
pub check_band : ℕ → TrafficSignalCycleRequest → Option ℕ → Option ℕ → List CycleError × List Band
check_band i r none e = (bad_band (i + 1) ∷ [], [])
check_band i r (some s) none = (bad_band (i + 1) ∷ [], [])
check_band i r (some s) (some e) =
    if leb e s
    then (band_order (i + 1) r.time_band_start r.time_band_end ∷ [], [])
    else ([], record { i = i; day_type = r.day_type; start = s; end = e } ∷ [])

pub band_of : ℕ → TrafficSignalCycleRequest → List CycleError × List Band
unfolding check_band
band_of i r = check_band i r (seconds_of_day r.time_band_start) (seconds_of_day r.time_band_end)

-- the `forEach`: the problems of the rows, and `bands`
pub check_rows : ℕ → List TrafficSignalCycleRequest → List CycleError × List Band
check_rows i [] = ([], [])
check_rows i (r ∷ rs) =
    let (errors, bands) = band_of i r in
    let (more, others) = check_rows (i + 1) rs in
    (
      (duration_errors (i + 1) r.cycle_duration_sec r.red_duration_sec ++ errors) ++ more,
      bands ++ others,
    )

-- neighbours of a sorted list of bands
pub overlaps : DayType → List Band → List CycleError
overlaps day [] = []
overlaps day (a ∷ []) = []
overlaps day (a ∷ b ∷ rest) =
    (if ltb b.start a.end then overlap (a.i + 1) (b.i + 1) day ∷ [] else [])
    ++ overlaps day (b ∷ rest)

abbrev pub by_start : Band → Band → Bool
by_start a b = leb a.start b.start

pub day_overlaps : List Band → DayType → List CycleError
unfolding overlaps
day_overlaps bands day = overlaps day (sort by_start (filter (λ b. day_eq b.day_type day) bands))

unfoldable pub validate_cycle_requests : List TrafficSignalCycleRequest → List CycleError
unfolding check_rows band_of duration_errors cycle_ok day_overlaps sort
validate_cycle_requests requests =
    let (errors, bands) = check_rows 0 requests in
    (if ltb 100 (length requests) then too_many_rows ∷ [] else [])
    ++ (errors
        ++ (day_overlaps bands weekday
            ++ (day_overlaps bands saturday ++ day_overlaps bands sunday_holiday)))
