-- ===== src/Cycles/Effective.antt =====
-- cycleRules.ts `sortCycles` and `effectiveCycle`: the cycle in force at a time of day.
pub mod Best
use when_i_off.Prelude.{
  Str, ℕ, ◌≡◌, Bool, true, false, ◌&&◌, List, [], ◌∷◌, Option, none, some, if◌then◌else◌, leb, ltb,
  ◌==◌, filter,
}
use when_i_off.Prelude.Sort.{sort}
use when_i_off.Api.{DayType, day_eq, day_index}
use when_i_off.Cycles.{TrafficSignalCycle, SignalDataSource, priority, seconds_of_day}

abbrev pub or_zero : Option ℕ → ℕ
or_zero none = 0
or_zero (some s) = s

-- the comparator of `sortCycles` is not above 0: day type, then start, then source
abbrev pub cycle_le : TrafficSignalCycle → TrafficSignalCycle → Bool
cycle_le a b =
    let s = or_zero (seconds_of_day a.time_band_start) in
    let t = or_zero (seconds_of_day b.time_band_start) in
    if day_index a.day_type == day_index b.day_type
    then (if s == t then leb (priority a.source) (priority b.source) else leb s t)
    else leb (day_index a.day_type) (day_index b.day_type)

unfoldable pub sort_cycles : List TrafficSignalCycle → List TrafficSignalCycle
unfolding sort
sort_cycles rows = sort cycle_le rows

-- `[start, end)` holds the time; an unreadable end holds nothing
abbrev pub holds : Option ℕ → Option ℕ → Option ℕ → Bool
holds (some at) (some s) (some e) = leb s at && ltb at e
holds _ _ _ = false

abbrev pub contains : DayType → Option ℕ → TrafficSignalCycle → Bool
contains day at r =
    day_eq r.day_type day
    && holds at (seconds_of_day r.time_band_start) (seconds_of_day r.time_band_end)

abbrev pub by_source : TrafficSignalCycle → TrafficSignalCycle → Bool
by_source a b = leb (priority a.source) (priority b.source)

pub record EffectiveCycle : Type 0 where
  pub cycle_sec : ℕ
  pub red_sec : ℕ
  pub source : Option SignalDataSource

abbrev pub head? : List TrafficSignalCycle → Option TrafficSignalCycle
head? [] = none
head? (r ∷ rs) = some r

-- `DEFAULT_CYCLE`, and a row's values
abbrev pub cycle_of : Option TrafficSignalCycle → EffectiveCycle
cycle_of none = record { cycle_sec = 120; red_sec = 90; source = none }
cycle_of (some r) = record {
  cycle_sec = r.cycle_duration_sec;
  red_sec = r.red_duration_sec;
  source = some r.source;
}

unfoldable pub effective_hit :
    List TrafficSignalCycle → DayType → Option ℕ → Option TrafficSignalCycle
unfolding sort_cycles sort
effective_hit rows day at = head? (sort by_source (filter (contains day at) (sort_cycles rows)))

unfoldable pub effective_cycle : List TrafficSignalCycle → DayType → Str → EffectiveCycle
unfolding effective_hit
effective_cycle rows day time_of_day =
    cycle_of (effective_hit rows day (seconds_of_day time_of_day))
