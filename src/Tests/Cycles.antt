-- ===== src/Tests/Cycles.antt =====
-- The cycles of one crossing, in requests and in force.
use when_i_off.Prelude.{Str, codes, ◌≡◌, ◌↔◌, refl, List, [], ◌∷◌, Option, some}
use when_i_off.Prelude.Number.{of_ℕ, is_integer, num_le}
use when_i_off.Prelude.JsText.{trim, ends_with}
use when_i_off.Prelude.Text.{str_eq}
use when_i_off.Prelude.Decimal.{decimal, number_from}
use when_i_off.Api.{DayType, weekday}
use when_i_off.Cycles.{
  TrafficSignalCycle, TrafficSignalCycleRequest, user_observed, public_api, drafts_from_cycles,
  to_cycle_requests, seconds_of_day, time_input_value, to_int,
}
use when_i_off.Cycles.Validate.{overlap, validate_cycle_requests}
use when_i_off.Cycles.Validate.Correct.{IsValid, validate_cycle_requests_iff}
use when_i_off.Cycles.Effective.{cycle_of, effective_cycle}
use when_i_off.Cycles.Effective.Best.{IsBest, effective_cycle-IsBest}

abbrev morning : TrafficSignalCycle
morning = record {
  id = 1;
  day_type = weekday;
  time_band_start = codes "07:00:00";
  time_band_end = codes "10:00:00";
  cycle_duration_sec = 120;
  red_duration_sec = 80;
  source = user_observed;
}

abbrev all_day : TrafficSignalCycle
all_day = record morning {
  id = 2;
  time_band_start = codes "00:00";
  time_band_end = codes "23:59";
  red_duration_sec = 60;
  source = public_api;
}

abbrev request : TrafficSignalCycleRequest
request = record {
  day_type = weekday;
  time_band_start = codes "07:00";
  time_band_end = codes "10:00";
  cycle_duration_sec = of_ℕ 120;
  red_duration_sec = of_ℕ 80;
}

abbrev late_request : TrafficSignalCycleRequest
late_request = record request { time_band_start = codes "09:30"; time_band_end = codes "11:00" }

sent_back : to_cycle_requests (drafts_from_cycles (morning ∷ all_day ∷ [])) ≡ request ∷ []
unfolding to_cycle_requests drafts_from_cycles time_input_value to_int ends_with trim str_eq decimal
    number_from
sent_back = refl

two_overlap : validate_cycle_requests (late_request ∷ request ∷ []) ≡ overlap 2 1 weekday ∷ []
unfolding validate_cycle_requests is_integer num_le seconds_of_day trim number_from
two_overlap = refl

requests_checked : (validate_cycle_requests (request ∷ []) ≡ []) ↔ IsValid (request ∷ [])
requests_checked = validate_cycle_requests_iff (request ∷ [])

observed_first :
    effective_cycle (all_day ∷ morning ∷ []) weekday (codes "08:00") ≡ cycle_of (some morning)
unfolding effective_cycle seconds_of_day trim number_from
observed_first = refl

abbrev InForce : List TrafficSignalCycle → DayType → Str → Type 0
InForce rows day time =
    (hit : Option TrafficSignalCycle) × IsBest day (seconds_of_day time) rows hit
    × (effective_cycle rows day time ≡ cycle_of hit)

best-InForce : InForce (all_day ∷ morning ∷ []) weekday (codes "08:00")
best-InForce = effective_cycle-IsBest (all_day ∷ morning ∷ []) weekday (codes "08:00")
