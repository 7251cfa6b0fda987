-- ===== src/Tests/Corrections.antt =====
-- A correction of a trip and of an attempt, with a calendar that knows one day.
use when_i_off.Prelude.{codes, [], none, some}
use when_i_off.Prelude.Int.{pos}
use when_i_off.Api.{caught}
use when_i_off.Kst.{DateEngine}
use when_i_off.Trips.{CommuteTrip}
use when_i_off.Trips.Corrections.{
  TripTimesForm, AttemptForm, UpdateCommuteTripRequest, UpdateBoardingAttemptRequest,
}

abbrev pub one_day : DateEngine
one_day = record {
  parse = λ s. none;
  utc = λ y mo d h mi s. pos 86_400_000;
  utc_month = λ ms. 8;
  utc_date = λ ms. 17;
  to_iso_string = λ ms. codes "2026-09-17T00:00:00.000Z";
}

abbrev trip : CommuteTrip
trip = record { left_home_at = none; arrived_destination_at = none; boarding_attempts = [] }

abbrev form : TripTimesForm
form = record { left_home_at = codes "2026-09-17T09:00"; arrived_destination_at = [] }

abbrev patch : UpdateCommuteTripRequest
patch = record { left_home_at = some (codes "2026-09-17T00:00:00Z"); arrived_destination_at = none }

abbrev caught_now : AttemptForm
caught_now = record {
  vehicle_actual_departure_at = codes "2026-09-17T09:00:00";
  alighted_at = [];
  result = caught;
  notes = codes "late";
}

abbrev attempt_change : UpdateBoardingAttemptRequest
attempt_change = record {
  vehicle_actual_departure_at = some (codes "2026-09-17T00:00:00Z");
  alighted_at = none;
  result = some caught;
  notes = some (codes "late");
}
