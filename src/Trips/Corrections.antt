-- ===== src/Trips/Corrections.antt =====
-- desktop/src/trips/corrections.ts: the correction forms of a trip and of an attempt, and their patches.
pub mod Changes
use when_i_off.Prelude.{
  Str, codes, str_eq, ℕ, ◌≡◌, Bool, true, false, ◌&&◌, not, List, [], ◌∷◌, Option, none, some,
  if◌then◌else◌,
}
use when_i_off.Prelude.JsText.{trim}
use when_i_off.Api.{AttemptResult, caught, missed, unknown, BoardingAttempt}
use when_i_off.Kst.{DateEngine, kst_input_to_iso, iso_to_kst_input}
use when_i_off.Trips.{CommuteTrip}

-- Which field, and what is wrong with it.
pub data TimeField : Type 0 where
  left_home arrived_destination departure alighting : TimeField

pub data PatchProblem : Type 0 where
  cannot_clear bad_format : TimeField → PatchProblem

pub data PatchResult (T : Type 0) : Type 0 where
  ok : T → PatchResult T
  failed : PatchProblem → PatchResult T

pub record TripTimesForm : Type 0 where
  pub left_home_at : Str
  pub arrived_destination_at : Str

pub record AttemptForm : Type 0 where
  pub vehicle_actual_departure_at : Str
  pub alighted_at : Str
  pub result : AttemptResult
  pub notes : Str

-- The bodies of the requests: a field that is left out is `none`.
pub record UpdateCommuteTripRequest : Type 0 where
  pub left_home_at : Option Str
  pub arrived_destination_at : Option Str

pub record UpdateBoardingAttemptRequest : Type 0 where
  pub vehicle_actual_departure_at : Option Str
  pub alighted_at : Option Str
  pub result : Option AttemptResult
  pub notes : Option Str

abbrev pub or_empty : Option Str → Str
or_empty none = []
or_empty (some s) = s

abbrev pub same_result : AttemptResult → AttemptResult → Bool
same_result caught caught = true
same_result missed missed = true
same_result unknown unknown = true
same_result _ _ = false

-- `before !== "" && iso === kstInputToIso(before)`
abbrev pub unchanged : Str → Str → Option Str → Bool
unchanged [] iso old = false
unchanged (c ∷ before) iso none = false
unchanged (c ∷ before) iso (some old) = str_eq iso old

module _ (date : DateEngine) where
  unfoldable pub trip_times_form : CommuteTrip → TripTimesForm
  trip_times_form trip = record {
    left_home_at = iso_to_kst_input date trip.left_home_at;
    arrived_destination_at = iso_to_kst_input date trip.arrived_destination_at;
  }

  unfoldable pub attempt_form : BoardingAttempt → AttemptForm
  attempt_form a = record {
    vehicle_actual_departure_at = iso_to_kst_input date a.vehicle_actual_departure_at;
    alighted_at = iso_to_kst_input date a.alighted_at;
    result = a.result;
    notes = or_empty a.notes;
  }

  pub change_to : TimeField → Str → Option Str → PatchResult (Option Str)
  change_to field before none = failed (bad_format field)
  change_to field before (some []) = failed (bad_format field)
  change_to field before (some (c ∷ s)) =
      ok (if unchanged before (c ∷ s) (kst_input_to_iso date before) then none else some (c ∷ s))

  -- `timeChange`
  pub time_change : TimeField → Option Str → Str → PatchResult (Option Str)
  unfolding change_to
  time_change field original input =
      let before = iso_to_kst_input date original in
      if str_eq (trim input) []
      then (if str_eq before [] then ok none else failed (cannot_clear field))
      else change_to field before (kst_input_to_iso date input)

  -- `collect` on two fields: the first problem, else both values
  pub collect_next : Option Str → PatchResult (Option Str) → PatchResult (Option Str × Option Str)
  collect_next a (failed p) = failed p
  collect_next a (ok b) = ok (a, b)

  pub collect :
      PatchResult (Option Str) → PatchResult (Option Str) → PatchResult (Option Str × Option Str)
  unfolding collect_next
  collect (failed p) second = failed p
  collect (ok a) second = collect_next a second

  pub trip_request : PatchResult (Option Str × Option Str) → PatchResult UpdateCommuteTripRequest
  trip_request (failed p) = failed p
  trip_request (ok (a, b)) = ok (record { left_home_at = a; arrived_destination_at = b })

  unfoldable pub trip_patch : CommuteTrip → TripTimesForm → PatchResult UpdateCommuteTripRequest
  unfolding trip_request collect time_change
  trip_patch trip form = trip_request (
      collect (time_change left_home trip.left_home_at form.left_home_at)
        (time_change arrived_destination trip.arrived_destination_at form.arrived_destination_at))

  pub attempt_request :
      BoardingAttempt
      → AttemptForm
      → PatchResult (Option Str × Option Str)
      → PatchResult UpdateBoardingAttemptRequest
  attempt_request attempt form (failed p) = failed p
  attempt_request attempt form (ok (a, b)) = ok (record {
    vehicle_actual_departure_at = a;
    alighted_at = b;
    result = if same_result form.result attempt.result then none else some form.result;
    notes = if str_eq form.notes (or_empty attempt.notes) then none else some form.notes;
  })

  unfoldable pub attempt_patch :
      BoardingAttempt → AttemptForm → PatchResult UpdateBoardingAttemptRequest
  unfolding attempt_request collect time_change
  attempt_patch attempt form = attempt_request attempt form (
      collect
        (time_change departure attempt.vehicle_actual_departure_at form.vehicle_actual_departure_at)
        (time_change alighting attempt.alighted_at form.alighted_at))
