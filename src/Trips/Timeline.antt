-- ===== src/Trips/Timeline.antt =====
-- desktop/src/trips/timeline.ts: the events of a trip, leg by leg, and its numbers.
pub mod Groups
pub mod Attempts
pub mod Events
use when_i_off.Prelude.{
  Str, ℕ, ◌≡◌, Bool, true, false, ◌&&◌, not, List, [], ◌∷◌, ◌++◌, map, Option, none, some,
  if◌then◌else◌, leb, ltb, ◌==◌, any, filter, length, count,
}
use when_i_off.Prelude.Sort.{sort}
use when_i_off.Prelude.Int.{ℤ}
use when_i_off.Prelude.Number.{Number}
use when_i_off.Api.{AttemptResult, caught, missed, unknown, BoardingAttempt, RouteLeg, is_walk}
use when_i_off.Trips.{
  CommuteTrip, Entry, add_attempts, by_leg, attempts_at, by_seq, is_caught, is_missed, seconds_if,
  add_ids,
}

-- `predictionErrorSec`
unfoldable pub prediction_error_sec : (Str → Option ℤ) → BoardingAttempt → Option Number
unfolding seconds_if
prediction_error_sec parse attempt =
    seconds_if parse attempt.vehicle_actual_departure_at attempt.vehicle_scheduled_or_predicted_at

pub record LegRef : Type 0 where
  pub id : ℕ
  pub leg : Option RouteLeg

pub data TimelineEvent : Type 0 where
  left_home arrived_destination : Option Str → TimelineEvent
  arrived_stop : Option Str → LegRef → TimelineEvent
  -- "MISSED", "DEPARTED", "UNKNOWN" and "ALIGHTED"
  missed_vehicle departed unknown_result alighted :
      Option Str → LegRef → BoardingAttempt → TimelineEvent
  no_attempt : LegRef → TimelineEvent

abbrev pub leg_seq_le : RouteLeg → RouteLeg → Bool
leg_seq_le a b = leb a.seq_order b.seq_order

abbrev pub is_transit : RouteLeg → Bool
is_transit l = not (is_walk l.leg_type)

abbrev pub ref_of_leg : RouteLeg → LegRef
ref_of_leg l = record { id = l.id; leg = some l }

abbrev pub ref_of_id : ℕ → LegRef
ref_of_id id = record { id = id; leg = none }

abbrev pub keys : List Entry → List ℕ
keys entries = map (λ (e : Entry). e.leg_id) entries

abbrev pub known_refs : Option (List RouteLeg) → List Entry → List LegRef
known_refs none entries = map ref_of_id (keys entries)
known_refs (some legs) entries = map ref_of_leg (sort leg_seq_le (filter is_transit legs))

-- `if (!legRefs.some((r) => r.id === id)) legRefs.push({ id })`
pub push_missing : List LegRef → List ℕ → List LegRef
push_missing refs [] = refs
push_missing refs (id ∷ ids) =
    push_missing (if any (λ r. r.id == id) refs then refs else refs ++ ref_of_id id ∷ []) ids

unfoldable pub leg_refs : Option (List RouteLeg) → List Entry → List LegRef
unfolding push_missing sort
leg_refs legs entries = push_missing (known_refs legs entries) (keys entries)

-- the body of the inner loop
pub attempt_events_of : AttemptResult → LegRef → BoardingAttempt → List TimelineEvent
attempt_events_of missed leg a = missed_vehicle a.vehicle_actual_departure_at leg a ∷ []
attempt_events_of caught leg a =
    departed a.vehicle_actual_departure_at leg a ∷ alighted a.alighted_at leg a ∷ []
attempt_events_of unknown leg a = unknown_result a.vehicle_actual_departure_at leg a ∷ []

pub attempt_events : LegRef → List BoardingAttempt → List TimelineEvent
attempt_events leg [] = []
attempt_events leg (a ∷ attempts) = attempt_events_of a.result leg a ++ attempt_events leg attempts

-- the body of the outer loop, on the sorted attempts
pub leg_events : LegRef → List BoardingAttempt → List TimelineEvent
unfolding attempt_events attempt_events_of
leg_events leg [] = no_attempt leg ∷ []
leg_events leg (a ∷ attempts) =
    arrived_stop a.arrived_at_stop_at leg ∷ attempt_events leg (a ∷ attempts)

pub all_leg_events : List Entry → List LegRef → List TimelineEvent
unfolding leg_events sort attempts_at
all_leg_events entries [] = []
all_leg_events entries (leg ∷ refs) =
    leg_events leg (sort by_seq (attempts_at leg.id entries)) ++ all_leg_events entries refs

unfoldable pub build_timeline : CommuteTrip → Option (List RouteLeg) → List TimelineEvent
unfolding all_leg_events leg_refs add_attempts
build_timeline trip legs =
    let entries = by_leg trip.boarding_attempts in
    left_home trip.left_home_at
    ∷ (all_leg_events entries (leg_refs legs entries)
        ++ arrived_destination trip.arrived_destination_at ∷ [])

pub record TripSummary : Type 0 where
  pub caught_legs : ℕ
  pub transit_legs : ℕ
  pub all_caught : Bool
  pub missed : ℕ
  pub total_sec : Option Number

abbrev pub transit_ids : Option (List RouteLeg) → List ℕ
transit_ids none = []
transit_ids (some legs) = map (λ (l : RouteLeg). l.id) (filter is_transit legs)

abbrev pub ids_of : List BoardingAttempt → List ℕ
ids_of attempts = map (λ (a : BoardingAttempt). a.route_leg_id) attempts

unfoldable pub summarize_trip :
    (Str → Option ℤ) → CommuteTrip → Option (List RouteLeg) → TripSummary
unfolding add_ids seconds_if
summarize_trip parse trip legs =
    let leg_ids = add_ids (add_ids [] (ids_of trip.boarding_attempts)) (transit_ids legs) in
    let caught_ids = add_ids [] (ids_of (filter is_caught trip.boarding_attempts)) in
    record {
      caught_legs = length caught_ids;
      transit_legs = length leg_ids;
      all_caught = ltb 0 (length leg_ids) && length caught_ids == length leg_ids;
      missed = length (filter is_missed trip.boarding_attempts);
      total_sec = seconds_if parse trip.arrived_destination_at trip.left_home_at;
    }
