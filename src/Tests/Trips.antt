-- ===== src/Tests/Trips.antt =====
-- A trip with a missed and a taken vehicle and a leg that the route no longer has.
use when_i_off.Prelude.{
  Bool, true, false, ◌&&◌, ◌==◌, str_eq, Str, codes, ℕ, ◌≡◌, refl, List, [], ◌∷◌, Option, none,
  some, count, All, ◌*◌, length,
}
use when_i_off.Prelude.Int.{ℤ, pos}
use when_i_off.Api.{AttemptResult, caught, missed, unknown, BoardingAttempt, RouteLeg}
use when_i_off.Trips.{CommuteTrip, is_missed, is_caught}
use when_i_off.Trips.Timeline.{build_timeline, summarize_trip}
use when_i_off.Trips.Timeline.Attempts.{shown, build_timeline-attempts}
use when_i_off.Trips.Timeline.Events.{
  IsEvent, shows_missed, build_timeline-IsEvent, summarize_trip_missed,
}
use when_i_off.Trips.Ticket.{ticket_segments}
use when_i_off.Trips.Ticket.Missed.{listed, missed_that, ticket_segments-missed}
use when_i_off.Recommendations.{HistoryTrip}
use when_i_off.Tests.Legs.{walk_leg, train_leg}

abbrev pub attempt : ℕ → ℕ → AttemptResult → BoardingAttempt
attempt leg seq r = record {
  id = seq;
  route_leg_id = leg;
  attempt_seq = seq;
  result = r;
  arrived_at_stop_at = none;
  vehicle_scheduled_or_predicted_at = none;
  vehicle_actual_departure_at = some (codes "2026-09-17T22:10:00Z");
  alighted_at = none;
  notes = none;
}

abbrev trip : CommuteTrip
trip = record {
  left_home_at = some (codes "2026-09-17T22:00:00Z");
  arrived_destination_at = none;
  boarding_attempts = attempt 12 2 caught ∷ attempt 99 1 unknown ∷ attempt 12 1 missed ∷ [];
}

abbrev legs : Option (List RouteLeg)
legs = some (walk_leg ∷ train_leg ∷ [])

abbrev no_clock : Str → Option ℤ
no_clock s = none

one_caught :
    count is_caught (shown (build_timeline trip legs)) ≡ count is_caught trip.boarding_attempts
one_caught = build_timeline-attempts is_caught trip legs (refl, (refl, tt))

shown_in_order :
    shown (build_timeline trip legs)
    ≡ attempt 12 1 missed ∷ attempt 12 2 caught ∷ attempt 99 1 unknown ∷ []
unfolding build_timeline
shown_in_order = refl

events_true : All (IsEvent trip) (build_timeline trip legs)
events_true = build_timeline-IsEvent trip legs

one_missed :
    (summarize_trip no_clock trip legs).missed ≡ count shows_missed (build_timeline trip legs)
one_missed = summarize_trip_missed no_clock trip legs (refl, (refl, tt))

-- the first attempt of leg 12, at the time that it notes
abbrev first_of_12 : ℕ → ℕ → Option Str → Bool
first_of_12 leg seq (some at) = leg == 12 && seq == 1 && str_eq at (codes "2026-09-17T22:10:00Z")
first_of_12 leg seq none = false

missed_listed :
    listed first_of_12 (ticket_segments trip legs)
    ≡ count (missed_that first_of_12) trip.boarding_attempts
missed_listed =
    ticket_segments-missed first_of_12 trip legs (refl, (refl, tt)) (refl, (refl, (refl, tt)))

-- a leg that was taken and is a walk now: the timeline keeps its attempts, the ticket does not
abbrev walked : Option (List RouteLeg)
walked = some (record walk_leg { id = 12 } ∷ [])

not_on_ticket : listed (λ leg seq at. true) (ticket_segments trip walked) ≡ 0
unfolding ticket_segments
not_on_ticket = refl

on_timeline : count is_missed (shown (build_timeline trip walked)) ≡ 1
unfolding build_timeline
on_timeline = refl

abbrev seconds : Str → Option ℤ
seconds s = some (pos (1000 * length s))

abbrev day_trip : HistoryTrip
day_trip = record {
  trip_id = 1;
  left_home_at = none;
  arrived_destination_at = some (codes "09:00:00");
}
