-- ===== src/Trips/Timeline/Events.antt =====
-- Each event of the timeline against the attempt and the leg that it names, and the summary's numbers.
use when_i_off.Prelude.{
  Str, ◌≡◌, refl, sym, ◌∙◌, ap, Bool, true, false, List, [], ◌∷◌, Option, none, ◌==◌, filter-All,
  count, length, length-filter, All, All-append, arith,
}
use when_i_off.Prelude.Sort.{sort, sort-All, length-sort}
use when_i_off.Prelude.Int.{ℤ}
use when_i_off.Api.{AttemptResult, caught, missed, unknown, BoardingAttempt, RouteLeg}
use when_i_off.Trips.{CommuteTrip, by_leg, by_seq, is_missed}
use when_i_off.Trips.Timeline.{
  LegRef, TimelineEvent, left_home, arrived_destination, arrived_stop, missed_vehicle, departed,
  unknown_result, alighted, no_attempt, attempt_events_of, attempt_events, leg_events,
  all_leg_events, build_timeline, leg_refs, summarize_trip,
}
use when_i_off.Trips.Timeline.Groups.{of_leg, attempts_at-by_leg}
use when_i_off.Trips.Timeline.Attempts.{DistinctLegs, shown, build_timeline-attempts}

-- the arrival at the stop that the first attempt notes
abbrev pub first_arrival : List BoardingAttempt → Option Str
first_arrival [] = none
first_arrival (a ∷ attempts) = a.arrived_at_stop_at

-- What an event must say of the trip.
abbrev pub IsEvent : CommuteTrip → TimelineEvent → Type 0
IsEvent trip (left_home t) = t ≡ trip.left_home_at
IsEvent trip (arrived_destination t) = t ≡ trip.arrived_destination_at
IsEvent trip (arrived_stop t leg) =
    t ≡ first_arrival (sort by_seq (of_leg leg.id trip.boarding_attempts))
IsEvent trip (missed_vehicle t leg a) =
    (a.route_leg_id ≡ leg.id) × (a.result ≡ missed) × (t ≡ a.vehicle_actual_departure_at)
IsEvent trip (departed t leg a) =
    (a.route_leg_id ≡ leg.id) × (a.result ≡ caught) × (t ≡ a.vehicle_actual_departure_at)
IsEvent trip (unknown_result t leg a) =
    (a.route_leg_id ≡ leg.id) × (a.result ≡ unknown) × (t ≡ a.vehicle_actual_departure_at)
IsEvent trip (alighted t leg a) =
    (a.route_leg_id ≡ leg.id) × (a.result ≡ caught) × (t ≡ a.alighted_at)
IsEvent trip (no_attempt leg) = of_leg leg.id trip.boarding_attempts ≡ []

attempt_events_of-IsEvent :
    (trip : CommuteTrip) (r : AttemptResult) (leg : LegRef) (a : BoardingAttempt)
    → a.route_leg_id ≡ leg.id
    → a.result ≡ r
    → All (IsEvent trip) (attempt_events_of r leg a)
unfolding attempt_events_of
attempt_events_of-IsEvent trip caught leg a h e = ((h, e, refl), ((h, e, refl), tt))
attempt_events_of-IsEvent trip missed leg a h e = ((h, e, refl), tt)
attempt_events_of-IsEvent trip unknown leg a h e = ((h, e, refl), tt)

attempt_events-IsEvent :
    (trip : CommuteTrip) (leg : LegRef) (attempts : List BoardingAttempt)
    → All (λ a. (a.route_leg_id == leg.id) ≡ true) attempts
    → All (IsEvent trip) (attempt_events leg attempts)
unfolding attempt_events
attempt_events-IsEvent trip leg [] h = tt
attempt_events-IsEvent trip leg (a ∷ attempts) (e, h) =
    All-append (IsEvent trip) (attempt_events_of a.result leg a) (attempt_events leg attempts)
      (attempt_events_of-IsEvent trip a.result leg a (ground arith) refl)
      (attempt_events-IsEvent trip leg attempts h)

sort-nil : (attempts : List BoardingAttempt) → sort by_seq attempts ≡ [] → attempts ≡ []
sort-nil [] e = refl
sort-nil (a ∷ attempts) e =
    absurd (let n = ap length e in omega (arith, length-sort by_seq (a ∷ attempts)))

leg_events-IsEvent :
    (trip : CommuteTrip) (leg : LegRef) (attempts : List BoardingAttempt)
    → sort by_seq (of_leg leg.id trip.boarding_attempts) ≡ attempts
    → All (λ a. (a.route_leg_id == leg.id) ≡ true) attempts
    → All (IsEvent trip) (leg_events leg attempts)
unfolding leg_events
leg_events-IsEvent trip leg [] e h = (sort-nil (of_leg leg.id trip.boarding_attempts) e, tt)
leg_events-IsEvent trip leg (a ∷ attempts) e h =
    (ap first_arrival (sym e), attempt_events-IsEvent trip leg (a ∷ attempts) h)

all_leg_events-IsEvent :
    (trip : CommuteTrip) (refs : List LegRef)
    → All (IsEvent trip) (all_leg_events (by_leg trip.boarding_attempts) refs)
unfolding all_leg_events
all_leg_events-IsEvent trip [] = tt
all_leg_events-IsEvent trip (leg ∷ refs) =
    let attempts = trip.boarding_attempts in
    rw (attempts_at-by_leg leg.id attempts) (
      All-append (IsEvent trip) (leg_events leg (sort by_seq (of_leg leg.id attempts)))
        (all_leg_events (by_leg attempts) refs)
        (leg_events-IsEvent trip leg (sort by_seq (of_leg leg.id attempts)) refl (
          sort-All by_seq (λ a. (a.route_leg_id == leg.id) ≡ true) (of_leg leg.id attempts)
            (filter-All (λ a. a.route_leg_id == leg.id) attempts)))
        (all_leg_events-IsEvent trip refs))

-- Every event of the timeline is true of the trip: a missed, taken or unknown vehicle is an attempt with
-- that result on the leg that the event names, at the time that the attempt notes; the arrival at a stop
-- is the first attempt's; and a leg is said to have no attempt only if it has none.
pub build_timeline-IsEvent :
    (trip : CommuteTrip) (legs : Option (List RouteLeg))
    → All (IsEvent trip) (build_timeline trip legs)
unfolding build_timeline
build_timeline-IsEvent trip legs =
    let entries = by_leg trip.boarding_attempts in
    (
      refl,
      All-append (IsEvent trip) (all_leg_events entries (leg_refs legs entries))
          (arrived_destination trip.arrived_destination_at ∷ [])
          (all_leg_events-IsEvent trip (leg_refs legs entries)) (refl, tt),
    )

-- The event is shown as a missed vehicle.
abbrev pub shows_missed : TimelineEvent → Bool
shows_missed (missed_vehicle t leg a) = true
shows_missed e = false

-- among events that are true of the trip, just those shown as missed vehicles stand for missed attempts
count-shows_missed :
    (trip : CommuteTrip) (es : List TimelineEvent)
    → All (IsEvent trip) es
    → count shows_missed es ≡ count is_missed (shown es)
count-shows_missed trip [] h = refl
count-shows_missed trip (missed_vehicle t leg a ∷ es) ((_, e, _), h) =
    rw e (omega (arith, count-shows_missed trip es h))
count-shows_missed trip (departed t leg a ∷ es) ((_, e, _), h) =
    rw e (omega (arith, count-shows_missed trip es h))
count-shows_missed trip (unknown_result t leg a ∷ es) ((_, e, _), h) =
    rw e (omega (arith, count-shows_missed trip es h))
count-shows_missed trip (alighted t leg a ∷ es) (p, h) = omega (arith, count-shows_missed trip es h)
count-shows_missed trip (left_home t ∷ es) (p, h) = omega (arith, count-shows_missed trip es h)
count-shows_missed trip (arrived_destination t ∷ es) (p, h) =
    omega (arith, count-shows_missed trip es h)
count-shows_missed trip (arrived_stop t leg ∷ es) (p, h) =
    omega (arith, count-shows_missed trip es h)
count-shows_missed trip (no_attempt leg ∷ es) (p, h) = omega (arith, count-shows_missed trip es h)

-- As long as the ids of the route's legs differ, the summary's number of missed vehicles is the number of
-- events that the timeline shows as missed vehicles.
pub summarize_trip_missed :
    (parse : Str → Option ℤ) (trip : CommuteTrip) (legs : Option (List RouteLeg))
    → DistinctLegs legs
    → (summarize_trip parse trip legs).missed ≡ count shows_missed (build_timeline trip legs)
unfolding summarize_trip
summarize_trip_missed parse trip legs h =
    length-filter is_missed trip.boarding_attempts
    ∙ sym (
        count-shows_missed trip (build_timeline trip legs) (build_timeline-IsEvent trip legs)
        ∙ build_timeline-attempts is_missed trip legs h)
