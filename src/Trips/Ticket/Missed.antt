-- ===== src/Trips/Ticket/Missed.antt =====
-- The missed vehicles on a ticket against the record of the trip.
use when_i_off.Prelude.{
  Str, ap, ℕ, ◌+◌, ◌≤◌, ◌≡◌, refl, sym, ◌∙◌, Bool, ◌&&◌, not, List, [], ◌∷◌, ◌++◌, map, Option,
  none, some, if◌then◌else◌, leb, ◌==◌, any, filter, count, All, All-map, arith, Bool-cases, inl,
  inr,
}
use when_i_off.Prelude.Sort.{sort, count-sort}
use when_i_off.Api.{LegType, walk, transit, BoardingAttempt, RouteLeg, is_walk}
use when_i_off.Trips.{CommuteTrip, Entry, by_leg, attempts_at, by_seq, is_missed}
use when_i_off.Trips.Timeline.{keys, leg_seq_le, ids_of}
use when_i_off.Trips.Timeline.Groups.{occ, of_leg, attempts_at-by_leg}
use when_i_off.Trips.Timeline.Attempts.{
  weight, weight-once, DistinctLegs, distinct_le, ids_of-All, occ-keys,
}
use when_i_off.Trips.Ticket.{
  TicketMissed, TicketSegment, walk_segment, transit_segment, missed_of, segment_of, leg_segment,
  leg_segments, or_none_of, other_segments, ticket_segments,
}

-- a test of a missed vehicle: of its leg's id, the number of its attempt and the time it left
abbrev pub Test : Type 0
Test = ℕ → ℕ → Option Str → Bool

-- how many of the missed vehicles that the segments list pass the test
abbrev pub listed : Test → List TicketSegment → ℕ
listed p [] = 0
listed p (walk_segment id seq d ∷ segments) = listed p segments
listed p (transit_segment s ∷ segments) =
    count (λ (m : TicketMissed). p s.leg_id m.attempt_seq m.at) s.missed + listed p segments

-- The attempt was missed and passes the test.
abbrev pub missed_that : Test → BoardingAttempt → Bool
missed_that p a = is_missed a && p a.route_leg_id a.attempt_seq a.vehicle_actual_departure_at

-- as `missed_that`, of the leg `k`
abbrev missed_at : Test → ℕ → BoardingAttempt → Bool
missed_at p k a = is_missed a && p k a.attempt_seq a.vehicle_actual_departure_at

count-missed_of :
    (p : Test) (k : ℕ) (attempts : List BoardingAttempt)
    → count
        (λ (m : TicketMissed). p k m.attempt_seq m.at)
        (map missed_of (filter is_missed attempts))
      ≡ count (missed_at p k) attempts
count-missed_of p k [] = refl
count-missed_of p k (a ∷ attempts) = ground (arith, count-missed_of p k attempts)

count-missed :
    (p : Test) (k : ℕ) (leg : Option RouteLeg) (attempts : List BoardingAttempt)
    → count (λ (m : TicketMissed). p k m.attempt_seq m.at) (segment_of k leg attempts).missed
      ≡ count (missed_at p k) attempts
unfolding segment_of
count-missed p k leg attempts =
    count-missed_of p k (sort by_seq attempts) ∙ count-sort by_seq (missed_at p k) attempts

-- the attempts of a leg name that leg
count-of_leg :
    (p : Test) (k : ℕ) (attempts : List BoardingAttempt)
    → count (missed_at p k) (of_leg k attempts) ≡ count (missed_that p) (of_leg k attempts)
count-of_leg p k [] = refl
count-of_leg p k (a ∷ attempts) = elim (Bool-cases (a.route_leg_id == k)) [
  | inl t ↦
      let e : a.route_leg_id ≡ k = ground arith in
      rw (t, e) (ap (λ n. (if missed_at p k a then 1 else 0) + n) (count-of_leg p k attempts))
  | inr t ↦ rw t (count-of_leg p k attempts)
]

abbrev transit_legs : List RouteLeg → List ℕ
transit_legs legs =
    map (λ (l : RouteLeg). l.id) (filter (λ (l : RouteLeg). not (is_walk l.leg_type)) legs)

listed-leg_segment :
    (p : Test) (t : LegType) (leg : RouteLeg) (attempts : List BoardingAttempt)
    (rest : List TicketSegment)
    → listed p (leg_segment t leg attempts ∷ rest)
      ≡ (if is_walk t then 0 else count (missed_at p leg.id) attempts) + listed p rest
unfolding leg_segment segment_of
listed-leg_segment p walk leg attempts rest = omega arith
listed-leg_segment p transit leg attempts rest =
    omega (arith, count-missed p leg.id (some leg) attempts)

listed-leg_segments :
    (p : Test) (attempts : List BoardingAttempt) (legs : List RouteLeg)
    → listed p (leg_segments (by_leg attempts) legs)
      ≡ weight (missed_that p) (transit_legs legs) attempts
unfolding leg_segments weight
listed-leg_segments p attempts [] = refl
listed-leg_segments p attempts (leg ∷ legs) = elim (Bool-cases (is_walk leg.leg_type)) [
  | inl e ↦
      rw
        (
          listed-leg_segment p leg.leg_type leg (attempts_at leg.id (by_leg attempts))
              (leg_segments (by_leg attempts) legs),
          e,
        )
        (omega (arith, listed-leg_segments p attempts legs))
  | inr e ↦
      rw
        (
          listed-leg_segment p leg.leg_type leg (attempts_at leg.id (by_leg attempts))
              (leg_segments (by_leg attempts) legs),
          e,
          attempts_at-by_leg leg.id attempts,
          count-of_leg p leg.id attempts,
        )
        (omega (arith, listed-leg_segments p attempts legs))
]

has_leg : List RouteLeg → ℕ → Bool
has_leg legs k = any (λ (l : RouteLeg). l.id == k) legs

listed-other_segments :
    (p : Test) (attempts : List BoardingAttempt) (legs : List RouteLeg) (es : List Entry)
    → All (λ (e : Entry). e.attempts ≡ of_leg e.leg_id attempts) es
    → listed p (other_segments legs es)
      ≡ weight (missed_that p) (filter (λ k. not (has_leg legs k)) (keys es)) attempts
unfolding other_segments weight has_leg
listed-other_segments p attempts legs [] h = refl
listed-other_segments p attempts legs (e ∷ es) (same, h) =
    elim (Bool-cases (any (λ (l : RouteLeg). l.id == e.leg_id) legs)) [
      | inl here ↦ rw here (listed-other_segments p attempts legs es h)
      | inr away ↦
          rw
            (
              away,
              count-missed p e.leg_id none e.attempts,
              same,
              count-of_leg p e.leg_id attempts,
              listed-other_segments p attempts legs es h,
            )
            refl
    ]

-- the entries of a map have different keys, so each is what is found under its key
entries-found :
    (es : List Entry)
    → ((k : ℕ) → occ k (keys es) ≤ 1)
    → All (λ (e : Entry). (1 ≤ occ e.leg_id (keys es)) × (attempts_at e.leg_id es ≡ e.attempts)) es
unfolding attempts_at
entries-found [] h = tt
entries-found (e ∷ es) h = (
  (ground arith, ground arith),
  All-map _ _ es
      (λ (f : Entry) found. (omega (arith, found.0), ground (arith, h f.leg_id, found.0, found.1)))
      (entries-found es (λ k. omega (arith, h k))),
)

by_leg-found :
    (attempts : List BoardingAttempt)
    → All (λ (e : Entry). e.attempts ≡ of_leg e.leg_id attempts) (by_leg attempts)
by_leg-found attempts =
    All-map _ _ (by_leg attempts)
      (λ (e : Entry) found. sym (found.1) ∙ attempts_at-by_leg e.leg_id attempts)
      (entries-found (by_leg attempts) (λ k. rw (occ-keys k attempts) (ground arith)))

-- No attempt was made on a leg that the route now has as a walk.
abbrev pub OnTransit : List RouteLeg → List BoardingAttempt → Type 0
OnTransit legs attempts =
    All (λ a. count (λ (l : RouteLeg). l.id == a.route_leg_id && is_walk l.leg_type) legs ≡ 0)
      attempts

occ-transit_legs :
    (k : ℕ) (legs : List RouteLeg)
    → occ k (transit_legs legs) + count (λ (l : RouteLeg). l.id == k && is_walk l.leg_type) legs
      ≡ count (λ (l : RouteLeg). l.id == k) legs
occ-transit_legs k [] = refl
occ-transit_legs k (l ∷ legs) = ground (arith, occ-transit_legs k legs)

has_leg-count :
    (k : ℕ) (legs : List RouteLeg)
    → has_leg legs k ≡ leb 1 (count (λ (l : RouteLeg). l.id == k) legs)
unfolding has_leg
has_leg-count k [] = ground arith
has_leg-count k (l ∷ legs) = ground (arith, has_leg-count k legs)

occ-others :
    (k : ℕ) (legs : List RouteLeg) (ks : List ℕ)
    → occ k (filter (λ j. not (has_leg legs j)) ks) ≡ (if has_leg legs k then 0 else occ k ks)
occ-others k legs [] = ground arith
occ-others k legs (j ∷ ks) = ground (arith, occ-others k legs ks)

weight-append :
    (p : BoardingAttempt → Bool) (ks js : List ℕ) (attempts : List BoardingAttempt)
    → weight p (ks ++ js) attempts ≡ weight p ks attempts + weight p js attempts
unfolding weight
weight-append p [] js attempts = omega arith
weight-append p (k ∷ ks) js attempts = omega (arith, weight-append p ks js attempts)

occ-append : (k : ℕ) (ks js : List ℕ) → occ k (ks ++ js) ≡ occ k ks + occ k js
occ-append k [] js = omega arith
occ-append k (j ∷ ks) js = omega (arith, occ-append k ks js)

-- the ids of the segments that hold attempts
abbrev segment_ids : List RouteLeg → List BoardingAttempt → List ℕ
segment_ids legs attempts =
    transit_legs (sort leg_seq_le legs)
    ++ filter (λ k. not (has_leg legs k)) (keys (by_leg attempts))

listed-append :
    (p : Test) (xs ys : List TicketSegment) → listed p (xs ++ ys) ≡ listed p xs + listed p ys
listed-append p [] ys = omega arith
listed-append p (walk_segment id seq d ∷ xs) ys = listed-append p xs ys
listed-append p (transit_segment s ∷ xs) ys = omega (arith, listed-append p xs ys)

listed-ticket_segments :
    (p : Test) (trip : CommuteTrip) (legs : Option (List RouteLeg))
    → listed p (ticket_segments trip legs)
      ≡ weight
          (missed_that p)
          (segment_ids (or_none_of legs) trip.boarding_attempts)
          trip.boarding_attempts
unfolding ticket_segments
listed-ticket_segments p trip legs =
    let attempts = trip.boarding_attempts in
    let ordered = sort leg_seq_le (or_none_of legs) in
    rw
      (
        listed-append p (leg_segments (by_leg attempts) ordered)
            (other_segments (or_none_of legs) (by_leg attempts)),
        listed-leg_segments p attempts ordered,
        listed-other_segments p attempts (or_none_of legs) (by_leg attempts)
            (by_leg-found attempts),
      )
      (sym (
        weight-append (missed_that p) (transit_legs ordered)
          (filter (λ k. not (has_leg (or_none_of legs) k)) (keys (by_leg attempts))) attempts))

occ-segment_ids :
    (k : ℕ) (legs : List RouteLeg) (attempts : List BoardingAttempt)
    → DistinctLegs (some legs)
    → count (λ (l : RouteLeg). l.id == k && is_walk l.leg_type) legs ≡ 0
    → 1 ≤ occ k (ids_of attempts)
    → occ k (segment_ids legs attempts) ≡ 1
occ-segment_ids k legs attempts d w h =
    let ordered = sort leg_seq_le legs in
    let at = occ-transit_legs k ordered in
    rw
      (
        occ-append k (transit_legs ordered)
            (filter (λ j. not (has_leg legs j)) (keys (by_leg attempts))),
        occ-others k legs (keys (by_leg attempts)),
        occ-keys k attempts,
        has_leg-count k legs,
      )
      (ground (
        arith,
        at,
        w,
        h,
        distinct_le k legs d,
        count-sort leg_seq_le (λ (l : RouteLeg). l.id == k) legs,
        count-sort leg_seq_le (λ (l : RouteLeg). l.id == k && is_walk l.leg_type) legs,
      ))

each_once :
    (legs : List RouteLeg) (attempts whole : List BoardingAttempt)
    → DistinctLegs (some legs)
    → OnTransit legs attempts
    → All (λ a. 1 ≤ occ a.route_leg_id (ids_of whole)) attempts
    → All (λ a. occ a.route_leg_id (segment_ids legs whole) ≡ 1) attempts
each_once legs [] whole d w h = tt
each_once legs (a ∷ attempts) whole d (w, ws) (h, hs) =
    (occ-segment_ids a.route_leg_id legs whole d w h, each_once legs attempts whole d ws hs)

-- As long as the ids of the route's legs differ and no attempt was made on a leg that is a walk now, the
-- ticket lists every missed vehicle of the trip once and no other, on the segment of its leg, with its number
-- and the time it left: whatever test these three are put to, as many listed vehicles pass as missed attempts.
pub ticket_segments-missed :
    (p : ℕ → ℕ → Option Str → Bool) (trip : CommuteTrip) (legs : Option (List RouteLeg))
    → DistinctLegs (some (or_none_of legs))
    → OnTransit (or_none_of legs) trip.boarding_attempts
    → listed p (ticket_segments trip legs) ≡ count (missed_that p) trip.boarding_attempts
ticket_segments-missed p trip legs d w =
    let attempts = trip.boarding_attempts in
    listed-ticket_segments p trip legs
    ∙ weight-once (missed_that p) (segment_ids (or_none_of legs) attempts) attempts (
        each_once (or_none_of legs) attempts attempts d w
          (ids_of-All attempts (ids_of attempts) (λ k. omega arith)))
