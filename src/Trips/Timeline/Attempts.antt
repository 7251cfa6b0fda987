-- ===== src/Trips/Timeline/Attempts.antt =====
-- The timeline against the record: which attempts it shows, and under which leg.
use when_i_off.Prelude.{
  ℕ, ◌+◌, ◌≤◌, ◌≡◌, refl, ◌∙◌, ap, ◌⊎◌, inl, inr, Bool, List, [], ◌∷◌, ◌++◌, map, Option, none,
  some, if◌then◌else◌, leb, ◌==◌, filter, count, All, All-map, arith, Bool-cases,
}
use when_i_off.Prelude.Sort.{sort, count-sort}
use when_i_off.Api.{AttemptResult, caught, missed, unknown, BoardingAttempt, RouteLeg}
use when_i_off.Trips.{CommuteTrip, by_leg, attempts_at, by_seq}
use when_i_off.Trips.Timeline.{
  LegRef, TimelineEvent, left_home, arrived_destination, arrived_stop, missed_vehicle, departed,
  unknown_result, alighted, no_attempt, attempt_events_of, attempt_events, leg_events,
  all_leg_events, build_timeline, leg_refs, known_refs, keys, is_transit, leg_seq_le, ref_of_leg,
  ref_of_id, ids_of,
}
use when_i_off.Trips.Timeline.Groups.{
  occ, ref_ids, of_leg, attempts_at-by_leg, occ-add_ids, keys-by_leg, ids-leg_refs,
}

-- the attempts that events stand for, a vehicle's arrival not counted again
abbrev pub shown : List TimelineEvent → List BoardingAttempt
shown [] = []
shown (missed_vehicle t leg a ∷ es) = a ∷ shown es
shown (departed t leg a ∷ es) = a ∷ shown es
shown (unknown_result t leg a ∷ es) = a ∷ shown es
shown (alighted t leg a ∷ es) = shown es
shown (left_home t ∷ es) = shown es
shown (arrived_destination t ∷ es) = shown es
shown (arrived_stop t leg ∷ es) = shown es
shown (no_attempt leg ∷ es) = shown es

shown-append : (es fs : List TimelineEvent) → shown (es ++ fs) ≡ shown es ++ shown fs
shown-append [] fs = refl
shown-append (missed_vehicle t leg a ∷ es) fs = ap (◌∷◌ a) (shown-append es fs)
shown-append (departed t leg a ∷ es) fs = ap (◌∷◌ a) (shown-append es fs)
shown-append (unknown_result t leg a ∷ es) fs = ap (◌∷◌ a) (shown-append es fs)
shown-append (alighted t leg a ∷ es) fs = shown-append es fs
shown-append (left_home t ∷ es) fs = shown-append es fs
shown-append (arrived_destination t ∷ es) fs = shown-append es fs
shown-append (arrived_stop t leg ∷ es) fs = shown-append es fs
shown-append (no_attempt leg ∷ es) fs = shown-append es fs

shown-attempt_events_of :
    (r : AttemptResult) (leg : LegRef) (a : BoardingAttempt) (es : List TimelineEvent)
    → shown (attempt_events_of r leg a ++ es) ≡ a ∷ shown es
unfolding attempt_events_of
shown-attempt_events_of caught leg a es = refl
shown-attempt_events_of missed leg a es = refl
shown-attempt_events_of unknown leg a es = refl

shown-attempt_events :
    (leg : LegRef) (attempts : List BoardingAttempt)
    → shown (attempt_events leg attempts) ≡ attempts
unfolding attempt_events
shown-attempt_events leg [] = refl
shown-attempt_events leg (a ∷ attempts) =
    shown-attempt_events_of a.result leg a (attempt_events leg attempts)
    ∙ ap (◌∷◌ a) (shown-attempt_events leg attempts)

shown-leg_events :
    (leg : LegRef) (attempts : List BoardingAttempt) → shown (leg_events leg attempts) ≡ attempts
unfolding leg_events
shown-leg_events leg [] = refl
shown-leg_events leg (a ∷ attempts) = shown-attempt_events leg (a ∷ attempts)

pub count-append {ℓ} :
    {A : Type ℓ} (p : A → Bool) (xs ys : List A) → count p (xs ++ ys) ≡ count p xs + count p ys
count-append p [] ys = omega arith
count-append p (x ∷ xs) ys = omega (arith, count-append p xs ys)

pub count-filter {ℓ} :
    {A : Type ℓ} (p q : A → Bool) (xs : List A) → count p (filter q xs) ≤ count p xs
count-filter p q [] = omega arith
count-filter p q (x ∷ xs) = ground (arith, count-filter p q xs)

-- the attempts of the listed legs that satisfy `p`
unfoldable pub weight : (BoardingAttempt → Bool) → List ℕ → List BoardingAttempt → ℕ
weight p [] attempts = 0
weight p (k ∷ ks) attempts = count p (of_leg k attempts) + weight p ks attempts

weight-nil : (p : BoardingAttempt → Bool) (ks : List ℕ) → weight p ks [] ≡ 0
unfolding weight
weight-nil p [] = refl
weight-nil p (k ∷ ks) = omega (arith, weight-nil p ks)

weight-cons :
    (p : BoardingAttempt → Bool) (ks : List ℕ) (a : BoardingAttempt)
    (attempts : List BoardingAttempt)
    → weight p ks (a ∷ attempts) ≡ (if p a then occ a.route_leg_id ks else 0) + weight p ks attempts
unfolding weight
weight-cons p [] a attempts = ground arith
weight-cons p (k ∷ ks) a attempts = ground (arith, weight-cons p ks a attempts)

pub weight-once :
    (p : BoardingAttempt → Bool) (ks : List ℕ) (attempts : List BoardingAttempt)
    → All (λ a. occ a.route_leg_id ks ≡ 1) attempts
    → weight p ks attempts ≡ count p attempts
weight-once p ks [] h = weight-nil p ks
weight-once p ks (a ∷ attempts) (e, h) =
    rw (weight-cons p ks a attempts, e, weight-once p ks attempts h) refl

count-all_leg_events :
    (p : BoardingAttempt → Bool) (attempts : List BoardingAttempt) (refs : List LegRef)
    → count p (shown (all_leg_events (by_leg attempts) refs)) ≡ weight p (ref_ids refs) attempts
unfolding all_leg_events weight
count-all_leg_events p attempts [] = refl
count-all_leg_events p attempts (r ∷ refs) =
    let sorted = sort by_seq (attempts_at r.id (by_leg attempts)) in
    let rest = all_leg_events (by_leg attempts) refs in
    rw
      (
        shown-append (leg_events r sorted) rest,
        shown-leg_events r sorted,
        count-append p sorted (shown rest),
        count-sort by_seq p (attempts_at r.id (by_leg attempts)),
        attempts_at-by_leg r.id attempts,
        count-all_leg_events p attempts refs,
      )
      refl

-- A route whose legs have different ids.
abbrev pub DistinctLegs : Option (List RouteLeg) → Type 0
DistinctLegs none = Unit
DistinctLegs (some legs) =
    All (λ (l : RouteLeg). count (λ (m : RouteLeg). m.id == l.id) legs ≡ 1) legs

pub once_or_never :
    (k : ℕ) (whole legs : List RouteLeg)
    → All (λ (l : RouteLeg). count (λ (m : RouteLeg). m.id == l.id) whole ≡ 1) legs
    → (count (λ (m : RouteLeg). m.id == k) legs ≡ 0)
      ⊎ (count (λ (m : RouteLeg). m.id == k) whole ≡ 1)
once_or_never k whole [] h = inl refl
once_or_never k whole (l ∷ legs) (e, h) = elim (Bool-cases (l.id == k)) [
  | inl same ↦ let id : l.id ≡ k = ground arith in inr (rw (← id) e)
  | inr other ↦ rw other (ground (arith, once_or_never k whole legs h))
]

pub distinct_le :
    (k : ℕ) (legs : List RouteLeg)
    → DistinctLegs (some legs)
    → count (λ (m : RouteLeg). m.id == k) legs ≤ 1
distinct_le k legs h = elim (once_or_never k legs legs h) [
  | inl e ↦ omega arith
  | inr e ↦ omega arith
]

ids-ref_of_leg :
    (k : ℕ) (legs : List RouteLeg)
    → occ k (ref_ids (map ref_of_leg legs)) ≡ count (λ (m : RouteLeg). m.id == k) legs
ids-ref_of_leg k [] = refl
ids-ref_of_leg k (l ∷ legs) = omega (arith, ids-ref_of_leg k legs)

ids-ref_of_id : (ks : List ℕ) → ref_ids (map ref_of_id ks) ≡ ks
ids-ref_of_id [] = refl
ids-ref_of_id (k ∷ ks) = ap (◌∷◌ k) (ids-ref_of_id ks)

pub occ-keys :
    (k : ℕ) (attempts : List BoardingAttempt)
    → occ k (keys (by_leg attempts)) ≡ (if leb 1 (occ k (ids_of attempts)) then 1 else 0)
occ-keys k attempts = rw (keys-by_leg attempts) (occ-add_ids k [] (ids_of attempts))

known_refs-once :
    (legs : Option (List RouteLeg)) (attempts : List BoardingAttempt) (k : ℕ)
    → DistinctLegs legs
    → occ k (ref_ids (known_refs legs (by_leg attempts))) ≤ 1
known_refs-once none attempts k h =
    rw (ids-ref_of_id (keys (by_leg attempts)), occ-keys k attempts) (ground arith)
known_refs-once (some legs) attempts k h =
    rw
      (
        ids-ref_of_leg k (sort leg_seq_le (filter is_transit legs)),
        count-sort leg_seq_le (λ (m : RouteLeg). m.id == k) (filter is_transit legs),
      )
      (omega
        (arith, count-filter (λ (m : RouteLeg). m.id == k) is_transit legs, distinct_le k legs h))

leg_refs-once :
    (legs : Option (List RouteLeg)) (attempts : List BoardingAttempt) (k : ℕ)
    → DistinctLegs legs
    → occ k (ref_ids (leg_refs legs (by_leg attempts))) ≡ (
        if leb 1 (occ k (ref_ids (known_refs legs (by_leg attempts))))
        then 1
        else if leb 1 (occ k (ids_of attempts))
        then 1
        else 0)
leg_refs-once legs attempts k h =
    rw
      (
        ids-leg_refs legs (by_leg attempts),
        occ-add_ids k (ref_ids (known_refs legs (by_leg attempts))) (keys (by_leg attempts)),
        occ-keys k attempts,
      )
      (ground (arith, known_refs-once legs attempts k h))

pub ids_of-All :
    (attempts : List BoardingAttempt) (whole : List ℕ)
    → ((k : ℕ) → occ k (ids_of attempts) ≤ occ k whole)
    → All (λ a. 1 ≤ occ a.route_leg_id whole) attempts
ids_of-All [] whole h = tt
ids_of-All (a ∷ attempts) whole h =
    (ground (arith, h a.route_leg_id), ids_of-All attempts whole (λ k. ground (arith, h k)))

each_once :
    (legs : Option (List RouteLeg)) (attempts : List BoardingAttempt)
    → DistinctLegs legs
    → All (λ a. occ a.route_leg_id (ref_ids (leg_refs legs (by_leg attempts))) ≡ 1) attempts
each_once legs attempts h =
    All-map (λ a. 1 ≤ occ a.route_leg_id (ids_of attempts)) _ attempts
      (λ a here. rw (leg_refs-once legs attempts a.route_leg_id h) (ground arith))
      (ids_of-All attempts (ids_of attempts) (λ k. omega arith))

count-build_timeline :
    (p : BoardingAttempt → Bool) (trip : CommuteTrip) (legs : Option (List RouteLeg))
    → count p (shown (build_timeline trip legs))
      ≡ count p (
          shown (
            all_leg_events
              (by_leg trip.boarding_attempts)
              (leg_refs legs (by_leg trip.boarding_attempts))))
unfolding build_timeline
count-build_timeline p trip legs =
    let es =
      all_leg_events (by_leg trip.boarding_attempts)
        (leg_refs legs (by_leg trip.boarding_attempts)) in
    rw (shown-append es (arrived_destination trip.arrived_destination_at ∷ []))
      (omega (arith, count-append p (shown es) []))

-- Whatever the legs of the route, as long as their ids differ, the timeline shows every attempt of the
-- trip once and no other: of any kind, it shows as many as the trip has.
pub build_timeline-attempts :
    (p : BoardingAttempt → Bool) (trip : CommuteTrip) (legs : Option (List RouteLeg))
    → DistinctLegs legs
    → count p (shown (build_timeline trip legs)) ≡ count p trip.boarding_attempts
build_timeline-attempts p trip legs h =
    let attempts = trip.boarding_attempts in
    count-build_timeline p trip legs
    ∙ (count-all_leg_events p attempts (leg_refs legs (by_leg attempts))
        ∙ weight-once p (ref_ids (leg_refs legs (by_leg attempts))) attempts
            (each_once legs attempts h))
