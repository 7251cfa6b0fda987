-- ===== src/Legs/Validate/Rules.antt =====
-- The rules for a list of requests, each against the check of `validateLegRequests`. The server checks the
-- modes of the stops too, which the requests do not hold: `IsOfOneMode` states that rule of the drafts.
use when_i_off.Prelude.{
  ℕ, ◌+◌, ◌<◌, ◌≡◌, ◌≢◌, ◌↔◌, refl, Bool, true, false, ◌&&◌, ◌||◌, not, List, [], ◌∷◌, Option, none,
  some, map, is_some, All, arith, append_eq_nil_iff, append-eq_nil,
}
use when_i_off.Prelude.Int.{negate}
use when_i_off.Prelude.Number.{
  Number, IsNat, of_ℕ, ratio, infinity, is_integer, num_le, num_lt, IsNat-of, num_lt-nat,
  num_lt-zero, is_integer-nat, num_eq-IsNat,
}
use when_i_off.Api.{LegType, walk, transit, is_walk}
use when_i_off.Legs.{RouteLegRequest}
use when_i_off.Legs.Validate.{
  LegError, error_if, bad_degrees, bad_positive, bad_seconds, field_errors, flat_errors, some_gap,
  last_type, ends_not_walk, neighbour_errors, present_ids, same_stops, kind_errors_of,
}
use when_i_off.Legs.Validate.Ids.{AreDistinct}

-- Within the limit on both sides.
abbrev pub InDegrees : ℕ → Option Number → Type 0
InDegrees limit none = Unit
InDegrees limit (some x) =
    (num_le (ratio (negate limit) 0) x ≡ true) × (num_le x (of_ℕ limit) ≡ true)

-- A finite number above 0, and a whole one.
abbrev pub IsPositive : Option Number → Type 0
IsPositive none = Unit
IsPositive (some x) = (num_lt (of_ℕ 0) x ≡ true) × (num_lt x infinity ≡ true)

abbrev pub IsSeconds : Option Number → Type 0
IsSeconds none = Unit
IsSeconds (some x) = (n : ℕ) × IsNat n x × (0 < n)

pub record HasFields (r : RouteLegRequest) : Type 0 where
  pub start_lat : InDegrees 90 r.start_lat
  pub start_lng : InDegrees 180 r.start_lng
  pub end_lat : InDegrees 90 r.end_lat
  pub end_lng : InDegrees 180 r.end_lng
  pub distance : IsPositive r.planned_distance_m
  pub travel : IsSeconds r.planned_travel_sec

-- The sequence numbers count up from `k`.
abbrev pub Numbered : ℕ → List RouteLegRequest → Type 0
Numbered k [] = Unit
Numbered k (r ∷ rs) = IsNat k r.seq_order × Numbered (k + 1) rs

abbrev pub StartsWithWalk : List RouteLegRequest → Type 0
StartsWithWalk [] = Unit
StartsWithWalk (r ∷ rs) = r.leg_type ≡ walk

abbrev pub EndsWithWalk : List RouteLegRequest → Type 0
EndsWithWalk [] = Unit
EndsWithWalk (r ∷ []) = r.leg_type ≡ walk
EndsWithWalk (r ∷ q ∷ rs) = EndsWithWalk (q ∷ rs)

abbrev pub Alternates : List RouteLegRequest → Type 0
Alternates [] = Unit
Alternates (r ∷ []) = Unit
Alternates (r ∷ q ∷ rs) = (r.leg_type ≢ q.leg_type) × Alternates (q ∷ rs)

-- What belongs to a walk, and what belongs to a ride.
abbrev pub HasKind : LegType → RouteLegRequest → Type 0
HasKind walk r =
    (is_some r.start_lat ≡ true)
    × (is_some r.start_lng ≡ true)
    × (is_some r.end_lat ≡ true)
    × (is_some r.end_lng ≡ true)
    × (r.transit_line_id ≡ none)
    × (r.board_stop_id ≡ none)
    × (r.alight_stop_id ≡ none)
    × (r.planned_travel_sec ≡ none)
HasKind transit r =
    (is_some r.transit_line_id ≡ true)
    × (is_some r.board_stop_id ≡ true)
    × (is_some r.alight_stop_id ≡ true)
    × (is_some r.planned_travel_sec ≡ true)
    × (r.start_lat ≡ none)
    × (r.start_lng ≡ none)
    × (r.end_lat ≡ none)
    × (r.end_lng ≡ none)
    × (r.planned_distance_m ≡ none)
    × (r.board_stop_id ≢ r.alight_stop_id)

abbrev pub ids_of : List RouteLegRequest → List ℕ
ids_of rs = present_ids (map (λ (r : RouteLegRequest). r.id) rs)

-- What the rules ask of a list of requests in the order of its sequence numbers.
pub record IsValid (ordered : List RouteLegRequest) : Type 0 where
  pub fields : All HasFields ordered
  pub numbered : Numbered 1 ordered
  pub starts : StartsWithWalk ordered
  pub ends : EndsWithWalk ordered
  pub alternates : Alternates ordered
  pub ids : AreDistinct (ids_of ordered)
  pub kinds : All (λ r. HasKind r.leg_type r) ordered

or_false : (a b : Bool) → (a || b) ≡ false → (a ≡ false) × (b ≡ false)
or_false a b h = ground arith

pub error_if_iff : (b : Bool) (e : LegError) → (error_if b e ≡ []) ↔ (b ≡ false)
error_if_iff b e = ground arith

pub flat_errors_iff :
    (f : RouteLegRequest → List LegError) (rs : List RouteLegRequest)
    → (flat_errors f rs ≡ []) ↔ All (λ r. f r ≡ []) rs
unfolding flat_errors
flat_errors_iff f [] = ((λ _. tt), (λ _. refl))
flat_errors_iff f (r ∷ rs) =
    let (to, from) = append_eq_nil_iff (f r) (flat_errors f rs) in
    let (rest, back) = flat_errors_iff f rs in
    ((λ h. ((to h).0, rest (to h).1)), λ (p, h). from (p, back h))

bad_degrees_iff :
    (limit : ℕ) (o : Option Number) → (bad_degrees limit o ≡ false) ↔ InDegrees limit o
unfolding num_le
bad_degrees_iff limit none = ((λ _. tt), (λ _. refl))
bad_degrees_iff limit (some x) = ground arith

bad_positive_iff : (o : Option Number) → (bad_positive o ≡ false) ↔ IsPositive o
unfolding num_lt
bad_positive_iff none = ((λ _. tt), (λ _. refl))
bad_positive_iff (some x) = ground arith

bad_seconds_iff : (o : Option Number) → (bad_seconds o ≡ false) ↔ IsSeconds o
bad_seconds_iff none = ((λ _. tt), (λ _. refl))
bad_seconds_iff (some x) = (to, from)
  where
    to : bad_seconds (some x) ≡ false → IsSeconds (some x)
    to h =
        let whole : is_integer x ≡ true = ground arith in
        let above : num_lt (of_ℕ 0) x ≡ true = ground arith in
        let (n, p) = IsNat-of x whole (num_lt-zero x 0 above) in
        (n, p, (num_lt-nat (of_ℕ 0) x 0 n refl p).0 above)

    from : IsSeconds (some x) → bad_seconds (some x) ≡ false
    from (n, p, h) = rw (is_integer-nat x n p, (num_lt-nat (of_ℕ 0) x 0 n refl p).1 h)

-- the check of the order alone
abbrev pub HasOrder : RouteLegRequest → Type 0
HasOrder r = (n : ℕ) × IsNat n r.seq_order × (0 < n)

bad_order_iff :
    (x : Number)
    → (not (is_integer x && num_lt (of_ℕ 0) x) ≡ false) ↔ ((n : ℕ) × IsNat n x × (0 < n))
bad_order_iff x = bad_seconds_iff (some x)

pub field_errors_iff : (r : RouteLegRequest) → (field_errors r ≡ []) ↔ (HasOrder r × HasFields r)
unfolding field_errors
field_errors_iff r = (to, from)
  where
    to : field_errors r ≡ [] → HasOrder r × HasFields r
    to h =
        let (order, h1) = append-eq_nil _ _ h in
        let (start, h2) = append-eq_nil _ _ h1 in
        let (end, h3) = append-eq_nil _ _ h2 in
        let (distance, travel) = append-eq_nil _ _ h3 in
        let start' = or_false _ _ ((error_if_iff _ _).0 start) in
        let end' = or_false _ _ ((error_if_iff _ _).0 end) in
        (
          (bad_order_iff r.seq_order).0 ((error_if_iff _ _).0 order),
          record {
            start_lat = (bad_degrees_iff 90 r.start_lat).0 start'.0;
            start_lng = (bad_degrees_iff 180 r.start_lng).0 start'.1;
            end_lat = (bad_degrees_iff 90 r.end_lat).0 end'.0;
            end_lng = (bad_degrees_iff 180 r.end_lng).0 end'.1;
            distance = (bad_positive_iff r.planned_distance_m).0 ((error_if_iff _ _).0 distance);
            travel = (bad_seconds_iff r.planned_travel_sec).0 ((error_if_iff _ _).0 travel);
          },
        )

    from : HasOrder r × HasFields r → field_errors r ≡ []
    from (order, f) = rw (
      (bad_order_iff r.seq_order).1 order,
      (bad_degrees_iff 90 r.start_lat).1 f.start_lat,
      (bad_degrees_iff 180 r.start_lng).1 f.start_lng,
      (bad_degrees_iff 90 r.end_lat).1 f.end_lat,
      (bad_degrees_iff 180 r.end_lng).1 f.end_lng,
      (bad_positive_iff r.planned_distance_m).1 f.distance,
      (bad_seconds_iff r.planned_travel_sec).1 f.travel,
    )

pub some_gap_iff :
    (i : ℕ) (rs : List RouteLegRequest) → (some_gap i rs ≡ false) ↔ Numbered (i + 1) rs
unfolding some_gap
some_gap_iff i [] = ((λ _. tt), (λ _. refl))
some_gap_iff i (r ∷ rs) = ground (arith, some_gap_iff (i + 1) rs, num_eq-IsNat r.seq_order (i + 1))

last_type_iff :
    (r : RouteLegRequest) (rs : List RouteLegRequest)
    → (not (is_walk (last_type r.leg_type rs)) ≡ false) ↔ EndsWithWalk (r ∷ rs)
last_type_iff r [] = ground arith
last_type_iff r (q ∷ rs) = last_type_iff q rs

pub ends_not_walk_iff :
    (rs : List RouteLegRequest) → (ends_not_walk rs ≡ false) ↔ (StartsWithWalk rs × EndsWithWalk rs)
unfolding ends_not_walk
ends_not_walk_iff [] = ((λ _. (tt, tt)), (λ _. refl))
ends_not_walk_iff (r ∷ rs) = ground (arith, last_type_iff r rs)

pub neighbour_errors_iff : (rs : List RouteLegRequest) → (neighbour_errors rs ≡ []) ↔ Alternates rs
unfolding neighbour_errors
neighbour_errors_iff [] = ((λ _. tt), (λ _. refl))
neighbour_errors_iff (a ∷ []) = ((λ _. tt), (λ _. refl))
neighbour_errors_iff (a ∷ b ∷ rest) = ground (arith, neighbour_errors_iff (b ∷ rest))

pub kind_errors_iff : (t : LegType) (r : RouteLegRequest) → (kind_errors_of t r ≡ []) ↔ HasKind t r
unfolding kind_errors_of same_stops
kind_errors_iff walk r = ground arith
kind_errors_iff transit r = ground arith
