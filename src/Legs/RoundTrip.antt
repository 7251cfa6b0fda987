-- ===== src/Legs/RoundTrip.antt =====
-- The drafts of stored legs, sent back without an edit, and the numbers that the requests get.
use when_i_off.Prelude.{
  ℕ, ◌+◌, ◌≤◌, ◌≡◌, refl, true, List, [], ◌∷◌, map, Option, none, some, is_some, All, arith,
}
use when_i_off.Prelude.Sort.{sort, sort-All, IsSorted, sort-of_IsSorted}
use when_i_off.Prelude.Number.{Number, of_ℕ, num_lt-of_ℕ}
use when_i_off.Api.{LegType, walk, transit, RouteLeg, TransitLine, TransitStop}
use when_i_off.Legs.{
  LegDraft, walk_draft, transit_draft, LatLng, lat_lng, leg_le, draft_of_type, drafts_from_legs,
  RouteLegRequest, request_of_draft, requests_from, to_leg_requests,
}
use when_i_off.Legs.Validate.{request_le}
use when_i_off.Legs.Validate.Rules.{Numbered}
use mathlib.Core.Option
use mathlib.Core.Path.{ap₂}

-- A stored leg: a coordinate has both numbers or none, and the fields of the other kind are empty.
abbrev pub IsStored : LegType → RouteLeg → Type 0
IsStored walk leg =
    (is_some leg.start_lat ≡ is_some leg.start_lng)
    × (is_some leg.end_lat ≡ is_some leg.end_lng)
    × (leg.transit_line ≡ none)
    × (leg.board_stop ≡ none)
    × (leg.alight_stop ≡ none)
    × (leg.planned_travel_sec ≡ none)
IsStored transit leg =
    (leg.start_lat ≡ none)
    × (leg.start_lng ≡ none)
    × (leg.end_lat ≡ none)
    × (leg.end_lng ≡ none)
    × (leg.planned_distance_m ≡ none)

-- The leg itself as a request with the number `i + 1`.
abbrev pub copy : ℕ → RouteLeg → RouteLegRequest
copy i leg = record {
  id = some leg.id;
  seq_order = of_ℕ (i + 1);
  leg_type = leg.leg_type;
  start_lat = leg.start_lat;
  start_lng = leg.start_lng;
  end_lat = leg.end_lat;
  end_lng = leg.end_lng;
  planned_distance_m = leg.planned_distance_m;
  transit_line_id = Option.map (λ (l : TransitLine). l.id) leg.transit_line;
  board_stop_id = Option.map (λ (s : TransitStop). s.id) leg.board_stop;
  alight_stop_id = Option.map (λ (s : TransitStop). s.id) leg.alight_stop;
  planned_travel_sec = leg.planned_travel_sec;
}

abbrev pub copies : ℕ → List RouteLeg → List RouteLegRequest
copies i [] = []
copies i (leg ∷ legs) = copy i leg ∷ copies (i + 1) legs

lat_of_lat_lng :
    (a b : Option Number)
    → is_some a ≡ is_some b
    → (Option.map (λ (p : LatLng). p.lat) (lat_lng a b) ≡ a)
      × (Option.map (λ (p : LatLng). p.lng) (lat_lng a b) ≡ b)
lat_of_lat_lng none none h = (refl, refl)
lat_of_lat_lng none (some b) h = absurd (cc)
lat_of_lat_lng (some a) none h = absurd (cc)
lat_of_lat_lng (some a) (some b) h = (refl, refl)

request-draft :
    (t : LegType) (i : ℕ) (leg : RouteLeg)
    → leg.leg_type ≡ t
    → IsStored t leg
    → request_of_draft i (draft_of_type t leg) ≡ copy i leg
unfolding request_of_draft draft_of_type
request-draft walk i leg e (s, n, l, b, a, t) =
    let (lat, lng) = lat_of_lat_lng leg.start_lat leg.start_lng s in
    let (end_lat, end_lng) = lat_of_lat_lng leg.end_lat leg.end_lng n in
    rw (e, lat, lng, end_lat, end_lng, l, b, a, t)
request-draft transit i leg e (a, b, c, d, p) = rw (e, a, b, c, d, p)

requests-copies :
    (i : ℕ) (legs : List RouteLeg)
    → All (λ leg. IsStored leg.leg_type leg) legs
    → requests_from i (map (λ leg. draft_of_type leg.leg_type leg) legs) ≡ copies i legs
unfolding requests_from
requests-copies i [] h = refl
requests-copies i (leg ∷ legs) (p, h) =
    ap₂ ◌∷◌ (request-draft leg.leg_type i leg refl p) (requests-copies (i + 1) legs h)

-- Stored legs that are opened for editing and sent back without a change are the same legs, in the order
-- of their sequence numbers and numbered from 1.
pub to_leg_requests-drafts_from_legs :
    (legs : List RouteLeg)
    → All (λ leg. IsStored leg.leg_type leg) legs
    → to_leg_requests (drafts_from_legs legs) ≡ copies 0 (sort leg_le legs)
unfolding to_leg_requests drafts_from_legs
to_leg_requests-drafts_from_legs legs h =
    requests-copies 0 (sort leg_le legs) (sort-All leg_le _ legs h)

seq-request : (i : ℕ) (d : LegDraft) → (request_of_draft i d).seq_order ≡ of_ℕ (i + 1)
unfolding request_of_draft
seq-request i (walk_draft d) = refl
seq-request i (transit_draft d) = refl

later :
    (i j : ℕ) (d : LegDraft) (ds : List LegDraft)
    → i ≤ j
    → All (λ r. request_le (request_of_draft i d) r ≡ true) (requests_from j ds)
unfolding requests_from
later i j d [] h = tt
later i j d (e ∷ ds) h = (
  rw (seq-request i d, seq-request j e, num_lt-of_ℕ (i + 1) (j + 1) (omega arith)),
  later i (j + 1) d ds (omega arith),
)

requests-IsSorted : (i : ℕ) (ds : List LegDraft) → IsSorted request_le (requests_from i ds)
unfolding requests_from
requests-IsSorted i [] = tt
requests-IsSorted i (d ∷ ds) = (later i (i + 1) d ds (omega arith), requests-IsSorted (i + 1) ds)

requests-Numbered : (i : ℕ) (ds : List LegDraft) → Numbered (i + 1) (requests_from i ds)
unfolding requests_from
requests-Numbered i [] = tt
requests-Numbered i (d ∷ ds) = (rw (seq-request i d) (omega arith), requests-Numbered (i + 1) ds)

-- The requests of any drafts are numbered from 1 in the drafts' order, and sorting them by their numbers
-- leaves them as they are.
pub to_leg_requests-Numbered :
    (drafts : List LegDraft)
    → Numbered 1 (to_leg_requests drafts)
      × (sort request_le (to_leg_requests drafts) ≡ to_leg_requests drafts)
unfolding to_leg_requests
to_leg_requests-Numbered drafts =
    (requests-Numbered 0 drafts, sort-of_IsSorted request_le _ (requests-IsSorted 0 drafts))
