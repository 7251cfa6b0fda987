-- ===== src/Legs.antt =====
-- desktop/src/legs/legRules.ts: the drafts of a route's legs, from the server's legs and to the requests.
-- The checks of the requests are in Validate, of the crossings in Crossings, moving a draft in Move.
pub mod Validate
pub mod RoundTrip
pub mod Move
pub mod Crossings
use when_i_off.Prelude.{
  Str, codes, ℕ, suc, ◌+◌, ◌≡◌, Bool, true, false, List, [], ◌∷◌, ◌++◌, map, Option, none, some,
  leb, is_some,
}
use when_i_off.Prelude.Sort.{sort}
use when_i_off.Prelude.Decimal.{decimal}
use when_i_off.Prelude.Number.{Number, of_ℕ}
use when_i_off.Api.{LegType, walk, transit, TransitLine, TransitStop, SignalCrossing, RouteLeg}
use mathlib.Core.Option

pub record LatLng : Type 0 where
  pub lat : Number
  pub lng : Number

pub record WalkDraft : Type 0 where
  pub key : Str
  pub id : Option ℕ
  pub start : Option LatLng
  pub end : Option LatLng
  pub planned_distance_m : Option Number
  pub distance_edited : Bool
  pub signal_crossings : List SignalCrossing

pub record TransitDraft : Type 0 where
  pub key : Str
  pub id : Option ℕ
  pub line : Option TransitLine
  pub board_stop : Option TransitStop
  pub alight_stop : Option TransitStop
  pub planned_travel_sec : Option Number

pub data LegDraft : Type 0 where
  walk_draft : WalkDraft → LegDraft
  transit_draft : TransitDraft → LegDraft

-- A field that a request leaves out is `none`, as one that it sends as null.
pub record RouteLegRequest : Type 0 where
  pub id : Option ℕ
  pub seq_order : Number
  pub leg_type : LegType
  pub start_lat : Option Number
  pub start_lng : Option Number
  pub end_lat : Option Number
  pub end_lng : Option Number
  pub planned_distance_m : Option Number
  pub transit_line_id : Option ℕ
  pub board_stop_id : Option ℕ
  pub alight_stop_id : Option ℕ
  pub planned_travel_sec : Option Number

-- `newKey` and `newTransit`: the module's counter goes in and comes out
unfoldable pub new_transit : ℕ → LegDraft × ℕ
new_transit next_key = (
  transit_draft (record {
    key = codes "new-" ++ decimal (next_key + 1);
    id = none;
    line = none;
    board_stop = none;
    alight_stop = none;
    planned_travel_sec = none;
  }),
  next_key + 1,
)

abbrev pub lat_lng : Option Number → Option Number → Option LatLng
lat_lng (some lat) (some lng) = some (record { lat = lat; lng = lng })
lat_lng _ _ = none

abbrev pub crossing_le : SignalCrossing → SignalCrossing → Bool
crossing_le a b = leb a.seq_order b.seq_order

abbrev pub leg_le : RouteLeg → RouteLeg → Bool
leg_le a b = leb a.seq_order b.seq_order

unfoldable pub draft_of_type : LegType → RouteLeg → LegDraft
draft_of_type walk leg = walk_draft (record {
  key = codes "leg-" ++ decimal leg.id;
  id = some leg.id;
  start = lat_lng leg.start_lat leg.start_lng;
  end = lat_lng leg.end_lat leg.end_lng;
  planned_distance_m = leg.planned_distance_m;
  distance_edited = is_some leg.planned_distance_m;
  signal_crossings = sort crossing_le leg.signal_crossings;
})
draft_of_type transit leg = transit_draft (record {
  key = codes "leg-" ++ decimal leg.id;
  id = some leg.id;
  line = leg.transit_line;
  board_stop = leg.board_stop;
  alight_stop = leg.alight_stop;
  planned_travel_sec = leg.planned_travel_sec;
})

unfoldable pub drafts_from_legs : List RouteLeg → List LegDraft
unfolding draft_of_type sort
drafts_from_legs legs = map (λ leg. draft_of_type leg.leg_type leg) (sort leg_le legs)

pub request_of_draft : ℕ → LegDraft → RouteLegRequest
request_of_draft i (walk_draft d) = record {
  id = d.id;
  seq_order = of_ℕ (i + 1);
  leg_type = walk;
  start_lat = Option.map (λ (p : LatLng). p.lat) d.start;
  start_lng = Option.map (λ (p : LatLng). p.lng) d.start;
  end_lat = Option.map (λ (p : LatLng). p.lat) d.end;
  end_lng = Option.map (λ (p : LatLng). p.lng) d.end;
  planned_distance_m = d.planned_distance_m;
  transit_line_id = none;
  board_stop_id = none;
  alight_stop_id = none;
  planned_travel_sec = none;
}
request_of_draft i (transit_draft d) = record {
  id = d.id;
  seq_order = of_ℕ (i + 1);
  leg_type = transit;
  start_lat = none;
  start_lng = none;
  end_lat = none;
  end_lng = none;
  planned_distance_m = none;
  transit_line_id = Option.map (λ (l : TransitLine). l.id) d.line;
  board_stop_id = Option.map (λ (s : TransitStop). s.id) d.board_stop;
  alight_stop_id = Option.map (λ (s : TransitStop). s.id) d.alight_stop;
  planned_travel_sec = d.planned_travel_sec;
}

pub requests_from : ℕ → List LegDraft → List RouteLegRequest
requests_from i [] = []
requests_from i (d ∷ ds) = request_of_draft i d ∷ requests_from (i + 1) ds

unfoldable pub to_leg_requests : List LegDraft → List RouteLegRequest
unfolding requests_from request_of_draft
to_leg_requests drafts = requests_from 0 drafts
