-- ===== src/Queries.antt =====
-- desktop/src/api/queries.ts, the reading half: for each hook the key of its answer in the query cache, the
-- request that it sends, and when it is enabled. A key is equal to another if the cache hashes them alike:
-- a field that is undefined is left out, as it is here by `none`.
pub mod Keys
pub mod Client
pub mod Mutations
pub mod Freshness
use when_i_off.Prelude.{
  Str, codes, str_eq, ℕ, ◌≡◌, Bool, true, false, not, List, [], ◌∷◌, ◌++◌, Option, none, some,
  if◌then◌else◌,
}
use when_i_off.Prelude.Int.{ℤ, pos}
use when_i_off.Prelude.JsText.{trim}
use when_i_off.Prelude.Number.{Number}
use when_i_off.Api.{TransitMode, mode_name}

pub record TripFilter : Type 0 where
  pub route_id : Option ℕ
  pub from : Option Str
  pub to : Option Str

pub record NearbyQuery : Type 0 where
  pub lat : Number
  pub lng : Number
  pub radius_m : Number

pub record NextDeparturesQuery : Type 0 where
  pub line_id : ℤ
  pub stop_id : ℕ
  pub direction : Str
  pub at : Str
  pub limit : ℕ

-- A part of a key.
pub data KeyPart : Type 0 where
  text : Str → KeyPart
  id : ℕ → KeyPart
  null : KeyPart
  filter_of : TripFilter → KeyPart
  nearby : NearbyQuery → KeyPart
  departures : NextDeparturesQuery → KeyPart

abbrev pub Key : Type 0
Key = List KeyPart

-- A value in the query string of a request.
pub data Value : Type 0 where
  str : Str → Value
  int : ℕ → Value
  num : Number → Value

pub record Param : Type 0 where
  pub name : Str
  pub value : Value

-- A GET: the template of its path, the ids in the path, and the query string.
pub record Request : Type 0 where
  pub path : Str
  pub ids : List ℤ
  pub params : List Param

-- What a hook passes to `useQuery`. There is no request where making it would throw.
pub record Query : Type 0 where
  pub key : Key
  pub request : Option Request
  pub enabled : Bool
  pub keeps_previous : Bool
  pub refetch_interval_ms : Option ℕ

abbrev pub plain : Key → Request → Query
plain key request = record {
  key = key;
  request = some request;
  enabled = true;
  keeps_previous = false;
  refetch_interval_ms = none;
}

abbrev pub param : Str → Value → Param
param name value = record { name = name; value = value }

abbrev pub get : Str → List ℤ → List Param → Request
get path ids params = record { path = path; ids = ids; params = params }

abbrev pub routes : KeyPart
routes = text (codes "commute-routes")

abbrev pub trips : KeyPart
trips = text (codes "commute-trips")

abbrev pub signals : KeyPart
signals = text (codes "traffic-signals")

abbrev pub next_departures : KeyPart
next_departures = text (codes "schedules-next")

abbrev pub recommendation_history : KeyPart
recommendation_history = text (codes "recommendation-history")

abbrev pub use_commute_routes : Query
use_commute_routes = plain (routes ∷ []) (get (codes "/api/v1/commute-routes") [] [])

abbrev pub route_query : ℕ → Query
route_query route =
    plain (routes ∷ id route ∷ []) (get (codes "/api/v1/commute-routes/{id}") (pos route ∷ []) [])

abbrev pub use_commute_route : ℕ → Query
use_commute_route route = route_query route

abbrev pub use_commute_route_details : List ℕ → List Query
use_commute_route_details [] = []
use_commute_route_details (route ∷ ids) = route_query route ∷ use_commute_route_details ids

abbrev pub use_route_calibration : ℕ → Query
use_route_calibration route =
    plain (routes ∷ id route ∷ text (codes "calibration") ∷ [])
      (get (codes "/api/v1/commute-routes/{id}/calibration") (pos route ∷ []) [])

abbrev pub period : Str → Str → List Param
period from to = param (codes "from") (str from) ∷ param (codes "to") (str to) ∷ []

abbrev pub use_recommendation_history : ℕ → Str → Str → Bool → Query
use_recommendation_history route from to enabled = record {
  key = routes ∷ id route ∷ recommendation_history ∷ text from ∷ text to ∷ [];
  request = some (
      get (codes "/api/v1/commute-routes/{routeId}/recommendation-history") (pos route ∷ [])
        (period from to));
  enabled = enabled;
  keeps_previous = true;
  refetch_interval_ms = none;
}

abbrev pub use_recommendation_evaluations : ℕ → Str → Str → Bool → Query
use_recommendation_evaluations route from to enabled = record {
  key = routes ∷ id route ∷ text (codes "recommendation-evaluations") ∷ text from ∷ text to ∷ [];
  request = some (
      get (codes "/api/v1/commute-routes/{routeId}/recommendation-evaluations") (pos route ∷ [])
        (period from to));
  enabled = enabled;
  keeps_previous = true;
  refetch_interval_ms = none;
}

abbrev pub if_given {ℓ} : {A : Type ℓ} → Str → (A → Value) → Option A → List Param
if_given name f none = []
if_given name f (some a) = param name (f a) ∷ []

abbrev pub use_commute_trips : TripFilter → Query
use_commute_trips f = plain (trips ∷ filter_of f ∷ []) (
    get (codes "/api/v1/commute-trips") [] (
      if_given (codes "routeId") int f.route_id
      ++ (if_given (codes "from") str f.from ++ if_given (codes "to") str f.to)))

-- `mode ?? null`
abbrev pub mode_part : Option TransitMode → KeyPart
mode_part none = null
mode_part (some mode) = text (mode_name mode)

abbrev pub mode_value : TransitMode → Value
mode_value mode = str (mode_name mode)

abbrev pub use_transit_line_search : Str → Option TransitMode → Query
use_transit_line_search keyword mode = record {
  key = text (codes "transit-lines") ∷ text (codes "search") ∷ text keyword ∷ mode_part mode ∷ [];
  request = some (
      get (codes "/api/v1/transit-lines/search") []
        (param (codes "keyword") (str keyword) ∷ if_given (codes "mode") mode_value mode));
  enabled = not (str_eq (trim keyword) []);
  keeps_previous = false;
  refetch_interval_ms = none;
}

abbrev pub at_part : Option NearbyQuery → KeyPart
at_part none = null
at_part (some at) = nearby at

abbrev pub at_params : NearbyQuery → List Param
at_params at =
    param (codes "lat") (num at.lat)
    ∷ param (codes "lng") (num at.lng)
    ∷ param (codes "radiusM") (num at.radius_m)
    ∷ []

-- `{ ...at! }`, which holds nothing if there is no place
abbrev pub spread_at : Option NearbyQuery → List Param
spread_at none = []
spread_at (some at) = at_params at

abbrev pub is_given {ℓ} : {A : Type ℓ} → Option A → Bool
is_given none = false
is_given (some a) = true

abbrev pub use_nearby_stops : Option NearbyQuery → Option TransitMode → Query
use_nearby_stops at mode = record {
  key = text (codes "transit-stops") ∷ text (codes "nearby") ∷ at_part at ∷ mode_part mode ∷ [];
  request = some (
      get (codes "/api/v1/transit-stops/nearby") []
        (spread_at at ++ if_given (codes "mode") mode_value mode));
  enabled = is_given at;
  keeps_previous = false;
  refetch_interval_ms = none;
}

abbrev pub use_nearby_signals : Option NearbyQuery → Query
use_nearby_signals at = record {
  key = signals ∷ text (codes "nearby") ∷ at_part at ∷ [];
  request = some (get (codes "/api/v1/traffic-signals/nearby") [] (spread_at at));
  enabled = is_given at;
  keeps_previous = false;
  refetch_interval_ms = none;
}

abbrev pub use_signal_cycles : ℕ → Query
use_signal_cycles signal =
    plain (signals ∷ id signal ∷ text (codes "cycles") ∷ [])
      (get (codes "/api/v1/traffic-signals/{id}/cycles") (pos signal ∷ []) [])

abbrev pub use_trip_gps_traces : ℕ → Query
use_trip_gps_traces trip =
    plain (trips ∷ id trip ∷ text (codes "gps-traces") ∷ [])
      (get (codes "/api/v1/commute-trips/{id}/gps-traces") (pos trip ∷ []) [])

abbrev pub departures_part : Option NextDeparturesQuery → KeyPart
departures_part none = null
departures_part (some q) = departures q

-- `q!.lineId` throws if there is no query
abbrev pub departures_request : Option NextDeparturesQuery → Option Request
departures_request none = none
departures_request (some q) = some (
    get (codes "/api/v1/transit-lines/{lineId}/schedules/next") (q.line_id ∷ []) (
      param (codes "stopId") (int q.stop_id)
      ∷ param (codes "direction") (str q.direction)
      ∷ param (codes "at") (str q.at)
      ∷ param (codes "limit") (int q.limit)
      ∷ []))

abbrev pub use_next_departures : Option NextDeparturesQuery → Query
use_next_departures q = record {
  key = next_departures ∷ departures_part q ∷ [];
  request = departures_request q;
  enabled = is_given q;
  keeps_previous = false;
  refetch_interval_ms = none;
}

abbrev pub ops_refresh_ms : ℕ
ops_refresh_ms = 30_000

abbrev pub use_ops_status : Query
use_ops_status = record {
  key = text (codes "admin-ops") ∷ text (codes "external-apis") ∷ [];
  request = some (get (codes "/api/v1/admin/ops/external-apis") [] []);
  enabled = true;
  keeps_previous = false;
  refetch_interval_ms = some ops_refresh_ms;
}

-- A call of one of the hooks.
pub data Hook : Type 0 where
  commute_routes ops_status : Hook
  commute_route route_calibration signal_cycles trip_gps_traces : ℕ → Hook
  history evaluations : ℕ → Str → Str → Bool → Hook
  commute_trips : TripFilter → Hook
  line_search : Str → Option TransitMode → Hook
  nearby_stops : Option NearbyQuery → Option TransitMode → Hook
  nearby_signals : Option NearbyQuery → Hook
  departures_at : Option NextDeparturesQuery → Hook

abbrev pub query_of : Hook → Query
query_of commute_routes = use_commute_routes
query_of ops_status = use_ops_status
query_of (commute_route route) = use_commute_route route
query_of (route_calibration route) = use_route_calibration route
query_of (signal_cycles signal) = use_signal_cycles signal
query_of (trip_gps_traces trip) = use_trip_gps_traces trip
query_of (history route from to enabled) = use_recommendation_history route from to enabled
query_of (evaluations route from to enabled) = use_recommendation_evaluations route from to enabled
query_of (commute_trips f) = use_commute_trips f
query_of (line_search keyword mode) = use_transit_line_search keyword mode
query_of (nearby_stops at mode) = use_nearby_stops at mode
query_of (nearby_signals at) = use_nearby_signals at
query_of (departures_at q) = use_next_departures q
