-- ===== src/Queries/Keys.antt =====
-- Two hooks that share an answer in the cache ask for the same thing: the request is read off the key.
use when_i_off.Prelude.{
  Str, codes, str_eq, ◌≡◌, refl, sym, ◌∙◌, ap, true, List, [], ◌∷◌, Option, none, some,
  if◌then◌else◌,
}
use when_i_off.Prelude.Text.{str_eq}
use when_i_off.Api.{TransitMode, bus, subway, gtx, mode_name}
use when_i_off.Queries.{
  KeyPart, text, id, null, filter_of, nearby, departures, Key, Request, Hook, commute_routes,
  ops_status, commute_route, route_calibration, signal_cycles, trip_gps_traces, history,
  evaluations, commute_trips, line_search, nearby_stops, nearby_signals, departures_at, query_of,
  use_commute_routes, use_commute_route, use_route_calibration, use_recommendation_history,
  use_recommendation_evaluations, use_commute_trips, use_transit_line_search, use_nearby_stops,
  use_nearby_signals, use_signal_cycles, use_trip_gps_traces, use_next_departures, use_ops_status,
}

mode_of_text : Str → Option TransitMode
mode_of_text s =
    if str_eq s (mode_name bus)
    then some bus
    else if str_eq s (mode_name subway)
    then some subway
    else some gtx

mode_of_part : KeyPart → Option TransitMode
mode_of_part (text s) = mode_of_text s
mode_of_part _ = none

under_routes : List KeyPart → Option Request
under_routes [] = use_commute_routes.request
under_routes (id route ∷ []) = (use_commute_route route).request
under_routes (id route ∷ text s ∷ []) = (use_route_calibration route).request
under_routes (id route ∷ text s ∷ text from ∷ text to ∷ []) =
    if str_eq s (codes "recommendation-history")
    then (use_recommendation_history route from to true).request
    else (use_recommendation_evaluations route from to true).request
under_routes parts = none

under_trips : List KeyPart → Option Request
under_trips (filter_of f ∷ []) = (use_commute_trips f).request
under_trips (id trip ∷ rest) = (use_trip_gps_traces trip).request
under_trips parts = none

under_signals : List KeyPart → Option Request
under_signals (id signal ∷ rest) = (use_signal_cycles signal).request
under_signals (text s ∷ nearby at ∷ []) = (use_nearby_signals (some at)).request
under_signals (text s ∷ null ∷ []) = (use_nearby_signals none).request
under_signals parts = none

under_lines : List KeyPart → Option Request
under_lines (text s ∷ text keyword ∷ mode ∷ []) =
    (use_transit_line_search keyword (mode_of_part mode)).request
under_lines parts = none

under_stops : List KeyPart → Option Request
under_stops (text s ∷ nearby at ∷ mode ∷ []) =
    (use_nearby_stops (some at) (mode_of_part mode)).request
under_stops (text s ∷ null ∷ mode ∷ []) = (use_nearby_stops none (mode_of_part mode)).request
under_stops parts = none

under_departures : List KeyPart → Option Request
under_departures (departures q ∷ []) = (use_next_departures (some q)).request
under_departures parts = none

-- the request that a key stands for
request_of_key : Key → Option Request
request_of_key (text s ∷ rest) =
    if str_eq s (codes "commute-routes")
    then under_routes rest
    else if str_eq s (codes "commute-trips")
    then under_trips rest
    else if str_eq s (codes "traffic-signals")
    then under_signals rest
    else if str_eq s (codes "transit-lines")
    then under_lines rest
    else if str_eq s (codes "transit-stops")
    then under_stops rest
    else if str_eq s (codes "schedules-next")
    then under_departures rest
    else use_ops_status.request
request_of_key parts = none

request_of_key-query_of : (h : Hook) → request_of_key (query_of h).key ≡ (query_of h).request
unfolding request_of_key under_routes under_trips under_signals under_lines under_stops
    under_departures mode_of_part mode_of_text str_eq
request_of_key-query_of commute_routes = refl
request_of_key-query_of ops_status = refl
request_of_key-query_of (commute_route route) = refl
request_of_key-query_of (route_calibration route) = refl
request_of_key-query_of (signal_cycles signal) = refl
request_of_key-query_of (trip_gps_traces trip) = refl
request_of_key-query_of (history route from to enabled) = refl
request_of_key-query_of (evaluations route from to enabled) = refl
request_of_key-query_of (commute_trips f) = refl
request_of_key-query_of (line_search keyword none) = refl
request_of_key-query_of (line_search keyword (some bus)) = refl
request_of_key-query_of (line_search keyword (some subway)) = refl
request_of_key-query_of (line_search keyword (some gtx)) = refl
request_of_key-query_of (nearby_stops none none) = refl
request_of_key-query_of (nearby_stops none (some bus)) = refl
request_of_key-query_of (nearby_stops none (some subway)) = refl
request_of_key-query_of (nearby_stops none (some gtx)) = refl
request_of_key-query_of (nearby_stops (some at) none) = refl
request_of_key-query_of (nearby_stops (some at) (some bus)) = refl
request_of_key-query_of (nearby_stops (some at) (some subway)) = refl
request_of_key-query_of (nearby_stops (some at) (some gtx)) = refl
request_of_key-query_of (nearby_signals none) = refl
request_of_key-query_of (nearby_signals (some at)) = refl
request_of_key-query_of (departures_at none) = refl
request_of_key-query_of (departures_at (some q)) = refl

-- Two hooks, whatever their arguments, that have the same key in the query cache send the same request: no
-- hook is ever given the answer to another question.
pub query_of-key :
    (h k : Hook) → (query_of h).key ≡ (query_of k).key → (query_of h).request ≡ (query_of k).request
query_of-key h k e =
    sym (request_of_key-query_of h) ∙ (ap request_of_key e ∙ request_of_key-query_of k)
