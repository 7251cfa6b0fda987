-- ===== src/Queries/Mutations.antt =====
-- desktop/src/api/queries.ts, the writing half: the request of each mutation, and what its success does to the
-- query cache.
use when_i_off.Prelude.{Str, codes, ℕ, Bool, false, List, [], ◌∷◌, Option, none, some}
use when_i_off.Prelude.Number.{Number}
use when_i_off.Api.{DayType, Direction, RouteLeg}
use when_i_off.Target.{CommuteRoute, UpdateCommuteRouteRequest}
use when_i_off.Legs.{RouteLegRequest}
use when_i_off.Legs.Crossings.{SignalCrossingRequest}
use when_i_off.Cycles.{TrafficSignalCycle, TrafficSignalCycleRequest}
use when_i_off.Trips.Corrections.{UpdateCommuteTripRequest, UpdateBoardingAttemptRequest}
use when_i_off.Queries.{KeyPart, text, id, Key, routes, trips, signals, next_departures}
use when_i_off.Queries.Client.{QueryClient, below, exactly, such_that, part_eq}

pub record CreateCommuteRouteRequest : Type 0 where
  pub name : Str
  pub direction : Direction
  pub is_active : Bool
  pub origin_lat : Number
  pub origin_lng : Number
  pub destination_lat : Number
  pub destination_lng : Number
  pub default_target_arrival_time : Option Str
  pub default_target_day_types : Option (List DayType)

pub record NewSignal : Type 0 where
  pub lat : Number
  pub lng : Number
  pub name : Option Str

pub data Method : Type 0 where
  post put patch : Method

pub data Body : Type 0 where
  trip_body : UpdateCommuteTripRequest → Body
  attempt_body : UpdateBoardingAttemptRequest → Body
  new_route_body : CreateCommuteRouteRequest → Body
  route_body : UpdateCommuteRouteRequest → Body
  legs_body : List RouteLegRequest → Body
  crossings_body : List SignalCrossingRequest → Body
  signal_body : NewSignal → Body
  cycles_body : List TrafficSignalCycleRequest → Body
  -- a form with one part, `file`, of that name
  form_body : Str → Body

pub record MutationRequest : Type 0 where
  pub method : Method
  pub path : Str
  pub ids : List ℕ
  pub body : Body

abbrev pub send : Method → Str → List ℕ → Body → MutationRequest
send method path ids body = record { method = method; path = path; ids = ids; body = body }

-- What the modelled updates read of the answers in the cache: the detail of a route, a list of cycles, and
-- any other answer.
pub data Answer : Type 0 where
  detail : CommuteRoute → List RouteLeg → Answer
  cycles : List TrafficSignalCycle → Answer
  other : ℕ → Answer

-- `prev ? { ...prev, route } : prev`
abbrev pub with_route : CommuteRoute → Option Answer → Option Answer
with_route route none = none
with_route route (some (detail old legs)) = some (detail route legs)
with_route route (some (cycles rows)) = some (cycles rows)
with_route route (some (other n)) = some (other n)

abbrev pub third_is : KeyPart → Key → Bool
third_is part (a ∷ b ∷ c ∷ rest) = part_eq c part
third_is part key = false

abbrev pub first_is : KeyPart → Key → Bool
first_is part [] = false
first_is part (a ∷ rest) = part_eq a part

abbrev pub update_trip : ℕ → UpdateCommuteTripRequest → MutationRequest
update_trip trip body = send patch (codes "/api/v1/commute-trips/{id}") (trip ∷ []) (trip_body body)

abbrev pub update_attempt : ℕ → UpdateBoardingAttemptRequest → MutationRequest
update_attempt attempt body =
    send patch (codes "/api/v1/boarding-attempts/{id}") (attempt ∷ []) (attempt_body body)

abbrev pub create_route : CreateCommuteRouteRequest → MutationRequest
create_route body = send post (codes "/api/v1/commute-routes") [] (new_route_body body)

abbrev pub update_route : ℕ → UpdateCommuteRouteRequest → MutationRequest
update_route route body =
    send patch (codes "/api/v1/commute-routes/{id}") (route ∷ []) (route_body body)

abbrev pub replace_legs : ℕ → List RouteLegRequest → MutationRequest
replace_legs route legs =
    send put (codes "/api/v1/commute-routes/{id}/legs") (route ∷ []) (legs_body legs)

abbrev pub replace_crossings : ℕ → List SignalCrossingRequest → MutationRequest
replace_crossings leg crossings =
    send put (codes "/api/v1/route-legs/{id}/signal-crossings") (leg ∷ [])
      (crossings_body crossings)

abbrev pub create_signal : NewSignal → MutationRequest
create_signal signal = send post (codes "/api/v1/traffic-signals") [] (signal_body signal)

abbrev pub replace_signal_cycles : ℕ → List TrafficSignalCycleRequest → MutationRequest
replace_signal_cycles signal rows =
    send put (codes "/api/v1/traffic-signals/{id}/cycles") (signal ∷ []) (cycles_body rows)

abbrev pub import_schedules : Str → MutationRequest
import_schedules name = send post (codes "/api/v1/admin/schedules/import") [] (form_body name)

-- A mutation that succeeded, with what its update of the cache reads: the path's id and the response.
pub data Success : Type 0 where
  trip_updated attempt_updated : ℕ → Success
  route_created signal_created schedules_imported : Success
  route_updated : ℕ → CommuteRoute → Success
  legs_replaced : ℕ → CommuteRoute → List RouteLeg → Success
  crossings_replaced : (route leg : ℕ) → Success
  cycles_replaced : ℕ → List TrafficSignalCycle → Success

module _ (client : QueryClient Answer) where
  open client use {Cache, invalidate, set_data}

  unfoldable pub invalidate_trips : Cache → Cache
  invalidate_trips c =
      invalidate (such_that (third_is (text (codes "recommendation-history"))))
        (invalidate (below (trips ∷ [])) c)

  unfoldable pub invalidate_route : ℕ → Cache → Cache
  invalidate_route route c = invalidate (below (routes ∷ id route ∷ [])) c

  unfoldable pub route_was_updated : ℕ → CommuteRoute → Cache → Cache
  unfolding invalidate_route
  route_was_updated route reply c =
      invalidate_route route (
        invalidate (exactly (routes ∷ [])) (set_data (routes ∷ id route ∷ []) (with_route reply) c))

  unfoldable pub legs_were_replaced : ℕ → Answer → Cache → Cache
  unfolding invalidate_route
  legs_were_replaced route reply c =
      invalidate_route route (set_data (routes ∷ id route ∷ []) (λ _. some reply) c)

  unfoldable pub cycles_were_replaced : ℕ → List TrafficSignalCycle → Cache → Cache
  cycles_were_replaced signal rows c =
      set_data (signals ∷ id signal ∷ text (codes "cycles") ∷ []) (λ _. some (cycles rows)) c

  -- the `onSuccess` of each mutation
  unfoldable pub on_success : Success → Cache → Cache
  unfolding invalidate_trips invalidate_route route_was_updated legs_were_replaced
      cycles_were_replaced
  on_success (trip_updated trip) c = invalidate_trips c
  on_success (attempt_updated attempt) c = invalidate_trips c
  on_success route_created c = invalidate (exactly (routes ∷ [])) c
  on_success (route_updated route reply) c = route_was_updated route reply c
  on_success (legs_replaced route reply legs) c = legs_were_replaced route (detail reply legs) c
  on_success (crossings_replaced route leg) c = invalidate_route route c
  on_success signal_created c = invalidate (below (signals ∷ [])) c
  on_success (cycles_replaced signal rows) c = cycles_were_replaced signal rows c
  on_success schedules_imported c = invalidate (such_that (first_is next_departures)) c
