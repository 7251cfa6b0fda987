-- ===== src/Queries/Freshness.antt =====
-- What the success of a mutation does to the queries that the pages show.
use when_i_off.Prelude.{
  Str, str_eq, ℕ, ◌≡◌, ◌≢◌, refl, ◌∙◌, Bool, true, false, List, [], ◌∷◌, Option, some, ◌==◌, arith,
}
use when_i_off.Prelude.Text.{str_eq}
use when_i_off.Api.{RouteLeg}
use when_i_off.Target.{CommuteRoute}
use when_i_off.Cycles.{TrafficSignalCycle}
use when_i_off.Queries.{
  TripFilter, NearbyQuery, NextDeparturesQuery, id, Key, routes, Hook, query_of, commute_routes,
  commute_route, route_calibration, signal_cycles, trip_gps_traces, history, evaluations,
  commute_trips, nearby_signals, departures_at,
}
use when_i_off.Queries.Client.{
  QueryClient, IsQueryClient, QueryFilter, is_plain_filter, below, exactly, selects, same_key,
}
use when_i_off.Queries.Mutations.{
  Answer, detail, cycles, with_route, Success, trip_updated, attempt_updated, route_created,
  signal_created, schedules_imported, route_updated, legs_replaced, crossings_replaced,
  cycles_replaced, on_success, invalidate_route, route_was_updated, legs_were_replaced,
  cycles_were_replaced,
}

-- The queries that may be out of date when a mutation succeeded, its response not being their new answer.
pub data Affects : Success → Hook → Type 0 where
  trip_list : (trip : ℕ) (f : TripFilter) → Affects (trip_updated trip) (commute_trips f)
  trip_traces : (trip : ℕ) → Affects (trip_updated trip) (trip_gps_traces trip)
  trip_history :
      (trip route : ℕ) (from to : Str) (on : Bool)
      → Affects (trip_updated trip) (history route from to on)
  attempt_list :
      (attempt : ℕ) (f : TripFilter) → Affects (attempt_updated attempt) (commute_trips f)
  attempt_history :
      (attempt route : ℕ) (from to : Str) (on : Bool)
      → Affects (attempt_updated attempt) (history route from to on)
  new_route : Affects route_created commute_routes
  route_list :
      (route : ℕ) (reply : CommuteRoute) → Affects (route_updated route reply) commute_routes
  route_detail :
      (route : ℕ) (reply : CommuteRoute) → Affects (route_updated route reply) (commute_route route)
  legs_detail :
      (route : ℕ) (reply : CommuteRoute) (legs : List RouteLeg)
      → Affects (legs_replaced route reply legs) (commute_route route)
  legs_calibration :
      (route : ℕ) (reply : CommuteRoute) (legs : List RouteLeg)
      → Affects (legs_replaced route reply legs) (route_calibration route)
  legs_history :
      (route : ℕ) (reply : CommuteRoute) (legs : List RouteLeg) (from to : Str) (on : Bool)
      → Affects (legs_replaced route reply legs) (history route from to on)
  crossings_detail : (route leg : ℕ) → Affects (crossings_replaced route leg) (commute_route route)
  new_signal : (at : Option NearbyQuery) → Affects signal_created (nearby_signals at)
  timetable : (q : Option NextDeparturesQuery) → Affects schedules_imported (departures_at q)

-- The queries whose new answer a mutation's response is.
pub data Gives : Success → Hook → Answer → Type 0 where
  legs_reply :
      (route : ℕ) (reply : CommuteRoute) (legs : List RouteLeg)
      → Gives (legs_replaced route reply legs) (commute_route route) (detail reply legs)
  cycles_reply :
      (signal : ℕ) (rows : List TrafficSignalCycle)
      → Gives (cycles_replaced signal rows) (signal_cycles signal) (cycles rows)

-- The hooks that ask about one route.
pub data About : ℕ → Hook → Type 0 where
  its_detail : (route : ℕ) → About route (commute_route route)
  its_calibration : (route : ℕ) → About route (route_calibration route)
  its_history : (route : ℕ) (from to : Str) (on : Bool) → About route (history route from to on)
  its_evaluations :
      (route : ℕ) (from to : Str) (on : Bool) → About route (evaluations route from to on)

-- The mutations that write one route.
pub data Writes : ℕ → Success → Type 0 where
  by_settings : (route : ℕ) (reply : CommuteRoute) → Writes route (route_updated route reply)
  by_legs :
      (route : ℕ) (reply : CommuteRoute) (legs : List RouteLeg)
      → Writes route (legs_replaced route reply legs)
  by_crossings : (route leg : ℕ) → Writes route (crossings_replaced route leg)

id_refl : (n : ℕ) → (n == n) ≡ true
id_refl n = ground arith

id_differs : (n m : ℕ) → n ≢ m → (n == m) ≡ false
id_differs n m d = ground arith

module _ {client : QueryClient Answer} (laws : IsQueryClient client) where
  open client use {Cache, answer, is_fresh, invalidate}

  -- Where a mutation's response is the new answer of a query, the cache holds that response afterwards.
  pub on_success-given :
      {s : Success} {h : Hook} {a : Answer}
      → Gives s h a
      → (c : Cache) → answer (on_success client s c) (query_of h).key ≡ some a
  unfolding on_success legs_were_replaced cycles_were_replaced invalidate_route str_eq
  on_success-given (legs_reply route reply legs) c =
      laws.answer-invalidate _ _ _ ∙ (laws.answer-set_data _ _ c _ refl ∙ rw (id_refl route) refl)
  on_success-given (cycles_reply signal rows) c =
      laws.answer-set_data _ _ c _ refl ∙ rw (id_refl signal) refl

  -- Settings that were saved show at once in the detail of the route that the cache holds, its legs unchanged.
  pub on_success-route_updated :
      (route : ℕ) (old reply : CommuteRoute) (legs : List RouteLeg) (c : Cache)
      → answer c (query_of (commute_route route)).key ≡ some (detail old legs)
      → answer
          (on_success client (route_updated route reply) c)
          (query_of (commute_route route)).key
        ≡ some (detail reply legs)
  unfolding on_success route_was_updated invalidate_route str_eq
  on_success-route_updated route old reply legs c e =
      laws.answer-invalidate _ _ _
      ∙ (laws.answer-invalidate _ _ _
          ∙ (laws.answer-set_data _ _ c _ refl ∙ rw (id_refl route, e) refl))

  untouched :
      (f : QueryFilter) (c : Cache) (k : Key)
      → is_plain_filter f ≡ true
      → selects f k ≡ false
      → is_fresh (invalidate f c) k ≡ is_fresh c k
  untouched f c k plain e = laws.fresh-invalidate f c k plain ∙ rw e refl

  -- a key under another route
  Elsewhere : ℕ → Key → Type 0
  Elsewhere route k =
      (selects (below (routes ∷ id route ∷ [])) k ≡ false)
      × (selects (exactly (routes ∷ [])) k ≡ false)
      × (same_key (routes ∷ id route ∷ []) k ≡ false)

  About-Elsewhere :
      {route mine : ℕ} {h : Hook} → About route h → mine ≢ route → Elsewhere mine (query_of h).key
  unfolding Elsewhere str_eq
  About-Elsewhere {mine = mine} (its_detail route) d =
      let e = id_differs mine route d in (rw e refl, refl, rw e refl)
  About-Elsewhere {mine = mine} (its_calibration route) d =
      let e = id_differs mine route d in (rw e refl, refl, rw e refl)
  About-Elsewhere {mine = mine} (its_history route from to on) d =
      let e = id_differs mine route d in (rw e refl, refl, rw e refl)
  About-Elsewhere {mine = mine} (its_evaluations route from to on) d =
      let e = id_differs mine route d in (rw e refl, refl, rw e refl)

  kept :
      (mine : ℕ) (u : Option Answer → Option Answer) (c : Cache) (k : Key)
      → Elsewhere mine k
      → (answer (client.set_data (routes ∷ id mine ∷ []) u c) k ≡ answer c k)
        × (is_fresh (client.set_data (routes ∷ id mine ∷ []) u c) k ≡ is_fresh c k)
  unfolding Elsewhere
  kept mine u c k e =
      let (_, _, s) = e in
      (laws.answer-set_data _ u c k refl ∙ rw s refl, laws.fresh-set_data _ u c k refl s)

  kept_route :
      (mine : ℕ) (c : Cache) (k : Key)
      → Elsewhere mine k
      → (answer (invalidate_route client mine c) k ≡ answer c k)
        × (is_fresh (invalidate_route client mine c) k ≡ is_fresh c k)
  unfolding invalidate_route Elsewhere
  kept_route mine c k e =
      let (b, _, _) = e in (laws.answer-invalidate _ c k, untouched _ c k refl b)

  -- Writing one route leaves alone what the cache holds of the others: the answers about another route, and
  -- whether they are fresh, are the ones before.
  pub on_success-other_routes :
      {mine route : ℕ} {s : Success} {h : Hook}
      → Writes mine s
      → About route h
      → mine ≢ route
      → (c : Cache)
      → (answer (on_success client s c) (query_of h).key ≡ answer c (query_of h).key)
        × (is_fresh (on_success client s c) (query_of h).key ≡ is_fresh c (query_of h).key)
  unfolding on_success route_was_updated legs_were_replaced Elsewhere
  on_success-other_routes (by_settings mine reply) about d c =
      let e = About-Elsewhere about d in
      let (_, l, _) = e in
      let (a1, f1) = kept_route mine _ _ e in
      let (a2, f2) = kept mine (with_route reply) c _ e in
      (a1 ∙ (laws.answer-invalidate _ _ _ ∙ a2), f1 ∙ (untouched _ _ _ refl l ∙ f2))
  on_success-other_routes (by_legs mine reply legs) about d c =
      let e = About-Elsewhere about d in
      let (a1, f1) = kept_route mine _ _ e in
      let (a2, f2) = kept mine (λ _. some (detail reply legs)) c _ e in (a1 ∙ a2, f1 ∙ f2)
  on_success-other_routes (by_crossings mine leg) about d c =
      kept_route mine c _ (About-Elsewhere about d)
