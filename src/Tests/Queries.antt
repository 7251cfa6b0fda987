-- ===== src/Tests/Queries.antt =====
-- A cache as a function from keys, and the queries of two routes in it.
use when_i_off.Prelude.{
  codes, ℕ, ◌≡◌, ◌≢◌, refl, Bool, true, false, ◌||◌, ◌&&◌, [], ◌∷◌, Option, none, some,
  if◌then◌else◌, arith,
}
use when_i_off.Tests.Legs.{walk_leg, train_leg}
use when_i_off.Tests.Target.{a_route}
use when_i_off.Queries.{Key, is_given, query_of, commute_route, history}
use when_i_off.Queries.Keys.{query_of-key}
use when_i_off.Queries.Client.{QueryClient, IsQueryClient, selects, same_key, updated}
use when_i_off.Queries.Mutations.{
  Answer, detail, other, on_success, route_updated, legs_replaced, crossings_replaced,
}
use when_i_off.Queries.Freshness.{
  on_success-given, on_success-route_updated, on_success-other_routes, legs_reply, by_crossings,
  its_history,
}

pub record Entry : Type 0 where
  pub saved : Option Answer
  pub fresh : Bool

entry : Option Answer → Bool → Entry
entry a b = record { saved = a; fresh = b }

abbrev pub a_client : QueryClient Answer
a_client = record {
  Cache = Key → Entry;
  answer = λ c k. (c k).saved;
  is_fresh = λ c k. (c k).fresh;
  invalidate =
      λ f c k. record { saved = (c k).saved; fresh = if selects f k then false else (c k).fresh };
  set_data = λ j u c k. record {
    saved = if same_key j k then updated u (c k).saved else (c k).saved;
    fresh = (same_key j k && is_given (u (c k).saved)) || (c k).fresh;
  };
  clear = λ c k. record { saved = none; fresh = false };
}

pub a_client-IsQueryClient : IsQueryClient a_client
a_client-IsQueryClient = record {
  answer-invalidate = λ f c k. refl;
  fresh-invalidate = λ f c k plain. refl;
  answer-set_data = λ j u c k plain. refl;
  fresh-set_data = λ j u c k plain e. rw e refl;
  answer-clear = λ c k. refl;
}

abbrev pub full : Key → Entry
full k = record { saved = some (other 7); fresh = true }

abbrev with_detail : Key → Entry
with_detail k = record { saved = some (detail a_route (walk_leg ∷ [])); fresh = true }

same_question :
    (query_of (history 3 (codes "2026-07-01") (codes "2026-07-31") true)).request
    ≡ (query_of (history 3 (codes "2026-07-01") (codes "2026-07-31") false)).request
same_question =
    query_of-key (history 3 (codes "2026-07-01") (codes "2026-07-31") true)
      (history 3 (codes "2026-07-01") (codes "2026-07-31") false) refl

legs_after_replacing :
    a_client.answer
      (on_success a_client (legs_replaced 3 a_route (train_leg ∷ [])) full)
      (query_of (commute_route 3)).key
    ≡ some (detail a_route (train_leg ∷ []))
legs_after_replacing =
    on_success-given a_client-IsQueryClient (legs_reply 3 a_route (train_leg ∷ [])) full

settings_at_once :
    a_client.answer
      (on_success a_client (route_updated 3 a_route) with_detail)
      (query_of (commute_route 3)).key
    ≡ some (detail a_route (walk_leg ∷ []))
settings_at_once =
    on_success-route_updated a_client-IsQueryClient 3 a_route a_route (walk_leg ∷ []) with_detail
      refl

four_is_not_three : ◌≢◌ {A = ℕ} 4 3
four_is_not_three = omega arith

other_route_kept :
    (a_client.answer
        (on_success a_client (crossings_replaced 4 12) full)
        (query_of (history 3 (codes "2026-07-01") (codes "2026-07-31") true)).key
      ≡ some (other 7))
    × (a_client.is_fresh
          (on_success a_client (crossings_replaced 4 12) full)
          (query_of (history 3 (codes "2026-07-01") (codes "2026-07-31") true)).key
        ≡ true)
other_route_kept =
    on_success-other_routes a_client-IsQueryClient (by_crossings 4 12)
      (its_history 3 (codes "2026-07-01") (codes "2026-07-31") true) four_is_not_three full
