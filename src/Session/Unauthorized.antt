-- ===== src/Session/Unauthorized.antt =====
-- What a 401 does to the session.
use when_i_off.Prelude.{Str, codes, ◌≡◌, refl, true, none, some, inl, inr}
use when_i_off.Auth.{safe_return_path}
use when_i_off.Auth.Safe.{IsSafe, safe_return_path-IsSafe}
use when_i_off.Queries.{Key}
use when_i_off.Queries.Client.{QueryClient, IsQueryClient}
use when_i_off.Queries.Mutations.{Answer}
use when_i_off.Session.{
  Location, Browser, IsBrowser, App, key, path_of, get_token, clear_token, on_request,
  on_unauthorized, on_response,
}

removed_token :
    {b : Browser} {IsShown : Location → Type 0}
    → IsBrowser b IsShown
    → (s t : b.Storage) → b.remove_item key s ≡ some t
    → get_token b (clear_token b s) ≡ none
unfolding get_token clear_token
removed_token laws s t e = elim (laws.get-remove key s t e) [
  | inl h ↦ rw (e, h) refl
  | inr h ↦ rw (e, h) refl
]

module _ {b : Browser} {client : QueryClient Answer} where
  -- A response with status 401 leaves no answer in the cache and goes to the login page, told to say why, with
  -- a path to return to that is always one of the application itself and not the login page.
  pub on_response-unauthorized :
      IsQueryClient client
      → (app : App b client) (k : Key)
      → let out = on_response b client (on_unauthorized b client) 401 app in
        (client.answer out.cache k ≡ none)
        × (out.location ≡ b.parse_path (codes "/login"))
        × (from : Str) × IsSafe from
        × (out.state ≡ some (record { from = some from; unauthorized = true }))
  unfolding on_response on_unauthorized
  on_response-unauthorized laws app k = (
    laws.answer-clear app.cache k,
    refl,
    safe_return_path (some (path_of app.location)),
    safe_return_path-IsSafe _,
    refl,
  )

  -- After a 401 no request carries the refused token, if the storage let it be removed: each goes out, with the
  -- headers that it had.
  pub on_response-on_request :
      {IsShown : Location → Type 0}
      → IsBrowser b IsShown
      → (app : App b client) (t : b.Storage) (h : b.Headers)
      → b.remove_item key app.storage ≡ some t
      → on_request b (on_response b client (on_unauthorized b client) 401 app).storage h ≡ some h
  unfolding on_response on_unauthorized on_request
  on_response-on_request laws app t h e = rw (removed_token laws app.storage t e) refl
