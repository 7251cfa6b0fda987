-- ===== src/Session/Login.antt =====
-- The way to the login page and back.
use when_i_off.Prelude.{
  Str, codes, str_eq, str_eq_iff, ◌≡◌, ◌≢◌, refl, sym, ◌∙◌, ◌⊎◌, true, false, Option, none, some,
  inl, inr, [], Bool-cases,
}
use when_i_off.Prelude.JsText.{trim}
use when_i_off.Prelude.JsText.Trim.{trim-trim}
use when_i_off.Auth.{safe_return_path}
use when_i_off.Auth.Safe.{IsSafe, safe_return_path_iff}
use when_i_off.Queries.Client.{QueryClient}
use when_i_off.Queries.Mutations.{Answer}
use when_i_off.Session.{
  Location, Browser, IsBrowser, App, key, token_header, path_of, get_token, set_token, on_request,
  on_unauthorized, redirect_to_login, leave_for_login, on_response, no_token, require_auth,
  return_from, submit,
}

-- How a page is left for the login page: without a token, or at a 401, with the router or without it.
pub data Expelled (b : Browser) (client : QueryClient Answer) (app : App b client)
    : App b client → Type 0 where
  no_entry :
      no_token b client (get_token b app.storage) ≡ true
      → Expelled b client app (require_auth b client app)
  refused : Expelled b client app (on_response b client (on_unauthorized b client) 401 app)
  refused_outside :
      (new : client.Cache)
      → Expelled b client app (on_response b client (leave_for_login b client new) 401 app)

no_path : safe_return_path none ≡ codes "/"
unfolding safe_return_path
no_path = refl

module _ {b : Browser} {IsShown : Location → Type 0} (laws : IsBrowser b IsShown) where
  redirect_param :
      (l : Location)
      → IsSafe (path_of l)
      → safe_return_path
          (b.search_param (codes "from") (b.parse_path (redirect_to_login b l)).search)
        ≡ path_of l
  unfolding redirect_to_login
  redirect_param l safe =
      let e = (safe_return_path_iff (path_of l)).1 safe in
      elim (Bool-cases (str_eq (path_of l) (codes "/"))) [
        | inl h ↦
            rw (e, h, laws.param-none) (no_path ∙ sym ((str_eq_iff (path_of l) (codes "/")).0 h))
        | inr h ↦ rw (e, h, laws.param-login (path_of l)) e
      ]

  stored_token :
      (v : Str) (s t : b.Storage)
      → b.set_item key v s ≡ some t
      → b.get_item key t ≢ none
      → get_token b (set_token b v s) ≡ some v
  unfolding get_token set_token
  stored_token v s t e readable = elim (laws.get-set key v s t e) [
    | inl lost ↦ absurd (readable lost)
    | inr held ↦ rw (e, held) refl
  ]

module _ {b : Browser} {IsShown : Location → Type 0} {client : QueryClient Answer}
    (laws : IsBrowser b IsShown) where
  -- The login page was told this path, or it is home and it was told none.
  return_is :
      {app out : App b client}
      → Expelled b client app out
      → IsSafe (path_of app.location)
      → safe_return_path (return_from b client out) ≡ path_of app.location
  unfolding return_from on_response on_unauthorized leave_for_login require_auth redirect_to_login
  return_is {app = app} (no_entry e) safe =
      rw e ((safe_return_path_iff (path_of app.location)).1 safe)
  return_is {app = app} refused safe =
      let e = (safe_return_path_iff (path_of app.location)).1 safe in rw (e, e) refl
  return_is {app = app} (refused_outside new) safe = redirect_param laws app.location safe

  -- Whichever way a page of the application is left for the login page, a login goes back to that same page,
  -- with its query and its hash.
  pub submit-location :
      {app out : App b client}
      → Expelled b client app out
      → IsSafe (path_of app.location)
      → IsShown app.location
      → (token : Str) → str_eq (trim token) [] ≡ false
      → (submit b client token out).location ≡ app.location
  unfolding submit
  submit-location {app = app} out safe shown token given =
      rw (given, return_is out safe) (laws.parse-current app.location shown)

  -- After a login, if the storage keeps the token: every request gets the token without the white space around
  -- it in its headers, unless the headers refuse that value; then `onRequest` throws.
  pub submit-on_request :
      (app : App b client) (t : b.Storage) (h : b.Headers) (token : Str)
      → str_eq (trim token) [] ≡ false
      → b.set_item key (trim token) app.storage ≡ some t
      → b.get_item key t ≢ none
      → let out = on_request b (submit b client token app).storage h in
        ((b.set_header token_header (trim token) h ≡ none) × (out ≡ none))
        ⊎ ((sent : b.Headers) × (out ≡ some sent)
            × (b.get_header token_header sent ≡ some (trim token)))
  unfolding submit on_request
  submit-on_request app t h token given kept readable =
      rw (given, stored_token laws (trim token) app.storage t kept readable, given)
        (held_or_not (b.set_header token_header (trim token) h) refl)
    where
      held_or_not :
          (o : Option b.Headers)
          → b.set_header token_header (trim token) h ≡ o
          → ((o ≡ none) × (o ≡ none))
            ⊎ ((sent : b.Headers) × (o ≡ some sent)
                × (b.get_header token_header sent ≡ some (trim token)))
      held_or_not none e = inl (refl, refl)
      held_or_not (some sent) e =
          inr (sent, refl, laws.header-set token_header (trim token) h sent e (trim-trim token))
