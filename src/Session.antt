-- ===== src/Session.antt =====
-- desktop/src/api/client.ts, auth/token.ts, auth/RequireAuth.tsx, context.ts and pages/LoginPage.tsx: the token of
-- the session, the requests that carry it, and the ways to the login page and back.
pub mod Unauthorized
pub mod Login
pub mod Retry
use when_i_off.Prelude.{
  Str, codes, str_eq, ℕ, ◌≡◌, ◌⊎◌, Bool, true, false, ◌&&◌, not, List, [], ◌∷◌, ◌++◌, Option, none,
  some, if◌then◌else◌, ◌==◌, ltb,
}
use when_i_off.Prelude.JsText.{trim}
use when_i_off.Prelude.Decimal.{decimal}
use when_i_off.Auth.{safe_return_path, current_path}
use when_i_off.Queries.Client.{QueryClient}
use when_i_off.Queries.Mutations.{Answer}

pub record Location : Type 0 where
  pub pathname : Str
  pub search : Str
  pub hash : Str

-- What the browser and the router give: the local storage, of which every access may throw (`none`), the
-- headers of a request, which throw at a name or a value that they cannot hold (`none`), the location of a path's text, and the query string.
pub record Browser : Type 1 where
  pub Storage : Type 0
  pub get_item : Str → Storage → Option (Option Str)
  pub set_item : Str → Str → Storage → Option Storage
  pub remove_item : Str → Storage → Option Storage
  pub Headers : Type 0
  pub get_header : Str → Headers → Option Str
  pub set_header : Str → Str → Headers → Option Headers
  pub parse_path : Str → Location
  pub search_param : Str → Str → Option Str
  pub encode : Str → Str

-- What their documentation says: headers that take a value keep it without the white space around it, and
-- so as it is if it has none. `IsShown` holds of the locations that the router has.
pub record IsBrowser (b : Browser) (IsShown : Location → Type 0) : Type 0 where
  pub get-set :
      (k v : Str) (s t : b.Storage)
      → b.set_item k v s ≡ some t
      → (b.get_item k t ≡ none) ⊎ (b.get_item k t ≡ some (some v))
  pub get-remove :
      (k : Str) (s t : b.Storage)
      → b.remove_item k s ≡ some t
      → (b.get_item k t ≡ none) ⊎ (b.get_item k t ≡ some none)
  pub header-set :
      (k v : Str) (h t : b.Headers)
      → b.set_header k v h ≡ some t
      → trim v ≡ v
      → b.get_header k t ≡ some v
  pub parse-current :
      (l : Location) → IsShown l → b.parse_path (current_path l.pathname l.search l.hash) ≡ l
  pub param-login :
      (from : Str)
      → b.search_param (codes "from") (b.parse_path (codes "/login?from=" ++ b.encode from)).search
        ≡ some from
  pub param-none : b.search_param (codes "from") (b.parse_path (codes "/login")).search ≡ none

-- `location.state` at the login page
pub record LoginState : Type 0 where
  pub from : Option Str
  pub unauthorized : Bool

pub record App (b : Browser) (client : QueryClient Answer) : Type 0 where
  pub storage : b.Storage
  pub cache : client.Cache
  pub location : Location
  pub state : Option LoginState

abbrev pub key : Str
key = codes "wio.apiToken"

abbrev pub token_header : Str
token_header = codes "X-Api-Token"

abbrev pub path_of : Location → Str
path_of l = current_path l.pathname l.search l.hash

-- `try { ... } catch { ... }`
abbrev pub if_thrown {ℓ} : {A : Type ℓ} → A → Option A → A
if_thrown a none = a
if_thrown a (some x) = x

module _ (b : Browser) where
  unfoldable pub get_token : b.Storage → Option Str
  get_token s = if_thrown none (b.get_item key s)

  unfoldable pub set_token : Str → b.Storage → b.Storage
  set_token token s = if_thrown s (b.set_item key token s)

  unfoldable pub clear_token : b.Storage → b.Storage
  clear_token s = if_thrown s (b.remove_item key s)

  -- `if (token) request.headers.set(...)`, which an empty token does not
  abbrev pub with_token : Option Str → b.Headers → Option b.Headers
  with_token none h = some h
  with_token (some token) h = if str_eq token [] then some h else b.set_header token_header token h

  -- the headers that the request goes out with; there are none where `headers.set` throws
  unfoldable pub on_request : b.Storage → b.Headers → Option b.Headers
  unfolding get_token
  on_request s h = with_token (get_token s) h

  unfoldable pub redirect_to_login : Location → Str
  redirect_to_login l =
      let from = safe_return_path (some (path_of l)) in
      if str_eq from (codes "/") then codes "/login" else codes "/login?from=" ++ b.encode from

  module _ (client : QueryClient Answer) where
    abbrev pub go : Str → Option LoginState → App b client → App b client
    go path state app = record app { location = b.parse_path path; state = state }

    -- `onUnauthorized` of createAppContext
    unfoldable pub on_unauthorized : App b client → App b client
    on_unauthorized app =
        go (codes "/login")
          (some (record {
            from = some (safe_return_path (some (path_of app.location)));
            unauthorized = true;
          }))
          (record app { cache = client.clear app.cache })

    -- `onUnauthorized` where there is no router: the page is loaded anew, with an empty cache
    unfoldable pub leave_for_login : client.Cache → App b client → App b client
    unfolding redirect_to_login
    leave_for_login new app = go (redirect_to_login app.location) none (record app { cache = new })

    unfoldable pub on_response : (App b client → App b client) → ℕ → App b client → App b client
    unfolding clear_token
    on_response unauthorized status app =
        if status == 401
        then unauthorized (record app { storage = clear_token app.storage })
        else app

    -- `!getToken()`
    abbrev pub no_token : Option Str → Bool
    no_token none = true
    no_token (some token) = str_eq token []

    unfoldable pub require_auth : App b client → App b client
    unfolding get_token
    require_auth app =
        if no_token (get_token app.storage)
        then go (codes "/login")
            (some (record { from = some (path_of app.location); unauthorized = false })) app
        else app

    -- `state.from ?? searchParams.get("from")`
    abbrev pub state_from : Option LoginState → Option Str
    state_from none = none
    state_from (some state) = state.from

    unfoldable pub return_from : App b client → Option Str
    return_from app = elim (state_from app.state) [
      | none ↦ b.search_param (codes "from") app.location.search
      | some from ↦ some from
    ]

    unfoldable pub submit : Str → App b client → App b client
    unfolding set_token return_from
    submit token app =
        if str_eq (trim token) []
        then app
        else go (safe_return_path (return_from app)) none
            (record app { storage = set_token (trim token) app.storage })

-- What a response's body says of a problem: an object with a `detail`, as the text that String makes of it,
-- or anything else.
pub data Problem : Type 0 where
  with_detail : Str → Problem
  without_detail : Problem

pub record ApiError : Type 0 where
  pub message : Str
  pub status : ℕ
  pub problem : Problem

unfoldable pub new_api_error : ℕ → Problem → ApiError
new_api_error status (with_detail detail) = record {
  message = detail;
  status = status;
  problem = with_detail detail;
}
new_api_error status without_detail = record {
  message = codes "HTTP " ++ decimal status;
  status = status;
  problem = without_detail;
}

pub record Response : Type 0 where
  pub ok : Bool
  pub status : ℕ

-- The answer of openapi-fetch.
pub record FetchResult {ℓ} (T : Type ℓ) : Type ℓ where
  pub data_of : Option T
  pub error : Problem
  pub response : Response

-- What a query function does: it returns, throws an ApiError, or throws another error, as fetch does where
-- there is no network.
pub data QueryOutcome {ℓ} (T : Type ℓ) : Type ℓ where
  returned : T → QueryOutcome T
  api_error : ApiError → QueryOutcome T
  other_error : QueryOutcome T

abbrev pub returned_if {ℓ} : {T : Type ℓ} → Bool → Option T → ApiError → QueryOutcome T
returned_if true (some d) e = returned d
returned_if ok d e = api_error e

unfoldable pub unwrap {ℓ} : {T : Type ℓ} → FetchResult T → QueryOutcome T
unfolding new_api_error
unwrap r = returned_if r.response.ok r.data_of (new_api_error r.response.status r.error)

-- `retry(count, error)` of createAppContext, of an outcome that is an error
unfoldable pub retry {ℓ} : {T : Type ℓ} → ℕ → QueryOutcome T → Bool
retry count (returned d) = false
retry count (api_error e) = not (ltb e.status 500) && ltb count 1
retry count other_error = ltb count 1

-- What fetch gives a query function, and what the query function makes of it.
pub data Sent {ℓ} (T : Type ℓ) : Type ℓ where
  no_network : Sent T
  answered : FetchResult T → Sent T

abbrev pub outcome {ℓ} : {T : Type ℓ} → Sent T → QueryOutcome T
unfolding unwrap
outcome no_network = other_error
outcome (answered r) = unwrap r
