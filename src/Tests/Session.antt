-- ===== src/Tests/Session.antt =====
-- A browser with a storage that keeps what it is given, and a session in it.
use when_i_off.Prelude.{
  Str, codes, str_eq, str_eq_refl, ℕ, ◌≡◌, ◌≢◌, refl, sym, ◌∙◌, ap, subst, true, false, [], ◌∷◌,
  Option, none, some, if◌then◌else◌, inl, inr, drop, ◌==◌, ◌⊎◌, Bool, ◌&&◌, leb, Bool-cases,
}
use when_i_off.Prelude.Text.{str_eq}
use when_i_off.Prelude.JsText.{starts_with, trim}
use when_i_off.Auth.{current_path, pathname}
use when_i_off.Auth.Safe.{IsSafe}
use when_i_off.Queries.{routes}
use when_i_off.Tests.Queries.{a_client, a_client-IsQueryClient, full}
use when_i_off.Session.{
  Location, Browser, IsBrowser, App, key, token_header, path_of, on_request, on_unauthorized,
  on_response, leave_for_login, submit, Sent, no_network, answered, outcome, without_detail,
}
use when_i_off.Session.Unauthorized.{on_response-unauthorized, on_response-on_request}
use when_i_off.Session.Login.{refused_outside, submit-location, submit-on_request}
use when_i_off.Session.Retry.{Run, requests, requests-Run, Run-requests}

abbrev Items : Type 0
Items = Str → Option Str

abbrev plain_location : Str → Location
plain_location path = record { pathname = path; search = []; hash = [] }

-- no character is beyond Latin-1
fits : Str → Bool
fits [] = true
fits (c ∷ s) = leb c 255 && fits s

abbrev a_browser : Browser
a_browser = record {
  Storage = Items;
  get_item = λ k s. some (s k);
  set_item = λ k v s. some (λ j. if str_eq j k then some v else s j);
  remove_item = λ k s. some (λ j. if str_eq j k then none else s j);
  Headers = Items;
  get_header = λ k h. h k;
  set_header = λ k v h.
      if fits (trim v) then some (λ j. if str_eq j k then some (trim v) else h j) else none;
  parse_path = λ p.
      if starts_with p (codes "/login?")
      then record { pathname = codes "/login"; search = drop 6 p; hash = [] }
      else plain_location p;
  search_param = λ name s. if starts_with s (codes "?from=") then some (drop 6 s) else none;
  encode = λ s. s;
}

abbrev trips_page : Location
trips_page = plain_location (codes "/trips")

IsTripsPage : Location → Type 0
IsTripsPage l = l ≡ trips_page

abbrev item_of : Str → Option Items → Option (Option Str)
item_of k none = none
item_of k (some s) = some (s k)

abbrev value_of : Str → Option Items → Option Str
value_of k none = none
value_of k (some h) = h k

taken : (k v : Str) (h t : Items) → a_browser.set_header k v h ≡ some t → trim v ≡ v → t k ≡ some v
taken k v h t e same = elim (Bool-cases (fits (trim v))) [
  | inl y ↦
      let f : a_browser.set_header k v h ≡ some (λ j. if str_eq j k then some (trim v) else h j) =
        rw y refl in
      ap (value_of k) (sym e ∙ f) ∙ (rw (str_eq_refl k) (ap some same))
  | inr y ↦ let f : a_browser.set_header k v h ≡ none = rw y refl in absurd (cc)
]

a_browser-IsBrowser : IsBrowser a_browser IsTripsPage
unfolding IsTripsPage current_path starts_with
a_browser-IsBrowser = record {
  get-set = λ k v s t e. inr (sym (ap (item_of k) e) ∙ rw (str_eq_refl k) refl);
  get-remove = λ k s t e. inr (sym (ap (item_of k) e) ∙ rw (str_eq_refl k) refl);
  header-set = taken;
  parse-current = λ l e. subst (λ m. a_browser.parse_path (path_of m) ≡ m) (sym e) refl;
  param-login = λ from. refl;
  param-none = refl;
}

abbrev no_items : Items
no_items k = none

abbrev with_old_token : Items
with_old_token k = if str_eq k key then some (codes "old") else none

abbrev at_trips : App a_browser a_client
at_trips = record { storage = with_old_token; cache = full; location = trips_page; state = none }

trips_page-IsSafe : IsSafe (path_of trips_page)
unfolding current_path starts_with pathname str_eq
trips_page-IsSafe = record { absolute = refl; no_host = refl; no_backslash = refl; no_login = refl }

trips_page-IsTripsPage : IsTripsPage trips_page
unfolding IsTripsPage
trips_page-IsTripsPage = refl

logged_out :
    let out = on_response a_browser a_client (on_unauthorized a_browser a_client) 401 at_trips in
    (a_client.answer out.cache (routes ∷ []) ≡ none)
    × (out.location ≡ a_browser.parse_path (codes "/login"))
    × (from : Str) × IsSafe from
    × (out.state ≡ some (record { from = some from; unauthorized = true }))
logged_out = on_response-unauthorized a_client-IsQueryClient at_trips (routes ∷ [])

no_header_after :
    on_request a_browser
      (on_response a_browser a_client (on_unauthorized a_browser a_client) 401 at_trips).storage
      no_items
    ≡ some no_items
no_header_after =
    on_response-on_request a_browser-IsBrowser at_trips
      (λ j. if str_eq j key then none else with_old_token j) no_items refl

new_is_given : str_eq (trim (codes " new ")) [] ≡ false
unfolding trim str_eq
new_is_given = refl

back_to_trips :
    (submit a_browser a_client (codes " new ") (
      on_response a_browser a_client
        (leave_for_login a_browser a_client full)
        401
        at_trips)).location
    ≡ trips_page
back_to_trips =
    submit-location a_browser-IsBrowser (refused_outside full) trips_page-IsSafe
      trips_page-IsTripsPage (codes " new ") new_is_given

readable :
    a_browser.get_item key
      (λ j. if str_eq j key then some (trim (codes " new ")) else with_old_token j)
    ≢ none
readable e = absurd (cc)

new_token_sent :
    let out =
      on_request a_browser (submit a_browser a_client (codes " new ") at_trips).storage no_items in
    ((a_browser.set_header token_header (trim (codes " new ")) no_items ≡ none) × (out ≡ none))
    ⊎ ((sent : Items) × (out ≡ some sent) × (sent token_header ≡ some (trim (codes " new "))))
new_token_sent =
    submit-on_request a_browser-IsBrowser at_trips
      (λ j. if str_eq j key then some (trim (codes " new ")) else with_old_token j) no_items
      (codes " new ") new_is_given refl readable

-- A token in Hangul is not a header's value: no request goes out with it.
hangul_refused : on_request a_browser (λ k. some (0xd1a0 ∷ [])) no_items ≡ none
unfolding on_request trim fits str_eq
hangul_refused = refl

-- no network first, then a 404
abbrev two_answers : ℕ → Sent ℕ
two_answers n =
    if n == 0
    then no_network
    else answered (record {
      data_of = none;
      error = without_detail;
      response = record { ok = false; status = 404 };
    })

asked_twice : Run two_answers 0 (requests two_answers) (outcome (two_answers 1))
asked_twice = requests-Run two_answers

asked_no_more : (2 ≡ requests two_answers) × (outcome (two_answers 1) ≡ outcome (two_answers 1))
asked_no_more = Run-requests 2 (outcome (two_answers 1)) (requests-Run two_answers)
