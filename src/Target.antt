-- ===== src/Target.antt =====
-- desktop/src/target/defaultTarget.ts: a route's default arrival time and days, as a draft, and the
-- changes that a PATCH sends.
pub mod Days
pub mod Patch
use when_i_off.Prelude.{
  Str, codes, str_eq, ℕ, ◌≡◌, Bool, true, false, ◌&&◌, ◌||◌, not, List, [], ◌∷◌, ◌++◌, Option, none,
  some, if◌then◌else◌, leb, ◌==◌, any, filter, take,
}
use when_i_off.Prelude.Text.{str_eq}
use when_i_off.Prelude.Decimal.{is_digit}
use when_i_off.Prelude.JsText.{trim}
use when_i_off.Api.{DayType, weekday, day_types, day_eq}

pub record TargetDraft : Type 0 where
  pub time : Str
  pub days : List DayType

-- The fields of a route that the settings show. A missing time and one that is null are both `none`.
pub record CommuteRoute : Type 0 where
  pub name : Str
  pub is_active : Bool
  pub default_target_arrival_time : Option Str
  pub default_target_day_types : List DayType

abbrev pub default_target : TargetDraft
default_target = record { time = []; days = weekday ∷ [] }

unfoldable pub to_time_input : Option Str → Str
to_time_input none = []
to_time_input (some time) = take 5 time

-- `days.includes(d)`
abbrev pub has_day : List DayType → DayType → Bool
has_day days d = any (λ x. day_eq x d) days

unfoldable pub sort_day_types : List DayType → List DayType
sort_day_types days = filter (has_day days) day_types

unfoldable pub toggle_day_type : List DayType → DayType → List DayType
unfolding sort_day_types
toggle_day_type days day =
    sort_day_types
      (if has_day days day then filter (λ d. not (day_eq d day)) days else days ++ day ∷ [])

-- `/^([01]\d|2[0-3]):[0-5]\d$/`
pub time_matches : Str → Bool
time_matches (a ∷ b ∷ c ∷ d ∷ e ∷ []) =
    (((a == b'0' || a == b'1') && is_digit b) || (a == b'2' && leb b'0' b && leb b b'3'))
    && c == b':'
    && (leb b'0' d && leb d b'5')
    && is_digit e
time_matches s = false

pub data TargetProblem : Type 0 where
  bad_time no_day : TargetProblem

unfoldable pub validate_target : TargetDraft → Option TargetProblem
unfolding time_matches
validate_target draft =
    if not (str_eq draft.time []) && not (time_matches draft.time)
    then some bad_time
    else elim draft.days [ [] ↦ some no_day | d ∷ ds ↦ none ]

pub record RouteSettingsDraft : Type 0 where
  pub name : Str
  pub is_active : Bool
  pub time : Str
  pub days : List DayType

unfoldable pub settings_from_route : CommuteRoute → RouteSettingsDraft
unfolding to_time_input sort_day_types
settings_from_route route = record {
  name = route.name;
  is_active = route.is_active;
  time = to_time_input route.default_target_arrival_time;
  days = sort_day_types route.default_target_day_types;
}

-- `UpdateCommuteRouteRequest`: a field that is left out is `none`.
pub record UpdateCommuteRouteRequest : Type 0 where
  pub name : Option Str
  pub is_active : Option Bool
  pub clear_default_target_arrival_time : Bool
  pub default_target_arrival_time : Option Str
  pub default_target_day_types : Option (List DayType)

abbrev pub same_bool : Bool → Bool → Bool
same_bool true b = b
same_bool false b = not b

-- `a.join() === b.join()`: the names of days hold no comma
abbrev pub same_days : List DayType → List DayType → Bool
same_days [] [] = true
same_days [] (d ∷ ds) = false
same_days (c ∷ cs) [] = false
same_days (c ∷ cs) (d ∷ ds) = day_eq c d && same_days cs ds

-- the body that the changes build up
unfoldable pub settings_body : RouteSettingsDraft → RouteSettingsDraft → UpdateCommuteRouteRequest
unfolding sort_day_types
settings_body before draft =
    let name = trim draft.name in
    let days = sort_day_types draft.days in
    record {
      name = if str_eq name before.name then none else some name;
      is_active = if same_bool draft.is_active before.is_active then none else some draft.is_active;
      clear_default_target_arrival_time =
          if str_eq draft.time before.time then false else str_eq draft.time [];
      default_target_arrival_time =
          if str_eq draft.time before.time
          then none
          else if str_eq draft.time []
          then none
          else some draft.time;
      default_target_day_types = if same_days days before.days then none else some days;
    }

-- `Object.keys(body).length > 0`
abbrev pub is_there {ℓ} : {A : Type ℓ} → Option A → Bool
is_there none = false
is_there (some x) = true

abbrev pub has_keys : UpdateCommuteRouteRequest → Bool
has_keys body =
    is_there body.name
    || is_there body.is_active
    || body.clear_default_target_arrival_time
    || is_there body.default_target_arrival_time
    || is_there body.default_target_day_types

unfoldable pub settings_patch : CommuteRoute → RouteSettingsDraft → Option UpdateCommuteRouteRequest
unfolding settings_body settings_from_route
settings_patch route draft =
    let body = settings_body (settings_from_route route) draft in
    if has_keys body then some body else none
