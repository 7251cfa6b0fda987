-- ===== src/Cycles.antt =====
-- desktop/src/signals/cycleRules.ts: the drafts of a crossing's signal cycles, their requests, and the
-- texts of times of day. The checks are in Validate, the choice of the cycle in force in Effective.
pub mod Validate
pub mod Effective
use when_i_off.Prelude.{
  Str, codes, ℕ, suc, ◌+◌, ◌*◌, ◌≡◌, Bool, true, false, ◌&&◌, ◌||◌, List, [], ◌∷◌, ◌++◌, map,
  Option, none, some, if◌then◌else◌, leb, ltb, ◌==◌, length, take, all, filter, str_eq,
}
use when_i_off.Prelude.Int.{pos, negate}
use when_i_off.Prelude.Decimal.{is_digit, number_of, decimal}
use when_i_off.Prelude.JsText.{trim, ends_with}
use when_i_off.Prelude.Number.{Number, nan, ratio}
use when_i_off.Api.{DayType, weekday}

pub data SignalDataSource : Type 0 where
  user_observed public_api default_assumption : SignalDataSource

-- `SOURCE_PRIORITY.indexOf(s)`
abbrev pub priority : SignalDataSource → ℕ
priority user_observed = 0
priority public_api = 1
priority default_assumption = 2

abbrev pub is_user : SignalDataSource → Bool
is_user user_observed = true
is_user public_api = false
is_user default_assumption = false

-- A row of the server's list (without `createdAt`, which nothing here reads).
pub record TrafficSignalCycle : Type 0 where
  pub id : ℕ
  pub day_type : DayType
  pub time_band_start : Str
  pub time_band_end : Str
  pub cycle_duration_sec : ℕ
  pub red_duration_sec : ℕ
  pub source : SignalDataSource

pub record TrafficSignalCycleRequest : Type 0 where
  pub day_type : DayType
  pub time_band_start : Str
  pub time_band_end : Str
  pub cycle_duration_sec : Number
  pub red_duration_sec : Number

pub record CycleDraft : Type 0 where
  pub key : Str
  pub day_type : DayType
  pub start : Str
  pub end : Str
  pub cycle_sec : Str
  pub red_sec : Str

-- `newCycleDraft`: the module's counter goes in and comes out
unfoldable pub new_cycle_draft : ℕ → DayType → CycleDraft × ℕ
new_cycle_draft next_key day = (
  record {
    key = codes "cycle-" ++ decimal (next_key + 1);
    day_type = day;
    start = codes "07:00";
    end = codes "10:00";
    cycle_sec = [];
    red_sec = [];
  },
  next_key + 1,
)

unfoldable pub time_input_value : Str → Str
time_input_value t = if leb 8 (length t) && ends_with t (codes ":00") then take 5 t else take 8 t

draft_of_row : TrafficSignalCycle → CycleDraft
draft_of_row r = record {
  key = codes "cycle-row-" ++ decimal r.id;
  day_type = r.day_type;
  start = time_input_value r.time_band_start;
  end = time_input_value r.time_band_end;
  cycle_sec = decimal r.cycle_duration_sec;
  red_sec = decimal r.red_duration_sec;
}

unfoldable pub drafts_from_cycles : List TrafficSignalCycle → List CycleDraft
unfolding draft_of_row
drafts_from_cycles rows = map draft_of_row (filter (λ r. is_user r.source) rows)

-- `/^-?\d+$/.test(s) ? Number(s) : NaN`, exact
int_of_text : Str → Number
int_of_text [] = nan
int_of_text (c ∷ []) = if is_digit c then ratio (pos (number_of (c ∷ []))) 0 else nan
int_of_text (c ∷ d ∷ s) =
    if c == b'-'
    then (if all is_digit (d ∷ s) then ratio (negate (number_of (d ∷ s))) 0 else nan)
    else if all is_digit (c ∷ d ∷ s)
    then ratio (pos (number_of (c ∷ d ∷ s))) 0
    else nan

unfoldable pub to_int : Str → Number
unfolding int_of_text
to_int raw = int_of_text (trim raw)

request_of_draft : CycleDraft → TrafficSignalCycleRequest
request_of_draft d = record {
  day_type = d.day_type;
  time_band_start = d.start;
  time_band_end = d.end;
  cycle_duration_sec = to_int d.cycle_sec;
  red_duration_sec = to_int d.red_sec;
}

unfoldable pub to_cycle_requests : List CycleDraft → List TrafficSignalCycleRequest
unfolding request_of_draft
to_cycle_requests drafts = map request_of_draft drafts

-- `(?::(\d{2})(?:\.\d+)?)?$`: the seconds that the expression reads
unfoldable pub seconds_group : Str → Option ℕ
seconds_group [] = some 0
seconds_group (c ∷ a ∷ b ∷ []) =
    if c == b':' && is_digit a && is_digit b then some (number_of (a ∷ b ∷ [])) else none
seconds_group (c ∷ a ∷ b ∷ dot ∷ f ∷ s) =
    if c == b':' && is_digit a && is_digit b && dot == b'.' && all is_digit (f ∷ s)
    then some (number_of (a ∷ b ∷ []))
    else none
seconds_group (c ∷ s) = none

clock : ℕ → ℕ → Option ℕ → Option ℕ
clock h min none = none
clock h min (some s) =
    if ltb 23 h || ltb 59 min || ltb 59 s then none else some (h * 3600 + min * 60 + s)

seconds_of_text : Str → Option ℕ
seconds_of_text (a ∷ b ∷ c ∷ d ∷ e ∷ s) =
    if is_digit a && is_digit b && c == b':' && is_digit d && is_digit e
    then clock (number_of (a ∷ b ∷ [])) (number_of (d ∷ e ∷ [])) (seconds_group s)
    else none
seconds_of_text s = none

-- `HH:mm[:ss[.f]]` to the second of the day
unfoldable pub seconds_of_day : Str → Option ℕ
unfolding seconds_of_text clock seconds_group
seconds_of_day t = seconds_of_text (trim t)
