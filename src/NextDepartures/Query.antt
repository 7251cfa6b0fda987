-- ===== src/NextDepartures/Query.antt =====
-- schedules/next.ts: the draft of a question about the next departures, and the query that it becomes.
pub mod Accepted
use when_i_off.Prelude.{
  Str, codes, str_eq, ℕ, suc, ◌+◌, ◌*◌, ◌/◌, ◌%◌, ◌≡◌, Bool, true, false, ◌&&◌, ◌||◌, not, List, [],
  ◌∷◌, ◌++◌, Option, none, some, if◌then◌else◌, leb, ltb, ◌==◌, all,
}
use when_i_off.Prelude.Int.{ℤ, pos, negsuc, ◌-ℤ◌}
use when_i_off.Prelude.Number.{Number, nan, infinity, neg_infinity, ratio, of_ℕ, num_lt, is_integer}
use when_i_off.Prelude.Decimal.{decimal, is_digit, number_of}
use when_i_off.Prelude.JsText.{trim}
use when_i_off.Api.{TransitLine, TransitStop}
use when_i_off.Csv.Row.{ScheduleRow}
use when_i_off.Kst.{DateEngine, iso_to_kst_input, kst_input_to_iso}
use when_i_off.Queries.{NextDeparturesQuery}
use when_i_off.NextDepartures.{KnownTransit}

abbrev pub default_limit : ℕ
default_limit = 5

abbrev pub max_limit : ℕ
max_limit = 50

abbrev pub max_safe : ℕ
max_safe = 9_007_199_254_740_991

pub record NextDraft : Type 0 where
  pub line_id : Option ℤ
  pub line : Option TransitLine
  pub stop_id : Str
  pub direction : Str
  pub at : Str
  pub limit : Str

-- `Number(text)` of an integer's decimal text, if it is a safe integer
abbrev pub safe_digits : (ℕ → ℤ) → Str → Option ℤ
safe_digits sign [] = none
safe_digits sign (c ∷ s) =
    if all is_digit (c ∷ s) && leb (number_of (c ∷ s)) max_safe
    then some (sign (number_of (c ∷ s)))
    else none

abbrev pub minus : ℕ → ℤ
minus n = pos 0 -ℤ pos n

unfoldable pub safe_integer : Str → Option ℤ
safe_integer [] = none
safe_integer (c ∷ s) = if c == b'-' then safe_digits minus s else safe_digits pos (c ∷ s)

-- `known.lines.get(lineId)`
unfoldable pub get_line : ℤ → List TransitLine → Option TransitLine
get_line (negsuc n) lines = none
get_line (pos n) [] = none
get_line (pos n) (l ∷ lines) =
    let rest = get_line (pos n) lines in if l.id == n then some l else rest

unfoldable pub get_stop : ℤ → List TransitStop → Option TransitStop
get_stop (negsuc n) stops = none
get_stop (pos n) [] = none
get_stop (pos n) (s ∷ stops) =
    let rest = get_stop (pos n) stops in if s.id == n then some s else rest

fill : NextDraft → ScheduleRow → KnownTransit → Option ℤ → NextDraft
fill draft first known none = draft
fill draft first known (some line) = record draft {
  line_id = some line;
  line = get_line line known.lines;
  stop_id = first.stop_id;
  direction = first.direction_code;
}

unfoldable pub draft_from_rows : NextDraft → List ScheduleRow → KnownTransit → NextDraft
unfolding fill safe_integer get_line
draft_from_rows draft [] known = draft
draft_from_rows draft (first ∷ rows) known = fill draft first known (safe_integer first.line_id)

-- `POSITIVE_INT.test`
abbrev pub is_positive_int : Str → Bool
is_positive_int [] = false
is_positive_int (c ∷ s) = leb b'1' c && leb c b'9' && all is_digit s

pub data NextProblem : Type 0 where
  no_line no_stop no_direction no_time bad_limit : NextProblem

pub data QueryResult : Type 0 where
  query : NextDeparturesQuery → QueryResult
  problem : NextProblem → QueryResult

-- the natural number that an integer is
abbrev pub to_ℕ : Number → ℕ
to_ℕ (ratio (pos m) d) = m / suc d
to_ℕ x = 0

-- `!Number.isInteger(limit) || limit < 1 || limit > MAX_LIMIT`
abbrev pub is_bad_limit : Number → Bool
is_bad_limit limit =
    not (is_integer limit) || num_lt limit (of_ℕ 1) || num_lt (of_ℕ max_limit) limit

with_limit : ℤ → ℕ → Str → Str → Number → QueryResult
with_limit line stop direction at limit =
    if is_bad_limit limit
    then problem bad_limit
    else query (record {
      line_id = line;
      stop_id = stop;
      direction = direction;
      at = at;
      limit = to_ℕ limit;
    })

-- `!at`, which an empty text would be too
with_time : ℤ → ℕ → Str → Option Str → Number → QueryResult
with_time line stop direction none limit = problem no_time
with_time line stop direction (some []) limit = problem no_time
with_time line stop direction (some (c ∷ s)) limit = with_limit line stop direction (c ∷ s) limit

-- The engine's Date, and `Number(text)`.
module _ (date : DateEngine) (number : Str → Number) where
  -- `nowKstInput`, of a time as ISO text
  unfoldable pub now_kst_input : Str → Str
  now_kst_input now = iso_to_kst_input date (some now)

  unfoldable pub empty_draft : Str → NextDraft
  unfolding now_kst_input
  empty_draft now = record {
    line_id = none;
    line = none;
    stop_id = [];
    direction = [];
    at = now_kst_input now;
    limit = decimal default_limit;
  }

  query_for : ℤ → NextDraft → QueryResult
  unfolding with_time with_limit
  query_for line d =
      let stop = trim d.stop_id in
      let direction = trim d.direction in
      if not (is_positive_int stop) || not (leb (number_of stop) max_safe)
      then problem no_stop
      else if str_eq direction []
      then problem no_direction
      else with_time line (number_of stop) direction (kst_input_to_iso date d.at) (number d.limit)

  query_or_no_line : Option ℤ → NextDraft → QueryResult
  query_or_no_line none d = problem no_line
  query_or_no_line (some line) d = query_for line d

  unfoldable pub next_query : NextDraft → QueryResult
  unfolding query_or_no_line query_for
  next_query d = query_or_no_line d.line_id d

-- `formatWait`, with the units as the source's texts
unfoldable pub format_wait : ℕ → Str
format_wait minutes =
    let h = minutes / 60 in
    let m = minutes % 60 in
    if ltb minutes 60
    then decimal minutes ++ codes "분 뒤"
    else if m == 0
    then decimal h ++ codes "시간 뒤"
    else decimal h ++ (codes "시간 " ++ (decimal m ++ codes "분 뒤"))

-- `Math.floor(a / 60_000)`
abbrev pub floor_minutes : ℤ → ℤ
floor_minutes (pos n) = pos (n / 60_000)
floor_minutes (negsuc n) = negsuc (n / 60_000)

minutes_between : Option ℤ → Option ℤ → Option ℤ
minutes_between (some from) (some to) = some (floor_minutes (to -ℤ from))
minutes_between from to = none

-- `none` for NaN
unfoldable pub minutes_until : (Str → Option ℤ) → Str → Str → Option ℤ
unfolding minutes_between
minutes_until parse from to = minutes_between (parse from) (parse to)

named_line : Str → Option TransitLine → Str
named_line id (some line) = line.name ++ (codes " #" ++ id)
named_line id none = codes "노선 #" ++ id

named_stop : Str → Option TransitStop → Str
named_stop id (some stop) = stop.name ++ (codes " #" ++ id)
named_stop id none = codes "정류장 #" ++ id

-- `known.lines.get(Number(id))`: a number that is not safe is no id of a known line
find_line : Option ℤ → List TransitLine → Option TransitLine
find_line none lines = none
find_line (some id) lines = get_line id lines

find_stop : Option ℤ → List TransitStop → Option TransitStop
find_stop none stops = none
find_stop (some id) stops = get_stop id stops

unfoldable pub line_name : Str → KnownTransit → Str
unfolding named_line find_line safe_integer get_line
line_name id known = named_line id (find_line (safe_integer id) known.lines)

unfoldable pub stop_name : Str → KnownTransit → Str
unfolding named_stop find_stop safe_integer get_stop
stop_name id known = named_stop id (find_stop (safe_integer id) known.stops)
