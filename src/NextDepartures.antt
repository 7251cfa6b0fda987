-- ===== src/NextDepartures.antt =====
-- desktop/src/schedules/next.ts: the lines and stops that the routes name, and the candidates of stops and
-- directions for a question about the next departures.
pub mod Candidates
pub mod Query
use when_i_off.Prelude.{
  Str, codes, str_eq, ℕ, ◌+◌, ◌*◌, ◌/◌, ◌%◌, ◌≡◌, Bool, true, false, ◌&&◌, ◌||◌, not, List, [], ◌∷◌,
  ◌++◌, Option, none, some, if◌then◌else◌, leb, ltb, ◌==◌, any, all,
}
use when_i_off.Prelude.Decimal.{decimal, is_digit, number_of}
use when_i_off.Prelude.JsText.{trim}
use when_i_off.Api.{TransitLine, TransitStop, RouteLeg}
use when_i_off.Csv.Row.{ScheduleRow}

pub record LineStops : Type 0 where
  pub line_id : ℕ
  pub stop_ids : List ℕ

pub record KnownTransit : Type 0 where
  pub lines : List TransitLine
  pub stops : List TransitStop
  pub stops_by_line : List LineStops

-- `known.lines.set(line.id, line)`: a `Map` by the id that each value holds
unfoldable pub set_line : List TransitLine → TransitLine → List TransitLine
set_line [] line = line ∷ []
set_line (l ∷ lines) line = if l.id == line.id then line ∷ lines else l ∷ set_line lines line

unfoldable pub set_stop : List TransitStop → TransitStop → List TransitStop
set_stop [] stop = stop ∷ []
set_stop (s ∷ stops) stop = if s.id == stop.id then stop ∷ stops else s ∷ set_stop stops stop

-- `known.stopsByLine.get(id) ?? []`
unfoldable pub stops_of_line : ℕ → List LineStops → List ℕ
stops_of_line id [] = []
stops_of_line id (e ∷ entries) = if e.line_id == id then e.stop_ids else stops_of_line id entries

unfoldable pub set_stops_of_line : ℕ → List ℕ → List LineStops → List LineStops
set_stops_of_line id ids [] = record { line_id = id; stop_ids = ids } ∷ []
set_stops_of_line id ids (e ∷ entries) =
    if e.line_id == id
    then record { line_id = id; stop_ids = ids } ∷ entries
    else e ∷ set_stops_of_line id ids entries

-- `if (!list.includes(id)) list.push(id)`
unfoldable pub push_new : List ℕ → ℕ → List ℕ
push_new ids id = if any (λ j. j == id) ids then ids else ids ++ id ∷ []

abbrev pub push_stop : List ℕ → Option TransitStop → List ℕ
push_stop ids none = ids
push_stop ids (some stop) = push_new ids stop.id

abbrev pub know_stop : List TransitStop → Option TransitStop → List TransitStop
know_stop stops none = stops
know_stop stops (some stop) = set_stop stops stop

know_leg :
    KnownTransit → Option TransitLine → Option TransitStop → Option TransitStop → KnownTransit
know_leg known none board alight = known
know_leg known (some line) board alight = record {
  lines = set_line known.lines line;
  stops = know_stop (know_stop known.stops board) alight;
  stops_by_line =
      set_stops_of_line line.id
        (push_stop (push_stop (stops_of_line line.id known.stops_by_line) board) alight)
        known.stops_by_line;
}

know_legs : KnownTransit → List RouteLeg → KnownTransit
know_legs known [] = known
know_legs known (leg ∷ legs) =
    know_legs (know_leg known leg.transit_line leg.board_stop leg.alight_stop) legs

know_routes : KnownTransit → List (Option (List RouteLeg)) → KnownTransit
know_routes known [] = known
know_routes known (none ∷ routes) = know_routes known routes
know_routes known (some legs ∷ routes) = know_routes (know_legs known legs) routes

-- `knownTransit`, on the legs of each route's detail
unfoldable pub known_transit : List (Option (List RouteLeg)) → KnownTransit
unfolding know_routes know_legs know_leg set_line set_stop stops_of_line set_stops_of_line push_new
known_transit routes = know_routes (record { lines = []; stops = []; stops_by_line = [] }) routes

-- `Number(text)` of an id in a row, which is the decimal text of an integer: none unless it is a safe
-- integer above 0
abbrev pub safe_id : Str → Option ℕ
safe_id [] = none
safe_id (c ∷ s) =
    if all is_digit (c ∷ s)
      && ltb 0 (number_of (c ∷ s))
      && leb (number_of (c ∷ s)) 9_007_199_254_740_991
    then some (number_of (c ∷ s))
    else none

abbrev pub add_stop : List ℕ → Option ℕ → List ℕ
add_stop ids none = ids
add_stop ids (some id) = push_new ids id

pub stops_of_rows : ℕ → List ℕ → List ScheduleRow → List ℕ
stops_of_rows line ids [] = ids
stops_of_rows line ids (r ∷ rows) =
    stops_of_rows line
      (if str_eq r.line_id (decimal line) then add_stop ids (safe_id r.stop_id) else ids) rows

-- an id of the API is a safe integer
pub add_known : List ℕ → List ℕ → List ℕ
add_known ids [] = ids
add_known ids (id ∷ known) = add_known (if ltb 0 id then push_new ids id else ids) known

unfoldable pub stop_candidates : Option ℕ → List ScheduleRow → KnownTransit → List ℕ
unfolding stops_of_rows add_known push_new stops_of_line
stop_candidates none rows known = []
stop_candidates (some line) rows known =
    add_known (stops_of_rows line [] rows) (stops_of_line line known.stops_by_line)

-- `String(lineId)`
abbrev pub line_text : Option ℕ → Str
line_text none = codes "null"
line_text (some id) = decimal id

abbrev pub is_row_of : Option ℕ → Str → ScheduleRow → Bool
is_row_of line stop r = str_eq r.line_id (line_text line) && str_eq r.stop_id (trim stop)

pub directions_from : Option ℕ → Str → List Str → List ScheduleRow → List Str
directions_from line stop out [] = out
directions_from line stop out (r ∷ rows) =
    directions_from line stop
      (if is_row_of line stop r && not (any (λ d. str_eq d r.direction_code) out)
        then out ++ r.direction_code ∷ []
        else out)
      rows

unfoldable pub direction_candidates : Option ℕ → Str → List ScheduleRow → List Str
unfolding directions_from
direction_candidates line stop rows = directions_from line stop [] rows
