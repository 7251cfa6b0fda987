-- ===== src/Map.antt =====
-- desktop/src/map/overlay.ts, types.ts, lineTone.ts and the bounds of geo.ts: the markers and lines of a map.
pub mod Stops
use when_i_off.Prelude.{
  Str, codes, str_eq, ℕ, suc, ◌+◌, ◌*◌, ◌≡◌, Bool, true, false, ◌&&◌, ◌||◌, not, List, [], ◌∷◌,
  ◌++◌, map, filter, find?, Option, none, some, if◌then◌else◌, ◌==◌, length,
}
use when_i_off.Prelude.Sort.{sort}
use when_i_off.Prelude.Decimal.{decimal}
use when_i_off.Prelude.JsText.{starts_with, js_space}
use when_i_off.Prelude.Number.{Number, nan, infinity, neg_infinity, num_lt}
use when_i_off.Api.{
  LegType, walk, transit, TransitMode, bus, subway, gtx, TransitLine, TransitStop, BoardingAttempt,
  RouteLeg,
}
use when_i_off.Kst.{DateEngine, format_kst_time}
use when_i_off.Legs.{LatLng, leg_le}
use when_i_off.Trips.{truthy}

-- `gtx-a`, `bus-red`, `line-2`, `suin` and `ink`
pub data LineTone : Type 0 where
  gtx_a bus_red line_2 suin ink : LineTone

-- `/GTX/i`, with the letters that fold to those: only their capitals and small letters do
abbrev pub small : ℕ → ℕ
small c = if c == b'G' then b'g' else if c == b'T' then b't' else if c == b'X' then b'x' else c

unfoldable pub has_text : Str → Str → Bool
unfolding starts_with
has_text [] word = str_eq word []
has_text (c ∷ s) word = starts_with (c ∷ s) word || has_text s word

abbrev pub tone_of_mode : TransitMode → Str → LineTone
tone_of_mode gtx name = gtx_a
tone_of_mode bus name = if has_text (map small name) (codes "gtx") then gtx_a else bus_red
tone_of_mode subway name =
    if has_text (map small name) (codes "gtx")
    then gtx_a
    else if has_text name (codes "수인") || has_text name (codes "분당")
    then suin
    else if starts_with name (codes "2호선")
        || starts_with name (codes "서울지하철2호선")
        || starts_with name (codes "지하철2호선")
    then line_2
    else ink

unfoldable pub line_tone : Option TransitLine → LineTone
unfolding has_text
line_tone none = ink
line_tone (some line) = tone_of_mode line.mode (filter (λ c. not (js_space c)) line.name)

pub data MarkerKind : Type 0 where
  origin destination stop_marker gps_start gps_end : MarkerKind

-- What the overlays set of a `MapMarker` and a `MapLine`.
pub record MapMarker : Type 0 where
  pub id : Str
  pub position : LatLng
  pub kind : MarkerKind
  pub text : Str
  pub tooltip : Str

pub data LineKind : Type 0 where
  walk_line transit_line gps_line : LineKind

pub record MapLine : Type 0 where
  pub id : Str
  pub positions : List LatLng
  pub kind : LineKind
  pub tone : Option LineTone

pub record Overlay : Type 0 where
  pub markers : List MapMarker
  pub lines : List MapLine

pub data Which : Type 0 where
  board alight : Which

abbrev pub leg_id : RouteLeg → Str
leg_id leg = codes "leg-" ++ decimal leg.id

abbrev pub position_of : TransitStop → LatLng
position_of stop = record { lat = stop.lat; lng = stop.lng }

-- `stopMarker`, of the leg's stop
unfoldable pub stop_marker_of : RouteLeg → Which → TransitStop → Str → MapMarker
stop_marker_of leg which stop tooltip = record {
  id = leg_id leg ++ elim which [ board ↦ codes "-board" | alight ↦ codes "-alight" ];
  position = position_of stop;
  kind = stop_marker;
  text = decimal leg.seq_order;
  tooltip = tooltip;
}

abbrev pub overlay : List MapMarker → List MapLine → Overlay
overlay markers lines = record { markers = markers; lines = lines }

-- what the loop pushes for a walk, and for a leg with overlay stops
abbrev pub walk_overlay :
    RouteLeg → Option Number → Option Number → Option Number → Option Number → Overlay
walk_overlay leg (some a) (some b) (some c) (some d) = overlay [] (
    record {
      id = leg_id leg;
      positions = record { lat = a; lng = b } ∷ record { lat = c; lng = d } ∷ [];
      kind = walk_line;
      tone = none;
    }
    ∷ [])
walk_overlay leg a b c d = overlay [] []

abbrev pub stops_overlay : RouteLeg → Option TransitStop → Option TransitStop → Overlay
unfolding stop_marker_of line_tone
stops_overlay leg (some b) (some a) =
    overlay
      (stop_marker_of leg board b (codes "승차 " ++ b.name)
        ∷ stop_marker_of leg alight a (codes "하차 " ++ a.name)
        ∷ [])
      (record {
        id = leg_id leg;
        positions = position_of b ∷ position_of a ∷ [];
        kind = transit_line;
        tone = some (line_tone leg.transit_line);
      }
        ∷ [])
stops_overlay leg b a = overlay [] []

abbrev pub leg_overlay : LegType → RouteLeg → Overlay
leg_overlay walk leg = walk_overlay leg leg.start_lat leg.start_lng leg.end_lat leg.end_lng
leg_overlay transit leg = stops_overlay leg leg.board_stop leg.alight_stop

pub legs_overlay : List RouteLeg → Overlay
legs_overlay [] = overlay [] []
legs_overlay (leg ∷ legs) =
    let first = leg_overlay leg.leg_type leg in
    let rest = legs_overlay legs in
    overlay (first.markers ++ rest.markers) (first.lines ++ rest.lines)

abbrev pub end_marker : Str → LatLng → MarkerKind → Str → Str → MapMarker
end_marker id position kind text tooltip = record {
  id = id;
  position = position;
  kind = kind;
  text = text;
  tooltip = tooltip;
}

-- `routeOverlay`, of the route's two ends
unfoldable pub route_overlay : LatLng → LatLng → List RouteLeg → Overlay
unfolding legs_overlay
route_overlay from to legs =
    let rest = legs_overlay (sort leg_le legs) in
    overlay
      (end_marker (codes "origin") from origin (codes "집") (codes "출발")
        ∷ end_marker (codes "destination") to destination (codes "끝") (codes "도착")
        ∷ rest.markers)
      rest.lines

pub record GpsTrace : Type 0 where
  pub recorded_at : Str
  pub lat : Number
  pub lng : Number

abbrev pub point_of_trace : GpsTrace → LatLng
point_of_trace t = record { lat = t.lat; lng = t.lng }

-- `mine.find((a) => a.arrivedAtStopAt)?.arrivedAtStopAt`
abbrev pub time_in : (BoardingAttempt → Option Str) → Option BoardingAttempt → Option Str
time_in field none = none
time_in field (some a) = field a

abbrev pub first_time : (BoardingAttempt → Option Str) → List BoardingAttempt → Option Str
first_time field mine = time_in field (find? (λ a. truthy (field a)) mine)

abbrev pub last_trace : GpsTrace → List GpsTrace → GpsTrace
last_trace t [] = t
last_trace t (u ∷ us) = last_trace u us

-- The engine's Date, and the order of localeCompare on the times of traces.
module _ (date : DateEngine) (recorded_le : GpsTrace → GpsTrace → Bool) where
  abbrev pub time_suffix : Str → Option Str → Str
  time_suffix prefix none = []
  time_suffix prefix (some at) = prefix ++ format_kst_time date at

  abbrev pub gps_stops :
      RouteLeg → List BoardingAttempt → Option TransitStop → Option TransitStop → List MapMarker
  unfolding stop_marker_of
  gps_stops leg mine (some b) (some a) =
      stop_marker_of leg board b (
        codes "승차 "
        ++ (b.name ++ time_suffix (codes " · 도착 ") (first_time (λ x. x.arrived_at_stop_at) mine)))
      ∷ stop_marker_of leg alight a (
          codes "하차 "
          ++ (a.name ++ time_suffix (codes " · ") (first_time (λ x. x.alighted_at) mine)))
      ∷ []
  gps_stops leg mine b a = []

  abbrev pub gps_leg : LegType → RouteLeg → List BoardingAttempt → List MapMarker
  gps_leg walk leg attempts = []
  gps_leg transit leg attempts =
      gps_stops leg (filter (λ a. a.route_leg_id == leg.id) attempts) leg.board_stop leg.alight_stop

  pub gps_legs : List RouteLeg → List BoardingAttempt → List MapMarker
  gps_legs [] attempts = []
  gps_legs (leg ∷ legs) attempts = gps_leg leg.leg_type leg attempts ++ gps_legs legs attempts

  abbrev pub start_marker : GpsTrace → MapMarker
  start_marker t =
      end_marker (codes "gps-start") (point_of_trace t) gps_start (codes "S")
        (codes "GPS 시작 " ++ format_kst_time date t.recorded_at)

  abbrev pub finish_marker : GpsTrace → MapMarker
  finish_marker t =
      end_marker (codes "gps-end") (point_of_trace t) gps_end (codes "E")
        (codes "GPS 끝 " ++ format_kst_time date t.recorded_at)

  -- of the sorted traces: none, one, or more
  abbrev pub track : List GpsTrace → Overlay
  track [] = overlay [] []
  track (t ∷ []) = overlay (start_marker t ∷ []) []
  track (t ∷ u ∷ us) = overlay (start_marker t ∷ finish_marker (last_trace u us) ∷ []) (
      record {
        id = codes "gps";
        positions = map point_of_trace (t ∷ u ∷ us);
        kind = gps_line;
        tone = none;
      }
      ∷ [])

  unfoldable pub gps_overlay : List GpsTrace → List RouteLeg → List BoardingAttempt → Overlay
  unfolding gps_legs
  gps_overlay traces legs attempts =
      let way = track (sort recorded_le traces) in
      overlay (way.markers ++ gps_legs legs attempts) way.lines
