-- ===== src/Api.antt =====
-- The enums of the backend's API that the desktop client shares (desktop/src/api/schema.d.ts, through
-- the names of desktop/src/api/client.ts), and the orders in which the client lists them.
use when_i_off.Prelude.{Str, codes, List, [], ◌∷◌, Bool, true, false, ℕ, ◌≡◌, ◌↔◌, arith, Option}
use when_i_off.Prelude.Number.{Number}

pub data DayType : Type 0 where
  weekday saturday sunday_holiday : DayType

-- `DAY_TYPES.indexOf(d)`
abbrev pub day_index : DayType → ℕ
day_index weekday = 0
day_index saturday = 1
day_index sunday_holiday = 2

abbrev pub day_types : List DayType
day_types = weekday ∷ saturday ∷ sunday_holiday ∷ []

abbrev pub day_eq : DayType → DayType → Bool
day_eq weekday weekday = true
day_eq saturday saturday = true
day_eq sunday_holiday sunday_holiday = true
day_eq _ _ = false

pub day_eq_iff : (a b : DayType) → (day_eq a b ≡ true) ↔ (a ≡ b)
day_eq_iff weekday b = ground arith
day_eq_iff saturday b = ground arith
day_eq_iff sunday_holiday b = ground arith

abbrev pub day_name : DayType → Str
day_name weekday = codes "WEEKDAY"
day_name saturday = codes "SATURDAY"
day_name sunday_holiday = codes "SUNDAY_HOLIDAY"

pub data AttemptResult : Type 0 where
  caught missed unknown : AttemptResult

pub data LegType : Type 0 where
  walk transit : LegType

pub data TransitMode : Type 0 where
  bus subway gtx : TransitMode

pub data Direction : Type 0 where
  to_work to_home : Direction

abbrev pub is_walk : LegType → Bool
is_walk walk = true
is_walk transit = false

abbrev pub mode_name : TransitMode → Str
mode_name bus = codes "BUS"
mode_name subway = codes "SUBWAY"
mode_name gtx = codes "GTX"

abbrev pub mode_eq : TransitMode → TransitMode → Bool
mode_eq bus bus = true
mode_eq subway subway = true
mode_eq gtx gtx = true
mode_eq _ _ = false

-- The records of the responses hold the fields that the modelled code reads.
pub record TransitLine : Type 0 where
  pub id : ℕ
  pub name : Str
  pub mode : TransitMode

pub record TransitStop : Type 0 where
  pub id : ℕ
  pub name : Str
  pub mode : TransitMode
  pub lat : Number
  pub lng : Number

pub record SignalCrossing : Type 0 where
  pub id : ℕ
  pub seq_order : ℕ
  pub traffic_signal_id : ℕ
  pub approach_dir : Str
  pub signal_kind : Str

pub record RouteLeg : Type 0 where
  pub id : ℕ
  pub seq_order : ℕ
  pub leg_type : LegType
  pub start_lat : Option Number
  pub start_lng : Option Number
  pub end_lat : Option Number
  pub end_lng : Option Number
  pub planned_distance_m : Option Number
  pub planned_travel_sec : Option Number
  pub transit_line : Option TransitLine
  pub board_stop : Option TransitStop
  pub alight_stop : Option TransitStop
  pub signal_crossings : List SignalCrossing

pub record BoardingAttempt : Type 0 where
  pub id : ℕ
  pub route_leg_id : ℕ
  pub attempt_seq : ℕ
  pub result : AttemptResult
  pub arrived_at_stop_at : Option Str
  pub vehicle_scheduled_or_predicted_at : Option Str
  pub vehicle_actual_departure_at : Option Str
  pub alighted_at : Option Str
  pub notes : Option Str
