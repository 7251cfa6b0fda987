-- ===== src/Csv/Row.antt =====
-- csv.ts `equalsIgnoreCase`, `RowError` and `parseRow`: one data line of the file. An exception is the
-- `error` case of `RowResult`; its message is rendered by `message`.
pub mod Laws
use when_i_off.Prelude.{
  Str, codes, str_eq, ℕ, ◌≡◌, Bool, true, false, ◌&&◌, List, [], ◌∷◌, ◌++◌, map, Option, none, some,
  if◌then◌else◌, ◌==◌, length, find?, is_some,
}
use when_i_off.Prelude.Int.{ℤ}
use when_i_off.Prelude.Decimal.{decimal}
use when_i_off.Api.{DayType, day_types, day_name}
use when_i_off.Csv.Unicode.{Unicode, split, kt_trim}
use when_i_off.Csv.Long.{to_long_or_null, long_text}
use when_i_off.Csv.LocalTime.{parse_local_time}

pub record ScheduleRow : Type 0 where
  pub number : ℕ
  pub line_id : Str
  pub stop_id : Str
  pub day_type : DayType
  pub direction_code : Str
  pub scheduled_time : Str

-- What a `RowError` says of its line.
pub data RowProblem : Type 0 where
  columns : ℕ → RowProblem
  bad_line_id : RowProblem
  bad_stop_id : RowProblem
  unknown_day : Str → RowProblem
  blank_direction : RowProblem
  bad_time : Str → RowProblem

pub data RowResult : Type 0 where
  row : ScheduleRow → RowResult
  error : ℕ → RowProblem → RowResult

-- the server's `detail` for a problem in line `number`
unfoldable pub message : ℕ → RowProblem → Str
message number (columns got) =
    codes "row "
    ++ (decimal number
        ++ (codes
              ": expected 5 columns (transit_line_id, transit_stop_id, day_type, direction_code, scheduled_time) but got "
            ++ decimal got))
message number bad_line_id =
    codes "row " ++ (decimal number ++ codes ": transit_line_id must be a number")
message number bad_stop_id =
    codes "row " ++ (decimal number ++ codes ": transit_stop_id must be a number")
message number (unknown_day cell) =
    codes "row "
    ++ (decimal number
        ++ (codes ": unknown day_type '"
            ++ (cell ++ codes "' (WEEKDAY, SATURDAY, SUNDAY_HOLIDAY)")))
message number blank_direction =
    codes "row " ++ (decimal number ++ codes ": direction_code must not be blank")
message number (bad_time cell) =
    codes "row "
    ++ (decimal number
        ++ (codes ": scheduled_time '" ++ (cell ++ codes "' must be HH:mm or HH:mm:ss (KST)")))

module _ (u : Unicode) where
  -- `c.toUpperCase().length === 1 ? c.toUpperCase() : c`, and the same for lower case
  one_upper : ℕ → ℕ
  one_upper c = elim (u.to_upper_case (c ∷ [])) [ [] ↦ c | d ∷ s ↦ (elim s [ [] ↦ d | _ ∷ _ ↦ c ]) ]

  one_lower : ℕ → ℕ
  one_lower c = elim (u.to_lower_case (c ∷ [])) [ [] ↦ c | d ∷ s ↦ (elim s [ [] ↦ d | _ ∷ _ ↦ c ]) ]

  same_letter : ℕ → ℕ → Bool
  same_letter x y =
      if x == y
      then true
      else if one_upper x == one_upper y
      then true
      else one_lower (one_upper x) == one_lower (one_upper y)

  unfoldable pub equals_ignore_case : Str → Str → Bool
  unfolding same_letter one_upper one_lower
  equals_ignore_case [] [] = true
  equals_ignore_case (x ∷ s) (y ∷ t) = same_letter x y && equals_ignore_case s t
  equals_ignore_case _ _ = false

  -- `DAY_TYPES.find((d) => d === dayCell.toUpperCase())`
  find_day : Str → Option DayType
  find_day cell = find? (λ d. str_eq (day_name d) (u.to_upper_case cell)) day_types

  check_time : ℕ → ℤ → ℤ → DayType → Str → Str → Option Str → RowResult
  check_time number line stop day direction cell none = error number (bad_time cell)
  check_time number line stop day direction cell (some time) = row (record {
    number = number;
    line_id = long_text line;
    stop_id = long_text stop;
    day_type = day;
    direction_code = direction;
    scheduled_time = time;
  })

  check_day : ℕ → ℤ → ℤ → Str → Str → Str → Option DayType → RowResult
  check_day number line stop day_cell direction time_cell none = error number (unknown_day day_cell)
  check_day number line stop day_cell direction time_cell (some day) =
      if str_eq direction []
      then error number blank_direction
      else check_time number line stop day direction time_cell (parse_local_time time_cell)

  check_stop : ℕ → ℤ → Str → Str → Str → Option ℤ → RowResult
  check_stop number line day_cell direction time_cell none = error number bad_stop_id
  check_stop number line day_cell direction time_cell (some stop) =
      check_day number line stop day_cell direction time_cell (find_day day_cell)

  check_line : ℕ → Str → Str → Str → Str → Option ℤ → RowResult
  check_line number stop_cell day_cell direction time_cell none = error number bad_line_id
  check_line number stop_cell day_cell direction time_cell (some line) =
      check_stop number line day_cell direction time_cell (to_long_or_null u stop_cell)

  check_cells : ℕ → List Str → RowResult
  check_cells number (line ∷ stop ∷ day ∷ direction ∷ time ∷ []) =
      check_line number stop day direction time (to_long_or_null u line)
  check_cells number cells = error number (columns (length cells))

  unfoldable pub parse_row : ℕ → Str → RowResult
  unfolding check_cells check_line check_stop check_day check_time find_day
  parse_row number line = check_cells number (map (kt_trim u) (split b',' line))
