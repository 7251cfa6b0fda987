-- ===== src/Tests/Csv.antt =====
-- A timetable file as csv.ts reads it, with the Unicode tables cut down to ASCII.
use when_i_off.Prelude.{
  Str, codes, ℕ, ◌+◌, ◌-◌, ◌≡◌, ◌≢◌, refl, true, ◌&&◌, List, [], ◌∷◌, ◌++◌, map, none, some,
  if◌then◌else◌, leb, ◌==◌, length, count, All, arith,
}
use when_i_off.Prelude.Text.{str_eq}
use when_i_off.Prelude.Decimal.{number_from, decimal}
use when_i_off.Api.{weekday, saturday}
use when_i_off.Csv.Unicode.{Unicode, IsUnicode, split_lines, split, kt_trim, substring_before_comma}
use when_i_off.Csv.Long.{to_long_or_null, long_text}
use when_i_off.Csv.LocalTime.{Time, read_time, format_time, parse_local_time}
use when_i_off.Csv.LocalTime.Laws.{IsTime}
use when_i_off.Csv.LocalTime.Canonical.{parse_local_time_canonical}
use when_i_off.Csv.Row.{ScheduleRow, unknown_day, message, parse_row, equals_ignore_case}
use when_i_off.Csv.Row.Laws.{IsRow}
use when_i_off.Csv.File.{parsed, empty_file, check_file_size, clean, is_header, parse_schedule_csv}
use when_i_off.Csv.File.Spec.{Line, outcome_of, read_lines, data_lines}
use when_i_off.Csv.File.Laws.{parse_schedule_csv-read_lines, parse_schedule_csv-IsRow}
use when_i_off.Csv.File.Counts.{one_if, blank_at_end, parse_schedule_csv_counts}
use when_i_off.Csv.Summary.{Group, summarize, total}
use when_i_off.Csv.Summary.Laws.{counted}
use when_i_off.Csv.Summary.Groups.{AreDistinct, rows_at, row_key, key_eq, summarize-groups}

abbrev upper : ℕ → ℕ
upper c = if leb 97 c && leb c 122 then c - 32 else c

abbrev lower : ℕ → ℕ
lower c = if leb 65 c && leb c 90 then c + 32 else c

abbrev pub ascii : Unicode
ascii = record {
  is_nd = λ c. leb 48 c && leb c 57;
  is_separator = λ c. c == 32;
  to_upper_case = map upper;
  to_lower_case = map lower;
}

ascii-IsUnicode : IsUnicode ascii
ascii-IsUnicode = record { nd_ascii = λ c h. refl; separator_ascii = λ c h. refl }

abbrev morning : Time
morning = record { hour = 7; minute = 5; second = 0; nanos = 250_000_000 }

morning-IsTime : IsTime morning
morning-IsTime = record {
  hour_le = omega arith;
  minute_le = omega arith;
  second_le = omega arith;
  nanos_lt = omega arith;
}

abbrev Canonical : (s o : Str) → Type 0
Canonical s o =
    (t : Time) × IsTime t
    × (read_time s ≡ some t)
    × (o ≡ format_time t)
    × (read_time o ≡ some t)
    × (parse_local_time o ≡ some o)

time-Canonical : Canonical (codes "07:05:00.0") (codes "07:05")
unfolding parse_local_time number_from decimal
time-Canonical = parse_local_time_canonical (codes "07:05:00.0") (codes "07:05") refl

time_out_of_range : parse_local_time (codes "24:00") ≡ none
unfolding parse_local_time number_from decimal
time_out_of_range = refl

abbrev pub first_row : ScheduleRow
first_row = record {
  number = 2;
  line_id = codes "3";
  stop_id = codes "41";
  day_type = weekday;
  direction_code = codes "UP";
  scheduled_time = codes "07:05";
}

abbrev pub second_row : ScheduleRow
second_row = record first_row { number = 4; day_type = saturday; scheduled_time = codes "08:00:30" }

day_message :
    message 2 (unknown_day (codes "x"))
    ≡ codes "row 2: unknown day_type 'x' (WEEKDAY, SATURDAY, SUNDAY_HOLIDAY)"
unfolding message decimal
day_message = refl

no_bytes : check_file_size 0 ≡ some empty_file
unfolding check_file_size
no_bytes = refl

abbrev pub file : Str
file =
    codes "Transit_Line_Id,b"
    ++ 10
      ∷ (codes "3, 41,weekday,UP,07:05:00"
          ++ 13 ∷ 10 ∷ 10 ∷ (codes "3,41,Saturday,UP,08:00:30" ++ 10 ∷ []))

pub file_parsed : parse_schedule_csv ascii file ≡ parsed (first_row ∷ second_row ∷ []) true 1
unfolding parse_schedule_csv split_lines clean is_header equals_ignore_case substring_before_comma
    parse_row split kt_trim to_long_or_null str_eq long_text parse_local_time number_from decimal
file_parsed = refl

file_lines :
    outcome_of (parse_schedule_csv ascii file) ≡ read_lines ascii [] (data_lines ascii file)
file_lines = parse_schedule_csv-read_lines ascii file

file_rows :
    All IsRow (first_row ∷ second_row ∷ [])
    × (first_row ∷ second_row ∷ [] ≢ [])
    × (map (λ (r : ScheduleRow). r.number) (first_row ∷ second_row ∷ [])
        ≡ map (λ (l : Line). l.number) (data_lines ascii file))
file_rows = parse_schedule_csv-IsRow ascii file (first_row ∷ second_row ∷ []) true 1 file_parsed

file_counts :
    length (first_row ∷ second_row ∷ []) + 1 + one_if true + blank_at_end ascii (split_lines file)
    ≡ length (split_lines file)
file_counts = parse_schedule_csv_counts ascii file (first_row ∷ second_row ∷ []) true 1 file_parsed

abbrev rows : List ScheduleRow
rows = first_row ∷ second_row ∷ first_row ∷ []

abbrev AllCounted : List ScheduleRow → Type 0
AllCounted list =
    let s = summarize list in
    (s.rows ≡ length list)
    × (s.departures + s.duplicates ≡ s.rows)
    × (total (λ (g : Group). g.rows) s.groups ≡ s.rows)
    × (counted s.by_line ≡ s.rows)
    × (counted s.by_stop ≡ s.rows)
    × (counted s.by_direction ≡ s.rows)
    × (counted s.by_day_type ≡ s.rows)

rows_grouped :
    AreDistinct (summarize rows).groups
    × (rows_at (row_key first_row) (summarize rows).groups
        ≡ count (λ r. key_eq (row_key r) (row_key first_row)) rows)
rows_grouped = summarize-groups rows (row_key first_row)
