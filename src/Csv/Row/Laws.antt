-- ===== src/Csv/Row/Laws.antt =====
-- What `parseRow` guarantees of a row that it returns.
use when_i_off.Prelude.{
  Str, ℕ, ◌≡◌, ◌≢◌, refl, List, [], ◌∷◌, map, Option, none, some, Option-cases, Bool-cases, inl,
  inr, str_eq, str_eq_iff,
}
use when_i_off.Prelude.Int.{ℤ, ◌≤ℤ◌}
use when_i_off.Api.{DayType}
use when_i_off.Csv.Unicode.{Unicode, split, kt_trim}
use when_i_off.Csv.Long.{to_long_or_null, long_text, long_min, long_max}
use when_i_off.Csv.Long.Laws.{to_long_or_null_bounds}
use when_i_off.Csv.LocalTime.{parse_local_time, Time, format_time}
use when_i_off.Csv.LocalTime.Laws.{IsTime}
use when_i_off.Csv.LocalTime.Canonical.{parse_local_time_canonical}
use when_i_off.Csv.Row.{
  ScheduleRow, RowResult, row, error, check_time, check_day, check_stop, check_line, check_cells,
  find_day, parse_row,
}

-- The text is the decimal form of an integer in the range of a Long.
abbrev pub IsId : Str → Type 0
IsId s = (v : ℤ) × (s ≡ long_text v) × (long_min ≤ℤ v) × (v ≤ℤ long_max)

-- The text is the printed form of a time of day.
abbrev pub IsTimeText : Str → Type 0
IsTimeText s = (t : Time) × IsTime t × (s ≡ format_time t)

pub record IsRow (r : ScheduleRow) : Type 0 where
  pub line_id : IsId r.line_id
  pub stop_id : IsId r.stop_id
  pub direction : r.direction_code ≢ []
  pub time : IsTimeText r.scheduled_time

abbrev IsRowAt : ℕ → RowResult → Type 0
IsRowAt n (row r) = IsRow r × (r.number ≡ n)
IsRowAt n (error m p) = m ≡ n

module _ (u : Unicode) (n : ℕ) where
  check_day-IsRowAt :
      (line stop : ℤ) (day_cell direction time_cell : Str) (o : Option DayType)
      → IsId (long_text line)
      → IsId (long_text stop)
      → IsRowAt n (check_day u n line stop day_cell direction time_cell o)
  unfolding check_day check_time
  check_day-IsRowAt line stop day_cell direction time_cell none p q = refl
  check_day-IsRowAt line stop day_cell direction time_cell (some day) p q =
      elim (Bool-cases (str_eq direction [])) [
        | inl e ↦ rw e refl
        | inr e ↦ elim (Option-cases (parse_local_time time_cell)) [
          | inl f ↦ rw (e, f) refl
          | inr (o, f) ↦
              let (t, range, read, same, _, _) = parse_local_time_canonical time_cell o f in
              rw (e, f)
                (
                  record {
                    line_id = p;
                    stop_id = q;
                    direction = λ z. (let b = (str_eq_iff direction []).1 z in cc);
                    time = (t, range, same);
                  },
                  refl,
                )
        ]
      ]

  check_stop-IsRowAt :
      (line : ℤ) (day_cell direction time_cell stop_cell : Str)
      → IsId (long_text line)
      → IsRowAt n (check_stop u n line day_cell direction time_cell (to_long_or_null u stop_cell))
  unfolding check_stop
  check_stop-IsRowAt line day_cell direction time_cell stop_cell p =
      elim (Option-cases (to_long_or_null u stop_cell)) [
        | inl e ↦ rw e refl
        | inr (stop, e) ↦
            let (lo, hi) = to_long_or_null_bounds u stop_cell stop e in
            rw e (
              check_day-IsRowAt line stop day_cell direction time_cell (find_day u day_cell) p
                (stop, refl, lo, hi))
      ]

  check_line-IsRowAt :
      (line_cell stop_cell day_cell direction time_cell : Str)
      → IsRowAt n
          (check_line u n stop_cell day_cell direction time_cell (to_long_or_null u line_cell))
  unfolding check_line
  check_line-IsRowAt line_cell stop_cell day_cell direction time_cell =
      elim (Option-cases (to_long_or_null u line_cell)) [
        | inl e ↦ rw e refl
        | inr (line, e) ↦
            let (lo, hi) = to_long_or_null_bounds u line_cell line e in
            rw e
              (check_stop-IsRowAt line day_cell direction time_cell stop_cell (line, refl, lo, hi))
      ]

  check_cells-IsRowAt : (cells : List Str) → IsRowAt n (check_cells u n cells)
  unfolding check_cells
  check_cells-IsRowAt [] = refl
  check_cells-IsRowAt (a ∷ []) = refl
  check_cells-IsRowAt (a ∷ b ∷ []) = refl
  check_cells-IsRowAt (a ∷ b ∷ c ∷ []) = refl
  check_cells-IsRowAt (a ∷ b ∷ c ∷ d ∷ []) = refl
  check_cells-IsRowAt (a ∷ b ∷ c ∷ d ∷ e ∷ []) = check_line-IsRowAt a b c d e
  check_cells-IsRowAt (a ∷ b ∷ c ∷ d ∷ e ∷ f ∷ s) = refl

  parse_row_lem :
      (line : Str) → parse_row u n line ≡ check_cells u n (map (kt_trim u) (split b',' line))
  unfolding parse_row
  parse_row_lem line = refl

  -- A line that is read gives a row with two numbers in the range of a Long, a direction that is not empty
  -- and a time of day in its canonical text, under the number of its line.
  pub parse_row-IsRow :
      (line : Str) (r : ScheduleRow) → parse_row u n line ≡ row r → IsRow r × (r.number ≡ n)
  parse_row-IsRow line r h =
      let at = check_cells-IsRowAt (map (kt_trim u) (split b',' line)) in
      rw (← parse_row_lem line, h) at at
