-- ===== src/Csv/File.antt =====
-- csv.ts `checkFileSize` and `parseScheduleCsv`: the loop over the lines of a file, with the variables
-- that it changes as a record, and the first problem as the `failed` case of its result.
pub mod Spec
pub mod Laws
pub mod Counts
use when_i_off.Prelude.{
  Str, codes, str_eq, ℕ, zero, suc, ◌+◌, ◌≡◌, Bool, true, false, ◌&&◌, List, [], ◌∷◌, ◌++◌, Option,
  none, some, if◌then◌else◌, ◌==◌,
}
use when_i_off.Csv.Unicode.{Unicode, kt_trim, split_lines, substring_before_comma, drop_while}
use when_i_off.Csv.Row.{
  ScheduleRow, RowResult, row, error, RowProblem, parse_row, equals_ignore_case,
}

pub data CsvProblem : Type 0 where
  -- "file must not be empty" and "csv has no data row", with no line
  empty_file : CsvProblem
  no_data_row : CsvProblem
  -- the line's number, what is wrong with it, and the line as it stands in the file
  in_row : ℕ → RowProblem → Str → CsvProblem

pub data ParseResult : Type 0 where
  parsed : (rows : List ScheduleRow) (header_skipped : Bool) (blank_lines : ℕ) → ParseResult
  failed : CsvProblem → ParseResult

unfoldable pub check_file_size : ℕ → Option CsvProblem
check_file_size size = if size == 0 then some empty_file else none

-- The variables of the loop.
pub record Scan : Type 0 where
  pub rows : List ScheduleRow
  pub at_first_line : Bool
  pub header_skipped : Bool
  pub blank_lines : ℕ

-- what follows the loop
pub finish : List ScheduleRow → Bool → ℕ → ParseResult
finish [] header blank = failed no_data_row
finish (r ∷ rows) header blank = parsed (r ∷ rows) header blank

-- `if (index < lines.length - 1) blankLines++`: only with a line left
pub count_blank : List Str → ℕ → ℕ
count_blank [] blank = blank
count_blank (line ∷ rest) blank = suc blank

module _ (u : Unicode) where
  -- `ktTrim(raw).replace(/^\uFEFF+/, "")`
  unfoldable pub clean : Str → Str
  clean raw = drop_while (λ c. c == 0xfeff) (kt_trim u raw)

  unfoldable pub is_header : Str → Bool
  is_header line =
      equals_ignore_case u (kt_trim u (substring_before_comma line)) (codes "transit_line_id")

  pub scan : ℕ → Scan → List Str → ParseResult
  scan index st [] = finish st.rows st.header_skipped st.blank_lines
  scan index st (raw ∷ rest) =
      let line = clean raw in
      let blank =
        scan (index + 1) (record st { blank_lines = count_blank rest st.blank_lines }) rest in
      let header =
        scan (index + 1) (record st { at_first_line = false; header_skipped = true }) rest in
      let data_row : ParseResult = elim (parse_row u (index + 1) line) [
        | row r ↦
            scan (index + 1) (record st { at_first_line = false; rows = st.rows ++ r ∷ [] }) rest
        | error n p ↦ failed (in_row n p raw)
      ] in
      if str_eq line []
      then blank
      else if st.at_first_line && is_header line
      then header
      else data_row

  unfoldable pub parse_schedule_csv : Str → ParseResult
  unfolding scan finish count_blank
  parse_schedule_csv content =
      scan 0 (record { rows = []; at_first_line = true; header_skipped = false; blank_lines = 0 })
        (split_lines content)
