-- ===== src/Csv/File/Spec.antt =====
-- The file by what its lines are, with no loop variables: the lines that are not blank, numbered from 1,
-- less a header in front; they are read in order, and the first that cannot be read is the answer.
use when_i_off.Prelude.{Str, str_eq, ℕ, ◌+◌, List, [], ◌∷◌, ◌++◌, if◌then◌else◌}
use when_i_off.Csv.Unicode.{Unicode, split_lines}
use when_i_off.Csv.Row.{ScheduleRow, row, error, parse_row}
use when_i_off.Csv.File.{
  CsvProblem, no_data_row, in_row, ParseResult, parsed, failed, clean, is_header,
}

pub record Line : Type 0 where
  pub number : ℕ
  pub raw : Str

-- Rows or the first problem.
pub data Outcome : Type 0 where
  all_rows : List ScheduleRow → Outcome
  problem : CsvProblem → Outcome

abbrev pub row_outcome : List ScheduleRow → Outcome
row_outcome [] = problem no_data_row
row_outcome (r ∷ rs) = all_rows (r ∷ rs)

module _ (u : Unicode) where
  abbrev pub non_blank : ℕ → List Str → List Line
  non_blank index [] = []
  non_blank index (raw ∷ rest) =
      if str_eq (clean u raw) []
      then non_blank (index + 1) rest
      else record { number = index + 1; raw = raw } ∷ non_blank (index + 1) rest

  abbrev pub drop_header : List Line → List Line
  drop_header [] = []
  drop_header (l ∷ ls) = if is_header u (clean u l.raw) then ls else l ∷ ls

  abbrev pub data_lines : Str → List Line
  data_lines content = drop_header (non_blank 0 (split_lines content))

  abbrev pub read_lines : List ScheduleRow → List Line → Outcome
  read_lines acc [] = row_outcome acc
  read_lines acc (l ∷ ls) = elim (parse_row u l.number (clean u l.raw)) [
    | row r ↦ read_lines (acc ++ r ∷ []) ls
    | error n p ↦ problem (in_row n p l.raw)
  ]

-- the answer without the counts
abbrev pub outcome_of : ParseResult → Outcome
outcome_of (parsed rows header blank) = all_rows rows
outcome_of (failed p) = problem p
