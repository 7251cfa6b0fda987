-- ===== src/Tests/Upload.antt =====
-- The upload of a small timetable, and two files of which the first is read last.
use when_i_off.Prelude.{codes, ◌≡◌, refl, ◌∙◌, ap, subst, true, List, [], ◌∷◌, ◌++◌, none}
use when_i_off.Csv.Row.{ScheduleRow}
use when_i_off.Csv.File.{parsed, ParseResult, check_file_size, parse_schedule_csv}
use when_i_off.Csv.Summary.{summarize}
use when_i_off.NextDepartures.{KnownTransit}
use when_i_off.NextDepartures.Query.{NextDraft}
use when_i_off.Upload.{
  File, Page, valid, first_page, start_read, on_file, on_read, on_confirm, show_parsed, submit,
  Step, pick, read, confirm, press, Steps, done, then,
}
use when_i_off.Upload.Checked.{IsPage, Steps-IsPage}
use when_i_off.Upload.Calm.{
  CalmSteps, calm, calm_then, rows_of, CalmSteps-rows, CalmSteps-confirmed, upload_possible,
}
use when_i_off.Tests.Csv.{ascii, first_row, second_row, file, file_parsed}

abbrev known : KnownTransit
known = record { lines = []; stops = []; stops_by_line = [] }

abbrev draft : NextDraft
draft = record {
  line_id = none;
  line = none;
  stop_id = [];
  direction = [];
  at = [];
  limit = codes "5";
}

abbrev first : Page
first = first_page draft

abbrev rows : List ScheduleRow
rows = first_row ∷ second_row ∷ []

abbrev a_file : File
a_file = record { name = codes "a.csv"; size = 90; content = file }

abbrev b_file : File
b_file = record { name = codes "b.csv"; size = 90; content = file }

abbrev result : ParseResult
result = parsed rows true 1

-- the states of the page, one file after the other chosen, and the second one read first
abbrev both_chosen : Page
both_chosen = start_read b_file none (start_read a_file none first)

abbrev both_confirmed : Page
both_confirmed =
    on_confirm true (show_parsed b_file result (record both_chosen { reads = a_file ∷ [] }))

abbrev first_read : Page
first_read = show_parsed a_file result (record both_confirmed { reads = [] })

chosen :
    (f : File) (s : Page) → check_file_size f.size ≡ none → Step ascii known s (start_read f none s)
unfolding on_file
chosen f s e = subst (Step ascii known s) (ap (λ o. start_read f o s) e) (pick f)

after_read :
    (f : File) (s : Page) (before after : List File)
    → s.reads ≡ before ++ f ∷ after
    → f.content ≡ file
    → Step ascii known s (show_parsed f result (record s { reads = before ++ after }))
unfolding on_read
after_read f s before after e c =
    subst (Step ascii known s)
      (ap (λ r. show_parsed f r (record s { reads = before ++ after }))
        (ap (parse_schedule_csv ascii) c ∙ file_parsed))
      (read before after f e)

not_empty : check_file_size 90 ≡ none
unfolding check_file_size
not_empty = refl

-- The user confirmed b.csv, and a.csv is uploaded: it was chosen first and read last.
confirmed_one_sent_other :
    Steps ascii known first (submit first_read)
    × (both_confirmed.picked ≡ valid b_file rows (summarize rows) true 1)
    × (both_confirmed.confirmed ≡ true)
    × ((submit first_read).sends ≡ record { file = a_file; rows = rows } ∷ [])
unfolding submit
confirmed_one_sent_other = (
  then
      (then
        (then
          (then (then (then done (chosen a_file first not_empty)) (chosen b_file _ not_empty))
            (after_read b_file both_chosen (a_file ∷ []) [] refl refl))
          (confirm true refl))
        (after_read a_file both_confirmed [] [] refl refl))
      (press refl),
  refl,
  refl,
  refl,
)

upload_under_way :
    (t : Page) × Steps ascii known (submit first_read) t
    × (t.sends ≡ (submit first_read).sends ++ record { file = a_file; rows = rows } ∷ [])
    × (t.pending ≡ true)
upload_under_way =
    upload_possible ascii known (submit first_read) a_file rows true 1 not_empty file_parsed

sent-IsPage : IsPage ascii (submit first_read)
sent-IsPage = Steps-IsPage ascii known draft (confirmed_one_sent_other.0)

one_chosen : CalmSteps ascii known first (start_read a_file none first)
unfolding on_file check_file_size
one_chosen = calm_then calm (pick a_file) refl

-- one file chosen and read
abbrev one_read : Page
one_read = show_parsed a_file result (record (start_read a_file none first) { reads = [] })

one_then_read : CalmSteps ascii known first one_read
unfolding on_read
one_then_read =
    subst (CalmSteps ascii known first)
      (ap (λ r. show_parsed a_file r (record (start_read a_file none first) { reads = [] }))
        file_parsed)
      (calm_then one_chosen (read [] [] a_file refl) tt)

rows_shown : rows ≡ rows_of (valid a_file rows (summarize rows) true 1)
rows_shown = CalmSteps-rows ascii known draft one_then_read

confirmation_kept : (submit (on_confirm true one_read)).picked ≡ (on_confirm true one_read).picked
unfolding submit
confirmation_kept =
    CalmSteps-confirmed ascii known draft (calm_then one_then_read (confirm true refl) tt)
      (press refl) tt refl refl
