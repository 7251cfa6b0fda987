-- ===== src/Upload.antt =====
-- desktop/src/pages/ScheduleUpload.tsx and SchedulesPage.tsx: the upload of a timetable file, as the state of
-- the two components and the events that change it. A file is read asynchronously: between the choice of a
-- file and the end of its reading any other event may come.
pub mod Checked
pub mod Calm
use when_i_off.Prelude.{
  Str, ℕ, ◌≡◌, ◌≢◌, ◌⊎◌, refl, Bool, true, false, ◌&&◌, not, List, [], ◌∷◌, ◌++◌, Option, none,
  some, if◌then◌else◌, All,
}
use when_i_off.Csv.Unicode.{Unicode}
use when_i_off.Csv.Row.{ScheduleRow}
use when_i_off.Csv.File.{
  CsvProblem, ParseResult, parsed, failed, check_file_size, parse_schedule_csv,
}
use when_i_off.Csv.Summary.{ScheduleSummary, summarize}
use when_i_off.NextDepartures.{KnownTransit}
use when_i_off.NextDepartures.Query.{NextDraft, draft_from_rows}

-- A file, with the text that `decodeUtf8` makes of what `arrayBuffer` gives.
pub record File : Type 0 where
  pub name : Str
  pub size : ℕ
  pub content : Str

pub record SyncCounts : Type 0 where
  pub fetched : ℕ
  pub created : ℕ
  pub updated : ℕ
  pub skipped : ℕ

pub data Picked : Type 0 where
  nothing : Picked
  reading : File → Picked
  invalid : File → CsvProblem → Picked
  valid :
      (file : File) (rows : List ScheduleRow) (summary : ScheduleSummary) (header_skipped : Bool)
      (blank_lines : ℕ)
      → Picked

-- An upload under way: the file, and the rows that its `onSuccess` holds.
pub record Sending : Type 0 where
  pub file : File
  pub rows : List ScheduleRow

-- The state of ScheduleUpload, with the files whose `arrayBuffer` is awaited and the uploads under way in the
-- order of their start, and of SchedulesPage: the rows given to the candidates, and the draft. `pending` is
-- `upload.isPending`: the page waits for the last of the uploads under way, and for no other.
pub record Page : Type 0 where
  pub picked : Picked
  pub confirmed : Bool
  pub result : Option SyncCounts
  pub reads : List File
  pub sends : List Sending
  pub pending : Bool
  pub rows : List ScheduleRow
  pub draft : NextDraft

abbrev pub first_page : NextDraft → Page
first_page draft = record {
  picked = nothing;
  confirmed = false;
  result = none;
  reads = [];
  sends = [];
  pending = false;
  rows = [];
  draft = draft;
}

-- the start of `onFile`, with `upload.reset()`, after which the page waits for no answer
abbrev pub reset : Page → Page
reset s = record s { pending = false; result = none; confirmed = false; rows = [] }

unfoldable pub on_no_file : Page → Page
on_no_file s = record (reset s) { picked = nothing }

-- `onFile` up to the `await`, of the problem that `checkFileSize` finds
abbrev pub start_read : File → Option CsvProblem → Page → Page
start_read file (some problem) s = record (reset s) { picked = invalid file problem }
start_read file none s = record (reset s) { picked = reading file; reads = s.reads ++ file ∷ [] }

unfoldable pub on_file : File → Page → Page
on_file file s = start_read file (check_file_size file.size) s

-- `onFile` after the `await`
abbrev pub show_parsed : File → ParseResult → Page → Page
show_parsed file (failed problem) s = record s { picked = invalid file problem }
show_parsed file (parsed rows header blank) s = record s {
  picked = valid file rows (summarize rows) header blank;
  rows = rows;
}

-- The checkbox is there: the file is valid and nothing was uploaded yet.
abbrev pub offers : Picked → Option SyncCounts → Bool
offers (valid file rows summary header blank) none = true
offers picked result = false

abbrev pub on_confirm : Bool → Page → Page
on_confirm checked s = record s { confirmed = checked }

-- A press of the button submits the form: it is there, and it is not disabled.
abbrev pub can_press : Page → Bool
can_press s = offers s.picked s.result && s.confirmed && not s.pending

abbrev pub send_if : Picked → Bool → Page → Page
send_if (valid file rows summary header blank) true s = record s {
  sends = s.sends ++ record { file = file; rows = rows } ∷ [];
  pending = true;
}
send_if picked confirmed s = s

unfoldable pub submit : Page → Page
submit s = send_if s.picked s.confirmed s

module _ (u : Unicode) (known : KnownTransit) where
  unfoldable pub on_read : File → Page → Page
  on_read file s = show_parsed file (parse_schedule_csv u file.content) s

  -- `onSuccess` of the upload that the page waits for, and `onUploaded` of SchedulesPage
  unfoldable pub on_success : Sending → SyncCounts → Page → Page
  on_success sending counts s = record s {
    result = some counts;
    confirmed = false;
    pending = false;
    draft = draft_from_rows s.draft sending.rows known;
  }

  -- One event: a choice of no file or of one, the end of a reading or its failure, a click on the checkbox
  -- where there is one, a press of the button where it is enabled, an answer of the server or its refusal to
  -- the upload that the page waits for, or the end of one that it does not wait for, of which it hears nothing.
  pub data Step (s : Page) : Page → Type 0 where
    pick_nothing : Step s (on_no_file s)
    pick : (file : File) → Step s (on_file file s)
    read :
        (before after : List File) (file : File)
        → s.reads ≡ before ++ file ∷ after
        → Step s (on_read file (record s { reads = before ++ after }))
    read_failed :
        (before after : List File) (file : File)
        → s.reads ≡ before ++ file ∷ after
        → Step s (record s { reads = before ++ after })
    confirm : (checked : Bool) → offers s.picked s.result ≡ true → Step s (on_confirm checked s)
    press : can_press s ≡ true → Step s (submit s)
    replied :
        (before : List Sending) (sending : Sending) (counts : SyncCounts)
        → s.sends ≡ before ++ sending ∷ []
        → s.pending ≡ true
        → Step s (on_success sending counts (record s { sends = before }))
    refused :
        (before : List Sending) (sending : Sending)
        → s.sends ≡ before ++ sending ∷ []
        → s.pending ≡ true
        → Step s (record s { sends = before; pending = false })
    unheard :
        (before after : List Sending) (sending : Sending)
        → s.sends ≡ before ++ sending ∷ after
        → (s.pending ≡ false) ⊎ (after ≢ [])
        → Step s (record s { sends = before ++ after })

  pub data Steps (s : Page) : Page → Type 0 where
    done : Steps s s
    then : {t v : Page} → Steps s t → Step t v → Steps s v
