-- ===== src/Upload/Checked.antt =====
-- Whatever the order of the events, what is uploaded was checked.
use when_i_off.Prelude.{
  ℕ, ◌≡◌, refl, subst, Bool, true, false, List, [], ◌∷◌, ◌++◌, Option, none, some, ◌⊎◌, inl, inr,
  All, All-append,
}
use when_i_off.Csv.Unicode.{Unicode}
use when_i_off.Csv.Row.{ScheduleRow}
use when_i_off.Csv.File.{
  CsvProblem, ParseResult, parsed, failed, check_file_size, parse_schedule_csv,
}
use when_i_off.Csv.Summary.{summarize}
use when_i_off.NextDepartures.{KnownTransit}
use when_i_off.NextDepartures.Query.{NextDraft}
use when_i_off.Upload.{
  File, Picked, nothing, reading, invalid, valid, Sending, Page, first_page, start_read, on_file,
  on_no_file, show_parsed, on_read, send_if, submit, on_success, Step, pick_nothing, pick, read,
  read_failed, confirm, press, replied, refused, unheard, Steps, done, then,
}

All_remove {ℓ κ} :
    {A : Type ℓ} (P : A → Type κ) (before after : List A) (x : A)
    → All P (before ++ x ∷ after)
    → P x × All P (before ++ after)
All_remove P [] after x (p, q) = (p, q)
All_remove P (y ∷ ys) after x (p, q) = let (a, b) = All_remove P ys after x q in (a, (p, b))

All-split {ℓ κ} :
    {A : Type ℓ} (P : A → Type κ) (before : List A) (x : A)
    → All P (before ++ x ∷ [])
    → All P before × P x
All-split P [] x (p, _) = (tt, p)
All-split P (y ∷ ys) x (p, q) = let (a, b) = All-split P ys x q in ((p, a), b)

-- The file is not empty.
abbrev pub HasBytes : File → Type 0
HasBytes file = check_file_size file.size ≡ none

module _ (u : Unicode) where
  -- The file is not empty and its text is a timetable with these rows.
  pub record IsTimetable (file : File) (rows : List ScheduleRow) : Type 0 where
    pub size_ok : check_file_size file.size ≡ none
    pub header : Bool
    pub blank : ℕ
    pub parses : parse_schedule_csv u file.content ≡ parsed rows header blank

  -- What the page says of the chosen file is true of it.
  pub IsPicked : Picked → Type 0
  IsPicked nothing = Unit
  IsPicked (reading file) = check_file_size file.size ≡ none
  IsPicked (invalid file problem) =
      (check_file_size file.size ≡ some problem)
      ⊎ ((check_file_size file.size ≡ none) × (parse_schedule_csv u file.content ≡ failed problem))
  IsPicked (valid file rows summary header blank) =
      (check_file_size file.size ≡ none)
      × (parse_schedule_csv u file.content ≡ parsed rows header blank)
      × (summary ≡ summarize rows)

  abbrev pub IsSending : Sending → Type 0
  IsSending sending = IsTimetable sending.file sending.rows

  pub record IsPage (s : Page) : Type 0 where
    pub picked : IsPicked s.picked
    pub reads : All HasBytes s.reads
    pub sends : All IsSending s.sends

  start-IsPage :
      (file : File) (o : Option CsvProblem) (s : Page)
      → check_file_size file.size ≡ o
      → IsPage s
      → IsPage (start_read file o s)
  unfolding IsPicked
  start-IsPage file (some problem) s e h = record {
    picked = inl e;
    reads = h.reads;
    sends = h.sends;
  }
  start-IsPage file none s e h = record {
    picked = e;
    reads = All-append _ s.reads (file ∷ []) h.reads (e, tt);
    sends = h.sends;
  }

  show-IsPage :
      (file : File) (r : ParseResult) (s : Page)
      → check_file_size file.size ≡ none
      → parse_schedule_csv u file.content ≡ r
      → IsPage s
      → IsPage (show_parsed file r s)
  unfolding IsPicked
  show-IsPage file (failed problem) s c e h = record {
    picked = inr (c, e);
    reads = h.reads;
    sends = h.sends;
  }
  show-IsPage file (parsed rows header blank) s c e h = record {
    picked = (c, e, refl);
    reads = h.reads;
    sends = h.sends;
  }

  send-IsPage :
      (p : Picked) (confirmed : Bool) (s : Page)
      → IsPicked p
      → IsPage s
      → IsPage (send_if p confirmed s)
  unfolding IsPicked
  send-IsPage (valid file rows summary header blank) true s (c, e, _) h = record {
    picked = h.picked;
    reads = h.reads;
    sends =
        All-append _ s.sends _ h.sends
          (record { size_ok = c; header = header; blank = blank; parses = e }, tt);
  }
  send-IsPage (valid file rows summary header blank) false s p h = h
  send-IsPage nothing confirmed s p h = h
  send-IsPage (reading file) confirmed s p h = h
  send-IsPage (invalid file problem) confirmed s p h = h

  module _ (known : KnownTransit) where
    Step-IsPage : {s t : Page} → IsPage s → Step u known s t → IsPage t
    unfolding on_no_file on_file on_read submit on_success IsPicked
    Step-IsPage h pick_nothing = record { picked = tt; reads = h.reads; sends = h.sends }
    Step-IsPage {s = s} h (pick file) = start-IsPage file (check_file_size file.size) s refl h
    Step-IsPage {s = s} h (read before after file e) =
        let (c, rest) = All_remove HasBytes before after file (subst (All HasBytes) e h.reads) in
        show-IsPage file (parse_schedule_csv u file.content) (record s { reads = before ++ after })
          c refl (record { picked = h.picked; reads = rest; sends = h.sends })
    Step-IsPage h (read_failed before after file e) =
        let (c, rest) = All_remove HasBytes before after file (subst (All HasBytes) e h.reads) in
        record { picked = h.picked; reads = rest; sends = h.sends }
    Step-IsPage h (confirm checked offered) = record {
      picked = h.picked;
      reads = h.reads;
      sends = h.sends;
    }
    Step-IsPage {s = s} h (press can) = send-IsPage s.picked s.confirmed s h.picked h
    Step-IsPage h (replied before sending counts e p) =
        let (rest, c) = All-split IsSending before sending (subst (All IsSending) e h.sends) in
        record { picked = h.picked; reads = h.reads; sends = rest }
    Step-IsPage h (refused before sending e p) =
        let (rest, c) = All-split IsSending before sending (subst (All IsSending) e h.sends) in
        record { picked = h.picked; reads = h.reads; sends = rest }
    Step-IsPage h (unheard before after sending e p) =
        let (c, rest) =
          All_remove IsSending before after sending (subst (All IsSending) e h.sends) in
        record { picked = h.picked; reads = h.reads; sends = rest }

    -- Whatever the order of the events, also where several files are being read or uploaded at once: every
    -- file that is uploaded is not empty and is a timetable, with just the rows that the page holds for it;
    -- and what the page says of the chosen file, its problem or its rows and their summary, is true of it.
    pub Steps-IsPage :
        (draft : NextDraft) {t : Page} → Steps u known (first_page draft) t → IsPage t
    unfolding IsPicked
    Steps-IsPage draft done = record { picked = tt; reads = tt; sends = tt }
    Steps-IsPage draft (then steps step) = Step-IsPage (Steps-IsPage draft steps) step
