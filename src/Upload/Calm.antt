-- ===== src/Upload/Calm.antt =====
-- A page on which no other file is chosen while one is being read.
use when_i_off.Prelude.{
  ℕ, ◌≡◌, refl, sym, ◌∙◌, ap, subst, Bool, true, false, List, [], ◌∷◌, ◌++◌, Option, none, some,
  ◌⊎◌, inl, inr,
}
use when_i_off.Csv.Unicode.{Unicode}
use when_i_off.Csv.Row.{ScheduleRow}
use when_i_off.Csv.File.{
  CsvProblem, ParseResult, parsed, failed, check_file_size, parse_schedule_csv,
}
use when_i_off.NextDepartures.{KnownTransit}
use when_i_off.NextDepartures.Query.{NextDraft}
use when_i_off.Upload.{
  File, SyncCounts, Picked, nothing, reading, invalid, valid, Page, first_page, start_read, on_file,
  on_no_file, show_parsed, on_read, offers, send_if, submit, on_success, Step, pick_nothing, pick,
  read, read_failed, confirm, press, replied, refused, unheard, Steps, done, then,
}

abbrev pub rows_of : Picked → List ScheduleRow
rows_of (valid file rows summary header blank) = rows
rows_of p = []

-- What holds between the events: the rows of the candidates are those of the chosen file, and a file that
-- is being read is the chosen one, with nothing confirmed.
pub record IsSettled (s : Page) : Type 0 where
  pub rows : s.rows ≡ rows_of s.picked
  pub waiting :
      (s.reads ≡ [])
      ⊎ ((file : File) × (s.reads ≡ file ∷ []) × (s.picked ≡ reading file) × (s.confirmed ≡ false))

abbrev tail {ℓ} : {A : Type ℓ} → List A → List A
tail [] = []
tail (x ∷ xs) = xs

not_empty {ℓ} : {A : Type ℓ} (before after : List A) (x : A) → [] ≡ before ++ x ∷ after → ⊥
not_empty [] after x e = absurd (cc)
not_empty (y ∷ ys) after x e = absurd (cc)

only_one {ℓ} :
    {A : Type ℓ} (before after : List A) (x y : A)
    → y ∷ [] ≡ before ++ x ∷ after
    → before ++ after ≡ []
only_one [] after x y e = sym (ap tail e)
only_one (z ∷ zs) after x y e = absurd (not_empty zs after x (ap tail e))

start_read_unconfirmed :
    (file : File) (o : Option CsvProblem) (s : Page) → (start_read file o s).confirmed ≡ false
start_read_unconfirmed file none s = refl
start_read_unconfirmed file (some problem) s = refl

start-IsSettled :
    (file : File) (o : Option CsvProblem) (s : Page)
    → s.reads ≡ []
    → IsSettled (start_read file o s)
start-IsSettled file (some problem) s e = record { rows = refl; waiting = inl e }
start-IsSettled file none s e = record {
  rows = refl;
  waiting = inr (file, ap (λ reads. reads ++ file ∷ []) e, refl, refl);
}

show-IsSettled :
    (file : File) (r : ParseResult) (s : Page)
    → s.rows ≡ []
    → s.reads ≡ []
    → IsSettled (show_parsed file r s)
show-IsSettled file (failed problem) s e w = record { rows = e; waiting = inl w }
show-IsSettled file (parsed rows header blank) s e w = record { rows = refl; waiting = inl w }

send-IsSettled :
    (p : Picked) (confirmed : Bool) (s : Page) → IsSettled s → IsSettled (send_if p confirmed s)
send-IsSettled (valid file rows summary header blank) true s h = record {
  rows = h.rows;
  waiting = h.waiting;
}
send-IsSettled (valid file rows summary header blank) false s h = h
send-IsSettled nothing confirmed s h = h
send-IsSettled (reading file) confirmed s h = h
send-IsSettled (invalid file problem) confirmed s h = h

send_if-picked :
    (p : Picked) (confirmed : Bool) (s : Page) → (send_if p confirmed s).picked ≡ s.picked
send_if-picked (valid file rows summary header blank) true s = refl
send_if-picked (valid file rows summary header blank) false s = refl
send_if-picked nothing confirmed s = refl
send_if-picked (reading file) confirmed s = refl
send_if-picked (invalid file problem) confirmed s = refl

reading_offers_nothing :
    (p : Picked) (file : File) (result : Option SyncCounts)
    → p ≡ reading file
    → offers p result ≡ true
    → ⊥
reading_offers_nothing p file result e h = absurd (cc (subst (λ q. offers q result ≡ true) e h))

module _ (u : Unicode) (known : KnownTransit) where
  -- A choice is made only while no file is being read.
  abbrev pub IsCalm : {s t : Page} → Step u known s t → Type 0
  IsCalm {s = s} pick_nothing = s.reads ≡ []
  IsCalm {s = s} (pick file) = s.reads ≡ []
  IsCalm step = Unit

  pub data CalmSteps (s : Page) : Page → Type 0 where
    calm : CalmSteps s s
    calm_then :
        {t v : Page} → CalmSteps s t → (step : Step u known t v) → IsCalm step → CalmSteps s v

  Step-IsSettled :
      {s t : Page} → IsSettled s → (step : Step u known s t) → IsCalm step → IsSettled t
  unfolding on_no_file on_file on_read submit on_success
  Step-IsSettled h pick_nothing c = record { rows = refl; waiting = inl c }
  Step-IsSettled {s = s} h (pick file) c = start-IsSettled file (check_file_size file.size) s c
  Step-IsSettled {s = s} h (read before after file e) c = elim h.waiting [
    | inl w ↦ absurd (not_empty before after file (sym w ∙ e))
    | inr (f, w, p, q) ↦
        show-IsSettled file (parse_schedule_csv u file.content)
          (record s { reads = before ++ after }) (h.rows ∙ ap rows_of p)
          (only_one before after file f (sym w ∙ e))
  ]
  Step-IsSettled h (read_failed before after file e) c = elim h.waiting [
    | inl w ↦ absurd (not_empty before after file (sym w ∙ e))
    | inr (f, w, p, q) ↦ record {
      rows = h.rows;
      waiting = inl (only_one before after file f (sym w ∙ e));
    }
  ]
  Step-IsSettled {s = s} h (confirm checked offered) c = elim h.waiting [
    | inl w ↦ record { rows = h.rows; waiting = inl w }
    | inr (f, w, p, q) ↦ absurd (reading_offers_nothing s.picked f s.result p offered)
  ]
  Step-IsSettled {s = s} h (press can) c = send-IsSettled s.picked s.confirmed s h
  Step-IsSettled h (replied before sending counts e p) c = elim h.waiting [
    | inl w ↦ record { rows = h.rows; waiting = inl w }
    | inr (f, w, p, q) ↦ record { rows = h.rows; waiting = inr (f, w, p, refl) }
  ]
  Step-IsSettled h (refused before sending e p) c = record { rows = h.rows; waiting = h.waiting }
  Step-IsSettled h (unheard before after sending e p) c = record {
    rows = h.rows;
    waiting = h.waiting;
  }

  CalmSteps-IsSettled :
      (draft : NextDraft) {t : Page} → CalmSteps (first_page draft) t → IsSettled t
  CalmSteps-IsSettled draft calm = record { rows = refl; waiting = inl refl }
  CalmSteps-IsSettled draft (calm_then steps step c) =
      Step-IsSettled (CalmSteps-IsSettled draft steps) step c

  -- If no other file is chosen while one is being read, the rows that the candidates are taken from are always
  -- the rows of the chosen file: none unless it is valid.
  pub CalmSteps-rows :
      (draft : NextDraft) {t : Page} → CalmSteps (first_page draft) t → t.rows ≡ rows_of t.picked
  CalmSteps-rows draft steps = (CalmSteps-IsSettled draft steps).rows

  -- If no other file is chosen while one is being read, a confirmation holds for the file that it was given
  -- to: an event that leaves it standing leaves the chosen file, with its rows, as it was.
  pub CalmSteps-confirmed :
      (draft : NextDraft) {s t : Page}
      → CalmSteps (first_page draft) s
      → (step : Step u known s t) → IsCalm step
      → s.confirmed ≡ true
      → t.confirmed ≡ true
      → t.picked ≡ s.picked
  unfolding on_no_file on_file on_read submit on_success
  CalmSteps-confirmed draft steps pick_nothing c before after = absurd (cc)
  CalmSteps-confirmed draft {s = s} steps (pick file) c before after =
      let e = start_read_unconfirmed file (check_file_size file.size) s in absurd (cc)
  CalmSteps-confirmed draft steps (read xs ys file e) c before after =
      elim (CalmSteps-IsSettled draft steps).waiting [
        | inl w ↦ absurd (not_empty xs ys file (sym w ∙ e))
        | inr (f, w, p, q) ↦ absurd (cc)
      ]
  CalmSteps-confirmed draft steps (read_failed xs ys file e) c before after = refl
  CalmSteps-confirmed draft steps (confirm checked offered) c before after = refl
  CalmSteps-confirmed draft {s = s} steps (press can) c before after =
      send_if-picked s.picked s.confirmed s
  CalmSteps-confirmed draft steps (replied xs sending counts e p) c before after = absurd (cc)
  CalmSteps-confirmed draft steps (refused xs sending e p) c before after = refl
  CalmSteps-confirmed draft steps (unheard xs ys sending e p) c before after = refl

  shown :
      (file : File) (s : Page) {r : ParseResult}
      → parse_schedule_csv u file.content ≡ r
      → on_read u known file s ≡ show_parsed file r s
  unfolding on_read
  shown file s e = ap (λ r. show_parsed file r s) e

  -- Whatever was done before, and whatever is still being read or uploaded, a file that is a timetable can be
  -- uploaded: from every state there are events after which an upload of it with its rows is the last one under
  -- way, and the page waits for its answer.
  pub upload_possible :
      (s : Page) (file : File) (rows : List ScheduleRow) (header : Bool) (blank : ℕ)
      → check_file_size file.size ≡ none
      → parse_schedule_csv u file.content ≡ parsed rows header blank
      → (t : Page) × Steps u known s t
        × (t.sends ≡ s.sends ++ record { file = file; rows = rows } ∷ [])
        × (t.pending ≡ true)
  unfolding on_file submit
  upload_possible s file rows header blank c e =
      let chosen : Step u known s (start_read file none s) =
        subst (Step u known s) (ap (λ o. start_read file o s) c) (pick file) in
      let waiting = start_read file none s in
      let left = record waiting { reads = s.reads ++ [] } in
      let finished : Step u known waiting (show_parsed file (parsed rows header blank) left) =
        subst (Step u known waiting) (shown file left e) (read s.reads [] file refl) in
      (
        _,
        then (then (then (then done chosen) finished) (confirm true refl)) (press refl),
        refl,
        refl,
      )
