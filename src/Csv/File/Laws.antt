-- ===== src/Csv/File/Laws.antt =====
-- The loop of `parseScheduleCsv` against the description of the file by its lines.
use when_i_off.Prelude.{
  Str, str_eq, ℕ, ◌+◌, ◌≡◌, ◌≢◌, refl, Bool, true, false, ◌&&◌, List, [], ◌∷◌, ◌++◌, Bool-cases,
  ◌⊎◌, inl, inr, All, All-append, map, sym, ap, ◌∙◌,
}
use mathlib.Core.List.{append-nil, append_assoc, map-append}
use when_i_off.Csv.Unicode.{Unicode, split_lines}
use when_i_off.Csv.Row.{ScheduleRow, RowResult, RowProblem, row, error, parse_row}
use when_i_off.Csv.Row.Laws.{IsRow, parse_row-IsRow}
use when_i_off.Csv.File.{
  in_row, parsed, failed, Scan, finish, count_blank, scan, clean, is_header, parse_schedule_csv,
}
use when_i_off.Csv.File.Spec.{
  Line, all_rows, row_outcome, non_blank, drop_header, data_lines, read_lines, outcome_of,
}

pub RowResult-cases :
    (r : RowResult)
    → ((s : ScheduleRow) × (r ≡ row s)) ⊎ ((n : ℕ) × (p : RowProblem) × (r ≡ error n p))
RowResult-cases (row s) = inl (s, refl)
RowResult-cases (error n p) = inr (n, p, refl)

abbrev pub state : List ScheduleRow → Bool → Bool → ℕ → Scan
state acc first h b = record {
  rows = acc;
  at_first_line = first;
  header_skipped = h;
  blank_lines = b;
}

module _ (u : Unicode) (i : ℕ) (acc : List ScheduleRow) (h : Bool) (b : ℕ) (raw : Str)
    (rest : List Str) where
  pub scan_blank :
      (first : Bool)
      → str_eq (clean u raw) [] ≡ true
      → scan u i (state acc first h b) (raw ∷ rest)
        ≡ scan u (i + 1) (state acc first h (count_blank rest b)) rest
  unfolding scan
  scan_blank first e = rw e

  pub scan_header :
      str_eq (clean u raw) [] ≡ false
      → is_header u (clean u raw) ≡ true
      → scan u i (state acc true h b) (raw ∷ rest) ≡ scan u (i + 1) (state acc false true b) rest
  unfolding scan
  scan_header e f = rw (e, f)

  pub scan_row :
      (first : Bool) (r : ScheduleRow)
      → str_eq (clean u raw) [] ≡ false
      → (first && is_header u (clean u raw)) ≡ false
      → parse_row u (i + 1) (clean u raw) ≡ row r
      → scan u i (state acc first h b) (raw ∷ rest)
        ≡ scan u (i + 1) (state (acc ++ r ∷ []) false h b) rest
  unfolding scan
  scan_row first r e f g = rw (e, f, g)

  pub scan_error :
      (first : Bool) (n : ℕ) (p : RowProblem)
      → str_eq (clean u raw) [] ≡ false
      → (first && is_header u (clean u raw)) ≡ false
      → parse_row u (i + 1) (clean u raw) ≡ error n p
      → scan u i (state acc first h b) (raw ∷ rest) ≡ failed (in_row n p raw)
  unfolding scan
  scan_error first n p e f g = rw (e, f, g)

pub scan_end :
    (u : Unicode) (i : ℕ) (acc : List ScheduleRow) (first h : Bool) (b : ℕ)
    → scan u i (state acc first h b) [] ≡ finish acc h b
unfolding scan
scan_end u i acc first h b = refl

finish-outcome :
    (acc : List ScheduleRow) (h : Bool) (b : ℕ) → outcome_of (finish acc h b) ≡ row_outcome acc
unfolding finish
finish-outcome [] h b = refl
finish-outcome (r ∷ rs) h b = refl

module _ (u : Unicode) where
  -- a line that holds data: its row goes on, or its problem is the answer
  data_step :
      (i : ℕ) (acc : List ScheduleRow) (first h : Bool) (b : ℕ) (raw : Str) (rest : List Str)
      → ((acc' : List ScheduleRow)
          → outcome_of (scan u (i + 1) (state acc' false h b) rest)
            ≡ read_lines u acc' (non_blank u (i + 1) rest))
      → str_eq (clean u raw) [] ≡ false
      → (first && is_header u (clean u raw)) ≡ false
      → outcome_of (scan u i (state acc first h b) (raw ∷ rest))
        ≡ read_lines u acc (record { number = i + 1; raw = raw } ∷ non_blank u (i + 1) rest)
  data_step i acc first h b raw rest ih e f =
      elim (RowResult-cases (parse_row u (i + 1) (clean u raw))) [
        | inl (r, g) ↦
            rw (scan_row u i acc h b raw rest first r e f g, g, read_lines) (ih (acc ++ r ∷ []))
        | inr (n, p, g) ↦ rw (scan_error u i acc h b raw rest first n p e f g, g, read_lines)
      ]

  scan-outcome_later :
      (i : ℕ) (acc : List ScheduleRow) (h : Bool) (b : ℕ) (lines : List Str)
      → outcome_of (scan u i (state acc false h b) lines) ≡ read_lines u acc (non_blank u i lines)
  scan-outcome_later i acc h b [] = rw (scan_end u i acc false h b) (finish-outcome acc h b)
  scan-outcome_later i acc h b (raw ∷ rest) = elim (Bool-cases (str_eq (clean u raw) [])) [
    | inl e ↦
        rw (scan_blank u i acc h b raw rest false e, e)
          (scan-outcome_later (i + 1) acc h (count_blank rest b) rest)
    | inr e ↦ rw e (
        data_step i acc false h b raw rest (λ acc'. scan-outcome_later (i + 1) acc' h b rest) e
          refl)
  ]

  scan-outcome :
      (i : ℕ) (acc : List ScheduleRow) (h : Bool) (b : ℕ) (lines : List Str)
      → outcome_of (scan u i (state acc true h b) lines)
        ≡ read_lines u acc (drop_header u (non_blank u i lines))
  scan-outcome i acc h b [] = rw (scan_end u i acc true h b) (finish-outcome acc h b)
  scan-outcome i acc h b (raw ∷ rest) = elim (Bool-cases (str_eq (clean u raw) [])) [
    | inl e ↦
        rw (scan_blank u i acc h b raw rest true e, e)
          (scan-outcome (i + 1) acc h (count_blank rest b) rest)
    | inr e ↦ elim (Bool-cases (is_header u (clean u raw))) [
      | inl f ↦
          rw (scan_header u i acc h b raw rest e f, e, f)
            (scan-outcome_later (i + 1) acc true b rest)
      | inr f ↦
          rw (e, f)
            (data_step i acc true h b raw rest (λ acc'. scan-outcome_later (i + 1) acc' h b rest) e
              f)
    ]
  ]

  pub parse_schedule_csv_lem :
      (content : Str)
      → parse_schedule_csv u content ≡ scan u 0 (state [] true false 0) (split_lines content)
  unfolding parse_schedule_csv
  parse_schedule_csv_lem content = refl

  -- The loop reads exactly the data lines of the file, in order, and stops at the first that cannot be
  -- read; with no data line left it reports that.
  pub parse_schedule_csv-read_lines :
      (content : Str)
      → outcome_of (parse_schedule_csv u content) ≡ read_lines u [] (data_lines u content)
  parse_schedule_csv-read_lines content =
      rw parse_schedule_csv_lem (scan-outcome 0 [] false 0 (split_lines content))

-- what a list of data lines gives, when it gives rows
module _ (u : Unicode) where
  read_lines-IsRow :
      (acc : List ScheduleRow) (ls : List Line) (rs : List ScheduleRow)
      → All IsRow acc
      → read_lines u acc ls ≡ all_rows rs
      → All IsRow rs
        × (rs ≢ [])
        × (map (λ (r : ScheduleRow). r.number) rs
            ≡ map (λ (r : ScheduleRow). r.number) acc ++ map (λ (l : Line). l.number) ls)
  read_lines-IsRow [] [] rs ok h = absurd (cc)
  read_lines-IsRow (r ∷ acc) [] rs ok h =
      let e : r ∷ acc ≡ rs = cc in rw (← e, append-nil) (ok, (λ z. (cc)), refl)
  read_lines-IsRow acc (l ∷ ls) rs ok h =
      elim (RowResult-cases (parse_row u l.number (clean u l.raw))) [
        | inr (n, p, g) ↦ absurd (let k = rw (g, read_lines) at h in cc)
        | inl (r, g) ↦
            let (valid, number) = parse_row-IsRow u l.number (clean u l.raw) r g in
            let (p, q, s) =
              read_lines-IsRow (acc ++ r ∷ []) ls rs (All-append IsRow acc (r ∷ []) ok (valid, tt))
                (rw (g, read_lines) at h) in
            (p, q, s ∙ rw (map-append, number, append_assoc))
      ]

  -- Every row of an accepted file is well formed, there is at least one, and the rows bear the numbers
  -- of the file's data lines, in order.
  pub parse_schedule_csv-IsRow :
      (content : Str) (rows : List ScheduleRow) (header : Bool) (blank : ℕ)
      → parse_schedule_csv u content ≡ parsed rows header blank
      → All IsRow rows
        × (rows ≢ [])
        × (map (λ (r : ScheduleRow). r.number) rows
            ≡ map (λ (l : Line). l.number) (data_lines u content))
  parse_schedule_csv-IsRow content rows header blank h =
      read_lines-IsRow [] (data_lines u content) rows tt
        (sym (parse_schedule_csv-read_lines u content) ∙ ap outcome_of h)
