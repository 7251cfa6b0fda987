-- ===== src/Csv/File/Counts.antt =====
-- The counts of an accepted file: every line is a row, the header, a counted blank line, or the empty
-- piece behind the last line break.
use when_i_off.Prelude.{
  Str, str_eq, ℕ, ◌+◌, ◌≡◌, refl, Bool, true, false, List, [], ◌∷◌, ◌++◌, if◌then◌else◌, Bool-cases,
  inl, inr, arith, length, length-append,
}
use when_i_off.Csv.Unicode.{Unicode, split_lines}
use when_i_off.Csv.Row.{ScheduleRow, parse_row}
use when_i_off.Csv.File.{parsed, count_blank, finish, scan, clean, is_header, parse_schedule_csv}
use when_i_off.Csv.File.Laws.{
  state, RowResult-cases, scan_blank, scan_header, scan_row, scan_error, scan_end,
  parse_schedule_csv_lem,
}

abbrev pub one_if : Bool → ℕ
one_if b = if b then 1 else 0

module _ (u : Unicode) where
  -- 1 if the last piece is blank
  abbrev pub blank_at_end : List Str → ℕ
  blank_at_end [] = 0
  blank_at_end (raw ∷ []) = one_if (str_eq (clean u raw) [])
  blank_at_end (raw ∷ next ∷ rest) = blank_at_end (next ∷ rest)

  count_blank_end :
      (raw : Str) (rest : List Str) (b : ℕ)
      → str_eq (clean u raw) [] ≡ true
      → count_blank rest b + blank_at_end (raw ∷ rest) ≡ b + 1 + blank_at_end rest
  unfolding count_blank
  count_blank_end raw [] b e = rw e (omega arith)
  count_blank_end raw (next ∷ rest) b e = omega arith

  filled_end :
      (raw : Str) (rest : List Str)
      → str_eq (clean u raw) [] ≡ false
      → blank_at_end (raw ∷ rest) ≡ blank_at_end rest
  filled_end raw [] e = rw e (omega arith)
  filled_end raw (next ∷ rest) e = omega arith

  finish_counts :
      (acc rs : List ScheduleRow) (h h' : Bool) (b b' : ℕ)
      → finish acc h b ≡ parsed rs h' b'
      → length rs + b' + one_if h' ≡ length acc + b + one_if h
  unfolding finish
  finish_counts [] rs h h' b b' e = absurd (cc)
  finish_counts (r ∷ acc) rs h h' b b' e = ground arith

  abbrev Counts : ℕ → List ScheduleRow → Bool → Bool → ℕ → List Str → Type 0
  Counts i acc first h b lines =
      (rs : List ScheduleRow) (h' : Bool) (b' : ℕ)
      → scan u i (state acc first h b) lines ≡ parsed rs h' b'
      → length rs + b' + one_if h' + blank_at_end lines ≡ length lines + length acc + b + one_if h

  data-Counts :
      (i : ℕ) (acc : List ScheduleRow) (first h : Bool) (b : ℕ) (raw : Str) (rest : List Str)
      → ((acc' : List ScheduleRow) → Counts (i + 1) acc' false h b rest)
      → str_eq (clean u raw) [] ≡ false
      → (if first then is_header u (clean u raw) else false) ≡ false
      → Counts i acc first h b (raw ∷ rest)
  data-Counts i acc first h b raw rest ih e f rs h' b' k =
      elim (RowResult-cases (parse_row u (i + 1) (clean u raw))) [
        | inr (n, p, g) ↦
            absurd
              (let m = rw (scan_error u i acc h b raw rest first n p e (ground arith) g) at k in cc)
        | inl (r, g) ↦
            let m = rw (scan_row u i acc h b raw rest first r e (ground arith) g) at k in
            omega (
              arith,
              ih (acc ++ r ∷ []) rs h' b' m,
              length-append acc (r ∷ []),
              filled_end raw rest e,
            )
      ]

  scan-Counts_later :
      (lines : List Str) (i : ℕ) (acc : List ScheduleRow) (h : Bool) (b : ℕ)
      → Counts i acc false h b lines
  scan-Counts_later [] i acc h b rs h' b' k =
      omega (arith, finish_counts acc rs h h' b b' (rw (scan_end u i acc false h b) at k))
  scan-Counts_later (raw ∷ rest) i acc h b rs h' b' k =
      elim (Bool-cases (str_eq (clean u raw) [])) [
        | inl e ↦
            let m = rw (scan_blank u i acc h b raw rest false e) at k in
            omega (
              arith,
              scan-Counts_later rest (i + 1) acc h (count_blank rest b) rs h' b' m,
              count_blank_end raw rest b e,
            )
        | inr e ↦
            data-Counts i acc false h b raw rest (λ acc'. scan-Counts_later rest (i + 1) acc' h b) e
              refl rs h' b' k
      ]

  scan-Counts :
      (lines : List Str) (i : ℕ) (acc : List ScheduleRow) (b : ℕ) → Counts i acc true false b lines
  scan-Counts [] i acc b rs h' b' k =
      omega (arith, finish_counts acc rs false h' b b' (rw (scan_end u i acc true false b) at k))
  scan-Counts (raw ∷ rest) i acc b rs h' b' k = elim (Bool-cases (str_eq (clean u raw) [])) [
    | inl e ↦
        let m = rw (scan_blank u i acc false b raw rest true e) at k in
        omega (
          arith,
          scan-Counts rest (i + 1) acc (count_blank rest b) rs h' b' m,
          count_blank_end raw rest b e,
        )
    | inr e ↦ elim (Bool-cases (is_header u (clean u raw))) [
      | inl f ↦
          let m = rw (scan_header u i acc false b raw rest e f) at k in
          omega (arith, scan-Counts_later rest (i + 1) acc true b rs h' b' m, filled_end raw rest e)
      | inr f ↦
          data-Counts i acc true false b raw rest
            (λ acc'. scan-Counts_later rest (i + 1) acc' false b) e f rs h' b' k
    ]
  ]

  -- In an accepted file the rows, the blank lines that are counted, the header if one was skipped and the
  -- blank piece at the end if there is one add up to the lines of the file.
  pub parse_schedule_csv_counts :
      (content : Str) (rows : List ScheduleRow) (header : Bool) (blank : ℕ)
      → parse_schedule_csv u content ≡ parsed rows header blank
      → length rows + blank + one_if header + blank_at_end (split_lines content)
        ≡ length (split_lines content)
  parse_schedule_csv_counts content rows header blank k = omega (
    arith,
    scan-Counts (split_lines content) 0 [] 0 rows header blank (rw parse_schedule_csv_lem at k),
  )
