-- ===== src/Csv/Summary/Laws.antt =====
-- The numbers of the preview account for every row of the file.
use when_i_off.Prelude.{
  Str, ℕ, ◌+◌, ◌≡◌, refl, Bool, List, [], ◌∷◌, Bool-cases, inl, inr, arith, length, length-append,
  All, ◌∙◌,
}
use when_i_off.Prelude.Sort.{sort, insert}
use when_i_off.Csv.Row.{ScheduleRow}
use when_i_off.Csv.Summary.{
  Count, bump, bump_all, count_by, Group, same_group, new_group, add_to_group, add_row, add_rows,
  groups_of, departures, total, summarize,
}

abbrev pub counted : List Count → ℕ
counted [] = 0
counted (c ∷ cs) = c.count + counted cs

bump-counted : (k : Str) (cs : List Count) → counted (bump k cs) ≡ counted cs + 1
unfolding bump
bump-counted k [] = refl
bump-counted k (c ∷ cs) = ground (arith, bump-counted k cs)

bump_all-counted :
    (key : ScheduleRow → Str) (cs : List Count) (rows : List ScheduleRow)
    → counted (bump_all key cs rows) ≡ counted cs + length rows
unfolding bump_all
bump_all-counted key cs [] = omega arith
bump_all-counted key cs (r ∷ rows) =
    omega (arith, bump_all-counted key (bump (key r) cs) rows, bump-counted (key r) cs)

count_by-counted :
    (rows : List ScheduleRow) (key : ScheduleRow → Str) → counted (count_by rows key) ≡ length rows
unfolding count_by
count_by-counted rows key = omega (arith, bump_all-counted key [] rows)

-- a group's rows are its departures and its duplicates
abbrev IsBalanced : Group → Type 0
IsBalanced g = g.rows ≡ departures g + g.duplicates

add_to_group-IsBalanced :
    (g : Group) (r : ScheduleRow) → IsBalanced g → IsBalanced (add_to_group g r)
unfolding add_to_group
add_to_group-IsBalanced g r h = ground (arith, length-append g.times (r.scheduled_time ∷ []))

add_row-IsBalanced :
    (gs : List Group) (r : ScheduleRow) → All IsBalanced gs → All IsBalanced (add_row gs r)
unfolding add_row
add_row-IsBalanced [] r h = (add_to_group-IsBalanced (new_group r) r (unfold new_group in refl), tt)
add_row-IsBalanced (g ∷ gs) r (p, h) = elim (Bool-cases (same_group g r)) [
  | inl e ↦ rw e (add_to_group-IsBalanced g r p, h)
  | inr e ↦ rw e (p, add_row-IsBalanced gs r h)
]

add_rows-IsBalanced :
    (gs : List Group) (rows : List ScheduleRow)
    → All IsBalanced gs
    → All IsBalanced (add_rows gs rows)
unfolding add_rows
add_rows-IsBalanced gs [] h = h
add_rows-IsBalanced gs (r ∷ rows) h =
    add_rows-IsBalanced (add_row gs r) rows (add_row-IsBalanced gs r h)

total_rows-add_row :
    (gs : List Group) (r : ScheduleRow)
    → total (λ g. g.rows) (add_row gs r) ≡ total (λ g. g.rows) gs + 1
unfolding add_row
total_rows-add_row [] r = refl
total_rows-add_row (g ∷ gs) r = elim (Bool-cases (same_group g r)) [
  | inl e ↦ rw e (unfold add_to_group in omega arith)
  | inr e ↦ rw e (omega (arith, total_rows-add_row gs r))
]

total_rows-add_rows :
    (gs : List Group) (rows : List ScheduleRow)
    → total (λ g. g.rows) (add_rows gs rows) ≡ total (λ g. g.rows) gs + length rows
unfolding add_rows
total_rows-add_rows gs [] = omega arith
total_rows-add_rows gs (r ∷ rows) =
    omega (arith, total_rows-add_rows (add_row gs r) rows, total_rows-add_row gs r)

total_of_IsBalanced :
    (gs : List Group)
    → All IsBalanced gs
    → total departures gs + total (λ g. g.duplicates) gs ≡ total (λ g. g.rows) gs
total_of_IsBalanced [] h = omega arith
total_of_IsBalanced (g ∷ gs) (p, h) = omega (arith, total_of_IsBalanced gs h)

insert-counted :
    (le : Count → Count → Bool) (c : Count) (cs : List Count)
    → counted (insert le c cs) ≡ c.count + counted cs
unfolding insert
insert-counted le c [] = refl
insert-counted le c (d ∷ cs) = ground (arith, insert-counted le c cs)

sort-counted : (le : Count → Count → Bool) (cs : List Count) → counted (sort le cs) ≡ counted cs
unfolding sort
sort-counted le [] = refl
sort-counted le (c ∷ cs) = omega (arith, insert-counted le c (sort le cs), sort-counted le cs)

-- Every row of the file is counted once: as a departure or as a duplicate, in one group, and once in
-- each of the four breakdowns.
pub summarize_counts :
    (rows : List ScheduleRow)
    → let s = summarize rows in
      (s.rows ≡ length rows)
      × (s.departures + s.duplicates ≡ s.rows)
      × (total (λ g. g.rows) s.groups ≡ s.rows)
      × (counted s.by_line ≡ s.rows)
      × (counted s.by_stop ≡ s.rows)
      × (counted s.by_direction ≡ s.rows)
      × (counted s.by_day_type ≡ s.rows)
unfolding summarize groups_of
summarize_counts rows =
    let sum : total (λ g. g.rows) (add_rows [] rows) ≡ length rows =
      omega (arith, total_rows-add_rows [] rows) in
    (
      refl,
      total_of_IsBalanced (add_rows [] rows) (add_rows-IsBalanced [] rows tt) ∙ sum,
      sum,
      count_by-counted rows _,
      count_by-counted rows _,
      count_by-counted rows _,
      sort-counted _ _ ∙ count_by-counted rows _,
    )
