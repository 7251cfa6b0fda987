-- ===== src/Csv/Summary/Groups.antt =====
-- One group for each combination of line, stop, day type and direction, which holds the rows of that
-- combination and no others.
use when_i_off.Prelude.{
  Str, str_eq, str_eq_iff, ℕ, ◌+◌, ◌≡◌, refl, Bool, true, false, ◌&&◌, List, [], ◌∷◌, if◌then◌else◌,
  Bool-cases, inl, inr, arith, All, count, ◌∙◌, sym,
}
use when_i_off.Api.{DayType, day_eq, day_eq_iff}
use when_i_off.Csv.Row.{ScheduleRow}
use when_i_off.Csv.Summary.{
  Group, same_group, new_group, add_to_group, add_row, add_rows, groups_of, total, summarize,
}

pub record Key : Type 0 where
  pub line_id : Str
  pub stop_id : Str
  pub day_type : DayType
  pub direction_code : Str

abbrev pub group_key : Group → Key
group_key g = record {
  line_id = g.line_id;
  stop_id = g.stop_id;
  day_type = g.day_type;
  direction_code = g.direction_code;
}

abbrev pub row_key : ScheduleRow → Key
row_key r = record {
  line_id = r.line_id;
  stop_id = r.stop_id;
  day_type = r.day_type;
  direction_code = r.direction_code;
}

unfoldable pub key_eq : Key → Key → Bool
key_eq a b =
    str_eq a.line_id b.line_id
    && str_eq a.stop_id b.stop_id
    && day_eq a.day_type b.day_type
    && str_eq a.direction_code b.direction_code

key_eq→eq : (a b : Key) → key_eq a b ≡ true → a ≡ b
unfolding key_eq
key_eq→eq a b h = ground (
  arith,
  str_eq_iff a.line_id b.line_id,
  str_eq_iff a.stop_id b.stop_id,
  day_eq_iff a.day_type b.day_type,
  str_eq_iff a.direction_code b.direction_code,
)

same_group_lem : (g : Group) (r : ScheduleRow) → same_group g r ≡ key_eq (group_key g) (row_key r)
unfolding same_group key_eq
same_group_lem g r = refl

key-add_to_group : (g : Group) (r : ScheduleRow) → group_key (add_to_group g r) ≡ group_key g
unfolding add_to_group
key-add_to_group g r = refl

rows-add_to_group : (g : Group) (r : ScheduleRow) → (add_to_group g r).rows ≡ g.rows + 1
unfolding add_to_group
rows-add_to_group g r = refl

key-new_group : (r : ScheduleRow) → group_key (new_group r) ≡ row_key r
unfolding new_group
key-new_group r = refl

-- the rows counted by the groups of a key
abbrev pub rows_at : Key → List Group → ℕ
rows_at k gs = total (λ g. if key_eq (group_key g) k then g.rows else 0) gs

abbrev one_if : Bool → ℕ
one_if b = if b then 1 else 0

rows_at-add_row :
    (k : Key) (gs : List Group) (r : ScheduleRow)
    → rows_at k (add_row gs r) ≡ rows_at k gs + one_if (key_eq (row_key r) k)
unfolding add_row
rows_at-add_row k [] r = unfold new_group add_to_group in ground arith
rows_at-add_row k (g ∷ gs) r = elim (Bool-cases (same_group g r)) [
  | inl e ↦
      let same = key_eq→eq (group_key g) (row_key r) (sym (same_group_lem g r) ∙ e) in
      rw (e, key-add_to_group, rows-add_to_group) (rw (← same) (ground arith))
  | inr e ↦ rw e (omega (arith, rows_at-add_row k gs r))
]

rows_at-add_rows :
    (k : Key) (gs : List Group) (rows : List ScheduleRow)
    → rows_at k (add_rows gs rows) ≡ rows_at k gs + count (λ r. key_eq (row_key r) k) rows
unfolding add_rows
rows_at-add_rows k gs [] = omega arith
rows_at-add_rows k gs (r ∷ rows) =
    omega (arith, rows_at-add_rows k (add_row gs r) rows, rows_at-add_row k gs r)

abbrev pub Differs : Group → Group → Type 0
Differs g h = key_eq (group_key g) (group_key h) ≡ false

-- no two groups have one key
abbrev pub AreDistinct : List Group → Type 0
AreDistinct [] = Unit
AreDistinct (g ∷ gs) = All (Differs g) gs × AreDistinct gs

add_row-Differs :
    (g : Group) (gs : List Group) (r : ScheduleRow)
    → same_group g r ≡ false
    → All (Differs g) gs
    → All (Differs g) (add_row gs r)
unfolding add_row
add_row-Differs g [] r e h = (unfold new_group add_to_group in (sym (same_group_lem g r) ∙ e), tt)
add_row-Differs g (h ∷ gs) r e (p, q) = elim (Bool-cases (same_group h r)) [
  | inl f ↦ rw f (unfold add_to_group in (p, q))
  | inr f ↦ rw f (p, add_row-Differs g gs r e q)
]

add_row-AreDistinct :
    (gs : List Group) (r : ScheduleRow) → AreDistinct gs → AreDistinct (add_row gs r)
unfolding add_row
add_row-AreDistinct [] r h = (tt, tt)
add_row-AreDistinct (g ∷ gs) r (p, h) = elim (Bool-cases (same_group g r)) [
  | inl e ↦ rw e (unfold add_to_group in (p, h))
  | inr e ↦ rw e (add_row-Differs g gs r e p, add_row-AreDistinct gs r h)
]

add_rows-AreDistinct :
    (gs : List Group) (rows : List ScheduleRow) → AreDistinct gs → AreDistinct (add_rows gs rows)
unfolding add_rows
add_rows-AreDistinct gs [] h = h
add_rows-AreDistinct gs (r ∷ rows) h =
    add_rows-AreDistinct (add_row gs r) rows (add_row-AreDistinct gs r h)

-- The groups of the preview have different keys, and the rows that the groups of a key count are the
-- rows of the file with that key.
pub summarize-groups :
    (rows : List ScheduleRow) (k : Key)
    → AreDistinct (summarize rows).groups
      × (rows_at k (summarize rows).groups ≡ count (λ r. key_eq (row_key r) k) rows)
unfolding summarize groups_of
summarize-groups rows k =
    (add_rows-AreDistinct [] rows tt, omega (arith, rows_at-add_rows k [] rows))
