-- ===== src/Csv/Summary.antt =====
-- csv.ts `countBy`, `sortable` and `summarize`: the numbers of the preview. A `Map` keeps its entries in
-- the order in which their keys came; the groups' key, a JSON text of four strings, is compared by those
-- four, and a `Set` of times is a list without repeats.
pub mod Laws
pub mod Groups
use when_i_off.Prelude.{
  Str, codes, str_eq, ℕ, zero, suc, ◌+◌, ◌≡◌, Bool, true, false, ◌&&◌, ◌||◌, List, [], ◌∷◌, ◌++◌,
  map, if◌then◌else◌, ltb, leb, ◌==◌, any, length,
}
use when_i_off.Prelude.Sort.{sort}
use when_i_off.Api.{DayType, weekday, saturday, sunday_holiday, day_name, day_eq, day_index}
use when_i_off.Csv.Row.{ScheduleRow}

pub record Count : Type 0 where
  pub key : Str
  pub count : ℕ

-- `counts.set(k, (counts.get(k) ?? 0) + 1)`
unfoldable pub bump : Str → List Count → List Count
bump k [] = record { key = k; count = 1 } ∷ []
bump k (c ∷ cs) = if str_eq c.key k then record c { count = c.count + 1 } ∷ cs else c ∷ bump k cs

pub bump_all : (ScheduleRow → Str) → List Count → List ScheduleRow → List Count
bump_all key counts [] = counts
bump_all key counts (r ∷ rows) = bump_all key (bump (key r) counts) rows

unfoldable pub count_by : List ScheduleRow → (ScheduleRow → Str) → List Count
unfolding bump_all bump
count_by rows key = bump_all key [] rows

-- `t.length === 5 ? `${t}:00` : t`
unfoldable pub sortable : Str → Str
sortable t = if length t == 5 then t ++ codes ":00" else t

-- `s < t` on texts: by the first code unit that differs
unfoldable pub str_ltb : Str → Str → Bool
str_ltb s [] = false
str_ltb [] (d ∷ t) = true
str_ltb (c ∷ s) (d ∷ t) = ltb c d || ((c == d) && str_ltb s t)

-- `ReplaceGroup`, without `departures`, and the set of its times.
pub record Group : Type 0 where
  pub line_id : Str
  pub stop_id : Str
  pub day_type : DayType
  pub direction_code : Str
  pub rows : ℕ
  pub duplicates : ℕ
  pub first : Str
  pub last : Str
  pub times : List Str

unfoldable pub same_group : Group → ScheduleRow → Bool
same_group g r =
    str_eq g.line_id r.line_id
    && str_eq g.stop_id r.stop_id
    && day_eq g.day_type r.day_type
    && str_eq g.direction_code r.direction_code

unfoldable pub new_group : ScheduleRow → Group
new_group r = record {
  line_id = r.line_id;
  stop_id = r.stop_id;
  day_type = r.day_type;
  direction_code = r.direction_code;
  rows = 0;
  duplicates = 0;
  first = r.scheduled_time;
  last = r.scheduled_time;
  times = [];
}

-- the body of the loop once the group is at hand
unfoldable pub add_to_group : Group → ScheduleRow → Group
unfolding sortable str_ltb
add_to_group g r =
    let t = r.scheduled_time in
    let seen = any (λ x. str_eq x t) g.times in
    record g {
      rows = g.rows + 1;
      duplicates = if seen then g.duplicates + 1 else g.duplicates;
      times = if seen then g.times else g.times ++ t ∷ [];
      first = if str_ltb (sortable t) (sortable g.first) then t else g.first;
      last = if str_ltb (sortable g.last) (sortable t) then t else g.last;
    }

unfoldable pub add_row : List Group → ScheduleRow → List Group
unfolding same_group new_group add_to_group
add_row [] r = add_to_group (new_group r) r ∷ []
add_row (g ∷ gs) r = if same_group g r then add_to_group g r ∷ gs else g ∷ add_row gs r

pub add_rows : List Group → List ScheduleRow → List Group
add_rows gs [] = gs
add_rows gs (r ∷ rows) = add_rows (add_row gs r) rows

unfoldable pub groups_of : List ScheduleRow → List Group
unfolding add_rows add_row
groups_of rows = add_rows [] rows

-- `times.size`
abbrev pub departures : Group → ℕ
departures g = length g.times

-- `list.reduce((n, g) => n + f(g), 0)`
abbrev pub total : (Group → ℕ) → List Group → ℕ
total f [] = 0
total f (g ∷ gs) = f g + total f gs

-- `DAY_TYPES.indexOf(a.key)`, -1 put behind by one
abbrev pub key_index : Str → ℕ
key_index k =
    if str_eq k (day_name weekday)
    then 1
    else if str_eq k (day_name saturday)
    then 2
    else if str_eq k (day_name sunday_holiday)
    then 3
    else 0

pub record ScheduleSummary : Type 0 where
  pub rows : ℕ
  pub departures : ℕ
  pub duplicates : ℕ
  pub by_line : List Count
  pub by_stop : List Count
  pub by_direction : List Count
  pub by_day_type : List Count
  pub groups : List Group

unfoldable pub summarize : List ScheduleRow → ScheduleSummary
unfolding groups_of count_by sort
summarize rows =
    let list = groups_of rows in
    record {
      rows = length rows;
      departures = total departures list;
      duplicates = total (λ g. g.duplicates) list;
      by_line = count_by rows (λ r. r.line_id);
      by_stop = count_by rows (λ r. r.stop_id);
      by_direction = count_by rows (λ r. r.direction_code);
      by_day_type =
          sort (λ a b. leb (key_index a.key) (key_index b.key))
            (count_by rows (λ r. day_name r.day_type));
      groups = list;
    }
