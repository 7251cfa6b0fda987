-- ===== src/Recommendations/Ends.antt =====
-- history.ts `lastIndexWithValue`, `lastActualPoint` and `seriesEnds`: the points of the charts that carry a label.
use when_i_off.Prelude.{
  Str, codes, ℕ, zero, suc, ◌+◌, ◌≤◌, ◌≡◌, Bool, true, false, List, [], ◌∷◌, ◌++◌, Option, none,
  some, if◌then◌else◌, ltb, length, get_elem?,
}
use when_i_off.Prelude.Decimal.{decimal}
use when_i_off.Prelude.Number.{Number}

-- A row of a chart: the number that it has at a key, if it is one.
abbrev pub ChartRow : Type 0
ChartRow = Str → Option Number

pub record Point : Type 0 where
  pub index : ℕ
  pub key : Str

pub record SeriesEnd : Type 0 where
  pub key : Str
  pub index : ℕ
  pub value : Number

abbrev pub value_at : Str → Option ChartRow → Option Number
value_at key none = none
value_at key (some row) = row key

abbrev pub is_number : Option Number → Bool
is_number none = false
is_number (some x) = true

abbrev pub has_value : List ChartRow → ℕ → Str → Bool
has_value rows i key = is_number (value_at key (get_elem? rows i))

-- the loop from the end, over the rows before place `n`
pub last_before : ℕ → List ChartRow → Str → Option ℕ
last_before zero rows key = none
last_before (suc i) rows key =
    let rest = last_before i rows key in if has_value rows i key then some i else rest

-- `none` for -1
unfoldable pub last_index_with_value : List ChartRow → Str → Option ℕ
unfolding last_before
last_index_with_value rows key = last_before (length rows) rows key

unfoldable pub actual_key : ℕ → Str
actual_key i = codes "actual" ++ decimal i

abbrev pub is_better : ℕ → Option Point → Bool
is_better index none = true
is_better index (some best) = ltb best.index index

abbrev pub point_or : Option ℕ → Str → Option Point → Option Point
point_or none key best = best
point_or (some index) key best =
    if is_better index best then some (record { index = index; key = key }) else best

-- `n` turns of the loop, from the series `i` on
pub points : List ChartRow → ℕ → ℕ → Option Point → Option Point
unfolding last_index_with_value actual_key
points rows zero i best = best
points rows (suc n) i best =
    points rows n (i + 1) (point_or (last_index_with_value rows (actual_key i)) (actual_key i) best)

unfoldable pub last_actual_point : List ChartRow → ℕ → Option Point
unfolding points
last_actual_point rows max_trips = points rows max_trips 0 none

abbrev pub end_if : Str → Option ℕ → List ChartRow → List SeriesEnd
end_if key none rows = []
end_if key (some index) rows = elim (value_at key (get_elem? rows index)) [
  | none ↦ []
  | some value ↦ record { key = key; index = index; value = value } ∷ []
]

unfoldable pub series_ends : List ChartRow → List Str → List SeriesEnd
unfolding last_index_with_value
series_ends rows [] = []
series_ends rows (key ∷ keys) =
    end_if key (last_index_with_value rows key) rows ++ series_ends rows keys

module _ (rows : List ChartRow) where
  -- The point has a value.
  IsPoint : Option Point → Type 0
  IsPoint none = Unit
  IsPoint (some p) = has_value rows p.index p.key ≡ true

  -- There is a point with a value, in row `j` or behind it.
  pub Reaches : ℕ → Option Point → Type 0
  Reaches j best =
      (p : Point) × (best ≡ some p) × (j ≤ p.index) × (has_value rows p.index p.key ≡ true)
