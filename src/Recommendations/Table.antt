-- ===== src/Recommendations/Table.antt =====
-- history.ts `buildTableRows`: a row for each trip of each day, or one for a day without a trip.
use when_i_off.Prelude.{
  Str, codes, ℕ, ◌+◌, ◌≡◌, refl, ap, Bool, not, List, [], ◌∷◌, ◌++◌, map, Option, none, some,
}
use when_i_off.Prelude.Sort.{sort}
use when_i_off.Prelude.Int.{ℤ}
use when_i_off.Prelude.Decimal.{decimal}
use when_i_off.Prelude.Number.{Number}
use when_i_off.Recommendations.{
  DepartureRecommendation, HistoryTrip, HistoryDay, Arrival, leave_diff_sec, arrival_against_target,
  reference_recommendation,
}

pub record LeaveDiff : Type 0 where
  pub model_version : Str
  pub sec : Option Number

pub record TableRow : Type 0 where
  pub key : Str
  pub date : Str
  pub trip_index : ℕ
  pub recommendations : List DepartureRecommendation
  pub target_arrival_at : Option Str
  pub trip : Option HistoryTrip
  pub leave_diffs : List LeaveDiff
  pub arrival : Option Arrival

-- `trip?.tripId ?? "none"`
abbrev pub trip_text : Option HistoryTrip → Str
trip_text none = codes "none"
trip_text (some trip) = decimal trip.trip_id

abbrev pub target_of : Option DepartureRecommendation → Option Str
target_of none = none
target_of (some r) = some r.target_arrival_at

-- the date, the place in the day and the trip of every row
pub record Line : Type 0 where
  pub date : Str
  pub place : ℕ
  pub trip : Option HistoryTrip

abbrev pub line_of : TableRow → Line
line_of row = record { date = row.date; place = row.trip_index; trip = row.trip }

-- what the days ask for: their trips, numbered from 0, or one line without a trip
abbrev pub numbered_lines : Str → ℕ → List HistoryTrip → List Line
numbered_lines date i [] = []
numbered_lines date i (trip ∷ trips) =
    record { date = date; place = i; trip = some trip } ∷ numbered_lines date (i + 1) trips

abbrev pub day_lines : Str → List HistoryTrip → List Line
day_lines date [] = record { date = date; place = 0; trip = none } ∷ []
day_lines date (trip ∷ trips) = numbered_lines date 0 (trip ∷ trips)

abbrev pub all_lines : List HistoryDay → List Line
all_lines [] = []
all_lines (day ∷ days) = day_lines day.date day.trips ++ all_lines days

module _ (parse : Str → Option ℤ) (newer date_le : Str → Str → Bool) where
  abbrev pub diff_if : Option HistoryTrip → DepartureRecommendation → LeaveDiff
  diff_if none r = record { model_version = r.model_version; sec = none }
  diff_if (some trip) r = record {
    model_version = r.model_version;
    sec = leave_diff_sec parse trip r;
  }

  abbrev pub arrival_if : Option HistoryTrip → Option Str → Option Arrival
  arrival_if none target = none
  arrival_if (some trip) target = arrival_against_target parse trip target

  -- the body of the inner loop
  abbrev pub table_row :
      Str → List DepartureRecommendation → Option Str → Option HistoryTrip → ℕ → TableRow
  table_row date recommendations target trip trip_index = record {
    key = date ++ codes "-" ++ trip_text trip;
    date = date;
    trip_index = trip_index;
    recommendations = recommendations;
    target_arrival_at = target;
    trip = trip;
    leave_diffs = map (diff_if trip) recommendations;
    arrival = arrival_if trip target;
  }

  pub trip_rows :
      Str
      → List DepartureRecommendation
      → Option Str
      → ℕ
      → List (Option HistoryTrip)
      → List TableRow
  trip_rows date recommendations target i [] = []
  trip_rows date recommendations target i (trip ∷ trips) =
      table_row date recommendations target trip i
      ∷ trip_rows date recommendations target (i + 1) trips

  -- `day.trips.length > 0 ? day.trips : [null]`
  abbrev pub trips_or_null : List HistoryTrip → List (Option HistoryTrip)
  trips_or_null [] = none ∷ []
  trips_or_null (trip ∷ trips) = some trip ∷ map some trips

  abbrev pub version_le : DepartureRecommendation → DepartureRecommendation → Bool
  version_le a b = not (newer a.model_version b.model_version)

  -- the body of the outer loop
  pub day_rows : HistoryDay → List TableRow
  unfolding trip_rows
  day_rows day =
      let recommendations = sort version_le day.recommendations in
      trip_rows day.date recommendations
        (target_of (reference_recommendation parse newer recommendations)) 0
        (trips_or_null day.trips)

  pub all_rows : List HistoryDay → List TableRow
  all_rows [] = []
  all_rows (day ∷ days) = day_rows day ++ all_rows days

  abbrev pub day_le : HistoryDay → HistoryDay → Bool
  day_le a b = date_le a.date b.date

  unfoldable pub build_table_rows : List HistoryDay → List TableRow
  unfolding all_rows day_rows sort
  build_table_rows days = all_rows (sort day_le days)

  lines-trip_rows :
      (date : Str) (rs : List DepartureRecommendation) (target : Option Str) (i : ℕ)
      (trips : List HistoryTrip)
      → map line_of (trip_rows date rs target i (map some trips)) ≡ numbered_lines date i trips
  unfolding trip_rows
  lines-trip_rows date rs target i [] = refl
  lines-trip_rows date rs target i (trip ∷ trips) =
      ap (◌∷◌ (record { date = date; place = i; trip = some trip }))
        (lines-trip_rows date rs target (i + 1) trips)

  map_append : (xs ys : List TableRow) → map line_of (xs ++ ys) ≡ map line_of xs ++ map line_of ys
  map_append [] ys = refl
  map_append (x ∷ xs) ys = ap (◌∷◌ (line_of x)) (map_append xs ys)

  lines-trips :
      (date : Str) (rs : List DepartureRecommendation) (target : Option Str)
      (trips : List HistoryTrip)
      → map line_of (trip_rows date rs target 0 (trips_or_null trips)) ≡ day_lines date trips
  unfolding trip_rows
  lines-trips date rs target [] = refl
  lines-trips date rs target (trip ∷ trips) = lines-trip_rows date rs target 0 (trip ∷ trips)

  lines-day_rows : (day : HistoryDay) → map line_of (day_rows day) ≡ day_lines day.date day.trips
  unfolding day_rows
  lines-day_rows day = lines-trips day.date _ _ day.trips

  lines-all_rows : (days : List HistoryDay) → map line_of (all_rows days) ≡ all_lines days
  unfolding all_rows
  lines-all_rows [] = refl
  lines-all_rows (day ∷ days) =
      rw (map_append (day_rows day) (all_rows days), lines-day_rows day, lines-all_rows days) refl

  -- The table has, day by day in the order of their dates, a row for each trip of the day, numbered from 0,
  -- and a single row without a trip for a day that has none.
  pub build_table_rows-lines :
      (days : List HistoryDay) → map line_of (build_table_rows days) ≡ all_lines (sort day_le days)
  unfolding build_table_rows
  build_table_rows-lines days = lines-all_rows (sort day_le days)
