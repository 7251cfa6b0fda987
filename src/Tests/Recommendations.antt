-- ===== src/Tests/Recommendations.antt =====
-- One day of recommendations, the colours of three versions, and the table of two days.
use when_i_off.Prelude.{
  Str, codes, ◌≡◌, ◌≤◌, refl, Bool, true, List, [], ◌∷◌, map, Option, none, some, length, leb, ltb,
  arith,
}
use when_i_off.Prelude.Sort.{sort}
use when_i_off.Prelude.Int.{ℤ, pos}
use when_i_off.Prelude.Decimal.{number_of, number_from}
use when_i_off.Prelude.Text.{str_eq}
use when_i_off.Recommendations.{DepartureRecommendation, HistoryDay, reference_recommendation}
use when_i_off.Recommendations.Reference.{
  IsNewer, IsReference, reference_recommendation-IsReference,
}
use when_i_off.Recommendations.Slots.{
  SeriesSlot, series_2, series_3, other, SlotEntry, has_slot, users, version_slots,
  version_slots-users,
}
use when_i_off.Recommendations.Table.{
  line_of, all_lines, day_le, build_table_rows, build_table_rows-lines,
}

-- times by the number that they spell, versions by their length
abbrev clock : Str → Option ℤ
clock s = some (pos (number_of s))

abbrev longer : Str → Str → Bool
longer a b = ltb (length b) (length a)

longer-IsNewer : IsNewer longer
longer-IsNewer = record { irrefl = λ v. ground arith; trans = λ u v w h k. ground arith }

abbrev rec : Str → Str → DepartureRecommendation
rec version at = record {
  model_version = version;
  computed_at = at;
  recommended_leave_home_at = at;
  target_arrival_at = at;
}

abbrev recs : List DepartureRecommendation
recs =
    rec (codes "v10") (codes "7")
    ∷ rec (codes "v2") (codes "9")
    ∷ rec (codes "v10") (codes "9")
    ∷ []

last_and_newest : IsReference clock longer recs (reference_recommendation clock longer recs)
last_and_newest = reference_recommendation-IsReference clock longer longer-IsNewer recs

abbrev versions : List Str
versions = codes "v1" ∷ codes "v2" ∷ codes "v3" ∷ codes "beta" ∷ []

one_user :
    (users series_2 (version_slots versions) ≤ 1)
    × (has_slot (codes "beta") (version_slots versions) ≡ true)
unfolding str_eq
one_user = version_slots-users versions series_2 (codes "beta") refl refl

abbrev entry : Str → SeriesSlot → SlotEntry
entry v s = record { version = v; slot = s }

newest_coloured :
    version_slots versions
    ≡ entry (codes "v3") series_2
      ∷ entry (codes "v2") series_3
      ∷ entry (codes "v1") other
      ∷ entry (codes "beta") other
      ∷ []
unfolding version_slots number_from str_eq
newest_coloured = refl

abbrev days : List HistoryDay
days =
    record { date = codes "22"; recommendations = recs; trips = [] }
    ∷ record {
      date = codes "1";
      recommendations = [];
      trips = record { trip_id = 3; left_home_at = none; arrived_destination_at = none } ∷ [];
    }
    ∷ []

abbrev shorter : Str → Str → Bool
shorter a b = leb (length a) (length b)

two_lines :
    map line_of (build_table_rows clock longer shorter days)
    ≡ all_lines (sort (day_le clock longer shorter) days)
two_lines = build_table_rows-lines clock longer shorter days
