-- ===== src/Recommendations.antt =====
-- desktop/src/recommendations/history.ts: recommendations against what happened, day by day. `parse` is
-- Date.parse, without a value for NaN; the two orders of localeCompare are parameters: `newer a b` is
-- `compareVersions(a, b) > 0`, and `date_le a b` is `a.localeCompare(b) <= 0`.
pub mod Reference
pub mod Ends
pub mod Slots
pub mod Table
use when_i_off.Prelude.{
  Str, str_eq, ℕ, zero, suc, ◌+◌, ◌≡◌, Bool, true, false, ◌&&◌, ◌||◌, not, List, [], ◌∷◌, ◌++◌, map,
  Option, none, some, if◌then◌else◌,
}
use when_i_off.Prelude.Int.{ℤ, ltb_ℤ}
use when_i_off.Prelude.Number.{Number, of_ℕ, num_lt}
use when_i_off.Trips.{seconds_between, seconds_if}

pub record DepartureRecommendation : Type 0 where
  pub model_version : Str
  pub computed_at : Str
  pub recommended_leave_home_at : Str
  pub target_arrival_at : Str

pub record HistoryTrip : Type 0 where
  pub trip_id : ℕ
  pub left_home_at : Option Str
  pub arrived_destination_at : Option Str

pub record HistoryDay : Type 0 where
  pub date : Str
  pub recommendations : List DepartureRecommendation
  pub trips : List HistoryTrip

pub record Arrival : Type 0 where
  pub diff_sec : Number
  pub late : Bool

unfoldable pub arrival_of : Option Number → Option Arrival
arrival_of none = none
arrival_of (some sec) = some (record { diff_sec = sec; late = num_lt (of_ℕ 0) sec })

unfoldable pub leave_diff_sec :
    (Str → Option ℤ) → HistoryTrip → DepartureRecommendation → Option Number
unfolding seconds_between
leave_diff_sec parse trip recommendation = elim trip.left_home_at [
  | none ↦ none
  | some [] ↦ none
  | some (c ∷ s) ↦ some (seconds_between parse (c ∷ s) recommendation.recommended_leave_home_at)
]

unfoldable pub arrival_against_target : (Str → Option ℤ) → HistoryTrip → Option Str → Option Arrival
unfolding arrival_of seconds_if
arrival_against_target parse trip target =
    arrival_of (seconds_if parse trip.arrived_destination_at target)

-- `Date.parse(a) > Date.parse(b)`
abbrev pub later : Option ℤ → Option ℤ → Bool
later (some a) (some b) = ltb_ℤ b a
later _ _ = false

abbrev pub replaces :
    (Str → Option ℤ) → (Str → Str → Bool) → DepartureRecommendation → DepartureRecommendation → Bool
replaces parse newer r best =
    later (parse r.computed_at) (parse best.computed_at)
    || (str_eq r.computed_at best.computed_at && newer r.model_version best.model_version)

pub best_of :
    (Str → Option ℤ)
    → (Str → Str → Bool)
    → DepartureRecommendation
    → List DepartureRecommendation
    → DepartureRecommendation
best_of parse newer best [] = best
best_of parse newer best (r ∷ rs) =
    best_of parse newer (if replaces parse newer r best then r else best) rs

unfoldable pub reference_recommendation :
    (Str → Option ℤ)
    → (Str → Str → Bool)
    → List DepartureRecommendation
    → Option DepartureRecommendation
unfolding best_of
reference_recommendation parse newer [] = none
reference_recommendation parse newer (r ∷ rs) = some (best_of parse newer r rs)
