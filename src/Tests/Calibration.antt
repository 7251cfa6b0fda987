-- ===== src/Tests/Calibration.antt =====
-- Calibrated values with natural numbers in place of the doubles.
use when_i_off.Prelude.{
  ℕ, ◌+◌, ◌-◌, ◌*◌, ◌/◌, ◌≡◌, ◌↔◌, refl, List, [], ◌∷◌, Option, none, some, if◌then◌else◌, ltb,
}
use when_i_off.Calibration.{
  Doubles, Resolved, WalkingProfile, TravelTimeCalibrationRow, PredictionCalibrationRow, inherited,
  resolve_walking_speed, prediction_fallback, travel_time_fallback,
}
use when_i_off.Calibration.Chosen.{
  IsChosen, HasFew, samples, resolve_walking_speed-IsChosen, travel_time_fallback_iff,
}

abbrev whole : Doubles
whole = record {
  Double = ℕ;
  number = λ d k. d;
  of_count = λ n. n;
  add = λ a b. a + b;
  sub = λ a b. a - b;
  mul = λ a b. a * b;
  div = λ a b. a / b;
  square = λ a. a * a;
  sqrt = λ a. a;
  max = λ a b. if ltb a b then b else a;
}

abbrev of_leg : WalkingProfile whole
of_leg = record { avg_speed_mps = 2; stddev_speed_mps = 1; sample_count = 3 }

abbrev of_user : WalkingProfile whole
of_user = record { avg_speed_mps = 1; stddev_speed_mps = 9; sample_count = 40 }

abbrev user_speed : Resolved whole
user_speed = record {
  value = record { mean = 1; stddev = 9 };
  source = inherited;
  sample_count = 40;
}

user_chosen :
    IsChosen whole
      (some of_leg)
      (some of_user)
      10
      (resolve_walking_speed whole (some of_leg) (some of_user) 10)
user_chosen = resolve_walking_speed-IsChosen whole (some of_leg) (some of_user) 10

user_resolved : resolve_walking_speed whole (some of_leg) (some of_user) 10 ≡ user_speed
unfolding resolve_walking_speed
user_resolved = refl

abbrev two_rows : List (TravelTimeCalibrationRow whole)
two_rows =
    record { mean_sec = 600; stddev_sec = 30; sample_count = 4 }
    ∷ record { mean_sec = 700; stddev_sec = 10; sample_count = 2 }
    ∷ []

abbrev nothing_planned : Option ℕ
nothing_planned = none

too_few :
    (travel_time_fallback whole two_rows 10 nothing_planned ≡ none)
    ↔ ((nothing_planned ≡ none) × HasFew whole 10 (samples whole two_rows))
too_few = travel_time_fallback_iff whole two_rows 10 nothing_planned

abbrev one_prediction : List (PredictionCalibrationRow whole)
one_prediction = record { bias_sec = 20; stddev_sec = 5; sample_count = 12 } ∷ []

prediction_of_row : (prediction_fallback whole one_prediction 10).sample_count ≡ 12
unfolding prediction_fallback
prediction_of_row = refl
