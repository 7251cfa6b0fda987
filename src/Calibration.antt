-- ===== src/Calibration.antt =====
-- desktop/src/calibration/chain.ts: which calibrated value the recommendation uses, and the pooled statistics.
-- Its doubles are the values of a parameter, with the operations that the code calls.
pub mod Chosen
use when_i_off.Prelude.{
  ℕ, ◌+◌, ◌-◌, ◌≡◌, Bool, true, false, ◌&&◌, ◌||◌, not, List, [], ◌∷◌, Option, none, some,
  if◌then◌else◌, ltb, ◌==◌, map, filter,
}

pub record Doubles : Type 1 where
  pub Double : Type 0
  -- `number d k` is the literal with the digits `d`, `k` of them behind the point
  pub number : ℕ → ℕ → Double
  pub of_count : ℕ → Double
  pub add : Double → Double → Double
  pub sub : Double → Double → Double
  pub mul : Double → Double → Double
  pub div : Double → Double → Double
  pub square : Double → Double
  pub sqrt : Double → Double
  pub max : Double → Double → Double

-- `Source`
pub data Source : Type 0 where
  calibrated inherited default : Source

unfoldable pub is_low_sample : ℕ → ℕ → Bool
is_low_sample sample_count min_samples = ltb sample_count min_samples

module _ (f : Doubles) where
  open f use {Double, number, of_count, add, sub, mul, div, square, sqrt, max}

  pub record Normal : Type 0 where
    pub mean : Double
    pub stddev : Double

  pub record Resolved : Type 0 where
    pub value : Normal
    pub source : Source
    pub sample_count : ℕ

  pub record WalkingProfile : Type 0 where
    pub avg_speed_mps : Double
    pub stddev_speed_mps : Double
    pub sample_count : ℕ

  pub record PredictionCalibrationRow : Type 0 where
    pub bias_sec : Double
    pub stddev_sec : Double
    pub sample_count : ℕ

  pub record TravelTimeCalibrationRow : Type 0 where
    pub mean_sec : Double
    pub stddev_sec : Double
    pub sample_count : ℕ

  pub record SampleStats : Type 0 where
    pub count : ℕ
    pub mean : Double
    pub stddev : Double

  abbrev pub default_walking_speed : Normal
  default_walking_speed = record { mean = number 12 1; stddev = number 15 2 }

  abbrev pub default_prediction_error : Normal
  default_prediction_error = record { mean = number 0 0; stddev = number 90 0 }

  abbrev pub travel_time_cv : Double
  travel_time_cv = number 15 2

  abbrev pub walking_stddev_floor_mps : Double
  walking_stddev_floor_mps = number 5 2

  abbrev pub prediction_stddev_floor_sec : Double
  prediction_stddev_floor_sec = number 15 0

  abbrev pub travel_time_stddev_floor_sec : Double
  travel_time_stddev_floor_sec = number 15 0

  abbrev pub by_default : Normal → Resolved
  by_default value = record { value = value; source = default; sample_count = 0 }

  abbrev pub by_profile : WalkingProfile → Source → Resolved
  by_profile p source = record {
    value = record {
      mean = p.avg_speed_mps;
      stddev = max p.stddev_speed_mps walking_stddev_floor_mps;
    };
    source = source;
    sample_count = p.sample_count;
  }

  -- a row of the array `levels`
  pub record Level : Type 0 where
    pub profile : Option WalkingProfile
    pub source : Source

  -- one turn of the loop over `levels`, `rest` being what the other turns give
  abbrev pub level_or : Option WalkingProfile → Source → ℕ → Resolved → Resolved
  level_or none source min_samples rest = rest
  level_or (some p) source min_samples rest =
      if not (ltb p.sample_count min_samples) then by_profile p source else rest

  pub first_level : List Level → ℕ → Resolved
  first_level [] min_samples = by_default default_walking_speed
  first_level (l ∷ levels) min_samples =
      level_or l.profile l.source min_samples (first_level levels min_samples)

  unfoldable pub resolve_walking_speed :
      Option WalkingProfile → Option WalkingProfile → ℕ → Resolved
  unfolding first_level
  resolve_walking_speed leg global min_samples =
      first_level
        (record { profile = leg; source = calibrated }
          ∷ record { profile = global; source = inherited }
          ∷ [])
        min_samples

  -- `reduce((sum, g) => sum + term(g), 0)`
  pub sum_by : (SampleStats → Double) → Double → List SampleStats → Double
  sum_by term sum [] = sum
  sum_by term sum (g ∷ groups) = sum_by term (add sum (term g)) groups

  unfoldable pub total_count : List SampleStats → ℕ
  total_count [] = 0
  total_count (g ∷ groups) = g.count + total_count groups

  -- `nonempty[0]!.stddev`
  abbrev pub first_stddev : List SampleStats → Double
  first_stddev [] = number 0 0
  first_stddev (g ∷ groups) = g.stddev

  abbrev pub nonempty_of : List SampleStats → List SampleStats
  nonempty_of groups = filter (λ g. ltb 0 g.count) groups

  mean_of : List SampleStats → Double
  unfolding sum_by
  mean_of groups =
      div (sum_by (λ g. mul (of_count g.count) g.mean) (number 0 0) groups)
        (of_count (total_count groups))

  stddev_of : List SampleStats → Double → Double
  unfolding sum_by
  stddev_of groups mean =
      let within =
        sum_by (λ g. mul (of_count (g.count - 1)) (square g.stddev)) (number 0 0) groups in
      let between =
        sum_by (λ g. mul (of_count g.count) (square (sub g.mean mean))) (number 0 0) groups in
      sqrt (div (add within between) (of_count (total_count groups - 1)))

  pool_nonempty : List SampleStats → ℕ → Option SampleStats
  unfolding mean_of stddev_of
  pool_nonempty groups total =
      if total == 0
      then none
      else if total == 1
      then some (record { count = 1; mean = mean_of groups; stddev = first_stddev groups })
      else some (record {
        count = total;
        mean = mean_of groups;
        stddev = stddev_of groups (mean_of groups);
      })

  unfoldable pub pool_stats : List SampleStats → Option SampleStats
  unfolding pool_nonempty total_count
  pool_stats groups = pool_nonempty (nonempty_of groups) (total_count (nonempty_of groups))

  pooled_or : Option SampleStats → ℕ → Double → Normal → Resolved
  pooled_or none min_samples floor value = by_default value
  pooled_or (some p) min_samples floor value =
      if not (ltb p.count min_samples)
      then record {
        value = record { mean = p.mean; stddev = max p.stddev floor };
        source = inherited;
        sample_count = p.count;
      }
      else by_default value

  unfoldable pub fallback : List SampleStats → ℕ → Double → Normal → Resolved
  unfolding pooled_or pool_stats
  fallback stats min_samples floor value = pooled_or (pool_stats stats) min_samples floor value

  abbrev pub prediction_stats : PredictionCalibrationRow → SampleStats
  prediction_stats r = record { count = r.sample_count; mean = r.bias_sec; stddev = r.stddev_sec }

  unfoldable pub prediction_fallback : List PredictionCalibrationRow → ℕ → Resolved
  unfolding fallback
  prediction_fallback rows min_samples =
      fallback (map prediction_stats rows) min_samples prediction_stddev_floor_sec
        default_prediction_error

  abbrev pub travel_stats : TravelTimeCalibrationRow → SampleStats
  travel_stats r = record { count = r.sample_count; mean = r.mean_sec; stddev = r.stddev_sec }

  abbrev pub planned_or_zero : Option Double → Double
  planned_or_zero none = number 0 0
  planned_or_zero (some planned) = planned

  -- `pooled.source === "default" && planned === null ? null : pooled`
  abbrev pub unless_unknown : Source → Option Double → Resolved → Option Resolved
  unless_unknown default none pooled = none
  unless_unknown source planned pooled = some pooled

  unfoldable pub travel_time_fallback :
      List TravelTimeCalibrationRow → ℕ → Option Double → Option Resolved
  unfolding fallback
  travel_time_fallback rows min_samples planned =
      let pooled =
        fallback (map travel_stats rows) min_samples travel_time_stddev_floor_sec (record {
          mean = planned_or_zero planned;
          stddev = mul (planned_or_zero planned) travel_time_cv;
        }) in
      unless_unknown pooled.source planned pooled
