-- ===== src/Calibration/Chosen.antt =====
-- Which value is chosen: the first that enough samples stand behind.
use when_i_off.Prelude.{
  ℕ, ◌+◌, ◌≤◌, ◌<◌, ◌≡◌, ◌↔◌, refl, ap, subst, ◌⊎◌, List, [], ◌∷◌, Option, none, some, ltb, ◌==◌,
  map, Bool-cases, inl, inr, arith,
}
use when_i_off.Calibration.{
  Doubles, Source, calibrated, inherited, default, Normal, Resolved, WalkingProfile,
  TravelTimeCalibrationRow, PredictionCalibrationRow, SampleStats, by_profile, by_default, level_or,
  first_level, resolve_walking_speed, default_walking_speed, default_prediction_error, total_count,
  nonempty_of, pool_nonempty, pool_stats, pooled_or, fallback, travel_stats, prediction_stats,
  prediction_fallback, travel_time_fallback, unless_unknown,
}

module _ (f : Doubles) where
  -- No profile, or one with too few samples.
  pub IsUntrusted : ℕ → Option (WalkingProfile f) → Type 0
  IsUntrusted min_samples none = Unit
  IsUntrusted min_samples (some p) = p.sample_count < min_samples

  -- The speed is that of the profile, its deviation at least 0.05 m/s, with the profile's samples behind it.
  pub record IsOfProfile (p : WalkingProfile f) (source : Source) (r : Resolved f) : Type 0 where
    pub mean : r.value.mean ≡ p.avg_speed_mps
    pub stddev : r.value.stddev ≡ f.max p.stddev_speed_mps (f.number 5 2)
    pub from : r.source ≡ source
    pub samples : r.sample_count ≡ p.sample_count

  -- The speed is 1.2 m/s with a deviation of 0.15 m/s, with no samples behind it.
  pub record IsDefaultSpeed (r : Resolved f) : Type 0 where
    pub mean : r.value.mean ≡ f.number 12 1
    pub stddev : r.value.stddev ≡ f.number 15 2
    pub from : r.source ≡ default
    pub samples : r.sample_count ≡ 0

  -- The value to use: the leg's, else the user's own over all legs, else the default.
  pub data IsChosen (leg global : Option (WalkingProfile f)) (min_samples : ℕ) (r : Resolved f)
      : Type 0 where
    of_leg :
        (p : WalkingProfile f)
        → leg ≡ some p
        → min_samples ≤ p.sample_count
        → IsOfProfile p calibrated r
        → IsChosen leg global min_samples r
    of_user :
        (p : WalkingProfile f)
        → IsUntrusted min_samples leg
        → global ≡ some p
        → min_samples ≤ p.sample_count
        → IsOfProfile p inherited r
        → IsChosen leg global min_samples r
    of_default :
        IsUntrusted min_samples leg
        → IsUntrusted min_samples global
        → IsDefaultSpeed r
        → IsChosen leg global min_samples r

  by_profile-IsOfProfile :
      (p : WalkingProfile f) (source : Source) → IsOfProfile p source (by_profile f p source)
  by_profile-IsOfProfile p source = record {
    mean = refl;
    stddev = refl;
    from = refl;
    samples = refl;
  }

  by_default-IsDefaultSpeed : IsDefaultSpeed (by_default f (default_walking_speed f))
  by_default-IsDefaultSpeed = record { mean = refl; stddev = refl; from = refl; samples = refl }

  global_chosen :
      (leg global : Option (WalkingProfile f)) (min_samples : ℕ)
      → IsUntrusted min_samples leg
      → IsChosen leg global min_samples
          (level_or f global inherited min_samples (by_default f (default_walking_speed f)))
  unfolding IsUntrusted
  global_chosen leg none min_samples h = of_default h tt by_default-IsDefaultSpeed
  global_chosen leg (some p) min_samples h = elim (Bool-cases (ltb p.sample_count min_samples)) [
    | inl t ↦ rw t (of_default h (ground arith) by_default-IsDefaultSpeed)
    | inr t ↦ rw t (of_user p h refl (ground arith) (by_profile-IsOfProfile p inherited))
  ]

  -- The walking speed is that of the leg's profile if enough samples stand behind it, else that of the user's
  -- if enough stand behind that, in both cases with the profile's deviation, at least 0.05 m/s, its number of
  -- samples and where it is from; else it is the default, 1.2 m/s with a deviation of 0.15 m/s.
  pub resolve_walking_speed-IsChosen :
      (leg global : Option (WalkingProfile f)) (min_samples : ℕ)
      → IsChosen leg global min_samples (resolve_walking_speed f leg global min_samples)
  unfolding resolve_walking_speed first_level IsUntrusted
  resolve_walking_speed-IsChosen none global min_samples = global_chosen none global min_samples tt
  resolve_walking_speed-IsChosen (some p) global min_samples =
      elim (Bool-cases (ltb p.sample_count min_samples)) [
        | inl t ↦ rw t (global_chosen (some p) global min_samples (ground arith))
        | inr t ↦ rw t (of_leg p refl (ground arith) (by_profile-IsOfProfile p calibrated))
      ]

  -- Too few samples, or none.
  abbrev pub HasFew : ℕ → ℕ → Type 0
  HasFew min_samples total = (total ≡ 0) ⊎ (total < min_samples)

  -- The value of all rows together, with all their samples behind it, or the default.
  pub data IsFallback (total min_samples : ℕ) (value : Normal f) : Resolved f → Type 0 where
    pooled_value :
        (r : Resolved f)
        → r.source ≡ inherited
        → r.sample_count ≡ total
        → 1 ≤ total
        → min_samples ≤ total
        → IsFallback total min_samples value r
    default_value :
        HasFew min_samples total → IsFallback total min_samples value (by_default f value)

  pooled-IsFallback :
      (p : SampleStats f) (total min_samples : ℕ) (floor : f.Double) (value : Normal f)
      → p.count ≡ total
      → 1 ≤ total
      → IsFallback total min_samples value (pooled_or f (some p) min_samples floor value)
  unfolding pooled_or
  pooled-IsFallback p total min_samples floor value e h =
      elim (Bool-cases (ltb p.count min_samples)) [
        | inl t ↦ rw t (default_value (inr (grind arith)))
        | inr t ↦ rw t (pooled_value _ refl e h (grind arith))
      ]

  nonempty-IsFallback :
      (groups : List (SampleStats f)) (total min_samples : ℕ) (floor : f.Double) (value : Normal f)
      → IsFallback total min_samples value
          (pooled_or f (pool_nonempty f groups total) min_samples floor value)
  unfolding pool_nonempty pooled_or
  nonempty-IsFallback groups total min_samples floor value = elim (Bool-cases (total == 0)) [
    | inl t ↦ rw t (default_value (inl (grind arith)))
    | inr t ↦ elim (Bool-cases (total == 1)) [
      | inl o ↦
          rw (t, o) (pooled-IsFallback _ total min_samples floor value (grind arith) (grind arith))
      | inr o ↦ rw (t, o) (pooled-IsFallback _ total min_samples floor value refl (grind arith))
    ]
  ]

  -- all samples of the rows together
  pub samples : List (TravelTimeCalibrationRow f) → ℕ
  samples [] = 0
  samples (r ∷ rows) = r.sample_count + samples rows

  pub predictions : List (PredictionCalibrationRow f) → ℕ
  predictions [] = 0
  predictions (r ∷ rows) = r.sample_count + predictions rows

  total_count-nonempty :
      (groups : List (SampleStats f)) → total_count f (nonempty_of f groups) ≡ total_count f groups
  unfolding total_count
  total_count-nonempty [] = refl
  total_count-nonempty (g ∷ groups) = elim (Bool-cases (ltb 0 g.count)) [
    | inl t ↦ rw (t, total_count-nonempty groups) refl
    | inr t ↦
        let z : g.count ≡ 0 = grind arith in rw (t, total_count-nonempty groups, z) (omega arith)
  ]

  total_count-travel :
      (rows : List (TravelTimeCalibrationRow f))
      → total_count f (map (travel_stats f) rows) ≡ samples rows
  unfolding total_count samples
  total_count-travel [] = refl
  total_count-travel (r ∷ rows) = ap (λ n. r.sample_count + n) (total_count-travel rows)

  total_count-prediction :
      (rows : List (PredictionCalibrationRow f))
      → total_count f (map (prediction_stats f) rows) ≡ predictions rows
  unfolding total_count predictions
  total_count-prediction [] = refl
  total_count-prediction (r ∷ rows) = ap (λ n. r.sample_count + n) (total_count-prediction rows)

  fallback-IsFallback :
      (stats : List (SampleStats f)) (min_samples : ℕ) (floor : f.Double) (value : Normal f)
      → IsFallback
          (total_count f stats)
          min_samples
          value
          (fallback f stats min_samples floor value)
  unfolding fallback pool_stats
  fallback-IsFallback stats min_samples floor value =
      subst (λ n. IsFallback n min_samples value (fallback f stats min_samples floor value))
        (total_count-nonempty stats)
        (nonempty-IsFallback (nonempty_of f stats) (total_count f (nonempty_of f stats)) min_samples
          floor value)

  -- Where no row of its own serves, a prediction's error is that of all rows of the line and the stop together,
  -- with all their samples behind it, if these are enough, and the default if not.
  pub prediction_fallback-IsFallback :
      (rows : List (PredictionCalibrationRow f)) (min_samples : ℕ)
      → IsFallback
          (predictions rows)
          min_samples
          (default_prediction_error f)
          (prediction_fallback f rows min_samples)
  unfolding prediction_fallback
  prediction_fallback-IsFallback rows min_samples =
      subst
        (λ n.
          IsFallback n min_samples (default_prediction_error f)
            (prediction_fallback f rows min_samples))
        (total_count-prediction rows)
        (fallback-IsFallback (map (prediction_stats f) rows) min_samples _ _)

  unknown_iff :
      (total min_samples : ℕ) (value : Normal f) (planned : Option f.Double) (r : Resolved f)
      → IsFallback total min_samples value r
      → (unless_unknown f r.source planned r ≡ none) ↔ ((planned ≡ none) × HasFew min_samples total)
  unknown_iff total min_samples value planned _ (pooled_value r e n one enough) = (
    λ h. absurd (cc (subst (λ s. unless_unknown f s planned r ≡ none) e h)),
    λ (p, few). elim few [ inl z ↦ absurd (omega arith) | inr z ↦ absurd (omega arith) ],
  )
  unknown_iff total min_samples value none _ (default_value few) = ((λ h. (refl, few)), λ h. refl)
  unknown_iff total min_samples value (some d) _ (default_value few) =
      ((λ h. absurd (cc)), λ (p, h). absurd (cc))

  -- There is no travel time to show exactly if the rows have too few samples together and nothing is planned.
  pub travel_time_fallback_iff :
      (rows : List (TravelTimeCalibrationRow f)) (min_samples : ℕ) (planned : Option f.Double)
      → (travel_time_fallback f rows min_samples planned ≡ none)
        ↔ ((planned ≡ none) × HasFew min_samples (samples rows))
  unfolding travel_time_fallback
  travel_time_fallback_iff rows min_samples planned =
      subst
        (λ n.
          (travel_time_fallback f rows min_samples planned ≡ none)
          ↔ ((planned ≡ none) × HasFew min_samples n))
        (total_count-travel rows)
        (unknown_iff _ min_samples _ planned _
          (fallback-IsFallback (map (travel_stats f) rows) min_samples _ _))
