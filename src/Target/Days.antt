-- ===== src/Target/Days.antt =====
-- The days of a draft as a set: what a toggle does, and the order in which days are kept.
use when_i_off.Prelude.{
  ◌≡◌, refl, Bool, true, ◌&&◌, ◌||◌, not, List, [], ◌∷◌, ◌++◌, if◌then◌else◌, ltb, filter, all,
  arith, Bool-cases, inl, inr,
}
use when_i_off.Api.{DayType, weekday, saturday, sunday_holiday, day_eq, day_index, day_eq_iff}
use when_i_off.Target.{has_day, sort_day_types, toggle_day_type}

-- days in the order of the enum, each at most once
abbrev pub in_order : List DayType → Bool
in_order [] = true
in_order (d ∷ ds) = all (λ e. ltb (day_index d) (day_index e)) ds && in_order ds

has-filter :
    (day : DayType) (days : List DayType) (x : DayType)
    → has_day (filter (λ d. not (day_eq d day)) days) x ≡ has_day days x && not (day_eq x day)
has-filter day [] x = refl
has-filter day (d ∷ days) x =
    ground (arith, has-filter day days x, day_eq_iff d day, day_eq_iff d x, day_eq_iff x day)

has-append :
    (days : List DayType) (day x : DayType)
    → has_day (days ++ day ∷ []) x ≡ (has_day days x || day_eq day x)
has-append [] day x = ground arith
has-append (d ∷ days) day x = ground (arith, has-append days day x)

sort-has : (days : List DayType) (x : DayType) → has_day (sort_day_types days) x ≡ has_day days x
unfolding sort_day_types
sort-has days weekday = ground arith
sort-has days saturday = ground arith
sort-has days sunday_holiday = ground arith

sort-in_order : (days : List DayType) → in_order (sort_day_types days) ≡ true
unfolding sort_day_types
sort-in_order days = ground arith

-- A toggle changes whether its day is in the draft and nothing else, and gives the days in the order of
-- the enum, without repeats.
pub toggle_day_type-has_day :
    (days : List DayType) (day x : DayType)
    → (has_day (toggle_day_type days day) x
        ≡ (if day_eq x day then not (has_day days x) else has_day days x))
      × (in_order (toggle_day_type days day) ≡ true)
unfolding toggle_day_type
toggle_day_type-has_day days day x = elim (Bool-cases (has_day days day)) [
  | inl e ↦ rw e (
    rw (sort-has (filter (λ d. not (day_eq d day)) days) x, has-filter day days x)
        (ground (arith, day_eq_iff x day)),
    sort-in_order (filter (λ d. not (day_eq d day)) days),
  )
  | inr e ↦ rw e (
    rw (sort-has (days ++ day ∷ []) x, has-append days day x)
        (ground (arith, day_eq_iff x day, day_eq_iff day x)),
    sort-in_order (days ++ day ∷ []),
  )
]
