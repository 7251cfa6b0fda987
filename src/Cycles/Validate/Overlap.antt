-- ===== src/Cycles/Validate/Overlap.antt =====
-- Looking at neighbours of the bands in the order of their starts finds an overlap exactly if two bands
-- of one day type overlap at all.
use when_i_off.Prelude.{
  ◌≤◌, ◌<◌, ◌≡◌, ◌↔◌, refl, Bool, true, false, ◌||◌, not, List, [], ◌∷◌, if◌then◌else◌, leb, ltb,
  filter, All, Bool-cases, inl, inr, arith, append-eq_nil,
}
use when_i_off.Prelude.Sort.{sort, IsSorted, sort-IsSorted, sort-All}
use when_i_off.Prelude.Selection.{filter-keeps_All, All-of_filter, sort-Pairs, Pairs-of_sort}
use when_i_off.Prelude.{Pairs}
use when_i_off.Api.{DayType, day_eq, day_eq_iff}
use when_i_off.Cycles.Validate.{Band, overlaps, by_start, day_overlaps}

-- a half-open band that is not empty
abbrev pub IsBand : Band → Type 0
IsBand b = b.start < b.end

abbrev pub disjoint : Band → Band → Bool
disjoint a b = leb a.end b.start || leb b.end a.start

abbrev pub Disjoint : Band → Band → Type 0
Disjoint a b = disjoint a b ≡ true

-- bands of one day type do not share a second
abbrev pub Apart : Band → Band → Type 0
Apart a b = (not (day_eq b.day_type a.day_type) || disjoint a b) ≡ true

Disjoint-symm : (a b : Band) → Disjoint a b → Disjoint b a
Disjoint-symm a b h = ground arith

behind :
    (a b : Band) (rest : List Band)
    → a.end ≤ b.start
    → All (λ c. by_start b c ≡ true) rest
    → All (Disjoint a) rest
behind a b [] h k = tt
behind a b (c ∷ rest) h (p, k) = (ground arith, behind a b rest h k)

overlaps→Pairs :
    (day : DayType) (bs : List Band)
    → IsSorted by_start bs
    → overlaps day bs ≡ []
    → Pairs Disjoint bs
unfolding overlaps
overlaps→Pairs day [] s h = tt
overlaps→Pairs day (a ∷ []) s h = (tt, tt)
overlaps→Pairs day (a ∷ b ∷ rest) ((p, q), (r, s)) h =
    let parts = append-eq_nil (if ltb b.start a.end then _ else []) (overlaps day (b ∷ rest)) h in
    let after : a.end ≤ b.start = ground (arith, parts.0) in
    ((ground arith, behind a b rest after r), overlaps→Pairs day (b ∷ rest) (r, s) parts.1)

Pairs→overlaps :
    (day : DayType) (bs : List Band)
    → All IsBand bs
    → IsSorted by_start bs
    → Pairs Disjoint bs
    → overlaps day bs ≡ []
unfolding overlaps
Pairs→overlaps day [] v s h = refl
Pairs→overlaps day (a ∷ []) v s h = refl
Pairs→overlaps day (a ∷ b ∷ rest) (v, w) ((p, q), s) ((d, e), h) =
    let after : ltb b.start a.end ≡ false = ground arith in
    rw after (Pairs→overlaps day (b ∷ rest) w s h)

by_start_total : (x y : Band) → by_start x y ≡ false → by_start y x ≡ true
by_start_total x y h = ground arith

by_start_trans : (x y z : Band) → by_start x y ≡ true → by_start y z ≡ true → by_start x z ≡ true
by_start_trans x y z h k = ground arith

-- the bands of one day type
abbrev of_day : DayType → List Band → List Band
of_day day bands = filter (λ b. day_eq b.day_type day) bands

pub day_overlaps_iff :
    (day : DayType) (bands : List Band)
    → All IsBand bands
    → (day_overlaps bands day ≡ []) ↔ Pairs Disjoint (of_day day bands)
unfolding day_overlaps
day_overlaps_iff day bands v =
    let sorted = sort-IsSorted by_start by_start_total by_start_trans (of_day day bands) in
    let valid = sort-All by_start IsBand (of_day day bands) (filter-keeps_All IsBand _ bands v) in
    (
      λ h.
          Pairs-of_sort by_start Disjoint Disjoint-symm (of_day day bands)
            (overlaps→Pairs day (sort by_start (of_day day bands)) sorted h),
      λ h.
          Pairs→overlaps day (sort by_start (of_day day bands)) valid sorted
            (sort-Pairs by_start Disjoint Disjoint-symm (of_day day bands) h),
    )

Pairs-of_days :
    (bands : List Band) → ((day : DayType) → Pairs Disjoint (of_day day bands)) → Pairs Apart bands
Pairs-of_days [] h = tt
Pairs-of_days (b ∷ bands) h =
    let own : day_eq b.day_type b.day_type ≡ true = (day_eq_iff _ _).1 refl in
    let first = rw own at (h b.day_type) in
    (
      All-of_filter (λ c. day_eq c.day_type b.day_type) (disjoint b) bands first.0,
      Pairs-of_days bands (λ day. rest day (h day)),
    )
  where
    rest :
        (day : DayType)
        → Pairs Disjoint (of_day day (b ∷ bands))
        → Pairs Disjoint (of_day day bands)
    rest day k = elim (Bool-cases (day_eq b.day_type day)) [
      | inl e ↦ (let m = rw e at k in m.1)
      | inr e ↦ rw e at k
    ]

All-to_day :
    (day : DayType) (b : Band) (bands : List Band)
    → day_eq b.day_type day ≡ true
    → All (Apart b) bands
    → All (Disjoint b) (of_day day bands)
All-to_day day b [] e h = tt
All-to_day day b (c ∷ bands) e (p, h) = elim (Bool-cases (day_eq c.day_type day)) [
  | inl f ↦
      let same : day_eq c.day_type b.day_type ≡ true = ground (
        arith,
        day_eq_iff b.day_type day,
        day_eq_iff c.day_type day,
        day_eq_iff c.day_type b.day_type,
      ) in
      rw f (ground arith, All-to_day day b bands e h)
  | inr f ↦ rw f (All-to_day day b bands e h)
]

Pairs-to_day :
    (day : DayType) (bands : List Band) → Pairs Apart bands → Pairs Disjoint (of_day day bands)
Pairs-to_day day [] h = tt
Pairs-to_day day (b ∷ bands) (p, h) = elim (Bool-cases (day_eq b.day_type day)) [
  | inl e ↦ rw e (All-to_day day b bands e p, Pairs-to_day day bands h)
  | inr e ↦ rw e (Pairs-to_day day bands h)
]

-- no day type has an overlap, if and only if all pairs of bands are apart
pub Apart-iff :
    (bands : List Band) → ((day : DayType) → Pairs Disjoint (of_day day bands)) ↔ Pairs Apart bands
Apart-iff bands = (Pairs-of_days bands, λ h day. Pairs-to_day day bands h)
