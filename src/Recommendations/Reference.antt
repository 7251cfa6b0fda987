-- ===== src/Recommendations/Reference.antt =====
-- The reference recommendation of a day: the one computed last, of equal ones the newest version.
use when_i_off.Prelude.{
  Str, str_eq, str_eq_iff, ◌≡◌, ◌⊎◌, refl, sym, ◌∙◌, subst, Bool, true, false, ◌&&◌, List, [], ◌∷◌,
  Option, none, some, if◌then◌else◌, All, All-map, arith, Bool-cases, inl, inr,
}
use when_i_off.Prelude.Int.{ℤ}
use when_i_off.Recommendations.{
  DepartureRecommendation, later, replaces, best_of, reference_recommendation,
}
use mathlib.Core.List.{Mem, mem-cons}
use mathlib.Core.Logic.Or

-- `compareVersions(a, b) > 0` is a strict order.
pub record IsNewer (newer : Str → Str → Bool) : Type 0 where
  pub irrefl : (v : Str) → newer v v ≡ false
  pub trans : (u v w : Str) → newer u v ≡ true → newer v w ≡ true → newer u w ≡ true

later_trans : (a b c : Option ℤ) → later b c ≡ true → later a c ≡ false → later a b ≡ false
later_trans none b c h k = refl
later_trans (some a) none c h k = refl
later_trans (some a) (some b) none h k = absurd (ground arith)
later_trans (some a) (some b) (some c) h k = ground arith

later_itself : (a : Option ℤ) → later a a ≡ false
later_itself none = refl
later_itself (some a) = ground arith

module _ (parse : Str → Option ℤ) (newer : Str → Str → Bool) where
  -- `r` is no better reference than `best`.
  abbrev pub IsBehind : DepartureRecommendation → DepartureRecommendation → Type 0
  IsBehind best r =
      (later (parse r.computed_at) (parse best.computed_at) ≡ false)
      × ((str_eq r.computed_at best.computed_at && newer r.model_version best.model_version)
          ≡ false)

  -- What the reference of a list is: the null of an empty list, else one of the list that no other of it
  -- is computed after, nor at the same text of a time by a newer version.
  abbrev pub IsReference : List DepartureRecommendation → Option DepartureRecommendation → Type 0
  IsReference rs none = rs ≡ []
  IsReference rs (some best) = Mem best rs × All (IsBehind best) rs

  module _ (law : IsNewer newer) where
    -- at one text of a time the times are the same, so neither is later
    same_time :
        (r x best : DepartureRecommendation)
        → later (parse x.computed_at) (parse best.computed_at) ≡ true
        → later (parse r.computed_at) (parse best.computed_at) ≡ false
        → (str_eq r.computed_at x.computed_at && newer r.model_version x.model_version) ≡ false
    same_time r x best e k = elim (Bool-cases (str_eq r.computed_at x.computed_at)) [
      | inl same ↦
          let at = (str_eq_iff r.computed_at x.computed_at).0 same in
          absurd (let j = rw at at k in ground arith)
      | inr other ↦ rw other refl
    ]

    IsBehind-itself : (r : DepartureRecommendation) → IsBehind r r
    IsBehind-itself r =
        (later_itself (parse r.computed_at), rw (law.irrefl r.model_version) (ground arith))

    same_text :
        (r x best : DepartureRecommendation)
        → x.computed_at ≡ best.computed_at
        → newer x.model_version best.model_version ≡ true
        → (str_eq r.computed_at best.computed_at && newer r.model_version best.model_version)
          ≡ false
        → (str_eq r.computed_at x.computed_at && newer r.model_version x.model_version) ≡ false
    same_text r x best at n l =
        rw at (ground (arith, law.trans r.model_version x.model_version best.model_version))

    -- a reference that is replaced is behind the new one, and all behind it
    IsBehind-next :
        (best x r : DepartureRecommendation)
        → replaces parse newer x best ≡ true
        → IsBehind best r
        → IsBehind x r
    IsBehind-next best x r h (k, l) =
        elim (Bool-cases (later (parse x.computed_at) (parse best.computed_at))) [
          | inl e ↦ (
            later_trans (parse r.computed_at) (parse x.computed_at) (parse best.computed_at) e k,
            same_time r x best e k,
          )
          | inr e ↦
              let at = (str_eq_iff x.computed_at best.computed_at).0 (ground arith) in
              (rw at k, same_text r x best at (ground arith) l)
        ]

    -- `b` is the best of `best`, what was seen before it, and the rest
    IsBestOf :
        DepartureRecommendation
        → List DepartureRecommendation
        → List DepartureRecommendation
        → DepartureRecommendation
        → Type 0
    IsBestOf best seen rs b = All (IsBehind b) seen × All (IsBehind b) rs × ((b ≡ best) ⊎ Mem b rs)

    replaced :
        (best r b : DepartureRecommendation) (seen rs : List DepartureRecommendation)
        → IsBestOf r (r ∷ seen) rs b
        → IsBestOf best seen (r ∷ rs) b
    unfolding IsBestOf
    replaced best r b seen rs (all_seen, all_rest, from) = (
      all_seen.1,
      (all_seen.0, all_rest),
      inr (elim from [ inl same ↦ mem-cons.1 (Or.inl same) | inr m ↦ mem-cons.1 (Or.inr m) ]),
    )

    kept :
        (best r b : DepartureRecommendation) (seen rs : List DepartureRecommendation)
        → IsBestOf best (r ∷ seen) rs b
        → IsBestOf best seen (r ∷ rs) b
    unfolding IsBestOf
    kept best r b seen rs (all_seen, all_rest, from) = (
      all_seen.1,
      (all_seen.0, all_rest),
      elim from [ inl same ↦ inl same | inr m ↦ inr (mem-cons.1 (Or.inr m)) ],
    )

    best_of-cons :
        (best r : DepartureRecommendation) (rs : List DepartureRecommendation)
        → best_of parse newer best (r ∷ rs)
          ≡ best_of parse newer (if replaces parse newer r best then r else best) rs
    unfolding best_of
    best_of-cons best r rs = refl

    best_of-IsBestOf :
        (best : DepartureRecommendation) (seen rs : List DepartureRecommendation)
        → All (IsBehind best) seen
        → IsBestOf best seen rs (best_of parse newer best rs)
    unfolding best_of IsBestOf
    best_of-IsBestOf best seen [] h = (h, tt, inl refl)
    best_of-IsBestOf best seen (r ∷ rs) h = elim (Bool-cases (replaces parse newer r best)) [
      | inl e ↦ subst (IsBestOf best seen (r ∷ rs)) (sym (best_of-cons best r rs ∙ rw e refl)) (
          replaced best r (best_of parse newer r rs) seen rs (
            best_of-IsBestOf r (r ∷ seen) rs (
              IsBehind-itself r,
              All-map (IsBehind best) (IsBehind r) seen (λ x. IsBehind-next best r x e) h,
            )))
      | inr e ↦ subst (IsBestOf best seen (r ∷ rs)) (sym (best_of-cons best r rs ∙ rw e refl)) (
          kept best r (best_of parse newer best rs) seen rs
            (best_of-IsBestOf best (r ∷ seen) rs ((ground arith, ground arith), h)))
    ]

    -- The recommendation that a day is judged by is the null of no recommendation, else one of the day that
    -- no other is computed after, nor at the same time's text by a newer version, whatever their order.
    pub reference_recommendation-IsReference :
        (rs : List DepartureRecommendation)
        → IsReference rs (reference_recommendation parse newer rs)
    unfolding reference_recommendation IsBestOf
    reference_recommendation-IsReference [] = refl
    reference_recommendation-IsReference (r ∷ rs) =
        let (all_seen, all_rest, from) = best_of-IsBestOf r (r ∷ []) rs (IsBehind-itself r, tt) in
        (
          elim from [ inl same ↦ mem-cons.1 (Or.inl same) | inr m ↦ mem-cons.1 (Or.inr m) ],
          (all_seen.0, all_rest),
        )
