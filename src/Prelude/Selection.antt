-- ===== src/Prelude/Selection.antt =====
-- A relation between every element of a list and every later one, and what stable sorting and filtering
-- do to it.
use when_i_off.Prelude.Tests.{Bool-cases}
use when_i_off.Prelude.Preds.{All, Pairs, filter}
use when_i_off.Prelude.Sort.{sort, insert, insert-All, All-of_insert, sort-All, All-of_sort}
use mathlib.Core.Path.{◌≡◌, refl}
use mathlib.Core.Bool.{Bool, true, false, not, ◌||◌}
use mathlib.Core.Logic.{inl, inr}
use mathlib.Core.Logic.Or
use mathlib.Core.List.{List, [], ◌∷◌, Mem, Mem-prop, mem-cons}

module _ {ℓ} {A : Type ℓ} where
  pub filter-keeps_All {κ} :
      (P : A → Type κ) (p : A → Bool) (xs : List A) → All P xs → All P (filter p xs)
  filter-keeps_All P p [] h = tt
  filter-keeps_All P p (x ∷ xs) (q, h) = elim (Bool-cases (p x)) [
    | inl e ↦ rw e (q, filter-keeps_All P p xs h)
    | inr e ↦ rw e (filter-keeps_All P p xs h)
  ]

  pub filter-Pairs {κ} :
      (R : A → A → Type κ) (p : A → Bool) (xs : List A) → Pairs R xs → Pairs R (filter p xs)
  filter-Pairs R p [] h = tt
  filter-Pairs R p (x ∷ xs) (q, h) = elim (Bool-cases (p x)) [
    | inl e ↦ rw e (filter-keeps_All (R x) p xs q, filter-Pairs R p xs h)
    | inr e ↦ rw e (filter-Pairs R p xs h)
  ]

  -- what holds of all that pass a test, as a statement about all
  pub All-of_filter :
      (p q : A → Bool) (xs : List A)
      → All (λ x. q x ≡ true) (filter p xs)
      → All (λ x. (not (p x) || q x) ≡ true) xs
  All-of_filter p q [] h = tt
  All-of_filter p q (x ∷ xs) h = elim (Bool-cases (p x)) [
    | inl e ↦ let k = rw e at h in rw e (k.0, All-of_filter p q xs k.1)
    | inr e ↦ rw e (refl, All-of_filter p q xs (rw e at h))
  ]

  module _ {κ} (le : A → A → Bool) (R : A → A → Type κ) (symm : (x y : A) → R x y → R y x) where
    All-symm : (x : A) (ys : List A) → All (R x) ys → All (λ y. R y x) ys
    All-symm x [] h = tt
    All-symm x (y ∷ ys) (p, h) = (symm x y p, All-symm x ys h)

    insert-Pairs : (x : A) (ys : List A) → All (R x) ys → Pairs R ys → Pairs R (insert le x ys)
    unfolding insert
    insert-Pairs x [] h k = (tt, tt)
    insert-Pairs x (y ∷ ys) (p, h) (q, k) = elim (Bool-cases (le x y)) [
      | inl e ↦ rw e ((p, h), (q, k))
      | inr e ↦ rw e (insert-All le (R y) x ys (symm x y p) q, insert-Pairs x ys h k)
    ]

    Pairs-of_insert : (x : A) (ys : List A) → Pairs R (insert le x ys) → All (R x) ys × Pairs R ys
    unfolding insert
    Pairs-of_insert x [] h = (tt, tt)
    Pairs-of_insert x (y ∷ ys) h = elim (Bool-cases (le x y)) [
      | inl e ↦ (let k = rw e at h in k)
      | inr e ↦
          let k = rw e at h in
          let (p, q) = All-of_insert le (R y) x ys k.0 in
          let (r, s) = Pairs-of_insert x ys k.1 in ((symm y x p, r), (q, s))
    ]

    -- a symmetric relation between the pairs does not depend on the order
    pub sort-Pairs : (xs : List A) → Pairs R xs → Pairs R (sort le xs)
    unfolding sort
    sort-Pairs [] h = tt
    sort-Pairs (x ∷ xs) (p, h) =
        insert-Pairs x (sort le xs) (sort-All le (R x) xs p) (sort-Pairs xs h)

    pub Pairs-of_sort : (xs : List A) → Pairs R (sort le xs) → Pairs R xs
    unfolding sort
    Pairs-of_sort [] h = tt
    Pairs-of_sort (x ∷ xs) h =
        let (p, q) = Pairs-of_insert x (sort le xs) h in
        (All-of_sort le (R x) xs p, Pairs-of_sort xs q)

  pub mem-of_filter : (p : A → Bool) {x : A} (xs : List A) → Mem x (filter p xs) → Mem x xs
  mem-of_filter p [] m = m
  mem-of_filter p (y ∷ ys) m = elim (Bool-cases (p y)) [
    | inl e ↦
        Or.elim Mem-prop (mem-cons.0 (let k = rw e at m in k)) (λ q. mem-cons.1 (Or.inl q))
          (λ k. mem-cons.1 (Or.inr (mem-of_filter p ys k)))
    | inr e ↦ mem-cons.1 (Or.inr (mem-of_filter p ys (rw e at m)))
  ]

  pub filter-nil : (p : A → Bool) (xs : List A) → filter p xs ≡ [] → All (λ x. p x ≡ false) xs
  filter-nil p [] h = tt
  filter-nil p (x ∷ xs) h = elim (Bool-cases (p x)) [
    | inl e ↦ absurd (let k = rw e at h in cc)
    | inr e ↦ (e, filter-nil p xs (rw e at h))
  ]
