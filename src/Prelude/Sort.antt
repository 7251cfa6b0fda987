-- ===== src/Prelude/Sort.antt =====
-- `Array.prototype.sort`, which the language specifies as stable: an insertion sort that keeps equal
-- elements in their order. `le a b` is "the comparator does not put `a` behind `b`".
use when_i_off.Prelude.Tests.{if◌then◌else◌, Bool-cases}
use when_i_off.Prelude.Preds.{All, All-map, Pairs, filter, count}
use when_i_off.Prelude.Lists.{length}
use Prim.Native.Nat.{suc}
use mathlib.Core.Path.{◌≡◌, refl, ◌∙◌}
use mathlib.Core.Bool.{Bool, true, false}
use mathlib.Core.Logic.{inl, inr}
use mathlib.Core.List.{List, [], ◌∷◌, Perm}
use mathlib.Core.List.Perm
use native.Mathlib.Omega.{arith}

module _ {ℓ} {A : Type ℓ} (le : A → A → Bool) where
  unfoldable pub insert : A → List A → List A
  insert x [] = x ∷ []
  insert x (y ∷ ys) = if le x y then x ∷ y ∷ ys else y ∷ insert x ys

  unfoldable pub sort : List A → List A
  unfolding insert
  sort [] = []
  sort (x ∷ xs) = insert x (sort xs)

  -- every element is not behind any later one
  abbrev pub IsSorted : List A → Type 0
  IsSorted xs = Pairs (λ x y. le x y ≡ true) xs

  pub insert-perm : (x : A) (ys : List A) → Perm (insert x ys) (x ∷ ys)
  unfolding insert
  insert-perm x [] = Perm.rfl
  insert-perm x (y ∷ ys) = elim (Bool-cases (le x y)) [
    | inl h ↦ rw h Perm.rfl
    | inr h ↦ rw h (Perm.trans (Perm.cons y (insert-perm x ys)) (Perm.swap x y ys))
  ]

  pub sort-perm : (xs : List A) → Perm (sort xs) xs
  unfolding sort
  sort-perm [] = Perm.rfl
  sort-perm (x ∷ xs) = Perm.trans (insert-perm x (sort xs)) (Perm.cons x (sort-perm xs))

  pub insert-All {κ} : (P : A → Type κ) (x : A) (ys : List A) → P x → All P ys → All P (insert x ys)
  unfolding insert
  insert-All P x [] p h = (p, tt)
  insert-All P x (y ∷ ys) p (q, h) = elim (Bool-cases (le x y)) [
    | inl e ↦ rw e (p, (q, h))
    | inr e ↦ rw e (q, insert-All P x ys p h)
  ]

  pub sort-All {κ} : (P : A → Type κ) (xs : List A) → All P xs → All P (sort xs)
  unfolding sort
  sort-All P [] h = tt
  sort-All P (x ∷ xs) (p, h) = insert-All P x (sort xs) p (sort-All P xs h)

  pub All-of_insert {κ} :
      (P : A → Type κ) (x : A) (ys : List A) → All P (insert x ys) → P x × All P ys
  unfolding insert
  All-of_insert P x [] (p, h) = (p, tt)
  All-of_insert P x (y ∷ ys) h = elim (Bool-cases (le x y)) [
    | inl e ↦ (let k = rw e at h in k)
    | inr e ↦ (let k = rw e at h in let r = All-of_insert P x ys k.1 in (r.0, (k.0, r.1)))
  ]

  pub All-of_sort {κ} : (P : A → Type κ) (xs : List A) → All P (sort xs) → All P xs
  unfolding sort
  All-of_sort P [] h = tt
  All-of_sort P (x ∷ xs) h = let r = All-of_insert P x (sort xs) h in (r.0, All-of_sort P xs r.1)

  -- elements that the comparator does not tell apart keep their order
  insert-filter :
      (p : A → Bool) (x : A) (ys : List A)
      → ((y : A) → p x ≡ true → p y ≡ true → le x y ≡ true)
      → filter p (insert x ys) ≡ filter p (x ∷ ys)
  unfolding insert
  insert-filter p x [] same = refl
  insert-filter p x (y ∷ ys) same = ground (arith, insert-filter p x ys same, same y)

  pub sort-filter :
      (p : A → Bool) (xs : List A)
      → ((x y : A) → p x ≡ true → p y ≡ true → le x y ≡ true)
      → filter p (sort xs) ≡ filter p xs
  unfolding sort
  sort-filter p [] same = refl
  sort-filter p (x ∷ xs) same =
      insert-filter p x (sort xs) (same x) ∙ ground (arith, sort-filter p xs same)

  insert-count : (p : A → Bool) (x : A) (ys : List A) → count p (insert x ys) ≡ count p (x ∷ ys)
  unfolding insert
  insert-count p x [] = refl
  insert-count p x (y ∷ ys) = ground (arith, insert-count p x ys)

  pub count-sort : (p : A → Bool) (xs : List A) → count p (sort xs) ≡ count p xs
  unfolding sort
  count-sort p [] = refl
  count-sort p (x ∷ xs) = omega (arith, insert-count p x (sort xs), count-sort p xs)

  insert-length : (x : A) (ys : List A) → length (insert x ys) ≡ suc (length ys)
  unfolding insert
  insert-length x [] = refl
  insert-length x (y ∷ ys) = ground (arith, insert-length x ys)

  pub length-sort : (xs : List A) → length (sort xs) ≡ length xs
  unfolding sort
  length-sort [] = refl
  length-sort (x ∷ xs) = omega (arith, insert-length x (sort xs), length-sort xs)

  module _ (total : (x y : A) → le x y ≡ false → le y x ≡ true)
      (trans : (x y z : A) → le x y ≡ true → le y z ≡ true → le x z ≡ true) where
    insert-IsSorted : (x : A) (ys : List A) → IsSorted ys → IsSorted (insert x ys)
    unfolding insert
    insert-IsSorted x [] s = (tt, tt)
    insert-IsSorted x (y ∷ ys) (b, s) = elim (Bool-cases (le x y)) [
      | inl e ↦ rw e ((e, All-map _ _ ys (λ z h. trans x y z e h) b), (b, s))
      | inr e ↦ rw e (insert-All (λ z. le y z ≡ true) x ys (total x y e) b, insert-IsSorted x ys s)
    ]

    pub sort-IsSorted : (xs : List A) → IsSorted (sort xs)
    unfolding sort
    sort-IsSorted [] = tt
    sort-IsSorted (x ∷ xs) = insert-IsSorted x (sort xs) (sort-IsSorted xs)

module _ {ℓ} {A : Type ℓ} (le : A → A → Bool) where
  insert_first : (x : A) (ys : List A) → All (λ y. le x y ≡ true) ys → insert le x ys ≡ x ∷ ys
  unfolding insert
  insert_first x [] h = refl
  insert_first x (y ∷ ys) (p, h) = rw p

  -- a list in order stays as it is
  pub sort-of_IsSorted : (xs : List A) → IsSorted le xs → sort le xs ≡ xs
  unfolding sort
  sort-of_IsSorted [] s = refl
  sort-of_IsSorted (x ∷ xs) (p, s) = rw (sort-of_IsSorted xs s) (insert_first x xs p)
