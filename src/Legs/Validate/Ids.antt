-- ===== src/Legs/Validate/Ids.antt =====
-- The search for an id that stands twice finds one exactly if two legs have the same id.
use when_i_off.Prelude.{
  ℕ, ◌≤◌, ◌≡◌, ◌≢◌, ◌↔◌, refl, true, List, [], ◌∷◌, ◌==◌, any, count, All, All-map, Pairs,
  Bool-cases, inl, inr, arith,
}
use when_i_off.Legs.Validate.{id_set, repeated}

abbrev times : ℕ → List ℕ → ℕ
times i ids = count (λ x. x == i) ids

abbrev Once : List ℕ → ℕ → Type 0
Once ids i = times i ids ≤ 1

repeated_iff : (ids set : List ℕ) → (repeated ids set ≡ []) ↔ All (Once ids) set
unfolding repeated
repeated_iff ids [] = ((λ _. tt), (λ _. refl))
repeated_iff ids (i ∷ set) = ground (arith, repeated_iff ids set)

found : (P : ℕ → Type 0) (i : ℕ) (seen : List ℕ) → any (λ x. x == i) seen ≡ true → All P seen → P i
found P i [] e h = absurd (cc)
found P i (x ∷ seen) e (p, h) = elim (Bool-cases (x == i)) [
  | inl f ↦ let same : x ≡ i = ground arith in rw (← same) p
  | inr f ↦ found P i seen (rw f at e) h
]

set→ids : (P : ℕ → Type 0) (seen ids : List ℕ) → All P seen → All P (id_set seen ids) → All P ids
unfolding id_set
set→ids P seen [] s h = tt
set→ids P seen (i ∷ ids) s h = elim (Bool-cases (any (λ x. x == i) seen)) [
  | inl e ↦ (found P i seen e s, set→ids P seen ids s (rw e at h))
  | inr e ↦ let k = rw e at h in (k.0, set→ids P (i ∷ seen) ids (k.0, s) k.1)
]

ids→set : (P : ℕ → Type 0) (seen ids : List ℕ) → All P ids → All P (id_set seen ids)
unfolding id_set
ids→set P seen [] h = tt
ids→set P seen (i ∷ ids) (p, h) = elim (Bool-cases (any (λ x. x == i) seen)) [
  | inl e ↦ rw e (ids→set P seen ids h)
  | inr e ↦ rw e (p, ids→set P (i ∷ seen) ids h)
]

-- no two are the same
abbrev pub AreDistinct : List ℕ → Type 0
AreDistinct ids = Pairs (λ x y. x ≢ y) ids

none_of : (x : ℕ) (xs : List ℕ) → times x xs ≤ 0 → All (λ y. x ≢ y) xs
none_of x [] h = tt
none_of x (y ∷ ys) h = (ground arith, none_of x ys (ground arith))

none_of_inv : (x : ℕ) (xs : List ℕ) → All (λ y. x ≢ y) xs → times x xs ≤ 0
none_of_inv x [] h = omega arith
none_of_inv x (y ∷ ys) (p, h) = ground (arith, none_of_inv x ys h)

once→distinct : (xs : List ℕ) → All (Once xs) xs → AreDistinct xs
once→distinct [] h = tt
once→distinct (x ∷ xs) (p, h) =
    (none_of x xs (ground arith), once→distinct xs (All-map _ _ xs (λ y q. ground arith) h))

distinct→once : (xs : List ℕ) → AreDistinct xs → All (Once xs) xs
distinct→once [] h = tt
distinct→once (x ∷ xs) (p, h) =
    (ground (arith, none_of_inv x xs p), other xs p (distinct→once xs h))
  where
    other : (ys : List ℕ) → All (λ y. x ≢ y) ys → All (Once xs) ys → All (Once (x ∷ xs)) ys
    other [] q k = tt
    other (y ∷ ys) (ne, q) (o, k) = (ground arith, other ys q k)

pub repeated-id_set : (ids : List ℕ) → (repeated ids (id_set [] ids) ≡ []) ↔ AreDistinct ids
repeated-id_set ids = (
  λ h. once→distinct ids (set→ids (Once ids) [] ids tt ((repeated_iff ids (id_set [] ids)).0 h)),
  λ h. (repeated_iff ids (id_set [] ids)).1 (ids→set (Once ids) [] ids (distinct→once ids h)),
)
