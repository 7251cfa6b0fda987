-- ===== src/Legs/Move.antt =====
-- legRules.ts `moveDraft`: a leg one place up or down.
use when_i_off.Prelude.{
  ℕ, zero, suc, ◌≡◌, refl, ap, ◌∙◌, ◌||◌, List, [], ◌∷◌, Option, none, some, if◌then◌else◌, leb,
  length, get_elem?, set, arith,
}
use mathlib.Core.List.{Perm}
use mathlib.Core.List.Perm

pub data Delta : Type 0 where
  up down : Delta

abbrev pub opposite : Delta → Delta
opposite up = down
opposite down = up

-- `index + delta`, if it is not below 0
abbrev pub target : ℕ → Delta → Option ℕ
target zero up = none
target (suc i) up = some i
target i down = some (suc i)

unfoldable pub swap_at {ℓ} : {A : Type ℓ} → List A → ℕ → ℕ → Option A → Option A → List A
swap_at list i j (some a) (some b) = set (set list i b) j a
swap_at list i j _ _ = list

unfoldable pub move_to {ℓ} : {A : Type ℓ} → List A → ℕ → Option ℕ → List A
move_to list i none = list
move_to list i (some j) =
    if leb (length list) i || leb (length list) j
    then list
    else swap_at list i j (get_elem? list i) (get_elem? list j)

unfoldable pub move_draft {ℓ} : {A : Type ℓ} → List A → ℕ → Delta → List A
unfolding move_to swap_at
move_draft list index delta = move_to list index (target index delta)

module _ {ℓ} {A : Type ℓ} where
  -- the same move on the list itself: the neighbours from place `i` change places
  swap_next : List A → ℕ → List A
  swap_next [] i = []
  swap_next (x ∷ []) zero = x ∷ []
  swap_next (x ∷ y ∷ xs) zero = y ∷ x ∷ xs
  swap_next (x ∷ xs) (suc i) = x ∷ swap_next xs i

  swap_next-perm : (xs : List A) (i : ℕ) → Perm (swap_next xs i) xs
  unfolding swap_next
  swap_next-perm [] i = Perm.rfl
  swap_next-perm (x ∷ []) zero = Perm.rfl
  swap_next-perm (x ∷ y ∷ xs) zero = Perm.swap x y xs
  swap_next-perm (x ∷ []) (suc i) = Perm.rfl
  swap_next-perm (x ∷ y ∷ xs) (suc i) = Perm.cons x (swap_next-perm (y ∷ xs) i)

  swap_next-swap_next : (xs : List A) (i : ℕ) → swap_next (swap_next xs i) i ≡ xs
  unfolding swap_next
  swap_next-swap_next [] i = refl
  swap_next-swap_next (x ∷ []) zero = refl
  swap_next-swap_next (x ∷ y ∷ xs) zero = refl
  swap_next-swap_next (x ∷ xs) (suc i) = ap (◌∷◌ x) (swap_next-swap_next xs i)

  swap_at-cons :
      (x : A) (xs : List A) (i j : ℕ) (a b : Option A)
      → swap_at (x ∷ xs) (suc i) (suc j) a b ≡ x ∷ swap_at xs i j a b
  unfolding swap_at
  swap_at-cons x xs i j none b = refl
  swap_at-cons x xs i j (some a) none = refl
  swap_at-cons x xs i j (some a) (some b) = refl

  move_to-cons :
      (x : A) (xs : List A) (i j : ℕ)
      → move_to (x ∷ xs) (suc i) (some (suc j)) ≡ x ∷ move_to xs i (some j)
  unfolding move_to
  move_to-cons x xs i j = ground (arith, swap_at-cons x xs i j (get_elem? xs i) (get_elem? xs j))

  move_down : (xs : List A) (i : ℕ) → move_to xs i (some (suc i)) ≡ swap_next xs i
  unfolding swap_next
  move_down [] i = unfold move_to in ground arith
  move_down (x ∷ []) zero = unfold move_to in refl
  move_down (x ∷ y ∷ xs) zero = unfold move_to swap_at in ground arith
  move_down (x ∷ []) (suc i) = move_to-cons x [] i (suc i) ∙ ap (◌∷◌ x) (move_down [] i)
  move_down (x ∷ y ∷ xs) (suc i) =
      move_to-cons x (y ∷ xs) i (suc i) ∙ ap (◌∷◌ x) (move_down (y ∷ xs) i)

  move_up : (xs : List A) (i : ℕ) → move_to xs (suc i) (some i) ≡ swap_next xs i
  unfolding swap_next
  move_up [] i = unfold move_to in ground arith
  move_up (x ∷ []) zero = unfold move_to in refl
  move_up (x ∷ y ∷ xs) zero = unfold move_to swap_at in ground arith
  move_up (x ∷ []) (suc i) = move_to-cons x [] (suc i) i ∙ ap (◌∷◌ x) (move_up [] i)
  move_up (x ∷ y ∷ xs) (suc i) = move_to-cons x (y ∷ xs) (suc i) i ∙ ap (◌∷◌ x) (move_up (y ∷ xs) i)

  move_draft_lem : (xs : List A) (i : ℕ) (d : Delta) → move_draft xs i d ≡ move_to xs i (target i d)
  unfolding move_draft
  move_draft_lem xs i d = refl

  -- Moving a leg keeps all legs, wherever it is moved.
  pub move_draft-perm : (xs : List A) (i : ℕ) (d : Delta) → Perm (move_draft xs i d) xs
  move_draft-perm xs zero up = rw (move_draft_lem xs zero up) (unfold move_to in Perm.rfl)
  move_draft-perm xs (suc i) up =
      rw (move_draft_lem xs (suc i) up, move_up xs i) (swap_next-perm xs i)
  move_draft-perm xs i down = rw (move_draft_lem xs i down, move_down xs i) (swap_next-perm xs i)

  -- Moving a leg and moving it back from the place where it came to gives the list that was.
  pub move_draft_back :
      (xs : List A) (i j : ℕ) (d : Delta)
      → target i d ≡ some j
      → move_draft (move_draft xs i d) j (opposite d) ≡ xs
  move_draft_back xs zero j up h = absurd (cc)
  move_draft_back xs (suc i) j up h =
      let e : i ≡ j = ground arith in
      rw (← e, move_draft_lem, move_draft_lem xs (suc i) up, move_up xs i, move_down)
        (swap_next-swap_next xs i)
  move_draft_back xs i j down h =
      let e : suc i ≡ j = ground arith in
      rw (← e, move_draft_lem, move_draft_lem xs i down, move_down xs i, move_up)
        (swap_next-swap_next xs i)
