-- ===== src/Trips/Timeline/Groups.antt =====
-- What `byLeg` and the list of leg references hold: the attempts of each leg, and every leg once.
use when_i_off.Prelude.{
  ℕ, ◌≡◌, refl, sym, ◌∙◌, ap, inl, inr, List, [], ◌∷◌, ◌++◌, map, Option, if◌then◌else◌, leb, ◌==◌,
  any, filter, count, arith, Bool-cases,
}
use when_i_off.Api.{BoardingAttempt, RouteLeg}
use when_i_off.Trips.{Entry, add_attempt, add_attempts, by_leg, attempts_at, add_id, add_ids}
use when_i_off.Trips.Timeline.{LegRef, keys, push_missing, known_refs, leg_refs, ref_of_id, ids_of}

abbrev pub occ : ℕ → List ℕ → ℕ
occ k ids = count (λ j. j == k) ids

abbrev pub ref_ids : List LegRef → List ℕ
ref_ids refs = map (λ (r : LegRef). r.id) refs

-- the attempts of a leg
abbrev pub of_leg : ℕ → List BoardingAttempt → List BoardingAttempt
of_leg k attempts = filter (λ a. a.route_leg_id == k) attempts

attempts_at-add_attempt :
    (k : ℕ) (es : List Entry) (a : BoardingAttempt)
    → attempts_at k (add_attempt es a)
      ≡ (if a.route_leg_id == k then attempts_at k es ++ a ∷ [] else attempts_at k es)
unfolding attempts_at add_attempt
attempts_at-add_attempt k [] a = ground arith
attempts_at-add_attempt k (e ∷ es) a = ground (arith, attempts_at-add_attempt k es a)

append_assoc {ℓ} : {A : Type ℓ} (xs ys zs : List A) → (xs ++ ys) ++ zs ≡ xs ++ (ys ++ zs)
append_assoc [] ys zs = refl
append_assoc (x ∷ xs) ys zs = ap (◌∷◌ x) (append_assoc xs ys zs)

append-nil {ℓ} : {A : Type ℓ} (xs : List A) → xs ++ [] ≡ xs
append-nil [] = refl
append-nil (x ∷ xs) = ap (◌∷◌ x) (append-nil xs)

attempts_at-add_attempts :
    (k : ℕ) (es : List Entry) (attempts : List BoardingAttempt)
    → attempts_at k (add_attempts es attempts) ≡ attempts_at k es ++ of_leg k attempts
unfolding add_attempts
attempts_at-add_attempts k es [] = sym (append-nil (attempts_at k es))
attempts_at-add_attempts k es (a ∷ attempts) = elim (Bool-cases (a.route_leg_id == k)) [
  | inl e ↦
      rw
        (
          e,
          attempts_at-add_attempts k (add_attempt es a) attempts,
          attempts_at-add_attempt k es a,
          e,
        )
        (append_assoc (attempts_at k es) (a ∷ []) (of_leg k attempts))
  | inr e ↦
      rw
        (
          e,
          attempts_at-add_attempts k (add_attempt es a) attempts,
          attempts_at-add_attempt k es a,
          e,
        )
        refl
]

pub attempts_at-by_leg :
    (k : ℕ) (attempts : List BoardingAttempt) → attempts_at k (by_leg attempts) ≡ of_leg k attempts
unfolding attempts_at
attempts_at-by_leg k attempts = attempts_at-add_attempts k [] attempts

keys-add_attempt :
    (es : List Entry) (a : BoardingAttempt)
    → keys (add_attempt es a) ≡ add_id (keys es) a.route_leg_id
unfolding add_attempt add_id
keys-add_attempt [] a = refl
keys-add_attempt (e ∷ es) a = ground (arith, keys-add_attempt es a)

keys-add_attempts :
    (es : List Entry) (attempts : List BoardingAttempt)
    → keys (add_attempts es attempts) ≡ add_ids (keys es) (ids_of attempts)
unfolding add_attempts add_ids
keys-add_attempts es [] = refl
keys-add_attempts es (a ∷ attempts) =
    keys-add_attempts (add_attempt es a) attempts
    ∙ ap (λ ks. add_ids ks (ids_of attempts)) (keys-add_attempt es a)

ids-push :
    (refs : List LegRef) (k : ℕ)
    → ref_ids (if any (λ r. r.id == k) refs then refs else refs ++ ref_of_id k ∷ [])
      ≡ add_id (ref_ids refs) k
unfolding add_id
ids-push [] k = refl
ids-push (r ∷ refs) k = ground (arith, ids-push refs k)

ids-push_missing :
    (refs : List LegRef) (ks : List ℕ) → ref_ids (push_missing refs ks) ≡ add_ids (ref_ids refs) ks
unfolding push_missing add_ids
ids-push_missing refs [] = refl
ids-push_missing refs (k ∷ ks) =
    ids-push_missing (if any (λ r. r.id == k) refs then refs else refs ++ ref_of_id k ∷ []) ks
    ∙ ap (λ ids. add_ids ids ks) (ids-push refs k)

occ-add_id :
    (k : ℕ) (ids : List ℕ) (j : ℕ)
    → occ k (add_id ids j) ≡ (if leb 1 (occ k ids) then occ k ids else if j == k then 1 else 0)
unfolding add_id
occ-add_id k [] j = ground arith
occ-add_id k (i ∷ ids) j = ground (arith, occ-add_id k ids j)

pub occ-add_ids :
    (k : ℕ) (ids js : List ℕ)
    → occ k (add_ids ids js)
      ≡ (if leb 1 (occ k ids) then occ k ids else if leb 1 (occ k js) then 1 else 0)
unfolding add_ids
occ-add_ids k ids [] = ground arith
occ-add_ids k ids (j ∷ js) = rw (occ-add_ids k (add_id ids j) js, occ-add_id k ids j) (ground arith)

pub keys-by_leg :
    (attempts : List BoardingAttempt) → keys (by_leg attempts) ≡ add_ids [] (ids_of attempts)
keys-by_leg attempts = keys-add_attempts [] attempts

pub ids-leg_refs :
    (legs : Option (List RouteLeg)) (es : List Entry)
    → ref_ids (leg_refs legs es) ≡ add_ids (ref_ids (known_refs legs es)) (keys es)
unfolding leg_refs
ids-leg_refs legs es = ids-push_missing (known_refs legs es) (keys es)
