-- ===== src/RouteEdit/Straight.antt =====
-- The distances of the walks that the editor holds.
use when_i_off.Prelude.{
  Str, str_eq, ℕ, zero, suc, ◌+◌, ◌≡◌, refl, sym, ap, subst, Bool, true, false, ◌||◌, List, [], ◌∷◌,
  map, filter, Option, none, some, All, All-append, inl, inr, Bool-cases, is_some, leb, length,
  get_elem?, set, ◌==◌, take, drop,
}
use when_i_off.Prelude.Sort.{sort, sort-All}
use when_i_off.Prelude.Number.{Number}
use when_i_off.Api.{LegType, walk, transit, TransitStop, RouteLeg, SignalCrossing}
use when_i_off.Legs.{
  LatLng, WalkDraft, TransitDraft, LegDraft, walk_draft, transit_draft, RouteLegRequest, leg_le,
  draft_of_type, new_transit, drafts_from_legs,
}
use when_i_off.Legs.Validate.{LegError, validate_drafts}
use when_i_off.Legs.Move.{Delta, move_draft, move_to, swap_at, target}
use when_i_off.RouteEdit.{
  StopWhich, WalkEnd, at_start, at_end, PickTarget, walk_end, stop, signal, Pick, Editor, straight,
  refilled, set_end, new_walk, if_key, if_walk, if_transit, follow, is_unset, same_point, end_at,
  point_of, is_place, beside, end_beside, stop_at, choose_at, choose_in, choose_stop, insert_in,
  insert_transit_after, pick_to, pick_point, on_map_click, first_drafts, first_editor,
}
use when_i_off.RouteEdit.Events.{
  typed, with_crossings, Event, map_clicked, pick_toggled, leg_selected, leg_removed,
  transit_inserted, straight_asked, leg_moved, end_dragged, distance_typed, travel_typed,
  line_chosen, stops_asked, stop_chosen, walk_added, transit_added, save_pressed, signal_cleared,
  crossings_set, crossings_saved, save_if, save, remove, on_crossings_saved, on_saved, search_near,
  add_transit, add_walk, apply, Step, event, answered, refused, Steps, done, then,
}

module _ {ℓ κ} {A : Type ℓ} (P : A → Type κ) where
  All-set : (xs : List A) (i : ℕ) (a : A) → All P xs → P a → All P (set xs i a)
  All-set [] i a h p = tt
  All-set (x ∷ xs) zero a (q, h) p = (p, h)
  All-set (x ∷ xs) (suc i) a (q, h) p = (q, All-set xs i a h p)

  All-get : (xs : List A) (i : ℕ) (a : A) → All P xs → get_elem? xs i ≡ some a → P a
  All-get [] i a h e = absurd (cc)
  All-get (x ∷ xs) zero a (q, h) e = subst P (cc) q
  All-get (x ∷ xs) (suc i) a (q, h) e = All-get xs i a h e

  All-filter : (p : A → Bool) (xs : List A) → All P xs → All P (filter p xs)
  All-filter p [] h = tt
  All-filter p (x ∷ xs) (q, h) = elim (Bool-cases (p x)) [
    | inl t ↦ rw t (q, All-filter p xs h)
    | inr t ↦ rw t (All-filter p xs h)
  ]

  All-take : (n : ℕ) (xs : List A) → All P xs → All P (take n xs)
  All-take zero xs h = tt
  All-take (suc n) [] h = tt
  All-take (suc n) (x ∷ xs) (q, h) = (q, All-take n xs h)

  All-drop : (n : ℕ) (xs : List A) → All P xs → All P (drop n xs)
  All-drop zero xs h = h
  All-drop (suc n) [] h = tt
  All-drop (suc n) (x ∷ xs) (q, h) = All-drop n xs h

  All-swap :
      (xs : List A) (i j : ℕ) (a b : Option A)
      → All P xs
      → get_elem? xs i ≡ a
      → get_elem? xs j ≡ b
      → All P (swap_at xs i j a b)
  unfolding swap_at
  All-swap xs i j (some a) (some b) h e f =
      All-set (set xs i b) j a (All-set xs i b h (All-get xs j b h f)) (All-get xs i a h e)
  All-swap xs i j none b h e f = h
  All-swap xs i j (some a) none h e f = h

  All-move_to : (xs : List A) (i : ℕ) (j : Option ℕ) → All P xs → All P (move_to xs i j)
  unfolding move_to
  All-move_to xs i none h = h
  All-move_to xs i (some j) h = elim (Bool-cases (leb (length xs) i || leb (length xs) j)) [
    | inl t ↦ rw t h
    | inr t ↦ rw t (All-swap xs i j (get_elem? xs i) (get_elem? xs j) h refl refl)
  ]

  All-move : (xs : List A) (i : ℕ) (delta : Delta) → All P xs → All P (move_draft xs i delta)
  unfolding move_draft
  All-move xs i delta h = All-move_to xs i (target i delta) h

  All-each : (f : A → A) (xs : List A) → ((x : A) → P x → P (f x)) → All P xs → All P (map f xs)
  All-each f [] k h = tt
  All-each f (x ∷ xs) k (q, h) = (k x q, All-each f xs k h)

-- A stored walk has a distance.
abbrev pub HasDistance : RouteLeg → Type 0
HasDistance leg = leg.leg_type ≡ walk → is_some leg.planned_distance_m ≡ true

module _ (walk_distance : LatLng → LatLng → Number) (same_number : Number → Number → Bool)
    (json : List RouteLegRequest → Str) (origin destination : LatLng) where
  -- A distance that is not marked as edited is the straight one of the walk's ends, and missing if an end is.
  pub IsStraight : LegDraft → Type 0
  IsStraight (walk_draft d) =
      d.distance_edited ≡ false
      → d.planned_distance_m ≡ straight walk_distance same_number json d.start d.end
  IsStraight (transit_draft d) = Unit

  refilled-IsStraight :
      (d : WalkDraft) → IsStraight (walk_draft (refilled walk_distance same_number json d))
  unfolding IsStraight
  refilled-IsStraight d e = rw e refl

  walk-IsStraight :
      (f : WalkDraft → WalkDraft)
      → ((d : WalkDraft) → IsStraight (walk_draft d) → IsStraight (walk_draft (f d)))
      → (key : Str) (x : LegDraft) → IsStraight x
      → IsStraight (if_key key (if_walk f) x)
  unfolding IsStraight
  walk-IsStraight f k key (walk_draft d) h = elim (Bool-cases (str_eq d.key key)) [
    | inl t ↦ rw t (k d h)
    | inr t ↦ rw t h
  ]
  walk-IsStraight f k key (transit_draft d) h = elim (Bool-cases (str_eq d.key key)) [
    | inl t ↦ rw t tt
    | inr t ↦ rw t tt
  ]

  transit-IsStraight :
      (f : TransitDraft → TransitDraft) (key : Str) (x : LegDraft)
      → IsStraight x
      → IsStraight (if_key key (if_transit f) x)
  unfolding IsStraight
  transit-IsStraight f key (walk_draft d) h = elim (Bool-cases (str_eq d.key key)) [
    | inl t ↦ rw t h
    | inr t ↦ rw t h
  ]
  transit-IsStraight f key (transit_draft d) h = elim (Bool-cases (str_eq d.key key)) [
    | inl t ↦ rw t tt
    | inr t ↦ rw t tt
  ]

  follow-IsStraight :
      (e : WalkEnd) (old : Option LatLng) (new : TransitStop) (x : LegDraft)
      → IsStraight x
      → IsStraight (follow walk_distance same_number json e old new x)
  unfolding IsStraight
  follow-IsStraight e old new (walk_draft d) h =
      elim (Bool-cases (
        is_unset walk_distance same_number json (end_at e d)
        || same_point walk_distance same_number json (end_at e d) old)) [
          | inl t ↦ rw t (refilled-IsStraight (set_end e (point_of (some new)) d))
          | inr t ↦ rw t h
        ]
  follow-IsStraight e old new (transit_draft d) h = tt

  choose_at-IsStraight :
      (j i : ℕ) (d : TransitDraft) (which : StopWhich) (new : TransitStop) (xs : List LegDraft)
      → All IsStraight xs
      → All IsStraight (choose_at walk_distance same_number json j i d which new xs)
  unfolding choose_at IsStraight
  choose_at-IsStraight j i d which new [] h = tt
  choose_at-IsStraight j i d which new (x ∷ xs) (q, h) =
      let rest = choose_at-IsStraight (j + 1) i d which new xs h in
      elim (Bool-cases (j == i)) [
        | inl t ↦ rw t (tt, rest)
        | inr t ↦ elim (Bool-cases (is_place walk_distance same_number json (beside which i) j)) [
          | inl b ↦
              rw (t, b)
                (follow-IsStraight (end_beside which) (point_of (stop_at which d)) new x q, rest)
          | inr b ↦ rw (t, b) (q, rest)
        ]
      ]

  stored-IsStraight :
      (t : LegType) (leg : RouteLeg)
      → leg.leg_type ≡ t
      → HasDistance leg
      → IsStraight (draft_of_type t leg)
  unfolding draft_of_type IsStraight
  stored-IsStraight walk leg e h = λ not_edited. let edited = h e in absurd (cc)
  stored-IsStraight transit leg e h = tt

  drafts_from_legs-IsStraight :
      (legs : List RouteLeg) → All HasDistance legs → All IsStraight (drafts_from_legs legs)
  unfolding drafts_from_legs
  drafts_from_legs-IsStraight legs h = go (sort leg_le legs) (sort-All leg_le HasDistance legs h)
    where
      go :
          (xs : List RouteLeg)
          → All HasDistance xs
          → All IsStraight (map (λ leg. draft_of_type leg.leg_type leg) xs)
      go [] k = tt
      go (x ∷ xs) (q, k) = (stored-IsStraight x.leg_type x refl q, go xs k)

  abbrev drafts_of : List LegDraft → Option Editor → List LegDraft
  drafts_of other none = other
  drafts_of other (some t) = t.drafts

  pick_to-IsStraight :
      (target : PickTarget) (key : Str) (p : LatLng) (s : Editor)
      → All IsStraight s.drafts
      → All IsStraight (pick_to walk_distance same_number json target key p s).drafts
  pick_to-IsStraight (walk_end which) key p s h =
      All-each IsStraight _ s.drafts
        (walk-IsStraight _ (λ d _. refilled-IsStraight (set_end which (some p) d)) key) h
  pick_to-IsStraight (stop which) key p s h = h
  pick_to-IsStraight signal key p s h = h

  pick_point-IsStraight :
      (pick : Option Pick) (p : LatLng) (s : Editor)
      → All IsStraight s.drafts
      → All IsStraight (pick_point walk_distance same_number json pick p s).drafts
  pick_point-IsStraight none p s h = h
  pick_point-IsStraight (some pick) p s h = pick_to-IsStraight pick.target pick.key p s h

  choose_in-IsStraight :
      (i : Option ℕ) (d : Option LegDraft) (which : StopWhich) (new : TransitStop) (s : Editor)
      → All IsStraight s.drafts
      → All IsStraight
          (drafts_of s.drafts (choose_in walk_distance same_number json i d which new s))
  choose_in-IsStraight none d which new s h = h
  choose_in-IsStraight (some i) none which new s h = h
  choose_in-IsStraight (some i) (some (walk_draft w)) which new s h = h
  choose_in-IsStraight (some i) (some (transit_draft t)) which new s h =
      choose_at-IsStraight 0 i t which new s.drafts h

  new_walk-IsStraight :
      (start end : Option LatLng) (next_key : ℕ)
      → IsStraight (new_walk walk_distance same_number json start end next_key)
  unfolding IsStraight
  new_walk-IsStraight start end next_key e = refl

  new_transit-IsStraight : (next_key : ℕ) → IsStraight (new_transit next_key).0
  unfolding IsStraight new_transit
  new_transit-IsStraight next_key = tt

  insert_in-IsStraight :
      (i : Option ℕ) (d : Option LegDraft) (s : Editor)
      → All IsStraight s.drafts
      → All IsStraight (drafts_of s.drafts (insert_in walk_distance same_number json i d s))
  insert_in-IsStraight none d s h = h
  insert_in-IsStraight (some i) none s h = h
  insert_in-IsStraight (some i) (some (transit_draft t)) s h = h
  insert_in-IsStraight (some i) (some (walk_draft w)) s h =
      All-append IsStraight (take i s.drafts) _ (All-take IsStraight i s.drafts h) (
        refilled-IsStraight (set_end at_end none (record w { distance_edited = false })),
        (
          new_transit-IsStraight s.next_key,
          (new_walk-IsStraight none w.end _, All-drop IsStraight (i + 1) s.drafts h),
        ),
      )

  search_near-IsStraight :
      (key : Str) (which : StopWhich) (i : Option ℕ) (d : Option LegDraft) (s : Editor)
      → All IsStraight s.drafts
      → All IsStraight (
          drafts_of s.drafts
            (search_near walk_distance same_number json origin destination key which i d s))
  search_near-IsStraight key which none d s h = h
  search_near-IsStraight key which (some i) none s h = h
  search_near-IsStraight key which (some i) (some (walk_draft w)) s h = h
  search_near-IsStraight key which (some i) (some (transit_draft t)) s h = h

  save_if-drafts : (errors : List LegError) (s : Editor) → (save_if errors s).drafts ≡ s.drafts
  save_if-drafts [] s = refl
  save_if-drafts (e ∷ errors) s = refl

  typed-IsStraight :
      (m : Option Number) (d : WalkDraft)
      → IsStraight (walk_draft (typed walk_distance same_number json origin destination m d))
  unfolding IsStraight
  typed-IsStraight m d e = absurd (cc)

  crossed-IsStraight :
      (stored : List SignalCrossing) (d : WalkDraft)
      → IsStraight (walk_draft d)
      → IsStraight (walk_draft (with_crossings stored d))
  unfolding IsStraight
  crossed-IsStraight stored d h = h

  apply-IsStraight :
      (e : Event) (s : Editor)
      → All IsStraight s.drafts
      → All IsStraight
          (drafts_of s.drafts (apply walk_distance same_number json origin destination e s))
  unfolding apply on_map_click remove save on_crossings_saved add_transit add_walk
      insert_transit_after choose_stop
  apply-IsStraight (map_clicked p) s h = pick_point-IsStraight s.pick p s h
  apply-IsStraight (pick_toggled key target) s h = h
  apply-IsStraight (leg_selected key) s h = h
  apply-IsStraight (leg_removed key) s h = All-filter IsStraight _ s.drafts h
  apply-IsStraight (transit_inserted key) s h = insert_in-IsStraight _ _ s h
  apply-IsStraight (straight_asked key) s h =
      All-each IsStraight _ s.drafts
        (walk-IsStraight _
          (λ d _.
            refilled-IsStraight (set_end at_start d.start (record d { distance_edited = false })))
          key)
        h
  apply-IsStraight (leg_moved i delta) s h = All-move IsStraight s.drafts i delta h
  apply-IsStraight (end_dragged key which p) s h =
      All-each IsStraight _ s.drafts
        (walk-IsStraight _ (λ d _. refilled-IsStraight (set_end which (some p) d)) key) h
  apply-IsStraight (distance_typed key m) s h =
      All-each IsStraight _ s.drafts (walk-IsStraight _ (λ d _. typed-IsStraight m d) key) h
  apply-IsStraight (travel_typed key sec) s h =
      All-each IsStraight _ s.drafts (transit-IsStraight _ key) h
  apply-IsStraight (line_chosen key line) s h =
      All-each IsStraight _ s.drafts (transit-IsStraight _ key) h
  apply-IsStraight (stops_asked key which) s h = search_near-IsStraight key which _ _ s h
  apply-IsStraight (stop_chosen key which new) s h = choose_in-IsStraight _ _ which new s h
  apply-IsStraight walk_added s h =
      All-append IsStraight s.drafts _ h (new_walk-IsStraight _ _ s.next_key, tt)
  apply-IsStraight transit_added s h =
      All-append IsStraight s.drafts _ h (new_transit-IsStraight s.next_key, tt)
  apply-IsStraight save_pressed s h =
      subst (All IsStraight) (sym (save_if-drafts (validate_drafts s.drafts) s)) h
  apply-IsStraight signal_cleared s h = h
  apply-IsStraight (crossings_set items) s h = h
  apply-IsStraight (crossings_saved key stored) s h =
      All-each IsStraight _ s.drafts (walk-IsStraight _ (crossed-IsStraight stored) key) h

  Step-IsStraight :
      {s t : Editor}
      → All IsStraight s.drafts
      → Step walk_distance same_number json origin destination (All HasDistance) s t
      → All IsStraight t.drafts
  unfolding on_saved
  Step-IsStraight {s = s} h (event e p) =
      subst (All IsStraight) (ap (drafts_of s.drafts) p) (apply-IsStraight e s h)
  Step-IsStraight h (answered before after sent legs e k) = drafts_from_legs-IsStraight legs k
  Step-IsStraight h (refused before after sent e) = h

  first-IsStraight :
      (legs : List RouteLeg) (next_key : ℕ)
      → All HasDistance legs
      → All IsStraight
          (first_drafts walk_distance same_number json origin destination next_key legs)
  first-IsStraight [] next_key h = (new_walk-IsStraight _ _ next_key, tt)
  first-IsStraight (leg ∷ legs) next_key h = drafts_from_legs-IsStraight (leg ∷ legs) h

  -- If every walk that the server stores has a distance: whatever is edited, in whatever order, the distance of
  -- each walk that is not marked as edited is the straight one of its ends, and missing as long as an end is. A
  -- distance is marked where the user typed it and where it came from the server, until the straight one is
  -- asked for or a ride is put behind the walk.
  pub Steps-IsStraight :
      (legs : List RouteLeg) (next_key : ℕ) {t : Editor}
      → All HasDistance legs
      → Steps walk_distance same_number json origin destination
          (All HasDistance)
          (first_editor walk_distance same_number json origin destination legs next_key)
          t
      → All IsStraight t.drafts
  unfolding first_editor
  Steps-IsStraight legs next_key h done = first-IsStraight legs next_key h
  Steps-IsStraight legs next_key h (then steps step) =
      Step-IsStraight (Steps-IsStraight legs next_key h steps) step
