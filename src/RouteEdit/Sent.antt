-- ===== src/RouteEdit/Sent.antt =====
-- What the editor sends.
use when_i_off.Prelude.{
  Str, ℕ, ◌≡◌, ◌≢◌, refl, sym, ◌∙◌, ap, subst, Bool, List, [], ◌∷◌, ◌++◌, Option, none, some, ◌⊎◌,
  inl, inr, All, All-append,
}
use when_i_off.Prelude.Number.{Number}
use when_i_off.Api.{TransitStop, RouteLeg}
use when_i_off.Legs.{LatLng, LegDraft, walk_draft, transit_draft, RouteLegRequest, to_leg_requests}
use when_i_off.Prelude.Sort.{sort}
use when_i_off.Legs.Validate.{request_le, LegError, validate_drafts}
use when_i_off.Legs.Validate.Rules.{IsValid}
use when_i_off.Legs.Validate.Modes.{IsOfOneMode, validate_drafts_iff}
use when_i_off.RouteEdit.{
  StopWhich, PickTarget, walk_end, stop, signal, Pick, pick_to, Editor, Save, first_editor,
  pick_point, on_map_click, choose_in, choose_stop, insert_in, insert_transit_after,
}
use when_i_off.RouteEdit.Events.{
  Event, map_clicked, pick_toggled, leg_selected, leg_removed, transit_inserted, straight_asked,
  leg_moved, end_dragged, distance_typed, travel_typed, line_chosen, stops_asked, stop_chosen,
  walk_added, transit_added, save_pressed, signal_cleared, crossings_set, crossings_saved, save_if,
  save, remove, on_crossings_saved, on_saved, search_near, add_transit, add_walk, apply, Step,
  event, answered, refused, Steps, done, then,
}

-- There are some requests, and in the order of their numbers they keep every rule for requests.
abbrev pub IsSent : Save → Type 0
IsSent sent = (sent.requests ≢ []) × IsValid (sort request_le sent.requests)

-- The requests are those of the drafts, they keep every rule for requests, and both stops of each ride in the
-- drafts are of its line's mode.
abbrev pub IsSentOf : List LegDraft → Save → Type 0
IsSentOf drafts sent =
    (sent.requests ≡ to_leg_requests drafts) × IsSent sent × All IsOfOneMode drafts

-- What one event does to the saves under way: nothing, or it ends one, or it adds one of the drafts as they are
-- before it.
pub data Sends (s t : Editor) : Type 0 where
  sends_nothing : t.saves ≡ s.saves → Sends s t
  ends_one :
      (before after : List Save) (sent : Save)
      → s.saves ≡ before ++ sent ∷ after
      → t.saves ≡ before ++ after
      → Sends s t
  sends_one : (sent : Save) → t.saves ≡ s.saves ++ sent ∷ [] → IsSentOf s.drafts sent → Sends s t

All_drop {ℓ κ} :
    {A : Type ℓ} (P : A → Type κ) (before after : List A) (x : A)
    → All P (before ++ x ∷ after)
    → All P (before ++ after)
All_drop P [] after x (p, q) = q
All_drop P (y ∷ ys) after x (p, q) = (p, All_drop P ys after x q)

save_if-Sends :
    (errors : List LegError) (s : Editor)
    → validate_drafts s.drafts ≡ errors
    → Sends s (save_if errors s)
save_if-Sends [] s e =
    let (some_legs, valid, modes) = (validate_drafts_iff s.drafts).0 e in
    sends_one _ refl (refl, (some_legs, valid), modes)
save_if-Sends (x ∷ errors) s e = sends_nothing refl

Sends-IsSent : {s t : Editor} → Sends s t → All IsSent s.saves → All IsSent t.saves
Sends-IsSent (sends_nothing e) h = subst (All IsSent) (sym e) h
Sends-IsSent (ends_one before after sent e k) h =
    subst (All IsSent) (sym k) (All_drop IsSent before after sent (subst (All IsSent) e h))
Sends-IsSent {s = s} (sends_one sent e (same, valid, modes)) h =
    subst (All IsSent) (sym e) (All-append IsSent s.saves (sent ∷ []) h (valid, tt))

module _ (walk_distance : LatLng → LatLng → Number) (same_number : Number → Number → Bool)
    (json : List RouteLegRequest → Str) (origin destination : LatLng) where
  pick_to-saves :
      (target : PickTarget) (key : Str) (p : LatLng) (s : Editor)
      → (pick_to walk_distance same_number json target key p s).saves ≡ s.saves
  pick_to-saves (walk_end which) key p s = refl
  pick_to-saves (stop which) key p s = refl
  pick_to-saves signal key p s = refl

  pick_point-saves :
      (pick : Option Pick) (p : LatLng) (s : Editor)
      → (pick_point walk_distance same_number json pick p s).saves ≡ s.saves
  pick_point-saves none p s = refl
  pick_point-saves (some pick) p s = pick_to-saves pick.target pick.key p s

  abbrev saves_of : List Save → Option Editor → List Save
  saves_of other none = other
  saves_of other (some t) = t.saves

  abbrev editor_of : Editor → Option Editor → Editor
  editor_of other none = other
  editor_of other (some t) = t

  choose_in-saves :
      (i : Option ℕ) (d : Option LegDraft) (which : StopWhich) (new : TransitStop) (s : Editor)
      → saves_of s.saves (choose_in walk_distance same_number json i d which new s) ≡ s.saves
  choose_in-saves none d which new s = refl
  choose_in-saves (some i) none which new s = refl
  choose_in-saves (some i) (some (walk_draft w)) which new s = refl
  choose_in-saves (some i) (some (transit_draft t)) which new s = refl

  insert_in-saves :
      (i : Option ℕ) (d : Option LegDraft) (s : Editor)
      → saves_of s.saves (insert_in walk_distance same_number json i d s) ≡ s.saves
  insert_in-saves none d s = refl
  insert_in-saves (some i) none s = refl
  insert_in-saves (some i) (some (walk_draft w)) s = refl
  insert_in-saves (some i) (some (transit_draft t)) s = refl

  search_near-saves :
      (key : Str) (which : StopWhich) (i : Option ℕ) (d : Option LegDraft) (s : Editor)
      → saves_of s.saves
          (search_near walk_distance same_number json origin destination key which i d s)
        ≡ s.saves
  search_near-saves key which none d s = refl
  search_near-saves key which (some i) none s = refl
  search_near-saves key which (some i) (some (walk_draft w)) s = refl
  search_near-saves key which (some i) (some (transit_draft t)) s = refl

  -- every event but a press of the button leaves what is under way
  apply-saves :
      (e : Event) (s : Editor)
      → (saves_of s.saves (apply walk_distance same_number json origin destination e s) ≡ s.saves)
        ⊎ (apply walk_distance same_number json origin destination e s ≡ some (save s))
  unfolding apply on_map_click remove on_crossings_saved add_transit add_walk insert_transit_after
      choose_stop
  apply-saves (map_clicked p) s = inl (pick_point-saves s.pick p s)
  apply-saves (pick_toggled key target) s = inl refl
  apply-saves (leg_selected key) s = inl refl
  apply-saves (leg_removed key) s = inl refl
  apply-saves (transit_inserted key) s = inl (insert_in-saves _ _ s)
  apply-saves (straight_asked key) s = inl refl
  apply-saves (leg_moved i delta) s = inl refl
  apply-saves (end_dragged key which p) s = inl refl
  apply-saves (distance_typed key m) s = inl refl
  apply-saves (travel_typed key sec) s = inl refl
  apply-saves (line_chosen key line) s = inl refl
  apply-saves (stops_asked key which) s = inl (search_near-saves key which _ _ s)
  apply-saves (stop_chosen key which new) s = inl (choose_in-saves _ _ which new s)
  apply-saves walk_added s = inl refl
  apply-saves transit_added s = inl refl
  apply-saves save_pressed s = inr refl
  apply-saves signal_cleared s = inl refl
  apply-saves (crossings_set items) s = inl refl
  apply-saves (crossings_saved key stored) s = inl refl

  Step-Sends :
      {HasLegs : List RouteLeg → Type 0} {s t : Editor}
      → Step walk_distance same_number json origin destination HasLegs s t
      → Sends s t
  unfolding save on_saved
  Step-Sends {s = s} (event e {t = t} p) = elim (apply-saves e s) [
    | inl q ↦ sends_nothing (sym (ap (saves_of s.saves) p) ∙ q)
    | inr q ↦
        subst (λ o. Sends s (editor_of s o)) (sym q ∙ p)
          (save_if-Sends (validate_drafts s.drafts) s refl)
  ]
  Step-Sends (answered before after sent legs e k) = ends_one before after sent e refl
  Step-Sends (refused before after sent e) = ends_one before after sent e refl

  Steps-All :
      {HasLegs : List RouteLeg → Type 0} (legs : List RouteLeg) (next_key : ℕ) {t : Editor}
      → Steps walk_distance same_number json origin destination HasLegs
          (first_editor walk_distance same_number json origin destination legs next_key)
          t
      → All IsSent t.saves
  unfolding first_editor
  Steps-All legs next_key done = tt
  Steps-All legs next_key (then steps step) =
      Sends-IsSent (Step-Sends step) (Steps-All legs next_key steps)

  -- Whatever is edited, in whatever order, and whenever the button is pressed or an answer comes: no save under
  -- way is empty, and each keeps every rule for requests; and the next event sends nothing but the requests of
  -- the drafts as they stand, which it does only if these requests keep every rule and both stops of each ride
  -- in the drafts are of its line's mode.
  pub Steps-IsSent :
      {HasLegs : List RouteLeg → Type 0} (legs : List RouteLeg) (next_key : ℕ) {s t : Editor}
      → Steps walk_distance same_number json origin destination HasLegs
          (first_editor walk_distance same_number json origin destination legs next_key)
          s
      → Step walk_distance same_number json origin destination HasLegs s t
      → All IsSent s.saves × Sends s t
  Steps-IsSent legs next_key steps step = (Steps-All legs next_key steps, Step-Sends step)
