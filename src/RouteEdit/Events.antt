-- ===== src/RouteEdit/Events.antt =====
-- RouteEditPage.tsx: the events of the cards, the map and the buttons, and the answers to a save.
use when_i_off.Prelude.{
  Str, str_eq, ℕ, ◌+◌, ◌≡◌, Bool, true, false, not, List, [], ◌∷◌, ◌++◌, map, filter, Option, none,
  some, if◌then◌else◌,
}
use when_i_off.Prelude.Number.{Number}
use when_i_off.Api.{TransitLine, TransitStop, SignalCrossing, RouteLeg}
use when_i_off.Legs.{
  LatLng, WalkDraft, TransitDraft, LegDraft, transit_draft, RouteLegRequest, new_transit,
  drafts_from_legs, to_leg_requests,
}
use when_i_off.Legs.Move.{Delta, move_draft}
use when_i_off.Legs.Validate.{LegError, validate_drafts}
use when_i_off.Legs.Crossings.{CrossingDraft}
use when_i_off.RouteEdit.{
  StopWhich, WalkEnd, at_start, PickTarget, Editor, Save, CrossingItems, key_of, index_of, edit,
  if_key, if_walk, update_walk, update_transit, get_at, toggle_pick, new_walk, with_point,
  on_map_click, nearby_anchor, choose_stop, insert_transit_after, last_point,
}

abbrev pub keep_unless : Str → Option Str → Option Str
keep_unless key none = none
keep_unless key (some k) = if str_eq k key then none else some k

unfoldable pub remove : Str → Editor → Editor
remove key s = record (edit (filter (λ d. not (str_eq (key_of d) key)) s.drafts) s) {
  selected = keep_unless key s.selected;
}

abbrev pub index_of_selected : Option Str → List LegDraft → Option ℕ
index_of_selected none drafts = none
index_of_selected (some key) drafts = index_of key drafts

-- `save`, of the problems that the drafts have
abbrev pub save_if : List LegError → Editor → Editor
save_if [] s = record s {
  problems = [];
  saved = false;
  saves =
      s.saves
      ++ record {
        requests = to_leg_requests s.drafts;
        selected_index = index_of_selected s.selected s.drafts;
      }
        ∷ [];
}
save_if (e ∷ errors) s = record s { problems = e ∷ errors; saved = false }

unfoldable pub save : Editor → Editor
save s = save_if (validate_drafts s.drafts) s

abbrev pub key_at : Option LegDraft → Option Str
key_at none = none
key_at (some d) = some (key_of d)

abbrev pub with_crossings : List SignalCrossing → WalkDraft → WalkDraft
with_crossings stored d = record d { signal_crossings = stored }

unfoldable pub on_crossings_saved : Str → List SignalCrossing → Editor → Editor
on_crossings_saved key stored s = record s {
  drafts = map (if_key key (if_walk (with_crossings stored))) s.drafts;
  crossings = none;
}

-- `setCrossingItems`, which does nothing if no leg is selected
abbrev pub items_for : Option Str → List CrossingDraft → Option CrossingItems → Option CrossingItems
items_for none items old = old
items_for (some key) items old = some (record { key = key; items = items })

pub data Event : Type 0 where
  map_clicked : LatLng → Event
  pick_toggled : Str → PickTarget → Event
  leg_selected leg_removed transit_inserted straight_asked : Str → Event
  leg_moved : ℕ → Delta → Event
  end_dragged : Str → WalkEnd → LatLng → Event
  distance_typed travel_typed : Str → Option Number → Event
  line_chosen : Str → TransitLine → Event
  stops_asked : Str → StopWhich → Event
  stop_chosen : Str → StopWhich → TransitStop → Event
  walk_added transit_added save_pressed signal_cleared : Event
  crossings_set : List CrossingDraft → Event
  crossings_saved : Str → List SignalCrossing → Event

module _ (walk_distance : LatLng → LatLng → Number) (same_number : Number → Number → Bool)
    (json : List RouteLegRequest → Str) (origin destination : LatLng) where
  -- `onSuccess` of a save
  unfoldable pub on_saved : Save → List RouteLeg → Editor → Editor
  on_saved sent legs s =
      let next = drafts_from_legs legs in
      record s {
        drafts = next;
        baseline = json (to_leg_requests next);
        selected = key_at (get_at next sent.selected_index);
        crossings = none;
        saved = true;
      }

  abbrev pub search_near : Str → StopWhich → Option ℕ → Option LegDraft → Editor → Option Editor
  search_near key which (some i) (some (transit_draft d)) s = some (record s {
    stop_search = some (record {
      key = key;
      which = which;
      at = nearby_anchor walk_distance same_number json origin destination i d which s.drafts;
    });
  })
  search_near key which i d s = none

  unfoldable pub add_transit : Editor → Editor
  add_transit s =
      let (t, next_key) = new_transit s.next_key in
      record (edit (s.drafts ++ t ∷ []) s) { next_key = next_key }

  unfoldable pub add_walk : Editor → Editor
  add_walk s =
      record (edit
        (s.drafts
          ++ new_walk walk_distance same_number json
              (last_point walk_distance same_number json origin s.drafts) (some destination)
              s.next_key
            ∷ [])
        s) { next_key = s.next_key + 1 }

  abbrev pub typed : Option Number → WalkDraft → WalkDraft
  typed m d = record d { planned_distance_m = m; distance_edited = true }

  abbrev pub straightened : WalkDraft → WalkDraft
  straightened d =
      with_point walk_distance same_number json (record d { distance_edited = false }) at_start
        d.start

  abbrev pub with_line : TransitLine → TransitDraft → TransitDraft
  with_line line d = record d { line = some line }

  abbrev pub with_travel : Option Number → TransitDraft → TransitDraft
  with_travel sec d = record d { planned_travel_sec = sec }

  -- The state after an event; there is none where the code throws.
  unfoldable pub apply : Event → Editor → Option Editor
  unfolding on_map_click remove save on_crossings_saved add_transit add_walk
  apply (map_clicked p) s = some (on_map_click walk_distance same_number json p s)
  apply (pick_toggled key target) s = some (toggle_pick key target s)
  apply (leg_selected key) s = some (record s { selected = some key })
  apply (leg_removed key) s = some (remove key s)
  apply (transit_inserted key) s = insert_transit_after walk_distance same_number json key s
  apply (straight_asked key) s = some (update_walk key straightened s)
  apply (leg_moved i delta) s = some (edit (move_draft s.drafts i delta) s)
  apply (end_dragged key which p) s =
      some (update_walk key (λ d. with_point walk_distance same_number json d which (some p)) s)
  apply (distance_typed key m) s = some (update_walk key (typed m) s)
  apply (travel_typed key sec) s = some (update_transit key (with_travel sec) s)
  apply (line_chosen key line) s = some (update_transit key (with_line line) s)
  apply (stops_asked key which) s =
      let i = index_of key s.drafts in search_near key which i (get_at s.drafts i) s
  apply (stop_chosen key which stop) s = choose_stop walk_distance same_number json key which stop s
  apply walk_added s = some (add_walk s)
  apply transit_added s = some (add_transit s)
  apply save_pressed s = some (save s)
  apply signal_cleared s = some (record s { new_signal_at = none })
  apply (crossings_set items) s =
      some (record s { crossings = items_for s.selected items s.crossings })
  apply (crossings_saved key stored) s = some (on_crossings_saved key stored s)

  -- An event, the answer to a save with the legs that the server has then, or its refusal.
  pub data Step (HasLegs : List RouteLeg → Type 0) (s : Editor) : Editor → Type 0 where
    event : (e : Event) {t : Editor} → apply e s ≡ some t → Step HasLegs s t
    answered :
        (before after : List Save) (sent : Save) (legs : List RouteLeg)
        → s.saves ≡ before ++ sent ∷ after
        → HasLegs legs
        → Step HasLegs s (on_saved sent legs (record s { saves = before ++ after }))
    refused :
        (before after : List Save) (sent : Save)
        → s.saves ≡ before ++ sent ∷ after
        → Step HasLegs s (record s { saves = before ++ after })

  pub data Steps (HasLegs : List RouteLeg → Type 0) (s : Editor) : Editor → Type 0 where
    done : Steps HasLegs s s
    then : {t v : Editor} → Steps HasLegs s t → Step HasLegs t v → Steps HasLegs s v
