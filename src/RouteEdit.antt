-- ===== src/RouteEdit.antt =====
-- desktop/src/pages/RouteEditPage.tsx `LegEditor`: the drafts of a route's legs, edited on cards and on the map,
-- and saved. An operation on a key that no draft has gives no state where the code throws.
pub mod Events
pub mod Sent
pub mod Straight
use when_i_off.Prelude.{
  Str, codes, str_eq, ℕ, zero, suc, ◌+◌, ◌-◌, ◌≡◌, Bool, true, false, ◌&&◌, ◌||◌, not, List, [],
  ◌∷◌, ◌++◌, map, filter, Option, none, some, if◌then◌else◌, ◌==◌, take, drop, get_elem?,
}
use when_i_off.Prelude.Decimal.{decimal}
use when_i_off.Prelude.Number.{Number}
use when_i_off.Api.{TransitLine, TransitStop, SignalCrossing, RouteLeg}
use when_i_off.Legs.{
  LatLng, WalkDraft, TransitDraft, LegDraft, walk_draft, transit_draft, RouteLegRequest,
  new_transit, drafts_from_legs, to_leg_requests,
}
use when_i_off.Legs.Validate.{LegError, validate_drafts}
use when_i_off.Legs.Crossings.{CrossingDraft}

pub data StopWhich : Type 0 where
  board alight : StopWhich

pub data WalkEnd : Type 0 where
  at_start at_end : WalkEnd

-- `PickTarget`
pub data PickTarget : Type 0 where
  walk_end : WalkEnd → PickTarget
  stop : StopWhich → PickTarget
  signal : PickTarget

pub record Pick : Type 0 where
  pub key : Str
  pub target : PickTarget

pub record StopSearch : Type 0 where
  pub key : Str
  pub which : StopWhich
  pub at : LatLng

pub record CrossingItems : Type 0 where
  pub key : Str
  pub items : List CrossingDraft

-- A save under way: the requests that it sent, and the place of the leg that was selected.
pub record Save : Type 0 where
  pub requests : List RouteLegRequest
  pub selected_index : Option ℕ

pub record Editor : Type 0 where
  pub drafts : List LegDraft
  pub baseline : Str
  pub selected : Option Str
  pub pick : Option Pick
  pub stop_search : Option StopSearch
  pub problems : List LegError
  pub saved : Bool
  pub crossings : Option CrossingItems
  pub new_signal_at : Option LatLng
  -- the counter of `newKey`
  pub next_key : ℕ
  pub saves : List Save

abbrev pub point_of : Option TransitStop → Option LatLng
point_of none = none
point_of (some s) = some (record { lat = s.lat; lng = s.lng })

abbrev pub key_of : LegDraft → Str
key_of (walk_draft d) = d.key
key_of (transit_draft d) = d.key

-- `drafts.findIndex((d) => d.key === key)`
unfoldable pub index_of : Str → List LegDraft → Option ℕ
index_of key [] = none
index_of key (d ∷ ds) =
    let rest : Option ℕ = elim (index_of key ds) [ none ↦ none | some i ↦ some (suc i) ] in
    if str_eq (key_of d) key then some 0 else rest

abbrev pub edit : List LegDraft → Editor → Editor
edit next s = record s { saved = false; problems = []; drafts = next }

abbrev pub is_nil {ℓ} : {A : Type ℓ} → List A → Bool
is_nil [] = true
is_nil (x ∷ xs) = false

abbrev pub if_key : Str → (LegDraft → LegDraft) → LegDraft → LegDraft
if_key key f d = if str_eq (key_of d) key then f d else d

abbrev pub update : Str → (LegDraft → LegDraft) → Editor → Editor
update key f s = edit (map (if_key key f) s.drafts) s

abbrev pub if_walk : (WalkDraft → WalkDraft) → LegDraft → LegDraft
if_walk f (walk_draft d) = walk_draft (f d)
if_walk f (transit_draft d) = transit_draft d

abbrev pub if_transit : (TransitDraft → TransitDraft) → LegDraft → LegDraft
if_transit f (walk_draft d) = walk_draft d
if_transit f (transit_draft d) = transit_draft (f d)

abbrev pub update_walk : Str → (WalkDraft → WalkDraft) → Editor → Editor
update_walk key f s = update key (if_walk f) s

abbrev pub update_transit : Str → (TransitDraft → TransitDraft) → Editor → Editor
update_transit key f s = update key (if_transit f) s

abbrev pub end_at : WalkEnd → WalkDraft → Option LatLng
end_at at_start d = d.start
end_at at_end d = d.end

abbrev pub set_end : WalkEnd → Option LatLng → WalkDraft → WalkDraft
set_end at_start p d = record d { start = p }
set_end at_end p d = record d { end = p }

abbrev pub stop_at : StopWhich → TransitDraft → Option TransitStop
stop_at board d = d.board_stop
stop_at alight d = d.alight_stop

abbrev pub set_stop_at : StopWhich → TransitStop → TransitDraft → TransitDraft
set_stop_at board s d = record d { board_stop = some s }
set_stop_at alight s d = record d { alight_stop = some s }

-- the end of the neighbouring walk that touches the stop
abbrev pub end_beside : StopWhich → WalkEnd
end_beside board = at_end
end_beside alight = at_start

-- `which === "board" ? i - 1 : i + 1`, if it is not below 0
abbrev pub beside : StopWhich → ℕ → Option ℕ
beside board zero = none
beside board (suc i) = some i
beside alight i = some (suc i)

abbrev pub get_at : List LegDraft → Option ℕ → Option LegDraft
get_at ds none = none
get_at ds (some i) = get_elem? ds i

abbrev pub point_or : Option LatLng → LatLng → LatLng
point_or none p = p
point_or (some q) p = q

abbrev pub same_target : PickTarget → PickTarget → Bool
same_target (walk_end at_start) (walk_end at_start) = true
same_target (walk_end at_end) (walk_end at_end) = true
same_target (stop board) (stop board) = true
same_target (stop alight) (stop alight) = true
same_target signal signal = true
same_target a b = false

abbrev pub is_pick : Str → PickTarget → Option Pick → Bool
is_pick key target none = false
is_pick key target (some pick) = str_eq pick.key key && same_target pick.target target

abbrev pub toggle_pick : Str → PickTarget → Editor → Editor
toggle_pick key target s = record s {
  pick = if is_pick key target s.pick then none else some (record { key = key; target = target });
}

-- The distance in a straight line in whole metres (`walkDistanceM`), equality of coordinates (`===`), and the
-- text that `JSON.stringify` makes of requests.
module _ (walk_distance : LatLng → LatLng → Number) (same_number : Number → Number → Bool)
    (json : List RouteLegRequest → Str) where
  abbrev pub straight : Option LatLng → Option LatLng → Option Number
  straight (some a) (some b) = some (walk_distance a b)
  straight a b = none

  abbrev pub new_walk : Option LatLng → Option LatLng → ℕ → LegDraft
  new_walk start end next_key = walk_draft (record {
    key = codes "new-" ++ decimal (next_key + 1);
    id = none;
    start = start;
    end = end;
    planned_distance_m = straight start end;
    distance_edited = false;
    signal_crossings = [];
  })

  abbrev pub refilled : WalkDraft → WalkDraft
  refilled d = record d {
    planned_distance_m = if d.distance_edited then d.planned_distance_m else straight d.start d.end;
  }

  abbrev pub with_point : WalkDraft → WalkEnd → Option LatLng → WalkDraft
  with_point d which p = refilled (set_end which p d)

  -- `same`
  abbrev pub same_point : Option LatLng → Option LatLng → Bool
  same_point (some a) (some b) = same_number a.lat b.lat && same_number a.lng b.lng
  same_point a b = false

  abbrev pub first_drafts : LatLng → LatLng → ℕ → List RouteLeg → List LegDraft
  first_drafts origin destination next_key [] =
      new_walk (some origin) (some destination) next_key ∷ []
  first_drafts origin destination next_key (leg ∷ legs) = drafts_from_legs (leg ∷ legs)

  unfoldable pub first_editor : LatLng → LatLng → List RouteLeg → ℕ → Editor
  first_editor origin destination legs next_key = record {
    drafts = first_drafts origin destination next_key legs;
    baseline = json (to_leg_requests (drafts_from_legs legs));
    selected = none;
    pick = none;
    stop_search = none;
    problems = [];
    saved = false;
    crossings = none;
    new_signal_at = none;
    next_key = if is_nil legs then next_key + 1 else next_key;
    saves = [];
  }

  -- `dirty`
  unfoldable pub is_dirty : Editor → Bool
  is_dirty s = not (str_eq (json (to_leg_requests s.drafts)) s.baseline)

  abbrev pub pick_to : PickTarget → Str → LatLng → Editor → Editor
  pick_to (walk_end which) key p s = update_walk key (λ d. with_point d which (some p)) s
  pick_to (stop which) key p s = record s {
    stop_search = some (record { key = key; which = which; at = p });
  }
  pick_to signal key p s = record s { new_signal_at = some p }

  abbrev pub pick_point : Option Pick → LatLng → Editor → Editor
  pick_point none p s = s
  pick_point (some pick) p s = record (pick_to pick.target pick.key p s) { pick = none }

  unfoldable pub on_map_click : LatLng → Editor → Editor
  on_map_click p s = pick_point s.pick p s

  -- the end of the walk beside a stop, if there is such a walk
  abbrev pub walk_point : WalkEnd → Option LegDraft → Option LatLng
  walk_point e (some (walk_draft d)) = end_at e d
  walk_point e d = none

  unfoldable pub nearby_anchor :
      LatLng → LatLng → ℕ → TransitDraft → StopWhich → List LegDraft → LatLng
  nearby_anchor origin destination i d which drafts =
      let home : LatLng = elim which [ board ↦ origin | alight ↦ destination ] in
      let own = point_or (point_of (stop_at which d)) home in
      elim (walk_point (end_beside which) (get_at drafts (beside which i))) [
        | some p ↦ p
        | none ↦ own
      ]

  abbrev pub is_unset : Option LatLng → Bool
  is_unset none = true
  is_unset (some p) = false

  -- the neighbouring walk follows the stop if its end is empty or was at the old stop
  abbrev pub follow : WalkEnd → Option LatLng → TransitStop → LegDraft → LegDraft
  follow e old new (walk_draft x) =
      if is_unset (end_at e x) || same_point (end_at e x) old
      then walk_draft (with_point x e (point_of (some new)))
      else walk_draft x
  follow e old new (transit_draft x) = transit_draft x

  -- what `drafts.map((x, j) => ...)` makes of the draft in place `j`
  abbrev pub is_place : Option ℕ → ℕ → Bool
  is_place none j = false
  is_place (some i) j = j == i

  unfoldable pub choose_at :
      ℕ → ℕ → TransitDraft → StopWhich → TransitStop → List LegDraft → List LegDraft
  choose_at j i d which new [] = []
  choose_at j i d which new (x ∷ xs) =
      (if j == i
        then transit_draft (set_stop_at which new d)
        else if is_place (beside which i) j
        then follow (end_beside which) (point_of (stop_at which d)) new x
        else x)
      ∷ choose_at (j + 1) i d which new xs

  abbrev pub choose_in :
      Option ℕ → Option LegDraft → StopWhich → TransitStop → Editor → Option Editor
  choose_in (some i) (some (transit_draft d)) which new s =
      some (record (edit (choose_at 0 i d which new s.drafts) s) { stop_search = none })
  choose_in i d which new s = none

  -- `chooseStop`: it throws if no draft has the key, and is never called with the key of a walk
  unfoldable pub choose_stop : Str → StopWhich → TransitStop → Editor → Option Editor
  unfolding choose_at index_of
  choose_stop key which new s =
      let i = index_of key s.drafts in choose_in i (get_at s.drafts i) which new s

  abbrev pub insert_in : Option ℕ → Option LegDraft → Editor → Option Editor
  insert_in (some i) (some (walk_draft w)) s =
      let (t, next_key) = new_transit s.next_key in
      some
        (record (edit
          (take i s.drafts
            ++ (walk_draft (with_point (record w { distance_edited = false }) at_end none)
                ∷ t
                ∷ new_walk none w.end next_key
                ∷ drop (i + 1) s.drafts))
          s) { selected = some (key_of t); next_key = next_key + 1 })
  insert_in i d s = none

  unfoldable pub insert_transit_after : Str → Editor → Option Editor
  unfolding index_of
  insert_transit_after key s = let i = index_of key s.drafts in insert_in i (get_at s.drafts i) s

  unfoldable pub last_point : LatLng → List LegDraft → Option LatLng
  last_point origin [] = some origin
  last_point origin (walk_draft d ∷ []) = d.end
  last_point origin (transit_draft d ∷ []) = point_of d.alight_stop
  last_point origin (d ∷ e ∷ ds) = last_point origin (e ∷ ds)
