-- ===== src/Tests/RouteEdit.antt =====
-- The editor on a short route.
use when_i_off.Prelude.{
  Str, codes, ◌≡◌, refl, Bool, true, false, List, [], ◌∷◌, Option, none, some, All, length,
}
use when_i_off.Prelude.Text.{str_eq}
use when_i_off.Prelude.Decimal.{decimal}
use when_i_off.Prelude.Sort.{sort}
use when_i_off.Prelude.Number.{Number, of_ℕ, num_lt, num_le, is_integer}
use when_i_off.Api.{subway, RouteLeg}
use when_i_off.Legs.{LatLng, RouteLegRequest, drafts_from_legs, to_leg_requests}
use when_i_off.Legs.Validate.{validate_drafts}
use when_i_off.RouteEdit.{
  is_dirty, board, Editor, first_editor, index_of, choose_stop, insert_transit_after,
}
use when_i_off.RouteEdit.Events.{
  Event, stops_asked, leg_removed, stop_chosen, save_pressed, transit_inserted, apply, event, Step,
  Steps, done, then, remove, save, on_saved, add_walk,
}
use when_i_off.RouteEdit.Sent.{IsSent, Sends, Steps-IsSent}
use when_i_off.RouteEdit.Straight.{HasDistance, IsStraight, Steps-IsStraight}
use when_i_off.Tests.Legs.{walk_leg, train_leg, stop}

-- all distances are 700 m, no two places are the same, and the text of requests is their number
abbrev far : LatLng → LatLng → Number
far a b = of_ℕ 700

abbrev never : Number → Number → Bool
never a b = false

abbrev count_text : List RouteLegRequest → Str
count_text requests = decimal (length requests)

abbrev home : LatLng
home = record { lat = of_ℕ 37; lng = of_ℕ 127 }

abbrev work : LatLng
work = record { lat = of_ℕ 38; lng = of_ℕ 127 }

abbrev short_route : List RouteLeg
short_route = walk_leg ∷ train_leg ∷ record walk_leg { id = 13; seq_order = 3 } ∷ []

abbrev opened : Editor
opened = first_editor far never count_text home work short_route 0

abbrev after : Event → Option Editor → Option Editor
after e none = none
after e (some s) = apply far never count_text home work e s

-- A transit leg is removed while its stops are searched. The candidates stay on the map, and a click on one
-- looks up a draft that is no longer there.
removed_during_search :
    after (stop_chosen (codes "leg-12") board (stop 5)) (
      after
        (leg_removed (codes "leg-12"))
        (after (stops_asked (codes "leg-12") board) (some opened)))
    ≡ none
unfolding apply first_editor drafts_from_legs sort index_of str_eq decimal choose_stop remove
removed_during_search = refl

stored_distances : All HasDistance short_route
stored_distances = ((λ e. refl), ((λ e. absurd (cc)), ((λ e. refl), tt)))

abbrev inserted : Event
inserted = transit_inserted (codes "leg-11")

inserted_steps :
    (t : Editor) × Steps far never count_text home work (All HasDistance) opened t
    × (length t.drafts ≡ 5)
unfolding apply first_editor drafts_from_legs sort index_of str_eq decimal insert_transit_after
inserted_steps = (_, then done (event inserted refl), refl)

inserted-IsStraight : All (IsStraight far never count_text home work) (inserted_steps.0).drafts
inserted-IsStraight =
    Steps-IsStraight far never count_text home work short_route 0 stored_distances
      (inserted_steps.1)

abbrev subway_route : List RouteLeg
subway_route =
    walk_leg
    ∷ record train_leg { transit_line = some (record { id = 4; name = codes "4"; mode = subway }) }
    ∷ record walk_leg { id = 13; seq_order = 3 }
    ∷ []

saved_step :
    (t : Editor) × Step far never count_text home work
      (All HasDistance)
      (first_editor far never count_text home work subway_route 0)
      t
    × (length t.saves ≡ 1)
unfolding apply first_editor drafts_from_legs sort index_of str_eq decimal save validate_drafts
    num_lt num_le is_integer
saved_step = (_, event save_pressed refl, refl)

saved-IsSent :
    let opened = first_editor far never count_text home work subway_route 0 in
    All IsSent opened.saves × Sends opened (saved_step.0)
saved-IsSent = Steps-IsSent far never count_text home work subway_route 0 done (saved_step.1)

-- A walk that is added while the legs are being saved is gone when the answer comes, and the page says that
-- all is saved.
lost_by_answer :
    let pressed = first_editor far never count_text home work subway_route 0 in
    let edited = add_walk far never count_text home work (save pressed) in
    let answered =
      on_saved far never count_text home work
        (record { requests = []; selected_index = none })
        subway_route
        edited in
    (length edited.drafts ≡ 4)
    × (length answered.drafts ≡ 3)
    × (answered.saved ≡ true)
    × (is_dirty far never count_text answered ≡ false)
unfolding add_walk on_saved is_dirty first_editor drafts_from_legs sort str_eq decimal save
    validate_drafts num_lt num_le is_integer to_leg_requests
lost_by_answer = (refl, refl, refl, refl)
