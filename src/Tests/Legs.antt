-- ===== src/Tests/Legs.antt =====
-- A short route: its drafts, its requests, their checks, and moves.
use when_i_off.Prelude.{codes, ℕ, ◌≡◌, ◌≢◌, ◌↔◌, refl, List, [], ◌∷◌, none, some, All}
use when_i_off.Prelude.Sort.{sort}
use when_i_off.Prelude.Number.{of_ℕ, num_lt, num_le, is_integer}
use when_i_off.Api.{walk, transit, bus, subway, TransitStop, RouteLeg}
use when_i_off.Legs.{RouteLegRequest, leg_le, drafts_from_legs, to_leg_requests}
use when_i_off.Legs.Validate.{request_le, wrong_mode, validate_leg_requests, validate_drafts}
use when_i_off.Legs.Validate.Rules.{IsValid}
use when_i_off.Legs.Validate.Correct.{validate_leg_requests_iff}
use when_i_off.Legs.Validate.Modes.{IsOfOneMode, validate_drafts_iff}
use when_i_off.Legs.RoundTrip.{copies, to_leg_requests-drafts_from_legs}
use when_i_off.Legs.Crossings.{CrossingDraft}

abbrev pub walk_leg : RouteLeg
walk_leg = record {
  id = 11;
  seq_order = 1;
  leg_type = walk;
  start_lat = some (of_ℕ 37);
  start_lng = some (of_ℕ 127);
  end_lat = some (of_ℕ 38);
  end_lng = some (of_ℕ 127);
  planned_distance_m = some (of_ℕ 400);
  planned_travel_sec = none;
  transit_line = none;
  board_stop = none;
  alight_stop = none;
  signal_crossings = [];
}

abbrev pub stop : ℕ → TransitStop
stop n = record { id = n; name = codes "stop"; mode = subway; lat = of_ℕ 37; lng = of_ℕ 127 }

abbrev pub train_leg : RouteLeg
train_leg = record {
  id = 12;
  seq_order = 2;
  leg_type = transit;
  start_lat = none;
  start_lng = none;
  end_lat = none;
  end_lng = none;
  planned_distance_m = none;
  planned_travel_sec = some (of_ℕ 900);
  transit_line = some (record { id = 4; name = codes "4"; mode = bus });
  board_stop = some (stop 5);
  alight_stop = some (stop 6);
  signal_crossings = [];
}

abbrev last_leg : RouteLeg
last_leg = record walk_leg { id = 13; seq_order = 3 }

abbrev stored : List RouteLeg
stored = last_leg ∷ walk_leg ∷ train_leg ∷ []

stored_round_trip : to_leg_requests (drafts_from_legs stored) ≡ copies 0 (sort leg_le stored)
stored_round_trip = to_leg_requests-drafts_from_legs stored (
  (refl, refl, refl, refl, refl, refl),
  ((refl, refl, refl, refl, refl, refl), ((refl, refl, refl, refl, refl), tt)),
)

abbrev requests : List RouteLegRequest
requests = copies 0 (walk_leg ∷ train_leg ∷ last_leg ∷ [])

legs_checked :
    (validate_leg_requests requests ≡ []) ↔ ((requests ≢ []) × IsValid (sort request_le requests))
legs_checked = validate_leg_requests_iff requests

no_problem : validate_leg_requests requests ≡ []
unfolding validate_leg_requests num_lt num_le is_integer
no_problem = refl

line_of_other_mode : validate_drafts (drafts_from_legs stored) ≡ wrong_mode 2 bus ∷ []
unfolding validate_drafts drafts_from_legs num_lt num_le is_integer
line_of_other_mode = refl

abbrev three : List ℕ
three = 1 ∷ 2 ∷ 3 ∷ []

abbrev crossings : List CrossingDraft
crossings =
    record { traffic_signal_id = 7; approach_dir = codes "nt"; signal_kind = codes "Pd" }
    ∷ record { traffic_signal_id = 8; approach_dir = codes "xx"; signal_kind = codes "Pd" }
    ∷ []

drafts_checked : (validate_drafts (drafts_from_legs stored) ≡ []) ↔ (
    (to_leg_requests (drafts_from_legs stored) ≢ [])
    × IsValid (sort request_le (to_leg_requests (drafts_from_legs stored)))
    × All IsOfOneMode (drafts_from_legs stored))
drafts_checked = validate_drafts_iff (drafts_from_legs stored)
