-- ===== src/Legs/Validate.antt =====
-- legRules.ts `validateLegRequests` and `validateDrafts`: the list of problems, each by what it says and
-- the values that its text holds.
pub mod Correct
pub mod Ids
pub mod Rules
pub mod Modes
use when_i_off.Prelude.{
  Str, ℕ, suc, ◌+◌, ◌≡◌, Bool, true, false, ◌&&◌, ◌||◌, not, List, [], ◌∷◌, ◌++◌, Option, none,
  some, map, if◌then◌else◌, leb, ltb, ◌==◌, length, filter, any, all, is_some, count,
}
use when_i_off.Prelude.Int.{negate}
use when_i_off.Prelude.Sort.{sort}
use when_i_off.Prelude.Number.{Number, of_ℕ, ratio, is_integer, is_finite, num_le, num_lt}
use when_i_off.Api.{LegType, walk, transit, TransitMode, mode_eq, is_walk, TransitLine, TransitStop}
use when_i_off.Legs.{
  RouteLegRequest, LegDraft, walk_draft, transit_draft, to_leg_requests, TransitDraft,
}

pub data LegError : Type 0 where
  no_legs : LegError
  bad_order bad_start bad_end bad_distance bad_travel : Number → LegError
  not_contiguous : List Number → LegError
  not_walk_at_ends : LegError
  same_kind : Number → Number → LegType → LegError
  repeated_id : ℕ → LegError
  walk_without_ends walk_with_transit : Number → LegError
  no_line no_board no_alight no_travel transit_with_walk same_stop : Number → LegError
  wrong_mode : ℕ → TransitMode → LegError

-- `isValidLatLng({ lat, lng: 0 })`, and the same of a longitude
abbrev pub valid_degrees : ℕ → Number → Bool
valid_degrees limit x = is_finite x && num_le (ratio (negate limit) 0) x && num_le x (of_ℕ limit)

abbrev pub bad_degrees : ℕ → Option Number → Bool
bad_degrees limit none = false
bad_degrees limit (some x) = not (valid_degrees limit x)

abbrev pub error_if : Bool → LegError → List LegError
error_if b e = if b then e ∷ [] else []

-- `present(v) && !isPositive(v)`
abbrev pub bad_positive : Option Number → Bool
bad_positive none = false
bad_positive (some v) = not (is_finite v && num_lt (of_ℕ 0) v)

abbrev pub bad_seconds : Option Number → Bool
bad_seconds none = false
bad_seconds (some v) = not (is_integer v && num_lt (of_ℕ 0) v)

pub field_errors : RouteLegRequest → List LegError
field_errors r =
    error_if (not (is_integer r.seq_order && num_lt (of_ℕ 0) r.seq_order)) (bad_order r.seq_order)
    ++ (error_if (bad_degrees 90 r.start_lat || bad_degrees 180 r.start_lng) (bad_start r.seq_order)
        ++ (error_if (bad_degrees 90 r.end_lat || bad_degrees 180 r.end_lng) (bad_end r.seq_order)
            ++ (error_if (bad_positive r.planned_distance_m) (bad_distance r.seq_order)
                ++ error_if (bad_seconds r.planned_travel_sec) (bad_travel r.seq_order))))

pub flat_errors : (RouteLegRequest → List LegError) → List RouteLegRequest → List LegError
flat_errors f [] = []
flat_errors f (r ∷ rs) = f r ++ flat_errors f rs

-- `x === y`
abbrev pub num_eq : Number → Number → Bool
num_eq x y = num_le x y && num_le y x

-- `seqs.some((s, i) => s !== i + 1)`, the index being `i`
pub some_gap : ℕ → List RouteLegRequest → Bool
some_gap i [] = false
some_gap i (r ∷ rs) = not (num_eq r.seq_order (of_ℕ (i + 1))) || some_gap (i + 1) rs

abbrev pub last_type : LegType → List RouteLegRequest → LegType
last_type t [] = t
last_type t (r ∷ rs) = last_type r.leg_type rs

pub ends_not_walk : List RouteLegRequest → Bool
ends_not_walk [] = false
ends_not_walk (r ∷ rs) = not (is_walk r.leg_type) || not (is_walk (last_type r.leg_type rs))

abbrev pub same_type : LegType → LegType → Bool
same_type walk walk = true
same_type transit transit = true
same_type _ _ = false

pub neighbour_errors : List RouteLegRequest → List LegError
neighbour_errors [] = []
neighbour_errors (a ∷ []) = []
neighbour_errors (a ∷ b ∷ rest) =
    error_if (same_type a.leg_type b.leg_type) (same_kind a.seq_order b.seq_order a.leg_type)
    ++ neighbour_errors (b ∷ rest)

-- `ordered.map((r) => r.id).filter(present)`
pub present_ids : List (Option ℕ) → List ℕ
present_ids [] = []
present_ids (none ∷ os) = present_ids os
present_ids (some i ∷ os) = i ∷ present_ids os

-- `new Set(ids)`: the first of each id
pub id_set : List ℕ → List ℕ → List ℕ
id_set seen [] = []
id_set seen (i ∷ ids) =
    if any (λ x. x == i) seen then id_set seen ids else i ∷ id_set (i ∷ seen) ids

pub repeated : List ℕ → List ℕ → List LegError
repeated ids [] = []
repeated ids (i ∷ set) =
    error_if (ltb 1 (count (λ x. x == i) ids)) (repeated_id i) ++ repeated ids set

pub same_stops : Option ℕ → Option ℕ → Bool
same_stops (some a) (some b) = a == b
same_stops _ _ = false

pub kind_errors_of : LegType → RouteLegRequest → List LegError
kind_errors_of walk r =
    error_if
      (not (is_some r.start_lat && is_some r.start_lng && is_some r.end_lat && is_some r.end_lng))
      (walk_without_ends r.seq_order)
    ++ error_if
        (is_some r.transit_line_id
          || is_some r.board_stop_id
          || is_some r.alight_stop_id
          || is_some r.planned_travel_sec)
        (walk_with_transit r.seq_order)
kind_errors_of transit r =
    error_if (not (is_some r.transit_line_id)) (no_line r.seq_order)
    ++ (error_if (not (is_some r.board_stop_id)) (no_board r.seq_order)
        ++ (error_if (not (is_some r.alight_stop_id)) (no_alight r.seq_order)
            ++ (error_if (not (is_some r.planned_travel_sec)) (no_travel r.seq_order)
                ++ (error_if
                      (is_some r.start_lat
                        || is_some r.start_lng
                        || is_some r.end_lat
                        || is_some r.end_lng
                        || is_some r.planned_distance_m)
                      (transit_with_walk r.seq_order)
                    ++ error_if (same_stops r.board_stop_id r.alight_stop_id)
                        (same_stop r.seq_order)))))

pub kind_errors : RouteLegRequest → List LegError
kind_errors r = kind_errors_of r.leg_type r

-- `a.seqOrder - b.seqOrder` is not above 0
abbrev pub request_le : RouteLegRequest → RouteLegRequest → Bool
request_le a b = not (num_lt b.seq_order a.seq_order)

-- the checks of a list that is not empty, in the order of the sequence numbers
pub ordered_errors : List RouteLegRequest → List LegError
ordered_errors ordered =
    let ids = present_ids (map (λ (r : RouteLegRequest). r.id) ordered) in
    flat_errors field_errors ordered
    ++ (error_if (some_gap 0 ordered)
          (not_contiguous (map (λ (r : RouteLegRequest). r.seq_order) ordered))
        ++ (error_if (ends_not_walk ordered) not_walk_at_ends
            ++ (neighbour_errors ordered
                ++ (repeated ids (id_set [] ids) ++ flat_errors kind_errors ordered))))

unfoldable pub validate_leg_requests : List RouteLegRequest → List LegError
unfolding ordered_errors flat_errors field_errors some_gap ends_not_walk neighbour_errors
    present_ids id_set repeated same_stops kind_errors kind_errors_of sort
validate_leg_requests [] = no_legs ∷ []
validate_leg_requests (r ∷ rs) = ordered_errors (sort request_le (r ∷ rs))

abbrev pub other_mode : TransitMode → Option TransitStop → Bool
other_mode mode none = false
other_mode mode (some s) = not (mode_eq s.mode mode)

pub mode_errors_of : ℕ → Option TransitLine → TransitDraft → List LegError
mode_errors_of i none d = []
mode_errors_of i (some line) d =
    error_if (other_mode line.mode d.board_stop || other_mode line.mode d.alight_stop)
      (wrong_mode (i + 1) line.mode)

-- the `forEach` of `validateDrafts`
pub mode_errors : ℕ → List LegDraft → List LegError
mode_errors i [] = []
mode_errors i (walk_draft d ∷ ds) = mode_errors (i + 1) ds
mode_errors i (transit_draft d ∷ ds) = mode_errors_of i d.line d ++ mode_errors (i + 1) ds

unfoldable pub validate_drafts : List LegDraft → List LegError
unfolding mode_errors mode_errors_of validate_leg_requests to_leg_requests
validate_drafts drafts = validate_leg_requests (to_leg_requests drafts) ++ mode_errors 0 drafts
