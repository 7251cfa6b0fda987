-- ===== src/Legs/Validate/Modes.antt =====
-- `validateDrafts`: the rules of the requests, and stops of the same mode as their line.
use when_i_off.Prelude.{
  ℕ, ◌+◌, ◌≡◌, ◌≢◌, ◌↔◌, refl, true, false, List, [], ◌∷◌, Option, none, some, All, arith,
  append_eq_nil_iff,
}
use when_i_off.Prelude.Sort.{sort}
use when_i_off.Api.{TransitMode, TransitLine, TransitStop, mode_eq, bus, subway, gtx}
use when_i_off.Legs.{LegDraft, walk_draft, transit_draft, TransitDraft, to_leg_requests}
use when_i_off.Legs.Validate.{
  other_mode, mode_errors_of, mode_errors, request_le, validate_leg_requests, validate_drafts,
}
use when_i_off.Legs.Validate.Rules.{IsValid}
use when_i_off.Legs.Validate.Correct.{validate_leg_requests_iff}

-- A stop, if there is one, is of the mode.
abbrev pub IsStopOf : TransitMode → Option TransitStop → Type 0
IsStopOf mode none = Unit
IsStopOf mode (some s) = s.mode ≡ mode

abbrev pub IsOfLine : Option TransitLine → TransitDraft → Type 0
IsOfLine none d = Unit
IsOfLine (some line) d = IsStopOf line.mode d.board_stop × IsStopOf line.mode d.alight_stop

-- Both stops of a transit leg are of its line's mode.
abbrev pub IsOfOneMode : LegDraft → Type 0
IsOfOneMode (walk_draft d) = Unit
IsOfOneMode (transit_draft d) = IsOfLine d.line d

mode_eq_iff : (a b : TransitMode) → (mode_eq a b ≡ true) ↔ (a ≡ b)
mode_eq_iff bus b = ground arith
mode_eq_iff subway b = ground arith
mode_eq_iff gtx b = ground arith

other_mode_iff :
    (mode : TransitMode) (s : Option TransitStop) → (other_mode mode s ≡ false) ↔ IsStopOf mode s
other_mode_iff mode none = ((λ _. tt), (λ _. refl))
other_mode_iff mode (some s) = ground (arith, mode_eq_iff s.mode mode)

mode_errors_of_iff :
    (i : ℕ) (line : Option TransitLine) (d : TransitDraft)
    → (mode_errors_of i line d ≡ []) ↔ IsOfLine line d
unfolding mode_errors_of
mode_errors_of_iff i none d = ((λ _. tt), (λ _. refl))
mode_errors_of_iff i (some line) d =
    ground (arith, other_mode_iff line.mode d.board_stop, other_mode_iff line.mode d.alight_stop)

mode_errors_iff : (i : ℕ) (ds : List LegDraft) → (mode_errors i ds ≡ []) ↔ All IsOfOneMode ds
unfolding mode_errors
mode_errors_iff i [] = ((λ _. tt), (λ _. refl))
mode_errors_iff i (walk_draft d ∷ ds) = ground (arith, mode_errors_iff (i + 1) ds)
mode_errors_iff i (transit_draft d ∷ ds) = ground (
  arith,
  mode_errors_iff (i + 1) ds,
  mode_errors_of_iff i d.line d,
  append_eq_nil_iff (mode_errors_of i d.line d) (mode_errors (i + 1) ds),
)

-- The client finds no problem in the drafts of a route if and only if there are some, their requests keep every
-- rule for requests (ranges, numbers, types, ids and fields) and both stops of each transit leg are of its
-- line's mode.
pub validate_drafts_iff :
    (drafts : List LegDraft)
    → (validate_drafts drafts ≡ []) ↔ (
        (to_leg_requests drafts ≢ [])
        × IsValid (sort request_le (to_leg_requests drafts))
        × All IsOfOneMode drafts)
unfolding validate_drafts
validate_drafts_iff drafts = ground (
  arith,
  append_eq_nil_iff (validate_leg_requests (to_leg_requests drafts)) (mode_errors 0 drafts),
  validate_leg_requests_iff (to_leg_requests drafts),
  mode_errors_iff 0 drafts,
)
