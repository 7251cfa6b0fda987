-- ===== src/Trips/Ticket.antt =====
-- desktop/src/trips/ticket.ts: the stamp of a ticket and its band of segments. A walk's distance and a
-- line's tone are rendered from the values that the segments hold here.
pub mod Missed
pub mod Stamp
pub mod Whole
use when_i_off.Prelude.{
  Str, ℕ, ◌+◌, ◌≡◌, Bool, true, false, ◌&&◌, not, List, [], ◌∷◌, ◌++◌, map, Option, none, some,
  if◌then◌else◌, leb, ◌==◌, any, filter, find?, length, count,
}
use when_i_off.Prelude.Sort.{sort}
use when_i_off.Prelude.Number.{Number, of_ℕ, num_lt}
use when_i_off.Api.{LegType, walk, transit, TransitLine, TransitStop, BoardingAttempt, RouteLeg}
use when_i_off.Trips.{
  CommuteTrip, truthy, Entry, add_attempts, by_leg, attempts_at, by_seq, is_caught, is_missed,
}
use when_i_off.Trips.Timeline.{leg_seq_le}
use mathlib.Core.Option

pub data TicketStamp : Type 0 where
  on_time late in_progress arrived cancelled_trip : TicketStamp

unfoldable pub ticket_stamp : Option Str → Option Number → Bool → TicketStamp
ticket_stamp arrived_at diff_sec cancelled =
    if cancelled
    then cancelled_trip
    else if not (truthy arrived_at)
    then in_progress
    else elim diff_sec [ none ↦ arrived | some d ↦ (if num_lt (of_ℕ 0) d then late else on_time) ]

pub record TicketMissed : Type 0 where
  pub attempt_seq : ℕ
  pub at : Option Str

pub data SegmentStatus : Type 0 where
  was_caught was_unknown was_none : SegmentStatus

pub record TransitSegment : Type 0 where
  pub leg_id : ℕ
  pub seq_order : Option ℕ
  pub line : Option TransitLine
  pub board : Option Str
  pub alight : Option Str
  pub departed_at : Option Str
  pub alighted_at : Option Str
  pub status : SegmentStatus
  pub missed : List TicketMissed

-- A segment's key is made of the leg's id.
pub data TicketSegment : Type 0 where
  walk_segment : (leg_id seq_order : ℕ) → Option Number → TicketSegment
  transit_segment : TransitSegment → TicketSegment

abbrev pub status_of : Option BoardingAttempt → List BoardingAttempt → SegmentStatus
status_of (some a) sorted = was_caught
status_of none [] = was_none
status_of none (a ∷ sorted) = was_unknown

abbrev pub and_then {ℓ κ} : {A : Type ℓ} {B : Type κ} → Option A → (A → Option B) → Option B
and_then none f = none
and_then (some a) f = f a

abbrev pub missed_of : BoardingAttempt → TicketMissed
missed_of a = record { attempt_seq = a.attempt_seq; at = a.vehicle_actual_departure_at }

-- `transitSegment`
unfoldable pub segment_of : ℕ → Option RouteLeg → List BoardingAttempt → TransitSegment
unfolding sort
segment_of leg_id leg attempts =
    let sorted = sort by_seq attempts in
    let caught = find? is_caught sorted in
    record {
      leg_id = leg_id;
      seq_order = Option.map (λ (l : RouteLeg). l.seq_order) leg;
      line = and_then leg (λ (l : RouteLeg). l.transit_line);
      board =
          Option.map (λ (s : TransitStop). s.name) (and_then leg (λ (l : RouteLeg). l.board_stop));
      alight =
          Option.map (λ (s : TransitStop). s.name) (and_then leg (λ (l : RouteLeg). l.alight_stop));
      departed_at = and_then caught (λ (a : BoardingAttempt). a.vehicle_actual_departure_at);
      alighted_at = and_then caught (λ (a : BoardingAttempt). a.alighted_at);
      status = status_of caught sorted;
      missed = map missed_of (filter is_missed sorted);
    }

pub leg_segment : LegType → RouteLeg → List BoardingAttempt → TicketSegment
leg_segment walk leg attempts = walk_segment leg.id leg.seq_order leg.planned_distance_m
leg_segment transit leg attempts = transit_segment (segment_of leg.id (some leg) attempts)

pub leg_segments : List Entry → List RouteLeg → List TicketSegment
unfolding leg_segment attempts_at segment_of
leg_segments entries [] = []
leg_segments entries (leg ∷ legs) =
    leg_segment leg.leg_type leg (attempts_at leg.id entries) ∷ leg_segments entries legs

abbrev pub or_none_of : Option (List RouteLeg) → List RouteLeg
or_none_of none = []
or_none_of (some legs) = legs

-- the entries of legs that are not in the list
pub other_segments : List RouteLeg → List Entry → List TicketSegment
unfolding segment_of
other_segments legs [] = []
other_segments legs (e ∷ entries) =
    let rest = other_segments legs entries in
    if any (λ (l : RouteLeg). l.id == e.leg_id) legs
    then rest
    else transit_segment (segment_of e.leg_id none e.attempts) ∷ rest

unfoldable pub ticket_segments : CommuteTrip → Option (List RouteLeg) → List TicketSegment
unfolding leg_segments other_segments add_attempts sort
ticket_segments trip legs =
    let entries = by_leg trip.boarding_attempts in
    leg_segments entries (sort leg_seq_le (or_none_of legs))
    ++ other_segments (or_none_of legs) entries
