-- ===== src/Trips/Ticket/Stamp.antt =====
-- The stamp of a ticket against the table of recommendations: both call the same arrivals late.
use when_i_off.Prelude.{Str, ◌≡◌, refl, Bool, true, false, [], ◌∷◌, Option, none, some, arith}
use when_i_off.Prelude.Int.{ℤ}
use when_i_off.Trips.{seconds_if}
use when_i_off.Recommendations.{HistoryTrip, Arrival, arrival_of, arrival_against_target}
use when_i_off.Trips.Ticket.{
  TicketStamp, on_time, late, in_progress, arrived, cancelled_trip, ticket_stamp,
}

abbrev pub is_late : Option Arrival → Bool
is_late none = false
is_late (some a) = a.late

abbrev pub says_late : TicketStamp → Bool
says_late s = elim s [
  | on_time ↦ false
  | late ↦ true
  | in_progress ↦ false
  | arrived ↦ false
  | cancelled_trip ↦ false
]

stamp_of_seconds :
    (parse : Str → Option ℤ) (at target : Option Str)
    → says_late (ticket_stamp at (seconds_if parse at target) false)
      ≡ is_late (arrival_of (seconds_if parse at target))
unfolding ticket_stamp seconds_if arrival_of
stamp_of_seconds parse none target = refl
stamp_of_seconds parse (some []) target = refl
stamp_of_seconds parse (some (c ∷ s)) none = refl
stamp_of_seconds parse (some (c ∷ s)) (some []) = refl
stamp_of_seconds parse (some (c ∷ s)) (some (d ∷ t)) = ground arith

-- A ticket that is not cancelled is stamped late, by the seconds from its target to its arrival, exactly if
-- the table of recommendations calls the same arrival against the same target late.
pub ticket_stamp-arrival_against_target :
    (parse : Str → Option ℤ) (trip : HistoryTrip) (target : Option Str)
    → says_late (
        ticket_stamp trip.arrived_destination_at
          (seconds_if parse trip.arrived_destination_at target)
          false)
      ≡ is_late (arrival_against_target parse trip target)
unfolding arrival_against_target
ticket_stamp-arrival_against_target parse trip target =
    stamp_of_seconds parse trip.arrived_destination_at target
