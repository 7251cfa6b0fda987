-- ===== src/Trips/Ticket/Whole.antt =====
-- ticket.ts `ticketTargetAt`, `buildTicket`, `ticketDate` and `ticketNo`: the ticket as a whole.
use when_i_off.Prelude.{
  Str, codes, ℕ, ◌≡◌, subst, Bool, false, ◌&&◌, List, ◌∷◌, ◌++◌, Option, none, some, if◌then◌else◌,
  leb, ◌==◌, length, take,
}
use when_i_off.Prelude.Int.{ℤ}
use when_i_off.Prelude.Number.{Number}
use when_i_off.Prelude.Decimal.{decimal, is_digit, pad_start}
use when_i_off.Api.{Direction, to_work, to_home, RouteLeg}
use when_i_off.Kst.{DateEngine, drop_millis}
use when_i_off.Trips.{CommuteTrip, truthy, seconds_if}
use when_i_off.Recommendations.{HistoryTrip, arrival_against_target}
use when_i_off.Trips.Ticket.Stamp.{says_late, is_late, ticket_stamp-arrival_against_target}
use when_i_off.Trips.Ticket.{TicketStamp, TicketSegment, ticket_stamp, ticket_segments}

-- The recommendation that a trip carries.
pub record TripRecommendation : Type 0 where
  pub target_arrival_at : Str
  pub recommended_leave_home_at : Str
  pub catch_probability : Option Number

-- A trip with its date and its recommendation, and what a ticket reads of a route.
pub record DatedTrip : Type 0 where
  pub trip : CommuteTrip
  pub trip_date : Str
  pub recommendation : Option TripRecommendation

pub record TicketRoute : Type 0 where
  pub direction : Direction
  pub default_target_arrival_time : Option Str

pub data TargetSource : Type 0 where
  by_recommendation by_route : TargetSource

pub record Ticket : Type 0 where
  pub direction : Str
  pub from : Str
  pub to : Str
  pub left_home_at : Option Str
  pub arrived_at : Option Str
  pub recommended_leave_at : Option Str
  pub leave_diff_sec : Option Number
  pub catch_probability : Option Number
  pub target_at : Option Str
  pub target_source : Option TargetSource
  pub arrival_diff_sec : Option Number
  pub stamp : TicketStamp
  pub segments : List TicketSegment

-- `/^\d{2}:\d{2}/.test(time)`
unfoldable pub starts_with_clock : Str → Bool
starts_with_clock (a ∷ b ∷ c ∷ d ∷ e ∷ s) =
    is_digit a && is_digit b && c == b':' && is_digit d && is_digit e
starts_with_clock s = false

unfoldable pub clock_text : Str → Str
clock_text time = if leb 8 (length time) then take 8 time else take 5 time ++ codes ":00"

abbrev pub direction_text : Option TicketRoute → Str
direction_text none = codes "이동"
direction_text (some r) = elim r.direction [ to_home ↦ codes "퇴근" | to_work ↦ codes "출근" ]

abbrev pub from_text : Option TicketRoute → Str
from_text none = codes "출발"
from_text (some r) = elim r.direction [ to_home ↦ codes "회사" | to_work ↦ codes "집" ]

abbrev pub to_text : Option TicketRoute → Str
to_text none = codes "도착"
to_text (some r) = elim r.direction [ to_home ↦ codes "집" | to_work ↦ codes "회사" ]

abbrev pub default_time : Option TicketRoute → Option Str
default_time none = none
default_time (some r) = r.default_target_arrival_time

-- `rec?.targetArrivalAt ?? routeTargetAt` and its source
abbrev pub target_or : Option TripRecommendation → Option Str → Option Str
target_or none route_target_at = route_target_at
target_or (some r) route_target_at = some r.target_arrival_at

abbrev pub source_or : Option TripRecommendation → Option Str → Option TargetSource
source_or none route_target_at = if truthy route_target_at then some by_route else none
source_or (some r) route_target_at = some by_recommendation

abbrev pub leave_of : Option TripRecommendation → Option Str
leave_of none = none
leave_of (some r) = some r.recommended_leave_home_at

abbrev pub probability_of : Option TripRecommendation → Option Number
probability_of none = none
probability_of (some r) = r.catch_probability

-- `WEEKDAY[day]`
weekday_text : ℕ → Str
weekday_text day =
    if day == 0
    then codes "일"
    else if day == 1
    then codes "월"
    else if day == 2
    then codes "화"
    else if day == 3
    then codes "수"
    else if day == 4
    then codes "목"
    else if day == 5
    then codes "금"
    else codes "토"

unfoldable pub ticket_no : ℕ → Str
ticket_no id = codes "No. " ++ pad_start 6 (decimal id)

module _ (date : DateEngine) where
  iso_of : Option ℤ → Option Str
  iso_of none = none
  iso_of (some ms) = some (drop_millis (date.to_iso_string ms))

  target_of_time : Str → Option Str → Option Str
  unfolding iso_of clock_text starts_with_clock
  target_of_time trip_date none = none
  target_of_time trip_date (some time) =
      if starts_with_clock time
      then iso_of (date.parse (trip_date ++ (codes "T" ++ (clock_text time ++ codes "+09:00"))))
      else none

  unfoldable pub ticket_target_at : Str → Option Str → Option Str
  unfolding target_of_time
  ticket_target_at trip_date time = target_of_time trip_date time

  -- `ticketDate`, with `getUTCDay`
  date_text : (ℤ → ℕ) → Str → Option ℤ → Str
  unfolding weekday_text
  date_text utc_day day none = day
  date_text utc_day day (some ms) = day ++ (codes " (" ++ (weekday_text (utc_day ms) ++ codes ")"))

  unfoldable pub ticket_date : (ℤ → ℕ) → Str → Str
  unfolding date_text
  ticket_date utc_day day = date_text utc_day day (date.parse (day ++ codes "T00:00:00Z"))

  unfoldable pub build_ticket :
      DatedTrip → Option TicketRoute → Option (List RouteLeg) → Bool → Ticket
  unfolding ticket_target_at
  build_ticket t route legs cancelled =
      let route_target_at = ticket_target_at t.trip_date (default_time route) in
      let target_at = target_or t.recommendation route_target_at in
      let arrival_diff_sec = seconds_if date.parse t.trip.arrived_destination_at target_at in
      record {
        direction = direction_text route;
        from = from_text route;
        to = to_text route;
        left_home_at = t.trip.left_home_at;
        arrived_at = t.trip.arrived_destination_at;
        recommended_leave_at = leave_of t.recommendation;
        leave_diff_sec = seconds_if date.parse t.trip.left_home_at (leave_of t.recommendation);
        catch_probability = probability_of t.recommendation;
        target_at = target_at;
        target_source = source_or t.recommendation route_target_at;
        arrival_diff_sec = arrival_diff_sec;
        stamp = ticket_stamp t.trip.arrived_destination_at arrival_diff_sec cancelled;
        segments = ticket_segments t.trip legs;
      }

-- A ticket that is not cancelled is stamped late exactly if the table of recommendations calls the same arrival
-- late against the target that the ticket shows, be it the recommendation's or the route's own.
pub build_ticket-arrival_against_target :
    (date : DateEngine) (t : DatedTrip) (route : Option TicketRoute) (legs : Option (List RouteLeg))
    (h : HistoryTrip)
    → h.arrived_destination_at ≡ t.trip.arrived_destination_at
    → let ticket = build_ticket date t route legs false in
      says_late ticket.stamp ≡ is_late (arrival_against_target date.parse h ticket.target_at)
unfolding build_ticket
build_ticket-arrival_against_target date t route legs h e =
    let target_at =
      target_or t.recommendation (ticket_target_at date t.trip_date (default_time route)) in
    subst
      (λ at.
        says_late (ticket_stamp at (seconds_if date.parse at target_at) false)
        ≡ is_late (arrival_against_target date.parse h target_at))
      e (ticket_stamp-arrival_against_target date.parse h target_at)
