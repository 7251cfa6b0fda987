-- ===== src/Tests/Map.antt =====
-- The map of a short route, and a whole ticket.
use when_i_off.Prelude.{codes, ◌*◌, ◌≡◌, refl, false, [], some, none, length}
use when_i_off.Prelude.Text.{str_eq}
use when_i_off.Prelude.Int.{pos}
use when_i_off.Prelude.Decimal.{decimal}
use when_i_off.Prelude.Number.{of_ℕ}
use when_i_off.Api.{bus, subway, to_home}
use when_i_off.Kst.{DateEngine}
use when_i_off.Legs.{LatLng}
use when_i_off.Recommendations.{HistoryTrip, arrival_against_target}
use when_i_off.Prelude.JsText.{js_space, starts_with}
use when_i_off.Map.{has_text, suin, bus_red, line_tone}
use when_i_off.Trips.Ticket.Stamp.{says_late, is_late}
use when_i_off.Trips.Ticket.Whole.{
  DatedTrip, TicketRoute, build_ticket, ticket_no, build_ticket-arrival_against_target,
}
use when_i_off.Tests.Corrections.{one_day}

abbrev home : LatLng
home = record { lat = of_ℕ 37; lng = of_ℕ 127 }

suin_line : line_tone (some (record { id = 1; name = codes "수인 분당선"; mode = subway })) ≡ suin
unfolding line_tone js_space has_text starts_with str_eq
suin_line = refl

red_bus : line_tone (some (record { id = 1; name = codes "4"; mode = bus })) ≡ bus_red
unfolding line_tone js_space has_text starts_with str_eq
red_bus = refl

six_digits : ticket_no 42 ≡ codes "No. 000042"
unfolding ticket_no decimal
six_digits = refl

-- a calendar that reads every text as the length of the text in seconds
abbrev by_length : DateEngine
by_length = record one_day { parse = λ s. some (pos (1000 * length s)) }

abbrev dated : DatedTrip
dated = record {
  trip = record {
    left_home_at = none;
    arrived_destination_at = some (codes "09:00:00");
    boarding_attempts = [];
  };
  trip_date = codes "2026-09-17";
  recommendation = none;
}

abbrev to_office : TicketRoute
to_office = record { direction = to_home; default_target_arrival_time = some (codes "09:00") }

abbrev same_trip : HistoryTrip
same_trip = record {
  trip_id = 1;
  left_home_at = none;
  arrived_destination_at = some (codes "09:00:00");
}

same_verdict :
    let ticket = build_ticket by_length dated (some to_office) none false in
    says_late ticket.stamp
    ≡ is_late (arrival_against_target by_length.parse same_trip ticket.target_at)
same_verdict =
    build_ticket-arrival_against_target by_length dated (some to_office) none same_trip refl
