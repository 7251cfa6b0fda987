-- ===== src/Tests/NextDepartures.antt =====
-- The candidates of a small file and a small route.
use when_i_off.Prelude.{codes, ◌≡◌, refl, List, [], ◌∷◌, some}
use when_i_off.Prelude.Text.{str_eq}
use when_i_off.Prelude.Decimal.{decimal, number_from}
use when_i_off.Csv.Row.{ScheduleRow}
use when_i_off.NextDepartures.{KnownTransit, known_transit, stop_candidates}
use when_i_off.Prelude.{Str, ◌↔◌, none}
use when_i_off.Prelude.Int.{pos}
use when_i_off.Prelude.JsText.{trim}
use when_i_off.Prelude.Number.{Number, of_ℕ, num_lt, is_integer}
use when_i_off.Kst.{kst_input_to_iso}
use when_i_off.Queries.{NextDeparturesQuery}
use when_i_off.NextDepartures.Query.{
  NextDraft, query, next_query, draft_from_rows, format_wait, line_name,
}
use when_i_off.NextDepartures.Query.Accepted.{IsQueryOf, next_query_iff}
use when_i_off.Tests.Corrections.{one_day}
use when_i_off.Tests.Csv.{first_row, second_row}
use when_i_off.Tests.Legs.{walk_leg, train_leg}

abbrev rows : List ScheduleRow
rows = first_row ∷ second_row ∷ record first_row { line_id = codes "4"; stop_id = codes "6" } ∷ []

abbrev known : KnownTransit
known = known_transit (some (walk_leg ∷ train_leg ∷ []) ∷ [])

stops_of_four : stop_candidates (some 4) rows known ≡ 6 ∷ 5 ∷ []
unfolding stop_candidates known_transit str_eq decimal number_from
stops_of_four = refl

abbrev at_nine : NextDraft
at_nine = record {
  line_id = some (pos 3);
  line = none;
  stop_id = codes " 41";
  direction = codes "UP ";
  at = codes "2026-09-17T09:00";
  limit = codes "5";
}

abbrev asked_at_nine : NextDeparturesQuery
asked_at_nine = record {
  line_id = pos 3;
  stop_id = 41;
  direction = codes "UP";
  at = codes "2026-09-17T00:00:00Z";
  limit = 5;
}

-- the engine's `Number`, of the one text that is read
abbrev five : Str → Number
five s = of_ℕ 5

nine_accepted :
    (next_query one_day five at_nine ≡ query asked_at_nine)
    ↔ IsQueryOf one_day five at_nine asked_at_nine
nine_accepted = next_query_iff one_day five at_nine asked_at_nine

nine_asked : next_query one_day five at_nine ≡ query asked_at_nine
unfolding next_query kst_input_to_iso str_eq trim number_from num_lt is_integer
nine_asked = refl

filled_from_file : (draft_from_rows at_nine rows known).stop_id ≡ codes "41"
unfolding draft_from_rows number_from
filled_from_file = refl

waits : format_wait 375 ≡ codes "6시간 15분 뒤"
unfolding format_wait decimal
waits = refl

four_named : line_name (codes "4") known ≡ codes "4 #4"
unfolding line_name known_transit number_from str_eq
four_named = refl
