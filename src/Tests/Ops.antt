-- ===== src/Tests/Ops.antt =====
-- A quiet server and a failing one, and the labels of a chart.
use when_i_off.Prelude.{codes, ◌≡◌, refl, true, [], ◌∷◌, none, some, if◌then◌else◌}
use when_i_off.Prelude.Text.{str_eq}
use when_i_off.Prelude.Decimal.{decimal}
use when_i_off.Prelude.Number.{of_ℕ, num_le}
use when_i_off.Ops.{
  CallWindow, OpsStatus, critical, has_no_calls, is_high_failure, quota_level, failure_breakdown,
}
use when_i_off.Recommendations.Ends.{ChartRow}

abbrev quiet : CallWindow
quiet = record {
  calls = 0;
  failure_rate = some (of_ℕ 1);
  outcomes = record { http_error = 0; api_error = 3; timeout = 1; io_error = 0 };
}

abbrev idle : OpsStatus
idle = record { sources = record { ops = record { today = quiet; last_hour = quiet } ∷ [] } ∷ [] }

idle-has_no_calls : has_no_calls idle ≡ true
unfolding has_no_calls
idle-has_no_calls = refl

failing : is_high_failure (record { today = quiet; last_hour = record quiet { calls = 5 } }) ≡ true
unfolding is_high_failure num_le
failing = refl

used_up : quota_level (of_ℕ 1) ≡ critical
unfolding quota_level num_le
used_up = refl

two_kinds : failure_breakdown quiet ≡ codes "결과 코드 오류 3" ∷ codes "타임아웃 1" ∷ []
unfolding failure_breakdown decimal
two_kinds = refl

abbrev departed : ChartRow
departed key = if str_eq key (codes "actual0") then some (of_ℕ 480) else none

abbrev not_departed : ChartRow
not_departed key = none
