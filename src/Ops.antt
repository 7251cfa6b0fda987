-- ===== src/Ops.antt =====
-- desktop/src/ops/ops.ts: what the operations page judges of the calls of external services.
pub mod Calls
use when_i_off.Prelude.{
  Str, codes, ℕ, ◌-◌, ◌^◌, ◌≡◌, Bool, true, false, ◌&&◌, ◌||◌, not, List, [], ◌∷◌, ◌++◌, map,
  filter, Option, none, some, if◌then◌else◌, ltb, ◌==◌, all, any,
}
use when_i_off.Prelude.Int.{pos}
use when_i_off.Prelude.Decimal.{decimal}
use when_i_off.Prelude.Number.{Number, of_ℕ, ratio, num_le}

pub record Outcomes : Type 0 where
  pub http_error : ℕ
  pub api_error : ℕ
  pub timeout : ℕ
  pub io_error : ℕ

pub record CallWindow : Type 0 where
  pub calls : ℕ
  pub failure_rate : Option Number
  pub outcomes : Outcomes

pub record ExternalOp : Type 0 where
  pub today : CallWindow
  pub last_hour : CallWindow

pub record ExternalSourceOps : Type 0 where
  pub ops : List ExternalOp

pub record OpsStatus : Type 0 where
  pub sources : List ExternalSourceOps

-- the doubles nearest to 0.2, 0.7 and 0.9
abbrev pub high_failure_rate : Number
high_failure_rate = ratio (pos 3_602_879_701_896_397) (18_014_398_509_481_984 - 1)

abbrev pub quota_warning : Number
quota_warning = ratio (pos 6_305_039_478_318_694) (9_007_199_254_740_992 - 1)

abbrev pub quota_critical : Number
quota_critical = ratio (pos 8_106_479_329_266_893) (9_007_199_254_740_992 - 1)

pub data Level : Type 0 where
  ok warning critical : Level

abbrev pub rate_or_zero : Option Number → Number
rate_or_zero none = of_ℕ 0
rate_or_zero (some rate) = rate

abbrev pub is_high : CallWindow → Bool
is_high w = ltb 0 w.calls && num_le high_failure_rate (rate_or_zero w.failure_rate)

unfoldable pub is_high_failure : ExternalOp → Bool
is_high_failure op = any is_high (op.today ∷ op.last_hour ∷ [])

unfoldable pub quota_level : Number → Level
quota_level usage_rate =
    if num_le quota_critical usage_rate
    then critical
    else if num_le quota_warning usage_rate
    then warning
    else ok

-- an entry of `OUTCOME_LABEL`, with the number of such outcomes
pub record Labelled : Type 0 where
  pub label : Str
  pub count_of : ℕ

abbrev pub labelled : Str → ℕ → Labelled
labelled label n = record { label = label; count_of = n }

abbrev pub outcome_labels : Outcomes → List Labelled
outcome_labels o =
    labelled (codes "HTTP 오류") o.http_error
    ∷ labelled (codes "결과 코드 오류") o.api_error
    ∷ labelled (codes "타임아웃") o.timeout
    ∷ labelled (codes "I/O 오류") o.io_error
    ∷ []

unfoldable pub failure_breakdown : CallWindow → List Str
failure_breakdown w =
    map (λ l. l.label ++ (codes " " ++ decimal l.count_of))
      (filter (λ l. ltb 0 l.count_of) (outcome_labels w.outcomes))

abbrev pub is_idle : ExternalOp → Bool
is_idle op = op.today.calls == 0 && op.last_hour.calls == 0

unfoldable pub has_no_calls : OpsStatus → Bool
has_no_calls status = all (λ s. all is_idle s.ops) status.sources
