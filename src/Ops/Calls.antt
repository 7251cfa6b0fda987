-- ===== src/Ops/Calls.antt =====
-- The two judgements of the page on a server without calls.
use when_i_off.Prelude.{
  ◌≡◌, refl, Bool, true, false, ◌&&◌, List, [], ◌∷◌, All, all, ltb, ◌==◌, arith,
}
use when_i_off.Ops.{
  CallWindow, ExternalOp, ExternalSourceOps, OpsStatus, is_high, is_high_failure, is_idle,
  has_no_calls,
}

and_first : (a b : Bool) → (a && b) ≡ true → (a ≡ true) × (b ≡ true)
and_first true b h = (refl, h)
and_first false b h = absurd (cc)

all-All {ℓ} : {A : Type ℓ} (p : A → Bool) (xs : List A) → all p xs ≡ true → All (λ x. p x ≡ true) xs
all-All p [] h = tt
all-All p (x ∷ xs) h = let (a, b) = and_first (p x) (all p xs) h in (a, all-All p xs b)

idle_window : (w : CallWindow) → (w.calls == 0) ≡ true → is_high w ≡ false
idle_window w h = let none_made : ltb 0 w.calls ≡ false = ground arith in rw none_made refl

idle_op : (op : ExternalOp) → is_idle op ≡ true → is_high_failure op ≡ false
unfolding is_high_failure
idle_op op h =
    let (a, b) = and_first (op.today.calls == 0) (op.last_hour.calls == 0) h in
    rw (idle_window op.today a, idle_window op.last_hour b) refl

high_free :
    (ops : List ExternalOp)
    → All (λ op. is_idle op ≡ true) ops
    → All (λ op. is_high_failure op ≡ false) ops
high_free [] h = tt
high_free (op ∷ ops) (a, h) = (idle_op op a, high_free ops h)

sources_free :
    (sources : List ExternalSourceOps)
    → All (λ s. all is_idle s.ops ≡ true) sources
    → All (λ s. All (λ op. is_high_failure op ≡ false) s.ops) sources
sources_free [] h = tt
sources_free (s ∷ sources) (a, h) =
    (high_free s.ops (all-All is_idle s.ops a), sources_free sources h)

-- Where the page says that the server made no call yet, it marks no call as failing too often, whatever rates
-- the server reports.
pub has_no_calls-is_high_failure :
    (status : OpsStatus)
    → has_no_calls status ≡ true
    → All (λ s. All (λ op. is_high_failure op ≡ false) s.ops) status.sources
unfolding has_no_calls
has_no_calls-is_high_failure status h =
    sources_free status.sources (all-All (λ s. all is_idle s.ops) status.sources h)
