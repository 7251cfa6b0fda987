-- ===== src/Session/Retry.antt =====
-- How often a query is sent: the retry rule of desktop/src/context.ts over the results that unwrap reads.
use when_i_off.Prelude.{
  ℕ, suc, ◌-◌, ◌≡◌, refl, sym, ◌∙◌, ap, Bool, true, false, ◌&&◌, not, Option, none, some, inl, inr,
  Bool-cases, ltb, arith, leb, ◌||◌, if◌then◌else◌,
}
use when_i_off.Session.{
  FetchResult, QueryOutcome, returned_if, unwrap, retry, new_api_error, Sent, no_network, answered,
  outcome, Problem, with_detail, without_detail,
}

-- The query cache's documented use of `retry`: with `n` failures so far, the query is sent `m` more times
-- and ends with the last outcome.
pub data Run {ℓ} {T : Type ℓ} (sends : ℕ → Sent T) : ℕ → ℕ → QueryOutcome T → Type ℓ where
  ends : (n : ℕ) → retry n (outcome (sends n)) ≡ false → Run sends n 1 (outcome (sends n))
  again :
      (n m : ℕ) (o : QueryOutcome T)
      → retry n (outcome (sends n)) ≡ true
      → Run sends (suc n) m o
      → Run sends n (suc m) o

abbrev pub is_missing {ℓ} : {T : Type ℓ} → Option T → Bool
is_missing none = true
is_missing (some d) = false

-- The answer has no result.
abbrev pub has_failed {ℓ} : {T : Type ℓ} → FetchResult T → Bool
has_failed r = not r.response.ok || is_missing r.data_of

-- A failure that may pass: there was no network, or the server answered 500 or above without a result.
abbrev pub is_transient {ℓ} : {T : Type ℓ} → Sent T → Bool
is_transient no_network = true
is_transient (answered r) = has_failed r && leb 500 r.response.status

abbrev pub requests {ℓ} : {T : Type ℓ} → (ℕ → Sent T) → ℕ
requests sends = if is_transient (sends 0) then 2 else 1

status_of_error : (status : ℕ) (p : Problem) → (new_api_error status p).status ≡ status
unfolding new_api_error
status_of_error status (with_detail d) = refl
status_of_error status without_detail = refl

not-ltb : (a b : ℕ) → not (ltb a b) ≡ leb b a
not-ltb a b = ground arith

retry-returned_if {ℓ} :
    {T : Type ℓ} (n : ℕ) (ok : Bool) (d : Option T) (status : ℕ) (p : Problem)
    → retry n (returned_if ok d (new_api_error status p))
      ≡ ((not ok || is_missing d) && leb 500 status && ltb n 1)
unfolding retry
retry-returned_if n true (some d) status p = refl
retry-returned_if n true none status p = rw (status_of_error status p, not-ltb status 500) refl
retry-returned_if n false none status p = rw (status_of_error status p, not-ltb status 500) refl
retry-returned_if n false (some d) status p = rw (status_of_error status p, not-ltb status 500) refl

suc-ltb : (n : ℕ) → ltb (suc n) 1 ≡ false
suc-ltb n = ground arith

and_true : (a b : Bool) → (a && b && true) ≡ (a && b)
and_true a b = ground arith

and_false : (a b : Bool) → (a && b && false) ≡ false
and_false a b = ground arith

retry_first {ℓ} : {T : Type ℓ} (x : Sent T) → retry 0 (outcome x) ≡ is_transient x
unfolding retry unwrap
retry_first no_network = refl
retry_first (answered r) =
    retry-returned_if 0 r.response.ok r.data_of r.response.status r.error
    ∙ and_true (has_failed r) (leb 500 r.response.status)

retry_second {ℓ} : {T : Type ℓ} (n : ℕ) (x : Sent T) → retry (suc n) (outcome x) ≡ false
unfolding retry unwrap
retry_second n no_network = suc-ltb n
retry_second n (answered r) =
    retry-returned_if (suc n) r.response.ok r.data_of r.response.status r.error
    ∙ ap (λ t. has_failed r && leb 500 r.response.status && t) (suc-ltb n)
    ∙ and_false (has_failed r) (leb 500 r.response.status)

-- Every query comes to an end, whatever its answers are: it is sent once, and once more if its first answer
-- may pass (no network, or 500 and above), and the last answer is what it returns or throws.
pub requests-Run {ℓ} :
    {T : Type ℓ} (sends : ℕ → Sent T)
    → Run sends 0 (requests sends) (outcome (sends (requests sends - 1)))
requests-Run sends = elim (Bool-cases (is_transient (sends 0))) [
  | inl t ↦ rw t (again 0 1 _ (retry_first (sends 0) ∙ t) (ends 1 (retry_second 0 (sends 1))))
  | inr t ↦ rw t (ends 0 (retry_first (sends 0) ∙ t))
]

second_ends {ℓ} :
    {T : Type ℓ} {sends : ℕ → Sent T} (n m : ℕ) (o : QueryOutcome T)
    → Run sends (suc n) m o
    → (m ≡ 1) × (o ≡ outcome (sends (suc n)))
second_ends n m o (ends k e) = (refl, refl)
second_ends {sends = sends} n m o (again k l p e run) =
    let f = retry_second n (sends (suc n)) in absurd (cc)

-- A query that ended was sent no more often, and ended with no other outcome: an answer below 500, such as a
-- refused token or a wrong value, is never asked for again.
pub Run-requests {ℓ} :
    {T : Type ℓ} {sends : ℕ → Sent T} (m : ℕ) (o : QueryOutcome T)
    → Run sends 0 m o
    → (m ≡ requests sends) × (o ≡ outcome (sends (requests sends - 1)))
Run-requests {sends = sends} m o (ends k e) =
    let t = sym (retry_first (sends 0)) ∙ e in (rw t refl, rw t refl)
Run-requests {sends = sends} m o (again k l p e run) =
    let t = sym (retry_first (sends 0)) ∙ e in
    let (one, last) = second_ends 0 l p run in (rw (t, one) refl, rw t last)
