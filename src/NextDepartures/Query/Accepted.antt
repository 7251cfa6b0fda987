-- ===== src/NextDepartures/Query/Accepted.antt =====
-- Which drafts become a query, and which query.
use when_i_off.Prelude.{
  Str, ℕ, suc, ◌≤◌, ◌≡◌, ◌↔◌, refl, sym, ◌∙◌, ap, subst, Bool, true, false, ◌||◌, not, [], ◌∷◌,
  Option, none, some, if◌then◌else◌, leb, arith,
}
use native.Mathlib.Nat.{mul-div_cancel}
use when_i_off.Prelude.Int.{ℤ, pos, negsuc}
use when_i_off.Prelude.Number.{
  Number, nan, infinity, neg_infinity, ratio, of_ℕ, num_lt, num_le, is_integer, IsNat, IsNat-of,
  num_lt-nat, is_integer-nat,
}
use when_i_off.Prelude.Decimal.{number_of}
use when_i_off.Prelude.Text.{str_eq}
use when_i_off.Prelude.JsText.{trim}
use when_i_off.Kst.{DateEngine, kst_input_to_iso}
use when_i_off.Queries.{NextDeparturesQuery}
use when_i_off.NextDepartures.Query.{
  NextDraft, QueryResult, query, problem, NextProblem, next_query, query_for, query_or_no_line,
  with_time, with_limit, is_bad_limit, is_positive_int, to_ℕ, max_safe, no_stop, no_direction,
  bad_limit,
}

not_below_zero :
    (x : Number) → is_integer x ≡ true → num_lt x (of_ℕ 1) ≡ false → num_le (of_ℕ 0) x ≡ true
unfolding is_integer num_le num_lt
not_below_zero x h k = ground arith

to_ℕ-IsNat : (x : Number) (n : ℕ) → IsNat n x → to_ℕ x ≡ n
to_ℕ-IsNat (ratio (pos m) d) n p = rw p (mul-div_cancel n {n = suc d} (omega arith))
to_ℕ-IsNat (ratio (negsuc m) d) n p = absurd p
to_ℕ-IsNat nan n p = absurd p
to_ℕ-IsNat infinity n p = absurd p
to_ℕ-IsNat neg_infinity n p = absurd p

-- A limit is taken just if it is a whole number from 1 to 50.
is_bad_limit_iff :
    (x : Number) (n : ℕ)
    → ((is_bad_limit x ≡ false) × (to_ℕ x ≡ n)) ↔ (IsNat n x × (1 ≤ n) × (n ≤ 50))
is_bad_limit_iff x n = (
  λ (h, e).
      (let i : is_integer x ≡ true = ground arith in
        let b : num_lt x (of_ℕ 1) ≡ false = ground arith in
        let c : num_lt (of_ℕ 50) x ≡ false = ground arith in
        let (m, p) = IsNat-of x i (not_below_zero x i b) in
        let q = to_ℕ-IsNat x m p in
        let eq : m ≡ n = sym q ∙ e in
        let low = num_lt-nat x (of_ℕ 1) m 1 p (omega arith) in
        let high = num_lt-nat (of_ℕ 50) x 50 m (omega arith) p in
        (subst (λ k. IsNat k x) eq p, ground (arith, low), ground (arith, high))),
  λ (p, h, k).
      let low = num_lt-nat x (of_ℕ 1) n 1 p (omega arith) in
      let high = num_lt-nat (of_ℕ 50) x 50 n (omega arith) p in
      let i = is_integer-nat x n p in (ground (arith, low, high, i), to_ℕ-IsNat x n p),
)

-- The query of a draft: the line that was chosen, the stop's number, the direction and the time as they
-- stand without spaces around them, and the limit.
pub record IsQueryOf (date : DateEngine) (number : Str → Number) (d : NextDraft)
    (q : NextDeparturesQuery) : Type 0 where
  pub line : d.line_id ≡ some q.line_id
  pub stop_digits : is_positive_int (trim d.stop_id) ≡ true
  pub stop : number_of (trim d.stop_id) ≡ q.stop_id
  pub stop_safe : q.stop_id ≤ max_safe
  pub direction : trim d.direction ≡ q.direction
  pub direction_given : str_eq q.direction [] ≡ false
  pub time : kst_input_to_iso date d.at ≡ some q.at
  pub time_given : str_eq q.at [] ≡ false
  pub limit : IsNat q.limit (number d.limit)
  pub limit_from : 1 ≤ q.limit
  pub limit_to : q.limit ≤ 50

-- what a test that was passed says of what follows it
passed :
    (b : Bool) (p : NextProblem) (r : QueryResult) (q : NextDeparturesQuery)
    → (if b then problem p else r) ≡ query q
    → (b ≡ false) × (r ≡ query q)
passed true p r q e = absurd (cc)
passed false p r q e = (refl, e)

abbrev asked : NextDeparturesQuery → QueryResult → NextDeparturesQuery
asked other (query q) = q
asked other (problem p) = other

limit_passed :
    (line : ℤ) (stop : ℕ) (direction at : Str) (x : Number) (q : NextDeparturesQuery)
    → with_limit line stop direction at x ≡ query q
    → (line ≡ q.line_id)
      × (stop ≡ q.stop_id)
      × (direction ≡ q.direction)
      × (at ≡ q.at)
      × IsNat q.limit x
      × (1 ≤ q.limit)
      × (q.limit ≤ 50)
unfolding with_limit
limit_passed line stop direction at x q e =
    let (b, r) = passed (is_bad_limit x) bad_limit _ q e in
    let eq = ap (asked q) r in
    let (n, l, h) = (is_bad_limit_iff x q.limit).0 (b, ap (λ k. k.limit) eq) in
    (
      ap (λ k. k.line_id) eq,
      ap (λ k. k.stop_id) eq,
      ap (λ k. k.direction) eq,
      ap (λ k. k.at) eq,
      n,
      l,
      h,
    )

time_passed :
    (line : ℤ) (stop : ℕ) (direction : Str) (time : Option Str) (x : Number)
    (q : NextDeparturesQuery)
    → with_time line stop direction time x ≡ query q
    → (at : Str) × (time ≡ some at)
      × (str_eq at [] ≡ false)
      × (with_limit line stop direction at x ≡ query q)
unfolding with_time str_eq
time_passed line stop direction none x q e = absurd (cc)
time_passed line stop direction (some []) x q e = absurd (cc)
time_passed line stop direction (some (c ∷ s)) x q e = (c ∷ s, refl, refl, e)

with_limit-query :
    (q : NextDeparturesQuery) (x : Number)
    → is_bad_limit x ≡ false
    → to_ℕ x ≡ q.limit
    → with_limit q.line_id q.stop_id q.direction q.at x ≡ query q
unfolding with_limit
with_limit-query q x bad e = rw (bad, e) refl

module _ (date : DateEngine) (number : Str → Number) where
  query_or_no_line-IsQueryOf :
      (line : Option ℤ) (d : NextDraft) (q : NextDeparturesQuery)
      → d.line_id ≡ line
      → query_or_no_line date number line d ≡ query q
      → IsQueryOf date number d q
  unfolding query_or_no_line query_for
  query_or_no_line-IsQueryOf none d q l e = absurd (cc)
  query_or_no_line-IsQueryOf (some line) d q l e =
      let (b, e1) =
        passed
          (not (is_positive_int (trim d.stop_id))
            || not (leb (number_of (trim d.stop_id)) max_safe))
          no_stop _ q e in
      let safe : number_of (trim d.stop_id) ≤ max_safe = ground arith in
      let (c, e2) = passed (str_eq (trim d.direction) []) no_direction _ q e1 in
      let (at, t, f, e3) = time_passed _ _ _ _ _ q e2 in
      let (e4, e5, e6, e7, n, low, high) = limit_passed _ _ _ _ _ q e3 in
      record {
        line = l ∙ ap some e4;
        stop_digits = ground arith;
        stop = e5;
        stop_safe = subst (λ k. k ≤ max_safe) e5 safe;
        direction = e6;
        direction_given = subst (λ s. str_eq s [] ≡ false) e6 c;
        time = t ∙ ap some e7;
        time_given = subst (λ s. str_eq s [] ≡ false) e7 f;
        limit = n;
        limit_from = low;
        limit_to = high;
      }

  with_time-some :
      (line : ℤ) (stop : ℕ) (direction at : Str) (x : Number)
      → str_eq at [] ≡ false
      → with_time line stop direction (some at) x ≡ with_limit line stop direction at x
  unfolding with_time str_eq
  with_time-some line stop direction [] x f = absurd (cc)
  with_time-some line stop direction (c ∷ s) x f = refl

  -- A draft becomes a query exactly if a line is chosen, the stop is a positive safe integer, a direction and
  -- a time are given, and the limit is a whole number from 1 to 50; and the query asks for just these.
  pub next_query_iff :
      (d : NextDraft) (q : NextDeparturesQuery)
      → (next_query date number d ≡ query q) ↔ IsQueryOf date number d q
  unfolding next_query query_or_no_line query_for
  next_query_iff d q = (
    λ e. query_or_no_line-IsQueryOf d.line_id d q refl e,
    λ h.
        let (bad, lim) =
          (is_bad_limit_iff (number d.limit) q.limit).1 (h.limit, h.limit_from, h.limit_to) in
        let safe : leb q.stop_id max_safe ≡ true = ground arith in
        rw (h.line, h.stop_digits, h.stop, safe, h.direction, h.direction_given, h.time)
          (with_time-some _ _ _ _ _ h.time_given ∙ with_limit-query q (number d.limit) bad lim),
  )
