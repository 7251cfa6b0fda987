-- ===== src/Prelude/Decimal.antt =====
-- Decimal printing and reading: `String(n)` and `Number(digits)` on the natural numbers, padding, and
-- the fixed-width form that `padStart` gives.
use when_i_off.Prelude.Tests.{ltb, leb, if◌then◌else◌, Bool-cases, ltb→lt, lt→ltb}
use when_i_off.Prelude.Lists.{length, replicate, length-append}
use when_i_off.Prelude.Preds.{All, All-append}
use when_i_off.Prelude.Text.{Str}
use Prim.Native.Nat.{ℕ, zero, suc, ◌+◌, ◌-◌, ◌*◌, ◌/◌, ◌%◌, ◌^◌, ◌≤◌, ◌<◌}
use mathlib.Core.Path.{◌≡◌, refl, ap, sym, ◌∙◌}
use mathlib.Core.Bool.{Bool, ◌&&◌}
use mathlib.Core.Logic.{inl, inr}
use mathlib.Core.List.{[], ◌∷◌, ◌++◌, append_assoc}
use native.Mathlib.Nat.{pow-suc}
use native.Mathlib.Omega.{arith}

-- `[0-9]`
abbrev pub is_digit : ℕ → Bool
is_digit c = leb 48 c && leb c 57

-- the digits of `n`, the fuel being above `n`
decimal_from : ℕ → ℕ → Str
decimal_from zero n = []
decimal_from (suc f) n =
    let more = decimal_from f (n / 10) ++ (48 + n % 10) ∷ [] in
    if ltb n 10 then (48 + n) ∷ [] else more

unfoldable pub decimal : ℕ → Str
unfolding decimal_from
decimal n = decimal_from (suc n) n

-- `Number(s)` of a text of digits
unfoldable pub number_from : ℕ → Str → ℕ
number_from v [] = v
number_from v (c ∷ s) = number_from (v * 10 + (c - 48)) s

abbrev pub number_of : Str → ℕ
number_of s = number_from 0 s

-- `s.padStart(width, "0")` and `s.padEnd(width, "0")`
abbrev pub pad_start : ℕ → Str → Str
pad_start width s = replicate (width - length s) 48 ++ s

abbrev pub pad_end : ℕ → Str → Str
pad_end width s = s ++ replicate (width - length s) 48

-- exactly `k` digits
unfoldable pub fixed : ℕ → ℕ → Str
fixed zero n = []
fixed (suc k) n = fixed k (n / 10) ++ (48 + n % 10) ∷ []

decimal_from_irrel : (f g n : ℕ) → n < f → n < g → decimal_from f n ≡ decimal_from g n
unfolding decimal_from
decimal_from_irrel zero g n h k = elim h [ ]
decimal_from_irrel (suc f) zero n h k = elim k [ ]
decimal_from_irrel (suc f) (suc g) n h k = elim (Bool-cases (ltb n 10)) [
  | inl e ↦ rw e
  | inr e ↦ rw (e, decimal_from_irrel f g (n / 10) (ground arith) (ground arith))
]

pub decimal_step :
    (n : ℕ)
    → decimal n ≡ (if ltb n 10 then (48 + n) ∷ [] else decimal (n / 10) ++ (48 + n % 10) ∷ [])
unfolding decimal
decimal_step n = elim (Bool-cases (ltb n 10)) [
  | inl e ↦ rw e
  | inr e ↦ rw (e, decimal_from_irrel n (suc (n / 10)) (n / 10) (ground arith) (omega arith))
]

pub number_from-append :
    (v : ℕ) (s t : Str) → number_from v (s ++ t) ≡ number_from (number_from v s) t
unfolding number_from
number_from-append v [] t = refl
number_from-append v (c ∷ s) t = number_from-append (v * 10 + (c - 48)) s t

number_from_last :
    (v : ℕ) (s : Str) (d : ℕ) → number_from v (s ++ (48 + d) ∷ []) ≡ number_from v s * 10 + d
unfolding number_from
number_from_last v s d = omega (arith, number_from-append v s ((48 + d) ∷ []))

number_of-decimal_below : (k n : ℕ) → n < k → number_of (decimal n) ≡ n
unfolding number_from
number_of-decimal_below zero n h = elim h [ ]
number_of-decimal_below (suc k) n h = elim (Bool-cases (ltb n 10)) [
  | inl e ↦ rw (decimal_step n, e) (omega arith)
  | inr e ↦
      rw (decimal_step n, e)
        (number_from_last 0 (decimal (n / 10)) (n % 10)
          ∙ ground (arith, number_of-decimal_below k (n / 10)))
]

-- reading what was printed
pub number_of-decimal : (n : ℕ) → number_of (decimal n) ≡ n
number_of-decimal n = number_of-decimal_below (suc n) n (omega arith)

pub number_of-fixed : (k n : ℕ) → n < 10 ^ k → number_of (fixed k n) ≡ n
unfolding fixed number_from
number_of-fixed zero n h = omega arith
number_of-fixed (suc k) n h =
    number_from_last 0 (fixed k (n / 10)) (n % 10)
    ∙ omega (arith, number_of-fixed k (n / 10) (omega (arith, pow-suc 10 k)))

-- zeros behind a number
pub number_from-zeros : (j v : ℕ) → number_from v (replicate j 48) ≡ v * 10 ^ j
unfolding number_from
number_from-zeros zero v = omega arith
number_from-zeros (suc j) v =
    number_from-zeros j (v * 10 + (48 - 48)) ∙ rw (pow-suc 10 j) (omega arith)

pub length-fixed : (k n : ℕ) → length (fixed k n) ≡ k
unfolding fixed
length-fixed zero n = refl
length-fixed (suc k) n =
    length-append (fixed k (n / 10)) ((48 + n % 10) ∷ []) ∙ omega (arith, length-fixed k (n / 10))

abbrev pub AreDigits : Str → Type 0
AreDigits s = All (λ c. (48 ≤ c) × (c ≤ 57)) s

pub fixed-AreDigits : (k n : ℕ) → AreDigits (fixed k n)
unfolding fixed
fixed-AreDigits zero n = tt
fixed-AreDigits (suc k) n =
    All-append _ (fixed k (n / 10)) ((48 + n % 10) ∷ []) (fixed-AreDigits k (n / 10))
      ((omega arith, omega arith), tt)

decimal-AreDigits_below : (k n : ℕ) → n < k → AreDigits (decimal n)
decimal-AreDigits_below zero n h = elim h [ ]
decimal-AreDigits_below (suc k) n h = elim (Bool-cases (ltb n 10)) [
  | inl e ↦ rw (decimal_step n, e) ((omega arith, omega (arith, ltb→lt n 10 e)), tt)
  | inr e ↦
      rw (decimal_step n, e)
        (All-append _ (decimal (n / 10)) ((48 + n % 10) ∷ [])
          (decimal-AreDigits_below k (n / 10) (ground arith)) ((omega arith, omega arith), tt))
]

pub decimal-AreDigits : (n : ℕ) → AreDigits (decimal n)
decimal-AreDigits n = decimal-AreDigits_below (suc n) n (omega arith)

pub length-decimal-pos : (n : ℕ) → 0 < length (decimal n)
length-decimal-pos n = elim (Bool-cases (ltb n 10)) [
  | inl e ↦ rw (decimal_step n, e) (omega arith)
  | inr e ↦
      rw (decimal_step n, e) (omega (arith, length-append (decimal (n / 10)) ((48 + n % 10) ∷ [])))
]

replicate_snoc : (k : ℕ) → replicate k 48 ++ 48 ∷ [] ≡ replicate {A = ℕ} (suc k) 48
replicate_snoc zero = refl
replicate_snoc (suc k) = ap (◌∷◌ 48) (replicate_snoc k)

fixed-zero : (k : ℕ) → fixed k 0 ≡ replicate k 48
unfolding fixed
fixed-zero zero = refl
fixed-zero (suc k) = rw (fixed-zero k) (replicate_snoc k)

pad_start_snoc :
    (k : ℕ) (s : Str) (d : ℕ) → pad_start (suc k) (s ++ d ∷ []) ≡ pad_start k s ++ d ∷ []
pad_start_snoc k s d =
    let e : suc k - length (s ++ d ∷ []) ≡ k - length s = omega (arith, length-append s (d ∷ [])) in
    rw e (sym (append_assoc (replicate (k - length s) 48) s (d ∷ [])))

fixed_step : (k n : ℕ) → fixed k (n / 10) ++ (48 + n % 10) ∷ [] ≡ fixed (suc k) n
unfolding fixed
fixed_step k n = refl

fixed_small : (k n : ℕ) → n < 10 → fixed (suc k) n ≡ replicate k 48 ++ (48 + n) ∷ []
unfolding fixed
fixed_small k n h =
    let q : n / 10 ≡ 0 = omega arith in let r : n % 10 ≡ n = omega arith in rw (q, r, fixed-zero k)

-- printing and padding is the fixed-width form
pub pad_start-decimal : (k n : ℕ) → n < 10 ^ suc k → pad_start (suc k) (decimal n) ≡ fixed (suc k) n
pad_start-decimal zero n h =
    let b : n < 10 = omega (arith, pow-suc 10 0) in
    rw (decimal_step n, lt→ltb n 10 b, fixed_small 0 n b)
pad_start-decimal (suc k) n h = elim (Bool-cases (ltb n 10)) [
  | inl e ↦
      let m : suc (suc k) - 1 ≡ suc k = omega arith in
      rw (decimal_step n, e, fixed_small (suc k) n (ltb→lt n 10 e)) (rw m refl)
  | inr e ↦
      rw (decimal_step n, e)
        (pad_start_snoc (suc k) (decimal (n / 10)) (48 + n % 10)
          ∙ ap (λ (s : Str). s ++ (48 + n % 10) ∷ [])
              (pad_start-decimal k (n / 10) (omega (arith, pow-suc 10 (suc k))))
          ∙ fixed_step (suc k) n)
]
