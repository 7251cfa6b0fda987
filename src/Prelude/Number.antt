-- ===== src/Prelude/Number.antt =====
-- JavaScript's `number` as the sources use it in tests: NaN, the infinities, and an exact fraction. A
-- double is such a fraction; comparisons and `Number.isInteger` are exact on it.
use when_i_off.Prelude.{
  ℕ, suc, ◌+◌, ◌-◌, ◌*◌, ◌/◌, ◌%◌, ◌≤◌, ◌<◌, ◌≡◌, ◌↔◌, Bool, true, false, ◌&&◌, not, ◌==◌, arith,
  if◌then◌else◌,
}
use native.Mathlib.Nat.{
  add-zero, mul-mod_left, lt_of_mul-lt-mul_right, mul-lt-mul_of_pos_right, le_of_mul-le-mul_right,
  mul-le-mul_right,
}
use when_i_off.Prelude.Int.{ℤ, pos, negsuc, pos_part, neg_part, ltb_ℤ}

-- `ratio n d` is n / (d + 1).
pub data Number : Type 0 where
  nan : Number
  infinity : Number
  neg_infinity : Number
  ratio : ℤ → ℕ → Number

abbrev pub of_ℕ : ℕ → Number
of_ℕ n = ratio (pos n) 0

-- `a < b`; false if either is NaN
abbrev scale : ℤ → ℕ → ℤ
scale (pos n) k = pos (n * k)
scale (negsuc n) k = if k == 0 then pos 0 else negsuc (suc n * k - 1)

unfoldable pub num_lt : Number → Number → Bool
num_lt nan b = false
num_lt infinity b = false
num_lt neg_infinity nan = false
num_lt neg_infinity neg_infinity = false
num_lt neg_infinity infinity = true
num_lt neg_infinity (ratio b e) = true
num_lt (ratio a d) nan = false
num_lt (ratio a d) infinity = true
num_lt (ratio a d) neg_infinity = false
num_lt (ratio a d) (ratio b e) = ltb_ℤ (scale a (suc e)) (scale b (suc d))

-- `a <= b`; false if either is NaN
unfoldable pub num_le : Number → Number → Bool
num_le nan b = false
num_le infinity infinity = true
num_le infinity nan = false
num_le infinity neg_infinity = false
num_le infinity (ratio b e) = false
num_le neg_infinity nan = false
num_le neg_infinity neg_infinity = true
num_le neg_infinity infinity = true
num_le neg_infinity (ratio b e) = true
num_le (ratio a d) nan = false
num_le (ratio a d) infinity = true
num_le (ratio a d) neg_infinity = false
num_le (ratio a d) (ratio b e) = not (ltb_ℤ (scale b (suc d)) (scale a (suc e)))

-- `Number.isInteger`
unfoldable pub is_integer : Number → Bool
is_integer (ratio a d) = (pos_part a + neg_part a) % suc d == 0
is_integer _ = false

-- `Number.isFinite`
abbrev pub is_finite : Number → Bool
is_finite (ratio a d) = true
is_finite _ = false

-- The number is the natural number `n`.
abbrev pub IsNat : ℕ → Number → Type 0
IsNat n (ratio (pos m) d) = m ≡ n * suc d
IsNat n _ = ⊥

-- the natural number that an integer from `k` on is
pub IsNat-of : (x : Number) → is_integer x ≡ true → num_le (of_ℕ 0) x ≡ true → (n : ℕ) × IsNat n x
unfolding is_integer num_le
IsNat-of nan h k = absurd (cc)
IsNat-of infinity h k = absurd (cc)
IsNat-of neg_infinity h k = absurd (cc)
IsNat-of (ratio (negsuc m) d) h k = absurd (ground arith)
IsNat-of (ratio (pos m) d) h k = (m / suc d, ground arith)

module _ (m d n e a b : ℕ) (p : m ≡ a * suc d) (q : n ≡ b * suc e) where
  left_scaled : m * suc e ≡ a * (suc d * suc e)
  left_scaled = rw p (omega arith)

  right_scaled : n * suc d ≡ b * (suc d * suc e)
  right_scaled = rw q (omega arith)

  scaled_lt : (m * suc e < n * suc d) ↔ (a < b)
  scaled_lt =
      rw (left_scaled, right_scaled)
        (
          (λ h. lt_of_mul-lt-mul_right (suc d * suc e) h),
          λ h. mul-lt-mul_of_pos_right h (omega arith),
        )

  scaled_le : (m * suc e ≤ n * suc d) ↔ (a ≤ b)
  scaled_le =
      rw (left_scaled, right_scaled)
        ((λ h. le_of_mul-le-mul_right h (omega arith)), λ h. mul-le-mul_right (suc d * suc e) h)

-- comparisons of whole numbers are those of the natural numbers
pub num_le-nat : (x y : Number) (a b : ℕ) → IsNat a x → IsNat b y → (num_le x y ≡ true) ↔ (a ≤ b)
unfolding num_le
num_le-nat (ratio (pos m) d) (ratio (pos n) e) a b p q = ground (arith, scaled_le m d n e a b p q)
num_le-nat (ratio (pos m) d) (ratio (negsuc n) e) a b p q = absurd q
num_le-nat (ratio (pos m) d) nan a b p q = absurd q
num_le-nat (ratio (pos m) d) infinity a b p q = absurd q
num_le-nat (ratio (pos m) d) neg_infinity a b p q = absurd q
num_le-nat (ratio (negsuc m) d) y a b p q = absurd p
num_le-nat nan y a b p q = absurd p
num_le-nat infinity y a b p q = absurd p
num_le-nat neg_infinity y a b p q = absurd p

pub num_lt-nat : (x y : Number) (a b : ℕ) → IsNat a x → IsNat b y → (num_lt x y ≡ true) ↔ (a < b)
unfolding num_lt
num_lt-nat (ratio (pos m) d) (ratio (pos n) e) a b p q = ground (arith, scaled_lt m d n e a b p q)
num_lt-nat (ratio (pos m) d) (ratio (negsuc n) e) a b p q = absurd q
num_lt-nat (ratio (pos m) d) nan a b p q = absurd q
num_lt-nat (ratio (pos m) d) infinity a b p q = absurd q
num_lt-nat (ratio (pos m) d) neg_infinity a b p q = absurd q
num_lt-nat (ratio (negsuc m) d) y a b p q = absurd p
num_lt-nat nan y a b p q = absurd p
num_lt-nat infinity y a b p q = absurd p
num_lt-nat neg_infinity y a b p q = absurd p

-- a natural number passes the integer test
pub is_integer-nat : (x : Number) (n : ℕ) → IsNat n x → is_integer x ≡ true
unfolding is_integer
is_integer-nat (ratio (pos m) d) n p =
    let z : (m + 0) % suc d ≡ 0 = rw (p, add-zero) (mul-mod_left n (suc d)) in rw z
is_integer-nat (ratio (negsuc m) d) n p = absurd p
is_integer-nat nan n p = absurd p
is_integer-nat infinity n p = absurd p
is_integer-nat neg_infinity n p = absurd p

pub num_le-zero : (x : Number) (k : ℕ) → num_le (of_ℕ k) x ≡ true → num_le (of_ℕ 0) x ≡ true
unfolding num_le
num_le-zero x k h = ground arith

pub num_lt-zero : (x : Number) (k : ℕ) → num_lt (of_ℕ k) x ≡ true → num_le (of_ℕ 0) x ≡ true
unfolding num_le num_lt
num_lt-zero x k h = ground arith

pub num_le-of_not_le :
    (x : Number) (k : ℕ)
    → is_integer x ≡ true
    → num_le x (of_ℕ k) ≡ false
    → num_le (of_ℕ k) x ≡ true
unfolding is_integer num_le
num_le-of_not_le x k h e = ground arith

-- what a failed comparison of natural numbers says
pub lt-of_not_le : (x y : Number) (a b : ℕ) → IsNat a x → IsNat b y → num_le x y ≡ false → b < a
lt-of_not_le x y a b p q h = ground (arith, num_le-nat x y a b p q)

pub not_le-of_lt : (x y : Number) (a b : ℕ) → IsNat a x → IsNat b y → b < a → num_le x y ≡ false
not_le-of_lt x y a b p q h = ground (arith, num_le-nat x y a b p q)

num_scale : (m d k : ℕ) → ((m * 1 ≤ k * suc d) × (k * suc d ≤ m * 1)) ↔ (m ≡ k * suc d)
num_scale m d k = ((λ (p, q). omega arith), (λ e. (omega arith, omega arith)))

-- `x === k`
pub num_eq-IsNat :
    (x : Number) (k : ℕ) → ((num_le x (of_ℕ k) && num_le (of_ℕ k) x) ≡ true) ↔ IsNat k x
unfolding num_le
num_eq-IsNat (ratio (pos m) d) k = ground (arith, num_scale m d k)
num_eq-IsNat (ratio (negsuc m) d) k = ground arith
num_eq-IsNat nan k = ground arith
num_eq-IsNat infinity k = ground arith
num_eq-IsNat neg_infinity k = ground arith

pub num_lt-of_ℕ : (a b : ℕ) → a ≤ b → num_lt (of_ℕ b) (of_ℕ a) ≡ false
unfolding num_lt
num_lt-of_ℕ a b h = ground arith
