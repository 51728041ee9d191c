-- ===== src/Prelude/Bits.antt =====
-- Masks and shifts as arithmetic: `x & (2^k - 1)`, `x & (m << k)` and `(x << k) | y`.
use Prim.Native.Nat.{ℕ, zero, suc, ◌+◌, ◌-◌, ◌*◌, ◌/◌, ◌%◌, ◌^◌, ◌≤◌, ◌<◌, min, max}
use Prim.Native.Nat.{bit_and, bit_or, digits, bit_and-bitwise, bit_or-bitwise}
use mathlib.Core.Path.{◌≡◌, refl, sym, ap, ◌∙◌}
use native.Mathlib.Nat.{
  pow-suc, div-div-eq-div-mul, one-le-pow, mod-lt, div-add-mod, add-mul-mod_self_left, mod-eq_of_lt,
}
use native.Mathlib.Omega.{arith}

-- The digit recursion under the native operations does not depend on spare fuel.
digits-zero : (z : ℕ → ℕ) (f : ℕ → ℕ → ℕ) (n b : ℕ) → digits z f n zero b ≡ z b
digits-zero z f zero b = refl
digits-zero z f (suc n) b = refl

spare_fuel :
    (z : ℕ → ℕ) (f : ℕ → ℕ → ℕ) (a b n m : ℕ) → a ≤ n → a ≤ m → digits z f n a b ≡ digits z f m a b
spare_fuel z f zero b n m p q = digits-zero z f n b ∙ sym (digits-zero z f m b)
spare_fuel z f (suc a) b n zero p q = absurd (omega arith)
spare_fuel z f (suc a) b zero (suc m) p q = absurd (omega arith)
spare_fuel z f (suc a) b (suc n) (suc m) p q =
    ap (λ t. t * 2 + f (suc a % 2) (b % 2))
      (spare_fuel z f (suc a / 2) (b / 2) n m (omega arith) (omega arith))

-- One binary digit of `&` and of `|`.
pub bit_and_digit : (a b : ℕ) → bit_and a b ≡ bit_and (a / 2) (b / 2) * 2 + min (a % 2) (b % 2)
bit_and_digit zero b = simp bit_and-bitwise (omega arith)
bit_and_digit (suc a) b = simp bit_and-bitwise (
    omega (
      arith,
      spare_fuel (λ y. 0) min (suc a / 2) (b / 2) a (suc a / 2) (omega arith) (omega arith),
    ))

pub bit_or_digit : (a b : ℕ) → bit_or a b ≡ bit_or (a / 2) (b / 2) * 2 + max (a % 2) (b % 2)
bit_or_digit zero b = simp bit_or-bitwise (omega arith)
bit_or_digit (suc a) b = simp bit_or-bitwise (
    omega (
      arith,
      spare_fuel (λ y. y) max (suc a / 2) (b / 2) a (suc a / 2) (omega arith) (omega arith),
    ))

zero_bit_and : (b : ℕ) → bit_and 0 b ≡ 0
zero_bit_and b = bit_and-bitwise 0 b

zero_bit_or : (b : ℕ) → bit_or 0 b ≡ b
zero_bit_or b = bit_or-bitwise 0 b

bit_and-zero_below : (n a : ℕ) → a ≤ n → bit_and a 0 ≡ 0
bit_and-zero_below n zero h = zero_bit_and 0
bit_and-zero_below zero (suc a) h = absurd (omega arith)
bit_and-zero_below (suc n) (suc a) h =
    omega (arith, bit_and_digit (suc a) 0, bit_and-zero_below n (suc a / 2) (omega arith))

pub bit_and-zero : (a : ℕ) → bit_and a 0 ≡ 0
bit_and-zero a = bit_and-zero_below a a (omega arith)

bit_or-zero_below : (n a : ℕ) → a ≤ n → bit_or a 0 ≡ a
bit_or-zero_below n zero h = zero_bit_or 0
bit_or-zero_below zero (suc a) h = absurd (omega arith)
bit_or-zero_below (suc n) (suc a) h =
    omega (arith, bit_or_digit (suc a) 0, bit_or-zero_below n (suc a / 2) (omega arith))

pub bit_or-zero : (a : ℕ) → bit_or a 0 ≡ a
bit_or-zero a = bit_or-zero_below a a (omega arith)

pub pow_double : (k : ℕ) → 2 ^ suc k ≡ 2 * 2 ^ k
pow_double k = omega (arith, pow-suc 2 k)

double_under : (k q : ℕ) → q * 2 ^ suc k ≡ 2 * (q * 2 ^ k)
double_under k q = omega (arith, ap (λ (t : ℕ). q * t) (pow_double k))

halve_over : (k a : ℕ) → a / 2 ^ suc k ≡ a / 2 / 2 ^ k
halve_over k a = ap (λ (t : ℕ). a / t) (pow_double k) ∙ sym (div-div-eq-div-mul a 2 (2 ^ k))

-- `a & (m << k)` keeps the bits of `m` at their height.
pub bit_and_shift : (k a m : ℕ) → bit_and a (m * 2 ^ k) ≡ bit_and (a / 2 ^ k) m * 2 ^ k
bit_and_shift zero a m =
    let e : m * 1 ≡ m = omega arith in let d : a / 1 ≡ a = omega arith in rw (e, d) (omega arith)
bit_and_shift (suc k) a m =
    let t = m * 2 ^ k in
    let h : 2 * t / 2 ≡ t = omega arith in
    rw
      (
        double_under k m,
        halve_over k a,
        double_under k,
        bit_and_digit a (2 * t),
        h,
        bit_and_shift k (a / 2) m,
      )
      (omega arith)

-- `(q << k) | r` is a sum when `r` fits in `k` bits.
pub bit_or_sum : (k q r : ℕ) → r < 2 ^ k → bit_or (q * 2 ^ k) r ≡ q * 2 ^ k + r
bit_or_sum zero q r h = let e : r ≡ 0 = omega arith in rw (e, bit_or-zero) (omega arith)
bit_or_sum (suc k) q r h =
    let t = q * 2 ^ k in
    let d : 2 * t / 2 ≡ t = omega arith in
    rw
      (
        double_under k q,
        bit_or_digit (2 * t) r,
        d,
        bit_or_sum k q (r / 2) (omega (arith, pow_double k)),
      )
      (omega arith)

-- The same with the field on the left.
pub bit_or_sum_left : (k q r : ℕ) → r < 2 ^ k → bit_or r (q * 2 ^ k) ≡ q * 2 ^ k + r
bit_or_sum_left zero q r h = let e : r ≡ 0 = omega arith in rw (e, zero_bit_or) (omega arith)
bit_or_sum_left (suc k) q r h =
    let t = q * 2 ^ k in
    let d : 2 * t / 2 ≡ t = omega arith in
    rw
      (
        double_under k q,
        bit_or_digit r (2 * t),
        d,
        bit_or_sum_left k q (r / 2) (omega (arith, pow_double k)),
      )
      (omega arith)

-- `a & (2^k - 1)` is the remainder.
mod_double : (k a : ℕ) → a % 2 ^ suc k ≡ a / 2 % 2 ^ k * 2 + a % 2
mod_double k a =
    let d = a / 2 % 2 ^ k in
    let c = a / 2 / 2 ^ k in
    let r = d * 2 + a % 2 in
    let pos : 0 < 2 ^ k = one-le-pow k 2 (omega arith) in
    let lt : d < 2 ^ k = mod-lt (a / 2) pos in
    let whole : a ≡ r + 2 ^ suc k * c =
      omega (arith, div-add-mod (a / 2) (2 ^ k), ap (λ (t : ℕ). t * c) (pow_double k)) in
    ap (λ t. t % 2 ^ suc k) whole
    ∙ add-mul-mod_self_left r (2 ^ suc k) c
    ∙ mod-eq_of_lt (omega (arith, pow_double k))

pub bit_and_low : (k a : ℕ) → bit_and a (2 ^ k - 1) ≡ a % 2 ^ k
bit_and_low zero a = omega (arith, bit_and-zero a)
bit_and_low (suc k) a =
    let pos : 0 < 2 ^ k = one-le-pow k 2 (omega arith) in
    let half : (2 ^ suc k - 1) / 2 ≡ 2 ^ k - 1 = omega (arith, pow_double k) in
    let odd : (2 ^ suc k - 1) % 2 ≡ 1 = omega (arith, pow_double k) in
    bit_and_digit a (2 ^ suc k - 1)
    ∙ rw (half, odd, bit_and_low k (a / 2), mod_double k a) (omega arith)

-- The masks that the code uses.
pub bit_and_1 : (a : ℕ) → bit_and a 1 ≡ a % 2
bit_and_1 = bit_and_low 1

pub bit_and_127 : (a : ℕ) → bit_and a 127 ≡ a % 128
bit_and_127 = bit_and_low 7
