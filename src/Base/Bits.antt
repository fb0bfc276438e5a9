-- ===== src/Base/Bits.antt =====
-- `x & mask` where the mask is one less than a power of two.
use Prim.Native.Nat.{
  ℕ, zero, suc, ◌+◌, ◌-◌, ◌*◌, ◌/◌, ◌%◌, ◌^◌, ◌≤◌, ◌<◌, min, bit_and, bit_or, digits,
  bit_and-bitwise, bit_or-bitwise,
}
use mathlib.Core.Path.{◌≡◌, ◌∙◌, ap}
use native.Mathlib.Omega.{arith}
use native.Mathlib.Nat.{pow-suc, pow-le-pow_right}

pub pow_pos : (k : ℕ) → 0 < 2 ^ k
pow_pos zero = omega arith
pow_pos (suc k) = omega (arith, pow-suc 2 k, pow_pos k)

double_product : (m p q : ℕ) {m' p' : ℕ} → m ≡ p * q → m' ≡ m * 2 → p' ≡ p * 2 → m' ≡ p' * q
double_product m p q e h h' = rw (h, h', e) (omega arith)

-- 2 ^ 64 is a multiple of every smaller power of two.
pub pow-split : (k n : ℕ) → k ≤ n → (q : ℕ) × (2 ^ n ≡ 2 ^ k * q)
pow-split zero n h = (2 ^ n, omega arith)
pow-split (suc k) zero h = absurd (omega arith)
pow-split (suc k) (suc n) h =
    let (q, e) = pow-split k n (omega arith) in
    (q, double_product (2 ^ n) (2 ^ k) q e (pow-suc 2 n) (pow-suc 2 k))

mod_double : (a p : ℕ) → 0 < p → a % (2 * p) ≡ (a / 2) % p * 2 + a % 2
mod_double a p h = grind arith

abbrev and_digits : ℕ → ℕ → ℕ → ℕ
and_digits n a b = digits (λ _. zero) min n a b

and_digits-mask : (n k a : ℕ) → a ≤ n → and_digits n a (2 ^ k - 1) ≡ a % 2 ^ k
and_digits-mask zero k a h = let e : a ≡ 0 = omega arith in rw e (omega (arith, pow_pos k))
and_digits-mask (suc n) k zero h = omega (arith, pow_pos k)
and_digits-mask (suc n) zero (suc a) h =
    omega (arith, and_digits-mask n 0 (suc a / 2) (omega arith))
and_digits-mask (suc n) (suc k) (suc a) h =
    rw (half, odd)
      (omega (
        arith,
        and_digits-mask n k (suc a / 2) (omega arith),
        mod_double (suc a) (2 ^ k) (pow_pos k),
        ap (λ m. suc a % m) whole,
      ))
  where
    whole : 2 ^ suc k ≡ 2 * 2 ^ k
    whole = omega (arith, pow-suc 2 k)

    half : (2 ^ suc k - 1) / 2 ≡ 2 ^ k - 1
    half = omega (arith, pow-suc 2 k, pow_pos k)

    odd : (2 ^ suc k - 1) % 2 ≡ 1
    odd = omega (arith, pow-suc 2 k, pow_pos k)

-- `a & (2 ^ k - 1)` keeps the low k bits.
pub bit_and-mask : (a k : ℕ) → bit_and a (2 ^ k - 1) ≡ a % 2 ^ k
bit_and-mask a k = bit_and-bitwise a (2 ^ k - 1) ∙ and_digits-mask a k a (omega arith)

pub pow-lt : (k n : ℕ) → k < n → 2 ^ k < 2 ^ n
pow-lt k n h =
    omega
      (arith, pow-le-pow_right {n = 2} (omega arith) {i = suc k} {j = n} h, pow-suc 2 k, pow_pos k)

min_same : (n : ℕ) → min n n ≡ n
min_same n = omega arith

and_digits-same : (n a : ℕ) → a ≤ n → and_digits n a a ≡ a
and_digits-same zero zero h = omega arith
and_digits-same zero (suc a) h = absurd (omega arith)
and_digits-same (suc n) zero h = omega arith
and_digits-same (suc n) (suc a) h =
    grind (arith, and_digits-same n (suc a / 2) (grind arith), min_same (suc a % 2))

-- `x & x`, `0 & x` and `0 | x`
pub bit_and-same : (a : ℕ) → bit_and a a ≡ a
bit_and-same a = (λ i. bit_and-bitwise a a i) ∙ and_digits-same a a (omega arith)

pub bit_and-zero : (a : ℕ) → bit_and 0 a ≡ 0
bit_and-zero a = λ i. bit_and-bitwise 0 a i

pub bit_or-zero : (a : ℕ) → bit_or 0 a ≡ a
bit_or-zero a = λ i. bit_or-bitwise 0 a i
