-- ===== src/Prelude/Xor.antt =====
-- The exclusive or at variables: a step to the next digit, and what it does to a number that is cut
-- or put together at a power of two.
use Prim.Native.Nat.{
  ℕ, zero, suc, ◌+◌, ◌*◌, ◌/◌, ◌%◌, ◌^◌, ◌<◌, ◌≤◌, digits, differ, bit_xor, bit_xor-bitwise,
}
use mathlib.Core.Path.{◌≡◌, refl, ap, ◌∙◌}
use native.Mathlib.Nat.{div-add-mod', mul-add-mod_self_right, mod-eq_of_lt, mod-lt}
use native.Mathlib.Omega.{arith}

abbrev xor_from : ℕ → ℕ → ℕ → ℕ
xor_from n a b = digits (λ c. c) differ n a b

-- Any count of digits that is large enough gives the same.
xor_from-enough : (n m a b : ℕ) → a ≤ n → a ≤ m → xor_from n a b ≡ xor_from m a b
xor_from-enough zero zero a b p q = refl
xor_from-enough zero (suc m) zero b p q = refl
xor_from-enough zero (suc m) (suc a) b p q = absurd (omega arith)
xor_from-enough (suc n) zero zero b p q = refl
xor_from-enough (suc n) zero (suc a) b p q = absurd (omega arith)
xor_from-enough (suc n) (suc m) zero b p q = refl
xor_from-enough (suc n) (suc m) (suc a) b p q =
    omega (arith, xor_from-enough n m (suc a / 2) (b / 2) (omega arith) (omega arith))

pub zero-bit_xor : (b : ℕ) → bit_xor 0 b ≡ b
zero-bit_xor b = bit_xor-bitwise 0 b

pub bit_xor-step : (a b : ℕ) → bit_xor a b ≡ bit_xor (a / 2) (b / 2) * 2 + differ (a % 2) (b % 2)
bit_xor-step zero b = omega (arith, zero-bit_xor b, zero-bit_xor (b / 2))
bit_xor-step (suc a) b = omega (
  arith,
  bit_xor-bitwise (suc a) b,
  bit_xor-bitwise (suc a / 2) (b / 2),
  xor_from-enough a (suc a / 2) (suc a / 2) (b / 2) (omega arith) (omega arith),
)

differ-bit : (x y : ℕ) → x < 2 → y < 2 → differ x y < 2
differ-bit zero zero h g = omega arith
differ-bit zero (suc zero) h g = omega arith
differ-bit (suc zero) zero h g = omega arith
differ-bit (suc zero) (suc zero) h g = omega arith
differ-bit zero (suc (suc y)) h g = absurd (omega arith)
differ-bit (suc zero) (suc (suc y)) h g = absurd (omega arith)
differ-bit (suc (suc x)) y h g = absurd (omega arith)

-- The quotient and the lowest digit.
pub bit_xor-half : (a b : ℕ) → bit_xor a b / 2 ≡ bit_xor (a / 2) (b / 2)
bit_xor-half a b =
    omega (arith, bit_xor-step a b, differ-bit (a % 2) (b % 2) (omega arith) (omega arith))

pub bit_xor-low : (a b : ℕ) → bit_xor a b % 2 ≡ differ (a % 2) (b % 2)
bit_xor-low a b =
    omega (arith, bit_xor-step a b, differ-bit (a % 2) (b % 2) (omega arith) (omega arith))

mod-double : (m x : ℕ) → 0 < m → x % (m * 2) ≡ x / 2 % m * 2 + x % 2
mod-double m x h =
    let e : x ≡ (x / 2 / m) * (m * 2) + (x / 2 % m * 2 + x % 2) =
      grind (arith, div-add-mod' (x / 2) m) in
    ap (λ n. n % (m * 2)) e
    ∙ mul-add-mod_self_right (x / 2 / m) (m * 2) (x / 2 % m * 2 + x % 2)
    ∙ mod-eq_of_lt (omega (arith, mod-lt (x / 2) h))

differ-zero : (x : ℕ) → differ x 0 ≡ x
differ-zero zero = refl
differ-zero (suc x) = refl

power-suc : (k : ℕ) → 2 ^ suc k ≡ 2 ^ k * 2
power-suc k = omega arith

power-positive : (k : ℕ) → 0 < 2 ^ k
power-positive zero = omega arith
power-positive (suc k) = omega (arith, power-positive k)

-- One more digit below those of `b`, and one more that is kept by a remainder.
above-double :
    (p a l b : ℕ)
    → bit_xor (a * p + l / 2) (b * p) ≡ bit_xor a b * p + l / 2
    → bit_xor (a * (p * 2) + l) (b * (p * 2)) ≡ bit_xor a b * (p * 2) + l
above-double p a l b ih =
    let x = a * (p * 2) + l in
    let y = b * (p * 2) in
    let dx : x / 2 ≡ a * p + l / 2 = grind arith in
    let dy : y / 2 ≡ b * p = grind arith in
    let mx : x % 2 ≡ l % 2 = grind arith in
    let my : y % 2 ≡ 0 = grind arith in
    let last : bit_xor x y ≡ (bit_xor a b * p + l / 2) * 2 + l % 2 =
      rw (dx, dy, mx, my, ih, differ-zero) at (bit_xor-step x y) in
    grind arith

cut-double :
    (p a b : ℕ)
    → 0 < p
    → bit_xor (a / 2) (b / 2) % p ≡ bit_xor (a / 2 % p) (b / 2 % p)
    → bit_xor a b % (p * 2) ≡ bit_xor (a % (p * 2)) (b % (p * 2))
cut-double p a b h ih =
    let x = a % (p * 2) in
    let y = b % (p * 2) in
    let dx : x / 2 ≡ a / 2 % p = omega (arith, mod-double p a h) in
    let dy : y / 2 ≡ b / 2 % p = omega (arith, mod-double p b h) in
    let mx : x % 2 ≡ a % 2 = omega (arith, mod-double p a h) in
    let my : y % 2 ≡ b % 2 = omega (arith, mod-double p b h) in
    let last : bit_xor x y ≡ bit_xor (a / 2 % p) (b / 2 % p) * 2 + differ (a % 2) (b % 2) =
      rw (dx, dy, mx, my) at (bit_xor-step x y) in
    omega (arith, mod-double p (bit_xor a b) h, ap (λ n. n % p) (bit_xor-half a b), bit_xor-low a b)

-- Digits below those of `b` stay.
pub bit_xor-above :
    (k a l b : ℕ) → l < 2 ^ k → bit_xor (a * 2 ^ k + l) (b * 2 ^ k) ≡ bit_xor a b * 2 ^ k + l
bit_xor-above zero a l b h = ground arith
bit_xor-above (suc k) a l b h =
    rw (power-suc k)
      (above-double (2 ^ k) a l b (bit_xor-above k a (l / 2) b (omega (arith, power-suc k))))

-- The lowest digits are those of the lowest digits.
pub bit_xor-cut : (k a b : ℕ) → bit_xor a b % 2 ^ k ≡ bit_xor (a % 2 ^ k) (b % 2 ^ k)
bit_xor-cut zero a b = ground arith
bit_xor-cut (suc k) a b =
    rw (power-suc k) (cut-double (2 ^ k) a b (power-positive k) (bit_xor-cut k (a / 2) (b / 2)))

pub bit_xor-bound : (k a b : ℕ) → a < 2 ^ k → b < 2 ^ k → bit_xor a b < 2 ^ k
bit_xor-bound k a b h g =
    let same : bit_xor a b % 2 ^ k ≡ bit_xor a b =
      rw (mod-eq_of_lt h, mod-eq_of_lt g) at (bit_xor-cut k a b) in
    omega (arith, mod-lt (bit_xor a b) (power-positive k))

bit_xor-zero_below : (n a : ℕ) → a ≤ n → bit_xor a 0 ≡ a
bit_xor-zero_below n zero h = zero-bit_xor 0
bit_xor-zero_below zero (suc a) h = absurd (omega arith)
bit_xor-zero_below (suc n) (suc a) h = omega (
  arith,
  bit_xor-step (suc a) 0,
  bit_xor-zero_below n (suc a / 2) (omega arith),
  differ-zero (suc a % 2),
)

pub bit_xor-zero : (a : ℕ) → bit_xor a 0 ≡ a
bit_xor-zero a = bit_xor-zero_below a a (omega arith)
