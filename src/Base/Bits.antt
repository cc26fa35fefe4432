-- ===== src/Base/Bits.antt =====
-- Exclusive or, and or of numbers whose digits do not meet, at variables.
use Prim.Native.Nat.{
  ℕ, zero, suc, ◌+◌, ◌*◌, ◌/◌, ◌%◌, ◌^◌, ◌≤◌, ◌<◌, min, max, bit_and, bit_or, bit_xor, digits,
  differ, bit_and-bitwise, bit_or-bitwise, bit_xor-bitwise,
}
use mathlib.Core.Path.{◌≡◌, refl, ap, ◌∙◌}
use native.Mathlib.Nat.{two-pow-succ}
use native.Mathlib.Omega.{arith}

-- an operation `f` on digits, with `z b` once the first number has run out
module _ (z : ℕ → ℕ) (f : ℕ → ℕ → ℕ) (start : (y : ℕ) → z y ≡ z (y / 2) * 2 + f 0 (y % 2)) where
  abbrev combine : ℕ → ℕ → ℕ → ℕ
  combine n a b = digits z f n a b

  enough : (n m a b : ℕ) → a ≤ n → a ≤ m → combine n a b ≡ combine m a b
  enough zero zero a b h k = refl
  enough zero (suc m) zero b h k = refl
  enough zero (suc m) (suc a) b h k = absurd (omega arith)
  enough (suc n) zero zero b h k = refl
  enough (suc n) zero (suc a) b h k = absurd (omega arith)
  enough (suc n) (suc m) zero b h k = refl
  enough (suc n) (suc m) (suc a) b h k =
      omega (arith, enough n m (suc a / 2) (b / 2) (omega arith) (omega arith))

  lowest : (a b : ℕ) → combine a a b ≡ combine (a / 2) (a / 2) (b / 2) * 2 + f (a % 2) (b % 2)
  lowest zero b = start b
  lowest (suc a) b =
      omega (arith, enough a (suc a / 2) (suc a / 2) (b / 2) (omega arith) (omega arith))

bit_xor-step : (a b : ℕ) → bit_xor a b ≡ bit_xor (a / 2) (b / 2) * 2 + differ (a % 2) (b % 2)
bit_xor-step a b = omega (
  arith,
  bit_xor-bitwise a b,
  bit_xor-bitwise (a / 2) (b / 2),
  lowest (λ b. b) differ (λ y. omega arith) a b,
)

bit_or-step : (a b : ℕ) → bit_or a b ≡ bit_or (a / 2) (b / 2) * 2 + max (a % 2) (b % 2)
bit_or-step a b = omega (
  arith,
  bit_or-bitwise a b,
  bit_or-bitwise (a / 2) (b / 2),
  lowest (λ b. b) max (λ y. omega arith) a b,
)

bit_xor-zero : (b : ℕ) → bit_xor 0 b ≡ b
bit_xor-zero b = bit_xor-bitwise 0 b

bit_or-zero : (b : ℕ) → bit_or 0 b ≡ b
bit_or-zero b = bit_or-bitwise 0 b

-- two digits
differ_bits :
    (x y : ℕ)
    → x < 2
    → y < 2
    → (differ x y < 2)
      × (differ x (differ x y) ≡ y)
      × (differ (differ x y) y ≡ x)
      × (differ x x ≡ 0)
differ_bits zero zero p q = (omega arith, refl, refl, refl)
differ_bits zero (suc zero) p q = (omega arith, refl, refl, refl)
differ_bits (suc zero) zero p q = (omega arith, refl, refl, refl)
differ_bits (suc zero) (suc zero) p q = (omega arith, refl, refl, refl)
differ_bits x (suc (suc y)) p q = absurd (omega arith)
differ_bits (suc (suc x)) y p q = absurd (omega arith)

bits_of :
    (a b : ℕ)
    → (differ (a % 2) (b % 2) < 2)
      × (differ (a % 2) (differ (a % 2) (b % 2)) ≡ b % 2)
      × (differ (differ (a % 2) (b % 2)) (b % 2) ≡ a % 2)
      × (differ (a % 2) (a % 2) ≡ 0)
bits_of a b = differ_bits (a % 2) (b % 2) (omega arith) (omega arith)

-- the halves and the last digits of an exclusive or
bit_xor-parts :
    (a b : ℕ)
    → (bit_xor a b / 2 ≡ bit_xor (a / 2) (b / 2)) × (bit_xor a b % 2 ≡ differ (a % 2) (b % 2))
bit_xor-parts a b =
    let (small, left, right, same) = bits_of a b in
    (omega (arith, bit_xor-step a b, small), omega (arith, bit_xor-step a b, small))

left_fuel : (n a b : ℕ) → a ≤ n → bit_xor a (bit_xor a b) ≡ b
left_fuel n zero b h = bit_xor-zero (bit_xor 0 b) ∙ bit_xor-zero b
left_fuel zero (suc a) b h = absurd (omega arith)
left_fuel (suc n) (suc a) b h =
    let x = suc a in
    let (half, digit) = bit_xor-parts x b in
    let (small, left, right, same) = bits_of x b in
    bit_xor-step x (bit_xor x b)
    ∙ ap (λ k. bit_xor (x / 2) k * 2 + differ (x % 2) (bit_xor x b % 2)) half
    ∙ ap (λ k. bit_xor (x / 2) (bit_xor (x / 2) (b / 2)) * 2 + differ (x % 2) k) digit
    ∙ omega (arith, left, left_fuel n (x / 2) (b / 2) (omega arith))

pub bit_xor-cancel_left : (a b : ℕ) → bit_xor a (bit_xor a b) ≡ b
bit_xor-cancel_left a b = left_fuel a a b (omega arith)

self_fuel : (n a : ℕ) → a ≤ n → bit_xor a a ≡ 0
self_fuel n zero h = bit_xor-zero 0
self_fuel zero (suc a) h = absurd (omega arith)
self_fuel (suc n) (suc a) h =
    let (small, left, right, same) = bits_of (suc a) (suc a) in
    omega (arith, bit_xor-step (suc a) (suc a), same, self_fuel n (suc a / 2) (omega arith))

right_fuel : (n a b : ℕ) → a ≤ n → bit_xor (bit_xor a b) b ≡ a
right_fuel n zero b h = ap (λ k. bit_xor k b) (bit_xor-zero b) ∙ self_fuel b b (omega arith)
right_fuel zero (suc a) b h = absurd (omega arith)
right_fuel (suc n) (suc a) b h =
    let x = suc a in
    let (half, digit) = bit_xor-parts x b in
    let (small, left, right, same) = bits_of x b in
    bit_xor-step (bit_xor x b) b
    ∙ ap (λ k. bit_xor k (b / 2) * 2 + differ (bit_xor x b % 2) (b % 2)) half
    ∙ ap (λ k. bit_xor (bit_xor (x / 2) (b / 2)) (b / 2) * 2 + differ k (b % 2)) digit
    ∙ omega (arith, right, right_fuel n (x / 2) (b / 2) (omega arith))

pub bit_xor-cancel_right : (a b : ℕ) → bit_xor (bit_xor a b) b ≡ a
bit_xor-cancel_right a b = right_fuel a a b (omega arith)

pub bit_xor-bound : (k a b : ℕ) → a < 2 ^ k → b < 2 ^ k → bit_xor a b < 2 ^ k
bit_xor-bound zero a b h g =
    let none_a : a ≡ 0 = omega (arith, h) in
    let none_b : b ≡ 0 = omega (arith, g) in
    omega (arith, ap (λ x. bit_xor x b) none_a, bit_xor-zero b, none_b)
bit_xor-bound (suc k) a b h g =
    let (small, left, right, same) = bits_of a b in
    let double = two-pow-succ k in
    omega (
      arith,
      bit_xor-step a b,
      small,
      double,
      bit_xor-bound k (a / 2) (b / 2) (omega (arith, double, h)) (omega (arith, double, g)),
    )

-- a number below `2 ^ k` and a multiple of it have no digit in common
pub bit_or-disjoint : (k a b : ℕ) → a < 2 ^ k → bit_or a (b * 2 ^ k) ≡ a + b * 2 ^ k
bit_or-disjoint zero a b h =
    let none_a : a ≡ 0 = omega (arith, h) in
    omega (arith, ap (λ x. bit_or x (b * 2 ^ 0)) none_a, bit_or-zero (b * 2 ^ 0), none_a)
bit_or-disjoint (suc k) a b h =
    let double = two-pow-succ k in
    let even : b * 2 ^ suc k ≡ 2 * (b * 2 ^ k) = ap (λ p. b * p) double ∙ omega arith in
    let half : b * 2 ^ suc k / 2 ≡ b * 2 ^ k = omega (arith, even) in
    let last : max (a % 2) (b * 2 ^ suc k % 2) ≡ a % 2 = omega (arith, even) in
    bit_or-step a (b * 2 ^ suc k)
    ∙ ap (λ z. bit_or (a / 2) z * 2 + max (a % 2) (b * 2 ^ suc k % 2)) half
    ∙ omega (arith, last, even, bit_or-disjoint k (a / 2) b (omega (arith, double, h)))

bit_and-step : (a b : ℕ) → bit_and a b ≡ bit_and (a / 2) (b / 2) * 2 + min (a % 2) (b % 2)
bit_and-step a b = omega (
  arith,
  bit_and-bitwise a b,
  bit_and-bitwise (a / 2) (b / 2),
  lowest (λ b. 0) min (λ y. omega arith) a b,
)

none_fuel : (n a : ℕ) → a ≤ n → bit_and a 0 ≡ 0
none_fuel n zero h = bit_and-bitwise 0 0
none_fuel zero (suc a) h = absurd (omega arith)
none_fuel (suc n) (suc a) h =
    omega (arith, bit_and-step (suc a) 0, none_fuel n (suc a / 2) (omega arith))

-- a mask of 8 ones
nibble : (a : ℕ) → bit_and a 15 ≡ a % 16
nibble a = omega (
  arith,
  bit_and-step a 15,
  bit_and-step (a / 2) 7,
  bit_and-step (a / 2 / 2) 3,
  bit_and-step (a / 2 / 2 / 2) 1,
  none_fuel (a / 2 / 2 / 2 / 2) (a / 2 / 2 / 2 / 2) (omega arith),
)

pub bit_and-byte : (a : ℕ) → bit_and a 255 ≡ a % 256
bit_and-byte a = omega (
  arith,
  bit_and-step a 255,
  bit_and-step (a / 2) 127,
  bit_and-step (a / 2 / 2) 63,
  bit_and-step (a / 2 / 2 / 2) 31,
  nibble (a / 2 / 2 / 2 / 2),
)
