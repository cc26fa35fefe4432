-- ===== src/Base/Int.antt =====
-- Signed integers, compared in the form that the arithmetic tactics read.
use Prim.Native.Nat.{ℕ, suc, ◌+◌, ◌-◌, ◌≤◌, ◌<◌}
use mathlib.Core.Path.{◌≡◌}
use mathlib.Core.Bool.{Bool, true, false}
use native.Mathlib.Omega.{arith}
use interview.Base.Tests.{ltb, leb, ◌==◌, if◌then◌else◌}

-- `negsuc n` is -(n + 1).
pub data ℤ : Type 0 where
  pos : ℕ → ℤ
  negsuc : ℕ → ℤ

abbrev pub pos_part : ℤ → ℕ
pos_part (pos n) = n
pos_part (negsuc n) = 0

abbrev pub neg_part : ℤ → ℕ
neg_part (pos n) = 0
neg_part (negsuc n) = suc n

infix 50 ◌≤ℤ◌ ◌<ℤ◌
abbrev pub ◌≤ℤ◌ : ℤ → ℤ → Type 0
a ≤ℤ b = pos_part a + neg_part b ≤ pos_part b + neg_part a

abbrev pub ◌<ℤ◌ : ℤ → ℤ → Type 0
a <ℤ b = pos_part a + neg_part b < pos_part b + neg_part a

-- the C comparison `a < b`
abbrev pub ltz : ℤ → ℤ → Bool
ltz a b = ltb (pos_part a + neg_part b) (pos_part b + neg_part a)

pub eq_of_parts : (a b : ℤ) → pos_part a + neg_part b ≡ pos_part b + neg_part a → a ≡ b
eq_of_parts a b h = ground arith

-- the C comparison `a == b`
abbrev pub eqz : ℤ → ℤ → Bool
eqz a b = pos_part a + neg_part b == pos_part b + neg_part a

pub eqz→eq : (a b : ℤ) → eqz a b ≡ true → a ≡ b
eqz→eq a b h = ground (arith, eq_of_parts a b)

pub ltz→lt : (a b : ℤ) → ltz a b ≡ true → a <ℤ b
ltz→lt a b h = ground arith

pub ltz→le : (a b : ℤ) → ltz a b ≡ false → b ≤ℤ a
ltz→le a b h = ground arith

-- a key that is neither less nor greater
pub eq_of_ltz : (a b : ℤ) → ltz a b ≡ false → ltz b a ≡ false → a ≡ b
eq_of_ltz a b p q = eq_of_parts a b (omega (arith, ltz→le a b p, ltz→le b a q))

pub lt_of_ne : (a b : ℤ) → ltz a b ≡ false → eqz a b ≡ false → b <ℤ a
lt_of_ne a b p q = ground arith

-- a - b, as an integer
abbrev pub sub_ℕ : ℕ → ℕ → ℤ
sub_ℕ a b = if leb b a then pos (a - b) else negsuc (b - a - 1)

infixl 65 ◌+ℤ◌ ◌-ℤ◌
abbrev pub ◌+ℤ◌ : ℤ → ℤ → ℤ
a +ℤ b = sub_ℕ (pos_part a + pos_part b) (neg_part a + neg_part b)

abbrev pub ◌-ℤ◌ : ℤ → ℤ → ℤ
a -ℤ b = sub_ℕ (pos_part a + neg_part b) (neg_part a + pos_part b)
