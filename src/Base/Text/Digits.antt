-- ===== src/Base/Text/Digits.antt =====
-- The digits that `sprintf("%u")` prints.
use Prim.Native.Nat.{ℕ, zero, suc, ◌+◌, ◌-◌, ◌*◌, ◌/◌, ◌%◌, ◌^◌, ◌≤◌, ◌<◌}
use mathlib.Core.Path.{◌≡◌, refl, sym, ap, ◌∙◌}
use mathlib.Core.Logic.{inl, inr}
use mathlib.Core.Bool.{true, false}
use mathlib.Core.List.{List, [], ◌∷◌, ◌++◌, append_assoc}
use native.Mathlib.Omega.{arith}
use interview.Base.Tests.{ltb, Bool-cases}
use interview.Base.Lists.{length, All}
use interview.Base.Text.{print_digits, unsigned_text, read_digits, is_digit}

last_digit : (n : ℕ) → is_digit (b'0' + n % 10) ≡ true
unfolding is_digit
last_digit n = ground arith

read-last :
    (limit n : ℕ) (out : List ℕ)
    → n ≤ limit
    → read_digits limit ((b'0' + n % 10) ∷ out) (n / 10) ≡ read_digits limit out n
unfolding read_digits
read-last limit n out fits =
    let whole : n / 10 * 10 + (b'0' + n % 10 - b'0') ≡ n = omega arith in
    let below : ltb limit n ≡ false = ground arith in rw (last_digit n, whole, below) refl

-- what is printed before `out` is read as `n`
pub read-print_digits :
    (rounds limit n : ℕ) (out : List ℕ)
    → n ≤ limit
    → n < 10 ^ suc rounds
    → read_digits limit (print_digits (suc rounds) n out) 0 ≡ read_digits limit out n
unfolding print_digits
read-print_digits zero limit n out fits small =
    let tenth : n / 10 ≡ 0 = omega (arith, small) in
    let here : ltb n 10 ≡ true = ground arith in
    rw here
      (ap (read_digits limit ((b'0' + n % 10) ∷ out)) (sym tenth) ∙ read-last limit n out fits)
read-print_digits (suc rounds) limit n out fits small = elim (Bool-cases (ltb n 10)) [
  | inl one ↦
      let tenth : n / 10 ≡ 0 = ground arith in
      rw one
        (ap (read_digits limit ((b'0' + n % 10) ∷ out)) (sym tenth) ∙ read-last limit n out fits)
  | inr more ↦ rw more (
      read-print_digits rounds limit (n / 10) ((b'0' + n % 10) ∷ out) (omega arith) (omega arith)
      ∙ read-last limit n out fits)
]

pub read-unsigned_text :
    (limit n : ℕ) (out : List ℕ)
    → n ≤ limit
    → n < 2 ^ 32
    → read_digits limit (print_digits 10 n out) 0 ≡ read_digits limit out n
read-unsigned_text limit n out fits small = read-print_digits 9 limit n out fits (omega arith)

-- what is printed before `out`, apart from it
pub print_digits-append :
    (rounds n : ℕ) (out : List ℕ) → print_digits rounds n out ≡ print_digits rounds n [] ++ out
unfolding print_digits
print_digits-append zero n out = refl
print_digits-append (suc rounds) n out = elim (Bool-cases (ltb n 10)) [
  | inl one ↦ rw one refl
  | inr more ↦
      let d = b'0' + n % 10 in
      rw more (
        print_digits-append rounds (n / 10) (d ∷ out)
        ∙ sym (append_assoc (print_digits rounds (n / 10) []) (d ∷ []) out)
        ∙ ap (λ s. s ++ out) (sym (print_digits-append rounds (n / 10) (d ∷ []))))
]

pub All-print_digits :
    (rounds n : ℕ) (out : List ℕ)
    → All (λ c. is_digit c ≡ true) out
    → All (λ c. is_digit c ≡ true) (print_digits rounds n out)
unfolding print_digits
All-print_digits zero n out digits = digits
All-print_digits (suc rounds) n out digits = elim (Bool-cases (ltb n 10)) [
  | inl one ↦ rw one (last_digit n, digits)
  | inr more ↦
      rw more (All-print_digits rounds (n / 10) ((b'0' + n % 10) ∷ out) (last_digit n, digits))
]

le-length-print_digits :
    (rounds n : ℕ) (out : List ℕ) → length out ≤ length (print_digits rounds n out)
unfolding print_digits
le-length-print_digits zero n out = omega arith
le-length-print_digits (suc rounds) n out = elim (Bool-cases (ltb n 10)) [
  | inl one ↦ rw one (omega arith)
  | inr more ↦
      rw more (omega (arith, le-length-print_digits rounds (n / 10) ((b'0' + n % 10) ∷ out)))
]

-- at least one digit
pub length-unsigned_text : (n : ℕ) → 0 < length (unsigned_text n)
unfolding unsigned_text print_digits
length-unsigned_text n = elim (Bool-cases (ltb n 10)) [
  | inl one ↦ rw one (omega arith)
  | inr more ↦ rw more (omega (arith, le-length-print_digits 9 (n / 10) ((b'0' + n % 10) ∷ [])))
]
