-- ===== src/Base/Text.antt =====
-- Strings of C: the bytes of a literal, comparison, and the decimal digits of an unsigned integer. A
-- string is the list of its bytes, and its NUL is the end of the list.
pub mod Digits
use Prim.Native.Nat.{ℕ, zero, suc, ◌+◌, ◌-◌, ◌*◌, ◌/◌, ◌%◌, ◌^◌, ◌≤◌, ◌<◌}
use Prim.Native.Char.{code}
use Prim.Native.String.{String}
use Prim.Native.String
use mathlib.Core.Path.{◌≡◌, refl, sym, ap, ◌∙◌}
use mathlib.Core.Logic.{◌≢◌}
use mathlib.Core.Bool.{Bool, true, false, not, ◌&&◌, ◌||◌}
use mathlib.Core.List.{List, [], ◌∷◌, ◌++◌}
use native.Mathlib.Omega.{arith}
use interview.Base.Tests.{ltb, leb, ◌==◌, if◌then◌else◌}
use interview.Base.Lists.{length, All}

abbrev pub codes : String → List ℕ
codes String.[] = []
codes (String.◌∷◌ c s) = code c ∷ codes s

-- the string that starts at the first byte
unfoldable pub c_string : List ℕ → List ℕ
c_string [] = []
c_string (c ∷ s) = let rest = c_string s in if c == 0 then [] else c ∷ rest

-- `0 == strncmp(a, b, n)`
unfoldable pub strncmp_zero : (n : ℕ) → List ℕ → List ℕ → Bool
strncmp_zero zero a b = true
strncmp_zero (suc n) [] [] = true
strncmp_zero (suc n) [] (y ∷ b) = y == 0
strncmp_zero (suc n) (x ∷ a) [] = x == 0
strncmp_zero (suc n) (x ∷ a) (y ∷ b) = let rest = strncmp_zero n a b in x == y && (x == 0 || rest)

-- `isdigit`
unfoldable pub is_digit : ℕ → Bool
is_digit c = leb b'0' c && leb c b'9'

-- at most `rounds` digits of `n`, the last ones, before `out`
unfoldable pub print_digits : (rounds : ℕ) → ℕ → List ℕ → List ℕ
print_digits zero n out = out
print_digits (suc rounds) n out =
    let digits = (b'0' + n % 10) ∷ out in
    let more = print_digits rounds (n / 10) digits in if ltb n 10 then digits else more

-- `sprintf("%u")`: an unsigned integer of 32 bits has at most 10 digits
unfoldable pub unsigned_text : ℕ → List ℕ
unsigned_text n = print_digits 10 n []

-- the number that the digits at the front spell behind `n`, which stays below `bound`
unfoldable pub read_digits : (limit : ℕ) → List ℕ → ℕ → ℕ
read_digits limit [] n = n
read_digits limit (c ∷ s) n =
    let next = n * 10 + (c - b'0') in
    let rest = read_digits limit s (if ltb limit next then limit else next) in
    if is_digit c then rest else n

-- `atoi` of digits, as the `unsigned int` that it is stored in: `strtol` stops at LONG_MAX
unfoldable pub atoi : List ℕ → ℕ
atoi s = read_digits (2 ^ 63 - 1) s 0 % 2 ^ 32
