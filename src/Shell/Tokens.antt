-- ===== src/Shell/Tokens.antt =====
-- What supertel/task2/src/shell.c uses of the C library to take a command line apart: `strtok` with the
-- blank as the only delimiter, and `strtoul` to the base 10. A string is the list of its bytes.
pub mod Words
use interview.Base.{
  ℕ, zero, suc, ◌+◌, ◌-◌, ◌%◌, ◌^◌, Bool, true, false, ◌&&◌, ◌||◌, Option, none, some, List, [],
  ◌∷◌, length, drop, leb, ◌==◌, if◌then◌else◌,
}
use interview.Base.Text.{is_digit, read_digits}

unfoldable pub skip_blanks : List ℕ → List ℕ
skip_blanks [] = []
skip_blanks (c ∷ s) = let rest = skip_blanks s in if c == b' ' then rest else c ∷ s

-- the bytes up to a blank, and those behind it
unfoldable pub split_blank : List ℕ → List ℕ × List ℕ
split_blank [] = ([], [])
split_blank (c ∷ s) =
    let (token, rest) = split_blank s in if c == b' ' then ([], s) else (c ∷ token, rest)

-- a token, and the string where the next call goes on
unfoldable pub strtok : List ℕ → Option (List ℕ × List ℕ)
unfolding skip_blanks split_blank
strtok s = elim (skip_blanks s) [ [] ↦ none | c ∷ t ↦ some (split_blank (c ∷ t)) ]

-- `isspace`
abbrev pub is_space : ℕ → Bool
is_space c = c == b' ' || (leb 9 c && leb c 13)

unfoldable pub skip_space : List ℕ → List ℕ
skip_space [] = []
skip_space (c ∷ s) = let rest = skip_space s in if is_space c then rest else c ∷ s

unfoldable pub count_digits : List ℕ → ℕ
count_digits [] = 0
count_digits (c ∷ s) = let rest = count_digits s in if is_digit c then suc rest else 0

-- whether there is a minus, and what is behind a sign
unfoldable pub sign : List ℕ → Bool × List ℕ
sign [] = (false, [])
sign (c ∷ s) = if c == b'-' then (true, s) else if c == b'+' then (false, s) else (false, c ∷ s)

-- the value, and the rest that `endptr` points to: all, where there is no digit
unfoldable pub strtoul : List ℕ → ℕ × List ℕ
unfolding skip_space sign count_digits
strtoul s =
    let (negative, t) = sign (skip_space s) in
    let n = count_digits t in
    let v = read_digits (2 ^ 64) t 0 in
    let value = if v == 2 ^ 64 then 2 ^ 64 - 1 else if negative then (2 ^ 64 - v) % 2 ^ 64 else v in
    if n == 0 then (0, s) else (value, drop n t)
