-- ===== src/Shell/Tokens/Words.antt =====
-- The tokens of a text of words.
use interview.Base.{
  ℕ, ◌^◌, ◌<◌, ◌≡◌, refl, ap, ◌∙◌, true, false, some, List, [], ◌∷◌, ◌++◌, append-nil, length, drop,
  ◌==◌, arith, All, All-mono,
}
use interview.Base.Text.{is_digit, c_string, unsigned_text, print_digits, read_digits}
use interview.Base.Text.Digits.{read-unsigned_text, All-print_digits, length-unsigned_text}
use interview.Shell.Tokens.{
  skip_blanks, split_blank, strtok, skip_space, count_digits, sign, strtoul, is_space,
}

-- no blank and no NUL
abbrev pub IsText : List ℕ → Type 0
IsText = All (λ c. ((c == b' ') ≡ false) × ((c == 0) ≡ false))

abbrev pub IsWord : List ℕ → Type 0
IsWord w = IsText w × (0 < length w)

split_blank-word : (w s : List ℕ) → IsText w → split_blank (w ++ b' ' ∷ s) ≡ (w, s)
unfolding split_blank
split_blank-word [] s a = refl
split_blank-word (c ∷ w) s a = rw (a.0.0, split_blank-word w s a.1) refl

split_blank-last : (w : List ℕ) → IsText w → split_blank w ≡ (w, [])
unfolding split_blank
split_blank-last [] a = refl
split_blank-last (c ∷ w) a = rw (a.0.0, split_blank-last w a.1) refl

strtok-here :
    (c : ℕ) (t : List ℕ) → (c == b' ') ≡ false → strtok (c ∷ t) ≡ some (split_blank (c ∷ t))
unfolding strtok skip_blanks
strtok-here c t e =
    let skipped : skip_blanks (c ∷ t) ≡ c ∷ t = rw e refl in rw (skipped, strtok) refl

pub strtok-word : (w s : List ℕ) → IsWord w → strtok (w ++ b' ' ∷ s) ≡ some (w, s)
strtok-word [] s a = absurd (omega (arith, a.1))
strtok-word (c ∷ w) s a =
    strtok-here c (w ++ b' ' ∷ s) a.0.0.0 ∙ ap some (split_blank-word (c ∷ w) s a.0)

pub strtok-last : (w : List ℕ) → IsWord w → strtok w ≡ some (w, [])
strtok-last [] a = absurd (omega (arith, a.1))
strtok-last (c ∷ w) a = strtok-here c w a.0.0.0 ∙ ap some (split_blank-last (c ∷ w) a.0)

-- words, each behind a blank
abbrev pub spaced : List (List ℕ) → List ℕ
spaced [] = []
spaced (w ∷ ws) = b' ' ∷ (w ++ spaced ws)

-- what the next call of `strtok` starts from, behind a word
abbrev pub rest_of : List (List ℕ) → List ℕ
rest_of [] = []
rest_of (w ∷ ws) = w ++ spaced ws

pub strtok-spaced :
    (w : List ℕ) (ws : List (List ℕ)) → IsWord w → strtok (w ++ spaced ws) ≡ some (w, rest_of ws)
strtok-spaced w [] a = rw (append-nil w) (strtok-last w a)
strtok-spaced w (v ∷ ws) a = strtok-word w (v ++ spaced ws) a

pub c_string-IsText : (s : List ℕ) → All (λ c. (c == 0) ≡ false) s → c_string s ≡ s
unfolding c_string
c_string-IsText [] a = refl
c_string-IsText (c ∷ s) a = rw (a.0, c_string-IsText s a.1) refl

count-AreDigits : (ds : List ℕ) → All (λ c. is_digit c ≡ true) ds → count_digits ds ≡ length ds
unfolding count_digits
count-AreDigits [] a = refl
count-AreDigits (c ∷ ds) a = rw (a.0, count-AreDigits ds a.1) refl

digit-plain :
    (c : ℕ)
    → is_digit c ≡ true
    → (is_space c ≡ false) × ((c == b'-') ≡ false) × ((c == b'+') ≡ false)
unfolding is_digit
digit-plain c h = (ground (arith, h), ground (arith, h), ground (arith, h))

digit-text : (c : ℕ) → is_digit c ≡ true → ((c == b' ') ≡ false) × ((c == 0) ≡ false)
unfolding is_digit
digit-text c h = (ground (arith, h), ground (arith, h))

skip-digits : (ds : List ℕ) → All (λ c. is_digit c ≡ true) ds → sign (skip_space ds) ≡ (false, ds)
unfolding sign skip_space
skip-digits [] a = refl
skip-digits (c ∷ ds) a =
    let (space, minus, plus) = digit-plain c a.0 in rw space (rw (minus, plus) refl)

drop-length : (xs : List ℕ) → drop (length xs) xs ≡ []
drop-length [] = refl
drop-length (x ∷ xs) = drop-length xs

-- a printed number of 32 bits is read back, to the end of the string
pub strtoul-unsigned_text : (n : ℕ) → n < 2 ^ 32 → strtoul (unsigned_text n) ≡ (n, [])
unfolding strtoul unsigned_text read_digits
strtoul-unsigned_text n small =
    let digits = All-print_digits 10 n [] tt in
    let count = count-AreDigits (print_digits 10 n []) digits in
    let number = read-unsigned_text (2 ^ 64) n [] (omega (arith, small)) small in
    let there : (length (print_digits 10 n []) == 0) ≡ false =
      ground (arith, length-unsigned_text n) in
    let fits : (n == 2 ^ 64) ≡ false = ground (arith, small) in
    rw
      (
        skip-digits (print_digits 10 n []) digits,
        count,
        number,
        there,
        fits,
        drop-length (print_digits 10 n []),
      )
      refl

pub unsigned_text-IsWord : (n : ℕ) → IsWord (unsigned_text n)
unfolding unsigned_text
unsigned_text-IsWord n = (
  All-mono (λ c. is_digit c ≡ true) (λ c. ((c == b' ') ≡ false) × ((c == 0) ≡ false))
      (print_digits 10 n []) digit-text (All-print_digits 10 n [] tt),
  length-unsigned_text n,
)
