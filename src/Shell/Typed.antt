-- ===== src/Shell/Typed.antt =====
-- The line that an operator types for a driver, run.
use interview.Base.{
  ℕ, zero, suc, ◌%◌, ◌^◌, ◌<◌, ◌≤◌, ◌≡◌, refl, ap, ◌∙◌, false, some, List, [], ◌∷◌, ◌++◌, length,
  length-append, ltb, ◌==◌, arith, All, All-append, All-mono,
}
use interview.Base.Text.{codes, strncmp_zero, unsigned_text}
use interview.Shell.Tokens.{skip_blanks, strtok}
use interview.Shell.Tokens.Words.{
  IsWord, spaced, rest_of, strtok-spaced, c_string-IsText, strtoul-unsigned_text,
  unsigned_text-IsWord,
}
use interview.Shell.Clients.{ShellState}
use interview.Shell.Command.{cmd_cmd, read_arguments, run_cmd, three_tokens, run_command_from_input}

abbrev pub IsArgument : List ℕ → Type 0
IsArgument w = IsWord w × (length w ≤ 255)

strtok-rest_of :
    (w : List ℕ) (ws : List (List ℕ)) → IsWord w → strtok (rest_of (w ∷ ws)) ≡ some (w, rest_of ws)
strtok-rest_of w ws a = strtok-spaced w ws a

read_arguments-rest_of :
    (rounds : ℕ) (args : List (List ℕ))
    → length args < rounds
    → All IsArgument args
    → read_arguments rounds (rest_of args) ≡ some args
unfolding read_arguments strtok skip_blanks
read_arguments-rest_of zero args enough a = absurd (omega (arith, enough))
read_arguments-rest_of (suc rounds) [] enough a = refl
read_arguments-rest_of (suc rounds) (arg ∷ args) enough a =
    let later = read_arguments-rest_of rounds args (omega (arith, enough)) a.1 in
    let short : ltb 255 (length arg) ≡ false = ground (arith, a.0.1) in
    rw (strtok-rest_of arg args a.0.0, read_arguments) (rw (short, later) refl)

length-spaced : (ws : List (List ℕ)) → length ws ≤ length (spaced ws)
length-spaced [] = omega arith
length-spaced (w ∷ ws) = omega (arith, length-spaced ws, length-append w (spaced ws))

length-rest_of : (ws : List (List ℕ)) → All IsWord ws → length ws ≤ length (rest_of ws)
length-rest_of [] a = omega arith
length-rest_of (w ∷ ws) a = omega (arith, length-spaced ws, length-append w (spaced ws), a.0.1)

text-IsWord : (w : List ℕ) → IsWord w → All (λ c. (c == 0) ≡ false) w
text-IsWord w a =
    All-mono (λ c. ((c == b' ') ≡ false) × ((c == 0) ≡ false)) (λ c. (c == 0) ≡ false) w
      (λ c p. p.1) a.0

text-spaced : (ws : List (List ℕ)) → All IsWord ws → All (λ c. (c == 0) ≡ false) (spaced ws)
text-spaced [] a = tt
text-spaced (w ∷ ws) a = (
  refl,
  All-append (λ c. (c == 0) ≡ false) w (spaced ws) (text-IsWord w a.0) (text-spaced ws a.1),
)

-- the line that an operator types
unfoldable pub cmd_line : (drv : List ℕ) → (slot : ℕ) → (drv_cmd : List ℕ) → List (List ℕ) → List ℕ
cmd_line drv slot drv_cmd args = codes "cmd" ++ spaced (drv ∷ unsigned_text slot ∷ drv_cmd ∷ args)

module _ (drv : List ℕ) (slot : ℕ) (drv_cmd : List ℕ) (args : List (List ℕ)) (drv_word : IsWord drv)
    (small : slot < 2 ^ 32) (cmd_word : IsWord drv_cmd) (all_args : All IsArgument args)
    (sh : ShellState) where
  words : All IsWord args
  words = All-mono IsArgument IsWord args (λ w p. p.0) all_args

  three :
      three_tokens (rest_of (drv ∷ unsigned_text slot ∷ drv_cmd ∷ args))
      ≡ some (drv, unsigned_text slot, drv_cmd, rest_of args)
  unfolding three_tokens
  three =
      rw (strtok-spaced drv (unsigned_text slot ∷ drv_cmd ∷ args) drv_word, three_tokens)
        (rw
          (
            strtok-spaced (unsigned_text slot) (drv_cmd ∷ args) (unsigned_text-IsWord slot),
            three_tokens,
          )
          (rw (strtok-spaced drv_cmd args cmd_word, three_tokens) refl))

  run_words :
      run_cmd drv (unsigned_text slot) drv_cmd (rest_of args) sh ≡ cmd_cmd drv slot drv_cmd args sh
  unfolding run_cmd
  run_words =
      let number : slot % 2 ^ 32 ≡ slot = omega (arith, small) in
      let got =
        read_arguments-rest_of (suc (length (rest_of args))) args
          (omega (arith, length-rest_of args words)) all_args in
      rw (strtoul-unsigned_text slot small)
        (rw (got, run_cmd) (rw (strtoul-unsigned_text slot small, number) refl))

  -- A line of the word "cmd", a driver's name, a slot of 32 bits in decimal, the name of a command and
  -- arguments of at most 255 bytes, with one blank between them, none of them empty and with neither a
  -- blank nor a NUL in them, calls `cmd_cmd` with exactly these.
  pub run_command-cmd_line :
      run_command_from_input (cmd_line drv slot drv_cmd args) sh ≡ cmd_cmd drv slot drv_cmd args sh
  unfolding run_command_from_input cmd_line strncmp_zero
  run_command-cmd_line =
      let ws = drv ∷ unsigned_text slot ∷ drv_cmd ∷ args in
      let c = codes "cmd" in
      let word : IsWord c = (((refl, refl), ((refl, refl), ((refl, refl), tt))), omega arith) in
      let plain =
        c_string-IsText (c ++ spaced ws)
          (text-spaced (c ∷ ws)
            (word, (drv_word, (unsigned_text-IsWord slot, (cmd_word, words))))).1 in
      let token = ap strtok plain ∙ strtok-spaced c ws word in
      rw (token, run_command_from_input) (rw (three, run_command_from_input) run_words)
