-- ===== src/DriverCore/Overrun.antt =====
-- Commands with two arguments: the reader takes the last one for the first.
use interview.Base.{
  ℕ, zero, suc, ◌+◌, ◌-◌, ◌%◌, ◌^◌, ◌≤◌, ◌<◌, ◌≡◌, refl, sym, ap, ◌∙◌, true, false, Option, none,
  some, List, [], ◌∷◌, ◌++◌, append_assoc, append-nil, length, take, drop, take-append, drop-append,
  length-append, ltb, ◌==◌, ◌>>=◌, arith,
}
use interview.DriverCore.{
  DriverCommand, ConnectionState, receive, element, arguments, take_argument, count_argument,
  read_argument, select_command, reader, start,
}
use interview.DriverCore.Serve.{Served, serve, serve-receive, reader-select, reader-signature}

element-append : (xs : List ℕ) (y : ℕ) (ys : List ℕ) → element (xs ++ y ∷ ys) (length xs) ≡ some y
element-append [] y ys = refl
element-append (x ∷ xs) y ys = element-append xs y ys

element-end : (xs : List ℕ) → element xs (length xs) ≡ none
element-end [] = refl
element-end (x ∷ xs) = element-end xs

-- the length of the next argument is there
read_argument-take :
    (c : DriverCommand) (idx : ℕ) (bytes : List ℕ) (state : ConnectionState) (len : ℕ)
    → (state.last_argument_offset == 0) ≡ false
    → ltb (length bytes) (state.last_argument_offset + 1) ≡ false
    → element bytes state.last_argument_offset ≡ some len
    → read_argument c idx bytes state
      ≡ take_argument c idx bytes state.last_argument_offset len state
unfolding read_argument
read_argument-take c idx bytes state len started there e = simp (started, there, e) refl

-- arguments of which the second has no length
arguments-end :
    (bytes : List ℕ) (offset len : ℕ)
    → element bytes offset ≡ some len
    → element bytes (offset + 1 + len) ≡ none
    → arguments 2 bytes offset ≡ none
unfolding arguments
arguments-end bytes offset len e last = rw (e, ◌>>=◌) (rw (last, ◌>>=◌) refl)

module _ (commands : List DriverCommand) where
  serve-fault :
      (rounds : ℕ) (received to_come : List ℕ) (state : ConnectionState)
      → reader commands false false received state ≡ none
      → serve (suc rounds) commands received to_come state ≡ none
  unfolding serve
  serve-fault rounds received to_come state e = rw (e, ◌>>=◌) refl

  -- the bytes of an argument, which are asked for unless there are none
  serve-argument :
      (received arg more : List ℕ) (state : ConnectionState) (n k : ℕ) (v : Option Served)
      → n ≡ length arg
      → (0 < length arg → reader commands false false received state ≡ some (receive n state))
      → ((rounds : ℕ) → k ≤ rounds → serve rounds commands (received ++ arg) more state ≡ v)
      → (rounds : ℕ) → suc k ≤ rounds
      → serve rounds commands received (arg ++ more) state ≡ v
  serve-argument received [] more state n k v e asks then_ rounds h =
      ap (λ z. serve rounds commands z more state) (sym (append-nil received))
      ∙ then_ rounds (omega (arith, h))
  serve-argument received (a ∷ r) more state n k v e asks then_ zero h = absurd (omega (arith, h))
  serve-argument received (a ∷ r) more state n k v e asks then_ (suc rounds) h =
      let arg = a ∷ r in
      serve-receive commands received (arg ++ more) state rounds n state (asks (omega arith))
        (omega (arith, e, length-append arg more))
      ∙ ap
          (λ k.
            serve rounds commands (received ++ take k (arg ++ more)) (drop k (arg ++ more)) state)
          e
      ∙ ap (λ z. serve rounds commands (received ++ z) (drop (length arg) (arg ++ more)) state)
          (take-append arg more)
      ∙ ap (λ z. serve rounds commands (received ++ arg) z state) (drop-append arg more)
      ∙ then_ rounds (omega (arith, h))

  module _ (idx : ℕ) (c : DriverCommand) (found : element commands idx ≡ some c) (a b : List ℕ)
      (takes : 2 ≤ c.max_arity) where
    abbrev first : ConnectionState
    first = record { argc = 2; args_received = 0; last_argument_offset = 3 }

    abbrev second : ConnectionState
    second = record { argc = 2; args_received = 1; last_argument_offset = 4 + length a }

    arity : ltb (c.max_arity) 2 ≡ false
    arity = ground arith

    reader-length : reader commands false false (1 ∷ idx ∷ 2 ∷ []) start ≡ some (receive 1 first)
    unfolding select_command read_argument
    reader-length = reader-select commands idx c found 2 [] start ∙ rw arity refl

    reader-rest :
        0 < length a
        → reader commands false false (1 ∷ idx ∷ 2 ∷ length a ∷ []) first
          ≡ some (receive (4 + length a - 4) first)
    unfolding select_command read_argument take_argument
    reader-rest more =
        let outside : ltb 4 (4 + length a) ≡ true = ground arith in
        reader-select commands idx c found 2 (length a ∷ []) first ∙ rw arity (rw outside refl)

    -- the first argument is there: one more byte is asked for
    reader-next :
        reader commands false false (1 ∷ idx ∷ 2 ∷ length a ∷ a) first ≡ some (receive 1 second)
    unfolding select_command read_argument take_argument count_argument
    reader-next =
        let there : ltb (suc (suc (suc (suc (length a))))) 4 ≡ false = ground arith in
        let inside : ltb (suc (suc (suc (suc (length a))))) (4 + length a) ≡ false = ground arith in
        let one : (4 + length a + 1 + 2 ^ 64 - suc (suc (suc (suc (length a))))) % 2 ^ 64 ≡ 1 =
          omega arith in
        reader-select commands idx c found 2 (length a ∷ a) first
        ∙ rw arity (rw there (rw inside (ap (λ k. some (receive k second)) one)))

    abbrev bytes : List ℕ → List ℕ
    bytes rest = 1 ∷ idx ∷ 2 ∷ length a ∷ (a ++ length b ∷ rest)

    offset : 4 + length a ≡ suc (suc (suc (suc (length a))))
    offset = omega arith

    length_here : (rest : List ℕ) → element (bytes rest) (4 + length a) ≡ some (length b)
    length_here rest = ap (element (bytes rest)) offset ∙ element-append a (length b) rest

    size : (rest : List ℕ) → length (a ++ length b ∷ rest) ≡ length a + 1 + length rest
    size rest = omega (arith, length-append a (length b ∷ rest))

    started : ((4 + length a) == 0) ≡ false
    started = ground arith

    there : (rest : List ℕ) → ltb (length (bytes rest)) (4 + length a + 1) ≡ false
    there rest = ground (arith, size rest)

    taken :
        (rest : List ℕ)
        → reader commands false false (bytes rest) second
          ≡ take_argument c idx (bytes rest) (4 + length a) (length b) second
    unfolding select_command
    taken rest =
        reader-select commands idx c found 2 (length a ∷ (a ++ length b ∷ rest)) second
        ∙ rw arity (
            read_argument-take c idx (bytes rest) second (length b) started (there rest)
              (length_here rest))

    reader-second :
        0 < length b
        → reader commands false false (bytes []) second
          ≡ some (receive (4 + length a + 1 + length b - length (bytes [])) second)
    unfolding take_argument
    reader-second more =
        let outside : ltb (length (bytes [])) (4 + length a + 1 + length b) ≡ true =
          ground (arith, size []) in
        taken [] ∙ rw outside refl

    behind : element (bytes b) (4 + length a + 1 + length b) ≡ none
    behind =
        let e : 4 + length a + 1 + length b ≡ length (bytes b) = omega (arith, size b) in
        ap (element (bytes b)) e ∙ element-end (bytes b)

    -- both are there, but the arguments are read from the second on
    reader-overrun : reader commands false false (bytes b) second ≡ none
    unfolding take_argument count_argument
    reader-overrun =
        let inside : ltb (length (bytes b)) (4 + length a + 1 + length b) ≡ false =
          ground (arith, size b) in
        taken b
        ∙ rw inside (
            rw (arguments-end (bytes b) (4 + length a) (length b) (length_here b) behind, ◌>>=◌)
              refl)

    serve-overrun : (rounds : ℕ) → 1 ≤ rounds → serve rounds commands (bytes b) [] second ≡ none
    serve-overrun zero h = absurd (omega (arith, h))
    serve-overrun (suc rounds) h = serve-fault rounds (bytes b) [] second reader-overrun

    serve-second : (rounds : ℕ) → 2 ≤ rounds → serve rounds commands (bytes []) b second ≡ none
    serve-second rounds h =
        let long : 4 + length a + 1 + length b - length (bytes []) ≡ length b =
          omega (arith, size []) in
        let joined : bytes [] ++ b ≡ bytes b =
          ap (λ z. 1 ∷ idx ∷ 2 ∷ length a ∷ z) (append_assoc a (length b ∷ []) b) in
        ap (λ z. serve rounds commands (bytes []) z second) (sym (append-nil b))
        ∙ serve-argument (bytes []) b [] second (4 + length a + 1 + length b - length (bytes [])) 1
            none long reader-second
            (λ r k. ap (λ z. serve r commands z [] second) joined ∙ serve-overrun r k) rounds h

    serve-next :
        (rounds : ℕ)
        → 3 ≤ rounds
        → serve rounds commands (1 ∷ idx ∷ 2 ∷ length a ∷ a) (length b ∷ b) first ≡ none
    serve-next zero h = absurd (omega (arith, h))
    serve-next (suc rounds) h =
        serve-receive commands (1 ∷ idx ∷ 2 ∷ length a ∷ a) (length b ∷ b) first rounds 1 second
          reader-next (omega arith)
        ∙ serve-second rounds (omega (arith, h))

    -- A client that asks for a command of the driver with two arguments, which the command takes, by the
    -- bytes of the protocol, makes the driver read behind the bytes that it has received, within 6
    -- rounds of the reader and whatever the arguments.
    pub serve_command-overrun :
        (rounds : ℕ)
        → serve
            (suc (suc (suc (suc (suc (suc rounds))))))
            commands
            (1 ∷ [])
            (idx ∷ 2 ∷ length a ∷ (a ++ length b ∷ b))
            start
          ≡ none
    serve_command-overrun rounds =
        let left = suc (suc (suc (suc rounds))) in
        serve-receive commands (1 ∷ []) (idx ∷ 2 ∷ length a ∷ (a ++ length b ∷ b)) start (suc left)
          2 start (reader-signature commands idx c found) (omega arith)
        ∙ serve-receive commands (1 ∷ idx ∷ 2 ∷ []) (length a ∷ (a ++ length b ∷ b)) start left 1
            first reader-length (omega arith)
        ∙ serve-argument (1 ∷ idx ∷ 2 ∷ length a ∷ []) a (length b ∷ b) first (4 + length a - 4) 3
            none (omega arith) reader-rest serve-next left (omega arith)
