-- ===== src/DriverCore/Serve.antt =====
-- A connection served from the bytes that a client sends.
use interview.Base.{
  ℕ, zero, suc, ◌+◌, ◌-◌, ◌≤◌, ◌<◌, ◌≡◌, refl, sym, ap, ◌∙◌, true, false, Option, none, some, List,
  [], ◌∷◌, ◌++◌, append-nil, length, take, drop, take-append, ltb, if◌then◌else◌, ◌>>=◌, arith,
}
use interview.DriverCore.{
  DriverCommand, ConnectionState, close, receive, send, element, arguments, finish_response, call,
  take_argument, count_argument, read_argument, select_command, read_command, reader,
  response_header, start,
}

-- `reader` is called again when the bytes that it asks for have come; `waiting` is a client that has
-- not sent them yet, or has no more rounds
pub data Served : Type 0 where
  closed : Served
  waiting : Served
  answered : List ℕ → Served

unfoldable pub serve :
    (rounds : ℕ)
    → List DriverCommand
    → (received to_come : List ℕ) → ConnectionState
    → Option Served
serve zero commands received to_come state = some waiting
serve (suc rounds) commands received to_come state = do
  request ← reader commands false false received state
  elim request [
    | close ↦ some closed
    | send response next ↦ some (answered response)
    | receive n next ↦
        let rest = serve rounds commands (received ++ take n to_come) (drop n to_come) next in
        if ltb (length to_come) n then some waiting else rest
  ]

module _ (commands : List DriverCommand) (received to_come : List ℕ) (state : ConnectionState) where
  pub serve-receive :
      (rounds n : ℕ) (next : ConnectionState)
      → reader commands false false received state ≡ some (receive n next)
      → n ≤ length to_come
      → serve (suc rounds) commands received to_come state
        ≡ serve rounds commands (received ++ take n to_come) (drop n to_come) next
  unfolding serve
  serve-receive rounds n next e enough =
      let there : ltb (length to_come) n ≡ false = ground arith in rw (e, ◌>>=◌) (rw there refl)

  pub serve-send :
      (rounds : ℕ) (m : Option (List ℕ)) (next : ConnectionState)
      → reader commands false false received state ≡ (m >>= λ response. some (send response next))
      → serve (suc rounds) commands received to_come state
        ≡ (m >>= λ response. some (answered response))
  unfolding serve
  serve-send rounds none next e = rw (e, ◌>>=◌) refl
  serve-send rounds (some response) next e = rw (e, ◌>>=◌) refl

-- the command is selected once its three bytes are there
module _ (commands : List DriverCommand) (idx : ℕ) (c : DriverCommand)
    (found : element commands idx ≡ some c) where
  pub reader-select :
      (argc : ℕ) (rest : List ℕ) (state : ConnectionState)
      → reader commands false false (1 ∷ idx ∷ argc ∷ rest) state
        ≡ select_command c idx argc (1 ∷ idx ∷ argc ∷ rest) state
  unfolding reader read_command
  reader-select argc rest state =
      let there : ltb (suc (suc (suc (length rest)))) 3 ≡ false = ground arith in
      rw there (rw (found, ◌>>=◌) refl)

  pub reader-signature : reader commands false false (1 ∷ []) start ≡ some (receive 2 start)
  unfolding reader
  reader-signature = refl

  pub no_arguments :
      (rounds : ℕ)
      → serve (suc (suc rounds)) commands (1 ∷ []) (idx ∷ 0 ∷ []) start ≡ (
          finish_response (c.handler idx [] response_header) >>= λ response.
          some (answered response))
  unfolding select_command call
  no_arguments rounds =
      let arity : ltb (c.max_arity) 0 ≡ false = ground arith in
      serve-receive commands (1 ∷ []) (idx ∷ 0 ∷ []) start (suc rounds) 2 start reader-signature
        (omega arith)
      ∙ serve-send commands (1 ∷ idx ∷ 0 ∷ []) [] start rounds
          (finish_response (c.handler idx [] response_header)) start
          (reader-select 0 [] start ∙ rw arity refl)

  module _ (arg : List ℕ) (takes : 0 < c.max_arity) where
    abbrev one : ConnectionState
    one = record { argc = 1; args_received = 0; last_argument_offset = 3 }

    abbrev whole : List ℕ
    whole = 1 ∷ idx ∷ 1 ∷ length arg ∷ arg

    arity : ltb (c.max_arity) 1 ≡ false
    arity = ground arith

    arguments-one : arguments 1 whole 3 ≡ some (arg ∷ [])
    unfolding arguments
    arguments-one =
        let inside : ltb (suc (suc (suc (suc (length arg))))) (4 + length arg) ≡ false =
          ground arith in
        rw inside (
          ap (λ z. some (z ∷ []))
            (ap (take (length arg)) (sym (append-nil arg)) ∙ take-append arg []))

    reader-length : reader commands false false (1 ∷ idx ∷ 1 ∷ []) start ≡ some (receive 1 one)
    unfolding select_command read_argument
    reader-length = reader-select 1 [] start ∙ rw arity refl

    -- with the argument received
    reader-whole : reader commands false false whole one ≡ (
        finish_response (c.handler idx (arg ∷ []) response_header) >>= λ response.
        some (send response (count_argument one 3 (length arg))))
    unfolding select_command read_argument take_argument count_argument call
    reader-whole =
        let there : ltb (suc (suc (suc (suc (length arg))))) 4 ≡ false = ground arith in
        let inside : ltb (suc (suc (suc (suc (length arg))))) (4 + length arg) ≡ false =
          ground arith in
        reader-select 1 (length arg ∷ arg) one
        ∙ rw arity (rw there (rw inside (rw (arguments-one, ◌>>=◌) refl)))

    reader-rest :
        0 < length arg
        → reader commands false false (1 ∷ idx ∷ 1 ∷ length arg ∷ []) one
          ≡ some (receive (4 + length arg - 4) one)
    unfolding select_command read_argument take_argument
    reader-rest more =
        let outside : ltb 4 (4 + length arg) ≡ true = ground arith in
        reader-select 1 (length arg ∷ []) one ∙ rw arity (rw outside refl)

    abbrev answer : Option Served
    answer = finish_response (c.handler idx (arg ∷ []) response_header) >>= λ response.
        some (answered response)

    answered_whole :
        (rounds : ℕ) (to_come : List ℕ) → serve (suc rounds) commands whole to_come one ≡ answer
    answered_whole rounds to_come =
        serve-send commands whole to_come one rounds
          (finish_response (c.handler idx (arg ∷ []) response_header))
          (count_argument one 3 (length arg)) reader-whole

  -- from the length of the argument on
  answered_length :
      (arg : List ℕ) (takes : 0 < c.max_arity) (rounds : ℕ)
      → serve (suc (suc rounds)) commands (1 ∷ idx ∷ 1 ∷ length arg ∷ []) arg (one arg takes)
        ≡ answer arg takes
  answered_length [] takes rounds = answered_whole [] takes (suc rounds) []
  answered_length (a ∷ r) takes rounds =
      let arg = a ∷ r in
      let n : 4 + length arg - 4 ≡ length arg = omega arith in
      let taken : take (4 + length arg - 4) arg ≡ arg =
        ap (λ k. take k arg) n
        ∙ ap (take (length arg)) (sym (append-nil arg))
        ∙ take-append arg [] in
      serve-receive commands (1 ∷ idx ∷ 1 ∷ length arg ∷ []) arg (one arg takes) (suc rounds)
        (4 + length arg - 4) (one arg takes) (reader-rest arg takes (omega arith)) (omega arith)
      ∙ ap
          (λ z.
            serve (suc rounds) commands (1 ∷ idx ∷ 1 ∷ length arg ∷ z)
              (drop (4 + length arg - 4) arg) (one arg takes))
          taken
      ∙ answered_whole arg takes rounds (drop (4 + length arg - 4) arg)

  pub one_argument :
      (arg : List ℕ) (takes : 0 < c.max_arity) (rounds : ℕ)
      → serve (suc (suc (suc (suc rounds)))) commands (1 ∷ []) (idx ∷ 1 ∷ length arg ∷ arg) start
        ≡ answer arg takes
  one_argument arg takes rounds =
      serve-receive commands (1 ∷ []) (idx ∷ 1 ∷ length arg ∷ arg) start (suc (suc (suc rounds))) 2
        start reader-signature (omega arith)
      ∙ serve-receive commands (1 ∷ idx ∷ 1 ∷ []) (length arg ∷ arg) start (suc (suc rounds)) 1
          (one arg takes) (reader-length arg takes) (omega arith)
      ∙ answered_length arg takes rounds

  -- A client that asks for a command idx of the driver by the bytes of the protocol, with no argument or
  -- with one argument of at least zero bytes that the command takes, is answered after at most 4
  -- rounds of the reader: by the finished response of the command's handler to those arguments. No
  -- answer comes only if the handler's response lacks its header, which is an abort.
  pub serve_command :
      (arg : List ℕ) (rounds : ℕ)
      → 0 < c.max_arity
      → (serve (suc (suc rounds)) commands (1 ∷ []) (idx ∷ 0 ∷ []) start ≡ (
          finish_response (c.handler idx [] response_header) >>= λ response.
          some (answered response)))
        × (serve (suc (suc (suc (suc rounds)))) commands (1 ∷ []) (idx ∷ 1 ∷ length arg ∷ arg) start
            ≡ (finish_response (c.handler idx (arg ∷ []) response_header) >>= λ response.
                some (answered response)))
  serve_command arg rounds takes = (no_arguments rounds, one_argument arg takes rounds)
