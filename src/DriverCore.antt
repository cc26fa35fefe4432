-- ===== src/DriverCore.antt =====
-- supertel/task2/src/driver-core.c: how a driver reads a command from a connection and answers it. The
-- bytes received so far are a list. `none` is a fault: a failed assertion, an abort, or a read behind
-- those bytes.
pub mod Serve
pub mod Overrun
pub mod Greeting
use interview.Base.{
  ℕ, zero, suc, ◌+◌, ◌-◌, ◌/◌, ◌%◌, ◌^◌, Bool, true, false, ◌||◌, Option, none, some, List, [], ◌∷◌,
  ◌++◌, length, take, drop, ltb, ◌==◌, not, if◌then◌else◌, ◌>>=◌,
}

abbrev pub pr_drv_command : ℕ
pr_drv_command = 1

abbrev pub pr_drv_response : ℕ
pr_drv_response = 2

-- `driver_command_t`. A handler takes the index of the command, its arguments and the response so far
-- to the response.
pub record DriverCommand : Type 0 where
  pub name : List ℕ
  pub description : List ℕ
  pub max_arity : ℕ
  pub handler : ℕ → List (List ℕ) → List ℕ → List ℕ

-- `driver_core_connection_state_t`
pub record ConnectionState : Type 0 where
  pub argc : ℕ
  pub args_received : ℕ
  pub last_argument_offset : ℕ

-- what `reader` asks of the server: to close the connection, to receive more bytes, or to send some
pub data Request : Type 0 where
  close : Request
  receive : ℕ → ConnectionState → Request
  send : List ℕ → ConnectionState → Request

abbrev pub element : {A : Type 0} → List A → ℕ → Option A
element [] i = none
element (x ∷ xs) zero = some x
element (x ∷ xs) (suc i) = element xs i

-- `argc` arguments, each behind its length, from an offset
unfoldable pub arguments : (argc : ℕ) → List ℕ → ℕ → Option (List (List ℕ))
arguments zero bytes offset = some []
arguments (suc argc) bytes offset = do
  len ← element bytes offset
  rest ← arguments argc bytes (offset + 1 + len)
  if ltb (length bytes) (offset + 1 + len)
      then none
      else some (take len (drop (offset + 1) bytes) ∷ rest)

-- the header of a response, whose bytes are not set before the handler is called
abbrev pub response_header : List ℕ
response_header = 0 ∷ 0 ∷ 0 ∷ 0 ∷ 0 ∷ []

-- the header with its signature and the length of what is behind it
unfoldable pub finish_response : List ℕ → Option (List ℕ)
finish_response response =
    if ltb (length response) 5
    then none
    else (let len = (length response - 5) % 2 ^ 32 in
        some (
          pr_drv_response
          ∷ (len % 256)
          ∷ (len / 2 ^ 8 % 256)
          ∷ (len / 2 ^ 16 % 256)
          ∷ (len / 2 ^ 24 % 256)
          ∷ drop 5 response))

unfoldable pub call :
    DriverCommand → (cmd_idx : ℕ) → List (List ℕ) → ConnectionState → Option Request
call c cmd_idx argv state = do
  response ← finish_response (c.handler cmd_idx argv response_header)
  some (send response state)

-- one more argument, of `len` bytes, is there
unfoldable pub count_argument : ConnectionState → (offset len : ℕ) → ConnectionState
count_argument state offset len = record state {
  args_received = state.args_received + 1;
  last_argument_offset = offset + 1 + len;
}

-- the next argument of a command starts at `offset`
unfoldable pub take_argument :
    DriverCommand → (cmd_idx : ℕ) → List ℕ → (offset len : ℕ) → ConnectionState → Option Request
take_argument c cmd_idx bytes offset len state =
    let size = length bytes in
    let next = count_argument state offset len in
    if ltb size (offset + 1 + len)
    then some (receive (offset + 1 + len - size) state)
    else if ltb next.args_received next.argc
    then some (receive ((offset + 1 + len + 1 + 2 ^ 64 - size) % 2 ^ 64) next)
    else (do argv ← arguments next.argc bytes offset; call c cmd_idx argv next)

unfoldable pub read_argument :
    DriverCommand → (cmd_idx : ℕ) → List ℕ → ConnectionState → Option Request
read_argument c cmd_idx bytes state0 =
    let offset = if state0.last_argument_offset == 0 then 3 else state0.last_argument_offset in
    let state = record state0 { last_argument_offset = offset } in
    if ltb (length bytes) (offset + 1)
    then some (receive (offset + 1 - length bytes) state)
    else (do len ← element bytes offset; take_argument c cmd_idx bytes offset len state)

unfoldable pub select_command :
    DriverCommand → (cmd_idx argc : ℕ) → List ℕ → ConnectionState → Option Request
select_command c cmd_idx argc bytes state0 =
    let state = record state0 { argc = argc } in
    if ltb c.max_arity argc
    then some close
    else if argc == 0
    then call c cmd_idx [] state
    else if argc == state.args_received
    then (do argv ← arguments argc bytes 3; some (send (c.handler cmd_idx argv []) state))
    else read_argument c cmd_idx bytes state

unfoldable pub read_command : List DriverCommand → List ℕ → ConnectionState → Option Request
read_command commands bytes state = do
  cmd_idx ← element bytes 1
  argc ← element bytes 2
  c ← element commands cmd_idx
  select_command c cmd_idx argc bytes state

unfoldable pub reader :
    List DriverCommand → (error eof : Bool) → List ℕ → ConnectionState → Option Request
reader commands error eof bytes state = if error || eof then some close else (do
  s ← element bytes 0
  if not (s == pr_drv_command)
      then some close
      else if ltb (length bytes) 3
      then some (receive (3 - length bytes) state)
      else read_command commands bytes state)

-- `writer` and `acceptor` start over
abbrev pub start : ConnectionState
start = record { argc = 0; args_received = 0; last_argument_offset = 0 }

unfoldable pub writer : (error : Bool) → ConnectionState → Request
writer error state = if error then close else receive 1 start

-- `memset` to 0 and `memcpy` of at most `n` bytes
abbrev pub padded : ℕ → List ℕ → List ℕ
padded zero xs = []
padded (suc n) [] = 0 ∷ padded n []
padded (suc n) (x ∷ xs) = x ∷ padded n xs

-- `pr_driver_command_info_t`
unfoldable pub command_info : DriverCommand → List ℕ
command_info c = padded 6 c.name ++ (c.max_arity % 256) ∷ padded 255 c.description

unfoldable pub command_infos : List DriverCommand → List ℕ
command_infos [] = []
command_infos (c ∷ cs) = command_info c ++ command_infos cs

-- the greeting that `driver_core_init_` makes, for the first 255 commands
unfoldable pub greeting : List DriverCommand → List ℕ
greeting commands = 0 ∷ (length commands % 256) ∷ command_infos (take 255 commands)

-- `acceptor` sends the greeting
unfoldable pub acceptor : List DriverCommand → Request
acceptor commands = send (greeting commands) start
