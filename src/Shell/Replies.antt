-- ===== src/Shell/Replies.antt =====
-- supertel/task2/src/shell.c: what a driver sends to the shell. The bytes received since the buffer was
-- emptied are a list; `none` is a read behind them.
pub mod Greeting
pub mod Response
use interview.Base.{
  ℕ, zero, suc, ◌+◌, ◌-◌, ◌*◌, ◌^◌, Bool, true, false, Option, none, some, List, [], ◌∷◌, ◌++◌,
  length, take, drop, ltb, ◌==◌, if◌then◌else◌, ◌>>=◌,
}
use interview.Base.Text.{codes, c_string}
use interview.DriverCore.{element, pr_drv_response}
use interview.Shell.Clients.{ShellDriverCommand}
use interview.UnixSocketServer.{Errno, no_error}
use interview.UnixSocketServer.Receive.{
  RecvAnswer, ReadTask, read_waits, reader_called, client_data_may_be_read,
}

abbrev pub pr_drv_info : ℕ
pr_drv_info = 0

-- the function that is called with the bytes that are asked for
pub data Reader : Type 0 where
  reader_signature : Reader
  reader_info : Reader
  reader_response : Reader

-- what a reader does: it asks for more bytes, connects again, gives up at the end of the data, sets
-- the commands of the driver, or prints
pub data Reaction : Type 0 where
  receive : ℕ → Reader → Reaction
  reconnect : Reaction
  ended : Reaction
  learned : List ShellDriverCommand → Reaction
  printed : List ℕ → Reaction

-- the loop of `reader_info`, over the bytes from `dci` on
unfoldable pub read_infos : (count : ℕ) → List ℕ → Option (List ShellDriverCommand)
read_infos zero bytes = some []
read_infos (suc count) bytes = do
  arity ← element bytes 6
  rest ← read_infos count (drop 262 bytes)
  if ltb (length bytes) 262
      then none
      else some (
          record {
            name = take 6 bytes ++ 0 ∷ [];
            arity = arity;
            descr = take 255 (drop 7 bytes) ++ 0 ∷ [];
          }
          ∷ rest)

unfoldable pub read_info : List ℕ → Option Reaction
unfolding read_infos
read_info bytes = do
  commands_number ← element bytes 1
  let required_length = 2 + 262 * commands_number in
      if ltb (length bytes) required_length
      then some (receive (required_length - length bytes) reader_info)
      else (read_infos commands_number (drop 2 bytes) >>= λ commands. some (learned commands))

-- `%.*s` with a precision of 31 bits ends at a NUL; a greater one is negative, and reads to a NUL that
-- may be behind the bytes, which is a fault
unfoldable pub print_response : (len : ℕ) → List ℕ → Option Reaction
print_response len message =
    if ltb len (2 ^ 31) then some (printed (c_string (take len message) ++ codes "\n> ")) else none

unfoldable pub read_response : List ℕ → Option Reaction
unfolding print_response
read_response bytes = do
  b0 ← element bytes 1
  b1 ← element bytes 2
  b2 ← element bytes 3
  b3 ← element bytes 4
  let len = b0 + b1 * 2 ^ 8 + b2 * 2 ^ 16 + b3 * 2 ^ 24 in
      if ltb (length bytes) (5 + len)
      then some (receive (5 + len - length bytes) reader_response)
      else print_response len (drop 5 bytes)

unfoldable pub read_signature : List ℕ → Option Reaction
read_signature bytes = do
  s ← element bytes 0
  if s == pr_drv_info
      then some (receive 1 reader_info)
      else if s == pr_drv_response
      then some (receive 4 reader_response)
      else some reconnect

unfoldable pub read : Reader → (error eof : Bool) → List ℕ → Option Reaction
unfolding read_info read_response read_signature
read reader error eof bytes =
    if error then some reconnect else if eof then some ended else elim reader [
      | reader_signature ↦ read_signature bytes
      | reader_info ↦ read_info bytes
      | reader_response ↦ read_response bytes
    ]

-- `connector` empties the buffers, and so does `writer`
unfoldable pub connector : Reaction
connector = receive 1 reader_signature

-- `reconnected` is what `unix_socket_client_reconnect` returns
unfoldable pub writer : (error reconnected : Bool) → Reaction
writer error reconnected =
    if error
    then if reconnected then printed (codes "> ") else ended
    else receive 1 reader_signature

-- the readers, called by the client's `data_may_be_read`; `none_left` is a reader that still waits when
-- there are no more events
pub data Heard : Type 0 where
  none_left : Heard
  heard : Reaction → Heard

-- an event of the input: what FIONREAD gives, what `recv` answers, and the bytes that stand in the
-- memory by which the buffer has grown
pub record InputEvent : Type 0 where
  pub pending : ℕ
  pub answers : List RecvAnswer
  pub room : ℕ → List ℕ

abbrev pub is_error : Errno → Bool
is_error no_error = false
is_error _ = true

-- `unix_socket_client_recv`: the buffer grows by the bytes that are asked for, which go behind the others
abbrev pub recv_task : (ℕ → List ℕ) → ℕ → List ℕ → ReadTask
recv_task room n content = record {
  content = content ++ room n;
  offset = length content;
  currently_read = 0;
}

-- a reader waits for `n` bytes behind `content`, or for the rest of a task that has been begun
pub data Waiting : Type 0 where
  fresh : ℕ → List ℕ → Waiting
  begun : ReadTask → Waiting

abbrev pub task_of : (ℕ → List ℕ) → Waiting → ReadTask
task_of room (fresh n content) = recv_task room n content
task_of room (begun task) = task

-- the events while `reader` waits, and the bytes that the driver has sent
unfoldable pub await : List InputEvent → Reader → Waiting → (wire : List ℕ) → Option Heard
await [] reader waiting wire = some none_left
await (event ∷ events) reader waiting wire =
    client_data_may_be_read event.pending (task_of event.room waiting) event.answers wire
    >>= λ progress. elim progress [
      | read_waits task rest ↦ await events reader (begun task) rest
      | reader_called errno eof task rest ↦
          (read reader (is_error errno) eof task.content) >>= λ next. elim next [
            | receive n reader' ↦ await events reader' (fresh n task.content) rest
            | reconnect ↦ some (heard reconnect)
            | ended ↦ some (heard ended)
            | learned commands ↦ some (heard (learned commands))
            | printed text ↦ some (heard (printed text))
          ]
    ]

unfoldable pub listen : List InputEvent → Reaction → (content wire : List ℕ) → Option Heard
unfolding await
listen events reaction content wire = elim reaction [
  | receive n reader ↦ await events reader (fresh n content) wire
  | reconnect ↦ some (heard reconnect)
  | ended ↦ some (heard ended)
  | learned commands ↦ some (heard (learned commands))
  | printed text ↦ some (heard (printed text))
]
