-- ===== src/UnixSocketServer/Receive.antt =====
-- supertel/task2/src/unix-socket-server.c and unix-socket-client.c: how the bytes that a reader has asked
-- for are received. What `recv` returns is a list of answers of the kernel, and the bytes that the other
-- side has sent are `wire`.
pub mod Arrival
use interview.Base.{
  ℕ, zero, suc, ◌+◌, ◌-◌, ◌%◌, ◌^◌, Bool, true, false, Option, none, some, List, [], ◌∷◌, ◌++◌,
  length, take, drop, ltb, ◌==◌, not, ◌&&◌, if◌then◌else◌, ◌>>=◌,
}
use interview.UnixSocketServer.{Errno, no_error, eagain, other, blocked}

-- `recv` gives some bytes, or fails with EINTR, with EAGAIN, or with another error
pub data RecvAnswer : Type 0 where
  received : ℕ → RecvAnswer
  recv_interrupted : RecvAnswer
  recv_would_block : RecvAnswer
  recv_failed : ℕ → RecvAnswer

-- `read_task`: the buffer's `user_size` bytes, and where the part that is asked for starts
pub record ReadTask : Type 0 where
  pub content : List ℕ
  pub offset : ℕ
  pub currently_read : ℕ

-- where the loop stops
pub record ReadStop : Type 0 where
  pub filled : List ℕ
  pub bytes_read : ℕ
  pub bytes_to_read : ℕ
  pub eof : Bool
  pub errno : Errno
  pub wire : List ℕ

-- bytes written to a buffer at a position
unfoldable pub write_at : (position : ℕ) → (bytes content : List ℕ) → List ℕ
write_at position bytes content =
    take position content ++ bytes ++ drop (position + length bytes) content

-- `while (bytes_to_read && !eof)`; `none` is a call of `recv` that has no answer
unfoldable pub recv_loop :
    List RecvAnswer
    → (bytes_to_read offset bytes_read : ℕ) → (content wire : List ℕ) → Option ReadStop
unfolding write_at
recv_loop [] bytes_to_read offset bytes_read content wire =
    if bytes_to_read == 0
    then some (record {
      filled = content;
      bytes_read = bytes_read;
      bytes_to_read = 0;
      eof = false;
      errno = no_error;
      wire = wire;
    })
    else none
recv_loop (a ∷ answers) bytes_to_read offset bytes_read content wire =
    let stop : Bool → Errno → ReadStop = λ eof errno. record {
      filled = content;
      bytes_read = bytes_read;
      bytes_to_read = bytes_to_read;
      eof = eof;
      errno = errno;
      wire = wire;
    } in
    let next : Option ReadStop = elim a [
      | received n ↦
          let bytes = take n (take bytes_to_read wire) in
          let more =
            recv_loop answers (bytes_to_read - length bytes) offset (bytes_read + length bytes)
              (write_at (offset + bytes_read) bytes content) (drop (length bytes) wire) in
          if length bytes == 0 then some (stop true no_error) else more
      | recv_interrupted ↦ recv_loop answers bytes_to_read offset bytes_read content wire
      | recv_would_block ↦ some (stop false eagain)
      | recv_failed e ↦ some (stop false (other e))
    ] in
    if bytes_to_read == 0 then some (stop false no_error) else next

-- the job stays posted, or it is removed and the reader is called with an error and the flag `eof`
pub data ReadProgress : Type 0 where
  read_waits : ReadTask → List ℕ → ReadProgress
  reader_called : Errno → (eof : Bool) → ReadTask → List ℕ → ReadProgress

-- what is behind the loop
unfoldable pub after_recv : ReadTask → ReadStop → ReadProgress
after_recv task s =
    let next : ReadTask = record task { content = s.filled; currently_read = s.bytes_read } in
    if s.eof
    then reader_called s.errno true next s.wire
    else if not (s.bytes_to_read == 0) && blocked s.errno
    then read_waits next s.wire
    else reader_called s.errno false next s.wire

abbrev pub still_to_read : ReadTask → ℕ
still_to_read task = length task.content - task.offset - task.currently_read

-- `data_may_be_read` of the server, where `ioctl` stores `pending`
unfoldable pub data_may_be_read :
    (pending : ℕ) → ReadTask → List RecvAnswer → (wire : List ℕ) → Option ReadProgress
unfolding recv_loop after_recv
data_may_be_read pending task answers wire =
    if pending == 0
    then some (reader_called no_error true task wire)
    else (recv_loop answers (still_to_read task) task.offset task.currently_read task.content wire
        >>= λ s. some (after_recv task s))

-- `data_may_be_read` of the client, whose loop asks for what is pending
unfoldable pub client_data_may_be_read :
    (pending : ℕ) → ReadTask → List RecvAnswer → (wire : List ℕ) → Option ReadProgress
unfolding recv_loop after_recv
client_data_may_be_read pending task answers wire =
    let wanted = if ltb (still_to_read task) pending then still_to_read task else pending in
    if pending == 0
    then some (reader_called no_error true task wire)
    else (recv_loop answers wanted task.offset task.currently_read task.content wire >>= λ s.
        some (after_recv task s))
