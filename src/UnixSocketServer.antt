-- ===== src/UnixSocketServer.antt =====
-- supertel/task2/src/unix-socket-server.c: how a buffer is sent over a connection. What `send` returns
-- is a list of answers of the kernel, and the bytes that it has accepted so far are `wire`.
pub mod Delivery
pub mod Receive
pub mod Connections
use interview.Base.{
  ℕ, zero, suc, ◌+◌, ◌-◌, ◌%◌, ◌^◌, Bool, true, false, Option, none, some, List, [], ◌∷◌, ◌++◌,
  length, take, drop, ◌==◌, not, ◌&&◌, if◌then◌else◌, ◌>>=◌,
}

-- `send` accepts some bytes, or fails with EINTR, with EAGAIN, or with another error
pub data Answer : Type 0 where
  accepted : ℕ → Answer
  interrupted : Answer
  would_block : Answer
  failed : ℕ → Answer

-- `write_task`
pub record WriteTask : Type 0 where
  pub content : List ℕ
  pub currently_wrote : ℕ

pub data Errno : Type 0 where
  no_error : Errno
  eagain : Errno
  other : ℕ → Errno

-- where the loop stops: the task, the bytes still to write, errno, the wire, and the answers left
pub record Stop : Type 0 where
  pub wrote : ℕ
  pub to_write : ℕ
  pub errno : Errno
  pub wire : List ℕ
  pub left : List Answer

-- `none` is a call of `send` that has no answer
unfoldable pub send_loop : List ℕ → List Answer → (wrote to_write : ℕ) → List ℕ → Option Stop
send_loop content [] wrote to_write wire =
    if to_write == 0
    then some (record { wrote = wrote; to_write = 0; errno = no_error; wire = wire; left = [] })
    else none
send_loop content (a ∷ answers) wrote to_write wire =
    let stop : Errno → List Answer → Stop = λ e left. record {
      wrote = wrote;
      to_write = to_write;
      errno = e;
      wire = wire;
      left = left;
    } in
    let next : Option Stop = elim a [
      | accepted n ↦
          send_loop content answers ((wrote + n) % 2 ^ 64) ((to_write + 2 ^ 64 - n) % 2 ^ 64)
            (wire ++ take n (drop wrote content))
      | interrupted ↦ send_loop content answers wrote to_write wire
      | would_block ↦ some (stop eagain answers)
      | failed e ↦ some (stop (other e) answers)
    ] in
    if to_write == 0 then some (stop no_error (a ∷ answers)) else next

abbrev pub blocked : Errno → Bool
blocked eagain = true
blocked e = false

-- the job stays posted, or it is removed and the writer is called with an error
pub data Progress : Type 0 where
  waits : WriteTask → List ℕ → List Answer → Progress
  writer : Errno → WriteTask → List ℕ → Progress

unfoldable pub data_may_be_sent : WriteTask → List Answer → List ℕ → Option Progress
data_may_be_sent task answers wire = do
  s ←
      send_loop task.content answers task.currently_wrote
        (length task.content - task.currently_wrote) wire
  let next : WriteTask = record task { currently_wrote = s.wrote } in
      if not (s.to_write == 0) && blocked s.errno
      then some (waits next s.wire s.left)
      else some (writer s.errno next s.wire)

-- the service calls it again while the job stays posted
unfoldable pub deliver : (rounds : ℕ) → WriteTask → List Answer → List ℕ → Option Progress
deliver zero task answers wire = some (waits task wire answers)
deliver (suc rounds) task answers wire = do
  p ← data_may_be_sent task answers wire
  elim p [
    | waits next wire left ↦ deliver rounds next left wire
    | writer e next wire ↦ some (writer e next wire)
  ]
