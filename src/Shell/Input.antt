-- ===== src/Shell/Input.antt =====
-- supertel/task2/src/shell.c: the bytes of the standard input, cut into command lines. The buffer is the
-- list of its `user_size` bytes, whose reallocations succeed. `S` is the state of the shell, and `run`
-- is what a command line does to it.
pub mod Lines
use interview.Base.{
  ℕ, zero, suc, ◌+◌, ◌-◌, Bool, true, false, Option, none, some, List, [], ◌∷◌, ◌++◌, length, take,
  drop, ltb, ◌==◌, if◌then◌else◌, ◌>>=◌,
}

-- `input_buffer`
pub record InputBuffer : Type 0 where
  pub content : List ℕ
  pub offset : ℕ

-- how far the loop goes from the offset, and whether it finds a newline
unfoldable pub newline_loop : List ℕ → (offset : ℕ) → ℕ × Bool
newline_loop [] offset = (offset, false)
newline_loop (c ∷ s) offset =
    let later = newline_loop s (offset + 1) in if c == b'\n' then (offset, true) else later

unfoldable pub detect_newline_on_input : InputBuffer → InputBuffer × Bool
detect_newline_on_input b =
    let (offset, found) = newline_loop (drop b.offset b.content) b.offset in
    if length b.content == 0 then (b, false) else (record b { offset = offset }, found)

-- the bytes behind the one at the offset
unfoldable pub shift_input : InputBuffer → InputBuffer
shift_input b = record b { content = drop (b.offset + 1) b.content }

-- what a call of `read` does: it reads bytes, or fails with EINTR or with another error
pub data ReadAnswer : Type 0 where
  got : List ℕ → ReadAnswer
  interrupted : ReadAnswer
  failed : ReadAnswer

-- `while (pending)`: the bytes that are read; `none` is an abort, or a call that has no answer
unfoldable pub read_loop : List ReadAnswer → (pending : ℕ) → Option (List ℕ)
read_loop [] pending = if pending == 0 then some [] else none
read_loop (a ∷ answers) pending =
    let next : Option (List ℕ) = elim a [
      | got bytes ↦
          let chunk = take pending bytes in
          (read_loop answers (pending - length chunk) >>= λ rest. some (chunk ++ rest))
      | interrupted ↦ read_loop answers pending
      | failed ↦ none
    ] in
    if pending == 0 then some [] else next

module _ {ℓ} {S : Type ℓ} (run : List ℕ → S → S) where
  -- `while (detect_newline_on_input(sh))`, which `rounds` bounds
  unfoldable pub input_loop : (rounds : ℕ) → InputBuffer → S → InputBuffer × S
  unfolding detect_newline_on_input shift_input
  input_loop zero b s = (b, s)
  input_loop (suc rounds) b s =
      let (at, found) = detect_newline_on_input b in
      let shifted : InputBuffer = record (shift_input at) { offset = 0 } in
      let next = input_loop rounds shifted (run (take at.offset at.content) s) in
      if found then next else (at, s)

  -- what `on_input` does with the bytes that it has read; each round takes a byte at least
  unfoldable pub handle_input : List ℕ → InputBuffer → S → InputBuffer × S
  unfolding input_loop
  handle_input chunk b s =
      let content = b.content ++ chunk in
      input_loop (length content) (record b { content = content }) s

  -- the state after an event of the input: the end of the input stops the service
  pub data Handled : Type ℓ where
    stopped : Handled
    handled : InputBuffer → S → Handled

  -- `pending` is what `ioctl` stores, or `none` if it fails
  unfoldable pub on_input : Option ℕ → List ReadAnswer → InputBuffer → S → Option Handled
  unfolding read_loop handle_input
  on_input pending answers b s = do
    n ← pending
    chunk ← read_loop answers n
    some (
        if n == 0
        then stopped
        else (let (next, after) = handle_input chunk b s in handled next after))
