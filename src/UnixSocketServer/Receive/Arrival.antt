-- ===== src/UnixSocketServer/Receive/Arrival.antt =====
-- What an event of the input does with the bytes that arrive.
use interview.Base.{
  ℕ, zero, suc, ◌+◌, ◌-◌, ◌<◌, ◌≤◌, ◌≡◌, refl, sym, ap, ◌∙◌, false, some, List, [], ◌∷◌, ◌++◌,
  append_assoc, append-nil, Bool-cases, inl, inr, length, take, drop, take-append, drop-append_add,
  length-append, length-take, length-drop, ltb, ◌==◌, ◌>>=◌, arith, if◌then◌else◌,
}
use interview.UnixSocketServer.{no_error}
use interview.UnixSocketServer.Receive.{
  RecvAnswer, received, recv_interrupted, recv_would_block, ReadTask, write_at, recv_loop,
  read_waits, reader_called, after_recv, still_to_read, data_may_be_read, client_data_may_be_read,
}

-- answers that give `k` bytes in all, with interruptions in between, and then `rest`
pub data Arrives (rest : List RecvAnswer) : List RecvAnswer → ℕ → Type 0 where
  arrived : Arrives rest rest 0
  more :
      {answers : List RecvAnswer} {k : ℕ} (n : ℕ)
      → Arrives rest answers k
      → Arrives rest (received (suc n) ∷ answers) (suc n + k)
  again :
      {answers : List RecvAnswer} {k : ℕ}
      → 0 < k
      → Arrives rest answers k
      → Arrives rest (recv_interrupted ∷ answers) k

write-append :
    (front back bytes : List ℕ)
    → write_at (length front) bytes (front ++ back) ≡ (front ++ bytes) ++ drop (length bytes) back
unfolding write_at
write-append front back bytes =
    rw (take-append front back, drop-append_add front back (length bytes)) refl

take-take : {A : Type 0} (m n : ℕ) (xs : List A) → m ≤ n → take m (take n xs) ≡ take m xs
take-take zero n xs h = refl
take-take (suc m) zero xs h = absurd (omega (arith, h))
take-take (suc m) (suc n) [] h = refl
take-take (suc m) (suc n) (x ∷ xs) h = ap (λ ys. x ∷ ys) (take-take m n xs (omega (arith, h)))

take-nil : {A : Type 0} (n : ℕ) → take {A = A} n [] ≡ []
take-nil zero = refl
take-nil (suc n) = refl

drop-nil : {A : Type 0} (n : ℕ) → drop {A = A} n [] ≡ []
drop-nil zero = refl
drop-nil (suc n) = refl

take_add : {A : Type 0} (m n : ℕ) (xs : List A) → take m xs ++ take n (drop m xs) ≡ take (m + n) xs
take_add zero n xs = ap (λ k. take k xs) (omega arith)
take_add (suc m) n [] = take-nil n ∙ sym (take-nil (suc m + n))
take_add (suc m) n (x ∷ xs) =
    let e : suc m + n ≡ suc (m + n) = omega arith in
    ap (λ ys. x ∷ ys) (take_add m n xs) ∙ ap (λ k. take k (x ∷ xs)) (sym e)

drop_add : {A : Type 0} (m n : ℕ) (xs : List A) → drop n (drop m xs) ≡ drop (m + n) xs
drop_add zero n xs = ap (λ k. drop k xs) (omega arith)
drop_add (suc m) n [] = drop-nil n ∙ sym (drop-nil (suc m + n))
drop_add (suc m) n (x ∷ xs) =
    let e : suc m + n ≡ suc (m + n) = omega arith in
    drop_add m n xs ∙ ap (λ k. drop k (x ∷ xs)) (sym e)

module _ (rest : List RecvAnswer) (offset : ℕ) where
  -- the loop, up to the answers behind the bytes that arrive
  recv_loop-Arrives :
      {answers : List RecvAnswer} {k : ℕ} (left bytes_read : ℕ) (front back wire : List ℕ)
      → Arrives rest answers k
      → length front ≡ offset + bytes_read
      → k ≤ left
      → k ≤ length wire
      → recv_loop answers left offset bytes_read (front ++ back) wire
        ≡ recv_loop rest
            (left - k)
            offset
            (bytes_read + k)
            ((front ++ take k wire) ++ drop k back)
            (drop k wire)
  unfolding recv_loop
  recv_loop-Arrives left read front back wire arrived e few there =
      let a : left - 0 ≡ left = omega arith in
      let b : read + 0 ≡ read = omega arith in rw (a, b, append-nil front) refl
  recv_loop-Arrives left read front back wire (more {answers} {k} n later) e few there =
      let bytes = take (suc n) wire in
      let here : take (suc n) (take left wire) ≡ bytes =
        take-take (suc n) left wire (omega (arith, few)) in
      let size : length bytes ≡ suc n = length-take (suc n) wire (omega (arith, there)) in
      let wanted : (left == 0) ≡ false = ground (arith, few) in
      let got : (length bytes == 0) ≡ false = ground (arith, size) in
      let written = write-append front back bytes in
      let longer : length (front ++ bytes) ≡ offset + (read + suc n) =
        omega (arith, length-append front bytes, size, e) in
      let shorter = length-drop (suc n) wire (omega (arith, there)) in
      let ih =
        recv_loop-Arrives (left - suc n) (read + suc n) (front ++ bytes) (drop (suc n) back)
          (drop (suc n) wire) later longer (omega (arith, few)) (omega (arith, there, shorter)) in
      let less : left - suc n - k ≡ left - (suc n + k) = omega arith in
      let more_read : read + suc n + k ≡ read + (suc n + k) = omega arith in
      rw (wanted, here, got, sym e, written, size)
        (ih
          ∙ rw
              (
                append_assoc front bytes (take k (drop (suc n) wire)),
                take_add (suc n) k wire,
                drop_add (suc n) k back,
                drop_add (suc n) k wire,
                less,
                more_read,
              )
              refl)
  recv_loop-Arrives left read front back wire (again {answers} {k} positive later) e few there =
      let wanted : (left == 0) ≡ false = ground (arith, few, positive) in
      rw wanted (recv_loop-Arrives left read front back wire later e few there)

module _ (front back wire : List ℕ) (offset currently_read : ℕ)
    (placed : length front ≡ offset + currently_read) where
  -- what is read so far, and room for the bytes that are still to come
  abbrev pub task : ReadTask
  task = record { content = front ++ back; offset = offset; currently_read = currently_read }

  -- behind `k` bytes more
  abbrev pub advanced : ℕ → ReadTask
  advanced k = record {
    content = (front ++ take k wire) ++ drop k back;
    offset = offset;
    currently_read = currently_read + k;
  }

  still-back : still_to_read task ≡ length back
  still-back = omega (arith, placed, length-append front back)

  -- the answers behind those that give `k` bytes: none where no more is asked for, else EAGAIN
  abbrev pub answers_behind : ℕ → List RecvAnswer
  answers_behind k = if k == length back then [] else recv_would_block ∷ []

  -- The server calls its reader with all the bytes that were asked for, and not before: at an event of the
  -- input where `k` bytes arrive, in any pieces and with interruptions, behind those that were read
  -- before, it puts them next into the buffer. If these are all that were missing, the reader is
  -- called without an error; else `recv` would block, and the task waits for the next event.
  pub data_may_be_read-arrived :
      (pending k : ℕ) (answers : List RecvAnswer)
      → 0 < pending
      → k ≤ length back
      → k ≤ length wire
      → Arrives (answers_behind k) answers k
      → data_may_be_read pending task answers wire
        ≡ some (
            if k == length back
            then reader_called no_error false (advanced k) (drop k wire)
            else read_waits (advanced k) (drop k wire))
  unfolding data_may_be_read recv_loop after_recv
  data_may_be_read-arrived pending k answers some_pending few there pieces =
      let asked : (pending == 0) ≡ false = ground (arith, some_pending) in
      elim (Bool-cases (k == length back)) [
        | inl all ↦
            let whole : length back - k ≡ 0 = ground (arith, all) in
            let looped =
              recv_loop-Arrives [] offset (length back) currently_read front back wire
                (rw all at pieces) placed few there in
            rw (asked, still-back, all) (rw (looped, ◌>>=◌) (rw whole refl))
        | inr part ↦
            let left : (length back - k == 0) ≡ false = ground (arith, part, few) in
            let looped =
              recv_loop-Arrives (recv_would_block ∷ []) offset (length back) currently_read front
                back wire (rw part at pieces) placed few there in
            rw (asked, still-back, part) (rw (looped, ◌>>=◌) (rw left (rw (left, after_recv) refl)))
      ]

  -- what the client asks `recv` for
  abbrev pub wanted : ℕ → ℕ
  wanted pending = if ltb (length back) pending then length back else pending

  -- The client calls its reader, without an error, behind the first event of the input, whether or not
  -- the bytes that were asked for have come: at an event where `pending` bytes are there, those of
  -- them that were asked for are put next into the buffer, and the rest of the buffer is as before.
  pub client_data_may_be_read-arrived :
      (pending : ℕ) (answers : List RecvAnswer)
      → 0 < pending
      → wanted pending ≤ length wire
      → Arrives [] answers (wanted pending)
      → client_data_may_be_read pending task answers wire
        ≡ some
            (reader_called no_error false (advanced (wanted pending)) (drop (wanted pending) wire))
  unfolding client_data_may_be_read recv_loop after_recv
  client_data_may_be_read-arrived pending answers some_pending there pieces =
      let asked : (pending == 0) ≡ false = ground (arith, some_pending) in
      let k = wanted pending in
      let none_left : k - k ≡ 0 = omega arith in
      let looped =
        recv_loop-Arrives [] offset k currently_read front back wire pieces placed (omega arith)
          there in
      rw (asked, still-back) (rw (looped, ◌>>=◌) (rw none_left refl))
