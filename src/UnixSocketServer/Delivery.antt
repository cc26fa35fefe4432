-- ===== src/UnixSocketServer/Delivery.antt =====
-- A buffer arrives whole and in order.
use mathlib.Core.Path.{subst}
use interview.Base.{
  ℕ, zero, suc, ◌+◌, ◌-◌, ◌%◌, ◌^◌, ◌<◌, ◌≡◌, refl, sym, ap, ◌∙◌, false, Option, some, List, [],
  ◌∷◌, ◌++◌, append_assoc, append-nil, length, take, drop, drop-append, take-drop, length-append,
  length-take, length-drop, ◌==◌, ◌>>=◌, arith,
}
use interview.UnixSocketServer.{
  Answer, accepted, interrupted, would_block, no_error, eagain, Stop, send_loop, writer,
  data_may_be_sent, deliver,
}

-- answers that accept `k` bytes in all, with interruptions and blocks in between
pub data Accepts : List Answer → ℕ → Type 0 where
  done : Accepts [] 0
  more :
      {answers : List Answer} {k : ℕ} (n : ℕ)
      → Accepts answers k
      → Accepts (accepted n ∷ answers) (n + k)
  again : {answers : List Answer} {k : ℕ} → Accepts answers k → Accepts (interrupted ∷ answers) k
  later : {answers : List Answer} {k : ℕ} → Accepts answers k → Accepts (would_block ∷ answers) k

-- the loop ends with all bytes on the wire, or blocks behind some of them with fewer answers left
pub data Looped (front rest wire : List ℕ) (bound : ℕ) (o : Option Stop) : Type 0 where
  all :
      (left : List Answer)
      → o
        ≡ some (record {
          wrote = length (front ++ rest);
          to_write = 0;
          errno = no_error;
          wire = wire ++ rest;
          left = left;
        })
      → Looped front rest wire bound o
  part :
      (us vs : List ℕ) (left : List Answer)
      → us ++ vs ≡ rest
      → Accepts left (length vs)
      → length left < bound
      → 0 < length vs
      → o
        ≡ some (record {
          wrote = length (front ++ us);
          to_write = length vs;
          errno = eagain;
          wire = wire ++ us;
          left = left;
        })
      → Looped front rest wire bound o

nothing_left :
    (content : List ℕ) (answers : List Answer) (wrote : ℕ) (wire : List ℕ)
    → send_loop content answers wrote 0 wire
      ≡ some (record { wrote = wrote; to_write = 0; errno = no_error; wire = wire; left = answers })
unfolding send_loop
nothing_left content [] wrote wire = refl
nothing_left content (a ∷ answers) wrote wire = refl

Looped-nothing :
    (front wire : List ℕ) (bound : ℕ) (answers : List Answer)
    → Looped front [] wire bound (send_loop (front ++ []) answers (length front) 0 wire)
Looped-nothing front wire bound answers = all answers (
    nothing_left (front ++ []) answers (length front) wire
    ∙ ap
        (λ z. some (record {
          wrote = length z;
          to_write = 0;
          errno = no_error;
          wire = wire;
          left = answers;
        }))
        (sym (append-nil front))
    ∙ ap
        (λ z. some (record {
          wrote = length (front ++ []);
          to_write = 0;
          errno = no_error;
          wire = z;
          left = answers;
        }))
        (sym (append-nil wire)))

module _ (front : List ℕ) (x : ℕ) (r wire : List ℕ) where
  abbrev rest : List ℕ
  rest = x ∷ r

  unfinished : (length rest == 0) ≡ false
  unfinished = ground arith

  -- after `n` bytes more
  accepted-Looped :
      (n bound : ℕ) (o : Option Stop)
      → Looped (front ++ take n rest) (drop n rest) (wire ++ take n rest) bound o
      → Looped front rest wire (suc bound) o
  accepted-Looped n bound o (all left e) =
      let whole = take-drop n rest in
      all left (
        e
        ∙ ap
            (λ z. some (record {
              wrote = length z;
              to_write = 0;
              errno = no_error;
              wire = (wire ++ take n rest) ++ drop n rest;
              left = left;
            }))
            (append_assoc front (take n rest) (drop n rest) ∙ ap (λ z. front ++ z) whole)
        ∙ ap
            (λ z. some (record {
              wrote = length (front ++ rest);
              to_write = 0;
              errno = no_error;
              wire = z;
              left = left;
            }))
            (append_assoc wire (take n rest) (drop n rest) ∙ ap (λ z. wire ++ z) whole))
  accepted-Looped n bound o (part us vs left split a shorter some_left e) =
      part (take n rest ++ us) vs left
        (append_assoc (take n rest) us vs ∙ ap (λ z. take n rest ++ z) split ∙ take-drop n rest) a
        (omega (arith, shorter)) some_left
        (e
          ∙ ap
              (λ z. some (record {
                wrote = length z;
                to_write = length vs;
                errno = eagain;
                wire = (wire ++ take n rest) ++ us;
                left = left;
              }))
              (append_assoc front (take n rest) us)
          ∙ ap
              (λ z. some (record {
                wrote = length (front ++ (take n rest ++ us));
                to_write = length vs;
                errno = eagain;
                wire = z;
                left = left;
              }))
              (append_assoc wire (take n rest) us))

  weaken :
      (bound : ℕ) (o : Option Stop)
      → Looped front rest wire bound o
      → Looped front rest wire (suc bound) o
  weaken bound o (all left e) = all left e
  weaken bound o (part us vs left split a shorter some_left e) =
      part us vs left split a (omega (arith, shorter)) some_left e

send_loop-Looped :
    {answers : List Answer} {k : ℕ} (front rest wire : List ℕ)
    → Accepts answers k
    → k ≡ length rest
    → length (front ++ rest) < 2 ^ 64
    → Looped front rest wire
        (length answers)
        (send_loop (front ++ rest) answers (length front) (length rest) wire)
unfolding send_loop
send_loop-Looped {answers} front [] wire a e small =
    Looped-nothing front wire (length answers) answers
send_loop-Looped front (x ∷ r) wire done e small = absurd (omega (arith, e))
send_loop-Looped front (x ∷ r) wire (more {answers} n a) e small =
    let rest = x ∷ r in
    let m = length-drop n rest (omega (arith, e)) in
    let t = length-take n rest (omega (arith, e)) in
    let moved : (length front + n) % 2 ^ 64 ≡ length (front ++ take n rest) =
      omega (arith, e, small, t, length-append front rest, length-append front (take n rest)) in
    let fewer : (length rest + 2 ^ 64 - n) % 2 ^ 64 ≡ length (drop n rest) =
      omega (arith, e, small, m, length-append front rest) in
    let content : (front ++ take n rest) ++ drop n rest ≡ front ++ rest =
      append_assoc front (take n rest) (drop n rest) ∙ ap (λ z. front ++ z) (take-drop n rest) in
    let i =
      send_loop-Looped (front ++ take n rest) (drop n rest) (wire ++ take n rest) a
        (omega (arith, e, m)) (omega (arith, small, ap (length {A = ℕ}) content)) in
    let after = λ (z : List ℕ).
      send_loop z answers (length (front ++ take n rest)) (length (drop n rest))
        (wire ++ take n rest) in
    let step =
      accepted-Looped front x r wire n (length answers)
        (after ((front ++ take n rest) ++ drop n rest)) i in
    rw (unfinished front x r wire, drop-append front rest, moved, fewer)
      (subst (λ z. Looped front rest wire (suc (length answers)) (after z)) content step)
send_loop-Looped front (x ∷ r) wire (again {answers} a) e small = rw (unfinished front x r wire) (
    weaken front x r wire (length answers)
      (send_loop (front ++ x ∷ r) answers (length front) (length (x ∷ r)) wire)
      (send_loop-Looped front (x ∷ r) wire a e small))
send_loop-Looped front (x ∷ r) wire (later {answers} {k} a) e small =
    part [] (x ∷ r) answers refl (subst (Accepts answers) e a) (omega arith) (omega arith) (
      rw (unfinished front x r wire) (
        ap
          (λ z. some (record {
            wrote = length z;
            to_write = length (x ∷ r);
            errno = eagain;
            wire = wire;
            left = answers;
          }))
          (sym (append-nil front))
        ∙ ap
            (λ z. some (record {
              wrote = length (front ++ []);
              to_write = length (x ∷ r);
              errno = eagain;
              wire = z;
              left = answers;
            }))
            (sym (append-nil wire))))

-- The kernel may accept a buffer in parts, with interruptions and blocks in between. If it accepts as
-- many bytes in all as are left of a task whose buffer has less than 2 ^ 64 bytes, and the service
-- calls data_may_be_sent again while the job stays posted, once more than there are answers at most,
-- then the writer is called without an error, and the wire has got the bytes that were left, each
-- once and in order.
pub deliver_complete :
    {answers : List Answer} (rounds : ℕ) (front rest wire : List ℕ)
    → Accepts answers (length rest)
    → length (front ++ rest) < 2 ^ 64
    → length answers < rounds
    → deliver rounds
        (record { content = front ++ rest; currently_wrote = length front })
        answers
        wire
      ≡ some (
          writer no_error
            (record { content = front ++ rest; currently_wrote = length (front ++ rest) })
            (wire ++ rest))
unfolding deliver data_may_be_sent
deliver_complete zero front rest wire a small enough = absurd (omega (arith, enough))
deliver_complete {answers} (suc rounds) front rest wire a small enough =
    let left_over : length (front ++ rest) - length front ≡ length rest =
      omega (arith, length-append front rest) in
    rw left_over (elim (send_loop-Looped front rest wire a refl small) [
      | all left e ↦ rw (e, ◌>>=◌) refl
      | part us vs left split b shorter some_left e ↦
          let unfinished_ : (length vs == 0) ≡ false = ground (arith, some_left) in
          let whole : (front ++ us) ++ vs ≡ front ++ rest =
            append_assoc front us vs ∙ ap (λ z. front ++ z) split in
          let i =
            deliver_complete rounds (front ++ us) vs (wire ++ us) b
              (omega (arith, small, ap (length {A = ℕ}) whole)) (omega (arith, shorter, enough)) in
          rw (e, ◌>>=◌)
            (rw (unfinished_) (
              ap
                (λ z.
                  deliver rounds (record { content = z; currently_wrote = length (front ++ us) })
                    left (wire ++ us))
                (sym whole)
              ∙ i
              ∙ ap
                  (λ z. some (
                    writer no_error (record { content = z; currently_wrote = length z })
                      ((wire ++ us) ++ vs)))
                  whole
              ∙ ap
                  (λ z. some (
                    writer no_error
                      (record { content = front ++ rest; currently_wrote = length (front ++ rest) })
                      z))
                  (append_assoc wire us vs ∙ ap (λ z. wire ++ z) split)))
    ])
