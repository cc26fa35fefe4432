-- ===== src/Shell/Input/Lines.antt =====
-- The command lines that are run, whatever the pieces in which the input comes.
use interview.Base.{
  ℕ, zero, suc, ◌+◌, ◌≤◌, ◌≡◌, refl, sym, ap, ◌∙◌, true, false, inl, inr, List, [], ◌∷◌, ◌++◌,
  append_assoc, append-nil, length, length-append, drop, take-append, drop-append_add, ◌==◌, arith,
  All, All-append, Bool-cases, if◌then◌else◌,
}
use interview.Shell.Input.{
  InputBuffer, newline_loop, detect_newline_on_input, input_loop, handle_input,
}

abbrev pub IsLine : List ℕ → Type 0
IsLine = All (λ c. (c == b'\n') ≡ false)

drop-IsLine :
    (offset : ℕ) (line rest : List ℕ)
    → offset ≤ length line
    → IsLine line
    → (drop offset (line ++ rest) ≡ drop offset line ++ rest)
      × IsLine (drop offset line)
      × (offset + length (drop offset line) ≡ length line)
drop-IsLine zero line rest h a = (refl, a, omega arith)
drop-IsLine (suc offset) [] rest h a = absurd (omega (arith, h))
drop-IsLine (suc offset) (c ∷ line) rest h a =
    let (e, b, n) = drop-IsLine offset line rest (omega (arith, h)) a.1 in (e, b, omega (arith, n))

newline_loop-found :
    (line rest : List ℕ) (k : ℕ)
    → IsLine line
    → newline_loop (line ++ b'\n' ∷ rest) k ≡ (k + length line, true)
unfolding newline_loop
newline_loop-found [] rest k a = ap (λ n. (n, true)) (omega arith)
newline_loop-found (c ∷ line) rest k a =
    rw a.0 (newline_loop-found line rest (k + 1) a.1 ∙ ap (λ n. (n, true)) (omega arith))

newline_loop-none :
    (line : List ℕ) (k : ℕ) → IsLine line → newline_loop line k ≡ (k + length line, false)
unfolding newline_loop
newline_loop-none [] k a = ap (λ n. (n, false)) (omega arith)
newline_loop-none (c ∷ line) k a =
    rw a.0 (newline_loop-none line (k + 1) a.1 ∙ ap (λ n. (n, false)) (omega arith))

module _ (line : List ℕ) (offset : ℕ) (inside : offset ≤ length line) (a : IsLine line) where
  -- the line that a newline ends is found from any offset in it
  detect-found :
      (rest : List ℕ)
      → detect_newline_on_input (record { content = line ++ b'\n' ∷ rest; offset = offset })
        ≡ (record { content = line ++ b'\n' ∷ rest; offset = length line }, true)
  unfolding detect_newline_on_input
  detect-found rest =
      let (e, b, n) = drop-IsLine offset line (b'\n' ∷ rest) inside a in
      let found = newline_loop-found (drop offset line) rest offset b in
      let some_bytes : (length (line ++ b'\n' ∷ rest) == 0) ≡ false =
        ground (arith, length-append line (b'\n' ∷ rest)) in
      rw (e, found, some_bytes, n) refl

  detect-none :
      detect_newline_on_input (record { content = line; offset = offset })
      ≡ (record { content = line; offset = length line }, false)
  unfolding detect_newline_on_input
  detect-none =
      let (e, b, n) = drop-IsLine offset line [] inside a in
      let none_found = newline_loop-none (drop offset line) offset b in
      elim (Bool-cases (length line == 0)) [
        | inl empty ↦
            let start : offset ≡ length line = ground (arith, inside) in
            rw empty (ap (λ k. (record { content = line; offset = k }, false)) start)
        | inr more ↦ rw (none_found, more, n) refl
      ]

module _ {ℓ} {S : Type ℓ} (run : List ℕ → S → S) where
  -- the reference: the bytes are read one by one behind the line so far, and a newline runs the line
  unfoldable pub feed : List ℕ → (line : List ℕ) → S → List ℕ × S
  feed [] line s = (line, s)
  feed (c ∷ cs) line s =
      let ended = feed cs [] (run line s) in
      let longer = feed cs (line ++ c ∷ []) s in if c == b'\n' then ended else longer

  abbrev pub waiting : List ℕ × S → InputBuffer × S
  waiting p = (record { content = p.0; offset = length p.0 }, p.1)

  input_loop-feed :
      (rest line : List ℕ) (offset : ℕ) (s : S) (rounds : ℕ)
      → offset ≤ length line
      → IsLine line
      → length line + length rest ≤ rounds
      → input_loop run rounds (record { content = line ++ rest; offset = offset }) s
        ≡ waiting (feed rest line s)
  unfolding input_loop feed
  input_loop-feed [] [] offset s zero inside a enough =
      let start : offset ≡ 0 = omega (arith, inside) in
      ap (λ k. (record { content = []; offset = k }, s)) start
  input_loop-feed [] (c ∷ line) offset s zero inside a enough = absurd (omega (arith, enough))
  input_loop-feed (c ∷ cs) line offset s zero inside a enough = absurd (omega (arith, enough))
  input_loop-feed [] line offset s (suc rounds) inside a enough =
      rw (append-nil line, detect-none line offset inside a) refl
  input_loop-feed (c ∷ cs) line offset s (suc rounds) inside a enough =
      elim (Bool-cases (c == b'\n')) [
        | inl e ↦
            let newline : c ≡ b'\n' = ground (arith, e) in
            let found = detect-found line offset inside a cs in
            let behind = drop-append_add line (b'\n' ∷ cs) 1 in
            let before = take-append line (b'\n' ∷ cs) in
            let n : 0 + length cs ≤ rounds = omega (arith, enough) in
            rw (newline, found, behind, before)
              (input_loop-feed cs [] 0 (run line s) rounds (omega arith) tt n)
        | inr e ↦
            let longer = length-append line (c ∷ []) in
            let piece : length (line ++ c ∷ []) + length cs ≤ suc rounds =
              omega (arith, longer, enough) in
            let there : offset ≤ length (line ++ c ∷ []) = omega (arith, longer, inside) in
            let one : IsLine (line ++ c ∷ []) =
              All-append (λ x. (x == b'\n') ≡ false) line (c ∷ []) a (e, tt) in
            rw e (
              ap (λ x. input_loop run (suc rounds) (record { content = x; offset = offset }) s)
                (sym (append_assoc line (c ∷ []) cs))
              ∙ input_loop-feed cs (line ++ c ∷ []) offset s (suc rounds) there one piece)
      ]

  -- a piece of the input, behind a line that has not ended
  handle_input-feed :
      (chunk line : List ℕ) (offset : ℕ) (s : S)
      → offset ≤ length line
      → IsLine line
      → handle_input run chunk (record { content = line; offset = offset }) s
        ≡ waiting (feed chunk line s)
  unfolding handle_input
  handle_input-feed chunk line offset s inside a =
      input_loop-feed chunk line offset s (length (line ++ chunk)) inside a
        (omega (arith, length-append line chunk))

  feed-IsLine : (cs line : List ℕ) (s : S) → IsLine line → IsLine (feed cs line s).0
  unfolding feed
  feed-IsLine [] line s a = a
  feed-IsLine (c ∷ cs) line s a = elim (Bool-cases (c == b'\n')) [
    | inl e ↦ rw e (feed-IsLine cs [] (run line s) tt)
    | inr e ↦
        let one : IsLine (line ++ c ∷ []) =
          All-append (λ x. (x == b'\n') ≡ false) line (c ∷ []) a (e, tt) in
        rw e (feed-IsLine cs (line ++ c ∷ []) s one)
  ]

  feed-append :
      (cs ds line : List ℕ) (s : S)
      → feed (cs ++ ds) line s ≡ feed ds (feed cs line s).0 (feed cs line s).1
  unfolding feed
  feed-append [] ds line s = refl
  feed-append (c ∷ cs) ds line s = elim (Bool-cases (c == b'\n')) [
    | inl e ↦ rw e (feed-append cs ds [] (run line s))
    | inr e ↦ rw e (feed-append cs ds (line ++ c ∷ []) s)
  ]

  -- one event of the input after the other
  unfoldable pub handle_chunks : List (List ℕ) → InputBuffer → S → InputBuffer × S
  handle_chunks [] b s = (b, s)
  handle_chunks (chunk ∷ chunks) b s =
      let (next, after) = handle_input run chunk b s in handle_chunks chunks next after

  abbrev pub joined : List (List ℕ) → List ℕ
  joined [] = []
  joined (chunk ∷ chunks) = chunk ++ joined chunks

  handle_chunks-line :
      (chunks : List (List ℕ)) (line : List ℕ) (s : S)
      → IsLine line
      → handle_chunks chunks (record { content = line; offset = length line }) s
        ≡ waiting (feed (joined chunks) line s)
  unfolding handle_chunks feed
  handle_chunks-line [] line s a = refl
  handle_chunks-line (chunk ∷ chunks) line s a =
      rw
        (
          handle_input-feed chunk line (length line) s (omega arith) a,
          feed-append chunk (joined chunks) line s,
        )
        (handle_chunks-line chunks (feed chunk line s).0 (feed chunk line s).1
          (feed-IsLine chunk line s a))

  -- Whatever the pieces in which the input arrives, and whatever a command line does to the state of
  -- the shell: from the empty buffer on, the shell has run the lines of the whole input, in order, each
  -- once and without its newline, as the reference that reads byte by byte does. The bytes behind the
  -- last newline are left in the buffer, and the offset is behind them.
  pub handle_chunks-feed :
      (chunks : List (List ℕ)) (s : S)
      → handle_chunks chunks (record { content = []; offset = 0 }) s
        ≡ waiting (feed (joined chunks) [] s)
  handle_chunks-feed chunks s = handle_chunks-line chunks [] s tt

  -- what the reference does with a whole line
  pub feed_line :
      (line rest so_far : List ℕ) (s : S)
      → IsLine line
      → feed (line ++ b'\n' ∷ rest) so_far s ≡ feed rest [] (run (so_far ++ line) s)
  unfolding feed
  feed_line [] rest so_far s a = rw (append-nil so_far) refl
  feed_line (c ∷ line) rest so_far s a = rw a.0 (
      feed_line line rest (so_far ++ c ∷ []) s a.1
      ∙ ap (λ l. feed rest [] (run l s)) (append_assoc so_far (c ∷ []) line))
