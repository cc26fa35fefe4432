-- ===== src/Shell/Replies/Greeting.antt =====
-- The greeting of a driver, taken apart by the shell.
use interview.Base.{
  ℕ, zero, suc, ◌+◌, ◌-◌, ◌*◌, ◌%◌, ◌<◌, ◌≤◌, ◌≡◌, refl, sym, ap, ◌∙◌, true, false, inl, inr, some,
  List, [], ◌∷◌, ◌++◌, append_assoc, map, length, length-append, take, drop, take-append,
  drop-append, drop-append_add, ltb, arith, All, ◌>>=◌,
}
use interview.DriverCore.{DriverCommand, element, padded, command_info, command_infos, greeting}
use interview.DriverCore.Greeting.{length-padded, length-command_infos}
use interview.Shell.Clients.{ShellDriverCommand}
use interview.Shell.Replies.{
  Reaction, reader_signature, reader_info, receive, learned, read, read_signature, read_info,
  read_infos, connector, heard, InputEvent, listen,
}
use interview.Shell.Replies.Response.{zero_or_more, ComeWhole, listen-receive}

-- what the shell keeps of a driver's command
unfoldable pub learn : DriverCommand → ShellDriverCommand
learn c = record {
  name = padded 6 c.name ++ 0 ∷ [];
  arity = c.max_arity;
  descr = padded 255 c.description ++ 0 ∷ [];
}

element-append : (s : List ℕ) (c : ℕ) (t : List ℕ) → element (s ++ c ∷ t) (length s) ≡ some c
element-append [] c t = refl
element-append (x ∷ s) c t = element-append s c t

module _ (p : List ℕ) (a : ℕ) (d rest : List ℕ) (six : length p ≡ 6) (long : length d ≡ 255) where
  abbrev bytes : List ℕ
  bytes = p ++ a ∷ (d ++ rest)

  at_arity : element bytes 6 ≡ some a
  at_arity = ap (element bytes) (sym six) ∙ element-append p a (d ++ rest)

  at_name : take 6 bytes ≡ p
  at_name = ap (λ n. take n bytes) (sym six) ∙ take-append p (a ∷ (d ++ rest))

  at_descr : take 255 (drop 7 bytes) ≡ d
  at_descr =
      ap (λ n. take 255 (drop (n + 1) bytes)) (sym six)
      ∙ ap (take 255) (drop-append_add p (a ∷ (d ++ rest)) 1)
      ∙ ap (λ n. take n (d ++ rest)) (sym long)
      ∙ take-append d rest

  at_rest : drop 262 bytes ≡ rest
  at_rest =
      ap (λ n. drop (n + 256) bytes) (sym six)
      ∙ drop-append_add p (a ∷ (d ++ rest)) 256
      ∙ ap (λ n. drop n (d ++ rest)) (sym long)
      ∙ drop-append d rest

  length-bytes : length bytes ≡ 262 + length rest
  length-bytes = omega (arith, length-append p (a ∷ (d ++ rest)), length-append d rest, six, long)

  read_infos-bytes :
      (n : ℕ) (later : List ShellDriverCommand)
      → read_infos n rest ≡ some later
      → read_infos (suc n) bytes
        ≡ some (record { name = p ++ 0 ∷ []; arity = a; descr = d ++ 0 ∷ [] } ∷ later)
  unfolding read_infos
  read_infos-bytes n later e =
      let there : ltb (length bytes) 262 ≡ false = ground (arith, length-bytes) in
      rw (at_arity, ◌>>=◌) (rw at_rest (rw (e, ◌>>=◌) (rw (there, at_name, at_descr) refl)))

abbrev pub IsByte : ℕ → Type 0
IsByte n = n < 256

read_infos-command_infos :
    (cs : List DriverCommand)
    → All (λ c. IsByte (c.max_arity)) cs
    → read_infos (length cs) (command_infos cs) ≡ some (map learn cs)
unfolding read_infos command_infos command_info learn
read_infos-command_infos [] a = refl
read_infos-command_infos (c ∷ cs) a =
    let p = padded 6 c.name in
    let d = padded 255 c.description in
    let whole = append_assoc p ((c.max_arity % 256) ∷ d) (command_infos cs) in
    let byte : c.max_arity % 256 ≡ c.max_arity = omega (arith, a.0) in
    rw (whole, byte)
      (read_infos-bytes p (c.max_arity) d (command_infos cs) (length-padded 6 c.name)
        (length-padded 255 c.description) (length cs) (map learn cs)
        (read_infos-command_infos cs a.1))

take-all : {A : Type 0} (n : ℕ) (xs : List A) → length xs ≤ n → take n xs ≡ xs
take-all zero [] h = refl
take-all zero (x ∷ xs) h = absurd (omega (arith, h))
take-all (suc n) [] h = refl
take-all (suc n) (x ∷ xs) h = ap (λ ys. x ∷ ys) (take-all n xs (omega (arith, h)))

module _ (cs : List DriverCommand) (bytes_of : All (λ c. IsByte (c.max_arity)) cs) where
  read_info-whole : read_info (0 ∷ length cs ∷ command_infos cs) ≡ some (learned (map learn cs))
  unfolding read_info
  read_info-whole =
      let there : ltb (suc (suc (length (command_infos cs)))) (2 + 262 * length cs) ≡ false =
        ground (arith, length-command_infos cs) in
      rw there (rw (read_infos-command_infos cs bytes_of, ◌>>=◌) refl)

  -- from the number of commands on
  listen_number :
      (more : List ℕ) (events : List InputEvent)
      → ComeWhole (length (command_infos cs) ∷ []) events
      → (reaction : Reaction) × (read_info (0 ∷ length cs ∷ []) ≡ some reaction)
        × (listen events reaction (0 ∷ length cs ∷ []) (command_infos cs ++ more)
            ≡ some (heard (learned (map learn cs))))
  unfolding listen read read_info
  listen_number more [] come = absurd come
  listen_number more (e ∷ events) come = elim (zero_or_more cs) [
    | inl empty ↦ (learned (map learn cs), rw empty refl, refl)
    | inr there ↦
        let size = length-command_infos cs in
        let n : 2 + 262 * length cs - 2 ≡ length (command_infos cs) = omega (arith, size) in
        let outside : ltb 2 (2 + 262 * length cs) ≡ true = ground (arith, there) in
        (
          receive (length (command_infos cs)) reader_info,
          rw (outside, n) refl,
          listen-receive e events (length (command_infos cs)) reader_info (0 ∷ length cs ∷ [])
              (command_infos cs ++ more) (learned (map learn cs)) (omega (arith, size, there))
              (omega (arith, length-append (command_infos cs) more)) come.0 come.1 come.2
              (ap (λ z. read reader_info false false (0 ∷ length cs ∷ z))
                  (take-append (command_infos cs) more)
                ∙ read_info-whole),
        )
  ]

  -- The shell that connects to a driver with at most 255 commands, none of which takes more than 255
  -- arguments, learns these commands from the driver's greeting, whatever is behind it, if the parts
  -- of the greeting that are asked for one after the other, the signature, the number of commands and
  -- the commands, are each there whole at the event at which they are awaited: in order, each
  -- command with its arity, with 6 bytes of its name and with 255 of its description, filled up with
  -- NULs, and a NUL behind them.
  pub listen-greeting :
      (more : List ℕ) (events : List InputEvent)
      → length cs ≤ 255
      → ComeWhole (1 ∷ 1 ∷ length (command_infos cs) ∷ []) events
      → listen events connector [] (greeting cs ++ more) ≡ some (heard (learned (map learn cs)))
  unfolding connector read read_signature greeting
  listen-greeting more [] few come = absurd come
  listen-greeting more (e ∷ []) few come = absurd (come.3)
  listen-greeting more (e ∷ f ∷ events) few come =
      let (pending, pieces, room, later) = come in
      let (pending', pieces', room', last) = later in
      let (reaction, is, rest) = listen_number more events last in
      let number : length cs % 256 ≡ length cs = omega (arith, few) in
      rw (take-all 255 cs few, number)
        (listen-receive e (f ∷ events) 1 reader_signature []
            (0 ∷ length cs ∷ (command_infos cs ++ more)) (receive 1 reader_info) (omega arith)
            (omega arith) pending pieces room refl
          ∙ listen-receive f events 1 reader_info (0 ∷ []) (length cs ∷ (command_infos cs ++ more))
              reaction (omega arith) (omega arith) pending' pieces' room' is
          ∙ rest)
