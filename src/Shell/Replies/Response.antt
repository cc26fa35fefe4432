-- ===== src/Shell/Replies/Response.antt =====
-- The response of a driver, printed by the shell.
use interview.Base.{
  ℕ, suc, ◌+◌, ◌-◌, ◌*◌, ◌/◌, ◌%◌, ◌^◌, ◌<◌, ◌≤◌, ◌≡◌, refl, sym, ap, ◌∙◌, true, false, some, List,
  [], ◌∷◌, ◌++◌, length, length-append, take, drop, take-append, ltb, arith, if◌then◌else◌, ◌>>=◌,
  append-nil, ◌⊎◌, inl, inr,
}
use interview.Base.Text.{codes, c_string}
use interview.DriverPayloads.Answers.{framed}
use interview.Shell.Replies.{
  Reader, reader_signature, reader_response, Reaction, receive, reconnect, ended, learned, printed,
  read, read_signature, read_response, print_response, connector, heard, InputEvent, recv_task,
  fresh, await, listen,
}
use interview.UnixSocketServer.{no_error}
use interview.UnixSocketServer.Receive.{ReadTask, reader_called, client_data_may_be_read}
use interview.UnixSocketServer.Receive.Arrival.{
  Arrives, advanced, wanted, client_data_may_be_read-arrived,
}

-- The bytes of every request are there, whole, at the event that awaits them: `asked` are the numbers of
-- bytes that are asked for, one after the other.
abbrev pub ComeWhole : (asked : List ℕ) → List InputEvent → Type 0
ComeWhole [] events = Unit
ComeWhole (n ∷ asked) [] = ⊥
ComeWhole (n ∷ asked) (e ∷ events) =
    (n ≤ e.pending) × Arrives [] e.answers n × (length (e.room n) ≡ n) × ComeWhole asked events

drop-whole : (xs : List ℕ) → drop (length xs) xs ≡ []
drop-whole [] = refl
drop-whole (x ∷ xs) = drop-whole xs

await-next :
    (e : InputEvent) (events : List InputEvent) (n : ℕ) (reader : Reader)
    (content wire rest : List ℕ) (task : ReadTask) (next : Reaction)
    → client_data_may_be_read e.pending (recv_task e.room n content) e.answers wire
      ≡ some (reader_called no_error false task rest)
    → read reader false false task.content ≡ some next
    → await (e ∷ events) reader (fresh n content) wire ≡ listen events next task.content rest
unfolding await listen
await-next e events n reader content wire rest task (receive m r) called calls =
    rw (called, ◌>>=◌) (rw (calls, ◌>>=◌) refl)
await-next e events n reader content wire rest task reconnect called calls =
    rw (called, ◌>>=◌) (rw (calls, ◌>>=◌) refl)
await-next e events n reader content wire rest task ended called calls =
    rw (called, ◌>>=◌) (rw (calls, ◌>>=◌) refl)
await-next e events n reader content wire rest task (learned c) called calls =
    rw (called, ◌>>=◌) (rw (calls, ◌>>=◌) refl)
await-next e events n reader content wire rest task (printed t) called calls =
    rw (called, ◌>>=◌) (rw (calls, ◌>>=◌) refl)

pub listen-receive :
    (e : InputEvent) (events : List InputEvent) (n : ℕ) (reader : Reader) (content wire : List ℕ)
    (next : Reaction)
    → 0 < n
    → n ≤ length wire
    → n ≤ e.pending
    → Arrives [] e.answers n
    → length (e.room n) ≡ n
    → read reader false false (content ++ take n wire) ≡ some next
    → listen (e ∷ events) (receive n reader) content wire
      ≡ listen events next (content ++ take n wire) (drop n wire)
unfolding listen
listen-receive e events n reader content wire next positive there pending pieces room calls =
    let k : wanted content (e.room n) wire (length content) 0 (omega arith) e.pending ≡ n =
      ground (arith, room, pending) in
    let called =
      client_data_may_be_read-arrived content (e.room n) wire (length content) 0 (omega arith)
        e.pending e.answers (omega (arith, positive, pending)) (rw k there) (rw k pieces) in
    let gone : drop n (e.room n) ≡ [] =
      ap (λ m. drop m (e.room n)) (sym room) ∙ drop-whole (e.room n) in
    let task : ReadTask = advanced content (e.room n) wire (length content) 0 (omega arith) n in
    let same : task.content ≡ content ++ take n wire =
      rw gone (append-nil (content ++ take n wire)) in
    await-next e events n reader content wire (drop n wire) task next (rw k at called)
      (ap (read reader false false) same ∙ calls)
    ∙ ap (λ c. listen events next c (drop n wire)) same

-- a number of 32 bits from its bytes
from_bytes :
    (n : ℕ)
    → n < 2 ^ 32
    → n % 256 + n / 2 ^ 8 % 256 * 2 ^ 8 + n / 2 ^ 16 % 256 * 2 ^ 16 + n / 2 ^ 24 % 256 * 2 ^ 24 ≡ n
from_bytes n small = omega (arith, small)

pub zero_or_more : {A : Type 0} (xs : List A) → (xs ≡ []) ⊎ (0 < length xs)
zero_or_more [] = inl refl
zero_or_more (x ∷ xs) = inr (omega arith)

module _ (message more : List ℕ) (small : length message < 2 ^ 31) where
  abbrev len : ℕ
  len = length message % 2 ^ 32

  abbrev header : List ℕ
  header = 2 ∷ (len % 256) ∷ (len / 2 ^ 8 % 256) ∷ (len / 2 ^ 16 % 256) ∷ (len / 2 ^ 24 % 256) ∷ []

  abbrev text : List ℕ
  text = c_string message ++ codes "\n> "

  length-message : len ≡ length message
  length-message = omega (arith, small)

  decoded :
      len % 256
        + len / 2 ^ 8 % 256 * 2 ^ 8
        + len / 2 ^ 16 % 256 * 2 ^ 16
        + len / 2 ^ 24 % 256 * 2 ^ 24
      ≡ length message
  decoded = from_bytes len (omega arith) ∙ length-message

  read_header :
      (rest : List ℕ)
      → read_response (header ++ rest) ≡ (
          if ltb (length (header ++ rest)) (5 + length message)
          then some (receive (5 + length message - length (header ++ rest)) reader_response)
          else print_response (length message) rest)
  unfolding read_response
  read_header rest = rw decoded refl

  whole : read_response (header ++ message) ≡ some (printed text)
  unfolding print_response
  whole =
      let there : ltb (suc (suc (suc (suc (suc (length message)))))) (5 + length message) ≡ false =
        ground arith in
      let fits : ltb (length message) (2 ^ 31) ≡ true = ground (arith, small) in
      let all : take (length message) message ≡ message =
        ap (take (length message)) (sym (append-nil message)) ∙ take-append message [] in
      read_header message ∙ rw there (rw (fits, all) refl)

  -- from the header on
  listen-header :
      (events : List InputEvent)
      → ComeWhole (length message ∷ []) events
      → (reaction : Reaction) × (read_response header ≡ some reaction)
        × (listen events reaction header (message ++ more) ≡ some (heard (printed text)))
  unfolding listen read
  listen-header [] whole_ = absurd whole_
  listen-header (e ∷ events) come = elim (zero_or_more message) [
    | inl empty ↦ (printed text, ap (λ z. read_response (header ++ z)) (sym empty) ∙ whole, refl)
    | inr there ↦
        let n : 5 + length message - 5 ≡ length message = omega arith in
        let outside : ltb 5 (5 + length message) ≡ true = ground (arith, there) in
        let asks : read_response header ≡ some (receive (length message) reader_response) =
          read_header [] ∙ rw (outside, n) refl in
        (
          receive (length message) reader_response,
          asks,
          listen-receive e events (length message) reader_response header (message ++ more)
              (printed text) there (omega (arith, length-append message more)) come.0 come.1 come.2
              (ap (λ z. read reader_response false false (header ++ z)) (take-append message more)
                ∙ whole),
        )
  ]

-- The shell that awaits the answer of a driver, and gets the message of a command's handler as the
-- driver frames it, with whatever is behind it, prints the message up to its first NUL, a newline and
-- the prompt, if the message has less than 2 ^ 31 bytes. The signature, the length and the message are each
-- there whole at the event at which they are awaited.
pub listen-framed :
    (message more : List ℕ) (events : List InputEvent)
    → length message < 2 ^ 31
    → ComeWhole (1 ∷ 4 ∷ length message ∷ []) events
    → listen events connector [] (framed message ++ more)
      ≡ some (heard (printed (c_string message ++ codes "\n> ")))
unfolding connector read read_signature
listen-framed message more [] small come = absurd come
listen-framed message more (e ∷ []) small come = absurd (come.3)
listen-framed message more (e ∷ f ∷ events) small come =
    let (pending, pieces, room, later) = come in
    let (pending', pieces', room', last) = later in
    let (reaction, is, rest) = listen-header message more small events last in
    listen-receive e (f ∷ events) 1 reader_signature [] (framed message ++ more)
      (receive 4 reader_response) (omega arith) (omega arith) pending pieces room refl
    ∙ listen-receive f events 4 reader_response (2 ∷ []) (drop 1 (framed message ++ more)) reaction
        (omega arith) (omega arith) pending' pieces' room' is
    ∙ rest
