-- ===== src/Shell/SocketName/RoundTrip.antt =====
-- The name that a driver gives its socket, read by the shell.
use interview.Base.{
  ℕ, zero, suc, ◌+◌, ◌-◌, ◌<◌, ◌^◌, ◌≡◌, refl, sym, ap, ◌∙◌, true, false, Option, some, List, [],
  ◌∷◌, ◌++◌, append_assoc, length, length-append, take, drop, drop-append_add, take-append, ◌==◌,
  arith, All, All-append, All-mono,
}
use interview.Base.Text.{is_digit, atoi, strncmp_zero, unsigned_text, read_digits}
use interview.Base.Text.Digits.{
  read-unsigned_text, print_digits-append, All-print_digits, length-unsigned_text,
}
use interview.HashFunctions.{element_at}
use interview.Shell.SocketName.{
  DriverDescription, suffix, find_slash, scan_name, scan_slot, parse_unix_socket_name_, socket_name,
}

abbrev pub Lacks : ℕ → List ℕ → Type 0
Lacks b = All (λ c. (c == b) ≡ false)

abbrev pub AreDigits : List ℕ → Type 0
AreDigits = All (λ c. is_digit c ≡ true)

element_at-Lacks : (b : ℕ) (s : List ℕ) (i : ℕ) → 0 < b → Lacks b s → (element_at s i == b) ≡ false
element_at-Lacks b [] i h a = ground arith
element_at-Lacks b (c ∷ s) zero h a = a.0
element_at-Lacks b (c ∷ s) (suc i) h a = element_at-Lacks b s i h a.1

pub find_slash-Lacks : (s : List ℕ) (back : ℕ) → Lacks b'/' s → find_slash s back ≡ 0
unfolding find_slash
find_slash-Lacks s zero a = refl
find_slash-Lacks s (suc back) a =
    rw (element_at-Lacks b'/' s (suc back) (omega arith) a, find_slash-Lacks s back a) refl

scan_name-Lacks : (n s : List ℕ) → Lacks b'.' n → scan_name (n ++ b'.' ∷ s) ≡ length n
unfolding scan_name
scan_name-Lacks [] s a = refl
scan_name-Lacks (c ∷ n) s a = rw (a.0, scan_name-Lacks n s a.1) refl

digit-no_dot : (c : ℕ) → is_digit c ≡ true → (c == b'.') ≡ false
unfolding is_digit
digit-no_dot c h = ground arith

digit-no_slash : (c : ℕ) → is_digit c ≡ true → (c == b'/') ≡ false
unfolding is_digit
digit-no_slash c h = ground arith

scan_slot-AreDigits : (ds s : List ℕ) → AreDigits ds → scan_slot (ds ++ b'.' ∷ s) ≡ length ds
unfolding scan_slot
scan_slot-AreDigits [] s a = refl
scan_slot-AreDigits (c ∷ ds) s a = rw (digit-no_dot c a.0, a.0, scan_slot-AreDigits ds s a.1) refl

pub element_at-append : (s : List ℕ) (c : ℕ) (t : List ℕ) → element_at (s ++ c ∷ t) (length s) ≡ c
element_at-append [] c t = refl
element_at-append (x ∷ s) c t = element_at-append s c t

module _ (n ds : List ℕ) (dotless : Lacks b'.' n) (flat : Lacks b'/' n) (digits : AreDigits ds)
    (named : 0 < length n) (numbered : 0 < length ds) where
  abbrev file : List ℕ
  file = n ++ b'.' ∷ (ds ++ b'.' ∷ suffix)

  flat-file : Lacks b'/' file
  flat-file =
      All-append (λ c. (c == b'/') ≡ false) n (b'.' ∷ (ds ++ b'.' ∷ suffix)) flat
        (
          refl,
          All-append (λ c. (c == b'/') ≡ false) ds (b'.' ∷ suffix)
              (All-mono (λ c. is_digit c ≡ true) (λ c. (c == b'/') ≡ false) ds digit-no_slash
                digits)
              (refl, (refl, (refl, (refl, tt)))),
        )

  slot-file : drop (length n + 1) file ≡ ds ++ b'.' ∷ suffix
  slot-file = drop-append_add n (b'.' ∷ (ds ++ b'.' ∷ suffix)) 1

  whole : file ≡ (n ++ b'.' ∷ ds) ++ b'.' ∷ suffix
  whole = sym (append_assoc n (b'.' ∷ ds) (b'.' ∷ suffix))

  start-length : length (n ++ b'.' ∷ ds) ≡ length n + 1 + length ds
  start-length = omega (arith, length-append n (b'.' ∷ ds))

  dot-file : element_at file (length n + 1 + length ds) ≡ b'.'
  dot-file =
      ap (element_at file) (sym start-length)
      ∙ ap (λ s. element_at s (length (n ++ b'.' ∷ ds))) whole
      ∙ element_at-append (n ++ b'.' ∷ ds) b'.' suffix

  suffix-file : drop (length n + 1 + length ds + 1) file ≡ suffix
  suffix-file =
      ap (λ k. drop (k + 1) file) (sym start-length)
      ∙ ap (drop (length (n ++ b'.' ∷ ds) + 1)) whole
      ∙ drop-append_add (n ++ b'.' ∷ ds) (b'.' ∷ suffix) 1

  length-file : length file ≡ length n + 1 + length ds + 4
  length-file =
      omega
        (arith, length-append n (b'.' ∷ (ds ++ b'.' ∷ suffix)), length-append ds (b'.' ∷ suffix))

  abbrev described : ℕ → Option DriverDescription
  described len = some (record {
    driver_name = file;
    driver_name_len = len;
    slot_number = atoi (ds ++ b'.' ∷ suffix);
  })

  -- a name, a number and the suffix are accepted
  pub accepted :
      parse_unix_socket_name_ file
      ≡ some (record {
        driver_name = file;
        driver_name_len = length n;
        slot_number = atoi (ds ++ b'.' ∷ suffix);
      })
  unfolding parse_unix_socket_name_ strncmp_zero
  accepted =
      let a = find_slash-Lacks file (length file - 1) flat-file in
      let b = scan_name-Lacks n (ds ++ b'.' ∷ suffix) dotless in
      let c = scan_slot-AreDigits ds suffix digits in
      let e : 0 + length n ≡ length n = omega arith in
      let one : (length n == 0) ≡ false = ground (arith, named) in
      let two : (length n == length file) ≡ false = ground (arith, length-file) in
      let three : (length n + 1 + length ds == length n + 1) ≡ false = ground (arith, numbered) in
      let four : (length n + 1 + length ds == length file) ≡ false = ground (arith, length-file) in
      let five : (length file - (length n + 1 + length ds) == 4) ≡ true =
        ground (arith, length-file) in
      rw (a, b, e, slot-file, c, one, two, three, four, dot-file, five, suffix-file)
        (ap described (omega arith))

AreDigits-unsigned_text : (n : ℕ) → AreDigits (unsigned_text n)
unfolding unsigned_text
AreDigits-unsigned_text n = All-print_digits 10 n [] tt

atoi-unsigned_text : (n : ℕ) (s : List ℕ) → n < 2 ^ 32 → atoi (unsigned_text n ++ b'.' ∷ s) ≡ n
unfolding atoi unsigned_text read_digits is_digit
atoi-unsigned_text n s small =
    rw
      (
        sym (print_digits-append 10 n (b'.' ∷ s)),
        read-unsigned_text (2 ^ 63 - 1) n (b'.' ∷ s) (omega (arith, small)) small,
      )
      (omega (arith, small))

-- The shell reads the name that a driver prints for its socket back: for a payload whose name is not
-- empty and has neither a dot nor a slash, and a slot of 32 bits, the parser returns the name, its length
-- and the slot.
pub parse_unix_socket_name-socket_name :
    (name : List ℕ) (slot_number : ℕ)
    → Lacks b'.' name
    → Lacks b'/' name
    → 0 < length name
    → slot_number < 2 ^ 32
    → (parse_unix_socket_name_ (socket_name name slot_number)
        ≡ some (record {
          driver_name = socket_name name slot_number;
          driver_name_len = length name;
          slot_number = slot_number;
        }))
      × (take (length name) (socket_name name slot_number) ≡ name)
unfolding socket_name
parse_unix_socket_name-socket_name name slot_number dotless flat named small =
    let digits = unsigned_text slot_number in
    let whole = socket_name name slot_number in
    (
      accepted name digits dotless flat (AreDigits-unsigned_text slot_number) named
            (length-unsigned_text slot_number)
          ∙ ap {B = Option DriverDescription}
              (λ slot.
                some (record {
                  driver_name = whole;
                  driver_name_len = length name;
                  slot_number = slot;
                }))
              (atoi-unsigned_text slot_number suffix small),
      take-append name (b'.' ∷ (digits ++ b'.' ∷ suffix)),
    )
