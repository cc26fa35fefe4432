-- ===== src/Protocol.antt =====
-- supertel/task1/include/protocol.h and src/protocol.c: the packets of the network, and the part of
-- `data_received` (slave.c, master.c) that decides whether a datagram is handed on. A packet is the
-- list of its bytes; `uint32_t` fields are little-endian, as the structures are sent by a PC.
pub mod Accept
use interview.Base.{
  drop, ℕ, zero, suc, ◌+◌, ◌-◌, ◌*◌, ◌/◌, ◌%◌, ◌^◌, Bool, true, false, not, ◌&&◌, ◌||◌, Option, ◌≡◌,
  none, some, List, [], ◌∷◌, ◌++◌, length, ltb, leb, ◌==◌, if◌then◌else◌,
}
use interview.Base.Int.{ℤ, pos, negsuc}

abbrev pub pr_request : ℕ
pr_request = 0

abbrev pub pr_response : ℕ
pr_response = 1

abbrev pub pr_msg : ℕ
pr_msg = 2

abbrev pub pr_vote : ℕ
pr_vote = 3

abbrev pub pr_reset_master : ℕ
pr_reset_master = 4

abbrev pub pr_count : ℕ
pr_count = 5

-- `MASTER_REQUEST_TIMEOUT_MSEC` and its multiples
abbrev pub master_request_timeout_msec : ℕ
master_request_timeout_msec = 5000

abbrev pub master_gone_timeout_msec : ℕ
master_gone_timeout_msec = master_request_timeout_msec * 2

abbrev pub slave_polling_timeout_msec : ℕ
slave_polling_timeout_msec = 1000

-- `PR_STRUCT_EXPECTED_SIZE`: the sizes of the packed structures
unfoldable pub expected_size : ℕ → ℕ
expected_size s =
    if s == pr_response then 3 else if s == pr_msg then 12 else if s == pr_vote then 5 else 1

abbrev pub pr_max_size : ℕ
pr_max_size = 12

abbrev pub pr_min_size : ℕ
pr_min_size = 1

-- a byte below the size that `accept` has checked; the one read that may be behind it is `byte_at`
abbrev pub byte : ℕ → List ℕ → ℕ
byte i [] = 0
byte zero (b ∷ bs) = b
byte (suc i) (b ∷ bs) = byte i bs

-- a byte of an object in memory; `none` is a read behind the object
abbrev pub byte_at : ℕ → List ℕ → Option ℕ
byte_at i [] = none
byte_at zero (b ∷ bs) = some b
byte_at (suc i) (b ∷ bs) = byte_at i bs

-- `buffer`, an array of `PR_MAX_SIZE` bytes
pub record ReceiveBuffer : Type 0 where
  pub bytes : List ℕ
  pub size : length bytes ≡ pr_max_size

-- conversions to `int8_t` and `uint8_t`, and from `int8_t` to a byte
abbrev pub to_int8 : ℕ → ℤ
to_int8 n = let b = n % 256 in if ltb b 128 then pos b else negsuc (255 - b)

abbrev pub byte_of : ℤ → ℕ
byte_of (pos n) = n % 256
byte_of (negsuc n) = 255 - n % 256

-- `((const pr_vote_t *)packet)->vote`
unfoldable pub vote_of : List ℕ → ℕ
vote_of p = byte 1 p + byte 2 p * 2 ^ 8 + byte 3 p * 2 ^ 16 + byte 4 p * 2 ^ 24

-- the packets that are sent
unfoldable pub vote_packet : ℕ → List ℕ
vote_packet v =
    pr_vote ∷ (v % 256) ∷ (v / 2 ^ 8 % 256) ∷ (v / 2 ^ 16 % 256) ∷ (v / 2 ^ 24 % 256) ∷ []

unfoldable pub response_packet : ℤ → ℕ → List ℕ
response_packet temperature illumination =
    pr_response ∷ byte_of temperature ∷ (illumination % 256) ∷ []

abbrev pub signature_packet : ℕ → List ℕ
signature_packet s = s ∷ []

-- A datagram lands in a buffer of `PR_MAX_SIZE` bytes, whose rest keeps what it held. `none` is a
-- datagram that is discarded: for its size, its signature, the size that its signature asks for, or
-- because it comes from the address `local`.
unfoldable pub accept :
    (remote own : ℕ) (stale : ReceiveBuffer) (datagram : List ℕ) → Option (List ℕ)
unfolding expected_size
accept remote own stale datagram =
    let pending = length datagram in
    let packet = datagram ++ drop pending stale.bytes in
    if ltb pr_max_size pending || ltb pending pr_min_size
    then none
    else if leb pr_count (byte 0 packet)
    then none
    else if not (pending == expected_size (byte 0 packet))
    then none
    else if remote == own
    then none
    else some packet
