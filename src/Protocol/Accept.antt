-- ===== src/Protocol/Accept.antt =====
-- Which datagrams are handed on, and the packets that survive the way.
use interview.Base.{
  drop, ap, ◌∙◌, refl, zero, suc, ◌≤◌, length-append, length-drop, ℕ, ◌^◌, ◌<◌, ◌≡◌, ◌≢◌, ◌↔◌, some,
  List, [], ◌∷◌, ◌++◌, length, arith,
}
use interview.Protocol.{
  ReceiveBuffer, pr_max_size, byte_at, pr_count, expected_size, byte, vote_of, vote_packet, accept,
}

-- A vote of 32 bits is read back from its packet, whatever stands behind it in the buffer.
pub vote_of-vote_packet : (v : ℕ) (rest : List ℕ) → v < 2 ^ 32 → vote_of (vote_packet v ++ rest) ≡ v
unfolding vote_of vote_packet
vote_of-vote_packet v rest h = omega arith

refused :
    (remote own : ℕ) (stale : ReceiveBuffer) (datagram packet : List ℕ)
    → accept remote own stale datagram ≡ some packet
    → (remote ≢ own)
      × (byte 0 datagram < pr_count)
      × (length datagram ≡ expected_size (byte 0 datagram))
      × (packet ≡ datagram ++ drop (length datagram) stale.bytes)
unfolding accept
refused remote own stale [] packet h = absurd (ground arith)
refused remote own stale (d ∷ ds) packet h = ground arith

accepted :
    (remote own : ℕ) (stale : ReceiveBuffer) (datagram : List ℕ)
    → (remote ≢ own)
    → (byte 0 datagram < pr_count)
    → (length datagram ≡ expected_size (byte 0 datagram))
    → accept remote own stale datagram ≡ some (datagram ++ drop (length datagram) stale.bytes)
unfolding accept
accepted remote own stale [] ne known size = absurd (unfold expected_size in omega (arith, size))
accepted remote own stale (d ∷ ds) ne known size = ground arith

-- A datagram is handed on exactly if another host sent it, its first byte is one of the five
-- signatures, and it has the length of that signature's structure; it is then handed on whole, in
-- front of what the rest of the buffer held.
pub accept_iff :
    (remote own : ℕ) (stale : ReceiveBuffer) (datagram packet : List ℕ)
    → (accept remote own stale datagram ≡ some packet) ↔ (
        (remote ≢ own)
        × (byte 0 datagram < pr_count)
        × (length datagram ≡ expected_size (byte 0 datagram))
        × (packet ≡ datagram ++ drop (length datagram) stale.bytes))
accept_iff remote own stale datagram packet = (
  refused remote own stale datagram packet,
  λ h. rw (h.3) (accepted remote own stale datagram h.0 h.1 h.2),
)

-- A byte of an object is there exactly below its size.
pub byte_at-byte : (i : ℕ) (bs : List ℕ) → i < length bs → byte_at i bs ≡ some (byte i bs)
byte_at-byte i [] h = absurd (omega (arith, h))
byte_at-byte zero (b ∷ bs) h = refl
byte_at-byte (suc i) (b ∷ bs) h = byte_at-byte i bs (omega (arith, h))

-- the packet that is handed on is the whole buffer
pub accept-length :
    (remote own : ℕ) (stale : ReceiveBuffer) (datagram packet : List ℕ)
    → accept remote own stale datagram ≡ some packet
    → length packet ≡ pr_max_size
accept-length remote own stale datagram packet h =
    let (other, known, size, whole) = refused remote own stale datagram packet h in
    let few : length datagram ≤ pr_max_size = unfold expected_size in ground (arith, size) in
    let rest = length-drop (length datagram) stale.bytes (omega (arith, stale.size, few)) in
    ap length whole
    ∙ omega
        (arith, length-append datagram (drop (length datagram) stale.bytes), rest, stale.size, few)

pub byte-append : (i : ℕ) (xs ys : List ℕ) → i < length xs → byte i (xs ++ ys) ≡ byte i xs
byte-append i [] ys h = absurd (omega (arith, h))
byte-append zero (x ∷ xs) ys h = refl
byte-append (suc i) (x ∷ xs) ys h = byte-append i xs ys (omega (arith, h))

-- the packet that is handed on starts with the datagram's signature
pub accept-byte :
    (remote own : ℕ) (stale : ReceiveBuffer) (datagram packet : List ℕ)
    → accept remote own stale datagram ≡ some packet
    → byte 0 packet ≡ byte 0 datagram
accept-byte remote own stale datagram packet h =
    let (other, known, size, whole) = refused remote own stale datagram packet h in
    let some_bytes : 0 < length datagram = unfold expected_size in ground (arith, size) in
    ap (byte 0) whole ∙ byte-append 0 datagram (drop (length datagram) stale.bytes) some_bytes
