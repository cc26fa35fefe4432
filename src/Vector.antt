-- ===== src/Vector.antt =====
-- supertel/lib/containers.c, the part VECTOR: elements of one size, one behind the other in a buffer
-- of the economic policy. `none` is a fault: a failed assertion, or a memmove out of the block or in
-- one that realloc has freed. A pointer into the buffer is its address.
pub mod Elements
pub mod Moves
pub mod Grow
pub mod Insert
pub mod Shrink
pub mod Access
use interview.Base.{
  ℕ, zero, suc, ◌+◌, ◌-◌, ◌*◌, ◌/◌, ◌%◌, ◌^◌, Bool, true, false, not, ◌&&◌, ◌||◌, Option, none,
  some, List, [], ◌∷◌, ◌++◌, length, take, drop, ltb, leb, ◌==◌, if◌then◌else◌, ◌>>=◌,
}
use interview.Buffer.{Buffer, bp_economic, Realloc, buffer_init, buffer_realloc, buffer_deinit}

pub record Vector : Type 0 where
  pub buffer : Buffer
  pub element_size : ℕ
  pub count : ℕ

-- `memmove` in a block, at offsets from its address
unfoldable pub memmove : (to from n : ℕ) → List ℕ → Option (List ℕ)
memmove to from n bytes =
    if leb (to + n) (length bytes) && leb (from + n) (length bytes)
    then some (take to bytes ++ (take n (drop from bytes) ++ drop (to + n) bytes))
    else none

abbrev pub bytes_of : (count size : ℕ) → ℕ
bytes_of count size = count * size % 2 ^ 64

-- `buffer_realloc` with the assertion that it succeeds
unfoldable pub resize : Realloc → Buffer → ℕ → Option Buffer
resize realloc b n = let r = buffer_realloc realloc b n in if r.1 then some r.0 else none

unfoldable pub vector_init : (ℕ → Option (ℕ × List ℕ)) → (size count : ℕ) → Vector
vector_init malloc size count = record {
  element_size = size;
  count = count;
  buffer = buffer_init malloc (bytes_of size count) bp_economic;
}

unfoldable pub vector_remove : Realloc → Vector → ℕ → Option Vector
vector_remove realloc v idx =
    if leb v.count idx
    then none
    else (let count = v.count - 1 in
        let newpos = bytes_of idx v.element_size in
        let shifting = bytes_of (count - idx) v.element_size in
        do
          bytes ← memmove newpos (newpos + v.element_size) shifting v.buffer.bytes
          b ← resize realloc (record v.buffer { bytes = bytes }) (bytes_of count v.element_size)
          some (record v { count = count; buffer = b }))

unfoldable pub vector_remove_range : Realloc → Vector → (from count : ℕ) → Option Vector
vector_remove_range realloc v from count =
    if count == 0
    then some v
    else if leb v.count from || leb v.count ((from + count - 1) % 2 ^ 64)
    then none
    else (let rest = v.count - count in
        let newpos = bytes_of from v.element_size in
        let shifting = bytes_of (rest - from) v.element_size in
        do
          bytes ← memmove newpos (newpos + bytes_of count v.element_size) shifting v.buffer.bytes
          b ← resize realloc (record v.buffer { bytes = bytes }) (bytes_of rest v.element_size)
          some (record v { count = rest; buffer = b }))

-- the positions are computed before `realloc`, which may move the block
unfoldable pub vector_insert : Realloc → Vector → ℕ → Option (Vector × ℕ)
vector_insert realloc v idx =
    if ltb v.count idx
    then none
    else (let newelement = bytes_of v.element_size idx in
        let newpos = newelement + v.element_size in
        let shifting = bytes_of v.element_size (v.count - idx) in
        let count = (v.count + 1) % 2 ^ 64 in
        do
          b ← resize realloc v.buffer (bytes_of v.element_size (count + 1))
          bytes ←
              if b.block == v.buffer.block then memmove newpos newelement shifting b.bytes else none
          some (
            record v { count = count; buffer = record b { bytes = bytes } },
            v.buffer.block + newelement,
          ))

unfoldable pub vector_append : Realloc → Vector → Option (Vector × ℕ)
vector_append realloc v =
    let filled = bytes_of v.element_size v.count in
    do
      b ← resize realloc v.buffer ((filled + v.element_size) % 2 ^ 64)
      some (record v { count = (v.count + 1) % 2 ^ 64; buffer = b }, b.block + filled)

unfoldable pub vector_prepend : Realloc → Vector → Option (Vector × ℕ)
vector_prepend realloc v =
    let filled = bytes_of v.element_size v.count in
    do
      b ← resize realloc v.buffer ((filled + v.element_size) % 2 ^ 64)
      bytes ← memmove v.element_size 0 filled b.bytes
      some (
        record v { count = (v.count + 1) % 2 ^ 64; buffer = record b { bytes = bytes } },
        b.block,
      )

unfoldable pub vector_begin : Vector → ℕ
vector_begin v = v.buffer.block

unfoldable pub vector_end : Vector → ℕ
vector_end v = v.buffer.block + bytes_of v.count v.element_size

unfoldable pub vector_get : Vector → ℕ → Option ℕ
vector_get v idx =
    if leb v.count idx then none else some (v.buffer.block + bytes_of idx v.element_size)

-- the assertions on a pointer that `vector_next` and `vector_prev` make; a division by 0 is a fault
unfoldable pub assert_element : Vector → ℕ → Option (Unit {0})
assert_element v d =
    if v.element_size == 0
      || ltb d v.buffer.block
      || leb (vector_end v) d
      || not ((d - v.buffer.block) % v.element_size == 0)
    then none
    else some tt

unfoldable pub vector_next : Vector → ℕ → Option ℕ
vector_next v d = do ok ← assert_element v d; some (d + v.element_size)

unfoldable pub vector_prev : Vector → ℕ → Option ℕ
vector_prev v d = do
  ok ← assert_element v d
  some (if d == v.buffer.block then d else d - v.element_size)

unfoldable pub vector_deinit : Vector → Vector × Option ℕ
vector_deinit v =
    let b = buffer_deinit v.buffer in (record { buffer = b.0; count = 0; element_size = 0 }, b.1)

-- `none` is NULL
unfoldable pub vector_count : Option Vector → ℕ
vector_count none = 0
vector_count (some v) = v.count
