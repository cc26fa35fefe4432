-- ===== src/Buffer.antt =====
-- supertel/lib/containers.c, the part BUFFER: a block of memory with a policy of growing and
-- shrinking. A block is its address (0 is NULL) and its bytes. `realloc` and `malloc` are arguments:
-- `realloc block bytes n` is the new block and its bytes, or `none` for NULL.
pub mod Resize
pub mod Refuse
pub mod Block
use interview.Base.{
  ℕ, zero, suc, ◌+◌, ◌*◌, ◌/◌, ◌%◌, ◌^◌, ◌≤◌, ◌<◌, ◌≡◌, Bool, true, false, Option, none, some, List,
  [], ◌∷◌, ◌++◌, length, ltb, leb, ◌==◌, if◌then◌else◌,
}

pub data BufferPolicy : Type 0 where
  bp_shrinkable : BufferPolicy
  bp_non_shrinkable : BufferPolicy
  bp_economic : BufferPolicy

-- `block` and `bytes` are `data`
pub record Buffer : Type 0 where
  pub pol : BufferPolicy
  pub block : ℕ
  pub bytes : List ℕ
  pub user_size : ℕ
  pub real_size : ℕ
  pub offset : ℕ

abbrev pub Realloc : Type 0
Realloc = ℕ → List ℕ → ℕ → Option (ℕ × List ℕ)

-- `if (b->offset > newsize) b->offset = newsize;`
unfoldable pub clamp_offset : Buffer → ℕ → Buffer
clamp_offset b newsize = record b { offset = if ltb newsize b.offset then newsize else b.offset }

-- `if (d) { … }` for `d = realloc(b->data, rs)`
unfoldable pub take_block : Buffer → ℕ → ℕ → Option (ℕ × List ℕ) → Buffer × Bool
take_block b newsize rs none = (clamp_offset b newsize, false)
take_block b newsize rs (some (d, bytes)) = (
  clamp_offset (record b { user_size = newsize; real_size = rs; block = d; bytes = bytes }) newsize,
  true,
)

unfoldable pub realloc_shrinkable : Realloc → Buffer → ℕ → Buffer × Bool
realloc_shrinkable realloc b newsize =
    take_block b newsize newsize (realloc b.block b.bytes newsize)

unfoldable pub realloc_nonshrinkable : Realloc → Buffer → ℕ → Buffer × Bool
realloc_nonshrinkable realloc b newsize =
    if ltb newsize b.real_size
    then (record b { user_size = newsize }, true)
    else take_block b newsize newsize (realloc b.block b.bytes newsize)

unfoldable pub realloc_economic : Realloc → Buffer → ℕ → Buffer × Bool
realloc_economic realloc b newsize =
    let lesser = b.real_size / 2 in
    let greater = b.real_size * 2 % 2 ^ 64 in
    let resize : ℕ → Buffer × Bool = λ rs. take_block b newsize rs (realloc b.block b.bytes rs) in
    if ltb newsize (b.real_size / 4)
    then resize lesser
    else if ltb b.real_size newsize
    then resize (if ltb newsize greater then greater else newsize)
    else (clamp_offset (record b { user_size = newsize }) newsize, true)

unfoldable pub reallocer : BufferPolicy → Realloc → Buffer → ℕ → Buffer × Bool
reallocer bp_shrinkable = realloc_shrinkable
reallocer bp_non_shrinkable = realloc_nonshrinkable
reallocer bp_economic = realloc_economic

unfoldable pub buffer_realloc : Realloc → Buffer → ℕ → Buffer × Bool
buffer_realloc realloc b newsize = reallocer b.pol realloc b newsize

-- what `malloc` returns is not tested
unfoldable pub buffer_init : (ℕ → Option (ℕ × List ℕ)) → ℕ → BufferPolicy → Buffer
buffer_init malloc size pol =
    let d : Option (ℕ × List ℕ) = if size == 0 then none else malloc size in
    let empty : Buffer = record {
      pol = pol;
      block = 0;
      bytes = [];
      user_size = size;
      real_size = size;
      offset = 0;
    } in
    elim d [ none ↦ empty | some e ↦ record empty { block = e.0; bytes = e.1 } ]

-- and the address that is freed, if any
unfoldable pub buffer_deinit : Buffer → Buffer × Option ℕ
buffer_deinit b = (
  record b { user_size = 0; real_size = 0; bytes = [] },
  if b.block == 0 then none else some b.block,
)
