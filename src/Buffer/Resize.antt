-- ===== src/Buffer/Resize.antt =====
-- What a change of its size leaves of a buffer.
use interview.Base.{
  ℕ, ◌*◌, ◌/◌, ◌%◌, ◌^◌, ◌≤◌, ◌<◌, ◌≡◌, ◌⊎◌, inl, inr, refl, sym, ap, ◌∙◌, Bool, true, some, List,
  ◌++◌, length, ltb, if◌then◌else◌, arith, Bool-cases, length-append,
}
use interview.Buffer.{
  BufferPolicy, bp_shrinkable, bp_non_shrinkable, bp_economic, Buffer, Realloc, clamp_offset,
  take_block, realloc_shrinkable, realloc_nonshrinkable, realloc_economic, reallocer,
  buffer_realloc,
}

-- `realloc` of a size that is not 0 finds memory, and keeps the bytes that fit
pub record IsRealloc (realloc : Realloc) : Type 0 where
  pub grants :
      (block : ℕ) (bytes : List ℕ) (n : ℕ)
      → 0 < n
      → (r : ℕ × List ℕ) × (realloc block bytes n ≡ some r)
  pub keeps :
      (block : ℕ) (front back : List ℕ) (n : ℕ) (r : ℕ × List ℕ)
      → length front ≤ n
      → realloc block (front ++ back) n ≡ some r
      → (back' : List ℕ) × (r.1 ≡ front ++ back') × (length r.1 ≡ n)

pub record IsBuffer (b : Buffer) : Type 0 where
  pub whole : length b.bytes ≡ b.real_size
  pub within : b.user_size ≤ b.real_size

-- the outcome of a change to the size `n`: the bytes `front` are kept
pub record Resized (b : Buffer) (front : List ℕ) (n : ℕ) (o : Buffer × Bool) : Type 0 where
  pub buffer : Buffer
  pub returns : o ≡ (buffer, true)
  pub valid : IsBuffer buffer
  pub size : buffer.user_size ≡ n
  pub policy : buffer.pol ≡ b.pol
  pub back : List ℕ
  pub kept : buffer.bytes ≡ front ++ back

module _ {realloc : Realloc} (lawful : IsRealloc realloc) (b : Buffer) (front back : List ℕ) (n : ℕ)
    (valid : IsBuffer b) (split : b.bytes ≡ front ++ back) (fits : length front ≤ n) where
  fits_block : length front ≤ b.real_size
  fits_block = omega (arith, valid.whole, ap (length {A = ℕ}) split, length-append front back)

  taken :
      (rs : ℕ)
      → length front ≤ rs
      → 0 < rs
      → n ≤ rs
      → Resized b front n (take_block b n rs (realloc b.block b.bytes rs))
  unfolding take_block clamp_offset
  taken rs room positive within =
      let (r, e) = lawful.grants b.block b.bytes rs positive in
      let (rest, whole, size) =
        lawful.keeps b.block front back rs r room
          (ap (λ z. realloc b.block z rs) (sym split) ∙ e) in
      record {
        buffer =
            clamp_offset (record b { user_size = n; real_size = rs; block = r.0; bytes = r.1 }) n;
        returns = ap (take_block b n rs) e;
        valid = record { whole = size; within = within };
        size = refl;
        policy = refl;
        back = rest;
        kept = whole;
      }

  stays : n ≤ b.real_size → Resized b front n (clamp_offset (record b { user_size = n }) n, true)
  unfolding clamp_offset
  stays within = record {
    buffer = clamp_offset (record b { user_size = n }) n;
    returns = refl;
    valid = record { whole = valid.whole; within = within };
    size = refl;
    policy = refl;
    back = back;
    kept = split;
  }

  economic : b.real_size * 2 < 2 ^ 64 → Resized b front n (realloc_economic realloc b n)
  unfolding realloc_economic
  economic small = elim (Bool-cases (ltb n (b.real_size / 4))) [
    | inl q ↦
        let below : n < b.real_size / 4 = ground arith in
        rw q (taken (b.real_size / 2) (omega arith) (omega arith) (omega arith))
    | inr q ↦ elim (Bool-cases (ltb b.real_size n)) [
      | inl p ↦
          let above : b.real_size < n = ground arith in
          let rs = if ltb n (b.real_size * 2 % 2 ^ 64) then b.real_size * 2 % 2 ^ 64 else n in
          let room : n ≤ rs = ground arith in rw (q, p) (taken rs (omega arith) (omega arith) room)
      | inr p ↦ let within : n ≤ b.real_size = ground arith in rw (q, p) (stays within)
    ]
  ]

  simple : 0 < n → Resized b front n (realloc_shrinkable realloc b n)
  unfolding realloc_shrinkable
  simple positive = taken n fits positive (omega arith)

  keeping : 0 < n → Resized b front n (realloc_nonshrinkable realloc b n)
  unfolding realloc_nonshrinkable
  keeping positive = elim (Bool-cases (ltb n b.real_size)) [
    | inl q ↦ rw q (record {
      buffer = record b { user_size = n };
      returns = refl;
      valid = record { whole = valid.whole; within = ground arith };
      size = refl;
      policy = refl;
      back = back;
      kept = split;
    })
    | inr q ↦ rw q (taken n fits positive (omega arith))
  ]

  by_policy :
      (p : BufferPolicy)
      → b.pol ≡ p
      → (0 < n) ⊎ (b.pol ≡ bp_economic)
      → b.real_size * 2 < 2 ^ 64
      → Resized b front n (reallocer p realloc b n)
  unfolding reallocer
  by_policy bp_shrinkable e (inl positive) small = simple positive
  by_policy bp_shrinkable e (inr p) small = cc
  by_policy bp_non_shrinkable e (inl positive) small = keeping positive
  by_policy bp_non_shrinkable e (inr p) small = cc
  by_policy bp_economic e positive small = economic small

  -- With a realloc that finds memory and keeps the bytes that fit, a buffer whose real_size is that
  -- of its block and not below its user_size, and can be doubled without overflow, and a size that
  -- is not 0, or 0 with the economic policy: buffer_realloc returns true under every policy, the new
  -- user_size is that size and still within real_size, the size of the new block, and the bytes in
  -- front that fit in the new size are kept.
  pub buffer_realloc-Resized :
      (0 < n) ⊎ (b.pol ≡ bp_economic)
      → b.real_size * 2 < 2 ^ 64
      → Resized b front n (buffer_realloc realloc b n)
  unfolding buffer_realloc
  buffer_realloc-Resized = by_policy b.pol refl
