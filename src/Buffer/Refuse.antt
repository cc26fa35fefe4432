-- ===== src/Buffer/Refuse.antt =====
-- What a buffer is left with when realloc finds no memory.
use interview.Base.{
  ℕ, ◌*◌, ◌/◌, ◌%◌, ◌^◌, ◌≤◌, ◌<◌, ◌≡◌, ◌⊎◌, inl, inr, refl, Bool, true, none, ltb, if◌then◌else◌,
  arith, Bool-cases,
}
use interview.Buffer.{
  BufferPolicy, bp_shrinkable, bp_non_shrinkable, bp_economic, Buffer, Realloc, clamp_offset,
  take_block, realloc_shrinkable, realloc_nonshrinkable, realloc_economic, reallocer,
  buffer_realloc,
}

module _ (realloc : Realloc) (b : Buffer) (n : ℕ)
    (refused : (rs : ℕ) → realloc b.block b.bytes rs ≡ none) where
  -- the outcome of a change of the size without memory
  pub record Refused (o : Buffer × Bool) : Type 0 where
    pub block : o.0.block ≡ b.block
    pub bytes : o.0.bytes ≡ b.bytes
    pub real_size : o.0.real_size ≡ b.real_size
    pub user_size : o.0.user_size ≡ (if o.1 then n else b.user_size)
    pub within : o.0.user_size ≤ o.0.real_size

  denied :
      (rs : ℕ)
      → b.user_size ≤ b.real_size
      → Refused (take_block b n rs (realloc b.block b.bytes rs))
  unfolding take_block clamp_offset
  denied rs within =
      rw (refused rs)
        (record { block = refl; bytes = refl; real_size = refl; user_size = refl; within = within })

  kept_within : n ≤ b.real_size → Refused (clamp_offset (record b { user_size = n }) n, true)
  unfolding clamp_offset
  kept_within within = record {
    block = refl;
    bytes = refl;
    real_size = refl;
    user_size = refl;
    within = within;
  }

  unserved : (p : BufferPolicy) → b.user_size ≤ b.real_size → Refused (reallocer p realloc b n)
  unfolding reallocer realloc_shrinkable realloc_nonshrinkable realloc_economic
  unserved bp_shrinkable within = denied n within
  unserved bp_non_shrinkable within = elim (Bool-cases (ltb n b.real_size)) [
    | inl q ↦ rw q (record {
      block = refl;
      bytes = refl;
      real_size = refl;
      user_size = refl;
      within = ground arith;
    })
    | inr q ↦ rw q (denied n within)
  ]
  unserved bp_economic within = elim (Bool-cases (ltb n (b.real_size / 4))) [
    | inl q ↦ rw q (denied (b.real_size / 2) within)
    | inr q ↦ elim (Bool-cases (ltb b.real_size n)) [
      | inl p ↦
          let rs = if ltb n (b.real_size * 2 % 2 ^ 64) then b.real_size * 2 % 2 ^ 64 else n in
          rw (q, p) (denied rs within)
      | inr p ↦ rw (q, p) (kept_within (ground arith))
    ]
  ]

  -- Where realloc returns NULL for the block of a buffer whose user_size is within its real_size, and
  -- the new size is not 0, or 0 with the economic policy (a realloc to 0 bytes may free the block):
  -- buffer_realloc keeps the block, its bytes and real_size, under every policy; where it returns
  -- true the user_size is the new one, where it returns false the old one, and it is within
  -- real_size in both cases.
  buffer_realloc-Refused :
      (0 < n) ⊎ (b.pol ≡ bp_economic)
      → b.user_size ≤ b.real_size
      → Refused (buffer_realloc realloc b n)
  unfolding buffer_realloc
  buffer_realloc-Refused positive = unserved b.pol
