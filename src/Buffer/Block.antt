-- ===== src/Buffer/Block.antt =====
-- Whether a change of the size moves the block.
use mathlib.Core.Path.{subst}
use interview.Base.{
  ◌≤◌, ℕ, ◌*◌, ◌/◌, ◌%◌, ◌^◌, ◌<◌, ◌≡◌, ◌≢◌, ◌⊎◌, inl, inr, refl, sym, ap, ◌∙◌, true, false, some,
  List, ltb, if◌then◌else◌, arith, Option-cases,
}
use interview.Buffer.{
  bp_economic, Buffer, Realloc, clamp_offset, take_block, realloc_economic, reallocer,
  buffer_realloc,
}

-- where the block has room and is not too large, it is not resized
pub buffer_realloc-roomy :
    (realloc : Realloc) (b : Buffer) (n : ℕ)
    → b.pol ≡ bp_economic
    → n ≤ b.real_size
    → b.real_size / 4 ≤ n
    → (buffer_realloc realloc b n).0.block ≡ b.block
unfolding buffer_realloc reallocer realloc_economic clamp_offset
buffer_realloc-roomy realloc b n economic room not_large =
    let q : ltb n (b.real_size / 4) ≡ false = ground (arith, not_large) in
    let p : ltb b.real_size n ≡ false = ground (arith, room) in
    ap (λ p. (reallocer p realloc b n).0.block) economic ∙ rw (q, p) refl

-- and where it moves a block, to grow it, buffer_realloc does
module _ (realloc : Realloc) (b : Buffer)
    (moves : (n : ℕ) (r : ℕ × List ℕ) → realloc b.block b.bytes n ≡ some r → r.0 ≢ b.block) where
  economic-moved :
      (n : ℕ)
      → b.real_size < n
      → ((realloc_economic realloc b n).1 ≡ false)
        ⊎ ((realloc_economic realloc b n).0.block ≢ b.block)
  unfolding realloc_economic take_block clamp_offset
  economic-moved n above =
      let q : ltb n (b.real_size / 4) ≡ false = ground arith in
      let p : ltb b.real_size n ≡ true = ground arith in
      let rs = if ltb n (b.real_size * 2 % 2 ^ 64) then b.real_size * 2 % 2 ^ 64 else n in
      elim (Option-cases (realloc b.block b.bytes rs)) [
        | inl e ↦ rw (q, p, e) (inl refl)
        | inr e ↦ rw (q, p, e.1) (inr (moves rs e.0 e.1))
      ]

  pub buffer_realloc-moved :
      (n : ℕ)
      → b.pol ≡ bp_economic
      → b.real_size < n
      → ((buffer_realloc realloc b n).1 ≡ false) ⊎ ((buffer_realloc realloc b n).0.block ≢ b.block)
  unfolding buffer_realloc reallocer
  buffer_realloc-moved n e above =
      subst
        (λ p. ((reallocer p realloc b n).1 ≡ false) ⊎ ((reallocer p realloc b n).0.block ≢ b.block))
        (sym e) (economic-moved n above)
