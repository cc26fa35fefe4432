-- ===== src/HashFunctions/Bytes.antt =====
-- The bytes of a hash, and that a change of one byte of the data changes it.
use Prim.Native.Nat.{bit_and, bit_or}
use interview.Base.{
  ℕ, ◌+◌, ◌*◌, ◌%◌, ◌^◌, ◌<◌, ◌≡◌, ◌≢◌, refl, sym, ap, ◌∙◌, some, some_inj, List, [], ◌∷◌, ◌++◌,
  All, All-append, arith,
}
use interview.Base.Bits.{bit_or-disjoint, bit_and-byte}
use interview.HashFunctions.{permuted, mix, hash_byte, hash_loop, hash_pearson}
use interview.HashFunctions.Permutation.{
  checked, mix-bound, mix-injective, mix-differs, permuted-injective,
}

module _ (x : ℕ) (xs : List ℕ) (bytes : All (λ x. x < 256) xs) where
  hash_byte-bound : (j : ℕ) → hash_byte j x xs < 256
  unfolding hash_byte
  hash_byte-bound j =
      let small : bit_and (x + j) 0xff < 256 = omega (arith, bit_and-byte (x + j)) in
      mix-bound (permuted (bit_and (x + j) 0xff)) xs (checked (bit_and (x + j) 0xff) small).1 bytes

  -- one more byte above the `k` bits of the hash
  higher :
      (k hash h : ℕ)
      → hash < 2 ^ k
      → h * 2 ^ k < 2 ^ 64
      → bit_or hash (h * 2 ^ k % 2 ^ 64) ≡ hash + h * 2 ^ k
  higher k hash h small fits =
      let e : h * 2 ^ k % 2 ^ 64 ≡ h * 2 ^ k = omega (arith, fits) in
      ap (bit_or hash) e ∙ bit_or-disjoint k hash h small

  -- The hash of data that are bytes, with at least one, is below 2 ^ 64, and its byte of every index j
  -- below 8 is the value of the j-th round.
  hash_pearson-bytes :
      hash_pearson (x ∷ xs)
      ≡ some (
          hash_byte 0 x xs
          + hash_byte 1 x xs * 2 ^ 8
          + hash_byte 2 x xs * 2 ^ 16
          + hash_byte 3 x xs * 2 ^ 24
          + hash_byte 4 x xs * 2 ^ 32
          + hash_byte 5 x xs * 2 ^ 40
          + hash_byte 6 x xs * 2 ^ 48
          + hash_byte 7 x xs * 2 ^ 56)
  unfolding hash_pearson hash_loop
  hash_pearson-bytes =
      let b0 = hash_byte 0 x xs in
      let b1 = hash_byte 1 x xs in
      let b2 = hash_byte 2 x xs in
      let b3 = hash_byte 3 x xs in
      let b4 = hash_byte 4 x xs in
      let b5 = hash_byte 5 x xs in
      let b6 = hash_byte 6 x xs in
      let b7 = hash_byte 7 x xs in
      let h0 = hash_byte-bound 0 in
      let h1 = hash_byte-bound 1 in
      let h2 = hash_byte-bound 2 in
      let h3 = hash_byte-bound 3 in
      let h4 = hash_byte-bound 4 in
      let h5 = hash_byte-bound 5 in
      let h6 = hash_byte-bound 6 in
      let h7 = hash_byte-bound 7 in
      let s0 : bit_or 0 (b0 * 1 % 2 ^ 64) ≡ b0 =
        higher 0 0 b0 (omega arith) (omega (arith, h0)) ∙ omega arith in
      let s1 : bit_or (b0) (b1 * 2 ^ 8 % 2 ^ 64) ≡ b0 + b1 * 2 ^ 8 =
        higher 8 (b0) b1 (omega (arith, h0)) (omega (arith, h1)) in
      let s2 : bit_or (b0 + b1 * 2 ^ 8) (b2 * 2 ^ 16 % 2 ^ 64) ≡ b0 + b1 * 2 ^ 8 + b2 * 2 ^ 16 =
        higher 16 (b0 + b1 * 2 ^ 8) b2 (omega (arith, h0, h1)) (omega (arith, h2)) in
      let s3 : bit_or (b0 + b1 * 2 ^ 8 + b2 * 2 ^ 16) (b3 * 2 ^ 24 % 2 ^ 64)
          ≡ b0 + b1 * 2 ^ 8 + b2 * 2 ^ 16 + b3 * 2 ^ 24 =
        higher 24 (b0 + b1 * 2 ^ 8 + b2 * 2 ^ 16) b3 (omega (arith, h0, h1, h2))
          (omega (arith, h3)) in
      let s4 : bit_or (b0 + b1 * 2 ^ 8 + b2 * 2 ^ 16 + b3 * 2 ^ 24) (b4 * 2 ^ 32 % 2 ^ 64)
          ≡ b0 + b1 * 2 ^ 8 + b2 * 2 ^ 16 + b3 * 2 ^ 24 + b4 * 2 ^ 32 =
        higher 32 (b0 + b1 * 2 ^ 8 + b2 * 2 ^ 16 + b3 * 2 ^ 24) b4 (omega (arith, h0, h1, h2, h3))
          (omega (arith, h4)) in
      let s5 : bit_or (b0 + b1 * 2 ^ 8 + b2 * 2 ^ 16 + b3 * 2 ^ 24 + b4 * 2 ^ 32)
            (b5 * 2 ^ 40 % 2 ^ 64)
          ≡ b0 + b1 * 2 ^ 8 + b2 * 2 ^ 16 + b3 * 2 ^ 24 + b4 * 2 ^ 32 + b5 * 2 ^ 40 =
        higher 40 (b0 + b1 * 2 ^ 8 + b2 * 2 ^ 16 + b3 * 2 ^ 24 + b4 * 2 ^ 32) b5
          (omega (arith, h0, h1, h2, h3, h4)) (omega (arith, h5)) in
      let s6 : bit_or (b0 + b1 * 2 ^ 8 + b2 * 2 ^ 16 + b3 * 2 ^ 24 + b4 * 2 ^ 32 + b5 * 2 ^ 40)
            (b6 * 2 ^ 48 % 2 ^ 64)
          ≡ b0 + b1 * 2 ^ 8 + b2 * 2 ^ 16 + b3 * 2 ^ 24 + b4 * 2 ^ 32 + b5 * 2 ^ 40 + b6 * 2 ^ 48 =
        higher 48 (b0 + b1 * 2 ^ 8 + b2 * 2 ^ 16 + b3 * 2 ^ 24 + b4 * 2 ^ 32 + b5 * 2 ^ 40) b6
          (omega (arith, h0, h1, h2, h3, h4, h5)) (omega (arith, h6)) in
      let s7 : bit_or
            (b0 + b1 * 2 ^ 8 + b2 * 2 ^ 16 + b3 * 2 ^ 24 + b4 * 2 ^ 32 + b5 * 2 ^ 40 + b6 * 2 ^ 48)
            (b7 * 2 ^ 56 % 2 ^ 64)
          ≡ b0
            + b1 * 2 ^ 8
            + b2 * 2 ^ 16
            + b3 * 2 ^ 24
            + b4 * 2 ^ 32
            + b5 * 2 ^ 40
            + b6 * 2 ^ 48
            + b7 * 2 ^ 56 =
        higher 56
          (b0 + b1 * 2 ^ 8 + b2 * 2 ^ 16 + b3 * 2 ^ 24 + b4 * 2 ^ 32 + b5 * 2 ^ 40 + b6 * 2 ^ 48) b7
          (omega (arith, h0, h1, h2, h3, h4, h5, h6)) (omega (arith, h7)) in
      simp (s0, s1, s2, s3, s4, s5, s6, s7) refl

first_byte :
    (x y : ℕ) (xs ys : List ℕ)
    → All (λ x. x < 256) xs
    → All (λ x. x < 256) ys
    → hash_pearson (x ∷ xs) ≡ hash_pearson (y ∷ ys)
    → hash_byte 0 x xs ≡ hash_byte 0 y ys
first_byte x y xs ys hx hy e =
    let same = some_inj (sym (hash_pearson-bytes x xs hx) ∙ e ∙ hash_pearson-bytes y ys hy) in
    omega (arith, same, hash_byte-bound x xs hx 0, hash_byte-bound y ys hy 0)

hash_byte-mix : (x : ℕ) (xs : List ℕ) → x < 256 → hash_byte 0 x xs ≡ mix (permuted x) xs
unfolding hash_byte
hash_byte-mix x xs small =
    let e : bit_and (x + 0) 0xff ≡ x = omega (arith, bit_and-byte (x + 0), small) in
    ap (λ k. mix (permuted k) xs) e

-- Two data of bytes, of the same length, that differ in exactly one byte have different hashes.
pub hash_pearson-differs :
    (us : List ℕ) (a b : ℕ) (bs : List ℕ)
    → All (λ x. x < 256) us
    → a < 256
    → b < 256
    → All (λ x. x < 256) bs
    → a ≢ b
    → hash_pearson (us ++ a ∷ bs) ≢ hash_pearson (us ++ b ∷ bs)
hash_pearson-differs [] a b bs us_bytes ha hb bytes ne e =
    let mixed =
      sym (hash_byte-mix a bs ha) ∙ first_byte a b bs bs bytes bytes e ∙ hash_byte-mix b bs hb in
    let same =
      mix-injective (permuted a) (permuted b) bs (checked a ha).1 (checked b hb).1 bytes mixed in
    ne (permuted-injective a b ha hb same)
hash_pearson-differs (u ∷ us) a b bs us_bytes ha hb bytes ne e =
    let bytes_a = All-append (λ x. x < 256) us (a ∷ bs) us_bytes.1 (ha, bytes) in
    let bytes_b = All-append (λ x. x < 256) us (b ∷ bs) us_bytes.1 (hb, bytes) in
    let mixed =
      sym (hash_byte-mix u (us ++ a ∷ bs) us_bytes.0)
      ∙ first_byte u u (us ++ a ∷ bs) (us ++ b ∷ bs) bytes_a bytes_b e
      ∙ hash_byte-mix u (us ++ b ∷ bs) us_bytes.0 in
    ne (mix-differs (permuted u) us a b bs (checked u us_bytes.0).1 us_bytes.1 ha hb bytes mixed)
