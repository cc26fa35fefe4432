-- ===== src/HashFunctions/Permutation.antt =====
-- The table is a permutation, and so different bytes stay different through the rest of the data.
use Prim.Native.Nat.{bit_xor}
use interview.Base.{
  ℕ, zero, suc, ◌<◌, ◌≡◌, refl, sym, ap, ◌∙◌, Bool, true, ◌&&◌, List, [], ◌∷◌, ◌++◌, All, ltb, ◌==◌,
  if◌then◌else◌, arith,
}
use interview.Base.Bits.{bit_xor-cancel_left, bit_xor-cancel_right, bit_xor-bound}
use interview.HashFunctions.{pearson_permutation_table, permuted, mix}

abbrev all_below : ℕ → (ℕ → Bool) → Bool
all_below zero p = true
all_below (suc n) p = p n && all_below n p

below : (n : ℕ) (p : ℕ → Bool) (i : ℕ) → all_below n p ≡ true → i < n → p i ≡ true
below zero p i h lt = absurd (omega arith)
below (suc n) p i h lt = ground (arith, below n p i)

-- where `y` stands in a list
abbrev index_of : ℕ → List ℕ → ℕ
index_of y [] = 0
index_of y (x ∷ xs) = if y == x then 0 else suc (index_of y xs)

-- each byte stands in the table, where looking for its value finds it again
table_valid :
    all_below 256
      (λ i. (index_of (permuted i) pearson_permutation_table == i) && ltb (permuted i) 256)
    ≡ true
table_valid = refl

passed : (a i v : ℕ) → ((a == i) && ltb v 256) ≡ true → (a ≡ i) × (v < 256)
passed a i v e = (ground arith, ground arith)

pub checked :
    (i : ℕ) → i < 256 → (index_of (permuted i) pearson_permutation_table ≡ i) × (permuted i < 256)
checked i h = passed (index_of (permuted i) pearson_permutation_table) i (permuted i) (
    below 256 (λ i. (index_of (permuted i) pearson_permutation_table == i) && ltb (permuted i) 256)
      i table_valid h)

pub permuted-injective : (a b : ℕ) → a < 256 → b < 256 → permuted a ≡ permuted b → a ≡ b
permuted-injective a b ha hb e =
    sym (checked a ha).0 ∙ ap (λ y. index_of y pearson_permutation_table) e ∙ (checked b hb).0

pub mix-bound : (h : ℕ) (xs : List ℕ) → h < 256 → All (λ x. x < 256) xs → mix h xs < 256
unfolding mix
mix-bound h [] small bytes = small
mix-bound h (x ∷ xs) small bytes =
    mix-bound (permuted (bit_xor h x)) xs
      (checked (bit_xor h x) (bit_xor-bound 8 h x small bytes.0)).1 bytes.1

-- different bytes, in front of the same data
pub mix-injective :
    (a b : ℕ) (xs : List ℕ)
    → a < 256
    → b < 256
    → All (λ x. x < 256) xs
    → mix a xs ≡ mix b xs
    → a ≡ b
unfolding mix
mix-injective a b [] ha hb bytes e = e
mix-injective a b (x ∷ xs) ha hb bytes e =
    let small_a = bit_xor-bound 8 a x ha bytes.0 in
    let small_b = bit_xor-bound 8 b x hb bytes.0 in
    let mixed =
      mix-injective (permuted (bit_xor a x)) (permuted (bit_xor b x)) xs
        (checked (bit_xor a x) small_a).1 (checked (bit_xor b x) small_b).1 bytes.1 e in
    let same = permuted-injective (bit_xor a x) (bit_xor b x) small_a small_b mixed in
    sym (bit_xor-cancel_right a x) ∙ ap (λ k. bit_xor k x) same ∙ bit_xor-cancel_right b x

-- different bytes inside the data
pub mix-differs :
    (h : ℕ) (us : List ℕ) (a b : ℕ) (bs : List ℕ)
    → h < 256
    → All (λ x. x < 256) us
    → a < 256
    → b < 256
    → All (λ x. x < 256) bs
    → mix h (us ++ a ∷ bs) ≡ mix h (us ++ b ∷ bs)
    → a ≡ b
unfolding mix
mix-differs h [] a b bs small us_bytes ha hb bytes e =
    let small_a = bit_xor-bound 8 h a small ha in
    let small_b = bit_xor-bound 8 h b small hb in
    let mixed =
      mix-injective (permuted (bit_xor h a)) (permuted (bit_xor h b)) bs
        (checked (bit_xor h a) small_a).1 (checked (bit_xor h b) small_b).1 bytes e in
    let same = permuted-injective (bit_xor h a) (bit_xor h b) small_a small_b mixed in
    sym (bit_xor-cancel_left h a) ∙ ap (bit_xor h) same ∙ bit_xor-cancel_left h b
mix-differs h (u ∷ us) a b bs small us_bytes ha hb bytes e =
    mix-differs (permuted (bit_xor h u)) us a b bs
      (checked (bit_xor h u) (bit_xor-bound 8 h u small us_bytes.0)).1 us_bytes.1 ha hb bytes e
