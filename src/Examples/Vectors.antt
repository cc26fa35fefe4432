-- ===== src/Examples/Vectors.antt =====
-- A buffer and a vector of supertel/lib/containers.c: two elements of two bytes in a block of six.
use interview.Base.{
  ℕ, zero, suc, ◌+◌, ◌-◌, ◌≤◌, ◌≡◌, refl, sym, ap, ◌∙◌, inl, some, List, [], ◌∷◌, ◌++◌, arith,
  length, take, length-append, length-take, take-append_add, append_assoc, some_inj,
}
use interview.Buffer.{Buffer, bp_economic, Realloc, buffer_realloc}
use interview.Buffer.Resize.{IsRealloc, IsBuffer, Resized, buffer_realloc-Resized}
use interview.Vector.{Vector, vector_remove_range, vector_insert}
use interview.Vector.Elements.{IsVector}
use interview.Vector.Shrink.{Became, vector_remove_range-Became}
use interview.Vector.Grow.{Added}
use interview.Vector.Insert.{vector_insert-Added}

abbrev zeros : ℕ → List ℕ
zeros zero = []
zeros (suc n) = 0 ∷ zeros n

length-zeros : (n : ℕ) → length (zeros n) ≡ n
length-zeros zero = refl
length-zeros (suc n) = omega (arith, length-zeros n)

-- a realloc that extends a block in its place
abbrev in_place : Realloc
in_place block bytes n = some (block, take n (bytes ++ zeros n))

-- and one that always moves it
abbrev elsewhere : Realloc
elsewhere block bytes n = some (block + 100, take n (bytes ++ zeros n))

in_place-keeps :
    (block : ℕ) (front back : List ℕ) (n : ℕ) (r : ℕ × List ℕ)
    → length front ≤ n
    → in_place block (front ++ back) n ≡ some r
    → (back' : List ℕ) × (r.1 ≡ front ++ back') × (length r.1 ≡ n)
in_place-keeps block front back n r fits e =
    let all = (front ++ back) ++ zeros n in
    let found : r.1 ≡ take n all = ap (λ z. z.1) (sym (some_inj e)) in
    let parts : n ≡ length front + (n - length front) = omega (arith, fits) in
    (
      take (n - length front) (back ++ zeros n),
      found
          ∙ ap (take n) (append_assoc front back (zeros n))
          ∙ ap (λ k. take k (front ++ (back ++ zeros n))) parts
          ∙ take-append_add front (back ++ zeros n) (n - length front),
      ap (length {A = ℕ}) found
          ∙ length-take n all
              (omega (arith, length-append (front ++ back) (zeros n), length-zeros n)),
    )

in_place-IsRealloc : IsRealloc in_place
in_place-IsRealloc = record {
  grants = λ block bytes n positive. ((block, take n (bytes ++ zeros n)), refl);
  keeps = in_place-keeps;
}

abbrev six_bytes : Buffer
six_bytes = record {
  pol = bp_economic;
  block = 1000;
  bytes = 1 ∷ 2 ∷ 3 ∷ 4 ∷ 0 ∷ 0 ∷ [];
  user_size = 4;
  real_size = 6;
  offset = 0;
}

six_bytes-IsBuffer : IsBuffer six_bytes
six_bytes-IsBuffer = record { whole = refl; within = omega arith }

abbrev two_pairs : Vector
two_pairs = record { buffer = six_bytes; element_size = 2; count = 2 }

two_pairs-IsVector : IsVector two_pairs ((1 ∷ 2 ∷ []) ∷ (3 ∷ 4 ∷ []) ∷ [])
two_pairs-IsVector = record {
  sized = (refl, (refl, tt));
  counted = refl;
  rest = 0 ∷ 0 ∷ [];
  bytes = refl;
  buffer = six_bytes-IsBuffer;
  policy = refl;
}

buffer_realloc-Resized_example :
    Resized six_bytes (1 ∷ 2 ∷ []) 3 (buffer_realloc in_place six_bytes 3)
buffer_realloc-Resized_example =
    buffer_realloc-Resized in_place-IsRealloc six_bytes (1 ∷ 2 ∷ []) (3 ∷ 4 ∷ 0 ∷ 0 ∷ []) 3
      six_bytes-IsBuffer refl (omega arith) (inl (omega arith)) (omega arith)

vector_remove_range-Became_example :
    Became two_pairs [] (vector_remove_range in_place two_pairs 0 2)
vector_remove_range-Became_example =
    vector_remove_range-Became in_place-IsRealloc two_pairs (omega arith) []
      ((1 ∷ 2 ∷ []) ∷ (3 ∷ 4 ∷ []) ∷ []) [] two_pairs-IsVector (omega arith)

-- the same elements in a block of eight bytes
abbrev roomy_pairs : Vector
roomy_pairs = record two_pairs {
  buffer = record six_bytes { bytes = 1 ∷ 2 ∷ 3 ∷ 4 ∷ 0 ∷ 0 ∷ 0 ∷ 0 ∷ []; real_size = 8 };
}

roomy_pairs-IsVector : IsVector roomy_pairs ((1 ∷ 2 ∷ []) ∷ (3 ∷ 4 ∷ []) ∷ [])
roomy_pairs-IsVector = record {
  sized = (refl, (refl, tt));
  counted = refl;
  rest = 0 ∷ 0 ∷ 0 ∷ 0 ∷ [];
  bytes = refl;
  buffer = record { whole = refl; within = omega arith };
  policy = refl;
}

vector_insert-Added_example :
    Added roomy_pairs ((1 ∷ 2 ∷ []) ∷ []) ((3 ∷ 4 ∷ []) ∷ []) (vector_insert in_place roomy_pairs 1)
vector_insert-Added_example =
    vector_insert-Added in_place-IsRealloc roomy_pairs (omega arith) (omega arith) (omega arith)
      ((1 ∷ 2 ∷ []) ∷ []) ((3 ∷ 4 ∷ []) ∷ []) roomy_pairs-IsVector (omega arith) (omega arith)
