-- ===== src/Vector/Access.antt =====
-- Reading the elements of a vector, and stepping from one to the next.
use native.Mathlib.Nat.{mul-mod_left}
use interview.Base.{
  ℕ, zero, suc, ◌+◌, ◌-◌, ◌*◌, ◌%◌, ◌^◌, ◌≤◌, ◌<◌, ◌≡◌, refl, sym, ap, ◌∙◌, true, false, some, List,
  ◌∷◌, ◌++◌, length, length-append, append_assoc, take, drop, take-append, drop-append,
  All-append_left, All-append_right, arith, ltb, leb, ◌==◌, ◌>>=◌, if◌then◌else◌,
}
use interview.Vector.{
  Vector, bytes_of, vector_begin, vector_end, vector_get, vector_next, vector_prev, assert_element,
}
use interview.Vector.Elements.{
  concat, concat-append, Sized, length-concat, bytes_of-length, IsVector,
}

step_back :
    (block size n : ℕ)
    → 0 < size
    → (if (block + n * size) == block then block + n * size else block + n * size - size)
      ≡ block + (n - 1) * size
step_back block size zero positive =
    let none_ : block + 0 * size ≡ block = omega arith in
    let same : ((block + 0 * size) == block) ≡ true = ground (arith, none_) in rw same (omega arith)
step_back block size (suc n) positive =
    let further : ((block + suc n * size) == block) ≡ false = ground (arith, positive) in
    let one : suc n - 1 ≡ n = omega arith in
    let less : block + suc n * size - size ≡ block + n * size = omega arith in
    rw further (less ∙ ap (λ k. block + k * size) (sym one))

module _ (v : Vector) (us : List (List ℕ)) (e : List ℕ) (bs : List (List ℕ))
    (valid : IsVector v (us ++ e ∷ bs)) (small : v.buffer.real_size < 2 ^ 64) where
  Sized-us : Sized v.element_size us
  Sized-us = All-append_left (λ e. length e ≡ v.element_size) us (e ∷ bs) valid.sized

  Sized-e : length e ≡ v.element_size
  Sized-e = (All-append_right (λ e. length e ≡ v.element_size) us (e ∷ bs) valid.sized).0

  split : v.buffer.bytes ≡ concat us ++ (e ++ (concat bs ++ valid.rest))
  split = valid.bytes ∙ simp (concat-append us (e ∷ bs), append_assoc) refl

  fits : length (concat us) + v.element_size ≤ v.buffer.real_size
  fits = omega (
    arith,
    valid.buffer.whole,
    ap (length {A = ℕ}) split,
    length-append (concat us) (e ++ (concat bs ++ valid.rest)),
    length-append e (concat bs ++ valid.rest),
    Sized-e,
  )

  position : length (concat us) ≡ length us * v.element_size
  position = length-concat v.element_size us Sized-us

  offset : bytes_of (length us) v.element_size ≡ length us * v.element_size
  offset = omega (arith, position, fits, small)

  vector_get-element :
      (vector_get v (length us) ≡ some (vector_begin v + length us * v.element_size))
      × (take v.element_size (drop (length us * v.element_size) v.buffer.bytes) ≡ e)
  unfolding vector_get vector_begin
  vector_get-element =
      let inside : leb v.count (length us) ≡ false =
        ground (arith, valid.counted, length-append us (e ∷ bs)) in
      (
        rw inside (ap (λ k. some (v.buffer.block + k)) offset),
        ap (λ k. take v.element_size (drop k v.buffer.bytes)) (sym position)
            ∙ ap (λ z. take v.element_size (drop (length (concat us)) z)) split
            ∙ ap (take v.element_size) (drop-append (concat us) (e ++ (concat bs ++ valid.rest)))
            ∙ ap (λ k. take k (e ++ (concat bs ++ valid.rest))) (sym Sized-e)
            ∙ take-append e (concat bs ++ valid.rest),
      )

  ends : length (concat us) + v.element_size ≤ bytes_of v.count v.element_size
  ends =
      let all = us ++ e ∷ bs in
      let whole = ap (length {A = ℕ}) (concat-append us (e ∷ bs)) in
      let fits_all : length (concat all) < 2 ^ 64 = omega (
        arith,
        small,
        valid.buffer.whole,
        ap (length {A = ℕ}) valid.bytes,
        length-append (concat all) valid.rest,
      ) in
      omega (
        arith,
        bytes_of-length v.element_size all valid.sized fits_all v.count valid.counted,
        whole,
        length-append (concat us) (e ++ concat bs),
        length-append e (concat bs),
        Sized-e,
      )

  asserted :
      (p : 0 < v.element_size)
      → assert_element v (vector_begin v + length us * v.element_size) ≡ some tt
  unfolding assert_element vector_begin vector_end
  asserted positive =
      let d = v.buffer.block + length us * v.element_size in
      let some_ : (v.element_size == 0) ≡ false = ground arith in
      let above : ltb d v.buffer.block ≡ false = ground arith in
      let below : leb (v.buffer.block + bytes_of v.count v.element_size) d ≡ false =
        ground (arith, ends, position) in
      let whole : ((d - v.buffer.block) % v.element_size == 0) ≡ true =
        let offset_ : (v.buffer.block + length us * v.element_size) - v.buffer.block
            ≡ length us * v.element_size =
          omega arith in
        ap (λ k. (k % v.element_size) == 0) offset_
        ∙ ap (λ k. k == 0) (mul-mod_left (length us) v.element_size) in
      rw (some_, above, below, whole) refl

  vector_next-prev :
      0 < v.element_size
      → (vector_next v (vector_begin v + length us * v.element_size)
          ≡ some (vector_begin v + (length us + 1) * v.element_size))
        × (vector_prev v (vector_begin v + length us * v.element_size)
            ≡ some (vector_begin v + (length us - 1) * v.element_size))
  unfolding vector_next vector_prev vector_begin
  vector_next-prev positive =
      let ok = asserted positive in
      let next : vector_begin v + length us * v.element_size + v.element_size
          ≡ vector_begin v + (length us + 1) * v.element_size =
        omega arith in
      (
        rw (ok, ◌>>=◌) (ap (λ k. some k) next),
        rw (ok, ◌>>=◌)
            (ap (λ k. some k) (step_back (vector_begin v) v.element_size (length us) positive)),
      )

  -- Of an element e of a vector whose block has less than 2 ^ 64 bytes and whose elements have at least
  -- one, with the elements us in front of e: vector_get at its index returns the address behind the
  -- bytes of us, where the bytes of e stand; vector_next of that address returns the address one
  -- element further on, and vector_prev that one element before, or the same for the first element.
  vector_access :
      0 < v.element_size
      → (vector_get v (length us) ≡ some (vector_begin v + length us * v.element_size))
        × (take v.element_size (drop (length us * v.element_size) v.buffer.bytes) ≡ e)
        × (vector_next v (vector_begin v + length us * v.element_size)
            ≡ some (vector_begin v + (length us + 1) * v.element_size))
        × (vector_prev v (vector_begin v + length us * v.element_size)
            ≡ some (vector_begin v + (length us - 1) * v.element_size))
  vector_access positive =
      let (found, bytes) = vector_get-element in
      let (next, prev) = vector_next-prev positive in (found, bytes, next, prev)
