-- ===== src/Vector/Grow.antt =====
-- A vector in a larger block, with room for a new element among the others.
use interview.Base.{
  ℕ, ◌+◌, ◌*◌, ◌^◌, ◌≤◌, ◌<◌, ◌≡◌, refl, ap, ◌∙◌, inr, Option, some, List, ◌∷◌, ◌++◌, length,
  length-append, append_assoc, take, drop, All-append, All-append_left, All-append_right,
  length-drop, length-take, arith,
}
use interview.Buffer.{Realloc, buffer_realloc}
use interview.Buffer.Resize.{IsRealloc, Resized, buffer_realloc-Resized}
use interview.Vector.{Vector, memmove}
use interview.Vector.Elements.{concat, concat-append, Sized, IsVector}
use interview.Vector.Moves.{memmove_up}

-- the outcome of an operation that makes `v` the vector of `us`, a new element and `bs`, and returns
-- the address of the new element, whose bytes are whatever stood there
pub record Added (v : Vector) (us bs : List (List ℕ)) (o : Option (Vector × ℕ)) : Type 0 where
  pub vector : Vector
  pub new : List ℕ
  pub returns : o ≡ some (vector, vector.buffer.block + length us * v.element_size)
  pub valid : IsVector vector (us ++ new ∷ bs)
  pub element_size : vector.element_size ≡ v.element_size

module _ {realloc : Realloc} (lawful : IsRealloc realloc) (v : Vector) (us bs : List (List ℕ))
    (valid : IsVector v (us ++ bs)) (small : v.buffer.real_size * 2 < 2 ^ 64) where
  pub whole_fits : length (concat (us ++ bs)) ≤ v.buffer.real_size
  whole_fits = omega (
    arith,
    valid.buffer.whole,
    ap (length {A = ℕ}) valid.bytes,
    length-append (concat (us ++ bs)) valid.rest,
  )

  -- the block at the size `n`, where `n` has room for one more element
  pub grows :
      (n : ℕ)
      → length (concat (us ++ bs)) + v.element_size ≤ n
      → Resized v.buffer (concat (us ++ bs)) n (buffer_realloc realloc v.buffer n)
  grows n room =
      buffer_realloc-Resized lawful v.buffer (concat (us ++ bs)) valid.rest n valid.buffer
        valid.bytes (omega (arith, room)) (inr valid.policy) small

  pub Sized-us : Sized v.element_size us
  Sized-us = All-append_left (λ e. length e ≡ v.element_size) us bs valid.sized

  pub Sized-bs : Sized v.element_size bs
  Sized-bs = All-append_right (λ e. length e ≡ v.element_size) us bs valid.sized

  module _ (n : ℕ) (room : length (concat (us ++ bs)) + v.element_size ≤ n) where
    abbrev pub rest : List ℕ
    rest = (grows n room).back

    abbrev pub behind : List ℕ
    behind = concat bs ++ rest

    abbrev pub gap : List ℕ
    gap = take v.element_size behind

    abbrev pub tail : List ℕ
    tail = drop (v.element_size + length (concat bs)) behind

    pub grown_bytes : (grows n room).buffer.bytes ≡ concat us ++ behind
    grown_bytes = (grows n room).kept ∙ simp (concat-append us bs, append_assoc) refl

    pub lengths :
        length (concat us) + (length (concat bs) + length rest) ≡ (grows n room).buffer.real_size
    lengths = omega (
      arith,
      (grows n room).valid.whole,
      ap (length {A = ℕ}) grown_bytes,
      length-append (concat us) behind,
      length-append (concat bs) rest,
    )

    pub lengths_old : length (concat (us ++ bs)) ≡ length (concat us) + length (concat bs)
    lengths_old = ap (length {A = ℕ}) (concat-append us bs) ∙ length-append (concat us) (concat bs)

    pub gap_fits : v.element_size ≤ length rest
    gap_fits =
        omega (arith, room, lengths, lengths_old, (grows n room).size, (grows n room).valid.within)

    pub gap-Sized : length gap ≡ v.element_size
    gap-Sized =
        length-take v.element_size behind (omega (arith, gap_fits, length-append (concat bs) rest))

    -- the elements behind the new one move up
    pub opens :
        memmove
          (length (concat us) + v.element_size)
          (length (concat us))
          (length (concat bs))
          (grows n room).buffer.bytes
        ≡ some (concat us ++ (gap ++ (concat bs ++ tail)))
    opens =
        ap (memmove (length (concat us) + v.element_size) (length (concat us)) (length (concat bs)))
          grown_bytes
        ∙ memmove_up (concat us) (concat bs) rest v.element_size gap_fits

    pub tail-length : length tail + v.element_size ≡ length rest
    tail-length =
        let long = length-append (concat bs) rest in
        omega (
          arith,
          gap_fits,
          long,
          length-drop (v.element_size + length (concat bs)) behind (omega (arith, gap_fits, long)),
        )

    pub added-IsVector :
        (bytes : List ℕ)
        → bytes ≡ concat us ++ (gap ++ (concat bs ++ tail))
        → (count : ℕ) → count ≡ length (us ++ bs) + 1
        → IsVector
            (record v { count = count; buffer = record (grows n room).buffer { bytes = bytes } })
            (us ++ gap ∷ bs)
    added-IsVector bytes e count c = record {
      sized =
          All-append (λ e. length e ≡ v.element_size) us (gap ∷ bs) Sized-us (gap-Sized, Sized-bs);
      counted = omega (arith, c, length-append us bs, length-append us (gap ∷ bs));
      rest = tail;
      bytes = e ∙ simp (concat-append us (gap ∷ bs), append_assoc) refl;
      buffer = record {
        whole = omega (
          arith,
          ap (length {A = ℕ}) e,
          length-append (concat us) (gap ++ (concat bs ++ tail)),
          length-append gap (concat bs ++ tail),
          length-append (concat bs) tail,
          gap-Sized,
          tail-length,
          lengths,
        );
        within = (grows n room).valid.within;
      };
      policy = (grows n room).policy ∙ valid.policy;
    }
