-- ===== src/Vector/Shrink.antt =====
-- Removing elements: those behind them close the gap.
use interview.Base.{
  ℕ, ◌+◌, ◌-◌, ◌*◌, ◌%◌, ◌^◌, ◌<◌, ◌≡◌, refl, ap, ◌∙◌, inl, inr, false, Option, some, List, [], ◌∷◌,
  ◌++◌, length, length-append, append_assoc, drop, All-append, All-append_left, All-append_right,
  length-drop, arith, leb, Bool-cases, ◌==◌, ◌>>=◌, bind-eq_some,
}
use interview.Buffer.{Buffer, Realloc, buffer_realloc}
use interview.Buffer.Resize.{IsBuffer, IsRealloc, Resized, buffer_realloc-Resized}
use interview.Vector.{Vector, memmove, bytes_of, resize, vector_remove, vector_remove_range}
use interview.Vector.Elements.{concat, concat-append, Sized, bytes_of-length, IsVector}
use interview.Vector.Moves.{memmove_down}

-- the outcome of an operation that makes `v` the vector of `es`
pub record Became (v : Vector) (es : List (List ℕ)) (o : Option Vector) : Type 0 where
  pub vector : Vector
  pub returns : o ≡ some vector
  pub valid : IsVector vector es
  pub element_size : vector.element_size ≡ v.element_size

pub resize-Resized :
    (realloc : Realloc) (b : Buffer) (front : List ℕ) (n : ℕ)
    → (i : Resized b front n (buffer_realloc realloc b n)) → resize realloc b n ≡ some i.buffer
unfolding resize
resize-Resized realloc b front n i = rw (i.returns) refl

module _ {realloc : Realloc} (lawful : IsRealloc realloc) (v : Vector) (us ms bs : List (List ℕ))
    (valid : IsVector v (us ++ (ms ++ bs))) (small : v.buffer.real_size * 2 < 2 ^ 64) where
  split : v.buffer.bytes ≡ concat us ++ (concat ms ++ (concat bs ++ valid.rest))
  split = valid.bytes ∙ simp (concat-append us (ms ++ bs), concat-append ms bs, append_assoc) refl

  -- the lengths of the parts
  lengths :
      length (concat us) + (length (concat ms) + (length (concat bs) + length (valid.rest)))
      ≡ v.buffer.real_size
  lengths = omega (
    arith,
    valid.buffer.whole,
    ap (length {A = ℕ}) split,
    length-append (concat us) (concat ms ++ (concat bs ++ valid.rest)),
    length-append (concat ms) (concat bs ++ valid.rest),
    length-append (concat bs) valid.rest,
  )

  abbrev tail : List ℕ
  tail = drop (length (concat bs)) (concat ms ++ (concat bs ++ valid.rest))

  abbrev closed : Buffer
  closed = record v.buffer { bytes = concat us ++ (concat bs ++ tail) }

  closes :
      memmove
        (length (concat us))
        (length (concat us) + length (concat ms))
        (length (concat bs))
        v.buffer.bytes
      ≡ some closed.bytes
  closes =
      ap
        (memmove (length (concat us)) (length (concat us) + length (concat ms))
          (length (concat bs)))
        split
      ∙ memmove_down (concat us) (concat ms) (concat bs) valid.rest

  closed-IsBuffer : IsBuffer closed
  closed-IsBuffer =
      let behind = concat ms ++ (concat bs ++ valid.rest) in
      let long = length-append (concat ms) (concat bs ++ valid.rest) in
      let longer = length-append (concat bs) valid.rest in
      record {
        whole = omega (
          arith,
          lengths,
          length-append (concat us) (concat bs ++ tail),
          length-append (concat bs) tail,
          length-drop (length (concat bs)) behind (omega (arith, long, longer)),
          long,
          longer,
        );
        within = valid.buffer.within;
      }

  shrinks :
      Resized closed
        (concat (us ++ bs))
        (length (concat (us ++ bs)))
        (buffer_realloc realloc closed (length (concat (us ++ bs))))
  shrinks =
      buffer_realloc-Resized lawful closed (concat (us ++ bs)) tail (length (concat (us ++ bs)))
        closed-IsBuffer (simp (concat-append us bs, append_assoc) refl) (omega arith)
        (inr valid.policy) small

  abbrev shrunk : ℕ → Vector
  shrunk count = record v { count = count; buffer = shrinks.buffer }

  Sized-us : Sized v.element_size us
  Sized-us = All-append_left (λ e. length e ≡ v.element_size) us (ms ++ bs) valid.sized

  Sized-rest : Sized v.element_size (ms ++ bs)
  Sized-rest = All-append_right (λ e. length e ≡ v.element_size) us (ms ++ bs) valid.sized

  Sized-ms : Sized v.element_size ms
  Sized-ms = All-append_left (λ e. length e ≡ v.element_size) ms bs Sized-rest

  Sized-bs : Sized v.element_size bs
  Sized-bs = All-append_right (λ e. length e ≡ v.element_size) ms bs Sized-rest

  sized : Sized v.element_size (us ++ bs)
  sized = All-append (λ e. length e ≡ v.element_size) us bs Sized-us Sized-bs

  shrunk-IsVector : (count : ℕ) → count ≡ length (us ++ bs) → IsVector (shrunk count) (us ++ bs)
  shrunk-IsVector count e = record {
    sized = sized;
    counted = e;
    rest = shrinks.back;
    bytes = shrinks.kept;
    buffer = shrinks.valid;
    policy = shrinks.policy ∙ valid.policy;
  }

  lengths_all : length (concat (us ++ bs)) ≡ length (concat us) + length (concat bs)
  lengths_all = ap (length {A = ℕ}) (concat-append us bs) ∙ length-append (concat us) (concat bs)

  counts : v.count ≡ length us + (length ms + length bs)
  counts = omega (arith, valid.counted, length-append us (ms ++ bs), length-append ms bs)

  remaining : length (us ++ bs) ≡ length us + length bs
  remaining = length-append us bs

  sizes :
      (length (concat us) < 2 ^ 64)
      × (length (concat bs) < 2 ^ 64)
      × (length (concat ms) < 2 ^ 64)
      × (length (concat (us ++ bs)) < 2 ^ 64)
  sizes = (
    omega (arith, lengths),
    omega (arith, lengths),
    omega (arith, lengths),
    omega (arith, lengths, lengths_all),
  )

  -- the block after `memmove` and `realloc`
  moved :
      (pos gap shift n : ℕ)
      → pos ≡ length us
      → gap ≡ length (concat ms)
      → shift ≡ length bs
      → n ≡ length (us ++ bs)
      → (memmove
            (bytes_of pos v.element_size)
            (bytes_of pos v.element_size + gap)
            (bytes_of shift v.element_size)
            v.buffer.bytes
          >>= λ bytes.
              resize realloc (record v.buffer { bytes = bytes }) (bytes_of n v.element_size))
        ≡ some shrinks.buffer
  moved pos gap shift n p g s e =
      rw
        (
          bytes_of-length v.element_size us Sized-us sizes.0 pos p,
          g,
          bytes_of-length v.element_size bs Sized-bs sizes.1 shift s,
          bytes_of-length v.element_size (us ++ bs) sized sizes.3 n e,
        )
        (rw (closes, ◌>>=◌)
          (resize-Resized realloc closed (concat (us ++ bs)) (length (concat (us ++ bs))) shrinks))

module _ {realloc : Realloc} (lawful : IsRealloc realloc) (v : Vector)
    (small : v.buffer.real_size * 2 < 2 ^ 64) where
  -- With a realloc that finds memory and keeps the bytes that fit, a block whose size can be doubled
  -- without overflow and a count below 2 ^ 64: vector_remove_range of as many elements as ms from the index of the first of them, with the elements us in front and bs behind,
  -- succeeds, and makes the vector the vector of us and bs; of no elements, it does nothing.
  pub vector_remove_range-Became :
      (us ms bs : List (List ℕ))
      → IsVector v (us ++ (ms ++ bs))
      → v.count < 2 ^ 64
      → Became v (us ++ bs) (vector_remove_range realloc v (length us) (length ms))
  unfolding vector_remove_range
  vector_remove_range-Became us [] bs valid room = record {
    vector = v;
    returns = refl;
    valid = valid;
    element_size = refl;
  }
  vector_remove_range-Became us (e ∷ r) bs valid room =
      let ms = e ∷ r in
      let n = counts lawful v us ms bs valid small in
      let left = remaining lawful v us ms bs valid small in
      let some_ : (length ms == 0) ≡ false = ground arith in
      let inside : leb v.count (length us) ≡ false = ground (arith, n) in
      let last : leb v.count ((length us + length ms - 1) % 2 ^ 64) ≡ false =
        ground (arith, n, room) in
      let rest = v.count - length ms in
      let size = v.element_size in
      let gap =
        bytes_of-length size ms (Sized-ms lawful v us ms bs valid small)
          (sizes lawful v us ms bs valid small).2 (length ms) refl in
      let found =
        moved lawful v us ms bs valid small (length us) (bytes_of (length ms) size)
          (rest - length us) rest refl gap (omega (arith, n)) (omega (arith, n, left)) in
      let (bytes, first, second) =
        bind-eq_some
          (memmove (bytes_of (length us) size)
            (bytes_of (length us) size + bytes_of (length ms) size)
            (bytes_of (rest - length us) size) v.buffer.bytes)
          (λ bytes. resize realloc (record v.buffer { bytes = bytes }) (bytes_of rest size))
          found in
      record {
        vector = shrunk lawful v us ms bs valid small rest;
        returns = rw (some_, inside, last) (rw (first, ◌>>=◌) (rw (second, ◌>>=◌) refl));
        valid = shrunk-IsVector lawful v us ms bs valid small rest (omega (arith, n, left));
        element_size = refl;
      }

-- vector_remove of an index and vector_remove_range of one element from that index are the same, with
-- any realloc, of any vector whose element size and count are below 2 ^ 64, failures included.
vector_remove-range :
    (realloc : Realloc) (v : Vector) (idx : ℕ)
    → v.element_size < 2 ^ 64
    → v.count < 2 ^ 64
    → vector_remove realloc v idx ≡ vector_remove_range realloc v idx 1
unfolding vector_remove vector_remove_range
vector_remove-range realloc v idx narrow few = elim (Bool-cases (leb v.count idx)) [
  | inl out ↦ rw out refl
  | inr inside ↦
      let last : leb v.count ((idx + 1 - 1) % 2 ^ 64) ≡ false = ground arith in
      let one : bytes_of 1 v.element_size ≡ v.element_size = omega (arith, narrow) in
      rw (inside, last, one) refl
]
