-- ===== src/Vector/Insert.antt =====
-- Adding elements at either end of a vector and inside it.
use mathlib.Core.Path.{subst}
use interview.Base.{
  ℕ, ◌+◌, ◌-◌, ◌*◌, ◌/◌, ◌%◌, ◌^◌, ◌≤◌, ◌<◌, ◌≡◌, ◌≢◌, refl, sym, ap, ◌∙◌, inl, inr, true, false,
  none, some, List, [], ◌++◌, length, length-append, append-nil, take, drop, All-append_left,
  take-drop, arith, ltb, Bool-cases, ◌⊎◌, ◌==◌, ◌>>=◌,
}
use interview.Buffer.{Buffer, bp_economic, Realloc, buffer_realloc}
use interview.Buffer.Resize.{IsRealloc}
use interview.Vector.{
  Vector, memmove, bytes_of, resize, vector_append, vector_prepend, vector_insert,
}
use interview.Vector.Elements.{concat, length-concat, bytes_of_comm, IsVector}
use interview.Vector.Shrink.{resize-Resized}
use interview.Buffer.Block.{buffer_realloc-roomy, buffer_realloc-moved}
use interview.Vector.Grow.{
  Added, grows, Sized-us, Sized-bs, gap, tail, grown_bytes, lengths_old, opens, added-IsVector,
}

module _ {realloc : Realloc} (lawful : IsRealloc realloc) (v : Vector)
    (small : v.buffer.real_size * 2 < 2 ^ 64) (narrow : v.element_size < 2 ^ 62)
    (room : v.count + 1 < 2 ^ 64) where
  abbrev filled : ℕ
  filled = bytes_of v.element_size v.count

  fits : (es : List (List ℕ)) → IsVector v es → length (concat es) ≤ v.buffer.real_size
  fits es valid = omega (
    arith,
    valid.buffer.whole,
    ap (length {A = ℕ}) valid.bytes,
    length-append (concat es) valid.rest,
  )

  filled-length : (es : List (List ℕ)) → IsVector v es → filled ≡ length (concat es)
  filled-length es valid =
      bytes_of_comm v.element_size es valid.sized (omega (arith, fits es valid)) v.count
        valid.counted

  -- the size of the vector with one more element
  abbrev larger : ℕ
  larger = (filled + v.element_size) % 2 ^ 64

  larger-fits : (es : List (List ℕ)) → IsVector v es → length (concat es) + v.element_size ≤ larger
  larger-fits es valid = omega (arith, filled-length es valid, fits es valid)

  position :
      (us bs : List (List ℕ))
      → IsVector v (us ++ bs)
      → length (concat us) ≡ length us * v.element_size
  position us bs valid =
      length-concat v.element_size us
        (All-append_left (λ e. length e ≡ v.element_size) us bs valid.sized)

  counted_up : (es : List (List ℕ)) → IsVector v es → (v.count + 1) % 2 ^ 64 ≡ length es + 1
  counted_up es valid = omega (arith, valid.counted)

  vector_append-Added :
      (es : List (List ℕ)) → IsVector v es → Added v es [] (vector_append realloc v)
  unfolding vector_append
  vector_append-Added es valid0 =
      let valid : IsVector v (es ++ []) = subst (IsVector v) (sym (append-nil es)) valid0 in
      let fit = larger-fits (es ++ []) valid in
      let i = grows lawful v es [] valid small larger fit in
      let zero_ : v.element_size + 0 ≡ v.element_size = omega arith in
      let whole =
        grown_bytes lawful v es [] valid small larger fit
        ∙ ap (λ z. concat es ++ z) (sym (take-drop v.element_size i.back))
        ∙ ap (λ k. concat es ++ (take v.element_size i.back ++ drop k i.back)) (sym zero_) in
      let at = filled-length es valid0 ∙ position es [] valid in
      let w : Vector = record v { count = (v.count + 1) % 2 ^ 64; buffer = i.buffer } in
      record {
        vector = w;
        new = gap lawful v es [] valid small larger fit;
        returns =
            rw (resize-Resized realloc v.buffer (concat (es ++ [])) larger i, ◌>>=◌)
              (ap (λ k. some (w, i.buffer.block + k)) at);
        valid =
            added-IsVector lawful v es [] valid small larger fit i.buffer.bytes whole
              ((v.count + 1) % 2 ^ 64) (counted_up (es ++ []) valid);
        element_size = refl;
      }

  vector_prepend-Added :
      (es : List (List ℕ)) → IsVector v es → Added v [] es (vector_prepend realloc v)
  unfolding vector_prepend
  vector_prepend-Added es valid =
      let fit = larger-fits es valid in
      let i = grows lawful v [] es valid small larger fit in
      let bytes =
        gap lawful v [] es valid small larger fit
        ++ (concat es ++ tail lawful v [] es valid small larger fit) in
      let zero_ : 0 + v.element_size ≡ v.element_size = omega arith in
      let moves : memmove v.element_size 0 filled i.buffer.bytes ≡ some bytes =
        ap (λ k. memmove v.element_size 0 k i.buffer.bytes) (filled-length es valid)
        ∙ ap (λ k. memmove k 0 (length (concat es)) i.buffer.bytes) (sym zero_)
        ∙ opens lawful v [] es valid small larger fit in
      let w : Vector = record v {
        count = (v.count + 1) % 2 ^ 64;
        buffer = record i.buffer { bytes = bytes };
      } in
      let at : i.buffer.block ≡ i.buffer.block + 0 * v.element_size = omega arith in
      record {
        vector = w;
        new = gap lawful v [] es valid small larger fit;
        returns =
            rw (resize-Resized realloc v.buffer (concat es) larger i, ◌>>=◌)
              (rw (moves, ◌>>=◌) (ap (λ a. some (w, a)) at));
        valid =
            added-IsVector lawful v [] es valid small larger fit bytes refl ((v.count + 1) % 2 ^ 64)
              (counted_up es valid);
        element_size = refl;
      }

  -- With a realloc that finds memory and keeps the bytes that fit, a block whose size can be doubled
  -- without overflow, an element size below 2 ^ 62 and a count that does not overflow: vector_append
  -- succeeds, makes the vector of es the vector of es and one new element behind them, and
  -- vector_prepend that of one new element and es behind it; each returns the address of the new
  -- element in the block.
  vector_ends-Added :
      (es : List (List ℕ))
      → IsVector v es
      → Added v es [] (vector_append realloc v) × Added v [] es (vector_prepend realloc v)
  vector_ends-Added es valid = (vector_append-Added es valid, vector_prepend-Added es valid)

  -- the size that vector_insert asks for: two more elements
  abbrev wider : ℕ
  wider = bytes_of v.element_size ((v.count + 1) % 2 ^ 64 + 1)

  wider-size :
      (es : List (List ℕ)) → IsVector v es → wider ≡ length (concat es) + 2 * v.element_size
  wider-size es valid =
      let n : (v.count + 1) % 2 ^ 64 + 1 ≡ length es + 2 = omega (arith, valid.counted) in
      ap (bytes_of v.element_size) n
      ∙ omega (arith, length-concat v.element_size es valid.sized, fits es valid)

  -- With a realloc that finds memory and keeps the bytes that fit, a block whose size can be doubled
  -- without overflow, an element size below 2 ^ 62 and a count that does not overflow, where the block
  -- has room for two more elements and a quarter of it is not more than that: vector_insert at the index behind the elements us and in front of the elements bs
  -- succeeds, makes the vector the vector of us, one new element and bs, and returns the address of
  -- the new element.
  pub vector_insert-Added :
      (us bs : List (List ℕ))
      → IsVector v (us ++ bs)
      → wider ≤ v.buffer.real_size
      → v.buffer.real_size / 4 ≤ wider
      → Added v us bs (vector_insert realloc v (length us))
  unfolding vector_insert
  vector_insert-Added us bs valid enough not_large =
      let fit : length (concat (us ++ bs)) + v.element_size ≤ wider =
        omega (arith, wider-size (us ++ bs) valid) in
      let i = grows lawful v us bs valid small wider fit in
      let size = v.element_size in
      let total = lengths_old lawful v us bs valid small wider fit in
      let at =
        bytes_of_comm size us (Sized-us lawful v us bs valid small)
          (omega (arith, total, fits (us ++ bs) valid)) (length us) refl in
      let count : v.count - length us ≡ length bs =
        omega (arith, valid.counted, length-append us bs) in
      let shift =
        bytes_of_comm size bs (Sized-bs lawful v us bs valid small)
          (omega (arith, total, fits (us ++ bs) valid)) (v.count - length us) count in
      let inside : ltb v.count (length us) ≡ false =
        ground (arith, valid.counted, length-append us bs) in
      let block : i.buffer.block ≡ v.buffer.block =
        ap (λ r. r.0.block) (sym i.returns)
        ∙ buffer_realloc-roomy realloc v.buffer wider valid.policy enough not_large in
      let same : (i.buffer.block == v.buffer.block) ≡ true = ground (arith, block) in
      let bytes =
        concat us
        ++ (gap lawful v us bs valid small wider fit
            ++ (concat bs ++ tail lawful v us bs valid small wider fit)) in
      let w : Vector = record v {
        count = (v.count + 1) % 2 ^ 64;
        buffer = record i.buffer { bytes = bytes };
      } in
      let moves : memmove (bytes_of size (length us) + size) (bytes_of size (length us))
            (bytes_of size (v.count - length us)) i.buffer.bytes
          ≡ some bytes =
        ap (λ k. memmove (k + size) k (bytes_of size (v.count - length us)) i.buffer.bytes) at
        ∙ ap (λ k. memmove (length (concat us) + size) (length (concat us)) k i.buffer.bytes) shift
        ∙ opens lawful v us bs valid small wider fit in
      let address : v.buffer.block + bytes_of size (length us) ≡ i.buffer.block + length us * size =
        omega (arith, block, at, position us bs valid) in
      record {
        vector = w;
        new = gap lawful v us bs valid small wider fit;
        returns = rw inside (
            rw (resize-Resized realloc v.buffer (concat (us ++ bs)) wider i, ◌>>=◌)
              (rw same (rw (moves, ◌>>=◌) (ap (λ a. some (w, a)) address))));
        valid =
            added-IsVector lawful v us bs valid small wider fit bytes refl ((v.count + 1) % 2 ^ 64)
              (counted_up (us ++ bs) valid);
        element_size = refl;
      }

resize-moved :
    (realloc : Realloc) (b : Buffer) (n : ℕ)
    → b.pol ≡ bp_economic
    → ((n : ℕ) (r : ℕ × List ℕ) → realloc b.block b.bytes n ≡ some r → r.0 ≢ b.block)
    → b.real_size < n
    → (resize realloc b n ≡ none)
      ⊎ ((c : Buffer) × (resize realloc b n ≡ some c) × ((c.block == b.block) ≡ false))
unfolding resize
resize-moved realloc b n economic moves above =
    let r = buffer_realloc realloc b n in
    elim (buffer_realloc-moved realloc b moves n economic above) [
      | inl failed ↦ inl (rw failed refl)
      | inr moved ↦ elim (Bool-cases (r.1)) [
        | inl q ↦ inr (r.0, rw q refl, ground arith)
        | inr q ↦ inl (rw q refl)
      ]
    ]

-- Where realloc moves the block of a vector with the economic policy, and its block is too small for
-- two more elements: vector_insert is a fault, whatever the index, since it has computed the
-- positions in the block that realloc frees.
vector_insert-moved :
    (realloc : Realloc) (v : Vector) (idx : ℕ)
    → v.buffer.pol ≡ bp_economic
    → ((n : ℕ) (r : ℕ × List ℕ)
        → realloc v.buffer.block v.buffer.bytes n ≡ some r
        → r.0 ≢ v.buffer.block)
    → v.buffer.real_size < bytes_of v.element_size ((v.count + 1) % 2 ^ 64 + 1)
    → vector_insert realloc v idx ≡ none
unfolding vector_insert
vector_insert-moved realloc v idx economic moves above =
    let n = bytes_of v.element_size ((v.count + 1) % 2 ^ 64 + 1) in
    elim (Bool-cases (ltb v.count idx)) [
      | inl out ↦ rw out refl
      | inr inside ↦ elim (resize-moved realloc v.buffer n economic moves above) [
        | inl failed ↦ rw inside (rw (failed, ◌>>=◌) refl)
        | inr m ↦ rw inside (rw (m.1, ◌>>=◌) (rw (m.2, ◌>>=◌) refl))
      ]
    ]
