-- ===== src/Vector/Elements.antt =====
-- The elements of a vector: lists of bytes, one behind the other at the front of the block.
use interview.Base.{
  ℕ, ◌*◌, ◌^◌, ◌<◌, ◌≡◌, refl, sym, ap, ◌∙◌, List, [], ◌∷◌, ◌++◌, length, length-append,
  append_assoc, All, arith,
}
use interview.Buffer.{bp_economic}
use interview.Buffer.Resize.{IsBuffer}
use interview.Vector.{Vector, bytes_of}

abbrev pub concat : List (List ℕ) → List ℕ
concat [] = []
concat (e ∷ es) = e ++ concat es

pub concat-append : (us bs : List (List ℕ)) → concat (us ++ bs) ≡ concat us ++ concat bs
concat-append [] bs = refl
concat-append (e ∷ us) bs =
    ap (λ z. e ++ z) (concat-append us bs) ∙ sym (append_assoc e (concat us) (concat bs))

abbrev pub Sized : ℕ → List (List ℕ) → Type 0
Sized size = All (λ e. length e ≡ size)

pub length-concat :
    (size : ℕ) (es : List (List ℕ)) → Sized size es → length (concat es) ≡ length es * size
length-concat size [] h = omega arith
length-concat size (e ∷ es) h =
    omega (arith, h.0, length-append e (concat es), length-concat size es h.1)

pub record IsVector (v : Vector) (es : List (List ℕ)) : Type 0 where
  pub sized : Sized v.element_size es
  pub counted : v.count ≡ length es
  pub rest : List ℕ
  pub bytes : v.buffer.bytes ≡ concat es ++ rest
  pub buffer : IsBuffer v.buffer
  pub policy : v.buffer.pol ≡ bp_economic

module _ (size : ℕ) (es : List (List ℕ)) (sized : Sized size es)
    (small : length (concat es) < 2 ^ 64) where
  -- offsets in a block
  pub bytes_of-length : (n : ℕ) → n ≡ length es → bytes_of n size ≡ length (concat es)
  bytes_of-length n e =
      ap (λ k. bytes_of k size) e ∙ omega (arith, length-concat size es sized, small)

  pub bytes_of_comm : (n : ℕ) → n ≡ length es → bytes_of size n ≡ length (concat es)
  bytes_of_comm n e = omega (arith, bytes_of-length n e)
