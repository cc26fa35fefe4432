-- ===== src/AvlTree/Keys.antt =====
-- A tree with one entry for each key, as a map from keys to data: what `avl_tree_get` reads, and what a
-- write to the node that `avl_tree_add_or_get` reaches does.
use mathlib.Core.Path.{subst}
use interview.Base.{
  ◌≡◌, ◌≢◌, refl, sym, ap, ◌∙◌, inl, inr, true, false, Option, none, some, List, [], ◌∷◌, ◌++◌,
  arith, Bool-cases, if◌then◌else◌,
}
use interview.Base.Int.{ℤ, eqz, eqz→eq}
use interview.Base.Apart.{Others, IsApart, apart_around}
use interview.AvlTree.{Node}
use interview.AvlTree.Order.{Entry, entry}
use interview.AvlTree.Get.{Found, hit, miss}

pub eqz_refl : (k : ℤ) → eqz k k ≡ true
eqz_refl k = ground arith

pub eqz-ne : (a b : ℤ) → a ≢ b → eqz a b ≡ false
eqz-ne a b ne = elim (Bool-cases (eqz a b)) [ inl e ↦ absurd (ne (eqz→eq a b e)) | inr e ↦ e ]

module _ {ℓ} {D : Type ℓ} where
  -- the data of the first entry with the key
  unfoldable pub lookup : ℤ → List (Entry D) → Option D
  lookup k [] = none
  lookup k (e ∷ es) = let rest = lookup k es in if eqz e.key k then some e.payload else rest

  abbrev pub key_of : Entry D → ℤ
  key_of e = e.key

  lookup-past :
      (k : ℤ) (before after : List (Entry D))
      → Others key_of k before
      → lookup k (before ++ after) ≡ lookup k after
  unfolding lookup
  lookup-past k [] after a = refl
  lookup-past k (x ∷ before) after a = rw (eqz-ne x.key k a.0) (lookup-past k before after a.1)

  pub lookup-absent : (k : ℤ) (xs : List (Entry D)) → Others key_of k xs → lookup k xs ≡ none
  unfolding lookup
  lookup-absent k [] a = refl
  lookup-absent k (x ∷ xs) a = rw (eqz-ne x.key k a.0) (lookup-absent k xs a.1)

  pub lookup-here :
      (before : List (Entry D)) (e : Entry D) (after : List (Entry D))
      → Others key_of e.key before
      → lookup e.key (before ++ e ∷ after) ≡ some e.payload
  unfolding lookup
  lookup-here before e after a = lookup-past e.key before (e ∷ after) a ∙ rw (eqz_refl e.key) refl

  -- an entry behind others does not matter for another key
  lookup-skip :
      (k : ℤ) (before : List (Entry D)) (e : Entry D) (after : List (Entry D))
      → eqz e.key k ≡ false
      → lookup k (before ++ e ∷ after) ≡ lookup k (before ++ after)
  unfolding lookup
  lookup-skip k [] e after h = rw h refl
  lookup-skip k (x ∷ before) e after h =
      ap (λ r. if eqz x.key k then some x.payload else r) (lookup-skip k before e after h)

  -- what a search in a sequence with unique keys finds is what the map has
  pub Found-lookup :
      (k : ℤ) (xs : List (Entry D)) (o : Option (Node D))
      → IsApart key_of xs
      → Found k xs o
      → lookup k xs ≡ elim o [ none ↦ none | some n ↦ some n.payload ]
  Found-lookup k xs o u (hit before n after same p) =
      let around = apart_around key_of before (entry n) after (subst (IsApart key_of) p u) in
      ap (lookup k) p
      ∙ ap (λ j. lookup j (before ++ entry n ∷ after)) (sym same)
      ∙ lookup-here before (entry n) after around.0
  Found-lookup k xs o u (miss a) = lookup-absent k xs a

  module _ (before : List (Entry D)) (e : Entry D) (after : List (Entry D)) (d : D)
      (others : Others key_of e.key before) where
    abbrev written : List (Entry D)
    written = before ++ record e { payload = d } ∷ after

    pub lookup-written :
        (k : ℤ)
        → lookup k written ≡ (if eqz e.key k then some d else lookup k (before ++ e ∷ after))
    lookup-written k = elim (Bool-cases (eqz e.key k)) [
      | inl here ↦ rw here (
          ap (λ j. lookup j written) (sym (eqz→eq e.key k here))
          ∙ lookup-here before (record e { payload = d }) after others)
      | inr away ↦ rw away (
          lookup-skip k before (record e { payload = d }) after away
          ∙ sym (lookup-skip k before e after away))
    ]

    pub lookup-new :
        (k : ℤ) → lookup k written ≡ (if eqz e.key k then some d else lookup k (before ++ after))
    lookup-new k = elim (Bool-cases (eqz e.key k)) [
      | inl here ↦ rw here (
          ap (λ j. lookup j written) (sym (eqz→eq e.key k here))
          ∙ lookup-here before (record e { payload = d }) after others)
      | inr away ↦ rw away (lookup-skip k before (record e { payload = d }) after away)
    ]
