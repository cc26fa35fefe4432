-- ===== src/AvlTree/Get.antt =====
-- The search loop of `avl_tree_get`, against the sequence of entries.
use interview.Base.{
  ◌≡◌, ◌≢◌, refl, sym, ap, ◌∙◌, inl, inr, Option, none, some, List, ◌∷◌, ◌++◌, append_assoc, arith,
  Bool-cases, All, All-append, All-mono,
}
use interview.Base.Int.{ℤ, ltz, eqz, eqz→eq, lt_of_ne, ltz→lt, ◌<ℤ◌, ◌≤ℤ◌}
use interview.AvlTree.{Node, Tree, leaf, node, get_loop}
use interview.AvlTree.Order.{Entry, entry, in_order}
use interview.AvlTree.Sorted.{IsSorted, split, ne_of_lt, ne_of_gt}

module _ {ℓ} {D : Type ℓ} where
  -- what a search for `k` in the sequence `xs` answers: an entry with the key, or that none has it
  pub data Found (k : ℤ) (xs : List (Entry D)) : Option (Node D) → Type ℓ where
    hit :
        (before : List (Entry D)) (n : Node D) (after : List (Entry D))
        → n.key ≡ k
        → xs ≡ before ++ entry n ∷ after
        → Found k xs (some n)
    miss : All (λ e. e.key ≢ k) xs → Found k xs none

  Found-left :
      (k : ℤ) (xs : List (Entry D)) (y : Entry D) (ys : List (Entry D)) {o : Option (Node D)}
      → k <ℤ y.key
      → All (λ z. y.key ≤ℤ z.key) ys
      → Found k xs o
      → Found k (xs ++ y ∷ ys) o
  Found-left k xs y ys lt up (hit before n after same p) =
      hit before n (after ++ y ∷ ys) same
        (ap (λ l. l ++ y ∷ ys) p ∙ append_assoc before (entry n ∷ after) (y ∷ ys))
  Found-left k xs y ys lt up (miss a) = miss (
      All-append _ xs (y ∷ ys) a (
        ne_of_lt y.key y.key k lt (omega arith),
        All-mono _ _ ys (λ z p. ne_of_lt y.key z.key k lt p) up,
      ))

  Found-right :
      (k : ℤ) (xs : List (Entry D)) (y : Entry D) (ys : List (Entry D)) {o : Option (Node D)}
      → y.key <ℤ k
      → All (λ x. x.key ≤ℤ y.key) xs
      → Found k ys o
      → Found k (xs ++ y ∷ ys) o
  Found-right k xs y ys lt down (hit before n after same p) =
      hit (xs ++ y ∷ before) n after same
        (ap (λ l. xs ++ y ∷ l) p ∙ sym (append_assoc xs (y ∷ before) (entry n ∷ after)))
  Found-right k xs y ys lt down (miss a) = miss (
      All-append _ xs (y ∷ ys) (All-mono _ _ xs (λ z p. ne_of_gt y.key z.key k lt p) down)
        (ne_of_gt y.key y.key k lt (omega arith), a))

  pub get_loop-Found :
      (k : ℤ) (t : Tree D) → IsSorted (in_order t) → Found k (in_order t) (get_loop k t)
  unfolding get_loop
  get_loop-Found k leaf s = miss tt
  get_loop-Found k (node l n r) s =
      let sp = split (in_order l) (entry n) (in_order r) s in
      elim (Bool-cases (eqz n.key k)) [
        | inl e ↦ rw (e, get_loop) (hit (in_order l) n (in_order r) (eqz→eq n.key k e) refl)
        | inr ne ↦ elim (Bool-cases (ltz n.key k)) [
          | inl lt ↦
              rw (ne, get_loop)
                (rw (lt, get_loop)
                  (Found-right k (in_order l) (entry n) (in_order r) (ltz→lt n.key k lt) sp.below
                    (get_loop-Found k r sp.back)))
          | inr ge ↦
              rw (ne, get_loop)
                (rw (ge, get_loop)
                  (Found-left k (in_order l) (entry n) (in_order r) (lt_of_ne n.key k ge ne)
                    sp.above (get_loop-Found k l sp.front)))
        ]
      ]
