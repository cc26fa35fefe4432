-- ===== src/AvlTree/Insert.antt =====
-- Insertion: `node_insert`, `node_insert_or_get` and the tree operations over them.
use native.Mathlib.Decide.{dec_lt}
use native.Mathlib.Nat.{pow-suc}
use interview.Base.{
  ℕ, zero, suc, ◌+◌, ◌^◌, ◌≤◌, ◌<◌, ◌≡◌, ◌≢◌, refl, ap, ◌∙◌, true, false, inl, inr, Option, some,
  ◌∷◌, ◌++◌, arith, ◌==◌, Bool-cases, length-append, ◌>>=◌, All,
}
use interview.Base.Int.{ℤ, ltz, ◌≤ℤ◌}
use interview.AvlTree.{Node, Tree, leaf, node, node_insert, node_balance}
use interview.AvlTree.Order.{Entry, entry, in_order, size, in_order-node_balance}
use interview.AvlTree.Shape.{depth, IsAvl, settled, node_balance-Joined}
use interview.AvlTree.Sorted.{IsSorted, split, insert_entry, insert_entry-left, insert_entry-right}

module _ {ℓ} {D : Type ℓ} where
  -- A balanced tree of `2 * k` levels has `2 ^ k - 1` nodes at least.
  pub pow-le-size : (t : Tree D) (k : ℕ) → IsAvl t → k + k ≤ depth t → 2 ^ k ≤ size t + 1
  pow-le-size t zero a h = omega arith
  pow-le-size leaf (suc k) a h = absurd (omega arith)
  pow-le-size (node l n r) (suc k) a h = omega (
    arith,
    pow-suc 2 k,
    length-append (in_order l) (entry n ∷ in_order r),
    pow-le-size l k a.0 (omega arith),
    pow-le-size r k a.1 (omega arith),
  )

  -- A `size_t` counts the nodes, so the `unsigned char` that stores a height does not wrap.
  pub depth-lt : (t : Tree D) → IsAvl t → size t < 2 ^ 64 → depth t < 130
  depth-lt t a small = elim (dec_lt (depth t) 130) [
    | yes p ↦ p
    | no p ↦ absurd (omega (arith, pow-le-size t 65 a (omega arith)))
  ]

  -- the outcome of an insertion of the entry `e`
  pub record Inserted (e : Entry D) (t : Tree D) (o : Option (Tree D)) : Type ℓ where
    pub result : Tree D
    pub returns : o ≡ some result
    pub avl : IsAvl result
    pub order : in_order result ≡ insert_entry e (in_order t)
    pub low : depth t ≤ depth result
    pub high : depth result ≤ suc (depth t)

  module _ (e : Entry D) (n : Node D) where
    Inserted-left :
        (l r : Tree D) {o : Option (Tree D)}
        → Inserted e l o
        → IsAvl (node l n r)
        → depth (node l n r) < 248
        → ltz e.key n.key ≡ true
        → Inserted e (node l n r) (o >>= λ l'. node_balance (node l' n r))
    Inserted-left l r i a small lt =
        let j =
          node_balance-Joined i.result n r i.avl a.1 (omega arith) (omega arith) (omega arith) in
        record {
          result = j.result;
          returns = rw i.returns j.returns;
          avl = j.avl;
          order =
              in_order-node_balance i.result n r j.returns
              ∙ ap (λ xs. xs ++ entry n ∷ in_order r) i.order
              ∙ insert_entry-left e (in_order l) (entry n) (in_order r) lt;
          low = omega (arith, settled j);
          high = omega (arith, settled j);
        }

    Inserted-right :
        (l r : Tree D) {o : Option (Tree D)}
        → Inserted e r o
        → IsAvl (node l n r)
        → depth (node l n r) < 248
        → ltz e.key n.key ≡ false
        → All (λ x. x.key ≤ℤ n.key) (in_order l)
        → Inserted e (node l n r) (o >>= λ r'. node_balance (node l n r'))
    Inserted-right l r i a small ge below =
        let j =
          node_balance-Joined l n i.result a.0 i.avl (omega arith) (omega arith) (omega arith) in
        record {
          result = j.result;
          returns = rw i.returns j.returns;
          avl = j.avl;
          order =
              in_order-node_balance l n i.result j.returns
              ∙ ap (λ xs. in_order l ++ entry n ∷ xs) i.order
              ∙ insert_entry-right e (in_order l) (entry n) (in_order r) ge below;
          low = omega (arith, settled j);
          high = omega (arith, settled j);
        }

  module _ (fresh : ℕ) (d : D) (k : ℤ) (allocated : fresh ≢ 0) where
    pub node_insert-Inserted :
        (parent : ℕ) (t : Tree D)
        → IsAvl t
        → IsSorted (in_order t)
        → depth t < 248
        → Inserted (record { id = fresh; key = k; payload = d }) t (node_insert fresh d k parent t)
    unfolding node_insert insert_entry
    node_insert-Inserted parent leaf a s small =
        let f : (fresh == 0) ≡ false = ground arith in
        record {
          result =
              node leaf (record { id = fresh; parent = parent; height = 1; key = k; payload = d })
                leaf;
          returns = rw f;
          avl = (tt, tt, omega arith, omega arith, omega arith);
          order = refl;
          low = omega arith;
          high = omega arith;
        }
    node_insert-Inserted parent (node l n r) a s small =
        let sp = split (in_order l) (entry n) (in_order r) s in
        elim (Bool-cases (ltz k n.key)) [
          | inl lt ↦
              rw (lt, node_insert)
                (Inserted-left _ n l r (node_insert-Inserted n.id l a.0 sp.front (omega arith)) a
                  small lt)
          | inr ge ↦
              rw (ge, node_insert)
                (Inserted-right _ n l r (node_insert-Inserted n.id r a.1 sp.back (omega arith)) a
                  small ge sp.below)
        ]
