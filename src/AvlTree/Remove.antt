-- ===== src/AvlTree/Remove.antt =====
-- Removal: `node_remove_min`, `node_remove` and what they take from the entries.
use interview.Base.{
  ℕ, suc, ◌≤◌, ◌<◌, ◌≡◌, refl, sym, ap, ◌∙◌, true, false, inl, inr, Option, none, some, ◌∷◌, ◌++◌,
  append-nil, max, arith, Bool-cases,
}
use interview.Base.Int.{ℤ, ltz, ltz→lt, eq_of_ltz}
use interview.AvlTree.{
  Node, Tree, leaf, node, is_stray, set_parent, node_leftmost, node_remove_min, node_unlink,
  node_remove, node_balance,
}
use interview.AvlTree.Links.{IsLinked}
use interview.AvlTree.Order.{entry, in_order, in_order-set_parent, in_order-node_balance}
use interview.AvlTree.Shape.{
  depth, depth-set_parent, IsAvl, IsAvl-set_parent, Joined, settled, node_balance-Joined,
}
use interview.AvlTree.Sorted.{
  IsSorted, Split, split, Removal, absent, present, Removal-left, Removal-right,
}

module _ {ℓ} {D : Type ℓ} where
  -- `t` without its first entry, which is that of its leftmost node `least`
  record MinRemoved (t : Tree D) : Type ℓ where
    least : Node D
    leftmost : node_leftmost t ≡ some least
    result : Tree D
    returns : node_remove_min t ≡ some result
    avl : IsAvl result
    order : in_order t ≡ entry least ∷ in_order result
    low : depth t ≤ suc (depth result)
    high : depth result ≤ depth t

  MinRemoved-left :
      (x : Tree D) (m : Node D) (y : Tree D) (n : Node D) (r : Tree D)
      → (i : MinRemoved (node x m y)) → IsAvl (node (node x m y) n r)
      → Joined (depth i.result) (depth r) (node_balance (node i.result n r))
      → MinRemoved (node (node x m y) n r)
  unfolding node_remove_min node_leftmost
  MinRemoved-left x m y n r i a j = record {
    least = i.least;
    leftmost = i.leftmost;
    result = j.result;
    returns = rw (i.returns, node_remove_min) j.returns;
    avl = j.avl;
    order =
        ap (λ xs. xs ++ entry n ∷ in_order r) i.order
        ∙ ap (λ xs. entry i.least ∷ xs) (sym (in_order-node_balance i.result n r j.returns));
    low = omega (arith, settled j);
    high = omega (arith, settled j);
  }

  node_remove_min-MinRemoved :
      (l : Tree D) (n : Node D) (r : Tree D)
      → IsAvl (node l n r)
      → depth (node l n r) < 248
      → MinRemoved (node l n r)
  unfolding node_remove_min node_leftmost
  node_remove_min-MinRemoved leaf n r a small = record {
    least = n;
    leftmost = refl;
    result = r;
    returns = refl;
    avl = a.1;
    order = refl;
    low = omega arith;
    high = omega arith;
  }
  node_remove_min-MinRemoved (node x m y) n r a small =
      let i = node_remove_min-MinRemoved x m y a.0 (omega arith) in
      MinRemoved-left x m y n r i a
        (node_balance-Joined i.result n r i.avl a.1 (omega arith) (omega arith) (omega arith))

  -- what is left of a node when it is unlinked
  record Unlinked (l r : Tree D) (o : Option (Tree D)) : Type ℓ where
    result : Tree D
    returns : o ≡ some result
    avl : IsAvl result
    order : in_order result ≡ in_order l ++ in_order r
    low : max (depth l) (depth r) ≤ depth result
    high : depth result ≤ suc (max (depth l) (depth r))

  stray-linked : (up : ℕ) (n : Node D) → n.parent ≡ up → is_stray up n ≡ false
  stray-linked up n h = ground arith

  module _ (up : ℕ) (l : Tree D) (n : Node D) (x : Tree D) (m : Node D) (y : Tree D)
      (i : MinRemoved (node x m y)) where
    -- the leftmost node `min` in the place of `n`
    abbrev min_left : Tree D
    min_left = set_parent i.least.id l

    abbrev min_right : Tree D
    min_right = set_parent i.least.id i.result

    abbrev min : Node D
    min = record (i.least) { parent = n.parent }

    Unlinked-min :
        IsAvl (node l n (node x m y))
        → n.parent ≡ up
        → Joined (depth min_left) (depth min_right) (node_balance (node min_left min min_right))
        → Unlinked l (node x m y) (node_unlink up l n (node x m y))
    unfolding node_unlink
    Unlinked-min a h j =
        let dl = depth-set_parent i.least.id l in
        let dr = depth-set_parent i.least.id i.result in
        record {
          result = j.result;
          returns = rw (stray-linked up n h) (rw (i.leftmost, i.returns) j.returns);
          avl = j.avl;
          order =
              in_order-node_balance min_left min min_right j.returns
              ∙ ap (λ xs. xs ++ entry i.least ∷ in_order min_right)
                  (in_order-set_parent i.least.id l)
              ∙ ap (λ xs. in_order l ++ entry i.least ∷ xs)
                  (in_order-set_parent i.least.id i.result)
              ∙ ap (λ xs. in_order l ++ xs) (sym i.order);
          low = omega (arith, dl, dr, settled j);
          high = omega (arith, dl, dr, settled j);
        }

  node_unlink-Unlinked :
      (up : ℕ) (l : Tree D) (n : Node D) (r : Tree D)
      → IsAvl (node l n r)
      → n.parent ≡ up
      → depth (node l n r) < 248
      → Unlinked l r (node_unlink up l n r)
  unfolding node_unlink
  node_unlink-Unlinked up l n leaf a h small = record {
    result = set_parent n.parent l;
    returns = rw (stray-linked up n h) refl;
    avl = IsAvl-set_parent n.parent l a.0;
    order = in_order-set_parent n.parent l ∙ sym (append-nil (in_order l));
    low = omega (arith, depth-set_parent n.parent l);
    high = omega (arith, depth-set_parent n.parent l);
  }
  node_unlink-Unlinked up l n (node x m y) a h small =
      let i = node_remove_min-MinRemoved x m y a.1 (omega arith) in
      let dl = depth-set_parent i.least.id l in
      let dr = depth-set_parent i.least.id i.result in
      Unlinked-min up l n x m y i a h (
        node_balance-Joined (min_left up l n x m y i) (min up l n x m y i)
          (min_right up l n x m y i) (IsAvl-set_parent i.least.id l a.0)
          (IsAvl-set_parent i.least.id i.result i.avl) (omega (arith, dl, dr))
          (omega (arith, dl, dr)) (omega (arith, dl, dr)))

  -- the outcome of the removal of the key `k`
  pub record Removed (k : ℤ) (t : Tree D) (o : Option (Tree D × Option D)) : Type ℓ where
    pub result : Tree D
    pub removed : Option D
    pub returns : o ≡ some (result, removed)
    pub avl : IsAvl result
    pub order : Removal k (in_order t) (in_order result) removed
    pub low : depth t ≤ suc (depth result)
    pub high : depth result ≤ depth t

  module _ (up : ℕ) (k : ℤ) (l : Tree D) (n : Node D) (r : Tree D) (a : IsAvl (node l n r))
      (s : Split (in_order l) (entry n) (in_order r)) where
    Removed-left :
        (i : Removed k l (node_remove n.id k l))
        → ltz k n.key ≡ true
        → Joined (depth i.result) (depth r) (node_balance (node i.result n r))
        → Removed k (node l n r) (node_remove up k (node l n r))
    unfolding node_remove
    Removed-left i lt j = record {
      result = j.result;
      removed = i.removed;
      returns = rw (lt, node_remove) (rw (i.returns, node_remove) (rw j.returns));
      avl = j.avl;
      order = rw (in_order-node_balance i.result n r j.returns) (
          Removal-left k (in_order l) (in_order i.result) (entry n) (in_order r) (ltz→lt k n.key lt)
            s.above i.order);
      low = omega (arith, settled j);
      high = omega (arith, settled j);
    }

    Removed-right :
        (i : Removed k r (node_remove n.id k r))
        → ltz k n.key ≡ false
        → ltz n.key k ≡ true
        → Joined (depth l) (depth i.result) (node_balance (node l n i.result))
        → Removed k (node l n r) (node_remove up k (node l n r))
    unfolding node_remove
    Removed-right i ge lt j = record {
      result = j.result;
      removed = i.removed;
      returns =
          rw (ge, node_remove) (rw (lt, node_remove) (rw (i.returns, node_remove) (rw j.returns)));
      avl = j.avl;
      order = rw (in_order-node_balance l n i.result j.returns) (
          Removal-right k (in_order l) (entry n) (in_order r) (in_order i.result)
            (ltz→lt n.key k lt) s.below i.order);
      low = omega (arith, settled j);
      high = omega (arith, settled j);
    }

    Removed-here :
        Unlinked l r (node_unlink up l n r)
        → ltz k n.key ≡ false
        → ltz n.key k ≡ false
        → Removed k (node l n r) (node_remove up k (node l n r))
    unfolding node_remove
    Removed-here u ge le = record {
      result = u.result;
      removed = some n.payload;
      returns = rw (ge, node_remove) (rw (le, node_remove) (rw u.returns));
      avl = u.avl;
      order = present (in_order l) (entry n) (in_order r) (eq_of_ltz n.key k le ge) refl u.order;
      low = omega (arith, u.low);
      high = omega (arith, u.high);
    }

  pub node_remove-Removed :
      (up : ℕ) (k : ℤ) (t : Tree D)
      → IsLinked up t
      → IsAvl t
      → IsSorted (in_order t)
      → depth t < 248
      → Removed k t (node_remove up k t)
  unfolding node_remove
  node_remove-Removed up k leaf h a s small = record {
    result = leaf;
    removed = none;
    returns = refl;
    avl = tt;
    order = absent tt refl;
    low = omega arith;
    high = omega arith;
  }
  node_remove-Removed up k (node l n r) h a s small =
      let sp = split (in_order l) (entry n) (in_order r) s in
      let i = node_remove-Removed n.id k l h.1 a.0 sp.front (omega arith) in
      let j = node_remove-Removed n.id k r h.2 a.1 sp.back (omega arith) in
      elim (Bool-cases (ltz k n.key)) [
        | inl lt ↦
            Removed-left up k l n r a sp i lt
              (node_balance-Joined i.result n r i.avl a.1 (omega arith) (omega arith) (omega arith))
        | inr ge ↦ elim (Bool-cases (ltz n.key k)) [
          | inl lt ↦
              Removed-right up k l n r a sp j ge lt (
                node_balance-Joined l n j.result a.0 j.avl (omega arith) (omega arith)
                  (omega arith))
          | inr le ↦
              Removed-here up k l n r a sp (node_unlink-Unlinked up l n r a h.0 (omega arith)) ge le
        ]
      ]
