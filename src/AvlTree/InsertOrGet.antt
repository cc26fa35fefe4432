-- ===== src/AvlTree/InsertOrGet.antt =====
-- `node_insert_or_get`: one entry for each key.
use interview.Base.{
  ℕ, suc, ◌≤◌, ◌<◌, ◌≡◌, ◌≢◌, refl, sym, ap, ◌∙◌, Bool, true, false, inl, inr, Option, some, List,
  ◌∷◌, ◌++◌, append_assoc, arith, ◌==◌, Bool-cases, All, All-append, All-mono,
}
use interview.Base.Int.{ℤ, ltz, eqz, eqz→eq, lt_of_ne, ltz→lt, ◌<ℤ◌, ◌≤ℤ◌}
use interview.AvlTree.{Node, Tree, leaf, node, node_insert_or_get, node_balance}
use interview.AvlTree.Order.{Entry, entry, in_order, in_order-node_balance}
use interview.AvlTree.Shape.{depth, IsAvl, Joined, settled, node_balance-Joined}
use interview.AvlTree.Sorted.{
  IsSorted, Split, split, insert_entry, insert_entry-left, insert_entry-right, ne_of_lt, ne_of_gt,
}

module _ {ℓ} {D : Type ℓ} where
  -- what the sequence `xs` becomes when the entry `e` is offered to it, with the address of the
  -- node that holds the key, and whether it is new
  pub data Offer (e : Entry D) (xs ys : List (Entry D)) : ℕ → Bool → Type ℓ where
    found :
        (before : List (Entry D)) (old : Entry D) (after : List (Entry D))
        → old.key ≡ e.key
        → xs ≡ before ++ old ∷ after
        → ys ≡ xs
        → Offer e xs ys old.id false
    added : All (λ x. x.key ≢ e.key) xs → ys ≡ insert_entry e xs → Offer e xs ys e.id true

  module _ (e : Entry D) (xs xs' : List (Entry D)) (y : Entry D) (ys : List (Entry D)) where
    Offer-left :
        {i : ℕ} {b : Bool}
        → ltz e.key y.key ≡ true
        → All (λ z. y.key ≤ℤ z.key) ys
        → Offer e xs xs' i b
        → Offer e (xs ++ y ∷ ys) (xs' ++ y ∷ ys) i b
    Offer-left lt up (found before old after same p q) =
        found before old (after ++ y ∷ ys) same
          (ap (λ l. l ++ y ∷ ys) p ∙ append_assoc before (old ∷ after) (y ∷ ys))
          (ap (λ l. l ++ y ∷ ys) q)
    Offer-left lt up (added a q) =
        let lt' : e.key <ℤ y.key = ltz→lt e.key y.key lt in
        added
          (All-append _ xs (y ∷ ys) a (
            ne_of_lt y.key y.key e.key lt' (omega arith),
            All-mono _ _ ys (λ z p. ne_of_lt y.key z.key e.key lt' p) up,
          ))
          (ap (λ l. l ++ y ∷ ys) q ∙ insert_entry-left e xs y ys lt)

    Offer-right :
        {i : ℕ} {b : Bool}
        → ltz e.key y.key ≡ false
        → eqz e.key y.key ≡ false
        → All (λ x. x.key ≤ℤ y.key) xs
        → Offer e ys xs' i b
        → Offer e (xs ++ y ∷ ys) (xs ++ y ∷ xs') i b
    Offer-right ge ne down (found before old after same p q) =
        found (xs ++ y ∷ before) old after same
          (ap (λ l. xs ++ y ∷ l) p ∙ sym (append_assoc xs (y ∷ before) (old ∷ after)))
          (ap (λ l. xs ++ y ∷ l) q)
    Offer-right ge ne down (added a q) =
        let gt : y.key <ℤ e.key = lt_of_ne e.key y.key ge ne in
        added
          (All-append _ xs (y ∷ ys) (All-mono _ _ xs (λ z p. ne_of_gt y.key z.key e.key gt p) down)
            (ne_of_gt y.key y.key e.key gt (omega arith), a))
          (ap (λ l. xs ++ y ∷ l) q ∙ insert_entry-right e xs y ys ge down)

  -- the outcome of `node_insert_or_get`
  pub record Offered (e : Entry D) (t : Tree D) (o : Option (Tree D × ℕ × Bool)) : Type ℓ where
    pub result : Tree D
    pub id : ℕ
    pub inserted : Bool
    pub returns : o ≡ some (result, id, inserted)
    pub avl : IsAvl result
    pub order : Offer e (in_order t) (in_order result) id inserted
    pub low : depth t ≤ depth result
    pub high : depth result ≤ suc (depth t)

  abbrev pub offered : ℕ → D → ℤ → Entry D
  offered fresh d k = record { id = fresh; key = k; payload = d }

  module _ (fresh : ℕ) (d : D) (k : ℤ) (parent : ℕ) (l : Tree D) (n : Node D) (r : Tree D) where
    module _ (a : IsAvl (node l n r)) (s : Split (in_order l) (entry n) (in_order r))
        (ne : eqz k n.key ≡ false) where
      Offered-left :
          (i : Offered (offered fresh d k) l (node_insert_or_get fresh d k n.id l))
          → ltz k n.key ≡ true
          → Joined (depth i.result) (depth r) (node_balance (node i.result n r))
          → Offered
              (offered fresh d k)
              (node l n r)
              (node_insert_or_get fresh d k parent (node l n r))
      unfolding node_insert_or_get
      Offered-left i lt j = record {
        result = j.result;
        id = i.id;
        inserted = i.inserted;
        returns =
            rw (ne, node_insert_or_get)
              (rw (lt, node_insert_or_get) (rw (i.returns, node_insert_or_get) (rw j.returns)));
        avl = j.avl;
        order = rw (in_order-node_balance i.result n r j.returns) (
            Offer-left (offered fresh d k) (in_order l) (in_order i.result) (entry n) (in_order r)
              lt s.above i.order);
        low = omega (arith, settled j);
        high = omega (arith, settled j);
      }

      Offered-right :
          (i : Offered (offered fresh d k) r (node_insert_or_get fresh d k n.id r))
          → ltz k n.key ≡ false
          → Joined (depth l) (depth i.result) (node_balance (node l n i.result))
          → Offered
              (offered fresh d k)
              (node l n r)
              (node_insert_or_get fresh d k parent (node l n r))
      unfolding node_insert_or_get
      Offered-right i ge j = record {
        result = j.result;
        id = i.id;
        inserted = i.inserted;
        returns =
            rw (ne, node_insert_or_get)
              (rw (ge, node_insert_or_get) (rw (i.returns, node_insert_or_get) (rw j.returns)));
        avl = j.avl;
        order = rw (in_order-node_balance l n i.result j.returns) (
            Offer-right (offered fresh d k) (in_order l) (in_order i.result) (entry n) (in_order r)
              ge ne s.below i.order);
        low = omega (arith, settled j);
        high = omega (arith, settled j);
      }

  module _ (fresh : ℕ) (d : D) (k : ℤ) (allocated : fresh ≢ 0) where
    pub node_insert_or_get-Offered :
        (parent : ℕ) (t : Tree D)
        → IsAvl t
        → IsSorted (in_order t)
        → depth t < 248
        → Offered (offered fresh d k) t (node_insert_or_get fresh d k parent t)
    unfolding node_insert_or_get insert_entry
    node_insert_or_get-Offered parent leaf a s small =
        let f : (fresh == 0) ≡ false = ground arith in
        record {
          result =
              node leaf (record { id = fresh; parent = parent; height = 1; key = k; payload = d })
                leaf;
          id = fresh;
          inserted = true;
          returns = rw f;
          avl = (tt, tt, omega arith, omega arith, omega arith);
          order = added tt refl;
          low = omega arith;
          high = omega arith;
        }
    node_insert_or_get-Offered parent (node l n r) a s small =
        let sp = split (in_order l) (entry n) (in_order r) s in
        let i = node_insert_or_get-Offered n.id l a.0 sp.front (omega arith) in
        let j = node_insert_or_get-Offered n.id r a.1 sp.back (omega arith) in
        elim (Bool-cases (eqz k n.key)) [
          | inl eq ↦ record {
            result = node l n r;
            id = n.id;
            inserted = false;
            returns = rw (eq, node_insert_or_get);
            avl = a;
            order = found (in_order l) (entry n) (in_order r) (sym (eqz→eq k n.key eq)) refl refl;
            low = omega arith;
            high = omega arith;
          }
          | inr ne ↦ elim (Bool-cases (ltz k n.key)) [
            | inl lt ↦ Offered-left fresh d k parent l n r a sp ne i lt (
                node_balance-Joined i.result n r i.avl a.1 (omega arith) (omega arith)
                  (omega arith))
            | inr ge ↦ Offered-right fresh d k parent l n r a sp ne j ge (
                node_balance-Joined l n j.result a.0 j.avl (omega arith) (omega arith)
                  (omega arith))
          ]
        ]
