-- ===== src/AvlTree/Links.antt =====
-- The `parent` fields. Rotations and insertions keep them; `node_remove_min` leaves them alone, so
-- a removal may not.
use interview.Base.{
  ℕ, ◌+◌, ◌≡◌, refl, ◌∙◌, inl, inr, some, ◌==◌, Bool-cases, bind-eq_some, some_inj,
}
use mathlib.Core.Path.{subst}
use interview.Base.Int.{ℤ, ltz}
use interview.AvlTree.{
  Node, Tree, leaf, node, null, address, set_parent, fixed_height, node_height, leans_left,
  leans_right, node_rotate_left, node_rotate_right, balance_left, balance_right, node_balance,
  node_allocator, node_insert,
}

module _ {ℓ} {D : Type ℓ} where
  -- every node stores the address of the node above it, and the topmost `p`
  abbrev pub IsLinked : ℕ → Tree D → Type 0
  IsLinked p leaf = Unit
  IsLinked p (node l n r) = (n.parent ≡ p) × IsLinked n.id l × IsLinked n.id r

  IsLinked-set_parent : (p q : ℕ) (t : Tree D) → IsLinked q t → IsLinked p (set_parent p t)
  unfolding set_parent
  IsLinked-set_parent p q leaf h = tt
  IsLinked-set_parent p q (node l n r) h = (refl, h.1, h.2)

  node_rotate_left-IsLinked :
      (p : ℕ) (t : Tree D) {t' : Tree D}
      → node_rotate_left t ≡ some t'
      → IsLinked p t
      → IsLinked p t'
  unfolding node_rotate_left
  node_rotate_left-IsLinked p leaf e h = cc
  node_rotate_left-IsLinked p (node l a leaf) e h = cc
  node_rotate_left-IsLinked p (node l a (node c b r)) e (ha, hl, (hb, hc, hr)) =
      subst (IsLinked p) (some_inj e) (ha, (refl, hl, IsLinked-set_parent a.id b.id c hc), hr)

  node_rotate_right-IsLinked :
      (p : ℕ) (t : Tree D) {t' : Tree D}
      → node_rotate_right t ≡ some t'
      → IsLinked p t
      → IsLinked p t'
  unfolding node_rotate_right
  node_rotate_right-IsLinked p leaf e h = cc
  node_rotate_right-IsLinked p (node leaf a r) e h = cc
  node_rotate_right-IsLinked p (node (node l b c) a r) e (ha, (hb, hl, hc), hr) =
      subst (IsLinked p) (some_inj e) (ha, hl, (refl, IsLinked-set_parent a.id b.id c hc, hr))

  balance_left-IsLinked :
      (p : ℕ) (l : Tree D) (n : Node D) (r : Tree D) {t : Tree D}
      → balance_left l n r ≡ some t
      → IsLinked p (node l n r)
      → IsLinked p t
  unfolding balance_left
  balance_left-IsLinked p l n r e h = elim (Bool-cases (leans_right l)) [
    | inr f ↦ node_rotate_right-IsLinked p (node l n r) (rw f at e) h
    | inl f ↦
        let (l', u, v) =
          bind-eq_some (node_rotate_left l) (λ x. node_rotate_right (node x n r)) (rw f at e) in
        node_rotate_right-IsLinked p (node l' n r) v
          (h.0, node_rotate_left-IsLinked n.id l u h.1, h.2)
  ]

  balance_right-IsLinked :
      (p : ℕ) (l : Tree D) (n : Node D) (r : Tree D) {t : Tree D}
      → balance_right l n r ≡ some t
      → IsLinked p (node l n r)
      → IsLinked p t
  unfolding balance_right
  balance_right-IsLinked p l n r e h = elim (Bool-cases (leans_left r)) [
    | inr f ↦ node_rotate_left-IsLinked p (node l n r) (rw f at e) h
    | inl f ↦
        let (r', u, v) =
          bind-eq_some (node_rotate_right r) (λ x. node_rotate_left (node l n x)) (rw f at e) in
        node_rotate_left-IsLinked p (node l n r') v
          (h.0, h.1, node_rotate_right-IsLinked n.id r u h.2)
  ]

  pub node_balance-IsLinked :
      (p : ℕ) (l : Tree D) (n : Node D) (r : Tree D) {t : Tree D}
      → node_balance (node l n r) ≡ some t
      → IsLinked p (node l n r)
      → IsLinked p t
  unfolding node_balance
  node_balance-IsLinked p l n r e h =
      let n' : Node D = record n { height = fixed_height l r } in
      elim (Bool-cases (node_height l == node_height r + 2)) [
        | inl f ↦ balance_left-IsLinked p l n' r (rw f at e) h
        | inr f ↦ elim (Bool-cases (node_height r == node_height l + 2)) [
          | inl g ↦ balance_right-IsLinked p l n' r (rw (f, g) at e) h
          | inr g ↦ subst (IsLinked p) (some_inj (rw (f, g) at e)) h
        ]
      ]

  node_allocator-IsLinked :
      (fresh : ℕ) (d : D) (p : ℕ) (k : ℤ) {t : Tree D}
      → node_allocator fresh d p k ≡ some t
      → IsLinked p t
  unfolding node_allocator
  node_allocator-IsLinked fresh d p k e = elim (Bool-cases (fresh == null)) [
    | inl f ↦ absurd (cc (rw f at e))
    | inr f ↦ subst (IsLinked p) (some_inj (rw f at e)) (refl, tt, tt)
  ]

  module _ (fresh : ℕ) (d : D) (k : ℤ) where
    node_insert-IsLinked :
        (p : ℕ) (t : Tree D) {t' : Tree D}
        → node_insert fresh d k p t ≡ some t'
        → IsLinked p t
        → IsLinked p t'
    unfolding node_insert
    node_insert-IsLinked p leaf e h = node_allocator-IsLinked fresh d p k e
    node_insert-IsLinked p (node l n r) {t'} e h = elim (Bool-cases (ltz k n.key)) [
      | inl f ↦
          let (l', u, v) =
            bind-eq_some (node_insert fresh d k n.id l) (λ x. node_balance (node x n r))
              (rw (f, node_insert) at e) in
          node_balance-IsLinked p l' n r v (h.0, node_insert-IsLinked n.id l u h.1, h.2)
      | inr f ↦
          let (r', u, v) =
            bind-eq_some (node_insert fresh d k n.id r) (λ x. node_balance (node l n x))
              (rw (f, node_insert) at e) in
          node_balance-IsLinked p l n r' v (h.0, h.1, node_insert-IsLinked n.id r u h.2)
    ]

    -- the parent that a caller names is used at an empty tree alone
    node_insert_parent :
        (p q : ℕ) (l : Tree D) (n : Node D) (r : Tree D)
        → node_insert fresh d k p (node l n r) ≡ node_insert fresh d k q (node l n r)
    unfolding node_insert
    node_insert_parent p q l n r = refl

    pub node_insert_root-IsLinked :
        (t : Tree D) {t' : Tree D}
        → node_insert fresh d k (address t) t ≡ some t'
        → IsLinked null t
        → IsLinked null t'
    unfolding address
    node_insert_root-IsLinked leaf e h = node_insert-IsLinked null leaf e h
    node_insert_root-IsLinked (node l n r) e h =
        node_insert-IsLinked null (node l n r) (node_insert_parent null n.id l n r ∙ e) h
