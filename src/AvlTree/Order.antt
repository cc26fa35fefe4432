-- ===== src/AvlTree/Order.antt =====
-- The entries of a tree from left to right: no rotation changes them.
use interview.Base.{
  ℕ, ◌+◌, ◌≡◌, refl, sym, ap, ◌∙◌, inl, inr, some, List, [], ◌∷◌, ◌++◌, append_assoc, ◌==◌,
  Bool-cases, bind-eq_some, length, some_inj,
}
use interview.Base.Int.{ℤ}
use interview.AvlTree.{
  Node, Tree, leaf, node, set_parent, fixed_height, node_height, leans_left, leans_right,
  node_rotate_left, node_rotate_right, balance_left, balance_right, node_balance,
}

-- what a client sees of a node
pub record Entry {ℓ} (D : Type ℓ) : Type ℓ where
  pub id : ℕ
  pub key : ℤ
  pub payload : D

module _ {ℓ} {D : Type ℓ} where
  abbrev pub entry : Node D → Entry D
  entry n = record { id = n.id; key = n.key; payload = n.payload }

  abbrev pub in_order : Tree D → List (Entry D)
  in_order leaf = []
  in_order (node l n r) = in_order l ++ entry n ∷ in_order r

  abbrev pub size : Tree D → ℕ
  size t = length (in_order t)

  pub in_order-set_parent : (p : ℕ) (t : Tree D) → in_order (set_parent p t) ≡ in_order t
  unfolding set_parent
  in_order-set_parent p leaf = refl
  in_order-set_parent p (node l n r) = refl

  pub in_order-node_rotate_left :
      (t : Tree D) {t' : Tree D} → node_rotate_left t ≡ some t' → in_order t' ≡ in_order t
  unfolding node_rotate_left
  in_order-node_rotate_left leaf h = cc
  in_order-node_rotate_left (node l a leaf) h = cc
  in_order-node_rotate_left (node l a (node C b r)) h =
      ap in_order (sym (some_inj h)) ∙ simp (in_order-set_parent, append_assoc)

  pub in_order-node_rotate_right :
      (t : Tree D) {t' : Tree D} → node_rotate_right t ≡ some t' → in_order t' ≡ in_order t
  unfolding node_rotate_right
  in_order-node_rotate_right leaf h = cc
  in_order-node_rotate_right (node leaf a r) h = cc
  in_order-node_rotate_right (node (node l b C) a r) h =
      ap in_order (sym (some_inj h)) ∙ simp (in_order-set_parent, append_assoc)

  in_order-balance_left :
      (l : Tree D) (n : Node D) (r : Tree D) {t : Tree D}
      → balance_left l n r ≡ some t
      → in_order t ≡ in_order l ++ entry n ∷ in_order r
  unfolding balance_left
  in_order-balance_left l n r h = elim (Bool-cases (leans_right l)) [
    | inr e ↦ in_order-node_rotate_right (node l n r) (rw e at h)
    | inl e ↦
        let (l', p, q) =
          bind-eq_some (node_rotate_left l) (λ u. node_rotate_right (node u n r)) (rw e at h) in
        in_order-node_rotate_right (node l' n r) q
        ∙ ap (λ xs. xs ++ entry n ∷ in_order r) (in_order-node_rotate_left l p)
  ]

  in_order-balance_right :
      (l : Tree D) (n : Node D) (r : Tree D) {t : Tree D}
      → balance_right l n r ≡ some t
      → in_order t ≡ in_order l ++ entry n ∷ in_order r
  unfolding balance_right
  in_order-balance_right l n r h = elim (Bool-cases (leans_left r)) [
    | inr e ↦ in_order-node_rotate_left (node l n r) (rw e at h)
    | inl e ↦
        let (r', p, q) =
          bind-eq_some (node_rotate_right r) (λ u. node_rotate_left (node l n u)) (rw e at h) in
        in_order-node_rotate_left (node l n r') q
        ∙ ap (λ xs. in_order l ++ entry n ∷ xs) (in_order-node_rotate_right r p)
  ]

  -- Rebalancing keeps the entries and their order.
  pub in_order-node_balance :
      (l : Tree D) (n : Node D) (r : Tree D) {t : Tree D}
      → node_balance (node l n r) ≡ some t
      → in_order t ≡ in_order l ++ entry n ∷ in_order r
  unfolding node_balance
  in_order-node_balance l n r h =
      let n' : Node D = record n { height = fixed_height l r } in
      elim (Bool-cases (node_height l == node_height r + 2)) [
        | inl e ↦ in_order-balance_left l n' r (rw e at h)
        | inr e ↦ elim (Bool-cases (node_height r == node_height l + 2)) [
          | inl e' ↦ in_order-balance_right l n' r (rw (e, e') at h)
          | inr e' ↦ ap in_order (sym (some_inj (rw (e, e') at h)))
        ]
      ]
