-- ===== src/AvlTree/Shape.antt =====
-- The balance condition, and what rebalancing makes of two balanced subtrees.
use native.Mathlib.Decide.{dec_lt}
use interview.Base.{
  ℕ, suc, ◌+◌, ◌≤◌, ◌<◌, ◌≡◌, refl, false, ◌⊎◌, inl, inr, Option, some, max, arith, ltb, ◌==◌,
  Bool-cases, ◌>>=◌,
}
use interview.AvlTree.{
  Node, Tree, leaf, node, set_parent, node_height, fixed_height, leans_left, leans_right,
  node_rotate_left, node_rotate_right, balance_left, balance_right, node_balance,
}

lt_false : (a b : ℕ) → b ≤ a → ltb a b ≡ false
lt_false a b h = ground arith

module _ {ℓ} {D : Type ℓ} where
  -- the height that a tree has, whatever its nodes store
  abbrev pub depth : Tree D → ℕ
  depth leaf = 0
  depth (node l n r) = suc (max (depth l) (depth r))

  -- every node stores its height, and its subtrees differ by one level at most
  abbrev pub IsAvl : Tree D → Type 0
  IsAvl leaf = Unit
  IsAvl (node l n r) =
      IsAvl l
      × IsAvl r
      × (n.height ≡ suc (max (depth l) (depth r)))
      × (depth l ≤ depth r + 1)
      × (depth r ≤ depth l + 1)

  pub node_height-IsAvl : (t : Tree D) → IsAvl t → node_height t ≡ depth t
  unfolding node_height
  node_height-IsAvl leaf a = refl
  node_height-IsAvl (node l n r) a = a.2

  pub IsAvl-set_parent : (p : ℕ) (t : Tree D) → IsAvl t → IsAvl (set_parent p t)
  unfolding set_parent
  IsAvl-set_parent p leaf a = a
  IsAvl-set_parent p (node l n r) a = a

  pub depth-set_parent : (p : ℕ) (t : Tree D) → depth (set_parent p t) ≡ depth t
  unfolding set_parent
  depth-set_parent p leaf = refl
  depth-set_parent p (node l n r) = refl

  -- the outcome of joining balanced trees of the heights `hl` and `hr`
  pub record Joined (hl hr : ℕ) (o : Option (Tree D)) : Type ℓ where
    pub result : Tree D
    pub returns : o ≡ some result
    pub avl : IsAvl result
    pub low : max hl hr ≤ depth result
    pub high : depth result ≤ suc (max hl hr)
    pub even : hl ≤ hr + 1 → hr ≤ hl + 1 → depth result ≡ suc (max hl hr)

  -- `even` in the form that the arithmetic tactics take apart
  pub settled :
      {hl hr : ℕ} {o : Option (Tree D)} (j : Joined hl hr o)
      → (depth j.result ≡ suc (max hl hr)) ⊎ ((hl + 1 < hr) ⊎ (hr + 1 < hl))
  settled {hl} {hr} j = elim (dec_lt (hl + 1) hr) [
    | yes p ↦ inr (inl p)
    | no p ↦ elim (dec_lt (hr + 1) hl) [
      | yes q ↦ inr (inr q)
      | no q ↦ inl (j.even (omega arith) (omega arith))
    ]
  ]

  -- a node over two subtrees, with its height stored
  abbrev fixed : Tree D → Node D → Tree D → Tree D
  fixed l n r = node l (record n { height = fixed_height l r }) r

  fixed-IsAvl :
      (l : Tree D) (n : Node D) (r : Tree D)
      → IsAvl l
      → IsAvl r
      → depth l ≤ depth r + 1
      → depth r ≤ depth l + 1
      → max (depth l) (depth r) < 255
      → IsAvl (fixed l n r)
  unfolding fixed_height
  fixed-IsAvl l n r al ar p q small =
      (al, ar, rw (node_height-IsAvl l al, node_height-IsAvl r ar) (ground arith), p, q)

  -- the node that a rotation moves down, to the right and to the left
  abbrev lowered_right : Tree D → Node D → Node D → Tree D → Tree D
  lowered_right c b n r = fixed (set_parent n.id c) (record n { parent = b.id }) r

  abbrev lowered_left : Tree D → Node D → Node D → Tree D → Tree D
  lowered_left l n b c = fixed l (record n { parent = b.id }) (set_parent n.id c)

  lowered_right-IsAvl :
      (c : Tree D) (b n : Node D) (r : Tree D)
      → IsAvl c
      → IsAvl r
      → depth c ≤ depth r + 1
      → depth r ≤ depth c + 1
      → max (depth c) (depth r) < 255
      → IsAvl (lowered_right c b n r)
  lowered_right-IsAvl c b n r ac ar p q small =
      let dc = depth-set_parent n.id c in
      fixed-IsAvl (set_parent n.id c) (record n { parent = b.id }) r (IsAvl-set_parent n.id c ac) ar
        (omega (arith, dc)) (omega (arith, dc)) (omega (arith, dc))

  lowered_left-IsAvl :
      (l : Tree D) (n b : Node D) (c : Tree D)
      → IsAvl l
      → IsAvl c
      → depth l ≤ depth c + 1
      → depth c ≤ depth l + 1
      → max (depth l) (depth c) < 255
      → IsAvl (lowered_left l n b c)
  lowered_left-IsAvl l n b c al ac p q small =
      let dc = depth-set_parent n.id c in
      fixed-IsAvl l (record n { parent = b.id }) (set_parent n.id c) al (IsAvl-set_parent n.id c ac)
        (omega (arith, dc)) (omega (arith, dc)) (omega (arith, dc))

  -- the outcome of a rotation, from the facts about the two trees that it joins at `b`
  joined :
      (hl hr : ℕ) (l : Tree D) (b : Node D) (r : Tree D) {o : Option (Tree D)}
      → o ≡ some (fixed l b r)
      → IsAvl l
      → IsAvl r
      → depth l ≤ depth r + 1
      → depth r ≤ depth l + 1
      → max (depth l) (depth r) < 255
      → max hl hr ≤ suc (max (depth l) (depth r))
      → max (depth l) (depth r) ≤ max hl hr
      → (hl ≤ hr + 1 → hr ≤ hl + 1 → max (depth l) (depth r) ≡ max hl hr)
      → Joined hl hr o
  joined hl hr l b r e al ar p q small lo hi ev = record {
    result = fixed l b r;
    returns = e;
    avl = fixed-IsAvl l b r al ar p q small;
    low = lo;
    high = omega arith;
    even = λ u v. omega (arith, ev u v);
  }

  module _ (n : Node D) (r : Tree D) (ar : IsAvl r) (small : depth r < 250) where
    -- the left subtree is too high by 2, and does not lean to the right
    rotate_right-Joined :
        (l : Tree D) (b : Node D) (c : Tree D)
        → IsAvl l
        → IsAvl c
        → depth l ≡ depth r + 1
        → depth r ≤ depth c
        → depth c ≤ depth r + 1
        → Joined (depth r + 2) (depth r) (node_rotate_right (node (node l b c) n r))
    unfolding node_rotate_right
    rotate_right-Joined l b c al ac e lo hi =
        let dc = depth-set_parent n.id c in
        joined (depth r + 2) (depth r) l (record b { parent = n.parent }) (lowered_right c b n r)
          refl al (lowered_right-IsAvl c b n r ac ar (omega arith) (omega arith) (omega arith))
          (omega (arith, dc)) (omega (arith, dc)) (omega (arith, dc)) (omega (arith, dc))
          (omega (arith, dc)) (λ u v. omega arith)

    -- it leans to the right
    rotate_twice_right-Joined :
        (l : Tree D) (m : Node D) (a : Tree D) (b : Node D) (c : Tree D)
        → IsAvl l
        → IsAvl a
        → IsAvl c
        → depth l ≡ depth r
        → max (depth a) (depth c) ≡ depth r
        → depth a ≤ depth c + 1
        → depth c ≤ depth a + 1
        → Joined
            (depth r + 2)
            (depth r)
            (node_rotate_left (node l m (node a b c)) >>= λ u. node_rotate_right (node u n r))
    unfolding node_rotate_left node_rotate_right
    rotate_twice_right-Joined l m a b c al aa ac e top p q =
        let da = depth-set_parent m.id a in
        let dc = depth-set_parent n.id c in
        joined (depth r + 2) (depth r) (lowered_left l m b a) (record b { parent = n.parent })
          (lowered_right c b n r) refl
          (lowered_left-IsAvl l m b a al aa (omega arith) (omega arith) (omega arith))
          (lowered_right-IsAvl c b n r ac ar (omega arith) (omega arith) (omega arith))
          (omega (arith, da, dc)) (omega (arith, da, dc)) (omega (arith, da, dc))
          (omega (arith, da, dc)) (omega (arith, da, dc)) (λ u v. omega arith)

  module _ (l : Tree D) (n : Node D) (al : IsAvl l) (small : depth l < 250) where
    rotate_left-Joined :
        (c : Tree D) (b : Node D) (r : Tree D)
        → IsAvl c
        → IsAvl r
        → depth r ≡ depth l + 1
        → depth l ≤ depth c
        → depth c ≤ depth l + 1
        → Joined (depth l) (depth l + 2) (node_rotate_left (node l n (node c b r)))
    unfolding node_rotate_left
    rotate_left-Joined c b r ac ar e lo hi =
        let dc = depth-set_parent n.id c in
        joined (depth l) (depth l + 2) (lowered_left l n b c) (record b { parent = n.parent }) r
          refl (lowered_left-IsAvl l n b c al ac (omega arith) (omega arith) (omega arith)) ar
          (omega (arith, dc)) (omega (arith, dc)) (omega (arith, dc)) (omega (arith, dc))
          (omega (arith, dc)) (λ u v. omega arith)

    rotate_twice_left-Joined :
        (a : Tree D) (b : Node D) (c : Tree D) (m : Node D) (r : Tree D)
        → IsAvl a
        → IsAvl c
        → IsAvl r
        → depth r ≡ depth l
        → max (depth a) (depth c) ≡ depth l
        → depth a ≤ depth c + 1
        → depth c ≤ depth a + 1
        → Joined
            (depth l)
            (depth l + 2)
            (node_rotate_right (node (node a b c) m r) >>= λ u. node_rotate_left (node l n u))
    unfolding node_rotate_left node_rotate_right
    rotate_twice_left-Joined a b c m r aa ac ar e top p q =
        let da = depth-set_parent n.id a in
        let dc = depth-set_parent m.id c in
        joined (depth l) (depth l + 2) (lowered_left l n b a) (record b { parent = n.parent })
          (lowered_right c b m r) refl
          (lowered_left-IsAvl l n b a al aa (omega arith) (omega arith) (omega arith))
          (lowered_right-IsAvl c b m r ac ar (omega arith) (omega arith) (omega arith))
          (omega (arith, da, dc)) (omega (arith, da, dc)) (omega (arith, da, dc))
          (omega (arith, da, dc)) (omega (arith, da, dc)) (λ u v. omega arith)

  leans_right-eq :
      (l : Tree D) (n : Node D) (r : Tree D)
      → IsAvl l
      → IsAvl r
      → leans_right (node l n r) ≡ ltb (depth l) (depth r)
  unfolding leans_right
  leans_right-eq l n r al ar = rw (node_height-IsAvl l al, node_height-IsAvl r ar)

  leans_left-eq :
      (l : Tree D) (n : Node D) (r : Tree D)
      → IsAvl l
      → IsAvl r
      → leans_left (node l n r) ≡ ltb (depth r) (depth l)
  unfolding leans_left
  leans_left-eq l n r al ar = rw (node_height-IsAvl l al, node_height-IsAvl r ar)

  balance_left-Joined :
      (l : Tree D) (n : Node D) (r : Tree D)
      → IsAvl l
      → IsAvl r
      → depth l ≡ depth r + 2
      → depth r < 250
      → Joined (depth r + 2) (depth r) (balance_left l n r)
  unfolding balance_left
  balance_left-Joined leaf n r al ar e small = absurd (omega arith)
  balance_left-Joined (node l b leaf) n r (al, ac, s, p, q) ar e small =
      rw (leans_right-eq l b leaf al ac, lt_false (depth l) 0 (omega arith))
        (rotate_right-Joined n r ar small l b leaf al ac (omega arith) (omega arith) (omega arith))
  balance_left-Joined (node l b (node a m c)) n r (al, ac, s, p, q) ar e small =
      elim (Bool-cases (ltb (depth l) (depth (node a m c)))) [
        | inr f ↦
            rw (leans_right-eq l b (node a m c) al ac, f)
              (rotate_right-Joined n r ar small l b (node a m c) al ac (ground arith) (ground arith)
                (ground arith))
        | inl f ↦
            rw (leans_right-eq l b (node a m c) al ac, f)
              (rotate_twice_right-Joined n r ar small l b a m c al ac.0 ac.1 (ground arith)
                (ground arith) (omega arith) (omega arith))
      ]

  balance_right-Joined :
      (l : Tree D) (n : Node D) (r : Tree D)
      → IsAvl l
      → IsAvl r
      → depth r ≡ depth l + 2
      → depth l < 250
      → Joined (depth l) (depth l + 2) (balance_right l n r)
  unfolding balance_right
  balance_right-Joined l n leaf al ar e small = absurd (omega arith)
  balance_right-Joined l n (node leaf b r) al (ac, ar, s, p, q) e small =
      rw (leans_left-eq leaf b r ac ar, lt_false (depth r) 0 (omega arith))
        (rotate_left-Joined l n al small leaf b r ac ar (omega arith) (omega arith) (omega arith))
  balance_right-Joined l n (node (node a m c) b r) al (ac, ar, s, p, q) e small =
      elim (Bool-cases (ltb (depth r) (depth (node a m c)))) [
        | inr f ↦
            rw (leans_left-eq (node a m c) b r ac ar, f)
              (rotate_left-Joined l n al small (node a m c) b r ac ar (ground arith) (ground arith)
                (ground arith))
        | inl f ↦
            rw (leans_left-eq (node a m c) b r ac ar, f)
              (rotate_twice_left-Joined l n al small a m c b r ac.0 ac.1 ar (ground arith)
                (ground arith) (omega arith) (omega arith))
      ]

  -- Rebalancing a node whose balanced subtrees differ by two levels at most.
  pub node_balance-Joined :
      (l : Tree D) (n : Node D) (r : Tree D)
      → IsAvl l
      → IsAvl r
      → depth l ≤ depth r + 2
      → depth r ≤ depth l + 2
      → max (depth l) (depth r) < 250
      → Joined (depth l) (depth r) (node_balance (node l n r))
  unfolding node_balance
  node_balance-Joined l n r al ar p q small =
      let n' : Node D = record n { height = fixed_height l r } in
      let hl = node_height-IsAvl l al in
      let hr = node_height-IsAvl r ar in
      elim (Bool-cases (node_height l == node_height r + 2)) [
        | inl e ↦
            let e' : depth l ≡ depth r + 2 = ground (arith, hl, hr) in
            rw e (rw (← e') at (balance_left-Joined l n' r al ar e' (omega arith)))
        | inr e ↦ elim (Bool-cases (node_height r == node_height l + 2)) [
          | inl f ↦
              let f' : depth r ≡ depth l + 2 = ground (arith, hl, hr) in
              rw (e, f) (rw (← f') at (balance_right-Joined l n' r al ar f' (omega arith)))
          | inr f ↦
              rw (e, f)
                (joined (depth l) (depth r) l n r refl al ar (ground (arith, hl, hr))
                  (ground (arith, hl, hr)) (omega arith) (omega arith) (omega arith) (λ u v. refl))
        ]
      ]
