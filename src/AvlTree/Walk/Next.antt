-- ===== src/AvlTree/Walk/Next.antt =====
-- The walk visits the entries in their order.
use mathlib.Core.Path.{subst}
use interview.Base.{
  ℕ, zero, suc, ◌+◌, ◌-◌, ◌≤◌, ◌<◌, ◌≡◌, refl, sym, ap, ◌∙◌, inl, inr, true, false, ◌&&◌, List, [],
  ◌∷◌, ◌++◌, append_assoc, append-nil, arith, ◌==◌, Bool-cases,
}
use interview.AvlTree.{Node, Tree, leaf, node, address, null}
use interview.AvlTree.Order.{Entry, entry, in_order}
use interview.AvlTree.Shape.{depth}
use interview.AvlTree.Walk.{
  is_null, leftmost, parent_of, node_is_left, node_is_right, climb_next, node_next,
}

module _ {ℓ} {D : Type ℓ} (memory : ℕ → Tree D) where
  -- two children of a node are not at the same address
  abbrev pub Siblings : Tree D → Tree D → Type 0
  Siblings leaf leaf = Unit
  Siblings leaf (node l n r) = (n.id == null) ≡ false
  Siblings (node l n r) leaf = (n.id == null) ≡ false
  Siblings (node a m b) (node l n r) = (m.id == n.id) ≡ false

  -- the memory holds the nodes of a tree, whose `parent` fields are the addresses of the nodes above and
  -- `p`
  abbrev pub IsStored : ℕ → Tree D → Type ℓ
  IsStored p leaf = Unit
  IsStored p (node l n r) =
      (n.parent ≡ p) × (memory n.id ≡ node l n r) × Siblings l r × IsStored n.id l × IsStored n.id r

  -- the node `x` in a tree, with the entries behind its own subtree
  pub data Below (x : Tree D) : Tree D → List (Entry D) → Type ℓ where
    here : Below x x []
    left :
        {l : Tree D} {n : Node D} {r : Tree D} {a b : List (Entry D)}
        → Below x l a
        → b ≡ a ++ entry n ∷ in_order r
        → Below x (node l n r) b
    right :
        {l : Tree D} {n : Node D} {r : Tree D} {a : List (Entry D)}
        → Below x r a
        → Below x (node l n r) a

  -- the tree starts at the node of an entry
  abbrev pub Names : Tree D → Entry D → Type ℓ
  Names t e = (l : Tree D) × (n : Node D) × (r : Tree D) × (t ≡ node l n r) × (entry n ≡ e)

  same : (a b : ℕ) → a ≡ b → (a == b) ≡ true
  same a b e = ground (arith, e)

  differs : (a b : ℕ) → (a == b) ≡ false → (b == a) ≡ false
  differs a b e = ground (arith, e)

  module _ (a : Tree D) (m : Node D) (b : Tree D) (n : Node D) (p : ℕ) where
    -- the node as a child
    abbrev child : Tree D
    child = node a m b

    Siblings-left : (r : Tree D) → Siblings child r → (address r == m.id) ≡ false
    unfolding address
    Siblings-left leaf s = differs m.id null s
    Siblings-left (node c k d) s = differs m.id k.id s

    Siblings-right : (l : Tree D) → Siblings l child → (address l == m.id) ≡ false
    unfolding address
    Siblings-right leaf s = differs m.id null s
    Siblings-right (node c k d) s = s

    left_child :
        (r : Tree D)
        → IsStored p (node child n r)
        → (parent_of memory child ≡ node child n r)
          × (node_is_left memory child ≡ true)
          × (node_is_right memory child ≡ false)
    unfolding parent_of node_is_left node_is_right is_null address
    left_child r stored =
        let up : parent_of memory child ≡ node child n r = ap memory stored.3.0 ∙ stored.1 in
        (up, rw up (same m.id m.id refl), rw up (Siblings-left r stored.2))

    right_child :
        (l : Tree D)
        → IsStored p (node l n child)
        → (parent_of memory child ≡ node l n child) × (node_is_left memory child ≡ false)
    unfolding parent_of node_is_left is_null address
    right_child l stored =
        let up : parent_of memory child ≡ node l n child = ap memory stored.4.0 ∙ stored.1 in
        (up, rw up (Siblings-right l stored.2))

  module _ (xl : Tree D) (xn : Node D) (xr : Tree D) where
    abbrev x : Tree D
    x = node xl xn xr

    -- the rounds that a climb from `x` has, for `k` rounds from the top
    rounds : {s : Tree D} {a : List (Entry D)} → Below x s a → ℕ → ℕ
    rounds here k = k
    rounds (left d e) k = rounds d (suc k)
    rounds (right d) k = rounds d (suc k)

    -- what a climb from `x` in the tree `s` leads to
    abbrev Climbs : (f : ℕ → ℕ) → Tree D → List (Entry D) → Type ℓ
    Climbs f s [] = (k : ℕ) → climb_next memory (f k) x ≡ climb_next memory k s
    Climbs f s (e ∷ a) = (t : Tree D) × ((k : ℕ) → climb_next memory (f k) x ≡ t) × Names t e

    Climbs-left :
        (l : Tree D) (n : Node D) (r : Tree D) (p : ℕ) (f : ℕ → ℕ) (a : List (Entry D))
        → is_null l ≡ false
        → IsStored p (node l n r)
        → Climbs f l a
        → Climbs (λ k. f (suc k)) (node l n r) (a ++ entry n ∷ in_order r)
    unfolding climb_next is_null
    Climbs-left leaf n r p f a some stored c = cc
    Climbs-left (node la m lb) n r p f (e ∷ a) some stored c = (c.0, (λ k. c.1 (suc k)), c.2)
    Climbs-left (node la m lb) n r p f [] some stored c =
        let (up, is_left, not_right) = left_child la m lb n p r stored in
        (
          node (node la m lb) n r,
          (λ k. c (suc k) ∙ rw (is_left, not_right) up),
          (node la m lb, n, r, refl, refl),
        )

    Climbs-right :
        (l : Tree D) (n : Node D) (r : Tree D) (p : ℕ) (f : ℕ → ℕ) (a : List (Entry D))
        → is_null r ≡ false
        → IsStored p (node l n r)
        → Climbs f r a
        → Climbs (λ k. f (suc k)) (node l n r) a
    unfolding climb_next is_null
    Climbs-right l n leaf p f a some stored c = cc
    Climbs-right l n (node ra m rb) p f (e ∷ a) some stored c = (c.0, (λ k. c.1 (suc k)), c.2)
    Climbs-right l n (node ra m rb) p f [] some stored c =
        let (up, not_left) = right_child ra m rb n p l stored in
        λ k. c (suc k) ∙ rw (not_left, up) refl

    Below-nonempty : {s : Tree D} {a : List (Entry D)} → Below x s a → is_null s ≡ false
    unfolding is_null
    Below-nonempty here = refl
    Below-nonempty (left d e) = refl
    Below-nonempty (right d) = refl

    climbs :
        {s : Tree D} {a : List (Entry D)} (p : ℕ) (d : Below x s a)
        → IsStored p s
        → Climbs (rounds d) s a
    unfolding rounds
    climbs p here stored = λ k. refl
    climbs p (left {l} {n} {r} {a} {b} d e) stored =
        subst (Climbs (λ k. rounds d (suc k)) (node l n r)) (sym e)
          (Climbs-left l n r p (rounds d) a (Below-nonempty d) stored (climbs n.id d stored.3))
    climbs p (right {l} {n} {r} {a} d) stored =
        Climbs-right l n r p (rounds d) a (Below-nonempty d) stored (climbs n.id d stored.4)

    -- the nodes above `x`
    steps : {s : Tree D} {a : List (Entry D)} → Below x s a → ℕ
    steps here = 0
    steps (left d e) = suc (steps d)
    steps (right d) = suc (steps d)

    rounds-steps :
        {s : Tree D} {a : List (Entry D)} (d : Below x s a) (k : ℕ) → rounds d k ≡ k + steps d
    unfolding rounds steps
    rounds-steps here k = omega arith
    rounds-steps (left d e) k = omega (arith, rounds-steps d (suc k))
    rounds-steps (right d) k = omega (arith, rounds-steps d (suc k))

    steps-depth : {s : Tree D} {a : List (Entry D)} (d : Below x s a) → steps d < depth s
    unfolding steps
    steps-depth here = omega arith
    steps-depth (left d e) = omega (arith, steps-depth d)
    steps-depth (right d) = omega (arith, steps-depth d)

    -- no node is both a left and a right child
    abbrev NotBoth : Tree D → Type 0
    NotBoth s = (node_is_left memory s && node_is_right memory s) ≡ false

    not_both :
        {s : Tree D} {a : List (Entry D)} (p : ℕ)
        → Below x s a
        → IsStored p s
        → NotBoth s
        → NotBoth x
    unfolding node_is_left
    not_both p here stored top = top
    not_both p (left {l = leaf} d e) stored top = cc (Below-nonempty d)
    not_both p (left {l = node la m lb} {n = n} {r = r} d e) stored top =
        let (_, is_left, not_right) = left_child la m lb n p r stored in
        not_both n.id d stored.3 (rw (is_left, not_right) refl)
    not_both p (right {r = leaf} d) stored top = cc (Below-nonempty d)
    not_both p (right {l = l} {n = n} {r = node ra m rb} d) stored top =
        let (_, not_left) = right_child ra m rb n p l stored in
        not_both n.id d stored.4 (rw not_left refl)

    -- where the entry of `x` stands
    Below-in_order :
        {s : Tree D} {a : List (Entry D)}
        → Below x s a
        → (before : List (Entry D)) × (in_order s ≡ before ++ entry xn ∷ (in_order xr ++ a))
    Below-in_order here =
        (in_order xl, ap (λ ys. in_order xl ++ entry xn ∷ ys) (sym (append-nil (in_order xr))))
    Below-in_order (left {l} {n} {r} {a} {b} d e) =
        let (before, p) = Below-in_order d in
        (
          before,
          ap (λ ys. ys ++ entry n ∷ in_order r) p
              ∙ append_assoc before (entry xn ∷ (in_order xr ++ a)) (entry n ∷ in_order r)
              ∙ ap (λ ys. before ++ entry xn ∷ ys)
                  (append_assoc (in_order xr) a (entry n ∷ in_order r)
                    ∙ ap (λ ys. in_order xr ++ ys) (sym e)),
        )
    Below-in_order (right {l} {n} {r} {a} d) =
        let (before, p) = Below-in_order d in
        (
          in_order l ++ entry n ∷ before,
          ap (λ ys. in_order l ++ entry n ∷ ys) p
              ∙ sym (append_assoc (in_order l) (entry n ∷ before) (entry xn ∷ (in_order xr ++ a))),
        )

  climb-leaf : (k : ℕ) → climb_next memory k leaf ≡ leaf
  unfolding climb_next is_null
  climb-leaf zero = refl
  climb-leaf (suc k) = refl

  climb-top :
      (k : ℕ) (l : Tree D) (n : Node D) (r : Tree D)
      → n.parent ≡ null
      → memory null ≡ leaf
      → climb_next memory k (node l n r) ≡ leaf
  unfolding climb_next node_is_left parent_of is_null
  climb-top zero l n r top nothing = refl
  climb-top (suc k) l n r top nothing =
      let up : memory n.parent ≡ leaf = ap memory top ∙ nothing in rw up (climb-leaf k)

  -- the walk ends, or goes on to the first entry behind
  abbrev pub GoesTo : Tree D → List (Entry D) → Type ℓ
  GoesTo t [] = t ≡ leaf
  GoesTo t (e ∷ a) = Names t e

  leftmost-GoesTo :
      (l : Tree D) (n : Node D) (r : Tree D) (a : List (Entry D))
      → GoesTo (leftmost (node l n r)) (in_order (node l n r) ++ a)
  unfolding leftmost
  leftmost-GoesTo leaf n r a = (leaf, n, r, refl, refl)
  leftmost-GoesTo (node b m c) n r a =
      subst (GoesTo (leftmost (node b m c)))
        (sym (append_assoc (in_order (node b m c)) (entry n ∷ in_order r) a))
        (leftmost-GoesTo b m c (entry n ∷ in_order r ++ a))

  Climbs-GoesTo :
      (xl : Tree D) (xn : Node D) (xr : Tree D) {t : Tree D} (a : List (Entry D))
      (d : Below (node xl xn xr) t a) (k : ℕ)
      → climb_next memory k t ≡ leaf
      → Climbs xl xn xr (rounds xl xn xr d) t a
      → GoesTo (climb_next memory (rounds xl xn xr d k) (node xl xn xr)) a
  Climbs-GoesTo xl xn xr [] d k top c = c k ∙ top
  Climbs-GoesTo xl xn xr (e ∷ a) d k top c = subst (λ t. Names t e) (sym (c.1 k)) c.2

  climb-root :
      (k : ℕ) (t : Tree D) → IsStored null t → memory null ≡ leaf → climb_next memory k t ≡ leaf
  climb-root k leaf stored nothing = climb-leaf k
  climb-root k (node l n r) stored nothing = climb-top k l n r stored.0 nothing

  root-no_child :
      (t : Tree D)
      → IsStored null t
      → memory null ≡ leaf
      → (node_is_left memory t && node_is_right memory t) ≡ false
  unfolding node_is_left parent_of is_null
  root-no_child leaf stored nothing = refl
  root-no_child (node l n r) stored nothing =
      let up : memory n.parent ≡ leaf = ap memory stored.0 ∙ nothing in rw up refl

  -- without a right subtree the walk is a climb
  node_next-climb :
      (rounds : ℕ) (l : Tree D) (n : Node D)
      → (node_is_left memory (node l n leaf) && node_is_right memory (node l n leaf)) ≡ false
      → node_next memory rounds (node l n leaf) ≡ climb_next memory (suc rounds) (node l n leaf)
  unfolding node_next climb_next is_null
  node_next-climb rounds l n h = elim (Bool-cases (node_is_left memory (node l n leaf))) [
    | inl e ↦
        let not_right : node_is_right memory (node l n leaf) ≡ false = rw e at h in
        rw (e, not_right) refl
    | inr e ↦ rw e refl
  ]

  -- `node_next` goes to the next entry of the tree, or to NULL behind the last: for a node `x` of a tree
  -- whose nodes the memory holds, with the right `parent` fields and no two children of a node at one
  -- address, `x` stands in the sequence of the tree's entries, and the walk leads to the node of the
  -- entry directly behind it. The loop needs no more rounds than the depth of the tree.
  pub node_next-GoesTo :
      (xl : Tree D) (xn : Node D) (xr : Tree D) {t : Tree D} {a : List (Entry D)} (rounds : ℕ)
      → Below (node xl xn xr) t a
      → IsStored null t
      → memory null ≡ leaf
      → depth t ≤ rounds
      → (before : List (Entry D)) × (in_order t ≡ before ++ entry xn ∷ (in_order xr ++ a))
        × GoesTo (node_next memory rounds (node xl xn xr)) (in_order xr ++ a)
  unfolding node_next is_null
  node_next-GoesTo xl xn (node b m c) {a = a} k d stored nothing enough =
      let (before, p) = Below-in_order xl xn (node b m c) d in (before, p, leftmost-GoesTo b m c a)
  node_next-GoesTo xl xn leaf {t} {a} k d stored nothing enough =
      let (before, p) = Below-in_order xl xn leaf d in
      let left_over = suc k - steps xl xn leaf d in
      let all : rounds xl xn leaf d left_over ≡ suc k =
        omega (arith, rounds-steps xl xn leaf d left_over, steps-depth xl xn leaf d, enough) in
      let single = not_both xl xn leaf null d stored (root-no_child t stored nothing) in
      let climb =
        Climbs-GoesTo xl xn leaf a d left_over (climb-root left_over t stored nothing)
          (climbs xl xn leaf null d stored) in
      (
        before,
        p,
        subst (λ z. GoesTo z a) (sym (node_next-climb k xl xn single))
            (subst (λ j. GoesTo (climb_next memory j (node xl xn leaf)) a) all climb),
      )
