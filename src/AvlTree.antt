-- ===== src/AvlTree.antt =====
-- supertel/lib/avl-tree.c: the tree as a value. A node keeps its address `id` and the stored fields
-- `parent` (0 is NULL) and `height`; the child pointers are the subtrees. `none` is a fault: a
-- dereference of NULL, or the failed assertion on what the allocator returned.
pub mod Insert
pub mod InsertOrGet
pub mod Data
pub mod Keys
pub mod Walk
pub mod Write
pub mod Get
pub mod Built
pub mod Links
pub mod Operations
pub mod Order
pub mod Remove
pub mod Shape
pub mod Sorted
use interview.Base.{
  ℕ, ◌+◌, ◌-◌, ◌%◌, ◌^◌, Bool, true, false, not, ◌&&◌, Option, none, some, List, [], ◌∷◌, ◌++◌, ltb,
  ◌==◌, if◌then◌else◌, ◌>>=◌,
}
use interview.Base.Int.{ℤ, ltz, eqz}

pub record Node {ℓ} (D : Type ℓ) : Type ℓ where
  pub id : ℕ
  pub parent : ℕ
  pub height : ℕ
  pub key : ℤ
  pub payload : D

pub data Tree {ℓ} (D : Type ℓ) : Type ℓ where
  leaf : Tree D
  node : Tree D → Node D → Tree D → Tree D

abbrev pub null : ℕ
null = 0

module _ {ℓ} {D : Type ℓ} where
  -- the address that a pointer to the root of the subtree holds
  unfoldable pub address : Tree D → ℕ
  address leaf = null
  address (node l n r) = n.id

  unfoldable pub node_height : Tree D → ℕ
  node_height leaf = 0
  node_height (node l n r) = n.height

  -- `(hl > hr ? hl : hr) + 1`, stored in an `unsigned char`
  unfoldable pub fixed_height : Tree D → Tree D → ℕ
  unfolding node_height
  fixed_height l r =
      let hl = node_height l in
      let hr = node_height r in (((if ltb hr hl then hl else hr) + 1) % 256)

  unfoldable pub node_fix_height : Tree D → Option (Tree D)
  unfolding fixed_height
  node_fix_height leaf = none
  node_fix_height (node l n r) = some (node l (record n { height = fixed_height l r }) r)

  -- `if (C) C->parent = a`
  unfoldable pub set_parent : ℕ → Tree D → Tree D
  set_parent p leaf = leaf
  set_parent p (node l n r) = node l (record n { parent = p }) r

  unfoldable pub node_rotate_left : Tree D → Option (Tree D)
  unfolding node_fix_height set_parent
  node_rotate_left (node l a (node C b r)) = do
    a' ← node_fix_height (node l (record a { parent = b.id }) (set_parent a.id C))
    node_fix_height (node a' (record b { parent = a.parent }) r)
  node_rotate_left _ = none

  unfoldable pub node_rotate_right : Tree D → Option (Tree D)
  unfolding node_fix_height set_parent
  node_rotate_right (node (node l b C) a r) = do
    a' ← node_fix_height (node (set_parent a.id C) (record a { parent = b.id }) r)
    node_fix_height (node l (record b { parent = a.parent }) a')
  node_rotate_right _ = none

  -- `node_balance_factor(t) < 0` and `node_balance_factor(t) > 0`
  unfoldable pub leans_right : Tree D → Bool
  unfolding node_height
  leans_right leaf = false
  leans_right (node l n r) = ltb (node_height l) (node_height r)

  unfoldable pub leans_left : Tree D → Bool
  unfolding node_height
  leans_left leaf = false
  leans_left (node l n r) = ltb (node_height r) (node_height l)

  -- `case 2:` and `case -2:`
  unfoldable pub balance_left : Tree D → Node D → Tree D → Option (Tree D)
  unfolding leans_right node_rotate_left node_rotate_right
  balance_left l n r = do
    l' ← if leans_right l then node_rotate_left l else some l
    node_rotate_right (node l' n r)

  unfoldable pub balance_right : Tree D → Node D → Tree D → Option (Tree D)
  unfolding leans_left node_rotate_left node_rotate_right
  balance_right l n r = do
    r' ← if leans_left r then node_rotate_right r else some r
    node_rotate_left (node l n r')

  -- the switch is on `node_height(n->left) - node_height(n->right)`
  unfoldable pub node_balance : Tree D → Option (Tree D)
  unfolding fixed_height balance_left balance_right
  node_balance leaf = none
  node_balance (node l n r) =
      let n' : Node D = record n { height = fixed_height l r } in
      if node_height l == node_height r + 2
      then balance_left l n' r
      else if node_height r == node_height l + 2
      then balance_right l n' r
      else some (node l n' r)

  -- `node_simple_allocator` and `node_inplace_allocator`: `fresh` is what `malloc` returns, `d` what
  -- `data` then is (NULL, or the block behind the node)
  unfoldable pub node_allocator : ℕ → D → ℕ → ℤ → Option (Tree D)
  node_allocator fresh d parent k =
      if fresh == null
      then none
      else some (
          node leaf (record { id = fresh; parent = parent; height = 1; key = k; payload = d }) leaf)

  module _ (fresh : ℕ) (d : D) (k : ℤ) where
    -- `*inserted` is `fresh`
    unfoldable pub node_insert : ℕ → Tree D → Option (Tree D)
    unfolding node_allocator node_balance
    node_insert parent leaf = node_allocator fresh d parent k
    node_insert parent (node l n r) = elim (ltz k n.key) [
      | true ↦ do l' ← node_insert n.id l; node_balance (node l' n r)
      | false ↦ do r' ← node_insert n.id r; node_balance (node l n r')
    ]

    -- with `*inserted` and `*node_inserted`
    unfoldable pub node_insert_or_get : ℕ → Tree D → Option (Tree D × ℕ × Bool)
    unfolding node_allocator node_balance
    node_insert_or_get parent leaf = do n ← node_allocator fresh d parent k; some (n, fresh, true)
    node_insert_or_get parent (node l n r) = elim (eqz k n.key) [
      | true ↦ some (node l n r, n.id, false)
      | false ↦ elim (ltz k n.key) [
        | true ↦ do
          (l', inserted, node_inserted) ← node_insert_or_get n.id l
          t ← node_balance (node l' n r)
          some (t, inserted, node_inserted)
        | false ↦ do
          (r', inserted, node_inserted) ← node_insert_or_get n.id r
          t ← node_balance (node l n r')
          some (t, inserted, node_inserted)
      ]
    ]

  unfoldable pub node_leftmost : Tree D → Option (Node D)
  node_leftmost leaf = none
  node_leftmost (node leaf n r) = some n
  node_leftmost (node (node a m b) n r) = node_leftmost (node a m b)

  unfoldable pub node_rightmost : Tree D → Option (Node D)
  node_rightmost leaf = none
  node_rightmost (node l n leaf) = some n
  node_rightmost (node l n (node a m b)) = node_rightmost (node a m b)

  unfoldable pub node_remove_min : Tree D → Option (Tree D)
  unfolding node_balance
  node_remove_min leaf = none
  node_remove_min (node leaf n r) = some r
  node_remove_min (node (node a m b) n r) = do
    l' ← node_remove_min (node a m b)
    node_balance (node l' n r)

  -- the `parent` of `n`, whose pointer stands at the address `up`, is another node's address
  abbrev pub is_stray : ℕ → Node D → Bool
  is_stray up n = not (n.parent == null) && not (n.parent == up)

  -- the node that holds the key is unlinked; the caller stores the result where the pointer to it
  -- stood, as `min->parent->left = min` or `min->parent->right = min` has done before; a stray
  -- `parent` makes that write to another node, or to memory that is freed, which is a fault here
  unfoldable pub node_unlink : ℕ → Tree D → Node D → Tree D → Option (Tree D)
  unfolding node_leftmost node_remove_min node_balance set_parent
  node_unlink up l n leaf = if is_stray up n then none else some (set_parent n.parent l)
  node_unlink up l n (node a m b) = if is_stray up n then none else (do
    min ← node_leftmost (node a m b)
    r' ← node_remove_min (node a m b)
    node_balance
        (node (set_parent min.id l) (record min { parent = n.parent }) (set_parent min.id r')))

  -- `up` is the address of the node above, with the data of the removed node, if there is one:
  -- `*removed` and `*_data`
  unfoldable pub node_remove : ℕ → ℤ → Tree D → Option (Tree D × Option D)
  unfolding node_balance node_unlink
  node_remove up k leaf = some (leaf, none)
  node_remove up k (node l n r) = elim (ltz k n.key) [
    | true ↦ do
      (l', removed) ← node_remove n.id k l
      t ← node_balance (node l' n r)
      some (t, removed)
    | false ↦ elim (ltz n.key k) [
      | true ↦ do
        (r', removed) ← node_remove n.id k r
        t ← node_balance (node l n r')
        some (t, removed)
      | false ↦ do t ← node_unlink up l n r; some (t, some n.payload)
    ]
  ]

  -- `while (n && n->key != k) n = k > n->key ? n->right : n->left;`
  unfoldable pub get_loop : ℤ → Tree D → Option (Node D)
  get_loop k leaf = none
  get_loop k (node l n r) = elim (eqz n.key k) [
    | true ↦ some n
    | false ↦ elim (ltz n.key k) [ true ↦ get_loop k r | false ↦ get_loop k l ]
  ]

  -- the addresses that are freed, in order
  unfoldable pub node_purge : Tree D → List ℕ
  node_purge leaf = []
  node_purge (node l n r) = node_purge l ++ node_purge r ++ n.id ∷ []

-- `struct avl_tree`; what `inplace` and `node_data_size` choose is the argument `d` of an insertion
pub record AvlTree {ℓ} (D : Type ℓ) : Type ℓ where
  pub count : ℕ
  pub root : Tree D

module _ {ℓ} {D : Type ℓ} where
  unfoldable pub avl_tree_init : AvlTree D
  avl_tree_init = record { count = 0; root = leaf }

  unfoldable pub avl_tree_get : AvlTree D → ℤ → Option (Node D)
  unfolding get_loop
  avl_tree_get t k = get_loop k t.root

  -- `count` is a `size_t`
  unfoldable pub avl_tree_add : ℕ → D → AvlTree D → ℤ → Option (AvlTree D × ℕ)
  unfolding node_insert address
  avl_tree_add fresh d t k = do
    root ← node_insert fresh d k (address t.root) t.root
    some (record { count = (t.count + 1) % 2 ^ 64; root = root }, fresh)

  unfoldable pub avl_tree_add_or_get : ℕ → D → AvlTree D → ℤ → Option (AvlTree D × ℕ × Bool)
  unfolding node_insert_or_get address
  avl_tree_add_or_get fresh d t k = do
    (root, n, inserted) ← node_insert_or_get fresh d k (address t.root) t.root
    some (
      record { count = (t.count + (if inserted then 1 else 0)) % 2 ^ 64; root = root },
      n,
      inserted,
    )

  -- both `avl_tree_remove` and, with its result, `avl_tree_remove_get_data`
  unfoldable pub avl_tree_remove_get_data : AvlTree D → ℤ → Option (AvlTree D × Option D)
  unfolding node_remove
  avl_tree_remove_get_data t k = do
    (root, removed) ← node_remove null k t.root
    some (
      record {
        count = elim removed [ some d ↦ (t.count + 2 ^ 64 - 1) % 2 ^ 64 | none ↦ t.count ];
        root = root;
      },
      removed,
    )

  unfoldable pub avl_tree_remove : AvlTree D → ℤ → Option (AvlTree D)
  unfolding avl_tree_remove_get_data
  avl_tree_remove t k = do (t', d) ← avl_tree_remove_get_data t k; some t'

  unfoldable pub avl_tree_node_min : Tree D → Option (Node D)
  unfolding node_leftmost
  avl_tree_node_min t = node_leftmost t

  unfoldable pub avl_tree_node_max : Tree D → Option (Node D)
  unfolding node_rightmost
  avl_tree_node_max t = node_rightmost t

  -- with the addresses that are freed
  unfoldable pub avl_tree_purge : AvlTree D → AvlTree D × List ℕ
  unfolding node_purge
  avl_tree_purge t = (record { count = 0; root = leaf }, node_purge t.root)
