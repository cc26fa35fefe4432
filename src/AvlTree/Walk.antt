-- ===== src/AvlTree/Walk.antt =====
-- supertel/lib/avl-tree.c: the walk from a node to the next and to the one before, along the `parent`
-- fields. A pointer is the tree that starts at the node, and `leaf` is NULL; `memory` is the tree that starts
-- at an address, or `leaf`.
pub mod Next
use interview.Base.{
  ℕ, zero, suc, Bool, true, false, not, ◌&&◌, Option, none, some, ◌==◌, if◌then◌else◌,
}
use interview.AvlTree.{Node, Tree, leaf, node, address, null}

module _ {ℓ} {D : Type ℓ} where
  -- the fields of a node, and what `node_is_left` and `node_is_right` test
  abbrev pub left_of : Tree D → Tree D
  left_of leaf = leaf
  left_of (node l n r) = l

  abbrev pub right_of : Tree D → Tree D
  right_of leaf = leaf
  right_of (node l n r) = r

  unfoldable pub is_null : Tree D → Bool
  is_null leaf = true
  is_null (node l n r) = false

  unfoldable pub leftmost : Tree D → Tree D
  leftmost leaf = leaf
  leftmost (node leaf n r) = node leaf n r
  leftmost (node (node a m b) n r) = leftmost (node a m b)

  unfoldable pub rightmost : Tree D → Tree D
  rightmost leaf = leaf
  rightmost (node l n leaf) = node l n leaf
  rightmost (node l n (node a m b)) = rightmost (node a m b)

  module _ (memory : ℕ → Tree D) where
    unfoldable pub parent_of : Tree D → Tree D
    parent_of leaf = leaf
    parent_of (node l n r) = memory n.parent

    unfoldable pub node_is_left : Tree D → Bool
    unfolding parent_of is_null address
    node_is_left t = let p = parent_of t in not (is_null p) && address (left_of p) == address t

    unfoldable pub node_is_right : Tree D → Bool
    unfolding parent_of is_null address
    node_is_right t = let p = parent_of t in not (is_null p) && address (right_of p) == address t

    -- `while (n && !node_is_left(n)) n = n->parent;`, and `if (n && !node_is_right(n)) n = n->parent;`
    unfoldable pub climb_next : (rounds : ℕ) → Tree D → Tree D
    unfolding node_is_left node_is_right
    climb_next zero t = leaf
    climb_next (suc rounds) t =
        let higher = climb_next rounds (parent_of t) in
        if is_null t
        then leaf
        else if not (node_is_left t)
        then higher
        else if not (node_is_right t)
        then parent_of t
        else t

    unfoldable pub node_next : (rounds : ℕ) → Tree D → Tree D
    unfolding climb_next leftmost
    node_next rounds leaf = leaf
    node_next rounds (node l n r) =
        let t = node l n r in
        if not (is_null r)
        then leftmost r
        else if node_is_left t
        then parent_of t
        else climb_next rounds (parent_of t)

    -- `while (n && node_is_left(n)) n = n->parent;`, and `if (n && !node_is_left(n)) n = n->parent;`
    unfoldable pub climb_prev : (rounds : ℕ) → Tree D → Tree D
    unfolding node_is_left
    climb_prev zero t = leaf
    climb_prev (suc rounds) t =
        let higher = climb_prev rounds (parent_of t) in
        if is_null t then leaf else if node_is_left t then higher else parent_of t

    unfoldable pub node_prev : (rounds : ℕ) → Tree D → Tree D
    unfolding climb_prev node_is_right rightmost
    node_prev rounds leaf = leaf
    node_prev rounds (node l n r) =
        let t = node l n r in
        if not (is_null l)
        then rightmost l
        else if node_is_right t
        then parent_of t
        else climb_prev rounds (parent_of t)
