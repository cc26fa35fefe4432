-- ===== src/HashMap.antt =====
-- supertel/lib/hash-map.c: from hashes to lists of values, over the AVL tree. A `data_list` is the
-- sequence of its values; `hash_map_node_t *` is the address of the tree's node, in whose block the
-- data stand. `V` is the type of values, and `F` that of the two hash functions, which are stored.
pub mod Insert
pub mod Values
use interview.Base.{
  ℕ, Bool, true, false, Option, none, some, List, [], ◌∷◌, ◌++◌, length, ◌>>=◌, if◌then◌else◌,
}
use interview.Base.Int.{ℤ}
use interview.AvlTree.{
  Node, Tree, leaf, node, AvlTree, avl_tree_init, avl_tree_get, avl_tree_add, avl_tree_add_or_get,
  avl_tree_remove_get_data, avl_tree_node_min, avl_tree_node_max, avl_tree_purge,
}
use interview.AvlTree.Data.{update_data}
use interview.AvlTree.Walk.{node_next, node_prev}

-- `hash_map_node_t`
pub record HashMapNode {ℓ} (V : Type ℓ) : Type ℓ where
  pub hash : ℤ
  pub data_list : List V

-- `hash_map_t`
pub record HashMap {ℓ κ} (V : Type ℓ) (F : Type κ) : Type (ℓ ⊔ κ) where
  pub tree : AvlTree (HashMapNode V)
  pub hasher : Option F
  pub hash_updater : Option F

module _ {ℓ} {V : Type ℓ} where
  -- what is written to a new node's data
  abbrev pub new_node : ℤ → HashMapNode V
  new_node h = record { hash = h; data_list = [] }

  unfoldable pub hash_map_node_size : HashMapNode V → ℕ
  hash_map_node_size hmn = length hmn.data_list

  -- a node is the tree that starts at its `tree_node`, and `leaf` is NULL; the node of the tree that
  -- the walk leads to has the result as its data
  abbrev pub data_of : Tree (HashMapNode V) → Option (HashMapNode V)
  data_of leaf = none
  data_of (node l n r) = some n.payload

  unfoldable pub hash_map_next :
      (ℕ → Tree (HashMapNode V)) → (rounds : ℕ) → Tree (HashMapNode V) → Option (HashMapNode V)
  unfolding node_next
  hash_map_next memory rounds hmn = data_of (node_next memory rounds hmn)

  unfoldable pub hash_map_prev :
      (ℕ → Tree (HashMapNode V)) → (rounds : ℕ) → Tree (HashMapNode V) → Option (HashMapNode V)
  unfolding node_prev
  hash_map_prev memory rounds hmn = data_of (node_prev memory rounds hmn)

module _ {ℓ κ} {V : Type ℓ} {F : Type κ} where
  unfoldable pub hash_map_init : F → F → HashMap V F
  unfolding avl_tree_init
  hash_map_init hasher hash_updater = record {
    tree = avl_tree_init;
    hasher = some hasher;
    hash_updater = some hash_updater;
  }

  -- with the addresses that are freed; the lists of the nodes are not
  unfoldable pub hash_map_purge : HashMap V F → HashMap V F × List ℕ
  unfolding avl_tree_purge
  hash_map_purge hm =
      let (tree, freed) = avl_tree_purge hm.tree in
      (record { tree = tree; hasher = none; hash_updater = none }, freed)

  unfoldable pub hash_map_size : HashMap V F → ℕ
  hash_map_size hm = hm.tree.count

  -- `fresh` and `garbage` are the block that the allocator returns
  unfoldable pub hash_map_add : ℕ → HashMapNode V → HashMap V F → ℤ → Option (HashMap V F × ℕ)
  unfolding avl_tree_add update_data
  hash_map_add fresh garbage hm h = do
    (t, id) ← avl_tree_add fresh garbage hm.tree h
    some (record hm { tree = record t { root = update_data id (λ old. new_node h) t.root } }, id)

  unfoldable pub hash_map_add_or_get :
      ℕ → HashMapNode V → HashMap V F → ℤ → Option (HashMap V F × ℕ)
  unfolding avl_tree_add_or_get update_data
  hash_map_add_or_get fresh garbage hm h = do
    (t, id, inserted) ← avl_tree_add_or_get fresh garbage hm.tree h
    some (
      record hm {
        tree =
            if inserted then record t { root = update_data id (λ old. new_node h) t.root } else t;
      },
      id,
    )

  unfoldable pub hash_map_get : HashMap V F → ℤ → Option (Node (HashMapNode V))
  unfolding avl_tree_get
  hash_map_get hm h = avl_tree_get hm.tree h

  unfoldable pub hash_map_begin : HashMap V F → Option (Node (HashMapNode V))
  unfolding avl_tree_node_min
  hash_map_begin hm = avl_tree_node_min hm.tree.root

  unfoldable pub hash_map_end : HashMap V F → Option (Node (HashMapNode V))
  unfolding avl_tree_node_max
  hash_map_end hm = avl_tree_node_max hm.tree.root

  -- the list is read from the block of the node, which is freed by then, or through NULL: either is
  -- a fault
  unfoldable pub hash_map_remove : HashMap V F → ℤ → Option (HashMap V F)
  unfolding avl_tree_remove_get_data
  hash_map_remove hm h = do
    (t, hmn) ← avl_tree_remove_get_data hm.tree h
    elim hmn [ none ↦ none | some freed ↦ none ]

  -- a value is appended to the list of the node at the address `id`
  unfoldable pub hash_map_node_add : ℕ → V → HashMap V F → HashMap V F
  unfolding update_data
  hash_map_node_add id v hm = record hm {
    tree = record (hm.tree) {
      root =
          update_data id (λ hmn. record hmn { data_list = hmn.data_list ++ v ∷ [] }) hm.tree.root;
    };
  }
