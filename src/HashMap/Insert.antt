-- ===== src/HashMap/Insert.antt =====
-- Adding a value under a hash: `hash_map_add_or_get`, and `hash_map_node_add` on the node it returns.
use mathlib.Core.List.{Perm}
use interview.Base.{
  ℕ, ◌+◌, ◌^◌, ◌<◌, ◌≡◌, ◌≢◌, refl, Bool, true, false, some, List, ◌++◌, All, if◌then◌else◌,
}
use interview.Base.Int.{ℤ, eqz}
use interview.AvlTree.{null, AvlTree}
use interview.AvlTree.Order.{Entry, in_order}
use interview.AvlTree.Operations
use interview.AvlTree.Operations.{avl_tree_add_or_get-Offer}
use interview.AvlTree.Data.{update_data, in_order-update_data, update_data-IsValid}
use interview.HashMap.{HashMap, HashMapNode, new_node, hash_map_add_or_get, hash_map_node_add}
use interview.HashMap.Values.{
  IsDistinct, values, single, appended, initialized, Offer-Reached, Reached-appended,
}

module _ {ℓ} {V : Type ℓ} where
  -- the tree behind the initialization of a node that was inserted
  abbrev with_new : Bool → ℕ → ℤ → AvlTree (HashMapNode V) → AvlTree (HashMapNode V)
  with_new b id h t = if b then record t { root = update_data id (λ old. new_node h) t.root } else t

  with_new-IsValid :
      (b : Bool) (id : ℕ) (h : ℤ) (t : AvlTree (HashMapNode V))
      → Operations.IsValid t
      → Operations.IsValid (with_new b id h t)
  with_new-IsValid true id h t v = update_data-IsValid id (λ old. new_node h) t v
  with_new-IsValid false id h t v = v

  in_order-with_new :
      (b : Bool) (id : ℕ) (h : ℤ) (t : AvlTree (HashMapNode V))
      → in_order (with_new b id h t).root ≡ initialized b id h (in_order t.root)
  in_order-with_new true id h t = in_order-update_data id (λ old. new_node h) t.root
  in_order-with_new false id h t = refl

module _ {ℓ κ} {V : Type ℓ} {F : Type κ} where
  abbrev pub entries : HashMap V F → List (Entry (HashMapNode V))
  entries hm = in_order hm.tree.root

  -- In a map with a valid tree and one entry for each node, with room for one more, and where the
  -- allocator returns a block that is not in use: `hash_map_add_or_get` returns a node, and the value
  -- that `hash_map_node_add` then adds to it joins the values of the hash, while those of all other
  -- hashes stay, up to order. The tree is valid behind both.
  pub hash_map_add_value :
      (fresh : ℕ) (garbage : HashMapNode V) (hm : HashMap V F) (h : ℤ) (v : V)
      → Operations.IsValid hm.tree
      → IsDistinct (entries hm)
      → All (λ y. y.id ≢ fresh) (entries hm)
      → fresh ≢ null
      → hm.tree.count + 1 < 2 ^ 64
      → (hm' : HashMap V F) × (id : ℕ) × (hash_map_add_or_get fresh garbage hm h ≡ some (hm', id))
        × Operations.IsValid (hash_map_node_add id v hm').tree
        × ((k : ℤ)
            → Perm
                (values k (entries (hash_map_node_add id v hm')))
                (single (eqz h k) v ++ values k (entries hm)))
  unfolding hash_map_add_or_get hash_map_node_add
  hash_map_add_value fresh garbage hm h v valid distinct new allocated room =
      let (t, id, b, e, valid_t, offer) =
        avl_tree_add_or_get-Offer fresh garbage hm.tree h valid allocated room in
      let t' = with_new b id h t in
      let reached =
        Offer-Reached fresh garbage h (entries hm) (in_order t.root) id b distinct new offer in
      (
        record hm { tree = t' },
        id,
        rw e refl,
        update_data-IsValid id (appended v) t' (with_new-IsValid b id h t valid_t),
        λ k.
            rw (in_order-update_data id (appended v) t'.root, in_order-with_new b id h t)
              (Reached-appended h k v (entries hm) (initialized b id h (in_order t.root)) id
                reached),
      )
