-- ===== src/AvlTree/Operations.antt =====
-- The operations of the interface on a whole tree, with its counter.
use mathlib.Core.Path.{subst}
use mathlib.Core.List.{Perm, perm_middle, perm_append_comm, map-append}
use mathlib.Core.List.Perm
use native.Mathlib.Decide.{dec_lt}
use interview.Base.{
  ℕ, ◌+◌, ◌-◌, ◌%◌, ◌^◌, ◌<◌, ◌≡◌, ◌≢◌, refl, sym, ap, ◌∙◌, Bool, true, false, Option, none, some,
  List, [], ◌∷◌, ◌++◌, map, arith, length, if◌then◌else◌, bind-eq_some, some_inj,
}
use interview.Base.Int.{ℤ}
use interview.AvlTree.{
  Tree, leaf, node, null, AvlTree, node_insert, node_purge, avl_tree_init, avl_tree_get,
  avl_tree_add, avl_tree_add_or_get, avl_tree_remove_get_data, avl_tree_remove, avl_tree_purge,
  address,
}
use interview.AvlTree.Order.{Entry, entry, in_order, size}
use interview.AvlTree.Shape.{depth, IsAvl}
use interview.AvlTree.Sorted.{
  IsSorted, insert_entry, insert_entry-IsSorted, length-insert_entry, Removal, Removal-IsSorted,
  length-Removal,
}
use interview.AvlTree.Insert.{depth-lt, pow-le-size, node_insert-Inserted}
use interview.AvlTree.InsertOrGet.{Offer, found, added, offered, node_insert_or_get-Offered}
use interview.AvlTree.Remove.{node_remove-Removed}
use interview.AvlTree.Get.{Found, get_loop-Found}
use interview.AvlTree.Links.{IsLinked, node_insert_root-IsLinked}

module _ {ℓ} {D : Type ℓ} where
  -- the invariant of a tree: balanced, searchable, and with its nodes counted
  pub record IsValid (t : AvlTree D) : Type 0 where
    pub avl : IsAvl t.root
    pub sorted : IsSorted (in_order t.root)
    pub counted : t.count ≡ size t.root
    pub small : size t.root < 2 ^ 64

  valid_depth : {t : AvlTree D} → IsValid t → depth t.root < 248
  valid_depth {t} v = omega (arith, depth-lt t.root v.avl v.small)

  pub avl_tree_init-IsValid : IsValid avl_tree_init
  unfolding avl_tree_init
  avl_tree_init-IsValid = record { avl = tt; sorted = tt; counted = refl; small = omega arith }

  -- In a valid tree with room for one more node, and where the allocator returns memory,
  -- `avl_tree_add` returns the new node's address and a valid tree, whose entries are those of
  -- before with the new one behind all that have no greater key.
  pub avl_tree_add-insert_entry :
      (fresh : ℕ) (d : D) (t : AvlTree D) (k : ℤ)
      → IsValid t
      → fresh ≢ null
      → t.count + 1 < 2 ^ 64
      → (t' : AvlTree D) × (avl_tree_add fresh d t k ≡ some (t', fresh))
        × IsValid t'
        × (in_order t'.root ≡ insert_entry (offered fresh d k) (in_order t.root))
  unfolding avl_tree_add
  avl_tree_add-insert_entry fresh d t k v allocated room =
      let i =
        node_insert-Inserted fresh d k allocated (address t.root) t.root v.avl v.sorted
          (valid_depth v) in
      let longer : size i.result ≡ size t.root + 1 =
        ap length i.order ∙ length-insert_entry (offered fresh d k) (in_order t.root) in
      (
        record { count = (t.count + 1) % 2 ^ 64; root = i.result },
        rw i.returns,
        record {
          avl = i.avl;
          sorted =
              subst IsSorted (sym i.order)
                (insert_entry-IsSorted (offered fresh d k) (in_order t.root) v.sorted);
          counted = omega (arith, v.counted);
          small = omega (arith, v.counted);
        },
        i.order,
      )

  -- `avl_tree_add_or_get` in a valid tree with room for one more node, where the allocator returns
  -- memory: either an entry has the key, and the entries stay and its node's address is returned
  -- with `false`; or none has it, and the new entry is inserted and `fresh` is returned with `true`.
  -- The tree that results is valid.
  pub avl_tree_add_or_get-Offer :
      (fresh : ℕ) (d : D) (t : AvlTree D) (k : ℤ)
      → IsValid t
      → fresh ≢ null
      → t.count + 1 < 2 ^ 64
      → (t' : AvlTree D) × (id : ℕ) × (inserted : Bool) × (avl_tree_add_or_get fresh d t k
          ≡ some (t', id, inserted))
        × IsValid t'
        × Offer (offered fresh d k) (in_order t.root) (in_order t'.root) id inserted
  unfolding avl_tree_add_or_get
  avl_tree_add_or_get-Offer fresh d t k v allocated room =
      let i =
        node_insert_or_get-Offered fresh d k allocated (address t.root) t.root v.avl v.sorted
          (valid_depth v) in
      (
        record { count = (t.count + (if i.inserted then 1 else 0)) % 2 ^ 64; root = i.result },
        i.id,
        i.inserted,
        rw i.returns,
        valid_offer i.inserted i.result i.avl i.order,
        i.order,
      )
    where
      valid_offer :
          {id : ℕ} (b : Bool) (u : Tree D)
          → IsAvl u
          → Offer (offered fresh d k) (in_order t.root) (in_order u) id b
          → IsValid (record { count = (t.count + (if b then 1 else 0)) % 2 ^ 64; root = u })
      valid_offer true u a (added x p) =
          let longer : size u ≡ size t.root + 1 =
            ap length p ∙ length-insert_entry (offered fresh d k) (in_order t.root) in
          record {
            avl = a;
            sorted =
                subst IsSorted (sym p)
                  (insert_entry-IsSorted (offered fresh d k) (in_order t.root) v.sorted);
            counted = omega (arith, v.counted);
            small = omega (arith, v.counted);
          }
      valid_offer false u a (found before old after same p q) =
          let same_size : size u ≡ size t.root = ap length q in
          record {
            avl = a;
            sorted = subst IsSorted (sym q) v.sorted;
            counted = omega (arith, v.counted);
            small = omega (arith, v.small);
          }

  valid_removal :
      (t : AvlTree D) (k : ℤ) (u : Tree D) (removed : Option D)
      → IsValid t
      → IsAvl u
      → Removal k (in_order t.root) (in_order u) removed
      → IsValid (record {
        count = elim removed [ some d ↦ (t.count + 2 ^ 64 - 1) % 2 ^ 64 | none ↦ t.count ];
        root = u;
      })
  valid_removal t k u none v a r =
      let l = length-Removal k (in_order t.root) (in_order u) r in
      record {
        avl = a;
        sorted = Removal-IsSorted k (in_order t.root) (in_order u) r v.sorted;
        counted = omega (arith, v.counted);
        small = omega (arith, v.small);
      }
  valid_removal t k u (some d) v a r =
      let l = length-Removal k (in_order t.root) (in_order u) r in
      record {
        avl = a;
        sorted = Removal-IsSorted k (in_order t.root) (in_order u) r v.sorted;
        counted = omega (arith, v.counted, v.small);
        small = omega (arith, v.small);
      }

  -- In a valid tree whose `parent` fields are the addresses of the nodes above,
  -- `avl_tree_remove_get_data` meets no fault. Where no entry has the key it
  -- returns no data and the entries stay; else it takes out one entry with the key and returns its
  -- data. `avl_tree_remove` leaves the same tree, which is valid.
  pub avl_tree_remove-Removal :
      (t : AvlTree D) (k : ℤ)
      → IsValid t
      → IsLinked null t.root
      → (t' : AvlTree D) × (removed : Option D) × (avl_tree_remove_get_data t k
          ≡ some (t', removed))
        × (avl_tree_remove t k ≡ some t')
        × IsValid t'
        × Removal k (in_order t.root) (in_order t'.root) removed
  unfolding avl_tree_remove_get_data avl_tree_remove
  avl_tree_remove-Removal t k v h =
      let i = node_remove-Removed null k t.root h v.avl v.sorted (valid_depth v) in
      (
        record {
          count = elim (i.removed) [ some d ↦ (t.count + 2 ^ 64 - 1) % 2 ^ 64 | none ↦ t.count ];
          root = i.result;
        },
        i.removed,
        rw i.returns,
        rw i.returns,
        valid_removal t k i.result i.removed v i.avl i.order,
        i.order,
      )

  -- In a valid tree `avl_tree_get` returns a node of the tree with the key, or NULL and no entry
  -- has the key.
  pub avl_tree_get-Found :
      (t : AvlTree D) (k : ℤ) → IsValid t → Found k (in_order t.root) (avl_tree_get t k)
  unfolding avl_tree_get
  avl_tree_get-Found t k v = get_loop-Found k t.root v.sorted

  -- Where every `parent` field is the address of the node above, it is so after `avl_tree_add`.
  pub avl_tree_add-IsLinked :
      (fresh : ℕ) (d : D) (t t' : AvlTree D) (k : ℤ) (id : ℕ)
      → avl_tree_add fresh d t k ≡ some (t', id)
      → IsLinked null t.root
      → IsLinked null t'.root
  unfolding avl_tree_add
  avl_tree_add-IsLinked fresh d t t' k id e h =
      let (root, u, w) =
        bind-eq_some (node_insert fresh d k (address t.root) t.root)
          (λ root. some (record { count = (t.count + 1) % 2 ^ 64; root = root }, fresh)) e in
      subst (λ x. IsLinked null x) (ap (λ p. p.0.root) (some_inj w))
        (node_insert_root-IsLinked fresh d k t.root u h)

  abbrev pub ids : List (Entry D) → List ℕ
  ids = map (λ e. e.id)

  node_purge-perm : (t : Tree D) → Perm (node_purge t) (ids (in_order t))
  unfolding node_purge
  node_purge-perm leaf = Perm.refl []
  node_purge-perm (node l n r) =
      rw (map-append (λ (e : Entry D). e.id) (in_order l) (entry n ∷ in_order r)) (
        Perm.trans
          (Perm.append_right (n.id ∷ []) (Perm.append (node_purge-perm l) (node_purge-perm r)))
          (Perm.trans (perm_append_comm (ids (in_order l) ++ ids (in_order r)) (n.id ∷ []))
            (Perm.symm (perm_middle (ids (in_order l)) (ids (in_order r))))))

  -- `avl_tree_purge` leaves the empty tree, and frees the node of each entry as often as it stands
  -- in the tree.
  pub avl_tree_purge-perm :
      (t : AvlTree D)
      → ((avl_tree_purge t).0 ≡ avl_tree_init) × Perm (avl_tree_purge t).1 (ids (in_order t.root))
  unfolding avl_tree_purge avl_tree_init
  avl_tree_purge-perm t = (refl, node_purge-perm t.root)

  -- A valid tree with fewer than `2 ^ k - 1` nodes has fewer than `2 * k` levels.
  pub avl_tree_depth :
      (t : AvlTree D) (k : ℕ) → IsValid t → t.count + 1 < 2 ^ k → depth t.root < k + k
  avl_tree_depth t k v few = elim (dec_lt (depth t.root) (k + k)) [
    | yes p ↦ p
    | no p ↦ absurd (omega (arith, v.counted, pow-le-size t.root k v.avl (omega arith)))
  ]
