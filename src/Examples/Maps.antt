-- ===== src/Examples/Maps.antt =====
-- A value added to a hash map of supertel/lib/hash-map.c.
use mathlib.Core.List.{Perm}
use interview.Base.{ℕ, ◌≡◌, refl, some, List, [], ◌∷◌, ◌++◌, arith}
use interview.Base.Int.{ℤ, pos, negsuc, eqz}
use interview.AvlTree.{leaf, node}
use interview.AvlTree.Operations
use interview.HashMap.{HashMap, HashMapNode, hash_map_add_or_get, hash_map_node_add}
use interview.HashMap.Values.{values, single}
use interview.HashMap.Insert.{entries, hash_map_add_value}

abbrev listed : ℤ → List ℕ → HashMapNode ℕ
listed h values_ = record { hash = h; data_list = values_ }

-- the hashes -3 and 8
abbrev two_hashes : HashMap ℕ ℕ
two_hashes = record {
  tree = record {
    count = 2;
    root =
        node leaf
          (record {
            id = 5;
            parent = 0;
            height = 2;
            key = negsuc 2;
            payload = listed (negsuc 2) (1 ∷ 2 ∷ []);
          })
          (node leaf
            (record {
              id = 6;
              parent = 5;
              height = 1;
              key = pos 8;
              payload = listed (pos 8) (3 ∷ []);
            })
            leaf);
  };
  hasher = some 0;
  hash_updater = some 1;
}

two_hashes-IsValid : Operations.IsValid two_hashes.tree
two_hashes-IsValid = record {
  avl = ground arith;
  sorted = ground arith;
  counted = refl;
  small = omega arith;
}

hash_map_add_value_example :
    (hm' : HashMap ℕ ℕ) × (id : ℕ) × (hash_map_add_or_get 7 (listed (pos 0) []) two_hashes (pos 8)
      ≡ some (hm', id))
    × Operations.IsValid (hash_map_node_add id 4 hm').tree
    × ((k : ℤ)
        → Perm
            (values k (entries (hash_map_node_add id 4 hm')))
            (single (eqz (pos 8) k) 4 ++ values k (entries two_hashes)))
hash_map_add_value_example =
    hash_map_add_value 7 (listed (pos 0) []) two_hashes (pos 8) 4 two_hashes-IsValid (ground arith)
      (ground arith) (ground arith) (omega arith)
