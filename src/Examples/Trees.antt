-- ===== src/Examples/Trees.antt =====
-- The operations of supertel/lib/avl-tree.c on a tree of three nodes.
use interview.Base.{
  Bool, List, Option, [], arith, if◌then◌else◌, none, refl, some, ℕ, ◌++◌, ◌+◌, ◌<◌, ◌==◌, ◌>>=◌,
  ◌∷◌, ◌≡◌,
}
use interview.Base.Int.{ℤ, pos, negsuc}
use interview.AvlTree.{
  Node, Tree, leaf, node, null, AvlTree, avl_tree_init, avl_tree_get, avl_tree_add,
  avl_tree_add_or_get, avl_tree_remove, avl_tree_remove_get_data,
}
use interview.AvlTree.Built.{add_all, insert_all, avl_tree_add-depth}
use interview.AvlTree.Order.{Entry, entry, in_order}
use interview.AvlTree.Walk.{node_next}
use interview.AvlTree.Walk.Next.{here, left, GoesTo, node_next-GoesTo}
use interview.AvlTree.Shape.{depth}
use interview.AvlTree.Sorted.{insert_entry, Removal}
use interview.AvlTree.InsertOrGet.{Offer, offered}
use interview.AvlTree.Get.{Found}
use interview.AvlTree.Links.{IsLinked}
use interview.AvlTree.Operations.{
  IsValid, avl_tree_add-insert_entry, avl_tree_add_or_get-Offer, avl_tree_remove-Removal,
  avl_tree_get-Found, avl_tree_add-IsLinked,
}

-- the keys -1, 4 and 6, on the nodes 11, 12 and 13
abbrev low : Node ℕ
low = record { id = 11; parent = 12; height = 1; key = negsuc 0; payload = 100 }

abbrev middle : Node ℕ
middle = record { id = 12; parent = 0; height = 2; key = pos 4; payload = 101 }

abbrev high : Node ℕ
high = record { id = 13; parent = 12; height = 1; key = pos 6; payload = 102 }

abbrev three : AvlTree ℕ
three = record { count = 3; root = node (node leaf low leaf) middle (node leaf high leaf) }

-- a list to the right, which the next key turns
abbrev two : AvlTree ℕ
two = record { count = 2; root = node leaf (record middle { parent = 0 }) (node leaf high leaf) }

three-IsValid : IsValid three
three-IsValid = record {
  avl = ground arith;
  sorted = ground arith;
  counted = refl;
  small = omega arith;
}

two-IsValid : IsValid two
two-IsValid = record {
  avl = ground arith;
  sorted = ground arith;
  counted = refl;
  small = omega arith;
}

-- the rotation
two_added :
    avl_tree_add 14 103 two (pos 9)
    ≡ some (
      record {
        count = 3;
        root =
            node
              (node leaf (record middle { parent = 13; height = 1 }) leaf)
              (record high { parent = 0; height = 2 })
              (node leaf
                (record { id = 14; parent = 13; height = 1; key = pos 9; payload = 103 })
                leaf);
      },
      14,
    )
unfolding avl_tree_add
two_added = refl

avl_tree_add-insert_entry_example :
    (t' : AvlTree ℕ) × (avl_tree_add 14 103 two (pos 9) ≡ some (t', 14))
    × IsValid t'
    × (in_order t'.root ≡ insert_entry (offered 14 103 (pos 9)) (in_order two.root))
avl_tree_add-insert_entry_example =
    avl_tree_add-insert_entry 14 103 two (pos 9) two-IsValid (ground arith) (omega arith)

avl_tree_add_or_get-Offer_example :
    (t' : AvlTree ℕ) × (id : ℕ) × (inserted : Bool) × (avl_tree_add_or_get 14 103 three (pos 5)
      ≡ some (t', id, inserted))
    × IsValid t'
    × Offer (offered 14 103 (pos 5)) (in_order three.root) (in_order t'.root) id inserted
avl_tree_add_or_get-Offer_example =
    avl_tree_add_or_get-Offer 14 103 three (pos 5) three-IsValid (ground arith) (omega arith)

avl_tree_remove-Removal_example :
    (t' : AvlTree ℕ) × (removed : Option ℕ) × (avl_tree_remove_get_data three (pos 4)
      ≡ some (t', removed))
    × (avl_tree_remove three (pos 4) ≡ some t')
    × IsValid t'
    × Removal (pos 4) (in_order three.root) (in_order t'.root) removed
avl_tree_remove-Removal_example =
    avl_tree_remove-Removal three (pos 4) three-IsValid (refl, (refl, tt, tt), (refl, tt, tt))

avl_tree_get-Found_example : Found (pos 6) (in_order three.root) (avl_tree_get three (pos 6))
avl_tree_get-Found_example = avl_tree_get-Found three (pos 6) three-IsValid

two-IsLinked : IsLinked null two.root
two-IsLinked = (refl, tt, (refl, tt, tt))

avl_tree_add-IsLinked_example : IsLinked null (
    node
      (node leaf (record middle { parent = 13; height = 1 }) leaf)
      (record high { parent = 0; height = 2 })
      (node leaf (record { id = 14; parent = 13; height = 1; key = pos 9; payload = 103 }) leaf))
avl_tree_add-IsLinked_example =
    avl_tree_add-IsLinked 14 103 two
      (record {
        count = 3;
        root =
            node (node leaf (record middle { parent = 13; height = 1 }) leaf)
              (record high { parent = 0; height = 2 })
              (node leaf (record { id = 14; parent = 13; height = 1; key = pos 9; payload = 103 })
                leaf);
      })
      (pos 9) 14 two_added two-IsLinked

-- four entries, two of them with one key
abbrev four_entries : List (Entry ℕ)
four_entries =
    record { id = 31; key = pos 5; payload = 1 }
    ∷ record { id = 32; key = pos 6; payload = 2 }
    ∷ record { id = 33; key = pos 7; payload = 3 }
    ∷ record { id = 34; key = pos 6; payload = 4 }
    ∷ []

avl_tree_add-depth_example :
    (t : AvlTree ℕ) × (add_all four_entries avl_tree_init ≡ some t)
    × (in_order t.root ≡ insert_all four_entries [])
    × (t.count ≡ 4)
    × IsLinked null t.root
    × (depth t.root < 3 + 3)
avl_tree_add-depth_example =
    avl_tree_add-depth four_entries 3 (ground arith) (omega arith) (omega arith)

abbrev leaf_of : ℕ → ℕ → ℤ → Tree ℕ
leaf_of id parent k =
    node leaf (record { id = id; parent = parent; height = 1; key = k; payload = 0 }) leaf

-- the keys 0 to 6, where the successor of the root has a child
abbrev seven : AvlTree ℕ
seven = record {
  count = 7;
  root =
      node
        (node (leaf_of 10 1 (pos 0))
          (record { id = 1; parent = 2; height = 2; key = pos 1; payload = 0 }) leaf)
        (record { id = 2; parent = 0; height = 4; key = pos 2; payload = 0 })
        (node
          (node leaf (record { id = 3; parent = 5; height = 2; key = pos 3; payload = 0 })
            (leaf_of 4 3 (pos 4)))
          (record { id = 5; parent = 2; height = 3; key = pos 5; payload = 0 })
          (leaf_of 6 5 (pos 6)));
}

-- the root is removed, the child of its successor gets a child, and is removed: its `parent` is
-- still the successor
stray_parent :
    (avl_tree_remove seven (pos 2) >>= λ t.
    avl_tree_add 7 0 t (pos 4) >>= λ p. avl_tree_remove p.0 (pos 4))
    ≡ none
unfolding avl_tree_remove avl_tree_add
stray_parent = refl

-- the memory of the three nodes
abbrev memory_of_three : ℕ → Tree ℕ
memory_of_three id =
    if id == 11
    then node leaf low leaf
    else if id == 12
    then three.root
    else if id == 13
    then node leaf high leaf
    else leaf

-- from -1 to 4
node_next-GoesTo_example :
    (before : List (Entry ℕ)) × (in_order three.root
      ≡ before ++ entry low ∷ entry middle ∷ entry high ∷ [])
    × GoesTo memory_of_three
        (node_next memory_of_three 2 (node leaf low leaf))
        (entry middle ∷ entry high ∷ [])
node_next-GoesTo_example =
    node_next-GoesTo memory_of_three leaf low leaf 2 (left here refl)
      (refl, refl, refl, (refl, refl, tt, tt, tt), (refl, refl, tt, tt, tt)) refl (omega arith)
