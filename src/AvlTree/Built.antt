-- ===== src/AvlTree/Built.antt =====
-- supertel/lib/avl-tree.c: trees that are built from the empty tree by additions.
use interview.Base.{
  ℕ, ◌+◌, ◌^◌, ◌<◌, ◌≡◌, ◌≢◌, refl, ap, ◌∙◌, Option, some, List, [], ◌∷◌, length, All, arith, ◌>>=◌,
}
use interview.AvlTree.{null, AvlTree, avl_tree_init, avl_tree_add}
use interview.AvlTree.Order.{Entry, in_order}
use interview.AvlTree.Shape.{depth}
use interview.AvlTree.Sorted.{insert_entry, length-insert_entry}
use interview.AvlTree.InsertOrGet.{offered}
use interview.AvlTree.Links.{IsLinked}
use interview.AvlTree.Operations.{
  IsValid, avl_tree_init-IsValid, avl_tree_add-insert_entry, avl_tree_add-IsLinked, avl_tree_depth,
}

module _ {ℓ} {D : Type ℓ} where
  -- entries added one after the other, each with the block that the allocator returns for it
  abbrev pub add_all : List (Entry D) → AvlTree D → Option (AvlTree D)
  add_all [] t = some t
  add_all (e ∷ es) t = avl_tree_add e.id e.payload t e.key >>= λ added. add_all es added.0

  -- the entries in order: each goes behind those that have no greater key
  abbrev pub insert_all : List (Entry D) → List (Entry D) → List (Entry D)
  insert_all [] xs = xs
  insert_all (e ∷ es) xs = insert_all es (insert_entry (offered e.id e.payload e.key) xs)

  record Built (es : List (Entry D)) (t : AvlTree D) : Type ℓ where
    result : AvlTree D
    returns : add_all es t ≡ some result
    valid : IsValid result
    linked : IsLinked null result.root
    count : result.count ≡ t.count + length es
    order : in_order result.root ≡ insert_all es (in_order t.root)

  build :
      (es : List (Entry D)) (t : AvlTree D)
      → All (λ e. e.id ≢ null) es
      → IsValid t
      → IsLinked null t.root
      → t.count + length es < 2 ^ 64
      → Built es t
  build [] t allocated v linked room = record {
    result = t;
    returns = refl;
    valid = v;
    linked = linked;
    count = omega arith;
    order = refl;
  }
  build (e ∷ es) t allocated v linked room =
      let (t1, added, v1, order) =
        avl_tree_add-insert_entry e.id e.payload t e.key v allocated.0 (omega (arith, room)) in
      let one : t1.count ≡ t.count + 1 = omega (
        arith,
        v.counted,
        v1.counted,
        ap length order,
        length-insert_entry (offered e.id e.payload e.key) (in_order t.root),
      ) in
      let b =
        build es t1 allocated.1 v1
          (avl_tree_add-IsLinked e.id e.payload t t1 e.key e.id added linked)
          (omega (arith, one, room)) in
      record {
        result = b.result;
        returns = rw (added, ◌>>=◌) b.returns;
        valid = b.valid;
        linked = b.linked;
        count = omega (arith, b.count, one);
        order = b.order ∙ ap (insert_all es) order;
      }

  -- Any additions to the empty tree, in any order and also of equal keys, less than 2 ^ 64 of them and
  -- where the allocator returns memory for each: none fails, the tree holds the entries in order, its
  -- count is their number, its parent fields are right, and for fewer than `2 ^ k - 1` entries it has
  -- fewer than `2 * k` levels.
  pub avl_tree_add-depth :
      (es : List (Entry D)) (k : ℕ)
      → All (λ e. e.id ≢ null) es
      → length es < 2 ^ 64
      → length es + 1 < 2 ^ k
      → (t : AvlTree D) × (add_all es avl_tree_init ≡ some t)
        × (in_order t.root ≡ insert_all es [])
        × (t.count ≡ length es)
        × IsLinked null t.root
        × (depth t.root < k + k)
  unfolding avl_tree_init
  avl_tree_add-depth es k allocated room few =
      let b = build es avl_tree_init allocated avl_tree_init-IsValid tt (omega (arith, room)) in
      let count : b.result.count ≡ length es = omega (arith, b.count) in
      (
        b.result,
        b.returns,
        b.order,
        count,
        b.linked,
        avl_tree_depth b.result k b.valid (omega (arith, count, few)),
      )
