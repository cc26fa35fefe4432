-- ===== src/AvlTree/Data.antt =====
-- Writing to the data of a node, which its address names.
use mathlib.Core.Path.{subst}
use mathlib.Core.List.{map-append}
use interview.Base.{
  Option, none, some, ℕ, suc, ◌≡◌, refl, sym, ap, ◌∙◌, inl, inr, List, [], ◌∷◌, map, length, arith,
  ◌==◌, Bool-cases, All, if◌then◌else◌,
}
use interview.Base.Int.{ℤ, ◌≤ℤ◌}
use interview.AvlTree.{Node, Tree, leaf, node, AvlTree}
use interview.AvlTree.Order.{Entry, entry, in_order, size}
use interview.AvlTree.Shape.{depth, IsAvl}
use interview.AvlTree.Sorted.{IsSorted}
use interview.AvlTree.Operations

-- the data of the node at the address `id` is changed by `f`
unfoldable pub update_data {ℓ} : {D : Type ℓ} → ℕ → (D → D) → Tree D → Tree D
update_data id f leaf = leaf
update_data id f (node l n r) =
    let l' = update_data id f l in
    let r' = update_data id f r in
    node l' (if n.id == id then record n { payload = f n.payload } else n) r'

-- the data of the node at an address
unfoldable pub data_at {ℓ} : {D : Type ℓ} → ℕ → Tree D → Option D
data_at id leaf = none
data_at id (node l n r) =
    let right = data_at id r in
    elim (data_at id l) [ some d ↦ some d | none ↦ if n.id == id then some n.payload else right ]

module _ {ℓ} {D : Type ℓ} where
  depth-update_data : (id : ℕ) (f : D → D) (t : Tree D) → depth (update_data id f t) ≡ depth t
  unfolding update_data
  depth-update_data id f leaf = refl
  depth-update_data id f (node l n r) = rw (depth-update_data id f l, depth-update_data id f r)

  IsAvl-update_data : (id : ℕ) (f : D → D) (t : Tree D) → IsAvl t → IsAvl (update_data id f t)
  unfolding update_data
  IsAvl-update_data id f leaf a = tt
  IsAvl-update_data id f (node l n r) a =
      let dl = depth-update_data id f l in
      let dr = depth-update_data id f r in
      (
        IsAvl-update_data id f l a.0,
        IsAvl-update_data id f r a.1,
        ground (arith, dl, dr),
        omega (arith, dl, dr),
        omega (arith, dl, dr),
      )

  -- the entry, with its data changed by `f` if it is that of the node at `id`
  abbrev pub put : ℕ → (D → D) → Entry D → Entry D
  put id f e = if e.id == id then record e { payload = f e.payload } else e

  entry-put :
      (id : ℕ) (f : D → D) (n : Node D)
      → entry (if n.id == id then record n { payload = f n.payload } else n) ≡ put id f (entry n)
  entry-put id f n = elim (Bool-cases (n.id == id)) [ inl h ↦ rw h | inr h ↦ rw h ]

  pub in_order-update_data :
      (id : ℕ) (f : D → D) (t : Tree D)
      → in_order (update_data id f t) ≡ map (put id f) (in_order t)
  unfolding update_data
  in_order-update_data id f leaf = refl
  in_order-update_data id f (node l n r) =
      let il = in_order-update_data id f l in
      let ir = in_order-update_data id f r in
      let middle = entry-put id f n in
      rw (il, ir, map-append (put id f) (in_order l) (entry n ∷ in_order r), middle)

  key-put : (id : ℕ) (f : D → D) (e : Entry D) → (put id f e).key ≡ e.key
  key-put id f e = ground arith

  All-put :
      (id : ℕ) (f : D → D) (k : ℤ) (xs : List (Entry D))
      → All (λ y. k ≤ℤ y.key) xs
      → All (λ y. k ≤ℤ y.key) (map (put id f) xs)
  All-put id f k [] a = tt
  All-put id f k (x ∷ xs) a = (rw (key-put id f x) a.0, All-put id f k xs a.1)

  IsSorted-put :
      (id : ℕ) (f : D → D) (xs : List (Entry D)) → IsSorted xs → IsSorted (map (put id f) xs)
  IsSorted-put id f [] s = tt
  IsSorted-put id f (x ∷ xs) s =
      (rw (key-put id f x) (All-put id f x.key xs s.0), IsSorted-put id f xs s.1)

  length-put : (id : ℕ) (f : D → D) (xs : List (Entry D)) → length (map (put id f) xs) ≡ length xs
  length-put id f [] = refl
  length-put id f (x ∷ xs) = ap suc (length-put id f xs)

  -- writing through a node's `data` keeps the invariant of the tree
  pub update_data-IsValid :
      (id : ℕ) (f : D → D) (t : AvlTree D)
      → Operations.IsValid t
      → Operations.IsValid (record t { root = update_data id f t.root })
  update_data-IsValid id f t v =
      let e = in_order-update_data id f t.root in
      let same : size (update_data id f t.root) ≡ size t.root =
        ap length e ∙ length-put id f (in_order t.root) in
      record {
        avl = IsAvl-update_data id f t.root v.avl;
        sorted = subst IsSorted (sym e) (IsSorted-put id f (in_order t.root) v.sorted);
        counted = v.counted ∙ sym same;
        small = omega (arith, v.small);
      }
