-- ===== src/AvlTree/Write.antt =====
-- What a write to the node of a key does to a tree with one node for each key, as a map.
use mathlib.Core.Path.{subst}
use interview.Base.{
  ℕ, ◌≡◌, ◌≢◌, refl, sym, ap, ◌∙◌, inl, inr, Bool, true, false, Option, none, some, List, [], ◌∷◌,
  ◌++◌, map, arith, ◌==◌, Bool-cases, All-append_left, All-append_right, if◌then◌else◌,
}
use interview.Base.Int.{ℤ, eqz}
use interview.Base.Apart.{Others, IsApart, apart_around, IsApart-insert, IsApart-replace}
use interview.AvlTree.{Node, Tree, leaf, node}
use interview.AvlTree.Get.{Found, hit}
use interview.AvlTree.Order.{Entry, entry, in_order}
use interview.AvlTree.Sorted.{insert_entry}
use interview.AvlTree.InsertOrGet.{Offer, found, added, offered}
use interview.AvlTree.Data.{put, data_at}
use interview.AvlTree.Keys.{key_of, lookup, lookup-written, lookup-new, lookup-absent, lookup-here}
use interview.HashMap.Values.{IsDistinct, put-once, place, distinct_around}

module _ {ℓ} {D : Type ℓ} where
  -- the first data of an address
  unfoldable pub first_at : ℕ → List (Entry D) → Option D
  first_at id [] = none
  first_at id (e ∷ es) = let rest = first_at id es in if e.id == id then some e.payload else rest

  first_at-append :
      (id : ℕ) (xs ys : List (Entry D))
      → first_at id (xs ++ ys) ≡ elim (first_at id xs) [ some d ↦ some d | none ↦ first_at id ys ]
  unfolding first_at
  first_at-append id [] ys = refl
  first_at-append id (x ∷ xs) ys = elim (Bool-cases (x.id == id)) [
    | inl h ↦ rw h refl
    | inr h ↦ rw h (first_at-append id xs ys)
  ]

  pub data_at-first_at : (id : ℕ) (t : Tree D) → data_at id t ≡ first_at id (in_order t)
  unfolding data_at first_at
  data_at-first_at id leaf = refl
  data_at-first_at id (node l n r) = rw (data_at-first_at id l) (
      ap
        (λ right. elim (first_at id (in_order l)) [
          | some d ↦ some d
          | none ↦ if n.id == id then some n.payload else right
        ])
        (data_at-first_at id r)
      ∙ sym (first_at-append id (in_order l) (entry n ∷ in_order r)))

  pub first_at-here :
      (before : List (Entry D)) (e : Entry D) (after : List (Entry D))
      → Others (λ y. y.id) e.id before
      → first_at e.id (before ++ e ∷ after) ≡ some e.payload
  unfolding first_at
  first_at-here [] e after a = let here : (e.id == e.id) ≡ true = ground arith in rw here refl
  first_at-here (x ∷ before) e after a =
      let away : (x.id == e.id) ≡ false = ground (arith, a.0) in
      rw away (first_at-here before e after a.1)

  pub first_at-absent :
      (id : ℕ) (xs : List (Entry D)) → Others (λ y. y.id) id xs → first_at id xs ≡ none
  unfolding first_at
  first_at-absent id [] a = refl
  first_at-absent id (x ∷ xs) a =
      let away : (x.id == id) ≡ false = ground (arith, a.0) in rw away (first_at-absent id xs a.1)

  -- what a list under a hash is where none is stored
  abbrev pub or_else : D → Option D → D
  or_else d none = d
  or_else d (some e) = e

  -- the entries `zs` behind a write of `f` to the data of the hash `h` in `xs`, at the address `id`, where
  -- `empty` are the data of a new node, and `ys` are the entries between
  pub record Written (h : ℤ) (empty : D) (f : D → D) (xs : List (Entry D)) (id : ℕ)
      (ys zs : List (Entry D)) : Type ℓ where
    pub reads : first_at id ys ≡ some (or_else empty (lookup h xs))
    pub looks :
        (k : ℤ)
        → lookup k zs ≡ (if eqz h k then some (f (or_else empty (lookup h xs))) else lookup k xs)
    pub unique : IsApart key_of zs
    pub distinct : IsDistinct zs

  abbrev pub initialized : Bool → ℕ → D → List (Entry D) → List (Entry D)
  initialized true id empty ys = map (put id (λ old. empty)) ys
  initialized false id empty ys = ys

  -- a write to an entry that is there
  Written-old :
      (h : ℤ) (empty : D) (f : D → D) (xs ys before : List (Entry D)) (old : Entry D)
      (after : List (Entry D))
      → old.key ≡ h
      → xs ≡ before ++ old ∷ after
      → ys ≡ xs
      → IsApart key_of xs
      → IsDistinct xs
      → Written h empty f xs old.id ys (map (put old.id f) ys)
  Written-old h empty f xs ys before old after same p q unique distinct =
      let u = subst (IsApart key_of) p unique in
      let d = subst IsDistinct p distinct in
      let keys = apart_around key_of before old after u in
      let ids = distinct_around before old after d in
      let new : Entry D = record old { payload = f old.payload } in
      let whole : map (put old.id f) ys ≡ before ++ new ∷ after =
        ap (map (put old.id f)) (q ∙ p) ∙ put-once f before old after ids.0 ids.1 in
      let stored : lookup h xs ≡ some old.payload =
        ap (lookup h) p
        ∙ ap (λ j. lookup j (before ++ old ∷ after)) (sym same)
        ∙ lookup-here before old after keys.0 in
      record {
        reads = rw stored (ap (first_at old.id) (q ∙ p) ∙ first_at-here before old after ids.0);
        looks = λ k.
            rw (whole, stored, p, sym same)
              (lookup-written before old after (f old.payload) keys.0 k);
        unique = rw whole (IsApart-replace key_of before old new after refl u);
        distinct = rw whole (IsApart-replace (λ e. e.id) before old new after refl d);
      }

  -- a write to an entry that is new
  pub Written-new :
      (fresh : ℕ) (garbage : D) (h : ℤ) (empty : D) (f : D → D) (xs ys : List (Entry D))
      → Others key_of h xs
      → Others (λ e. e.id) fresh xs
      → ys ≡ insert_entry (offered fresh garbage h) xs
      → IsApart key_of xs
      → IsDistinct xs
      → Written h empty f xs fresh
          (initialized true fresh empty ys)
          (map (put fresh f) (initialized true fresh empty ys))
  Written-new fresh garbage h empty f xs ys absent new q unique distinct =
      let e = offered fresh garbage h in
      let at_ = place e xs in
      let others = subst (Others (λ y. y.id) fresh) at_.whole new in
      let ob = All-append_left (λ y. y.id ≢ fresh) at_.before at_.after others in
      let oa = All-append_right (λ y. y.id ≢ fresh) at_.before at_.after others in
      let keys = subst (Others key_of h) at_.whole absent in
      let kb = All-append_left (λ y. key_of y ≢ h) at_.before at_.after keys in
      let ka = All-append_right (λ y. key_of y ≢ h) at_.before at_.after keys in
      let first : Entry D = record e { payload = empty } in
      let second : Entry D = record e { payload = f empty } in
      let start : initialized true fresh empty ys ≡ at_.before ++ first ∷ at_.after =
        ap (map (put fresh (λ old. empty))) (q ∙ at_.placed)
        ∙ put-once (λ old. empty) at_.before e at_.after ob oa in
      let whole : map (put fresh f) (initialized true fresh empty ys)
          ≡ at_.before ++ second ∷ at_.after =
        ap (map (put fresh f)) start ∙ put-once f at_.before first at_.after ob oa in
      let none_stored = lookup-absent h xs absent in
      record {
        reads =
            rw none_stored
              (ap (first_at fresh) start ∙ first_at-here at_.before first at_.after ob);
        looks = λ k.
            rw (whole, none_stored)
              (lookup-new at_.before e at_.after (f empty) kb k
                ∙ ap (λ l. if eqz h k then some (f empty) else lookup k l) (sym at_.whole));
        unique = rw whole (
            IsApart-insert key_of at_.before second at_.after
              (subst (IsApart key_of) at_.whole unique) kb ka);
        distinct = rw whole (
            IsApart-insert (λ y. y.id) at_.before second at_.after
              (subst IsDistinct at_.whole distinct) ob oa);
      }

  -- whether the node is new or not
  pub Offer-Written :
      (fresh : ℕ) (garbage : D) (h : ℤ) (empty : D) (f : D → D) (xs ys : List (Entry D)) (id : ℕ)
      (inserted : Bool)
      → IsApart key_of xs
      → IsDistinct xs
      → Others (λ e. e.id) fresh xs
      → Offer (offered fresh garbage h) xs ys id inserted
      → Written h empty f xs id
          (initialized inserted id empty ys)
          (map (put id f) (initialized inserted id empty ys))
  Offer-Written fresh garbage h empty f xs ys id false u d new (found before old after same p q) =
      Written-old h empty f xs ys before old after same p q u d
  Offer-Written fresh garbage h empty f xs ys id true u d new (added absent q) =
      Written-new fresh garbage h empty f xs ys absent new q u d

  -- a write to the node that a search has found
  pub Found-Written :
      (h : ℤ) (empty : D) (f : D → D) (xs : List (Entry D)) (n : Node D)
      → IsApart key_of xs
      → IsDistinct xs
      → Found h xs (some n)
      → Written h empty f xs n.id xs (map (put n.id f) xs)
  Found-Written h empty f xs n u d (hit before m after same p) =
      Written-old h empty f xs xs before (entry m) after same p refl u d
