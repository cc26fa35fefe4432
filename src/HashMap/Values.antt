-- ===== src/HashMap/Values.antt =====
-- The values of a hash, and what adding one does to them.
use mathlib.Core.List.{Perm, perm_middle, map-append}
use mathlib.Core.List.Perm
use mathlib.Core.Path.{subst}
use interview.Base.{
  ℕ, ◌≡◌, ◌≢◌, refl, sym, ap, ◌∙◌, inl, inr, Bool, true, false, List, [], ◌∷◌, ◌++◌, map,
  append_assoc, arith, ◌==◌, Bool-cases, All, All-append_left, All-append_right, if◌then◌else◌,
}
use interview.Base.Apart.{IsApart, apart_around}
use interview.Base.Int.{ℤ, ltz, eqz}
use interview.AvlTree.Order.{Entry}
use interview.AvlTree.Sorted.{insert_entry}
use interview.AvlTree.InsertOrGet.{Offer, found, added, offered}
use interview.AvlTree.Data.{put}
use interview.HashMap.{HashMapNode, new_node}

module _ {ℓ} {D : Type ℓ} where
  -- no two entries stand on one node
  abbrev pub IsDistinct : List (Entry D) → Type 0
  IsDistinct = IsApart (λ e. e.id)

  put-absent :
      (id : ℕ) (f : D → D) (xs : List (Entry D)) → All (λ y. y.id ≢ id) xs → map (put id f) xs ≡ xs
  put-absent id f [] a = refl
  put-absent id f (x ∷ xs) a =
      let no : (x.id == id) ≡ false = ground (arith, a.0) in
      rw no (ap (λ l. x ∷ l) (put-absent id f xs a.1))

  -- a write to the one node of an entry
  pub put-once :
      (f : D → D) (before : List (Entry D)) (e : Entry D) (after : List (Entry D))
      → All (λ y. y.id ≢ e.id) before
      → All (λ y. y.id ≢ e.id) after
      → map (put e.id f) (before ++ e ∷ after)
        ≡ before ++ record e { payload = f e.payload } ∷ after
  put-once f before e after a b =
      let yes : (e.id == e.id) ≡ true = ground arith in
      map-append (put e.id f) before (e ∷ after)
      ∙ rw (put-absent e.id f before a, put-absent e.id f after b, yes) refl

  -- where an insertion puts its entry
  pub record Place (e : Entry D) (xs : List (Entry D)) : Type ℓ where
    pub before : List (Entry D)
    pub after : List (Entry D)
    pub whole : xs ≡ before ++ after
    pub placed : insert_entry e xs ≡ before ++ e ∷ after

  pub place : (e : Entry D) (xs : List (Entry D)) → Place e xs
  unfolding insert_entry
  place e [] = record { before = []; after = []; whole = refl; placed = refl }
  place e (x ∷ xs) =
      let p = place e xs in
      elim (Bool-cases (ltz e.key x.key)) [
        | inl lt ↦ record { before = []; after = x ∷ xs; whole = refl; placed = rw lt refl }
        | inr ge ↦ record {
          before = x ∷ p.before;
          after = p.after;
          whole = ap (λ l. x ∷ l) p.whole;
          placed = rw ge (ap (λ l. x ∷ l) p.placed);
        }
      ]

  pub distinct_around :
      (before : List (Entry D)) (e : Entry D) (after : List (Entry D))
      → IsDistinct (before ++ e ∷ after)
      → All (λ y. y.id ≢ e.id) before × All (λ y. y.id ≢ e.id) after
  distinct_around = apart_around (λ e. e.id)

module _ {ℓ} {V : Type ℓ} where
  -- the values of all the entries with the key `k`
  unfoldable pub values : ℤ → List (Entry (HashMapNode V)) → List V
  values k [] = []
  values k (e ∷ es) =
      let rest = values k es in if eqz e.key k then e.payload.data_list ++ rest else rest

  values-append :
      (k : ℤ) (xs ys : List (Entry (HashMapNode V)))
      → values k (xs ++ ys) ≡ values k xs ++ values k ys
  unfolding values
  values-append k [] ys = refl
  values-append k (x ∷ xs) ys = elim (Bool-cases (eqz x.key k)) [
    | inl h ↦ rw h (
        ap (λ l. x.payload.data_list ++ l) (values-append k xs ys)
        ∙ sym (append_assoc x.payload.data_list (values k xs) (values k ys)))
    | inr h ↦ rw h (values-append k xs ys)
  ]

  abbrev pub single : Bool → V → List V
  single true v = v ∷ []
  single false v = []

  -- the append of `hash_map_node_add` to a node's list
  abbrev pub appended : V → HashMapNode V → HashMapNode V
  appended v hmn = record hmn { data_list = hmn.data_list ++ v ∷ [] }

  module _ (k : ℤ) (before : List (Entry (HashMapNode V))) (e : Entry (HashMapNode V))
      (after : List (Entry (HashMapNode V))) where
    values-appended :
        (v : V)
        → Perm
            (values k (before ++ record e { payload = appended v e.payload } ∷ after))
            (single (eqz e.key k) v ++ values k (before ++ e ∷ after))
    unfolding values
    values-appended v =
        let b = values k before in
        let l = e.payload.data_list in
        let w = values k after in
        rw
          (
            values-append k before (record e { payload = appended v e.payload } ∷ after),
            values-append k before (e ∷ after),
          )
          (elim (Bool-cases (eqz e.key k)) [
            | inl h ↦ rw h (
                rw
                  (
                    append_assoc l (v ∷ []) w,
                    sym (append_assoc b l (v ∷ w)),
                    sym (append_assoc b l w),
                  )
                  (perm_middle (b ++ l) w))
            | inr h ↦ rw h (Perm.refl (b ++ w))
          ])

    values-new :
        (h : ℤ)
        → values k (before ++ record e { payload = new_node h } ∷ after)
          ≡ values k (before ++ after)
    unfolding values
    values-new h =
        rw
          (
            values-append k before (record e { payload = new_node h } ∷ after),
            values-append k before after,
          )
          (elim (Bool-cases (eqz e.key k)) [ inl h ↦ rw h refl | inr h ↦ rw h refl ])

  -- entries `ys` with the node `id` for the hash `h`, and the values of `xs`
  pub record Reached (h : ℤ) (xs ys : List (Entry (HashMapNode V))) (id : ℕ) : Type ℓ where
    before : List (Entry (HashMapNode V))
    here : Entry (HashMapNode V)
    after : List (Entry (HashMapNode V))
    whole : ys ≡ before ++ here ∷ after
    same_id : here.id ≡ id
    same_key : here.key ≡ h
    before_others : All (λ y. y.id ≢ here.id) before
    after_others : All (λ y. y.id ≢ here.id) after
    unchanged : (k : ℤ) → values k ys ≡ values k xs

  -- the entries behind the initialization of a node that was inserted
  abbrev pub initialized :
      Bool → ℕ → ℤ → List (Entry (HashMapNode V)) → List (Entry (HashMapNode V))
  initialized true id h ys = map (put id (λ old. new_node h)) ys
  initialized false id h ys = ys

  pub Offer-Reached :
      (fresh : ℕ) (garbage : HashMapNode V) (h : ℤ) (xs ys : List (Entry (HashMapNode V))) (id : ℕ)
      (b : Bool)
      → IsDistinct xs
      → All (λ y. y.id ≢ fresh) xs
      → Offer (offered fresh garbage h) xs ys id b
      → Reached h xs (initialized b id h ys) id
  Offer-Reached fresh garbage h xs ys id false d new (found before old after same p q) =
      let (db, da) = distinct_around before old after (subst IsDistinct p d) in
      record {
        before = before;
        here = old;
        after = after;
        whole = q ∙ p;
        same_id = refl;
        same_key = same;
        before_others = db;
        after_others = da;
        unchanged = λ k. ap (values k) q;
      }
  Offer-Reached fresh garbage h xs ys id true d new (added absent p) =
      let e = offered fresh garbage h in
      let at_ = place e xs in
      let around = subst (All (λ y. y.id ≢ fresh)) at_.whole new in
      let ob = All-append_left (λ y. y.id ≢ fresh) at_.before at_.after around in
      let oa = All-append_right (λ y. y.id ≢ fresh) at_.before at_.after around in
      let whole : map (put fresh (λ old. new_node h)) ys
          ≡ at_.before ++ record e { payload = new_node h } ∷ at_.after =
        ap (map (put fresh (λ old. new_node h))) (p ∙ at_.placed)
        ∙ put-once (λ old. new_node h) at_.before e at_.after ob oa in
      record {
        before = at_.before;
        here = record e { payload = new_node h };
        after = at_.after;
        whole = whole;
        same_id = refl;
        same_key = refl;
        before_others = ob;
        after_others = oa;
        unchanged = λ k.
            ap (values k) whole
            ∙ values-new k at_.before e at_.after h
            ∙ ap (values k) (sym at_.whole);
      }

  -- appending a value to the node that was reached
  pub Reached-appended :
      (h k : ℤ) (v : V) (xs ys : List (Entry (HashMapNode V))) (id : ℕ)
      → Reached h xs ys id
      → Perm (values k (map (put id (appended v)) ys)) (single (eqz h k) v ++ values k xs)
  Reached-appended h k v xs ys id r =
      let write : map (put id (appended v)) ys
          ≡ r.before ++ record (r.here) { payload = appended v r.here.payload } ∷ r.after =
        ap (λ i. map (put i (appended v)) ys) (sym r.same_id)
        ∙ ap (map (put r.here.id (appended v))) r.whole
        ∙ put-once (appended v) r.before r.here r.after r.before_others r.after_others in
      let back : values k (r.before ++ r.here ∷ r.after) ≡ values k xs =
        ap (values k) (sym r.whole) ∙ r.unchanged k in
      rw (write, sym back, sym r.same_key) (values-appended k r.before r.here r.after v)
