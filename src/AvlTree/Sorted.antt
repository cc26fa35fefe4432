-- ===== src/AvlTree/Sorted.antt =====
-- Sequences of entries in the order of their keys: what an insertion and a removal mean for them.
use mathlib.Core.Path.{subst}
use interview.Base.{
  ℕ, ◌+◌, ◌≡◌, ◌≢◌, sym, ap, ◌∙◌, length, length-append, true, false, inl, inr, Option, none, some,
  List, [], ◌∷◌, ◌++◌, append_assoc, arith, Bool-cases, if◌then◌else◌, All, All-append,
  All-append_left, All-append_right, All-mono,
}
use interview.Base.Int.{ℤ, pos_part, neg_part, ltz, ◌≤ℤ◌, ◌<ℤ◌}
use interview.AvlTree.Order.{Entry}

pub ne_of_lt : (a b k : ℤ) → k <ℤ a → a ≤ℤ b → b ≢ k
ne_of_lt a b k p q e = absurd (omega (arith, ap pos_part e, ap neg_part e))

pub ne_of_gt : (a b k : ℤ) → a <ℤ k → b ≤ℤ a → b ≢ k
ne_of_gt a b k p q e = absurd (omega (arith, ap pos_part e, ap neg_part e))

module _ {ℓ} {D : Type ℓ} where
  abbrev pub IsSorted : List (Entry D) → Type 0
  IsSorted [] = Unit
  IsSorted (x ∷ xs) = All (λ y. x.key ≤ℤ y.key) xs × IsSorted xs

  pub record Split (xs : List (Entry D)) (y : Entry D) (ys : List (Entry D)) : Type ℓ where
    pub front : IsSorted xs
    pub below : All (λ x. x.key ≤ℤ y.key) xs
    pub above : All (λ z. y.key ≤ℤ z.key) ys
    pub back : IsSorted ys

  pub split :
      (xs : List (Entry D)) (y : Entry D) (ys : List (Entry D))
      → IsSorted (xs ++ y ∷ ys)
      → Split xs y ys
  split [] y ys s = record { front = tt; below = tt; above = s.0; back = s.1 }
  split (x ∷ xs) y ys s =
      let r = split xs y ys s.1 in
      record {
        front = (All-append_left _ xs (y ∷ ys) s.0, r.front);
        below = ((All-append_right _ xs (y ∷ ys) s.0).0, r.below);
        above = r.above;
        back = r.back;
      }

  -- behind the entries whose keys are not greater
  unfoldable pub insert_entry : Entry D → List (Entry D) → List (Entry D)
  insert_entry e [] = e ∷ []
  insert_entry e (x ∷ xs) = if ltz e.key x.key then e ∷ x ∷ xs else x ∷ insert_entry e xs

  pub insert_entry-left :
      (e : Entry D) (xs : List (Entry D)) (y : Entry D) (ys : List (Entry D))
      → ltz e.key y.key ≡ true
      → insert_entry e xs ++ y ∷ ys ≡ insert_entry e (xs ++ y ∷ ys)
  unfolding insert_entry
  insert_entry-left e [] y ys h = rw h
  insert_entry-left e (x ∷ xs) y ys h = elim (Bool-cases (ltz e.key x.key)) [
    | inl t ↦ rw t
    | inr f ↦ rw f (ap (λ l. x ∷ l) (insert_entry-left e xs y ys h))
  ]

  pub insert_entry-right :
      (e : Entry D) (xs : List (Entry D)) (y : Entry D) (ys : List (Entry D))
      → ltz e.key y.key ≡ false
      → All (λ x. x.key ≤ℤ y.key) xs
      → xs ++ y ∷ insert_entry e ys ≡ insert_entry e (xs ++ y ∷ ys)
  unfolding insert_entry
  insert_entry-right e [] y ys h a = rw h
  insert_entry-right e (x ∷ xs) y ys h a =
      let f : ltz e.key x.key ≡ false = trans_false e.key x.key y.key h a.0 in
      rw f (ap (λ l. x ∷ l) (insert_entry-right e xs y ys h a.1))
    where
      trans_false : (a b c : ℤ) → ltz a c ≡ false → b ≤ℤ c → ltz a b ≡ false
      trans_false a b c p q = ground arith

  All-insert_entry {κ} :
      (P : Entry D → Type κ) (e : Entry D) (xs : List (Entry D))
      → P e
      → All P xs
      → All P (insert_entry e xs)
  unfolding insert_entry
  All-insert_entry P e [] p a = (p, tt)
  All-insert_entry P e (x ∷ xs) p a = elim (Bool-cases (ltz e.key x.key)) [
    | inl t ↦ rw t (p, a)
    | inr f ↦ rw f (a.0, All-insert_entry P e xs p a.1)
  ]

  pub insert_entry-IsSorted :
      (e : Entry D) (xs : List (Entry D)) → IsSorted xs → IsSorted (insert_entry e xs)
  unfolding insert_entry
  insert_entry-IsSorted e [] s = (tt, tt)
  insert_entry-IsSorted e (x ∷ xs) s = elim (Bool-cases (ltz e.key x.key)) [
    | inl t ↦
        rw t ((below t, All-mono _ _ xs (λ a p. le_trans e.key x.key a.key (below t) p) s.0), s)
    | inr f ↦ rw f (All-insert_entry _ e xs (above f) s.0, insert_entry-IsSorted e xs s.1)
  ]
    where
      below : ltz e.key x.key ≡ true → e.key ≤ℤ x.key
      below t = ground arith

      above : ltz e.key x.key ≡ false → x.key ≤ℤ e.key
      above t = ground arith

      le_trans : (a b c : ℤ) → a ≤ℤ b → b ≤ℤ c → a ≤ℤ c
      le_trans a b c p q = omega arith

  -- what the removal of a key takes from the sequence `xs` to leave `ys`: nothing, or one entry
  -- with the key
  pub data Removal (k : ℤ) (xs ys : List (Entry D)) : Option D → Type ℓ where
    absent : All (λ e. e.key ≢ k) xs → ys ≡ xs → Removal k xs ys none
    present :
        (before : List (Entry D)) (e : Entry D) (after : List (Entry D))
        → e.key ≡ k
        → xs ≡ before ++ e ∷ after
        → ys ≡ before ++ after
        → Removal k xs ys (some e.payload)

  -- a removal left or right of an entry
  pub Removal-left :
      (k : ℤ) (xs xs' : List (Entry D)) (y : Entry D) (ys : List (Entry D)) {d : Option D}
      → k <ℤ y.key
      → All (λ z. y.key ≤ℤ z.key) ys
      → Removal k xs xs' d
      → Removal k (xs ++ y ∷ ys) (xs' ++ y ∷ ys) d
  Removal-left k xs xs' y ys lt up (absent a e) =
      absent
        (All-append _ xs (y ∷ ys) a (
          ne_of_lt y.key y.key k lt (omega arith),
          All-mono _ _ ys (λ z p. ne_of_lt y.key z.key k lt p) up,
        ))
        (ap (λ l. l ++ y ∷ ys) e)
  Removal-left k xs xs' y ys lt up (present before e after same p q) =
      present before e (after ++ y ∷ ys) same
        (ap (λ l. l ++ y ∷ ys) p ∙ append_assoc before (e ∷ after) (y ∷ ys))
        (ap (λ l. l ++ y ∷ ys) q ∙ append_assoc before after (y ∷ ys))

  pub Removal-right :
      (k : ℤ) (xs : List (Entry D)) (y : Entry D) (ys ys' : List (Entry D)) {d : Option D}
      → y.key <ℤ k
      → All (λ x. x.key ≤ℤ y.key) xs
      → Removal k ys ys' d
      → Removal k (xs ++ y ∷ ys) (xs ++ y ∷ ys') d
  Removal-right k xs y ys ys' lt down (absent a e) =
      absent
        (All-append _ xs (y ∷ ys) (All-mono _ _ xs (λ z p. ne_of_gt y.key z.key k lt p) down)
          (ne_of_gt y.key y.key k lt (omega arith), a))
        (ap (λ l. xs ++ y ∷ l) e)
  Removal-right k xs y ys ys' lt down (present before e after same p q) =
      present (xs ++ y ∷ before) e after same
        (ap (λ l. xs ++ y ∷ l) p ∙ sym (append_assoc xs (y ∷ before) (e ∷ after)))
        (ap (λ l. xs ++ y ∷ l) q ∙ sym (append_assoc xs (y ∷ before) after))

  pub length-insert_entry :
      (e : Entry D) (xs : List (Entry D)) → length (insert_entry e xs) ≡ length xs + 1
  unfolding insert_entry
  length-insert_entry e [] = omega arith
  length-insert_entry e (x ∷ xs) = elim (Bool-cases (ltz e.key x.key)) [
    | inl t ↦ rw t (omega arith)
    | inr f ↦ rw f (omega (arith, length-insert_entry e xs))
  ]

  IsSorted-join :
      (xs : List (Entry D)) (y : Entry D) (ys : List (Entry D))
      → IsSorted (xs ++ y ∷ ys)
      → IsSorted (xs ++ ys)
  IsSorted-join [] y ys s = s.1
  IsSorted-join (x ∷ xs) y ys s = (
    All-append _ xs ys (All-append_left _ xs (y ∷ ys) s.0) (All-append_right _ xs (y ∷ ys) s.0).1,
    IsSorted-join xs y ys s.1,
  )

  pub Removal-IsSorted :
      (k : ℤ) (xs ys : List (Entry D)) {d : Option D}
      → Removal k xs ys d
      → IsSorted xs
      → IsSorted ys
  Removal-IsSorted k xs ys (absent a q) s = subst IsSorted (sym q) s
  Removal-IsSorted k xs ys (present before e after same p q) s =
      subst IsSorted (sym q) (IsSorted-join before e after (subst IsSorted p s))

  abbrev pub taken : Option D → ℕ
  taken none = 0
  taken (some d) = 1

  pub length-Removal :
      (k : ℤ) (xs ys : List (Entry D)) {d : Option D}
      → Removal k xs ys d
      → length xs ≡ length ys + taken d
  length-Removal k xs ys (absent a q) = omega (arith, ap length q)
  length-Removal k xs ys (present before e after same p q) = omega (
    arith,
    ap length p,
    ap length q,
    length-append before (e ∷ after),
    length-append before after,
  )
