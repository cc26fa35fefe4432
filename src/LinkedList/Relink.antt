-- ===== src/LinkedList/Relink.antt =====
-- `if (p) p->next = q` and `if (p) p->prev = q` at the end of a list, and at its front.
use interview.Base.{
  ℕ, ◌≡◌, refl, ap, ◌∙◌, inl, inr, true, false, Option, none, some, List, [], ◌∷◌, arith, ◌==◌,
  Bool-cases,
}
use interview.LinkedList.{
  ListElement, null, Heap, write, load, set_next, set_prev, relink_next, relink_prev, deallocate,
}
use interview.LinkedList.Nodes.{
  has, head_or, last_or, Holds, Nodes, nil, cons, outside, Apart, Nodes-frame, Nodes-write,
}

-- a write that keeps the elements `xs`, now between `before` and `after`, and all else
pub record Relinked (h : Heap) (host before after : ℕ) (xs : List ℕ) (o : Option Heap)
    : Type 0 where
  pub result : Heap
  pub returns : o ≡ some result
  pub nodes : Nodes result host after before xs
  pub same : (a : ℕ) → outside xs result a ≡ outside xs h a

module _ {h : Heap} {host p prev next : ℕ} (e : Holds h host p prev next) where
  abbrev pub element : ℕ → ℕ → ListElement
  element prev' next' = record { host = host; prev = prev'; next = next'; content = e.content }

  pub not_null : (p == null) ≡ false
  not_null = ground (arith, e.ne_null)

  pub load-Holds : load h p ≡ some (element prev next)
  unfolding load
  load-Holds = rw (not_null, e.here)

  pub set_next-Holds : (q : ℕ) → set_next h p q ≡ some (write h p (some (element prev q)))
  unfolding set_next
  set_next-Holds q = rw load-Holds

  pub set_prev-Holds : (q : ℕ) → set_prev h p q ≡ some (write h p (some (element q next)))
  unfolding set_prev
  set_prev-Holds q = rw load-Holds

  pub deallocate-Holds : deallocate p h ≡ some (write h p none)
  unfolding deallocate
  deallocate-Holds = rw load-Holds

  pub Holds-write :
      (prev' next' : ℕ) → Holds (write h p (some (element prev' next'))) host p prev' next'
  unfolding write
  Holds-write prev' next' = record { ne_null = e.ne_null; content = e.content; here = ground arith }

pub outside-write :
    (h : Heap) (p : ℕ) (e : Option ListElement) (xs : List ℕ) (a : ℕ)
    → has p xs ≡ true
    → outside xs (write h p e) a ≡ outside xs h a
unfolding write
outside-write h p e xs a m = elim (Bool-cases (a == p)) [
  | inl q ↦ let same : a ≡ p = ground arith in rw (ap (λ b. has b xs) same, m) refl
  | inr q ↦ rw q refl
]

-- the address of the last element is in the list
pub has-last : (x : ℕ) (r : List ℕ) → has (last_or x r) (x ∷ r) ≡ true
has-last x [] = ground arith
has-last x (y ∷ r) = ground (arith, has-last y r)

module _ {h : Heap} {host after before : ℕ} where
  relink_first :
      (p : ℕ) {y : ℕ} {r : List ℕ}
      → Nodes h host after before (y ∷ r)
      → Relinked h host p after (y ∷ r) (set_prev h y p)
  relink_first p (cons {x = y} {xs = r} n out rest) =
      let e = element n p (head_or after r) in
      record {
        result = write h y (some e);
        returns = set_prev-Holds n p;
        nodes = cons (Holds-write n p (head_or after r)) out (Nodes-write y (some e) rest out);
        same = λ a. outside-write h y (some e) (y ∷ r) a (ground arith);
      }

  pub relink_prev-Relinked :
      (p : ℕ) {ys : List ℕ}
      → Nodes h host after before ys
      → Relinked h host p after ys (relink_prev h (head_or null ys) p)
  unfolding relink_prev
  relink_prev-Relinked p nil = record { result = h; returns = refl; nodes = nil; same = λ a. refl }
  relink_prev-Relinked p (cons {x} n out rest) =
      let i = relink_first p (cons n out rest) in
      record {
        result = i.result;
        returns = rw (not_null n) i.returns;
        nodes = i.nodes;
        same = i.same;
      }

-- a heap that is the same outside of `xs` is the same at `a`
pub same_at :
    (h g : Heap) (xs : List ℕ) (a : ℕ)
    → outside xs g a ≡ outside xs h a
    → has a xs ≡ false
    → g a ≡ h a
same_at h g xs a e out = ground arith

pub Nodes-outside :
    {h g : Heap} {host after before : ℕ} {xs : List ℕ} (ys : List ℕ)
    → Nodes h host after before xs
    → ((a : ℕ) → outside ys g a ≡ outside ys h a)
    → Apart xs ys
    → Nodes g host after before xs
Nodes-outside {h} {g} ys n same apart = Nodes-frame n (λ a m. same_at h g ys a (same a) (apart a m))

pub last-not_null :
    {h : Heap} {host after before : ℕ} (x : ℕ) (r : List ℕ)
    → Nodes h host after before (x ∷ r)
    → (last_or x r == null) ≡ false
last-not_null x [] (cons n out rest) = not_null n
last-not_null x (y ∷ r) (cons n out rest) = last-not_null y r rest

relink_last :
    {h : Heap} {host after before : ℕ} (q x : ℕ) (r : List ℕ)
    → Nodes h host after before (x ∷ r)
    → Relinked h host before q (x ∷ r) (set_next h (last_or x r) q)
relink_last {h} {before} q x [] (cons n out rest) =
    let e = element n before q in
    record {
      result = write h x (some e);
      returns = set_next-Holds n q;
      nodes = cons (Holds-write n before q) out nil;
      same = λ a. outside-write h x (some e) (x ∷ []) a (ground arith);
    }
relink_last {h} q x (y ∷ r) (cons n out rest) =
    let i = relink_last q y r rest in
    let stays : i.result x ≡ h x = same_at h i.result (y ∷ r) x (i.same x) out in
    record {
      result = i.result;
      returns = i.returns;
      nodes =
          cons (record { ne_null = n.ne_null; content = n.content; here = stays ∙ n.here }) out
            i.nodes;
      same = λ a. ground (arith, i.same a);
    }

pub relink_next-Relinked :
    {h : Heap} {host after : ℕ} (q : ℕ) (xs : List ℕ)
    → Nodes h host after null xs
    → Relinked h host null q xs (relink_next h (last_or null xs) q)
unfolding relink_next
relink_next-Relinked {h} q [] n = record {
  result = h;
  returns = refl;
  nodes = nil;
  same = λ a. refl;
}
relink_next-Relinked q (x ∷ r) n =
    let i = relink_last q x r n in
    record {
      result = i.result;
      returns = rw (last-not_null x r n) i.returns;
      nodes = i.nodes;
      same = i.same;
    }
