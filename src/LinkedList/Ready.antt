-- ===== src/LinkedList/Ready.antt =====
-- A new element before it is linked: allocated, and with its own fields set.
use interview.Base.{
  ℕ, ◌+◌, ◌≡◌, ◌≢◌, refl, ◌∙◌, true, false, Option, some, List, ◌∷◌, ◌++◌, arith, ◌==◌,
  if◌then◌else◌, ◌>>=◌,
}
use interview.LinkedList.{
  ListElement, LinkedList, null, Heap, write, set_next, set_prev, relink_next, relink_prev,
  allocate, element_header,
}
use interview.LinkedList.Nodes.{
  has, has-append, head_or, last_or, Holds, Nodes, outside, Nodes-write, Nodes-append_left,
  Nodes-append_right, Apart-append,
}
use interview.LinkedList.Relink.{
  outside-write, set_next-Holds, set_prev-Holds, Holds-write, element,
}
use interview.LinkedList.Weave.{Woven, weave_next_prev, weave_prev_next}

module _ (h : Heap) (l : LinkedList) (xs : List ℕ) (x : ℕ) (ys : List ℕ) where
  -- the new element is allocated, with its fields `p` and `q`, and the list is as it was
  pub record Ready (g : Heap) (p q : ℕ) : Type 0 where
    pub new : Holds g l.self x p q
    pub nodes : Nodes g l.self null null (xs ++ ys)
    pub same : (a : ℕ) → outside (xs ++ x ∷ ys) g a ≡ outside (xs ++ x ∷ ys) h a

  module _ (out : has x (xs ++ ys) ≡ false) where
    Ready-write :
        (g : Heap) (p q p' q' : ℕ)
        → (r : Ready g p q) → Ready (write g x (some (element (r.new) p' q'))) p' q'
    Ready-write g p q p' q' r =
        let e = some (element r.new p' q') in
        let here : has x (xs ++ x ∷ ys) ≡ true = ground (arith, has-append x xs (x ∷ ys)) in
        record {
          new = Holds-write r.new p' q';
          nodes = Nodes-write x e r.nodes out;
          same = λ a. outside-write g x e (xs ++ x ∷ ys) a here ∙ r.same a;
        }

    pub Ready-set_prev :
        (g : Heap) (p q p' : ℕ)
        → Ready g p q
        → (g' : Heap) × (set_prev g x p' ≡ some g') × Ready g' p' q
    Ready-set_prev g p q p' r =
        (write g x (some (element r.new p' q)), set_prev-Holds r.new p', Ready-write g p q p' q r)

    pub Ready-set_next :
        (g : Heap) (p q q' : ℕ)
        → Ready g p q
        → (g' : Heap) × (set_next g x q' ≡ some g') × Ready g' p q'
    Ready-set_next g p q q' r =
        (write g x (some (element r.new p q')), set_next-Holds r.new q', Ready-write g p q p q' r)

    pub Ready-allocate :
        x ≢ null
        → Nodes h l.self null null (xs ++ ys)
        → (g : Heap) × (allocate x h l ≡ some g) × Ready g null null
    unfolding allocate write
    Ready-allocate ne n =
        let content = if l.inplace then x + element_header else null in
        let e : Option ListElement =
          some (record { host = l.self; prev = null; next = null; content = content }) in
        let no : (x == null) ≡ false = ground arith in
        let here : has x (xs ++ x ∷ ys) ≡ true = ground (arith, has-append x xs (x ∷ ys)) in
        (
          write h x e,
          rw no refl,
          record {
            new = record { ne_null = ne; content = content; here = ground arith };
            nodes = Nodes-write x e n out;
            same = λ a. outside-write h x e (xs ++ x ∷ ys) a here;
          },
        )

    out_xs : has x xs ≡ false
    out_xs = ground (arith, has-append x xs ys, out)

    out_ys : has x ys ≡ false
    out_ys = ground (arith, has-append x xs ys, out)

    pub Ready-next_prev :
        (g : Heap)
        → (r : Ready g (last_or null xs) (head_or null ys))
        → Woven g l.self xs x ys
            (relink_next g (last_or null xs) x >>= λ h. relink_prev h (head_or null ys) x)
    Ready-next_prev g r =
        weave_next_prev xs x ys r.new (Nodes-append_left xs ys r.nodes)
          (Nodes-append_right xs ys r.nodes) (Apart-append xs ys r.nodes) out_xs out_ys

    pub Ready-prev_next :
        (g : Heap)
        → (r : Ready g (last_or null xs) (head_or null ys))
        → Woven g l.self xs x ys
            (relink_prev g (head_or null ys) x >>= λ h. relink_next h (last_or null xs) x)
    Ready-prev_next g r =
        weave_prev_next xs x ys r.new (Nodes-append_left xs ys r.nodes)
          (Nodes-append_right xs ys r.nodes) (Apart-append xs ys r.nodes) out_xs out_ys
