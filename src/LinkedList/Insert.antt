-- ===== src/LinkedList/Insert.antt =====
-- The four ways to insert an element: each puts it at its place in the list.
use mathlib.Core.Path.{subst}
use interview.Base.{
  ℕ, ◌+◌, ◌^◌, ◌<◌, ◌≡◌, ◌≢◌, refl, sym, ap, ◌∙◌, false, ◌||◌, Option, none, some, List, [], ◌∷◌,
  ◌++◌, append_assoc, append-nil, length-append, arith, ◌==◌, if◌then◌else◌, ◌>>=◌, bind-eq_some,
}
use interview.LinkedList.{
  LinkedList, null, Heap, set_next, set_prev, relink_next, relink_prev, assert_host, count_up,
  list_prepend, list_append, list_add_after, list_add_before,
}
use interview.LinkedList.Nodes.{
  head_or, head_or-append, last_or, last_or-append, Nodes, IsList, outside, Nodes-append_right,
  has_of_none,
}
use interview.LinkedList.Relink.{load-Holds, last-not_null}
use interview.LinkedList.Ends.{
  relink_none, none_relink, first_or, end_or, relink_next-set, relink_prev-set, at_el,
  assert_host-Holds, back_after, front_before, front_stays,
}
use interview.LinkedList.Ready.{
  Ready, Ready-allocate, Ready-set_prev, Ready-set_next, Ready-next_prev, Ready-prev_next,
}

-- the outcome of an insertion of `x` between `xs` and `ys`: a heap and a list that hold the new
-- sequence, and nothing else is written
pub record Inserted (h : Heap) (l : LinkedList) (xs : List ℕ) (x : ℕ) (ys : List ℕ)
    (o : Option (Heap × LinkedList × ℕ)) : Type 0 where
  pub heap : Heap
  pub list : LinkedList
  pub returns : o ≡ some (heap, list, x)
  pub valid : IsList heap list (xs ++ x ∷ ys)
  pub self : list.self ≡ l.self
  pub same : (a : ℕ) → outside (xs ++ x ∷ ys) heap a ≡ outside (xs ++ x ∷ ys) h a

module _ (h : Heap) (l : LinkedList) (x : ℕ) (ne : x ≢ null) (unused : h x ≡ none) where
  -- At the back of a list.
  pub append-Inserted :
      (xs : List ℕ)
      → IsList h l xs
      → l.count + 1 < 2 ^ 64
      → Inserted h l xs x [] (list_append x h l)
  unfolding list_append
  append-Inserted xs v room =
      let n : Nodes h l.self null null (xs ++ []) =
        subst (Nodes h l.self null null) (sym (append-nil xs)) v.nodes in
      let out = has_of_none x n unused in
      let (g1, e1, r1) = Ready-allocate h l xs x [] out ne n in
      let (g2, e2, r2) = Ready-set_prev h l xs x [] out g1 null null l.back r1 in
      let (g3, e3, r3) = Ready-set_next h l xs x [] out g2 l.back null null r2 in
      let w =
        Ready-next_prev h l xs x [] out g3 (subst (λ p. Ready h l xs x [] g3 p null) v.back r3) in
      let linked : relink_next g3 l.back x ≡ some w.result =
        ap (λ p. relink_next g3 p x) v.back
        ∙ sym (relink_none (relink_next g3 (last_or null xs) x) x)
        ∙ w.returns in
      record {
        heap = w.result;
        list = count_up (record l { back = x; front = if l.front == null then x else l.front });
        returns = rw (e1, ◌>>=◌) (rw (e2, ◌>>=◌) (rw (e3, ◌>>=◌) (rw (linked, ◌>>=◌) refl)));
        valid = record {
          nodes = w.nodes;
          front =
              ap (λ f. if f == null then x else f) v.front
              ∙ first_or xs x v.nodes
              ∙ sym (head_or-append null xs (x ∷ []));
          back = sym (last_or-append null xs (x ∷ []));
          counted = omega (arith, v.counted, length-append xs (x ∷ []));
          small = omega (arith, v.counted, length-append xs (x ∷ []));
        };
        self = refl;
        same = λ a. w.same a ∙ r3.same a;
      }

  -- At the front.
  pub prepend-Inserted :
      (ys : List ℕ)
      → IsList h l ys
      → l.count + 1 < 2 ^ 64
      → Inserted h l [] x ys (list_prepend x h l)
  unfolding list_prepend
  prepend-Inserted ys v room =
      let out = has_of_none x v.nodes unused in
      let (g1, e1, r1) = Ready-allocate h l [] x ys out ne v.nodes in
      let (g2, e2, r2) = Ready-set_prev h l [] x ys out g1 null null null r1 in
      let (g3, e3, r3) = Ready-set_next h l [] x ys out g2 null null l.front r2 in
      let w =
        Ready-prev_next h l [] x ys out g3 (subst (λ p. Ready h l [] x ys g3 null p) v.front r3) in
      let linked : relink_prev g3 l.front x ≡ some w.result =
        ap (λ p. relink_prev g3 p x) v.front
        ∙ sym (none_relink (relink_prev g3 (head_or null ys) x) x)
        ∙ w.returns in
      record {
        heap = w.result;
        list = count_up (record l { front = x; back = if l.back == null then x else l.back });
        returns = rw (e1, ◌>>=◌) (rw (e2, ◌>>=◌) (rw (e3, ◌>>=◌) (rw (linked, ◌>>=◌) refl)));
        valid = record {
          nodes = w.nodes;
          front = refl;
          back = ap (λ f. if f == null then x else f) v.back ∙ end_or ys x v.nodes;
          counted = omega (arith, v.counted);
          small = omega (arith, v.counted);
        };
        self = refl;
        same = λ a. w.same a ∙ r3.same a;
      }

  module _ (us : List ℕ) (el : ℕ) (bs : List ℕ) (v : IsList h l (us ++ el ∷ bs))
      (room : l.count + 1 < 2 ^ 64) where
    checked : (assert_host h l el ≡ some tt) × ((el == null) ≡ false)
    checked = assert_host-Holds l (at_el us el bs v.nodes)

    -- Behind the element `el`.
    pub after-Inserted : Inserted h l (us ++ el ∷ []) x bs (list_add_after x h l el)
    unfolding list_add_after
    after-Inserted =
        let xs = us ++ el ∷ [] in
        let whole : xs ++ bs ≡ us ++ el ∷ bs = append_assoc us (el ∷ []) bs in
        let last : last_or null xs ≡ el = last_or-append null us (el ∷ []) in
        let n : Nodes h l.self null null (xs ++ bs) =
          subst (Nodes h l.self null null) (sym whole) v.nodes in
        let out = has_of_none x n unused in
        let (g1, e1, r1) = Ready-allocate h l xs x bs out ne n in
        let (g2, e2, r2) = Ready-set_prev h l xs x bs out g1 null null el r1 in
        let (g3, e3, r3) = Ready-set_next h l xs x bs out g2 el null (head_or null bs) r2 in
        let read = load-Holds (at_el us el bs (subst (Nodes g2 l.self null null) whole r2.nodes)) in
        let w =
          Ready-next_prev h l xs x bs out g3
            (subst (λ p. Ready h l xs x bs g3 p (head_or null bs)) (sym last) r3) in
        let linked : (set_next g3 el x >>= λ g. relink_prev g (head_or null bs) x) ≡ some w.result =
          ap (λ m. m >>= λ g. relink_prev g (head_or null bs) x)
            (sym (relink_next-set g3 el x checked.1) ∙ ap (λ p. relink_next g3 p x) (sym last))
          ∙ w.returns in
        let (g4, e4, e5) =
          bind-eq_some (set_next g3 el x) (λ g. relink_prev g (head_or null bs) x) linked in
        record {
          heap = w.result;
          list = count_up (record l {
            front = if l.front == null then x else l.front;
            back = if (l.back == null) || (l.back == el) then x else l.back;
          });
          returns =
              rw (checked.0, ◌>>=◌)
                (rw (checked.1) (
                  rw (e1, ◌>>=◌)
                    (rw (e2, ◌>>=◌)
                      (rw (read, ◌>>=◌) (rw (e3, ◌>>=◌) (rw (e4, ◌>>=◌) (rw (e5, ◌>>=◌) refl)))))));
          valid = record {
            nodes = w.nodes;
            front =
                ap (λ f. if f == null then x else f) (v.front ∙ head_or-append null us (el ∷ bs))
                ∙ front_stays el x us bs v.nodes
                ∙ sym (
                    ap (head_or null) (append_assoc us (el ∷ []) (x ∷ bs))
                    ∙ head_or-append null us (el ∷ x ∷ bs));
            back =
                ap (λ f. if (f == null) || (f == el) then x else f)
                  (v.back ∙ last_or-append null us (el ∷ bs))
                ∙ back_after el x bs (Nodes-append_right us (el ∷ bs) v.nodes)
                ∙ sym (last_or-append null xs (x ∷ bs));
            counted = omega (
              arith,
              v.counted,
              length-append xs (x ∷ bs),
              length-append us (el ∷ bs),
              length-append us (el ∷ []),
            );
            small = omega (
              arith,
              v.counted,
              length-append xs (x ∷ bs),
              length-append us (el ∷ bs),
              length-append us (el ∷ []),
            );
          };
          self = refl;
          same = λ a. w.same a ∙ r3.same a;
        }

    -- In front of the element `el`.
    pub before-Inserted : Inserted h l us x (el ∷ bs) (list_add_before x h l el)
    unfolding list_add_before
    before-Inserted =
        let ys = el ∷ bs in
        let out = has_of_none x v.nodes unused in
        let (g1, e1, r1) = Ready-allocate h l us x ys out ne v.nodes in
        let (g2, e2, r2) = Ready-set_next h l us x ys out g1 null null el r1 in
        let (g3, e3, r3) = Ready-set_prev h l us x ys out g2 null el (last_or null us) r2 in
        let read = load-Holds (at_el us el bs r2.nodes) in
        let w = Ready-prev_next h l us x ys out g3 r3 in
        let linked : (set_prev g3 el x >>= λ g. relink_next g (last_or null us) x) ≡ some w.result =
          ap (λ m. m >>= λ g. relink_next g (last_or null us) x)
            (sym (relink_prev-set g3 el x checked.1))
          ∙ w.returns in
        let (g4, e4, e5) =
          bind-eq_some (set_prev g3 el x) (λ g. relink_next g (last_or null us) x) linked in
        record {
          heap = w.result;
          list = count_up (record l {
            front = if (l.front == null) || (l.front == el) then x else l.front;
            back = if l.back == null then x else l.back;
          });
          returns =
              rw (checked.0, ◌>>=◌)
                (rw (checked.1) (
                  rw (e1, ◌>>=◌)
                    (rw (e2, ◌>>=◌)
                      (rw (read, ◌>>=◌) (rw (e3, ◌>>=◌) (rw (e4, ◌>>=◌) (rw (e5, ◌>>=◌) refl)))))));
          valid = record {
            nodes = w.nodes;
            front =
                ap (λ f. if (f == null) || (f == el) then x else f)
                  (v.front ∙ head_or-append null us (el ∷ bs))
                ∙ front_before el x us bs v.nodes
                ∙ sym (head_or-append null us (x ∷ el ∷ bs));
            back =
                ap (λ f. if f == null then x else f) (v.back ∙ last_or-append null us (el ∷ bs))
                ∙ rw (last-not_null el bs (Nodes-append_right us (el ∷ bs) v.nodes)) refl
                ∙ sym (last_or-append null us (x ∷ el ∷ bs));
            counted =
                omega
                  (arith, v.counted, length-append us (x ∷ el ∷ bs), length-append us (el ∷ bs));
            small =
                omega
                  (arith, v.counted, length-append us (x ∷ el ∷ bs), length-append us (el ∷ bs));
          };
          self = refl;
          same = λ a. w.same a ∙ r3.same a;
        }
