-- ===== src/LinkedList/Remove.antt =====
-- Taking an element out of a list: its neighbours are linked to each other and the element is freed.
use interview.Base.{
  ℕ, ◌≡◌, refl, sym, ap, ◌∙◌, inl, inr, true, false, Option, none, some, List, [], ◌∷◌, ◌++◌,
  length-append, arith, ◌==◌, Bool-cases, if◌then◌else◌, ◌>>=◌,
}
use interview.LinkedList.{
  LinkedList, null, Heap, write, relink_next, relink_prev, unlinked, list_remove_and_advance,
}
use interview.LinkedList.Nodes.{
  has, has-append, head_or, head_or-append, last_or, last_or-append, Nodes, cons, IsList, outside,
  Nodes-write, Nodes-append, Nodes-append_left, Nodes-append_right, Apart-append, Apart,
}
use interview.LinkedList.Relink.{
  relink_next-Relinked, relink_prev-Relinked, same_at, Nodes-outside, outside-write, load-Holds,
  deallocate-Holds, has-last,
}
use interview.LinkedList.Weave.{outside-middle}
use interview.LinkedList.Ends.{at_el, assert_host-Holds}

-- the outcome of taking `x` out from between `us` and `bs`: a list of the others, with the element
-- behind `x` returned, `x` freed, and nothing else written
pub record Removed (h : Heap) (l : LinkedList) (us : List ℕ) (x : ℕ) (bs : List ℕ)
    (o : Option (Heap × LinkedList × ℕ)) : Type 0 where
  pub heap : Heap
  pub list : LinkedList
  pub returns : o ≡ some (heap, list, head_or null bs)
  pub valid : IsList heap list (us ++ bs)
  pub self : list.self ≡ l.self
  pub freed : heap x ≡ none
  pub same : (a : ℕ) → outside (us ++ x ∷ bs) heap a ≡ outside (us ++ x ∷ bs) h a

record Closed (h : Heap) (host : ℕ) (us : List ℕ) (x : ℕ) (bs : List ℕ) : Type 0 where
  step : Heap
  heap : Heap
  relinks : relink_next (write h x none) (last_or null us) (head_or null bs) ≡ some step
  returns : relink_prev step (head_or null bs) (last_or null us) ≡ some heap
  nodes : Nodes heap host null null (us ++ bs)
  freed : heap x ≡ none
  same : (a : ℕ) → outside (us ++ x ∷ bs) heap a ≡ outside (us ++ x ∷ bs) h a

module _ {host : ℕ} (us : List ℕ) (x : ℕ) (bs : List ℕ) where
  Apart-middle :
      {h : Heap}
      → Nodes h host null null (us ++ x ∷ bs)
      → (has x us ≡ false) × (has x bs ≡ false) × Apart us bs × Apart bs us
  Apart-middle n =
      let apart = Apart-append us (x ∷ bs) n in
      let out_bs : has x bs ≡ false = elim (Nodes-append_right us (x ∷ bs) n) [
        | cons e out rest ↦ out
      ] in
      let left : Apart us bs = λ a m. ground (arith, apart a m) in
      let out_us : has x us ≡ false = elim (Bool-cases (has x us)) [
        | inl q ↦ ground (arith, apart x q)
        | inr q ↦ q
      ] in
      let right : Apart bs us =
        λ a m. elim (Bool-cases (has a us)) [ inl q ↦ cc (left a q, m) | inr q ↦ q ] in
      (out_us, out_bs, left, right)

  rest_of : {h : Heap} → Nodes h host null null (us ++ x ∷ bs) → Nodes h host null x bs
  rest_of n = elim (Nodes-append_right us (x ∷ bs) n) [ cons e out rest ↦ rest ]

  close : (h : Heap) → Nodes h host null null (us ++ x ∷ bs) → Closed h host us x bs
  unfolding write
  close h n =
      let (out_us, out_bs, left, right) = Apart-middle n in
      let g = write h x none in
      let i =
        relink_next-Relinked (head_or null bs) us
          (Nodes-write x none (Nodes-append_left us (x ∷ bs) n) out_us) in
      let j = relink_prev-Relinked (last_or null us) (
        Nodes-outside {h = g} {g = i.result} us (Nodes-write x none (rest_of n) out_bs) i.same
          right) in
      let cut : g x ≡ none = ground arith in
      let stays : (a : ℕ) → has a us ≡ false → has a bs ≡ false → j.result a ≡ g a = λ a m k.
        same_at i.result j.result bs a (j.same a) k ∙ same_at g i.result us a (i.same a) m in
      let here : has x (us ++ x ∷ bs) ≡ true = ground (arith, has-append x us (x ∷ bs)) in
      record {
        step = i.result;
        heap = j.result;
        relinks = i.returns;
        returns = j.returns;
        nodes =
            Nodes-append us bs (Nodes-outside {h = i.result} {g = j.result} bs i.nodes j.same left)
              j.nodes left;
        freed = stays x out_us out_bs ∙ cut;
        same = λ a.
            outside-middle g j.result us x bs a (stays a)
            ∙ outside-write h x none (us ++ x ∷ bs) a here;
      }

-- `if (el == l->front) l->front = next`, and the same for `back`
front_without :
    (us : List ℕ) (x : ℕ) (bs : List ℕ)
    → has x us ≡ false
    → (if x == head_or x us then head_or null bs else head_or x us) ≡ head_or null (us ++ bs)
front_without [] x bs out = ground arith
front_without (a ∷ r) x bs out = ground arith

back_without :
    (us : List ℕ) (x : ℕ) (bs : List ℕ)
    → has x bs ≡ false
    → (if x == last_or x bs then last_or null us else last_or x bs) ≡ last_or (last_or null us) bs
back_without us x [] out = ground arith
back_without us x (b ∷ r) out = elim (Bool-cases (x == last_or b r)) [
  | inl q ↦
      let same : x ≡ last_or b r = ground arith in
      cc (ap (λ a. has a (b ∷ r)) same, has-last b r, out)
  | inr q ↦ rw q refl
]

pub remove-Removed :
    (h : Heap) (l : LinkedList) (us : List ℕ) (el : ℕ) (bs : List ℕ)
    → IsList h l (us ++ el ∷ bs)
    → Removed h l us el bs (list_remove_and_advance h l el)
unfolding list_remove_and_advance unlinked
remove-Removed h l us el bs v =
    let e = at_el us el bs v.nodes in
    let (ok, here) = assert_host-Holds l e in
    let c = close us el bs h v.nodes in
    let (out_us, out_bs, left, right) = Apart-middle us el bs v.nodes in
    let some_left : (l.count == 0) ≡ false =
      ground (arith, v.counted, length-append us (el ∷ bs)) in
    let list = unlinked l el (last_or null us) (head_or null bs) in
    record {
      heap = c.heap;
      list = list;
      returns =
          rw (ok, ◌>>=◌)
            (rw (some_left) (
              rw here (
                rw (load-Holds e, ◌>>=◌)
                  (rw (deallocate-Holds e, ◌>>=◌)
                    (rw (c.relinks, ◌>>=◌) (rw (c.returns, ◌>>=◌) refl))))));
      valid = record {
        nodes = c.nodes;
        front =
            ap (λ f. if el == f then head_or null bs else f)
              (v.front ∙ head_or-append null us (el ∷ bs))
            ∙ front_without us el bs out_us;
        back =
            ap (λ f. if el == f then last_or null us else f)
              (v.back ∙ last_or-append null us (el ∷ bs))
            ∙ back_without us el bs out_bs
            ∙ sym (last_or-append null us bs);
        counted = omega (arith, v.counted, length-append us (el ∷ bs), length-append us bs);
        small = omega (arith, v.small, length-append us (el ∷ bs), length-append us bs);
      };
      self = refl;
      freed = c.freed;
      same = c.same;
    }
