-- ===== src/LinkedList/Ends.antt =====
-- The tests on `front`, `back` and NULL that the operations make.
use interview.Base.{
  ℕ, ◌≡◌, refl, ap, inl, inr, true, false, ◌||◌, Option, none, some, List, [], ◌∷◌, ◌++◌, arith,
  ◌==◌, Bool-cases, if◌then◌else◌, ◌>>=◌,
}
use interview.LinkedList.{
  LinkedList, null, Heap, set_next, set_prev, relink_next, relink_prev, assert_host,
}
use interview.LinkedList.Nodes.{
  has, has-append, head_or, last_or, Holds, Nodes, cons, Nodes-append_right,
}
use interview.LinkedList.Relink.{load-Holds, has-last, last-not_null, not_null}

pub relink_none : (m : Option Heap) (x : ℕ) → (m >>= λ h. relink_prev h null x) ≡ m
unfolding relink_prev
relink_none none x = refl
relink_none (some h) x = refl

pub none_relink : (m : Option Heap) (x : ℕ) → (m >>= λ h. relink_next h null x) ≡ m
unfolding relink_next
none_relink none x = refl
none_relink (some h) x = refl

-- `if (!l->front) l->front = x`, and the same for `back`
pub first_or :
    (xs : List ℕ) (x : ℕ) {h : Heap} {host after : ℕ}
    → Nodes h host after null xs
    → (if head_or null xs == null then x else head_or null xs) ≡ head_or x xs
first_or [] x n = refl
first_or (y ∷ r) x (cons n out rest) = rw (not_null n) refl

pub end_or :
    (xs : List ℕ) (x : ℕ) {h : Heap} {host after : ℕ}
    → Nodes h host after null xs
    → (if last_or null xs == null then x else last_or null xs) ≡ last_or x xs
end_or [] x n = refl
end_or (y ∷ r) x n = rw (last-not_null y r n) refl

pub relink_next-set :
    (g : Heap) (p q : ℕ) → (p == null) ≡ false → relink_next g p q ≡ set_next g p q
unfolding relink_next
relink_next-set g p q h = rw h refl

pub relink_prev-set :
    (g : Heap) (p q : ℕ) → (p == null) ≡ false → relink_prev g p q ≡ set_prev g p q
unfolding relink_prev
relink_prev-set g p q h = rw h refl

-- the element `el` of a list, and where it stands in it
pub at_el :
    {g : Heap} {host : ℕ} (us : List ℕ) (el : ℕ) (ys : List ℕ)
    → Nodes g host null null (us ++ el ∷ ys)
    → Holds g host el (last_or null us) (head_or null ys)
at_el us el ys n = elim (Nodes-append_right us (el ∷ ys) n) [ cons e out rest ↦ e ]

pub assert_host-Holds :
    {h : Heap} (l : LinkedList) {el p q : ℕ}
    → Holds h l.self el p q
    → (assert_host h l el ≡ some tt) × ((el == null) ≡ false)
unfolding assert_host
assert_host-Holds l e =
    let self : (l.self == l.self) ≡ true = ground arith in
    (rw (not_null e) (rw (load-Holds e) (rw self refl)), not_null e)

-- `if (!l->back || l->back == el) l->back = x`, and the same for `front`
pub back_after :
    (el x : ℕ) (ys : List ℕ) {h : Heap} {host after before : ℕ}
    → Nodes h host after before (el ∷ ys)
    → (if (last_or el ys == null) || (last_or el ys == el) then x else last_or el ys) ≡ last_or x ys
back_after el x [] (cons n out rest) = ground arith
back_after el x (y ∷ r) (cons n out rest) =
    let a = last-not_null y r rest in
    let m = has-last y r in
    let other : (last_or y r == el) ≡ false = elim (Bool-cases (last_or y r == el)) [
      | inl q ↦
          let same : last_or y r ≡ el = ground arith in cc (ap (λ b. has b (y ∷ r)) same, m, out)
      | inr q ↦ q
    ] in
    rw (a, other) refl

pub front_before :
    (el x : ℕ) (us bs : List ℕ) {h : Heap} {host after : ℕ}
    → Nodes h host after null (us ++ el ∷ bs)
    → (if (head_or el us == null) || (head_or el us == el) then x else head_or el us) ≡ head_or x us
front_before el x [] bs n = ground arith
front_before el x (a ∷ r) bs (cons n out rest) =
    let other : (a == el) ≡ false = ground (arith, has-append a r (el ∷ bs), out) in
    rw (not_null n, other) refl

pub front_stays :
    (el x : ℕ) (us bs : List ℕ) {h : Heap} {host after : ℕ}
    → Nodes h host after null (us ++ el ∷ bs)
    → (if head_or el us == null then x else head_or el us) ≡ head_or el us
front_stays el x [] bs (cons n out rest) = rw (not_null n) refl
front_stays el x (a ∷ r) bs (cons n out rest) = rw (not_null n) refl
