-- ===== src/LinkedList/Weave.antt =====
-- Linking a new element between its neighbours, in either order.
use interview.Base.{
  ℕ, ◌≡◌, refl, ap, ◌∙◌, inl, inr, false, Option, some, List, ◌∷◌, ◌++◌, arith, ◌==◌, Bool-cases,
  ◌>>=◌,
}
use interview.LinkedList.{null, Heap, relink_next, relink_prev}
use interview.LinkedList.Nodes.{
  has, has-append, head_or, last_or, Holds, Nodes, cons, outside, Apart, Nodes-append,
}
use interview.LinkedList.Relink.{relink_next-Relinked, relink_prev-Relinked, same_at, Nodes-outside}

-- a new element between the elements `xs` and `ys`
pub record Woven (g : Heap) (host : ℕ) (xs : List ℕ) (x : ℕ) (ys : List ℕ) (o : Option Heap)
    : Type 0 where
  pub result : Heap
  pub returns : o ≡ some result
  pub nodes : Nodes result host null null (xs ++ x ∷ ys)
  pub same : (a : ℕ) → outside (xs ++ x ∷ ys) result a ≡ outside (xs ++ x ∷ ys) g a

pub outside-middle :
    (h g : Heap) (xs : List ℕ) (x : ℕ) (ys : List ℕ) (a : ℕ)
    → (has a xs ≡ false → has a ys ≡ false → g a ≡ h a)
    → outside (xs ++ x ∷ ys) g a ≡ outside (xs ++ x ∷ ys) h a
outside-middle h g xs x ys a same = ground (arith, has-append a xs (x ∷ ys))

pub Holds-outside :
    {h g : Heap} {host p prev next : ℕ} (zs : List ℕ)
    → Holds h host p prev next
    → ((a : ℕ) → outside zs g a ≡ outside zs h a)
    → has p zs ≡ false
    → Holds g host p prev next
Holds-outside {h} {g} {p} zs e same out = record {
  ne_null = e.ne_null;
  content = e.content;
  here = same_at h g zs p (same p) out ∙ e.here;
}

module _ {g : Heap} {host : ℕ} (xs : List ℕ) (x : ℕ) (ys : List ℕ)
    (new : Holds g host x (last_or null xs) (head_or null ys))
    (nx : Nodes g host (head_or null ys) null xs) (ny : Nodes g host null (last_or null xs) ys)
    (apart : Apart xs ys) (out_xs : has x xs ≡ false) (out_ys : has x ys ≡ false) where
  Apart-cons : Apart xs (x ∷ ys)
  Apart-cons a m = elim (Bool-cases (a == x)) [
    | inl q ↦ let same : a ≡ x = ground arith in cc (ap (λ b. has b xs) same, m, out_xs)
    | inr q ↦ rw (q, apart a m) refl
  ]

  Apart-sym : Apart ys xs
  Apart-sym a m = elim (Bool-cases (has a xs)) [ inl q ↦ cc (apart a q, m) | inr q ↦ q ]

  woven :
      (r : Heap)
      → Nodes r host x null xs
      → Holds r host x (last_or null xs) (head_or null ys)
      → Nodes r host null x ys
      → Nodes r host null null (xs ++ x ∷ ys)
  woven r nx' new' ny' = Nodes-append xs (x ∷ ys) nx' (cons new' out_ys ny') Apart-cons

  -- first the element in front is linked to the new one, or first the element behind
  pub weave_next_prev :
      Woven g host xs x ys
        (relink_next g (last_or null xs) x >>= λ h. relink_prev h (head_or null ys) x)
  weave_next_prev =
      let i = relink_next-Relinked x xs nx in
      let j =
        relink_prev-Relinked x (Nodes-outside {h = g} {g = i.result} xs ny i.same Apart-sym) in
      record {
        result = j.result;
        returns = rw (i.returns, ◌>>=◌) j.returns;
        nodes =
            woven j.result (Nodes-outside {h = i.result} {g = j.result} ys i.nodes j.same apart)
              (Holds-outside {h = i.result} {g = j.result} ys
                (Holds-outside {h = g} {g = i.result} xs new i.same out_xs) j.same out_ys)
              j.nodes;
        same = λ a. outside-middle g j.result xs x ys a (λ m n.
            same_at i.result j.result ys a (j.same a) n ∙ same_at g i.result xs a (i.same a) m);
      }

  pub weave_prev_next :
      Woven g host xs x ys
        (relink_prev g (head_or null ys) x >>= λ h. relink_next h (last_or null xs) x)
  weave_prev_next =
      let i = relink_prev-Relinked x ny in
      let j = relink_next-Relinked x xs (Nodes-outside {h = g} {g = i.result} ys nx i.same apart) in
      record {
        result = j.result;
        returns = rw (i.returns, ◌>>=◌) j.returns;
        nodes =
            woven j.result j.nodes
              (Holds-outside {h = i.result} {g = j.result} xs
                (Holds-outside {h = g} {g = i.result} ys new i.same out_ys) j.same out_xs)
              (Nodes-outside {h = i.result} {g = j.result} xs i.nodes j.same Apart-sym);
        same = λ a. outside-middle g j.result xs x ys a (λ m n.
            same_at i.result j.result xs a (j.same a) m ∙ same_at g i.result ys a (i.same a) n);
      }
