-- ===== src/LinkedList/Nodes.antt =====
-- What a heap holds for a list: its elements in order, linked both ways.
use interview.Base.{
  ℕ, ◌^◌, ◌<◌, ◌≡◌, ◌≢◌, refl, ap, ◌∙◌, inl, inr, Bool, true, false, ◌||◌, Option, none, some, List,
  [], ◌∷◌, ◌++◌, length, arith, ◌==◌, Bool-cases, if◌then◌else◌,
}
use interview.LinkedList.{ListElement, LinkedList, null, Heap, write}

abbrev pub has : ℕ → List ℕ → Bool
has a [] = false
has a (x ∷ xs) = (a == x) || has a xs

-- the address of the first element and of the last, or `d`
abbrev pub head_or : ℕ → List ℕ → ℕ
head_or d [] = d
head_or d (x ∷ xs) = x

abbrev pub last_or : ℕ → List ℕ → ℕ
last_or d [] = d
last_or d (x ∷ xs) = last_or x xs

-- an element at the address `p`
pub record Holds (h : Heap) (host p prev next : ℕ) : Type 0 where
  pub ne_null : p ≢ null
  pub content : ℕ
  pub here : h p ≡ some (record { host = host; prev = prev; next = next; content = content })

-- the elements of a list, all different, between `before` and `after`
pub data Nodes (h : Heap) (host after : ℕ) : ℕ → List ℕ → Type 0 where
  nil : {before : ℕ} → Nodes h host after before []
  cons :
      {before x : ℕ} {xs : List ℕ}
      → Holds h host x before (head_or after xs)
      → has x xs ≡ false
      → Nodes h host after x xs
      → Nodes h host after before (x ∷ xs)

pub record IsList (h : Heap) (l : LinkedList) (xs : List ℕ) : Type 0 where
  pub nodes : Nodes h l.self null null xs
  pub front : l.front ≡ head_or null xs
  pub back : l.back ≡ last_or null xs
  pub counted : l.count ≡ length xs
  pub small : length xs < 2 ^ 64

-- what a heap holds outside of `xs`
abbrev pub outside : List ℕ → Heap → ℕ → Option ListElement
outside xs h a = if has a xs then none else h a

pub has-append : (a : ℕ) (xs ys : List ℕ) → has a (xs ++ ys) ≡ (has a xs || has a ys)
has-append a [] ys = refl
has-append a (x ∷ xs) ys = ground (arith, has-append a xs ys)

pub head_or-append : (d : ℕ) (xs ys : List ℕ) → head_or d (xs ++ ys) ≡ head_or (head_or d ys) xs
head_or-append d [] ys = refl
head_or-append d (x ∷ xs) ys = refl

pub last_or-append : (d : ℕ) (xs ys : List ℕ) → last_or d (xs ++ ys) ≡ last_or (last_or d xs) ys
last_or-append d [] ys = refl
last_or-append d (x ∷ xs) ys = last_or-append x xs ys

-- two lists share no element
abbrev pub Apart : List ℕ → List ℕ → Type 0
Apart xs ys = (a : ℕ) → has a xs ≡ true → has a ys ≡ false

module _ {h : Heap} {host after : ℕ} where
  -- elements stay where the heap is the same at them
  pub Nodes-frame :
      {g : Heap} {before : ℕ} {xs : List ℕ}
      → Nodes h host after before xs
      → ((a : ℕ) → has a xs ≡ true → g a ≡ h a)
      → Nodes g host after before xs
  Nodes-frame nil same = nil
  Nodes-frame (cons {x} n out rest) same =
      cons
        (record { ne_null = n.ne_null; content = n.content; here = same x (ground arith) ∙ n.here })
        out (Nodes-frame rest (λ a m. same a (ground (arith, m))))

  pub Nodes-write :
      {before : ℕ} {xs : List ℕ} (p : ℕ) (e : Option ListElement)
      → Nodes h host after before xs
      → has p xs ≡ false
      → Nodes (write h p e) host after before xs
  unfolding write
  Nodes-write {xs} p e n out = Nodes-frame n (λ a m. elim (Bool-cases (a == p)) [
    | inl q ↦ let same : a ≡ p = ground arith in cc (ap (λ b. has b xs) same, m, out)
    | inr q ↦ rw q refl
  ])

  -- an address that is not allocated is in no list
  pub has_of_none :
      {before : ℕ} {xs : List ℕ} (a : ℕ)
      → Nodes h host after before xs
      → h a ≡ none
      → has a xs ≡ false
  has_of_none a nil e = refl
  has_of_none a (cons {x} n out rest) e = elim (Bool-cases (a == x)) [
    | inl q ↦ let same : a ≡ x = ground arith in cc (ap h same, e, n.here)
    | inr q ↦ rw (q, has_of_none a rest e) refl
  ]

  pub Nodes-append_left :
      {before : ℕ} (xs ys : List ℕ)
      → Nodes h host after before (xs ++ ys)
      → Nodes h host (head_or after ys) before xs
  Nodes-append_left [] ys n = nil
  Nodes-append_left (x ∷ xs) ys (cons n out rest) =
      cons (rw (← head_or-append after xs ys) n) (ground (arith, has-append x xs ys, out))
        (Nodes-append_left xs ys rest)

  pub Nodes-append_right :
      {before : ℕ} (xs ys : List ℕ)
      → Nodes h host after before (xs ++ ys)
      → Nodes h host after (last_or before xs) ys
  Nodes-append_right [] ys n = n
  Nodes-append_right (x ∷ xs) ys (cons n out rest) = Nodes-append_right xs ys rest

  pub Nodes-append :
      {before : ℕ} (xs ys : List ℕ)
      → Nodes h host (head_or after ys) before xs
      → Nodes h host after (last_or before xs) ys
      → Apart xs ys
      → Nodes h host after before (xs ++ ys)
  Nodes-append [] ys n m apart = m
  Nodes-append (x ∷ xs) ys (cons n out rest) m apart =
      cons (rw (head_or-append after xs ys) n) (ground (arith, has-append x xs ys, out, apart x))
        (Nodes-append xs ys rest m (λ a i. apart a (ground (arith, i))))

  pub Apart-append :
      {before : ℕ} (xs ys : List ℕ) → Nodes h host after before (xs ++ ys) → Apart xs ys
  Apart-append [] ys n a m = cc
  Apart-append (x ∷ xs) ys (cons n out rest) a m = elim (Bool-cases (a == x)) [
    | inl q ↦ let same : a ≡ x = ground arith in rw same (ground (arith, has-append x xs ys, out))
    | inr q ↦ Apart-append xs ys rest a (ground arith)
  ]
