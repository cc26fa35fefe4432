-- ===== src/Base/Apart.antt =====
-- Lists whose elements are told apart by a function of them.
use mathlib.Core.Path.{◌≡◌, sym}
use mathlib.Core.Logic.{◌≢◌}
use mathlib.Core.List.{List, [], ◌∷◌, ◌++◌}
use interview.Base.Lists.{All, All-append, All-append_left, All-append_right}

module _ {ℓ κ} {A : Type ℓ} {B : Type κ} (f : A → B) where
  abbrev pub Others : B → List A → Type κ
  Others b = All (λ y. f y ≢ b)

  -- no two elements have the same value
  abbrev pub IsApart : List A → Type κ
  IsApart [] = Unit
  IsApart (x ∷ xs) = Others (f x) xs × IsApart xs

  pub apart_around :
      (before : List A) (e : A) (after : List A)
      → IsApart (before ++ e ∷ after)
      → Others (f e) before × Others (f e) after
  apart_around [] e after h = (tt, h.0)
  apart_around (x ∷ before) e after h =
      let i = apart_around before e after h.1 in
      let d = (All-append_right (λ y. f y ≢ f x) before (e ∷ after) h.0).0 in
      (((λ p. d (sym p)), i.0), i.1)

  pub IsApart-insert :
      (before : List A) (e : A) (after : List A)
      → IsApart (before ++ after)
      → Others (f e) before
      → Others (f e) after
      → IsApart (before ++ e ∷ after)
  IsApart-insert [] e after u a b = (b, u)
  IsApart-insert (x ∷ before) e after u a b = (
    All-append (λ y. f y ≢ f x) before (e ∷ after)
        (All-append_left (λ y. f y ≢ f x) before after u.0)
        ((λ p. a.0 (sym p)), All-append_right (λ y. f y ≢ f x) before after u.0),
    IsApart-insert before e after u.1 a.1 b,
  )

  pub IsApart-remove :
      (before : List A) (e : A) (after : List A)
      → IsApart (before ++ e ∷ after)
      → IsApart (before ++ after)
  IsApart-remove [] e after h = h.1
  IsApart-remove (x ∷ before) e after h = (
    All-append (λ y. f y ≢ f x) before after
        (All-append_left (λ y. f y ≢ f x) before (e ∷ after) h.0)
        (All-append_right (λ y. f y ≢ f x) before (e ∷ after) h.0).1,
    IsApart-remove before e after h.1,
  )

  -- another element with the same value in the place of one
  pub IsApart-replace :
      (before : List A) (e d : A) (after : List A)
      → f d ≡ f e
      → IsApart (before ++ e ∷ after)
      → IsApart (before ++ d ∷ after)
  IsApart-replace [] e d after p h = (rw p h.0, h.1)
  IsApart-replace (x ∷ before) e d after p h = (
    All-append (λ y. f y ≢ f x) before (d ∷ after)
        (All-append_left (λ y. f y ≢ f x) before (e ∷ after) h.0)
        (
          rw p (All-append_right (λ y. f y ≢ f x) before (e ∷ after) h.0).0,
          (All-append_right (λ y. f y ≢ f x) before (e ∷ after) h.0).1,
        ),
    IsApart-replace before e d after p h.1,
  )
