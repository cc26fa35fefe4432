-- ===== src/IoService/Table.antt =====
-- The table as a map from descriptors and operations to jobs.
use interview.Base.{
  ℕ, ◌≡◌, refl, ◌∙◌, Bool, true, false, inl, inr, ◌&&◌, ◌||◌, Option, none, some, List, [], ◌∷◌,
  arith, ◌==◌, Bool-cases, if◌then◌else◌,
}
use interview.IoService.{
  Op, read, write, Element, slot, no_events, new_element, is_set, post_element, post_table,
  remove_element, remove_table, refresh_table,
}

abbrev pub same_op : Op → Op → Bool
same_op read read = true
same_op write write = true
same_op _ _ = false

abbrev pub first_of {ℓ} : {J : Type ℓ} → Option J → Option J → Option J
first_of none b = b
first_of (some a) b = some a

module _ {ℓ} {J : Type ℓ} where
  -- the job that waits for `op` on `fd`
  unfoldable pub job_at : ℕ → Op → List (Element J) → Option J
  job_at fd op [] = none
  job_at fd op (e ∷ es) = if e.fd == fd then (slot op e).job else job_at fd op es

  -- A flag is on exactly where a job waits.
  abbrev pub FlagsMatch : Element J → Type 0
  FlagsMatch e = (e.events_in ≡ is_set (e.on_read.job)) × (e.events_out ≡ is_set (e.on_write.job))

  -- no other element has the descriptor
  unfoldable pub has_fd : ℕ → List (Element J) → Bool
  has_fd fd [] = false
  has_fd fd (e ∷ es) = (e.fd == fd) || has_fd fd es

  abbrev pub IsTable : List (Element J) → Type 0
  IsTable [] = Unit
  IsTable (e ∷ es) = FlagsMatch e × (has_fd e.fd es ≡ false) × IsTable es

  pub job_at-not_has :
      (fd : ℕ) (op : Op) (es : List (Element J)) → has_fd fd es ≡ false → job_at fd op es ≡ none
  unfolding job_at has_fd
  job_at-not_has fd op [] h = refl
  job_at-not_has fd op (e ∷ es) h = ground (arith, job_at-not_has fd op es)

  slot-post_element :
      (op op' : Op) (oneshot : Bool) (j : J) (e : Element J)
      → (slot op' (post_element op oneshot j e).0).job
        ≡ (if same_op op op' then first_of ((slot op' e).job) (some j) else (slot op' e).job)
  unfolding post_element
  slot-post_element read read o j e = ground arith
  slot-post_element read write o j e = ground arith
  slot-post_element write read o j e = ground arith
  slot-post_element write write o j e = ground arith

  fd-post_element :
      (op : Op) (oneshot : Bool) (j : J) (e : Element J) → (post_element op oneshot j e).0.fd ≡ e.fd
  unfolding post_element
  fd-post_element read o j e = ground arith
  fd-post_element write o j e = ground arith

  -- a job is added where none waits for the same operation on the same descriptor
  pub job_at-post_table :
      (fd fd' : ℕ) (op op' : Op) (oneshot : Bool) (j : J) (es : List (Element J))
      → job_at fd' op' (post_table fd op oneshot j es).0 ≡ (
          if (fd == fd') && same_op op op'
          then first_of (job_at fd' op' es) (some j)
          else job_at fd' op' es)
  unfolding job_at post_table
  job_at-post_table fd fd' read read o j [] = ground arith
  job_at-post_table fd fd' read write o j [] = ground arith
  job_at-post_table fd fd' write read o j [] = ground arith
  job_at-post_table fd fd' write write o j [] = ground arith
  job_at-post_table fd fd' op op' o j (e ∷ es) = ground (
    arith,
    fd-post_element op o j e,
    slot-post_element op op' o j e,
    job_at-post_table fd fd' op op' o j es,
  )

  -- whether the job that waits for `op` on `fd` is called once only
  unfoldable pub oneshot_at : ℕ → Op → List (Element J) → Bool
  oneshot_at fd op [] = false
  oneshot_at fd op (e ∷ es) = if e.fd == fd then (slot op e).oneshot else oneshot_at fd op es

  oneshot-post_element :
      (op : Op) (oneshot : Bool) (j : J) (e : Element J)
      → (slot op (post_element op oneshot j e).0).oneshot
        ≡ (if is_set ((slot op e).job) then (slot op e).oneshot else oneshot)
  unfolding post_element
  oneshot-post_element read o j e = ground arith
  oneshot-post_element write o j e = ground arith

  -- a job that waits already keeps the way it was posted
  pub oneshot_at-post_table :
      (fd : ℕ) (op : Op) (oneshot : Bool) (j : J) (es : List (Element J))
      → oneshot_at fd op (post_table fd op oneshot j es).0
        ≡ (if is_set (job_at fd op es) then oneshot_at fd op es else oneshot)
  unfolding oneshot_at job_at post_table
  oneshot_at-post_table fd read o j [] = ground arith
  oneshot_at-post_table fd write o j [] = ground arith
  oneshot_at-post_table fd op o j (e ∷ es) = ground (
    arith,
    fd-post_element op o j e,
    oneshot-post_element op o j e,
    oneshot_at-post_table fd op o j es,
  )

  slot-remove_element :
      (op op' : Op) (e : Element J)
      → (slot op' (remove_element op e)).job ≡ (if same_op op op' then none else (slot op' e).job)
  unfolding remove_element
  slot-remove_element read read e = refl
  slot-remove_element read write e = refl
  slot-remove_element write read e = refl
  slot-remove_element write write e = refl

  fd-remove_element : (op : Op) (e : Element J) → (remove_element op e).fd ≡ e.fd
  unfolding remove_element
  fd-remove_element read e = refl
  fd-remove_element write e = refl

  -- a job is taken away, and no other
  pub job_at-remove_table :
      (fd fd' : ℕ) (op op' : Op) (es : List (Element J))
      → job_at fd' op' (remove_table fd op es).0
        ≡ (if (fd == fd') && same_op op op' then none else job_at fd' op' es)
  unfolding job_at remove_table
  job_at-remove_table fd fd' op op' [] = ground arith
  job_at-remove_table fd fd' op op' (e ∷ es) = ground (
    arith,
    fd-remove_element op e,
    slot-remove_element op op' e,
    job_at-remove_table fd fd' op op' es,
  )

  IsTable-post_new :
      (fd : ℕ) (op : Op) (oneshot : Bool) (j : J)
      → FlagsMatch (post_element op oneshot j (new_element fd)).0
  unfolding post_element
  IsTable-post_new fd read o j = (refl, refl)
  IsTable-post_new fd write o j = (refl, refl)

  FlagsMatch-post_element :
      (op : Op) (oneshot : Bool) (j : J) (e : Element J)
      → FlagsMatch e
      → FlagsMatch (post_element op oneshot j e).0
  unfolding post_element
  FlagsMatch-post_element read o j e h = ground arith
  FlagsMatch-post_element write o j e h = ground arith

  has_fd-post_table :
      (fd fd' : ℕ) (op : Op) (oneshot : Bool) (j : J) (es : List (Element J))
      → has_fd fd' (post_table fd op oneshot j es).0 ≡ ((fd == fd') || has_fd fd' es)
  unfolding has_fd post_table
  has_fd-post_table fd fd' op o j [] = rw (fd-post_element op o j (new_element fd))
  has_fd-post_table fd fd' op o j (e ∷ es) =
      ground (arith, fd-post_element op o j e, has_fd-post_table fd fd' op o j es)

  pub IsTable-post_table :
      (fd : ℕ) (op : Op) (oneshot : Bool) (j : J) (es : List (Element J))
      → IsTable es
      → IsTable (post_table fd op oneshot j es).0
  unfolding post_table
  IsTable-post_table fd op o j [] h = (IsTable-post_new fd op o j, unfold has_fd in refl, tt)
  IsTable-post_table fd op o j (e ∷ es) (m, d, t) = elim (Bool-cases (e.fd == fd)) [
    | inl eq ↦ rw eq (FlagsMatch-post_element op o j e m, rw (fd-post_element op o j e) d, t)
    | inr ne ↦ rw ne (
      m,
      rw (has_fd-post_table fd e.fd op o j es) (ground arith),
      IsTable-post_table fd op o j es t,
    )
  ]

  FlagsMatch-remove_element :
      (op : Op) (e : Element J) → FlagsMatch e → FlagsMatch (remove_element op e)
  unfolding remove_element
  FlagsMatch-remove_element read e h = (refl, h.1)
  FlagsMatch-remove_element write e h = (h.0, refl)

  has_fd-remove_table :
      (fd fd' : ℕ) (op : Op) (es : List (Element J))
      → has_fd fd' (remove_table fd op es).0 ≡ has_fd fd' es
  unfolding has_fd remove_table
  has_fd-remove_table fd fd' op [] = refl
  has_fd-remove_table fd fd' op (e ∷ es) =
      ground (arith, fd-remove_element op e, has_fd-remove_table fd fd' op es)

  pub IsTable-remove_table :
      (fd : ℕ) (op : Op) (es : List (Element J)) → IsTable es → IsTable (remove_table fd op es).0
  unfolding remove_table
  IsTable-remove_table fd op [] h = tt
  IsTable-remove_table fd op (e ∷ es) (m, d, t) = elim (Bool-cases (e.fd == fd)) [
    | inl eq ↦ rw eq (FlagsMatch-remove_element op e m, rw (fd-remove_element op e) d, t)
    | inr ne ↦ rw ne (m, rw (has_fd-remove_table fd e.fd op es) d, IsTable-remove_table fd op es t)
  ]

  pub has_fd-refresh_table :
      (fd : ℕ) (es : List (Element J)) → has_fd fd es ≡ false → has_fd fd (refresh_table es) ≡ false
  unfolding has_fd refresh_table
  has_fd-refresh_table fd [] h = refl
  has_fd-refresh_table fd (e ∷ es) h = ground (arith, has_fd-refresh_table fd es)

  pub IsTable-refresh_table : (es : List (Element J)) → IsTable es → IsTable (refresh_table es)
  unfolding refresh_table
  IsTable-refresh_table [] h = tt
  IsTable-refresh_table (e ∷ es) (m, d, t) = elim (Bool-cases (no_events e)) [
    | inl n ↦ rw n (IsTable-refresh_table es t)
    | inr n ↦ rw n (m, has_fd-refresh_table e.fd es d, IsTable-refresh_table es t)
  ]

  no_job : (e : Element J) (op : Op) → FlagsMatch e → no_events e ≡ true → (slot op e).job ≡ none
  no_job e read h n = ground arith
  no_job e write h n = ground arith

  -- the pass over the table drops no job
  pub job_at-refresh_table :
      (fd : ℕ) (op : Op) (es : List (Element J))
      → IsTable es
      → job_at fd op (refresh_table es) ≡ job_at fd op es
  unfolding job_at refresh_table
  job_at-refresh_table fd op [] h = refl
  job_at-refresh_table fd op (e ∷ es) (m, d, t) = elim (Bool-cases (no_events e)) [
    | inr n ↦ rw n (ground (arith, job_at-refresh_table fd op es t))
    | inl n ↦ rw n (elim (Bool-cases (e.fd == fd)) [
      | inr ne ↦ rw ne (job_at-refresh_table fd op es t)
      | inl eq ↦
          rw (eq, no_job e op m n)
            (job_at-refresh_table fd op es t
              ∙ job_at-not_has fd op es (rw (← same_fd e.fd fd eq) d))
    ])
  ]
    where
      same_fd : (a b : ℕ) → (a == b) ≡ true → a ≡ b
      same_fd a b h = ground arith
