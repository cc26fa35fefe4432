-- ===== src/IoService/Dispatch.antt =====
-- A ready descriptor: which job is called, and what it leaves in the table.
use interview.Base.{
  ℕ, ◌≡◌, refl, sym, ◌∙◌, Bool, true, false, inl, inr, ◌&&◌, none, some, List, [], ◌∷◌, arith, ◌==◌,
  Bool-cases, if◌then◌else◌,
}
use interview.IoService.{
  Op, read, write, Element, slot, Ready, freed, run, ready_element, ready_outcome, behind,
  ready_table, remove_table, post_table,
}
use interview.IoService.Table.{job_at, job_at-not_has, has_fd, FlagsMatch, IsTable, same_op}

module _ {ℓ} {J : Type ℓ} where
  -- whether the job that waits for `op` on `fd` was posted as a one-shot
  unfoldable pub oneshot_at : ℕ → Op → List (Element J) → Bool
  oneshot_at fd op [] = false
  oneshot_at fd op (e ∷ es) = if e.fd == fd then (slot op e).oneshot else oneshot_at fd op es

  -- the table after a round for `op` on the descriptor of its first element
  abbrev left_table : Op → Element J → List (Element J) → List (Element J)
  left_table op e es = elim ((ready_element op e).1) [ none ↦ es | some e' ↦ e' ∷ es ]

  job_at-left_table :
      (fd : ℕ) (op op' : Op) (e : Element J) (es : List (Element J))
      → FlagsMatch e
      → has_fd e.fd es ≡ false
      → job_at fd op' (left_table op e es) ≡ (
          if (e.fd == fd) && (same_op op op' && (slot op e).oneshot)
          then none
          else job_at fd op' (e ∷ es))
  unfolding ready_element job_at
  job_at-left_table fd read read e es m d = ground (arith, job_at-not_has fd read es)
  job_at-left_table fd read write e es m d = ground (arith, job_at-not_has fd write es)
  job_at-left_table fd write read e es m d = ground (arith, job_at-not_has fd read es)
  job_at-left_table fd write write e es m d = ground (arith, job_at-not_has fd write es)

  IsTable-left_table :
      (op : Op) (e : Element J) (es : List (Element J))
      → FlagsMatch e
      → has_fd e.fd es ≡ false
      → IsTable es
      → IsTable (left_table op e es)
  unfolding ready_element
  IsTable-left_table read e es m d t = elim (Bool-cases (e.on_read.oneshot)) [
    | inr o ↦ rw o (m, d, t)
    | inl o ↦ rw o (elim (Bool-cases (e.events_out)) [
      | inl v ↦ rw v ((refl, sym v ∙ m.1), d, t)
      | inr v ↦ rw v t
    ])
  ]
  IsTable-left_table write e es m d t = elim (Bool-cases (e.on_write.oneshot)) [
    | inr o ↦ rw o (m, d, t)
    | inl o ↦ rw o (elim (Bool-cases (e.events_in)) [
      | inl v ↦ rw v ((sym v ∙ m.0, refl), d, t)
      | inr v ↦ rw v t
    ])
  ]

  outcome_run :
      (op : Op) (e : Element J) (es : List (Element J)) (j : J)
      → (slot op e).job ≡ some j
      → ready_outcome (ready_element op e).0 (ready_element op e).1 es ≡ run j (left_table op e es)
  unfolding ready_outcome ready_element
  outcome_run read e es j h = ground arith
  outcome_run write e es j h = ground arith

  -- the table after the job on `fd` was called, as a map: the job is gone if it was a one-shot
  abbrev pub Called : ℕ → Op → List (Element J) → List (Element J) → Type ℓ
  Called fd op es es' =
      (fd' : ℕ) (op' : Op)
      → job_at fd' op' es' ≡ (
          if (fd == fd') && (same_op op op' && oneshot_at fd op es)
          then none
          else job_at fd' op' es)

  -- the outcome of a round for `op` on `fd`, where `j` waits
  pub record Dispatched (fd : ℕ) (op : Op) (es : List (Element J)) (j : J) (r : Ready J)
      : Type ℓ where
    pub table : List (Element J)
    pub runs : r ≡ run j table
    pub valid : IsTable table
    pub called : Called fd op es table
    pub none_new : (a : ℕ) → has_fd a es ≡ false → has_fd a table ≡ false

  none_new_left :
      (op : Op) (e : Element J) (es : List (Element J)) (a : ℕ)
      → has_fd a (e ∷ es) ≡ false
      → has_fd a (left_table op e es) ≡ false
  unfolding ready_element has_fd
  none_new_left read e es a h = ground arith
  none_new_left write e es a h = ground arith

  -- A job that waits is the one that is called, and a one-shot alone is taken from the table.
  pub ready_table-Dispatched :
      (fd : ℕ) (op : Op) (es : List (Element J)) (j : J)
      → IsTable es
      → job_at fd op es ≡ some j
      → Dispatched fd op es j (ready_table fd op es)
  unfolding ready_table job_at oneshot_at has_fd
  ready_table-Dispatched fd op [] j t h = cc
  ready_table-Dispatched fd op (e ∷ es) j (m, d, t) h = elim (Bool-cases (e.fd == fd)) [
    | inl eq ↦ record {
      table = left_table op e es;
      runs = rw (eq, ready_table) (outcome_run op e es j (rw eq at h));
      valid = IsTable-left_table op e es m d t;
      called = λ fd' op'. rw eq (rw (← same eq) (job_at-left_table fd' op op' e es m d));
      none_new = none_new_left op e es;
    }
    | inr ne ↦
        let i = ready_table-Dispatched fd op es j t (rw ne at h) in
        record {
          table = e ∷ i.table;
          runs = rw (ne, ready_table) (rw i.runs);
          valid = (m, i.none_new e.fd d, i.valid);
          called = λ fd' op'. rw ne (later i fd' op' ne);
          none_new = λ a u. ground (arith, i.none_new a);
        }
  ]
    where
      same : (e.fd == fd) ≡ true → e.fd ≡ fd
      same eq = ground arith

      later :
          (i : Dispatched fd op es j (ready_table fd op es)) (fd' : ℕ) (op' : Op)
          → (e.fd == fd) ≡ false
          → job_at fd' op' (e ∷ i.table) ≡ (
              if (fd == fd') && (same_op op op' && oneshot_at fd op es)
              then none
              else job_at fd' op' (e ∷ es))
      later i fd' op' ne = ground (arith, i.called fd' op')

  -- A one-shot that was posted on a new descriptor and removed again leaves an element that a
  -- pending event of the descriptor frees and reads.
  ready_table-removed_new :
      (fd : ℕ) (op : Op) (j : J)
      → ready_table fd op (remove_table fd op (post_table fd op true j []).0).0 ≡ freed
  unfolding ready_table remove_table post_table
  ready_table-removed_new fd read j = ground arith
  ready_table-removed_new fd write j = ground arith

  pub ready_table-removed :
      (fd : ℕ) (op : Op) (j : J) (es : List (Element J))
      → has_fd fd es ≡ false
      → ready_table fd op (remove_table fd op (post_table fd op true j es).0).0 ≡ freed
  unfolding ready_table remove_table post_table has_fd ready_outcome behind
  ready_table-removed fd op j [] h = ready_table-removed_new fd op j
  ready_table-removed fd op j (e ∷ es) h = ground (arith, ready_table-removed fd op j es)
