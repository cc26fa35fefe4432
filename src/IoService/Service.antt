-- ===== src/IoService/Service.antt =====
-- The operations on the service, in terms of the map from descriptors and operations to jobs.
use interview.Base.{
  ℕ, ◌+◌, ◌≡◌, refl, ap, ◌∙◌, Bool, true, false, not, ◌&&◌, ◌||◌, Option, none, some, List, [], ◌∷◌,
  arith, ◌==◌, if◌then◌else◌,
}
use interview.IoService.{
  Op, read, write, Element, IoService, is_set, post_element, post_table, io_service_post_job,
  remove_table, io_service_remove_job, io_service_stop, notify_svc, notification, freed,
  ready_table, ready_op,
}
use interview.IoService.Table.{
  same_op, first_of, job_at, has_fd, IsTable, job_at-post_table, IsTable-post_table,
  job_at-remove_table, IsTable-remove_table, job_at-refresh_table, IsTable-refresh_table,
}
use interview.IoService.Dispatch.{Called, ready_table-Dispatched, ready_table-removed}

-- one unit of the semaphore if the loop runs and the table has changed
abbrev pub woken : Bool → Bool → ℕ
woken true true = 1
woken _ _ = 0

module _ {ℓ} {J : Type ℓ} where
  post_table-posted :
      (fd : ℕ) (op : Op) (oneshot : Bool) (j : J) (es : List (Element J))
      → (post_table fd op oneshot j es).1 ≡ not (is_set (job_at fd op es))
  unfolding post_table job_at post_element
  post_table-posted fd read o j [] = refl
  post_table-posted fd write o j [] = refl
  post_table-posted fd op o j (e ∷ es) = ground (arith, post_table-posted fd op o j es)

  pub table-post :
      (fd : ℕ) (op : Op) (oneshot : Bool) (j : J) (s : IoService J)
      → s.allow_new ≡ true
      → (io_service_post_job fd op oneshot (some j) s).lookup_table
        ≡ (post_table fd op oneshot j s.lookup_table).0
  unfolding io_service_post_job notify_svc
  table-post fd op o j s h = ground arith

  notified-post :
      (fd : ℕ) (op : Op) (oneshot : Bool) (j : J) (s : IoService J)
      → s.allow_new ≡ true
      → (io_service_post_job fd op oneshot (some j) s).notified
        ≡ s.notified + woken s.running (not (is_set (job_at fd op s.lookup_table)))
  unfolding io_service_post_job notify_svc
  notified-post fd op o j s h = ground (arith, post_table-posted fd op o j s.lookup_table)

  table-post_taken :
      (fd : ℕ) (op : Op) (oneshot : Bool) (j i : J) (es : List (Element J))
      → job_at fd op es ≡ some i
      → (post_table fd op oneshot j es).0 ≡ es
  unfolding post_table job_at post_element
  table-post_taken fd op o j i [] h = cc
  table-post_taken fd read o j i (e ∷ es) h = ground (arith, table-post_taken fd read o j i es)
  table-post_taken fd write o j i (e ∷ es) h = ground (arith, table-post_taken fd write o j i es)

  -- where a job waits already, posting another one changes nothing
  pub io_service_post_job-taken :
      (fd : ℕ) (op : Op) (oneshot : Bool) (j i : J) (s : IoService J)
      → job_at fd op s.lookup_table ≡ some i
      → io_service_post_job fd op oneshot (some j) s ≡ s
  unfolding io_service_post_job
  io_service_post_job-taken fd op o j i s h = ground (
    arith,
    table-post_taken fd op o j i s.lookup_table,
    post_table-posted fd op o j s.lookup_table,
  )

  -- Posting to a service that takes new jobs: the job waits for its operation and descriptor unless
  -- another one did before, every other place is as it was, a running loop is notified exactly if
  -- the job was taken, and the table stays well formed.
  pub io_service_post_job-job_at :
      (fd : ℕ) (op : Op) (oneshot : Bool) (j : J) (s : IoService J)
      → s.allow_new ≡ true
      → IsTable s.lookup_table
      → let s' = io_service_post_job fd op oneshot (some j) s in
        IsTable s'.lookup_table
        × (s'.notified ≡ s.notified + woken s.running (not (is_set (job_at fd op s.lookup_table))))
        × ((fd' : ℕ) (op' : Op)
            → job_at fd' op' s'.lookup_table ≡ (
                if (fd == fd') && same_op op op'
                then first_of (job_at fd' op' s.lookup_table) (some j)
                else job_at fd' op' s.lookup_table))
  io_service_post_job-job_at fd op o j s open_ t =
      let e = table-post fd op o j s open_ in
      (
        rw e (IsTable-post_table fd op o j s.lookup_table t),
        notified-post fd op o j s open_,
        λ fd' op'. rw e (job_at-post_table fd fd' op op' o j s.lookup_table),
      )

  remove_table-done :
      (fd : ℕ) (op : Op) (es : List (Element J))
      → (remove_table fd op es).1 ≡ is_set (job_at fd op es)
  unfolding remove_table job_at
  remove_table-done fd op [] = refl
  remove_table-done fd op (e ∷ es) = ground (arith, remove_table-done fd op es)

  table-remove :
      (fd : ℕ) (op : Op) (s : IoService J)
      → (io_service_remove_job fd op s).lookup_table ≡ (remove_table fd op s.lookup_table).0
  unfolding io_service_remove_job notify_svc
  table-remove fd op s = ground arith

  notified-remove :
      (fd : ℕ) (op : Op) (s : IoService J)
      → (io_service_remove_job fd op s).notified
        ≡ s.notified + woken s.running (is_set (job_at fd op s.lookup_table))
  unfolding io_service_remove_job notify_svc
  notified-remove fd op s = ground (arith, remove_table-done fd op s.lookup_table)

  -- Removing a job: nothing waits for the operation on the descriptor, every other place is as it
  -- was, a running loop is notified exactly if a job was taken away, and the table stays well
  -- formed.
  pub io_service_remove_job-job_at :
      (fd : ℕ) (op : Op) (s : IoService J)
      → IsTable s.lookup_table
      → let s' = io_service_remove_job fd op s in
        IsTable s'.lookup_table
        × (s'.notified ≡ s.notified + woken s.running (is_set (job_at fd op s.lookup_table)))
        × ((fd' : ℕ) (op' : Op)
            → job_at fd' op' s'.lookup_table
              ≡ (if (fd == fd') && same_op op op' then none else job_at fd' op' s.lookup_table))
  io_service_remove_job-job_at fd op s t =
      let e = table-remove fd op s in
      (
        rw e (IsTable-remove_table fd op s.lookup_table t),
        notified-remove fd op s,
        λ fd' op'. rw e (job_at-remove_table fd fd' op op' s.lookup_table),
      )

  -- After `io_service_stop` no job can be posted, the loop goes on only if it was told to wait for
  -- pending jobs, and it is notified.
  io_service_stop-post :
      (wait_pending oneshot : Bool) (fd : ℕ) (op : Op) (j : Option J) (s : IoService J)
      → let s' = io_service_stop wait_pending s in
        (io_service_post_job fd op oneshot j s' ≡ s')
        × (s'.running ≡ wait_pending)
        × (s'.notified ≡ s.notified + 1)
        × (s'.lookup_table ≡ s.lookup_table)
  unfolding io_service_stop io_service_post_job notify_svc
  io_service_stop-post w o fd op none s = (refl, refl, refl, refl)
  io_service_stop-post w o fd op (some j) s = (refl, refl, refl, refl)

  abbrev pub is_empty : List (Element J) → Bool
  is_empty [] = true
  is_empty (e ∷ es) = false

  running-notification :
      (s : IoService J)
      → (notification s).running ≡ s.running && (s.allow_new || not (is_empty s.lookup_table))
  unfolding notification
  running-notification s = ground arith

  -- Handling a notification keeps a well-formed table well formed and drops no waiting job from it;
  -- a running loop goes on exactly if the service takes new jobs or the table was not empty.
  notification-job_at :
      (s : IoService J)
      → IsTable s.lookup_table
      → let s' = notification s in
        IsTable s'.lookup_table
        × ((fd : ℕ) (op : Op) → job_at fd op s'.lookup_table ≡ job_at fd op s.lookup_table)
        × (s'.running ≡ s.running && (s.allow_new || not (is_empty s.lookup_table)))
  unfolding notification
  notification-job_at s t = (
    IsTable-refresh_table s.lookup_table t,
    λ fd op. job_at-refresh_table fd op s.lookup_table t,
    running-notification s,
  )

module _ {ℓ} {J S : Type ℓ} (call : J → IoService J → S → Option (IoService J × S)) where
  -- When a descriptor is ready and a job waits for it, that job is called, in the service whose
  -- table lost the job if it was a one-shot and nothing else; the table stays well formed.
  pub ready_op-call :
      (fd : ℕ) (op : Op) (s : IoService J) (w : S) (j : J)
      → IsTable s.lookup_table
      → job_at fd op s.lookup_table ≡ some j
      → (table : List (Element J)) × (ready_op call fd op true s w
          ≡ call j (record s { lookup_table = table }) w)
        × IsTable table
        × Called fd op s.lookup_table table
  unfolding ready_op
  ready_op-call fd op s w j t h =
      let d = ready_table-Dispatched fd op s.lookup_table j t h in
      (d.table, rw (d.runs, ready_op), d.valid, d.called)

  ready_op-eq_none :
      (fd : ℕ) (op : Op) (s : IoService J) (w : S)
      → ready_table fd op s.lookup_table ≡ freed
      → ready_op call fd op true s w ≡ none
  unfolding ready_op
  ready_op-eq_none fd op s w e = rw (e, ready_op)

  -- A one-shot job that is posted on a new descriptor and removed again, with an event of the
  -- descriptor pending: the round frees the element and then reads it.
  pub ready_op-freed :
      (fd : ℕ) (op : Op) (s : IoService J) (w : S) (j : J)
      → s.allow_new ≡ true
      → has_fd fd s.lookup_table ≡ false
      → ready_op call fd op true
          (io_service_remove_job fd op (io_service_post_job fd op true (some j) s))
          w
        ≡ none
  ready_op-freed fd op s w j open_ new =
      ready_op-eq_none fd op
        (io_service_remove_job fd op (io_service_post_job fd op true (some j) s)) w
        (ap (ready_table fd op) (
            table-remove fd op (io_service_post_job fd op true (some j) s)
            ∙ ap (λ es. (remove_table fd op es).0) (table-post fd op true j s open_))
          ∙ ready_table-removed fd op j s.lookup_table new)
