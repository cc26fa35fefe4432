-- ===== src/Timer/Laws.antt =====
-- Arming and cancelling a timer, in terms of the job that waits on its descriptor.
use interview.Base.{
  ℕ, ◌≡◌, refl, ap, Bool, true, false, Option, none, some, ◌∙◌, ◌==◌, arith, if◌then◌else◌, ◌&&◌,
}
use interview.IoService.{IoService, Op, read, is_set, io_service_post_job}
use interview.IoService.Table.{
  job_at, IsTable, first_of, same_op, oneshot_at, oneshot_at-post_table,
}
use interview.IoService.Service.{
  io_service_post_job-job_at, io_service_post_job-taken, io_service_remove_job-job_at, table-post,
}
use interview.Timer.{
  Tmr, TimerClass, TimerSpec, relative, periodic, absolute, timer_set_deadline, timer_set_periodic,
  timer_set_absolute, timer_cancel, timer_deinit,
}

eq_refl : (a : ℕ) → (a == a) ≡ true
eq_refl a = ground arith

module _ {ℓ κ} {K : Type ℓ} {J : Type κ} where
  -- who waits for a timer's descriptor
  abbrev pub waits : Tmr K → IoService J → Option J
  waits tmr s = job_at tmr.fd read s.lookup_table

  -- a timer and the service, after an arming with `tpl`, `job` and these settings
  pub record Arms (tpl : J) (k : K) (tmr_class : TimerClass) (oneshot : Bool) (spec : TimerSpec)
      (tmr : Tmr K) (s : IoService J) (r : Tmr K × IoService J) : Type (ℓ ⊔ κ) where
    pub timer :
        r.0 ≡ record { fd = tmr.fd; armed = true; tmr_class = tmr_class; spec = spec; job = some k }
    pub posted :
        (fd : ℕ) (op : Op)
        → job_at fd op r.1.lookup_table ≡ (
            if (tmr.fd == fd) && same_op read op
            then first_of (job_at fd op s.lookup_table) (some tpl)
            else job_at fd op s.lookup_table)
    pub once :
        oneshot_at tmr.fd read r.1.lookup_table
        ≡ (if is_set (waits tmr s) then oneshot_at tmr.fd read s.lookup_table else oneshot)
    pub valid : IsTable (r.1.lookup_table)

  posts :
      (tpl : J) (oneshot : Bool) (tmr : Tmr K) (s : IoService J)
      → s.allow_new ≡ true
      → oneshot_at tmr.fd read (io_service_post_job tmr.fd read oneshot (some tpl) s).lookup_table
        ≡ (if is_set (waits tmr s) then oneshot_at tmr.fd read s.lookup_table else oneshot)
  posts tpl oneshot tmr s open_ =
      ap (oneshot_at tmr.fd read) (table-post tmr.fd read oneshot tpl s open_)
      ∙ oneshot_at-post_table tmr.fd read oneshot tpl s.lookup_table

  -- The three ways to arm a timer, in a service that takes new jobs: the timer has the class, the job
  -- and the time, which is repeated for a periodic timer only; its reader waits for its descriptor,
  -- to be called once for a deadline and always for a periodic timer, unless another job waits
  -- there already, which is then kept as it is; and all other descriptors keep their jobs.
  pub timer_set-Arms :
      (tpl : J) (sec nanosec : ℕ) (job : K) (tmr : Tmr K) (s : IoService J)
      → s.allow_new ≡ true
      → IsTable s.lookup_table
      → Arms tpl job relative true
          (record { value_sec = sec; value_nsec = nanosec; interval_sec = 0; interval_nsec = 0 })
          tmr
          s
          (timer_set_deadline tpl sec nanosec job tmr s)
        × Arms tpl job periodic false
            (record {
              value_sec = sec;
              value_nsec = nanosec;
              interval_sec = sec;
              interval_nsec = nanosec;
            })
            tmr
            s
            (timer_set_periodic tpl sec nanosec job tmr s)
        × Arms tpl job absolute true
            (record { value_sec = sec; value_nsec = nanosec; interval_sec = 0; interval_nsec = 0 })
            tmr
            s
            (timer_set_absolute tpl sec nanosec job tmr s)
  unfolding timer_set_deadline timer_set_periodic timer_set_absolute
  timer_set-Arms tpl sec nanosec job tmr s open_ t =
      let one = io_service_post_job-job_at tmr.fd read true tpl s open_ t in
      let all = io_service_post_job-job_at tmr.fd read false tpl s open_ t in
      let once = posts tpl true tmr s open_ in
      (
        record { timer = refl; posted = one.2; once = once; valid = one.0 },
        record { timer = refl; posted = all.2; once = posts tpl false tmr s open_; valid = all.0 },
        record { timer = refl; posted = one.2; once = once; valid = one.0 },
      )

  -- A timer that is armed again while a job waits for its descriptor leaves the service as it is:
  -- a periodic timer over a deadline that has not passed keeps the deadline's one-shot posting.
  timer_set-taken :
      (tpl i : J) (sec nanosec : ℕ) (job : K) (tmr : Tmr K) (s : IoService J)
      → waits tmr s ≡ some i
      → ((timer_set_deadline tpl sec nanosec job tmr s).1 ≡ s)
        × ((timer_set_periodic tpl sec nanosec job tmr s).1 ≡ s)
        × ((timer_set_absolute tpl sec nanosec job tmr s).1 ≡ s)
  unfolding timer_set_deadline timer_set_periodic timer_set_absolute
  timer_set-taken tpl i sec nanosec job tmr s h =
      let once = io_service_post_job-taken tmr.fd read true tpl i s h in
      (once, io_service_post_job-taken tmr.fd read false tpl i s h, once)

  -- A cancelled timer has no reader, other descriptors and the writers keep theirs, and so it is
  -- when the timer is deinitialized.
  pub timer_cancel-waits :
      (tmr : Tmr K) (s : IoService J)
      → IsTable s.lookup_table
      → (waits tmr (timer_cancel tmr s) ≡ none)
        × (timer_deinit tmr s ≡ timer_cancel tmr s)
        × IsTable ((timer_cancel tmr s).lookup_table)
        × ((fd : ℕ) (op : Op)
            → job_at fd op (timer_cancel tmr s).lookup_table
              ≡ (if (tmr.fd == fd) && same_op read op then none else job_at fd op s.lookup_table))
  unfolding timer_cancel timer_deinit
  timer_cancel-waits tmr s t =
      let r = io_service_remove_job-job_at tmr.fd read s t in
      (r.2 tmr.fd read ∙ rw (eq_refl tmr.fd), refl, r.0, r.2)
