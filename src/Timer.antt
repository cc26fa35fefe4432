-- ===== src/Timer.antt =====
-- supertel/lib/timer.c: timers over the service. `K` is the type of the timers' jobs, `J` that of
-- the service's jobs, and `tpl` is `tmr_job_tpl` with the timer as its `ctx`. The descriptor and its
-- clock belong to the kernel, which is given `spec` by `timerfd_settime`.
pub mod Laws
use interview.Base.{ℕ, Bool, true, false, Option, none, some}
use interview.IoService.{IoService, Op, read, io_service_post_job, io_service_remove_job}

-- `timer_class_t`; `no_class` is `none`
pub data TimerClass : Type 0 where
  absolute relative periodic no_class : TimerClass

-- `struct itimerspec`
pub record TimerSpec : Type 0 where
  pub value_sec : ℕ
  pub value_nsec : ℕ
  pub interval_sec : ℕ
  pub interval_nsec : ℕ

-- `tmr_t`, whose `master` is the one service
pub record Tmr {ℓ} (K : Type ℓ) : Type ℓ where
  pub fd : ℕ
  pub armed : Bool
  pub tmr_class : TimerClass
  pub spec : TimerSpec
  pub job : Option K

-- `fd` is what `timerfd_create` returns
unfoldable pub timer_init {ℓ} : {K : Type ℓ} → ℕ → Tmr K → Tmr K
timer_init fd tmr = record tmr { fd = fd; armed = false; tmr_class = no_class }

module _ {ℓ κ} {K : Type ℓ} {J : Type κ} where
  unfoldable pub timer_set_deadline : J → ℕ → ℕ → K → Tmr K → IoService J → Tmr K × IoService J
  timer_set_deadline tpl sec nanosec job tmr s =
      let spec : TimerSpec = record {
        value_sec = sec;
        value_nsec = nanosec;
        interval_sec = 0;
        interval_nsec = 0;
      } in
      (
        record tmr { job = some job; tmr_class = relative; spec = spec; armed = true },
        io_service_post_job tmr.fd read true (some tpl) s,
      )

  unfoldable pub timer_set_periodic : J → ℕ → ℕ → K → Tmr K → IoService J → Tmr K × IoService J
  timer_set_periodic tpl sec nanosec job tmr s =
      let spec : TimerSpec = record {
        value_sec = sec;
        value_nsec = nanosec;
        interval_sec = sec;
        interval_nsec = nanosec;
      } in
      (
        record tmr { job = some job; tmr_class = periodic; spec = spec; armed = true },
        io_service_post_job tmr.fd read false (some tpl) s,
      )

  unfoldable pub timer_set_absolute : J → ℕ → ℕ → K → Tmr K → IoService J → Tmr K × IoService J
  timer_set_absolute tpl sec nanosec job tmr s =
      let spec : TimerSpec = record {
        value_sec = sec;
        value_nsec = nanosec;
        interval_sec = 0;
        interval_nsec = 0;
      } in
      (
        record tmr { job = some job; tmr_class = absolute; spec = spec; armed = true },
        io_service_post_job tmr.fd read true (some tpl) s,
      )

  unfoldable pub timer_cancel : Tmr K → IoService J → IoService J
  timer_cancel tmr s = io_service_remove_job tmr.fd read s

  -- the descriptor is closed behind it
  unfoldable pub timer_deinit : Tmr K → IoService J → IoService J
  unfolding timer_cancel
  timer_deinit tmr s = timer_cancel tmr s

abbrev pub is_periodic : TimerClass → Bool
is_periodic periodic = true
is_periodic _ = false

-- `timer->job(timer->ctx)` is `fire`, on a world `W` in which the timer stands; the class is read
-- behind it
unfoldable pub tmr_job_tpl {ℓ κ} :
    {K : Type ℓ} {W : Type κ} → (W → Tmr K) → (Tmr K → W → W) → (W → Option W) → W → Option W
tmr_job_tpl get put fire w = elim (fire w) [
  | none ↦ none
  | some w' ↦ some (elim (is_periodic (get w').tmr_class) [
    | true ↦ w'
    | false ↦ put (record (get w') { armed = false }) w'
  ])
]
