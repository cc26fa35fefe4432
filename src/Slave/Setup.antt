-- ===== src/Slave/Setup.antt =====
-- `slave_init` and `slave_deinit` of supertel/task1/src/slave.c.
use interview.Base.{
  ℕ, ◌≡◌, refl, Bool, true, false, Option, none, some, ◌∙◌, ◌==◌, Bool-cases, inl, inr,
}
use interview.Base.Int.{pos}
use interview.IoService.{IoService, read}
use interview.IoService.Table.{IsTable}
use interview.Timer.{Tmr, timer_init, timer_deinit}
use interview.Timer.Laws.{waits, timer_cancel-waits}
use interview.Slave.{
  SlaveState, slave_idle, slave_polling, slave_master, slave_waiting_master, Slave, World, Job,
  TimerJob, master_deinit_,
}

-- the descriptors of the new timers are `fd0`, `fd1` and `fd2`; `socket` is what
-- `allocate_udp_broadcasting_socket` returns, with the address, and `broadcast` whether
-- `fetch_broadcast_addr` succeeds; the result has the return value
unfoldable pub slave_init :
    (fd0 fd1 fd2 : ℕ) → Option (ℕ × ℕ) → (broadcast : Bool) → World → World × Bool
slave_init fd0 fd1 fd2 socket broadcast w = opened socket broadcast
  where
    timers : Slave
    timers = record (w.sl) {
      master_gone_tmr = timer_init fd0 w.sl.master_gone_tmr;
      poll_tmr = timer_init fd1 w.sl.poll_tmr;
      mastering_tmr = timer_init fd2 w.sl.mastering_tmr;
    }

    opened : Option (ℕ × ℕ) → Bool → World × Bool
    opened none b = (record w { sl = timers }, false)
    opened (some (socket, addr)) false =
        (record w { sl = record timers { udp_socket = socket; local_addr = addr } }, false)
    opened (some (socket, addr)) true = (
      record w {
        sl = record timers {
          udp_socket = socket;
          local_addr = addr;
          illumination = 0;
          temperature = pos 0;
        };
      },
      true,
    )

-- `if (SLAVE_MASTER == sl->state) master_deinit_(&sl->master);`
unfoldable pub deinit_master : SlaveState → World → World
deinit_master slave_master w = master_deinit_ w
deinit_master slave_idle w = w
deinit_master slave_polling w = w
deinit_master slave_waiting_master w = w

unfoldable pub slave_deinit : World → World
unfolding deinit_master
slave_deinit w =
    let w' = deinit_master w.sl.state w in
    let s = timer_deinit w.sl.master_gone_tmr w'.iosvc in
    record w' { iosvc = timer_deinit w.sl.mastering_tmr (timer_deinit w.sl.poll_tmr s) }

module _ {ℓ κ} {K : Type ℓ} {J : Type κ} where
  -- a timer's end takes its own reader, and gives no other timer one
  deinit-IsTable :
      (tmr : Tmr K) (s : IoService J)
      → IsTable s.lookup_table
      → IsTable ((timer_deinit tmr s).lookup_table)
  unfolding timer_deinit
  deinit-IsTable tmr s t = (timer_cancel-waits tmr s t).2

  deinit-own :
      (tmr : Tmr K) (s : IoService J)
      → IsTable s.lookup_table
      → waits tmr (timer_deinit tmr s) ≡ none
  unfolding timer_deinit
  deinit-own tmr s t = (timer_cancel-waits tmr s t).0

  deinit-other :
      (tmr other : Tmr K) (s : IoService J)
      → IsTable s.lookup_table
      → waits other s ≡ none
      → waits other (timer_deinit tmr s) ≡ none
  unfolding timer_deinit
  deinit-other tmr other s t h =
      (timer_cancel-waits tmr s t).3 other.fd read
      ∙ elim (Bool-cases (tmr.fd == other.fd)) [ inl e ↦ rw e refl | inr e ↦ rw (e, h) refl ]

-- the service behind the end of the three timers
module _ (a b c : Tmr TimerJob) (s : IoService Job) (t : IsTable s.lookup_table) where
  abbrev all_ended : IoService Job
  all_ended = timer_deinit c (timer_deinit b (timer_deinit a s))

  all_ended-waits :
      (waits a all_ended ≡ none)
      × (waits b all_ended ≡ none)
      × (waits c all_ended ≡ none)
      × IsTable all_ended.lookup_table
  all_ended-waits =
      let t1 = deinit-IsTable a s t in
      let t2 = deinit-IsTable b (timer_deinit a s) t1 in
      (
        deinit-other c a (timer_deinit b (timer_deinit a s)) t2
            (deinit-other b a (timer_deinit a s) t1 (deinit-own a s t)),
        deinit-other c b (timer_deinit b (timer_deinit a s)) t2
            (deinit-own b (timer_deinit a s) t1),
        deinit-own c (timer_deinit b (timer_deinit a s)) t2,
        deinit-IsTable c (timer_deinit b (timer_deinit a s)) t2,
      )

deinit_master-IsTable :
    (st : SlaveState) (w : World)
    → IsTable w.iosvc.lookup_table
    → IsTable ((deinit_master st w).iosvc.lookup_table)
unfolding deinit_master master_deinit_
deinit_master-IsTable slave_master w t = deinit-IsTable w.sl.master.tmr w.iosvc t
deinit_master-IsTable slave_idle w t = t
deinit_master-IsTable slave_polling w t = t
deinit_master-IsTable slave_waiting_master w t = t

-- After `slave_deinit`, in any state and with a well-formed table, no reader waits for any of the
-- slave's three timers, and the table is well formed.
slave_deinit-waits :
    (w : World)
    → IsTable w.iosvc.lookup_table
    → let s = (slave_deinit w).iosvc in
      (waits w.sl.master_gone_tmr s ≡ none)
      × (waits w.sl.poll_tmr s ≡ none)
      × (waits w.sl.mastering_tmr s ≡ none)
      × IsTable s.lookup_table
unfolding slave_deinit
slave_deinit-waits w t =
    all_ended-waits w.sl.master_gone_tmr w.sl.poll_tmr w.sl.mastering_tmr
      ((deinit_master w.sl.state w).iosvc) (deinit_master-IsTable w.sl.state w t)
