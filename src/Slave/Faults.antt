-- ===== src/Slave/Faults.antt =====
-- The events of a slave, whole: which of them faults, and the slave's invariant under the others.
use mathlib.Core.Path.{subst}
use interview.Base.{◌≡◌, refl, sym, true, Option, none, some, ◌++◌, Bool, false, ap}
use interview.AvlTree.Operations
use interview.AvlTree.Operations.{avl_tree_purge-perm}
use interview.Timer.{timer_cancel}
use interview.Protocol.{response_packet}
use interview.Master.{query, master_act, response_of}
use interview.Slave.Votes.{IsValid, timed_out-IsValid, poll_timeout-IsValid}
use interview.Slave.{
  SlaveState, slave_idle, slave_polling, slave_master, slave_waiting_master, World, Env, run_master,
  on_master_timed_out, on_poll_timeout, on_mastering_timeout, fire, TimerJob,
  slave_master_timed_out, slave_poll_timeout, slave_mastering_timeout, timeout,
}
use interview.Slave.Slaves.{tree, tree-master_timed_out, tree-poll_timeout}

-- the votes agree with the state, and the master's tree is valid
pub record IsSound (w : World) : Type 0 where
  pub votes : IsValid w
  pub slaves : Operations.IsValid (tree w)

-- the event meets no fault, and ends in a sound world
abbrev pub Runs : Option World → Type 0
Runs r = (w' : World) × (r ≡ some w') × IsSound w'

Runs-same : (w w' : World) → IsValid w' → tree w' ≡ tree w → IsSound w → Runs (some w')
Runs-same w w' v e s =
    (w', refl, record { votes = v; slaves = subst Operations.IsValid (sym e) s.slaves })

-- the timer whose expiry makes the slave answer to itself
abbrev pub is_master : SlaveState → Bool
is_master slave_master = true
is_master _ = false

abbrev pub reads_behind : TimerJob → SlaveState → Bool
reads_behind slave_mastering_timeout st = is_master st
reads_behind _ st = false

-- a fault, or an event that keeps the world sound
abbrev pub Outcome : Bool → Option World → Type 0
Outcome true r = r ≡ none
Outcome false r = Runs r

Runs-of : {r r' : Option World} → r ≡ r' → Runs r' → Runs r
Runs-of e x = subst Runs (sym e) x

module _ (env : Env) where
  -- the response of the slave to itself is an object of three bytes
  on_mastering_timeout-faults :
      (w : World) → w.sl.state ≡ slave_master → on_mastering_timeout env w ≡ none
  unfolding on_mastering_timeout run_master master_act response_of response_packet
  on_mastering_timeout-faults w master = simp (master, on_mastering_timeout)

  on_mastering_timeout-Runs :
      (w : World) → is_master w.sl.state ≡ false → IsSound w → Runs (on_mastering_timeout env w)
  unfolding on_mastering_timeout
  on_mastering_timeout-Runs w not_master s = go (w.sl.state) refl
    where
      cancelled : World
      cancelled = record w { iosvc = timer_cancel w.sl.mastering_tmr w.iosvc }

      go : (st : SlaveState) → w.sl.state ≡ st → Runs (on_mastering_timeout env w)
      go slave_master h = let e = ap is_master h in cc
      go slave_idle h =
          Runs-of (simp (h, on_mastering_timeout)) (Runs-same w cancelled s.votes refl s)
      go slave_polling h =
          Runs-of (simp (h, on_mastering_timeout)) (Runs-same w cancelled s.votes refl s)
      go slave_waiting_master h =
          Runs-of (simp (h, on_mastering_timeout)) (Runs-same w cancelled s.votes refl s)

  -- In a world where the votes agree with the slave's state and the master's tree is valid: a timer
  -- that expires leads to a read behind the response's three bytes if it is the mastering timer of a
  -- slave that is the master; the expiry of any other timer, and in any other state, is handled
  -- without a fault, and the votes agree with the state and the tree is valid again.
  pub fire-Outcome :
      (job : TimerJob) (w : World)
      → IsSound w
      → Outcome (reads_behind job w.sl.state) (fire env job w)
  unfolding fire
  fire-Outcome slave_master_timed_out w s =
      Runs-same w (on_master_timed_out env w) (timed_out-IsValid env w)
        (tree-master_timed_out env w) s
  fire-Outcome slave_poll_timeout w s = (
    on_poll_timeout env w,
    refl,
    record {
      votes = poll_timeout-IsValid env w s.votes;
      slaves = tree-poll_timeout env w s.slaves;
    },
  )
  fire-Outcome slave_mastering_timeout w s = mastering (w.sl.state) refl
    where
      mastering :
          (st : SlaveState)
          → w.sl.state ≡ st
          → Outcome (reads_behind slave_mastering_timeout st) (on_mastering_timeout env w)
      mastering slave_master h = on_mastering_timeout-faults w h
      mastering slave_idle h = on_mastering_timeout-Runs w (ap is_master h) s
      mastering slave_polling h = on_mastering_timeout-Runs w (ap is_master h) s
      mastering slave_waiting_master h = on_mastering_timeout-Runs w (ap is_master h) s
  fire-Outcome timeout w s = Runs-same w (record w { sent = query ++ w.sent }) s.votes refl s
