-- ===== src/Slave.antt =====
-- supertel/task1/src/slave.c: a slave of the network, with the master inside of it. `random()`,
-- `time()`, the allocator and new timers' descriptors are the fields of an environment, one for each
-- event; logging is left out. `none` is a fault: a read
-- behind the packet, or in the master's tree.
pub mod Votes
pub mod Faults
pub mod Election
pub mod Setup
pub mod Slaves
use interview.Base.{
  ℕ, ◌+◌, ◌-◌, ◌*◌, ◌/◌, ◌%◌, ◌^◌, Bool, true, false, not, Option, none, some, List, [], ◌∷◌, ◌++◌,
  ltb, ◌==◌, if◌then◌else◌, ◌>>=◌,
}
use interview.Base.Int.{ℤ, pos}
use interview.AvlTree.{avl_tree_init, avl_tree_purge}
use interview.IoService.{IoService, Op, read, io_service_post_job}
use interview.Timer.{
  Tmr, timer_init, timer_set_deadline, timer_set_periodic, timer_cancel, timer_deinit,
}
use interview.Protocol.{
  ReceiveBuffer, pr_request, pr_response, pr_msg, pr_vote, pr_reset_master,
  master_request_timeout_msec, master_gone_timeout_msec, slave_polling_timeout_msec, byte, vote_of,
  vote_packet, response_packet, to_int8, accept,
}
use interview.Master.{Description, Master, master_act, query}

-- the jobs of timers
pub data TimerJob : Type 0 where
  slave_master_timed_out slave_poll_timeout slave_mastering_timeout timeout : TimerJob

-- the jobs of the service: `tmr_job_tpl` for each timer, and `data_received`
pub data Job : Type 0 where
  master_gone_expired poll_expired mastering_expired query_expired data_received : Job

pub data SlaveState : Type 0 where
  slave_idle slave_polling slave_master slave_waiting_master : SlaveState

pub record Slave : Type 0 where
  pub master_gone_tmr : Tmr TimerJob
  pub poll_tmr : Tmr TimerJob
  pub mastering_tmr : Tmr TimerJob
  pub state : SlaveState
  pub vote_sent : ℕ
  pub max_vote_per_poll : ℕ
  pub illumination : ℕ
  pub temperature : ℤ
  pub local_addr : ℕ
  pub udp_socket : ℕ
  pub master : Master TimerJob

-- the slave, its service, and what it has broadcast, the latest first
pub record World : Type 0 where
  pub sl : Slave
  pub iosvc : IoService Job
  pub sent : List (List ℕ)

pub record Env : Type 0 where
  pub random_vote : ℕ
  pub random_temperature : ℕ
  pub random_illumination : ℕ
  pub now : ℕ
  pub text : ℤ → List ℕ
  pub fresh : ℕ
  pub garbage : Description
  pub timer_fd : ℕ

abbrev pub broadcast : List ℕ → World → World
broadcast packet w = record w { sent = packet ∷ w.sent }

abbrev pub set_state : SlaveState → World → World
set_state s w = record w { sl = record (w.sl) { state = s } }

abbrev pub set_votes : ℕ → ℕ → World → World
set_votes vote_sent max_vote w = record w {
  sl = record (w.sl) { vote_sent = vote_sent; max_vote_per_poll = max_vote };
}

-- the arguments of the timers, in seconds and nanoseconds
abbrev seconds : ℕ → ℕ
seconds msec = msec / 1000

abbrev nanoseconds : ℕ → ℕ
nanoseconds msec = (msec % 1000) * 1000000

unfoldable pub slave_arm_master_gone_timer : World → World
slave_arm_master_gone_timer w =
    let (tmr, s) =
      timer_set_deadline master_gone_expired (seconds master_gone_timeout_msec)
        (nanoseconds master_gone_timeout_msec) slave_master_timed_out w.sl.master_gone_tmr
        w.iosvc in
    record w { sl = record (w.sl) { master_gone_tmr = tmr }; iosvc = s }

unfoldable pub slave_disarm_master_gone_timer : World → World
slave_disarm_master_gone_timer w = record w { iosvc = timer_cancel w.sl.master_gone_tmr w.iosvc }

unfoldable pub slave_arm_poll_timer : World → World
slave_arm_poll_timer w =
    let (tmr, s) =
      timer_set_deadline poll_expired (seconds slave_polling_timeout_msec)
        (nanoseconds slave_polling_timeout_msec) slave_poll_timeout w.sl.poll_tmr w.iosvc in
    record w { sl = record (w.sl) { poll_tmr = tmr }; iosvc = s }

unfoldable pub slave_disarm_poll_timer : World → World
slave_disarm_poll_timer w = record w { iosvc = timer_cancel w.sl.poll_tmr w.iosvc }

-- it arms `poll_tmr`
unfoldable pub slave_arm_mastering_timer : World → World
slave_arm_mastering_timer w =
    let msec = master_request_timeout_msec / 2 in
    let (tmr, s) =
      timer_set_periodic poll_expired (seconds msec) (nanoseconds msec) slave_mastering_timeout
        w.sl.poll_tmr w.iosvc in
    record w { sl = record (w.sl) { poll_tmr = tmr }; iosvc = s }

unfoldable pub slave_disarm_mastering_timer : World → World
slave_disarm_mastering_timer w = record w { iosvc = timer_cancel w.sl.poll_tmr w.iosvc }

unfoldable pub slave_go_idle : World → World
unfolding slave_arm_master_gone_timer
slave_go_idle w = slave_arm_master_gone_timer (set_votes 0 0 (set_state slave_idle w))

-- `max_vote` is the vote that was received, or 0 for NULL
unfoldable pub slave_prepare_to_poll : ℕ → World → World
unfolding slave_disarm_master_gone_timer
slave_prepare_to_poll max_vote w =
    slave_disarm_master_gone_timer (set_votes 0 max_vote (set_state slave_polling w))

unfoldable pub slave_fetch_parameters : Env → World → World
slave_fetch_parameters env w = record w {
  sl = record (w.sl) {
    temperature = to_int8 env.random_temperature;
    illumination = env.random_illumination % 256;
  };
}

-- `sendto` of a response with the parameters
unfoldable pub send_response : World → World
send_response w = broadcast (response_packet w.sl.temperature w.sl.illumination) w

unfoldable pub slave_finish_master_polling : SlaveState → World → World
unfolding slave_disarm_poll_timer slave_arm_master_gone_timer
slave_finish_master_polling new_state w =
    let disarmed : World = elim (w.sl.state) [
      | slave_polling ↦ slave_disarm_poll_timer w
      | _ ↦ w
    ] in
    let w' = set_state new_state disarmed in
    elim new_state [ slave_waiting_master ↦ slave_arm_master_gone_timer w' | _ ↦ set_votes 0 0 w' ]

-- `(rnd & 0xfffffffe) + 1`
unfoldable pub random_vote_of : ℕ → ℕ
random_vote_of rnd = rnd % 2 ^ 32 / 2 * 2 + 1

unfoldable pub slave_poll : Env → World → World
slave_poll env w =
    let v = random_vote_of env.random_vote in
    let w' = set_votes v w.sl.max_vote_per_poll w in
    if ltb w.sl.max_vote_per_poll v
    then slave_arm_poll_timer (broadcast (vote_packet v) w')
    else slave_finish_master_polling slave_waiting_master w'

-- `slave_initialize_master_polling` logs, and polls
unfoldable pub slave_initialize_master_polling : Env → World → World
slave_initialize_master_polling env w = slave_poll env w

unfoldable pub slave_act_idle : Env → List ℕ → World → World
slave_act_idle env packet w =
    if byte 0 packet == pr_request
    then send_response (slave_fetch_parameters env (slave_arm_master_gone_timer w))
    else if byte 0 packet == pr_msg
    then slave_arm_master_gone_timer w
    else if byte 0 packet == pr_vote
    then slave_initialize_master_polling env (slave_prepare_to_poll (vote_of packet) w)
    else w

-- `if (sl->max_vote_per_poll < vote->vote) sl->max_vote_per_poll = vote->vote;`
unfoldable pub note_vote : ℕ → World → World
note_vote vote w = if ltb w.sl.max_vote_per_poll vote then set_votes w.sl.vote_sent vote w else w

unfoldable pub slave_act_poll : Env → List ℕ → World → World
slave_act_poll env packet w =
    let vote = vote_of packet in
    if byte 0 packet == pr_vote
    then (let w' = note_vote vote w in
        if ltb w.sl.vote_sent vote
        then slave_finish_master_polling slave_waiting_master w'
        else if ltb vote w.sl.vote_sent
        then w'
        else slave_poll env (slave_prepare_to_poll 0 w'))
    else if byte 0 packet == pr_reset_master
    then slave_finish_master_polling slave_idle (slave_go_idle w)
    else if byte 0 packet == pr_request
    then slave_act_idle env packet (slave_finish_master_polling slave_idle (slave_go_idle w))
    else if byte 0 packet == pr_msg
    then slave_act_idle env packet (slave_finish_master_polling slave_idle (slave_go_idle w))
    else w

-- `master_deinit_`: the timer is cancelled and the tree purged
unfoldable pub master_deinit_ : World → World
unfolding timer_deinit
master_deinit_ w = record w {
  sl = record (w.sl) {
    master = record (w.sl.master) { slaves = (avl_tree_purge w.sl.master.slaves).0 };
  };
  iosvc = timer_deinit w.sl.master.tmr w.iosvc;
}

-- the macro IDLE of `slave_act_master`
unfoldable pub leave_mastering : World → World
leave_mastering w = slave_go_idle (slave_disarm_mastering_timer (master_deinit_ w))

unfoldable pub run_master : Env → List ℕ → ℕ → World → Option World
run_master env packet remote w = do
  (m, out) ← master_act env.text env.fresh env.garbage env.now w.sl.master packet remote
  some (record w { sl = record (w.sl) { master = m }; sent = out ++ w.sent })

unfoldable pub slave_act_master : Env → List ℕ → ℕ → World → Option World
slave_act_master env packet remote w =
    if byte 0 packet == pr_vote
    then some (
        if w.sl.vote_sent == 0
        then slave_initialize_master_polling env
            (slave_prepare_to_poll (vote_of packet) (leave_mastering w))
        else w)
    else if byte 0 packet == pr_request
    then some (send_response (slave_fetch_parameters env (leave_mastering w)))
    else if byte 0 packet == pr_msg
    then some (leave_mastering w)
    else if byte 0 packet == pr_reset_master
    then some (leave_mastering w)
    else if byte 0 packet == pr_response
    then run_master env packet remote w
    else some w

unfoldable pub slave_act_waiting_master : Env → List ℕ → World → World
slave_act_waiting_master env packet w =
    if byte 0 packet == pr_reset_master
    then slave_act_idle env packet (slave_go_idle w)
    else if byte 0 packet == pr_request
    then slave_act_idle env packet (slave_go_idle w)
    else if byte 0 packet == pr_msg
    then slave_act_idle env packet (slave_go_idle w)
    else w

-- the table ACTORS
unfoldable pub slave_act : Env → List ℕ → ℕ → World → Option World
slave_act env packet remote w = elim (w.sl.state) [
  | slave_idle ↦ some (slave_act_idle env packet w)
  | slave_polling ↦ some (slave_act_poll env packet w)
  | slave_master ↦ slave_act_master env packet remote w
  | slave_waiting_master ↦ some (slave_act_waiting_master env packet w)
]

-- `data_received`, for a datagram from `remote` in a buffer that held `stale`
unfoldable pub slave_data_received :
    Env → (stale : ReceiveBuffer) → (datagram : List ℕ) → ℕ → World → Option World
slave_data_received env stale datagram remote w =
    elim (accept remote w.sl.local_addr stale datagram) [
      | none ↦ some w
      | some packet ↦ slave_act env packet remote w
    ]

unfoldable pub on_master_timed_out : Env → World → World
on_master_timed_out env w = slave_initialize_master_polling env (slave_prepare_to_poll 0 w)

-- `master_init_` and `master_start`: a new timer, no sums, no averages, no slaves; then the timer is
-- armed
unfoldable pub master_begin : Env → World → World
master_begin env w =
    let m : Master TimerJob = record {
      tmr = timer_init env.timer_fd w.sl.master.tmr;
      sum_temperature = pos 0;
      sum_illumination = 0;
      avg_temperature = pos 0;
      avg_illumination = 0;
      slaves = avl_tree_init;
    } in
    let (tmr, s) =
      timer_set_periodic query_expired (seconds master_request_timeout_msec)
        (nanoseconds master_request_timeout_msec) timeout m.tmr w.iosvc in
    record w { sl = record (w.sl) { master = record m { tmr = tmr } }; iosvc = s }

unfoldable pub on_poll_timeout : Env → World → World
on_poll_timeout env w = elim (w.sl.state) [
  | slave_polling ↦
      slave_arm_mastering_timer
        (master_begin env (slave_finish_master_polling slave_master (slave_disarm_poll_timer w)))
  | _ ↦ w
]

-- a master is one of its own slaves, at the address 0; its response is an object of 3 bytes
unfoldable pub on_mastering_timeout : Env → World → Option World
on_mastering_timeout env w = elim (w.sl.state) [
  | slave_master ↦
      let w' = slave_fetch_parameters env w in
      run_master env (response_packet w'.sl.temperature w'.sl.illumination) 0 w'
  | _ ↦ some (record w { iosvc = timer_cancel w.sl.mastering_tmr w.iosvc })
]

-- what the job of a timer does
unfoldable pub fire : Env → TimerJob → World → Option World
fire env slave_master_timed_out w = some (on_master_timed_out env w)
fire env slave_poll_timeout w = some (on_poll_timeout env w)
fire env slave_mastering_timeout w = on_mastering_timeout env w
fire env timeout w = some (record w { sent = query ++ w.sent })

-- `slave_run`, up to the loop
unfoldable pub slave_start : World → World
slave_start w =
    let w' = slave_go_idle w in
    record w' {
      iosvc = io_service_post_job w'.sl.udp_socket read false (some data_received) w'.iosvc;
    }
