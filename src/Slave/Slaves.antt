-- ===== src/Slave/Slaves.antt =====
-- The tree of the slave's master under each handler: only a master's own handlers change it.
use interview.Base.{ℕ, ◌≡◌, refl, ◌∙◌, inl, inr, List, arith, ltb, ◌==◌, Bool-cases}
use interview.AvlTree.{AvlTree, avl_tree_init}
use interview.AvlTree.Operations
use interview.AvlTree.Operations.{avl_tree_init-IsValid, avl_tree_purge-perm}
use interview.Protocol.{byte, vote_of}
use interview.Master.{Description}
use interview.Slave.{
  SlaveState, slave_idle, slave_waiting_master, World, Env, slave_arm_poll_timer,
  slave_arm_master_gone_timer, slave_fetch_parameters, send_response, slave_go_idle,
  slave_finish_master_polling, random_vote_of, slave_poll, slave_act_idle, slave_act_poll,
  note_vote, leave_mastering, slave_act_waiting_master, on_master_timed_out, on_poll_timeout,
  master_deinit_, slave_disarm_mastering_timer, master_begin, slave_arm_mastering_timer,
  slave_initialize_master_polling, slave_prepare_to_poll, slave_disarm_master_gone_timer,
  slave_disarm_poll_timer, set_votes,
}

abbrev pub tree : World → AvlTree Description
tree w = w.sl.master.slaves

pub tree-slave_go_idle : (w : World) → tree (slave_go_idle w) ≡ tree w
unfolding slave_go_idle slave_arm_master_gone_timer
tree-slave_go_idle w = refl

pub tree-finish : (s : SlaveState) (w : World) → tree (slave_finish_master_polling s w) ≡ tree w
unfolding slave_finish_master_polling slave_arm_master_gone_timer slave_disarm_poll_timer
tree-finish s w = ground arith

pub tree-slave_poll : (env : Env) (w : World) → tree (slave_poll env w) ≡ tree w
unfolding slave_poll slave_arm_poll_timer
tree-slave_poll env w =
    let v = random_vote_of env.random_vote in
    let f = tree-finish slave_waiting_master (set_votes v w.sl.max_vote_per_poll w) in
    elim (Bool-cases (ltb w.sl.max_vote_per_poll v)) [ inl h ↦ rw h | inr h ↦ rw h f ]

pub tree-prepare_poll :
    (env : Env) (v : ℕ) (w : World) → tree (slave_poll env (slave_prepare_to_poll v w)) ≡ tree w
unfolding slave_prepare_to_poll slave_disarm_master_gone_timer
tree-prepare_poll env v w = tree-slave_poll env (slave_prepare_to_poll v w)

pub tree-initialize :
    (env : Env) (v : ℕ) (w : World)
    → tree (slave_initialize_master_polling env (slave_prepare_to_poll v w)) ≡ tree w
unfolding slave_initialize_master_polling
tree-initialize env v w = tree-prepare_poll env v w

pub tree-act_idle :
    (env : Env) (packet : List ℕ) (w : World) → tree (slave_act_idle env packet w) ≡ tree w
unfolding slave_act_idle slave_arm_master_gone_timer slave_fetch_parameters send_response
    slave_initialize_master_polling
tree-act_idle env packet w =
    let p = tree-prepare_poll env (vote_of packet) w in
    elim (Bool-cases (byte 0 packet == 0)) [
      | inl a ↦ rw a refl
      | inr a ↦ rw a (elim (Bool-cases (byte 0 packet == 2)) [
        | inl b ↦ rw b refl
        | inr b ↦
            rw b (elim (Bool-cases (byte 0 packet == 3)) [ inl c ↦ rw c p | inr c ↦ rw c refl ])
      ])
    ]

pub tree-note_vote : (vote : ℕ) (w : World) → tree (note_vote vote w) ≡ tree w
unfolding note_vote
tree-note_vote vote w = ground arith

pub tree-finish_idle :
    (w : World) → tree (slave_finish_master_polling slave_idle (slave_go_idle w)) ≡ tree w
tree-finish_idle w = tree-finish slave_idle (slave_go_idle w) ∙ tree-slave_go_idle w

pub tree-act_poll :
    (env : Env) (packet : List ℕ) (w : World) → tree (slave_act_poll env packet w) ≡ tree w
unfolding slave_act_poll
tree-act_poll env packet w =
    let vote = vote_of packet in
    let w' = note_vote vote w in
    let n = tree-note_vote vote w in
    let up = tree-finish slave_waiting_master w' ∙ n in
    let again = tree-prepare_poll env 0 w' ∙ n in
    let idle = tree-finish_idle w in
    let act =
      tree-act_idle env packet (slave_finish_master_polling slave_idle (slave_go_idle w)) ∙ idle in
    ground (arith, n, up, again, idle, act)

pub tree-act_waiting :
    (env : Env) (packet : List ℕ) (w : World)
    → tree (slave_act_waiting_master env packet w) ≡ tree w
unfolding slave_act_waiting_master
tree-act_waiting env packet w =
    let act = tree-act_idle env packet (slave_go_idle w) ∙ tree-slave_go_idle w in
    ground (arith, act)

pub tree-leave_mastering : (w : World) → tree (leave_mastering w) ≡ avl_tree_init
unfolding leave_mastering slave_disarm_mastering_timer master_deinit_
tree-leave_mastering w =
    tree-slave_go_idle (slave_disarm_mastering_timer (master_deinit_ w))
    ∙ (avl_tree_purge-perm (tree w)).0

pub tree-answer :
    (env : Env) (w : World) → tree (send_response (slave_fetch_parameters env w)) ≡ tree w
unfolding send_response slave_fetch_parameters
tree-answer env w = refl

pub tree-master_timed_out : (env : Env) (w : World) → tree (on_master_timed_out env w) ≡ tree w
unfolding on_master_timed_out slave_initialize_master_polling
tree-master_timed_out env w = tree-prepare_poll env 0 w

-- an election that ends by its timer starts with no slaves
pub tree-poll_timeout :
    (env : Env) (w : World)
    → Operations.IsValid (tree w)
    → Operations.IsValid (tree (on_poll_timeout env w))
unfolding on_poll_timeout slave_arm_mastering_timer master_begin
tree-poll_timeout env w v = ground (arith, avl_tree_init-IsValid {D = Description})
