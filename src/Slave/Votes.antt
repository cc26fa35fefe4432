-- ===== src/Slave/Votes.antt =====
-- The invariant of the votes: what `vote_sent` and `max_vote_per_poll` are in each state.
use interview.Base.{ℕ, ◌≤◌, ◌<◌, ◌≡◌, refl, inl, inr, List, max, ◌∙◌, arith, ltb, ◌==◌, Bool-cases}
use interview.Protocol.{byte, vote_of}
use interview.Slave.{
  SlaveState, slave_idle, slave_polling, slave_master, slave_waiting_master, World, Env,
  slave_arm_poll_timer, slave_arm_master_gone_timer, slave_fetch_parameters, send_response,
  slave_go_idle, slave_prepare_to_poll, slave_finish_master_polling, random_vote_of, slave_poll,
  slave_act_idle, slave_act_poll, note_vote, leave_mastering, slave_act_waiting_master,
  on_master_timed_out, on_poll_timeout, master_deinit_, slave_disarm_mastering_timer, master_begin,
  slave_arm_mastering_timer, slave_initialize_master_polling,
}

-- no votes outside of an election; while polling, the vote that was sent beats every vote that came
-- in; a slave that gave up has seen a vote as large as its own
abbrev pub VotesAgree : SlaveState → ℕ → ℕ → Type 0
VotesAgree slave_idle sent seen = (sent ≡ 0) × (seen ≡ 0)
VotesAgree slave_master sent seen = (sent ≡ 0) × (seen ≡ 0)
VotesAgree slave_polling sent seen = seen < sent
VotesAgree slave_waiting_master sent seen = (0 < sent) × (sent ≤ seen)

abbrev pub IsValid : World → Type 0
IsValid w = VotesAgree w.sl.state w.sl.vote_sent w.sl.max_vote_per_poll

pub slave_go_idle-IsValid : (w : World) → IsValid (slave_go_idle w)
unfolding slave_go_idle
slave_go_idle-IsValid w = (refl, refl)

-- a poll from the state of polling ends in it, with the greater vote, or gives up
slave_poll-IsValid :
    (env : Env) (w : World) → w.sl.state ≡ slave_polling → IsValid (slave_poll env w)
unfolding slave_poll random_vote_of slave_finish_master_polling slave_arm_poll_timer
slave_poll-IsValid env w h =
    elim (Bool-cases (ltb w.sl.max_vote_per_poll (random_vote_of env.random_vote))) [
      | inl g ↦ rw (g, h) (ground arith)
      | inr g ↦ rw g (ground arith)
    ]

pub prepare_poll-IsValid :
    (env : Env) (v : ℕ) (w : World)
    → IsValid (slave_initialize_master_polling env (slave_prepare_to_poll v w))
unfolding slave_initialize_master_polling slave_prepare_to_poll
prepare_poll-IsValid env v w = slave_poll-IsValid env (slave_prepare_to_poll v w) refl

repoll-IsValid :
    (env : Env) (v : ℕ) (w : World) → IsValid (slave_poll env (slave_prepare_to_poll v w))
unfolding slave_prepare_to_poll
repoll-IsValid env v w = slave_poll-IsValid env (slave_prepare_to_poll v w) refl

pub slave_act_idle-IsValid :
    (env : Env) (packet : List ℕ) (w : World) → IsValid w → IsValid (slave_act_idle env packet w)
unfolding slave_act_idle slave_arm_master_gone_timer slave_fetch_parameters send_response
slave_act_idle-IsValid env packet w v = elim (Bool-cases (byte 0 packet == 0)) [
  | inl a ↦ rw a v
  | inr a ↦ rw a (elim (Bool-cases (byte 0 packet == 2)) [
    | inl b ↦ rw b v
    | inr b ↦ rw b (elim (Bool-cases (byte 0 packet == 3)) [
      | inl c ↦ rw c (prepare_poll-IsValid env (vote_of packet) w)
      | inr c ↦ rw c v
    ])
  ])
]

finish_idle-IsValid : (w : World) → IsValid (slave_finish_master_polling slave_idle w)
unfolding slave_finish_master_polling
finish_idle-IsValid w = (refl, refl)

-- what giving up and noting a vote do to the fields of the election
pub finish_waiting_votes :
    (w : World)
    → let w' = slave_finish_master_polling slave_waiting_master w in
      (w'.sl.state ≡ slave_waiting_master)
      × (w'.sl.vote_sent ≡ w.sl.vote_sent)
      × (w'.sl.max_vote_per_poll ≡ w.sl.max_vote_per_poll)
unfolding slave_finish_master_polling
finish_waiting_votes w = ground arith

pub note_vote_votes :
    (vote : ℕ) (w : World)
    → ((note_vote vote w).sl.state ≡ w.sl.state)
      × ((note_vote vote w).sl.vote_sent ≡ w.sl.vote_sent)
      × (vote ≤ (note_vote vote w).sl.max_vote_per_poll)
      × ((note_vote vote w).sl.max_vote_per_poll ≤ max w.sl.max_vote_per_poll vote)
unfolding note_vote
note_vote_votes vote w = ground arith

IsValid-of :
    (w : World) (s : SlaveState)
    → w.sl.state ≡ s
    → VotesAgree s w.sl.vote_sent w.sl.max_vote_per_poll
    → IsValid w
IsValid-of w s h v = rw h v

finish_waiting-IsValid :
    (vote : ℕ) (w : World)
    → w.sl.vote_sent < vote
    → 0 < w.sl.vote_sent
    → IsValid (slave_finish_master_polling slave_waiting_master (note_vote vote w))
finish_waiting-IsValid vote w lt positive =
    let w' = note_vote vote w in
    let f = finish_waiting_votes w' in
    let n = note_vote_votes vote w in
    IsValid-of (slave_finish_master_polling slave_waiting_master w') slave_waiting_master f.0
      (omega (arith, f.1, f.2, n.1, n.2), omega (arith, f.1, f.2, n.1, n.2))

note_vote-IsValid :
    (vote : ℕ) (w : World)
    → w.sl.state ≡ slave_polling
    → w.sl.max_vote_per_poll < w.sl.vote_sent
    → vote < w.sl.vote_sent
    → IsValid (note_vote vote w)
note_vote-IsValid vote w h v lt =
    let n = note_vote_votes vote w in
    IsValid-of (note_vote vote w) slave_polling (n.0 ∙ h) (omega (arith, n.1, n.3))

pub slave_act_poll-IsValid :
    (env : Env) (packet : List ℕ) (w : World)
    → w.sl.state ≡ slave_polling
    → IsValid w
    → IsValid (slave_act_poll env packet w)
unfolding slave_act_poll
slave_act_poll-IsValid env packet w h valid =
    let v : w.sl.max_vote_per_poll < w.sl.vote_sent = rw h at valid in
    let idle_act =
      slave_act_idle-IsValid env packet (slave_finish_master_polling slave_idle (slave_go_idle w))
        (finish_idle-IsValid (slave_go_idle w)) in
    elim (Bool-cases (byte 0 packet == 3)) [
      | inl a ↦ rw a (elim (Bool-cases (ltb w.sl.vote_sent (vote_of packet))) [
        | inl b ↦ rw b (finish_waiting-IsValid (vote_of packet) w (ground arith) (omega arith))
        | inr b ↦ rw b (elim (Bool-cases (ltb (vote_of packet) w.sl.vote_sent)) [
          | inl c ↦ rw c (note_vote-IsValid (vote_of packet) w h v (ground arith))
          | inr c ↦ rw c (repoll-IsValid env 0 (note_vote (vote_of packet) w))
        ])
      ])
      | inr a ↦ rw a (elim (Bool-cases (byte 0 packet == 4)) [
        | inl b ↦ rw b (finish_idle-IsValid (slave_go_idle w))
        | inr b ↦ rw b (elim (Bool-cases (byte 0 packet == 0)) [
          | inl c ↦ rw c idle_act
          | inr c ↦ rw c (elim (Bool-cases (byte 0 packet == 2)) [
            | inl d ↦ rw d idle_act
            | inr d ↦ rw d valid
          ])
        ])
      ])
    ]

pub slave_act_waiting_master-IsValid :
    (env : Env) (packet : List ℕ) (w : World)
    → IsValid w
    → IsValid (slave_act_waiting_master env packet w)
unfolding slave_act_waiting_master
slave_act_waiting_master-IsValid env packet w v =
    let idle_act = slave_act_idle-IsValid env packet (slave_go_idle w) (slave_go_idle-IsValid w) in
    ground (arith, idle_act)

pub leave_mastering-IsValid : (w : World) → IsValid (leave_mastering w)
unfolding leave_mastering
leave_mastering-IsValid w = slave_go_idle-IsValid (slave_disarm_mastering_timer (master_deinit_ w))

pub answer-IsValid :
    (env : Env) (w : World) → IsValid w → IsValid (send_response (slave_fetch_parameters env w))
unfolding send_response slave_fetch_parameters
answer-IsValid env w v = v

pub poll_timeout-IsValid : (env : Env) (w : World) → IsValid w → IsValid (on_poll_timeout env w)
unfolding on_poll_timeout slave_arm_mastering_timer master_begin slave_finish_master_polling
poll_timeout-IsValid env w v = ground arith

pub timed_out-IsValid : (env : Env) (w : World) → IsValid (on_master_timed_out env w)
unfolding on_master_timed_out
timed_out-IsValid env w = prepare_poll-IsValid env 0 w
