-- ===== src/Slave/Election.antt =====
-- An election: what the votes of the others make of a slave that is polling.
use interview.Base.{
  ℕ, ◌^◌, ◌<◌, ◌≡◌, ◌≢◌, refl, ap, ◌∙◌, inl, inr, Bool, true, false, Option, some, List, [], ◌∷◌,
  max, arith, ltb, All, Bool-cases, if◌then◌else◌, ◌>>=◌,
}
use interview.Protocol.{byte, vote_of, vote_packet}
use interview.Protocol.Accept.{vote_of-vote_packet}
use interview.Slave.{
  SlaveState, slave_polling, slave_master, slave_waiting_master, World, Env,
  slave_finish_master_polling, slave_act_poll, slave_act_waiting_master, slave_act, note_vote,
  on_poll_timeout, slave_arm_mastering_timer, master_begin,
}
use interview.Slave.Votes.{note_vote_votes, finish_waiting_votes}

abbrev pub greatest : List ℕ → ℕ
greatest [] = 0
greatest (v ∷ vs) = max v (greatest vs)

-- the slave hears the votes of others, one after the other
abbrev pub hear : Env → ℕ → List ℕ → World → Option World
hear env remote [] w = some w
hear env remote (v ∷ vs) w = do w' ← slave_act env (vote_packet v) remote w; hear env remote vs w'

-- the state of a slave and the vote that it sent
abbrev Stands : SlaveState → ℕ → World → Type 0
Stands st sent w = (w.sl.state ≡ st) × (w.sl.vote_sent ≡ sent)

act_waiting : (env : Env) (v : ℕ) (w : World) → slave_act_waiting_master env (vote_packet v) w ≡ w
unfolding slave_act_waiting_master vote_packet
act_waiting env v w = refl

act_vote :
    (env : Env) (v : ℕ) (w : World)
    → v < 2 ^ 32
    → w.sl.vote_sent ≢ v
    → slave_act_poll env (vote_packet v) w ≡ (
        if ltb w.sl.vote_sent v
        then slave_finish_master_polling slave_waiting_master (note_vote v w)
        else note_vote v w)
unfolding slave_act_poll vote_packet
act_vote env v w small ne =
    let is_vote : byte 0 (vote_packet v) ≡ 3 = refl in
    let read : vote_of (vote_packet v) ≡ v = vote_of-vote_packet v [] small in
    rw (is_vote, read)
      (elim (Bool-cases (ltb w.sl.vote_sent v)) [
        | inl h ↦ rw h refl
        | inr h ↦ let less : ltb v w.sl.vote_sent ≡ true = ground arith in rw (h, less) refl
      ])

act_greater :
    (env : Env) (v : ℕ) (w : World)
    → v < 2 ^ 32
    → w.sl.vote_sent < v
    → Stands slave_waiting_master w.sl.vote_sent (slave_act_poll env (vote_packet v) w)
act_greater env v w small lt =
    let f = finish_waiting_votes (note_vote v w) in
    let n = note_vote_votes v w in
    let greater : ltb w.sl.vote_sent v ≡ true = ground arith in
    let e = act_vote env v w small (omega arith) in rw e (rw greater (f.0, f.1 ∙ n.1))

act_less :
    (env : Env) (v : ℕ) (w : World)
    → v < 2 ^ 32
    → v < w.sl.vote_sent
    → Stands w.sl.state w.sl.vote_sent (slave_act_poll env (vote_packet v) w)
act_less env v w small lt =
    let n = note_vote_votes v w in
    let less : ltb w.sl.vote_sent v ≡ false = ground arith in
    let e = act_vote env v w small (omega arith) in rw e (rw less (n.0, n.1))

hear-waiting :
    (env : Env) (remote : ℕ) (vs : List ℕ) (w : World)
    → w.sl.state ≡ slave_waiting_master
    → hear env remote vs w ≡ some w
unfolding slave_act
hear-waiting env remote [] w h = refl
hear-waiting env remote (v ∷ vs) w h =
    let e : slave_act env (vote_packet v) remote w ≡ some w =
      (simp (h, slave_act)) ∙ (ap some (act_waiting env v w)) in
    rw e (hear-waiting env remote vs w h)

polling_act :
    (env : Env) (packet : List ℕ) (remote : ℕ) (w : World)
    → w.sl.state ≡ slave_polling
    → slave_act env packet remote w ≡ some (slave_act_poll env packet w)
unfolding slave_act
polling_act env packet remote w h = simp (h, slave_act)

-- how a slave with the vote `sent` ends, when `top` is the greatest of the others' votes
abbrev Outcome : ℕ → ℕ → Option World → Type 0
Outcome sent top r =
    (w' : World) × (r ≡ some w')
    × Stands (if ltb sent top then slave_waiting_master else slave_polling) sent w'

outcome_gone : (sent v top : ℕ) → sent < v → (ltb sent (max v top)) ≡ true
outcome_gone sent v top h = ground arith

outcome_kept : (sent v top : ℕ) → v < sent → ltb sent (max v top) ≡ ltb sent top
outcome_kept sent v top h = ground arith

hear-Outcome :
    (env : Env) (remote : ℕ) (vs : List ℕ) (sent : ℕ) (w : World)
    → Stands slave_polling sent w
    → 0 < sent
    → All (λ v. (v < 2 ^ 32) × (sent ≢ v)) vs
    → Outcome sent (greatest vs) (hear env remote vs w)
hear-Outcome env remote [] sent w s positive a =
    let no : ltb sent 0 ≡ false = ground arith in (w, refl, rw no s)
hear-Outcome env remote (v ∷ vs) sent w s positive a =
    let w1 = slave_act_poll env (vote_packet v) w in
    let act = polling_act env (vote_packet v) remote w s.0 in
    elim (Bool-cases (ltb sent v)) [
      | inl gt ↦
          let g = act_greater env v w a.0.0 (ground arith) in
          (
            w1,
            rw act (hear-waiting env remote vs w1 g.0),
            rw (outcome_gone sent v (greatest vs) (ground arith)) (g.0, g.1 ∙ s.1),
          )
      | inr le ↦
          let g = act_less env v w a.0.0 (ground arith) in
          let rest = hear-Outcome env remote vs sent w1 (g.0 ∙ s.0, g.1 ∙ s.1) positive a.1 in
          (rest.0, rw act (rest.1), rw (outcome_kept sent v (greatest vs) (ground arith)) (rest.2))
    ]

-- the timer of an election: a slave that polls becomes the master, one that waits is left as it is
timeout_state :
    (env : Env) (w : World) (b : Bool)
    → w.sl.state ≡ (if b then slave_waiting_master else slave_polling)
    → (on_poll_timeout env w).sl.state ≡ (if b then slave_waiting_master else slave_master)
unfolding on_poll_timeout slave_arm_mastering_timer master_begin slave_finish_master_polling
timeout_state env w true h = ground arith
timeout_state env w false h = ground arith

-- A slave that is polling with a vote above 0, and hears votes of 32 bits of which none equals its
-- own, handles them all without a fault and keeps its vote. If one of them is greater than its own,
-- it waits for another master and still does when the timer of the election expires; else it polls
-- on, and becomes the master when the timer expires.
pub hear-election :
    (env : Env) (remote : ℕ) (vs : List ℕ) (w : World)
    → w.sl.state ≡ slave_polling
    → 0 < w.sl.vote_sent
    → All (λ v. (v < 2 ^ 32) × (w.sl.vote_sent ≢ v)) vs
    → (w' : World) × (hear env remote vs w ≡ some w')
      × (w'.sl.vote_sent ≡ w.sl.vote_sent)
      × (w'.sl.state
          ≡ (if ltb w.sl.vote_sent (greatest vs) then slave_waiting_master else slave_polling))
      × ((on_poll_timeout env w').sl.state
          ≡ (if ltb w.sl.vote_sent (greatest vs) then slave_waiting_master else slave_master))
hear-election env remote vs w h positive a =
    let (w', e, s) = hear-Outcome env remote vs w.sl.vote_sent w (h, refl) positive a in
    (w', e, s.1, s.0, timeout_state env w' (ltb w.sl.vote_sent (greatest vs)) s.0)
