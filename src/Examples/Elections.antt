-- ===== src/Examples/Elections.antt =====
-- A slave's world: the votes of others, the datagrams and the timers, in each state.
use interview.Base.{ℕ, ◌≡◌, refl, true, false, none, some, [], ◌∷◌, arith}
use interview.Base.Int.{pos}
use interview.AvlTree.{leaf, node, AvlTree}
use interview.AvlTree.Operations
use interview.Timer.{Tmr, no_class}
use interview.Protocol.{ReceiveBuffer}
use interview.Master.{Description}
use interview.Slave.{
  SlaveState, slave_polling, slave_master, slave_waiting_master, World, Env, TimerJob,
  slave_poll_timeout, fire, on_poll_timeout,
}
use interview.Slave.Faults.{IsSound, Outcome, fire-Outcome}
use interview.Slave.Election.{hear, hear-election}

abbrev env : Env
env = record {
  random_vote = 41;
  random_temperature = 20;
  random_illumination = 60;
  now = 1000;
  text = λ z. 50 ∷ 48 ∷ 0 ∷ 0 ∷ 0 ∷ [];
  fresh = 77;
  garbage = record { temperature = pos 1; illumination = 1 };
  timer_fd = 8;
}

abbrev tmr : ℕ → Tmr TimerJob
tmr fd = record {
  fd = fd;
  armed = false;
  tmr_class = no_class;
  spec = record { value_sec = 0; value_nsec = 0; interval_sec = 0; interval_nsec = 0 };
  job = none;
}

-- one slave, at the address 9
abbrev slaves : AvlTree Description
slaves = record {
  count = 1;
  root =
      node leaf
        (record {
          id = 70;
          parent = 0;
          height = 1;
          key = pos 9;
          payload = record { temperature = pos 18; illumination = 50 };
        })
        leaf;
}

abbrev pub world : SlaveState → ℕ → World
world state vote_sent = record {
  sl = record {
    master_gone_tmr = tmr 4;
    poll_tmr = tmr 5;
    mastering_tmr = tmr 6;
    state = state;
    vote_sent = vote_sent;
    max_vote_per_poll = 0;
    illumination = 50;
    temperature = pos 18;
    local_addr = 1;
    udp_socket = 10;
    master = record {
      tmr = tmr 8;
      sum_temperature = pos 18;
      sum_illumination = 50;
      avg_temperature = pos 18;
      avg_illumination = 50;
      slaves = slaves;
    };
  };
  iosvc = record {
    allow_new = true;
    running = true;
    event_fd = 3;
    notified = 0;
    lookup_table = [];
  };
  sent = [];
}

slaves-IsValid : Operations.IsValid slaves
slaves-IsValid = record {
  avl = ground arith;
  sorted = ground arith;
  counted = refl;
  small = omega arith;
}

mastering : IsSound (world slave_master 0)
mastering = record { votes = (refl, refl); slaves = slaves-IsValid }

-- a buffer of zeros
abbrev pub zeros : ReceiveBuffer
zeros = record { bytes = 0 ∷ 0 ∷ 0 ∷ 0 ∷ 0 ∷ 0 ∷ 0 ∷ 0 ∷ 0 ∷ 0 ∷ 0 ∷ 0 ∷ []; size = refl }

-- a poll timer that expires when the slave is the master
fire-Outcome_example : Outcome false (fire env slave_poll_timeout (world slave_master 0))
fire-Outcome_example = fire-Outcome env slave_poll_timeout (world slave_master 0) mastering

-- the votes 3 and 9 against 5
hear-election_example :
    (w' : World) × (hear env 2 (3 ∷ 9 ∷ []) (world slave_polling 5) ≡ some w')
    × (w'.sl.vote_sent ≡ 5)
    × (w'.sl.state ≡ slave_waiting_master)
    × ((on_poll_timeout env w').sl.state ≡ slave_waiting_master)
hear-election_example =
    hear-election env 2 (3 ∷ 9 ∷ []) (world slave_polling 5) refl (omega arith) (ground arith)
