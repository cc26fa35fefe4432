-- ===== src/Examples/Stations.antt =====
-- The stand-alone master of supertel/task1/src/master.c, and the end of a slave.
use interview.Base.{ℕ, refl, true, false, Option, none, some, List, [], ◌∷◌, arith}
use interview.Base.Int.{ℤ, pos}
use interview.AvlTree.{leaf}
use interview.AvlTree.Operations
use interview.IoService.{Element}
use interview.IoService.Table.{IsTable, has_fd}
use interview.Timer.{periodic}
use interview.Protocol.{response_packet}
use interview.Master.Standalone.{
  timeout, Station, master_data_received, Received, master_data_received-Received,
}
use interview.Slave.{slave_polling, World, Job, poll_expired}
use interview.Examples.Elections.{world, zeros}
use interview.Master.Slaves.{IsNetwork}

abbrev station : Station
station = record {
  m = record {
    tmr = record {
      fd = 8;
      armed = true;
      tmr_class = periodic;
      spec = record { value_sec = 5; value_nsec = 0; interval_sec = 5; interval_nsec = 0 };
      job = some timeout;
    };
    sum_temperature = pos 0;
    sum_illumination = 0;
    avg_temperature = pos 0;
    avg_illumination = 0;
    slaves = record { count = 0; root = leaf };
  };
  iosvc = record {
    allow_new = true;
    running = true;
    event_fd = 3;
    notified = 0;
    lookup_table = [];
  };
  udp_socket = 10;
  local_addr = 1;
  sent = [];
}

abbrev text : ℤ → List ℕ
text z = 54 ∷ 0 ∷ 0 ∷ 0 ∷ 0 ∷ []

station-IsValid : Operations.IsValid station.m.slaves
station-IsValid = record {
  avl = ground arith;
  sorted = ground arith;
  counted = refl;
  small = omega arith;
}

station-IsNetwork : IsNetwork station.m.slaves
station-IsNetwork = record { valid = station-IsValid; unique = tt; distinct = tt }

-- the station, for its messages and the block of a new slave
abbrev Receives : Station → Option Station → Type 0
Receives s r =
    Received text 20 (record { temperature = pos 0; illumination = 0 }) 1000 zeros
      (response_packet (pos 20) 30) 2 s r

master_data_received-Received_example : Receives station (
    master_data_received text 20
      (record { temperature = pos 0; illumination = 0 })
      1000
      zeros
      (response_packet (pos 20) 30)
      2
      station)
master_data_received-Received_example =
    master_data_received-Received text 20 (record { temperature = pos 0; illumination = 0 }) 1000
      zeros (response_packet (pos 20) 30) 2 station station-IsNetwork (ground arith) tt
      (omega arith)

-- a slave that polls, whose timer's reader waits on the descriptor 5
abbrev waiting : Element Job
waiting = record {
  fd = 5;
  events_in = true;
  events_out = false;
  on_read = record { job = some poll_expired; oneshot = true };
  on_write = record { job = none; oneshot = false };
}

abbrev polling : World
polling = record (world slave_polling 5) {
  iosvc = record {
    allow_new = true;
    running = true;
    event_fd = 3;
    notified = 0;
    lookup_table = waiting ∷ [];
  };
}

polling-IsTable : IsTable polling.iosvc.lookup_table
unfolding has_fd
polling-IsTable = ground arith
