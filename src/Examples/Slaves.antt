-- ===== src/Examples/Slaves.antt =====
-- Packets of the protocol, and the master of supertel/task1/src/master-private.c.
use interview.Base.{
  drop, ℕ, ◌/◌, ◌<◌, ◌≡◌, ◌≢◌, ◌↔◌, refl, true, false, some, List, [], ◌∷◌, ◌++◌, length, arith,
}
use interview.Base.Int.{ℤ, pos}
use interview.AvlTree.{leaf, node}
use interview.AvlTree.Operations
use interview.Timer.{no_class}
use interview.Protocol.{ReceiveBuffer, pr_count, expected_size, byte, accept}
use interview.Protocol.Accept.{accept_iff}
use interview.Master.{Description, Master, master_calculate_averages}
use interview.Master.Average.{master_calculate_averages-mean}

abbrev sevens : ReceiveBuffer
sevens = record { bytes = 7 ∷ 7 ∷ 7 ∷ 7 ∷ 7 ∷ 7 ∷ 7 ∷ 7 ∷ 7 ∷ 7 ∷ 7 ∷ 7 ∷ []; size = refl }

accept_iff_example : (accept 2 1 sevens (0 ∷ []) ≡ some (0 ∷ drop 1 sevens.bytes)) ↔ (
    (◌≢◌ {A = ℕ} 2 1)
    × (byte 0 (0 ∷ []) < pr_count)
    × (length {A = ℕ} (0 ∷ []) ≡ expected_size (byte 0 (0 ∷ [])))
    × (◌≡◌ {A = List ℕ}
        (0 ∷ drop 1 sevens.bytes)
        ((0 ∷ []) ++ drop (length {A = ℕ} (0 ∷ [])) sevens.bytes)))
accept_iff_example = accept_iff 2 1 sevens (0 ∷ []) (0 ∷ drop 1 sevens.bytes)

-- three slaves, with the given sum of temperatures
abbrev description : ℤ → Description
description t = record { temperature = t; illumination = 10 }

abbrev master : ℤ → Master ℕ
master sum = record {
  tmr = record {
    fd = 8;
    armed = true;
    tmr_class = no_class;
    spec = record { value_sec = 5; value_nsec = 0; interval_sec = 5; interval_nsec = 0 };
    job = some 0;
  };
  sum_temperature = sum;
  sum_illumination = 30;
  avg_temperature = pos 0;
  avg_illumination = 0;
  slaves = record {
    count = 3;
    root =
        node
          (node leaf
            (record { id = 1; parent = 2; height = 1; key = pos 7; payload = description (pos 5) })
            leaf)
          (record { id = 2; parent = 0; height = 2; key = pos 8; payload = description (pos 6) })
          (node leaf
            (record { id = 3; parent = 2; height = 1; key = pos 9; payload = description (pos 7) })
            leaf);
  };
}

abbrev text : ℤ → List ℕ
text z = 54 ∷ 0 ∷ 0 ∷ 0 ∷ 0 ∷ []

abbrev answer : Description
answer = record { temperature = pos 8; illumination = 7 }

master_calculate_averages-mean_example :
    ((master_calculate_averages (master (pos 18))).0.avg_temperature ≡ pos (18 / 3))
    × ((master_calculate_averages (master (pos 18))).0.avg_illumination ≡ 30 / 3)
    × (((master_calculate_averages (master (pos 18))).1 ≡ false) ↔ (
        ((master_calculate_averages (master (pos 18))).0.avg_temperature ≡ pos 0)
        × ((master_calculate_averages (master (pos 18))).0.avg_illumination ≡ 0)))
master_calculate_averages-mean_example =
    master_calculate_averages-mean (master (pos 18)) 18 refl (omega arith) (omega arith)
      (omega arith)
