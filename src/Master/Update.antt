-- ===== src/Master/Update.antt =====
-- The slaves' tree under `master_update_slave` and `master_act`.
use mathlib.Core.Path.{subst}
use interview.Base.{
  ℕ, ◌+◌, ◌-◌, ◌%◌, ◌^◌, ◌<◌, ◌≡◌, ◌≢◌, refl, sym, inl, inr, some, List, [], ◌∷◌, ◌==◌, Bool-cases,
  Option-cases, if◌then◌else◌, length, true, arith, ◌>>=◌,
}
use interview.Base.Int.{ℤ, pos, ◌+ℤ◌, ◌-ℤ◌}
use interview.AvlTree.{null, AvlTree, avl_tree_get}
use interview.AvlTree.Operations
use interview.AvlTree.Operations.{avl_tree_add-insert_entry, avl_tree_get-Found}
use interview.AvlTree.Data.{update_data, update_data-IsValid}
use interview.Protocol.Accept.{byte_at-byte}
use interview.Protocol.{to_int8, byte, pr_response, pr_vote, pr_reset_master, signature_packet}
use interview.Master.{
  Description, Master, zero_description, find_slave, master_update_slave, master_calculate_averages,
  master_act, response_of, info_message, master_calculate_brightness,
}

-- a slave's node is found or added, in a valid tree
find_slave-IsValid :
    (fresh : ℕ) (garbage : Description) (t : AvlTree Description) (ip : ℕ)
    → Operations.IsValid t
    → fresh ≢ null
    → t.count + 1 < 2 ^ 64
    → (t' : AvlTree Description) × (id : ℕ) × (old : Description) × (find_slave fresh garbage t ip
        ≡ some (t', id, old))
      × Operations.IsValid t'
unfolding find_slave
find_slave-IsValid fresh garbage t ip v allocated room =
    elim (Option-cases (avl_tree_get t (pos ip))) [
      | inl none_ ↦
          let a = avl_tree_add-insert_entry fresh garbage t (pos ip) v allocated room in
          (
            record (a.0) { root = update_data fresh (λ old. zero_description) a.0.root },
            fresh,
            zero_description,
            rw (none_, find_slave) (rw a.1),
            update_data-IsValid fresh (λ old. zero_description) a.0 a.2,
          )
      | inr (n, some_) ↦ (t, n.id, n.payload, rw (some_, find_slave), v)
    ]

-- a response whose four bytes are in memory
pub response_of-bytes :
    (packet : List ℕ)
    → 3 < length packet
    → response_of packet
      ≡ some (record { temperature = to_int8 (byte 2 packet); illumination = byte 3 packet })
unfolding response_of
response_of-bytes packet there =
    rw (byte_at-byte 3 packet there, ◌>>=◌)
      (rw (byte_at-byte 2 packet (omega (arith, there)), ◌>>=◌) refl)

module _ {K : Type 0} where
  -- the answer of a slave is taken in, whatever slave it is
  master_update_slave-IsValid :
      (fresh : ℕ) (garbage : Description) (m : Master K) (ip : ℕ) (sd : Description)
      → Operations.IsValid m.slaves
      → fresh ≢ null
      → m.slaves.count + 1 < 2 ^ 64
      → (m' : Master K) × (master_update_slave fresh garbage m ip sd ≡ some m')
        × Operations.IsValid m'.slaves
  unfolding master_update_slave
  master_update_slave-IsValid fresh garbage m ip sd v allocated room =
      let (t, id, old, e, valid) = find_slave-IsValid fresh garbage m.slaves ip v allocated room in
      (
        record m {
          sum_temperature = (m.sum_temperature -ℤ old.temperature) +ℤ sd.temperature;
          sum_illumination =
              ((m.sum_illumination + 2 ^ 32 - old.illumination) % 2 ^ 32 + sd.illumination)
              % 2 ^ 32;
          slaves = record t { root = update_data id (λ old. sd) t.root };
        },
        rw e,
        update_data-IsValid id (λ old. sd) t valid,
      )

  pub master_calculate_averages-slaves :
      (m : Master K) → (master_calculate_averages m).0.slaves ≡ m.slaves
  unfolding master_calculate_averages
  master_calculate_averages-slaves m = refl

  -- what the master broadcasts behind a response
  abbrev pub informs : (text : ℤ → List ℕ) (now : ℕ) → Master K → List (List ℕ)
  informs text now m =
      if (master_calculate_averages m).1
      then info_message text now (master_calculate_averages m).0
          (master_calculate_brightness (master_calculate_averages m).0)
        ∷ []
      else []

  pub master_act-response :
      (text : ℤ → List ℕ) (fresh : ℕ) (garbage : Description) (now : ℕ) (m m1 : Master K)
      (packet : List ℕ) (remote : ℕ)
      → byte 0 packet ≡ pr_response
      → 3 < length packet
      → master_update_slave fresh garbage m remote
          (record { temperature = to_int8 (byte 2 packet); illumination = byte 3 packet })
        ≡ some m1
      → master_act text fresh garbage now m packet remote
        ≡ some ((master_calculate_averages m1).0, informs text now m1)
  unfolding master_act
  master_act-response text fresh garbage now m m1 packet remote response there e =
      let a : (byte 0 packet == pr_response) ≡ true = ground (arith, response) in
      rw (a, master_act) (rw (response_of-bytes packet there, ◌>>=◌) (rw (e, ◌>>=◌) refl))

  -- a packet in an object of at least four bytes is taken in, and the slaves' tree is valid behind it
  pub master_act-IsValid :
      (text : ℤ → List ℕ) (fresh : ℕ) (garbage : Description) (now : ℕ) (m : Master K)
      (packet : List ℕ) (remote : ℕ)
      → 3 < length packet
      → Operations.IsValid m.slaves
      → fresh ≢ null
      → m.slaves.count + 1 < 2 ^ 64
      → (m' : Master K) × (out : List (List ℕ)) × (master_act text fresh garbage now m packet remote
          ≡ some (m', out))
        × Operations.IsValid m'.slaves
  unfolding master_act
  master_act-IsValid text fresh garbage now m packet remote there v allocated room =
      elim (Bool-cases (byte 0 packet == pr_response)) [
        | inl a ↦
            let (m1, e, valid) =
              master_update_slave-IsValid fresh garbage m remote
                (record { temperature = to_int8 (byte 2 packet); illumination = byte 3 packet }) v
                allocated room in
            (
              (master_calculate_averages m1).0,
              informs text now m1,
              master_act-response text fresh garbage now m m1 packet remote (ground (arith, a))
                  there e,
              subst Operations.IsValid (sym (master_calculate_averages-slaves m1)) valid,
            )
        | inr a ↦ elim (Bool-cases (byte 0 packet == pr_vote)) [
          | inl b ↦ (m, signature_packet pr_reset_master ∷ [], rw (a, b, master_act), v)
          | inr b ↦ (m, [], rw (a, b, master_act), v)
        ]
      ]
