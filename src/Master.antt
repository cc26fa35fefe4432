-- ===== src/Master.antt =====
-- supertel/task1/src/master-private.c: the master, by itself or inside of a slave.
pub mod Update
pub mod Slaves
pub mod Average
pub mod Standalone
use interview.Base.{
  ℕ, ◌+◌, ◌-◌, ◌*◌, ◌/◌, ◌%◌, ◌^◌, Bool, true, false, not, ◌&&◌, Option, none, some, List, [], ◌∷◌,
  ltb, ◌==◌, if◌then◌else◌, ◌>>=◌,
}
use interview.Base.Int.{ℤ, pos, negsuc, ◌+ℤ◌, ◌-ℤ◌, eqz}
use interview.AvlTree.{Node, Tree, leaf, node, AvlTree, avl_tree_init, avl_tree_get, avl_tree_add}
use interview.AvlTree.Data.{update_data}
use interview.Protocol.{
  pr_request, pr_response, pr_vote, pr_reset_master, pr_msg, byte, byte_at, to_int8, byte_of,
  signature_packet,
}
use interview.Timer.{Tmr}

-- `slave_description_t`
pub record Description : Type 0 where
  pub temperature : ℤ
  pub illumination : ℕ

-- `struct master`, less its service, addresses and socket; `K` is the type of the timers' jobs
pub record Master (K : Type 0) : Type 0 where
  pub tmr : Tmr K
  pub sum_temperature : ℤ
  pub sum_illumination : ℕ
  pub avg_temperature : ℤ
  pub avg_illumination : ℕ
  pub slaves : AvlTree Description

abbrev pub zero_description : Description
zero_description = record { temperature = pos 0; illumination = 0 }

-- the slave's node, which is added with zeroed data if it is not there, and the data it holds
unfoldable pub find_slave :
    ℕ → Description → AvlTree Description → ℕ → Option (AvlTree Description × ℕ × Description)
unfolding avl_tree_get avl_tree_add update_data
find_slave fresh garbage slaves ip = elim (avl_tree_get slaves (pos ip)) [
  | some n ↦ some (slaves, n.id, n.payload)
  | none ↦ do
    (t, id) ← avl_tree_add fresh garbage slaves (pos ip)
    some (record t { root = update_data id (λ old. zero_description) t.root }, id, zero_description)
]

-- `int32_t` to `size_t`
abbrev pub to_size : ℤ → ℕ
to_size (pos n) = n
to_size (negsuc n) = 2 ^ 64 - 1 - n

-- the response is read one byte behind the packet, `(const pr_response_t *)(packet + 1)`; `none` is a
-- read behind the object that holds the packet
unfoldable pub response_of : List ℕ → Option Description
response_of packet = do
  illumination ← byte_at 3 packet
  temperature ← byte_at 2 packet
  some (record { temperature = to_int8 temperature; illumination = illumination })

-- `timeout`, the job of the master's timer
abbrev pub query : List (List ℕ)
query = signature_packet pr_request ∷ []

module _ {K : Type 0} where
  -- `fresh` and `garbage` are the block that the allocator returns for a new slave
  unfoldable pub master_update_slave :
      ℕ → Description → Master K → ℕ → Description → Option (Master K)
  unfolding find_slave update_data
  master_update_slave fresh garbage m ip sd = do
    (slaves, id, old) ← find_slave fresh garbage m.slaves ip
    some (record m {
      sum_temperature = (m.sum_temperature -ℤ old.temperature) +ℤ sd.temperature;
      sum_illumination =
          ((m.sum_illumination + 2 ^ 32 - old.illumination) % 2 ^ 32 + sd.illumination) % 2 ^ 32;
      slaves = record slaves { root = update_data id (λ old. sd) slaves.root };
    })

  -- with `true` if an average has changed
  unfoldable pub master_calculate_averages : Master K → Master K × Bool
  master_calculate_averages m =
      let count = m.slaves.count in
      let temperature : ℤ =
        if count == 0 then pos 0 else to_int8 (to_size m.sum_temperature / count) in
      let illumination : ℕ = if count == 0 then 0 else (m.sum_illumination / count) % 256 in
      (
        record m { avg_temperature = temperature; avg_illumination = illumination },
        not (eqz m.avg_temperature temperature && (m.avg_illumination == illumination)),
      )

  unfoldable pub master_calculate_brightness : Master K → ℕ
  master_calculate_brightness m = (m.avg_illumination + 1) % 256

  -- `pr_msg_t`: `text` is what `snprintf` writes for the average, `now` is `time(NULL)`
  unfoldable pub info_message : (text : ℤ → List ℕ) (now : ℕ) → Master K → ℕ → List ℕ
  info_message text now m brightness = pr_msg ∷ fields (text m.avg_temperature)
    where
      little_endian : ℕ → List ℕ
      little_endian n =
          (n % 256) ∷ (n / 2 ^ 8 % 256) ∷ (n / 2 ^ 16 % 256) ∷ (n / 2 ^ 24 % 256) ∷ brightness ∷ []

      fields : List ℕ → List ℕ
      fields [] = byte_of m.avg_temperature ∷ little_endian now
      fields (c ∷ cs) = c ∷ fields cs

  -- the master, and what it broadcasts; `packet` is the object in memory that holds the packet. For a
  -- vote the code also computes a pointer from one that is not set, and does not use it: this is left
  -- out.
  unfoldable pub master_act :
      (text : ℤ → List ℕ) (fresh : ℕ) (garbage : Description) (now : ℕ)
      → Master K
      → (packet : List ℕ) (remote : ℕ) → Option (Master K × List (List ℕ))
  unfolding response_of master_update_slave master_calculate_averages master_calculate_brightness
      info_message
  master_act text fresh garbage now m packet remote =
      if byte 0 packet == pr_response
      then (do
        sd ← response_of packet
        m' ← master_update_slave fresh garbage m remote sd
        let (m'', avg_changed) = master_calculate_averages m'
        some (
          m'',
          if avg_changed
              then info_message text now m'' (master_calculate_brightness m'') ∷ []
              else [],
        ))
      else if byte 0 packet == pr_vote
      then some (m, signature_packet pr_reset_master ∷ [])
      else some (m, [])
