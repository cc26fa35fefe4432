-- ===== src/Master/Standalone.antt =====
-- supertel/task1/src/master.c: the master as a program of its own, and the functions of
-- master-private.c that start and end a master.
use interview.Base.{
  ℕ, ◌+◌, ◌/◌, ◌%◌, ◌*◌, ◌^◌, ◌<◌, ◌≡◌, ◌≢◌, ◌∙◌, refl, ap, ◌==◌, Bool-cases, Option-cases, inl,
  inr, length, drop, arith, Bool, false, Option, none, some, List, ◌∷◌, ◌++◌, ◌>>=◌,
}
use interview.Base.Int.{ℤ, pos}
use interview.AvlTree.{null, avl_tree_init, avl_tree_purge}
use interview.IoService.{IoService, read, io_service_post_job}
use interview.Timer.{timer_init, timer_set_periodic, timer_cancel, timer_deinit}
use interview.Protocol.{
  master_request_timeout_msec, pr_reset_master, signature_packet, accept, ReceiveBuffer, byte,
  pr_count, expected_size, pr_response, pr_vote, to_int8,
}
use interview.Master.{Description, Master, master_act, master_calculate_averages}
use interview.Master.Update.{informs}
use interview.Master.Slaves.{IsNetwork, Tells, master_act-Tells}
use interview.Protocol.Accept.{accept_iff, accept-length, accept-byte, byte-append}
use interview.Base.Apart.{Others}
use interview.AvlTree.Order.{in_order}

-- the jobs of the timer, and those of the service
pub data MasterTimerJob : Type 0 where
  timeout : MasterTimerJob

pub data MasterJob : Type 0 where
  query_expired data_received : MasterJob

-- the program's state: the master, its service and socket, and what it has broadcast
pub record Station : Type 0 where
  pub m : Master MasterTimerJob
  pub iosvc : IoService MasterJob
  pub udp_socket : ℕ
  pub local_addr : ℕ
  pub sent : List (List ℕ)

-- `fd` is the descriptor of the new timer
unfoldable pub master_init_ : ℕ → Station → Station
master_init_ fd s = record s {
  m = record {
    tmr = timer_init fd s.m.tmr;
    sum_temperature = pos 0;
    sum_illumination = 0;
    avg_temperature = pos 0;
    avg_illumination = 0;
    slaves = avl_tree_init;
  };
}

-- `socket` is what `allocate_udp_broadcasting_socket` returns, with the address, and `broadcast`
-- whether `fetch_broadcast_addr` succeeds; the result has the return value
unfoldable pub master_init : ℕ → Option (ℕ × ℕ) → Bool → Station → Station × Bool
unfolding master_init_
master_init fd none broadcast s = (master_init_ fd s, false)
master_init fd (some (socket, addr)) broadcast s =
    (record (master_init_ fd s) { udp_socket = socket; local_addr = addr }, broadcast)

unfoldable pub master_deinit : Station → Station
master_deinit s = record s {
  m = record (s.m) { slaves = (avl_tree_purge s.m.slaves).0 };
  iosvc = timer_deinit s.m.tmr s.iosvc;
}

unfoldable pub master_arm_timer : Station → Station
master_arm_timer s =
    let (tmr, iosvc) =
      timer_set_periodic query_expired (master_request_timeout_msec / 1000)
        ((master_request_timeout_msec % 1000) * 1000000) timeout s.m.tmr s.iosvc in
    record s { m = record (s.m) { tmr = tmr }; iosvc = iosvc }

unfoldable pub master_disarm_timer : Station → Station
master_disarm_timer s = record s { iosvc = timer_cancel s.m.tmr s.iosvc }

-- `master_run` up to the loop: the reader is posted, the other masters are reset, and the timer is
-- armed
unfoldable pub master_run : Station → Station
unfolding master_arm_timer
master_run s =
    let posted = io_service_post_job s.udp_socket read false (some data_received) s.iosvc in
    master_arm_timer (record s { iosvc = posted; sent = signature_packet pr_reset_master ∷ s.sent })

module _ (text : ℤ → List ℕ) (fresh : ℕ) (garbage : Description) (now : ℕ) where
  -- `data_received`, for a datagram from `remote` in a buffer that held `stale`
  unfoldable pub master_data_received :
      (stale : ReceiveBuffer) (datagram : List ℕ) (remote : ℕ) → Station → Option Station
  master_data_received stale datagram remote s = elim (accept remote s.local_addr stale datagram) [
    | none ↦ some s
    | some packet ↦ do
      (m, out) ← master_act text fresh garbage now s.m packet remote
      some (record s { m = m; sent = out ++ s.sent })
  ]

  -- a datagram of another host, with one of the five signatures and the size of its structure
  abbrev pub IsPacket : (remote own : ℕ) (datagram : List ℕ) → Type 0
  IsPacket remote own datagram =
      (remote ≢ own)
      × (byte 0 datagram < pr_count)
      × (length datagram ≡ expected_size (byte 0 datagram))

  -- the four outcomes
  pub data Received (stale : ReceiveBuffer) (datagram : List ℕ) (remote : ℕ) (s : Station)
      : Option Station → Type 0 where
    dropped : ¬ IsPacket remote s.local_addr datagram → Received stale datagram remote s (some s)
    ignored :
        IsPacket remote s.local_addr datagram
        → byte 0 datagram ≢ pr_response
        → byte 0 datagram ≢ pr_vote
        → Received stale datagram remote s (some s)
    reset :
        IsPacket remote s.local_addr datagram
        → byte 0 datagram ≡ pr_vote
        → Received stale datagram remote s
            (some (record s { sent = signature_packet pr_reset_master ∷ s.sent }))
    told_of :
        (m : Master MasterTimerJob)
        → IsPacket remote s.local_addr datagram
        → byte 0 datagram ≡ pr_response
        → Tells remote
            (record {
              temperature = to_int8 (byte 2 datagram);
              illumination = byte 3 (datagram ++ drop 3 stale.bytes);
            })
            s.m
            (master_calculate_averages m).0
        → Received stale datagram remote s (
            some (record s {
              m = (master_calculate_averages m).0;
              sent = informs text now m ++ s.sent;
            }))

  response_taken :
      (stale : ReceiveBuffer) (datagram packet : List ℕ) (remote : ℕ) (s : Station)
      → accept remote s.local_addr stale datagram ≡ some packet
      → IsPacket remote s.local_addr datagram
      → byte 0 datagram ≡ pr_response
      → IsNetwork s.m.slaves
      → fresh ≢ null
      → Others (λ e. e.id) fresh (in_order s.m.slaves.root)
      → s.m.slaves.count + 1 < 2 ^ 64
      → Received stale datagram remote s (master_data_received stale datagram remote s)
  unfolding master_data_received
  response_taken stale datagram packet remote s h is response network allocated new room =
      let (other, known, size, whole) =
        (accept_iff remote s.local_addr stale datagram packet).0 h in
      let first = accept-byte remote s.local_addr stale datagram packet h in
      let long = accept-length remote s.local_addr stale datagram packet h in
      let three : length datagram ≡ 3 = unfold expected_size in ground (arith, size, response) in
      let p : packet ≡ datagram ++ drop 3 stale.bytes =
        whole ∙ ap (λ n. datagram ++ drop n stale.bytes) three in
      let third : byte 2 packet ≡ byte 2 datagram =
        ap (byte 2) p ∙ byte-append 2 datagram (drop 3 stale.bytes) (omega (arith, three)) in
      let (m, e, t) =
        master_act-Tells text fresh garbage now s.m packet remote (first ∙ response)
          (omega (arith, long)) network allocated new room in
      rw (h, master_data_received)
        (rw (e, ◌>>=◌) (told_of m is response (rw (third, ap (byte 3) p) at t)))

  accepted-Received :
      (stale : ReceiveBuffer) (datagram packet : List ℕ) (remote : ℕ) (s : Station)
      → accept remote s.local_addr stale datagram ≡ some packet
      → IsNetwork s.m.slaves
      → fresh ≢ null
      → Others (λ e. e.id) fresh (in_order s.m.slaves.root)
      → s.m.slaves.count + 1 < 2 ^ 64
      → Received stale datagram remote s (master_data_received stale datagram remote s)
  unfolding master_data_received master_act
  accepted-Received stale datagram packet remote s h network allocated new room =
      let (other, known, size, whole) =
        (accept_iff remote s.local_addr stale datagram packet).0 h in
      let is : IsPacket remote s.local_addr datagram = (other, known, size) in
      let first = accept-byte remote s.local_addr stale datagram packet h in
      elim (Bool-cases (byte 0 packet == pr_response)) [
        | inl a ↦
            response_taken stale datagram packet remote s h is (ground (arith, a, first)) network
              allocated new room
        | inr a ↦ elim (Bool-cases (byte 0 packet == pr_vote)) [
          | inl b ↦
              rw (h, master_data_received)
                (rw (a, b, master_act, ◌>>=◌) (reset is (ground (arith, b, first))))
          | inr b ↦
              rw (h, master_data_received)
                (rw (a, b, master_act, ◌>>=◌)
                  (ignored is (ground (arith, a, first)) (ground (arith, b, first))))
        ]
      ]

  -- What the stand-alone master does with any datagram, where the slaves' tree is valid, with one node
  -- for each address, and has room for one more, and the allocator returns new memory. A datagram
  -- that is its own, or has no signature of the protocol or another size than its structure's, is
  -- dropped. Of the others, a response is taken in: the slave that sent it has the temperature of the
  -- datagram's third byte and the illumination of the byte behind it in the buffer, all others have what
  -- they had, the sums follow, and the tree is as before. A vote is answered by the packet that resets
  -- masters, and the rest is ignored.
  pub master_data_received-Received :
      (stale : ReceiveBuffer) (datagram : List ℕ) (remote : ℕ) (s : Station)
      → IsNetwork s.m.slaves
      → fresh ≢ null
      → Others (λ e. e.id) fresh (in_order s.m.slaves.root)
      → s.m.slaves.count + 1 < 2 ^ 64
      → Received stale datagram remote s (master_data_received stale datagram remote s)
  unfolding master_data_received
  master_data_received-Received stale datagram remote s network allocated new room =
      elim (Option-cases (accept remote s.local_addr stale datagram)) [
        | inl none_ ↦
            rw (none_, master_data_received)
              (dropped (λ p.
                let all =
                  (accept_iff remote s.local_addr stale datagram
                      (datagram ++ drop (length datagram) stale.bytes)).1
                    (p.0, p.1, p.2, refl) in
                cc))
        | inr (packet, some_) ↦
            accepted-Received stale datagram packet remote s some_ network allocated new room
      ]
