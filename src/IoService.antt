-- ===== src/IoService.antt =====
-- supertel/lib/io-service.c: the table of posted jobs, and what one event of `epoll_wait` does to it.
-- The list of the table is a list of elements; a function pointer with its `ctx` is a value of a
-- type `J` of jobs. The two bits of `event.events` are `events_in` and `events_out`.
pub mod Dispatch
pub mod Service
pub mod Table
use interview.Base.{
  ℕ, ◌+◌, ◌-◌, Bool, true, false, not, ◌&&◌, ◌||◌, Option, none, some, List, [], ◌∷◌, ◌++◌, ◌==◌,
  if◌then◌else◌, ◌>>=◌,
}

-- `io_svc_op_t`: the indices of `job` and of `OP_FLAGS`
pub data Op : Type 0 where
  read write : Op

-- `job_t`; `job` is `none` for NULL, and `oneshot` outlives it
pub record JobSlot {ℓ} (J : Type ℓ) : Type ℓ where
  pub job : Option J
  pub oneshot : Bool

-- `lookup_job_element_t`
pub record Element {ℓ} (J : Type ℓ) : Type ℓ where
  pub fd : ℕ
  pub events_in : Bool
  pub events_out : Bool
  pub on_read : JobSlot J
  pub on_write : JobSlot J

-- `struct io_service`; `notified` counts what is written to `event_fd` and not yet read
pub record IoService {ℓ} (J : Type ℓ) : Type ℓ where
  pub allow_new : Bool
  pub running : Bool
  pub event_fd : ℕ
  pub notified : ℕ
  pub lookup_table : List (Element J)

-- what the search for a ready descriptor finds
pub data Ready {ℓ} (J : Type ℓ) : Type ℓ where
  -- no element has the descriptor: nothing is called
  unknown : Ready J
  -- an element with no job is left in the table
  idle : List (Element J) → Ready J
  -- an element with no job is freed, and read once more by `epoll_ctl`
  freed : Ready J
  -- the job to call, and the table that it sees
  run : J → List (Element J) → Ready J

module _ {ℓ} {J : Type ℓ} where
  abbrev pub slot : Op → Element J → JobSlot J
  slot read e = e.on_read
  slot write e = e.on_write

  -- `event.events & OP_FLAGS[op]`
  abbrev pub flag : Op → Element J → Bool
  flag read e = e.events_in
  flag write e = e.events_out

  abbrev pub set_slot : Op → JobSlot J → Element J → Element J
  set_slot read s e = record e { on_read = s }
  set_slot write s e = record e { on_write = s }

  -- `event.events |= OP_FLAGS[op]` and `event.events &= ~OP_FLAGS[op]`
  abbrev pub set_flag : Op → Bool → Element J → Element J
  set_flag read b e = record e { events_in = b }
  set_flag write b e = record e { events_out = b }

  -- `event.events == 0`
  abbrev pub no_events : Element J → Bool
  no_events e = not (e.events_in || e.events_out)

  abbrev empty_slot : JobSlot J
  empty_slot = record { job = none; oneshot = false }

  unfoldable pub io_service_init : ℕ → IoService J
  io_service_init event_fd = record {
    allow_new = true;
    running = false;
    event_fd = event_fd;
    notified = 0;
    lookup_table = [];
  }

  unfoldable pub notify_svc : IoService J → IoService J
  notify_svc s = record s { notified = s.notified + 1 }

  unfoldable pub io_service_stop : Bool → IoService J → IoService J
  unfolding notify_svc
  io_service_stop wait_pending s =
      notify_svc (record s { allow_new = false; running = wait_pending })

  -- the element that a new descriptor gets
  abbrev pub new_element : ℕ → Element J
  new_element fd = record {
    fd = fd;
    events_in = false;
    events_out = false;
    on_read = empty_slot;
    on_write = empty_slot;
  }

  -- `if (lje->job[op].job == NULL) …`, with whether the job was taken
  unfoldable pub post_element : Op → Bool → J → Element J → Element J × Bool
  post_element op oneshot j e = elim ((slot op e).job) [
    | none ↦ (set_slot op (record { job = some j; oneshot = oneshot }) (set_flag op true e), true)
    | some _ ↦ (e, false)
  ]

  -- the search for the first element of `fd`, which is appended if there is none
  unfoldable pub post_table : ℕ → Op → Bool → J → List (Element J) → List (Element J) × Bool
  unfolding post_element
  post_table fd op oneshot j [] =
      let (e, posted) = post_element op oneshot j (new_element fd) in (e ∷ [], posted)
  post_table fd op oneshot j (e ∷ es) =
      let (e', posted) = post_element op oneshot j e in
      let (es', posted_later) = post_table fd op oneshot j es in
      if e.fd == fd then (e' ∷ es, posted) else (e ∷ es', posted_later)

  unfoldable pub io_service_post_job : ℕ → Op → Bool → Option J → IoService J → IoService J
  unfolding post_table notify_svc
  io_service_post_job fd op oneshot none s = s
  io_service_post_job fd op oneshot (some j) s =
      if s.allow_new
      then (let (table, posted) = post_table fd op oneshot j s.lookup_table in
          let s' = record s { lookup_table = table } in
          if posted && s.running then notify_svc s' else s')
      else s

  abbrev pub is_set : Option J → Bool
  is_set none = false
  is_set (some _) = true

  -- `job = NULL` and the flag off; `ctx` and `oneshot` stay
  unfoldable pub remove_element : Op → Element J → Element J
  remove_element op e = set_slot op (record (slot op e) { job = none }) (set_flag op false e)

  -- with `done`
  unfoldable pub remove_table : ℕ → Op → List (Element J) → List (Element J) × Bool
  unfolding remove_element
  remove_table fd op [] = ([], false)
  remove_table fd op (e ∷ es) =
      let (es', done) = remove_table fd op es in
      if e.fd == fd then (remove_element op e ∷ es, is_set ((slot op e).job)) else (e ∷ es', done)

  unfoldable pub io_service_remove_job : ℕ → Op → IoService J → IoService J
  unfolding remove_table notify_svc
  io_service_remove_job fd op s =
      let (table, done) = remove_table fd op s.lookup_table in
      let s' = record s { lookup_table = table } in if done && s.running then notify_svc s' else s'

  -- the pass over the table after a notification: elements with no event are dropped
  unfoldable pub refresh_table : List (Element J) → List (Element J)
  refresh_table [] = []
  refresh_table (e ∷ es) = let es' = refresh_table es in if no_events e then es' else e ∷ es'

  -- the event of `event_fd`: one unit of the semaphore is read, then the test for the end, then the
  -- pass
  unfoldable pub notification : IoService J → IoService J
  unfolding refresh_table
  notification s =
      let empty : Bool = elim (s.lookup_table) [ [] ↦ true | e ∷ es ↦ false ] in
      record s {
        notified = s.notified - 1;
        running = if empty && not s.allow_new then false else s.running;
        lookup_table = refresh_table s.lookup_table;
      }

  -- a `oneshot` slot is cleared, its flag too, and an element with no event left is freed
  unfoldable pub ready_element : Op → Element J → Option J × Option (Element J)
  ready_element op e =
      let job = (slot op e).job in
      let cleared = set_slot op (record (slot op e) { job = none }) (set_flag op false e) in
      if (slot op e).oneshot
      then (job, if no_events cleared then none else some cleared)
      else (job, some e)

  ready_outcome : Option J → Option (Element J) → List (Element J) → Ready J
  ready_outcome (some j) none es = run j es
  ready_outcome (some j) (some e) es = run j (e ∷ es)
  ready_outcome none none es = freed
  ready_outcome none (some e) es = idle (e ∷ es)

  -- an element in front of those that the search passes
  behind : Element J → Ready J → Ready J
  behind e unknown = unknown
  behind e (idle es) = idle (e ∷ es)
  behind e freed = freed
  behind e (run j es) = run j (e ∷ es)

  -- the search of `io_service_run` for the first element of `fd`, and the `if (le)` behind it
  unfoldable pub ready_table : ℕ → Op → List (Element J) → Ready J
  unfolding ready_element ready_outcome behind
  ready_table fd op [] = unknown
  ready_table fd op (e ∷ es) =
      let (job, left) = ready_element op e in
      let here = ready_outcome job left es in
      let later = behind e (ready_table fd op es) in if e.fd == fd then here else later

-- What `epoll_wait` returns: an error, the event of `event_fd`, or the flags of a descriptor.
pub data Event : Type 0 where
  failed : Event
  signalled : Event
  ready : ℕ → Bool → Bool → Event

-- `call` is what a job does to the service and to the rest of the world.
module _ {ℓ} {J S : Type ℓ} (call : J → IoService J → S → Option (IoService J × S)) where
  -- one round of `for (op = 0; op < IO_SVC_OP_COUNT; ++op)`; `none` is a read of freed memory
  unfoldable pub ready_op : ℕ → Op → Bool → IoService J → S → Option (IoService J × S)
  unfolding ready_table
  ready_op fd op false s w = some (s, w)
  ready_op fd op true s w = elim (ready_table fd op s.lookup_table) [
    | unknown ↦ some (s, w)
    | idle es ↦ some (record s { lookup_table = es }, w)
    | freed ↦ none
    | run j es ↦ call j (record s { lookup_table = es }) w
  ]

  -- one round of `while (*running)`
  unfoldable pub io_service_step : Event → IoService J → S → Option (IoService J × S)
  unfolding ready_op notification
  io_service_step failed s w = some (s, w)
  io_service_step signalled s w = some (notification s, w)
  io_service_step (ready fd in_ready out_ready) s w = do
    (s', w') ← ready_op fd read in_ready s w
    ready_op fd write out_ready s' w'

  -- the loop, over the events that `epoll_wait` returns
  unfoldable pub io_service_loop : List Event → IoService J → S → Option (IoService J × S)
  unfolding io_service_step
  io_service_loop [] s w = some (s, w)
  io_service_loop (e ∷ es) s w =
      let rest = io_service_step e s w >>= (λ p. io_service_loop es p.0 p.1) in
      if s.running then rest else some (s, w)

  unfoldable pub io_service_run : List Event → IoService J → S → Option (IoService J × S)
  unfolding io_service_loop
  io_service_run es s w = io_service_loop es (record s { running = true }) w
