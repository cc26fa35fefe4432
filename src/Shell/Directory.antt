-- ===== src/Shell/Directory.antt =====
-- supertel/task2/src/shell.c: the sockets of the base directory, as they are found, appear and vanish. The
-- clients are an AVL tree of lists. `none` is an abort, or a read behind the data.
pub mod Created
pub mod Listed
pub mod Searched
pub mod Rounds
use interview.Base.{
  ℕ, zero, suc, ◌+◌, ◌*◌, ◌/◌, ◌%◌, ◌^◌, Bool, true, false, not, ◌&&◌, Option, none, some, List, [],
  ◌∷◌, ◌++◌, map, length, take, drop, ltb, ◌==◌, if◌then◌else◌, ◌>>=◌,
}
use interview.Base.Text.{codes, c_string, strncmp_zero}
use interview.AvlTree.{Tree, leaf, node, AvlTree, avl_tree_get, avl_tree_add_or_get}
use interview.AvlTree.Data.{update_data, data_at}
use interview.DriverCore.{element}
use interview.Shell.Clients.{ShellDriverCommand, ShellDriver, driver_hash}
use interview.Shell.SocketName.{
  EntryType, DriverDescription, parse_unix_socket_name_, socket_name_filter,
}

abbrev pub Clients : Type 0
Clients = AvlTree (List ShellDriver)

-- the memory of a tree's node, with what stands in it, and of a driver in a list, whose `commands` are
-- not set; `usc` is `none` where the socket is not opened
pub record Allocation : Type 0 where
  pub node_address : ℕ
  pub node_garbage : List ShellDriver
  pub usc : Option ℕ
  pub commands_garbage : List ShellDriverCommand

abbrev pub name_of : DriverDescription → List ℕ
name_of dd = take dd.driver_name_len dd.driver_name

-- `strncmp(sd->name, dd.driver_name, name_len)`, where `name_len` is that of the file
unfoldable pub find_duplicate : DriverDescription → (name_len : ℕ) → List ShellDriver → Bool
find_duplicate dd name_len [] = false
find_duplicate dd name_len (sd ∷ l) =
    let rest = find_duplicate dd name_len l in
    if not (length sd.name == dd.driver_name_len)
    then rest
    else if strncmp_zero name_len sd.name dd.driver_name && sd.slot == dd.slot_number
    then true
    else rest

unfoldable pub new_driver : DriverDescription → ℕ → Allocation → ShellDriver
new_driver dd usc a = record {
  name = name_of dd;
  slot = dd.slot_number;
  commands = a.commands_garbage;
  usc = usc;
}

-- the driver joins the list of the node at the address `id`
unfoldable pub append_driver :
    DriverDescription → (name_len : ℕ) → Allocation → (id : ℕ) → Clients → Option Clients
unfolding data_at find_duplicate new_driver
append_driver dd name_len a id t = do
  l ← data_at id t.root
  usc ← if find_duplicate dd name_len l then none else a.usc
  some (record t { root = update_data id (λ old. old ++ new_driver dd usc a ∷ []) t.root })

unfoldable pub add_client :
    DriverDescription → (name_len : ℕ) → Allocation → Clients → Option Clients
unfolding append_driver
add_client dd name_len a clients = do
  (t, id, inserted) ←
      avl_tree_add_or_get a.node_address a.node_garbage clients
        (driver_hash (name_of dd) dd.slot_number)
  append_driver dd name_len a id
      (if inserted then record t { root = update_data id (λ old. []) t.root } else t)

-- `list_remove_and_advance` on the first driver with the name and the slot
unfoldable pub remove_driver : DriverDescription → List ShellDriver → Option (List ShellDriver)
remove_driver dd [] = none
remove_driver dd (sd ∷ l) =
    let rest : Option (List ShellDriver) = remove_driver dd l >>= λ left. some (sd ∷ left) in
    if not (length sd.name == dd.driver_name_len)
    then rest
    else if strncmp_zero (length sd.name) sd.name dd.driver_name && sd.slot == dd.slot_number
    then some l
    else rest

unfoldable pub remove_client : DriverDescription → Clients → Clients
unfolding remove_driver
remove_client dd clients = elim (avl_tree_get clients (driver_hash (name_of dd) dd.slot_number)) [
  | none ↦ clients
  | some atn ↦ elim (remove_driver dd atn.payload) [
    | none ↦ clients
    | some l ↦ record clients { root = update_data atn.id (λ old. l) clients.root }
  ]
]

unfoldable pub base_dir_smth_deleted : List ℕ → Clients → Clients
unfolding remove_client
base_dir_smth_deleted name clients = elim (parse_unix_socket_name_ name) [
  | none ↦ clients
  | some dd ↦ remove_client dd clients
]

-- `purge_clients_list`: the sockets that are closed
unfoldable pub purge_clients_list : Tree (List ShellDriver) → List ℕ
purge_clients_list leaf = []
purge_clients_list (node l n r) =
    purge_clients_list l ++ purge_clients_list r ++ map (λ sd. sd.usc) n.payload

-- the path that `shell_init` keeps, without a slash at its end
unfoldable pub shell_base_path : List ℕ → List ℕ
shell_base_path [] = codes "."
shell_base_path (c ∷ s) = elim (element (c ∷ s) (length s)) [
  | none ↦ c ∷ s
  | some last ↦ if last == b'/' then take (length s) (c ∷ s) else c ∷ s
]

-- `is_socket` is what `stat` tells of a name, and `allocate` the memory that is got when the clients are
-- these
module _ (is_socket : List ℕ → Bool) (allocate : Clients → Allocation) where
  unfoldable pub base_dir_smth_created : List ℕ → Clients → Option Clients
  unfolding add_client
  base_dir_smth_created name clients =
      if not (is_socket name) then some clients else elim (parse_unix_socket_name_ name) [
        | none ↦ some clients
        | some dd ↦ add_client dd (length name) (allocate clients) clients
      ]

  -- the entries of the directory, in the order of `scandir`
  unfoldable pub connect_to_all_existing_sockets :
      List (EntryType × List ℕ) → Clients → Option Clients
  unfolding base_dir_smth_created
  connect_to_all_existing_sockets [] clients = some clients
  connect_to_all_existing_sockets ((type, name) ∷ entries) clients = do
    next ← if socket_name_filter type name then base_dir_smth_created name clients else some clients
    connect_to_all_existing_sockets entries next

  -- an event of `inotify` at the front of the bytes, with its size; `running` becomes false where the
  -- directory itself is deleted
  unfoldable pub base_dir_single_event : List ℕ → Clients → Option (ℕ × Bool × Clients)
  unfolding base_dir_smth_created base_dir_smth_deleted
  base_dir_single_event event clients = do
    mask ← element event 5
    l0 ← element event 12
    l1 ← element event 13
    l2 ← element event 14
    l3 ← element event 15
    let len = l0 + l1 * 2 ^ 8 + l2 * 2 ^ 16 + l3 * 2 ^ 24 in
        let name = if len == 0 then [] else c_string (take len (drop 16 event)) in
        let after : Option Clients =
          if mask % 2 == 1 then base_dir_smth_created name clients else some clients in
        after >>= λ next. some (
          16 + len,
          not (mask / 4 % 2 == 1),
          if mask / 2 % 2 == 1 then base_dir_smth_deleted name next else next,
        )

  -- the loop over the bytes that `base_dir_event` has read, which takes 16 of them at least a round
  unfoldable pub base_dir_events : (rounds : ℕ) → List ℕ → Clients → Option (Bool × Clients)
  unfolding base_dir_single_event
  base_dir_events zero events clients = some (true, clients)
  base_dir_events (suc rounds) events clients =
      let step : Option (Bool × Clients) = base_dir_single_event events clients >>= λ result.
      (if result.1
        then base_dir_events rounds (drop result.0 events) result.2
        else some (false, result.2)) in
      if length events == 0 then some (true, clients) else step
