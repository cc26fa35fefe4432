-- ===== src/Examples/Shells.antt =====
-- The shell of supertel/task2 with the driver "one" in slot 3.
use interview.Base.{
  inr, ℕ, zero, suc, length, ap, sym, ◌≡◌, refl, Bool, true, none, some, List, [], ◌∷◌, ◌++◌, map,
  take, arith,
}
use mathlib.Core.Path.{subst}
use interview.DriverCore.Greeting.{length-command_infos}
use interview.Base.Int.{ℤ}
use interview.Base.Text.{codes, unsigned_text, print_digits, strncmp_zero}
use interview.AvlTree.{Node, leaf, node, avl_tree_get, get_loop}
use interview.AvlTree.Keys.{lookup}
use interview.HashFunctions.{hash_pearson, hash_loop, hash_byte, mix}
use interview.DriverCore.{DriverCommand, response_header, greeting}
use interview.DriverPayloads.{driver_payload_one, one_o2, one_o2_message}
use interview.Shell.SocketName.{socket_name, parse_unix_socket_name_}
use interview.Shell.SocketName.RoundTrip.{Lacks, parse_unix_socket_name-socket_name}
use interview.Shell.Input.Lines.{feed, waiting, joined, handle_chunks, handle_chunks-feed}
use interview.Shell.Clients.{ShellDriver, ShellState, driver_hash, hash_value, find_driver}
use interview.Shell.Command.{find_command, cmd_cmd, run_command_from_input}
use interview.Shell.Typed.{cmd_line, run_command-cmd_line}
use interview.Shell.Replies.{connector, heard, learned, InputEvent, listen}
use interview.Shell.Replies.Greeting.{learn, listen-greeting}
use interview.UnixSocketServer.Receive.{received}
use interview.UnixSocketServer.Receive.Arrival.{Arrives, arrived, more}
use interview.Shell.Replies.Response.{ComeWhole}
use interview.Shell.Dialogue.{IsAnswered, cmd_line-IsAnswered}
use interview.Shell.Directory.{Clients, Allocation, base_dir_smth_created, base_dir_smth_deleted}
use interview.AvlTree.Write.{or_else}
use interview.Shell.Directory.Created.{
  IsRegistry, drivers_at, Created, driver_of, base_dir_smth_created-Created,
}
use interview.Shell.Directory.Listed.{base_dir_smth_deleted-created}
use interview.Shell.Directory.Searched.{search, base_dir_smth_created-search}

abbrev one : List ℕ
one = codes "one"

parse_unix_socket_name-socket_name_example :
    (parse_unix_socket_name_ (socket_name one 3)
      ≡ some (record { driver_name = socket_name one 3; driver_name_len = 3; slot_number = 3 }))
    × (take 3 (socket_name one 3) ≡ one)
parse_unix_socket_name-socket_name_example =
    parse_unix_socket_name-socket_name one 3 (refl, (refl, (refl, tt))) (refl, (refl, (refl, tt)))
      (omega arith) (omega arith)

-- a shell that keeps the lines
abbrev keep : List ℕ → List (List ℕ) → List (List ℕ)
keep line lines = lines ++ line ∷ []

-- "list" and "help", in three pieces, and the start of a line
abbrev pieces : List (List ℕ)
pieces = codes "li" ∷ codes "st\nhel" ∷ codes "p\ncm" ∷ []

kept : feed keep (joined keep pieces) [] [] ≡ (codes "cm", codes "list" ∷ codes "help" ∷ [])
unfolding feed
kept = refl

handle_chunks-feed_example :
    handle_chunks keep pieces (record { content = []; offset = 0 }) []
    ≡ waiting keep (feed keep (joined keep pieces) [] [])
handle_chunks-feed_example = handle_chunks-feed keep pieces []

abbrev one_at_slot : ShellDriver
one_at_slot = record { name = one; slot = 3; commands = map learn driver_payload_one; usc = 40 }

abbrev home : Node (List ShellDriver)
home = record {
  id = 20;
  parent = 0;
  height = 1;
  key = driver_hash one 3;
  payload = one_at_slot ∷ [];
}

abbrev shell : ShellState
shell = record {
  clients = record { count = 1; root = node leaf home leaf };
  output = [];
  sent = [];
}

run_command-cmd_line_example :
    run_command_from_input (cmd_line one 3 (codes "o2") (codes "a" ∷ codes "bc" ∷ [])) shell
    ≡ cmd_cmd one 3 (codes "o2") (codes "a" ∷ codes "bc" ∷ []) shell
run_command-cmd_line_example =
    run_command-cmd_line one 3 (codes "o2") (codes "a" ∷ codes "bc" ∷ [])
      (((refl, refl), ((refl, refl), ((refl, refl), tt))), omega arith) (omega arith)
      (((refl, refl), ((refl, refl), tt)), omega arith)
      ((
        ((((refl, refl), tt), omega arith), omega arith),
        (((((refl, refl), ((refl, refl), tt)), omega arith), omega arith), tt),
      ))
      shell

-- an event at which `n` bytes and one are there, in memory that holds sevens
abbrev sevens : ℕ → List ℕ
sevens zero = []
sevens (suc m) = 7 ∷ sevens m

abbrev event : ℕ → InputEvent
event n = record { pending = suc n; answers = received (suc n) ∷ []; room = sevens }

length-sevens : (n : ℕ) → length (sevens n) ≡ n
length-sevens zero = refl
length-sevens (suc n) = ap suc (length-sevens n)

event-ComeWhole : (ns : List ℕ) → ComeWhole (map suc ns) (map event ns)
event-ComeWhole [] = tt
event-ComeWhole (n ∷ ns) = (
  omega arith,
  subst (Arrives [] (received (suc n) ∷ [])) (omega arith) (more n arrived),
  length-sevens (suc n),
  event-ComeWhole ns,
)

listen-greeting_example :
    listen (event 0 ∷ event 0 ∷ event 785 ∷ []) connector [] (greeting driver_payload_one ++ 2 ∷ [])
    ≡ some (heard (learned (map learn driver_payload_one)))
listen-greeting_example =
    listen-greeting driver_payload_one (omega arith, (omega arith, (omega arith, tt))) (2 ∷ [])
      (event 0 ∷ event 0 ∷ event 785 ∷ []) (omega arith)
      (subst (λ n. ComeWhole (1 ∷ 1 ∷ n ∷ []) (event 0 ∷ event 0 ∷ event 785 ∷ []))
        (sym (length-command_infos driver_payload_one)) (event-ComeWhole (0 ∷ 0 ∷ 785 ∷ [])))

shell-get : avl_tree_get shell.clients (driver_hash one 3) ≡ some home
unfolding avl_tree_get get_loop driver_hash hash_value hash_pearson hash_loop hash_byte mix
    unsigned_text print_digits
shell-get = refl

shell-find : find_driver one 3 home.payload ≡ some one_at_slot
unfolding find_driver strncmp_zero
shell-find = refl

abbrev second_of : List DriverCommand → DriverCommand
second_of (c ∷ d ∷ cs) = d
second_of cs = record { name = []; description = []; max_arity = 0; handler = one_o2 }

abbrev command_o2 : DriverCommand
command_o2 = second_of driver_payload_one

shell-command :
    find_command (codes "o2") (map learn driver_payload_one) 0 ≡ some (1, learn command_o2)
unfolding find_command learn strncmp_zero
shell-command = refl

o2-message :
    (argv : List (List ℕ))
    → command_o2.handler 1 argv response_header ≡ response_header ++ one_o2_message argv
unfolding one_o2
o2-message argv = refl

-- the events of the two answers
abbrev to_none : List InputEvent
to_none = event 0 ∷ event 3 ∷ event 23 ∷ []

abbrev to_abc : List InputEvent
to_abc = event 0 ∷ event 3 ∷ event 22 ∷ []

cmd_line-IsAnswered_example :
    IsAnswered shell one_at_slot driver_payload_one 1 command_o2 one_o2_message one 3
      (codes "o2")
      to_none
      []
    × IsAnswered shell one_at_slot driver_payload_one 1 command_o2 one_o2_message one 3
        (codes "o2")
        to_abc
        (codes "abc" ∷ [])
cmd_line-IsAnswered_example =
    cmd_line-IsAnswered shell one_at_slot driver_payload_one 1 command_o2 one_o2_message one 3
      (codes "o2") home (learn command_o2)
      (((refl, refl), ((refl, refl), ((refl, refl), tt))), omega arith) (omega arith)
      (((refl, refl), ((refl, refl), tt)), omega arith) shell-get shell-find refl (omega arith)
      shell-command refl (codes "abc") to_none to_abc (omega arith) o2-message (omega arith)
      (omega arith) ((((refl, refl), ((refl, refl), ((refl, refl), tt))), omega arith), omega arith)
      (event-ComeWhole (0 ∷ 3 ∷ 23 ∷ [])) (event-ComeWhole (0 ∷ 3 ∷ 22 ∷ []))

-- a shell with no clients, for which memory is got
abbrev none_yet : Clients
none_yet = record { count = 0; root = leaf }

abbrev memory : Clients → Allocation
memory clients = record {
  node_address = 9;
  node_garbage = [];
  usc = some 41;
  commands_garbage = [];
}

abbrev is_any : List ℕ → Bool
is_any name = true

none_yet-IsRegistry : IsRegistry none_yet
none_yet-IsRegistry = record {
  valid = record { avl = tt; sorted = tt; counted = refl; small = omega arith };
  unique = tt;
  distinct = tt;
}

abbrev no_nul : Lacks 0 one
no_nul = (refl, (refl, (refl, tt)))

base_dir_smth_created-Created_example :
    (after : Clients) × (base_dir_smth_created is_any memory (socket_name one 3) none_yet
      ≡ some after)
    × Created one 3 no_nul (memory none_yet) 41 none_yet after
base_dir_smth_created-Created_example =
    base_dir_smth_created-Created is_any memory one 3 41 none_yet no_nul refl
      (refl, (refl, (refl, tt))) (refl, (refl, (refl, tt))) (omega arith) (omega arith)
      none_yet-IsRegistry (λ e. absurd (omega (arith, e))) tt (omega arith) refl

appeared :
    (after : Clients) × (base_dir_smth_created is_any memory (socket_name one 3) none_yet
      ≡ some after)
    × Created one 3 no_nul (memory none_yet) 41 none_yet after
appeared =
    base_dir_smth_created-Created is_any memory one 3 41 none_yet no_nul refl
      (refl, (refl, (refl, tt))) (refl, (refl, (refl, tt))) (omega arith) (omega arith)
      none_yet-IsRegistry (λ e. absurd (omega (arith, e))) tt (omega arith) refl

none_before : find_driver one 3 (or_else [] (drivers_at (driver_hash one 3) none_yet)) ≡ none
unfolding lookup find_driver
none_before = refl

none_searched : search one 3 none_yet ≡ none
unfolding avl_tree_get get_loop find_driver
none_searched = refl

base_dir_smth_created-search_example :
    (after : Clients) × (base_dir_smth_created is_any memory (socket_name one 3) none_yet
      ≡ some after)
    × (search one 3 after ≡ some (driver_of one 3 no_nul (memory none_yet) 41))
    × (search one 4 after ≡ search one 4 none_yet)
base_dir_smth_created-search_example =
    base_dir_smth_created-search is_any memory one 3 41 none_yet no_nul one 4 refl
      (refl, (refl, (refl, tt))) (refl, (refl, (refl, tt))) (omega arith) (omega arith)
      none_yet-IsRegistry (λ e. absurd (omega (arith, e))) tt (omega arith) refl none_searched
      (inr (λ e. absurd (omega (arith, e))))

base_dir_smth_deleted-created_example :
    IsRegistry (base_dir_smth_deleted (socket_name one 3) (appeared.0))
    × ((k : ℤ)
        → or_else [] (drivers_at k (base_dir_smth_deleted (socket_name one 3) (appeared.0)))
          ≡ or_else [] (drivers_at k none_yet))
base_dir_smth_deleted-created_example =
    base_dir_smth_deleted-created one 3 no_nul (memory none_yet) 41 none_yet (appeared.0)
      (appeared.2) (refl, (refl, (refl, tt))) (refl, (refl, (refl, tt))) (omega arith) (omega arith)
      none_before
