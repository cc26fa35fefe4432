-- ===== src/Shell/Clients.antt =====
-- supertel/task2/src/shell.c: the drivers that the shell is connected to, in an AVL tree of lists over
-- the hash of their name and slot, and what it prints of them. A list is the sequence of its elements.
use interview.Base.{
  ℕ, ◌-◌, ◌^◌, not, ◌&&◌, Option, none, some, List, [], ◌∷◌, ◌++◌, length, ltb, ◌==◌, if◌then◌else◌,
}
use interview.Base.Int.{ℤ, pos, negsuc}
use interview.Base.Text.{codes, c_string, strncmp_zero, unsigned_text}
use interview.HashFunctions.{hash_pearson}
use interview.AvlTree.{Tree, leaf, node, AvlTree}

-- `shell_driver_command_t`: the name and the description are arrays of 7 and 256 bytes
pub record ShellDriverCommand : Type 0 where
  pub name : List ℕ
  pub arity : ℕ
  pub descr : List ℕ

-- `shell_driver_t`, with `usc` as an address
pub record ShellDriver : Type 0 where
  pub name : List ℕ
  pub slot : ℕ
  pub commands : List ShellDriverCommand
  pub usc : ℕ

-- `shell_t`: what is printed so far, and the calls of `unix_socket_client_send` so far
pub record ShellState : Type 0 where
  pub clients : AvlTree (List ShellDriver)
  pub output : List ℕ
  pub sent : List (ℕ × List ℕ)

-- a `hash_t` has a sign
unfoldable pub hash_value : ℕ → ℤ
hash_value h = if ltb h (2 ^ 63) then pos h else negsuc (2 ^ 64 - 1 - h)

-- the hash of `DRIVER_SLOT_ID`, which is not empty
unfoldable pub driver_hash : (name : List ℕ) → (slot : ℕ) → ℤ
driver_hash name slot = elim (hash_pearson (name ++ unsigned_text slot)) [
  | none ↦ pos 0
  | some h ↦ hash_value h
]

-- the loop of `cmd_cmd` over a list of drivers
unfoldable pub find_driver : (drv : List ℕ) → (slot : ℕ) → List ShellDriver → Option ShellDriver
find_driver drv slot [] = none
find_driver drv slot (sd ∷ l) =
    let rest = find_driver drv slot l in
    if not (length sd.name == length drv)
    then rest
    else if strncmp_zero (length drv) sd.name drv && sd.slot == slot
    then some sd
    else rest

unfoldable pub print : List ℕ → ShellState → ShellState
print text sh = record sh { output = sh.output ++ text }

-- `finish_cmd`
unfoldable pub finish_cmd : ShellState → ShellState
unfolding print
finish_cmd sh = print (codes "> ") sh

unfoldable pub cmd_help : ShellState → ShellState
unfolding print finish_cmd
cmd_help sh = finish_cmd (
    print
      (codes "Commands:\n"
        ++ codes "list --- list all drivers\n"
        ++ codes "help --- print this message\n"
        ++ codes "cmd drv slot drv_cmd ... --- send command "
        ++ codes "drv_cmd to driver drv at slot with arguments\n")
      sh)

unfoldable pub cmd_invalid : ShellState → ShellState
unfolding print finish_cmd
cmd_invalid sh = finish_cmd (print (codes "Invalid command\n") sh)

unfoldable pub command_lines : List ShellDriverCommand → List ℕ
command_lines [] = []
command_lines (sdc ∷ sdcs) =
    c_string sdc.name
    ++ codes " <arity: "
    ++ unsigned_text sdc.arity
    ++ codes "> --- "
    ++ c_string sdc.descr
    ++ codes "\n"
    ++ command_lines sdcs

unfoldable pub driver_lines : List ShellDriver → List ℕ
unfolding command_lines
driver_lines [] = []
driver_lines (sd ∷ l) =
    codes "\nDriver: "
    ++ sd.name
    ++ codes "\nSlot: "
    ++ unsigned_text sd.slot
    ++ codes "\n"
    ++ command_lines sd.commands
    ++ driver_lines l

-- `print_drv`: the subtrees first
unfoldable pub print_drv : Tree (List ShellDriver) → List ℕ
unfolding driver_lines
print_drv leaf = []
print_drv (node l n r) = print_drv l ++ print_drv r ++ driver_lines n.payload

unfoldable pub cmd_list : ShellState → ShellState
unfolding print print_drv finish_cmd
cmd_list sh = finish_cmd (print (print_drv sh.clients.root) sh)
