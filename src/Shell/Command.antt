-- ===== src/Shell/Command.antt =====
-- supertel/task2/src/shell.c: a command line, and the packet that it sends to a driver.
use interview.Base.{
  ℕ, zero, suc, ◌+◌, ◌%◌, ◌^◌, Bool, not, ◌&&◌, Option, none, some, List, [], ◌∷◌, ◌++◌, length,
  ltb, ◌==◌, if◌then◌else◌,
}
use interview.Base.Text.{codes, c_string, strncmp_zero}
use interview.AvlTree.{avl_tree_get}
use interview.DriverCore.{pr_drv_command}
use interview.Shell.Tokens.{strtok, strtoul}
use interview.Shell.Clients.{
  ShellDriverCommand, ShellDriver, ShellState, driver_hash, find_driver, cmd_list, cmd_help,
  cmd_invalid,
}

-- the first command with the name, compared by at most 6 bytes, and its index behind `idx`
unfoldable pub find_command :
    (cmd : List ℕ) → List ShellDriverCommand → (idx : ℕ) → Option (ℕ × ShellDriverCommand)
find_command cmd [] idx = none
find_command cmd (sdc ∷ sdcs) idx =
    let rest = find_command cmd sdcs (idx + 1) in
    if strncmp_zero 6 sdc.name cmd then some (idx, sdc) else rest

-- the arguments, each behind its length
unfoldable pub packet_arguments : List (List ℕ) → List ℕ
packet_arguments [] = []
packet_arguments (arg ∷ args) = (length arg % 256) ∷ (arg ++ packet_arguments args)

-- `pr_driver_command_t` and its arguments, which have at most 255 bytes
unfoldable pub command_packet : (cmd_idx : ℕ) → List (List ℕ) → List ℕ
command_packet cmd_idx args =
    pr_drv_command ∷ (cmd_idx % 256) ∷ (length args % 256) ∷ packet_arguments args

unfoldable pub send_command : (cmd : List ℕ) → List (List ℕ) → ShellDriver → ShellState → ShellState
unfolding find_command command_packet
send_command cmd args sd sh = elim (find_command cmd sd.commands 0) [
  | none ↦ cmd_invalid sh
  | some (cmd_idx, sdc) ↦
      if ltb sdc.arity (length args)
      then cmd_invalid sh
      else record sh { sent = sh.sent ++ (sd.usc, command_packet cmd_idx args) ∷ [] }
]

unfoldable pub cmd_cmd :
    (drv : List ℕ) → (slot : ℕ) → (cmd : List ℕ) → List (List ℕ) → ShellState → ShellState
unfolding find_driver send_command
cmd_cmd drv slot cmd args sh = elim (avl_tree_get sh.clients (driver_hash drv slot)) [
  | none ↦ cmd_invalid sh
  | some atn ↦ elim (find_driver drv slot atn.payload) [
    | none ↦ cmd_invalid sh
    | some sd ↦ send_command cmd args sd sh
  ]
]

-- `while (token)`: the arguments to the end of the line, or `none` where one is too long; each round
-- takes a byte at least, and `rounds` is one more than the bytes
unfoldable pub read_arguments : (rounds : ℕ) → List ℕ → Option (List (List ℕ))
read_arguments zero s = some []
read_arguments (suc rounds) s = elim (strtok s) [
  | none ↦ some []
  | some (token, rest) ↦
      let args : Option (List (List ℕ)) = elim (read_arguments rounds rest) [
        | none ↦ none
        | some later ↦ some (token ∷ later)
      ] in
      if ltb 255 (length token) then none else args
]

unfoldable pub run_cmd : (drv slot drv_cmd rest : List ℕ) → ShellState → ShellState
unfolding read_arguments cmd_cmd
run_cmd drv slot drv_cmd rest sh =
    let (slot_number, behind) = strtoul slot in
    if not (length behind == 0)
    then cmd_invalid sh
    else elim (read_arguments (suc (length rest)) rest) [
      | none ↦ cmd_invalid sh
      | some args ↦ cmd_cmd drv (slot_number % 2 ^ 32) drv_cmd args sh
    ]

-- `drv`, `slot` and `drv_cmd`, where all are there
unfoldable pub three_tokens : List ℕ → Option (List ℕ × List ℕ × List ℕ × List ℕ)
three_tokens s = elim (strtok s) [
  | none ↦ none
  | some (drv, s1) ↦ elim (strtok s1) [
    | none ↦ none
    | some (slot, s2) ↦ elim (strtok s2) [
      | none ↦ none
      | some (drv_cmd, s3) ↦ some (drv, slot, drv_cmd, s3)
    ]
  ]
]

-- `streq`
abbrev pub streq : List ℕ → List ℕ → Bool
streq a b = length a == length b && strncmp_zero (length a) a b

-- `line` is what stands before the newline
unfoldable pub run_command_from_input : (line : List ℕ) → ShellState → ShellState
unfolding run_cmd three_tokens
run_command_from_input line sh = elim (strtok (c_string line)) [
  | none ↦ cmd_invalid sh
  | some (cmd, rest) ↦
      if streq (codes "list") cmd
      then cmd_list sh
      else if streq (codes "help") cmd
      then cmd_help sh
      else if not (streq (codes "cmd") cmd)
      then cmd_invalid sh
      else elim (three_tokens rest) [
        | none ↦ cmd_invalid sh
        | some (drv, slot, drv_cmd, s) ↦ run_cmd drv slot drv_cmd s sh
      ]
]
