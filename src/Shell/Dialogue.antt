-- ===== src/Shell/Dialogue.antt =====
-- A command from the operator's line to the printed answer: the shell's line, its packet, the driver's
-- readers, the handler, and the shell's readers.
use interview.Base.{
  ℕ, suc, ◌+◌, ◌%◌, ◌^◌, ◌<◌, ◌≤◌, ◌≡◌, refl, sym, ap, ◌∙◌, false, inl, inr, some, List, [], ◌∷◌,
  ◌++◌, append-nil, map, length, ltb, arith, Bool-cases, some_inj,
}
use interview.Base.Text.{codes, c_string, strncmp_zero}
use interview.AvlTree.{Node, avl_tree_get}
use interview.DriverCore.{DriverCommand, element, response_header, start}
use interview.DriverCore.Serve.{serve, answered}
use interview.DriverPayloads.Answers.{framed, command-answered}
use interview.Shell.Tokens.Words.{IsWord}
use interview.Shell.Clients.{ShellDriverCommand, ShellDriver, ShellState, driver_hash, find_driver}
use interview.Shell.Command.{
  find_command, packet_arguments, command_packet, send_command, cmd_cmd, run_command_from_input,
}
use interview.Shell.Replies.{connector, heard, printed, InputEvent, listen}
use interview.Shell.Replies.Greeting.{learn}
use interview.Shell.Replies.Response.{ComeWhole, listen-framed}
use interview.Shell.Typed.{IsArgument, cmd_line, run_command-cmd_line}

-- the driver's command at the index that the shell finds among those that it has learned
record Known (cs : List DriverCommand) (k i : ℕ) (sdc : ShellDriverCommand) : Type 0 where
  at : ℕ
  command : DriverCommand
  index : i ≡ k + at
  inside : at < length cs
  stands : element cs at ≡ some command
  same : sdc ≡ learn command

Known-next :
    (c : DriverCommand) (cs : List DriverCommand) (k i : ℕ) (sdc : ShellDriverCommand)
    → Known cs (k + 1) i sdc
    → Known (c ∷ cs) k i sdc
Known-next c cs k i sdc n = record {
  at = suc n.at;
  command = n.command;
  index = omega (arith, n.index);
  inside = omega (arith, n.inside);
  stands = n.stands;
  same = n.same;
}

find_command-Known :
    (cmd : List ℕ) (cs : List DriverCommand) (k i : ℕ) (sdc : ShellDriverCommand)
    → find_command cmd (map learn cs) k ≡ some (i, sdc)
    → Known cs k i sdc
unfolding find_command
find_command-Known cmd [] k i sdc e = cc
find_command-Known cmd (c ∷ cs) k i sdc e = elim (Bool-cases (strncmp_zero 6 (learn c).name cmd)) [
  | inl here ↦
      let found = some_inj (rw here at e) in
      record {
        at = 0;
        command = c;
        index = omega (arith, ap (λ p. p.0) found);
        inside = omega arith;
        stands = refl;
        same = sym (ap (λ p. p.1) found);
      }
  | inr later ↦ Known-next c cs k i sdc (find_command-Known cmd cs (k + 1) i sdc (rw later at e))
]

module _ (sh : ShellState) (sd : ShellDriver) (cs : List DriverCommand) (idx : ℕ)
    (c : DriverCommand) (message : List (List ℕ) → List ℕ) (drv : List ℕ) (slot : ℕ)
    (cmd : List ℕ) where
  -- the line with these arguments sends a packet, for which the driver answers a response, of which the
  -- shell prints the message
  abbrev pub IsAnswered : List InputEvent → List (List ℕ) → Type 0
  IsAnswered events args =
      (rest : List ℕ) × (run_command_from_input (cmd_line drv slot cmd args) sh
        ≡ record sh { sent = sh.sent ++ (sd.usc, 1 ∷ rest) ∷ [] })
      × ((rounds : ℕ)
          → serve (suc (suc (suc (suc rounds)))) cs (1 ∷ []) rest start
            ≡ some (answered (framed (message args))))
      × ((more : List ℕ)
          → listen events connector [] (framed (message args) ++ more)
            ≡ some (heard (printed (c_string (message args) ++ codes "\n> "))))

  module _ (atn : Node (List ShellDriver)) (sdc : ShellDriverCommand) (drv_word : IsWord drv)
      (small : slot < 2 ^ 32) (cmd_word : IsWord cmd)
      (get : avl_tree_get sh.clients (driver_hash drv slot) ≡ some atn)
      (listed : find_driver drv slot atn.payload ≡ some sd) (commands : sd.commands ≡ map learn cs)
      (few : length cs ≤ 255) (named : find_command cmd (map learn cs) 0 ≡ some (idx, sdc))
      (stands : element cs idx ≡ some c) where
    cmd_cmd-packet :
        (args : List (List ℕ))
        → length args ≤ sdc.arity
        → cmd_cmd drv slot cmd args sh
          ≡ record sh { sent = sh.sent ++ (sd.usc, command_packet idx args) ∷ [] }
    unfolding cmd_cmd send_command
    cmd_cmd-packet args enough =
        let fits : ltb sdc.arity (length args) ≡ false = ground (arith, enough) in
        let found = ap (λ l. find_command cmd l 0) commands ∙ named in
        rw (get, cmd_cmd) (rw (listed, cmd_cmd) (rw (found, send_command) (rw fits refl)))

    known : (idx < 256) × (sdc.arity ≡ c.max_arity)
    unfolding learn
    known =
        let k = find_command-Known cmd cs 0 idx sdc named in
        let here : idx ≡ k.at = omega (arith, k.index) in
        let one : k.command ≡ c = some_inj (sym k.stands ∙ ap (element cs) (sym here) ∙ stands) in
        (omega (arith, k.inside, here, few), ap (λ s. s.arity) k.same ∙ ap (λ d. d.max_arity) one)

    -- A line for a driver that the shell is connected to, and whose commands it has learned from the
    -- greeting, is answered from end to end: `cmd`, the driver's name, its slot, the name of a command
    -- that the driver has, and no argument or one of at most 255 bytes, all of them words. The shell
    -- sends one packet to the driver; the driver's readers answer this packet by the message of the
    -- command's handler for the very arguments that were typed; and the shell's readers, called by the
    -- client's `data_may_be_read` at the events of the input, print the message. The command takes an
    -- argument, its handler appends the message to the response, which has less than 2 ^ 31 bytes for
    -- these arguments, and the driver has at most 255 commands. The signature of the answer, its
    -- length and the message are each there whole at the event at which the shell awaits them.
    pub cmd_line-IsAnswered :
        (arg : List ℕ) (events_empty events : List InputEvent)
        → 0 < c.max_arity
        → ((argv : List (List ℕ))
            → c.handler idx argv response_header ≡ response_header ++ message argv)
        → length (message []) < 2 ^ 31
        → length (message (arg ∷ [])) < 2 ^ 31
        → IsArgument arg
        → ComeWhole (1 ∷ 4 ∷ length (message []) ∷ []) events_empty
        → ComeWhole (1 ∷ 4 ∷ length (message (arg ∷ [])) ∷ []) events
        → IsAnswered events_empty [] × IsAnswered events (arg ∷ [])
    unfolding command_packet packet_arguments
    cmd_line-IsAnswered arg events_empty events takes appends short_empty short argument come_empty
          come =
        let byte : idx % 256 ≡ idx = omega (arith, known.0) in
        let size : length arg % 256 ≡ length arg = omega (arith, argument.1) in
        let packet : command_packet idx (arg ∷ []) ≡ 1 ∷ idx ∷ 1 ∷ length arg ∷ arg =
          rw (byte, size, append-nil arg) refl in
        let served =
          λ (rounds : ℕ). command-answered cs idx c message arg rounds stands takes appends in
        (
          (
            idx ∷ 0 ∷ [],
            run_command-cmd_line drv slot cmd [] drv_word small cmd_word tt sh
                ∙ rw (sym byte) (cmd_cmd-packet [] (omega arith)),
            λ rounds. (served (suc (suc rounds))).0,
            λ more. listen-framed (message []) more events_empty short_empty come_empty,
          ),
          (
            idx ∷ 1 ∷ length arg ∷ arg,
            run_command-cmd_line drv slot cmd (arg ∷ []) drv_word small cmd_word (argument, tt) sh
                ∙ cmd_cmd-packet (arg ∷ []) (omega (arith, known.1, takes))
                ∙ ap (λ p. record sh { sent = sh.sent ++ (sd.usc, p) ∷ [] }) packet,
            λ rounds. (served rounds).1,
            λ more. listen-framed (message (arg ∷ [])) more events short come,
          ),
        )
