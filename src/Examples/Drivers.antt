-- ===== src/Examples/Drivers.antt =====
-- A driver of supertel/task2 with two commands.
use interview.Base.{ℕ, ◌≡◌, refl, none, some, List, [], ◌∷◌, ◌++◌, arith}
use interview.DriverCore.{
  DriverCommand, response_header, start, reader, read_command, select_command, read_argument,
  take_argument, count_argument, arguments, call, finish_response,
}
use interview.DriverPayloads.{driver_payload_one, one_o2_message, one_o2}
use interview.DriverCore.Serve.{serve, answered}
use interview.DriverCore.Overrun.{serve_command-overrun}

-- a handler that answers with the bytes of its arguments
abbrev joined : List (List ℕ) → List ℕ
joined [] = []
joined (a ∷ as_) = a ++ joined as_

abbrev echo : DriverCommand
echo = record {
  name = 111 ∷ 49 ∷ [];
  description = 79 ∷ [];
  max_arity = 2;
  handler = λ idx argv response. response ++ joined argv;
}

abbrev two_commands : List DriverCommand
two_commands = echo ∷ echo ∷ []

abbrev second_of : List DriverCommand → DriverCommand
second_of (c ∷ d ∷ cs) = d
second_of cs = echo

abbrev command_o2 : DriverCommand
command_o2 = second_of driver_payload_one

o2-appends :
    (argv : List (List ℕ))
    → command_o2.handler 1 argv response_header ≡ response_header ++ one_o2_message argv
unfolding one_o2
o2-appends argv = refl

-- an answer with an argument
echoed :
    serve 4 two_commands (1 ∷ []) (1 ∷ 1 ∷ 3 ∷ 7 ∷ 8 ∷ 9 ∷ []) start
    ≡ some (answered (2 ∷ 3 ∷ 0 ∷ 0 ∷ 0 ∷ 7 ∷ 8 ∷ 9 ∷ []))
unfolding serve reader read_command select_command read_argument take_argument count_argument
    arguments call finish_response
echoed = refl

serve_command-overrun_example :
    serve 6 two_commands (1 ∷ []) (1 ∷ 2 ∷ 2 ∷ 7 ∷ 8 ∷ 1 ∷ 9 ∷ []) start ≡ none
serve_command-overrun_example =
    serve_command-overrun two_commands 1 echo refl (7 ∷ 8 ∷ []) (9 ∷ []) (omega arith) 0
