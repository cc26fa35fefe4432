-- ===== src/DriverPayloads.antt =====
-- supertel/task2/src/driver-payloads.c: the commands of the drivers "one" and "two". Text is the list of
-- its bytes; a handler appends its message to the response, whose buffer is taken to grow.
pub mod Answers
use interview.Base.{ℕ, zero, suc, List, [], ◌∷◌, ◌++◌}
use interview.DriverCore.{DriverCommand}

-- by the number of the arguments
abbrev pub one_o1_message : List (List ℕ) → List ℕ
-- O1 without any arguments
one_o1_message [] =
    79 ∷ 49 ∷ 32 ∷ 119 ∷ 105 ∷ 116 ∷ 104 ∷ 111 ∷ 117 ∷ 116 ∷ 32 ∷ 97 ∷ 110 ∷ 121 ∷ 32 ∷ 97 ∷ 114
    ∷ 103 ∷ 117 ∷ 109 ∷ 101 ∷ 110 ∷ 116 ∷ 115 ∷ []
-- O1 with single argument
one_o1_message (a1 ∷ []) =
    79 ∷ 49 ∷ 32 ∷ 119 ∷ 105 ∷ 116 ∷ 104 ∷ 32 ∷ 115 ∷ 105 ∷ 110 ∷ 103 ∷ 108 ∷ 101 ∷ 32 ∷ 97 ∷ 114
    ∷ 103 ∷ 117 ∷ 109 ∷ 101 ∷ 110 ∷ 116 ∷ []
-- O1 fails
one_o1_message (a1 ∷ a2 ∷ argv) = 79 ∷ 49 ∷ 32 ∷ 102 ∷ 97 ∷ 105 ∷ 108 ∷ 115 ∷ []

unfoldable pub one_o1 : ℕ → List (List ℕ) → List ℕ → List ℕ
one_o1 idx argv response = response ++ one_o1_message argv

-- by the number of the arguments
abbrev pub one_o2_message : List (List ℕ) → List ℕ
-- O2 without any arguments
one_o2_message [] =
    79 ∷ 50 ∷ 32 ∷ 119 ∷ 105 ∷ 116 ∷ 104 ∷ 111 ∷ 117 ∷ 116 ∷ 32 ∷ 97 ∷ 110 ∷ 121 ∷ 32 ∷ 97 ∷ 114
    ∷ 103 ∷ 117 ∷ 109 ∷ 101 ∷ 110 ∷ 116 ∷ 115 ∷ []
-- O2 with single argument
one_o2_message (a1 ∷ []) =
    79 ∷ 50 ∷ 32 ∷ 119 ∷ 105 ∷ 116 ∷ 104 ∷ 32 ∷ 115 ∷ 105 ∷ 110 ∷ 103 ∷ 108 ∷ 101 ∷ 32 ∷ 97 ∷ 114
    ∷ 103 ∷ 117 ∷ 109 ∷ 101 ∷ 110 ∷ 116 ∷ []
-- O2 with two arguments
one_o2_message (a1 ∷ a2 ∷ []) =
    79 ∷ 50 ∷ 32 ∷ 119 ∷ 105 ∷ 116 ∷ 104 ∷ 32 ∷ 116 ∷ 119 ∷ 111 ∷ 32 ∷ 97 ∷ 114 ∷ 103 ∷ 117 ∷ 109
    ∷ 101 ∷ 110 ∷ 116 ∷ 115 ∷ []
-- O2 with even three arguments!
one_o2_message (a1 ∷ a2 ∷ a3 ∷ []) =
    79 ∷ 50 ∷ 32 ∷ 119 ∷ 105 ∷ 116 ∷ 104 ∷ 32 ∷ 101 ∷ 118 ∷ 101 ∷ 110 ∷ 32 ∷ 116 ∷ 104 ∷ 114 ∷ 101
    ∷ 101 ∷ 32 ∷ 97 ∷ 114 ∷ 103 ∷ 117 ∷ 109 ∷ 101 ∷ 110 ∷ 116 ∷ 115 ∷ 33 ∷ []
-- O2 fails
one_o2_message (a1 ∷ a2 ∷ a3 ∷ a4 ∷ argv) = 79 ∷ 50 ∷ 32 ∷ 102 ∷ 97 ∷ 105 ∷ 108 ∷ 115 ∷ []

unfoldable pub one_o2 : ℕ → List (List ℕ) → List ℕ → List ℕ
one_o2 idx argv response = response ++ one_o2_message argv

-- by the number of the arguments
abbrev pub one_o3_message : List (List ℕ) → List ℕ
-- O3 without any arguments
one_o3_message [] =
    79 ∷ 51 ∷ 32 ∷ 119 ∷ 105 ∷ 116 ∷ 104 ∷ 111 ∷ 117 ∷ 116 ∷ 32 ∷ 97 ∷ 110 ∷ 121 ∷ 32 ∷ 97 ∷ 114
    ∷ 103 ∷ 117 ∷ 109 ∷ 101 ∷ 110 ∷ 116 ∷ 115 ∷ []
-- O3 with single argument
one_o3_message (a1 ∷ []) =
    79 ∷ 51 ∷ 32 ∷ 119 ∷ 105 ∷ 116 ∷ 104 ∷ 32 ∷ 115 ∷ 105 ∷ 110 ∷ 103 ∷ 108 ∷ 101 ∷ 32 ∷ 97 ∷ 114
    ∷ 103 ∷ 117 ∷ 109 ∷ 101 ∷ 110 ∷ 116 ∷ []
-- O3 with two arguments
one_o3_message (a1 ∷ a2 ∷ []) =
    79 ∷ 51 ∷ 32 ∷ 119 ∷ 105 ∷ 116 ∷ 104 ∷ 32 ∷ 116 ∷ 119 ∷ 111 ∷ 32 ∷ 97 ∷ 114 ∷ 103 ∷ 117 ∷ 109
    ∷ 101 ∷ 110 ∷ 116 ∷ 115 ∷ []
-- O3 with even three arguments!
one_o3_message (a1 ∷ a2 ∷ a3 ∷ []) =
    79 ∷ 51 ∷ 32 ∷ 119 ∷ 105 ∷ 116 ∷ 104 ∷ 32 ∷ 101 ∷ 118 ∷ 101 ∷ 110 ∷ 32 ∷ 116 ∷ 104 ∷ 114 ∷ 101
    ∷ 101 ∷ 32 ∷ 97 ∷ 114 ∷ 103 ∷ 117 ∷ 109 ∷ 101 ∷ 110 ∷ 116 ∷ 115 ∷ 33 ∷ []
-- O3 fails
one_o3_message (a1 ∷ a2 ∷ a3 ∷ a4 ∷ argv) = 79 ∷ 51 ∷ 32 ∷ 102 ∷ 97 ∷ 105 ∷ 108 ∷ 115 ∷ []

unfoldable pub one_o3 : ℕ → List (List ℕ) → List ℕ → List ℕ
one_o3 idx argv response = response ++ one_o3_message argv

-- by the number of the arguments
abbrev pub two_t1_message : List (List ℕ) → List ℕ
-- T1 without any arguments
two_t1_message [] =
    84 ∷ 49 ∷ 32 ∷ 119 ∷ 105 ∷ 116 ∷ 104 ∷ 111 ∷ 117 ∷ 116 ∷ 32 ∷ 97 ∷ 110 ∷ 121 ∷ 32 ∷ 97 ∷ 114
    ∷ 103 ∷ 117 ∷ 109 ∷ 101 ∷ 110 ∷ 116 ∷ 115 ∷ []
-- T1 with single argument
two_t1_message (a1 ∷ []) =
    84 ∷ 49 ∷ 32 ∷ 119 ∷ 105 ∷ 116 ∷ 104 ∷ 32 ∷ 115 ∷ 105 ∷ 110 ∷ 103 ∷ 108 ∷ 101 ∷ 32 ∷ 97 ∷ 114
    ∷ 103 ∷ 117 ∷ 109 ∷ 101 ∷ 110 ∷ 116 ∷ []
-- T1 with two arguments
two_t1_message (a1 ∷ a2 ∷ []) =
    84 ∷ 49 ∷ 32 ∷ 119 ∷ 105 ∷ 116 ∷ 104 ∷ 32 ∷ 116 ∷ 119 ∷ 111 ∷ 32 ∷ 97 ∷ 114 ∷ 103 ∷ 117 ∷ 109
    ∷ 101 ∷ 110 ∷ 116 ∷ 115 ∷ []
-- T1 with even three arguments!
two_t1_message (a1 ∷ a2 ∷ a3 ∷ []) =
    84 ∷ 49 ∷ 32 ∷ 119 ∷ 105 ∷ 116 ∷ 104 ∷ 32 ∷ 101 ∷ 118 ∷ 101 ∷ 110 ∷ 32 ∷ 116 ∷ 104 ∷ 114 ∷ 101
    ∷ 101 ∷ 32 ∷ 97 ∷ 114 ∷ 103 ∷ 117 ∷ 109 ∷ 101 ∷ 110 ∷ 116 ∷ 115 ∷ 33 ∷ []
-- T1 fails
two_t1_message (a1 ∷ a2 ∷ a3 ∷ a4 ∷ argv) = 84 ∷ 49 ∷ 32 ∷ 102 ∷ 97 ∷ 105 ∷ 108 ∷ 115 ∷ []

unfoldable pub two_t1 : ℕ → List (List ℕ) → List ℕ → List ℕ
two_t1 idx argv response = response ++ two_t1_message argv

-- by the number of the arguments
abbrev pub two_t2_message : List (List ℕ) → List ℕ
-- T2 without any arguments
two_t2_message [] =
    84 ∷ 50 ∷ 32 ∷ 119 ∷ 105 ∷ 116 ∷ 104 ∷ 111 ∷ 117 ∷ 116 ∷ 32 ∷ 97 ∷ 110 ∷ 121 ∷ 32 ∷ 97 ∷ 114
    ∷ 103 ∷ 117 ∷ 109 ∷ 101 ∷ 110 ∷ 116 ∷ 115 ∷ []
-- T2 with single argument
two_t2_message (a1 ∷ []) =
    84 ∷ 50 ∷ 32 ∷ 119 ∷ 105 ∷ 116 ∷ 104 ∷ 32 ∷ 115 ∷ 105 ∷ 110 ∷ 103 ∷ 108 ∷ 101 ∷ 32 ∷ 97 ∷ 114
    ∷ 103 ∷ 117 ∷ 109 ∷ 101 ∷ 110 ∷ 116 ∷ []
-- O3 fails
two_t2_message (a1 ∷ a2 ∷ argv) = 79 ∷ 51 ∷ 32 ∷ 102 ∷ 97 ∷ 105 ∷ 108 ∷ 115 ∷ []

unfoldable pub two_t2 : ℕ → List (List ℕ) → List ℕ → List ℕ
two_t2 idx argv response = response ++ two_t2_message argv

abbrev pub driver_payload_one : List DriverCommand
driver_payload_one =
    (record {
      name = 111 ∷ 49 ∷ [];
      description =
          79 ∷ 49 ∷ 32 ∷ 105 ∷ 115 ∷ 32 ∷ 116 ∷ 104 ∷ 101 ∷ 32 ∷ 102 ∷ 105 ∷ 114 ∷ 115 ∷ 116 ∷ 32
          ∷ 99 ∷ 111 ∷ 109 ∷ 109 ∷ 97 ∷ 110 ∷ 100 ∷ 32 ∷ 101 ∷ 118 ∷ 101 ∷ 114 ∷ 46 ∷ 32 ∷ 70 ∷ 111
          ∷ 114 ∷ 32 ∷ 79 ∷ 110 ∷ 101 ∷ 32 ∷ 100 ∷ 114 ∷ 105 ∷ 118 ∷ 101 ∷ 114 ∷ 32 ∷ 111 ∷ 110
          ∷ 108 ∷ 121 ∷ [];
      max_arity = 1;
      handler = one_o1;
    })
    ∷ (record {
      name = 111 ∷ 50 ∷ [];
      description =
          79 ∷ 50 ∷ 32 ∷ 105 ∷ 115 ∷ 32 ∷ 116 ∷ 104 ∷ 101 ∷ 32 ∷ 115 ∷ 101 ∷ 99 ∷ 111 ∷ 110 ∷ 100
          ∷ 32 ∷ 99 ∷ 111 ∷ 109 ∷ 109 ∷ 97 ∷ 110 ∷ 100 ∷ 32 ∷ 102 ∷ 111 ∷ 114 ∷ 32 ∷ 79 ∷ 110 ∷ 101
          ∷ 32 ∷ 100 ∷ 114 ∷ 105 ∷ 118 ∷ 101 ∷ 114 ∷ [];
      max_arity = 3;
      handler = one_o2;
    })
    ∷ (record {
      name = 111 ∷ 51 ∷ [];
      description =
          79 ∷ 51 ∷ 32 ∷ 105 ∷ 115 ∷ 32 ∷ 116 ∷ 104 ∷ 101 ∷ 32 ∷ 116 ∷ 104 ∷ 105 ∷ 114 ∷ 100 ∷ 32
          ∷ 99 ∷ 111 ∷ 109 ∷ 109 ∷ 97 ∷ 110 ∷ 100 ∷ 32 ∷ 102 ∷ 111 ∷ 114 ∷ 32 ∷ 79 ∷ 110 ∷ 101 ∷ 32
          ∷ 100 ∷ 114 ∷ 105 ∷ 118 ∷ 101 ∷ 114 ∷ [];
      max_arity = 2;
      handler = one_o3;
    })
    ∷ []

abbrev pub driver_payload_two : List DriverCommand
driver_payload_two =
    (record {
      name = 116 ∷ 49 ∷ [];
      description =
          84 ∷ 49 ∷ 32 ∷ 105 ∷ 115 ∷ 32 ∷ 116 ∷ 104 ∷ 101 ∷ 32 ∷ 102 ∷ 105 ∷ 114 ∷ 115 ∷ 116 ∷ 32
          ∷ 99 ∷ 111 ∷ 109 ∷ 109 ∷ 97 ∷ 110 ∷ 100 ∷ 32 ∷ 102 ∷ 111 ∷ 114 ∷ 32 ∷ 84 ∷ 119 ∷ 111 ∷ 32
          ∷ 100 ∷ 114 ∷ 105 ∷ 118 ∷ 101 ∷ 114 ∷ [];
      max_arity = 2;
      handler = two_t1;
    })
    ∷ (record {
      name = 116 ∷ 50 ∷ [];
      description =
          84 ∷ 50 ∷ 32 ∷ 105 ∷ 115 ∷ 32 ∷ 116 ∷ 104 ∷ 101 ∷ 32 ∷ 115 ∷ 101 ∷ 99 ∷ 111 ∷ 110 ∷ 100
          ∷ 32 ∷ 99 ∷ 111 ∷ 109 ∷ 109 ∷ 97 ∷ 110 ∷ 100 ∷ 32 ∷ 102 ∷ 111 ∷ 114 ∷ 32 ∷ 84 ∷ 119 ∷ 111
          ∷ 32 ∷ 100 ∷ 114 ∷ 105 ∷ 118 ∷ 101 ∷ 114 ∷ [];
      max_arity = 5;
      handler = two_t2;
    })
    ∷ []
