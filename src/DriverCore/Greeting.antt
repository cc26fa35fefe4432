-- ===== src/DriverCore/Greeting.antt =====
-- The layout of the greeting.
use interview.Base.{
  ℕ, zero, suc, ◌+◌, ◌*◌, ◌%◌, ◌≡◌, refl, List, [], ◌∷◌, length, length-append, take, arith,
}
use interview.DriverCore.{DriverCommand, padded, command_info, command_infos, greeting}

pub length-padded : (n : ℕ) (xs : List ℕ) → length (padded n xs) ≡ n
length-padded zero xs = refl
length-padded (suc n) [] = omega (arith, length-padded n [])
length-padded (suc n) (x ∷ xs) = omega (arith, length-padded n xs)

pub length-command_info : (c : DriverCommand) → length (command_info c) ≡ 262
unfolding command_info
length-command_info c = omega (
  arith,
  length-append (padded 6 c.name) ((c.max_arity % 256) ∷ padded 255 c.description),
  length-padded 6 c.name,
  length-padded 255 c.description,
)

pub length-command_infos : (cs : List DriverCommand) → length (command_infos cs) ≡ 262 * length cs
unfolding command_infos
length-command_infos [] = refl
length-command_infos (c ∷ cs) = omega (
  arith,
  length-append (command_info c) (command_infos cs),
  length-command_info c,
  length-command_infos cs,
)

-- the size that `driver_core_init_` allocates
length-greeting :
    (commands : List DriverCommand)
    → length (greeting commands) ≡ 2 + 262 * length (take 255 commands)
unfolding greeting
length-greeting commands = omega (arith, length-command_infos (take 255 commands))
