-- ===== src/DriverPayloads/Answers.antt =====
-- The commands of the drivers, served.
use interview.Base.{
  ℕ, suc, ◌-◌, ◌/◌, ◌%◌, ◌^◌, ◌<◌, ◌≡◌, refl, ap, ◌∙◌, false, some, List, [], ◌∷◌, ◌++◌, length,
  ltb, ◌>>=◌, arith,
}
use interview.DriverCore.{DriverCommand, element, finish_response, response_header, start}
use interview.DriverCore.Serve.{serve, answered, serve_command}

-- a message behind its signature and its length in 4 bytes
abbrev pub framed : List ℕ → List ℕ
framed message =
    let len = length message % 2 ^ 32 in
    2 ∷ (len % 256) ∷ (len / 2 ^ 8 % 256) ∷ (len / 2 ^ 16 % 256) ∷ (len / 2 ^ 24 % 256) ∷ message

finish-framed :
    (message : List ℕ) → finish_response (response_header ++ message) ≡ some (framed message)
unfolding finish_response
finish-framed message =
    let there : ltb (suc (suc (suc (suc (suc (length message)))))) 5 ≡ false = ground arith in
    let size : suc (suc (suc (suc (suc (length message))))) - 5 ≡ length message = omega arith in
    rw (there, size) refl

-- A client that asks for a command of a driver that takes an argument, and whose handler appends a
-- message to the response, with no argument or with one, gets the message for these arguments
-- behind its signature and its length.
pub command-answered :
    (commands : List DriverCommand) (idx : ℕ) (c : DriverCommand) (message : List (List ℕ) → List ℕ)
    (arg : List ℕ) (rounds : ℕ)
    → element commands idx ≡ some c
    → 0 < c.max_arity
    → ((argv : List (List ℕ))
        → c.handler idx argv response_header ≡ response_header ++ message argv)
    → (serve (suc (suc rounds)) commands (1 ∷ []) (idx ∷ 0 ∷ []) start
        ≡ some (answered (framed (message []))))
      × (serve (suc (suc (suc (suc rounds)))) commands (1 ∷ []) (idx ∷ 1 ∷ length arg ∷ arg) start
          ≡ some (answered (framed (message (arg ∷ [])))))
command-answered commands idx c message arg rounds found takes appends =
    let served = serve_command commands idx c found arg rounds takes in
    let finished : (argv : List (List ℕ))
        → finish_response (c.handler idx argv response_header) ≡ some (framed (message argv)) =
      λ argv. ap finish_response (appends argv) ∙ finish-framed (message argv) in
    (
      served.0 ∙ ap (λ m. m >>= λ response. some (answered response)) (finished []),
      served.1 ∙ ap (λ m. m >>= λ response. some (answered response)) (finished (arg ∷ [])),
    )
