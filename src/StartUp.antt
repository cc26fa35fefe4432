-- ===== src/StartUp.antt =====
-- supertel/task1/src/common.c and supertel/task2/src/common.c: the sockets and the signals that the programs
-- start with. What the system calls answer are arguments; `some fd` is a descriptor that is not negative.
pub mod Sockets
use interview.Base.{
  ℕ, Bool, true, false, not, ◌&&◌, Option, none, some, List, [], ◌∷◌, length, ltb, ◌==◌,
  if◌then◌else◌,
}
use interview.IoService.{IoService, read, io_service_stop, io_service_post_job}

abbrev pub sigint : ℕ
sigint = 2

abbrev pub sigterm : ℕ
sigterm = 15

-- the descriptor that the function returns, and those that it closes
abbrev pub Opened : Type 0
Opened = Option ℕ × List ℕ

module _ {ℓ} {J : Type ℓ} where
  -- `signo` is what `read` stores; with the descriptors that are closed
  unfoldable pub signal_caught : (fd signo : ℕ) → IoService J → IoService J × List ℕ
  signal_caught fd signo iosvc =
      if not (signo == sigterm) && not (signo == sigint)
      then (iosvc, [])
      else (io_service_stop false iosvc, fd ∷ [])

  -- the calls that set up the mask of signals, and `signalfd`; `job` calls `signal_caught`
  unfoldable pub wait_for_sigterm_sigint :
      (sigemptyset sigaddset_term sigaddset_int sigprocmask : Bool)
      → (signalfd : Option ℕ) → (job : J) → IoService J
      → IoService J × Bool
  wait_for_sigterm_sigint sigemptyset sigaddset_term sigaddset_int sigprocmask signalfd job iosvc =
      if not sigemptyset
      then (iosvc, false)
      else if not sigaddset_term
      then (iosvc, false)
      else if not sigaddset_int
      then (iosvc, false)
      else if not sigprocmask
      then (iosvc, false)
      else elim signalfd [
        | none ↦ (iosvc, false)
        | some fd ↦ (io_service_post_job fd read false (some job) iosvc, true)
      ]

-- `binds` tells whether `bind` returns 0
unfoldable pub allocate_unix_socket : (socket : Option ℕ) → (binds : Bool) → List ℕ → Opened
allocate_unix_socket none binds name = (none, [])
allocate_unix_socket (some sfd) binds name =
    if length name == 0
    then (some sfd, [])
    else if not binds
    then (none, sfd ∷ [])
    else (some sfd, [])

-- whether each of the calls behind `socket` succeeds
pub record UdpSteps : Type 0 where
  pub reuses_address : Bool
  pub binds : Bool
  pub binds_to_device : Bool
  pub broadcasts : Bool
  pub has_address : Bool

unfoldable pub allocate_udp_broadcasting_socket : (socket : Option ℕ) → UdpSteps → Opened
allocate_udp_broadcasting_socket none steps = (none, [])
allocate_udp_broadcasting_socket (some sfd) steps =
    if not steps.reuses_address
    then (none, sfd ∷ [])
    else if not steps.binds
    then (none, sfd ∷ [])
    else if not steps.binds_to_device
    then (none, sfd ∷ [])
    else if not steps.broadcasts
    then (none, sfd ∷ [])
    else if not steps.has_address
    then (none, sfd ∷ [])
    else (some sfd, [])
