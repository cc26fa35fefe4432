-- ===== src/StartUp/Sockets.antt =====
-- No descriptor of a socket is lost when the set-up fails.
use interview.Base.{ℕ, ◌≡◌, Bool, ◌⊎◌, none, some, List, [], ◌∷◌, arith}
use interview.StartUp.{Opened, UdpSteps, allocate_unix_socket, allocate_udp_broadcasting_socket}

-- the descriptor is returned and stays open, or it is closed once
abbrev pub IsKept : ℕ → Opened → Type 0
IsKept sfd o = (o ≡ (some sfd, [])) ⊎ (o ≡ (none, sfd ∷ []))

-- The socket that the kernel opens for `allocate_unix_socket` or `allocate_udp_broadcasting_socket` is
-- returned and stays open, or nothing is returned and it is closed once.
allocate_sockets-IsKept :
    (sfd : ℕ) (binds : Bool) (name : List ℕ) (steps : UdpSteps)
    → IsKept sfd (allocate_unix_socket (some sfd) binds name)
      × IsKept sfd (allocate_udp_broadcasting_socket (some sfd) steps)
unfolding allocate_unix_socket allocate_udp_broadcasting_socket
allocate_sockets-IsKept sfd binds name steps = (ground arith, ground arith)
