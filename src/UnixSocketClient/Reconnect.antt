-- ===== src/UnixSocketClient/Reconnect.antt =====
-- A client that connects again.
use interview.Base.{ℕ, ◌≡◌, refl, true, false, none, some, List, [], ◌∷◌}
use interview.UnixSocketServer.Connections.{shutdown, close, connect}
use interview.UnixSocketClient.{
  Usc, connected_now, refused, socket_path_of, unix_socket_client_connect,
  unix_socket_client_reconnect,
}

-- A client that has connected to a name and connects again, with a new socket, closes the old socket,
-- connects the new one to the same name, and calls the connector of the first time; it is then
-- connected and can connect again. Where the new connection is refused, it is not connected.
unix_socket_client_reconnect-connect :
    {F : Type 0} (c : ℕ) (name : List ℕ) (f : F) (usc : Usc F) (fd : ℕ)
    → (up : Usc F) × (unix_socket_client_connect connected_now (c ∷ name) (some f) usc
        ≡ some (up, true, connect (socket_path_of (c ∷ name)) ∷ [], some f))
      × (unix_socket_client_reconnect (some fd) connected_now up
          ≡ some (
            record up { fd = fd },
            true,
            shutdown usc.fd ∷ close usc.fd ∷ connect (socket_path_of (c ∷ name)) ∷ [],
            some f,
          ))
      × (unix_socket_client_reconnect (some fd) refused up
          ≡ some (
            record up { fd = fd; connected = false },
            false,
            shutdown usc.fd ∷ close usc.fd ∷ connect (socket_path_of (c ∷ name)) ∷ [],
            none,
          ))
unfolding unix_socket_client_connect unix_socket_client_reconnect
unix_socket_client_reconnect-connect c name f usc fd = (
  record usc { connected = true; connector = some f; connected_to_name = some (c ∷ name) },
  refl,
  refl,
  refl,
)
