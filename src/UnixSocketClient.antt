-- ===== src/UnixSocketClient.antt =====
-- supertel/task2/src/unix-socket-client.c: a client of a driver's socket. What the code calls is listed in
-- order; what the system calls answer are arguments. `F` is the type of the functions of the client's
-- user. `none` is a failed assertion. The loops that send and receive are in
-- `UnixSocketServer` and `UnixSocketServer.Receive`.
pub mod Reconnect
use interview.Base.{
  ℕ, ◌+◌, ◌-◌, Bool, true, false, Option, none, some, List, [], ◌∷◌, ◌++◌, length, take,
  if◌then◌else◌,
}
use interview.UnixSocketServer.{WriteTask}
use interview.UnixSocketServer.Receive.{ReadTask}
use interview.UnixSocketServer.Connections.{
  SocketCall, post_read, post_write, shutdown, close, unlink, connect, empty_read_task,
  empty_write_task,
}

-- `usc_t`; a job for the end of a `connect` that is in progress is a call `post_write`
pub record Usc {ℓ} (F : Type ℓ) : Type ℓ where
  pub fd : ℕ
  pub connected : Bool
  pub eof : Bool
  pub connector : Option F
  pub name : List ℕ
  pub connected_to_name : Option (List ℕ)
  pub read_task : ReadTask
  pub reader : Option F
  pub write_task : WriteTask
  pub writer : Option F

-- what `connect` returns
pub data ConnectResult : Type 0 where
  connected_now : ConnectResult
  in_progress : ConnectResult
  refused : ConnectResult

abbrev pub unix_path_max : ℕ
unix_path_max = 108

-- `sun_path`: at most 107 bytes of the name, and a NUL
abbrev pub socket_path_of : List ℕ → List ℕ
socket_path_of name = take (unix_path_max - 1) name

module _ {ℓ} {F : Type ℓ} where
  -- `connector`, with the user's function that it calls
  unfoldable pub connector_called : Usc F → Usc F × Option F
  connector_called usc = (record usc { connected = true }, usc.connector)

  unfoldable pub remember_name : (internal : Bool) → List ℕ → Usc F → Usc F
  remember_name internal name usc =
      if internal then usc else record usc { connected_to_name = some name }

  -- with what is returned, the calls, and the user's function that is called
  unfoldable pub unix_socket_client_connect_ :
      ConnectResult
      → List ℕ
      → Option F
      → (internal : Bool) → Usc F
      → Usc F × Bool × List SocketCall × Option F
  unfolding connector_called remember_name
  unix_socket_client_connect_ result name connector internal usc =
      let set : Usc F = record usc { connector = connector } in
      let kept = remember_name internal name set in
      let (up, called) = connector_called kept in
      elim result [
        | connected_now ↦ (up, true, connect (socket_path_of name) ∷ [], called)
        | in_progress ↦ (kept, true, connect (socket_path_of name) ∷ post_write usc.fd ∷ [], none)
        | refused ↦ (set, false, connect (socket_path_of name) ∷ [], none)
      ]

  unfoldable pub unix_socket_client_disconnect_ :
      (internal : Bool) → Usc F → Usc F × List SocketCall
  unix_socket_client_disconnect_ internal usc = (
    record usc {
      connected = false;
      connected_to_name = if internal then usc.connected_to_name else none;
    },
    shutdown usc.fd ∷ close usc.fd ∷ [],
  )

  -- `fd` is what `allocate_unix_socket` returns, if it is not negative
  unfoldable pub unix_socket_client_init : (fd : Option ℕ) → List ℕ → Option (Usc F)
  unix_socket_client_init none name = none
  unix_socket_client_init (some fd) name = some (record {
    fd = fd;
    connected = false;
    eof = false;
    connector = none;
    name = name;
    connected_to_name = none;
    read_task = empty_read_task;
    reader = none;
    write_task = empty_write_task;
    writer = none;
  })

  unfoldable pub unix_socket_client_disconnect : Usc F → Usc F × List SocketCall
  unfolding unix_socket_client_disconnect_
  unix_socket_client_disconnect usc = unix_socket_client_disconnect_ false usc

  unfoldable pub unix_socket_client_deinit : Usc F → Usc F × List SocketCall
  unfolding unix_socket_client_disconnect
  unix_socket_client_deinit usc =
      let (down, calls) = unix_socket_client_disconnect usc in (down, calls ++ unlink usc.name ∷ [])

  unfoldable pub unix_socket_client_connect :
      ConnectResult → List ℕ → Option F → Usc F → Option (Usc F × Bool × List SocketCall × Option F)
  unfolding unix_socket_client_connect_
  unix_socket_client_connect result [] connector usc = none
  unix_socket_client_connect result (c ∷ name) connector usc =
      some (unix_socket_client_connect_ result (c ∷ name) connector false usc)

  unfoldable pub unix_socket_client_send : List ℕ → F → Usc F → Usc F × List SocketCall
  unix_socket_client_send d writer usc = (
    record usc { write_task = record { content = d; currently_wrote = 0 }; writer = some writer },
    post_write usc.fd ∷ [],
  )

  -- the buffer grows by `sz` bytes, `garbage` of which are not set
  unfoldable pub unix_socket_client_recv :
      (sz : ℕ) (garbage : List ℕ) → F → Usc F → Usc F × List SocketCall
  unix_socket_client_recv sz garbage reader usc = (
    record usc {
      read_task = record {
        content = usc.read_task.content ++ take sz garbage;
        offset = length usc.read_task.content;
        currently_read = 0;
      };
      reader = some reader;
    },
    post_read usc.fd ∷ [],
  )

  -- where no socket is opened, `fd` stays -1: here the descriptor is left
  unfoldable pub reopen :
      (fd : Option ℕ)
      → ConnectResult
      → (name : List ℕ) → Usc F
      → Usc F × Bool × List SocketCall × Option F
  unfolding unix_socket_client_connect_
  reopen none result name usc = (usc, false, [], none)
  reopen (some fd) result name usc =
      unix_socket_client_connect_ result name usc.connector true (record usc { fd = fd })

  -- the name that it connects to is that of the last `unix_socket_client_connect`
  unfoldable pub unix_socket_client_reconnect :
      (fd : Option ℕ) → ConnectResult → Usc F → Option (Usc F × Bool × List SocketCall × Option F)
  unfolding unix_socket_client_disconnect_ reopen
  unix_socket_client_reconnect fd result usc =
      let (down, calls) = unix_socket_client_disconnect_ true usc in
      let path : List ℕ = elim (usc.connected_to_name) [ none ↦ [] | some name ↦ name ] in
      let (next, ok, more, called) = reopen fd result path down in
      if usc.connected then some (next, ok, calls ++ more, called) else none
