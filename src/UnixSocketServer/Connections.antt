-- ===== src/UnixSocketServer/Connections.antt =====
-- supertel/task2/src/unix-socket-server.c: the connections of the server, in an AVL tree over their file
-- descriptors. What the code calls is listed in order; `none` is a fault, which is a write or a read of
-- memory that is freed, or a failed assertion.
pub mod Opened
use interview.Base.{
  ℕ, ◌+◌, ◌%◌, ◌^◌, Bool, true, false, Option, none, some, List, [], ◌∷◌, ◌++◌, length, take,
  if◌then◌else◌, ◌>>=◌, ◌==◌, not,
}
use interview.Base.Int.{ℤ, pos}
use interview.AvlTree.{Tree, leaf, node, AvlTree, avl_tree_init, avl_tree_add, avl_tree_remove}
use interview.AvlTree.Data.{update_data, data_at}
use interview.UnixSocketServer.{WriteTask}
use interview.UnixSocketServer.Receive.{ReadTask}

-- `uss_connection_t`, without its host; `is_reading` and `is_writing` tell whether `reader` and `writer`
-- are set
pub record Connection : Type 0 where
  pub fd : ℕ
  pub eof : Bool
  pub read_task : ReadTask
  pub is_reading : Bool
  pub write_task : WriteTask
  pub is_writing : Bool

-- `uss_t`
pub record Server : Type 0 where
  pub fd : ℕ
  pub connections : AvlTree Connection
  pub is_listening : Bool

pub data SocketCall : Type 0 where
  post_read : ℕ → SocketCall
  post_write : ℕ → SocketCall
  remove_read : ℕ → SocketCall
  remove_write : ℕ → SocketCall
  shutdown : ℕ → SocketCall
  close : ℕ → SocketCall
  unlink : List ℕ → SocketCall
  connect : List ℕ → SocketCall

abbrev pub empty_read_task : ReadTask
empty_read_task = record { content = []; offset = 0; currently_read = 0 }

abbrev pub empty_write_task : WriteTask
empty_write_task = record { content = []; currently_wrote = 0 }

-- `memset` and what `acceptor` sets
unfoldable pub new_connection : ℕ → Connection
new_connection fd = record {
  fd = fd;
  eof = false;
  read_task = empty_read_task;
  is_reading = false;
  write_task = empty_write_task;
  is_writing = false;
}

-- the calls of `close_connection`, between which it frees the buffers
unfoldable pub close_connection : Connection → List SocketCall
close_connection c = remove_read c.fd ∷ remove_write c.fd ∷ shutdown c.fd ∷ close c.fd ∷ []

unfoldable pub close_connections : Tree Connection → List SocketCall
unfolding close_connection
close_connections leaf = []
close_connections (node l n r) =
    close_connections l ++ close_connections r ++ close_connection n.payload

-- `fd` is what `allocate_unix_socket` returns, if it is not negative
unfoldable pub unix_socket_server_init : (fd : Option ℕ) → Option Server
unfolding avl_tree_init
unix_socket_server_init none = none
unix_socket_server_init (some fd) =
    some (record { fd = fd; connections = avl_tree_init; is_listening = false })

-- the tree is left as it is
unfoldable pub unix_socket_server_deinit : Server → Server × List SocketCall
unfolding close_connections
unix_socket_server_deinit srv = (srv, close srv.fd ∷ close_connections srv.connections.root)

-- `listens` tells whether `listen` returns 0
unfoldable pub unix_socket_server_listen : (listens : Bool) → Server → Server × List SocketCall
unix_socket_server_listen listens srv =
    (record srv { is_listening = true }, if listens then post_read srv.fd ∷ [] else [])

-- `conn` is the address of the node in which the connection stands; what is read of it is read from the
-- tree's memory, both before and after `avl_tree_remove`
unfoldable pub unix_socket_server_close_connection :
    (conn : ℕ) → Server → Option (Server × List SocketCall)
unfolding avl_tree_remove close_connection data_at
unix_socket_server_close_connection conn srv = do
  c ← data_at conn srv.connections.root
  connections ← avl_tree_remove srv.connections (pos c.fd)
  closed ← data_at conn connections.root
  some (record srv { connections = connections }, close_connection closed)

-- `accepted` is what `accept` returns, if it is not negative, `fresh` and `garbage` are the memory of the
-- new node, and `acceptor` is the client's function, if it is set
unfoldable pub acceptor :
    (accepted : Option ℕ) (fresh : ℕ) (garbage : Connection)
    → Option (Connection → Connection × List SocketCall × Bool)
    → Server
    → Option (Server × List SocketCall)
unfolding avl_tree_add update_data new_connection unix_socket_server_close_connection
acceptor none fresh garbage client srv = some (srv, [])
acceptor (some fd) fresh garbage client srv = do
  (connections, id) ← avl_tree_add fresh garbage srv.connections (pos fd)
  let set : Connection → Server = λ c. record srv {
    connections = record connections { root = update_data id (λ old. c) connections.root };
  } in
      elim client [
        | none ↦ some (set (new_connection fd), [])
        | some f ↦
            let (c, calls, keeps) = f (new_connection fd) in
            let closed : Option (Server × List SocketCall) =
              unix_socket_server_close_connection id (set c) in
            if keeps then some (set c, calls) else closed
      ]

unfoldable pub unix_socket_server_send : List ℕ → Connection → Connection × List SocketCall
unix_socket_server_send d conn = (
  record conn { write_task = record { content = d; currently_wrote = 0 }; is_writing = true },
  post_write conn.fd ∷ [],
)

-- the buffer grows by `sz` bytes, `garbage` of which are not set, and `offset` is where they start
unfoldable pub unix_socket_server_recv :
    (sz : ℕ) (garbage : List ℕ) → Connection → Connection × List SocketCall
unix_socket_server_recv sz garbage conn = (
  record conn {
    read_task = record {
      content = conn.read_task.content ++ take sz garbage;
      offset = length conn.read_task.content;
      currently_read = 0;
    };
    is_reading = true;
  },
  post_read conn.fd ∷ [],
)
