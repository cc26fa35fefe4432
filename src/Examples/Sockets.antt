-- ===== src/Examples/Sockets.antt =====
-- A buffer of three bytes that is sent in two parts, and bytes that are received in parts.
use interview.Base.{◌≡◌, refl, false, none, some, [], ◌∷◌, arith}
use interview.Base.Int.{pos}
use interview.AvlTree.{Node, leaf, node, avl_tree_get, get_loop}
use interview.AvlTree.Operations.{IsValid}
use interview.UnixSocketServer.{accepted, interrupted, would_block, no_error, writer, deliver}
use interview.UnixSocketServer.Delivery.{done, more, again, later, deliver_complete}
use interview.UnixSocketServer.Receive.{
  received, recv_interrupted, recv_would_block, reader_called, read_waits, data_may_be_read,
  client_data_may_be_read,
}
use interview.UnixSocketServer.Receive.Arrival
use interview.UnixSocketServer.Receive.Arrival.{
  data_may_be_read-arrived, client_data_may_be_read-arrived,
}
use interview.UnixSocketServer.Connections.{
  Connection, Server, new_connection, unix_socket_server_close_connection,
}
use interview.UnixSocketServer.Connections.Opened.{unix_socket_server_close_connection-freed}

deliver_complete_example :
    deliver 5
      (record { content = 1 ∷ 2 ∷ 3 ∷ []; currently_wrote = 0 })
      (accepted 2 ∷ would_block ∷ interrupted ∷ accepted 1 ∷ [])
      []
    ≡ some (
        writer no_error (record { content = 1 ∷ 2 ∷ 3 ∷ []; currently_wrote = 3 }) (1 ∷ 2 ∷ 3 ∷ []))
deliver_complete_example =
    deliver_complete 5 [] (1 ∷ 2 ∷ 3 ∷ []) [] (more 2 (later (again (more 1 done)))) (omega arith)
      (omega arith)

-- two of the four bytes that are missing arrive
data_may_be_read-arrived_example :
    data_may_be_read 2
      (record { content = 5 ∷ 0 ∷ 0 ∷ 0 ∷ 0 ∷ []; offset = 1; currently_read = 0 })
      (received 1 ∷ recv_interrupted ∷ received 1 ∷ recv_would_block ∷ [])
      (6 ∷ 7 ∷ [])
    ≡ some (
        read_waits (record { content = 5 ∷ 6 ∷ 7 ∷ 0 ∷ 0 ∷ []; offset = 1; currently_read = 2 }) [])
data_may_be_read-arrived_example =
    data_may_be_read-arrived (5 ∷ []) (0 ∷ 0 ∷ 0 ∷ 0 ∷ []) (6 ∷ 7 ∷ []) 1 0 (omega arith) 2 2
      (received 1 ∷ recv_interrupted ∷ received 1 ∷ recv_would_block ∷ []) (omega arith)
      (omega arith) (omega arith)
      (Arrival.more 0 (Arrival.again (omega arith) (Arrival.more 0 Arrival.arrived)))

client_data_may_be_read-arrived_example :
    client_data_may_be_read 2
      (record { content = 5 ∷ 0 ∷ 0 ∷ 0 ∷ 0 ∷ []; offset = 1; currently_read = 0 })
      (received 2 ∷ [])
      (6 ∷ 7 ∷ [])
    ≡ some (
        reader_called no_error false
          (record { content = 5 ∷ 6 ∷ 7 ∷ 0 ∷ 0 ∷ []; offset = 1; currently_read = 2 })
          [])
client_data_may_be_read-arrived_example =
    client_data_may_be_read-arrived (5 ∷ []) (0 ∷ 0 ∷ 0 ∷ 0 ∷ []) (6 ∷ 7 ∷ []) 1 0 (omega arith) 2
      (received 2 ∷ []) (omega arith) (omega arith) (Arrival.more 1 Arrival.arrived)

abbrev connection_node : Node Connection
connection_node = record {
  id = 30;
  parent = 0;
  height = 1;
  key = pos 4;
  payload = new_connection 4;
}

abbrev one_connection : Server
one_connection = record {
  fd = 3;
  connections = record { count = 1; root = node leaf connection_node leaf };
  is_listening = false;
}

one_connection-IsValid : IsValid one_connection.connections
one_connection-IsValid = record {
  avl = ground arith;
  sorted = ground arith;
  counted = refl;
  small = omega arith;
}

one_connection-get : avl_tree_get one_connection.connections (pos 4) ≡ some connection_node
unfolding avl_tree_get get_loop
one_connection-get = refl

unix_socket_server_close_connection-freed_example :
    unix_socket_server_close_connection connection_node.id one_connection ≡ none
unfolding new_connection
unix_socket_server_close_connection-freed_example =
    unix_socket_server_close_connection-freed one_connection connection_node one_connection-IsValid
      (refl, tt, tt) (tt, tt) (tt, tt) one_connection-get
