-- ===== src/UnixSocketServer/Connections/Opened.antt =====
-- A request of bytes on a connection, and the end of a connection.
use mathlib.Core.Path.{subst}
use interview.Base.{
  ℕ, ◌+◌, ◌<◌, ◌≤◌, ◌≡◌, ◌≢◌, refl, sym, ap, ◌∙◌, true, false, Option, none, some, List, [], ◌∷◌,
  ◌++◌, append-nil, length, take, drop, arith, ◌>>=◌, All, All-append, All-append_right,
  if◌then◌else◌, length-take, ◌==◌,
}
use interview.Base.Int.{ℤ, pos, eqz}
use interview.Base.Apart.{Others, IsApart, apart_around}
use interview.AvlTree.Data.{data_at}
use interview.AvlTree.Keys.{key_of, eqz_refl, eqz-ne}
use interview.AvlTree.Write.{first_at, first_at-here, first_at-absent, data_at-first_at}
use interview.HashMap.Values.{IsDistinct, distinct_around}
use interview.AvlTree.{Node, null, avl_tree_get}
use interview.AvlTree.Order.{Entry, entry, in_order}
use interview.AvlTree.Operations
use interview.AvlTree.Operations.{avl_tree_get-Found, avl_tree_remove-Removal}
use interview.AvlTree.Get.{Found, hit}
use interview.AvlTree.Links.{IsLinked}
use interview.AvlTree.Sorted.{Removal, absent, present}
use interview.UnixSocketServer.{no_error}
use interview.UnixSocketServer.Receive.{RecvAnswer, reader_called, data_may_be_read}
use interview.UnixSocketServer.Receive.Arrival.{Arrives, answers_behind, data_may_be_read-arrived}
use interview.UnixSocketServer.Connections.{
  Connection, Server, unix_socket_server_recv, unix_socket_server_close_connection,
}

-- the address of the first entry with the key
unfoldable id_of : ℤ → List (Entry Connection) → ℕ
id_of k [] = null
id_of k (e ∷ es) = let rest = id_of k es in if eqz e.key k then e.id else rest

id_of-here :
    (before : List (Entry Connection)) (e : Entry Connection) (after : List (Entry Connection))
    → Others key_of e.key before
    → id_of e.key (before ++ e ∷ after) ≡ e.id
unfolding id_of
id_of-here [] e after a = rw (eqz_refl e.key) refl
id_of-here (x ∷ before) e after a = rw (eqz-ne x.key e.key a.0) (id_of-here before e after a.1)

-- the one entry with the key of `e`
id_of-one :
    (k : ℤ) (xs before : List (Entry Connection)) (e : Entry Connection)
    (after : List (Entry Connection))
    → e.key ≡ k
    → xs ≡ before ++ e ∷ after
    → IsApart key_of xs
    → id_of k xs ≡ e.id
id_of-one k xs before e after same p unique =
    ap (id_of k) p
    ∙ ap (λ j. id_of j (before ++ e ∷ after)) (sym same)
    ∙ id_of-here before e after
        (apart_around key_of before e after (subst (IsApart key_of) p unique)).0

-- the node that the search finds is in the tree's memory
first_at-payload :
    (k : ℤ) (xs : List (Entry Connection)) (n : Node Connection)
    → Found k xs (some n)
    → IsApart key_of xs
    → IsDistinct xs
    → (id_of k xs ≡ n.id) × (first_at n.id xs ≡ some n.payload)
first_at-payload k xs n (hit before m after same p) unique distinct = (
  id_of-one k xs before (entry m) after same p unique,
  ap (first_at m.id) p
      ∙ first_at-here before (entry m) after
          (distinct_around before (entry m) after (subst IsDistinct p distinct)).0,
)

-- and is not when it is removed
first_at-gone :
    (k : ℤ) (xs ys : List (Entry Connection)) (n : Node Connection) (removed : Option Connection)
    → Found k xs (some n)
    → Removal k xs ys removed
    → IsApart key_of xs
    → IsDistinct xs
    → first_at n.id ys ≡ none
first_at-gone k xs ys n _ f (present before e after same p q) unique distinct =
    let one : e.id ≡ n.id =
      sym (id_of-one k xs before e after same p unique)
      ∙ (first_at-payload k xs n f unique distinct).0 in
    let around = distinct_around before e after (subst IsDistinct p distinct) in
    ap (first_at n.id) q
    ∙ ap (λ i. first_at i (before ++ after)) (sym one)
    ∙ first_at-absent e.id (before ++ after)
        (All-append (λ y. y.id ≢ e.id) before after around.0 around.1)
first_at-gone k xs ys n _ (hit before m after same p) (absent a q) unique distinct =
    let here = All-append_right (λ e. e.key ≢ k) before (entry m ∷ after) (subst (All _) p a) in
    absurd (here.0 same)

drop-length : {A : Type 0} (xs : List A) → drop (length xs) xs ≡ []
drop-length [] = refl
drop-length (x ∷ xs) = drop-length xs

-- Closing a connection of the server is a fault: the tree of connections is valid and linked, with one
-- node for each descriptor, and the connection stands in the node of its own descriptor. This node is
-- freed before the connection is read again.
pub unix_socket_server_close_connection-freed :
    (srv : Server) (n : Node Connection)
    → Operations.IsValid srv.connections
    → IsLinked null srv.connections.root
    → IsApart key_of (in_order srv.connections.root)
    → IsDistinct (in_order srv.connections.root)
    → avl_tree_get srv.connections (pos n.payload.fd) ≡ some n
    → unix_socket_server_close_connection n.id srv ≡ none
unfolding unix_socket_server_close_connection
unix_socket_server_close_connection-freed srv n valid linked unique distinct there =
    let k = pos n.payload.fd in
    let xs = in_order srv.connections.root in
    let (t, removed, _, e, _, removal) = avl_tree_remove-Removal srv.connections k valid linked in
    let found = subst (Found k xs) there (avl_tree_get-Found srv.connections k valid) in
    let before : data_at n.id srv.connections.root ≡ some n.payload =
      data_at-first_at n.id srv.connections.root
      ∙ (first_at-payload k xs n found unique distinct).1 in
    let after : data_at n.id t.root ≡ none =
      data_at-first_at n.id t.root
      ∙ first_at-gone k xs (in_order t.root) n removed found removal unique distinct in
    rw (before, ◌>>=◌) (rw (e, ◌>>=◌) (rw after refl))

-- A request for `sz` bytes on a connection of the server: at the event where all of them arrive, in any
-- pieces, the reader is called without an error, and the buffer then is what it was before the
-- request with exactly these bytes behind it, whatever stood in the memory that the buffer grew by.
unix_socket_server_recv-received :
    (conn : Connection) (sz : ℕ) (garbage wire : List ℕ) (pending : ℕ) (answers : List RecvAnswer)
    → 0 < pending
    → sz ≤ length garbage
    → sz ≤ length wire
    → Arrives [] answers sz
    → data_may_be_read pending (unix_socket_server_recv sz garbage conn).0.read_task answers wire
      ≡ some (
          reader_called no_error false
            (record {
              content = conn.read_task.content ++ take sz wire;
              offset = length conn.read_task.content;
              currently_read = sz;
            })
            (drop sz wire))
unfolding unix_socket_server_recv
unix_socket_server_recv-received conn sz garbage wire pending answers some_pending room there
      pieces =
    let front = conn.read_task.content in
    let back = take sz garbage in
    let size : length back ≡ sz = length-take sz garbage room in
    let all : (sz == length back) ≡ true = ground (arith, size) in
    let zero_read : length front ≡ length front + 0 = omega arith in
    let few : sz ≤ length back = omega (arith, size) in
    let behind : Arrives (answers_behind front back wire (length front) 0 zero_read sz) answers sz =
      rw all pieces in
    let nothing : drop sz back ≡ [] = ap (λ n. drop n back) (sym size) ∙ drop-length back in
    let read : 0 + sz ≡ sz = omega arith in
    data_may_be_read-arrived front back wire (length front) 0 zero_read pending sz answers
      some_pending few there behind
    ∙ rw (all, nothing, append-nil (front ++ take sz wire), read) refl
