-- ===== src/Lib.antt =====
-- Models and proofs for supertel, the C program of this repository: a network of slaves that elect
-- a master among themselves (supertel/task1), and drivers with a shell that commands them
-- (supertel/task2), over a small library (supertel/lib).
--
-- Parts, and the files that model them:
-- - AvlTree: supertel/lib/avl-tree.c. A tree is a value; every node keeps its address and the stored
--   `parent` and `height`, and `none` is a fault. Order, Shape, Sorted and Links are the views of a
--   tree: its sequence of entries, its balance, the order of its keys, its parent fields; Insert,
--   InsertOrGet, Get and Remove follow one routine each; Data is a write to the data of a node;
--   Keys the tree as a map, Write a write to it, Walk the walk from node to node; Operations is the
--   interface, and Built the trees that additions build.
-- - IoService: supertel/lib/io-service.c. The table of jobs is a list of elements, an event of
--   `epoll_wait` is a value of `Event`, and a job is a function on the service and a world. Table has
--   the table as a map, Dispatch the search for a ready descriptor, Service the operations.
-- - Timer: supertel/lib/timer.c, over IoService. Laws says who waits for a timer.
-- - Protocol: supertel/task1/include/protocol.h, supertel/task1/src/protocol.c and the part of
--   `data_received` (slave.c) that refuses datagrams. A packet is the list of its bytes.
-- - Master: supertel/task1/src/master-private.c, over AvlTree, Protocol and Timer. A packet is the object
--   in memory that holds it, and a read behind it is a fault. Slaves is what the slaves have told.
-- - Slave: supertel/task1/src/slave.c, over all of these. A handler takes a world (the slave, its
--   service, what it has broadcast) to a world. Votes has the invariant of the votes, Slaves the
--   tree of the master, Faults the events whole, Election what the votes of others lead to; Setup
--   has `slave_init` and `slave_deinit`. Master/Standalone is supertel/task1/src/master.c.
-- - HashMap: supertel/lib/hash-map.c, over AvlTree and its Data. Values are the values of a hash.
-- - LinkedList: the part LIST of supertel/lib/containers.c, on a heap of elements. Nodes has what a heap
--   holds for a list; Insert and Remove follow the routines, Sequence is the interface.
-- - Buffer and Vector: the parts BUFFER and VECTOR of the same file, on a block of bytes. `realloc` is a
--   parameter, and Buffer/Resize says what is relied on: it finds memory and keeps the bytes that
--   fit, Refuse is about its failures. Shrink, Grow, Insert and Access treat a vector as the list of its elements.
-- - HashFunctions: supertel/lib/hash-functions.c. Permutation is about the table, Bytes about the hash.
-- - DriverCore: the reader of commands of supertel/task2/src/driver-core.c, a state machine on the bytes
--   received so far; Serve runs it on the bytes of a client, Overrun is about two arguments,
--   Greeting about the layout of the greeting.
-- - DriverPayloads: supertel/task2/src/driver-payloads.c, over DriverCore.
-- - UnixSocketServer: supertel/task2/src/unix-socket-server.c, with what `send` and `recv` return as a
--   list of answers. Delivery follows a buffer over all its calls, Receive the bytes that a reader
--   asks for (also of the client), Connections the connections in their AVL tree.
-- - UnixSocketClient: supertel/task2/src/unix-socket-client.c.
-- - Shell: supertel/task2/src/shell.c. SocketName has the names of the drivers' sockets, as
--   driver-core.c prints them and the shell parses them; Input the lines of the standard input;
--   Tokens what is used of `strtok` and `strtoul`; Clients and Directory the drivers, over AvlTree
--   and HashFunctions; Command a line, its tests and its packet (Typed: a line of words); Replies the
--   readers of what a driver sends, called by the client's `data_may_be_read` at the events of the
--   input; Program the set-up; Dialogue a command from end to end, over DriverCore and
--   DriverPayloads.
-- - StartUp: common.c of supertel/task1 and of supertel/task2, which have the same routines for signals.
-- - Base: Booleans, options, lists, integers and strings that the parts share.
-- - Examples: trees, services and slaves with concrete values.
--
-- The parts interact by calls: a slave's handlers arm timers, which post jobs to the service; the
-- service calls `data_received` and the jobs of timers; a master keeps its slaves in an AVL tree. The
-- shell and a driver talk over a socket: the greeting and the responses of DriverCore are what
-- Shell/Replies reads, and the packets of Shell/Command are what DriverCore serves.
--
-- Integers are natural numbers with the wrap-around of their width written out, or `ℤ` where C has a
-- signed type. The recursions follow trees and lists, and the loop of the service the list of events
-- that it is given; only the walks over a linked list have a bound on their rounds, its count, and a
-- served connection one on the calls of its reader, of which 4 answer a command with one
-- argument; a buffer that is sent needs one call more than the kernel gives answers. The
-- loop over the lines of the input takes a byte at least a round, and so does that over the
-- arguments of a line: the bytes bound both. A walk in a tree climbs at most its depth. The shell's
-- readers run over the list of events that they are given. Heights of AVL trees stay below 248, and so
-- below the 256 of their field, as a tree has fewer than 2 ^ 64 nodes.
--
-- Not modelled: logging, the kernel's part (sockets, epoll, clocks), `random()`, `time()` and the
-- allocator, whose results are arguments; the walk over the values of a hash; the loops that discard
-- a datagram of a wrong size, which may read the datagrams behind it; the `main` functions. The services and maps hold their lists as sequences. The other directories of the
-- repository are programs in C++ and documents.
pub mod Base
pub mod AvlTree
pub mod Buffer
pub mod DriverCore
pub mod DriverPayloads
pub mod Examples
pub mod HashFunctions
pub mod HashMap
pub mod IoService
pub mod LinkedList
pub mod Master
pub mod Protocol
pub mod Shell
pub mod Slave
pub mod StartUp
pub mod Timer
pub mod UnixSocketClient
pub mod UnixSocketServer
pub mod Vector
