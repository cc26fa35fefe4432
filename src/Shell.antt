-- ===== src/Shell.antt =====
-- supertel/task2/src/shell.c: the operator's shell, which finds the drivers by the sockets of a directory,
-- reads command lines, and sends them to the drivers.
pub mod SocketName
pub mod Input
pub mod Tokens
pub mod Clients
pub mod Command
pub mod Directory
pub mod Replies
pub mod Typed
pub mod Dialogue
pub mod Program
