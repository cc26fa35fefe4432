-- ===== src/Shell/Program.antt =====
-- supertel/task2/src/shell.c: how the shell is set up, run and closed. What the system calls answer are
-- arguments; `none` is an abort.
use interview.Base.{ℕ, Bool, true, false, Option, none, some, List, [], ◌∷◌, ◌>>=◌}
use interview.AvlTree.{avl_tree_init}
use interview.IoService.{IoService, read, io_service_post_job, io_service_stop}
use interview.UnixSocketServer.Connections.{SocketCall, close}
use interview.Shell.SocketName.{EntryType}
use interview.Shell.Input.{InputBuffer}
use interview.Shell.Clients.{ShellState, finish_cmd}
use interview.Shell.Directory.{
  Clients, Allocation, shell_base_path, purge_clients_list, connect_to_all_existing_sockets,
}

-- the fields of `shell_t` that are set up, beside those of `ShellState`
pub record Program : Type 0 where
  pub inotify_fd : ℕ
  pub base_path_watch_descriptor : Option ℕ
  pub running : Bool
  pub input_fd : ℕ
  pub input_buffer : InputBuffer
  pub base_path : List ℕ
  pub state : ShellState

-- the two functions that the service calls
pub data ShellJob : Type 0 where
  base_dir_event : ShellJob
  on_input : ShellJob

-- `inotify_fd` is what `inotify_init` returns, if it is not negative; the result is `none` for false
unfoldable pub shell_init :
    (inotify_fd : Option ℕ) → (base_path : List ℕ) → (input_fd : ℕ) → Option Program
unfolding shell_base_path avl_tree_init
shell_init none base_path input_fd = none
shell_init (some inotify_fd) base_path input_fd = some (record {
  inotify_fd = inotify_fd;
  base_path_watch_descriptor = none;
  running = false;
  input_fd = input_fd;
  input_buffer = record { content = []; offset = 0 };
  base_path = shell_base_path base_path;
  state = record { clients = avl_tree_init; output = []; sent = [] };
})

-- `watch` is what `inotify_add_watch` returns, if it is not negative, and `entries` what `scandir` does;
-- `io_service_run` is called behind it, unless there is no watch
unfoldable pub shell_run :
    (is_socket : List ℕ → Bool)
    → (Clients → Allocation)
    → (chdir : Bool) → (watch : Option ℕ) → (entries : Option (List (EntryType × List ℕ))) → Program
    → IoService ShellJob
    → Option (Program × IoService ShellJob)
unfolding connect_to_all_existing_sockets finish_cmd
shell_run is_socket allocate false watch entries sh iosvc = none
shell_run is_socket allocate true none entries sh iosvc = some (sh, iosvc)
shell_run is_socket allocate true (some wd) entries sh iosvc = do
  found ← entries
  clients ← connect_to_all_existing_sockets is_socket allocate found sh.state.clients
  some (
    record sh {
      base_path_watch_descriptor = some wd;
      running = true;
      state = finish_cmd (record (sh.state) { clients = clients });
    },
    io_service_post_job sh.input_fd read false (some on_input)
        (io_service_post_job sh.inotify_fd read false (some base_dir_event) iosvc),
  )

-- `base_dir_self_deleted`
unfoldable pub base_dir_self_deleted : Program → IoService ShellJob → Program × IoService ShellJob
base_dir_self_deleted sh iosvc = (record sh { running = false }, io_service_stop false iosvc)

-- the watch that is removed, the descriptor that is closed, and the sockets of the clients that are closed
unfoldable pub shell_deinit : Program → Option ℕ × List SocketCall × List ℕ
unfolding purge_clients_list
shell_deinit sh = (
  sh.base_path_watch_descriptor,
  close sh.inotify_fd ∷ [],
  purge_clients_list sh.state.clients.root,
)
