-- ===== src/Executor/Types.antt =====
-- The members of Pipe and Executor, and the system calls of the client.
use fuzzuf_cc.Prelude.{ℕ, Bool, Option, none, List, []}
use fuzzuf_cc.ForkServer.Types.{ReadAnswer, ForkAnswer, Errno}

-- A descriptor; `none` is -1.
abbrev pub Fd : Type 0
Fd = Option ℕ

-- `fds`
pub record Pipe : Type 0 where
  pub read_end : Fd
  pub write_end : Fd

abbrev pub closed : Pipe
closed = record { read_end = none; write_end = none }

-- What is thrown, by the text of the exception.
pub data Failure : Type 0 where
  pipe_failed pipe_to_fd_failed fd_to_pipe_failed fork_failed execve_failed : Failure
  executor_id_not_set pid_not_read connection_closed : Failure
  stdout_not_attached stderr_not_attached from_fork_server_not_attached : Failure
  epoll_wait_failed stdout_not_read stderr_not_read result_not_read fd_not_detached : Failure
  open_failed remove_failed stdin_not_sought stdin_not_written stdin_not_truncated : Failure
  command_not_written : Failure

-- EPOLLIN, EPOLLERR, EPOLLHUP and EPOLLRDHUP of Linux.
abbrev pub epollin : ℕ
epollin = 0x1

abbrev pub epollerr : ℕ
epollerr = 0x8

abbrev pub epollhup : ℕ
epollhup = 0x10

abbrev pub epollrdhup : ℕ
epollrdhup = 0x2000

-- `epoll_wait` for one event.
pub data EpollAnswer : Type 0 where
  event : (fd : Fd) → (events : ℕ) → EpollAnswer
  timed_out : EpollAnswer
  wait_failed : Errno → EpollAnswer

-- The system calls, with what the later ones may depend on. `open_call` names the file of standard
-- input by the executor id.
pub data Call : Type 0 where
  pipe_call : Option (ℕ × ℕ) → Call
  close_call : Fd → Call
  dup2_call : Fd → ℕ → Call
  fork_call : ForkAnswer → Call
  execve_call : (argv envp : List (Option (List ℕ))) → Call
  write_call : Fd → List ℕ → Option ℕ → Call
  read_call : Fd → ℕ → ReadAnswer → Call
  open_call : (executor_id : ℕ) → Fd → Call
  lseek_call : Fd → Call
  ftruncate_call : Fd → ℕ → Call
  remove_call : (executor_id : ℕ) → Call
  epoll_create_call : Fd → Call
  epoll_add_call : (epoll fd : Fd) → (events : ℕ) → Call
  epoll_del_call : (epoll fd : Fd) → Call
  epoll_wait_call : (epoll : Fd) → (forever : Bool) → EpollAnswer → Call
  waitpid_call : ℕ → Call

-- The last call stands first.
abbrev pub Trace : Type 0
Trace = List Call

-- The members of Executor, and the calls so far.
pub record Client : Type 0 where
  pub trace : Trace
  pub executor_id : ℕ
  pub fork_server_pid : ℕ
  pub to_fork_server : Pipe
  pub from_fork_server : Pipe
  pub target_stdin_fd : Fd
  pub target_stdout : Pipe
  pub target_stderr : Pipe
  pub epoll_fd : Fd

-- By the initializers of the members; the pipes are not there yet.
abbrev pub unconstructed : Client
unconstructed = record {
  trace = [];
  executor_id = 1;
  fork_server_pid = 0;
  to_fork_server = closed;
  from_fork_server = closed;
  target_stdin_fd = none;
  target_stdout = closed;
  target_stderr = closed;
  epoll_fd = none;
}
