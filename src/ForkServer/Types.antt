-- ===== src/ForkServer/Types.antt =====
-- The enums and structs of features/forkserver/config.h and forkserver.c, and the state of the
-- server process.
use fuzzuf_cc.Prelude.{ℕ, Bool, false, Option, none, List, []}
use fuzzuf_cc.Prelude.Effect.{Cmd}

abbrev pub forksrv_fd_read : ℕ
forksrv_fd_read = 196

abbrev pub forksrv_fd_write : ℕ
forksrv_fd_write = 197

-- `sizeof (ForkServerAPI)`, `sizeof (uint64_t)` and `sizeof (pid_t)` on x86-64 Linux.
abbrev pub sizeof_command : ℕ
sizeof_command = 4

abbrev pub sizeof_u64 : ℕ
sizeof_u64 = 8

abbrev pub sizeof_pid : ℕ
sizeof_pid = 4

-- `HANDSHAKE_FAILED`, that is (uint64_t)-1.
abbrev pub handshake_failed : ℕ
handshake_failed = 0xffff_ffff_ffff_ffff

-- The values of `errno` that the code tells apart.
pub data Errno : Type 0 where
  eintr esrch other_errno : Errno

-- Numbered from 0 in this order by the enum; `unknown` is any other value of its four bytes, and
-- `InvalidCommand` (0) is treated as one of those.
pub data ForkServerApi : Type 0 where
  set_put_execution_timeout_command : ForkServerApi
  read_stdin_command : ForkServerApi
  save_stdout_stderr_command : ForkServerApi
  execute_put_command : ForkServerApi
  unknown_command : ℕ → ForkServerApi

-- `ExecutePUTError`; the server only ever sends `None`.
pub data ExecutePutError : Type 0 where
  no_error daemon_already_exit_error daemon_busy_error : ExecutePutError
  spawn_put_error unknown_put_state_error no_response_error : ExecutePutError

pub record ExecutePutApiResponse : Type 0 where
  pub error : ExecutePutError
  pub exit_code : ℕ
  pub signal_number : ℕ

pub record RuntimeSettings : Type 0 where
  pub executor_id : ℕ
  pub timeout_us : ℕ
  pub read_stdin : Bool
  pub save_stdout_stderr : Bool

-- The fields of `siginfo_t` that the handler reads.
pub record SigInfo : Type 0 where
  pub si_pid : ℕ
  pub si_signo : ℕ
  pub si_code : ℕ
  pub si_status : ℕ

-- `kill_errno` is `none` where the source stores 0.
pub record LastTimeout : Type 0 where
  pub valid : Bool
  pub self_pid : ℕ
  pub child_pid : ℕ
  pub signal_number : ℕ
  pub signal_code : ℕ
  pub signal_status : ℕ
  pub kill_errno : Option Errno

-- What the system answers.
pub data ReadAnswer : Type 0 where
  got : List ℕ → ReadAnswer
  read_failed : Errno → ReadAnswer

pub data ForkAnswer : Type 0 where
  in_parent : ℕ → ForkAnswer
  in_child : ForkAnswer
  fork_failed : ForkAnswer

pub data WaitAnswer : Type 0 where
  changed : (pid wstatus : ℕ) → WaitAnswer
  wait_failed : Errno → WaitAnswer

-- The files that `AttachStdxxxFiles` opens, by the last part of their path.
pub data Stdxxx : Type 0 where
  stdin stdout stderr : Stdxxx

-- What is written to the client: a `pid_t` or a response.
pub data Message : Type 0 where
  server_pid : ℕ → Message
  response : ExecutePutApiResponse → Message

-- The system calls that the process has made, with what the later calls may depend on. `open`
-- names the file by executor id and stream, and says whether it is created for writing.
pub data Call : Type 0 where
  fopen_log : Call
  read_call : (size : ℕ) → ReadAnswer → Call
  write_call : Message → Call
  getpid_call : Call
  fork_call : ForkAnswer → Call
  open_call : (executor_id : ℕ) → Stdxxx → (create : Bool) → Call
  dup2_call : (oldfd newfd : ℕ) → Call
  close_call : ℕ → Call
  alarm_call : ℕ → Call
  kill_call : (pid : ℕ) → Call
  setitimer_call : (tv_sec tv_usec : ℕ) → Call
  sigaction_call : Call
  waitpid_call : (pid : ℕ) → WaitAnswer → Call

-- The last call stands first.
abbrev pub Trace : Type 0
Trace = List Call

-- The globals of forkserver.c, whether `PUTTimeoutHandler` is installed, and the calls so far.
pub record Daemon : Type 0 where
  pub trace : Trace
  pub put_pid : ℕ
  pub last_timeout : LastTimeout
  pub handler : Bool

abbrev pub Server : Type 0 → Type 0
Server A = Cmd Daemon A

-- The process as it starts: static storage is zeroed.
abbrev pub initial : Daemon
initial = record {
  trace = [];
  put_pid = 0;
  last_timeout = record {
    valid = false;
    self_pid = 0;
    child_pid = 0;
    signal_number = 0;
    signal_code = 0;
    signal_status = 0;
    kill_errno = none;
  };
  handler = false;
}
