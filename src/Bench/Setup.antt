-- ===== src/Bench/Setup.antt =====
-- AttachToServer, WaitForkServerStart, SetupForkserver, Send, SendCommand, SetPUTExecutionTimeout,
-- GetTestCase and SetupTest.
use fuzzuf_cc.Prelude.{
  ℕ, Bool, true, false, not, Option, none, some, List, [], ◌∷◌, length, take, ltb, ◌==◌,
  if◌then◌else◌,
}
use fuzzuf_cc.Prelude.Effect.{ok, pure, get, exit, aborted, ◌>>=◌, ◌>>◌}
use fuzzuf_cc.Bytes.{to_bytes, from_bytes}
use fuzzuf_cc.ForkServer.Types.{
  ForkServerApi, set_put_execution_timeout_command, read_stdin_command, save_stdout_stderr_command,
  forksrv_fd_read, forksrv_fd_write, sizeof_command, sizeof_u64, sizeof_pid, got, read_failed,
  in_parent, in_child, fork_failed,
}
use fuzzuf_cc.Executor.Host.{Host}
use fuzzuf_cc.Executor.Start.{number}
use fuzzuf_cc.Bench.Calls.{Environment, Client, close, pipe, dup2, fork, execve, write, read}
use fuzzuf_cc.Exif.App1.{same_bytes}

-- What comes of `fork` and `execv`: the process is the server's client, or another program.
pub data Setup : Type 0 where
  client_of : (pid : ℕ) → Setup
  replaced : Setup

abbrev pub exit_if : Bool → Client (Unit {0})
exit_if true = exit 1
exit_if false = pure tt

-- The test of an `assert`.
abbrev pub assert : Bool → Client (Unit {0})
assert true b = ok tt b
assert false b = aborted b

abbrev pub set_fds : (write_fd read_fd : ℕ) → Client (Unit {0})
set_fds w r b = ok tt (record b { forksrv_write_fd = some w; forksrv_read_fd = some r })

-- "stdin" and "stdout"
abbrev pub stdin_case : List ℕ
stdin_case = 115 ∷ 116 ∷ 100 ∷ 105 ∷ 110 ∷ []

abbrev pub stdout_case : List ℕ
stdout_case = 115 ∷ 116 ∷ 100 ∷ 111 ∷ 117 ∷ 116 ∷ []

-- The result of `write` is less than `n`.
abbrev pub less_than : ℕ → Option ℕ → Bool
less_than n none = true
less_than n (some count) = ltb count n

abbrev pub get_test_case : Environment → List ℕ
get_test_case env = elim env.test [ none ↦ [] | some test_case ↦ test_case ]

module _ (host : Host) where
  unfoldable pub attach_to_server : (executor_id : ℕ) → Client (Unit {0})
  attach_to_server executor_id = get >>= λ b.
      write host b.forksrv_write_fd (to_bytes sizeof_u64 executor_id) >>= λ count.
      exit_if (less_than sizeof_u64 count)

  unfoldable pub wait_fork_server_start : Client ℕ
  wait_fork_server_start = get >>= λ b. read host b.forksrv_read_fd sizeof_pid >>= λ answer.
      elim answer [
        | read_failed e ↦ exit 1
        | got bytes ↦
            exit_if (ltb (length bytes) sizeof_pid) >> pure (from_bytes (take sizeof_pid bytes))
      ]

  -- The new process; the first pipe is the one to the child.
  unfoldable pub become_server :
      (to from : ℕ × ℕ) → (pargv env : List (Option (List ℕ))) → Client Setup
  become_server to from pargv env = dup2 host (some to.0) forksrv_fd_read >>= λ first.
      exit_if (not first) >> dup2 host (some from.1) forksrv_fd_write >>= λ second.
      exit_if (not second)
      >> close (some to.0)
      >> close (some to.1)
      >> close (some from.0)
      >> close (some from.1)
      >> execve host pargv env
      >>= λ success. if success then pure replaced else exit 0

  unfoldable pub become_client : (to from : ℕ × ℕ) → (forksrv_pid : ℕ) → Client Setup
  become_client to from forksrv_pid =
      close (some to.0)
      >> close (some from.1)
      >> set_fds to.1 from.0
      >> attach_to_server 1
      >> wait_fork_server_start
      >>= λ pid. assert (pid == forksrv_pid) >> pure (client_of forksrv_pid)

  abbrev pub with_pipes : (pargv env : List (Option (List ℕ))) → (to from : ℕ × ℕ) → Client Setup
  with_pipes pargv env to from = fork host >>= λ answer. elim answer [
    | fork_failed ↦ exit 1
    | in_child ↦ become_server to from pargv env
    | in_parent pid ↦ become_client to from pid
  ]

  unfoldable pub setup_forkserver : (pargv env : List (Option (List ℕ))) → Client Setup
  setup_forkserver pargv env = pipe host >>= λ par2chld. elim par2chld [
    | none ↦ exit 1
    | some to ↦ pipe host >>= λ chld2par. elim chld2par [
      | none ↦ exit 1
      | some from ↦ with_pipes pargv env to from
    ]
  ]

  unfoldable pub send : List ℕ → Client ℕ
  send buf = get >>= λ b. write host b.forksrv_write_fd buf >>= λ nbytes. elim nbytes [
    | none ↦ exit 1
    | some n ↦ pure n
  ]

  unfoldable pub send_command : ForkServerApi → Client ℕ
  send_command command = send (to_bytes sizeof_command (number command))

  unfoldable pub set_put_execution_timeout : (timeout_us : ℕ) → Client (Unit {0})
  set_put_execution_timeout timeout_us =
      send_command set_put_execution_timeout_command
      >> send (to_bytes sizeof_u64 timeout_us)
      >> pure tt

  unfoldable pub setup_test : (test_case : List ℕ) → Client (Unit {0})
  setup_test test_case =
      if same_bytes test_case stdin_case
      then send_command read_stdin_command >> pure tt
      else if same_bytes test_case stdout_case
      then send_command save_stdout_stderr_command >> pure tt
      else pure tt
