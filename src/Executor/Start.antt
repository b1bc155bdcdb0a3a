-- ===== src/Executor/Start.antt =====
-- The constructor and the destructor of Executor, OpenStdin, CloseStdin and CallForkServerAPI.
use fuzzuf_cc.Prelude.{
  ◌+◌, ℕ, not, Option, none, some, List, ◌∷◌, [], ◌++◌, map, length, take, ltb, if◌then◌else◌,
}
use fuzzuf_cc.Bytes.{to_bytes, from_bytes}
use fuzzuf_cc.ForkServer.Types.{
  ForkServerApi, set_put_execution_timeout_command, read_stdin_command, save_stdout_stderr_command,
  execute_put_command, unknown_command, forksrv_fd_read, forksrv_fd_write, sizeof_command,
  sizeof_u64, sizeof_pid, got, read_failed, in_parent, in_child, ForkAnswer,
}
use fuzzuf_cc.Executor.Types.{
  Client, Pipe, Fd, epollin, epollrdhup, executor_id_not_set, pid_not_read, connection_closed,
  stdout_not_attached, stderr_not_attached, from_fork_server_not_attached, open_failed,
  remove_failed, command_not_written, execve_failed, Failure,
}
use fuzzuf_cc.Executor.Effect.{
  Cpp, done, pure, throw, get, throw_if, cleaned, noexcept, terminated, execed, ◌>>=◌, ◌>>◌,
}
use fuzzuf_cc.Executor.Host.{
  Host, fork, execve, write, read, open_file, remove, epoll_create, epoll_add, waitpid,
}
use fuzzuf_cc.Executor.Pipe.{
  new, close, readonly, writeonly, close_both, get_fd, pipe_to_fd, fd_to_pipe,
}

abbrev pub modify : (Client → Client) → Cpp (Unit {0})
modify f c = done tt (f c)

-- A member function on one of the pipes.
abbrev pub on_to_fork_server : (Pipe → Cpp Pipe) → Cpp (Unit {0})
on_to_fork_server f =
    get >>= λ c. f c.to_fork_server >>= λ p. modify (λ c. record c { to_fork_server = p })

abbrev pub on_from_fork_server : (Pipe → Cpp Pipe) → Cpp (Unit {0})
on_from_fork_server f =
    get >>= λ c. f c.from_fork_server >>= λ p. modify (λ c. record c { from_fork_server = p })

abbrev pub on_target_stdout : (Pipe → Cpp Pipe) → Cpp (Unit {0})
on_target_stdout f =
    get >>= λ c. f c.target_stdout >>= λ p. modify (λ c. record c { target_stdout = p })

abbrev pub on_target_stderr : (Pipe → Cpp Pipe) → Cpp (Unit {0})
on_target_stderr f =
    get >>= λ c. f c.target_stderr >>= λ p. modify (λ c. record c { target_stderr = p })

-- The destructors of the members, the last one first.
abbrev pub destroy_pipes : Cpp (Unit {0})
destroy_pipes =
    on_target_stderr close_both
    >> on_target_stdout close_both
    >> on_from_fork_server close_both
    >> on_to_fork_server close_both

-- The value of the enum.
abbrev pub number : ForkServerApi → ℕ
number set_put_execution_timeout_command = 1
number read_stdin_command = 2
number save_stdout_stderr_command = 3
number execute_put_command = 4
number (unknown_command n) = n

-- Strings for `execve`, with the null pointer behind them.
abbrev pub terminated_by_null : List (List ℕ) → List (Option (List ℕ))
terminated_by_null args = map some args ++ (none ∷ [])

module _ (host : Host) where
  -- The initializers of the pipes.
  abbrev pub make_pipes : Cpp (Unit {0})
  make_pipes =
      on_to_fork_server (λ _. new host)
      >> on_from_fork_server (λ _. new host)
      >> on_target_stdout (λ _. new host)
      >> on_target_stderr (λ _. new host)

  unfoldable pub call_fork_server_api : ForkServerApi → Cpp (Unit {0})
  call_fork_server_api command = get >>= λ c.
      write host (get_fd c.to_fork_server) (to_bytes sizeof_command (number command)) >>= λ count.
      elim count [ none ↦ throw command_not_written | some _ ↦ pure tt ]

  unfoldable pub open_stdin : Cpp (Unit {0})
  open_stdin = get >>= λ c. open_file host c.executor_id >>= λ fd.
      modify (λ c. record c { target_stdin_fd = fd })
      >> elim fd [ none ↦ throw open_failed | some _ ↦ call_fork_server_api read_stdin_command ]

  unfoldable pub close_stdin : Cpp (Unit {0})
  close_stdin = get >>= λ c.
      (elim c.target_stdin_fd [ none ↦ pure tt | some fd ↦ close fd ])
      >> remove host c.executor_id
      >>= λ removed. throw_if (not removed) remove_failed

  -- The new process.
  unfoldable pub become_fork_server : (args env : List (List ℕ)) → Cpp (Unit {0})
  become_fork_server args env =
      on_to_fork_server (λ p. pipe_to_fd host p forksrv_fd_read)
      >> on_from_fork_server (λ p. fd_to_pipe host p forksrv_fd_write)
      >> on_target_stdout (λ p. fd_to_pipe host p 1)
      >> on_target_stderr (λ p. fd_to_pipe host p 2)
      >> execve host (terminated_by_null args) (terminated_by_null env)
      >>= λ replaced. if replaced then execed else throw execve_failed

  abbrev pub attach : Fd → Failure → Cpp (Unit {0})
  attach fd failure = get >>= λ c.
      epoll_add host c.epoll_fd fd (epollin + epollrdhup) >>= λ added. throw_if (not added) failure

  abbrev pub set_executor_id : Cpp (Unit {0})
  set_executor_id = get >>= λ c.
      write host (get_fd c.to_fork_server) (to_bytes sizeof_u64 c.executor_id) >>= λ count.
      elim count [
        | none ↦ throw executor_id_not_set
        | some n ↦ throw_if (ltb n sizeof_u64) executor_id_not_set
      ]

  abbrev pub read_pid : Cpp (Unit {0})
  read_pid = get >>= λ c. read host (get_fd c.from_fork_server) sizeof_pid >>= λ answer.
      elim answer [
        | read_failed e ↦ throw pid_not_read
        | got bytes ↦
            if ltb (length bytes) sizeof_pid
            then throw connection_closed
            else modify (λ c. record c { fork_server_pid = from_bytes (take sizeof_pid bytes) })
      ]

  abbrev pub attach_pipes : Cpp (Unit {0})
  attach_pipes = get >>= λ c.
      attach (get_fd c.target_stdout) stdout_not_attached
      >> attach (get_fd c.target_stderr) stderr_not_attached
      >> attach (get_fd c.from_fork_server) from_fork_server_not_attached

  abbrev pub create_epoll : Cpp (Unit {0})
  create_epoll = epoll_create host >>= λ fd. modify (λ c. record c { epoll_fd = fd })

  unfoldable pub connect : Cpp (Unit {0})
  connect =
      on_to_fork_server writeonly
      >> on_from_fork_server readonly
      >> on_target_stdout readonly
      >> on_target_stderr readonly
      >> set_executor_id
      >> read_pid
      >> open_stdin
      >> create_epoll
      >> attach_pipes

  -- The body of the constructor.
  abbrev pub start : (args env : List (List ℕ)) → Cpp (Unit {0})
  start args env = fork host >>= λ answer. elim answer [
    | ForkAnswer.fork_failed ↦ throw Failure.fork_failed
    | in_child ↦ become_fork_server args env
    | in_parent pid ↦ modify (λ c. record c { fork_server_pid = pid }) >> connect
  ]

  unfoldable pub construct : (args env : List (List ℕ)) → Cpp (Unit {0})
  construct args env c = cleaned ((make_pipes >> start args env) c) destroy_pipes

  -- What the destructor does behind CloseStdin.
  abbrev pub release : Cpp (Unit {0})
  release =
      on_target_stdout close_both
      >> on_target_stderr close_both
      >> on_to_fork_server close_both
      >> on_from_fork_server close_both
      >> get
      >>= λ c. waitpid host c.fork_server_pid >>= λ waited. if waited then pure tt else terminated

  -- The destructors of the pipes that run behind the body find nothing to close.
  unfoldable pub destroy : Cpp (Unit {0})
  destroy c = noexcept ((close_stdin >> release) c)
