-- ===== src/Executor/Host.antt =====
-- The system that the client runs on, as a parameter: each answer may depend on all calls before.
use fuzzuf_cc.Prelude.{ℕ, Bool, Option, List, ◌∷◌}
use fuzzuf_cc.ForkServer.Types.{ReadAnswer, ForkAnswer}
use fuzzuf_cc.Executor.Types.{
  Fd, EpollAnswer, Trace, Call, pipe_call, fork_call, write_call, read_call, open_call, lseek_call,
  ftruncate_call, remove_call, epoll_create_call, epoll_add_call, epoll_del_call, epoll_wait_call,
  waitpid_call, execve_call, dup2_call,
}
use fuzzuf_cc.Executor.Effect.{Cpp, done}

-- `true` is success; `none` is -1 or a null result. `epoll_wait` is told whether its timeout is -1.
pub record Host : Type 0 where
  pub pipe : Trace → Option (ℕ × ℕ)
  pub dup2 : Trace → Fd → ℕ → Bool
  pub fork : Trace → ForkAnswer
  pub execve : Trace → Bool
  pub write : Trace → Fd → List ℕ → Option ℕ
  pub read : Trace → Fd → ℕ → ReadAnswer
  pub open_file : Trace → Fd
  pub lseek : Trace → Fd → Bool
  pub ftruncate : Trace → Fd → ℕ → Bool
  pub remove : Trace → Bool
  pub epoll_create : Trace → Fd
  pub epoll_add : Trace → Fd → Fd → Bool
  pub epoll_del : Trace → Fd → Fd → Bool
  pub epoll_wait : Trace → Fd → Bool → EpollAnswer
  pub waitpid : Trace → ℕ → Bool

-- A call with its answer.
abbrev pub call : {A : Type 0} → (Trace → A) → (A → Call) → Cpp A
call answer logged c = let a = answer c.trace in done a (record c { trace = logged a ∷ c.trace })

module _ (host : Host) where
  abbrev pub pipe : Cpp (Option (ℕ × ℕ))
  pipe = call host.pipe pipe_call

  abbrev pub dup2 : Fd → ℕ → Cpp Bool
  dup2 old new = call (λ t. host.dup2 t old new) (λ _. dup2_call old new)

  abbrev pub fork : Cpp ForkAnswer
  fork = call host.fork fork_call

  abbrev pub execve : (argv envp : List (Option (List ℕ))) → Cpp Bool
  execve argv envp = call host.execve (λ _. execve_call argv envp)

  abbrev pub write : Fd → List ℕ → Cpp (Option ℕ)
  write fd bytes = call (λ t. host.write t fd bytes) (write_call fd bytes)

  abbrev pub read : Fd → ℕ → Cpp ReadAnswer
  read fd size = call (λ t. host.read t fd size) (read_call fd size)

  abbrev pub open_file : (executor_id : ℕ) → Cpp Fd
  open_file executor_id = call host.open_file (open_call executor_id)

  abbrev pub lseek : Fd → Cpp Bool
  lseek fd = call (λ t. host.lseek t fd) (λ _. lseek_call fd)

  abbrev pub ftruncate : Fd → ℕ → Cpp Bool
  ftruncate fd size = call (λ t. host.ftruncate t fd size) (λ _. ftruncate_call fd size)

  abbrev pub remove : (executor_id : ℕ) → Cpp Bool
  remove executor_id = call host.remove (λ _. remove_call executor_id)

  abbrev pub epoll_create : Cpp Fd
  epoll_create = call host.epoll_create epoll_create_call

  abbrev pub epoll_add : (epoll fd : Fd) → (events : ℕ) → Cpp Bool
  epoll_add epoll fd events =
      call (λ t. host.epoll_add t epoll fd) (λ _. epoll_add_call epoll fd events)

  abbrev pub epoll_del : (epoll fd : Fd) → Cpp Bool
  epoll_del epoll fd = call (λ t. host.epoll_del t epoll fd) (λ _. epoll_del_call epoll fd)

  abbrev pub epoll_wait : (epoll : Fd) → (forever : Bool) → Cpp EpollAnswer
  epoll_wait epoll forever =
      call (λ t. host.epoll_wait t epoll forever) (epoll_wait_call epoll forever)

  abbrev pub waitpid : ℕ → Cpp Bool
  waitpid pid = call (λ t. host.waitpid t pid) (λ _. waitpid_call pid)
