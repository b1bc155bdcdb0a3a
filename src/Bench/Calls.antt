-- ===== src/Bench/Calls.antt =====
-- The state of the benchmark client and its system calls; its messages on the terminal are left
-- out, `exit` and failed assertions are outcomes of a run. A division by zero and a signed overflow
-- are a fault.
use fuzzuf_cc.Prelude.{ℕ, Bool, Option, none, List, [], ◌∷◌}
use fuzzuf_cc.Prelude.Effect.{Cmd, ok}
use fuzzuf_cc.ForkServer.Types.{ReadAnswer, ForkAnswer}
use fuzzuf_cc.Executor.Types.{
  Fd, Call, Trace, pipe_call, close_call, dup2_call, fork_call, execve_call, write_call, read_call,
}
use fuzzuf_cc.Executor.Host.{Host}

-- The variables `N` and `TEST` of the environment and all of it, `atoi` with its result as 32
-- bits, and the steady clock in microseconds.
pub record Environment : Type 0 where
  pub n : Option (List ℕ)
  pub test : Option (List ℕ)
  pub environ : List (Option (List ℕ))
  pub atoi : List ℕ → ℕ
  pub now : Trace → ℕ

-- The globals, and the calls so far.
pub record Bench : Type 0 where
  pub trace : Trace
  pub forksrv_write_fd : Fd
  pub forksrv_read_fd : Fd

abbrev pub initial : Bench
initial = record { trace = []; forksrv_write_fd = none; forksrv_read_fd = none }

abbrev pub Client : Type 0 → Type 0
Client A = Cmd Bench A

-- A call with its answer.
abbrev pub call : {A : Type 0} → (Trace → A) → (A → Call) → Client A
call answer logged b = let a = answer b.trace in ok a (record b { trace = logged a ∷ b.trace })

abbrev pub close : Fd → Client (Unit {0})
close fd b = ok tt (record b { trace = close_call fd ∷ b.trace })

module _ (host : Host) where
  abbrev pub pipe : Client (Option (ℕ × ℕ))
  pipe = call host.pipe pipe_call

  abbrev pub dup2 : Fd → ℕ → Client Bool
  dup2 old new = call (λ t. host.dup2 t old new) (λ _. dup2_call old new)

  abbrev pub fork : Client ForkAnswer
  fork = call host.fork fork_call

  abbrev pub execve : (argv envp : List (Option (List ℕ))) → Client Bool
  execve argv envp = call host.execve (λ _. execve_call argv envp)

  abbrev pub write : Fd → List ℕ → Client (Option ℕ)
  write fd bytes = call (λ t. host.write t fd bytes) (write_call fd bytes)

  abbrev pub read : Fd → ℕ → Client ReadAnswer
  read fd size = call (λ t. host.read t fd size) (read_call fd size)
