-- ===== src/ForkServer/Os.antt =====
-- The system that the server runs on, as a parameter. Each answer may depend on every call that
-- the process has made before.
use fuzzuf_cc.Prelude.{ℕ, Bool, Option, List, ◌∷◌}
use fuzzuf_cc.Prelude.Effect.{ok}
use fuzzuf_cc.ForkServer.Types.{
  Errno, ReadAnswer, ForkAnswer, WaitAnswer, Stdxxx, Message, SigInfo, Trace, Call, Server,
  read_call, write_call, getpid_call, fork_call, open_call, waitpid_call, kill_call, setitimer_call,
}

-- `alarms` lists the SIGALRM signals that are delivered at a point where the process may be
-- interrupted. `write` is the number of bytes written, `none` for -1; so `open` for the descriptor.
-- The last six are the macros of <sys/wait.h>.
pub record Os : Type 0 where
  pub fopen : Trace → Bool
  pub read : Trace → ℕ → ReadAnswer
  pub write : Trace → Message → Option ℕ
  pub getpid : Trace → ℕ
  pub fork : Trace → ForkAnswer
  pub open_file : Trace → ℕ → Stdxxx → Bool → Option ℕ
  pub setitimer : Trace → ℕ → ℕ → Bool
  pub sigaction : Trace → Bool
  pub kill : Trace → ℕ → Option Errno
  pub waitpid : Trace → ℕ → WaitAnswer
  pub alarms : Trace → List SigInfo
  pub wifexited : ℕ → Bool
  pub wexitstatus : ℕ → ℕ
  pub wifsignaled : ℕ → Bool
  pub wtermsig : ℕ → ℕ

-- Appends a call to the trace.
abbrev pub log : Call → Server (Unit {0})
log c d = ok tt (record d { trace = c ∷ d.trace })

module _ (os : Os) where
  -- One system call each: the answer of the system, and the call put on record.
  abbrev pub read : ℕ → Server ReadAnswer
  read size d =
      let answer = os.read d.trace size in
      ok answer (record d { trace = read_call size answer ∷ d.trace })

  abbrev pub write : Message → Server (Option ℕ)
  write m d = ok (os.write d.trace m) (record d { trace = write_call m ∷ d.trace })

  abbrev pub getpid : Server ℕ
  getpid d = ok (os.getpid d.trace) (record d { trace = getpid_call ∷ d.trace })

  abbrev pub fork : Server ForkAnswer
  fork d =
      let answer = os.fork d.trace in ok answer (record d { trace = fork_call answer ∷ d.trace })

  abbrev pub open_file : ℕ → Stdxxx → Bool → Server (Option ℕ)
  open_file id s create d =
      ok (os.open_file d.trace id s create) (record d { trace = open_call id s create ∷ d.trace })

  abbrev pub setitimer : ℕ → ℕ → Server Bool
  setitimer sec usec d =
      ok (os.setitimer d.trace sec usec) (record d { trace = setitimer_call sec usec ∷ d.trace })

  abbrev pub kill : ℕ → Server (Option Errno)
  kill pid d = ok (os.kill d.trace pid) (record d { trace = kill_call pid ∷ d.trace })

  abbrev pub waitpid : ℕ → Server WaitAnswer
  waitpid pid d =
      let answer = os.waitpid d.trace pid in
      ok answer (record d { trace = waitpid_call pid answer ∷ d.trace })
