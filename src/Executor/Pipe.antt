-- ===== src/Executor/Pipe.antt =====
-- The member functions of Pipe; each gives the pipe behind the call.
use fuzzuf_cc.Prelude.{ℕ, ◌∷◌, none, some, not}
use fuzzuf_cc.Executor.Types.{
  Fd, Pipe, pipe_failed, pipe_to_fd_failed, fd_to_pipe_failed, close_call,
}
use fuzzuf_cc.Executor.Effect.{Cpp, done, pure, throw, throw_if, ◌>>=◌, ◌>>◌}
use fuzzuf_cc.Executor.Host.{Host, pipe, dup2}

-- `close`, whose result is not looked at.
abbrev pub close : ℕ → Cpp (Unit {0})
close fd c = done tt (record c { trace = close_call (some fd) ∷ c.trace })

abbrev pub readonly : Pipe → Cpp Pipe
readonly p = elim p.write_end [
  | none ↦ pure p
  | some fd ↦ close fd >> pure record p { write_end = none }
]

abbrev pub writeonly : Pipe → Cpp Pipe
writeonly p = elim p.read_end [
  | none ↦ pure p
  | some fd ↦ close fd >> pure record p { read_end = none }
]

abbrev pub close_both : Pipe → Cpp Pipe
close_both p = readonly p >>= writeonly

abbrev pub get_fd : Pipe → Fd
get_fd p = elim p.read_end [ none ↦ p.write_end | some fd ↦ some fd ]

module _ (host : Host) where
  -- The constructor.
  abbrev pub new : Cpp Pipe
  new = pipe host >>= λ answer. elim answer [
    | none ↦ throw pipe_failed
    | some (r, w) ↦ pure record { read_end = some r; write_end = some w }
  ]

  abbrev pub pipe_to_fd : Pipe → (fd : ℕ) → Cpp Pipe
  pipe_to_fd p fd =
      (elim p.read_end [
        | none ↦ pure tt
        | some r ↦ dup2 host (some r) fd >>= λ done. throw_if (not done) pipe_to_fd_failed
      ])
      >> readonly p

  abbrev pub fd_to_pipe : Pipe → (fd : ℕ) → Cpp Pipe
  fd_to_pipe p fd =
      (elim p.write_end [
        | none ↦ pure tt
        | some w ↦ dup2 host (some w) fd >>= λ done. throw_if (not done) fd_to_pipe_failed
      ])
      >> writeonly p
