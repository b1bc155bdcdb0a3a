-- ===== src/Executor/Balance/Tidy.antt =====
-- The member functions of Pipe keep every descriptor accounted for.
use fuzzuf_cc.Executor.Balance.{opened, closings, ends, IsBalanced, Inv, Ends}
use fuzzuf_cc.Executor.Host.{Host}
use fuzzuf_cc.Prelude.{inr, inl, Bool-cases, ℕ, ◌+◌, ◌≡◌, refl, Bool, some, none, ◌∷◌, arith}
use fuzzuf_cc.Executor.Types.{dup2_call, Trace, Client, Pipe, Fd, close_call}
use fuzzuf_cc.Executor.Effect.{
  Cpp, Outcome, done, thrown, terminated, execed, out_of_fuel, and_then,
}
use fuzzuf_cc.Executor.Pipe.{fd_to_pipe, pipe_to_fd, readonly, writeonly}
use fuzzuf_cc.Executor.Start.{
  on_from_fork_server, on_target_stdout, on_target_stderr, on_to_fork_server,
}

module _ (x : ℕ) where
  -- The call changes the pipe and nothing else, and closes the ends that the pipe loses.
  abbrev pub Tidy : Pipe → Client → Outcome Pipe → Type 0
  Tidy p c (done p' c') =
      (t : Trace) × (c' ≡ record c { trace = t })
      × (opened x t ≡ opened x c.trace)
      × (closings x t + ends x p' ≡ closings x c.trace + ends x p)
  Tidy p c (thrown f c') =
      (t : Trace) × (c' ≡ record c { trace = t })
      × (opened x t ≡ opened x c.trace)
      × (closings x t ≡ closings x c.trace)
  Tidy p c (terminated c') = ⊥
  Tidy p c (execed c') = ⊥
  Tidy p c (out_of_fuel c') = ⊥

  readonly-cases :
      (r w : Fd) (c : Client)
      → Tidy
          (record { read_end = r; write_end = w })
          c
          (readonly (record { read_end = r; write_end = w }) c)
  readonly-cases r none c = (c.trace, refl, refl, refl)
  readonly-cases r (some fd) c = (close_call (some fd) ∷ c.trace, refl, refl, omega arith)

  pub readonly-Tidy : (p : Pipe) (c : Client) → Tidy p c (readonly p c)
  readonly-Tidy p c = readonly-cases p.read_end p.write_end c

  writeonly-cases :
      (r w : Fd) (c : Client)
      → Tidy
          (record { read_end = r; write_end = w })
          c
          (writeonly (record { read_end = r; write_end = w }) c)
  writeonly-cases none w c = (c.trace, refl, refl, refl)
  writeonly-cases (some fd) w c = (close_call (some fd) ∷ c.trace, refl, refl, omega arith)

  pub writeonly-Tidy : (p : Pipe) (c : Client) → Tidy p c (writeonly p c)
  writeonly-Tidy p c = writeonly-cases p.read_end p.write_end c

  pub Ends-Tidy :
      (p : Pipe) (c : Client) (r : Outcome Pipe) (k : Pipe → Cpp (Unit {0})) (P Q : Client → Type 0)
      → Tidy p c r
      → ((p' : Pipe) (t : Trace)
          → opened x t ≡ opened x c.trace
          → closings x t + ends x p' ≡ closings x c.trace + ends x p
          → Ends (k p' (record c { trace = t })) P Q)
      → ((t : Trace)
          → opened x t ≡ opened x c.trace
          → closings x t ≡ closings x c.trace
          → Q (record c { trace = t }))
      → Ends (and_then r k) P Q
  Ends-Tidy p c (done p' c') k P Q (t, e, o, n) on_done on_throw = rw e (on_done p' t o n)
  Ends-Tidy p c (thrown f c') k P Q (t, e, o, n) on_done on_throw = rw e (on_throw t o n)
  Ends-Tidy p c (terminated c') k P Q h on_done on_throw = absurd h
  Ends-Tidy p c (execed c') k P Q h on_done on_throw = absurd h
  Ends-Tidy p c (out_of_fuel c') k P Q h on_done on_throw = absurd h

  module _ (host : Host) where
    pipe_to_fd-cases :
        (r w : Fd) (fd : ℕ) (c : Client)
        → Tidy
            (record { read_end = r; write_end = w })
            c
            (pipe_to_fd host (record { read_end = r; write_end = w }) fd c)
    pipe_to_fd-cases none w fd c = readonly-Tidy (record { read_end = none; write_end = w }) c
    pipe_to_fd-cases (some r) w fd c = elim (Bool-cases (host.dup2 c.trace (some r) fd)) [
      | inl e ↦ rw e (
          readonly-Tidy (record { read_end = some r; write_end = w })
            (record c { trace = dup2_call (some r) fd ∷ c.trace }))
      | inr e ↦ rw e (dup2_call (some r) fd ∷ c.trace, refl, refl, refl)
    ]

    fd_to_pipe-cases :
        (r w : Fd) (fd : ℕ) (c : Client)
        → Tidy
            (record { read_end = r; write_end = w })
            c
            (fd_to_pipe host (record { read_end = r; write_end = w }) fd c)
    fd_to_pipe-cases r none fd c = writeonly-Tidy (record { read_end = r; write_end = none }) c
    fd_to_pipe-cases r (some w) fd c = elim (Bool-cases (host.dup2 c.trace (some w) fd)) [
      | inl e ↦ rw e (
          writeonly-Tidy (record { read_end = r; write_end = some w })
            (record c { trace = dup2_call (some w) fd ∷ c.trace }))
      | inr e ↦ rw e (dup2_call (some w) fd ∷ c.trace, refl, refl, refl)
    ]

  -- A member function keeps every descriptor accounted for.
  abbrev pub IsTidy : (Pipe → Cpp Pipe) → Type 0
  IsTidy f = (p : Pipe) (c : Client) → Tidy p c (f p c)

  pub pipe_to_fd-IsTidy : (host : Host) (fd : ℕ) → IsTidy (λ p. pipe_to_fd host p fd)
  pipe_to_fd-IsTidy host fd p c = pipe_to_fd-cases host p.read_end p.write_end fd c

  pub fd_to_pipe-IsTidy : (host : Host) (fd : ℕ) → IsTidy (λ p. fd_to_pipe host p fd)
  fd_to_pipe-IsTidy host fd p c = fd_to_pipe-cases host p.read_end p.write_end fd c

  module _ (no_stdin no_epoll : Bool) where
    abbrev pub Keeps : {A : Type 0} → Cpp A → Type 0
    Keeps m =
        (c : Client)
        → Inv x no_stdin no_epoll c
        → Ends (m c) (Inv x no_stdin no_epoll) (IsBalanced x)

    module _ (f : Pipe → Cpp Pipe) (tidy : IsTidy f) where
      pub on_to_fork_server-Keeps : Keeps (on_to_fork_server f)
      on_to_fork_server-Keeps c inv =
          Ends-Tidy c.to_fork_server c (f c.to_fork_server c) _ _ _ (tidy c.to_fork_server c)
            (λ p t o n. record {
              balanced = omega (arith, inv.balanced);
              stdin_unset = inv.stdin_unset;
              epoll_unset = inv.epoll_unset;
            })
            (λ t o n. omega (arith, inv.balanced))

      pub on_from_fork_server-Keeps : Keeps (on_from_fork_server f)
      on_from_fork_server-Keeps c inv =
          Ends-Tidy c.from_fork_server c (f c.from_fork_server c) _ _ _ (tidy c.from_fork_server c)
            (λ p t o n. record {
              balanced = omega (arith, inv.balanced);
              stdin_unset = inv.stdin_unset;
              epoll_unset = inv.epoll_unset;
            })
            (λ t o n. omega (arith, inv.balanced))

      pub on_target_stdout-Keeps : Keeps (on_target_stdout f)
      on_target_stdout-Keeps c inv =
          Ends-Tidy c.target_stdout c (f c.target_stdout c) _ _ _ (tidy c.target_stdout c)
            (λ p t o n. record {
              balanced = omega (arith, inv.balanced);
              stdin_unset = inv.stdin_unset;
              epoll_unset = inv.epoll_unset;
            })
            (λ t o n. omega (arith, inv.balanced))

      pub on_target_stderr-Keeps : Keeps (on_target_stderr f)
      on_target_stderr-Keeps c inv =
          Ends-Tidy c.target_stderr c (f c.target_stderr c) _ _ _ (tidy c.target_stderr c)
            (λ p t o n. record {
              balanced = omega (arith, inv.balanced);
              stdin_unset = inv.stdin_unset;
              epoll_unset = inv.epoll_unset;
            })
            (λ t o n. omega (arith, inv.balanced))
