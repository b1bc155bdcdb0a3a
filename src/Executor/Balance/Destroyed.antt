-- ===== src/Executor/Balance/Destroyed.antt =====
-- The descriptors of a client, from the constructor to the destructor.
use fuzzuf_cc.Executor.Effect.{
  ◌>>◌, Outcome, done, thrown, terminated, execed, out_of_fuel, cleaned, noexcept,
}
use fuzzuf_cc.Prelude.{
  not, Option-cases, ℕ, ◌+◌, ◌≡◌, refl, ap, true, false, some, none, List, ◌∷◌, arith, Bool-cases,
  inl, inr,
}
use fuzzuf_cc.Executor.Types.{Trace, Client, Pipe, Fd, close_call, closed, unconstructed}
use fuzzuf_cc.Executor.Host.{Host}
use fuzzuf_cc.Executor.Pipe.{close_both}
use fuzzuf_cc.Executor.Start.{
  release, destroy_pipes, construct, destroy, close_stdin, start, make_pipes,
}
use fuzzuf_cc.Executor.Balance.{
  Ends_mono, Ends-throw_if, opened, closings, count, ends, IsBalanced, Inv, Ends, Ends-and_then,
}
use fuzzuf_cc.Executor.Balance.Constructed.{make_pipes-Ends, start-Ends}

module _ (x : ℕ) where
  close_both-cases :
      (r w : Fd) (c : Client)
      → (t : Trace) × (close_both (record { read_end = r; write_end = w }) c
          ≡ done closed (record c { trace = t }))
        × (opened x t ≡ opened x c.trace)
        × (closings x t ≡ closings x c.trace + (count x r + count x w))
  close_both-cases none none c = (c.trace, refl, refl, omega arith)
  close_both-cases (some r) none c = (close_call (some r) ∷ c.trace, refl, refl, omega arith)
  close_both-cases none (some w) c = (close_call (some w) ∷ c.trace, refl, refl, omega arith)
  close_both-cases (some r) (some w) c =
      (close_call (some r) ∷ close_call (some w) ∷ c.trace, refl, refl, omega arith)

  abbrev all_closed : Client → Trace → Client
  all_closed c t = record c {
    trace = t;
    to_fork_server = closed;
    from_fork_server = closed;
    target_stdout = closed;
    target_stderr = closed;
  }

  abbrev pipe_ends : Client → ℕ
  pipe_ends c =
      ends x c.to_fork_server
      + ends x c.from_fork_server
      + ends x c.target_stdout
      + ends x c.target_stderr

  close_both-closed :
      (p : Pipe) (c : Client)
      → (t : Trace) × (close_both p c ≡ done closed (record c { trace = t }))
        × (opened x t ≡ opened x c.trace)
        × (closings x t ≡ closings x c.trace + ends x p)
  close_both-closed p c = close_both-cases p.read_end p.write_end c

  destroy_pipes-closed :
      (c : Client)
      → (t : Trace) × (destroy_pipes c ≡ done tt (all_closed c t))
        × (opened x t ≡ opened x c.trace)
        × (closings x t ≡ closings x c.trace + pipe_ends c)
  destroy_pipes-closed c =
      let (t1, e1, o1, n1) = close_both-closed c.target_stderr c in
      let (t2, e2, o2, n2) =
        close_both-closed c.target_stdout (record c { trace = t1; target_stderr = closed }) in
      let (t3, e3, o3, n3) =
        close_both-closed c.from_fork_server
          (record c { trace = t2; target_stderr = closed; target_stdout = closed }) in
      let (t4, e4, o4, n4) = close_both-closed c.to_fork_server (record c {
        trace = t3;
        target_stderr = closed;
        target_stdout = closed;
        from_fork_server = closed;
      }) in
      (t4, rw (e1, e2, e3, e4), omega (arith, o1, o2, o3, o4), omega (arith, n1, n2, n3, n4))

  -- What is open and no pipe of the client: the file of standard input and the epoll descriptor.
  abbrev pub OnlyFiles : Client → Type 0
  OnlyFiles c =
      opened x c.trace ≡ closings x c.trace + (count x c.target_stdin_fd + count x c.epoll_fd)

  -- What is open is the epoll descriptor alone.
  abbrev pub OnlyEpoll : Client → Type 0
  OnlyEpoll c = opened x c.trace ≡ closings x c.trace + count x c.epoll_fd

  cleaned-Ends :
      (r : Outcome (Unit {0}))
      → Ends r (Inv x false false) (IsBalanced x)
      → Ends (cleaned r destroy_pipes) (IsBalanced x) OnlyFiles
  cleaned-Ends (done a c) inv = inv.balanced
  cleaned-Ends (thrown f c) balanced =
      let (t, e, o, n) = destroy_pipes-closed c in rw e (omega (arith, o, n, balanced))
  cleaned-Ends (terminated c) h = tt
  cleaned-Ends (execed c) h = tt
  cleaned-Ends (out_of_fuel c) h = tt

  noexcept-Ends :
      (r : Outcome (Unit {0})) (P Q Q' : Client → Type 0) → Ends r P Q → Ends (noexcept r) P Q'
  noexcept-Ends (done a c) P Q Q' h = h
  noexcept-Ends (thrown f c) P Q Q' h = tt
  noexcept-Ends (terminated c) P Q Q' h = tt
  noexcept-Ends (execed c) P Q Q' h = tt
  noexcept-Ends (out_of_fuel c) P Q Q' h = tt

  module _ (host : Host) where
    construct-Ends :
        (args env : List (List ℕ))
        → Ends (construct host args env unconstructed) (IsBalanced x) OnlyFiles
    unfolding construct
    construct-Ends args env = cleaned-Ends _ (
        Ends-and_then (make_pipes host unconstructed) (λ _. start host args env) (Inv x true true)
          (Inv x false false) (IsBalanced x) (make_pipes-Ends x host)
          (λ a c inv. start-Ends x host args env c inv))

    -- The descriptors behind close_stdin.
    abbrev Rest : Client → Type 0
    Rest c = opened x c.trace ≡ closings x c.trace + (pipe_ends c + count x c.epoll_fd)

    close_stdin-Ends : (c : Client) → IsBalanced x c → Ends (close_stdin host c) Rest (λ _. Unit)
    unfolding close_stdin
    close_stdin-Ends c balanced = elim (Option-cases c.target_stdin_fd) [
      | inl e ↦
          let rest : opened x c.trace ≡ closings x c.trace + (pipe_ends c + count x c.epoll_fd) =
            omega (arith, balanced, ap (count x) e) in
          rw e (Ends-throw_if (not (host.remove c.trace)) _ _ Rest (λ _. Unit) rest tt)
      | inr (fd, e) ↦
          let rest : opened x c.trace
              ≡ count x (some fd) + closings x c.trace + (pipe_ends c + count x c.epoll_fd) =
            omega (arith, balanced, ap (count x) e) in
          rw e (
            Ends-throw_if (not (host.remove (close_call (some fd) ∷ c.trace))) _ _ Rest (λ _. Unit)
              rest tt)
    ]

    release-Ends : (c : Client) → Rest c → Ends (release host c) OnlyEpoll (λ _. Unit)
    release-Ends c rest =
        let (t1, e1, o1, n1) = close_both-closed c.target_stdout c in
        let (t2, e2, o2, n2) =
          close_both-closed c.target_stderr (record c { trace = t1; target_stdout = closed }) in
        let (t3, e3, o3, n3) =
          close_both-closed c.to_fork_server
            (record c { trace = t2; target_stderr = closed; target_stdout = closed }) in
        let (t4, e4, o4, n4) = close_both-closed c.from_fork_server (record c {
          trace = t3;
          target_stderr = closed;
          target_stdout = closed;
          to_fork_server = closed;
        }) in
        elim (Bool-cases (host.waitpid t4 c.fork_server_pid)) [
          | inl e ↦ rw (e1, e2, e3, e4, e) (omega (arith, o1, o2, o3, o4, n1, n2, n3, n4, rest))
          | inr e ↦ rw (e1, e2, e3, e4, e) tt
        ]

    destroy-Ends : (c : Client) → IsBalanced x c → Ends (destroy host c) OnlyEpoll (λ _. ⊥)
    unfolding destroy
    destroy-Ends c balanced =
        noexcept-Ends _ OnlyEpoll (λ _. Unit) (λ _. ⊥)
          (Ends-and_then (close_stdin host c) (λ _. release host) Rest OnlyEpoll (λ _. Unit)
            (close_stdin-Ends c balanced) (λ a c1 rest. release-Ends c1 rest))

    -- Whatever the system answers, and for every descriptor number: when the constructor and the
    -- destructor of an executor have run, that descriptor has been closed as often as the calls of
    -- pipe, open and epoll_create gave it, once less if it is the epoll descriptor; and when the
    -- constructor has thrown, once less also for the file of standard input. The destructor throws
    -- nothing; of a process that becomes another program, or that the destructor ends, nothing is
    -- said.
    pub construct-destroy :
        (args env : List (List ℕ))
        → Ends ((construct host args env >> destroy host) unconstructed) OnlyEpoll OnlyFiles
    construct-destroy args env =
        Ends-and_then (construct host args env unconstructed) (λ _. destroy host) (IsBalanced x)
          OnlyEpoll OnlyFiles (construct-Ends args env)
          (λ a c balanced.
            Ends_mono (destroy host c) OnlyEpoll OnlyEpoll (λ _. ⊥) OnlyFiles (λ c h. h)
              (λ c h. absurd h) (destroy-Ends c balanced))
