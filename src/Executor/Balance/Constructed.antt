-- ===== src/Executor/Balance/Constructed.antt =====
-- The descriptors of the constructor, on every path.
use fuzzuf_cc.Executor.Balance.{
  count, opened, closings, IsBalanced, Inv, Ends, Ends-and_then, Ends-throw_if,
}
use fuzzuf_cc.Executor.Balance.Tidy.{
  fd_to_pipe-IsTidy, pipe_to_fd-IsTidy, readonly-Tidy, on_to_fork_server-Keeps,
  on_from_fork_server-Keeps, on_target_stdout-Keeps, on_target_stderr-Keeps, writeonly-Tidy,
}
use fuzzuf_cc.ForkServer.Types.{
  forksrv_fd_write, forksrv_fd_read, in_child, in_parent, ForkAnswer, got, read_failed, Errno,
  sizeof_pid, ReadAnswer, read_stdin_command, sizeof_u64, sizeof_command, ForkServerApi,
}
use fuzzuf_cc.Executor.Types.{
  execve_failed, fork_call, open_call, Trace, Client, Fd, Failure, pipe_call, unconstructed,
}
use fuzzuf_cc.Prelude.{
  if◌then◌else◌, ℕ, List, ◌⊎◌, length, Bool-cases, ap, false, ◌≡◌, refl, Bool, true, some, [], ◌∷◌,
  arith, not, ltb, Option-cases, inl, inr,
}
use fuzzuf_cc.Bytes.{to_bytes}
use fuzzuf_cc.Executor.Effect.{throw, execed, Cpp, ◌>>=◌, ◌>>◌}
use fuzzuf_cc.Executor.Host.{execve, Host}
use fuzzuf_cc.Executor.Pipe.{readonly, writeonly, get_fd}
use fuzzuf_cc.Executor.Start.{
  become_fork_server, start, create_epoll, on_target_stderr, on_target_stdout, on_from_fork_server,
  on_to_fork_server, connect, open_stdin, read_pid, make_pipes, set_executor_id,
  call_fork_server_api, attach, attach_pipes, number,
}

module _ (x : ℕ) where
  -- From one state of the members to another.
  abbrev Goes : {A : Type 0} → (a b a' b' : Bool) → Cpp A → Type 0
  Goes a b a' b' m = (c : Client) → Inv x a b c → Ends (m c) (Inv x a' b') (IsBalanced x)

  Goes-bind :
      {A B : Type 0} (a b a' b' a'' b'' : Bool) (m : Cpp A) (k : A → Cpp B)
      → Goes a b a' b' m
      → ((x : A) → Goes a' b' a'' b'' (k x))
      → Goes a b a'' b'' (m >>= k)
  Goes-bind a b a' b' a'' b'' m k first next c inv =
      Ends-and_then (m c) k (Inv x a' b') (Inv x a'' b'') (IsBalanced x) (first c inv) next

  -- Within one state.
  Keeps-then :
      {A B : Type 0} (a b : Bool) (m : Cpp A) (n : Cpp B)
      → Goes a b a b m
      → Goes a b a b n
      → Goes a b a b (m >> n)
  Keeps-then a b m n first next = Goes-bind a b a b a b m (λ _. n) first (λ _. next)

  -- Calls that open and close nothing.
  after :
      {a b : Bool} (c : Client) (t : Trace)
      → opened x t ≡ opened x c.trace
      → closings x t ≡ closings x c.trace
      → Inv x a b c
      → Inv x a b (record c { trace = t })
  after c t o n inv = record {
    balanced = omega (arith, inv.balanced);
    stdin_unset = inv.stdin_unset;
    epoll_unset = inv.epoll_unset;
  }

  ReadAnswer-cases :
      (a : ReadAnswer) → ((e : Errno) × (a ≡ read_failed e)) ⊎ ((bytes : List ℕ) × (a ≡ got bytes))
  ReadAnswer-cases (got bytes) = inr (bytes, refl)
  ReadAnswer-cases (read_failed e) = inl (e, refl)

  module _ (host : Host) (a b : Bool) where
    set_executor_id-Goes : Goes a b a b (set_executor_id host)
    set_executor_id-Goes c inv =
        elim (Option-cases
          (host.write c.trace (get_fd c.to_fork_server) (to_bytes sizeof_u64 c.executor_id))) [
            | inl e ↦ rw e inv.balanced
            | inr (n, e) ↦
                rw e
                  (Ends-throw_if (ltb n sizeof_u64) _ _ _ _ (after c _ refl refl inv) inv.balanced)
          ]

    call_fork_server_api-Goes :
        (command : ForkServerApi) → Goes a b a b (call_fork_server_api host command)
    unfolding call_fork_server_api
    call_fork_server_api-Goes command c inv =
        elim (Option-cases (
          host.write c.trace (get_fd c.to_fork_server)
            (to_bytes sizeof_command (number command)))) [
              | inl e ↦ rw e inv.balanced
              | inr (n, e) ↦ rw e (after c _ refl refl inv)
            ]

    attach-Goes : (fd : Fd) (failure : Failure) → Goes a b a b (attach host fd failure)
    attach-Goes fd failure c inv =
        Ends-throw_if (not (host.epoll_add c.trace c.epoll_fd fd)) _ _ _ _ (after c _ refl refl inv)
          inv.balanced

    attach_pipes-Goes : Goes a b a b (attach_pipes host)
    attach_pipes-Goes c inv =
        Keeps-then a b _ _
          (Keeps-then a b _ _ (attach-Goes (get_fd c.target_stdout) _)
            (attach-Goes (get_fd c.target_stderr) _))
          (attach-Goes (get_fd c.from_fork_server) _) c inv

  pub make_pipes-Ends :
      (host : Host) → Ends (make_pipes host unconstructed) (Inv x true true) (IsBalanced x)
  make_pipes-Ends host = elim (Option-cases (host.pipe [])) [
    | inl e ↦ rw e (omega arith)
    | inr (p, e) ↦ elim (Option-cases (host.pipe (pipe_call (some p) ∷ []))) [
      | inl e1 ↦ rw (e, e1) (omega arith)
      | inr (p1, e1) ↦
          elim (Option-cases (host.pipe (pipe_call (some p1) ∷ pipe_call (some p) ∷ []))) [
            | inl e2 ↦ rw (e, e1, e2) (omega arith)
            | inr (p2, e2) ↦
                elim (Option-cases (
                  host.pipe
                    (pipe_call (some p2) ∷ pipe_call (some p1) ∷ pipe_call (some p) ∷ []))) [
                      | inl e3 ↦ rw (e, e1, e2, e3) (omega arith)
                      | inr (p3, e3) ↦
                          rw (e, e1, e2, e3)
                            (record {
                              balanced = omega arith;
                              stdin_unset = refl;
                              epoll_unset = refl;
                            })
                    ]
          ]
    ]
  ]

  module _ (host : Host) where
    open_stdin-Goes : Goes true true false true (open_stdin host)
    unfolding open_stdin
    open_stdin-Goes c inv = elim (Option-cases (host.open_file c.trace)) [
      | inl e ↦ rw e omega (arith, inv.balanced, ap (count x) inv.stdin_unset)
      | inr (fd, e) ↦ rw e (
          call_fork_server_api-Goes host false true read_stdin_command
            (record c {
              trace = open_call c.executor_id (some fd) ∷ c.trace;
              target_stdin_fd = some fd;
            })
            (record {
              balanced = omega (arith, inv.balanced, ap (count x) inv.stdin_unset);
              stdin_unset = tt;
              epoll_unset = inv.epoll_unset;
            }))
    ]

    read_pid-Goes : Goes true true true true (read_pid host)
    read_pid-Goes c inv =
        elim (ReadAnswer-cases (host.read c.trace (get_fd c.from_fork_server) sizeof_pid)) [
          | inl (e, h) ↦ rw h inv.balanced
          | inr (bytes, h) ↦ elim (Bool-cases (ltb (length bytes) sizeof_pid)) [
            | inl short ↦ rw (h, short) inv.balanced
            | inr whole ↦
                rw (h, whole)
                  (record {
                    balanced = inv.balanced;
                    stdin_unset = inv.stdin_unset;
                    epoll_unset = inv.epoll_unset;
                  })
          ]
        ]

    create_epoll-Goes : Goes false true false false (create_epoll host)
    create_epoll-Goes c inv = elim (Option-cases (host.epoll_create c.trace)) [
      | inl e ↦ rw e (record {
        balanced = omega (arith, inv.balanced, ap (count x) inv.epoll_unset);
        stdin_unset = tt;
        epoll_unset = tt;
      })
      | inr (fd, e) ↦ rw e (record {
        balanced = omega (arith, inv.balanced, ap (count x) inv.epoll_unset);
        stdin_unset = tt;
        epoll_unset = tt;
      })
    ]

    ends_ready : Goes true true true true (
        on_to_fork_server writeonly
        >> on_from_fork_server readonly
        >> on_target_stdout readonly
        >> on_target_stderr readonly)
    ends_ready =
        Keeps-then true true _ _
          (Keeps-then true true _ _
            (Keeps-then true true _ _
              (on_to_fork_server-Keeps x true true writeonly (writeonly-Tidy x))
              (on_from_fork_server-Keeps x true true readonly (readonly-Tidy x)))
            (on_target_stdout-Keeps x true true readonly (readonly-Tidy x)))
          (on_target_stderr-Keeps x true true readonly (readonly-Tidy x))

    connect-Goes : Goes true true false false (connect host)
    unfolding connect
    connect-Goes =
        Goes-bind true true false false false false _ (λ _. attach_pipes host)
          (Goes-bind true true false true false false _ (λ _. create_epoll host)
            (Goes-bind true true true true false true _ (λ _. open_stdin host)
              (Keeps-then true true _ _
                (Keeps-then true true _ _ ends_ready (set_executor_id-Goes host true true))
                read_pid-Goes)
              (λ _. open_stdin-Goes))
            (λ _. create_epoll-Goes))
          (λ _. attach_pipes-Goes host false false)

    become_fork_server-Ends :
        (args env : List (List ℕ)) (c : Client)
        → Inv x true true c
        → Ends (become_fork_server host args env c) (Inv x false false) (IsBalanced x)
    unfolding become_fork_server
    become_fork_server-Ends args env =
        Goes-bind true true true true false false _ _
          (Keeps-then true true _ (execve host _ _)
            (Keeps-then true true _ _
              (Keeps-then true true _ _
                (Keeps-then true true _ _
                  (on_to_fork_server-Keeps x true true _ (pipe_to_fd-IsTidy x host forksrv_fd_read))
                  (on_from_fork_server-Keeps x true true _
                    (fd_to_pipe-IsTidy x host forksrv_fd_write)))
                (on_target_stdout-Keeps x true true _ (fd_to_pipe-IsTidy x host 1)))
              (on_target_stderr-Keeps x true true _ (fd_to_pipe-IsTidy x host 2)))
            (λ c inv. after c _ refl refl inv))
          replaced_or_not
      where
        replaced_or_not :
            (replaced : Bool)
            → Goes {A = Unit {0}} true true false false
                (if replaced then execed else throw execve_failed)
        replaced_or_not true c inv = tt
        replaced_or_not false c inv = inv.balanced

    -- The body of the constructor keeps every descriptor accounted for, also when it throws.
    pub start-Ends :
        (args env : List (List ℕ)) (c : Client)
        → Inv x true true c
        → Ends (start host args env c) (Inv x false false) (IsBalanced x)
    start-Ends args env c inv = answered (host.fork c.trace) refl
      where
        answered :
            (a : ForkAnswer)
            → host.fork c.trace ≡ a
            → Ends (start host args env c) (Inv x false false) (IsBalanced x)
        answered ForkAnswer.fork_failed e = rw e inv.balanced
        answered in_child e = rw e (
            become_fork_server-Ends args env (record c { trace = fork_call in_child ∷ c.trace })
              (after c _ refl refl inv))
        answered (in_parent pid) e = rw e (
            connect-Goes
              (record c { trace = fork_call (in_parent pid) ∷ c.trace; fork_server_pid = pid })
              (record {
                balanced = inv.balanced;
                stdin_unset = inv.stdin_unset;
                epoll_unset = inv.epoll_unset;
              }))
