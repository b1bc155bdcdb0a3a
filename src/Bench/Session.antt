-- ===== src/Bench/Session.antt =====
-- `main` of the benchmark when every call succeeds: what it writes, and what it reports.
use fuzzuf_cc.Executor.Types.{close_call, fork_call, Trace, write_call, read_call, pipe_call}
use fuzzuf_cc.Executor.Operator.{take-all}
use fuzzuf_cc.Prelude.{
  Option, ℕ, ◌/◌, ◌^◌, ◌<◌, ◌≡◌, refl, ap, ◌∙◌, sym, true, ◌==◌, some, List, [], ◌∷◌, ◌++◌, length,
  arith, Bool-cases, inl, inr, ltb, if◌then◌else◌,
}
use mathlib.Core.List.{append-nil, append_assoc}
use fuzzuf_cc.Prelude.Effect.{pure, ok}
use fuzzuf_cc.Bytes.{from_bytes, to_bytes, from_bytes-to_bytes}
use fuzzuf_cc.ForkServer.Types.{got, in_parent}
use fuzzuf_cc.ForkServer.Protocol.{Request, encode_all, set_timeout, read_stdin, save_stdout_stderr}
use fuzzuf_cc.Executor.Host.{Host}
use fuzzuf_cc.Executor.Session.{written}
use fuzzuf_cc.Exif.App1.{same_bytes}
use fuzzuf_cc.Bench.Calls.{initial}
use fuzzuf_cc.Bench.Setup.{
  send, send_command, setup_forkserver, become_client, attach_to_server, wait_fork_server_start,
  set_put_execution_timeout, setup_test, client_of, stdin_case, stdout_case,
}
use fuzzuf_cc.Bench.Rounds.{bench, Answers, Wrote}

-- The pipes and the server that the client gets.
pub record Greets (host : Host) (to from : ℕ × ℕ) (pid : ℕ) : Type 0 where
  pub pipe_to : host.pipe [] ≡ some to
  pub pipe_from : host.pipe (pipe_call (some to) ∷ []) ≡ some from
  pub forks : (t : Trace) → host.fork t ≡ in_parent pid
  pub tells : (t : Trace) → host.read t (some from.0) 4 ≡ got (to_bytes 4 pid)
  pub small : pid < 2 ^ 32
  pub answers : Answers host to.1 from.0

-- The requests before the executions, and the rounds before those that are timed.
abbrev pub test_requests : List ℕ → List Request
test_requests test_case =
    if same_bytes test_case stdin_case
    then read_stdin ∷ []
    else if same_bytes test_case stdout_case
    then save_stdout_stderr ∷ []
    else []

abbrev pub warm_rounds : ℕ → ℕ
warm_rounds n = if ltb 10 n then n / 10 else 0

abbrev greeted : (to from : ℕ × ℕ) → (pid : ℕ) → Trace
greeted to from pid =
    read_call (some from.0) 4 (got (to_bytes 4 pid))
    ∷ write_call (some to.1) (to_bytes 8 1) (some 8)
    ∷ close_call (some from.1)
    ∷ close_call (some to.0)
    ∷ fork_call (in_parent pid)
    ∷ pipe_call (some from)
    ∷ pipe_call (some to)
    ∷ []

module _ (host : Host) (to from : ℕ × ℕ) (pid : ℕ) (h : Greets host to from pid) where
  pub setup_forkserver-Wrote :
      (pargv env : List (Option (List ℕ)))
      → (t : Trace) × (setup_forkserver host pargv env initial
          ≡ ok (client_of pid) (bench to.1 from.0 t))
        × (written to.1 t ≡ to_bytes 8 1)
  unfolding setup_forkserver become_client attach_to_server wait_fork_server_start
  setup_forkserver-Wrote pargv env =
      let value : from_bytes (to_bytes 4 pid) ≡ pid = from_bytes-to_bytes 4 pid h.small in
      let same : (pid == pid) ≡ true = ground arith in
      let self : (to.1 == to.1) ≡ true = ground arith in
      (
        greeted to from pid,
        rw (h.pipe_to, h.pipe_from, h.forks, h.answers.writes, h.tells, value, same),
        rw self,
      )

  send-Wrote :
      (t : Trace) (bs : List ℕ)
      → Wrote to.1 from.0 t bs (send host bs (bench to.1 from.0 t)) (λ a. Unit)
  unfolding send
  send-Wrote t bs =
      let self : (to.1 == to.1) ≡ true = ground arith in
      (
        length bs,
        write_call (some to.1) bs (some (length bs)) ∷ t,
        rw h.answers.writes,
        rw (self, take-all bs),
        tt,
      )

  pub set_put_execution_timeout-Wrote :
      (us : ℕ) (t : Trace)
      → Wrote to.1 from.0 t
          (encode_all (set_timeout us ∷ []))
          (set_put_execution_timeout host us (bench to.1 from.0 t))
          (λ a. Unit)
  unfolding set_put_execution_timeout send_command
  set_put_execution_timeout-Wrote us t =
      let (_, t1, e1, s1, _) = send-Wrote t (to_bytes 4 1) in
      let (_, t2, e2, s2, _) = send-Wrote t1 (to_bytes 8 us) in
      (
        tt,
        t2,
        rw (e1, e2),
        s2
            ∙ ap (λ bs. bs ++ to_bytes 8 us) s1
            ∙ append_assoc (written to.1 t) (to_bytes 4 1) (to_bytes 8 us),
        tt,
      )

  pub setup_test-Wrote :
      (test_case : List ℕ) (t : Trace)
      → Wrote to.1 from.0 t
          (encode_all (test_requests test_case))
          ((if ltb 0 (length test_case) then setup_test host test_case else pure tt)
            (bench to.1 from.0 t))
          (λ a. Unit)
  unfolding setup_test send_command
  setup_test-Wrote [] t = (tt, t, refl, sym (append-nil (written to.1 t)), tt)
  setup_test-Wrote (x ∷ xs) t =
      let long : ltb 0 (length (x ∷ xs)) ≡ true = ground arith in
      elim (Bool-cases (same_bytes (x ∷ xs) stdin_case)) [
        | inl a ↦
            let (_, t1, e1, s1, _) = send-Wrote t (to_bytes 4 2) in
            (tt, t1, rw (long, a, e1), rw a s1, tt)
        | inr a ↦ elim (Bool-cases (same_bytes (x ∷ xs) stdout_case)) [
          | inl b ↦
              let (_, t1, e1, s1, _) = send-Wrote t (to_bytes 4 3) in
              (tt, t1, rw (long, a, b, e1), rw (a, b) s1, tt)
          | inr b ↦ (tt, t, rw (long, a, b), rw (a, b) (sym (append-nil (written to.1 t))), tt)
        ]
      ]
