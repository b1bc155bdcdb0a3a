-- ===== src/Executor/Collect.antt =====
-- The loop of `operator()` collects what the streams hold.
use fuzzuf_cc.Executor.Rounds.{left, Collected, Holds}
use fuzzuf_cc.Executor.Rounds.Moves.{
  Next, timed_out-Collected, response-Next, errors-Next, output-Next, interrupted-Next, to_come,
  Moves,
}
use fuzzuf_cc.Executor.Stream.{
  idle_wait, chunk, interrupted, quiet, response_ready, errors_ready, output_ready, Streams,
  Attached, Delivers,
}
use fuzzuf_cc.Executor.Effect.{done, Outcome}
use fuzzuf_cc.Prelude.{◌++◌, zero, inr, inl, ◌⊎◌, ℕ, suc, ◌<◌, ◌≡◌, ◌∙◌, some, arith}
use fuzzuf_cc.Executor.Types.{timed_out, Trace, Client, event}
use fuzzuf_cc.Executor.Host.{Host}
use fuzzuf_cc.Executor.Execute.{Locals, collect, chunk_size}
use fuzzuf_cc.Executor.Steps.{collect-quiet, at, waited}

module _ (host : Host) (c : Client) (s : Streams) (patience : ℕ) (base : Trace)
    (delivers : Delivers host s patience base) (a : Attached s c) where
  abbrev pub Collects : Outcome Locals → Type 0
  Collects r = (l : Locals) × (t : Trace) × (r ≡ done l (at c (t ++ base))) × Collected s l t

  moved :
      (fuel : ℕ) (l l1 : Locals) (t t1 : Trace)
      → Moves host c s patience base delivers a l t l1 t1
      → Collects (collect host fuel l1 (at c (t1 ++ base)))
      → Collects (collect host (suc fuel) l (at c (t ++ base)))
  moved fuel l l1 t t1 m (l', t', e, got_e) = (l', t', m.goes_on fuel ∙ e, got_e)

  collect-cases :
      (l : Locals) (t : Trace)
      → Holds s l t
      → Next host c s patience base delivers a l t
        ⊎ ((host.epoll_wait (t ++ base) c.epoll_fd l.forever ≡ timed_out)
            × Collected s l (waited c l timed_out t))
  collect-cases l t h =
      elim (delivers.wakes t c.epoll_fd l.forever h.idle
        (to_come host c s patience base delivers a l t h)) [
          | interrupted e ↦ inl (interrupted-Next host c s patience base delivers a l t h e)
          | output_ready events e input some_left ↦
              elim (delivers.reads_output (waited c l (event (some s.out_fd) events) t) chunk_size
                (idle_wait h.idle) (omega arith) some_left) [
                  | chunk k small fits r ↦
                      inl (
                        output-Next host c s patience base delivers a l t h k events e input fits r)
                ]
          | errors_ready events e input some_left ↦
              elim (delivers.reads_errors (waited c l (event (some s.err_fd) events) t) chunk_size
                (idle_wait h.idle) (omega arith) some_left) [
                  | chunk k small fits r ↦
                      inl (
                        errors-Next host c s patience base delivers a l t h k events e input fits r)
                ]
          | response_ready events e input some_left ↦
              inl (response-Next host c s patience base delivers a l t h events e input some_left)
          | quiet e off no_output no_errors ↦ inr (
            e,
            timed_out-Collected host c s patience base delivers a l t h off no_output no_errors,
          )
        ]

  -- The loop of `operator()` ends with everything that comes from the three pipes.
  pub collect-Collected :
      (fuel : ℕ) (l : Locals) (t : Trace)
      → Holds s l t
      → left s patience t < fuel
      → Collects (collect host fuel l (at c (t ++ base)))
  collect-Collected zero l t h enough = absurd (omega arith)
  collect-Collected (suc fuel) l t h enough = elim (collect-cases l t h) [
    | inl (l1, t1, m) ↦
        moved fuel l l1 t t1 m (collect-Collected fuel l1 t1 m.holds (omega (arith, m.less)))
    | inr (e, all) ↦ (l, waited c l timed_out t, collect-quiet host c fuel l (t ++ base) e, all)
  ]
