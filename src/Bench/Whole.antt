-- ===== src/Bench/Whole.antt =====
-- The whole of `main` of the benchmark.
use mathlib.Core.Path.{subst}
use fuzzuf_cc.Prelude.{
  Option, ℕ, suc, ◌+◌, ◌-◌, ◌*◌, ◌/◌, ◌^◌, ◌<◌, ◌≡◌, refl, ap, ◌∙◌, sym, true, some, List, [], ◌∷◌,
  ◌++◌, replicate, arith, Bool-cases, inl, inr, ltb, if◌then◌else◌,
}
use mathlib.Core.List.{append_assoc}
use fuzzuf_cc.Prelude.Effect.{fault, and_then, Run, ok, pure}
use fuzzuf_cc.Bytes.{to_bytes}
use fuzzuf_cc.ForkServer.Protocol.{Request, encode, encode_all, execute, set_timeout}
use fuzzuf_cc.Executor.Types.{Trace}
use fuzzuf_cc.Executor.Host.{Host}
use fuzzuf_cc.Executor.Session.{written}
use fuzzuf_cc.Bench.Calls.{Bench, Environment, initial}
use fuzzuf_cc.Bench.Setup.{get_test_case}
use fuzzuf_cc.Bench.Measure.{rounds, Finish, main, measure, report, get_n, to_u64, Report, warm_up}
use fuzzuf_cc.Bench.Rounds.{
  bench, Executed, not_yet, IsLastTenth, encode_all-replicate, written-Executed, warm_up-Executed,
  rounds-Executed,
}
use fuzzuf_cc.Bench.Session.{
  Greets, test_requests, warm_rounds, setup_forkserver-Wrote, set_put_execution_timeout-Wrote,
  setup_test-Wrote,
}

-- The figures of `n` rounds: between `ready` and `t` there are the executions of the warm-up, which
-- end at `begin`, and those of the rounds, and no other call; the times are those of `begin`, of the
-- last round that starts a tenth, and of `t`.
pub record IsReport (env : Environment) (w r n : ℕ) (ready t : Trace) (figures : Report)
    : Type 0 where
  pub begin : Trace
  pub checkpoint : ℕ
  pub warmed : Executed w r ready (warm_rounds n) begin
  pub tenth : IsLastTenth env w r n begin n checkpoint
  pub measured : Executed w r begin n t
  pub iterations : figures.iterations ≡ n
  pub total_time : figures.total_time ≡ env.now t - env.now begin
  pub iteration_time : figures.iteration_time ≡ figures.total_time / n
  pub last_time : figures.last_time ≡ env.now t - checkpoint
  pub last_iteration_time : figures.last_iteration_time ≡ figures.last_time * 10 / n

abbrev figures : (n begin checkpoint end : ℕ) → Report
figures n begin checkpoint end = record {
  iterations = n;
  total_time = end - begin;
  iteration_time = (end - begin) / n;
  last_time = end - checkpoint;
  last_iteration_time = (end - checkpoint) * 10 / n;
}

report-figures :
    (m begin checkpoint end : ℕ) (b : Bench)
    → end * 10 < 2 ^ 63
    → report (suc m) begin checkpoint end b ≡ ok (figures (suc m) begin checkpoint end) b
unfolding report
report-figures m begin checkpoint end b small =
    let fits : ltb ((end - checkpoint) * 10) (2 ^ 63) ≡ true = ground arith in rw fits

-- All that the benchmark asks for, with `n` timed rounds.
abbrev pub requests : (test_case : List ℕ) → (n : ℕ) → List Request
requests test_case n =
    test_requests test_case ++ (set_timeout 40000 ∷ replicate (warm_rounds n + n) execute)

encode_all-append : (xs ys : List Request) → encode_all (xs ++ ys) ≡ encode_all xs ++ encode_all ys
encode_all-append [] ys = refl
encode_all-append (x ∷ xs) ys =
    ap (λ bs. encode x ++ bs) (encode_all-append xs ys) ∙ sym (append_assoc (encode x) _ _)

module _ (host : Host) (to from : ℕ × ℕ) (pid : ℕ) (h : Greets host to from pid)
    (env : Environment) where
  warm-Executed :
      (n : ℕ) (t : Trace)
      → (t' : Trace) × ((if ltb 10 n then warm_up host (n / 10) else pure tt) (bench to.1 from.0 t)
          ≡ ok tt (bench to.1 from.0 t'))
        × Executed to.1 from.0 t (warm_rounds n) t'
  warm-Executed n t = elim (Bool-cases (ltb 10 n)) [
    | inl long ↦
        let (t', e, all) = warm_up-Executed host to.1 from.0 h.answers (n / 10) 0 t t not_yet in
        let same : 0 + n / 10 ≡ n / 10 = omega arith in
        rw long (t', e, subst (λ k. Executed to.1 from.0 t k t') same all)
    | inr short ↦ rw short (t, refl, not_yet)
  ]

  -- What `main` does before it measures.
  set_up :
      (pargv : List (Option (List ℕ)))
      → (t : Trace) × ((q : Run Bench Report) (r : Run Bench Finish)
          → measure host env (to_u64 (get_n env)) (bench to.1 from.0 t) ≡ q
          → and_then q (λ report. pure (some report)) ≡ r
          → main host env pargv initial ≡ r)
        × (written to.1 t
            ≡ to_bytes 8 1
              ++ encode_all (test_requests (get_test_case env) ++ (set_timeout 40000 ∷ [])))
  unfolding main
  set_up pargv =
      let (t0, e0, s0) = setup_forkserver-Wrote host to from pid h pargv env.environ in
      let (_, t1, e1, s1, _) = setup_test-Wrote host to from pid h (get_test_case env) t0 in
      let (_, t2, e2, s2, _) = set_put_execution_timeout-Wrote host to from pid h 40000 t1 in
      (
        t2,
        λ q r e f. rw (e0, e1, e2, e) f,
        rw
            (
              s2,
              s1,
              s0,
              encode_all-append (test_requests (get_test_case env)) (set_timeout 40000 ∷ []),
            )
            (append_assoc (to_bytes 8 1) (encode_all (test_requests (get_test_case env))) _),
      )

  measure-zero :
      (t : Trace) → measure host env 0 (bench to.1 from.0 t) ≡ fault (bench to.1 from.0 t)
  unfolding measure rounds report
  measure-zero t = refl

  -- With `N` being 0, and when its calls succeed, the benchmark sends the test case and the timeout
  -- to its server and then divides by 0.
  pub main-divides :
      (pargv : List (Option (List ℕ)))
      → to_u64 (get_n env) ≡ 0
      → (t : Trace) × (main host env pargv initial ≡ fault (bench to.1 from.0 t))
        × (written to.1 t
            ≡ to_bytes 8 1
              ++ encode_all (test_requests (get_test_case env) ++ (set_timeout 40000 ∷ [])))
  main-divides pargv n =
      let (t, then_main, s) = set_up pargv in
      (
        t,
        then_main (fault (bench to.1 from.0 t)) (fault (bench to.1 from.0 t))
            (rw n (measure-zero t)) refl,
        s,
      )

  joined :
      (n : ℕ) (t t1 : Trace)
      → written to.1 t
        ≡ to_bytes 8 1 ++ encode_all (test_requests (get_test_case env) ++ (set_timeout 40000 ∷ []))
      → written to.1 t1 ≡ written to.1 t ++ encode_all (replicate (warm_rounds n + n) execute)
      → written to.1 t1 ≡ to_bytes 8 1 ++ encode_all (requests (get_test_case env) n)
  joined n t t1 before after =
      let tests : List Request = test_requests (get_test_case env) in
      let timeout : List Request = set_timeout 40000 ∷ [] in
      let rest : List Request = replicate (warm_rounds n + n) execute in
      after
      ∙ ap (λ bs. bs ++ encode_all rest) before
      ∙ append_assoc (to_bytes 8 1) (encode_all (tests ++ timeout)) (encode_all rest)
      ∙ ap (λ bs. to_bytes 8 1 ++ bs)
          (sym (encode_all-append (tests ++ timeout) rest)
            ∙ ap encode_all (append_assoc tests timeout rest))

  module _ (clock : (t : Trace) → env.now t * 10 < 2 ^ 63) where
    measure-IsReport :
        (m : ℕ) (ready : Trace)
        → (figures : Report) × (t : Trace) × (measure host env (suc m) (bench to.1 from.0 ready)
            ≡ ok figures (bench to.1 from.0 t))
          × IsReport env to.1 from.0 (suc m) ready t figures
    unfolding measure
    measure-IsReport m ready =
        let (begin, e1, warmed) = warm-Executed (suc m) ready in
        let (checkpoint, t, e2, all, tenth) =
          rounds-Executed host to.1 from.0 h.answers env (suc m) begin (suc m) 0 (env.now begin)
            begin not_yet
            (record {
              j = 0;
              moment = begin;
              shown = refl;
              passed = not_yet;
              starts = inl refl;
              before = omega arith;
              last = λ i p q. absurd (omega arith);
            }) in
        let same : 0 + suc m ≡ suc m = omega arith in
        (
          figures (suc m) (env.now begin) checkpoint (env.now t),
          t,
          rw
              (
                e1,
                e2,
                report-figures m (env.now begin) checkpoint (env.now t) (bench to.1 from.0 t)
                    (clock t),
              )
              refl,
          record {
            begin = begin;
            checkpoint = checkpoint;
            warmed = warmed;
            tenth = subst (λ k. IsLastTenth env to.1 from.0 (suc m) begin k checkpoint) same tenth;
            measured = subst (λ k. Executed to.1 from.0 begin k t) same all;
            iterations = refl;
            total_time = refl;
            iteration_time = refl;
            last_time = refl;
            last_iteration_time = refl;
          },
        )

    executions_written :
        (m : ℕ) (ready t : Trace) (figures : Report)
        → IsReport env to.1 from.0 (suc m) ready t figures
        → written to.1 t
          ≡ written to.1 ready ++ encode_all (replicate (warm_rounds (suc m) + suc m) execute)
    executions_written m ready t figures f =
        written-Executed to.1 from.0 f.begin (suc m) t f.measured
        ∙ ap (λ bs. bs ++ encode_all (replicate (suc m) execute))
            (written-Executed to.1 from.0 ready (warm_rounds (suc m)) f.begin f.warmed)
        ∙ append_assoc (written to.1 ready) _ _
        ∙ ap (λ bs. written to.1 ready ++ bs) (encode_all-replicate (warm_rounds (suc m)) (suc m))

    -- The benchmark with `N` rounds, `N` being other than 0, when its calls succeed, the server
    -- answers without an error, and ten times the clock fits an `int64_t`: it returns, and it has
    -- written exactly its requests, which are the test case, the timeout and an execution for each
    -- round of the warm-up, a tenth of `N` if `N` is above 10, and for each of the `N` rounds. The
    -- figures that it prints are `N`, the time from the end of the warm-up to the end of the
    -- rounds, and the time from the last round that starts a tenth (from the end of the warm-up if
    -- there is none) to the end of the rounds, with the quotients of the two.
    pub main-Wrote :
        (pargv : List (Option (List ℕ))) (m : ℕ)
        → to_u64 (get_n env) ≡ suc m
        → (figures : Report) × (ready : Trace) × (t : Trace) × (main host env pargv initial
            ≡ ok (some figures) (bench to.1 from.0 t))
          × (written to.1 ready
              ≡ to_bytes 8 1
                ++ encode_all (test_requests (get_test_case env) ++ (set_timeout 40000 ∷ [])))
          × (written to.1 t ≡ to_bytes 8 1 ++ encode_all (requests (get_test_case env) (suc m)))
          × IsReport env to.1 from.0 (suc m) ready t figures
    main-Wrote pargv m n =
        let (ready, then_main, s) = set_up pargv in
        let (figures, t, e, f) = measure-IsReport m ready in
        (
          figures,
          ready,
          t,
          then_main (ok figures (bench to.1 from.0 t)) (ok (some figures) (bench to.1 from.0 t))
              (rw n e) refl,
          s,
          joined (suc m) ready t s (executions_written m ready t figures f),
          f,
        )
