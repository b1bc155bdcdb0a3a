-- ===== src/Bench/Rounds.antt =====
-- The rounds of the benchmark when the server answers each of them.
use fuzzuf_cc.Prelude.{
  ◌&&◌, ◌/◌, ◌%◌, ltb, ℕ, zero, suc, ◌+◌, ◌≡◌, refl, ap, ◌∙◌, sym, true, false, ◌==◌, some, List,
  ◌∷◌, ◌++◌, length, replicate, arith, Bool-cases, inl, inr, ◌<◌, ◌≤◌, ◌⊎◌,
}
use mathlib.Core.List.{append-nil, append_assoc}
use fuzzuf_cc.Prelude.Effect.{Run, ok}
use fuzzuf_cc.Bytes.{to_bytes}
use fuzzuf_cc.ForkServer.Types.{got}
use fuzzuf_cc.ForkServer.Protocol.{encode_all, execute}
use fuzzuf_cc.Executor.Types.{Trace, write_call, read_call}
use fuzzuf_cc.Executor.Host.{Host}
use fuzzuf_cc.Executor.Session.{written}
use fuzzuf_cc.Bench.Calls.{Bench, Environment}
use fuzzuf_cc.Bench.Setup.{send, send_command}
use fuzzuf_cc.Bench.Measure.{execute_put, warm_up, rounds, at_tenth, error_of}

-- The client with the descriptors `w` and `r`.
abbrev pub bench : (w r : ℕ) → Trace → Bench
bench w r t = record { trace = t; forksrv_write_fd = some w; forksrv_read_fd = some r }

-- The pipe takes what is written, and every execution is answered without an error.
pub record Answers (host : Host) (w r : ℕ) : Type 0 where
  pub writes : (t : Trace) (bs : List ℕ) → host.write t (some w) bs ≡ some (length bs)
  pub answers :
      (t : Trace)
      → (bytes : List ℕ) × (host.read t (some r) 12 ≡ got bytes) × ((error_of bytes == 0) ≡ true)

-- The run comes to `a`, and has written `bytes` more.
abbrev pub Wrote : {A : Type 0} → (w r : ℕ) → Trace → List ℕ → Run Bench A → (A → Type 0) → Type 0
Wrote {A = A} w r t bytes run P =
    (a : A) × (t' : Trace) × (run ≡ ok a (bench w r t'))
    × (written w t' ≡ written w t ++ bytes)
    × P a

-- The second trace has `k` executions more, each a command and the answer that was read.
pub data Executed (w r : ℕ) (t : Trace) : ℕ → Trace → Type 0 where
  not_yet : Executed w r t 0 t
  once_more :
      {k : ℕ} {t' : Trace}
      → (bytes : List ℕ) → Executed w r t k t'
      → Executed w r t
          (suc k)
          (read_call (some r) 12 (got bytes) ∷ write_call (some w) (to_bytes 4 4) (some 4) ∷ t')

pub encode_all-replicate :
    (j k : ℕ)
    → encode_all (replicate j execute) ++ encode_all (replicate k execute)
      ≡ encode_all (replicate (j + k) execute)
encode_all-replicate zero k = let e : 0 + k ≡ k = omega arith in rw e
encode_all-replicate (suc j) k =
    let e : suc j + k ≡ suc (j + k) = omega arith in
    rw e (
      append_assoc (to_bytes 4 4) (encode_all (replicate j execute)) _
      ∙ ap (λ bs. to_bytes 4 4 ++ bs) (encode_all-replicate j k))

-- The commands of the executions are what they write.
pub written-Executed :
    (w r : ℕ) (t : Trace) (k : ℕ) (t' : Trace)
    → Executed w r t k t'
    → written w t' ≡ written w t ++ encode_all (replicate k execute)
written-Executed w r t k t' not_yet = sym (append-nil (written w t))
written-Executed w r t k t' (once_more {k = j} {t' = t1} bytes e) =
    let self : (w == w) ≡ true = ground arith in
    let next : j + 1 ≡ suc j = omega arith in
    rw self (
      append-nil (written w t1 ++ to_bytes 4 4)
      ∙ ap (λ bs. bs ++ to_bytes 4 4) (written-Executed w r t j t1 e)
      ∙ append_assoc (written w t) (encode_all (replicate j execute)) (to_bytes 4 4)
      ∙ ap (λ bs. written w t ++ bs)
          (encode_all-replicate j 1 ∙ ap (λ m. encode_all (replicate m execute)) next))

-- Round `i` of `n` starts a tenth of the rounds.
abbrev pub StartsTenth : (n i : ℕ) → Type 0
StartsTenth n i = (10 < n) × (0 < i) × (i % (n / 10) ≡ 0)

tenth_starts :
    (n i rest : ℕ) → (ltb 10 n && (ltb 0 i && (rest == 0))) ≡ true → (10 < n) × (0 < i) × (rest ≡ 0)
tenth_starts n i rest e = (ground arith, ground arith, ground arith)

no_tenth_starts :
    (n i rest : ℕ)
    → (ltb 10 n && (ltb 0 i && (rest == 0))) ≡ false
    → ¬ ((10 < n) × (0 < i) × (rest ≡ 0))
no_tenth_starts n i rest e (above, positive, none_left) = ground arith

at_tenth-StartsTenth : (n i : ℕ) → at_tenth n i ≡ true → StartsTenth n i
at_tenth-StartsTenth n i e = tenth_starts n i (i % (n / 10)) e

at_tenth-not : (n i : ℕ) → at_tenth n i ≡ false → ¬ (StartsTenth n i)
at_tenth-not n i e = no_tenth_starts n i (i % (n / 10)) e

-- At round `i` of `n`, the checkpoint is the time behind the `j` rounds before the last one that
-- starts a tenth, or the time before all rounds.
pub record IsLastTenth (env : Environment) (w r n : ℕ) (begin : Trace) (i checkpoint : ℕ)
    : Type 0 where
  pub j : ℕ
  pub moment : Trace
  pub shown : checkpoint ≡ env.now moment
  pub passed : Executed w r begin j moment
  pub starts : (j ≡ 0) ⊎ StartsTenth n j
  pub before : j ≤ i
  pub last : (m : ℕ) → j < m → m < i → ¬ (StartsTenth n m)

module _ (host : Host) (w r : ℕ) (h : Answers host w r) where
  execute_put-once :
      (t : Trace)
      → (bytes : List ℕ) × (execute_put host (bench w r t)
          ≡ ok tt (
              bench w r (
                read_call (some r) 12 (got bytes)
                ∷ write_call (some w) (to_bytes 4 4) (some 4)
                ∷ t)))
  unfolding execute_put send_command send
  execute_put-once t =
      let (bytes, e, fine) = h.answers (write_call (some w) (to_bytes 4 4) (some 4) ∷ t) in
      (bytes, rw (h.writes, e, fine) refl)

  pub warm_up-Executed :
      (k j : ℕ) (t0 t : Trace)
      → Executed w r t0 j t
      → (t' : Trace) × (warm_up host k (bench w r t) ≡ ok tt (bench w r t'))
        × Executed w r t0 (j + k) t'
  unfolding warm_up
  warm_up-Executed zero j t0 t done = let e : j + 0 ≡ j = omega arith in (t, refl, rw e done)
  warm_up-Executed (suc k) j t0 t done =
      let (bytes, e1) = execute_put-once t in
      let (t', e2, all) = warm_up-Executed k (suc j) t0 _ (once_more bytes done) in
      let e : j + suc k ≡ suc j + k = omega arith in (t', rw (e1, e2), rw e all)

  module _ (env : Environment) (n : ℕ) (begin : Trace) where
    passed_round :
        (i checkpoint : ℕ)
        → at_tenth n i ≡ false
        → IsLastTenth env w r n begin i checkpoint
        → IsLastTenth env w r n begin (suc i) checkpoint
    passed_round i checkpoint middle l = record {
      j = l.j;
      moment = l.moment;
      shown = l.shown;
      passed = l.passed;
      starts = l.starts;
      before = omega (arith, l.before);
      last = λ m p q. elim (Bool-cases (m == i)) [
        | inl same ↦ (let e : m ≡ i = ground arith in rw e (at_tenth-not n i middle))
        | inr other ↦ l.last m p (ground arith)
      ];
    }

    -- The rounds from `i` on.
    pub rounds-Executed :
        (k i checkpoint : ℕ) (t : Trace)
        → Executed w r begin i t
        → IsLastTenth env w r n begin i checkpoint
        → (a : ℕ) × (t' : Trace) × (rounds host env n k i checkpoint (bench w r t)
            ≡ ok a (bench w r t'))
          × Executed w r begin (i + k) t'
          × IsLastTenth env w r n begin (i + k) a
    unfolding rounds
    rounds-Executed zero i checkpoint t done l =
        let e : i + 0 ≡ i = omega arith in (checkpoint, t, refl, rw e done, rw e l)
    rounds-Executed (suc k) i checkpoint t done l =
        let (bytes, e1) = execute_put-once t in
        let next : i + suc k ≡ suc i + k = omega arith in
        elim (Bool-cases (at_tenth n i)) [
          | inl start ↦
              let (a, t', e2, all, l') =
                rounds-Executed k (suc i) (env.now t) _ (once_more bytes done) (record {
                  j = i;
                  moment = t;
                  shown = refl;
                  passed = done;
                  starts = inr (at_tenth-StartsTenth n i start);
                  before = omega arith;
                  last = λ m p q. absurd (omega arith);
                }) in
              (a, t', rw (start, e1, e2), rw next all, rw next l')
          | inr middle ↦
              let (a, t', e2, all, l') =
                rounds-Executed k (suc i) checkpoint _ (once_more bytes done)
                  (passed_round i checkpoint middle l) in
              (a, t', rw (middle, e1, e2), rw next all, rw next l')
        ]
