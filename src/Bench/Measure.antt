-- ===== src/Bench/Measure.antt =====
-- ExecutePUT, GetN and `main` of the benchmark.
use fuzzuf_cc.Prelude.{
  ℕ, zero, suc, ◌+◌, ◌-◌, ◌*◌, ◌/◌, ◌%◌, ◌^◌, Bool, Option, none, some, List, length, take, ltb,
  ◌==◌, ◌&&◌, if◌then◌else◌,
}
use fuzzuf_cc.Prelude.Effect.{ok, pure, get, exit, fault, ◌>>=◌, ◌>>◌}
use fuzzuf_cc.Bytes.{to_bytes, from_bytes}
use fuzzuf_cc.Exif.Heap.{overwrite}
use fuzzuf_cc.ForkServer.Types.{execute_put_command, got, read_failed}
use fuzzuf_cc.Executor.Host.{Host}
use fuzzuf_cc.Executor.Execute.{sizeof_response}
use fuzzuf_cc.Bench.Calls.{Environment, Client, read}
use fuzzuf_cc.Bench.Setup.{
  client_of, replaced, assert, get_test_case, setup_forkserver, send_command,
  set_put_execution_timeout, setup_test,
}

-- What `main` prints at its end.
pub record Report : Type 0 where
  pub iterations : ℕ
  pub total_time : ℕ
  pub iteration_time : ℕ
  pub last_time : ℕ
  pub last_iteration_time : ℕ

-- `none` in the process that `execv` makes another program.
abbrev pub Finish : Type 0
Finish = Option Report

-- An `int` of 32 bits as a `uint64_t`.
abbrev pub to_u64 : ℕ → ℕ
to_u64 v = if ltb v (2 ^ 31) then v else v + (2 ^ 64 - 2 ^ 32)

-- The field `error` of 4 bytes, with NoResponseError (5) before `read`.
abbrev pub error_of : List ℕ → ℕ
error_of bytes = from_bytes (overwrite 0 (take 4 bytes) (to_bytes 4 5))

unfoldable pub get_n : Environment → ℕ
get_n env = elim env.n [ none ↦ 100000 | some digits ↦ env.atoi digits ]

abbrev pub now : Environment → Client ℕ
now env b = ok (env.now b.trace) b

-- `a / b` of `uint64_t`.
abbrev pub divide : (a b : ℕ) → Client ℕ
divide a zero s = fault s
divide a (suc b) s = ok (a / suc b) s

-- `a * 10` of `int64_t`.
abbrev pub tenfold : ℕ → Client ℕ
tenfold a s = if ltb (a * 10) (2 ^ 63) then ok (a * 10) s else fault s

unfoldable pub report : (n begin checkpoint end : ℕ) → Client Report
report n begin checkpoint end = divide (end - begin) n >>= λ each.
    tenfold (end - checkpoint) >>= λ last. divide last n >>= λ last_each. pure record {
      iterations = n;
      total_time = end - begin;
      iteration_time = each;
      last_time = end - checkpoint;
      last_iteration_time = last_each;
    }

-- `i` starts a new tenth of the rounds.
abbrev pub at_tenth : (n i : ℕ) → Bool
at_tenth n i = ltb 10 n && (ltb 0 i && (i % (n / 10) == 0))

module _ (host : Host) where
  unfoldable pub execute_put : Client (Unit {0})
  execute_put = send_command host execute_put_command >> get >>= λ b.
      read host b.forksrv_read_fd sizeof_response >>= λ answer. elim answer [
        | read_failed e ↦ exit 1
        | got bytes ↦ assert (error_of bytes == 0)
      ]

  unfoldable pub warm_up : ℕ → Client (Unit {0})
  warm_up zero = pure tt
  warm_up (suc k) = execute_put >> warm_up k

  -- The rounds from `i` on, `k` of them; gives the last checkpoint.
  unfoldable pub rounds : Environment → (n k i checkpoint : ℕ) → Client ℕ
  rounds env n zero i checkpoint = pure checkpoint
  rounds env n (suc k) i checkpoint =
      (if at_tenth n i then now env else pure checkpoint) >>= λ checkpoint.
      execute_put >> rounds env n k (suc i) checkpoint

  unfoldable pub measure : Environment → (n : ℕ) → Client Report
  measure env n = (if ltb 10 n then warm_up (n / 10) else pure tt) >> now env >>= λ checkpoint.
      now env >>= λ begin.
      rounds env n n 0 checkpoint >>= λ checkpoint. now env >>= λ end. report n begin checkpoint end

  unfoldable pub main : Environment → (pargv : List (Option (List ℕ))) → Client Finish
  main env pargv = setup_forkserver host pargv env.environ >>= λ setup. elim setup [
    | replaced ↦ pure none
    | client_of pid ↦
        (if ltb 0 (length (get_test_case env))
          then setup_test host (get_test_case env)
          else pure tt)
        >> set_put_execution_timeout host 40000
        >> measure env (to_u64 (get_n env))
        >>= λ report. pure (some report)
  ]
