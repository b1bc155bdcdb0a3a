-- ===== src/Bench/Tests.antt =====
-- A system on which the benchmark runs, and the theorems there.
use fuzzuf_cc.Prelude.{
  ℕ, ◌≡◌, refl, true, ◌==◌, some, none, [], ◌∷◌, ◌++◌, length, arith, Option, min, if◌then◌else◌,
}
use fuzzuf_cc.Prelude.Effect.{ok, fault}
use fuzzuf_cc.Bytes.{to_bytes}
use fuzzuf_cc.ForkServer.Types.{got, in_parent}
use fuzzuf_cc.ForkServer.Protocol.{encode_all, set_timeout}
use fuzzuf_cc.Executor.Types.{Trace, timed_out}
use fuzzuf_cc.Executor.Host.{Host}
use fuzzuf_cc.Executor.Session.{written}
use fuzzuf_cc.Bench.Calls.{Environment, initial}
use fuzzuf_cc.Bench.Setup.{stdin_case}
use fuzzuf_cc.Bench.Measure.{get_n, main, Report}
use fuzzuf_cc.Bench.Rounds.{bench}
use fuzzuf_cc.Bench.Session.{test_requests, Greets}
use fuzzuf_cc.Bench.Whole.{requests, IsReport, main-Wrote, main-divides}

abbrev pipe_answer : Trace → Option (ℕ × ℕ)
pipe_answer [] = some (10, 11)
pipe_answer (a ∷ t) = some (12, 13)

abbrev linux : Host
linux = record {
  pipe = pipe_answer;
  dup2 = λ t a b. true;
  fork = λ t. in_parent 100;
  execve = λ t. true;
  write = λ t fd bytes. some (length bytes);
  read = λ t fd n. got (if n == 4 then to_bytes 4 100 else to_bytes 12 0);
  open_file = λ t. none;
  lseek = λ t fd. true;
  ftruncate = λ t fd n. true;
  remove = λ t. true;
  epoll_create = λ t. none;
  epoll_add = λ t e fd. true;
  epoll_del = λ t e fd. true;
  epoll_wait = λ t e forever. timed_out;
  waitpid = λ t pid. true;
}

-- TEST=stdin N=20
abbrev twenty : Environment
twenty = record {
  n = some (50 ∷ 48 ∷ []);
  test = some stdin_case;
  environ = [];
  atoi = λ digits. 20;
  now = λ t. min (length t) 1000;
}

-- N=0
abbrev no_rounds : Environment
no_rounds = record {
  n = some (48 ∷ []);
  test = none;
  environ = [];
  atoi = λ digits. 0;
  now = λ t. min (length t) 1000;
}

linux-Greets : Greets linux (10, 11) (12, 13) 100
linux-Greets = record {
  pipe_to = refl;
  pipe_from = refl;
  forks = λ t. refl;
  tells = λ t. refl;
  small = omega arith;
  answers = record { writes = λ t bs. refl; answers = λ t. (to_bytes 12 0, refl, refl) };
}

main-Wrote_example :
    (figures : Report) × (ready : Trace) × (t : Trace) × (main linux twenty [] initial
      ≡ ok (some figures) (bench 11 12 t))
    × (written 11 ready
        ≡ to_bytes 8 1 ++ encode_all (test_requests stdin_case ++ (set_timeout 40000 ∷ [])))
    × (written 11 t ≡ to_bytes 8 1 ++ encode_all (requests stdin_case 20))
    × IsReport twenty 11 12 20 ready t figures
unfolding get_n
main-Wrote_example =
    main-Wrote linux (10, 11) (12, 13) 100 linux-Greets twenty (λ t. omega arith) [] 19 refl

main-divides_example :
    (t : Trace) × (main linux no_rounds [] initial ≡ fault (bench 11 12 t))
    × (written 11 t ≡ to_bytes 8 1 ++ encode_all (set_timeout 40000 ∷ []))
unfolding get_n
main-divides_example = main-divides linux (10, 11) (12, 13) 100 linux-Greets no_rounds [] refl
