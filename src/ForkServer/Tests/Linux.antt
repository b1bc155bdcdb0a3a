-- ===== src/ForkServer/Tests/Linux.antt =====
-- Systems on which the server runs.
use fuzzuf_cc.Prelude.{
  ℕ, refl, ◌≡◌, ◌==◌, ◌&&◌, not, if◌then◌else◌, some, none, [], ◌∷◌, ◌++◌, List, ◌%◌, ◌/◌, ◌<◌, ◌-◌,
  min, take, drop, length, take-nil, Bool-cases, inl, inr, true, ap, sym, arith, suc,
}
use fuzzuf_cc.Bytes.{to_bytes}
use fuzzuf_cc.ForkServer.Types.{
  write_call, RuntimeSettings, ReadAnswer, Trace, WaitAnswer, SigInfo, Daemon, got, read_failed,
  eintr, wait_failed, changed, server_pid, response, in_parent, in_child, stdin, stdout, stderr,
  initial, read_call, fopen_log, setitimer_call, getpid_call,
}
use fuzzuf_cc.ForkServer.Os.{Os}
use fuzzuf_cc.ForkServer.Trace.{Survives, installed, consumed, interrupts, waits}
use fuzzuf_cc.ForkServer.Pipe.Ideal.{Pipe, Delivery, interrupted, at_end, chunk}
use fuzzuf_cc.ForkServer.Execute.Wait.{Report, again, stopped, ended}
use fuzzuf_cc.ForkServer.Execute.Parent.{Cooperates}
use fuzzuf_cc.ForkServer.Protocol.{
  Request, set_timeout, other, execute, read_stdin, save_stdout_stderr, encode_all,
}

abbrev pub settings : RuntimeSettings
settings = record {
  executor_id = 7;
  timeout_us = 1_500_000;
  read_stdin = true;
  save_stdout_stderr = true;
}

abbrev pub requests : List Request
requests =
    set_timeout 1_500_000 ∷ other 9 ∷ execute ∷ read_stdin ∷ save_stdout_stderr ∷ execute ∷ []

abbrev pub stream : List ℕ
stream = to_bytes 8 7 ++ encode_all requests

-- Bytes come three at a time behind the executor id, and one read is interrupted.
abbrev chunk_of : List ℕ → ℕ → ℕ → ReadAnswer
chunk_of rest n most = got (take (min (min n most) (length rest)) rest)

abbrev read_stream : List ℕ → Trace → ℕ → ReadAnswer
read_stream stream t n =
    if (consumed t == 8) && (interrupts t == 0)
    then read_failed eintr
    else chunk_of (drop (consumed t) stream) n (if consumed t == 0 then 8 else 3)

-- The first wait is interrupted, then the process stops, and after that it exits with 115.
abbrev wait_answer : Trace → ℕ → WaitAnswer
wait_answer t pid =
    if waits t == 0
    then wait_failed eintr
    else if waits t == 1
    then changed pid 0x137f
    else changed pid 0x7300

abbrev linux_for : (stream : List ℕ) → Os
linux_for stream = record {
  fopen = λ t. true;
  read = read_stream stream;
  write = λ t m. elim m [ server_pid p ↦ some 4 | response r ↦ some 12 ];
  getpid = λ t. 100;
  fork = λ t. in_parent 101;
  open_file = λ t id s c. some (elim s [ stdin ↦ 3 | stdout ↦ 4 | stderr ↦ 5 ]);
  setitimer = λ t s u. true;
  sigaction = λ t. true;
  kill = λ t pid. none;
  waitpid = wait_answer;
  alarms = λ t. [];
  wifexited = λ w. w % 128 == 0;
  wexitstatus = λ w. w / 256 % 256;
  wifsignaled = λ w. not (w % 128 == 0) && not (w % 128 == 127);
  wtermsig = λ w. w % 128;
}

abbrev pub linux : Os
linux = linux_for stream

abbrev pub timer_signal : SigInfo
timer_signal = record { si_pid = 0; si_signo = 14; si_code = 128; si_status = 0 }

-- A SIGALRM comes at every point.
abbrev pub noisy : Os
noisy = record linux { alarms = λ t. timer_signal ∷ [] }

abbrev pub forking : Os
forking = record linux { fork = λ t. in_child }

-- A timeout of a microsecond runs out at once.
abbrev pub hasty : Os
hasty = record linux {
  alarms = λ t. elim t [ setitimer_call s u ∷ rest ↦ timer_signal ∷ [] | _ ↦ [] ];
}

-- Once its handler is installed, a SIGALRM comes at every point.
abbrev pub timely_for : (stream : List ℕ) → Os
timely_for stream = record (linux_for stream) {
  alarms = λ t. if installed t then timer_signal ∷ [] else [];
}

abbrev pub timely : Os
timely = timely_for stream

-- No client holds the other end.
abbrev pub alone : Os
alone = record linux { read = λ t n. got [] }

abbrev pub start : Daemon
start = record initial { trace = read_call 8 (got (to_bytes 8 7)) ∷ fopen_log ∷ [] }

abbrev pub greeted_by : Daemon
greeted_by = record initial {
  trace =
      write_call (server_pid 100) ∷ getpid_call ∷ read_call 8 (got (to_bytes 8 7)) ∷ fopen_log ∷ [];
}

abbrev pub running : Daemon
running = record initial {
  handler = true;
  trace = read_call 8 (got (to_bytes 8 7)) ∷ fopen_log ∷ [];
}

chunk_of-Delivery :
    (rest : List ℕ) (n most : ℕ) → 0 < n → 0 < most → Delivery rest n (chunk_of rest n most)
chunk_of-Delivery [] n most h k = at_end refl (ap got (take-nil (min (min n most) 0)))
chunk_of-Delivery (b ∷ bs) n most h k =
    let m : ℕ = min (min n most) (suc (length bs)) in
    let e : suc (m - 1) ≡ m = omega arith in
    chunk (m - 1) (omega arith) (omega arith) (ap (λ j. got (take j (b ∷ bs))) (sym e))

read_stream-Delivery :
    (stream : List ℕ) (t : Trace) (n : ℕ)
    → 0 < n
    → Delivery (drop (consumed t) stream) n (read_stream stream t n)
read_stream-Delivery stream t n h = elim (Bool-cases ((consumed t == 8) && (interrupts t == 0))) [
  | inl e ↦ interrupted (rw e)
  | inr e ↦ rw e (
      chunk_of-Delivery (drop (consumed t) stream) n (if consumed t == 0 then 8 else 3) h
        (ground arith))
]

read_stream-patient :
    (stream : List ℕ) (t : Trace) (n : ℕ)
    → read_stream stream t n ≡ read_failed eintr
    → interrupts t < 1
read_stream-patient stream t n e = ground arith

pub noisy-Pipe : Pipe noisy stream 1
noisy-Pipe = record { delivers = read_stream-Delivery stream; patient = read_stream-patient stream }

wait_answer-Report :
    (stream : List ℕ) (t : Trace) (pid : ℕ)
    → Report (linux_for stream) 2 (waits t) pid (wait_answer t pid)
wait_answer-Report stream t pid = elim (Bool-cases (waits t == 0)) [
  | inl a ↦ again (rw a) (ground arith)
  | inr a ↦ elim (Bool-cases (waits t == 1)) [
    | inl b ↦ stopped 0x137f (rw (a, b)) refl (ground arith)
    | inr b ↦ ended 0x7300 (rw (a, b)) refl
  ]
]

Report-noisy : {n pid : ℕ} {a : WaitAnswer} → Report linux 2 n pid a → Report noisy 2 n pid a
Report-noisy (again e h) = again e h
Report-noisy (stopped w e r h) = stopped w e r h
Report-noisy (ended w e r) = ended w e r

pub linux-Cooperates : Cooperates linux 2
linux-Cooperates = record {
  forks = λ t. (101, refl);
  arms = λ t s u. refl;
  installs = λ t. refl;
  ends = record { reports = wait_answer-Report stream; writes = λ t r. (12, refl) };
}

pub noisy-Cooperates : Cooperates noisy 2
noisy-Cooperates = record {
  forks = λ t. (101, refl);
  arms = λ t s u. refl;
  installs = λ t. refl;
  ends = record {
    reports = λ t pid. Report-noisy (wait_answer-Report stream t pid);
    writes = λ t r. (12, refl);
  };
}

pub timely_for-Pipe : (stream : List ℕ) → Pipe (timely_for stream) stream 2
timely_for-Pipe stream = record {
  delivers = read_stream-Delivery stream;
  patient = λ t n e. omega (arith, read_stream-patient stream t n e);
}

Report-timely :
    (bytes : List ℕ) {n pid : ℕ} {a : WaitAnswer}
    → Report (linux_for bytes) 2 n pid a
    → Report (timely_for bytes) 2 n pid a
Report-timely bytes (again e h) = again e h
Report-timely bytes (stopped w e r h) = stopped w e r h
Report-timely bytes (ended w e r) = ended w e r

pub timely_for-Cooperates : (stream : List ℕ) → Cooperates (timely_for stream) 2
timely_for-Cooperates stream = record {
  forks = λ t. (101, refl);
  arms = λ t s u. refl;
  installs = λ t. refl;
  ends = record {
    reports = λ t pid. Report-timely stream (wait_answer-Report stream t pid);
    writes = λ t r. (12, refl);
  };
}

pub timely_for-Survives : (stream : List ℕ) → Survives (timely_for stream) initial
timely_for-Survives stream = inr (refl, λ t e. rw e refl)
