-- ===== src/Executor/Tests/Linux.antt =====
-- A system on which the client runs: it delivers what the program sends one byte at a time.
use fuzzuf_cc.Prelude.{
  inr, inl, Bool-cases, sym, ltb→lt, ℕ, suc, ◌+◌, ◌<◌, ◌≡◌, refl, ap, Bool, true, false, ◌==◌, ltb,
  if◌then◌else◌, some, List, [], ◌∷◌, ◌++◌, length, take, drop, arith, Option,
}
use fuzzuf_cc.ForkServer.Types.{other_errno, esrch, got, read_failed, in_parent, eintr, ReadAnswer}
use fuzzuf_cc.Executor.Stream.{
  interrupted, chunk, quiet, errors_ready, output_ready, response_ready, Delivers, Wakes, Streams,
  Delivery, Idle, idle_start, idle_read, idle_wait, taken, interrupts, unread_output, unread_errors,
  unread_response,
}
use fuzzuf_cc.Bytes.{to_bytes}
use fuzzuf_cc.Executor.Types.{
  Trace, Fd, EpollAnswer, event, timed_out, wait_failed, read_call, write_call, epoll_wait_call,
  epollin,
}
use fuzzuf_cc.Executor.Host.{Host}
use fuzzuf_cc.Executor.Execute.{same_fd}
use fuzzuf_cc.Executor.Operator.{passed_on}
use fuzzuf_cc.Executor.Connect.{Grant, Welcomes}

abbrev pub response_bytes : List ℕ
response_bytes = to_bytes 4 0 ++ (to_bytes 4 115 ++ to_bytes 4 0)

-- The program writes the first two bytes of its input, and one byte to its errors.
abbrev pub streams : List ℕ → Streams
streams input = record {
  out_fd = 14;
  err_fd = 16;
  server_fd = 12;
  output = take 2 input;
  errors = 33 ∷ [];
  response = response_bytes;
}

-- Since the last command: the bytes that were read from a descriptor, and the interruptions.
abbrev pub recent : ℕ → Trace → ℕ
recent fd [] = 0
recent fd (write_call f bs a ∷ t) = 0
recent fd (read_call f n (got bs) ∷ t) =
    let before = recent fd t in if same_fd f (some fd) then before + length bs else before
recent fd (_ ∷ t) = recent fd t

abbrev pub recent_interrupts : Trace → ℕ
recent_interrupts [] = 0
recent_interrupts (write_call f bs a ∷ t) = 0
recent_interrupts (epoll_wait_call e f (wait_failed eintr) ∷ t) = suc (recent_interrupts t)
recent_interrupts (_ ∷ t) = recent_interrupts t

-- The last test case.
abbrev pub input_of : Trace → List ℕ
input_of [] = []
input_of (write_call f bs a ∷ t) =
    let before = input_of t in if same_fd f (some 18) then bs else before
input_of (_ ∷ t) = input_of t

abbrev pub rest_output : Trace → List ℕ
rest_output t = drop (recent 14 t) (take 2 (input_of t))

abbrev pub rest_errors : Trace → List ℕ
rest_errors t = drop (recent 16 t) (33 ∷ [])

abbrev pub rest_response : Trace → List ℕ
rest_response t = drop (recent 12 t) response_bytes

-- The first wait is interrupted. The response comes first, and each read gives one byte of output.
abbrev pub epoll_answer : Trace → EpollAnswer
epoll_answer t =
    if recent_interrupts t == 0
    then wait_failed eintr
    else if ltb 0 (length (rest_response t))
    then event (some 12) epollin
    else if ltb 0 (length (rest_output t))
    then event (some 14) epollin
    else if ltb 0 (length (rest_errors t))
    then event (some 16) epollin
    else timed_out

abbrev pub read_answer : Trace → Fd → ℕ → ReadAnswer
read_answer t fd n =
    if same_fd fd (some 12)
    then if n == 4 then got (to_bytes 4 100) else got (rest_response t)
    else if same_fd fd (some 14)
    then got (take 1 (rest_output t))
    else got (take 1 (rest_errors t))

abbrev pub grant : Grant
grant = record {
  to = (10, 11);
  from = (12, 13);
  out = (14, 15);
  err = (16, 17);
  forked = 100;
  pid = to_bytes 4 100;
  file = 18;
  epoll = 19;
}

abbrev pub pipe_answer : Trace → Option (ℕ × ℕ)
pipe_answer [] = some (10, 11)
pipe_answer (a ∷ []) = some (12, 13)
pipe_answer (a ∷ b ∷ []) = some (14, 15)
pipe_answer (a ∷ b ∷ c ∷ t) = some (16, 17)

abbrev pub linux : Host
linux = record {
  pipe = pipe_answer;
  dup2 = λ t a b. true;
  fork = λ t. in_parent 100;
  execve = λ t. true;
  write = λ t fd bytes. some (length bytes);
  read = read_answer;
  open_file = λ t. some 18;
  lseek = λ t fd. true;
  ftruncate = λ t fd n. true;
  remove = λ t. true;
  epoll_create = λ t. some 19;
  epoll_add = λ t e fd. true;
  epoll_del = λ t e fd. true;
  epoll_wait = λ t e forever. epoll_answer t;
  waitpid = λ t pid. true;
}

pub linux-Welcomes : Welcomes linux grant
linux-Welcomes = record {
  pipe_to = refl;
  pipe_from = refl;
  pipe_out = refl;
  pipe_err = refl;
  forks = refl;
  writes = λ t bs. refl;
  tells = λ t. refl;
  pid_whole = refl;
  opens = λ t. refl;
  creates = λ t. refl;
  adds = λ t fd. refl;
}

pub positive : {m n : ℕ} → m ≡ n → ltb 0 m ≡ true → 0 < n
positive {m = m} {n = n} e h = omega (arith, ltb→lt 0 m h)

pub empty : {xs ys : List ℕ} → xs ≡ ys → ltb 0 (length xs) ≡ false → ys ≡ []
empty {xs = []} {ys = ys} e h = sym e
empty {xs = x ∷ xs} {ys = ys} e h = ground arith

pub one-Delivery :
    (rest : List ℕ) (n : ℕ) → 0 < n → 0 < length rest → Delivery rest n (got (take 1 rest))
one-Delivery rest n h k = chunk 0 (omega arith) (omega arith) refl

module _ (input : List ℕ) (t0 : Trace) where
  abbrev pub base : Trace
  base = passed_on 18 11 input t0

  pub recent-Idle : (fd : ℕ) (t : Trace) → Idle t → recent fd (t ++ base) ≡ taken fd t
  recent-Idle fd [] idle_start = refl
  recent-Idle fd (c ∷ t) (idle_read {a = got bs} i) = rw (recent-Idle fd t i) refl
  recent-Idle fd (c ∷ t) (idle_read {a = read_failed e} i) = recent-Idle fd t i
  recent-Idle fd (c ∷ t) (idle_wait i) = recent-Idle fd t i

  pub recent_interrupts-Idle : (t : Trace) → Idle t → recent_interrupts (t ++ base) ≡ interrupts t
  recent_interrupts-Idle [] idle_start = refl
  recent_interrupts-Idle (c ∷ t) (idle_read i) = recent_interrupts-Idle t i
  recent_interrupts-Idle (c ∷ t) (idle_wait {a = event fd events} i) = recent_interrupts-Idle t i
  recent_interrupts-Idle (c ∷ t) (idle_wait {a = timed_out} i) = recent_interrupts-Idle t i
  recent_interrupts-Idle (c ∷ t) (idle_wait {a = wait_failed eintr} i) =
      ap suc (recent_interrupts-Idle t i)
  recent_interrupts-Idle (c ∷ t) (idle_wait {a = wait_failed esrch} i) = recent_interrupts-Idle t i
  recent_interrupts-Idle (c ∷ t) (idle_wait {a = wait_failed other_errno} i) =
      recent_interrupts-Idle t i

  pub input_of-Idle : (t : Trace) → Idle t → input_of (t ++ base) ≡ input
  input_of-Idle [] idle_start = refl
  input_of-Idle (c ∷ t) (idle_read i) = input_of-Idle t i
  input_of-Idle (c ∷ t) (idle_wait i) = input_of-Idle t i

  pub rest_output-Idle :
      (t : Trace) → Idle t → rest_output (t ++ base) ≡ unread_output (streams input) t
  rest_output-Idle t i = rw (recent-Idle 14 t i, input_of-Idle t i) refl

  pub rest_errors-Idle :
      (t : Trace) → Idle t → rest_errors (t ++ base) ≡ unread_errors (streams input) t
  rest_errors-Idle t i = rw (recent-Idle 16 t i) refl

  pub rest_response-Idle :
      (t : Trace) → Idle t → rest_response (t ++ base) ≡ unread_response (streams input) t
  rest_response-Idle t i = rw (recent-Idle 12 t i) refl

  pub not_waiting :
      (t : Trace) (forever : Bool)
      → (forever ≡ true → length (unread_response (streams input) t) ≡ 12)
      → unread_response (streams input) t ≡ []
      → forever ≡ false
  not_waiting t forever h over = elim (Bool-cases forever) [
    | inl on ↦ absurd (omega (arith, h on, ap length over))
    | inr off ↦ off
  ]

  pub epoll_answer-Wakes :
      (t : Trace) (forever : Bool)
      → Idle t
      → (forever ≡ true → length (unread_response (streams input) t) ≡ 12)
      → Wakes (streams input) t forever (epoll_answer (t ++ base))
  epoll_answer-Wakes t forever i h = elim (Bool-cases (recent_interrupts (t ++ base) == 0)) [
    | inl a ↦ interrupted (rw a)
    | inr a ↦ elim (Bool-cases (ltb 0 (length (rest_response (t ++ base))))) [
      | inl b ↦
          response_ready epollin (rw (a, b)) refl (positive (ap length (rest_response-Idle t i)) b)
      | inr b ↦ elim (Bool-cases (ltb 0 (length (rest_output (t ++ base))))) [
        | inl d ↦
            output_ready epollin (rw (a, b, d)) refl (positive (ap length (rest_output-Idle t i)) d)
        | inr d ↦ elim (Bool-cases (ltb 0 (length (rest_errors (t ++ base))))) [
          | inl e ↦
              errors_ready epollin (rw (a, b, d, e)) refl
                (positive (ap length (rest_errors-Idle t i)) e)
          | inr e ↦
              quiet (rw (a, b, d, e)) (not_waiting t forever h (empty (rest_response-Idle t i) b))
                (empty (rest_output-Idle t i) d) (empty (rest_errors-Idle t i) e)
        ]
      ]
    ]
  ]

  pub epoll_answer-patient :
      (t : Trace) → Idle t → epoll_answer (t ++ base) ≡ wait_failed eintr → interrupts t < 1
  epoll_answer-patient t i e = omega (arith, recent_interrupts-Idle t i, none_before)
    where
      none_before : recent_interrupts (t ++ base) < 1
      none_before = ground arith

  pub linux-Delivers : Delivers linux (streams input) 1 base
  linux-Delivers = record {
    whole = refl;
    out_err = refl;
    out_server = refl;
    err_server = refl;
    wakes = λ t epoll forever i h. epoll_answer-Wakes t forever i h;
    patient = λ t epoll forever i e. epoll_answer-patient t i e;
    reads_output = λ t n i h k.
        rw (rest_output-Idle t i) (one-Delivery (unread_output (streams input) t) n h k);
    reads_errors = λ t n i h k.
        rw (rest_errors-Idle t i) (one-Delivery (unread_errors (streams input) t) n h k);
    reads_response = λ t i h. ap got (rest_response-Idle t i);
  }
