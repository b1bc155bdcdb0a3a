-- ===== src/Executor/Stream.antt =====
-- What one execution sends to the client: output, errors and a response, which `epoll_wait` and
-- `read` deliver in any order and in chunks of any size.
use mathlib.Core.List.{append_assoc}
use fuzzuf_cc.Prelude.{
  take-append-drop, ap, drop-drop, sym, length-take, arith, ◌++◌, ℕ, suc, ◌+◌, ◌≤◌, ◌<◌, ◌≡◌, Bool,
  true, false, ◌==◌, if◌then◌else◌, some, List, [], ◌∷◌, bit_and, length, take, drop,
}
use fuzzuf_cc.ForkServer.Types.{eintr, got, ReadAnswer}
use fuzzuf_cc.Executor.Types.{
  Fd, Trace, Client, EpollAnswer, event, timed_out, wait_failed, read_call, epoll_wait_call,
  epollin,
}
use fuzzuf_cc.Executor.Host.{Host}
use fuzzuf_cc.Executor.Pipe.{get_fd}
use fuzzuf_cc.Executor.Execute.{same_fd, sizeof_response}

-- The number of bytes that were read from a descriptor in the calls of one collection.
abbrev pub taken : ℕ → Trace → ℕ
taken fd [] = 0
taken fd (read_call f n (got bs) ∷ t) =
    let before = taken fd t in if same_fd f (some fd) then before + length bs else before
taken fd (_ ∷ t) = taken fd t

-- The calls of `epoll_wait` that a signal interrupted.
abbrev pub interrupts : Trace → ℕ
interrupts [] = 0
interrupts (epoll_wait_call e f (wait_failed eintr) ∷ t) = suc (interrupts t)
interrupts (_ ∷ t) = interrupts t

-- The descriptors, and all that comes from each of them.
pub record Streams : Type 0 where
  pub out_fd : ℕ
  pub err_fd : ℕ
  pub server_fd : ℕ
  pub output : List ℕ
  pub errors : List ℕ
  pub response : List ℕ

-- What is still to be read.
abbrev pub unread : ℕ → List ℕ → Trace → List ℕ
unread fd stream t = drop (taken fd t) stream

module _ (s : Streams) where
  abbrev pub unread_output : Trace → List ℕ
  unread_output = unread s.out_fd s.output

  abbrev pub unread_errors : Trace → List ℕ
  unread_errors = unread s.err_fd s.errors

  abbrev pub unread_response : Trace → List ℕ
  unread_response = unread s.server_fd s.response

  -- What `epoll_wait` may answer: it is interrupted, it names a descriptor that has bytes, or, if
  -- it does not wait, there are none.
  pub data Wakes (t : Trace) (forever : Bool) (answer : EpollAnswer) : Type 0 where
    interrupted : answer ≡ wait_failed eintr → Wakes t forever answer
    output_ready :
        (events : ℕ)
        → answer ≡ event (some s.out_fd) events
        → (bit_and events epollin == 0) ≡ false
        → 0 < length (unread_output t)
        → Wakes t forever answer
    errors_ready :
        (events : ℕ)
        → answer ≡ event (some s.err_fd) events
        → (bit_and events epollin == 0) ≡ false
        → 0 < length (unread_errors t)
        → Wakes t forever answer
    response_ready :
        (events : ℕ)
        → answer ≡ event (some s.server_fd) events
        → (bit_and events epollin == 0) ≡ false
        → 0 < length (unread_response t)
        → Wakes t forever answer
    quiet :
        answer ≡ timed_out
        → forever ≡ false
        → unread_output t ≡ []
        → unread_errors t ≡ []
        → Wakes t forever answer

-- A read of at most `n` bytes where `rest` is still to come.
pub data Delivery (rest : List ℕ) (n : ℕ) (answer : ReadAnswer) : Type 0 where
  chunk :
      (k : ℕ)
      → suc k ≤ n
      → suc k ≤ length rest
      → answer ≡ got (take (suc k) rest)
      → Delivery rest n answer

-- Calls that only read and wait.
pub data Idle : Trace → Type 0 where
  idle_start : Idle []
  idle_read : {f : Fd} {n : ℕ} {a : ReadAnswer} {t : Trace} → Idle t → Idle (read_call f n a ∷ t)
  idle_wait :
      {e : Fd} {f : Bool} {a : EpollAnswer} {t : Trace} → Idle t → Idle (epoll_wait_call e f a ∷ t)

-- Behind the calls `base`, the system delivers the streams, and a response of 12 bytes as a whole.
-- A call that waits for ever is answered as long as a response is to come; at most `patience` calls
-- are interrupted.
pub record Delivers (host : Host) (s : Streams) (patience : ℕ) (base : Trace) : Type 0 where
  pub whole : length s.response ≡ sizeof_response
  pub out_err : (s.out_fd == s.err_fd) ≡ false
  pub out_server : (s.out_fd == s.server_fd) ≡ false
  pub err_server : (s.err_fd == s.server_fd) ≡ false
  pub wakes :
      (t : Trace) (epoll : Fd) (forever : Bool)
      → Idle t
      → (forever ≡ true → length (unread_response s t) ≡ sizeof_response)
      → Wakes s t forever (host.epoll_wait (t ++ base) epoll forever)
  pub patient :
      (t : Trace) (epoll : Fd) (forever : Bool)
      → Idle t
      → host.epoll_wait (t ++ base) epoll forever ≡ wait_failed eintr
      → interrupts t < patience
  pub reads_output :
      (t : Trace) (n : ℕ)
      → Idle t
      → 0 < n
      → 0 < length (unread_output s t)
      → Delivery (unread_output s t) n (host.read (t ++ base) (some s.out_fd) n)
  pub reads_errors :
      (t : Trace) (n : ℕ)
      → Idle t
      → 0 < n
      → 0 < length (unread_errors s t)
      → Delivery (unread_errors s t) n (host.read (t ++ base) (some s.err_fd) n)
  pub reads_response :
      (t : Trace)
      → Idle t
      → length (unread_response s t) ≡ sizeof_response
      → host.read (t ++ base) (some s.server_fd) sizeof_response ≡ got (unread_response s t)

-- The pipes of the client are those of the streams.
pub record Attached (s : Streams) (c : Client) : Type 0 where
  pub out_fd : get_fd c.target_stdout ≡ some s.out_fd
  pub err_fd : get_fd c.target_stderr ≡ some s.err_fd
  pub server_fd : get_fd c.from_fork_server ≡ some s.server_fd

pub unread_self :
    (fd n : ℕ) (stream bs : List ℕ) (t : Trace)
    → unread fd stream (read_call (some fd) n (got bs) ∷ t) ≡ drop (length bs) (unread fd stream t)
unread_self fd n stream bs t =
    let self : (fd == fd) ≡ true = ground arith in
    rw self (sym (drop-drop (taken fd t) (length bs) stream))

pub unread_other :
    (f fd n : ℕ) (stream bs : List ℕ) (t : Trace)
    → (f == fd) ≡ false
    → unread fd stream (read_call (some f) n (got bs) ∷ t) ≡ unread fd stream t
unread_other f fd n stream bs t other = rw other

-- A chunk at the end of what was collected, and what is still to be read.
pub chunk_joins :
    (k : ℕ) (old rest : List ℕ)
    → suc k ≤ length rest
    → (old ++ take (suc k) rest) ++ drop (length (take (suc k) rest)) rest ≡ old ++ rest
chunk_joins k old rest h =
    let long : length (take (suc k) rest) ≡ suc k = omega (arith, length-take (suc k) rest) in
    rw (append_assoc, long) (ap (λ bs. old ++ bs) (take-append-drop (suc k) rest))
