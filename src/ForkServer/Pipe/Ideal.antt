-- ===== src/ForkServer/Pipe/Ideal.antt =====
-- An ideal pipe: a stream of bytes that `read` cuts into chunks and that signals interrupt.
use fuzzuf_cc.Prelude.{
  ℕ, suc, ◌+◌, ◌-◌, ◌≤◌, ◌<◌, ◌≡◌, refl, ap, ◌∙◌, List, [], ◌∷◌, ◌++◌, arith, length, take, drop,
  take-add, drop-drop, length-take, length-drop, length-take,
}
use mathlib.Core.List.{append_assoc}
use fuzzuf_cc.ForkServer.Types.{eintr, got, read_failed, ReadAnswer, Trace, Daemon}
use fuzzuf_cc.ForkServer.Os.{Os}
use fuzzuf_cc.ForkServer.Trace.{consumed, interrupts, sent, Survives}

-- What `read` of `n` bytes may answer when `rest` is still to come: it is interrupted, or it gives
-- from 1 to `n` of the next bytes, and none only at the end of the stream.
pub data Delivery (rest : List ℕ) (n : ℕ) (answer : ReadAnswer) : Type 0 where
  interrupted : answer ≡ read_failed eintr → Delivery rest n answer
  at_end : rest ≡ [] → answer ≡ got [] → Delivery rest n answer
  chunk :
      (k : ℕ)
      → suc k ≤ n
      → suc k ≤ length rest
      → answer ≡ got (take (suc k) rest)
      → Delivery rest n answer

-- The client writes `stream` and closes the pipe; at most `patience` reads are interrupted.
pub record Pipe (os : Os) (stream : List ℕ) (patience : ℕ) : Type 0 where
  pub delivers : (t : Trace) (n : ℕ) → 0 < n → Delivery (drop (consumed t) stream) n (os.read t n)
  pub patient : (t : Trace) (n : ℕ) → os.read t n ≡ read_failed eintr → interrupts t < patience

-- The next `n` bytes of the stream.
abbrev pub next_bytes : List ℕ → Daemon → ℕ → List ℕ
next_bytes stream d n = take n (drop (consumed d.trace) stream)

-- What a read of `n` bytes from the stream leaves behind.
pub record Advanced (os : Os) (stream : List ℕ) (n : ℕ) (d d' : Daemon) : Type 0 where
  pub position : consumed d'.trace ≡ consumed d.trace + length (next_bytes stream d n)
  pub sent_same : sent d'.trace ≡ sent d.trace
  pub put_pid : d'.put_pid ≡ d.put_pid
  pub survives : Survives os d'

-- A chunk and the bytes behind it.
chunk_joins :
    (stream : List ℕ) (c j m : ℕ)
    → j ≤ m
    → take j (drop c stream) ++ take (m - j) (drop (c + j) stream) ≡ take m (drop c stream)
chunk_joins stream c j m h =
    let whole : j + (m - j) ≡ m = omega arith in
    rw (← drop-drop c j stream)
      (take-add j (m - j) (drop c stream) ∙ ap (λ n. take n (drop c stream)) whole)

pub chunk_bytes :
    (stream buf ch : List ℕ) (c j m : ℕ)
    → take j (drop c stream) ≡ ch
    → j ≤ m
    → (buf ++ ch) ++ take (m - j) (drop (c + j) stream) ≡ buf ++ take m (drop c stream)
chunk_bytes stream buf ch c j m e h =
    rw (← e, append_assoc) (ap (λ bs. buf ++ bs) (chunk_joins stream c j m h))

pub take-suc-cons :
    (k : ℕ) (rest : List ℕ)
    → suc k ≤ length rest
    → (b : ℕ) × (bs : List ℕ) × (take (suc k) rest ≡ b ∷ bs) × (length bs ≡ k)
take-suc-cons k [] h = absurd (omega arith)
take-suc-cons k (x ∷ xs) h = (x, take k xs, refl, omega (arith, length-take k xs))

-- The state on which a loop goes on, for what `Advanced` says of it.
pub record Resumed (os : Os) (read : ℕ) (d d1 : Daemon) : Type 0 where
  pub position : consumed d1.trace ≡ consumed d.trace + read
  pub sent_same : sent d1.trace ≡ sent d.trace
  pub put_pid : d1.put_pid ≡ d.put_pid

pub Advanced-Resumed :
    (os : Os) (stream : List ℕ) (j n : ℕ) (d d1 d' : Daemon)
    → Resumed os j d d1
    → j ≤ n
    → j ≤ length (drop (consumed d.trace) stream)
    → Advanced os stream (n - j) d1 d'
    → Advanced os stream n d d'
Advanced-Resumed os stream j n d d1 d' r h fits a = record {
  position = omega (
    arith,
    length-take n (drop (consumed d.trace) stream),
    length-drop (consumed d.trace) stream,
    length-take (n - j) (drop (consumed d1.trace) stream),
    length-drop (consumed d1.trace) stream,
  );
  sent_same = a.sent_same ∙ r.sent_same;
  put_pid = a.put_pid ∙ r.put_pid;
  survives = a.survives;
}
