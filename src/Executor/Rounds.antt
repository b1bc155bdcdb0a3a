-- ===== src/Executor/Rounds.antt =====
-- What holds between the rounds of the loop of `operator()`.
pub mod Moves
use fuzzuf_cc.Prelude.{
  sym, Bool, refl, ℕ, suc, ◌+◌, ◌-◌, ◌≤◌, ◌<◌, ◌≡◌, ap, ◌∙◌, true, false, ◌==◌, some, List, [], ◌∷◌,
  ◌++◌, map, arith, length, length-map, length-take, length-drop, take, drop, bit_and,
}
use mathlib.Core.List.{append-nil}
use fuzzuf_cc.Exif.Heap.{overwrite}
use fuzzuf_cc.ForkServer.Types.{eintr, got}
use fuzzuf_cc.Executor.Types.{timed_out, wait_failed, Trace, Client, event, read_call, epollin}
use fuzzuf_cc.Executor.Host.{Host}
use fuzzuf_cc.Executor.Execute.{Locals, unanswered, collect, chunk_size, sizeof_response}
use fuzzuf_cc.Executor.Stream.{
  Streams, Attached, Delivers, unread_output, unread_errors, unread_response, interrupts, Idle,
  idle_read, idle_wait, unread_self, unread_other, chunk_joins,
}
use fuzzuf_cc.Executor.Steps.{
  on_event-response, on_event-errors, collect-interrupted, at, waited, collect-event,
  on_event-output,
}

-- The response is still to come, or is there and nothing waits for it.
pub data Answer (s : Streams) (l : Locals) (t : Trace) : Type 0 where
  awaited :
      l.forever ≡ true → unread_response s t ≡ s.response → l.response ≡ unanswered → Answer s l t
  answered :
      l.forever ≡ false → unread_response s t ≡ [] → l.response ≡ map some s.response → Answer s l t

-- What was collected and what is still to be read make up the streams; only reads and waits were
-- done.
pub record Holds (s : Streams) (l : Locals) (t : Trace) : Type 0 where
  pub output_kept : l.standard_output ++ unread_output s t ≡ s.output
  pub errors_kept : l.standard_error ++ unread_errors s t ≡ s.errors
  pub answer : Answer s l t
  pub idle : Idle t

-- What the loop comes to.
pub record Collected (s : Streams) (l : Locals) (t : Trace) : Type 0 where
  pub output_whole : l.standard_output ≡ s.output
  pub errors_whole : l.standard_error ≡ s.errors
  pub response_whole : l.response ≡ map some s.response
  pub idle : Idle t

pub overwrite-unanswered :
    (response : List ℕ)
    → length response ≡ sizeof_response
    → overwrite 0 (map some response) unanswered ≡ map some response
overwrite-unanswered response h =
    let long : length (map some response) ≡ 12 = length-map response some ∙ h in
    rw long (append-nil (map some response))

pub on_off : {b : Bool} → b ≡ true → b ≡ false → ⊥
on_off on off = ground arith

pub drop_all : (xs : List ℕ) → drop (length xs) xs ≡ []
drop_all [] = refl
drop_all (x ∷ xs) = drop_all xs

pub flip : (a b : ℕ) → (a == b) ≡ false → (b == a) ≡ false
flip a b h = ground arith

-- The number of rounds that may follow.
abbrev pub left : Streams → ℕ → Trace → ℕ
left s patience t =
    length (unread_output s t)
    + length (unread_errors s t)
    + length (unread_response s t)
    + (patience - interrupts t)
