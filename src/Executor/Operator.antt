-- ===== src/Executor/Operator.antt =====
-- A call of `operator()`: what it writes, and what it returns.
use fuzzuf_cc.Prelude.{
  ◌++◌, take-append, ℕ, ◌+◌, ◌<◌, ◌≡◌, refl, ap, ◌∙◌, ◌==◌, true, false, some, List, [], ◌∷◌,
  length, take, arith, if◌then◌else◌,
}
use fuzzuf_cc.Bytes.{to_bytes}
use fuzzuf_cc.Exif.Heap.{overwrite}
use fuzzuf_cc.Executor.Types.{Trace, Client, Call, lseek_call, write_call, ftruncate_call}
use fuzzuf_cc.Executor.Effect.{done}
use fuzzuf_cc.Executor.Host.{Host}
use fuzzuf_cc.Executor.Pipe.{get_fd}
use fuzzuf_cc.Executor.Start.{call_fork_server_api}
use fuzzuf_cc.Executor.Execute.{
  Locals, locals, same_fd, write_testcase_to_stdin, collect, call_operator,
}
use fuzzuf_cc.Executor.Stream.{idle_wait, idle_read, idle_start, Idle, Streams, Attached, Delivers}
use fuzzuf_cc.Executor.Steps.{at}
use fuzzuf_cc.Executor.Rounds.{Collected, awaited, left}
use fuzzuf_cc.Executor.Collect.{collect-Collected}

-- The file of standard input and the pipe to the server take what is written.
pub record Accepts (host : Host) (file to : ℕ) : Type 0 where
  pub sought : (t : Trace) → host.lseek t (some file) ≡ true
  pub stored : (t : Trace) (bs : List ℕ) → host.write t (some file) bs ≡ some (length bs)
  pub truncated : (t : Trace) (n : ℕ) → host.ftruncate t (some file) n ≡ true
  pub sent : (t : Trace) (bs : List ℕ) → host.write t (some to) bs ≡ some (length bs)

-- The client has these descriptors open.
pub record Writes (c : Client) (file to : ℕ) : Type 0 where
  pub stdin_fd : c.target_stdin_fd ≡ some file
  pub to_fd : get_fd c.to_fork_server ≡ some to

-- The calls that pass a test case on.
abbrev pub passed_on : (file to : ℕ) → (input : List ℕ) → Trace → Trace
passed_on file to input t =
    write_call (some to) (to_bytes 4 4) (some 4)
    ∷ ftruncate_call (some file) (length input)
    ∷ write_call (some file) input (some (length input))
    ∷ lseek_call (some file)
    ∷ t

-- What a call on the descriptor of a file makes of its bytes and the position in it.
abbrev pub write_to : ℕ → Call → List ℕ × ℕ → List ℕ × ℕ
write_to file (lseek_call f) (bytes, position) =
    if same_fd f (some file) then (bytes, 0) else (bytes, position)
write_to file (write_call f new (some n)) (bytes, position) =
    if same_fd f (some file)
    then (overwrite position (take n new) bytes, position + n)
    else (bytes, position)
write_to file (ftruncate_call f n) (bytes, position) =
    if same_fd f (some file) then (take n bytes, position) else (bytes, position)
write_to file _ state = state

abbrev pub contents : ℕ → Trace → List ℕ × ℕ
contents file [] = ([], 0)
contents file (c ∷ t) = write_to file c (contents file t)

pub contents-Idle :
    (file : ℕ) (t base : Trace) → Idle t → contents file (t ++ base) ≡ contents file base
contents-Idle file [] base idle_start = refl
contents-Idle file (c ∷ t) base (idle_read i) = contents-Idle file t base i
contents-Idle file (c ∷ t) base (idle_wait i) = contents-Idle file t base i

pub take-all : (xs : List ℕ) → take (length xs) xs ≡ xs
take-all [] = refl
take-all (x ∷ xs) = ap (◌∷◌ x) (take-all xs)

-- Behind the calls that pass a test case on, the file holds it and nothing else.
contents-passed_on :
    (file to : ℕ) (input : List ℕ) (t : Trace)
    → (to == file) ≡ false
    → (contents file (passed_on file to input t)).0 ≡ input
contents-passed_on file to input t other =
    let self : (file == file) ≡ true = ground arith in
    rw (other, self, take-all input) (take-append input _)

module _ (host : Host) (c : Client) (file to : ℕ) (accepts : Accepts host file to)
    (w : Writes c file to) (input : List ℕ) where
  call_operator-passed_on :
      (fuel : ℕ)
      → call_operator host fuel input c
        ≡ collect host fuel locals (at c (passed_on file to input c.trace))
  unfolding call_operator write_testcase_to_stdin call_fork_server_api
  call_operator-passed_on fuel =
      rw (w.stdin_fd, accepts.sought, accepts.stored, accepts.truncated, w.to_fd, accepts.sent)

  -- When the test case and the command can be written and the system delivers what the program
  -- sends, a call of `operator()` returns the whole response and all that the program has written to
  -- its output and its errors, in whatever order and in whatever chunks these arrive; the program
  -- has the test case and nothing else in the file of its standard input. The fuel has to be more
  -- than the bytes that arrive and the calls that are interrupted.
  pub call_operator-Collected :
      (s : Streams) (patience fuel : ℕ)
      → (to == file) ≡ false
      → Delivers host s patience (passed_on file to input c.trace)
      → Attached s c
      → left s patience [] < fuel
      → (l : Locals) × (t : Trace) × (call_operator host fuel input c
          ≡ done l (at c (t ++ passed_on file to input c.trace)))
        × Collected s l t
        × ((contents file (t ++ passed_on file to input c.trace)).0 ≡ input)
  call_operator-Collected s patience fuel other delivers attached enough =
      let (l, t, e, all) =
        collect-Collected host c s patience (passed_on file to input c.trace) delivers attached fuel
          locals []
          (record {
            output_kept = refl;
            errors_kept = refl;
            answer = awaited refl refl refl;
            idle = idle_start;
          })
          enough in
      (
        l,
        t,
        call_operator-passed_on fuel ∙ e,
        all,
        ap (λ p. p.0) (contents-Idle file t (passed_on file to input c.trace) all.idle)
            ∙ contents-passed_on file to input c.trace other,
      )
