-- ===== src/Executor/Session.antt =====
-- A client that calls `operator()` for one test case after the other.
use fuzzuf_cc.Prelude.{
  ap, ◌∙◌, sym, refl, ◌<◌, length, replicate, map, ℕ, ◌≡◌, ◌==◌, true, false, some, List, [], ◌∷◌,
  ◌++◌, take, arith, if◌then◌else◌,
}
use fuzzuf_cc.Executor.Steps.{at}
use fuzzuf_cc.Executor.Types.{Client, Trace, Call, write_call}
use fuzzuf_cc.Executor.Rounds.{left, Collected}
use fuzzuf_cc.ForkServer.Protocol.{execute, encode_all}
use mathlib.Core.List.{append_assoc, append-nil}
use fuzzuf_cc.Bytes.{to_bytes}
use fuzzuf_cc.Executor.Effect.{done, Cpp, pure, ◌>>=◌}
use fuzzuf_cc.Executor.Host.{Host}
use fuzzuf_cc.Executor.Execute.{Locals, same_fd, call_operator}
use fuzzuf_cc.Executor.Stream.{Delivers, Attached, Streams, Idle, idle_start, idle_read, idle_wait}
use fuzzuf_cc.Executor.Operator.{call_operator-Collected, Writes, Accepts, passed_on}

-- The bytes that were written to a descriptor.
abbrev pub written_by : ℕ → Call → List ℕ
written_by fd (write_call f bytes (some n)) = if same_fd f (some fd) then take n bytes else []
written_by fd _ = []

abbrev pub written : ℕ → Trace → List ℕ
written fd [] = []
written fd (c ∷ t) = written fd t ++ written_by fd c

pub written-Idle : (fd : ℕ) (t base : Trace) → Idle t → written fd (t ++ base) ≡ written fd base
written-Idle fd [] base idle_start = refl
written-Idle fd (c ∷ t) base (idle_read i) =
    append-nil (written fd (t ++ base)) ∙ written-Idle fd t base i
written-Idle fd (c ∷ t) base (idle_wait i) =
    append-nil (written fd (t ++ base)) ∙ written-Idle fd t base i

written-passed_on :
    (file to : ℕ) (input : List ℕ) (t : Trace)
    → (file == to) ≡ false
    → written to (passed_on file to input t) ≡ written to t ++ to_bytes 4 4
written-passed_on file to input t other =
    let self : (to == to) ≡ true = ground arith in
    rw
      (other, self, append-nil (written to t), append-nil (written to t), append-nil (written to t))

module _ (host : Host) where
  unfoldable pub call_each : (fuel : ℕ) → (inputs : List (List ℕ)) → Cpp (List Locals)
  call_each fuel [] = pure []
  call_each fuel (input ∷ inputs) =
      call_operator host fuel input >>= λ l. call_each fuel inputs >>= λ ls. pure (l ∷ ls)

-- The program answers each test case in its own way, and the system delivers that.
pub record Executes (host : Host) (c : Client) (file to patience fuel : ℕ)
    (streams : List ℕ → Streams) : Type 0 where
  pub accepts : Accepts host file to
  pub writes : Writes c file to
  pub apart : (to == file) ≡ false
  pub apart' : (file == to) ≡ false
  pub attached : (input : List ℕ) → Attached (streams input) c
  pub delivers :
      (input : List ℕ) (t : Trace)
      → Delivers host (streams input) patience (passed_on file to input t)
  pub enough : (input : List ℕ) → left (streams input) patience [] < fuel

-- Each test case has its output, its errors and its response.
pub record Answered (streams : List ℕ → Streams) (inputs : List (List ℕ)) (ls : List Locals)
    : Type 0 where
  pub outputs : map (λ (l : Locals). l.standard_output) ls ≡ map (λ i. (streams i).output) inputs
  pub errors : map (λ (l : Locals). l.standard_error) ls ≡ map (λ i. (streams i).errors) inputs
  pub responses :
      map (λ (l : Locals). l.response) ls ≡ map (λ i. map some (streams i).response) inputs

cons_equal : {A : Type 0} {a b : A} {xs ys : List A} → a ≡ b → xs ≡ ys → a ∷ xs ≡ b ∷ ys
cons_equal p q = rw (p, q)

module _ (host : Host) (c : Client) (file to patience fuel : ℕ) (streams : List ℕ → Streams)
    (executes : Executes host c file to patience fuel streams) where
  call_one :
      (input : List ℕ) (t : Trace)
      → (l : Locals) × (t' : Trace) × (call_operator host fuel input (at c t)
          ≡ done l (at c (t' ++ passed_on file to input t)))
        × Collected (streams input) l t'
        × (written to (t' ++ passed_on file to input t) ≡ written to t ++ to_bytes 4 4)
  call_one input t =
      let w : Writes (at c t) file to = record {
        stdin_fd = executes.writes.stdin_fd;
        to_fd = executes.writes.to_fd;
      } in
      let a : Attached (streams input) (at c t) = record {
        out_fd = (executes.attached input).out_fd;
        err_fd = (executes.attached input).err_fd;
        server_fd = (executes.attached input).server_fd;
      } in
      let (l, t', e, all, _) =
        call_operator-Collected host (at c t) file to executes.accepts w input (streams input)
          patience fuel executes.apart (executes.delivers input t) a (executes.enough input) in
      (
        l,
        t',
        e,
        all,
        written-Idle to t' (passed_on file to input t) all.idle
            ∙ written-passed_on file to input t executes.apart',
      )

  -- Test cases one after the other: each has its own output, errors and response, none of those of
  -- another; to the server goes one command for each.
  pub call_each-Answered :
      (inputs : List (List ℕ)) (t : Trace)
      → (ls : List Locals) × (t' : Trace) × (call_each host fuel inputs (at c t)
          ≡ done ls (at c t'))
        × Answered streams inputs ls
        × (written to t' ≡ written to t ++ encode_all (replicate (length inputs) execute))
  unfolding call_each
  call_each-Answered [] t = (
    [],
    t,
    refl,
    record { outputs = refl; errors = refl; responses = refl },
    sym (append-nil (written to t)),
  )
  call_each-Answered (input ∷ inputs) t =
      let (l, t1, e, all, s) = call_one input t in
      let (ls, t2, es, answers, ss) = call_each-Answered inputs (t1 ++ passed_on file to input t) in
      (
        l ∷ ls,
        t2,
        rw (e, es),
        record {
          outputs = cons_equal all.output_whole answers.outputs;
          errors = cons_equal all.errors_whole answers.errors;
          responses = cons_equal all.response_whole answers.responses;
        },
        ss
            ∙ ap (λ xs. xs ++ encode_all (replicate (length inputs) execute)) s
            ∙ append_assoc (written to t) (to_bytes 4 4) _,
      )
