-- ===== src/ForkServer/Protocol/Obeys.antt =====
-- One round of the loop of `StartForkServer`, on the bytes of one request.
use fuzzuf_cc.Prelude.{
  length-append, ℕ, ◌+◌, ◌^◌, ◌<◌, ◌≡◌, refl, ap, ◌∙◌, List, [], ◌∷◌, ◌++◌, arith, length, drop,
}
use mathlib.Core.List.{append_assoc, map, map-append}
use fuzzuf_cc.Prelude.Effect.{Run, ok}
use fuzzuf_cc.Bytes.{to_bytes}
use fuzzuf_cc.ForkServer.Types.{
  response, ExecutePutApiResponse, ForkServerApi, set_put_execution_timeout_command,
  read_stdin_command, save_stdout_stderr_command, execute_put_command, unknown_command,
  RuntimeSettings, Daemon,
}
use fuzzuf_cc.ForkServer.Os.{Os}
use fuzzuf_cc.ForkServer.Trace.{sent}
use fuzzuf_cc.ForkServer.Pipe.{to_command}
use fuzzuf_cc.ForkServer.Pipe.Ideal.{Pipe}
use fuzzuf_cc.ForkServer.Pipe.Commands.{Ready, recv_u64-to_bytes, wait_for_api_call-to_bytes}
use fuzzuf_cc.ForkServer.Execute.Parent.{Cooperates, execute_put-Answers}
use fuzzuf_cc.ForkServer.Serve.{Next, go_on, obey, round}
use fuzzuf_cc.ForkServer.Protocol.{
  Request, set_timeout, read_stdin, save_stdout_stderr, execute, other, encode, IsProper, apply,
  executions,
}

-- The command that a request names.
abbrev command_of : Request → ForkServerApi
command_of (set_timeout us) = set_put_execution_timeout_command
command_of read_stdin = read_stdin_command
command_of save_stdout_stderr = save_stdout_stderr_command
command_of execute = execute_put_command
command_of (other n) = unknown_command n

abbrev word_of : Request → ℕ
word_of (set_timeout us) = 1
word_of read_stdin = 2
word_of save_stdout_stderr = 3
word_of execute = 4
word_of (other n) = n

-- What follows the command word.
abbrev payload : Request → List ℕ
payload (set_timeout us) = to_bytes 8 us
payload _ = []

encode-word : (r : Request) → encode r ≡ to_bytes 4 (word_of r) ++ payload r
encode-word (set_timeout us) = refl
encode-word read_stdin = refl
encode-word save_stdout_stderr = refl
encode-word execute = refl
encode-word (other n) = refl

word-lt : (r : Request) → IsProper r → word_of r < 2 ^ 32
word-lt (set_timeout us) h = omega arith
word-lt read_stdin h = omega arith
word-lt save_stdout_stderr h = omega arith
word-lt execute h = omega arith
word-lt (other n) h = omega arith

to_command-word : (r : Request) → IsProper r → to_command (word_of r) ≡ command_of r
unfolding to_command
to_command-word (set_timeout us) h = refl
to_command-word read_stdin h = refl
to_command-word save_stdout_stderr h = refl
to_command-word execute h = refl
to_command-word (other n) h = ground arith

abbrev pub responses_to : Request → ℕ
responses_to execute = 1
responses_to _ = 0

pub executions-cons :
    (r : Request) (rs : List Request) → executions (r ∷ rs) ≡ responses_to r + executions rs
executions-cons (set_timeout us) rs = omega arith
executions-cons read_stdin rs = omega arith
executions-cons save_stdout_stderr rs = omega arith
executions-cons execute rs = omega arith
executions-cons (other n) rs = omega arith

-- The messages of `d'` are those of `d` and `n` responses.
abbrev pub Responded : ℕ → Daemon → Daemon → Type 0
Responded n d d' =
    (replies : List ExecutePutApiResponse) × (length replies ≡ n)
    × (sent d'.trace ≡ map response replies ++ sent d.trace)

pub Responded-none : (d d' : Daemon) → sent d'.trace ≡ sent d.trace → Responded 0 d d'
Responded-none d d' e = ([], refl, e)

pub Responded-trans :
    (m n k : ℕ) (a b c : Daemon) → m + n ≡ k → Responded m a b → Responded n b c → Responded k a c
Responded-trans m n k a b c e (xs, lx, ex) (ys, ly, ey) =
    (ys ++ xs, omega (arith, length-append ys xs), rw (ey, ex, map-append, append_assoc))

-- The server has obeyed: it goes on with settings `s`, at the bytes `rest`, and has sent `k`
-- responses more.
abbrev pub Obeyed :
    Os → (stream rest : List ℕ) → (k : ℕ) → RuntimeSettings → Daemon → Run Daemon Next → Type 0
Obeyed os stream rest k s d r =
    (d' : Daemon) × (r ≡ ok (go_on s) d') × Ready os stream rest d' × Responded k d d'

module _ (os : Os) (stream : List ℕ) (patience : ℕ) (pipe : Pipe os stream patience)
    (helps : Cooperates os patience) (fuel : ℕ) (enough : 8 + patience < fuel) where
  obey-Obeyed :
      (r : Request) (s : RuntimeSettings) (rest : List ℕ) (d : Daemon)
      → IsProper r
      → Ready os stream (payload r ++ rest) d
      → Obeyed os stream rest (responses_to r) (apply s r) d (obey os fuel s (command_of r) d)
  unfolding obey
  obey-Obeyed (set_timeout us) s rest d proper ready =
      let (d', e, ready', steady) =
        recv_u64-to_bytes os stream patience pipe fuel us rest d proper ready enough in
      (d', rw e, ready', Responded-none d d' steady.sent_same)
  obey-Obeyed read_stdin s rest d proper ready = (d, refl, ready, Responded-none d d refl)
  obey-Obeyed save_stdout_stderr s rest d proper ready = (d, refl, ready, Responded-none d d refl)
  obey-Obeyed execute s rest d proper ready =
      let (pid, e, answers) =
        execute_put-Answers os patience helps fuel s d ready.survives (omega arith) in
      let (d', returns, reported) = answers in
      (
        d',
        rw returns,
        record {
          pending = ap (λ c. drop c stream) reported.consumed_same ∙ ready.pending;
          survives = reported.survives;
        },
        (reported.reply ∷ [], refl, reported.sent_one),
      )
  obey-Obeyed (other n) s rest d proper ready = (d, refl, ready, Responded-none d d refl)

  pub round-Obeyed :
      (r : Request) (s : RuntimeSettings) (rest : List ℕ) (d : Daemon)
      → IsProper r
      → Ready os stream (encode r ++ rest) d
      → Obeyed os stream rest (responses_to r) (apply s r) d (round os fuel s d)
  unfolding round
  round-Obeyed r s rest d proper ready =
      let cut : encode r ++ rest ≡ to_bytes 4 (word_of r) ++ (payload r ++ rest) =
        ap (λ bs. bs ++ rest) (encode-word r)
        ∙ append_assoc (to_bytes 4 (word_of r)) (payload r) rest in
      let (d1, e1, ready1, steady) =
        wait_for_api_call-to_bytes os stream patience pipe fuel (word_of r) (payload r ++ rest) d
          (word-lt r proper) (record { pending = ready.pending ∙ cut; survives = ready.survives })
          (omega arith) in
      let (d', e, ready', count) = obey-Obeyed r s rest d1 proper ready1 in
      (
        d',
        rw (e1, to_command-word r proper) e,
        ready',
        Responded-trans 0 (responses_to r) (responses_to r) d d1 d' (omega arith)
            (Responded-none d d1 steady.sent_same) count,
      )
