-- ===== src/Executor/Served.antt =====
-- The client and the fork server together: what the one writes is what the other serves.
use fuzzuf_cc.ForkServer.Protocol.Start.{start_fork_server-exited, opened, attached}
use fuzzuf_cc.ForkServer.Trace.{sent, Survives}
use fuzzuf_cc.Prelude.{
  sym, map, ℕ, zero, suc, ◌+◌, ◌<◌, ◌≡◌, refl, ap, ◌∙◌, true, ◌==◌, some, List, [], ◌∷◌, ◌++◌,
  arith, length, replicate,
}
use fuzzuf_cc.Prelude.Effect.{Run, exited}
use fuzzuf_cc.Bytes.{to_bytes}
use fuzzuf_cc.ForkServer.Types.{
  no_response_error, unknown_put_state_error, spawn_put_error, daemon_busy_error,
  daemon_already_exit_error, no_error, Message, ExecutePutError, response, ExecutePutApiResponse,
  got, server_pid, Daemon, initial,
}
use fuzzuf_cc.ForkServer.Types
use fuzzuf_cc.ForkServer.Os.{Os}
use fuzzuf_cc.ForkServer.Pipe.Ideal.{Pipe}
use fuzzuf_cc.ForkServer.Execute.Parent.{Cooperates}
use fuzzuf_cc.ForkServer.Serve.{start_fork_server}
use fuzzuf_cc.ForkServer.Protocol.{Request, read_stdin, execute, encode_all, AllProper, executions}
use fuzzuf_cc.Executor.Types.{Trace, unconstructed}
use fuzzuf_cc.Executor.Effect.{Cpp, done, ◌>>◌}
use fuzzuf_cc.Executor.Host.{Host}
use fuzzuf_cc.Executor.Start.{construct}
use fuzzuf_cc.Executor.Execute.{Locals}
use fuzzuf_cc.Executor.Stream.{Streams}
use fuzzuf_cc.Executor.Steps.{at}
use fuzzuf_cc.Executor.Session.{written, call_each, Executes, Answered, call_each-Answered}
use fuzzuf_cc.Executor.Connect.{Grant, Welcomes, connected, connecting, construct-connected}

-- The requests of a client with `n` test cases.
abbrev pub requests : ℕ → List Request
requests n = read_stdin ∷ replicate n execute

-- The bytes of a whole session: the executor id, which is 1, and the requests.
abbrev pub session : ℕ → List ℕ
session n = to_bytes 8 1 ++ encode_all (requests n)

-- The bytes of an `ExecutePUTError` and of a response in memory.
abbrev error_number : ExecutePutError → ℕ
error_number no_error = 0
error_number daemon_already_exit_error = 1
error_number daemon_busy_error = 2
error_number spawn_put_error = 3
error_number unknown_put_state_error = 4
error_number no_response_error = 5

abbrev pub encode_response : ExecutePutApiResponse → List ℕ
encode_response r =
    to_bytes 4 (error_number r.error) ++ (to_bytes 4 r.exit_code ++ to_bytes 4 r.signal_number)

-- The bytes of the responses among the messages of a server, the first response first.
abbrev pub replied : List Message → List (List ℕ)
replied [] = []
replied (server_pid p ∷ ms) = replied ms
replied (response r ∷ ms) = replied ms ++ (encode_response r ∷ [])

-- The same for a server that has ended.
abbrev pub replies_of : Run Daemon (Unit {0}) → List (List ℕ)
replies_of (exited code d) = replied (sent d.trace)
replies_of _ = []

executions-requests : (n : ℕ) → executions (replicate n execute) ≡ n
executions-requests zero = refl
executions-requests (suc n) = ap suc (executions-requests n)

AllProper-requests : (n : ℕ) → AllProper (replicate n execute)
AllProper-requests zero = tt
AllProper-requests (suc n) = (tt, AllProper-requests n)

written-connecting : (g : Grant) → written g.to.1 (connecting g) ≡ to_bytes 8 1 ++ to_bytes 4 2
written-connecting g = let self : (g.to.1 == g.to.1) ≡ true = ground arith in rw self refl

module _ (host : Host) where
  -- A client: the constructor, and a call of `operator()` for each test case.
  abbrev pub client : (fuel : ℕ) → (args env inputs : List (List ℕ)) → Cpp (List Locals)
  client fuel args env inputs = construct host args env >> call_each host fuel inputs

  client-Answered :
      (g : Grant) (args env inputs : List (List ℕ)) (patience fuel : ℕ) (streams : List ℕ → Streams)
      → Welcomes host g
      → Executes host (connected g) g.file g.to.1 patience fuel streams
      → (ls : List Locals) × (t : Trace) × (client fuel args env inputs unconstructed
          ≡ done ls (at (connected g) t))
        × Answered streams inputs ls
        × (written g.to.1 t ≡ session (length inputs))
  client-Answered g args env inputs patience fuel streams w executes =
      let (ls, t, e, answers, s) =
        call_each-Answered host (connected g) g.file g.to.1 patience fuel streams executes inputs
          (connecting g) in
      (
        ls,
        t,
        rw (construct-connected host g args env w) e,
        answers,
        s ∙ ap (λ bs. bs ++ encode_all (replicate (length inputs) execute)) (written-connecting g),
      )

map_bytes :
    (streams : List ℕ → Streams) (inputs : List (List ℕ))
    → map (map some) (map (λ i. (streams i).response) inputs)
      ≡ map (λ i. map some (streams i).response) inputs
map_bytes streams [] = refl
map_bytes streams (i ∷ is) = ap (λ xs. map some (streams i).response ∷ xs) (map_bytes streams is)

-- The client and the server of one session. Let every system call of the client succeed and the
-- system deliver what the program writes for each test case, and as its response the bytes of the
-- corresponding response of the server. Then a client with any list of test cases and enough fuel
-- gets for each its own output and errors, and writes the bytes of its requests; a server that reads
-- these bytes, in chunks of any size, on a system that cooperates and sends no SIGALRM before the
-- first execution installs its handler (from then on they may come at any point), sends its process
-- id and then one response for each test case, and ends with status 1 when the pipe is closed; and
-- the responses that the client has for its test cases are those of the server, in their order.
pub client-served :
    (host : Host) (g : Grant) (args env inputs : List (List ℕ)) (patience fuel : ℕ)
    (streams : List ℕ → Streams)
    → Welcomes host g
    → Executes host (connected g) g.file g.to.1 patience fuel streams
    → (os : Os) (patience' fuel' k : ℕ) → os.fopen [] ≡ true
    → os.read opened 8 ≡ got (to_bytes 8 1)
    → ((t : Types.Trace) (pid : ℕ) → os.write t (server_pid pid) ≡ some 4)
    → Pipe os (session (length inputs)) patience'
    → Cooperates os patience'
    → 8 + patience' < fuel'
    → Survives os initial
    → map (λ i. (streams i).response) inputs
      ≡ replies_of (start_fork_server os fuel' (length (requests (length inputs)) + suc k) initial)
    → (ls : List Locals) × (t : Trace) × (d : Daemon) × (client host fuel args env inputs
          unconstructed
        ≡ done ls (at (connected g) t))
      × Answered streams inputs ls
      × (written g.to.1 t ≡ session (length inputs))
      × (start_fork_server os fuel' (length (requests (length inputs)) + suc k) initial
          ≡ exited 1 d)
      × (replies : List ExecutePutApiResponse) × (length replies ≡ length inputs)
      × (sent d.trace
          ≡ map response replies
            ++ (server_pid (os.getpid (attached (got (to_bytes 8 1))).trace) ∷ []))
      × (map (λ (l : Locals). l.response) ls ≡ map (map some) (replied (sent d.trace)))
client-served host g args env inputs patience fuel streams w executes os patience' fuel' k logged
      came tells pipe helps enough live carried =
    let (ls, t, e, answers, s) =
      client-Answered host g args env inputs patience fuel streams w executes in
    let (d, e', responded) =
      start_fork_server-exited os 1 (omega arith) (λ e. ground arith) logged came tells patience'
        fuel' helps enough live (requests (length inputs)) k pipe
        (tt, AllProper-requests (length inputs)) in
    let (replies, count, out) = responded in
    let same : map (λ i. (streams i).response) inputs ≡ replied (sent d.trace) =
      carried ∙ ap replies_of e' in
    (
      ls,
      t,
      d,
      e,
      answers,
      s,
      e',
      replies,
      count ∙ executions-requests (length inputs),
      out,
      answers.responses ∙ sym (map_bytes streams inputs) ∙ ap (map (map some)) same,
    )
