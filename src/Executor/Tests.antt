-- ===== src/Executor/Tests.antt =====
-- Sessions on a system, and the theorems there.
mod Linux
use fuzzuf_cc.ForkServer.Signals.{deliver}
use fuzzuf_cc.Executor.Tests.Linux.{streams, grant, linux-Delivers, linux-Welcomes, linux}
use fuzzuf_cc.Executor.Balance.Destroyed.{construct-destroy, OnlyFiles, OnlyEpoll}
use fuzzuf_cc.Executor.Start.{destroy, construct}
use fuzzuf_cc.Executor.Balance.{Ends}
use fuzzuf_cc.Prelude.{
  map, length-take, ℕ, ◌+◌, ◌≡◌, refl, if◌then◌else◌, some, List, [], ◌∷◌, ◌++◌, length, arith,
}
use fuzzuf_cc.ForkServer.Serve.{start_fork_server}
use fuzzuf_cc.Executor.Rounds.{Collected}
use fuzzuf_cc.Executor.Steps.{at}
use fuzzuf_cc.Executor.Effect.{done, ◌>>◌}
use fuzzuf_cc.Executor.Served.{replies_of, replied, client-served, session, client}
use fuzzuf_cc.Executor.Session.{written, Answered, Executes}
use fuzzuf_cc.ForkServer.Trace.{sent}
use fuzzuf_cc.ForkServer.Tests.Linux.{
  timely_for-Survives, timely_for-Cooperates, timely_for-Pipe, timely_for,
}
use fuzzuf_cc.ForkServer.Types.{initial, response, server_pid, Daemon, ExecutePutApiResponse}
use fuzzuf_cc.Prelude.Effect.{exited}
use fuzzuf_cc.Executor.Stream.{Attached}
use fuzzuf_cc.Executor.Types.{unconstructed, Trace}
use fuzzuf_cc.Executor.Execute.{call_operator, Locals}
use fuzzuf_cc.Executor.Operator.{call_operator-Collected, contents, Writes, Accepts, passed_on}
use fuzzuf_cc.Executor.Connect.{connecting, connected}

linux-Accepts : Accepts linux 18 11
linux-Accepts = record {
  sought = λ t. refl;
  stored = λ t bs. refl;
  truncated = λ t n. refl;
  sent = λ t bs. refl;
}

connected-Writes : Writes (connected grant) 18 11
connected-Writes = record { stdin_fd = refl; to_fd = refl }

connected-Attached : (input : List ℕ) → Attached (streams input) (connected grant)
connected-Attached input = record { out_fd = refl; err_fd = refl; server_fd = refl }

linux-Executes : Executes linux (connected grant) 18 11 1 20 streams
linux-Executes = record {
  accepts = linux-Accepts;
  writes = connected-Writes;
  apart = refl;
  apart' = refl;
  attached = connected-Attached;
  delivers = linux-Delivers;
  enough = λ input. omega (arith, length-take 2 input);
}

-- The program echoes two of the three bytes.
call_operator-Collected_example :
    (l : Locals) × (t : Trace) × (call_operator linux 20 (5 ∷ 6 ∷ 7 ∷ []) (connected grant)
      ≡ done l (at (connected grant) (t ++ passed_on 18 11 (5 ∷ 6 ∷ 7 ∷ []) (connecting grant))))
    × Collected (streams (5 ∷ 6 ∷ 7 ∷ [])) l t
    × ((contents 18 (t ++ passed_on 18 11 (5 ∷ 6 ∷ 7 ∷ []) (connecting grant))).0 ≡ 5 ∷ 6 ∷ 7 ∷ [])
call_operator-Collected_example =
    call_operator-Collected linux (connected grant) 18 11 linux-Accepts connected-Writes
      (5 ∷ 6 ∷ 7 ∷ []) (streams (5 ∷ 6 ∷ 7 ∷ [])) 1 20 refl
      (linux-Delivers (5 ∷ 6 ∷ 7 ∷ []) (connecting grant)) (connected-Attached (5 ∷ 6 ∷ 7 ∷ []))
      (omega arith)

abbrev inputs : List (List ℕ)
inputs = (5 ∷ 6 ∷ 7 ∷ []) ∷ [] ∷ (8 ∷ []) ∷ []

-- The program ends each time with 115.
carried :
    map (λ i. (streams i).response) inputs
    ≡ replies_of (start_fork_server (timely_for (session 3)) 20 5 initial)
unfolding start_fork_server deliver
carried = refl

client-served_example :
    (ls : List Locals) × (t : Trace) × (d : Daemon) × (client linux 20 [] [] inputs unconstructed
      ≡ done ls (at (connected grant) t))
    × Answered streams inputs ls
    × (written 11 t ≡ session 3)
    × (start_fork_server (timely_for (session 3)) 20 5 initial ≡ exited 1 d)
    × (replies : List ExecutePutApiResponse) × (length replies ≡ 3)
    × (sent d.trace ≡ map response replies ++ (server_pid 100 ∷ []))
    × (map (λ (l : Locals). l.response) ls ≡ map (map some) (replied (sent d.trace)))
client-served_example =
    client-served linux grant [] [] inputs 1 20 streams linux-Welcomes linux-Executes
      (timely_for (session 3)) 2 20 0 refl refl (λ t pid. refl) (timely_for-Pipe (session 3))
      (timely_for-Cooperates (session 3)) (omega arith) (timely_for-Survives (session 3)) carried

-- Descriptor 11 is the end of a pipe.
construct-destroy_example :
    Ends ((construct linux [] [] >> destroy linux) unconstructed) (OnlyEpoll 11) (OnlyFiles 11)
construct-destroy_example = construct-destroy 11 linux [] []
