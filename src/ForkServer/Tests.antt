-- ===== src/ForkServer/Tests.antt =====
-- A session on a system on which the server runs, and the theorems there.
pub mod Linux
use fuzzuf_cc.ForkServer.Tests.Linux.{
  settings, requests, stream, timer_signal, linux, noisy, forking, hasty, timely, alone, start,
  greeted_by, running, noisy-Pipe, linux-Cooperates, noisy-Cooperates, timely_for-Pipe,
  timely_for-Cooperates, timely_for-Survives,
}
use fuzzuf_cc.ForkServer.Protocol.Obeys.{Responded}
use fuzzuf_cc.ForkServer.Pipe.Stream.{recv-next_bytes}
use fuzzuf_cc.ForkServer.Protocol.Serves.{serve-requests}
use fuzzuf_cc.ForkServer.Pipe.{recv}
use fuzzuf_cc.ForkServer.Execute.Child.{
  execute_put-child, execute_put-kills_group, child_trace, arm_timeout-killed, Opens,
}
use fuzzuf_cc.ForkServer.Pipe.Commands.{Ready}
use fuzzuf_cc.ForkServer.Protocol.Start.{start_fork_server-detached, start_fork_server-session}
use fuzzuf_cc.ForkServer.Execute.{arm_timeout, execute_put}
use fuzzuf_cc.Prelude.{
  ℕ, refl, ◌≡◌, if◌then◌else◌, some, [], ◌∷◌, List, ◌<◌, ◌-◌, drop, inl, inr, true, arith, ◌+◌, ◌*◌,
}
use fuzzuf_cc.Prelude.Effect.{Run, ok, exited, killed}
use fuzzuf_cc.Bytes.{to_bytes}
use fuzzuf_cc.ForkServer.Types.{
  Daemon, Message, got, server_pid, response, in_parent, stdin, stdout, stderr, initial, read_call,
  fopen_log, no_error, Stdxxx, setitimer_call, kill_call, alarm_call, getpid_call,
}
use fuzzuf_cc.ForkServer.Signals.{handle_all, deliver}
use fuzzuf_cc.ForkServer.Trace.{consumed, sent}
use fuzzuf_cc.ForkServer.Pipe.Ideal.{Advanced}
use fuzzuf_cc.ForkServer.Execute.Wait.{Answers}
use fuzzuf_cc.ForkServer.Execute.Parent.{
  arm_timeout-running_timer, execute_put-Answers, running_timer, forked,
}
use fuzzuf_cc.ForkServer.Serve.{default_settings, serve, start_fork_server}
use fuzzuf_cc.ForkServer.Protocol.{
  AllProper, set_timeout, other, execute, read_stdin, save_stdout_stderr, encode_all,
}

abbrev sent_by : Run Daemon (Unit {0}) → List Message
sent_by (ok a d) = []
sent_by (exited c d) = sent d.trace
sent_by _ = []

-- Three requests and the end of the pipe, evaluated.
session_sends :
    sent_by (start_fork_server linux 20 7 initial)
    ≡ response (record { error = no_error; exit_code = 115; signal_number = 0 })
      ∷ response (record { error = no_error; exit_code = 115; signal_number = 0 })
      ∷ server_pid 100
      ∷ []
unfolding start_fork_server deliver
session_sends = refl

proper : AllProper requests
proper = (omega arith, (inr (omega arith, omega arith), (tt, (tt, (tt, (tt, tt))))))

-- Behind the first three of the six requests.
start_fork_server-session_example :
    (d : Daemon) × (d' : Daemon) × (start_fork_server timely 20 7 initial
      ≡ serve timely 20 4 (record default_settings { executor_id = 7; timeout_us = 1_500_000 }) d)
    × (drop (consumed d.trace) stream ≡ encode_all (read_stdin ∷ save_stdout_stderr ∷ execute ∷ []))
    × Responded 1 greeted_by d
    × (serve timely 20 4 (record default_settings { executor_id = 7; timeout_us = 1_500_000 }) d
        ≡ exited 1 d')
    × Responded 1 d d'
start_fork_server-session_example =
    start_fork_server-session timely 7 (omega arith) (λ e. omega arith) refl refl (λ t pid. refl) 2
      20 (timely_for-Cooperates stream) (omega arith) (timely_for-Survives stream)
      (set_timeout 1_500_000 ∷ other 9 ∷ execute ∷ [])
      (read_stdin ∷ save_stdout_stderr ∷ execute ∷ []) 0 (timely_for-Pipe stream)
      (omega arith, (inr (omega arith, omega arith), (tt, tt))) (tt, (tt, (tt, tt)))

serve-requests_example :
    (d' : Daemon) × (serve timely 20 9 default_settings start
      ≡ serve timely 20 3
          (record default_settings {
            timeout_us = 1_500_000;
            read_stdin = true;
            save_stdout_stderr = true;
          })
          d')
    × Ready timely stream [] d'
    × Responded 2 start d'
serve-requests_example =
    serve-requests timely stream 2 (timely_for-Pipe stream) (timely_for-Cooperates stream) 20
      (omega arith) requests 3 default_settings [] start proper
      (record { pending = refl; survives = timely_for-Survives stream })

-- The handler runs before each of the reads.
recv-next_bytes_example :
    (d' : Daemon) × (recv noisy 20 12 running ≡ ok (1 ∷ 0 ∷ 0 ∷ 0 ∷ to_bytes 8 1_500_000) d')
    × Advanced noisy stream 12 running d'
recv-next_bytes_example =
    recv-next_bytes noisy stream 1 noisy-Pipe 12 20 running (inl refl) (omega arith)

execute_put-Answers_example :
    (pid : ℕ) × (noisy.fork running.trace ≡ in_parent pid)
    × Answers noisy (forked pid running) (execute_put noisy 3 settings running)
execute_put-Answers_example =
    execute_put-Answers noisy 2 noisy-Cooperates 3 settings running (inl refl) (omega arith)

arm_timeout-running_timer_example :
    (d' : Daemon) × (arm_timeout linux 1_500_000 initial ≡ ok tt d')
    × (d'.handler ≡ true)
    × (s : ℕ) × (u : ℕ) × (s * 1_000_000 + u ≡ 1_500_000)
    × (u < 1_000_000)
    × (running_timer d'.trace ≡ some (s, u))
arm_timeout-running_timer_example =
    arm_timeout-running_timer linux 2 linux-Cooperates 1_500_000 initial (inr (refl, λ t e. refl))
      (λ s u l. refl)

descriptor : Stdxxx → ℕ
descriptor stdin = 3
descriptor stdout = 4
descriptor stderr = 5

forking-Opens : Opens forking descriptor
unfolding descriptor
forking-Opens t id stdin c = refl
forking-Opens t id stdout c = refl
forking-Opens t id stderr c = refl

execute_put-child_example :
    execute_put forking 3 settings running
    ≡ ok true
        (record running { put_pid = 0; trace = child_trace descriptor settings running.trace })
execute_put-child_example =
    execute_put-child forking descriptor forking-Opens 3 settings running refl

execute_put-kills_group_example :
    (d1 : Daemon) × (execute_put forking 3 settings running ≡ ok true d1)
    × (d2 : Daemon) × (handle_all forking (timer_signal ∷ []) d1 ≡ ok tt d2)
    × (d2.trace ≡ kill_call 0 ∷ alarm_call 0 ∷ getpid_call ∷ d1.trace)
execute_put-kills_group_example =
    execute_put-kills_group forking descriptor forking-Opens 3 settings running timer_signal refl
      refl

arm_timeout-killed_example :
    arm_timeout hasty 1 initial ≡ killed (record initial { trace = setitimer_call 0 1 ∷ [] })
arm_timeout-killed_example = arm_timeout-killed hasty 1 initial timer_signal [] refl refl refl refl

start_fork_server-detached_example :
    start_fork_server alone 20 7 initial
    ≡ ok tt (record initial { trace = read_call 8 (got []) ∷ fopen_log ∷ [] })
start_fork_server-detached_example =
    start_fork_server-detached alone 20 7 (got []) refl refl (inl (omega arith))
