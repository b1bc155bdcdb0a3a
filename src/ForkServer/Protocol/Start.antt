-- ===== src/ForkServer/Protocol/Start.antt =====
-- `StartForkServer` from the start of the process: the handshake, and what follows it.
use mathlib.Core.List.{foldl}
use fuzzuf_cc.ForkServer.Protocol.Obeys.{Responded}
use fuzzuf_cc.Prelude.{
  drop, ℕ, suc, ◌+◌, ◌^◌, ◌≤◌, ◌<◌, ◌≡◌, ◌≢◌, refl, ◌∙◌, ◌⊎◌, inl, inr, true, false, List, [], ◌∷◌,
  ◌++◌, arith, length, some, ltb, ◌==◌,
}
use fuzzuf_cc.Prelude.Effect.{ok, exited}
use fuzzuf_cc.Bytes.{to_bytes, from_bytes, from_bytes-to_bytes}
use fuzzuf_cc.ForkServer.Types.{
  RuntimeSettings, got, read_failed, ReadAnswer, server_pid, Trace, Daemon, initial, fopen_log,
  read_call, write_call, getpid_call, handshake_failed, sizeof_pid,
}
use fuzzuf_cc.ForkServer.Os.{Os}
use fuzzuf_cc.ForkServer.Trace.{consumed, Survives}
use fuzzuf_cc.ForkServer.Handshake.{
  wait_client_attach, tell_client_server_has_started, do_handshake,
}
use fuzzuf_cc.ForkServer.Pipe.Ideal.{Pipe}
use fuzzuf_cc.ForkServer.Execute.Parent.{Cooperates}
use fuzzuf_cc.ForkServer.Serve.{serve, start_fork_server, default_settings}
use fuzzuf_cc.ForkServer.Protocol.{apply, Request, encode_all, AllProper, executions}
use fuzzuf_cc.ForkServer.Protocol.Serves.{serve-requests, serve-exited}

-- A first read that gives no usable executor id: an error, fewer than 8 bytes, or the bytes of
-- `HANDSHAKE_FAILED`.
abbrev pub NoExecutorId : ReadAnswer → Type 0
NoExecutorId (got bs) = (length bs < 8) ⊎ (from_bytes bs ≡ handshake_failed)
NoExecutorId (read_failed e) = Unit

abbrev pub opened : Trace
opened = fopen_log ∷ []

abbrev pub attached : ReadAnswer → Daemon
attached answer = record initial { trace = read_call 8 answer ∷ opened }

wait_client_attach-NoExecutorId :
    (os : Os) (d : Daemon) (answer : ReadAnswer)
    → os.read d.trace 8 ≡ answer
    → NoExecutorId answer
    → wait_client_attach os d
      ≡ ok handshake_failed (record d { trace = read_call 8 answer ∷ d.trace })
unfolding wait_client_attach
wait_client_attach-NoExecutorId os d (got bs) e (inl short) =
    let test : ltb (length bs) 8 ≡ true = ground arith in rw (e, test)
wait_client_attach-NoExecutorId os d (got bs) e (inr ones) = rw e (ground arith)
wait_client_attach-NoExecutorId os d (read_failed x) e h = rw e

-- Without a client, when the first read gives no usable executor id, `StartForkServer` returns, so
-- that the program runs as it is: it has sent nothing and has started no process.
pub start_fork_server-detached :
    (os : Os) (fuel rounds : ℕ) (answer : ReadAnswer)
    → os.fopen [] ≡ true
    → os.read opened 8 ≡ answer
    → NoExecutorId answer
    → start_fork_server os fuel rounds initial ≡ ok tt (attached answer)
unfolding start_fork_server do_handshake
start_fork_server-detached os fuel rounds answer logged e none_came = rw (
  logged,
  wait_client_attach-NoExecutorId os (record initial { trace = opened }) answer e none_came,
)

wait_client_attach-to_bytes :
    (os : Os) (d : Daemon) (id : ℕ)
    → id < 2 ^ 64
    → os.read d.trace 8 ≡ got (to_bytes 8 id)
    → wait_client_attach os d
      ≡ ok id (record d { trace = read_call 8 (got (to_bytes 8 id)) ∷ d.trace })
unfolding wait_client_attach
wait_client_attach-to_bytes os d id small e = rw (e, from_bytes-to_bytes 8 id small)

abbrev greeted : ℕ → ℕ → Daemon
greeted id pid = record initial {
  trace = write_call (server_pid pid) ∷ getpid_call ∷ read_call 8 (got (to_bytes 8 id)) ∷ opened;
}

tell_client_server_has_started-some :
    (os : Os) (d : Daemon) (n : ℕ)
    → os.write (getpid_call ∷ d.trace) (server_pid (os.getpid d.trace)) ≡ some n
    → sizeof_pid ≤ n
    → tell_client_server_has_started os d
      ≡ ok tt
          (record d { trace = write_call (server_pid (os.getpid d.trace)) ∷ getpid_call ∷ d.trace })
unfolding tell_client_server_has_started
tell_client_server_has_started-some os d n wrote whole =
    let test : ltb n sizeof_pid ≡ false = ground arith in rw (wrote, test)

module _ (os : Os) (id : ℕ) (small : id < 2 ^ 64) (usable : id ≢ handshake_failed)
    (logged : os.fopen [] ≡ true) (came : os.read opened 8 ≡ got (to_bytes 8 id))
    (tells : (t : Trace) (pid : ℕ) → os.write t (server_pid pid) ≡ some 4) where
  start_fork_server-serve :
      (fuel rounds : ℕ)
      → start_fork_server os fuel rounds initial
        ≡ serve os fuel rounds
            (record default_settings { executor_id = id })
            (greeted id (os.getpid (attached (got (to_bytes 8 id))).trace))
  unfolding start_fork_server do_handshake
  start_fork_server-serve fuel rounds =
      let differs : (id == handshake_failed) ≡ false = ground arith in
      let d : Daemon = attached (got (to_bytes 8 id)) in
      rw (
        logged,
        wait_client_attach-to_bytes os (record initial { trace = opened }) id small came,
        differs,
        tell_client_server_has_started-some os d 4 (tells _ _) (omega arith),
        differs,
      )

  -- The process that has sent its process id.
  abbrev pub greeting_sent : Daemon
  greeting_sent = greeted id (os.getpid (attached (got (to_bytes 8 id))).trace)

  -- The settings of a server that has obeyed `rs`.
  abbrev pub after_requests : List Request → RuntimeSettings
  after_requests rs = foldl apply (record default_settings { executor_id = id }) rs

  module _ (patience fuel : ℕ) (helps : Cooperates os patience) (enough : 8 + patience < fuel)
      (live : Survives os initial) where
    pub start_fork_server-exited :
        (rs : List Request) (k : ℕ)
        → Pipe os (to_bytes 8 id ++ encode_all rs) patience
        → AllProper rs
        → (d' : Daemon) × (start_fork_server os fuel (length rs + suc k) initial ≡ exited 1 d')
          × Responded (executions rs) greeting_sent d'
    start_fork_server-exited rs k pipe proper =
        let (d', e, count) =
          serve-exited os (to_bytes 8 id ++ encode_all rs) patience pipe helps fuel enough rs k _
            greeting_sent proper (record { pending = refl; survives = live }) in
        (d', start_fork_server-serve fuel (length rs + suc k) ∙ e, count)

    -- A whole session: a client attaches with a usable executor id, which comes in one read, writes
    -- proper requests and closes the pipe. Let the log be opened, the process id be sent, the system
    -- cooperate, and the fuel be enough; and let no SIGALRM come before the first execution installs
    -- its handler (from then on they may come at any point). Then behind any number of the requests
    -- the server is in its loop with the settings that those requests make in their order, with the
    -- bytes of the others still to read, and has sent its process id and one response for each
    -- execution so far; and behind all of them it ends with status 1, with one response for each
    -- execution.
    pub start_fork_server-session :
        (before after : List Request) (k : ℕ)
        → Pipe os (to_bytes 8 id ++ (encode_all before ++ encode_all after)) patience
        → AllProper before
        → AllProper after
        → (d : Daemon) × (d' : Daemon) × (start_fork_server os fuel
              (length before + (length after + suc k))
              initial
            ≡ serve os fuel (length after + suc k) (after_requests before) d)
          × (drop (consumed d.trace) (to_bytes 8 id ++ (encode_all before ++ encode_all after))
              ≡ encode_all after)
          × Responded (executions before) greeting_sent d
          × (serve os fuel (length after + suc k) (after_requests before) d ≡ exited 1 d')
          × Responded (executions after) d d'
    start_fork_server-session before after k pipe proper proper' =
        let stream : List ℕ = to_bytes 8 id ++ (encode_all before ++ encode_all after) in
        let (d, e, ready, count) =
          serve-requests os stream patience pipe helps fuel enough before (length after + suc k) _
            (encode_all after) greeting_sent proper (record { pending = refl; survives = live }) in
        let (d', e', count') =
          serve-exited os stream patience pipe helps fuel enough after k (after_requests before) d
            proper' ready in
        (
          d,
          d',
          start_fork_server-serve fuel (length before + (length after + suc k)) ∙ e,
          ready.pending,
          count,
          e',
          count',
        )
