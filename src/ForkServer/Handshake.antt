-- ===== src/ForkServer/Handshake.antt =====
-- `WaitClientAttach`, `TellClientServerHasStarted` and `DoHandshake`.
use fuzzuf_cc.Prelude.{ℕ, none, some, length, ltb, ◌==◌, if◌then◌else◌}
use fuzzuf_cc.Prelude.Effect.{pure, exit, ◌>>=◌, ◌>>◌}
use fuzzuf_cc.Bytes.{from_bytes}
use fuzzuf_cc.ForkServer.Types.{
  got, read_failed, server_pid, Server, sizeof_u64, sizeof_pid, handshake_failed,
}
use fuzzuf_cc.ForkServer.Os.{Os, read, write, getpid}

-- One `read`, which is not repeated when it comes short or is interrupted.
unfoldable pub wait_client_attach : Os → Server ℕ
wait_client_attach os = do
  answer ← read os sizeof_u64
  elim answer [
    | got bs ↦ if ltb (length bs) sizeof_u64 then pure handshake_failed else pure (from_bytes bs)
    | read_failed _ ↦ pure handshake_failed
  ]

unfoldable pub tell_client_server_has_started : Os → Server (Unit {0})
tell_client_server_has_started os = do
  self_pid ← getpid os
  nbytes ← write os (server_pid self_pid)
  elim nbytes [ none ↦ exit 1 | some n ↦ if ltb n sizeof_pid then exit 1 else pure tt ]

unfoldable pub do_handshake : Os → Server ℕ
unfolding wait_client_attach tell_client_server_has_started
do_handshake os = do
  executor_id ← wait_client_attach os
  if executor_id == handshake_failed
      then pure handshake_failed
      else (do tell_client_server_has_started os; pure executor_id)
