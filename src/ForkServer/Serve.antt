-- ===== src/ForkServer/Serve.antt =====
-- `StartForkServer`: the handshake, and the loop that obeys the client's commands.
use fuzzuf_cc.Prelude.{ℕ, zero, suc, ◌*◌, true, false, ◌==◌, if◌then◌else◌}
use fuzzuf_cc.Prelude.Effect.{ok, out_of_fuel, pure, exit, ◌>>=◌, ◌>>◌}
use fuzzuf_cc.ForkServer.Types.{
  ForkServerApi, set_put_execution_timeout_command, read_stdin_command, save_stdout_stderr_command,
  execute_put_command, unknown_command, RuntimeSettings, Server, handshake_failed, fopen_log,
}
use fuzzuf_cc.ForkServer.Os.{Os, log}
use fuzzuf_cc.ForkServer.Pipe.{wait_for_api_call, recv_u64}
use fuzzuf_cc.ForkServer.Handshake.{do_handshake}
use fuzzuf_cc.ForkServer.Execute.{execute_put}

-- What one round of the loop leads to: the process is now the program under test, or the server
-- goes on with these settings.
pub data Next : Type 0 where
  return_to_put : Next
  go_on : RuntimeSettings → Next

unfoldable pub obey : Os → ℕ → RuntimeSettings → ForkServerApi → Server Next
unfolding recv_u64 execute_put
obey os fuel settings set_put_execution_timeout_command = do
  timeout_us ← recv_u64 os fuel
  pure (go_on (record settings { timeout_us = timeout_us }))
obey os fuel settings read_stdin_command = pure (go_on (record settings { read_stdin = true }))
obey os fuel settings save_stdout_stderr_command =
    pure (go_on (record settings { save_stdout_stderr = true }))
obey os fuel settings execute_put_command = do
  i_am_put ← execute_put os fuel settings
  if i_am_put then pure return_to_put else pure (go_on settings)
obey os fuel settings (unknown_command n) = pure (go_on settings)

unfoldable pub round : Os → ℕ → RuntimeSettings → Server Next
unfolding wait_for_api_call obey
round os fuel settings = do command ← wait_for_api_call os fuel; obey os fuel settings command

-- The `while (1)`. `rounds` bounds the commands, `fuel` the system calls of each wait.
unfoldable pub serve : Os → (fuel rounds : ℕ) → RuntimeSettings → Server (Unit {0})
unfolding round
serve os fuel zero settings = out_of_fuel
serve os fuel (suc rounds) settings = do
  next ← round os fuel settings
  elim next [ return_to_put ↦ pure tt | go_on settings' ↦ serve os fuel rounds settings' ]

abbrev pub default_settings : RuntimeSettings
default_settings = record {
  executor_id = 0;
  timeout_us = 20 * 1000;
  read_stdin = false;
  save_stdout_stderr = false;
}

unfoldable pub start_fork_server : Os → (fuel rounds : ℕ) → Server (Unit {0})
unfolding do_handshake serve
start_fork_server os fuel rounds = do
  opened ← (λ d. ok (os.fopen d.trace) d)
  log fopen_log
  if opened then pure tt else exit 1
  executor_id ← do_handshake os
  if executor_id == handshake_failed
      then pure tt
      else serve os fuel rounds (record default_settings { executor_id = executor_id })
