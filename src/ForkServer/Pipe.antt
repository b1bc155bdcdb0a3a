-- ===== src/ForkServer/Pipe.antt =====
-- Reading from the client: `Recv`, `WaitForAPICall` and `RecvU64`.
pub mod Ideal
pub mod Stream
pub mod Commands
use fuzzuf_cc.Prelude.{ℕ, zero, suc, ◌-◌, List, [], ◌∷◌, ◌++◌, length, ltb, ◌==◌, if◌then◌else◌}
use fuzzuf_cc.Prelude.Effect.{out_of_fuel, pure, exit, ◌>>=◌, ◌>>◌}
use fuzzuf_cc.Bytes.{from_bytes}
use fuzzuf_cc.ForkServer.Types.{
  ForkServerApi, set_put_execution_timeout_command, read_stdin_command, save_stdout_stderr_command,
  execute_put_command, unknown_command, eintr, got, read_failed, Server, sizeof_command, sizeof_u64,
}
use fuzzuf_cc.ForkServer.Os.{Os, read}
use fuzzuf_cc.ForkServer.Signals.{deliver}

-- The loop of `Recv`: `buf` holds the `nread` bytes that have come. The fuel bounds the calls of
-- `read`.
unfoldable pub recv_loop : Os → ℕ → (size : ℕ) → (buf : List ℕ) → Server (List ℕ)
recv_loop os zero size buf = out_of_fuel
recv_loop os (suc fuel) size buf =
    if ltb (length buf) size
    then (do
      deliver os
      answer ← read os (size - length buf)
      elim answer [
        | got [] ↦ pure buf
        | got (b ∷ bs) ↦ recv_loop os fuel size (buf ++ (b ∷ bs))
        | read_failed eintr ↦ recv_loop os fuel size buf
        | read_failed _ ↦ exit 1
      ])
    else pure buf

unfoldable pub recv : Os → ℕ → ℕ → Server (List ℕ)
unfolding recv_loop
recv os fuel size = recv_loop os fuel size []

-- The value of an `enum _ForkServerAPI`, as the `switch` of `StartForkServer` tells them apart.
unfoldable pub to_command : ℕ → ForkServerApi
to_command n =
    if n == 1
    then set_put_execution_timeout_command
    else if n == 2
    then read_stdin_command
    else if n == 3
    then save_stdout_stderr_command
    else if n == 4
    then execute_put_command
    else unknown_command n

unfoldable pub wait_for_api_call : Os → ℕ → Server ForkServerApi
unfolding recv to_command
wait_for_api_call os fuel = do
  bytes ← recv os fuel sizeof_command
  if ltb (length bytes) sizeof_command then exit 1 else pure (to_command (from_bytes bytes))

unfoldable pub recv_u64 : Os → ℕ → Server ℕ
unfolding recv
recv_u64 os fuel = do
  bytes ← recv os fuel sizeof_u64
  if ltb (length bytes) sizeof_u64 then exit 1 else pure (from_bytes bytes)
