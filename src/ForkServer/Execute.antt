-- ===== src/ForkServer/Execute.antt =====
-- `AttachStdxxxFiles` and `ExecutePUT`.
pub mod Wait
pub mod Parent
pub mod Child
use fuzzuf_cc.Prelude.{
  ℕ, zero, suc, ◌/◌, ◌%◌, ◌*◌, Bool, true, false, ◌||◌, none, some, ◌==◌, if◌then◌else◌,
}
use fuzzuf_cc.Prelude.Effect.{ok, out_of_fuel, pure, exit, ◌>>=◌, ◌>>◌}
use fuzzuf_cc.ForkServer.Types.{
  RuntimeSettings, ExecutePutApiResponse, no_error, eintr, in_parent, in_child, fork_failed,
  changed, WaitAnswer, wait_failed, Stdxxx, stdin, stdout, stderr, response, Server, dup2_call,
  close_call, sigaction_call, forksrv_fd_read, forksrv_fd_write,
}
use fuzzuf_cc.ForkServer.Os.{Os, log, open_file, fork, setitimer, waitpid, write}
use fuzzuf_cc.ForkServer.Signals.{deliver}

-- One block of `AttachStdxxxFiles`: the file is opened over descriptor `fd`.
unfoldable pub attach :
    Os → (executor_id : ℕ) → Stdxxx → (create : Bool) → (fd : ℕ) → Server (Unit {0})
attach os id s create fd = do
  opened ← open_file os id s create
  elim opened [ none ↦ exit 1 | some file ↦ log (dup2_call file fd) ]

unfoldable pub attach_stdxxx_files : Os → RuntimeSettings → Server (Unit {0})
unfolding attach
attach_stdxxx_files os settings = do
  if settings.read_stdin then attach os settings.executor_id stdin false 0 else pure tt
  if settings.save_stdout_stderr
      then (do
        attach os settings.executor_id stdout true 1
        attach os settings.executor_id stderr true 2)
      else pure tt

-- The response to a wait status, by the assignments of the source in their order.
unfoldable pub make_response : Os → (wstatus : ℕ) → ExecutePutApiResponse
make_response os w =
    let blank : ExecutePutApiResponse = record {
      error = no_error;
      exit_code = 0;
      signal_number = 0;
    } in
    let after_exit : ExecutePutApiResponse =
      if os.wifexited w then record blank { exit_code = os.wexitstatus w } else blank in
    if os.wifsignaled w
    then record after_exit { exit_code = os.wtermsig w; signal_number = os.wtermsig w }
    else after_exit

abbrev pub has_ended : Os → ℕ → Bool
has_ended os w = os.wifexited w || os.wifsignaled w

unfoldable pub send_response : Os → ExecutePutApiResponse → Server Bool
send_response os r = do
  nbytes ← write os (response r)
  elim nbytes [ none ↦ exit 1 | some _ ↦ pure false ]

-- The body of the wait loop behind `waitpid`; `retry` is the next round.
unfoldable pub after_wait : Os → (retry : Server Bool) → WaitAnswer → Server Bool
unfolding make_response send_response
after_wait os retry (wait_failed eintr) = retry
after_wait os retry (wait_failed _) = exit 1
after_wait os retry (changed pid wstatus) = λ d.
    if pid == d.put_pid
    then (if has_ended os wstatus then send_response os (make_response os wstatus) d else retry d)
    else retry d

-- `last_timeout.valid = 0`, on entry and where the loop has looked at a timeout.
abbrev pub clear_timeout : Server (Unit {0})
clear_timeout d = ok tt (record d { last_timeout = record (d.last_timeout) { valid = false } })

abbrev wait_put : Os → Server WaitAnswer
wait_put os d = waitpid os d.put_pid d

-- The `while (1)` of `ExecutePUT`; the fuel bounds the calls of `waitpid`.
unfoldable pub wait_loop : Os → ℕ → Server Bool
unfolding after_wait
wait_loop os zero = out_of_fuel
wait_loop os (suc fuel) =
    let retry = wait_loop os fuel in
    (do deliver os; answer ← wait_put os; deliver os; clear_timeout; after_wait os retry answer)

abbrev set_put_pid : ℕ → Server (Unit {0})
set_put_pid p d = ok tt (record d { put_pid = p })

abbrev install_handler : Server (Unit {0})
install_handler d = ok tt (record d { handler = true })

-- The timer is armed before the handler is installed.
unfoldable pub arm_timeout : Os → (timeout_us : ℕ) → Server (Unit {0})
arm_timeout os timeout_us = do
  deliver os
  armed ← setitimer os (timeout_us / (1000 * 1000)) (timeout_us % (1000 * 1000))
  if armed then pure tt else exit 1
  deliver os
  installed ← (λ d. ok (os.sigaction d.trace) d)
  log sigaction_call
  if installed then install_handler else exit 1

unfoldable pub run_daemon : Os → ℕ → RuntimeSettings → Server Bool
unfolding arm_timeout wait_loop
run_daemon os fuel settings = do
  clear_timeout
  arm_timeout os settings.timeout_us
  wait_loop os fuel

unfoldable pub become_put : Os → RuntimeSettings → Server Bool
unfolding attach_stdxxx_files
become_put os settings = do
  attach_stdxxx_files os settings
  log (close_call forksrv_fd_read)
  log (close_call forksrv_fd_write)
  pure true

-- `true` in the process that goes on as the program under test.
unfoldable pub execute_put : Os → ℕ → RuntimeSettings → Server Bool
unfolding become_put run_daemon
execute_put os fuel settings = do
  forked ← fork os
  elim forked [
    | fork_failed ↦ exit 1
    | in_child ↦ (do set_put_pid 0; become_put os settings)
    | in_parent pid ↦ (do set_put_pid pid; run_daemon os fuel settings)
  ]
