-- ===== src/ForkServer/Signals.antt =====
-- `PUTTimeoutHandler`, and the points at which a SIGALRM may reach the server.
use fuzzuf_cc.Prelude.{true, List, [], ◌∷◌, if◌then◌else◌}
use fuzzuf_cc.Prelude.Effect.{ok, killed, ◌>>=◌, ◌>>◌}
use fuzzuf_cc.ForkServer.Types.{SigInfo, LastTimeout, Server, alarm_call}
use fuzzuf_cc.ForkServer.Os.{Os, log, getpid, kill}

abbrev set_last_timeout : LastTimeout → Server (Unit {0})
set_last_timeout t d = ok tt (record d { last_timeout = t })

abbrev kill_put : Os → Server (Unit {0})
kill_put os d =
    (do
      err ← kill os d.put_pid
      λ d'. set_last_timeout (record (d'.last_timeout) { kill_errno = err }) d')
      d

unfoldable pub put_timeout_handler : Os → SigInfo → Server (Unit {0})
put_timeout_handler os si = do
  self_pid ← getpid os
  (λ d.
      set_last_timeout
        (record (d.last_timeout) {
          valid = true;
          self_pid = self_pid;
          child_pid = si.si_pid;
          signal_number = si.si_signo;
          signal_code = si.si_code;
          signal_status = si.si_status;
        })
        d)
  log (alarm_call 0)
  kill_put os

-- A SIGALRM runs the handler, and ends the process while no handler is installed.
unfoldable pub handle_all : Os → List SigInfo → Server (Unit {0})
handle_all os [] d = ok tt d
handle_all os (si ∷ rest) d =
    let handled = (put_timeout_handler os si >> handle_all os rest) d in
    if d.handler then handled else killed d

unfoldable pub deliver : Os → Server (Unit {0})
unfolding handle_all put_timeout_handler
deliver os d = handle_all os (os.alarms d.trace) d
