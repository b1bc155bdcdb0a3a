-- ===== src/ForkServer/Execute/Parent.antt =====
-- `ExecutePUT` in the server process: the timer, the handler and the wait.
use fuzzuf_cc.Prelude.{
  ℕ, ◌+◌, ◌-◌, ◌*◌, ◌/◌, ◌%◌, ◌<◌, ◌≡◌, refl, sym, ap, ◌∙◌, inl, true, false, Option, some, none,
  [], ◌∷◌, arith, ◌==◌, ◌&&◌, if◌then◌else◌,
}
use fuzzuf_cc.Prelude.Effect.{ok}
use fuzzuf_cc.ForkServer.Types.{
  RuntimeSettings, in_parent, Trace, Daemon, setitimer_call, sigaction_call, fork_call, alarm_call,
  changed, response,
}
use fuzzuf_cc.ForkServer.Os.{Os}
use fuzzuf_cc.ForkServer.Signals.{deliver}
use fuzzuf_cc.ForkServer.Trace.{deliver-none, consumed, waits, sent, Survives, deliver-Delivered}
use fuzzuf_cc.ForkServer.Execute.{arm_timeout, run_daemon, wait_loop, execute_put}
use fuzzuf_cc.ForkServer.Execute.Wait.{Ends, Reported, Answers, wait_loop-Answers}

-- The timer that runs, in seconds and microseconds: `setitimer` with zeroes and `alarm (0)` stop it.
abbrev pub running_timer : Trace → Option (ℕ × ℕ)
running_timer [] = none
running_timer (setitimer_call s u ∷ t) = if (s == 0) && (u == 0) then none else some (s, u)
running_timer (alarm_call n ∷ t) = none
running_timer (_ ∷ t) = running_timer t

-- The system grants what the server asks for, and the program under test ends.
pub record Cooperates (os : Os) (patience : ℕ) : Type 0 where
  pub forks : (t : Trace) → (pid : ℕ) × (os.fork t ≡ in_parent pid)
  pub arms : (t : Trace) (s u : ℕ) → os.setitimer t s u ≡ true
  pub installs : (t : Trace) → os.sigaction t ≡ true
  pub ends : Ends os patience

-- The handler is there, and nothing is sent, read or waited for.
pub record IsPrepared (d d' : Daemon) : Type 0 where
  pub handler : d'.handler ≡ true
  pub put_pid : d'.put_pid ≡ d.put_pid
  pub sent_same : sent d'.trace ≡ sent d.trace
  pub consumed_same : consumed d'.trace ≡ consumed d.trace
  pub waits_same : waits d'.trace ≡ waits d.trace

abbrev timed : ℕ → Daemon → Daemon
timed t d = record d { trace = setitimer_call (t / 1_000_000) (t % 1_000_000) ∷ d.trace }

abbrev installed : Daemon → Daemon
installed d = record d { trace = sigaction_call ∷ d.trace; handler = true }

arm_timeout-eq :
    (os : Os) (t : ℕ) (d d1 d2 : Daemon)
    → deliver os d ≡ ok tt d1
    → os.setitimer d1.trace (t / 1_000_000) (t % 1_000_000) ≡ true
    → deliver os (timed t d1) ≡ ok tt d2
    → os.sigaction d2.trace ≡ true
    → arm_timeout os t d ≡ ok tt (installed d2)
unfolding arm_timeout
arm_timeout-eq os t d d1 d2 e1 armed e2 granted = rw (e1, armed, e2, granted)

abbrev pub forked : ℕ → Daemon → Daemon
forked pid d = record d { trace = fork_call (in_parent pid) ∷ d.trace; put_pid = pid }

abbrev cleared : Daemon → Daemon
cleared d = record d { last_timeout = record (d.last_timeout) { valid = false } }

Reported-IsPrepared :
    {os : Os} {d d1 d' : Daemon} → IsPrepared d d1 → Reported os d1 d' → Reported os d d'
Reported-IsPrepared {os} p x = record {
  status = x.status;
  reply = x.reply;
  at = x.at;
  waited = ap (os.waitpid x.at) (sym p.put_pid) ∙ x.waited ∙ ap (λ q. changed q x.status) p.put_pid;
  has_ended_put = x.has_ended_put;
  reflects = x.reflects;
  sent_one = x.sent_one ∙ ap (◌∷◌ (response x.reply)) p.sent_same;
  put_pid = x.put_pid ∙ p.put_pid;
  consumed_same = x.consumed_same ∙ p.consumed_same;
  survives = x.survives;
}

IsPrepared-cleared : (d d1 : Daemon) → IsPrepared (cleared d) d1 → IsPrepared d d1
IsPrepared-cleared d d1 p = record {
  handler = p.handler;
  put_pid = p.put_pid;
  sent_same = p.sent_same;
  consumed_same = p.consumed_same;
  waits_same = p.waits_same;
}

module _ (os : Os) (patience : ℕ) (helps : Cooperates os patience) where
  arm_timeout-IsPrepared :
      (t : ℕ) (d : Daemon)
      → Survives os d
      → (d' : Daemon) × (arm_timeout os t d ≡ ok tt d') × IsPrepared d d'
  arm_timeout-IsPrepared t d live =
      let (d1, e1, u1, live1) = deliver-Delivered os d live in
      let (d2, e2, u2, live2) = deliver-Delivered os (timed t d1) live1 in
      (
        installed d2,
        arm_timeout-eq os t d d1 d2 e1 (helps.arms d1.trace _ _) e2 (helps.installs d2.trace),
        record {
          handler = refl;
          put_pid = u2.put_pid ∙ u1.put_pid;
          sent_same = u2.sent_same ∙ u1.sent_same;
          consumed_same = u2.consumed_same ∙ u1.consumed_same;
          waits_same = u2.waits_same ∙ u1.waits_same;
        },
      )

  -- If no signal comes between `setitimer` and `sigaction`, the server goes on to wait with its
  -- handler installed and with a timer that runs for exactly `timeout_us` microseconds, the
  -- microseconds of the timer below a million; with a timeout of 0 no timer runs.
  pub arm_timeout-running_timer :
      (t : ℕ) (d : Daemon)
      → Survives os d
      → ((s u : ℕ) (l : Trace) → os.alarms (setitimer_call s u ∷ l) ≡ [])
      → (d' : Daemon) × (arm_timeout os t d ≡ ok tt d')
        × (d'.handler ≡ true)
        × (s : ℕ) × (u : ℕ) × (s * 1_000_000 + u ≡ t)
        × (u < 1_000_000)
        × (running_timer d'.trace ≡ (if t == 0 then none else some (s, u)))
  arm_timeout-running_timer t d live quiet =
      let (d1, e1, u1, live1) = deliver-Delivered os d live in
      let still : deliver os (timed t d1) ≡ ok tt (timed t d1) =
        deliver-none os (timed t d1) (quiet (t / 1_000_000) (t % 1_000_000) d1.trace) in
      (
        installed (timed t d1),
        arm_timeout-eq os t d d1 (timed t d1) e1 (helps.arms d1.trace _ _) still
            (helps.installs (timed t d1).trace),
        refl,
        t / 1_000_000,
        t % 1_000_000,
        omega arith,
        omega arith,
        ground arith,
      )

  run_daemon-eq :
      (fuel : ℕ) (settings : RuntimeSettings) (d d' : Daemon)
      → arm_timeout os settings.timeout_us (cleared d) ≡ ok tt d'
      → run_daemon os fuel settings d ≡ wait_loop os fuel d'
  unfolding run_daemon
  run_daemon-eq fuel settings d d' e = rw e

  execute_put-parent_eq :
      (fuel pid : ℕ) (settings : RuntimeSettings) (d : Daemon)
      → os.fork d.trace ≡ in_parent pid
      → execute_put os fuel settings d ≡ run_daemon os fuel settings (forked pid d)
  unfolding execute_put
  execute_put-parent_eq fuel pid settings d e = rw e

  -- When the system cooperates, `ExecutePUT` returns false in the server, and has sent exactly one
  -- response; the response says how the process that was forked ended, by the status with which
  -- `waitpid` reported its end.
  pub execute_put-Answers :
      (fuel : ℕ) (settings : RuntimeSettings) (d : Daemon)
      → Survives os d
      → patience - waits d.trace < fuel
      → (pid : ℕ) × (os.fork d.trace ≡ in_parent pid)
        × Answers os (forked pid d) (execute_put os fuel settings d)
  execute_put-Answers fuel settings d live enough =
      let (pid, e) = helps.forks d.trace in
      let (d1, armed, p) =
        arm_timeout-IsPrepared settings.timeout_us (cleared (forked pid d)) live in
      let (d', returns, r) =
        wait_loop-Answers os patience helps.ends fuel d1 (inl p.handler)
          (omega (arith, p.waits_same)) in
      (
        pid,
        e,
        (
          d',
          execute_put-parent_eq fuel pid settings d e
              ∙ run_daemon-eq fuel settings (forked pid d) d1 armed
              ∙ returns,
          Reported-IsPrepared (IsPrepared-cleared (forked pid d) d1 p) r,
        ),
      )
