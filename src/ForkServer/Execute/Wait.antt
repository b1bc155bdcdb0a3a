-- ===== src/ForkServer/Execute/Wait.antt =====
-- The wait loop of `ExecutePUT`: it ends when the program under test does, with one response.
use fuzzuf_cc.Prelude.{
  ℕ, zero, suc, ◌-◌, ◌<◌, ◌≡◌, sym, ap, ◌∙◌, Bool, true, false, some, ◌∷◌, arith, ◌==◌,
}
use fuzzuf_cc.Prelude.Effect.{Run, ok}
use fuzzuf_cc.ForkServer.Types.{
  eintr, WaitAnswer, changed, wait_failed, response, no_error, ExecutePutApiResponse, Trace, Daemon,
  waitpid_call, write_call,
}
use fuzzuf_cc.ForkServer.Os.{Os}
use fuzzuf_cc.ForkServer.Signals.{deliver}
use fuzzuf_cc.ForkServer.Trace.{consumed, waits, sent, Survives, deliver-Delivered}
use fuzzuf_cc.ForkServer.Execute.{make_response, has_ended, after_wait, wait_loop}

-- What `waitpid` may answer about the process `pid` after `n` calls: it was interrupted or the
-- process stopped, both at most `patience` times in all, or the process ended.
pub data Report (os : Os) (patience n pid : ℕ) (answer : WaitAnswer) : Type 0 where
  again : answer ≡ wait_failed eintr → n < patience → Report os patience n pid answer
  stopped :
      (w : ℕ)
      → answer ≡ changed pid w
      → has_ended os w ≡ false
      → n < patience
      → Report os patience n pid answer
  ended : (w : ℕ) → answer ≡ changed pid w → has_ended os w ≡ true → Report os patience n pid answer

pub record Ends (os : Os) (patience : ℕ) : Type 0 where
  pub reports : (t : Trace) (pid : ℕ) → Report os patience (waits t) pid (os.waitpid t pid)
  pub writes :
      (t : Trace) (r : ExecutePutApiResponse) → (n : ℕ) × (os.write t (response r) ≡ some n)

-- What a response should say about a wait status: how the process ended, and nothing else.
pub record Reflects (os : Os) (w : ℕ) (r : ExecutePutApiResponse) : Type 0 where
  pub error : r.error ≡ no_error
  pub on_exit :
      os.wifexited w ≡ true
      → os.wifsignaled w ≡ false
      → (r.exit_code ≡ os.wexitstatus w) × (r.signal_number ≡ 0)
  pub on_signal :
      os.wifsignaled w ≡ true → (r.exit_code ≡ os.wtermsig w) × (r.signal_number ≡ os.wtermsig w)

pub make_response-Reflects : (os : Os) (w : ℕ) → Reflects os w (make_response os w)
unfolding make_response
make_response-Reflects os w = record {
  error = ground arith;
  on_exit = λ e s. (ground arith, ground arith);
  on_signal = λ s. (ground arith, ground arith);
}

-- One response was sent, for a status with which the process ended.
pub record Reported (os : Os) (d d' : Daemon) : Type 0 where
  pub status : ℕ
  pub reply : ExecutePutApiResponse
  pub at : Trace
  pub waited : os.waitpid at d.put_pid ≡ changed d.put_pid status
  pub has_ended_put : has_ended os status ≡ true
  pub reflects : Reflects os status reply
  pub sent_one : sent d'.trace ≡ response reply ∷ sent d.trace
  pub put_pid : d'.put_pid ≡ d.put_pid
  pub consumed_same : consumed d'.trace ≡ consumed d.trace
  pub survives : Survives os d'

abbrev pub Answers : Os → Daemon → Run Daemon Bool → Type 0
Answers os d r = (d' : Daemon) × (r ≡ ok false d') × Reported os d d'

abbrev waited : WaitAnswer → Daemon → Daemon
waited answer d = record d { trace = waitpid_call d.put_pid answer ∷ d.trace }

abbrev cleared : Daemon → Daemon
cleared d = record d { last_timeout = record (d.last_timeout) { valid = false } }

-- One round up to the test of the answer.
wait_loop-suc :
    (os : Os) (fuel : ℕ) (d d1 d2 : Daemon)
    → deliver os d ≡ ok tt d1
    → deliver os (waited (os.waitpid d1.trace d1.put_pid) d1) ≡ ok tt d2
    → wait_loop os (suc fuel) d
      ≡ after_wait os (wait_loop os fuel) (os.waitpid d1.trace d1.put_pid) (cleared d2)
unfolding wait_loop
wait_loop-suc os fuel d d1 d2 e1 e2 = rw (e1, e2)

-- What a round of the loop has done when it looks at the answer of `waitpid`.
record LoopRound (os : Os) (fuel : ℕ) (d : Daemon) : Type 0 where
  at : Trace
  next : Daemon
  step :
      wait_loop os (suc fuel) d ≡ after_wait os (wait_loop os fuel) (os.waitpid at d.put_pid) next
  waits_at : waits at ≡ waits d.trace
  waits_next : waits next.trace ≡ suc (waits d.trace)
  sent_same : sent next.trace ≡ sent d.trace
  put_pid : next.put_pid ≡ d.put_pid
  consumed_same : consumed next.trace ≡ consumed d.trace
  survives : Survives os next

wait_loop-LoopRound : (os : Os) (fuel : ℕ) (d : Daemon) → Survives os d → LoopRound os fuel d
wait_loop-LoopRound os fuel d live =
    let (d1, e1, u1, live1) = deliver-Delivered os d live in
    let (d2, e2, u2, live2) =
      deliver-Delivered os (waited (os.waitpid d1.trace d1.put_pid) d1) live1 in
    record {
      at = d1.trace;
      next = cleared d2;
      step =
          wait_loop-suc os fuel d d1 d2 e1 e2
          ∙ ap (λ p. after_wait os (wait_loop os fuel) (os.waitpid d1.trace p) (cleared d2))
              u1.put_pid;
      waits_at = u1.waits_same;
      waits_next = u2.waits_same ∙ ap suc u1.waits_same;
      sent_same = u2.sent_same ∙ u1.sent_same;
      put_pid = u2.put_pid ∙ u1.put_pid;
      consumed_same = u2.consumed_same ∙ u1.consumed_same;
      survives = live2;
    }

module _ (os : Os) (retry : Daemon → Run Daemon Bool) (p w : ℕ) (d : Daemon)
    (same : d.put_pid ≡ p) where
  matches : (p == d.put_pid) ≡ true
  matches = ground arith

  after_wait-stopped : has_ended os w ≡ false → after_wait os retry (changed p w) d ≡ retry d
  unfolding after_wait
  after_wait-stopped running = rw (matches, running)

  after_wait-ended :
      (n : ℕ)
      → has_ended os w ≡ true
      → os.write d.trace (response (make_response os w)) ≡ some n
      → after_wait os retry (changed p w) d
        ≡ ok false (record d { trace = write_call (response (make_response os w)) ∷ d.trace })
  unfolding after_wait
  after_wait-ended n over wrote = rw (matches, over, wrote)

Reported-LoopRound :
    {os : Os} {fuel : ℕ} {d d' : Daemon} (r : LoopRound os fuel d)
    → Reported os r.next d'
    → Reported os d d'
Reported-LoopRound {os} r x = record {
  status = x.status;
  reply = x.reply;
  at = x.at;
  waited = ap (os.waitpid x.at) (sym r.put_pid) ∙ x.waited ∙ ap (λ p. changed p x.status) r.put_pid;
  has_ended_put = x.has_ended_put;
  reflects = x.reflects;
  sent_one = x.sent_one ∙ ap (◌∷◌ (response x.reply)) r.sent_same;
  put_pid = x.put_pid ∙ r.put_pid;
  consumed_same = x.consumed_same ∙ r.consumed_same;
  survives = x.survives;
}

module _ (os : Os) (patience : ℕ) (ends : Ends os patience) where
  LoopRound-Answers :
      (fuel : ℕ) (d : Daemon) (r : LoopRound os fuel d)
      → Report os patience (waits r.at) d.put_pid (os.waitpid r.at d.put_pid)
      → (waits d.trace < patience → Answers os r.next (wait_loop os fuel r.next))
      → Answers os d (wait_loop os (suc fuel) d)
  LoopRound-Answers fuel d r (again e early) rest =
      let (d', returns, x) = rest (omega (arith, r.waits_at)) in
      (d', r.step ∙ rw e (unfold after_wait in returns), Reported-LoopRound r x)
  LoopRound-Answers fuel d r (stopped w e running early) rest =
      let (d', returns, x) = rest (omega (arith, r.waits_at)) in
      (
        d',
        r.step
            ∙ rw e (
                after_wait-stopped os (wait_loop os fuel) d.put_pid w r.next r.put_pid running
                ∙ returns),
        Reported-LoopRound r x,
      )
  LoopRound-Answers fuel d r (ended w e over) rest =
      let (n, wrote) = ends.writes r.next.trace (make_response os w) in
      (
        record r.next { trace = write_call (response (make_response os w)) ∷ r.next.trace },
        r.step
            ∙ rw e
                (after_wait-ended os (wait_loop os fuel) d.put_pid w r.next r.put_pid n over wrote),
        record {
          status = w;
          reply = make_response os w;
          at = r.at;
          waited = e;
          has_ended_put = over;
          reflects = make_response-Reflects os w;
          sent_one = ap (◌∷◌ (response (make_response os w))) r.sent_same;
          put_pid = r.put_pid;
          consumed_same = r.consumed_same;
          survives = r.survives;
        },
      )

  -- With fuel for the calls of `waitpid` that come too early, the loop ends with one response that
  -- says how the program under test ended.
  pub wait_loop-Answers :
      (fuel : ℕ) (d : Daemon)
      → Survives os d
      → patience - waits d.trace < fuel
      → Answers os d (wait_loop os fuel d)
  wait_loop-Answers zero d live enough = absurd (omega arith)
  wait_loop-Answers (suc fuel) d live enough =
      let r = wait_loop-LoopRound os fuel d live in
      LoopRound-Answers fuel d r (ends.reports r.at d.put_pid)
        λ early. wait_loop-Answers fuel r.next r.survives (omega (arith, r.waits_next))
