-- ===== src/ForkServer/Trace.antt =====
-- What the trace of a server says: how many bytes it has read, how often a call was interrupted,
-- and what it has sent.
use fuzzuf_cc.Prelude.{
  Bool, ℕ, suc, ◌+◌, ◌≡◌, refl, ap, if◌then◌else◌, ◌⊎◌, inl, inr, true, false, List, [], ◌∷◌, ◌∙◌,
  length,
}
use fuzzuf_cc.Prelude.Effect.{ok, killed, and_then, ◌>>◌}
use fuzzuf_cc.ForkServer.Types.{
  eintr, got, read_failed, Message, SigInfo, Trace, Daemon, read_call, write_call, getpid_call,
  alarm_call, kill_call, waitpid_call, sigaction_call,
}
use fuzzuf_cc.ForkServer.Os.{Os}
use fuzzuf_cc.ForkServer.Signals.{put_timeout_handler, handle_all, deliver}

-- The bytes that `read` has taken from the pipe.
abbrev pub consumed : Trace → ℕ
consumed [] = 0
consumed (read_call n (got bs) ∷ t) = consumed t + length bs
consumed (_ ∷ t) = consumed t

-- The calls of `read` that a signal interrupted.
abbrev pub interrupts : Trace → ℕ
interrupts [] = 0
interrupts (read_call n (read_failed eintr) ∷ t) = suc (interrupts t)
interrupts (_ ∷ t) = interrupts t

-- The calls of `waitpid`.
abbrev pub waits : Trace → ℕ
waits [] = 0
waits (waitpid_call p a ∷ t) = suc (waits t)
waits (_ ∷ t) = waits t

-- The messages to the client, the last first.
abbrev pub sent : Trace → List Message
sent [] = []
sent (write_call m ∷ t) = m ∷ sent t
sent (_ ∷ t) = sent t

-- `sigaction` has been called.
abbrev pub installed : Trace → Bool
installed [] = false
installed (sigaction_call ∷ t) = true
installed (_ ∷ t) = installed t

-- No SIGALRM comes before the first call of `sigaction`; from then on they may come at any point.
abbrev pub IsPatient : Os → Type 0
IsPatient os = (t : Trace) → installed t ≡ false → os.alarms t ≡ []

-- A SIGALRM cannot end the server: it has its handler, or none comes before it has it.
abbrev pub Survives : Os → Daemon → Type 0
Survives os d = (d.handler ≡ true) ⊎ ((installed d.trace ≡ false) × IsPatient os)

-- What signals leave alone.
pub record Undisturbed (d d' : Daemon) : Type 0 where
  pub put_pid : d'.put_pid ≡ d.put_pid
  pub handler : d'.handler ≡ d.handler
  pub consumed_same : consumed d'.trace ≡ consumed d.trace
  pub interrupts_same : interrupts d'.trace ≡ interrupts d.trace
  pub waits_same : waits d'.trace ≡ waits d.trace
  pub sent_same : sent d'.trace ≡ sent d.trace

pub Undisturbed-trans : {a b c : Daemon} → Undisturbed a b → Undisturbed b c → Undisturbed a c
Undisturbed-trans p q = record {
  put_pid = q.put_pid ∙ p.put_pid;
  handler = q.handler ∙ p.handler;
  consumed_same = q.consumed_same ∙ p.consumed_same;
  interrupts_same = q.interrupts_same ∙ p.interrupts_same;
  waits_same = q.waits_same ∙ p.waits_same;
  sent_same = q.sent_same ∙ p.sent_same;
}

abbrev pub Undisturbed-refl : (d : Daemon) → Undisturbed d d
Undisturbed-refl d = record {
  put_pid = refl;
  handler = refl;
  consumed_same = refl;
  interrupts_same = refl;
  waits_same = refl;
  sent_same = refl;
}

-- One run of the handler: what it records, the alarm it cancels and the process it kills.
pub put_timeout_handler_lem :
    (os : Os) (si : SigInfo) (d : Daemon)
    → (d' : Daemon) × (put_timeout_handler os si d ≡ ok tt d')
      × Undisturbed d d'
      × (d'.trace ≡ kill_call d.put_pid ∷ alarm_call 0 ∷ getpid_call ∷ d.trace)
      × (d'.last_timeout.valid ≡ true)
unfolding put_timeout_handler
put_timeout_handler_lem os si d = (
  _,
  refl,
  record {
    put_pid = refl;
    handler = refl;
    consumed_same = refl;
    interrupts_same = refl;
    waits_same = refl;
    sent_same = refl;
  },
  refl,
  refl,
)

pub handle_all-cons :
    (os : Os) (si : SigInfo) (l : List SigInfo) (d d1 : Daemon)
    → d.handler ≡ true
    → put_timeout_handler os si d ≡ ok tt d1
    → handle_all os (si ∷ l) d ≡ handle_all os l d1
unfolding handle_all
handle_all-cons os si l d d1 h e =
    ap (λ b. if b then (put_timeout_handler os si >> handle_all os l) d else killed d) h
    ∙ ap (λ r. and_then r (λ _. handle_all os l)) e

pub deliver-none : (os : Os) (d : Daemon) → os.alarms d.trace ≡ [] → deliver os d ≡ ok tt d
unfolding deliver
deliver-none os d e = ap (λ l. handle_all os l d) e ∙ unfold handle_all in refl

pub deliver-killed :
    (os : Os) (si : SigInfo) (l : List SigInfo) (d : Daemon)
    → os.alarms d.trace ≡ si ∷ l
    → d.handler ≡ false
    → deliver os d ≡ killed d
unfolding deliver
deliver-killed os si l d e h =
    ap (λ l'. handle_all os l' d) e
    ∙ ap (λ b. if b then (put_timeout_handler os si >> handle_all os l) d else killed d) h

abbrev pub Delivered : Os → List SigInfo → Daemon → Type 0
Delivered os l d = (d' : Daemon) × (handle_all os l d ≡ ok tt d') × Undisturbed d d'

pub handle_all-Delivered :
    (os : Os) (l : List SigInfo) (d : Daemon) → d.handler ≡ true → Delivered os l d
unfolding handle_all
handle_all-Delivered os [] d h = (d, refl, Undisturbed-refl d)
handle_all-Delivered os (si ∷ l) d h =
    let (d1, e1, u1, _, _) = put_timeout_handler_lem os si d in
    let (d2, e2, u2) = handle_all-Delivered os l d1 (u1.handler ∙ h) in
    (d2, handle_all-cons os si l d d1 h e1 ∙ e2, Undisturbed-trans u1 u2)

pub deliver-Delivered :
    (os : Os) (d : Daemon)
    → Survives os d
    → (d' : Daemon) × (deliver os d ≡ ok tt d') × Undisturbed d d' × Survives os d'
unfolding deliver
deliver-Delivered os d (inl h) =
    let (d', e, u) = handle_all-Delivered os (os.alarms d.trace) d h in
    (d', e, u, inl (u.handler ∙ h))
deliver-Delivered os d (inr (not_yet, none_come)) = (
  d,
  rw (none_come d.trace not_yet) (unfold handle_all in refl),
  Undisturbed-refl d,
  inr (not_yet, none_come),
)
