-- ===== src/ForkServer/Execute/Child.antt =====
-- `ExecutePUT` in the forked process, which goes on as the program under test, and two places
-- where a SIGALRM does harm.
use fuzzuf_cc.Prelude.{
  ℕ, ◌/◌, ◌%◌, ◌≡◌, refl, ◌∙◌, Bool, true, false, some, List, [], ◌∷◌, ◌++◌, if◌then◌else◌,
}
use fuzzuf_cc.Prelude.Effect.{ok, killed}
use fuzzuf_cc.ForkServer.Types.{
  RuntimeSettings, Stdxxx, stdin, stdout, stderr, in_child, SigInfo, Trace, Daemon, open_call,
  dup2_call, close_call, fork_call, kill_call, alarm_call, getpid_call, setitimer_call,
}
use fuzzuf_cc.ForkServer.Os.{Os}
use fuzzuf_cc.ForkServer.Signals.{handle_all}
use fuzzuf_cc.ForkServer.Trace.{
  deliver-killed, deliver-none, put_timeout_handler_lem, handle_all-cons,
}
use fuzzuf_cc.ForkServer.Execute.{attach, attach_stdxxx_files, become_put, execute_put, arm_timeout}

-- Every file can be opened; `file` is its descriptor.
abbrev pub Opens : Os → (Stdxxx → ℕ) → Type 0
Opens os file = (t : Trace) (id : ℕ) (s : Stdxxx) (c : Bool) → os.open_file t id s c ≡ some (file s)

-- The calls that the settings ask for, the last first.
abbrev pub redirections : (Stdxxx → ℕ) → RuntimeSettings → Trace
redirections file s =
    (if s.save_stdout_stderr
      then dup2_call (file stderr) 2
        ∷ open_call s.executor_id stderr true
        ∷ dup2_call (file stdout) 1
        ∷ open_call s.executor_id stdout true
        ∷ []
      else [])
    ++ (if s.read_stdin
        then dup2_call (file stdin) 0 ∷ open_call s.executor_id stdin false ∷ []
        else [])

abbrev settings_of : ℕ → ℕ → Bool → Bool → RuntimeSettings
settings_of id us input output = record {
  executor_id = id;
  timeout_us = us;
  read_stdin = input;
  save_stdout_stderr = output;
}

abbrev pub child_trace : (Stdxxx → ℕ) → RuntimeSettings → Trace → Trace
child_trace file s t =
    close_call 197 ∷ close_call 196 ∷ (redirections file s ++ (fork_call in_child ∷ t))

module _ (os : Os) (file : Stdxxx → ℕ) (opens : Opens os file) where
  attach-Opens :
      (id : ℕ) (s : Stdxxx) (c : Bool) (fd : ℕ) (d : Daemon)
      → attach os id s c fd d
        ≡ ok tt (record d { trace = dup2_call (file s) fd ∷ open_call id s c ∷ d.trace })
  unfolding attach
  attach-Opens id s c fd d = rw (opens d.trace id s c)

  attach_fields :
      (id us : ℕ) (input output : Bool) (d : Daemon)
      → let s = settings_of id us input output in
        attach_stdxxx_files os s d ≡ ok tt (record d { trace = redirections file s ++ d.trace })
  unfolding attach_stdxxx_files
  attach_fields id us true true d =
      rw (
        attach-Opens id stdin false 0,
        attach-Opens id stdout true 1,
        attach-Opens id stderr true 2,
      )
  attach_fields id us true false d = rw (attach-Opens id stdin false 0)
  attach_fields id us false true d =
      rw (attach-Opens id stdout true 1, attach-Opens id stderr true 2)
  attach_fields id us false false d = refl

  attach_stdxxx_files-Opens :
      (s : RuntimeSettings) (d : Daemon)
      → attach_stdxxx_files os s d ≡ ok tt (record d { trace = redirections file s ++ d.trace })
  attach_stdxxx_files-Opens s d =
      attach_fields s.executor_id s.timeout_us s.read_stdin s.save_stdout_stderr d

  -- In the forked process `ExecutePUT` returns true with `put_pid` 0, when the files can be opened:
  -- it has redirected exactly the streams that the settings name, in the files of its executor, has
  -- then closed both ends of the client's pipes, and has made no other call.
  pub execute_put-child :
      (fuel : ℕ) (s : RuntimeSettings) (d : Daemon)
      → os.fork d.trace ≡ in_child
      → execute_put os fuel s d
        ≡ ok true (record d { put_pid = 0; trace = child_trace file s d.trace })
  unfolding execute_put become_put
  execute_put-child fuel s d e = rw (e, attach_stdxxx_files-Opens s)

  -- From the second execution on, the program under test starts with the server's handler and with
  -- `put_pid` 0, so a SIGALRM that reaches it makes it call `kill (0, SIGKILL)`, which is for every
  -- process of its group.
  pub execute_put-kills_group :
      (fuel : ℕ) (s : RuntimeSettings) (d : Daemon) (si : SigInfo)
      → os.fork d.trace ≡ in_child
      → d.handler ≡ true
      → (d1 : Daemon) × (execute_put os fuel s d ≡ ok true d1)
        × (d2 : Daemon) × (handle_all os (si ∷ []) d1 ≡ ok tt d2)
        × (d2.trace ≡ kill_call 0 ∷ alarm_call 0 ∷ getpid_call ∷ d1.trace)
  execute_put-kills_group fuel s d si e h =
      let d1 : Daemon = record d { put_pid = 0; trace = child_trace file s d.trace } in
      let (d2, runs, u, calls, _) = put_timeout_handler_lem os si d1 in
      (
        d1,
        execute_put-child fuel s d e,
        d2,
        handle_all-cons os si [] d1 d2 h runs ∙ unfold handle_all in refl,
        calls,
      )

abbrev timed : ℕ → Daemon → Daemon
timed us d = record d { trace = setitimer_call (us / 1_000_000) (us % 1_000_000) ∷ d.trace }

-- Before the first execution has installed the handler, a SIGALRM that comes between `setitimer`
-- and `sigaction` ends the server itself.
pub arm_timeout-killed :
    (os : Os) (us : ℕ) (d : Daemon) (si : SigInfo) (more : List SigInfo)
    → d.handler ≡ false
    → os.alarms d.trace ≡ []
    → os.setitimer d.trace (us / 1_000_000) (us % 1_000_000) ≡ true
    → os.alarms (setitimer_call (us / 1_000_000) (us % 1_000_000) ∷ d.trace) ≡ si ∷ more
    → arm_timeout os us d
      ≡ killed (record d { trace = setitimer_call (us / 1_000_000) (us % 1_000_000) ∷ d.trace })
unfolding arm_timeout
arm_timeout-killed os us d si more fresh quiet armed late =
    rw (deliver-none os d quiet, armed, deliver-killed os si more (timed us d) late fresh)
