-- ===== src/Executor/Execute.antt =====
-- `operator()` and WriteTestcaseToStdin of Executor.
use fuzzuf_cc.Prelude.{
  ℕ, zero, suc, Bool, true, false, Option, none, some, List, [], ◌∷◌, ◌++◌, map, length, bit_and,
  ◌==◌, ◌||◌, if◌then◌else◌, not,
}
use fuzzuf_cc.Bytes.{to_bytes}
use fuzzuf_cc.Exif.Heap.{overwrite}
use fuzzuf_cc.ForkServer.Types.{execute_put_command, got, read_failed, eintr, esrch, other_errno}
use fuzzuf_cc.Executor.Types.{
  Fd, epollin, epollhup, epollerr, event, timed_out, wait_failed, epoll_wait_failed,
  stdout_not_read, stderr_not_read, result_not_read, fd_not_detached, stdin_not_sought,
  stdin_not_written, stdin_not_truncated, Failure,
}
use fuzzuf_cc.Executor.Effect.{Cpp, pure, throw, get, throw_if, out_of_fuel, ◌>>=◌, ◌>>◌}
use fuzzuf_cc.Executor.Host.{Host, write, read, lseek, ftruncate, epoll_wait, epoll_del}
use fuzzuf_cc.Executor.Pipe.{get_fd}
use fuzzuf_cc.Executor.Start.{call_fork_server_api}

abbrev pub chunk_size : ℕ
chunk_size = 512

-- `sizeof (ExecutePUTAPIResponse)`
abbrev pub sizeof_response : ℕ
sizeof_response = 12

-- The local variables: `response` as the bytes of its memory, `none` where nothing was written
-- yet, and whether `wait_for` is -1.
pub record Locals : Type 0 where
  pub response : List (Option ℕ)
  pub standard_output : List ℕ
  pub standard_error : List ℕ
  pub forever : Bool

-- With `NoResponseError`, which is 5.
abbrev pub unanswered : List (Option ℕ)
unanswered = map some (to_bytes 4 5) ++ (none ∷ none ∷ none ∷ none ∷ none ∷ none ∷ none ∷ none ∷ [])

abbrev pub locals : Locals
locals = record { response = unanswered; standard_output = []; standard_error = []; forever = true }

abbrev pub same_fd : Fd → Fd → Bool
same_fd none none = true
same_fd none (some _) = false
same_fd (some _) none = false
same_fd (some a) (some b) = a == b

-- -1
abbrev pub failed : Option ℕ → Bool
failed none = true
failed (some n) = false

module _ (host : Host) where
  unfoldable pub write_testcase_to_stdin : (testcase : List ℕ) → Cpp (Unit {0})
  write_testcase_to_stdin testcase = get >>= λ c. lseek host c.target_stdin_fd >>= λ sought.
      throw_if (not sought) stdin_not_sought >> write host c.target_stdin_fd testcase >>= λ count.
      throw_if (failed count) stdin_not_written
      >> ftruncate host c.target_stdin_fd (length testcase)
      >>= λ truncated. throw_if (not truncated) stdin_not_truncated

  -- The bytes of a `read` that does not fail.
  abbrev pub read_or_throw : Fd → ℕ → Failure → Cpp (List ℕ)
  read_or_throw fd size failure = read host fd size >>= λ answer. elim answer [
    | read_failed e ↦ throw failure
    | got bytes ↦ pure bytes
  ]

  abbrev pub read_stdout : Fd → Locals → Cpp Locals
  read_stdout fd l = read_or_throw fd chunk_size stdout_not_read >>= λ bytes.
      pure (record l { standard_output = l.standard_output ++ bytes })

  abbrev pub read_stderr : Fd → Locals → Cpp Locals
  read_stderr fd l = read_or_throw fd chunk_size stderr_not_read >>= λ bytes.
      pure (record l { standard_error = l.standard_error ++ bytes })

  abbrev pub read_response : Fd → Locals → Cpp Locals
  read_response fd l = read_or_throw fd sizeof_response result_not_read >>= λ bytes.
      pure (record l { response = overwrite 0 (map some bytes) l.response; forever = false })

  unfoldable pub on_input : Fd → Locals → Cpp Locals
  on_input fd l c =
      (if same_fd fd (get_fd c.target_stdout)
          then read_stdout (get_fd c.target_stdout) l
          else if same_fd fd (get_fd c.target_stderr)
          then read_stderr (get_fd c.target_stderr) l
          else if same_fd fd (get_fd c.from_fork_server)
          then read_response (get_fd c.from_fork_server) l
          else pure l)
        c

  abbrev pub detach : Fd → Locals → Cpp Locals
  detach fd l = get >>= λ c.
      epoll_del host c.epoll_fd fd >>= λ deleted. if deleted then pure l else throw fd_not_detached

  unfoldable pub on_event : Fd → (events : ℕ) → Locals → Cpp Locals
  on_event fd events l =
      if not (bit_and events epollin == 0)
      then on_input fd l
      else if (events == epollhup) || (events == epollerr)
      then detach fd l
      else pure l

  -- The loop; one unit of fuel for each call of `epoll_wait`.
  unfoldable pub collect : (fuel : ℕ) → Locals → Cpp Locals
  collect zero l = out_of_fuel
  collect (suc fuel) l = get >>= λ c. epoll_wait host c.epoll_fd l.forever >>= λ answer.
      elim answer [
        | wait_failed eintr ↦ collect fuel l
        | wait_failed esrch ↦ throw epoll_wait_failed
        | wait_failed other_errno ↦ throw epoll_wait_failed
        | timed_out ↦ pure l
        | event fd events ↦ on_event fd events l >>= collect fuel
      ]

  unfoldable pub call_operator : (fuel : ℕ) → (standard_input : List ℕ) → Cpp Locals
  call_operator fuel standard_input =
      write_testcase_to_stdin standard_input
      >> call_fork_server_api host execute_put_command
      >> collect fuel locals

  unfoldable pub call_operator_empty : (fuel : ℕ) → Cpp Locals
  call_operator_empty fuel = call_operator fuel []
