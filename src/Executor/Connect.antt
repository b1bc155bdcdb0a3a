-- ===== src/Executor/Connect.antt =====
-- The constructor of Executor when every call succeeds.
use fuzzuf_cc.Prelude.{
  take, ltb, ℕ, ◌≡◌, ◌+◌, true, some, none, List, [], ◌∷◌, false, arith, length,
}
use fuzzuf_cc.Bytes.{from_bytes, to_bytes}
use fuzzuf_cc.ForkServer.Types.{in_parent, got, sizeof_pid}
use fuzzuf_cc.Executor.Types.{
  Fd, Trace, Client, unconstructed, pipe_call, fork_call, close_call, write_call, read_call,
  open_call, epoll_create_call, epoll_add_call, epollin, epollrdhup,
}
use fuzzuf_cc.Executor.Effect.{done}
use fuzzuf_cc.Executor.Host.{Host}
use fuzzuf_cc.Executor.Start.{construct, connect, open_stdin, call_fork_server_api}

-- What the system gives the client; `pid` is what the server tells, `forked` what `fork` answers.
pub record Grant : Type 0 where
  pub to : ℕ × ℕ
  pub from : ℕ × ℕ
  pub out : ℕ × ℕ
  pub err : ℕ × ℕ
  pub forked : ℕ
  pub pid : List ℕ
  pub file : ℕ
  pub epoll : ℕ

abbrev pub piped : Grant → Trace
piped g =
    pipe_call (some g.err)
    ∷ pipe_call (some g.out)
    ∷ pipe_call (some g.from)
    ∷ pipe_call (some g.to)
    ∷ []

-- Every call of the constructor succeeds.
pub record Welcomes (host : Host) (g : Grant) : Type 0 where
  pub pipe_to : host.pipe [] ≡ some g.to
  pub pipe_from : host.pipe (pipe_call (some g.to) ∷ []) ≡ some g.from
  pub pipe_out : host.pipe (pipe_call (some g.from) ∷ pipe_call (some g.to) ∷ []) ≡ some g.out
  pub pipe_err :
      host.pipe (pipe_call (some g.out) ∷ pipe_call (some g.from) ∷ pipe_call (some g.to) ∷ [])
      ≡ some g.err
  pub forks : host.fork (piped g) ≡ in_parent g.forked
  pub writes : (t : Trace) (bs : List ℕ) → host.write t (some g.to.1) bs ≡ some (length bs)
  pub tells : (t : Trace) → host.read t (some g.from.0) sizeof_pid ≡ got g.pid
  pub pid_whole : length g.pid ≡ sizeof_pid
  pub opens : (t : Trace) → host.open_file t ≡ some g.file
  pub creates : (t : Trace) → host.epoll_create t ≡ some g.epoll
  pub adds : (t : Trace) (fd : Fd) → host.epoll_add t (some g.epoll) fd ≡ true

-- The calls of the constructor.
abbrev pub connecting : Grant → Trace
connecting g =
    epoll_add_call (some g.epoll) (some g.from.0) (epollin + epollrdhup)
    ∷ epoll_add_call (some g.epoll) (some g.err.0) (epollin + epollrdhup)
    ∷ epoll_add_call (some g.epoll) (some g.out.0) (epollin + epollrdhup)
    ∷ epoll_create_call (some g.epoll)
    ∷ write_call (some g.to.1) (to_bytes 4 2) (some 4)
    ∷ open_call 1 (some g.file)
    ∷ read_call (some g.from.0) sizeof_pid (got g.pid)
    ∷ write_call (some g.to.1) (to_bytes 8 1) (some 8)
    ∷ close_call (some g.err.1)
    ∷ close_call (some g.out.1)
    ∷ close_call (some g.from.1)
    ∷ close_call (some g.to.0)
    ∷ fork_call (in_parent g.forked)
    ∷ piped g

abbrev pub connected : Grant → Client
connected g = record {
  trace = connecting g;
  executor_id = 1;
  fork_server_pid = from_bytes (take sizeof_pid g.pid);
  to_fork_server = record { read_end = none; write_end = some g.to.1 };
  from_fork_server = record { read_end = some g.from.0; write_end = none };
  target_stdin_fd = some g.file;
  target_stdout = record { read_end = some g.out.0; write_end = none };
  target_stderr = record { read_end = some g.err.0; write_end = none };
  epoll_fd = some g.epoll;
}

-- When every call succeeds, the constructor leaves the client with its ends of the four pipes, the
-- file of standard input and the epoll descriptor.
pub construct-connected :
    (host : Host) (g : Grant) (args env : List (List ℕ))
    → Welcomes host g
    → construct host args env unconstructed ≡ done tt (connected g)
unfolding construct connect open_stdin call_fork_server_api
construct-connected host g args env w =
    let long : ltb (length g.pid) sizeof_pid ≡ false = ground (arith, w.pid_whole) in
    rw (
      w.pipe_to, w.pipe_from, w.pipe_out, w.pipe_err, w.forks, w.writes, w.tells, long, w.opens,
      w.writes, w.creates, w.adds, w.adds, w.adds,
    )
