-- ===== src/Executor/Steps.antt =====
-- One round of the loop of `operator()`.
use fuzzuf_cc.Prelude.{ℕ, suc, ◌≡◌, ◌==◌, true, false, some, List, ◌∷◌, ◌++◌, map, bit_and, arith}
use fuzzuf_cc.Exif.Heap.{overwrite}
use fuzzuf_cc.ForkServer.Types.{eintr, got}
use fuzzuf_cc.Executor.Types.{
  Trace, Client, Fd, EpollAnswer, event, timed_out, wait_failed, read_call, epoll_wait_call,
  epollin,
}
use fuzzuf_cc.Executor.Effect.{done}
use fuzzuf_cc.Executor.Host.{Host}
use fuzzuf_cc.Executor.Execute.{Locals, on_input, on_event, collect, chunk_size, sizeof_response}
use fuzzuf_cc.Executor.Stream.{Streams, Attached}

-- The client after more calls.
abbrev pub at : Client → Trace → Client
at c t = record c { trace = t }

abbrev pub waited : Client → Locals → EpollAnswer → Trace → Trace
waited c l answer t = epoll_wait_call c.epoll_fd l.forever answer ∷ t

same_self : (a : ℕ) → (a == a) ≡ true
same_self a = ground arith

module _ (host : Host) (c : Client) where
  pub collect-interrupted :
      (fuel : ℕ) (l : Locals) (t : Trace)
      → host.epoll_wait t c.epoll_fd l.forever ≡ wait_failed eintr
      → collect host (suc fuel) l (at c t)
        ≡ collect host fuel l (at c (waited c l (wait_failed eintr) t))
  unfolding collect
  collect-interrupted fuel l t e = rw e

  pub collect-quiet :
      (fuel : ℕ) (l : Locals) (t : Trace)
      → host.epoll_wait t c.epoll_fd l.forever ≡ timed_out
      → collect host (suc fuel) l (at c t) ≡ done l (at c (waited c l timed_out t))
  unfolding collect
  collect-quiet fuel l t e = rw e

  pub collect-event :
      (fuel : ℕ) (l l1 : Locals) (t t1 : Trace) (fd : Fd) (events : ℕ)
      → host.epoll_wait t c.epoll_fd l.forever ≡ event fd events
      → on_event host fd events l (at c (waited c l (event fd events) t)) ≡ done l1 (at c t1)
      → collect host (suc fuel) l (at c t) ≡ collect host fuel l1 (at c t1)
  unfolding collect
  collect-event fuel l l1 t t1 fd events e on = rw (e, on)

  module _ (s : Streams) (a : Attached s c) (events : ℕ)
      (input : (bit_and events epollin == 0) ≡ false) (bs : List ℕ) (l : Locals) (t : Trace) where
    pub on_event-output :
        host.read t (some s.out_fd) chunk_size ≡ got bs
        → on_event host (some s.out_fd) events l (at c t)
          ≡ done
              (record l { standard_output = l.standard_output ++ bs })
              (at c (read_call (some s.out_fd) chunk_size (got bs) ∷ t))
    unfolding on_event on_input
    on_event-output e = rw (input, a.out_fd, same_self s.out_fd, e)

    pub on_event-errors :
        (s.err_fd == s.out_fd) ≡ false
        → host.read t (some s.err_fd) chunk_size ≡ got bs
        → on_event host (some s.err_fd) events l (at c t)
          ≡ done
              (record l { standard_error = l.standard_error ++ bs })
              (at c (read_call (some s.err_fd) chunk_size (got bs) ∷ t))
    unfolding on_event on_input
    on_event-errors other e = rw (input, a.out_fd, other, a.err_fd, same_self s.err_fd, e)

    pub on_event-response :
        (s.server_fd == s.out_fd) ≡ false
        → (s.server_fd == s.err_fd) ≡ false
        → host.read t (some s.server_fd) sizeof_response ≡ got bs
        → on_event host (some s.server_fd) events l (at c t)
          ≡ done
              (record l { response = overwrite 0 (map some bs) l.response; forever = false })
              (at c (read_call (some s.server_fd) sizeof_response (got bs) ∷ t))
    unfolding on_event on_input
    on_event-response other_out other_err e =
        rw (input, a.out_fd, other_out, a.err_fd, other_err, a.server_fd, same_self s.server_fd, e)
