-- ===== src/Executor/Rounds/Moves.antt =====
-- Each round of the loop of `operator()` keeps what holds between them.
use fuzzuf_cc.Executor.Rounds.{
  Holds, Collected, overwrite-unanswered, on_off, drop_all, flip, left, awaited, answered,
}
use fuzzuf_cc.Prelude.{
  sym, refl, ℕ, suc, ◌≤◌, ◌<◌, ◌≡◌, ap, ◌∙◌, true, false, ◌==◌, some, List, [], ◌∷◌, ◌++◌, map,
  arith, length, length-take, length-drop, take, drop, bit_and,
}
use mathlib.Core.List.{append-nil}
use fuzzuf_cc.Exif.Heap.{overwrite}
use fuzzuf_cc.ForkServer.Types.{eintr, got}
use fuzzuf_cc.Executor.Types.{timed_out, wait_failed, Trace, Client, event, read_call, epollin}
use fuzzuf_cc.Executor.Host.{Host}
use fuzzuf_cc.Executor.Execute.{Locals, collect, chunk_size, sizeof_response}
use fuzzuf_cc.Executor.Stream.{
  Streams, Attached, Delivers, unread_output, unread_errors, unread_response, idle_read, idle_wait,
  unread_self, unread_other, chunk_joins,
}
use fuzzuf_cc.Executor.Steps.{
  on_event-response, on_event-errors, collect-interrupted, at, waited, collect-event,
  on_event-output,
}

module _ (host : Host) (c : Client) (s : Streams) (patience : ℕ) (base : Trace)
    (delivers : Delivers host s patience base) (a : Attached s c) where
  -- A round that goes on.
  pub record Moves (l : Locals) (t : Trace) (l1 : Locals) (t1 : Trace) : Type 0 where
    pub goes_on :
        (fuel : ℕ)
        → collect host (suc fuel) l (at c (t ++ base)) ≡ collect host fuel l1 (at c (t1 ++ base))
    pub holds : Holds s l1 t1
    pub less : left s patience t1 < left s patience t

  abbrev pub Next : Locals → Trace → Type 0
  Next l t = (l1 : Locals) × (t1 : Trace) × Moves l t l1 t1

  module _ (l : Locals) (t : Trace) (h : Holds s l t) where
    pub interrupted-Next :
        host.epoll_wait (t ++ base) c.epoll_fd l.forever ≡ wait_failed eintr → Next l t
    interrupted-Next e =
        let t1 : Trace = waited c l (wait_failed eintr) t in
        (
          l,
          t1,
          record {
            goes_on = λ fuel. collect-interrupted host c fuel l (t ++ base) e;
            holds = record {
              output_kept = h.output_kept;
              errors_kept = h.errors_kept;
              answer = elim h.answer [
                | awaited f p q ↦ awaited f p q
                | answered f p q ↦ answered f p q
              ];
              idle = idle_wait h.idle;
            };
            less = omega (arith, delivers.patient t c.epoll_fd l.forever h.idle e);
          },
        )

    pub output-Next :
        (k events : ℕ)
        → host.epoll_wait (t ++ base) c.epoll_fd l.forever ≡ event (some s.out_fd) events
        → (bit_and events epollin == 0) ≡ false
        → suc k ≤ length (unread_output s t)
        → host.read
            (waited c l (event (some s.out_fd) events) (t ++ base))
            (some s.out_fd)
            chunk_size
          ≡ got (take (suc k) (unread_output s t))
        → Next l t
    output-Next k events e input fits r =
        let bs : List ℕ = take (suc k) (unread_output s t) in
        let t1 : Trace = waited c l (event (some s.out_fd) events) t in
        let t2 : Trace = read_call (some s.out_fd) chunk_size (got bs) ∷ t1 in
        let u : unread_output s t2 ≡ drop (length bs) (unread_output s t) =
          unread_self s.out_fd chunk_size s.output bs t1 in
        let v : unread_errors s t2 ≡ unread_errors s t =
          unread_other s.out_fd s.err_fd chunk_size s.errors bs t1 delivers.out_err in
        let w : unread_response s t2 ≡ unread_response s t =
          unread_other s.out_fd s.server_fd chunk_size s.response bs t1 delivers.out_server in
        let l1 : Locals = record l { standard_output = l.standard_output ++ bs } in
        (
          l1,
          t2,
          record {
            goes_on = λ fuel.
                collect-event host c fuel l l1 (t ++ base) (t2 ++ base) (some s.out_fd) events e
                  (on_event-output host c s a events input bs l (t1 ++ base) r);
            holds = record {
              output_kept =
                  ap (λ xs. (l.standard_output ++ bs) ++ xs) u
                  ∙ chunk_joins k l.standard_output (unread_output s t) fits
                  ∙ h.output_kept;
              errors_kept = ap (λ xs. l.standard_error ++ xs) v ∙ h.errors_kept;
              answer = elim h.answer [
                | awaited f p q ↦ awaited f (w ∙ p) q
                | answered f p q ↦ answered f (w ∙ p) q
              ];
              idle = idle_read (idle_wait h.idle);
            };
            less = omega (
              arith,
              ap length u,
              ap length v,
              ap length w,
              length-drop (length bs) (unread_output s t),
              length-take (suc k) (unread_output s t),
            );
          },
        )

    pub errors-Next :
        (k events : ℕ)
        → host.epoll_wait (t ++ base) c.epoll_fd l.forever ≡ event (some s.err_fd) events
        → (bit_and events epollin == 0) ≡ false
        → suc k ≤ length (unread_errors s t)
        → host.read
            (waited c l (event (some s.err_fd) events) (t ++ base))
            (some s.err_fd)
            chunk_size
          ≡ got (take (suc k) (unread_errors s t))
        → Next l t
    errors-Next k events e input fits r =
        let bs : List ℕ = take (suc k) (unread_errors s t) in
        let t1 : Trace = waited c l (event (some s.err_fd) events) t in
        let t2 : Trace = read_call (some s.err_fd) chunk_size (got bs) ∷ t1 in
        let u : unread_errors s t2 ≡ drop (length bs) (unread_errors s t) =
          unread_self s.err_fd chunk_size s.errors bs t1 in
        let v : unread_output s t2 ≡ unread_output s t =
          unread_other s.err_fd s.out_fd chunk_size s.output bs t1
            (flip s.out_fd s.err_fd delivers.out_err) in
        let w : unread_response s t2 ≡ unread_response s t =
          unread_other s.err_fd s.server_fd chunk_size s.response bs t1 delivers.err_server in
        let l1 : Locals = record l { standard_error = l.standard_error ++ bs } in
        (
          l1,
          t2,
          record {
            goes_on = λ fuel.
                collect-event host c fuel l l1 (t ++ base) (t2 ++ base) (some s.err_fd) events e (
                  on_event-errors host c s a events input bs l (t1 ++ base)
                    (flip s.out_fd s.err_fd delivers.out_err) r);
            holds = record {
              errors_kept =
                  ap (λ xs. (l.standard_error ++ bs) ++ xs) u
                  ∙ chunk_joins k l.standard_error (unread_errors s t) fits
                  ∙ h.errors_kept;
              output_kept = ap (λ xs. l.standard_output ++ xs) v ∙ h.output_kept;
              answer = elim h.answer [
                | awaited f p q ↦ awaited f (w ∙ p) q
                | answered f p q ↦ answered f (w ∙ p) q
              ];
              idle = idle_read (idle_wait h.idle);
            };
            less = omega (
              arith,
              ap length u,
              ap length v,
              ap length w,
              length-drop (length bs) (unread_errors s t),
              length-take (suc k) (unread_errors s t),
            );
          },
        )

    pub response-Next :
        (events : ℕ)
        → host.epoll_wait (t ++ base) c.epoll_fd l.forever ≡ event (some s.server_fd) events
        → (bit_and events epollin == 0) ≡ false
        → 0 < length (unread_response s t)
        → Next l t
    response-Next events e input some_left = elim h.answer [
      | answered f p q ↦ absurd (omega (arith, ap length p))
      | awaited f p q ↦
          let t1 : Trace = waited c l (event (some s.server_fd) events) t in
          let t2 : Trace = read_call (some s.server_fd) sizeof_response (got s.response) ∷ t1 in
          let whole : length (unread_response s t) ≡ sizeof_response =
            ap length p ∙ delivers.whole in
          let r : host.read (t1 ++ base) (some s.server_fd) sizeof_response ≡ got s.response =
            delivers.reads_response t1 (idle_wait h.idle) whole ∙ ap got p in
          let u : unread_output s t2 ≡ unread_output s t =
            unread_other s.server_fd s.out_fd sizeof_response s.output s.response t1
              (flip s.out_fd s.server_fd delivers.out_server) in
          let v : unread_errors s t2 ≡ unread_errors s t =
            unread_other s.server_fd s.err_fd sizeof_response s.errors s.response t1
              (flip s.err_fd s.server_fd delivers.err_server) in
          let w : unread_response s t2 ≡ [] =
            unread_self s.server_fd sizeof_response s.response s.response t1
            ∙ ap (drop (length s.response)) p
            ∙ drop_all s.response in
          let l1 : Locals = record l {
            response = overwrite 0 (map some s.response) l.response;
            forever = false;
          } in
          (
            l1,
            t2,
            record {
              goes_on = λ fuel.
                  collect-event host c fuel l l1 (t ++ base) (t2 ++ base) (some s.server_fd) events
                    e
                    (on_event-response host c s a events input s.response l (t1 ++ base)
                      (flip s.out_fd s.server_fd delivers.out_server)
                      (flip s.err_fd s.server_fd delivers.err_server) r);
              holds = record {
                output_kept = ap (λ xs. l.standard_output ++ xs) u ∙ h.output_kept;
                errors_kept = ap (λ xs. l.standard_error ++ xs) v ∙ h.errors_kept;
                answer = answered refl w (rw q (overwrite-unanswered s.response delivers.whole));
                idle = idle_read (idle_wait h.idle);
              };
              less = omega (arith, ap length u, ap length v, ap length w);
            },
          )
    ]

    pub timed_out-Collected :
        l.forever ≡ false
        → unread_output s t ≡ []
        → unread_errors s t ≡ []
        → Collected s l (waited c l timed_out t)
    timed_out-Collected off no_output no_errors = record {
      output_whole =
          sym (append-nil l.standard_output)
          ∙ ap (λ xs. l.standard_output ++ xs) (sym no_output)
          ∙ h.output_kept;
      errors_whole =
          sym (append-nil l.standard_error)
          ∙ ap (λ xs. l.standard_error ++ xs) (sym no_errors)
          ∙ h.errors_kept;
      response_whole = elim h.answer [ awaited f p q ↦ absurd (on_off f off) | answered f p q ↦ q ];
      idle = idle_wait h.idle;
    }

    pub to_come : l.forever ≡ true → length (unread_response s t) ≡ sizeof_response
    to_come on = elim h.answer [
      | awaited f p q ↦ ap length p ∙ delivers.whole
      | answered f p q ↦ absurd (on_off on f)
    ]
