-- ===== src/ForkServer/Pipe/Stream.antt =====
-- `Recv` against an ideal pipe: however the bytes are cut into chunks and however often a read is
-- interrupted, the caller gets the next bytes of the stream.
use fuzzuf_cc.Prelude.{
  ℕ, zero, suc, ◌+◌, ◌-◌, ◌≤◌, ◌<◌, ◌≡◌, refl, ap, ◌∙◌, sym, inl, inr, false, List, [], ◌∷◌, ◌++◌,
  arith, length, ltb, lt→ltb, take, drop, take-nil, length-append, Bool-cases,
}
use mathlib.Core.Path.{subst}
use mathlib.Core.List.{append-nil}
use fuzzuf_cc.Prelude.Effect.{Run, ok}
use fuzzuf_cc.ForkServer.Types.{eintr, got, read_failed, ReadAnswer, Daemon, read_call}
use fuzzuf_cc.ForkServer.Os.{Os}
use fuzzuf_cc.ForkServer.Signals.{deliver}
use fuzzuf_cc.ForkServer.Trace.{consumed, interrupts, Survives, Undisturbed, deliver-Delivered}
use fuzzuf_cc.ForkServer.Pipe.{recv_loop, recv}
use fuzzuf_cc.ForkServer.Pipe.Ideal.{
  chunk, at_end, interrupted, Advanced-Resumed, Advanced, chunk_bytes, next_bytes, take-suc-cons,
  Pipe,
}

abbrev after_read : ReadAnswer → ℕ → Daemon → Daemon
after_read answer n d = record d { trace = read_call n answer ∷ d.trace }

module _ (os : Os) (fuel size : ℕ) (buf : List ℕ) (d d1 : Daemon) (less : length buf < size)
    (delivered : deliver os d ≡ ok tt d1) where
  recv_loop-interrupted :
      os.read d1.trace (size - length buf) ≡ read_failed eintr
      → recv_loop os (suc fuel) size buf d
        ≡ recv_loop os fuel size buf (after_read (read_failed eintr) (size - length buf) d1)
  unfolding recv_loop
  recv_loop-interrupted e = rw (lt→ltb _ _ less, delivered, e)

  recv_loop-end :
      os.read d1.trace (size - length buf) ≡ got []
      → recv_loop os (suc fuel) size buf d ≡ ok buf (after_read (got []) (size - length buf) d1)
  unfolding recv_loop
  recv_loop-end e = rw (lt→ltb _ _ less, delivered, e)

  recv_loop-chunk :
      (b : ℕ) (bs : List ℕ)
      → os.read d1.trace (size - length buf) ≡ got (b ∷ bs)
      → recv_loop os (suc fuel) size buf d
        ≡ recv_loop os fuel size
            (buf ++ (b ∷ bs))
            (after_read (got (b ∷ bs)) (size - length buf) d1)
  unfolding recv_loop
  recv_loop-chunk b bs e = rw (lt→ltb _ _ less, delivered, e)

recv_loop-full :
    (os : Os) (fuel size : ℕ) (buf : List ℕ) (d : Daemon)
    → size ≤ length buf
    → recv_loop os (suc fuel) size buf d ≡ ok buf d
unfolding recv_loop
recv_loop-full os fuel size buf d h =
    let full : ltb (length buf) size ≡ false = ground arith in rw full

-- What a read loop that still wants `m` bytes comes to.
abbrev Completes : Os → List ℕ → List ℕ → ℕ → Daemon → Run Daemon (List ℕ) → Type 0
Completes os stream buf m d r =
    (d' : Daemon) × (r ≡ ok (buf ++ next_bytes stream d m) d') × Advanced os stream m d d'

module _ (os : Os) (stream : List ℕ) (patience : ℕ) (pipe : Pipe os stream patience)
    (size : ℕ) where
  abbrev CompletesIn : ℕ → Type 0
  CompletesIn fuel =
      (buf : List ℕ) (d : Daemon)
      → Survives os d
      → length buf ≤ size
      → (size - length buf) + (patience - interrupts d.trace) < fuel
      → Completes os stream buf (size - length buf) d (recv_loop os fuel size buf d)

  recv_loop-interrupted-Completes :
      (fuel : ℕ) (buf : List ℕ) (d d1 : Daemon)
      → CompletesIn fuel
      → length buf < size
      → (size - length buf) + (patience - interrupts d.trace) < suc fuel
      → deliver os d ≡ ok tt d1
      → Undisturbed d d1
      → Survives os d1
      → os.read d1.trace (size - length buf) ≡ read_failed eintr
      → Completes os stream buf (size - length buf) d (recv_loop os (suc fuel) size buf d)
  recv_loop-interrupted-Completes fuel buf d d1 rest less enough e1 u live e =
      let d2 : Daemon = after_read (read_failed eintr) (size - length buf) d1 in
      let early : interrupts d1.trace < patience = pipe.patient d1.trace _ e in
      let (d', returns, a) = rest buf d2 live (omega arith) (omega (arith, u.interrupts_same)) in
      (
        d',
        recv_loop-interrupted os fuel size buf d d1 less e1 e
            ∙ returns
            ∙ ap (λ c. ok (buf ++ take (size - length buf) (drop c stream)) d') u.consumed_same,
        record {
          position =
              a.position
              ∙ ap (λ c. c + length (take (size - length buf) (drop c stream))) u.consumed_same;
          sent_same = a.sent_same ∙ u.sent_same;
          put_pid = a.put_pid ∙ u.put_pid;
          survives = a.survives;
        },
      )

  recv_loop-full-Completes :
      (fuel : ℕ) (buf : List ℕ) (d : Daemon)
      → Survives os d
      → length buf ≤ size
      → size ≤ length buf
      → Completes os stream buf (size - length buf) d (recv_loop os (suc fuel) size buf d)
  recv_loop-full-Completes fuel buf d live fits full =
      let none_left : size - length buf ≡ 0 = omega arith in
      rw none_left (
        d,
        recv_loop-full os fuel size buf d full ∙ ap (λ r. ok r d) (sym (append-nil buf)),
        record { position = omega arith; sent_same = refl; put_pid = refl; survives = live },
      )

  recv_loop-end-Completes :
      (fuel : ℕ) (buf : List ℕ) (d d1 : Daemon)
      → length buf < size
      → deliver os d ≡ ok tt d1
      → Undisturbed d d1
      → Survives os d1
      → drop (consumed d1.trace) stream ≡ []
      → os.read d1.trace (size - length buf) ≡ got []
      → Completes os stream buf (size - length buf) d (recv_loop os (suc fuel) size buf d)
  recv_loop-end-Completes fuel buf d d1 less e1 u live over e =
      let empty : next_bytes stream d (size - length buf) ≡ [] =
        rw (← u.consumed_same, over) (take-nil (size - length buf)) in
      (
        after_read (got []) (size - length buf) d1,
        rw empty (
            recv_loop-end os fuel size buf d d1 less e1 e
            ∙ ap (λ r. ok r (after_read (got []) (size - length buf) d1)) (sym (append-nil buf))),
        record {
          position = rw empty (omega (arith, u.consumed_same));
          sent_same = u.sent_same;
          put_pid = u.put_pid;
          survives = live;
        },
      )

  recv_loop-chunk-Completes :
      (fuel k : ℕ) (buf : List ℕ) (d d1 : Daemon)
      → CompletesIn fuel
      → length buf < size
      → (size - length buf) + (patience - interrupts d.trace) < suc fuel
      → deliver os d ≡ ok tt d1
      → Undisturbed d d1
      → Survives os d1
      → suc k ≤ size - length buf
      → suc k ≤ length (drop (consumed d1.trace) stream)
      → os.read d1.trace (size - length buf) ≡ got (take (suc k) (drop (consumed d1.trace) stream))
      → Completes os stream buf (size - length buf) d (recv_loop os (suc fuel) size buf d)
  recv_loop-chunk-Completes fuel k buf d d1 rest less enough e1 u live in_n in_rest e =
      let (b, bs, cons, long) = take-suc-cons k (drop (consumed d1.trace) stream) in_rest in
      let d2 : Daemon = after_read (got (b ∷ bs)) (size - length buf) d1 in
      let grown : length (buf ++ (b ∷ bs)) ≡ length buf + suc k =
        omega (arith, length-append buf (b ∷ bs)) in
      let left : size - length (buf ++ (b ∷ bs)) ≡ size - length buf - suc k = omega arith in
      let at : consumed d1.trace + length (b ∷ bs) ≡ consumed d.trace + suc k =
        omega (arith, u.consumed_same) in
      let (d', returns, a) =
        rest (buf ++ (b ∷ bs)) d2 live (omega arith) (omega (arith, u.interrupts_same)) in
      let here : take (suc k) (drop (consumed d.trace) stream) ≡ b ∷ bs =
        subst (λ c. take (suc k) (drop c stream) ≡ b ∷ bs) u.consumed_same cons in
      let bytes : (buf ++ (b ∷ bs)) ++ next_bytes stream d2 (size - length (buf ++ (b ∷ bs)))
          ≡ buf ++ next_bytes stream d (size - length buf) =
        rw (left, at)
          (chunk_bytes stream buf (b ∷ bs) (consumed d.trace) (suc k) (size - length buf) here
            in_n) in
      (
        d',
        recv_loop-chunk os fuel size buf d d1 less e1 b bs (e ∙ ap got cons)
            ∙ returns
            ∙ ap (λ r. ok r d') bytes,
        Advanced-Resumed os stream (suc k) (size - length buf) d d2 d'
            (record { position = at; sent_same = u.sent_same; put_pid = u.put_pid }) in_n
            (subst (λ c. suc k ≤ length (drop c stream)) u.consumed_same in_rest)
            (subst (λ m. Advanced os stream m d2 d') left a),
      )

  recv_loop-Completes : (fuel : ℕ) → CompletesIn fuel
  recv_loop-Completes zero buf d live fits enough = absurd (omega arith)
  recv_loop-Completes (suc fuel) buf d live fits enough =
      elim (Bool-cases (ltb (length buf) size)) [
        | inr full ↦ recv_loop-full-Completes fuel buf d live fits (ground arith)
        | inl less ↦
            let (d1, e1, u, live1) = deliver-Delivered os d live in
            elim (pipe.delivers d1.trace (size - length buf) (ground arith)) [
              | interrupted e ↦
                  recv_loop-interrupted-Completes fuel buf d d1 (recv_loop-Completes fuel)
                    (ground arith) enough e1 u live1 e
              | at_end over e ↦
                  recv_loop-end-Completes fuel buf d d1 (ground arith) e1 u live1 over e
              | chunk k in_n in_rest e ↦
                  recv_loop-chunk-Completes fuel k buf d d1 (recv_loop-Completes fuel)
                    (ground arith) enough e1 u live1 in_n in_rest e
            ]
      ]

  -- `Recv` returns exactly the next `size` bytes of the stream, or all that is left of it.
  pub recv-next_bytes :
      (fuel : ℕ) (d : Daemon)
      → Survives os d
      → size + patience < fuel
      → (d' : Daemon) × (recv os fuel size d ≡ ok (next_bytes stream d size) d')
        × Advanced os stream size d d'
  unfolding recv
  recv-next_bytes fuel d live enough =
      let all : size - 0 ≡ size = omega arith in
      subst (λ m. Completes os stream [] m d (recv_loop os fuel size [] d)) all
        (recv_loop-Completes fuel [] d live (omega arith) (omega arith))
