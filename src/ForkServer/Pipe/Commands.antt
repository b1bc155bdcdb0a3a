-- ===== src/ForkServer/Pipe/Commands.antt =====
-- `WaitForAPICall` and `RecvU64` on a stream that starts with the bytes of their value.
use fuzzuf_cc.Prelude.{
  ℕ, ◌+◌, ◌^◌, ◌<◌, ◌≡◌, sym, ap, ◌∙◌, List, ◌++◌, length, take, drop, drop-drop, take-append,
  drop-append,
}
use fuzzuf_cc.Prelude.Effect.{Run, ok}
use fuzzuf_cc.Bytes.{to_bytes, from_bytes-to_bytes}
use fuzzuf_cc.ForkServer.Types.{Daemon}
use fuzzuf_cc.ForkServer.Os.{Os}
use fuzzuf_cc.ForkServer.Trace.{consumed, sent, Survives}
use fuzzuf_cc.ForkServer.Pipe.{recv, to_command, wait_for_api_call, recv_u64}
use fuzzuf_cc.ForkServer.Pipe.Ideal.{Pipe, next_bytes}
use fuzzuf_cc.ForkServer.Pipe.Stream.{recv-next_bytes}

-- The bytes `rest` are what the server has still to read.
pub record Ready (os : Os) (stream rest : List ℕ) (d : Daemon) : Type 0 where
  pub pending : drop (consumed d.trace) stream ≡ rest
  pub survives : Survives os d

-- Reading alone sends nothing and changes no process.
pub record Steady (d d' : Daemon) : Type 0 where
  pub sent_same : sent d'.trace ≡ sent d.trace
  pub put_pid : d'.put_pid ≡ d.put_pid

-- The run returns `a`, and `rest` is what remains to be read.
abbrev pub Gives : {A : Type 0} → Os → (stream rest : List ℕ) → Daemon → A → Run Daemon A → Type 0
Gives os stream rest d a r = (d' : Daemon) × (r ≡ ok a d') × Ready os stream rest d' × Steady d d'

module _ (os : Os) (stream : List ℕ) (patience : ℕ) (pipe : Pipe os stream patience) where
  pub recv-append :
      (fuel : ℕ) (front rest : List ℕ) (d : Daemon)
      → Ready os stream (front ++ rest) d
      → length front + patience < fuel
      → Gives os stream rest d front (recv os fuel (length front) d)
  recv-append fuel front rest d ready enough =
      let (d', returns, a) =
        recv-next_bytes os stream patience pipe (length front) fuel d ready.survives enough in
      let bytes : next_bytes stream d (length front) ≡ front =
        ap (take (length front)) ready.pending ∙ take-append front rest in
      let pending : drop (consumed d'.trace) stream ≡ rest =
        ap (λ c. drop c stream)
          (a.position ∙ ap (λ (bs : List ℕ). consumed d.trace + length bs) bytes)
        ∙ sym (drop-drop (consumed d.trace) (length front) stream)
        ∙ ap (drop (length front)) ready.pending
        ∙ drop-append front rest in
      (
        d',
        returns ∙ ap (λ bs. ok bs d') bytes,
        record { pending = pending; survives = a.survives },
        record { sent_same = a.sent_same; put_pid = a.put_pid },
      )

  pub recv_u64-to_bytes :
      (fuel value : ℕ) (rest : List ℕ) (d : Daemon)
      → value < 2 ^ 64
      → Ready os stream (to_bytes 8 value ++ rest) d
      → 8 + patience < fuel
      → Gives os stream rest d value (recv_u64 os fuel d)
  unfolding recv_u64
  recv_u64-to_bytes fuel value rest d small ready enough =
      let (d', returns, r, s) = recv-append fuel (to_bytes 8 value) rest d ready enough in
      (d', rw returns (ap (λ v. ok v d') (from_bytes-to_bytes 8 value small)), r, s)

  pub wait_for_api_call-to_bytes :
      (fuel n : ℕ) (rest : List ℕ) (d : Daemon)
      → n < 2 ^ 32
      → Ready os stream (to_bytes 4 n ++ rest) d
      → 4 + patience < fuel
      → Gives os stream rest d (to_command n) (wait_for_api_call os fuel d)
  unfolding wait_for_api_call
  wait_for_api_call-to_bytes fuel n rest d small ready enough =
      let (d', returns, r, s) = recv-append fuel (to_bytes 4 n) rest d ready enough in
      (d', rw returns (ap (λ v. ok (to_command v) d') (from_bytes-to_bytes 4 n small)), r, s)
