-- ===== src/ForkServer/Protocol/Serves.antt =====
-- The loop of `StartForkServer` on the bytes of a list of requests.
use fuzzuf_cc.Prelude.{
  ℕ, suc, ◌+◌, ◌<◌, ◌≡◌, refl, ap, ◌∙◌, List, [], ◌∷◌, ◌++◌, arith, length, take, sym,
}
use mathlib.Core.List.{append_assoc, append-nil, foldl}
use fuzzuf_cc.Prelude.Effect.{ok, exited}
use fuzzuf_cc.ForkServer.Types.{RuntimeSettings, Daemon}
use fuzzuf_cc.ForkServer.Os.{Os}
use fuzzuf_cc.ForkServer.Trace.{sent}
use fuzzuf_cc.ForkServer.Pipe.{wait_for_api_call}
use fuzzuf_cc.ForkServer.Pipe.Ideal.{Pipe, next_bytes}
use fuzzuf_cc.ForkServer.Pipe.Stream.{recv-next_bytes}
use fuzzuf_cc.ForkServer.Pipe.Commands.{Ready}
use fuzzuf_cc.ForkServer.Execute.Parent.{Cooperates}
use fuzzuf_cc.ForkServer.Serve.{go_on, round, serve}
use fuzzuf_cc.ForkServer.Protocol.{Request, encode, encode_all, AllProper, apply, executions}
use fuzzuf_cc.ForkServer.Protocol.Obeys.{
  executions-cons, responses_to, round-Obeyed, Responded-trans, Responded-none, Responded,
}

module _ (os : Os) (stream : List ℕ) (patience : ℕ) (pipe : Pipe os stream patience)
    (helps : Cooperates os patience) (fuel : ℕ) (enough : 8 + patience < fuel) where
  serve-suc :
      (rounds : ℕ) (s s' : RuntimeSettings) (d d' : Daemon)
      → round os fuel s d ≡ ok (go_on s') d'
      → serve os fuel (suc rounds) s d ≡ serve os fuel rounds s' d'
  unfolding serve
  serve-suc rounds s s' d d' e = rw e

  -- For any list of proper requests whose bytes are next in the pipe, the loop of `StartForkServer`
  -- obeys them one by one, whatever the sizes of the chunks and the interrupted reads: it comes to
  -- go on with the settings that the requests make in their order, behind their bytes, and has
  -- sent one response for each execution and no other message.
  pub serve-requests :
      (rs : List Request) (k : ℕ) (s : RuntimeSettings) (rest : List ℕ) (d : Daemon)
      → AllProper rs
      → Ready os stream (encode_all rs ++ rest) d
      → (d' : Daemon) × (serve os fuel (length rs + k) s d ≡ serve os fuel k (foldl apply s rs) d')
        × Ready os stream rest d'
        × Responded (executions rs) d d'
  serve-requests [] k s rest d proper ready =
      let e : 0 + k ≡ k = omega arith in (d, rw e, ready, Responded-none d d refl)
  serve-requests (r ∷ rs) k s rest d proper ready =
      let (d1, e1, ready1, count1) =
        round-Obeyed os stream patience pipe helps fuel enough r s (encode_all rs ++ rest) d
          proper.0
          (record {
            pending = ready.pending ∙ append_assoc (encode r) (encode_all rs) rest;
            survives = ready.survives;
          }) in
      let (d', e, ready', count) = serve-requests rs k (apply s r) rest d1 proper.1 ready1 in
      let n : suc (length rs) + k ≡ suc (length rs + k) = omega arith in
      (
        d',
        rw n (serve-suc (length rs + k) s (apply s r) d d1 e1 ∙ e),
        ready',
        Responded-trans (responses_to r) (executions rs) _ d d1 d' (sym (executions-cons r rs))
            count1 count,
      )

  serve-end :
      (k : ℕ) (s : RuntimeSettings) (d : Daemon)
      → Ready os stream [] d
      → (d' : Daemon) × (serve os fuel (suc k) s d ≡ exited 1 d') × (sent d'.trace ≡ sent d.trace)
  unfolding serve round wait_for_api_call
  serve-end k s d ready =
      let (d', returns, a) =
        recv-next_bytes os stream patience pipe 4 fuel d ready.survives (omega arith) in
      let nothing : next_bytes stream d 4 ≡ [] = ap (take 4) ready.pending in
      (d', rw (returns, nothing), a.sent_same)

  -- When the client closes the pipe behind its requests, the server ends with status 1, and has
  -- sent one response for each execution that was asked for and no other message.
  pub serve-exited :
      (rs : List Request) (k : ℕ) (s : RuntimeSettings) (d : Daemon)
      → AllProper rs
      → Ready os stream (encode_all rs) d
      → (d' : Daemon) × (serve os fuel (length rs + suc k) s d ≡ exited 1 d')
        × Responded (executions rs) d d'
  serve-exited rs k s d proper ready =
      let (d1, e1, ready1, count) = serve-requests rs (suc k) s [] d proper (record {
        pending = ready.pending ∙ sym (append-nil (encode_all rs));
        survives = ready.survives;
      }) in
      let (d', e, same) = serve-end k (foldl apply s rs) d1 ready1 in
      (
        d',
        e1 ∙ e,
        Responded-trans (executions rs) 0 _ d d1 d' (omega arith) count (Responded-none d1 d' same),
      )
