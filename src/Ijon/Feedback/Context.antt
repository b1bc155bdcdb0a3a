-- ===== src/Ijon/Feedback/Context.antt =====
-- What IJON_CTX and IJON_MAX rely on.
use fuzzuf_cc.Prelude.{
  ℕ, ◌%◌, ◌^◌, ◌<◌, ◌≡◌, ◌-◌, refl, sym, ap, ◌∙◌, arith, List, [], ◌∷◌, max, bit_xor, ◌==◌,
  if◌then◌else◌, inl, inr, Bool-cases, true, false,
}
use mathlib.Core.Path.{subst, ap₂}
use fuzzuf_cc.Prelude.Effect.{ok, ◌>>◌, and_then-ok}
use fuzzuf_cc.Bits.Xor.{xor_cancel, xor-mod}
use native.Mathlib.Nat.{mod-eq_of_lt, mod-mod}
use fuzzuf_cc.Ijon.State.{Ijon}
use fuzzuf_cc.Ijon.Feedback.{
  Call, xor_state, push_state, report_max, report_min, map_inc, map_set, enable, disable, calls,
  ijon_xor_state,
}
use fuzzuf_cc.Ijon.Feedback.View.{IsMapped, Shows, View, meanings, AllTyped, counter, maximum}
use fuzzuf_cc.Ijon.Feedback.Stores.{locals-IsMapped}
use fuzzuf_cc.Ijon.Feedback.Refines.{calls-meanings}
use fuzzuf_cc.Ijon.Feedback.Runs.{ijon_xor_state-ok}

restored : (k a b : ℕ) → a < 2 ^ k → bit_xor (bit_xor a b % 2 ^ k) b % 2 ^ k ≡ a
restored k a b h =
    xor-mod k (bit_xor a b % 2 ^ k) b
    ∙ ap (λ t. bit_xor t (b % 2 ^ k)) (mod-mod (bit_xor a b) (2 ^ k) ∙ xor-mod k a b)
    ∙ xor_cancel (a % 2 ^ k) (b % 2 ^ k)
    ∙ mod-eq_of_lt h

-- With 2 ^ k counters and a state below 2 ^ k, entering a context and leaving it by the same hash
-- gives the run time's state back, all of it.
pub ijon_xor_state-restores :
    (k val : ℕ) (s : Ijon)
    → IsMapped s
    → s.map_size ≡ 2 ^ k
    → s.state < 2 ^ k
    → (ijon_xor_state val >> ijon_xor_state val) s ≡ ok tt s
ijon_xor_state-restores k val s m size small = and_then-ok _ _ _ _ _ (ijon_xor_state-ok val s m) (
    ijon_xor_state-ok val _ (locals-IsMapped s _ s.state_log s.mask m)
    ∙ ap (λ c. ok tt (record s { state = c }))
        (ap₂ (λ p q. bit_xor (bit_xor s.state val % p) val % q) size size
          ∙ restored k s.state val small))

module _ (n i : ℕ) where
  -- The values that the calls report to slot `i` of `n`.
  abbrev pub reported : List Call → List ℕ
  reported [] = []
  reported (report_max addr val ∷ cs) =
      let rest = reported cs in if addr % n == i then val ∷ rest else rest
  reported (report_min addr val ∷ cs) =
      let rest = reported cs in if addr % n == i then (2 ^ 64 - 1 - val) ∷ rest else rest
  reported (_ ∷ cs) = reported cs

abbrev pub largest : ℕ → List ℕ → ℕ
largest best [] = best
largest best (v ∷ vs) = largest (max best v) vs

largest-slot :
    (i j val : ℕ) (g : ℕ → ℕ) (vs : List ℕ)
    → largest (if i == j then max (g i) val else g i) vs
      ≡ largest (g i) (if j == i then val ∷ vs else vs)
largest-slot i j val g vs = elim (Bool-cases (i == j)) [
  | inl e ↦ rw (e, turned_true i j e) refl
  | inr e ↦ rw (e, turned_false i j e) refl
]
  where
    turned_true : (i j : ℕ) → (i == j) ≡ true → (j == i) ≡ true
    turned_true i j e = ground arith

    turned_false : (i j : ℕ) → (i == j) ≡ false → (j == i) ≡ false
    turned_false i j e = ground arith

meanings-largest :
    (m n i : ℕ) (cs : List Call) (v : View)
    → (meanings m n cs v).maxima i ≡ largest (v.maxima i) (reported n i cs)
meanings-largest m n i [] v = refl
meanings-largest m n i (xor_state val ∷ cs) v = meanings-largest m n i cs _
meanings-largest m n i (push_state x ∷ cs) v = meanings-largest m n i cs _
meanings-largest m n i (report_max addr val ∷ cs) v =
    meanings-largest m n i cs _ ∙ largest-slot i (addr % n) val v.maxima (reported n i cs)
meanings-largest m n i (report_min addr val ∷ cs) v =
    meanings-largest m n i cs _
    ∙ largest-slot i (addr % n) (2 ^ 64 - 1 - val) v.maxima (reported n i cs)
meanings-largest m n i (map_inc addr ∷ cs) v = meanings-largest m n i cs _
meanings-largest m n i (map_set addr ∷ cs) v = meanings-largest m n i cs _
meanings-largest m n i (enable ∷ cs) v = meanings-largest m n i cs v
meanings-largest m n i (disable ∷ cs) v = meanings-largest m n i cs v

-- On a mapped memory any list of feedback calls returns, and a maximum is then the largest of its
-- old value, the values reported to its slot by `ijon_max` and the complements to 2 ^ 64 - 1 of
-- those reported by `ijon_min`, whatever the other calls are.
pub calls-largest :
    (cs : List Call) (s : Ijon) (i : ℕ)
    → IsMapped s
    → AllTyped cs
    → i < s.max_map_size
    → (t : Ijon) × (calls cs s ≡ ok tt t)
      × (maximum t i ≡ largest (maximum s i) (reported s.max_map_size i cs))
calls-largest cs s i m typed p =
    let run = calls-meanings s.map_size s.max_map_size cs s start shown typed in
    (
      run.0,
      run.1,
      run.2.maxima i (subst (λ n. i < n) (sym run.2.maximum_size) p)
          ∙ meanings-largest s.map_size s.max_map_size i cs start,
    )
  where
    start : View
    start = record {
      context = s.state;
      history = s.state_log;
      counters = counter s;
      maxima = maximum s;
    }

    shown : Shows s.map_size s.max_map_size s start
    shown = record {
      counter_size = refl;
      maximum_size = refl;
      mapped = m;
      context = refl;
      history = refl;
      counters = λ i p. refl;
      maxima = λ i p. refl;
    }
