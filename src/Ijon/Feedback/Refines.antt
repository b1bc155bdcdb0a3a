-- ===== src/Ijon/Feedback/Refines.antt =====
-- The feedback calls do what their meaning says, on every state that is mapped.
use fuzzuf_cc.Bits.Shift.{or_fields, or-one}
use mathlib.Core.Path.{ap₂}
use fuzzuf_cc.Ijon.Feedback.{
  log_state, set_lowest, increment, report_max, report_min, xor_state, push_state, map_inc, map_set,
  enable, disable, Call, call, calls, ijon_xor_state, ijon_push_state, ijon_max, ijon_min,
  ijon_map_inc, ijon_map_set, ijon_enable_feedback, ijon_disable_feedback, update_counter,
}
use fuzzuf_cc.Ijon.Feedback.View.{
  remember, mix, Shows, View, meaning, meanings, IsTyped, AllTyped, counter, maximum, at,
}
use fuzzuf_cc.Prelude.{
  bit_or, ◌-◌, ◌/◌, ◌+◌, ◌*◌, max, Bool-cases, ◌%◌, bit_xor, ℕ, ◌<◌, ◌≡◌, refl, sym, ap, ◌∙◌, arith,
  List, [], ◌∷◌, ◌^◌, ltb, inl, inr,
}
use fuzzuf_cc.Ijon.Feedback.Stores.{
  locals-IsMapped, counter-with_maximum, maximum-with_maximum, written-IsMapped,
  maximum-with_counter, counter-with_counter, with_counter, with_maximum,
}
use fuzzuf_cc.Bytes.{to_bytes, to_bytes-IsBytes}
use native.Mathlib.Nat.{mod-lt}
use fuzzuf_cc.Prelude.Effect.{Run, ok, and_then}
use fuzzuf_cc.Ijon.State.{Ijon, Runtime}
use fuzzuf_cc.Ijon.Feedback.Runs.{
  update_counter-ok, ijon_max-ok, ijon_xor_state-ok, at-chosen, winner, keeper,
}

-- The command returns in a state that shows the view.
abbrev pub Reaches : (m n : ℕ) → Run Ijon (Unit {0}) → View → Type 0
Reaches m n r v = (t : Ijon) × (r ≡ ok tt t) × Shows m n t v

Reaches-and_then :
    (m n : ℕ) (r : Run Ijon (Unit {0})) (k : Unit {0} → Runtime (Unit {0})) (v w : View)
    → Reaches m n r v
    → ((t : Ijon) → Shows m n t v → Reaches m n (k tt t) w)
    → Reaches m n (and_then r k) w
Reaches-and_then m n r k v w (t, e, h) next =
    let rest = next t h in (rest.0, ap (λ q. and_then q k) e ∙ rest.1, rest.2)

module _ (m n : ℕ) (s : Ijon) (v : View) (h : Shows m n s v) where
  count-Reaches :
      (f g : ℕ → ℕ) (addr : ℕ)
      → ((b : ℕ) → b < 256 → f b ≡ g b)
      → ((b : ℕ) → b < 256 → f b < 256)
      → Reaches m n
          (update_counter f addr s)
          (record v { counters = at g (bit_xor v.context addr % m) v.counters })
  count-Reaches f g addr same small = (
    with_counter s i (f (counter s i)),
    update_counter-ok f addr s h.mapped,
    record {
      counter_size = h.counter_size;
      maximum_size = h.maximum_size;
      mapped =
          written-IsMapped s s.counter_ptr.region (s.counter_ptr.offset + i) (f (counter s i) ∷ [])
            h.mapped (small (counter s i) byte, tt);
      context = h.context;
      history = h.history;
      counters = λ j p.
          counter-with_counter s i (f (counter s i)) j
          ∙ at-chosen f g (counter s) v.counters i _ j
              (ap₂ (λ c k. bit_xor c addr % k) h.context h.counter_size)
              (same (counter s i) byte ∙ ap g (h.counters i within)) (h.counters j p);
      maxima = λ j p. maximum-with_counter s i (f (counter s i)) j h.mapped within p ∙ h.maxima j p;
    },
  )
    where
      i : ℕ
      i = bit_xor s.state addr % s.map_size

      within : bit_xor s.state addr % s.map_size < s.map_size
      within = mod-lt (bit_xor s.state addr) h.mapped.some_counter

      byte : counter s (bit_xor s.state addr % s.map_size) < 256
      byte = h.mapped.byte_size _ _

  maximize-Reaches :
      (addr val : ℕ)
      → val < 2 ^ 64
      → Reaches m n
          (ijon_max addr val s)
          (record v { maxima = at (λ old. max old val) (addr % n) v.maxima })
  maximize-Reaches addr val small = elim (Bool-cases (ltb (maximum s i) val)) [
    | inl e ↦ (
      with_maximum s i val,
      ijon_max-ok addr val s h.mapped ∙ rw e refl,
      record {
        counter_size = h.counter_size;
        maximum_size = h.maximum_size;
        mapped =
            written-IsMapped s s.max_ptr.region (s.max_ptr.offset + 8 * i) (to_bytes 8 val) h.mapped
              (to_bytes-IsBytes 8 val);
        context = h.context;
        history = h.history;
        counters = λ j p. counter-with_maximum s i val j h.mapped within p ∙ h.counters j p;
        maxima = λ j p.
            maximum-with_maximum s i val j small
            ∙ at-chosen (λ _. val) (λ old. max old val) (maximum s) v.maxima i _ j index
                (winner (maximum s i) val _ (h.maxima i within) e) (h.maxima j p);
      },
    )
    | inr e ↦ (
      s,
      ijon_max-ok addr val s h.mapped ∙ rw e refl,
      record {
        counter_size = h.counter_size;
        maximum_size = h.maximum_size;
        mapped = h.mapped;
        context = h.context;
        history = h.history;
        counters = h.counters;
        maxima =
            λ j p. keeper (maximum s) v.maxima i _ j val index (h.maxima i within) (h.maxima j p) e;
      },
    )
  ]
    where
      i : ℕ
      i = addr % s.max_map_size

      within : addr % s.max_map_size < s.max_map_size
      within = mod-lt addr h.mapped.some_maximum

      index : addr % s.max_map_size ≡ addr % n
      index = ap (λ k. addr % k) h.maximum_size

  -- The thread's own variables are not in the mapped memory.
  locals-Shows :
      (c l k : ℕ) (w : View)
      → c ≡ w.context
      → l ≡ w.history
      → w.counters ≡ v.counters
      → w.maxima ≡ v.maxima
      → Shows m n (record s { state = c; state_log = l; mask = k }) w
  locals-Shows c l k w p q x y = record {
    counter_size = h.counter_size;
    maximum_size = h.maximum_size;
    mapped = locals-IsMapped s c l k h.mapped;
    context = p;
    history = q;
    counters = λ j b. h.counters j b ∙ sym (ap (λ f. f j) x);
    maxima = λ j b. h.maxima j b ∙ sym (ap (λ f. f j) y);
  }

  xor-Reaches : (val val' : ℕ) → val ≡ val' → Reaches m n (ijon_xor_state val s) (mix m val' v)
  xor-Reaches val val' e = (
    record s { state = bit_xor s.state val % s.map_size },
    ijon_xor_state-ok val s h.mapped,
    locals-Shows _ s.state_log s.mask (mix m val' v)
        (ap₂ (λ c k. bit_xor c val % k) h.context h.counter_size
          ∙ ap (λ x. bit_xor v.context x % m) e)
        h.history refl refl,
  )

  log-Reaches : (x : ℕ) → Reaches m n (log_state x s) (remember x v)
  log-Reaches x = (
    record s { state_log = bit_or (s.state_log * 2 ^ 8 % 2 ^ 32) (x % 256) },
    refl,
    locals-Shows s.state _ s.mask (remember x v) h.context
        (window s.state_log ∙ ap (λ l. l % 2 ^ 24 * 256 + x % 256) h.history) refl refl,
  )
    where
      window : (l : ℕ) → bit_or (l * 2 ^ 8 % 2 ^ 32) (x % 256) ≡ l % 2 ^ 24 * 256 + x % 256
      window l =
          ap (λ t. bit_or t (x % 256)) (omega arith)
          ∙ or_fields 8 (l % 2 ^ 24) (x % 256) (omega arith)

module _ (m n : ℕ) where
  push-Reaches :
      (x : ℕ) (s : Ijon) (v : View)
      → Shows m n s v
      → Reaches m n (ijon_push_state x s) (meaning m n (push_state x) v)
  unfolding ijon_push_state
  push-Reaches x s v h =
      Reaches-and_then m n _ _ _ _
        (Reaches-and_then m n _ _ _ _ (xor-Reaches m n s v h s.state_log v.history h.history)
          (λ t g. log-Reaches m n t _ g x))
        (λ t g. xor-Reaches m n t _ g t.state_log _ g.history)

  call-Reaches :
      (c : Call) (s : Ijon) (v : View)
      → Shows m n s v
      → IsTyped c
      → Reaches m n (call c s) (meaning m n c v)
  unfolding ijon_min ijon_map_inc ijon_map_set ijon_enable_feedback ijon_disable_feedback
  call-Reaches (xor_state val) s v h typed = xor-Reaches m n s v h val val refl
  call-Reaches (push_state x) s v h typed = push-Reaches x s v h
  call-Reaches (report_max addr val) s v h typed = maximize-Reaches m n s v h addr val typed.1
  call-Reaches (report_min addr val) s v h typed =
      maximize-Reaches m n s v h addr (0xffff_ffff_ffff_ffff - val) (omega arith)
  call-Reaches (map_inc addr) s v h typed =
      count-Reaches m n s v h increment increment addr (λ b p. refl) (λ b p. omega arith)
  call-Reaches (map_set addr) s v h typed =
      count-Reaches m n s v h set_lowest (λ b. b / 2 * 2 + 1) addr (λ b p. or-one b)
        (λ b p. omega (arith, or-one b))
  call-Reaches enable s v h typed = (
    record s { mask = 0xffff_ffff },
    refl,
    locals-Shows m n s v h _ _ _ v h.context h.history refl refl,
  )
  call-Reaches disable s v h typed =
      (record s { mask = 0 }, refl, locals-Shows m n s v h _ _ _ v h.context h.history refl refl)

-- In a mapped memory of `m` counters and `n` maxima that shows a view, any list of calls of the
-- feedback functions returns, without a division by 0 or an access outside a region, and the
-- memory after it is mapped in the same way and shows what the calls mean for the view: a maximum
-- is the largest of its old value and the values reported to its slot (a minimum counts by its
-- complement), a counter counts modulo 256, and no other counter or maximum changes.
pub calls-meanings :
    (m n : ℕ) (cs : List Call) (s : Ijon) (v : View)
    → Shows m n s v
    → AllTyped cs
    → Reaches m n (calls cs s) (meanings m n cs v)
calls-meanings m n [] s v h typed = (s, refl, h)
calls-meanings m n (c ∷ cs) s v h typed =
    Reaches-and_then m n _ _ _ _ (call-Reaches m n c s v h typed.0)
      (λ t g. calls-meanings m n cs t _ g typed.1)
