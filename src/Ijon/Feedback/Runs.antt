-- ===== src/Ijon/Feedback/Runs.antt =====
-- What the feedback functions return on a mapped state, and how a list of slots changes.
use fuzzuf_cc.Prelude.{
  true, max, ◌==◌, false, Bool-cases, ◌%◌, if◌then◌else◌, bit_xor, ℕ, ◌<◌, ◌≡◌, refl, sym, ◌∙◌,
  arith, ◌^◌, ltb, inl, inr,
}
use native.Mathlib.Nat.{mod-lt, mod-eq_of_lt}
use fuzzuf_cc.Ijon.Memory.{load8-ok, store8-ok, load64-ok, store64-ok}
use fuzzuf_cc.Prelude.Effect.{ok}
use fuzzuf_cc.Ijon.State.{Ijon}
use fuzzuf_cc.Ijon.Feedback.{ijon_xor_state, ijon_max, update_counter, remainder}
use fuzzuf_cc.Ijon.Feedback.View.{IsMapped, counter, maximum, at}
use fuzzuf_cc.Ijon.Feedback.Stores.{with_counter, with_maximum}

remainder-ok : (a n : ℕ) (s : Ijon) → 0 < n → remainder a n s ≡ ok (a % n) s
remainder-ok a n s h = rw (nonzero n h) refl
  where
    nonzero : (n : ℕ) → 0 < n → (n == 0) ≡ false
    nonzero n h = ground arith

pub update_counter-ok :
    (f : ℕ → ℕ) (addr : ℕ) (s : Ijon)
    → IsMapped s
    → let i = bit_xor s.state addr % s.map_size in
      update_counter f addr s ≡ ok tt (with_counter s i (f (counter s i)))
update_counter-ok f addr s m =
    rw
      (
        remainder-ok (bit_xor s.state addr) s.map_size s m.some_counter,
        load8-ok s.counter_ptr (bit_xor s.state addr % s.map_size) s
            (omega (arith, mod-lt (bit_xor s.state addr) m.some_counter)),
        store8-ok s.counter_ptr (bit_xor s.state addr % s.map_size)
            (f (counter s (bit_xor s.state addr % s.map_size))) s
            (omega (arith, mod-lt (bit_xor s.state addr) m.some_counter)),
      )
      refl

pub ijon_max-ok :
    (addr val : ℕ) (s : Ijon)
    → IsMapped s
    → let i = addr % s.max_map_size in
      ijon_max addr val s ≡ ok tt (if ltb (maximum s i) val then with_maximum s i val else s)
unfolding ijon_max
ijon_max-ok addr val s m =
    rw
      (
        remainder-ok addr s.max_map_size s m.some_maximum,
        load64-ok s.max_ptr (addr % s.max_map_size) s (omega (arith, mod-lt addr m.some_maximum)),
      )
      (elim (Bool-cases (ltb (maximum s (addr % s.max_map_size)) val)) [
        | inl e ↦
            rw
              (
                e,
                store64-ok s.max_ptr (addr % s.max_map_size) val s
                    (omega (arith, mod-lt addr m.some_maximum)),
              )
              refl
        | inr e ↦ rw e refl
      ])

pub ijon_xor_state-ok :
    (val : ℕ) (s : Ijon)
    → IsMapped s
    → ijon_xor_state val s ≡ ok tt (record s { state = bit_xor s.state val % s.map_size })
unfolding ijon_xor_state
ijon_xor_state-ok val s m =
    rw
      (
        remainder-ok (bit_xor s.state val) s.map_size s m.some_counter,
        mod-eq_of_lt (word (bit_xor s.state val)),
      )
      refl
  where
    word : (x : ℕ) → x % s.map_size < 2 ^ 32
    word x = omega (arith, mod-lt x m.some_counter)

pub at-chosen :
    (f g c d : ℕ → ℕ) (i i' j : ℕ)
    → i ≡ i'
    → f (c i) ≡ g (d i)
    → c j ≡ d j
    → (if j == i then f (c i) else c j) ≡ at g i' d j
at-chosen f g c d i i' j e there other = elim (Bool-cases (j == i)) [
  | inl q ↦ let same : j ≡ i = ground arith in rw (sym e, q, same) there
  | inr q ↦ rw (sym e, q) other
]

pub winner : (a b c : ℕ) → a ≡ c → ltb a b ≡ true → b ≡ max c b
winner a b c e q = ground arith

pub keeper :
    (c d : ℕ → ℕ) (i i' j val : ℕ)
    → i ≡ i'
    → c i ≡ d i
    → c j ≡ d j
    → ltb (c i) val ≡ false
    → c j ≡ at (λ old. max old val) i' d j
keeper c d i i' j val e there other q = elim (Bool-cases (j == i)) [
  | inl r ↦
      let same : j ≡ i = ground arith in rw (sym e, r, same) (there ∙ larger (c i) (d i) there q)
  | inr r ↦ rw (sym e, r) other
]
  where
    larger : (a b : ℕ) → a ≡ b → ltb a val ≡ false → b ≡ max b val
    larger a b e p = ground arith
