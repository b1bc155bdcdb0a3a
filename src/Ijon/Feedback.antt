-- ===== src/Ijon/Feedback.antt =====
-- The feedback calls of features/ijon/ijon-llvm-rt.o.c: the state, the maxima and the counters.
use fuzzuf_cc.Prelude.{
  ℕ, ◌+◌, ◌-◌, ◌*◌, ◌%◌, ◌^◌, List, [], ◌∷◌, ltb, ◌==◌, if◌then◌else◌, bit_xor, bit_or,
}
use fuzzuf_cc.Prelude.Effect.{ok, fault, pure, get, ◌>>=◌, ◌>>◌}
use fuzzuf_cc.Ijon.State.{Ijon, Runtime}
use fuzzuf_cc.Ijon.Memory.{load8, store8, load64, store64}
pub mod View
pub mod Stores
pub mod Runs
pub mod Refines
pub mod Context

-- `a % n`, which C leaves undefined for 0.
abbrev pub remainder : ℕ → ℕ → Runtime ℕ
remainder a n s = if n == 0 then fault s else ok (a % n) s

unfoldable pub ijon_xor_state : ℕ → Runtime (Unit {0})
ijon_xor_state val = get >>= λ s.
    remainder (bit_xor s.state val) s.map_size >>= λ r t. ok tt (record t { state = r % 2 ^ 32 })

abbrev pub log_state : ℕ → Runtime (Unit {0})
log_state x s = ok tt (record s { state_log = bit_or (s.state_log * 2 ^ 8 % 2 ^ 32) (x % 256) })

unfoldable pub ijon_push_state : ℕ → Runtime (Unit {0})
ijon_push_state x =
    (get >>= λ s. ijon_xor_state s.state_log)
    >> log_state x
    >> (get >>= λ s. ijon_xor_state s.state_log)

unfoldable pub ijon_max : (addr val : ℕ) → Runtime (Unit {0})
ijon_max addr val = get >>= λ s. remainder addr s.max_map_size >>= λ i.
    load64 s.max_ptr i >>= λ old. if ltb old val then store64 s.max_ptr i val else pure tt

-- The subtraction is of two `uint64_t`, so it does not wrap.
unfoldable pub ijon_min : (addr val : ℕ) → Runtime (Unit {0})
ijon_min addr val = ijon_max addr (0xffff_ffff_ffff_ffff - val)

-- `__ijon_counter_ptr[(__ijon_state ^ addr) % map_size]` updated.
abbrev pub update_counter : (ℕ → ℕ) → ℕ → Runtime (Unit {0})
update_counter f addr = get >>= λ s. remainder (bit_xor s.state addr) s.map_size >>= λ i.
    load8 s.counter_ptr i >>= λ old. store8 s.counter_ptr i (f old)

abbrev pub increment : ℕ → ℕ
increment old = (old + 1) % 256

abbrev pub set_lowest : ℕ → ℕ
set_lowest old = bit_or old 1

unfoldable pub ijon_map_inc : ℕ → Runtime (Unit {0})
ijon_map_inc addr = update_counter increment addr

unfoldable pub ijon_map_set : ℕ → Runtime (Unit {0})
ijon_map_set addr = update_counter set_lowest addr

unfoldable pub ijon_enable_feedback : Runtime (Unit {0})
ijon_enable_feedback s = ok tt (record s { mask = 0xffff_ffff })

unfoldable pub ijon_disable_feedback : Runtime (Unit {0})
ijon_disable_feedback s = ok tt (record s { mask = 0 })

-- The calls that an annotated program makes, with their arguments.
pub data Call : Type 0 where
  xor_state : ℕ → Call
  push_state : ℕ → Call
  report_max : ℕ → ℕ → Call
  report_min : ℕ → ℕ → Call
  map_inc : ℕ → Call
  map_set : ℕ → Call
  enable disable : Call

abbrev pub call : Call → Runtime (Unit {0})
call (xor_state val) = ijon_xor_state val
call (push_state x) = ijon_push_state x
call (report_max addr val) = ijon_max addr val
call (report_min addr val) = ijon_min addr val
call (map_inc addr) = ijon_map_inc addr
call (map_set addr) = ijon_map_set addr
call enable = ijon_enable_feedback
call disable = ijon_disable_feedback

abbrev pub calls : List Call → Runtime (Unit {0})
calls [] = pure tt
calls (c ∷ cs) = call c >> calls cs
