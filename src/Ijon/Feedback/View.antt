-- ===== src/Ijon/Feedback/View.antt =====
-- What the feedback calls mean: counters and maxima as functions of their index.
use fuzzuf_cc.Prelude.{
  ◌/◌, ℕ, ◌+◌, ◌-◌, ◌*◌, ◌%◌, ◌^◌, ◌≤◌, ◌<◌, ◌≡◌, ◌≢◌, ◌⊎◌, List, [], ◌∷◌, max, bit_xor, ◌==◌,
  if◌then◌else◌,
}
use fuzzuf_cc.Bytes.{from_bytes}
use fuzzuf_cc.Ijon.State.{Ijon, Region, extent}
use fuzzuf_cc.Ijon.Memory.{read_bytes}
use fuzzuf_cc.Ijon.Feedback.{
  Call, xor_state, push_state, report_max, report_min, map_inc, map_set, enable, disable,
}

-- The counters and the maxima are inside their regions and apart, and all values fit their types.
pub record IsMapped (s : Ijon) : Type 0 where
  pub some_counter : 0 < s.map_size
  pub word_counter : s.map_size ≤ 2 ^ 32
  pub some_maximum : 0 < s.max_map_size
  pub counters_inside : s.counter_ptr.offset + s.map_size ≤ extent s.shm_size s.counter_ptr.region
  pub maxima_inside : s.max_ptr.offset + 8 * s.max_map_size ≤ extent s.shm_size s.max_ptr.region
  pub apart :
      (s.counter_ptr.region ≢ s.max_ptr.region)
      ⊎ ((s.counter_ptr.offset + s.map_size ≤ s.max_ptr.offset)
          ⊎ (s.max_ptr.offset + 8 * s.max_map_size ≤ s.counter_ptr.offset))
  pub byte_size : (r : Region) (j : ℕ) → s.memory r j < 256

abbrev pub counter : Ijon → ℕ → ℕ
counter s i = s.memory s.counter_ptr.region (s.counter_ptr.offset + i)

abbrev pub maximum : Ijon → ℕ → ℕ
maximum s i = from_bytes (read_bytes 8 (s.max_ptr.offset + 8 * i) (s.memory s.max_ptr.region))

pub record View : Type 0 where
  pub context : ℕ
  pub history : ℕ
  pub counters : ℕ → ℕ
  pub maxima : ℕ → ℕ

abbrev pub at : (ℕ → ℕ) → ℕ → (ℕ → ℕ) → ℕ → ℕ
at f i g j = if j == i then f (g j) else g j

-- With `m` counters.
abbrev pub mix : (m : ℕ) → ℕ → View → View
mix m val v = record v { context = bit_xor v.context val % m }

-- The last four values are the bytes of the history, the latest one the lowest.
abbrev pub remember : ℕ → View → View
remember x v = record v { history = v.history % 2 ^ 24 * 256 + x % 256 }

module _ (m n : ℕ) where
  -- One call, with `m` counters and `n` maxima.
  abbrev pub meaning : Call → View → View
  meaning (xor_state val) v = mix m val v
  meaning (push_state x) v = let w = remember x (mix m v.history v) in mix m w.history w
  meaning (report_max addr val) v = record v {
    maxima = at (λ old. max old val) (addr % n) v.maxima;
  }
  meaning (report_min addr val) v = record v {
    maxima = at (λ old. max old (2 ^ 64 - 1 - val)) (addr % n) v.maxima;
  }
  meaning (map_inc addr) v = record v {
    counters = at (λ old. (old + 1) % 256) (bit_xor v.context addr % m) v.counters;
  }
  meaning (map_set addr) v = record v {
    counters = at (λ old. old / 2 * 2 + 1) (bit_xor v.context addr % m) v.counters;
  }
  meaning enable v = v
  meaning disable v = v

  abbrev pub meanings : List Call → View → View
  meanings [] v = v
  meanings (c ∷ cs) v = meanings cs (meaning c v)

-- The memory shows a view, of `m` counters and `n` maxima.
pub record Shows (m n : ℕ) (s : Ijon) (v : View) : Type 0 where
  pub counter_size : s.map_size ≡ m
  pub maximum_size : s.max_map_size ≡ n
  pub mapped : IsMapped s
  pub context : s.state ≡ v.context
  pub history : s.state_log ≡ v.history
  pub counters : (i : ℕ) → i < s.map_size → counter s i ≡ v.counters i
  pub maxima : (i : ℕ) → i < s.max_map_size → maximum s i ≡ v.maxima i

-- The arguments of a call fit their types.
abbrev pub IsTyped : Call → Type 0
IsTyped (xor_state val) = val < 2 ^ 32
IsTyped (push_state x) = x < 2 ^ 32
IsTyped (report_max addr val) = (addr < 2 ^ 32) × (val < 2 ^ 64)
IsTyped (report_min addr val) = (addr < 2 ^ 32) × (val < 2 ^ 64)
IsTyped (map_inc addr) = addr < 2 ^ 32
IsTyped (map_set addr) = addr < 2 ^ 32
IsTyped enable = Unit
IsTyped disable = Unit

abbrev pub AllTyped : List Call → Type 0
AllTyped [] = Unit
AllTyped (c ∷ cs) = IsTyped c × AllTyped cs
