-- ===== src/Ijon/Feedback/Stores.antt =====
-- A store changes what it is made to and nothing else.
use fuzzuf_cc.Prelude.{
  List, ℕ, ◌+◌, ◌*◌, ◌<◌, ◌≤◌, ◌≡◌, ◌⊎◌, inl, inr, sym, ap, ◌∙◌, arith, ◌∷◌, [], false, Bool-cases,
  ◌^◌, ◌==◌, if◌then◌else◌,
}
use fuzzuf_cc.Bytes.{IsBytes, from_bytes, to_bytes, from_bytes-to_bytes}
use fuzzuf_cc.Ijon.State.{Ijon, Region}
use fuzzuf_cc.Ijon.Memory.{
  read-write_outside, read-write, read_bytes, write_region-there, write_region-lt,
  write_region-elsewhere, read-ext, write_bytes, write_region,
}
use fuzzuf_cc.Ijon.Feedback.View.{IsMapped, counter, maximum}

-- The state after `bs` are written at `o` of region `r`.
abbrev pub written : Ijon → Region → ℕ → List ℕ → Ijon
written s r o bs = record s { memory = write_region s.memory r o bs }

pub written-IsMapped :
    (s : Ijon) (r : Region) (o : ℕ) (bs : List ℕ)
    → IsMapped s
    → IsBytes bs
    → IsMapped (written s r o bs)
written-IsMapped s r o bs m small = record {
  some_counter = m.some_counter;
  word_counter = m.word_counter;
  some_maximum = m.some_maximum;
  counters_inside = m.counters_inside;
  maxima_inside = m.maxima_inside;
  apart = m.apart;
  byte_size = λ r' j. write_region-lt s.memory r r' o bs j m.byte_size small;
}

-- The thread's own variables are not in the mapped memory.
pub locals-IsMapped :
    (s : Ijon) (c l k : ℕ) → IsMapped s → IsMapped (record s { state = c; state_log = l; mask = k })
locals-IsMapped s c l k m = record {
  some_counter = m.some_counter;
  word_counter = m.word_counter;
  some_maximum = m.some_maximum;
  counters_inside = m.counters_inside;
  maxima_inside = m.maxima_inside;
  apart = m.apart;
  byte_size = m.byte_size;
}

-- `__ijon_counter_ptr[i] = v`
abbrev pub with_counter : Ijon → (i v : ℕ) → Ijon
with_counter s i v = written s s.counter_ptr.region (s.counter_ptr.offset + i) (v ∷ [])

-- `__ijon_max_ptr[i] = v`
abbrev pub with_maximum : Ijon → (i v : ℕ) → Ijon
with_maximum s i v = written s s.max_ptr.region (s.max_ptr.offset + 8 * i) (to_bytes 8 v)

single :
    (f : ℕ → ℕ) (o i v j : ℕ)
    → write_bytes f (o + i) (v ∷ []) (o + j) ≡ (if j == i then v else f (o + j))
single f o i v j = ground arith

-- Eight bytes at one index, read back at another.
eight :
    (f : ℕ → ℕ) (o i v j : ℕ)
    → v < 2 ^ 64
    → from_bytes (read_bytes 8 (o + 8 * j) (write_bytes f (o + 8 * i) (to_bytes 8 v)))
      ≡ (if j == i then v else from_bytes (read_bytes 8 (o + 8 * j) f))
eight f o i v j small = elim (Bool-cases (j == i)) [
  | inl e ↦
      let same : j ≡ i = ground arith in
      rw (e, same)
        (ap from_bytes (read-write f (o + 8 * i) (to_bytes 8 v)) ∙ from_bytes-to_bytes 8 v small)
  | inr e ↦ rw e (
      ap from_bytes
        (read-write_outside f 8 (o + 8 * i) (o + 8 * j) (to_bytes 8 v) (separate i j e)))
]
  where
    separate :
        (i j : ℕ) → (j == i) ≡ false → (o + 8 * j + 8 ≤ o + 8 * i) ⊎ (o + 8 * i + 8 ≤ o + 8 * j)
    separate i j e = ground arith

pub counter-with_counter :
    (s : Ijon) (i v j : ℕ) → counter (with_counter s i v) j ≡ (if j == i then v else counter s j)
counter-with_counter s i v j =
    write_region-there s.memory s.counter_ptr.region (s.counter_ptr.offset + i) (v ∷ [])
      (s.counter_ptr.offset + j)
    ∙ single (s.memory s.counter_ptr.region) s.counter_ptr.offset i v j

pub maximum-with_counter :
    (s : Ijon) (i v j : ℕ)
    → IsMapped s
    → i < s.map_size
    → j < s.max_map_size
    → maximum (with_counter s i v) j ≡ maximum s j
maximum-with_counter s i v j m p q = ap from_bytes (
    read-ext 8 (s.max_ptr.offset + 8 * j) _ _ (λ k a b.
      write_region-elsewhere s.memory s.counter_ptr.region s.max_ptr.region
        (s.counter_ptr.offset + i) (v ∷ []) k
        (elim m.apart [
          | inl other ↦ inl other
          | inr (inl before) ↦ inr (inr (omega arith))
          | inr (inr behind) ↦ inr (inl (omega arith))
        ])))

pub counter-with_maximum :
    (s : Ijon) (i v j : ℕ)
    → IsMapped s
    → i < s.max_map_size
    → j < s.map_size
    → counter (with_maximum s i v) j ≡ counter s j
counter-with_maximum s i v j m p q =
    write_region-elsewhere s.memory s.max_ptr.region s.counter_ptr.region _ (to_bytes 8 v) _
      (elim m.apart [
        | inl other ↦ inl (λ e. other (sym e))
        | inr (inl before) ↦ inr (inl (omega arith))
        | inr (inr behind) ↦ inr (inr (omega arith))
      ])

pub maximum-with_maximum :
    (s : Ijon) (i v j : ℕ)
    → v < 2 ^ 64
    → maximum (with_maximum s i v) j ≡ (if j == i then v else maximum s j)
maximum-with_maximum s i v j small =
    ap from_bytes (
      read-ext 8 (s.max_ptr.offset + 8 * j) _ _ (λ k a b.
        write_region-there s.memory s.max_ptr.region (s.max_ptr.offset + 8 * i) (to_bytes 8 v) k))
    ∙ eight (s.memory s.max_ptr.region) s.max_ptr.offset i v j small
