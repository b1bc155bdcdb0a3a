-- ===== src/Ijon/Shm/Alone.antt =====
-- The start on a segment with too little room for a maximum.
use fuzzuf_cc.Prelude.{ℕ, ◌+◌, ◌/◌, ◌<◌, ◌≤◌, ◌^◌, ◌≡◌, refl, arith, List}
use fuzzuf_cc.Prelude.Effect.{ok, fault}
use fuzzuf_cc.Ijon.State.{Ijon, initial}
use fuzzuf_cc.Ijon.Feedback.{ijon_max}
use fuzzuf_cc.Ijon.Shm.{Platform, Segment, ijon_auto_init}
use fuzzuf_cc.Ijon.Shm.Layout.{Conforms, Requests, laid_out, ijon_auto_init-started}

-- When the fuzzer asks for 1 to 7 bytes of maxima, the program starts with no maxima, and the first
-- call of `ijon_max` divides by 0.
pub ijon_auto_init-no_maxima :
    (platform : Platform) (decimal : ℕ → List ℕ) (id a c m addr val : ℕ) (segment : Segment)
    → Conforms platform decimal
    → Requests platform decimal id a c m segment
    → id < 2 ^ 32
    → 0 < a
    → 0 < c
    → 0 < m
    → m < 8
    → a + c + m ≤ segment.size
    → segment.size < 2 ^ 32
    → (t : Ijon) × (ijon_auto_init platform initial ≡ ok tt t) × (ijon_max addr val t ≡ fault t)
unfolding ijon_max
ijon_auto_init-no_maxima platform decimal id a c m addr val segment conforms r p0 p1 p2 p3 few room
      small =
    (
      laid_out a c m segment,
      ijon_auto_init-started platform decimal id a c m segment conforms r p0 p1 p2 p3 room small,
      rw (none_left m few) refl,
    )
  where
    none_left : (m : ℕ) → m < 8 → m / 8 ≡ 0
    none_left m few = omega arith
