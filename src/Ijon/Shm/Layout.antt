-- ===== src/Ijon/Shm/Layout.antt =====
-- Where the parts of the run time's memory are in the segment.
use fuzzuf_cc.Prelude.{
  ℕ, ◌+◌, ◌/◌, ◌^◌, ◌<◌, ◌≤◌, ◌≡◌, refl, ap, ◌∙◌, arith, List, some, min, length, ◌==◌, inl, inr,
  true, false, Option, [], ◌∷◌,
}
use native.Mathlib.Nat.{mod-eq_of_lt}
use fuzzuf_cc.Ijon.Memory.{write_region-lt, write_region, store8-ok}
use fuzzuf_cc.Ijon.Shm.{
  map_segment, attach_segment, Platform, Segment, afl_shm_id, afl_size, ijon_counter_size,
  ijon_max_size, parse_u32, attach, place, ijon_map_shm, ijon_manual_init, ijon_auto_init,
}
use fuzzuf_cc.Prelude.Effect.{ok, and_then-ok}
use fuzzuf_cc.Ijon.State.{Ijon, Ptr, Region, area_initial, max_initial, shm, initial}
use fuzzuf_cc.Ijon.Feedback.View.{IsMapped}

-- What the C library documents: `strnlen` stops at its bound, and `strtol` reads a decimal numeral
-- of at most ten digits to its end.
pub record Conforms (platform : Platform) (decimal : ℕ → List ℕ) : Type 0 where
  pub bounded : (str : List ℕ) → platform.strnlen str 10 ≡ min (length str) 10
  pub ten_digits : (n : ℕ) → n < 2 ^ 32 → length (decimal n) ≤ 10
  pub reads :
      (n : ℕ)
      → n < 2 ^ 32
      → platform.strtol (decimal n) ≡ record { value = n; consumed = length (decimal n) }

-- The fuzzer asks for `a` bytes of coverage, `c` counters and `m` bytes of maxima in a segment.
pub record Requests (platform : Platform) (decimal : ℕ → List ℕ) (id a c m : ℕ) (segment : Segment)
    : Type 0 where
  pub shm_id : platform.getenv afl_shm_id ≡ some (decimal id)
  pub area_size : platform.getenv afl_size ≡ some (decimal a)
  pub counter_size : platform.getenv ijon_counter_size ≡ some (decimal c)
  pub max_size : platform.getenv ijon_max_size ≡ some (decimal m)
  pub segment_of : platform.shmat id ≡ some segment
  pub byte_size : (j : ℕ) → segment.bytes j < 256

module _ (platform : Platform) (decimal : ℕ → List ℕ) (conforms : Conforms platform decimal) where
  parse_u32-decimal : (n : ℕ) (s : Ijon) → n < 2 ^ 32 → parse_u32 platform (decimal n) s ≡ ok n s
  parse_u32-decimal n s h =
      rw (conforms.reads n h, conforms.bounded (decimal n), whole _ (conforms.ten_digits n h))
        (ap (λ k. ok k s) (mod-eq_of_lt h))
    where
      whole : (l : ℕ) → l ≤ 10 → (l == min l 10) ≡ true
      whole l h = ground arith

  place-decimal :
      (v : Option (List ℕ)) (n o : ℕ) (store : Ptr → ℕ → Ijon → Ijon) (cur : Ptr) (s : Ijon)
      → v ≡ some (decimal n)
      → 0 < n
      → n < 2 ^ 32
      → cur.offset + n ≡ o
      → place platform v store cur s ≡ ok (record cur { offset = o }) (store cur n s)
  place-decimal v n o store cur s e p q end =
      ap (λ w. place platform w store cur s) e
      ∙ and_then-ok _ _ n s _ (parse_u32-decimal n s q) (rw (nonzero n p, end) refl)
    where
      nonzero : (k : ℕ) → 0 < k → (k == 0) ≡ false
      nonzero k h = ground arith

abbrev pub part : ℕ → Ptr
part o = record { region = shm; offset = o }

module _ (a c m : ℕ) (segment : Segment) where
  abbrev attached : Ijon
  attached = record initial {
    memory = λ r. elim r [ shm ↦ segment.bytes | other ↦ initial.memory other ];
    shm_size = segment.size;
  }

  -- The run time when the three parts follow each other from the start of the segment.
  abbrev pub laid_out : Ijon
  laid_out = record attached {
    memory = write_region attached.memory shm 0 (1 ∷ []);
    area_ptr = part 0;
    afl_size = a;
    counter_ptr = part a;
    map_size = c;
    max_ptr = part (a + c);
    max_map_size = m / 8;
    init_done = true;
  }

attach-ok :
    (platform : Platform) (id a c m : ℕ) (segment : Segment)
    → platform.shmat id ≡ some segment
    → attach platform id initial ≡ ok (part 0) (attached a c m segment)
attach-ok platform id a c m segment e = ap (λ v. attach_segment platform v initial) e

attached-lt :
    (a c m : ℕ) (segment : Segment)
    → ((j : ℕ) → segment.bytes j < 256)
    → (r : Region) (j : ℕ) → (attached a c m segment).memory r j < 256
attached-lt a c m segment bytes area_initial j = omega arith
attached-lt a c m segment bytes max_initial j = omega arith
attached-lt a c m segment bytes shm j = bytes j

ijon_map_shm-laid_out :
    (platform : Platform) (decimal : ℕ → List ℕ) (id a c m : ℕ) (segment : Segment)
    → Conforms platform decimal
    → Requests platform decimal id a c m segment
    → id < 2 ^ 32
    → 0 < a
    → 0 < c
    → 0 < m
    → a + c + m ≤ segment.size
    → segment.size < 2 ^ 32
    → ijon_map_shm platform initial ≡ ok tt (record (laid_out a c m segment) { init_done = false })
unfolding ijon_map_shm
ijon_map_shm-laid_out platform decimal id a c m segment conforms r p0 p1 p2 p3 room small =
    ap (λ v. map_segment platform v initial) r.shm_id
    ∙ and_then-ok _ _ _ _ _
        (and_then-ok _ _ _ _ _
          (and_then-ok _ _ _ _ _
            (and_then-ok _ _ _ _ _
              (and_then-ok _ _ _ _ _ (parse_u32-decimal platform decimal conforms id initial p0)
                (attach-ok platform id a c m segment r.segment_of))
              (place-decimal platform decimal conforms _ a a _ _ _ r.area_size p1 (omega arith)
                (omega arith)))
            (place-decimal platform decimal conforms _ c (a + c) _ _ _ r.counter_size p2
              (omega arith) (omega arith)))
          (place-decimal platform decimal conforms _ m (a + c + m) _ _ _ r.max_size p3 (omega arith)
            (omega arith)))
        (store8-ok (part 0) 0 1 _ (omega arith))

laid_out-IsMapped :
    (a c m : ℕ) (segment : Segment)
    → ((j : ℕ) → segment.bytes j < 256)
    → 0 < c
    → 8 ≤ m
    → a + c + m ≤ segment.size
    → segment.size < 2 ^ 32
    → IsMapped (laid_out a c m segment)
laid_out-IsMapped a c m segment bytes p q room small = record {
  some_counter = p;
  word_counter = omega arith;
  some_maximum = omega arith;
  counters_inside = omega arith;
  maxima_inside = omega arith;
  apart = inr (inl (omega arith));
  byte_size = λ r j.
      write_region-lt (attached a c m segment).memory shm r 0 (1 ∷ []) j
        (attached-lt a c m segment bytes) (omega arith, tt);
}

-- The start, with no demand on the room for the maxima.
pub ijon_auto_init-started :
    (platform : Platform) (decimal : ℕ → List ℕ) (id a c m : ℕ) (segment : Segment)
    → Conforms platform decimal
    → Requests platform decimal id a c m segment
    → id < 2 ^ 32
    → 0 < a
    → 0 < c
    → 0 < m
    → a + c + m ≤ segment.size
    → segment.size < 2 ^ 32
    → ijon_auto_init platform initial ≡ ok tt (laid_out a c m segment)
unfolding ijon_auto_init ijon_manual_init
ijon_auto_init-started platform decimal id a c m segment conforms r p0 p1 p2 p3 room small =
    and_then-ok _ _ _ _ _
      (ijon_map_shm-laid_out platform decimal id a c m segment conforms r p0 p1 p2 p3 room small)
      refl

-- When the environment holds the identifier of a segment and three sizes, of which the first two
-- are positive and the third is at least 8, and whose sum is at most the size of the segment, the
-- program starts with the coverage area at the start of the segment, the counters behind it and
-- the maxima behind these, an eighth of their bytes many, and with the first byte set; and the
-- counters and the maxima are mapped: inside the segment and apart.
pub ijon_auto_init-laid_out :
    (platform : Platform) (decimal : ℕ → List ℕ) (id a c m : ℕ) (segment : Segment)
    → Conforms platform decimal
    → Requests platform decimal id a c m segment
    → id < 2 ^ 32
    → 0 < a
    → 0 < c
    → 8 ≤ m
    → a + c + m ≤ segment.size
    → segment.size < 2 ^ 32
    → (ijon_auto_init platform initial ≡ ok tt (laid_out a c m segment))
      × IsMapped (laid_out a c m segment)
ijon_auto_init-laid_out platform decimal id a c m segment conforms r p0 p1 p2 p3 room small = (
  ijon_auto_init-started platform decimal id a c m segment conforms r p0 p1 p2 (omega arith) room
      small,
  laid_out-IsMapped a c m segment r.byte_size p2 p3 room small,
)
