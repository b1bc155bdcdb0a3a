-- ===== src/Ijon/Tests.antt =====
-- A platform, a segment and calls on which the theorems of the run time apply.
use fuzzuf_cc.Prelude.{
  map, ltb, if◌then◌else◌, ℕ, ◌+◌, ◌*◌, ◌^◌, ◌/◌, ◌%◌, ◌-◌, ◌<◌, ◌≡◌, refl, arith, List, [], ◌∷◌,
  some, none, min, length, take, zero, suc, ap,
}
use native.Mathlib.Nat.{pow-suc}
use fuzzuf_cc.Prelude.Effect.{aborted, ok, fault, ◌>>◌}
use fuzzuf_cc.Ijon.State.{Ijon, initial}
use fuzzuf_cc.Ijon.Feedback.{
  calls, report_max, report_min, map_inc, map_set, xor_state, push_state, enable, disable, Call,
  ijon_xor_state, ijon_max,
}
use fuzzuf_cc.Ijon.Feedback.View.{IsMapped, Shows, View, meanings, AllTyped, maximum}
use fuzzuf_cc.Ijon.Feedback.Refines.{calls-meanings, Reaches}
use fuzzuf_cc.Ijon.Feedback.Context.{calls-largest, ijon_xor_state-restores, largest, reported}
use fuzzuf_cc.Ijon.Hash.{ijon_hashstack_libgcc, ijon_simple_hash}
use fuzzuf_cc.Ijon.Hash.Injective.{ijon_simple_hash-injective}
use fuzzuf_cc.Ijon.Hash.Stack.{combined, ijon_hashstack_libgcc-frames}
use fuzzuf_cc.Ijon.Distance.{ijon_strdist, ijon_memdist}
use fuzzuf_cc.Ijon.Distance.Prefix.{
  ijon_strdist-IsLongestPrefix, ijon_memdist-IsLongestPrefix, IsLongestPrefix,
}
use fuzzuf_cc.Ijon.Shm.{
  Platform, Segment, Number, afl_shm_id, afl_size, ijon_counter_size, ijon_max_size, ijon_auto_init,
  ijon_manual_init,
}
use fuzzuf_cc.Ijon.Shm.Layout.{Conforms, Requests, laid_out, ijon_auto_init-laid_out}
use fuzzuf_cc.Ijon.Shm.Once.{ijon_auto_init-once}
use fuzzuf_cc.Ijon.Shm.Alone.{ijon_auto_init-no_maxima}

-- Ten digits, the lowest first, so that no numeral depends on a loop.
abbrev digits : (k n : ℕ) → List ℕ
digits zero n = []
digits (suc k) n = (48 + n % 10) ∷ digits k (n / 10)

abbrev decimal : ℕ → List ℕ
decimal n = digits 10 n

abbrev value_of : List ℕ → ℕ
value_of [] = 0
value_of (b ∷ bs) = (b - 48) + 10 * value_of bs

abbrev segment : Segment
segment = record { size = 0x1_0000; bytes = λ j. 0 }

abbrev asking : (maxima : ℕ) → Platform
asking maxima = record {
  getenv = λ v. elim v [
    | afl_shm_id ↦ some (decimal 5)
    | afl_size ↦ some (decimal 1024)
    | ijon_counter_size ↦ some (decimal 256)
    | ijon_max_size ↦ some (decimal maxima)
  ];
  strnlen = λ str n. min (length str) n;
  strtol = λ str. record { value = value_of str; consumed = length str };
  shmat = λ id. some segment;
}

abbrev alone : Platform
alone = record (asking 64) { getenv = λ v. none }

abbrev refusing : Platform
refusing = record (asking 64) { shmat = λ id. none }

abbrev number_of : ℕ → ℕ → Number
number_of consumed value = record { value = value; consumed = consumed }

value_of-digits : (k n : ℕ) → n < 10 ^ k → value_of (digits k n) ≡ n
value_of-digits zero n h = omega arith
value_of-digits (suc k) n h =
    omega (arith, value_of-digits k (n / 10) (omega (arith, pow-suc 10 k)))

asking-Conforms : (maxima : ℕ) → Conforms (asking maxima) decimal
asking-Conforms maxima = record {
  bounded = λ str. refl;
  ten_digits = λ n h. omega arith;
  reads = λ n h. ap (number_of 10) (value_of-digits 10 n (omega arith));
}

asking-Requests : (maxima : ℕ) → Requests (asking maxima) decimal 5 1024 256 maxima segment
asking-Requests maxima = record {
  shm_id = refl;
  area_size = refl;
  counter_size = refl;
  max_size = refl;
  segment_of = refl;
  byte_size = λ j. omega arith;
}

abbrev annotations : List Call
annotations =
    report_max 7 100
    ∷ xor_state 9
    ∷ map_inc 12
    ∷ report_max 71 90
    ∷ push_state 3
    ∷ report_min 8 5
    ∷ map_set 12
    ∷ disable
    ∷ report_max 7 120
    ∷ enable
    ∷ []

annotations-AllTyped : AllTyped annotations
annotations-AllTyped = (
  (omega arith, omega arith),
  (
    omega arith,
    (
      omega arith,
      (
        (omega arith, omega arith),
        (
          omega arith,
          ((omega arith, omega arith), (omega arith, (tt, ((omega arith, omega arith), (tt, tt))))),
        ),
      ),
    ),
  ),
)

abbrev started : Ijon
started = laid_out 1024 256 64 segment

started-IsMapped : IsMapped started
started-IsMapped =
    (ijon_auto_init-laid_out (asking 64) decimal 5 1024 256 64 segment (asking-Conforms 64)
      (asking-Requests 64) (omega arith) (omega arith) (omega arith) (omega arith) (omega arith)
      (omega arith)).1

abbrev start_view : View
start_view = record { context = 0; history = 0; counters = λ i. 0; maxima = maximum started }

started-Shows : Shows 256 8 started start_view
started-Shows = record {
  counter_size = refl;
  maximum_size = refl;
  mapped = started-IsMapped;
  context = refl;
  history = refl;
  counters = λ i p. ground arith;
  maxima = λ i p. refl;
}

calls-meanings_example :
    Reaches 256 8 (calls annotations started) (meanings 256 8 annotations start_view)
calls-meanings_example =
    calls-meanings 256 8 annotations started start_view started-Shows annotations-AllTyped

calls-largest_example :
    (t : Ijon) × (calls annotations started ≡ ok tt t)
    × (maximum t 7 ≡ largest (maximum started 7) (reported 8 7 annotations))
calls-largest_example =
    calls-largest annotations started 7 started-IsMapped annotations-AllTyped (omega arith)

-- Slot 7 ends with 120, although another address shares it.
reported_slot : reported 8 7 annotations ≡ 100 ∷ 90 ∷ 120 ∷ []
reported_slot = refl

ijon_xor_state-restores_example :
    (ijon_xor_state 0xdead_beef >> ijon_xor_state 0xdead_beef) started ≡ ok tt started
ijon_xor_state-restores_example =
    ijon_xor_state-restores 8 0xdead_beef started started-IsMapped refl (omega arith)

abbrev address : ℕ
address = 0x7fff_1234

ijon_simple_hash-injective_example : address ≡ 0x7fff_0000 + 0x1234
ijon_simple_hash-injective_example =
    ijon_simple_hash-injective address (0x7fff_0000 + 0x1234) (omega arith) (omega arith) refl

abbrev stack : List ℕ
stack = 4096 ∷ 8192 ∷ []

ijon_hashstack_libgcc-frames_example : ijon_hashstack_libgcc (λ n. take n stack) initial ≡ (
    if ltb (length stack) 16
    then ok (combined (map ijon_simple_hash stack) % 2 ^ 32) initial
    else aborted initial)
ijon_hashstack_libgcc-frames_example =
    ijon_hashstack_libgcc-frames (λ n. take n stack) stack initial (λ n. refl)

ijon_strdist-IsLongestPrefix_example :
    (k : ℕ) × (ijon_strdist (97 ∷ 98 ∷ 99 ∷ 0 ∷ 1 ∷ []) (97 ∷ 98 ∷ 100 ∷ 0 ∷ []) initial
      ≡ ok k initial)
    × IsLongestPrefix (97 ∷ 98 ∷ 99 ∷ []) (97 ∷ 98 ∷ 100 ∷ []) k
ijon_strdist-IsLongestPrefix_example =
    ijon_strdist-IsLongestPrefix (97 ∷ 98 ∷ 99 ∷ []) (97 ∷ 98 ∷ 100 ∷ []) (1 ∷ []) [] initial
      (
        (λ e. absurd (omega arith)),
        ((λ e. absurd (omega arith)), ((λ e. absurd (omega arith)), tt)),
      )
      (
        (λ e. absurd (omega arith)),
        ((λ e. absurd (omega arith)), ((λ e. absurd (omega arith)), tt)),
      )
      (omega arith)

ijon_memdist-IsLongestPrefix_example :
    (k : ℕ) × (ijon_memdist (0 ∷ 5 ∷ 6 ∷ []) (0 ∷ 5 ∷ 7 ∷ []) 2 initial ≡ ok k initial)
    × IsLongestPrefix (0 ∷ 5 ∷ []) (0 ∷ 5 ∷ []) k
ijon_memdist-IsLongestPrefix_example =
    ijon_memdist-IsLongestPrefix (0 ∷ 5 ∷ 6 ∷ []) (0 ∷ 5 ∷ 7 ∷ []) 2 initial (omega arith)
      (omega arith) (omega arith)

ijon_auto_init-laid_out_example :
    (ijon_auto_init (asking 64) initial ≡ ok tt started) × IsMapped started
ijon_auto_init-laid_out_example =
    ijon_auto_init-laid_out (asking 64) decimal 5 1024 256 64 segment (asking-Conforms 64)
      (asking-Requests 64) (omega arith) (omega arith) (omega arith) (omega arith) (omega arith)
      (omega arith)

ijon_auto_init-once_example : ijon_manual_init refusing started ≡ ok tt started
ijon_auto_init-once_example =
    ijon_auto_init-once (asking 64) refusing initial started ijon_auto_init-laid_out_example.0

ijon_auto_init-no_maxima_example :
    (t : Ijon) × (ijon_auto_init (asking 4) initial ≡ ok tt t) × (ijon_max 3 100 t ≡ fault t)
ijon_auto_init-no_maxima_example =
    ijon_auto_init-no_maxima (asking 4) decimal 5 1024 256 4 3 100 segment (asking-Conforms 4)
      (asking-Requests 4) (omega arith) (omega arith) (omega arith) (omega arith) (omega arith)
      (omega arith) (omega arith)
