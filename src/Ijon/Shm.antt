-- ===== src/Ijon/Shm.antt =====
-- Attaching the shared memory, as features/ijon/ijon-llvm-rt.o.c does before `main`.
use fuzzuf_cc.Prelude.{
  ℕ, ◌+◌, ◌/◌, ◌%◌, ◌^◌, ◌==◌, if◌then◌else◌, List, Option, none, some, Bool, true,
}
use fuzzuf_cc.Prelude.Effect.{ok, pure, exit, ◌>>=◌, ◌>>◌}
use fuzzuf_cc.Ijon.State.{Ijon, Ptr, Region, Runtime, shm}
use fuzzuf_cc.Ijon.Memory.{store8}
pub mod Layout
pub mod Once
pub mod Alone

-- AFL_SHM_ENV_VAR, AFL_SIZE_ENV_VAR, IJON_COUNTER_SIZE_ENV_VAR and IJON_MAX_SIZE_ENV_VAR.
pub data Variable : Type 0 where
  afl_shm_id afl_size ijon_counter_size ijon_max_size : Variable

-- What `strtol` returns, as an unsigned number, and how many characters it read.
pub record Number : Type 0 where
  pub value : ℕ
  pub consumed : ℕ

-- A segment that `shmat` attaches.
pub record Segment : Type 0 where
  pub size : ℕ
  pub bytes : ℕ → ℕ

-- The C library, the environment of the process and the shared memory of the system.
pub record Platform : Type 0 where
  pub getenv : Variable → Option (List ℕ)
  pub strnlen : List ℕ → ℕ → ℕ
  pub strtol : List ℕ → Number
  pub shmat : ℕ → Option Segment

module _ (platform : Platform) where
  -- A variable's value up to ten characters long, as a `u32`.
  abbrev pub parse_u32 : List ℕ → Runtime ℕ
  parse_u32 str =
      let number = platform.strtol str in
      if number.consumed == platform.strnlen str 10 then pure (number.value % 2 ^ 32) else exit 1

  abbrev pub attach_segment : Option Segment → Runtime Ptr
  attach_segment none s = exit 1 s
  attach_segment (some segment) s =
      ok (record { region = shm; offset = 0 })
        (record s {
          memory = λ r. elim r [ shm ↦ segment.bytes | other ↦ s.memory other ];
          shm_size = segment.size;
        })

  abbrev pub attach : ℕ → Runtime Ptr
  attach shm_id = attach_segment (platform.shmat shm_id)

  -- A part of the segment that a variable asks for: `store` puts it at `cur`.
  abbrev pub place : Option (List ℕ) → (Ptr → ℕ → Ijon → Ijon) → Ptr → Runtime Ptr
  place none store cur = pure cur
  place (some str) store cur = parse_u32 str >>= λ size. if size == 0 then pure cur else λ s.
      ok (record cur { offset = cur.offset + size }) (store cur size s)

  abbrev pub map_segment : Option (List ℕ) → Runtime (Unit {0})
  map_segment none = pure tt
  map_segment (some str) =
      parse_u32 str
      >>= attach
      >>= place (platform.getenv afl_size)
          (λ cur size s. record s { area_ptr = cur; afl_size = size })
      >>= place (platform.getenv ijon_counter_size)
          (λ cur size s. record s { counter_ptr = cur; map_size = size })
      >>= place (platform.getenv ijon_max_size)
          (λ cur size s. record s { max_ptr = cur; max_map_size = size / 8 })
      >>= λ cur s. store8 s.area_ptr 0 1 s

  unfoldable pub ijon_map_shm : Runtime (Unit {0})
  ijon_map_shm = map_segment (platform.getenv afl_shm_id)

  unfoldable pub ijon_manual_init : Runtime (Unit {0})
  ijon_manual_init s =
      if s.init_done
      then ok tt s
      else (ijon_map_shm >> λ t. ok tt (record t { init_done = true })) s

  unfoldable pub ijon_auto_init : Runtime (Unit {0})
  ijon_auto_init = ijon_manual_init
