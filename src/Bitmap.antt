-- ===== src/Bitmap.antt =====
-- features/bitmap/bitmap-llvm-rt.o.c: the coverage map of the instrumented program.
use fuzzuf_cc.Prelude.{
  ℕ, ◌+◌, ◌^◌, ◌==◌, ◌&&◌, ltb, if◌then◌else◌, List, Option, none, some, Bool, true, false,
}
use fuzzuf_cc.Prelude.Effect.{Run, Cmd, ok, fault, pure, exit, ◌>>=◌, ◌>>◌}
pub mod Start
mod Tests

-- `shm n` is the segment that `shmat n` attached.
pub data Area : Type 0 where
  area_initial : Area
  shm : ℕ → Area

-- The globals, the bytes of the areas, `init_done`, and the sizes of the attached segments.
pub record Bitmap : Type 0 where
  pub memory : Area → ℕ → ℕ
  pub shm_size : ℕ → ℕ
  pub area_ptr : Area
  pub prev_loc : ℕ
  pub init_done : Bool

abbrev pub map_size : ℕ
map_size = 2 ^ 16

abbrev pub same_area : Area → Area → Bool
same_area area_initial area_initial = true
same_area (shm n) (shm m) = n == m
same_area _ _ = false

abbrev pub extent : Bitmap → Area → ℕ
extent s area_initial = map_size
extent s (shm n) = s.shm_size n

-- SHM_ENV_VAR and DEFER_ENV_VAR.
pub data Variable : Type 0 where
  shm_id defer : Variable

-- The environment of the process, `atoi` as a `u32`, and the answer of `shmat`: the size of the
-- segment, whose bytes are in the memory.
pub record Platform : Type 0 where
  pub getenv : Variable → Option (List ℕ)
  pub atoi : List ℕ → ℕ
  pub shmat : ℕ → Option ℕ

abbrev pub Runtime : Type 0 → Type 0
Runtime A = Cmd Bitmap A

-- `__bitmap_area_ptr[i] = v`
abbrev pub store : (i v : ℕ) → Runtime (Unit {0})
store i v s =
    if ltb i (extent s s.area_ptr)
    then ok tt (record s {
      memory = λ area j. if same_area area s.area_ptr && (j == i) then v else s.memory area j;
    })
    else fault s

module _ (platform : Platform) where
  abbrev pub attach_segment : ℕ → Option ℕ → Runtime (Unit {0})
  attach_segment id none s = exit 1 s
  attach_segment id (some size) s =
      ok tt (record s { area_ptr = shm id; shm_size = λ n. if n == id then size else s.shm_size n })

  abbrev pub map_segment : Option (List ℕ) → Runtime (Unit {0})
  map_segment none = pure tt
  map_segment (some id_str) =
      let id = platform.atoi id_str in attach_segment id (platform.shmat id) >> store 0 1

  unfoldable pub bitmap_map_shm : Runtime (Unit {0})
  bitmap_map_shm = map_segment (platform.getenv shm_id)

  unfoldable pub bitmap_manual_init : Runtime (Unit {0})
  bitmap_manual_init s =
      if s.init_done
      then ok tt s
      else (bitmap_map_shm >> λ t. ok tt (record t { init_done = true })) s

  abbrev pub init_unless : Option (List ℕ) → Runtime (Unit {0})
  init_unless none = bitmap_manual_init
  init_unless (some _) = pure tt

  unfoldable pub bitmap_auto_init : Runtime (Unit {0})
  bitmap_auto_init = init_unless (platform.getenv defer)

-- The process as it starts.
abbrev pub initial : Bitmap
initial = record {
  memory = λ area j. 0;
  shm_size = λ n. 0;
  area_ptr = area_initial;
  prev_loc = 0;
  init_done = false;
}
