-- ===== src/Ijon/State.antt =====
-- The globals of the IJON run time, with the memory that its pointers point into.
use fuzzuf_cc.Prelude.{ℕ, ◌*◌, ◌^◌, Bool, true, false}
use fuzzuf_cc.Prelude.Effect.{Cmd}

-- MAP_SIZE and MAXMAP_SIZE.
abbrev pub initial_map_size : ℕ
initial_map_size = 2 ^ 16

abbrev pub initial_max_map_size : ℕ
initial_max_map_size = 512

-- `__ijon_area_initial`, `__ijon_max_initial` and the shared memory that `shmat` attaches.
pub data Region : Type 0 where
  area_initial max_initial shm : Region

abbrev pub same_region : Region → Region → Bool
same_region area_initial area_initial = true
same_region max_initial max_initial = true
same_region shm shm = true
same_region _ _ = false

-- A pointer, by its offset in bytes.
pub record Ptr : Type 0 where
  pub region : Region
  pub offset : ℕ

-- The bytes of the three regions, the globals, and `init_done` of `__ijon_manual_init`.
pub record Ijon : Type 0 where
  pub memory : Region → ℕ → ℕ
  pub shm_size : ℕ
  pub area_ptr : Ptr
  pub counter_ptr : Ptr
  pub max_ptr : Ptr
  pub state : ℕ
  pub state_log : ℕ
  pub mask : ℕ
  pub afl_size : ℕ
  pub map_size : ℕ
  pub max_map_size : ℕ
  pub init_done : Bool

-- The size of a region in bytes: `u8 [MAP_SIZE]`, `uint64_t [MAXMAP_SIZE]`, and the segment.
abbrev pub extent : (shm_size : ℕ) → Region → ℕ
extent n area_initial = initial_map_size
extent n max_initial = 8 * initial_max_map_size
extent n shm = n

abbrev pub Runtime : Type 0 → Type 0
Runtime A = Cmd Ijon A

-- The process as it starts: static storage is zeroed, and no segment is attached.
abbrev pub initial : Ijon
initial = record {
  memory = λ r j. 0;
  shm_size = 0;
  area_ptr = record { region = area_initial; offset = 0 };
  counter_ptr = record { region = area_initial; offset = 0 };
  max_ptr = record { region = max_initial; offset = 0 };
  state = 0;
  state_log = 0;
  mask = 0xffff_ffff;
  afl_size = initial_map_size;
  map_size = initial_map_size;
  max_map_size = initial_max_map_size;
  init_done = false;
}
