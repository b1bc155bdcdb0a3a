-- ===== src/Exif/Main/Balance.antt =====
-- The blocks that `main` leaves on the heap.
use fuzzuf_cc.Exif.Walk.Balance.{called, default_handlers-Steady, AllSteady, jpeg_walk-Steady}
use fuzzuf_cc.Prelude.Effect.{exit, fault, ok, and_then, ◌>>=◌}
use fuzzuf_cc.Exif.Main.{
  JpegFile, other, f, Parsed, main, run_options, open_file, jpeg_file_load, jpeg_file_release,
  close_file, run_file, with_app1, System,
}
use fuzzuf_cc.Prelude.{
  ◌*◌, ap, refl, ◌≡◌, ◌+◌, if◌then◌else◌, ℕ, ◌==◌, Bool, true, false, List, [], ◌∷◌, Option, none,
  some,
}
use fuzzuf_cc.Exif.Types.{Exif, marker_app1, Util}
use fuzzuf_cc.Exif.Types
use fuzzuf_cc.Exif.Heap.Balance.{
  Leaves, got-Keeps, malloc-Keeps, pure-Keeps, option-Keeps, free-Keeps, Keeps, bind-Keeps,
  then-Keeps, print-Keeps, pure-Steady,
}
use fuzzuf_cc.Exif.Entry.Balance.{Steady}
use fuzzuf_cc.Exif.App1.Balance.{jpeg_custom_app1-Steady}
use fuzzuf_cc.Exif.Walk.{jpeg_handlers_new, Handlers, default_handlers, call_handler}

-- The blocks of a file's structure.
abbrev owned : JpegFile → List ℕ → List ℕ
owned jpeg n = elim (jpeg.path) [ none ↦ jpeg.address ∷ n | some path ↦ path ∷ jpeg.address ∷ n ]

-- What loading a file leaves.
abbrev loaded : List ℕ → Option JpegFile → List ℕ
loaded n none = n
loaded n (some jpeg) = owned jpeg n

module _ {n : List ℕ} where
  open_file-Steady : (bytes : List ℕ) → Steady n (open_file bytes)
  open_file-Steady bytes = record { leaves = λ s e. e }

  close_file-Steady : Steady n close_file
  close_file-Steady = record { leaves = λ s e. e }

module _ (system : System) {n : List ℕ} where
  with_handlers :
      {B : Type 0} {g : B → List ℕ} (fuel : ℕ) (k : ℕ × Handlers → Util B)
      → ((ops : ℕ) → Keeps (ops ∷ n) g (k (ops, default_handlers fuel)))
      → Keeps n g (jpeg_handlers_new system.allocator fuel >>= k)
  unfolding jpeg_handlers_new
  with_handlers {g = g} fuel k h = record {
    leaves = λ s e. filled (system.allocator s.allocations (8 * 0x100)) s e;
  }
    where
      filled :
          (got : Bool) (s : Exif)
          → s.blocks ≡ n
          → Leaves
              (and_then
                (and_then
                  (if got
                    then ok (some s.allocations) (record s {
                      allocations = s.allocations + 1;
                      blocks = s.allocations ∷ s.blocks;
                    })
                    else ok none (record s { allocations = s.allocations + 1 }))
                  (λ answer t. elim answer [
                    | none ↦ fault t
                    | some ops ↦ ok (ops, default_handlers fuel) t
                  ]))
                k)
              (λ a t. t.blocks ≡ g a)
      filled true s e = (h s.allocations).leaves _ (ap (λ bs. s.allocations ∷ bs) e)
      filled false s e = tt

module _ {n : List ℕ} where
  release-Keeps :
      (address : ℕ) (path : Option ℕ)
      → Keeps
          (owned (record { address = address; path = path }) n)
          (λ _. n)
          (jpeg_file_release (record { address = address; path = path }))
  unfolding jpeg_file_release
  release-Keeps address none =
      then-Keeps (then-Keeps close_file-Steady (pure-Steady {A = Unit {0}} {a = tt}))
        (free-Keeps address)
  release-Keeps address (some path) =
      then-Keeps (then-Keeps close_file-Steady (free-Keeps path)) (free-Keeps address)

module _ (system : System) {n : List ℕ} where
  jpeg_file_load-Keeps : (path : List ℕ) → Keeps n (loaded n) (jpeg_file_load system path)
  unfolding jpeg_file_load
  jpeg_file_load-Keeps path =
      option-Keeps (system.fopen path) (then-Keeps (print-Keeps _) (pure-Keeps refl)) (λ bytes.
        bind-Keeps (then-Keeps (open_file-Steady bytes) (malloc-Keeps system.allocator _))
          (λ got_jpeg. got-Keeps got_jpeg (then-Keeps (print-Keeps _) (pure-Keeps refl)) (λ jpeg.
            bind-Keeps (malloc-Keeps system.allocator _) (λ got_path.
              got-Keeps got_path
                (then-Keeps (then-Keeps (print-Keeps _) (release-Keeps jpeg none))
                  (pure-Keeps refl))
                (λ path. pure-Keeps refl)))))

  with_app1-Steady : (ops : Handlers) → AllSteady n ops → AllSteady n (with_app1 system ops)
  with_app1-Steady ops h marker again h' =
      choose again _ (marker == marker_app1) (ops marker)
        (called h' (jpeg_custom_app1-Steady system.allocator system.fuel)) (h marker again h')
    where
      choose :
          {n : List ℕ} (again handler : Util Bool) (b : Bool) (o : Option (Util Bool))
          → Steady n (call_handler again (some handler))
          → Steady n (call_handler again o)
          → Steady n (call_handler again (if b then some handler else o))
      choose again handler true o h h' = h
      choose again handler false o h h' = h'

-- After loading, the blocks of the structure are there if it succeeded.
loaded-Keeps :
    {n : List ℕ} {B : Type 0} {g : B → List ℕ} (o : Option JpegFile) {m : Util B}
    {k : JpegFile → Util B}
    → Keeps n g m
    → ((jpeg : JpegFile) → Keeps (owned jpeg n) g (k jpeg))
    → Keeps (loaded n o) g (elim o [ none ↦ m | some jpeg ↦ k jpeg ])
loaded-Keeps none h h' = h
loaded-Keeps (some jpeg) h h' = h' jpeg

module _ (system : System) where
  run_file-Steady : {n : List ℕ} (path : List ℕ) → Steady n (run_file system path)
  run_file-Steady {n = n} path = with_handlers system system.fuel _ (λ ops.
      bind-Keeps (jpeg_file_load-Keeps system path) (λ went_well.
        loaded-Keeps went_well (free-Keeps ops) (λ jpeg.
          then-Keeps
            (then-Keeps
              (then-Keeps (print-Keeps _) (
                jpeg_walk-Steady _ system.fuel
                  (with_app1-Steady system _ (default_handlers-Steady system.fuel))))
              (release-Keeps jpeg.address jpeg.path))
            (free-Keeps ops))))

  run_options-Steady :
      {n : List ℕ} (options : List Parsed) (path : Option (List ℕ))
      → Steady n (run_options system options path)
  unfolding run_options
  run_options-Steady [] path = pure-Steady
  run_options-Steady (f p ∷ rest) path =
      then-Keeps (run_file-Steady p) (run_options-Steady rest (some p))
  run_options-Steady (other ∷ rest) path = run_options-Steady rest none

  main-Keeps : {n : List ℕ} (options : List Parsed) → Steady n (main system options)
  unfolding main
  main-Keeps options = bind-Keeps (run_options-Steady options none) (λ path.
      option-Keeps path
        (then-Keeps {k = exit 0} (print-Keeps Types.usage) record { leaves = λ s e. tt })
        (λ p. pure-Steady {a = 0}))

-- Whatever the allocator grants, the files and the options are: `main` frees no address that is not
-- that of a block on the heap, so it frees no block twice; and when it returns, the blocks on the
-- heap are those from before it, so every block that it allocated has been freed.
pub main-blocks :
    (system : System) (options : List Parsed) (s : Exif)
    → Leaves (main system options s) (λ code t. t.blocks ≡ s.blocks)
main-blocks system options s = (main-Keeps system options).leaves s refl
