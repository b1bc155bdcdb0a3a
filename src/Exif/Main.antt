-- ===== src/Exif/Main.antt =====
-- Opening and releasing a file, and `main`.
pub mod Balance
pub mod Leak
use fuzzuf_cc.Prelude.{
  ℕ, ◌+◌, ◌-◌, ◌==◌, false, List, [], ◌∷◌, Option, none, some, length, if◌then◌else◌,
}
use fuzzuf_cc.Prelude.Effect.{ok, pure, exit, ◌>>=◌, ◌>>◌}
use fuzzuf_cc.Exif.Types.{Util, cannot_open, memory_error, file_name, usage, marker_app1}
use fuzzuf_cc.Exif.Heap.{Allocator, malloc, free, complain, print}
use fuzzuf_cc.Exif.App1.{jpeg_custom_app1}
use fuzzuf_cc.Exif.Walk.{Handlers, jpeg_handlers_new, jpeg_handlers_release, jpeg_walk}

-- What `getopt` returns: `-f` with its argument, or another option.
pub data Parsed : Type 0 where
  f : List ℕ → Parsed
  other : Parsed

-- The allocator, the files that `fopen` can open, and the bound of the loops.
pub record System : Type 0 where
  pub allocator : Allocator
  pub fopen : List ℕ → Option (List ℕ)
  pub fuel : ℕ

abbrev pub open_file : List ℕ → Util (Unit {0})
open_file bytes s =
    ok tt (record s { file = bytes; position = 0; at_eof = false; open_files = s.open_files + 1 })

abbrev pub close_file : Util (Unit {0})
close_file s = ok tt (record s { open_files = s.open_files - 1 })

-- `jpeg_file_t`: where it stands, and its `path`, which is null when `strdup` has failed.
pub record JpegFile : Type 0 where
  pub address : ℕ
  pub path : Option ℕ

-- To free a null pointer does nothing.
unfoldable pub jpeg_file_release : JpegFile → Util (Unit {0})
jpeg_file_release jpeg =
    close_file >> elim (jpeg.path) [ none ↦ pure tt | some path ↦ free path ] >> free jpeg.address

abbrev sizeof_jpeg_file : ℕ
sizeof_jpeg_file = 24

module _ (system : System) where
  -- `none` for NULL.
  unfoldable pub jpeg_file_load : List ℕ → Util (Option JpegFile)
  unfolding jpeg_file_release
  jpeg_file_load filepath = elim (system.fopen filepath) [
    | none ↦ complain cannot_open >> pure none
    | some bytes ↦ open_file bytes >> malloc system.allocator sizeof_jpeg_file >>= λ got_jpeg.
        elim got_jpeg [
          | none ↦ complain memory_error >> pure none
          | some jpeg ↦ malloc system.allocator (length filepath + 1) >>= λ got_path.
              elim got_path [
                | none ↦
                    complain memory_error
                    >> jpeg_file_release record { address = jpeg; path = none }
                    >> pure none
                | some path ↦ pure (some record { address = jpeg; path = some path })
              ]
        ]
  ]

  -- `ops[JPEG_MARKER_APP1] = jpeg_custom_app1`
  abbrev pub with_app1 : Handlers → Handlers
  with_app1 ops marker =
      if marker == marker_app1
      then some (jpeg_custom_app1 system.allocator system.fuel)
      else ops marker

  abbrev pub run_file : List ℕ → Util (Unit {0})
  run_file filepath = jpeg_handlers_new system.allocator system.fuel >>= λ ops.
      jpeg_file_load filepath >>= λ loaded. elim loaded [
        | none ↦ jpeg_handlers_release ops.0
        | some jpeg ↦
            print (file_name filepath)
            >> jpeg_walk (with_app1 ops.1) system.fuel
            >> jpeg_file_release jpeg
            >> jpeg_handlers_release ops.0
      ]

  -- `filepath` behind the loop.
  unfoldable pub run_options : List Parsed → Option (List ℕ) → Util (Option (List ℕ))
  unfolding jpeg_file_load jpeg_file_release jpeg_walk jpeg_handlers_new
  run_options [] filepath = pure filepath
  run_options (f path ∷ rest) filepath = run_file path >> run_options rest (some path)
  run_options (other ∷ rest) filepath = run_options rest none

  unfoldable pub main : List Parsed → Util ℕ
  unfolding run_options
  main options = run_options options none >>= λ filepath. elim filepath [
    | none ↦ print usage >> exit 0
    | some path ↦ pure 0
  ]
