-- ===== src/Exif/Main/Leak.antt =====
-- What `main` leaves behind when the structure of a file cannot be allocated.
use fuzzuf_cc.Prelude.{◌==◌, none, refl, ℕ, ◌+◌, ◌*◌, ◌≡◌, arith, true, false, List, ◌∷◌, some}
use fuzzuf_cc.Prelude.Effect.{and_then-ok, ok}
use fuzzuf_cc.Exif.Types.{Exif, error, memory_error}
use fuzzuf_cc.Exif.Walk.{jpeg_handlers_new}
use fuzzuf_cc.Exif.Main.{System, jpeg_file_load, run_file}

-- With the file open and the call to `calloc` counted.
abbrev stuck_open : List ℕ → Exif → Exif
stuck_open bytes s = record s {
  file = bytes;
  position = 0;
  at_eof = false;
  open_files = s.open_files + 1;
  allocations = s.allocations + 1;
  printed = error memory_error ∷ s.printed;
}

-- With the table of handlers.
abbrev with_table : Exif → Exif
with_table s = record s { allocations = s.allocations + 1; blocks = s.allocations ∷ s.blocks }

jpeg_file_load-leak :
    (system : System) (path bytes : List ℕ) (s : Exif)
    → system.fopen path ≡ some bytes
    → system.allocator s.allocations 24 ≡ false
    → jpeg_file_load system path s ≡ ok none (stuck_open bytes s)
unfolding jpeg_file_load
jpeg_file_load-leak system path bytes s h lacks = rw (h, jpeg_file_load) (rw lacks refl)

-- When the file can be opened, the table of handlers can be allocated and the structure of the file
-- cannot, the run on the file returns with one open file more than before, and with no block more.
pub run_file-leak :
    (system : System) (path bytes : List ℕ) (s : Exif)
    → system.fopen path ≡ some bytes
    → system.allocator s.allocations (8 * 0x100) ≡ true
    → system.allocator (s.allocations + 1) 24 ≡ false
    → run_file system path s
      ≡ ok tt (record s {
        file = bytes;
        position = 0;
        at_eof = false;
        open_files = s.open_files + 1;
        allocations = s.allocations + 1 + 1;
        printed = error memory_error ∷ s.printed;
      })
unfolding jpeg_handlers_new
run_file-leak system path bytes s h got lacks = rw got (
    and_then-ok (jpeg_file_load system path (with_table s)) _ none (stuck_open bytes (with_table s))
      _ (jpeg_file_load-leak system path bytes (with_table s) h lacks)
      (let self : (s.allocations == s.allocations) ≡ true = ground arith in rw self refl))
