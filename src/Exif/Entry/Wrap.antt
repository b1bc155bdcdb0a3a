-- ===== src/Exif/Entry/Wrap.antt =====
-- An offset so large that its sum with the size wraps round.
use fuzzuf_cc.Prelude.{
  ℕ, zero, suc, ◌+◌, ◌*◌, ◌%◌, ◌^◌, ◌<◌, ◌≤◌, ◌≡◌, refl, ap, ◌∙◌, arith, false, length, leb, ltb,
}
use fuzzuf_cc.Prelude.Effect.{ok, fault, and_then-ok}
use fuzzuf_cc.Exif.Types.{Exif, Datatype}
use fuzzuf_cc.Exif.Types
use fuzzuf_cc.Exif.Heap.{Allocator, load}
use fuzzuf_cc.Exif.Entry.{
  Block, rounds, copy_string, copy_data, data_source, data_size, jpeg_exif_read_entry,
}
use fuzzuf_cc.Exif.Entry.Steps.{
  HasEntry, IsGenerous, allocated, load-ok, jpeg_exif_read_entry-copy_data,
}

outside : (o n len : ℕ) → 0 < n → len ≤ o → leb (o + n) len ≡ false
outside o n len h h' = ground arith

load-fault : (n o : ℕ) (s : Exif) → 0 < n → length s.tiff ≤ o → load n o s ≡ fault s
unfolding load
load-fault n o s h h' = rw (outside o n (length s.tiff) h h') refl

-- A source behind the buffer: the first read leaves it.
copy_data-fault :
    (kind : Datatype) (src size count : ℕ) (block : Block) (s : Exif)
    → 0 < size
    → length s.tiff ≤ src
    → copy_data kind false src size (suc count) block s ≡ fault s
unfolding copy_data rounds copy_string
copy_data-fault Types.byte src size count block s h h' =
    rw (outside src size (length s.tiff) h h') refl
copy_data-fault Types.sbyte src size count block s h h' =
    rw (outside src size (length s.tiff) h h') refl
copy_data-fault Types.undefined src size count block s h h' =
    rw (outside src size (length s.tiff) h h') refl
copy_data-fault Types.short src size count block s h h' =
    rw (load-fault 2 (src + 0 * 2 % 2 ^ 32) s (omega arith) (omega arith)) refl
copy_data-fault Types.sshort src size count block s h h' =
    rw (load-fault 2 (src + 0 * 2 % 2 ^ 32) s (omega arith) (omega arith)) refl
copy_data-fault Types.long src size count block s h h' =
    rw (load-fault 4 (src + 0 * 4 % 2 ^ 32) s (omega arith) (omega arith)) refl
copy_data-fault Types.slong src size count block s h h' =
    rw (load-fault 4 (src + 0 * 4 % 2 ^ 32) s (omega arith) (omega arith)) refl
copy_data-fault Types.float src size count block s h h' =
    rw (load-fault 4 (src + 0 * 4 % 2 ^ 32) s (omega arith) (omega arith)) refl
copy_data-fault Types.dfloat src size count block s h h' =
    rw (load-fault 8 (src + 0 * 8 % 2 ^ 32) s (omega arith) (omega arith)) refl
copy_data-fault Types.rational src size count block s h h' =
    rw (load-fault 4 (src + 0 * 8 % 2 ^ 32) s (omega arith) (omega arith)) refl
copy_data-fault Types.srational src size count block s h h' =
    rw (load-fault 4 (src + 0 * 8 % 2 ^ 32) s (omega arith) (omega arith)) refl
copy_data-fault Types.ascii src size count block s h h' =
    rw (load-fault 1 (src + 0) s (omega arith) (omega arith)) refl

-- When the allocator grants every block: a little-endian entry with a size above 4, whose offset is
-- behind the buffer while the sum of offset and size wraps to a number within the directory, passes
-- the test of the reader, and the copy then reads outside the buffer: a fault, with both blocks
-- allocated.
pub jpeg_exif_read_entry-wraps :
    (allocator : Allocator) (pos len_ifd : ℕ) (kind : Datatype) (count offset : ℕ) (s : Exif)
    → IsGenerous allocator
    → HasEntry s.tiff pos kind count offset
    → 4 < data_size kind count
    → length s.tiff ≤ offset
    → (offset + data_size kind count) % 2 ^ 32 ≤ len_ifd
    → jpeg_exif_read_entry allocator pos false len_ifd s ≡ fault (allocated s)
unfolding data_source
jpeg_exif_read_entry-wraps allocator pos len_ifd kind zero offset s generous e large behind wraps =
    absurd (omega arith)
jpeg_exif_read_entry-wraps allocator pos len_ifd kind (suc count) offset s generous e large behind
      wraps =
    jpeg_exif_read_entry-copy_data allocator pos len_ifd false kind (suc count) offset s offset
      generous e
      (rw (not_inside (data_size kind (suc count)) large) (
        and_then-ok (load 4 (pos + 8) (allocated s)) _ offset (allocated s) _
          (load-ok 4 (pos + 8) (allocated s) (omega (arith, e.inside))
            ∙ ap (λ v. ok v (allocated s)) e.offset_is)
          (rw (passes ((offset + data_size kind (suc count)) % 2 ^ 32) wraps) refl)))
    ∙ rw
        (copy_data-fault kind offset (data_size kind (suc count)) count _ (allocated s)
          (omega (arith, large)) behind)
        refl
  where
    not_inside : (n : ℕ) → 4 < n → leb n 4 ≡ false
    not_inside n h = ground arith

    passes : (n : ℕ) → n ≤ len_ifd → ltb len_ifd n ≡ false
    passes n h = ground arith
