-- ===== src/Exif/Entry/Steps.antt =====
-- How far `jpeg_exif_read_entry` comes on an entry that passes its tests.
use fuzzuf_cc.Prelude.{
  ◌∷◌, ap, ◌∙◌, ℕ, ◌+◌, ◌≤◌, ◌≡◌, refl, arith, Bool, true, List, none, some, length, take, drop,
  replicate, le→leb,
}
use fuzzuf_cc.Prelude.Effect.{ok, and_then, and_then-ok, pure}
use fuzzuf_cc.Bytes.{from_bytes}
use fuzzuf_cc.Exif.Types.{Exif, Datatype, to_datatype}
use fuzzuf_cc.Exif.Heap.{Allocator, load}
use fuzzuf_cc.Exif.Entry.{jpeg_exif_read_entry, data_source, data_size, block_size, copy_data}

-- The `n` bytes from `o` on, as a number.
abbrev pub field : (n o : ℕ) → List ℕ → ℕ
field n o tiff = from_bytes (take n (drop o tiff))

-- The entry at `pos`, its fields in the order of the machine.
pub record HasEntry (tiff : List ℕ) (pos : ℕ) (kind : Datatype) (count offset : ℕ) : Type 0 where
  pub inside : pos + 12 ≤ length tiff
  pub kind_is : to_datatype (field 2 (pos + 2) tiff) ≡ some kind
  pub count_is : field 4 (pos + 4) tiff ≡ count
  pub offset_is : field 4 (pos + 8) tiff ≡ offset

abbrev pub IsGenerous : Allocator → Type 0
IsGenerous allocator = (calls size : ℕ) → allocator calls size ≡ true

-- The state with both blocks allocated.
abbrev pub allocated : Exif → Exif
allocated s = record s {
  allocations = s.allocations + 1 + 1;
  blocks = (s.allocations + 1) ∷ s.allocations ∷ s.blocks;
}

abbrev half : Exif → Exif
half s = record s { allocations = s.allocations + 1; blocks = s.allocations ∷ s.blocks }

pub load-ok : (n o : ℕ) (s : Exif) → o + n ≤ length s.tiff → load n o s ≡ ok (field n o s.tiff) s
unfolding load
load-ok n o s h = rw (le→leb (o + n) (length s.tiff) h) refl

module _ (allocator : Allocator) (pos len_ifd : ℕ) (is_be : Bool) (kind : Datatype)
    (count offset : ℕ) (s : Exif) where
  pub jpeg_exif_read_entry-copy_data :
      (src : ℕ)
      → IsGenerous allocator
      → HasEntry s.tiff pos kind count offset
      → data_source pos is_be len_ifd (data_size kind count) (allocated s)
        ≡ ok (some src) (allocated s)
      → jpeg_exif_read_entry allocator pos is_be len_ifd s
        ≡ and_then
            (copy_data kind is_be src
              (data_size kind count)
              count
              (replicate (block_size kind (data_size kind count)) none)
              (allocated s))
            (λ block. pure (
              some record {
                address = s.allocations;
                ptr = s.allocations + 1;
                kind = kind;
                count = count;
                block = block;
              }))
  unfolding jpeg_exif_read_entry
  jpeg_exif_read_entry-copy_data src generous e source =
      and_then-ok _ _ _ s _ (load-ok 2 (pos + 2) s (omega (arith, e.inside))) (
        rw (e.kind_is, generous s.allocations 16)
          (and_then-ok _ _ count (half s) _
            (load-ok 4 (pos + 4) (half s) (omega (arith, e.inside))
              ∙ ap (λ v. ok v (half s)) e.count_is)
            (rw (generous (s.allocations + 1) (block_size kind (data_size kind count)), source)
              refl)))
