-- ===== src/Exif/Entry/Overflow.antt =====
-- What the tests of `jpeg_exif_read_entry` do not catch when `u32` arithmetic wraps.
use fuzzuf_cc.Exif.Entry.Steps.{jpeg_exif_read_entry-copy_data, allocated, HasEntry, IsGenerous}
use fuzzuf_cc.Exif.Heap.{Allocator}
use fuzzuf_cc.Prelude.{
  refl, ◌∙◌, le→leb, false, Option, length, ℕ, ap, ◌+◌, ◌*◌, ◌%◌, ◌^◌, ◌<◌, ◌≤◌, ◌≡◌, arith, Bool,
  none, replicate, length-replicate,
}
use fuzzuf_cc.Prelude.Effect.{fault}
use fuzzuf_cc.Exif.Types.{
  dfloat, float, srational, slong, sshort, undefined, sbyte, rational, long, short, ascii, byte,
  datatype_size, Datatype, Exif, Util,
}
use fuzzuf_cc.Exif.Entry.{
  jpeg_exif_read_entry, data_source, block_size, Block, rounds, copy_data, data_size,
}
use fuzzuf_cc.Exif.Entry.Bounded.{
  Writes, rounds-Bounded, fault_of_Bounded, copy_16-Writes, copy_32-Writes, copy_64-Writes,
  copy_pair-Writes, Kept,
}

length-fresh : (n : ℕ) → length (replicate n (let b : Option ℕ = none in b)) ≡ n
length-fresh n = length-replicate n none

-- A loop of more rounds than the block has room for is a fault.
rounds-overflow :
    (w : ℕ) (body : ℕ → Block → Util Block) (count : ℕ) (s : Exif)
    → Writes w body
    → 2 ^ 32 ≤ w * count
    → rounds body count 0 (replicate (w * count % 2 ^ 32) none) s ≡ fault s
rounds-overflow w body count s writes big =
    fault_of_Bounded s _ (Kept (w * (0 + count)) (replicate (w * count % 2 ^ 32) none))
      (rounds-Bounded w body count 0 (replicate (w * count % 2 ^ 32) none) s writes (omega arith)
        (omega (arith, length-fresh (w * count % 2 ^ 32))))
      (λ new k. omega (arith, k.0, none_done w count, length-fresh (w * count % 2 ^ 32)))
  where
    none_done : (w count : ℕ) → w * (0 + count) ≡ w * count
    none_done w count = ap (◌*◌ w) (omega arith)

-- The types whose units have more than one byte.
abbrev pub IsWide : Datatype → Type 0
IsWide kind = 1 < datatype_size kind

-- `unitsize * count` beyond 32 bits gives a block that is too small, and the loop leaves it.
pub copy_data-overflow :
    (kind : Datatype) (is_be : Bool) (src count : ℕ) (s : Exif)
    → IsWide kind
    → 2 ^ 32 ≤ datatype_size kind * count
    → copy_data kind is_be src
        (data_size kind count)
        count
        (replicate (data_size kind count) none)
        s
      ≡ fault s
unfolding copy_data
copy_data-overflow byte is_be src count s wide big = absurd (omega arith)
copy_data-overflow ascii is_be src count s wide big = absurd (omega arith)
copy_data-overflow short is_be src count s wide big =
    rounds-overflow 2 _ count s (copy_16-Writes is_be src) big
copy_data-overflow long is_be src count s wide big =
    rounds-overflow 4 _ count s (copy_32-Writes is_be src) big
copy_data-overflow rational is_be src count s wide big =
    rounds-overflow 8 _ count s (copy_pair-Writes is_be src) big
copy_data-overflow sbyte is_be src count s wide big = absurd (omega arith)
copy_data-overflow undefined is_be src count s wide big = absurd (omega arith)
copy_data-overflow sshort is_be src count s wide big =
    rounds-overflow 2 _ count s (copy_16-Writes is_be src) big
copy_data-overflow slong is_be src count s wide big =
    rounds-overflow 4 _ count s (copy_32-Writes is_be src) big
copy_data-overflow srational is_be src count s wide big =
    rounds-overflow 8 _ count s (copy_pair-Writes is_be src) big
copy_data-overflow float is_be src count s wide big =
    rounds-overflow 4 _ count s (copy_32-Writes is_be src) big
copy_data-overflow dfloat is_be src count s wide big =
    rounds-overflow 8 _ count s (copy_64-Writes is_be src) big

-- The block of a type that is not `ascii` is as large as the data.
block_of_wide :
    (kind : Datatype) (count : ℕ)
    → IsWide kind
    → block_size kind (data_size kind count) ≡ data_size kind count
block_of_wide ascii count wide = absurd (omega arith)
block_of_wide byte count wide = refl
block_of_wide short count wide = refl
block_of_wide long count wide = refl
block_of_wide rational count wide = refl
block_of_wide sbyte count wide = refl
block_of_wide undefined count wide = refl
block_of_wide sshort count wide = refl
block_of_wide slong count wide = refl
block_of_wide srational count wide = refl
block_of_wide float count wide = refl
block_of_wide dfloat count wide = refl

-- When the allocator grants every block: a little-endian entry with units of more than one byte,
-- whose size in bytes is at least 2 ^ 32 and wraps to at most 4, passes every test of the reader,
-- and the copy then leaves the block (or the buffer): a fault, with both blocks allocated.
pub jpeg_exif_read_entry-overflow :
    (allocator : Allocator) (pos len_ifd : ℕ) (kind : Datatype) (count offset : ℕ) (s : Exif)
    → IsGenerous allocator
    → HasEntry s.tiff pos kind count offset
    → IsWide kind
    → 2 ^ 32 ≤ datatype_size kind * count
    → data_size kind count ≤ 4
    → jpeg_exif_read_entry allocator pos false len_ifd s ≡ fault (allocated s)
unfolding data_source
jpeg_exif_read_entry-overflow allocator pos len_ifd kind count offset s generous e wide big small =
    jpeg_exif_read_entry-copy_data allocator pos len_ifd false kind count offset s (pos + 8)
      generous e (rw (le→leb (data_size kind count) 4 small) refl)
    ∙ rw
        (
          block_of_wide kind count wide,
          copy_data-overflow kind false (pos + 8) count (allocated s) wide big,
        )
        refl
