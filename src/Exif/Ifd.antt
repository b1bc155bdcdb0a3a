-- ===== src/Exif/Ifd.antt =====
-- `jpeg_exif_read_ifd`: a directory of entries, its child directories and the next one.
pub mod Balance
pub mod Chains
use fuzzuf_cc.Prelude.{
  ℕ, zero, suc, ◌+◌, ◌-◌, ◌*◌, ◌%◌, ◌^◌, ◌==◌, ◌||◌, Bool, true, false, none, some, leb,
  if◌then◌else◌,
}
use fuzzuf_cc.Prelude.Effect.{aborted, out_of_fuel, pure, ◌>>=◌, ◌>>◌}
use fuzzuf_cc.Exif.Types.{
  Util, TiffData, long, tiff_be, sizeof_entry, tagid_exif_ifd, tagid_gps_ifd, tagid_exif_iifd,
  invalid_ifd_offset, invalid_ifd_count,
}
use fuzzuf_cc.Exif.Endian.{be16_to_cpu, be32_to_cpu}
use fuzzuf_cc.Exif.Heap.{Allocator, free, complain, load, store}
use fuzzuf_cc.Exif.Entry.{jpeg_exif_read_entry, convert}
use fuzzuf_cc.Exif.Show.{jpeg_exif_show_entry, value_at}

-- `tiff_header->order == JPEG_TIFF_BE`
abbrev pub order_is_be : Util Bool
order_is_be = load 2 0 >>= λ order. pure (order == tiff_be)

-- A field of `n` bytes converted in place.
abbrev pub convert_field : (n o : ℕ) → (ℕ → ℕ) → Util (Unit {0})
convert_field n o to_cpu = load n o >>= λ v. store n o (to_cpu v)

abbrev pub convert_entry : Bool → (pos : ℕ) → Util (Unit {0})
convert_entry is_be pos =
    if is_be
    then (convert_field 2 pos be16_to_cpu
        >> convert_field 2 (pos + 2) be16_to_cpu
        >> convert_field 4 (pos + 4) be32_to_cpu
        >> convert_field 4 (pos + 8) be32_to_cpu)
    else pure tt

abbrev pub is_directory : (tag : ℕ) → Bool
is_directory tag = tag == tagid_exif_ifd || (tag == tagid_gps_ifd || tag == tagid_exif_iifd)

-- The assertion on the type and count of a pointer to a directory.
abbrev pub is_pointer : TiffData → Bool
is_pointer t = elim t.kind [ long ↦ t.count == 1 | _ ↦ false ]

abbrev pub follow : (child : ℕ → Util Bool) → TiffData → Util (Unit {0})
follow child t s =
    if is_pointer t
    then (value_at 4 0 t.block >>= λ offset. child offset >> pure tt) s
    else aborted s

abbrev pub use_entry : (child : ℕ → Util Bool) → (tag : ℕ) → TiffData → Util (Unit {0})
use_entry child tag t = if is_directory tag then follow child t else jpeg_exif_show_entry tag t

-- `len_ifd - sizeof (tiff_entry_t)`, a `size_t`.
abbrev pub entry_limit : (len_ifd : ℕ) → ℕ
entry_limit len_ifd = (len_ifd + 2 ^ 64 - sizeof_entry) % 2 ^ 64

abbrev pub entry_position : (ifd_offset i : ℕ) → ℕ
entry_position ifd_offset i = (ifd_offset + 2 + i * sizeof_entry) % 2 ^ 32

module _ (allocator : Allocator) where
  abbrev pub entry_at : (child : ℕ → Util Bool) → (len_ifd pos : ℕ) → (rest : Util Bool) → Util Bool
  entry_at child len_ifd pos rest = order_is_be >>= λ is_be.
      convert_entry is_be pos >> jpeg_exif_read_entry allocator pos is_be len_ifd >>= λ entry.
      elim entry [
        | none ↦ pure false
        | some t ↦
            load 2 pos >>= λ tag. use_entry child tag t >> free t.ptr >> free t.address >> rest
      ]

  -- The loop over the entries, with `n` left; `next` is what follows it.
  unfoldable pub read_entries :
      (child : ℕ → Util Bool)
      → (len_ifd ifd_offset : ℕ) → (n i : ℕ) → (next : Util Bool) → Util Bool
  read_entries child len_ifd ifd_offset zero i next = next
  read_entries child len_ifd ifd_offset (suc n) i next =
      let rest = read_entries child len_ifd ifd_offset n (i + 1) next in
      if leb (entry_limit len_ifd) (entry_position ifd_offset i)
      then complain invalid_ifd_count >> pure false
      else entry_at child len_ifd (entry_position ifd_offset i) rest

  abbrev pub next_ifd : (child : ℕ → Util Bool) → (pos : ℕ) → Util Bool
  next_ifd child pos = load 4 pos >>= λ offset.
      if offset == 0
      then pure true
      else order_is_be >>= λ is_be. child (convert is_be be32_to_cpu offset)

  -- The fuel bounds the directories that are open at once and the chain of the next ones.
  unfoldable pub jpeg_exif_read_ifd : (fuel ifd_offset len_ifd : ℕ) → Util Bool
  unfolding read_entries
  jpeg_exif_read_ifd zero ifd_offset len_ifd = out_of_fuel
  jpeg_exif_read_ifd (suc fuel) ifd_offset len_ifd =
      let child = λ (offset : ℕ). jpeg_exif_read_ifd fuel offset len_ifd in
      if leb ((len_ifd + 2 ^ 32 - 4) % 2 ^ 32) ifd_offset
      then complain invalid_ifd_offset >> pure false
      else load 2 ifd_offset >>= λ field. order_is_be >>= λ is_be.
          let ifd_count = convert is_be be16_to_cpu field in
          read_entries child len_ifd ifd_offset ifd_count 0
            (next_ifd child (entry_position ifd_offset ifd_count))
