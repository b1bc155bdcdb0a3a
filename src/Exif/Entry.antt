-- ===== src/Exif/Entry.antt =====
-- `jpeg_exif_read_entry`: the data of one entry, copied to a block of its own.
pub mod Balance
pub mod Bounded
pub mod Copies
pub mod Overflow
pub mod Steps
pub mod Values
pub mod Wrap
use fuzzuf_cc.Prelude.{
  ℕ, zero, suc, ◌+◌, ◌*◌, ◌%◌, ◌^◌, ◌==◌, Bool, true, false, List, Option, none, some, length, take,
  drop, replicate, map, leb, ltb, if◌then◌else◌,
}
use fuzzuf_cc.Prelude.Effect.{ok, fault, pure, ◌>>=◌, ◌>>◌}
use fuzzuf_cc.Exif.Types.{
  Util, Datatype, TiffData, to_datatype, datatype_size, byte, ascii, short, long, rational, sbyte,
  undefined, sshort, slong, srational, float, dfloat, memory_error, invalid_data_type,
  invalid_offset_or_size,
}
use fuzzuf_cc.Exif.Endian.{be16_to_cpu, be32_to_cpu, be64_to_cpu}
use fuzzuf_cc.Exif.Heap.{Allocator, malloc, free, complain, load, store, put_block, overwrite}

abbrev pub Block : Type 0
Block = List (Option ℕ)

abbrev pub convert : (is_be : Bool) → (ℕ → ℕ) → ℕ → ℕ
convert is_be to_cpu v = if is_be then to_cpu v else v

-- `for (i = …; i < count; i++)`, with `n` rounds left.
unfoldable pub rounds : (ℕ → Block → Util Block) → (n i : ℕ) → Block → Util Block
rounds body zero i block = pure block
rounds body (suc n) i block = body i block >>= rounds body n (i + 1)

-- The bodies of the loops. The indices are `u32`, and are scaled by the pointers' types.
abbrev pub copy_16 : Bool → (src : ℕ) → ℕ → Block → Util Block
copy_16 is_be src i block = load 2 (src + i * 2 % 2 ^ 32) >>= λ t16.
    put_block 2 (2 * i) (convert is_be be16_to_cpu t16) block

abbrev pub copy_32 : Bool → (src : ℕ) → ℕ → Block → Util Block
copy_32 is_be src i block = load 4 (src + i * 4 % 2 ^ 32) >>= λ t32.
    put_block 4 (4 * i) (convert is_be be32_to_cpu t32) block

abbrev pub copy_64 : Bool → (src : ℕ) → ℕ → Block → Util Block
copy_64 is_be src i block = load 8 (src + i * 8 % 2 ^ 32) >>= λ t64.
    put_block 8 (i * 8 % 2 ^ 32) (convert is_be be64_to_cpu t64) block

abbrev pub copy_pair : Bool → (src : ℕ) → ℕ → Block → Util Block
copy_pair is_be src i block =
    load 4 (src + i * 8 % 2 ^ 32)
    >>= (λ t32. put_block 4 (4 * (2 * i % 2 ^ 32)) (convert is_be be32_to_cpu t32) block)
    >>= λ block'. load 4 (src + i * 8 % 2 ^ 32 + 4) >>= λ t32.
        put_block 4 (4 * ((2 * i + 1) % 2 ^ 32)) (convert is_be be32_to_cpu t32) block'

-- The loop over the characters, which stops behind a 0.
unfoldable pub copy_string : (src n i : ℕ) → Block → Util Block
copy_string src zero i block = pure block
copy_string src (suc n) i block = load 1 (src + i) >>= λ c. put_block 1 i c block >>= λ block'.
    elim (c == 0) [ true ↦ pure block' | false ↦ copy_string src n (i + 1) block' ]

-- `memcpy (data->byte_vec, srcptr, size)`
abbrev pub copy_bytes : (src size : ℕ) → Block → Util Block
copy_bytes src size block s =
    if leb (src + size) (length s.tiff)
    then (if leb size (length block)
        then ok (overwrite 0 (map some (take size (drop src s.tiff))) block) s
        else fault s)
    else fault s

unfoldable pub copy_data : Datatype → Bool → (src size count : ℕ) → Block → Util Block
unfolding rounds copy_string
copy_data sbyte is_be src size count = copy_bytes src size
copy_data byte is_be src size count = copy_bytes src size
copy_data undefined is_be src size count = copy_bytes src size
copy_data sshort is_be src size count = rounds (copy_16 is_be src) count 0
copy_data short is_be src size count = rounds (copy_16 is_be src) count 0
copy_data slong is_be src size count = rounds (copy_32 is_be src) count 0
copy_data long is_be src size count = rounds (copy_32 is_be src) count 0
copy_data float is_be src size count = rounds (copy_32 is_be src) count 0
copy_data dfloat is_be src size count = rounds (copy_64 is_be src) count 0
copy_data srational is_be src size count = rounds (copy_pair is_be src) count 0
copy_data rational is_be src size count = rounds (copy_pair is_be src) count 0
copy_data ascii is_be src size count = copy_string src count 0

-- `srcptr`, as an offset from the TIFF header; the entry stands at `pos`.
unfoldable pub data_source : (pos : ℕ) → Bool → (len_ifd size : ℕ) → Util (Option ℕ)
data_source pos is_be len_ifd size =
    if leb size 4
    then ((if is_be
          then load 4 (pos + 8) >>= (λ offset. store 4 (pos + 8) (be32_to_cpu offset))
          else pure tt)
        >> pure (some (pos + 8)))
    else load 4 (pos + 8) >>= λ offset.
        if ltb len_ifd ((offset + size) % 2 ^ 32)
        then complain invalid_offset_or_size >> pure none
        else pure (some offset)

-- The bytes asked for: one more for a string, in the arithmetic of `u32`.
abbrev pub block_size : Datatype → (size : ℕ) → ℕ
block_size ascii size = (size + 1) % 2 ^ 32
block_size _ size = size

-- `size`
abbrev pub data_size : Datatype → (count : ℕ) → ℕ
data_size kind count = datatype_size kind * count % 2 ^ 32

abbrev sizeof_data : ℕ
sizeof_data = 16

module _ (allocator : Allocator) where
  abbrev pub fill_data :
      (address ptr pos : ℕ) → Bool → (len_ifd : ℕ) → Datatype → (count : ℕ) → Util (Option TiffData)
  fill_data address ptr pos is_be len_ifd kind count =
      data_source pos is_be len_ifd (data_size kind count) >>= λ source. elim source [
        | none ↦ free ptr >> free address >> pure none
        | some src ↦
            copy_data kind is_be src (data_size kind count) count
              (replicate (block_size kind (data_size kind count)) none)
            >>= λ block. pure (
                some record {
                  address = address;
                  ptr = ptr;
                  kind = kind;
                  count = count;
                  block = block;
                })
      ]

  abbrev pub read_data : (pos : ℕ) → Bool → (len_ifd : ℕ) → Datatype → Util (Option TiffData)
  read_data pos is_be len_ifd kind = malloc allocator sizeof_data >>= λ got_data. elim got_data [
    | none ↦ complain memory_error >> pure none
    | some address ↦ load 4 (pos + 4) >>= λ count.
        malloc allocator (block_size kind (data_size kind count)) >>= λ got_block. elim got_block [
          | none ↦ complain memory_error >> free address >> pure none
          | some ptr ↦ fill_data address ptr pos is_be len_ifd kind count
        ]
  ]

  unfoldable pub jpeg_exif_read_entry : (pos : ℕ) → Bool → (len_ifd : ℕ) → Util (Option TiffData)
  unfolding copy_data data_source
  jpeg_exif_read_entry pos is_be len_ifd = load 2 (pos + 2) >>= λ kind. elim (to_datatype kind) [
    | none ↦ complain invalid_data_type >> pure none
    | some kind ↦ read_data pos is_be len_ifd kind
  ]
