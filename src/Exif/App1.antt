-- ===== src/Exif/App1.antt =====
-- `jpeg_custom_app1`: the handler of the segments that hold EXIF data.
pub mod Balance
use fuzzuf_cc.Prelude.{
  ℕ, ◌+◌, ◌-◌, ◌==◌, ◌&&◌, Bool, true, false, List, [], ◌∷◌, none, some, take, drop, ltb,
  if◌then◌else◌,
}
use fuzzuf_cc.Prelude.Effect.{ok, aborted, pure, ◌>>=◌, ◌>>◌}
use fuzzuf_cc.Bytes.{from_bytes}
use fuzzuf_cc.Exif.Types.{
  Util, exif_identifier, exif_identifier_len, sizeof_header, tiff_type_tiff, memory_error,
  truncated_file, unsupported_tiff_type,
}
use fuzzuf_cc.Exif.Endian.{be16_to_cpu, be32_to_cpu}
use fuzzuf_cc.Exif.File.{fread}
use fuzzuf_cc.Exif.Heap.{Allocator, malloc, free, complain, load}
use fuzzuf_cc.Exif.Ifd.{order_is_be, convert_field, jpeg_exif_read_ifd}

-- `memcmp (a, b, n) == 0`, for lists of one length.
abbrev pub same_bytes : List ℕ → List ℕ → Bool
same_bytes [] [] = true
same_bytes (x ∷ xs) (y ∷ ys) = x == y && same_bytes xs ys
same_bytes _ _ = false

-- The length field of a segment.
abbrev pub read_len_field : (ℕ → Util Bool) → Util Bool
read_len_field then_with = fread 2 >>= λ answer. elim answer [
  | none ↦ complain truncated_file >> pure false
  | some bytes ↦ then_with (be16_to_cpu (from_bytes bytes))
]

abbrev pub set_tiff : List ℕ → Util (Unit {0})
set_tiff bytes s = ok tt (record s { tiff = bytes })

module _ (allocator : Allocator) (fuel : ℕ) where
  abbrev pub read_tiff : (buffer len_ifd : ℕ) → Util Bool
  read_tiff buffer len_ifd =
      order_is_be
      >>= (λ is_be.
          if is_be then convert_field 2 2 be16_to_cpu >> convert_field 4 4 be32_to_cpu else pure tt)
      >> load 2 2
      >>= λ kind.
          if kind == tiff_type_tiff
          then (load 4 4
              >>= (λ ifd_offset. jpeg_exif_read_ifd allocator fuel ifd_offset len_ifd)
              >> free buffer
              >> pure true)
          else complain unsupported_tiff_type >> free buffer >> pure false

  abbrev pub use_segment : (len_field buffer : ℕ) → (bytes : List ℕ) → Util Bool
  use_segment len_field buffer bytes =
      if same_bytes (take exif_identifier_len bytes) exif_identifier
      then set_tiff (drop exif_identifier_len bytes)
        >> read_tiff buffer (len_field - 2 - exif_identifier_len)
      else free buffer >> pure true

  abbrev pub read_segment : (len_field : ℕ) → Util Bool
  read_segment len_field = malloc allocator (len_field - 2) >>= λ got. elim got [
    | none ↦ complain memory_error >> pure false
    | some buffer ↦ fread (len_field - 2) >>= λ answer. elim answer [
      | none ↦ complain truncated_file >> free buffer >> pure false
      | some bytes ↦ use_segment len_field buffer bytes
    ]
  ]

  abbrev pub assert_length : (len_field : ℕ) → Util Bool
  assert_length len_field s =
      if ltb (2 + exif_identifier_len + sizeof_header) len_field
      then read_segment len_field s
      else aborted s

  unfoldable pub jpeg_custom_app1 : Util Bool
  unfolding jpeg_exif_read_ifd
  jpeg_custom_app1 = read_len_field assert_length
