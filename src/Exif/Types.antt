-- ===== src/Exif/Types.antt =====
-- The constants and structs of put/exifutil/exifutil.c, and the state of a run.
use fuzzuf_cc.Prelude.{none, some, ◌==◌, [], ◌∷◌, if◌then◌else◌, ℕ, Bool, List, Option}
use fuzzuf_cc.Prelude.Effect.{Cmd}

-- The JPEG_MARKER_ constants.
abbrev pub marker_soi : ℕ
marker_soi = 0xd8

abbrev pub marker_eoi : ℕ
marker_eoi = 0xd9

abbrev pub marker_sos : ℕ
marker_sos = 0xda

abbrev pub marker_rst0 : ℕ
marker_rst0 = 0xd0

abbrev pub marker_rst7 : ℕ
marker_rst7 = 0xd7

abbrev pub marker_app1 : ℕ
marker_app1 = 0xe1

-- JPEG_EXIF_IDENTIFIER and its length.
abbrev pub exif_identifier : List ℕ
exif_identifier = b'E' ∷ b'x' ∷ b'i' ∷ b'f' ∷ 0 ∷ 0 ∷ []

abbrev pub exif_identifier_len : ℕ
exif_identifier_len = 6

abbrev pub tiff_be : ℕ
tiff_be = 0x4d4d

abbrev pub tiff_type_tiff : ℕ
tiff_type_tiff = 0x2a

-- The tags that `jpeg_exif_read_ifd` follows.
abbrev pub tagid_exif_ifd : ℕ
tagid_exif_ifd = 34665

abbrev pub tagid_gps_ifd : ℕ
tagid_gps_ifd = 34853

abbrev pub tagid_exif_iifd : ℕ
tagid_exif_iifd = 40965

-- The JPEG_EXIF_DATATYPE_ constants, from 1 in this order.
pub data Datatype : Type 0 where
  byte ascii short long rational sbyte undefined sshort slong srational float dfloat : Datatype

-- The test of `jpeg_exif_read_entry` on `entry->type`, and the type for the `switch`.
abbrev pub to_datatype : ℕ → Option Datatype
to_datatype n =
    if n == 1
    then some byte
    else if n == 2
    then some ascii
    else if n == 3
    then some short
    else if n == 4
    then some long
    else if n == 5
    then some rational
    else if n == 6
    then some sbyte
    else if n == 7
    then some undefined
    else if n == 8
    then some sshort
    else if n == 9
    then some slong
    else if n == 10
    then some srational
    else if n == 11
    then some float
    else if n == 12
    then some dfloat
    else none

-- JPEG_EXIF_DATATYPE_SIZE
abbrev pub datatype_size : Datatype → ℕ
datatype_size byte = 1
datatype_size ascii = 1
datatype_size short = 2
datatype_size long = 4
datatype_size rational = 8
datatype_size sbyte = 1
datatype_size undefined = 1
datatype_size sshort = 2
datatype_size slong = 4
datatype_size srational = 8
datatype_size float = 4
datatype_size dfloat = 8

-- `sizeof (tiff_header_t)` and `sizeof (tiff_entry_t)`, which are packed.
abbrev pub sizeof_header : ℕ
sizeof_header = 8

abbrev pub sizeof_entry : ℕ
sizeof_entry = 12

-- `tiff_data_t`: where it stands, its `ptr`, and what is in the block that the union points to.
-- `none` is a byte not yet written.
pub record TiffData : Type 0 where
  pub address : ℕ
  pub ptr : ℕ
  pub kind : Datatype
  pub count : ℕ
  pub block : List (Option ℕ)

-- What `printf` is asked to print: the conversions, and the names of the known tags.
pub data Format : Type 0 where
  hhu hhd hu hd u d f lf : Format

pub data Title : Type 0 where
  image_width image_height image_description maker model orientation : Title
  x_resolution y_resolution resolution_unit creator_tool last_modified_date : Title
  artist copyright exif_version : Title
  unknown_tag : ℕ → Title

pub data Message : Type 0 where
  memory_error broken_marker invalid_marker soi_at_invalid_position not_jpeg eoi_not_found : Message
  truncated_file end_of_sos_not_found invalid_data_type invalid_offset_or_size : Message
  invalid_ifd_offset invalid_ifd_count unsupported_tiff_type cannot_open : Message

pub data Printed : Type 0 where
  title : Title → Printed
  number : Format → ℕ → Printed
  fraction : Format → ℕ → ℕ → Printed
  string : List ℕ → Printed
  newline undefined_line usage : Printed
  file_name : List ℕ → Printed
  error : Message → Printed

-- The open file with its position and end-of-file flag; the bytes from the TIFF header to the end
-- of the segment's buffer; the addresses of the blocks on the heap, the number of the open files and
-- of the calls of the allocator; and what was printed, the latest first.
pub record Exif : Type 0 where
  pub file : List ℕ
  pub position : ℕ
  pub at_eof : Bool
  pub tiff : List ℕ
  pub blocks : List ℕ
  pub open_files : ℕ
  pub allocations : ℕ
  pub printed : List Printed

abbrev pub Util : Type 0 → Type 0
Util A = Cmd Exif A
