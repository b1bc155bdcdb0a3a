-- ===== src/Exif/Tests.antt =====
-- Files, buffers and systems to run exifutil on.
use mathlib.Core.Path.{subst}
use fuzzuf_cc.Prelude.{
  ℕ, ◌≡◌, refl, sym, arith, Bool, true, false, List, [], ◌∷◌, ◌++◌, some, length,
}
use fuzzuf_cc.Prelude.Effect.{Run, ok, fault, out_of_fuel}
use fuzzuf_cc.Exif.Types.{exif_identifier, Exif, long, short, byte}
use fuzzuf_cc.Exif.Endian.{be16_to_cpu, be32_to_cpu, be64_to_cpu}
use fuzzuf_cc.Exif.Endian.Reverse.{reverse_bytes, be32_to_cpu-reverse_bytes, be64_to_cpu-drops_byte}
use fuzzuf_cc.Bytes.{are_bytes-IsBytes}
use fuzzuf_cc.Exif.Entry.Copies.{as_block}
use fuzzuf_cc.Exif.Entry.Values.{jpeg_exif_read_entry-value}
use fuzzuf_cc.Exif.Entry.Wrap.{jpeg_exif_read_entry-wraps}
use fuzzuf_cc.Exif.Heap.{Allocator, load, put_block}
use fuzzuf_cc.Exif.Heap.Balance.{Leaves}
use fuzzuf_cc.Exif.Entry.{jpeg_exif_read_entry}
use fuzzuf_cc.Exif.Entry.Steps.{allocated}
use fuzzuf_cc.Exif.Entry.Overflow.{jpeg_exif_read_entry-overflow}
use fuzzuf_cc.Exif.Ifd.{jpeg_exif_read_ifd}
use fuzzuf_cc.Exif.Ifd.Chains.{LinksTo, jpeg_exif_read_ifd-cycle, jpeg_exif_read_ifd-behind}
use fuzzuf_cc.Exif.Walk.{jpeg_walk, default_handlers}
use fuzzuf_cc.Exif.Walk.Ends.{jpeg_walk-Returns}
use fuzzuf_cc.Exif.Walk.Segments.{Segment, encode_file, jpeg_walk-encode_file}
use fuzzuf_cc.Exif.Main.{System, f, main}
use fuzzuf_cc.Exif.Show.{jpeg_exif_show_entry}
use fuzzuf_cc.Exif.App1.{jpeg_custom_app1}
use fuzzuf_cc.Exif.Main.Balance.{main-blocks}

abbrev generous : Allocator
generous calls size = true

-- At the start, with the file and the buffer at hand.
abbrev starting : (file tiff : List ℕ) → Exif
starting file tiff = record {
  file = file;
  position = 0;
  at_eof = false;
  tiff = tiff;
  blocks = [];
  open_files = 0;
  allocations = 0;
  printed = [];
}

abbrev segments : List Segment
segments = record { marker = 0xe0; payload = 1 ∷ 2 ∷ 3 ∷ [] } ∷ []

abbrev picture : List ℕ
picture = encode_file segments ++ (7 ∷ [])

jpeg_walk-encode_file_example :
    jpeg_walk (default_handlers 3) 5 (starting picture [])
    ≡ ok true
        (record (starting picture []) { position = length (encode_file segments); at_eof = false })
jpeg_walk-encode_file_example =
    jpeg_walk-encode_file 3 segments 5 (7 ∷ []) (starting picture [])
      (record { not_soi = refl; not_eoi = refl; not_sos = refl; fits = omega arith }, tt) refl
      (omega arith)

-- A scan that never ends.
abbrev unending : List ℕ
unending = 0xff ∷ 0xd8 ∷ 0xff ∷ 0xda ∷ 0 ∷ 2 ∷ 1 ∷ 0xff ∷ 0 ∷ []

jpeg_walk-Returns_example :
    (b : Bool) × (t : Exif) × (jpeg_walk (default_handlers 10) 10 (starting unending []) ≡ ok b t)
jpeg_walk-Returns_example = jpeg_walk-Returns 10 (starting unending []) (omega arith)

be32_to_cpu-reverse_bytes_example : be32_to_cpu 0x11223344 ≡ reverse_bytes 4 0x11223344
be32_to_cpu-reverse_bytes_example = be32_to_cpu-reverse_bytes 0x11223344 (omega arith)

be64_to_cpu-drops_byte_example : be64_to_cpu 0x11550000000022 ≡ be64_to_cpu 0x11660000000022
be64_to_cpu-drops_byte_example =
    be64_to_cpu-drops_byte 0x11550000000022 0x11660000000022 (omega arith) (omega arith)

-- The header of a little-endian buffer whose first directory stands at 8.
abbrev little : List ℕ → List ℕ
little rest = 0x49 ∷ 0x49 ∷ 0x2a ∷ 0 ∷ 8 ∷ 0 ∷ 0 ∷ 0 ∷ rest

-- One entry of 2 ^ 30 numbers of 4 bytes.
abbrev huge : List ℕ
huge = little (1 ∷ 0 ∷ 0 ∷ 1 ∷ 4 ∷ 0 ∷ 0 ∷ 0 ∷ 0 ∷ 64 ∷ 0 ∷ 0 ∷ 0 ∷ 0 ∷ 0 ∷ [])

jpeg_exif_read_entry-overflow_example :
    jpeg_exif_read_entry generous 10 false 23 (starting [] huge)
    ≡ fault (allocated (starting [] huge))
jpeg_exif_read_entry-overflow_example =
    jpeg_exif_read_entry-overflow generous 10 23 long 0x40000000 0 (starting [] huge)
      (λ calls size. refl)
      (record { inside = omega arith; kind_is = refl; count_is = refl; offset_is = refl })
      (omega arith) (omega arith) (omega arith)

-- One entry of three numbers of 2 bytes, which stand behind the entries.
abbrev shorts : List ℕ
shorts =
    little
      (1 ∷ 0 ∷ 0 ∷ 1 ∷ 3 ∷ 0 ∷ 3 ∷ 0 ∷ 0 ∷ 0 ∷ 22 ∷ 0 ∷ 0 ∷ 0 ∷ 10 ∷ 11 ∷ 12 ∷ 13 ∷ 14 ∷ 15 ∷ [])

jpeg_exif_read_entry-value_example :
    jpeg_exif_read_entry generous 10 false 28 (starting [] shorts)
    ≡ ok
        (some record {
          address = 0;
          ptr = 1;
          kind = short;
          count = 3;
          block = as_block (10 ∷ 11 ∷ 12 ∷ 13 ∷ 14 ∷ 15 ∷ []);
        })
        (allocated (starting [] shorts))
jpeg_exif_read_entry-value_example =
    jpeg_exif_read_entry-value generous 10 28 short 3 22 (starting [] shorts) (λ calls size. refl)
      (record { inside = omega arith; kind_is = refl; count_is = refl; offset_is = refl }) tt
      (are_bytes-IsBytes shorts refl) (omega arith) (omega arith) (omega arith) (λ h. omega arith)

-- One entry of 16 bytes at 2 ^ 32 - 8.
abbrev wrapping : List ℕ
wrapping = little (1 ∷ 0 ∷ 0 ∷ 1 ∷ 1 ∷ 0 ∷ 16 ∷ 0 ∷ 0 ∷ 0 ∷ 248 ∷ 255 ∷ 255 ∷ 255 ∷ 0 ∷ [])

jpeg_exif_read_entry-wraps_example :
    jpeg_exif_read_entry generous 10 false 23 (starting [] wrapping)
    ≡ fault (allocated (starting [] wrapping))
jpeg_exif_read_entry-wraps_example =
    jpeg_exif_read_entry-wraps generous 10 23 byte 16 0xfffffff8 (starting [] wrapping)
      (λ calls size. refl)
      (record { inside = omega arith; kind_is = refl; count_is = refl; offset_is = refl })
      (omega arith) (omega arith) (omega arith)

-- A directory that is its own next one.
abbrev ring : List ℕ
ring = little (0 ∷ 0 ∷ 8 ∷ 0 ∷ 0 ∷ 0 ∷ 0 ∷ [])

jpeg_exif_read_ifd-cycle_example :
    jpeg_exif_read_ifd generous 100 8 15 (starting [] ring) ≡ out_of_fuel (starting [] ring)
jpeg_exif_read_ifd-cycle_example =
    jpeg_exif_read_ifd-cycle generous (starting [] ring) 15 (λ o. o ≡ 8)
      (record { order = refl; size = refl; narrow = omega arith })
      (λ o e. subst (LinksTo (λ k. k ≡ 8) (starting [] ring) 15) (sym e) record {
        is_empty = record { accepted = omega arith; no_entries = refl };
        room = omega arith;
        not_last = refl;
        again = refl;
      })
      100 8 refl

-- A directory that ends the buffer, without the field for the next one.
abbrev short_of_field : List ℕ
short_of_field = little (0 ∷ 0 ∷ 0 ∷ 0 ∷ 0 ∷ [])

jpeg_exif_read_ifd-behind_example :
    jpeg_exif_read_ifd generous 1 8 13 (starting [] short_of_field)
    ≡ fault (starting [] short_of_field)
jpeg_exif_read_ifd-behind_example =
    jpeg_exif_read_ifd-behind generous (starting [] short_of_field) 13 0 8
      (record { order = refl; size = refl; narrow = omega arith })
      (record { accepted = omega arith; no_entries = refl }) (omega arith)

-- A segment of EXIF data with one entry, in 36 bytes.
abbrev exif_picture : List ℕ
exif_picture =
    0xff
    ∷ 0xd8
    ∷ 0xff
    ∷ 0xe1
    ∷ 0
    ∷ 36
    ∷ (exif_identifier
        ++ little (
            1
            ∷ 0
            ∷ 0
            ∷ 1
            ∷ 3
            ∷ 0
            ∷ 1
            ∷ 0
            ∷ 0
            ∷ 0
            ∷ 10
            ∷ 0
            ∷ 0
            ∷ 0
            ∷ 0
            ∷ 0
            ∷ 0
            ∷ 0
            ∷ 0
            ∷ 0
            ∷ (0xff ∷ 0xd9 ∷ [])))

abbrev with_picture : Allocator → System
with_picture allocator = record {
  allocator = allocator;
  fopen = λ path. some exif_picture;
  fuel = 20;
}

main-blocks_example :
    Leaves
      (main (with_picture generous) (f (b'p' ∷ []) ∷ []) (starting [] []))
      (λ code t. t.blocks ≡ [])
main-blocks_example = main-blocks (with_picture generous) (f (b'p' ∷ []) ∷ []) (starting [] [])

-- What the run above comes to: six blocks allocated, none left.
abbrev counts : Run Exif ℕ → List ℕ × ℕ
counts (ok code t) = (t.blocks, t.allocations)
counts _ = (0 ∷ [], 0)

counts-main : counts (main (with_picture generous) (f (b'p' ∷ []) ∷ []) (starting [] [])) ≡ ([], 6)
unfolding main jpeg_custom_app1 be16_to_cpu load jpeg_exif_read_entry put_block jpeg_exif_show_entry
counts-main = refl
