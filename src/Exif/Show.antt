-- ===== src/Exif/Show.antt =====
-- `jpeg_exif_show_entry`: an entry, printed.
use fuzzuf_cc.Prelude.{
  ◌^◌, ℕ, zero, suc, ◌+◌, ◌*◌, ◌%◌, ◌==◌, List, [], ◌∷◌, Option, none, some, length, take, drop,
  leb, if◌then◌else◌,
}
use fuzzuf_cc.Prelude.Effect.{ok, fault, ◌>>=◌, ◌>>◌}
use fuzzuf_cc.Bytes.{from_bytes}
use fuzzuf_cc.Exif.Types.{Exif, Util, TiffData, Format, Printed, Title}
use fuzzuf_cc.Exif.Types
use fuzzuf_cc.Exif.Heap.{print}
use fuzzuf_cc.Exif.Entry.{Block}

abbrev pub title_of : ℕ → Title
title_of tag =
    if tag == 256
    then Types.image_width
    else if tag == 257
    then Types.image_height
    else if tag == 270
    then Types.image_description
    else if tag == 271
    then Types.maker
    else if tag == 272
    then Types.model
    else if tag == 274
    then Types.orientation
    else if tag == 282
    then Types.x_resolution
    else if tag == 283
    then Types.y_resolution
    else if tag == 296
    then Types.resolution_unit
    else if tag == 305
    then Types.creator_tool
    else if tag == 306
    then Types.last_modified_date
    else if tag == 315
    then Types.artist
    else if tag == 33432
    then Types.copyright
    else if tag == 36864
    then Types.exif_version
    else Types.unknown_tag tag

-- Bytes that were all written.
abbrev pub written : Block → Option (List ℕ)
written [] = some []
written (none ∷ bs) = none
written (some b ∷ bs) = elim (written bs) [ none ↦ none | some rest ↦ some (b ∷ rest) ]

-- A value of `n` bytes at `o`; it is undefined outside the block and where nothing was written.
unfoldable pub value_at : (n o : ℕ) → Block → Util ℕ
value_at n o block s =
    if leb (o + n) (length block)
    then elim (written (take n (drop o block))) [ none ↦ fault s | some bs ↦ ok (from_bytes bs) s ]
    else fault s

-- What `%s` prints: the characters before the 0.
abbrev pub c_string : Block → Option (List ℕ)
c_string [] = none
c_string (none ∷ bs) = none
c_string (some c ∷ bs) =
    let rest : Option (List ℕ) = elim (c_string bs) [ none ↦ none | some text ↦ some (c ∷ text) ] in
    if c == 0 then some [] else rest

abbrev pub show_string : Block → Util (Unit {0})
show_string block s = elim (c_string block) [
  | none ↦ fault s
  | some text ↦ (print (Types.string text) >> print Types.newline) s
]

-- `for (i = 0; i < data->count; i++)`, with `n` rounds left.
unfoldable pub show_numbers : Format → (width n i : ℕ) → Block → Util (Unit {0})
unfolding value_at
show_numbers format width zero i block = print Types.newline
show_numbers format width (suc n) i block = value_at width (width * i) block >>= λ v.
    print (Types.number format v) >> show_numbers format width n (i + 1) block

unfoldable pub show_fractions : Format → (n i : ℕ) → Block → Util (Unit {0})
unfolding value_at
show_fractions format zero i block = print Types.newline
show_fractions format (suc n) i block = value_at 4 (4 * (2 * i % 2 ^ 32)) block >>= λ a.
    value_at 4 (4 * ((2 * i + 1) % 2 ^ 32)) block >>= λ b.
    print (Types.fraction format a b) >> show_fractions format n (i + 1) block

-- The formats by the lowest bit of the type, `data->type & 1`.
unfoldable pub show_data : TiffData → Util (Unit {0})
unfolding show_numbers show_fractions
show_data t = elim t.kind [
  | Types.ascii ↦ show_string t.block
  | Types.sbyte ↦ show_numbers Types.hhd 1 t.count 0 t.block
  | Types.byte ↦ show_numbers Types.hhu 1 t.count 0 t.block
  | Types.sshort ↦ show_numbers Types.hd 2 t.count 0 t.block
  | Types.short ↦ show_numbers Types.hu 2 t.count 0 t.block
  | Types.slong ↦ show_numbers Types.d 4 t.count 0 t.block
  | Types.long ↦ show_numbers Types.u 4 t.count 0 t.block
  | Types.srational ↦ show_fractions Types.u t.count 0 t.block
  | Types.rational ↦ show_fractions Types.d t.count 0 t.block
  | Types.float ↦ show_numbers Types.f 4 t.count 0 t.block
  | Types.dfloat ↦ show_numbers Types.lf 8 t.count 0 t.block
  | Types.undefined ↦ print Types.undefined_line
]

unfoldable pub jpeg_exif_show_entry : (tag : ℕ) → TiffData → Util (Unit {0})
unfolding show_data
jpeg_exif_show_entry tag t = print (Types.title (title_of tag)) >> show_data t
