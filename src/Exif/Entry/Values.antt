-- ===== src/Exif/Entry/Values.antt =====
-- What an entry of a little-endian buffer gives.
use mathlib.Core.List.{append_assoc, append-nil}
use fuzzuf_cc.Prelude.{
  if◌then◌else◌, leb→le, inr, inl, Bool-cases, ℕ, ◌+◌, ◌*◌, ◌%◌, ◌^◌, ◌<◌, ◌≤◌, ◌≡◌, refl, sym, ap,
  ◌∙◌, arith, false, [], ◌++◌, Option, none, some, length, take, drop, replicate, length-append,
  length-take, length-drop, length-map, length-replicate, take-append-drop, le→leb, leb, ltb,
}
use fuzzuf_cc.Prelude.Effect.{◌>>=◌, ok, and_then, and_then-ok}
use fuzzuf_cc.Exif.Types
use fuzzuf_cc.Bytes.{IsBytes}
use fuzzuf_cc.Exif.Types.{Exif, Util, Datatype, datatype_size}
use fuzzuf_cc.Exif.Heap.{overwrite, Allocator, load, put_block}
use fuzzuf_cc.Exif.Entry.{
  Block, rounds, copy_pair, copy_bytes, copy_data, data_source, block_size, data_size,
  jpeg_exif_read_entry,
}
use fuzzuf_cc.Exif.Entry.Steps.{
  field, HasEntry, IsGenerous, allocated, load-ok, jpeg_exif_read_entry-copy_data,
}
use fuzzuf_cc.Exif.Entry.Copies.{
  overwrite-append, IsInside, Copies, as_block, slice, slices, length-slice, load_put-copies,
  rounds-Copies, copy_16-Copies, copy_32-Copies, copy_64-Copies,
}

-- Two numbers of 4 bytes, one behind the other.
pair_copies :
    (a o : ℕ) (done hole rest : Block) (s : Exif)
    → IsBytes s.tiff
    → a + 8 ≤ length s.tiff
    → length done ≡ o
    → length hole ≡ 8
    → and_then
        (and_then (load 4 a s) (λ v. put_block 4 o v (done ++ (hole ++ rest))))
        (λ block. load 4 (a + 4) >>= λ v. put_block 4 (o + 4) v block)
      ≡ ok (done ++ (as_block (slice a 8 s) ++ rest)) s
pair_copies a o done hole rest s bytes inside at_o hole_8 =
    and_then-ok _ _ (done ++ (as_block (slice a 4 s) ++ (drop 4 hole ++ rest))) s _
      (ap (λ t. and_then (load 4 a s) (λ v. put_block 4 o v t)) (split done hole rest)
        ∙ load_put-copies 4 a o done (take 4 hole) (drop 4 hole ++ rest) s bytes
            (omega (arith, inside)) at_o (omega (arith, hole_8, length-take 4 hole)))
      (ap (λ t. and_then (load 4 (a + 4) s) (λ v. put_block 4 (o + 4) v t))
          (sym (append_assoc done (as_block (slice a 4 s)) (drop 4 hole ++ rest)))
        ∙ load_put-copies 4 (a + 4) (o + 4) (done ++ as_block (slice a 4 s)) (drop 4 hole) rest s
            bytes (omega (arith, inside))
            (omega (
              arith,
              at_o,
              length-append done (as_block (slice a 4 s)),
              length-map (slice a 4 s) (λ b. some b),
              length-slice a 4 s (omega (arith, inside)),
            ))
            (omega (arith, hole_8, length-drop 4 hole))
        ∙ ap (λ t. ok t s)
            (append_assoc done (as_block (slice a 4 s)) (as_block (slice (a + 4) 4 s) ++ rest)
              ∙ ap (λ t. done ++ t) (slices a 4 4 rest s)))
  where
    split :
        (done hole rest : Block)
        → done ++ (hole ++ rest) ≡ done ++ (take 4 hole ++ (drop 4 hole ++ rest))
    split done hole rest =
        ap (λ t. done ++ t)
          (ap (λ t. t ++ rest) (sym (take-append-drop 4 hole))
            ∙ append_assoc (take 4 hole) (drop 4 hole) rest)

copy_pair-Copies :
    (src count : ℕ) (s : Exif) → IsInside 8 src count s → Copies 8 src count s (copy_pair false src)
copy_pair-Copies src count s h i done hole rest below e e' =
    rw (at, first_at, second_at)
      (pair_copies (src + 8 * i) (8 * i) done hole rest s h.bytes (omega (arith, below, h.inside)) e
        e')
  where
    at : src + i * 8 % 2 ^ 32 ≡ src + 8 * i
    at = omega (arith, below, h.narrow)

    first_at : 4 * (2 * i % 2 ^ 32) ≡ 8 * i
    first_at = omega (arith, below, h.narrow)

    second_at : 4 * ((2 * i + 1) % 2 ^ 32) ≡ 8 * i + 4
    second_at = omega (arith, below, h.narrow)

-- The types with units of one size: all but the strings.
abbrev pub IsFixed : Datatype → Type 0
IsFixed Types.ascii = ⊥
IsFixed _ = Unit

-- All of a block of bytes is written at once.
copy_bytes-copies :
    (src count : ℕ) (s : Exif)
    → IsInside 1 src count s
    → copy_bytes src (1 * count) (replicate (1 * count) none) s
      ≡ ok (as_block (slice src (1 * count) s)) s
copy_bytes-copies src count s h = whole (1 * count) h.inside
  where
    whole :
        (n : ℕ)
        → src + n ≤ length s.tiff
        → copy_bytes src n (replicate n none) s ≡ ok (as_block (slice src n s)) s
    whole n inside =
        let fresh : Block = replicate n none in
        rw
          (
            le→leb (src + n) (length s.tiff) inside,
            le→leb n (length fresh)
                (omega (arith, length-replicate n (let b : Option ℕ = none in b))),
          )
          (ap (λ t. ok t s)
            (ap (overwrite 0 (as_block (slice src n s))) (sym (append-nil fresh))
              ∙ overwrite-append [] (as_block (slice src n s)) fresh [] (
                  length-map (slice src n s) (λ b. some b)
                  ∙ length-slice src n s inside
                  ∙ sym (length-replicate n none))
              ∙ append-nil (as_block (slice src n s))))

-- A loop from the start.
rounds-all :
    (w src count : ℕ) (s : Exif) (body : ℕ → Block → Util Block)
    → IsInside w src count s
    → Copies w src count s body
    → rounds body count 0 (replicate (w * count) none) s ≡ ok (as_block (slice src (w * count) s)) s
rounds-all w src count s body h copies =
    ap (λ n. rounds body count 0 (as_block (slice src n s) ++ replicate (w * count) none) s)
      (let e : 0 ≡ w * 0 = omega arith in e)
    ∙ rounds-Copies w src count s body count 0 h copies (omega arith)

copy_data-value :
    (kind : Datatype) (src count : ℕ) (s : Exif)
    → IsFixed kind
    → IsInside (datatype_size kind) src count s
    → copy_data kind false src
        (datatype_size kind * count)
        count
        (replicate (datatype_size kind * count) none)
        s
      ≡ ok (as_block (slice src (datatype_size kind * count) s)) s
unfolding copy_data
copy_data-value Types.ascii src count s fixed h = absurd fixed
copy_data-value Types.byte src count s fixed h = copy_bytes-copies src count s h
copy_data-value Types.sbyte src count s fixed h = copy_bytes-copies src count s h
copy_data-value Types.undefined src count s fixed h = copy_bytes-copies src count s h
copy_data-value Types.short src count s fixed h =
    rounds-all 2 src count s _ h (copy_16-Copies src count s h)
copy_data-value Types.sshort src count s fixed h =
    rounds-all 2 src count s _ h (copy_16-Copies src count s h)
copy_data-value Types.long src count s fixed h =
    rounds-all 4 src count s _ h (copy_32-Copies src count s h)
copy_data-value Types.slong src count s fixed h =
    rounds-all 4 src count s _ h (copy_32-Copies src count s h)
copy_data-value Types.float src count s fixed h =
    rounds-all 4 src count s _ h (copy_32-Copies src count s h)
copy_data-value Types.dfloat src count s fixed h =
    rounds-all 8 src count s _ h (copy_64-Copies src count s h)
copy_data-value Types.rational src count s fixed h =
    rounds-all 8 src count s _ h (copy_pair-Copies src count s h)
copy_data-value Types.srational src count s fixed h =
    rounds-all 8 src count s _ h (copy_pair-Copies src count s h)

-- Where the data of an entry stands: in the entry when it has at most 4 bytes.
abbrev pub source : (pos size offset : ℕ) → ℕ
source pos size offset = if leb size 4 then pos + 8 else offset

module _ (pos len_ifd size offset : ℕ) (s : Exif) where
  data_source-source :
      pos + 12 ≤ length s.tiff
      → field 4 (pos + 8) s.tiff ≡ offset
      → (4 < size → offset + size ≤ len_ifd)
      → len_ifd < 2 ^ 16
      → data_source pos false len_ifd size s ≡ ok (some (source pos size offset)) s
  unfolding data_source
  data_source-source inside at_offset within narrow = elim (Bool-cases (leb size 4)) [
    | inl e ↦ rw e refl
    | inr e ↦ rw e (
        and_then-ok (load 4 (pos + 8) s) _ offset s _
          (load-ok 4 (pos + 8) s (omega (arith, inside)) ∙ ap (λ v. ok v s) at_offset)
          (rw (passes (within (above e))) refl))
  ]
    where
      above : leb size 4 ≡ false → 4 < size
      above e = ground arith

      passes : offset + size ≤ len_ifd → ltb len_ifd ((offset + size) % 2 ^ 32) ≡ false
      passes h = ground arith

  source-inside :
      pos + 12 ≤ length s.tiff
      → (4 < size → offset + size ≤ len_ifd)
      → len_ifd ≤ length s.tiff
      → source pos size offset + size ≤ length s.tiff
  source-inside inside within room = elim (Bool-cases (leb size 4)) [
    | inl e ↦ rw e (let small : size ≤ 4 = leb→le size 4 e in omega (arith, small, inside))
    | inr e ↦ rw e (let h : offset + size ≤ len_ifd = within (above e) in omega (arith, h, room))
  ]
    where
      above : leb size 4 ≡ false → 4 < size
      above e = ground arith

block_of_fixed : (kind : Datatype) (size : ℕ) → IsFixed kind → block_size kind size ≡ size
block_of_fixed Types.ascii size fixed = absurd fixed
block_of_fixed Types.byte size fixed = refl
block_of_fixed Types.short size fixed = refl
block_of_fixed Types.long size fixed = refl
block_of_fixed Types.rational size fixed = refl
block_of_fixed Types.sbyte size fixed = refl
block_of_fixed Types.undefined size fixed = refl
block_of_fixed Types.sshort size fixed = refl
block_of_fixed Types.slong size fixed = refl
block_of_fixed Types.srational size fixed = refl
block_of_fixed Types.float size fixed = refl
block_of_fixed Types.dfloat size fixed = refl

-- When the allocator grants every block: an entry of any type but ASCII, in a little-endian buffer
-- of bytes at least as long as the directory says, which is below 2 ^ 16, whose size is below 2 ^
-- 32 and whose data, if it is more than 4 bytes, ends within the directory. The reader returns its
-- type, its count and exactly the bytes of its data, which stand in the entry itself when they are
-- at most 4 and at the offset else.
pub jpeg_exif_read_entry-value :
    (allocator : Allocator) (pos len_ifd : ℕ) (kind : Datatype) (count offset : ℕ) (s : Exif)
    → IsGenerous allocator
    → HasEntry s.tiff pos kind count offset
    → IsFixed kind
    → IsBytes s.tiff
    → len_ifd ≤ length s.tiff
    → len_ifd < 2 ^ 16
    → datatype_size kind * count < 2 ^ 32
    → (4 < datatype_size kind * count → offset + datatype_size kind * count ≤ len_ifd)
    → jpeg_exif_read_entry allocator pos false len_ifd s
      ≡ ok
          (some record {
            address = s.allocations;
            ptr = s.allocations + 1;
            kind = kind;
            count = count;
            block = as_block (
                take
                  (datatype_size kind * count)
                  (drop (source pos (datatype_size kind * count) offset) s.tiff));
          })
          (allocated s)
jpeg_exif_read_entry-value allocator pos len_ifd kind count offset s generous e fixed bytes room
      narrow small within =
    let size : ℕ = datatype_size kind * count in
    jpeg_exif_read_entry-copy_data allocator pos len_ifd false kind count offset s
      (source pos size offset) generous e
      (ap (λ n. data_source pos false len_ifd n (allocated s)) unwrapped
        ∙ data_source-source pos len_ifd size offset (allocated s) e.inside e.offset_is within
            narrow)
    ∙ rw (unwrapped, block_of_fixed kind size fixed)
        (and_then-ok _ _ (as_block (slice (source pos size offset) size s)) (allocated s) _
          (copy_data-value kind (source pos size offset) count (allocated s) fixed record {
            bytes = bytes;
            inside = source-inside pos len_ifd size offset s e.inside within room;
            narrow = small;
          })
          refl)
  where
    unwrapped : data_size kind count ≡ datatype_size kind * count
    unwrapped = omega (arith, small)
