-- ===== src/Exif/Ifd/Chains.antt =====
-- Directories without entries, and the chains they form.
use fuzzuf_cc.Prelude.{
  zero, ◌≤◌, ℕ, suc, ◌+◌, ◌-◌, ◌%◌, ◌^◌, ◌<◌, ◌≡◌, ◌==◌, refl, ap, ◌∙◌, arith, false, length, leb,
}
use fuzzuf_cc.Prelude.Effect.{out_of_fuel, fault, ok, and_then-ok}
use fuzzuf_cc.Exif.Types.{Exif, tiff_be}
use fuzzuf_cc.Exif.Heap.{load, Allocator}
use fuzzuf_cc.Exif.Entry.Steps.{field, load-ok}
use fuzzuf_cc.Exif.Ifd.{order_is_be, jpeg_exif_read_ifd, next_ifd, entry_position}

-- A little-endian segment, its buffer as long as `len_ifd` says.
pub record IsLittle (s : Exif) (len_ifd : ℕ) : Type 0 where
  pub order : (field 2 0 s.tiff == tiff_be) ≡ false
  pub size : length s.tiff ≡ len_ifd
  pub narrow : len_ifd < 2 ^ 16

-- A directory of no entries that passes the test on its offset.
pub record IsEmptyIfd (s : Exif) (len_ifd o : ℕ) : Type 0 where
  pub accepted : o + 4 < len_ifd
  pub no_entries : field 2 o s.tiff ≡ 0

-- An empty directory whose next one is in `Cycle` again.
pub record LinksTo (Cycle : ℕ → Type 0) (s : Exif) (len_ifd o : ℕ) : Type 0 where
  pub is_empty : IsEmptyIfd s len_ifd o
  pub room : o + 6 ≤ len_ifd
  pub not_last : (field 4 (o + 2) s.tiff == 0) ≡ false
  pub again : Cycle (field 4 (o + 2) s.tiff)

module _ (allocator : Allocator) (s : Exif) (len_ifd : ℕ) where
  order_is_be-little : IsLittle s len_ifd → 2 ≤ len_ifd → order_is_be s ≡ ok false s
  order_is_be-little little h =
      and_then-ok (load 2 0 s) _ _ s _ (load-ok 2 0 s (omega (arith, little.size)))
        (rw little.order refl)

  read_ifd-empty :
      (fuel o : ℕ)
      → IsLittle s len_ifd
      → IsEmptyIfd s len_ifd o
      → jpeg_exif_read_ifd allocator (suc fuel) o len_ifd s
        ≡ next_ifd allocator (λ offset. jpeg_exif_read_ifd allocator fuel offset len_ifd) (o + 2) s
  unfolding jpeg_exif_read_ifd
  read_ifd-empty fuel o little e = rw (accepts len_ifd o little.narrow e.accepted) (
      and_then-ok _ _ 0 s _
        (load-ok 2 o s (omega (arith, little.size, e.accepted)) ∙ ap (λ v. ok v s) e.no_entries)
        (and_then-ok (order_is_be s) _ false s _
          (order_is_be-little little (omega (arith, e.accepted)))
          (rw (behind len_ifd o little.narrow e.accepted) refl)))
    where
      accepts : (n o : ℕ) → n < 2 ^ 16 → o + 4 < n → leb ((n + 2 ^ 32 - 4) % 2 ^ 32) o ≡ false
      accepts n o narrow h = ground arith

      behind : (n o : ℕ) → n < 2 ^ 16 → o + 4 < n → entry_position o 0 ≡ o + 2
      behind n o narrow h = omega arith

  -- In a little-endian buffer as long as the directory says, below 2 ^ 16: if each directory of a
  -- set starts before the last 4 bytes, has no entries, has its field for the next one inside the
  -- buffer, and names there another one of the set, not at 0, then the reading of any of them uses
  -- up any fuel.
  pub jpeg_exif_read_ifd-cycle :
      (Cycle : ℕ → Type 0)
      → IsLittle s len_ifd
      → ((o : ℕ) → Cycle o → LinksTo Cycle s len_ifd o)
      → (fuel o : ℕ) → Cycle o
      → jpeg_exif_read_ifd allocator fuel o len_ifd s ≡ out_of_fuel s
  unfolding jpeg_exif_read_ifd
  jpeg_exif_read_ifd-cycle Cycle little links zero o c = refl
  jpeg_exif_read_ifd-cycle Cycle little links (suc fuel) o c =
      let link : LinksTo Cycle s len_ifd o = links o c in
      read_ifd-empty fuel o little link.is_empty
      ∙ and_then-ok (load 4 (o + 2) s) _ _ s _
          (load-ok 4 (o + 2) s (omega (arith, little.size, link.room)))
          (rw link.not_last (
            and_then-ok (order_is_be s) _ false s _
              (order_is_be-little little (omega (arith, link.room)))
              (jpeg_exif_read_ifd-cycle Cycle little links fuel _ link.again)))

  -- In a little-endian buffer as long as the directory says, below 2 ^ 16: a directory without
  -- entries that passes the test on its offset but has fewer than 6 bytes up to the end makes the
  -- reader take the offset of the next one from behind the buffer.
  pub jpeg_exif_read_ifd-behind :
      (fuel o : ℕ)
      → IsLittle s len_ifd
      → IsEmptyIfd s len_ifd o
      → len_ifd < o + 6
      → jpeg_exif_read_ifd allocator (suc fuel) o len_ifd s ≡ fault s
  unfolding load
  jpeg_exif_read_ifd-behind fuel o little e h =
      read_ifd-empty fuel o little e
      ∙ rw (outside (o + 2) (length s.tiff) (omega (arith, little.size)))
    where
      outside : (a n : ℕ) → n < a + 4 → leb (a + 4) n ≡ false
      outside a n h = ground arith
