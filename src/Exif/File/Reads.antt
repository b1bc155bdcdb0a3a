-- ===== src/Exif/File/Reads.antt =====
-- What a read gives when the bytes are there.
use fuzzuf_cc.Prelude.{
  take-append, le→leb, length-append, length-drop, ◌<◌, ℕ, ◌+◌, ◌≡◌, ◌≤◌, refl, ap, arith, List,
  some, length, drop, ◌++◌,
}
use fuzzuf_cc.Prelude.Effect.{ok}
use fuzzuf_cc.Exif.Types.{Exif}
use fuzzuf_cc.Exif.File.{fread}

pub fread-Ahead :
    (s : Exif) (bs rest : List ℕ)
    → 0 < length bs
    → drop s.position s.file ≡ bs ++ rest
    → fread (length bs) s ≡ ok (some bs) (record s { position = s.position + length bs })
fread-Ahead s bs rest some_byte h =
    rw
      (
        le→leb (s.position + length bs) (length s.file) (inside s bs rest some_byte h),
        h,
        take-append bs rest,
      )
      refl
  where
    inside :
        (s : Exif) (bs rest : List ℕ)
        → 0 < length bs
        → drop s.position s.file ≡ bs ++ rest
        → s.position + length bs ≤ length s.file
    inside s bs rest some_byte h =
        omega (arith, length-drop s.position s.file, ap length h, length-append bs rest)
