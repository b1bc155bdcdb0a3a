-- ===== src/Exif/File.antt =====
-- The calls of `fread`, `fseek` and `feof`, on the bytes of the file.
use fuzzuf_cc.Prelude.{
  ℕ, ◌+◌, ◌-◌, Bool, true, false, List, Option, none, some, length, take, drop, leb, ltb,
  if◌then◌else◌,
}
use fuzzuf_cc.Prelude.Effect.{ok}
use fuzzuf_cc.Exif.Types.{Exif, Util}
pub mod Reads
pub mod Cases

-- `fread (p, n, 1, file)`: the `n` bytes, or at the end of the file what is left of them and 0.
abbrev pub fread : ℕ → Util (Option (List ℕ))
fread n s =
    if leb (s.position + n) (length s.file)
    then ok (some (take n (drop s.position s.file))) (record s { position = s.position + n })
    else ok none (record s {
      position = if ltb s.position (length s.file) then length s.file else s.position;
      at_eof = true;
    })

abbrev pub feof : Util Bool
feof s = ok s.at_eof s

-- `fseek (file, n, SEEK_CUR)` forwards, also beyond the end, and backwards, where a position before
-- the start is refused; `fseek (file, 0, SEEK_SET)`.
abbrev pub seek_forward : ℕ → Util (Unit {0})
seek_forward n s = ok tt (record s { position = s.position + n; at_eof = false })

abbrev pub seek_back : ℕ → Util (Unit {0})
seek_back n s =
    if leb n s.position
    then ok tt (record s { position = s.position - n; at_eof = false })
    else ok tt s

abbrev pub seek_start : Util (Unit {0})
seek_start s = ok tt (record s { position = 0; at_eof = false })

-- `fseek (file, len_field - sizeof (len_field), SEEK_CUR)`: the difference is of two `size_t`, and
-- below 2 it wraps to a negative `long`.
abbrev pub skip_segment : (len_field : ℕ) → Util (Unit {0})
skip_segment len_field =
    if ltb len_field 2 then seek_back (2 - len_field) else seek_forward (len_field - 2)
