-- ===== src/Exif/Walk/Segments.antt =====
-- The walk over a well-formed file, whose segments are all skipped.
use mathlib.Core.List.{append_assoc}
use fuzzuf_cc.Prelude.{
  ℕ, zero, suc, ◌+◌, ◌-◌, ◌/◌, ◌%◌, ◌^◌, ◌<◌, ◌≡◌, ◌==◌, refl, sym, ap, ◌∙◌, arith, true, false,
  List, [], ◌∷◌, ◌++◌, some, length, drop, length-append, drop-drop, drop-append, ltb,
}
use fuzzuf_cc.Prelude.Effect.{ok, and_then-ok}
use fuzzuf_cc.Bytes.{from_bytes}
use fuzzuf_cc.Exif.Types.{Exif, marker_soi, marker_eoi, marker_sos}
use fuzzuf_cc.Exif.Endian.{be16_to_cpu}
use fuzzuf_cc.Exif.Endian.Reverse.{be16_to_cpu-reverse_bytes}
use fuzzuf_cc.Exif.File.{fread}
use fuzzuf_cc.Exif.File.Reads.{fread-Ahead}
use fuzzuf_cc.Exif.Walk.{jpeg_seghandler_default, walk_loop, jpeg_walk, default_handlers}

pub record Segment : Type 0 where
  pub marker : ℕ
  pub payload : List ℕ

-- The marker, the length in two bytes, the highest first, and what the length counts.
abbrev pub encode : Segment → List ℕ
encode g = 0xff ∷ g.marker ∷ (length g.payload + 2) / 256 ∷ (length g.payload + 2) % 256 ∷ g.payload

abbrev pub encode_all : List Segment → List ℕ
encode_all [] = 0xff ∷ marker_eoi ∷ []
encode_all (g ∷ gs) = encode g ++ encode_all gs

abbrev pub encode_file : List Segment → List ℕ
encode_file gs = 0xff ∷ marker_soi ∷ encode_all gs

-- A segment that the default handler skips, and whose length two bytes can hold.
pub record IsSkipped (g : Segment) : Type 0 where
  pub not_soi : (g.marker == marker_soi) ≡ false
  pub not_eoi : (g.marker == marker_eoi) ≡ false
  pub not_sos : (g.marker == marker_sos) ≡ false
  pub fits : length g.payload + 2 < 2 ^ 16

abbrev pub AreSkipped : List Segment → Type 0
AreSkipped [] = Unit {0}
AreSkipped (g ∷ gs) = IsSkipped g × AreSkipped gs

-- The state with the file read up to `p`.
abbrev pub at : (p : ℕ) → Exif → Exif
at p s = record s { position = p; at_eof = false }

two_ahead :
    (a b p : ℕ) (rest : List ℕ) (s : Exif)
    → drop p s.file ≡ a ∷ b ∷ rest
    → fread 2 (at p s) ≡ ok (some (a ∷ b ∷ [])) (at (p + 2) s)
two_ahead a b p rest s h = fread-Ahead (at p s) (a ∷ b ∷ []) rest (omega arith) h

length_field : (n : ℕ) → n < 2 ^ 16 → be16_to_cpu (from_bytes (n / 256 ∷ n % 256 ∷ [])) ≡ n
length_field n h =
    be16_to_cpu-reverse_bytes (from_bytes (n / 256 ∷ n % 256 ∷ [])) (omega arith) ∙ omega arith

-- The default handler passes over a payload.
jpeg_seghandler_default-payload :
    (p : ℕ) (payload rest : List ℕ) (s : Exif)
    → length payload + 2 < 2 ^ 16
    → drop p s.file ≡ (length payload + 2) / 256 ∷ (length payload + 2) % 256 ∷ payload ++ rest
    → jpeg_seghandler_default (at p s) ≡ ok true (at (p + 2 + length payload) s)
unfolding jpeg_seghandler_default
jpeg_seghandler_default-payload p payload rest s fits h =
    and_then-ok _ _ _ (at (p + 2) s) _ (two_ahead _ _ p (payload ++ rest) s h) (
      rw (length_field (length payload + 2) fits, long (length payload), rest_of (length payload))
        refl)
  where
    long : (n : ℕ) → ltb (n + 2) 2 ≡ false
    long n = ground arith

    rest_of : (n : ℕ) → n + 2 - 2 ≡ n
    rest_of n = omega arith

two_behind :
    (a b p : ℕ) (rest : List ℕ) (s : Exif)
    → drop p s.file ≡ a ∷ b ∷ rest
    → drop (p + 2) s.file ≡ rest
two_behind a b p rest s h = sym (drop-drop p 2 s.file) ∙ ap (drop 2) h

-- What follows the marker of a segment, and what follows the segment.
behind_marker :
    (p : ℕ) (g : Segment) (rest junk : List ℕ) (s : Exif)
    → drop p s.file ≡ (encode g ++ rest) ++ junk
    → drop (p + 2) s.file
      ≡ (length g.payload + 2) / 256 ∷ (length g.payload + 2) % 256 ∷ (g.payload ++ (rest ++ junk))
behind_marker p g rest junk s h =
    two_behind _ _ p _ s h
    ∙ ap (λ t. (length g.payload + 2) / 256 ∷ (length g.payload + 2) % 256 ∷ t)
        (append_assoc g.payload rest junk)

behind_segment :
    (p : ℕ) (g : Segment) (rest junk : List ℕ) (s : Exif)
    → drop p s.file ≡ (encode g ++ rest) ++ junk
    → drop (p + 2 + 2 + length g.payload) s.file ≡ rest ++ junk
behind_segment p g rest junk s h =
    sym (drop-drop (p + 2 + 2) (length g.payload) s.file)
    ∙ ap (drop (length g.payload))
        (two_behind _ _ (p + 2) (g.payload ++ (rest ++ junk)) s (behind_marker p g rest junk s h))
    ∙ drop-append g.payload (rest ++ junk)

module _ (handler_fuel : ℕ) where
  walk_loop-skips :
      (gs : List Segment) (fuel p : ℕ) (junk : List ℕ) (s : Exif)
      → AreSkipped gs
      → length gs < fuel
      → drop p s.file ≡ encode_all gs ++ junk
      → walk_loop (default_handlers handler_fuel) fuel true (at p s)
        ≡ ok true (at (p + length (encode_all gs)) s)
  unfolding walk_loop
  walk_loop-skips gs zero p junk s skipped enough h = absurd (omega arith)
  walk_loop-skips [] (suc fuel) p junk s skipped enough h =
      and_then-ok _ _ _ (at (p + 2) s) _ (two_ahead _ _ p junk s h) refl
  walk_loop-skips (g ∷ gs) (suc fuel) p junk s skipped enough h =
      and_then-ok _ _ _ (at (p + 2) s) _ (two_ahead _ _ p _ s h) (
        rw (skipped.0.not_soi, skipped.0.not_eoi, skipped.0.not_sos)
          (and_then-ok _ _ _ (at (p + 2 + 2 + length g.payload) s) _
            (jpeg_seghandler_default-payload (p + 2) g.payload _ s skipped.0.fits
              (behind_marker p g (encode_all gs) junk s h))
            (walk_loop-skips gs fuel (p + 2 + 2 + length g.payload) junk s skipped.1 (omega arith)
                (behind_segment p g (encode_all gs) junk s h)
              ∙ ap (λ q. ok true (at q s))
                  (omega (arith, length-append g.payload (encode_all gs))))))

  -- A file made of the start marker, any segments with other markers than those of start, end and
  -- scan and with lengths that fit in two bytes, and the end marker, whatever stands behind it:
  -- with the default handlers and fuel for two rounds more than there are segments, the walk
  -- returns true, prints nothing, and leaves the position behind the end marker.
  pub jpeg_walk-encode_file :
      (gs : List Segment) (fuel : ℕ) (junk : List ℕ) (s : Exif)
      → AreSkipped gs
      → s.file ≡ encode_file gs ++ junk
      → length gs + 1 < fuel
      → jpeg_walk (default_handlers handler_fuel) fuel s
        ≡ ok true (record s { position = length (encode_file gs); at_eof = false })
  unfolding jpeg_walk
  jpeg_walk-encode_file gs zero junk s skipped h enough = absurd (omega arith)
  jpeg_walk-encode_file gs (suc fuel) junk s skipped h enough =
      and_then-ok _ _ _ (at (0 + 2) s) _ (two_ahead _ _ 0 _ s h) (
        walk_loop-skips gs fuel (0 + 2) junk s skipped (omega arith)
          (two_behind _ _ 0 (encode_all gs ++ junk) s h)
        ∙ ap (λ q. ok true (at q s)) (omega arith))
