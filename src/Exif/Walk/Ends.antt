-- ===== src/Exif/Walk/Ends.antt =====
-- The walk over a file ends.
use fuzzuf_cc.Exif.App1.{read_len_field}
use fuzzuf_cc.Exif.Endian.{be16_to_cpu}
use fuzzuf_cc.Bytes.{from_bytes}
use fuzzuf_cc.Prelude.Effect.{
  ok, exited, killed, aborted, fault, out_of_fuel, Returns-and_then, Run, pure, ◌>>◌, Returns,
  Returns_mono, Returns_if,
}
use fuzzuf_cc.Prelude.{
  none, Option, if◌then◌else◌, false, ap, ltb, ℕ, zero, suc, ◌+◌, ◌-◌, ◌<◌, ◌≤◌, ◌≡◌, refl, arith,
  List, [], ◌∷◌, some, Bool, true, length, ◌==◌, ◌&&◌, leb,
}
use fuzzuf_cc.Exif.Types.{
  marker_soi, marker_eoi, marker_sos, Printed, error, end_of_sos_not_found, marker_rst0,
  marker_rst7, Exif, Util,
}
use fuzzuf_cc.Exif.File.{seek_forward, skip_segment, seek_back}
use fuzzuf_cc.Exif.File.Cases.{After, After-trans, fread-Returns, advanced}
use fuzzuf_cc.Exif.Walk.{
  jpeg_walk, at_marker, call_handler, with_marker, Handlers, jpeg_seghandler_skip_sos, walk_loop,
  jpeg_seghandler_default, default_handlers, with_byte, find_marker, next_byte,
}

abbrev left : Exif → ℕ
left s = length s.file - s.position

module _ (s : Exif) (failed : Util Bool) (k : ℕ → Util Bool) (P : Bool → Exif → Type 0) where
  next_byte-Returns :
      ((t : Exif) → After s t → Returns (failed t) P)
      → ((c : ℕ) → s.position + 1 ≤ length s.file → Returns (k c (advanced 1 s)) P)
      → Returns (next_byte failed k s) P
  next_byte-Returns fails reads = fread-Returns 1 s _ P fails (λ bs h. one bs h)
    where
      moved : s.position + 1 ≤ length s.file → After s (advanced 1 s)
      moved h = record { same_file = refl; not_before = omega arith }

      one :
          (bs : List ℕ)
          → s.position + 1 ≤ length s.file
          → Returns (with_byte failed k (some bs) (advanced 1 s)) P
      one [] h = fails _ (moved h)
      one (c ∷ []) h = reads c h
      one (c ∷ d ∷ bs) h = fails _ (moved h)

After-print : (s t : Exif) (ps : List Printed) → After s t → After s (record t { printed = ps })
After-print s t ps a = record { same_file = a.same_file; not_before = a.not_before }

After-refl : (s : Exif) → After s s
After-refl s = record { same_file = refl; not_before = omega arith }

further :
    (s t : Exif) (r : Run Exif Bool)
    → After s t
    → Returns r (λ b u. After t u)
    → Returns r (λ b u. After s u)
further s t r a h = Returns_mono r _ _ h (λ b u. After-trans s t u a)

-- From any state, with fuel for each byte that is left, the search returns, not before its start.
find_marker-Returns :
    (fuel : ℕ) (s : Exif) → left s < fuel → Returns (find_marker fuel s) (λ b t. After s t)
unfolding find_marker
find_marker-Returns zero s h = absurd (omega arith)
find_marker-Returns (suc fuel) s h =
    Returns_if s.at_eof _ _ s _ (λ e. here s)
      (λ e.
        next_byte-Returns s _ _ _ (λ t a. After-print s t _ a)
          (λ c p.
            Returns_if (c == 0xff) _ _ (advanced 1 s) _
              (λ marked.
                next_byte-Returns (advanced 1 s) _ _ _
                  (λ t a. After-print s t _ (After-trans s (advanced 1 s) t (step s) a))
                  (λ c' p'.
                    Returns_if (c' == 0) _ _ (advanced 1 (advanced 1 s)) _
                      (λ stuffed.
                        further s (advanced 1 (advanced 1 s)) _ (two s)
                          (find_marker-Returns fuel (advanced 1 (advanced 1 s)) (omega arith)))
                      (λ other.
                        Returns_if (leb marker_rst0 c' && leb c' marker_rst7) _ _
                          (advanced 1 (advanced 1 s)) _
                          (λ reset.
                            further s (advanced 1 (advanced 1 s)) _ (two s)
                              (find_marker-Returns fuel (advanced 1 (advanced 1 s)) (omega arith)))
                          (λ found. back s))))
              (λ plain.
                further s (advanced 1 s) _ (step s)
                  (find_marker-Returns fuel (advanced 1 s) (omega arith)))))
  where
    here : (s : Exif) → After s (record s { printed = error end_of_sos_not_found ∷ s.printed })
    here s = record { same_file = refl; not_before = omega arith }

    step : (s : Exif) → After s (advanced 1 s)
    step s = record { same_file = refl; not_before = omega arith }

    back :
        (s : Exif)
        → Returns ((seek_back 2 >> pure true) (advanced 1 (advanced 1 s))) (λ b t. After s t)
    back s =
        let e : leb 2 (s.position + 1 + 1) ≡ true = ground arith in
        rw e record { same_file = refl; not_before = omega arith }

    two : (s : Exif) → After s (advanced 1 (advanced 1 s))
    two s = record { same_file = refl; not_before = omega arith }

skip_segment-Returns :
    (len_field : ℕ) (s : Exif) → Returns (skip_segment len_field (advanced 2 s)) (λ _ t. After s t)
skip_segment-Returns len_field s =
    Returns_if (ltb len_field 2) (seek_back (2 - len_field)) (seek_forward (len_field - 2))
      (advanced 2 s) _
      (λ e.
        let room : leb (2 - len_field) (s.position + 2) ≡ true = ground arith in
        rw room record { same_file = refl; not_before = omega arith })
      (λ e. record { same_file = refl; not_before = omega arith })

left-After : (s t : Exif) → After s t → left t ≤ left s
left-After s t a = omega (arith, ap length a.same_file)

-- The length field, the skip by it, and then `k`.
skip_then-Returns :
    (s : Exif) (k : Util Bool)
    → ((t : Exif) → After s t → Returns (k t) (λ b u. After s u))
    → Returns (read_len_field (λ len_field. skip_segment len_field >> k) s) (λ b t. After s t)
skip_then-Returns s k h =
    fread-Returns 2 s _ _ (λ t a. After-print s t _ a)
      (λ bs p.
        Returns-and_then (skip_segment (be16_to_cpu (from_bytes bs)) (advanced 2 s)) (λ _. k)
          (λ _ t. After s t) (λ b t. After s t)
          (skip_segment-Returns (be16_to_cpu (from_bytes bs)) s) (λ _ t a. h t a))

jpeg_seghandler_default-Returns :
    (s : Exif) → Returns (jpeg_seghandler_default s) (λ b t. After s t)
unfolding jpeg_seghandler_default
jpeg_seghandler_default-Returns s = skip_then-Returns s (pure true) (λ t a. a)

jpeg_seghandler_skip_sos-Returns :
    (fuel : ℕ) (s : Exif)
    → left s < fuel
    → Returns (jpeg_seghandler_skip_sos fuel s) (λ b t. After s t)
unfolding jpeg_seghandler_skip_sos
jpeg_seghandler_skip_sos-Returns fuel s h =
    skip_then-Returns s (find_marker fuel)
      (λ t a. further s t _ a (find_marker-Returns fuel t (omega (arith, left-After s t a))))

-- A handler, if there is one, returns from `s`, not before it.
abbrev Handled : Option (Util Bool) → Exif → Type 0
Handled none s = Unit
Handled (some handler) s = Returns (handler s) (λ b t. After s t)

-- All handlers return from every state with fewer bytes left than the fuel.
abbrev pub AllReturn : ℕ → Handlers → Type 0
AllReturn fuel ops = (marker : ℕ) (s : Exif) → left s < fuel → Handled (ops marker) s

default_handlers-AllReturn : (fuel : ℕ) → AllReturn fuel (default_handlers fuel)
default_handlers-AllReturn fuel marker s h =
    Returns_if (marker == marker_sos) (jpeg_seghandler_skip_sos fuel) jpeg_seghandler_default s _
      (λ _. jpeg_seghandler_skip_sos-Returns fuel s h) (λ _. jpeg_seghandler_default-Returns s)

module _ (ops : Handlers) (again : Util Bool) (s : Exif) where
  -- The call of a handler, and the round behind it.
  handler-Returns :
      (handler : Option (Util Bool))
      → Handled handler s
      → ((t : Exif) → After s t → Returns (again t) (λ b u. After s u))
      → Returns (call_handler again handler s) (λ b t. After s t)
  handler-Returns none h next = next s (After-refl s)
  handler-Returns (some handler) h next =
      Returns-and_then (handler s) (λ went_on. if went_on then again else pure false)
        (λ b t. After s t) (λ b t. After s t) h
        (λ went_on t a. Returns_if went_on again (pure false) t _ (λ _. next t a) (λ _. a))

  at_marker-Returns :
      (soi : Bool) (m0 m1 : ℕ)
      → Handled (ops m1) s
      → ((t : Exif) → After s t → Returns (again t) (λ b u. After s u))
      → Returns (at_marker ops soi again m0 m1 s) (λ b t. After s t)
  at_marker-Returns soi m0 m1 h next =
      Returns_if (m0 == 0xff) _ _ s _
        (λ _.
          Returns_if (m1 == marker_soi) _ _ s _
            (λ _.
              Returns_if soi _ _ s _ (λ _. next _ (After-print s s _ (After-refl s)))
                (λ _. next s (After-refl s)))
            (λ _.
              Returns_if soi _ _ s _
                (λ _.
                  Returns_if (m1 == marker_eoi) _ _ s _ (λ _. After-refl s)
                    (λ _. handler-Returns (ops m1) h next))
                (λ _. After-print s s _ (After-refl s))))
        (λ _. After-print s s _ (After-refl s))

  with_marker-Returns :
      (soi : Bool) (bs : List ℕ)
      → ((m1 : ℕ) → Handled (ops m1) s)
      → ((t : Exif) → After s t → Returns (again t) (λ b u. After s u))
      → Returns (with_marker ops soi again (some bs) s) (λ b t. After s t)
  with_marker-Returns soi [] h next = After-print s s _ (After-refl s)
  with_marker-Returns soi (m0 ∷ []) h next = After-print s s _ (After-refl s)
  with_marker-Returns soi (m0 ∷ m1 ∷ []) h next = at_marker-Returns soi m0 m1 (h m1) next
  with_marker-Returns soi (m0 ∷ m1 ∷ m2 ∷ bs) h next = After-print s s _ (After-refl s)

walk_loop-Returns :
    (ops : Handlers) (most fuel : ℕ) (soi : Bool) (s : Exif)
    → AllReturn most ops
    → fuel ≤ most
    → left s < fuel
    → Returns (walk_loop ops fuel soi s) (λ b t. After s t)
unfolding walk_loop
walk_loop-Returns ops most zero soi s all small h = absurd (omega arith)
walk_loop-Returns ops most (suc fuel) soi s all small h =
    Returns_if s.at_eof _ _ s _ (λ _. After-print s s _ (After-refl s))
      (λ _.
        fread-Returns 2 s _ _ (λ t a. After-print s t _ a)
          (λ bs p. further s (advanced 2 s) _ (forward s) (
            with_marker-Returns ops (walk_loop ops fuel true) (advanced 2 s) soi bs
              (λ m1. all m1 (advanced 2 s) (omega arith))
              (λ t a. further (advanced 2 s) t _ a (
                walk_loop-Returns ops most fuel true t all (omega arith)
                  (omega (arith, left-After (advanced 2 s) t a)))))))
  where
    forward : (s : Exif) → After s (advanced 2 s)
    forward s = record { same_file = refl; not_before = omega arith }

-- With the default handlers and more fuel than the file has bytes, the walk over any file ends and
-- returns a result.
pub jpeg_walk-Returns :
    (fuel : ℕ) (s : Exif)
    → length s.file < fuel
    → (b : Bool) × (t : Exif) × (jpeg_walk (default_handlers fuel) fuel s ≡ ok b t)
unfolding jpeg_walk
jpeg_walk-Returns fuel s h = result _ _ (
    walk_loop-Returns (default_handlers fuel) fuel fuel false
      (record s { position = 0; at_eof = false }) (default_handlers-AllReturn fuel) (omega arith)
      (omega arith))
  where
    result :
        (r : Run Exif Bool) (P : Bool → Exif → Type 0)
        → Returns r P
        → (b : Bool) × (t : Exif) × (r ≡ ok b t)
    result (ok b t) P h = (b, t, refl)
    result (exited c t) P h = absurd h
    result (killed t) P h = absurd h
    result (aborted t) P h = absurd h
    result (fault t) P h = absurd h
    result (out_of_fuel t) P h = absurd h
