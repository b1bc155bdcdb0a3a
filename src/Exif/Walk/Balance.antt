-- ===== src/Exif/Walk/Balance.antt =====
-- The blocks that the walk leaves on the heap.
use fuzzuf_cc.Prelude.{
  ℕ, zero, suc, ◌==◌, ◌&&◌, Bool, true, false, List, [], ◌∷◌, Option, none, some, leb, ltb,
}
use fuzzuf_cc.Exif.Types.{
  Util, marker_soi, marker_eoi, marker_rst0, marker_rst7, marker_sos, Message,
}
use fuzzuf_cc.Exif.File.{feof, seek_back, seek_forward, seek_start, skip_segment}
use fuzzuf_cc.Exif.Heap.Balance.{
  Leaves_if, bind-Keeps, then-Keeps, if-Keeps, print-Keeps, pure-Steady,
}
use fuzzuf_cc.Exif.Entry.Balance.{Steady}
use fuzzuf_cc.Exif.App1.Balance.{fread-Steady, read_len_field-Steady}
use fuzzuf_cc.Exif.Walk.{
  Handlers, reject, jpeg_seghandler_default, jpeg_seghandler_skip_sos, find_marker, next_byte,
  with_byte, default_handlers, call_handler, with_marker, walk_loop, jpeg_walk,
}

module _ {n : List ℕ} where
  feof-Steady : Steady n feof
  feof-Steady = record { leaves = λ s e. e }

  seek_back-Steady : (k : ℕ) → Steady n (seek_back k)
  seek_back-Steady k = record { leaves = λ s e. Leaves_if (leb k s.position) _ _ _ e e }

  seek_forward-Steady : (k : ℕ) → Steady n (seek_forward k)
  seek_forward-Steady k = record { leaves = λ s e. e }

  seek_start-Steady : Steady n seek_start
  seek_start-Steady = record { leaves = λ s e. e }

  skip_segment-Steady : (len_field : ℕ) → Steady n (skip_segment len_field)
  skip_segment-Steady len_field =
      if-Keeps (ltb len_field 2) (seek_back-Steady _) (seek_forward-Steady _)

  reject-Steady : (m : Message) → Steady n (reject m)
  reject-Steady m = then-Keeps (print-Keeps _) pure-Steady

  next_byte-Steady :
      {failed : Util Bool} {then_with : ℕ → Util Bool}
      → Steady n failed
      → ((c : ℕ) → Steady n (then_with c))
      → Steady n (next_byte failed then_with)
  next_byte-Steady h h' = bind-Keeps (fread-Steady 1) (λ answer. read answer h h')
    where
      read :
          {n : List ℕ} (answer : Option (List ℕ)) {failed : Util Bool} {then_with : ℕ → Util Bool}
          → Steady n failed
          → ((c : ℕ) → Steady n (then_with c))
          → Steady n (with_byte failed then_with answer)
      read none h h' = h
      read (some []) h h' = h
      read (some (c ∷ [])) h h' = h' c
      read (some (c ∷ c' ∷ rest)) h h' = h

  jpeg_seghandler_default-Steady : Steady n jpeg_seghandler_default
  unfolding jpeg_seghandler_default
  jpeg_seghandler_default-Steady =
      read_len_field-Steady
        (λ len_field. then-Keeps (skip_segment-Steady len_field) (pure-Steady {a = true}))

  find_marker-Steady : (fuel : ℕ) → Steady n (find_marker fuel)
  unfolding find_marker
  find_marker-Steady zero = record { leaves = λ s e. tt }
  find_marker-Steady (suc fuel) = bind-Keeps feof-Steady (λ ended.
      if-Keeps ended (reject-Steady _) (
        next_byte-Steady (reject-Steady _) (λ c.
          if-Keeps (c == 0xff)
            (next_byte-Steady (reject-Steady _) (λ c'.
              if-Keeps (c' == 0) (find_marker-Steady fuel) (
                if-Keeps (leb marker_rst0 c' && leb c' marker_rst7) (find_marker-Steady fuel)
                  (then-Keeps (seek_back-Steady 2) pure-Steady))))
            (find_marker-Steady fuel))))

  jpeg_seghandler_skip_sos-Steady : (fuel : ℕ) → Steady n (jpeg_seghandler_skip_sos fuel)
  unfolding jpeg_seghandler_skip_sos
  jpeg_seghandler_skip_sos-Steady fuel =
      read_len_field-Steady
        (λ len_field. then-Keeps (skip_segment-Steady len_field) (find_marker-Steady fuel))

-- Each handler of the table leaves the blocks that it finds.
abbrev pub AllSteady : List ℕ → Handlers → Type 0
AllSteady n ops =
    (marker : ℕ) (again : Util Bool) → Steady n again → Steady n (call_handler again (ops marker))

module _ {n : List ℕ} where
  pub called :
      {again handler : Util Bool}
      → Steady n again
      → Steady n handler
      → Steady n (call_handler again (some handler))
  called h h' = bind-Keeps h' (λ went_on. if-Keeps went_on h pure-Steady)

  pub default_handlers-Steady : (fuel : ℕ) → AllSteady n (default_handlers fuel)
  default_handlers-Steady fuel marker again h = called h (
      if-Keeps (marker == marker_sos) (jpeg_seghandler_skip_sos-Steady fuel)
        jpeg_seghandler_default-Steady)

  walk_loop-Steady :
      (ops : Handlers) (fuel : ℕ) (encount_soi : Bool)
      → AllSteady n ops
      → Steady n (walk_loop ops fuel encount_soi)
  unfolding walk_loop
  walk_loop-Steady ops zero encount_soi h = record { leaves = λ s e. tt }
  walk_loop-Steady ops (suc fuel) encount_soi h = bind-Keeps feof-Steady (λ ended.
      if-Keeps ended (then-Keeps (print-Keeps _) pure-Steady) (
        bind-Keeps (fread-Steady 2)
          (λ answer. read ops answer encount_soi (walk_loop-Steady ops fuel true h) h)))
    where
      read :
          {n : List ℕ} (ops : Handlers) {again : Util Bool} (answer : Option (List ℕ))
          (encount_soi : Bool)
          → Steady n again
          → AllSteady n ops
          → Steady n (with_marker ops encount_soi again answer)
      read ops none encount_soi h h' = then-Keeps (print-Keeps _) pure-Steady
      read ops (some []) encount_soi h h' = then-Keeps (print-Keeps _) pure-Steady
      read ops (some (m0 ∷ [])) encount_soi h h' = then-Keeps (print-Keeps _) pure-Steady
      read ops (some (m0 ∷ m1 ∷ m2 ∷ rest)) encount_soi h h' =
          then-Keeps (print-Keeps _) pure-Steady
      read ops (some (m0 ∷ m1 ∷ [])) encount_soi h h' =
          if-Keeps (m0 == 0xff)
            (if-Keeps (m1 == marker_soi) (if-Keeps encount_soi (then-Keeps (print-Keeps _) h) h) (
              if-Keeps encount_soi (if-Keeps (m1 == marker_eoi) pure-Steady (h' m1 _ h))
                (reject-Steady _)))
            (then-Keeps (print-Keeps _) pure-Steady)

  pub jpeg_walk-Steady :
      (ops : Handlers) (fuel : ℕ) → AllSteady n ops → Steady n (jpeg_walk ops fuel)
  unfolding jpeg_walk
  jpeg_walk-Steady ops fuel h = then-Keeps seek_start-Steady (walk_loop-Steady ops fuel false h)
