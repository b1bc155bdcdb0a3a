-- ===== src/Exif/Walk.antt =====
-- The default handlers, the table of handlers and `jpeg_walk`.
pub mod Balance
pub mod Ends
pub mod Segments
use fuzzuf_cc.Prelude.{
  List, ℕ, zero, suc, ◌*◌, ◌==◌, ◌&&◌, Bool, true, false, [], ◌∷◌, Option, none, some, leb,
  if◌then◌else◌,
}
use fuzzuf_cc.Prelude.Effect.{ok, fault, out_of_fuel, pure, ◌>>=◌, ◌>>◌}
use fuzzuf_cc.Exif.Types.{
  Util, Message, marker_soi, marker_eoi, marker_sos, marker_rst0, marker_rst7, end_of_sos_not_found,
  broken_marker, invalid_marker, soi_at_invalid_position, not_jpeg, eoi_not_found,
}
use fuzzuf_cc.Exif.File.{fread, feof, seek_back, seek_start, skip_segment}
use fuzzuf_cc.Exif.Heap.{Allocator, malloc, free, complain}
use fuzzuf_cc.Exif.App1.{read_len_field}

abbrev pub Handlers : Type 0
Handlers = ℕ → Option (Util Bool)

-- `complain` and return `false`.
abbrev pub reject : Message → Util Bool
reject m = complain m >> pure false

unfoldable pub jpeg_seghandler_default : Util Bool
jpeg_seghandler_default = read_len_field (λ len_field. skip_segment len_field >> pure true)

abbrev pub with_byte : (failed : Util Bool) → (ℕ → Util Bool) → Option (List ℕ) → Util Bool
with_byte failed then_with (some (c ∷ [])) = then_with c
with_byte failed then_with _ = failed

-- `fread (&c, 1, 1, file)`, with what is done when it fails.
abbrev pub next_byte : (failed : Util Bool) → (ℕ → Util Bool) → Util Bool
next_byte failed then_with = fread 1 >>= with_byte failed then_with

-- The loop that looks for the next marker; each round reads a byte or finds the end of the file.
unfoldable pub find_marker : (fuel : ℕ) → Util Bool
find_marker zero = out_of_fuel
find_marker (suc fuel) =
    let again = find_marker fuel in
    feof >>= λ ended.
    if ended
    then reject end_of_sos_not_found
    else next_byte (reject end_of_sos_not_found) (λ c.
      if c == 0xff
      then next_byte (reject end_of_sos_not_found) (λ c'.
        if c' == 0
        then again
        else if leb marker_rst0 c' && leb c' marker_rst7
        then again
        else seek_back 2 >> pure true)
      else again)

unfoldable pub jpeg_seghandler_skip_sos : (fuel : ℕ) → Util Bool
unfolding find_marker
jpeg_seghandler_skip_sos fuel =
    read_len_field (λ len_field. skip_segment len_field >> find_marker fuel)

-- The table that `jpeg_handlers_new` fills.
abbrev pub default_handlers : (fuel : ℕ) → Handlers
default_handlers fuel marker =
    some (if marker == marker_sos then jpeg_seghandler_skip_sos fuel else jpeg_seghandler_default)

-- The table with its address. It is filled through the pointer that `malloc` returned, also when
-- that is null.
unfoldable pub jpeg_handlers_new : Allocator → (fuel : ℕ) → Util (ℕ × Handlers)
unfolding jpeg_seghandler_default jpeg_seghandler_skip_sos
jpeg_handlers_new allocator fuel = malloc allocator (8 * 0x100) >>= λ got s. elim got [
  | none ↦ fault s
  | some ops ↦ ok (ops, default_handlers fuel) s
]

abbrev pub jpeg_handlers_release : (ops : ℕ) → Util (Unit {0})
jpeg_handlers_release ops = free ops

-- The call of the handler for the segment, if the table has one.
abbrev pub call_handler : (again : Util Bool) → Option (Util Bool) → Util Bool
call_handler again none = again
call_handler again (some handler) = handler >>= λ went_on. if went_on then again else pure false

-- What the loop does with the two bytes of a marker; `again` is the next round.
abbrev pub at_marker :
    Handlers → (encount_soi : Bool) → (again : Util Bool) → (m0 m1 : ℕ) → Util Bool
at_marker ops encount_soi again m0 m1 =
    if m0 == 0xff
    then (if m1 == marker_soi
        then (if encount_soi then complain soi_at_invalid_position >> again else again)
        else if encount_soi
        then (if m1 == marker_eoi then pure true else call_handler again (ops m1))
        else reject not_jpeg)
    else complain invalid_marker >> pure encount_soi

-- With the answer of the read of a marker.
abbrev pub with_marker :
    Handlers → (encount_soi : Bool) → (again : Util Bool) → Option (List ℕ) → Util Bool
with_marker ops encount_soi again (some (m0 ∷ m1 ∷ [])) = at_marker ops encount_soi again m0 m1
with_marker ops encount_soi again _ = complain broken_marker >> pure encount_soi

-- Behind the first marker `encount_soi` holds in each round.
unfoldable pub walk_loop : Handlers → (fuel : ℕ) → (encount_soi : Bool) → Util Bool
walk_loop ops zero encount_soi = out_of_fuel
walk_loop ops (suc fuel) encount_soi =
    let again = walk_loop ops fuel true in
    feof >>= λ ended.
    if ended
    then complain eoi_not_found >> pure true
    else fread 2 >>= with_marker ops encount_soi again

unfoldable pub jpeg_walk : Handlers → (fuel : ℕ) → Util Bool
unfolding walk_loop
jpeg_walk ops fuel = seek_start >> walk_loop ops fuel false
