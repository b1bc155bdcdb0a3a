-- ===== src/Ijon/Distance.antt =====
-- The string and memory distances of features/ijon/ijon-llvm-rt.o.c.
use fuzzuf_cc.Prelude.{ℕ, zero, suc, ◌+◌, ◌-◌, ◌%◌, ◌^◌, List, [], ◌∷◌, ltb, ◌==◌, if◌then◌else◌}
use fuzzuf_cc.Prelude.Effect.{ok, fault}
use fuzzuf_cc.Ijon.State.{Runtime}
pub mod Prefix

-- A pointer as the list of the bytes from it to the end of its object. `i` is an `int`, which C
-- leaves undefined beyond its range.
unfoldable pub strdist_loop : (i : ℕ) → List ℕ → List ℕ → Runtime ℕ
strdist_loop i [] b s = fault s
strdist_loop i (x ∷ a) [] s = if x == 0 then ok i s else fault s
strdist_loop i (x ∷ a) (y ∷ b) s =
    let rest = strdist_loop (i + 1) a b s in
    if x == 0
    then ok i s
    else if y == 0
    then ok i s
    else if x == y
    then if ltb i (2 ^ 31 - 1) then rest else fault s
    else ok i s

unfoldable pub ijon_strdist : List ℕ → List ℕ → Runtime ℕ
ijon_strdist a b = strdist_loop 0 a b

-- `n` is `len - i`, and the result is cut to 32 bits.
unfoldable pub memdist_loop : (n i : ℕ) → List ℕ → List ℕ → Runtime ℕ
memdist_loop zero i a b s = ok (i % 2 ^ 32) s
memdist_loop (suc n) i [] b s = fault s
memdist_loop (suc n) i (x ∷ a) [] s = fault s
memdist_loop (suc n) i (x ∷ a) (y ∷ b) s =
    let rest = memdist_loop n (i + 1) a b s in if x == y then rest else ok (i % 2 ^ 32) s

unfoldable pub ijon_memdist : List ℕ → List ℕ → (len : ℕ) → Runtime ℕ
ijon_memdist a b len = memdist_loop len 0 a b
