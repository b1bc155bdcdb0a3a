-- ===== src/Bitmap/Tests.antt =====
-- Platforms on which the theorems of the coverage map apply.
use fuzzuf_cc.Prelude.{◌-◌, ◌≡◌, refl, arith, [], ◌∷◌, some, none}
use fuzzuf_cc.Prelude.Effect.{ok}
use fuzzuf_cc.Bitmap.{Platform, shm_id, defer, initial, bitmap_auto_init, bitmap_manual_init}
use fuzzuf_cc.Bitmap.Start.{attached, bitmap_auto_init-attached}

abbrev fuzzed : Platform
fuzzed = record {
  getenv = λ v. elim v [ shm_id ↦ some (51 ∷ []) | defer ↦ none ];
  atoi = λ str. elim str [ [] ↦ 0 | b ∷ bs ↦ b - 48 ];
  shmat = λ id. some 0x1_0000;
}

bitmap_auto_init-attached_example :
    bitmap_auto_init fuzzed initial ≡ ok tt (attached 3 0x1_0000 initial)
bitmap_auto_init-attached_example =
    bitmap_auto_init-attached fuzzed initial (51 ∷ []) 0x1_0000 refl refl refl refl (omega arith)

called : bitmap_manual_init fuzzed initial ≡ ok tt (attached 3 0x1_0000 initial)
unfolding bitmap_auto_init
called =
    bitmap_auto_init-attached fuzzed initial (51 ∷ []) 0x1_0000 refl refl refl refl (omega arith)
