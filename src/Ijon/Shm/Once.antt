-- ===== src/Ijon/Shm/Once.antt =====
-- The segment is attached once.
use fuzzuf_cc.Prelude.{◌≡◌, refl, sym, ap, ◌∙◌, Bool, true, if◌then◌else◌, false}
use fuzzuf_cc.Prelude.Effect.{Run, ok, exited, killed, aborted, fault, out_of_fuel, and_then}
use fuzzuf_cc.Ijon.State.{Ijon}
use fuzzuf_cc.Ijon.Shm.{Platform, ijon_manual_init, ijon_auto_init, ijon_map_shm}

-- `init_done` after a run; a run that does not return counts as done.
abbrev done : Run Ijon (Unit {0}) → Bool
done (ok a s) = s.init_done
done _ = true

done-finish :
    (r : Run Ijon (Unit {0}))
    → done (and_then r (λ _ t. ok tt (record t { init_done = true }))) ≡ true
done-finish (ok a s) = refl
done-finish (exited c s) = refl
done-finish (killed s) = refl
done-finish (aborted s) = refl
done-finish (fault s) = refl
done-finish (out_of_fuel s) = refl

done-if :
    (b : Bool) (r q : Run Ijon (Unit {0}))
    → (b ≡ true → done r ≡ true)
    → done q ≡ true
    → done (if b then r else q) ≡ true
done-if true r q h g = h refl
done-if false r q h g = g

done-ijon_manual_init : (platform : Platform) (s : Ijon) → done (ijon_manual_init platform s) ≡ true
unfolding ijon_manual_init
done-ijon_manual_init platform s =
    done-if s.init_done _ _ (λ e. e) (done-finish (ijon_map_shm platform s))

-- When the start of the program has initialised the run time, any later call leaves it as it is.
pub ijon_auto_init-once :
    (platform later : Platform) (s t : Ijon)
    → ijon_auto_init platform s ≡ ok tt t
    → ijon_manual_init later t ≡ ok tt t
unfolding ijon_auto_init ijon_manual_init
ijon_auto_init-once platform later s t h =
    rw (sym (ap done h) ∙ done-ijon_manual_init platform s) refl
