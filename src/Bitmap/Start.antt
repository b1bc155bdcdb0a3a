-- ===== src/Bitmap/Start.antt =====
-- How the coverage map is attached.
use fuzzuf_cc.Prelude.{
  ℕ, ◌<◌, ◌≡◌, refl, sym, ap, ◌∙◌, arith, List, none, some, true, false, if◌then◌else◌, lt→ltb,
  ◌==◌, ◌&&◌, Bool,
}
use fuzzuf_cc.Prelude.Effect.{Run, ok, exited, fault, killed, aborted, out_of_fuel, and_then}
use fuzzuf_cc.Bitmap.{
  Bitmap, Platform, shm, same_area, extent, store, attach_segment, map_segment, shm_id, defer,
  bitmap_map_shm, bitmap_manual_init, init_unless, bitmap_auto_init,
}

-- The state after segment `id` of `size` bytes is attached and marked.
abbrev pub attached : ℕ → ℕ → Bitmap → Bitmap
attached id size s = record s {
  memory = λ area j. if same_area area (shm id) && (j == 0) then 1 else s.memory area j;
  shm_size = λ n. if n == id then size else s.shm_size n;
  area_ptr = shm id;
  init_done = true;
}

store-ok :
    (i v : ℕ) (s : Bitmap)
    → i < extent s s.area_ptr
    → store i v s
      ≡ ok tt (record s {
        memory = λ area j. if same_area area s.area_ptr && (j == i) then v else s.memory area j;
      })
store-ok i v s h = rw (lt→ltb _ _ h) refl

module _ (platform : Platform) (s : Bitmap) where
  finish : Run Bitmap (Unit {0}) → Run Bitmap (Unit {0})
  finish r = and_then r (λ _ t. ok tt (record t { init_done = true }))

  bitmap_auto_init-map_segment :
      platform.getenv defer ≡ none
      → s.init_done ≡ false
      → bitmap_auto_init platform s ≡ finish (map_segment platform (platform.getenv shm_id) s)
  unfolding bitmap_auto_init bitmap_manual_init bitmap_map_shm finish
  bitmap_auto_init-map_segment now fresh =
      ap (λ v. init_unless platform v s) now
      ∙ ap (λ b. if b then ok tt s else finish (map_segment platform (platform.getenv shm_id) s))
          fresh

  -- When the fuzzer passes the identifier of a segment that has a byte, and the start is neither
  -- deferred nor done already, the coverage pointer is moved to the segment, whose first byte is
  -- set, and no other byte changes.
  pub bitmap_auto_init-attached :
      (id_str : List ℕ) (size : ℕ)
      → platform.getenv defer ≡ none
      → s.init_done ≡ false
      → platform.getenv shm_id ≡ some id_str
      → platform.shmat (platform.atoi id_str) ≡ some size
      → 0 < size
      → bitmap_auto_init platform s ≡ ok tt (attached (platform.atoi id_str) size s)
  unfolding finish
  bitmap_auto_init-attached id_str size now fresh e f p =
      bitmap_auto_init-map_segment now fresh
      ∙ ap (λ v. finish (map_segment platform v s)) e
      ∙ ap (λ v. finish (and_then (attach_segment platform id v s) (λ _. store 0 1))) f
      ∙ ap finish (
          store-ok 0 1
            (record s { area_ptr = shm id; shm_size = λ n. if n == id then size else s.shm_size n })
            (room id size p))
    where
      id : ℕ
      id = platform.atoi id_str

      room : (id size : ℕ) → 0 < size → 0 < (if id == id then size else s.shm_size id)
      room id size p = ground arith

-- `init_done` after a run; a run that does not return counts as done.
abbrev done : Run Bitmap (Unit {0}) → Bool
done (ok a s) = s.init_done
done _ = true

done-finish :
    (r : Run Bitmap (Unit {0}))
    → done (and_then r (λ _ t. ok tt (record t { init_done = true }))) ≡ true
done-finish (ok a s) = refl
done-finish (exited c s) = refl
done-finish (killed s) = refl
done-finish (aborted s) = refl
done-finish (fault s) = refl
done-finish (out_of_fuel s) = refl

done-if :
    (b : Bool) (r q : Run Bitmap (Unit {0}))
    → (b ≡ true → done r ≡ true)
    → done q ≡ true
    → done (if b then r else q) ≡ true
done-if true r q h g = h refl
done-if false r q h g = g

done-bitmap_manual_init :
    (platform : Platform) (s : Bitmap) → done (bitmap_manual_init platform s) ≡ true
unfolding bitmap_manual_init
done-bitmap_manual_init platform s =
    done-if s.init_done _ _ (λ e. e) (done-finish (bitmap_map_shm platform s))

-- After a call of the initialisation that returns, a later call changes nothing.
pub bitmap_manual_init-once :
    (platform later : Platform) (s t : Bitmap)
    → bitmap_manual_init platform s ≡ ok tt t
    → bitmap_manual_init later t ≡ ok tt t
unfolding bitmap_manual_init
bitmap_manual_init-once platform later s t h =
    rw (sym (ap done h) ∙ done-bitmap_manual_init platform s) refl
