-- ===== src/Exif/Heap.antt =====
-- The heap of exifutil: `malloc` and `free`, and the accesses through pointers to the segment's
-- buffer and to the block of an entry's data. An access outside its block is a fault; whether the
-- block has been freed before the access is not looked at.
pub mod Balance
use fuzzuf_cc.Prelude.{
  [], ◌||◌, none, ◌==◌, false, ℕ, ◌+◌, Bool, List, ◌∷◌, ◌++◌, Option, some, map, length, take, drop,
  leb, if◌then◌else◌,
}
use fuzzuf_cc.Prelude.Effect.{killed, ok, fault}
use fuzzuf_cc.Bytes.{from_bytes, to_bytes}
use fuzzuf_cc.Exif.Types.{Exif, Util, Printed, Message, error}

-- What the allocator answers to its `n`th call, for a block of `size` bytes.
abbrev pub Allocator : Type 0
Allocator = (calls size : ℕ) → Bool

-- `none` for a null pointer. A block's address is the number of the call that allocated it.
abbrev pub malloc : Allocator → ℕ → Util (Option ℕ)
malloc allocator size s =
    let counted : Exif = record s { allocations = s.allocations + 1 } in
    if allocator s.allocations size
    then ok (some s.allocations) (record counted { blocks = s.allocations ∷ s.blocks })
    else ok none counted

abbrev pub is_allocated : (address : ℕ) → List ℕ → Bool
is_allocated address [] = false
is_allocated address (b ∷ bs) = address == b || is_allocated address bs

abbrev pub without : (address : ℕ) → List ℕ → List ℕ
without address [] = []
without address (b ∷ bs) = if address == b then bs else b ∷ without address bs

-- To free what is not allocated, as in a double free, ends the run as `killed`.
abbrev pub free : (address : ℕ) → Util (Unit {0})
free address s =
    if is_allocated address s.blocks
    then ok tt (record s { blocks = without address s.blocks })
    else killed s

-- `perror`, `fputs` and `printf`.
abbrev pub print : Printed → Util (Unit {0})
print p s = ok tt (record s { printed = p ∷ s.printed })

abbrev pub complain : Message → Util (Unit {0})
complain m = print (error m)

-- The bytes from `o` on, `n` of them, replaced.
abbrev pub overwrite {ℓ} : {A : Type ℓ} → (o : ℕ) → (new old : List A) → List A
overwrite o new old = take o old ++ (new ++ drop (o + length new) old)

-- `*(uN *)((void *)tiff_header + o)`, of `n` bytes.
unfoldable pub load : (n o : ℕ) → Util ℕ
load n o s =
    if leb (o + n) (length s.tiff) then ok (from_bytes (take n (drop o s.tiff))) s else fault s

unfoldable pub store : (n o v : ℕ) → Util (Unit {0})
store n o v s =
    if leb (o + n) (length s.tiff)
    then ok tt (record s { tiff = overwrite o (to_bytes n v) s.tiff })
    else fault s

-- The same for a write through `data->ptr`.
unfoldable pub put_block : (n o v : ℕ) → List (Option ℕ) → Util (List (Option ℕ))
put_block n o v block s =
    if leb (o + n) (length block)
    then ok (overwrite o (map some (to_bytes n v)) block) s
    else fault s
