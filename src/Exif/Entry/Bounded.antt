-- ===== src/Exif/Entry/Bounded.antt =====
-- The loops that copy an entry's data: a round goes on inside the block, or it is a fault.
use mathlib.Core.Path.{subst}
use fuzzuf_cc.Prelude.{
  sym, leb→le, ℕ, zero, suc, ◌+◌, ◌*◌, ◌%◌, ◌^◌, ◌<◌, ◌≤◌, ◌≡◌, refl, ap, ◌∙◌, arith, Bool, List,
  ◌++◌, some, map, length, take, drop, length-append, length-take, length-drop, length-map, leb,
  inl, inr, Bool-cases,
}
use fuzzuf_cc.Prelude.Effect.{Run, ok, exited, killed, aborted, fault, out_of_fuel, and_then}
use fuzzuf_cc.Bytes.{to_bytes, length-to_bytes}
use fuzzuf_cc.Exif.Types.{Exif, Util}
use fuzzuf_cc.Exif.Endian.{be16_to_cpu, be32_to_cpu, be64_to_cpu}
use fuzzuf_cc.Exif.Heap.{load, put_block, overwrite}
use fuzzuf_cc.Exif.Entry.{Block, rounds, copy_16, copy_32, copy_64, copy_pair, convert}

-- The run leaves the state alone, and returns a result of which `P` holds or is a fault.
abbrev pub Bounded : {A : Type 0} → Exif → Run Exif A → (A → Type 0) → Type 0
Bounded s (ok a t) P = P a × (t ≡ s)
Bounded s (exited c t) P = ⊥
Bounded s (killed t) P = ⊥
Bounded s (aborted t) P = ⊥
Bounded s (fault t) P = t ≡ s
Bounded s (out_of_fuel t) P = ⊥

pub Bounded-and_then :
    {A B : Type 0} (s : Exif) (r : Run Exif A) (k : A → Util B) (P : A → Type 0) (Q : B → Type 0)
    → Bounded s r P
    → ((a : A) → P a → Bounded s (k a s) Q)
    → Bounded s (and_then r k) Q
Bounded-and_then s (ok a t) k P Q h next = subst (λ u. Bounded s (k a u) Q) (sym h.1) (next a h.0)
Bounded-and_then s (exited c t) k P Q h next = h
Bounded-and_then s (killed t) k P Q h next = h
Bounded-and_then s (aborted t) k P Q h next = h
Bounded-and_then s (fault t) k P Q h next = h
Bounded-and_then s (out_of_fuel t) k P Q h next = h

-- A result that cannot be leaves the fault.
pub fault_of_Bounded :
    {A : Type 0} (s : Exif) (r : Run Exif A) (P : A → Type 0)
    → Bounded s r P
    → ((a : A) → P a → ⊥)
    → r ≡ fault s
fault_of_Bounded s (ok a t) P h never = absurd (never a h.0)
fault_of_Bounded s (exited c t) P h never = absurd h
fault_of_Bounded s (killed t) P h never = absurd h
fault_of_Bounded s (aborted t) P h never = absurd h
fault_of_Bounded s (fault t) P h never = ap fault h
fault_of_Bounded s (out_of_fuel t) P h never = absurd h

pub load-Bounded : (n o : ℕ) (s : Exif) → Bounded s (load n o s) (λ v. o + n ≤ length s.tiff)
unfolding load
load-Bounded n o s = elim (Bool-cases (leb (o + n) (length s.tiff))) [
  | inl e ↦ rw e (leb→le _ _ e, refl)
  | inr e ↦ rw e refl
]

pub length-overwrite {ℓ} :
    {A : Type ℓ} (o : ℕ) (new old : List A)
    → o + length new ≤ length old
    → length (overwrite o new old) ≡ length old
length-overwrite o new old h = omega (
  arith,
  length-append (take o old) (new ++ drop (o + length new) old),
  length-append new (drop (o + length new) old),
  length-take o old,
  length-drop (o + length new) old,
)

length-bytes : (n v : ℕ) → length (map some (to_bytes n v)) ≡ n
length-bytes n v = length-map (to_bytes n v) some ∙ length-to_bytes n v

-- The block grew over nothing: it keeps its length, and has room for the bytes.
abbrev pub Kept : (room : ℕ) → Block → Block → Type 0
Kept room block new = (room ≤ length block) × (length new ≡ length block)

pub put_block-Bounded :
    (n o v : ℕ) (block : Block) (s : Exif)
    → Bounded s (put_block n o v block s) (Kept (o + n) block)
unfolding put_block
put_block-Bounded n o v block s = elim (Bool-cases (leb (o + n) (length block))) [
  | inl e ↦ rw e ((leb→le _ _ e, kept n o v block (leb→le _ _ e)), refl)
  | inr e ↦ rw e refl
]
  where
    kept :
        (n o v : ℕ) (block : Block)
        → o + n ≤ length block
        → length (overwrite o (map some (to_bytes n v)) block) ≡ length block
    kept n o v block h =
        length-overwrite o (map some (to_bytes n v)) block (omega (arith, length-bytes n v))

-- Round `i` writes the `w` bytes from `w * i` on.
abbrev pub Writes : (w : ℕ) → (ℕ → Block → Util Block) → Type 0
Writes w body =
    (i : ℕ) (block : Block) (s : Exif)
    → w * i < 2 ^ 32
    → Bounded s (body i block s) (Kept (w * i + w) block)

-- A value read at `a`, converted by `c`, and written at `o`.
load_put-Bounded :
    (n a o : ℕ) (c : ℕ → ℕ) (block : Block) (s : Exif)
    → Bounded s (and_then (load n a s) (λ v. put_block n o (c v) block)) (Kept (o + n) block)
load_put-Bounded n a o c block s =
    Bounded-and_then s (load n a s) (λ v. put_block n o (c v) block) _ _ (load-Bounded n a s)
      (λ v _. put_block-Bounded n o (c v) block s)

Bounded_mono :
    {A : Type 0} (s : Exif) (r : Run Exif A) (P Q : A → Type 0)
    → Bounded s r P
    → ((a : A) → P a → Q a)
    → Bounded s r Q
Bounded_mono s (ok a t) P Q h f = (f a h.0, h.1)
Bounded_mono s (exited c t) P Q h f = h
Bounded_mono s (killed t) P Q h f = h
Bounded_mono s (aborted t) P Q h f = h
Bounded_mono s (fault t) P Q h f = h
Bounded_mono s (out_of_fuel t) P Q h f = h

pub copy_16-Writes : (is_be : Bool) (src : ℕ) → Writes 2 (copy_16 is_be src)
copy_16-Writes is_be src i block s h =
    load_put-Bounded 2 (src + i * 2 % 2 ^ 32) (2 * i) (convert is_be be16_to_cpu) block s

pub copy_32-Writes : (is_be : Bool) (src : ℕ) → Writes 4 (copy_32 is_be src)
copy_32-Writes is_be src i block s h =
    load_put-Bounded 4 (src + i * 4 % 2 ^ 32) (4 * i) (convert is_be be32_to_cpu) block s

pub copy_64-Writes : (is_be : Bool) (src : ℕ) → Writes 8 (copy_64 is_be src)
copy_64-Writes is_be src i block s h =
    Bounded_mono s _ (Kept (i * 8 % 2 ^ 32 + 8) block) (Kept (8 * i + 8) block)
      (load_put-Bounded 8 (src + i * 8 % 2 ^ 32) (i * 8 % 2 ^ 32) (convert is_be be64_to_cpu) block
        s)
      (λ new k. (omega arith, k.1))

pub copy_pair-Writes : (is_be : Bool) (src : ℕ) → Writes 8 (copy_pair is_be src)
copy_pair-Writes is_be src i block s h =
    Bounded-and_then s _ _ (Kept (4 * (2 * i % 2 ^ 32) + 4) block) (Kept (8 * i + 8) block)
      (load_put-Bounded 4 (src + i * 8 % 2 ^ 32) (4 * (2 * i % 2 ^ 32)) (convert is_be be32_to_cpu)
        block s)
      (λ new k.
        Bounded_mono s _ (Kept (4 * ((2 * i + 1) % 2 ^ 32) + 4) new) (Kept (8 * i + 8) block)
          (load_put-Bounded 4 (src + i * 8 % 2 ^ 32 + 4) (4 * ((2 * i + 1) % 2 ^ 32))
            (convert is_be be32_to_cpu) new s)
          (λ new' k'. (omega arith, k'.1 ∙ k.1)))

pub rounds-Bounded :
    (w : ℕ) (body : ℕ → Block → Util Block) (n i : ℕ) (block : Block) (s : Exif)
    → Writes w body
    → w * i ≤ length block
    → length block < 2 ^ 32
    → Bounded s (rounds body n i block s) (Kept (w * (i + n)) block)
unfolding rounds
rounds-Bounded w body zero i block s writes room small = ((omega arith, refl), refl)
rounds-Bounded w body (suc n) i block s writes room small =
    Bounded-and_then s (body i block s) (rounds body n (i + 1)) (Kept (w * i + w) block)
      (Kept (w * (i + suc n)) block) (writes i block s (omega arith))
      (λ new k.
        Bounded_mono s _ (Kept (w * (i + 1 + n)) new) (Kept (w * (i + suc n)) block)
          (rounds-Bounded w body n (i + 1) new s writes (omega (arith, k.1, k.0, next w i))
            (omega (arith, k.1)))
          (λ new' k'. (omega (arith, k'.0, k.1, same w i n), k'.1 ∙ k.1)))
  where
    next : (w i : ℕ) → w * (i + 1) ≡ w * i + w
    next w i = omega arith

    same : (w i n : ℕ) → w * (i + suc n) ≡ w * (i + 1 + n)
    same w i n = ap (λ t. w * t) (omega arith)
