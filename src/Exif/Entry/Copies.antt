-- ===== src/Exif/Entry/Copies.antt =====
-- What the loops that copy an entry's data write, when nothing is to be converted.
use mathlib.Core.List.{append-nil, map-append, append_assoc}
use fuzzuf_cc.Prelude.{
  length-replicate, Option, take-add, none, replicate, ◌%◌, false, ◌^◌, ◌<◌, ℕ, zero, suc, ◌+◌, ◌*◌,
  ◌/◌, ◌≤◌, ◌≡◌, refl, sym, ap, ◌∙◌, arith, List, [], ◌∷◌, ◌++◌, some, map, length, take, drop,
  length-append, length-take, length-drop, length-map, take-append, drop-append, drop-drop, le→leb,
}
use fuzzuf_cc.Prelude.Effect.{ok, and_then, and_then-ok}
use fuzzuf_cc.Bytes.{from_bytes, to_bytes, IsBytes}
use fuzzuf_cc.Exif.Types.{Util, Exif}
use fuzzuf_cc.Exif.Heap.{load, put_block, overwrite}
use fuzzuf_cc.Exif.Entry.{rounds, copy_32, copy_64, copy_16, Block}
use fuzzuf_cc.Exif.Entry.Steps.{load-ok}

to_bytes-from_bytes : (bs : List ℕ) → IsBytes bs → to_bytes (length bs) (from_bytes bs) ≡ bs
to_bytes-from_bytes [] h = refl
to_bytes-from_bytes (b ∷ bs) h =
    ap (λ c. c ∷ to_bytes (length bs) ((b + 256 * from_bytes bs) / 256)) (omega (arith, h.0))
    ∙ ap (◌∷◌ b) (ap (to_bytes (length bs)) (omega (arith, h.0)) ∙ to_bytes-from_bytes bs h.1)

IsBytes-take : (n : ℕ) (bs : List ℕ) → IsBytes bs → IsBytes (take n bs)
IsBytes-take zero bs h = tt
IsBytes-take (suc n) [] h = tt
IsBytes-take (suc n) (b ∷ bs) h = (h.0, IsBytes-take n bs h.1)

IsBytes-drop : (n : ℕ) (bs : List ℕ) → IsBytes bs → IsBytes (drop n bs)
IsBytes-drop zero bs h = h
IsBytes-drop (suc n) [] h = tt
IsBytes-drop (suc n) (b ∷ bs) h = IsBytes-drop n bs h.1

-- Bytes that were all written.
abbrev pub as_block : List ℕ → Block
as_block bs = map some bs

-- The `n` bytes of the buffer from `a` on.
abbrev pub slice : (a n : ℕ) → Exif → List ℕ
slice a n s = take n (drop a s.tiff)

pub length-slice : (a n : ℕ) (s : Exif) → a + n ≤ length s.tiff → length (slice a n s) ≡ n
length-slice a n s h = omega (arith, length-take n (drop a s.tiff), length-drop a s.tiff)

to_bytes-slice :
    (a n : ℕ) (s : Exif)
    → IsBytes s.tiff
    → a + n ≤ length s.tiff
    → to_bytes n (from_bytes (slice a n s)) ≡ slice a n s
to_bytes-slice a n s bytes h =
    ap (λ k. to_bytes k (from_bytes (slice a n s))) (sym (length-slice a n s h))
    ∙ to_bytes-from_bytes (slice a n s) (IsBytes-take n _ (IsBytes-drop a s.tiff bytes))

pub overwrite-append {ℓ} :
    {A : Type ℓ} (done new hole rest : List A)
    → length new ≡ length hole
    → overwrite (length done) new (done ++ (hole ++ rest)) ≡ done ++ (new ++ rest)
overwrite-append done new hole rest h =
    rw
      (
        take-append done (hole ++ rest),
        h,
        sym (drop-drop (length done) (length hole) (done ++ (hole ++ rest))),
        drop-append done (hole ++ rest),
        drop-append hole rest,
      )
      refl

-- A read of `n` bytes and their write into the hole behind `done`.
pub load_put-copies :
    (n a o : ℕ) (done hole rest : Block) (s : Exif)
    → IsBytes s.tiff
    → a + n ≤ length s.tiff
    → length done ≡ o
    → length hole ≡ n
    → and_then (load n a s) (λ v. put_block n o v (done ++ (hole ++ rest)))
      ≡ ok (done ++ (as_block (slice a n s) ++ rest)) s
unfolding put_block
load_put-copies n a o done hole rest s bytes inside at_o hole_n =
    and_then-ok (load n a s) _ _ s _ (load-ok n a s inside) (
      rw
        (
          le→leb (o + n) (length (done ++ (hole ++ rest))) room,
          to_bytes-slice a n s bytes inside,
          sym at_o,
          overwrite-append done (as_block (slice a n s)) hole rest filled,
        )
        refl)
  where
    room : o + n ≤ length (done ++ (hole ++ rest))
    room = omega (arith, length-append done (hole ++ rest), length-append hole rest)

    filled : length (as_block (slice a n s)) ≡ length hole
    filled = length-map (slice a n s) some ∙ length-slice a n s inside ∙ sym hole_n

-- The data that the loops read: it is inside the buffer, and its size does not wrap.
pub record IsInside (w src count : ℕ) (s : Exif) : Type 0 where
  pub bytes : IsBytes s.tiff
  pub inside : src + w * count ≤ length s.tiff
  pub narrow : w * count < 2 ^ 32

-- Round `i` puts the next `w` bytes into the hole behind `done`.
abbrev pub Copies : (w src count : ℕ) → Exif → (ℕ → Block → Util Block) → Type 0
Copies w src count s body =
    (i : ℕ) (done hole rest : Block)
    → i < count
    → length done ≡ w * i
    → length hole ≡ w
    → body i (done ++ (hole ++ rest)) s
      ≡ ok (done ++ (as_block (slice (src + w * i) w s) ++ rest)) s

module _ (src count : ℕ) (s : Exif) where
  pub copy_16-Copies : IsInside 2 src count s → Copies 2 src count s (copy_16 false src)
  copy_16-Copies h i done hole rest below e e' =
      let a : src + i * 2 % 2 ^ 32 ≡ src + 2 * i = omega (arith, below, h.narrow) in
      rw a (
        load_put-copies 2 (src + 2 * i) (2 * i) done hole rest s h.bytes
          (omega (arith, below, h.inside)) e e')

  pub copy_32-Copies : IsInside 4 src count s → Copies 4 src count s (copy_32 false src)
  copy_32-Copies h i done hole rest below e e' =
      let a : src + i * 4 % 2 ^ 32 ≡ src + 4 * i = omega (arith, below, h.narrow) in
      rw a (
        load_put-copies 4 (src + 4 * i) (4 * i) done hole rest s h.bytes
          (omega (arith, below, h.inside)) e e')

  pub copy_64-Copies : IsInside 8 src count s → Copies 8 src count s (copy_64 false src)
  copy_64-Copies h i done hole rest below e e' =
      let a : i * 8 % 2 ^ 32 ≡ 8 * i = omega (arith, below, h.narrow) in
      rw a (
        load_put-copies 8 (src + 8 * i) (8 * i) done hole rest s h.bytes
          (omega (arith, below, h.inside)) e e')

pub take_drop-as_block :
    (a i n : ℕ) (s : Exif)
    → as_block (slice a i s) ++ as_block (slice (a + i) n s) ≡ as_block (slice a (i + n) s)
take_drop-as_block a i n s =
    sym (map-append some (slice a i s) (slice (a + i) n s))
    ∙ ap as_block (
        ap (λ t. slice a i s ++ take n t) (sym (drop-drop a i s.tiff))
        ∙ take-add i n (drop a s.tiff))

-- The same in front of what follows.
pub slices :
    (a i n : ℕ) (rest : Block) (s : Exif)
    → as_block (slice a i s) ++ (as_block (slice (a + i) n s) ++ rest)
      ≡ as_block (slice a (i + n) s) ++ rest
slices a i n rest s =
    sym (append_assoc (as_block (slice a i s)) (as_block (slice (a + i) n s)) rest)
    ∙ ap (λ t. t ++ rest) (take_drop-as_block a i n s)

replicate-add {ℓ} :
    {A : Type ℓ} (m n : ℕ) (a : A) → replicate (m + n) a ≡ replicate m a ++ replicate n a
replicate-add zero n a = ap (λ k. replicate k a) (omega arith)
replicate-add (suc m) n a =
    ap (λ k. replicate k a) (let e : suc m + n ≡ suc (m + n) = omega arith in e)
    ∙ ap (◌∷◌ a) (replicate-add m n a)

module _ (w src count : ℕ) (s : Exif) (body : ℕ → Block → Util Block) where
  pub rounds-Copies :
      (k i : ℕ)
      → IsInside w src count s
      → Copies w src count s body
      → i + k ≡ count
      → rounds body k i (as_block (slice src (w * i) s) ++ replicate (w * k) none) s
        ≡ ok (as_block (slice src (w * count) s)) s
  unfolding rounds
  rounds-Copies zero i h copies e =
      ap (λ t. ok t s)
        (ap (λ n. as_block (slice src (w * i) s) ++ replicate n none)
            (let e0 : w * 0 ≡ 0 = omega arith in e0)
          ∙ append-nil (as_block (slice src (w * i) s))
          ∙ ap (λ n. as_block (slice src n s)) (ap (◌*◌ w) (omega (arith, e))))
  rounds-Copies (suc k) i h copies e =
      ap (λ t. and_then (body i (as_block (slice src (w * i) s) ++ t) s) (rounds body k (i + 1)))
        (hole k)
      ∙ and_then-ok _ _ _ s _
          (copies i (as_block (slice src (w * i) s)) (replicate w none) (replicate (w * k) none)
            (omega arith)
            (length-map (slice src (w * i) s) some
              ∙ length-slice src (w * i) s (omega (arith, h.inside, ap (◌*◌ w) e)))
            (length-replicate w none))
          (ap (λ t. rounds body k (i + 1) t s)
              (slices src (w * i) w (replicate (w * k) none) s
                ∙ ap (λ n. as_block (slice src n s) ++ replicate (w * k) none) (next i))
            ∙ rounds-Copies k (i + 1) h copies (omega arith))
    where
      next : (i : ℕ) → w * i + w ≡ w * (i + 1)
      next i = omega arith

      hole :
          (k : ℕ)
          → replicate (w * suc k) (let b : Option ℕ = none in b)
            ≡ replicate w none ++ replicate (w * k) none
      hole k =
          ap (λ n. replicate n none) (let e : w * suc k ≡ w + w * k = omega arith in e)
          ∙ replicate-add w (w * k) none
