-- ===== src/Exif/Endian/Reverse.antt =====
-- What the conversions make of the bytes of a number.
use fuzzuf_cc.Prelude.{
  zero, suc, ℕ, ◌+◌, ◌*◌, ◌/◌, ◌%◌, ◌^◌, ◌<◌, ◌≡◌, refl, sym, ap, ◌∙◌, arith, bit_and, bit_or,
}
use mathlib.Core.Path.{ap₂}
use fuzzuf_cc.Bits.Fields.{and_byte, or_above}
use fuzzuf_cc.Exif.Endian.{be16_to_cpu, be32_to_cpu, be64_to_cpu}

-- The number whose bytes are those of `v` from the last to the first, of `n` bytes.
abbrev pub reverse_bytes : (n v : ℕ) → ℕ
reverse_bytes zero v = 0
reverse_bytes (suc n) v = v % 256 * 256 ^ n + reverse_bytes n (v / 256)

two_bytes : (b0 b1 : ℕ) → b0 < 256 → bit_or b0 (b1 * 2 ^ 8) ≡ b0 + b1 * 2 ^ 8
two_bytes b0 b1 h = or_above 8 b0 b1 h

four_bytes :
    (b0 b1 b2 b3 : ℕ)
    → b0 < 256
    → b1 < 256
    → b2 < 256
    → bit_or (bit_or (bit_or b0 (b1 * 2 ^ 8)) (b2 * 2 ^ 16)) (b3 * 2 ^ 24)
      ≡ b0 + b1 * 2 ^ 8 + b2 * 2 ^ 16 + b3 * 2 ^ 24
four_bytes b0 b1 b2 b3 h0 h1 h2 =
    rw (or_above 8 b0 b1 h0, or_above 16 (b0 + b1 * 2 ^ 8) b2 (omega arith))
      (or_above 24 (b0 + b1 * 2 ^ 8 + b2 * 2 ^ 16) b3 (omega arith))

-- Of a number below 2 ^ 16, `be16_to_cpu` reverses the two bytes.
pub be16_to_cpu-reverse_bytes : (v : ℕ) → v < 2 ^ 16 → be16_to_cpu v ≡ reverse_bytes 2 v
unfolding be16_to_cpu
be16_to_cpu-reverse_bytes v h =
    ap (λ t. t % 2 ^ 16)
      (ap₂ bit_or (let e : bit_and v 0xff00 / 2 ^ 8 ≡ v / 2 ^ 8 = omega (arith, and_byte 8 v) in e)
          (let e : bit_and v 0xff * 2 ^ 8 ≡ v % 256 * 2 ^ 8 = omega (arith, and_byte 0 v) in e)
        ∙ two_bytes (v / 2 ^ 8) (v % 256) (omega arith))
    ∙ omega arith

-- Of a number below 2 ^ 32, `be32_to_cpu` reverses the four bytes.
pub be32_to_cpu-reverse_bytes : (v : ℕ) → v < 2 ^ 32 → be32_to_cpu v ≡ reverse_bytes 4 v
unfolding be32_to_cpu
be32_to_cpu-reverse_bytes v h =
    ap₂ bit_or (ap₂ bit_or (ap₂ bit_or (highest v h) (second v)) (third v)) (lowest v)
    ∙ four_bytes (v / 2 ^ 24) (v / 2 ^ 16 % 256) (v / 2 ^ 8 % 256) (v % 256) (omega arith)
        (omega arith) (omega arith)
    ∙ omega arith
  where
    highest : (v : ℕ) → v < 2 ^ 32 → bit_and v 0xff00_0000 / 2 ^ 24 ≡ v / 2 ^ 24
    highest v h = omega (arith, and_byte 24 v)

    second : (v : ℕ) → bit_and v 0xff_0000 / 2 ^ 8 ≡ v / 2 ^ 16 % 256 * 2 ^ 8
    second v = omega (arith, and_byte 16 v)

    third : (v : ℕ) → bit_and v 0xff00 * 2 ^ 8 % 2 ^ 32 ≡ v / 2 ^ 8 % 256 * 2 ^ 16
    third v = omega (arith, and_byte 8 v)

    lowest : (v : ℕ) → bit_and v 0xff * 2 ^ 24 % 2 ^ 32 ≡ v % 256 * 2 ^ 24
    lowest v = omega (arith, and_byte 0 v)

same_byte :
    (k v w : ℕ)
    → v / 2 ^ k % 256 ≡ w / 2 ^ k % 256
    → bit_and v (255 * 2 ^ k) ≡ bit_and w (255 * 2 ^ k)
same_byte k v w e = and_byte k v ∙ ap (λ t. t * 2 ^ k) e ∙ sym (and_byte k w)

shifted_out : (v : ℕ) → bit_and v (255 * 2 ^ 40) * 2 ^ 24 % 2 ^ 64 ≡ 0
shifted_out v = omega (arith, and_byte 40 v)

-- Two numbers that differ in nothing but the sixth byte are converted to the same number by
-- `be64_to_cpu`, which shifts that byte out of the word.
pub be64_to_cpu-drops_byte :
    (v w : ℕ) → v % 2 ^ 40 ≡ w % 2 ^ 40 → v / 2 ^ 48 ≡ w / 2 ^ 48 → be64_to_cpu v ≡ be64_to_cpu w
unfolding be64_to_cpu
be64_to_cpu-drops_byte v w low high =
    rw
      (
        same_byte 56 v w (omega arith),
        same_byte 48 v w (omega arith),
        shifted_out v,
        shifted_out w,
        same_byte 32 v w (omega arith),
        same_byte 24 v w (omega arith),
        same_byte 16 v w (omega arith),
        same_byte 8 v w (omega arith),
        same_byte 0 v w (omega arith),
      )
      refl
