-- ===== src/Ijon/Hash/Injective.antt =====
-- The 64-bit mixing function loses nothing.
use native.Mathlib.Nat.{div-le_self}
use fuzzuf_cc.Prelude.{ℕ, ◌*◌, ◌/◌, ◌%◌, ◌^◌, ◌<◌, ◌≡◌, arith, bit_xor}
use fuzzuf_cc.Ijon.Hash.{ijon_simple_hash}
use fuzzuf_cc.Bits.Xor.{xor-lt}
use fuzzuf_cc.Bits.Shift.{xorshift_injective}

-- The multipliers are odd, so they have inverses modulo 2 ^ 64.
first_multiplier-injective :
    (a b : ℕ)
    → a < 2 ^ 64
    → b < 2 ^ 64
    → a * 0xbf58_476d_1ce4_e5b9 % 2 ^ 64 ≡ b * 0xbf58_476d_1ce4_e5b9 % 2 ^ 64
    → a ≡ b
first_multiplier-injective a b p q e = omega arith

second_multiplier-injective :
    (a b : ℕ)
    → a < 2 ^ 64
    → b < 2 ^ 64
    → a * 0x94d0_49bb_1331_11eb % 2 ^ 64 ≡ b * 0x94d0_49bb_1331_11eb % 2 ^ 64
    → a ≡ b
second_multiplier-injective a b p q e = omega arith

mixed-lt : (k x : ℕ) → x < 2 ^ 64 → bit_xor x (x / 2 ^ k) < 2 ^ 64
mixed-lt k x h = xor-lt 64 x (x / 2 ^ k) h (omega (arith, div-le_self x (2 ^ k)))

-- Two different 64-bit values have different hashes.
pub ijon_simple_hash-injective :
    (x y : ℕ) → x < 2 ^ 64 → y < 2 ^ 64 → ijon_simple_hash x ≡ ijon_simple_hash y → x ≡ y
unfolding ijon_simple_hash
ijon_simple_hash-injective x y p q e = xorshift_injective 29 x y (
    first_multiplier-injective _ _ (mixed-lt 30 x p) (mixed-lt 30 y q) (
      xorshift_injective 26 _ _ (
        second_multiplier-injective _ _ (mixed-lt 27 _ (omega arith)) (mixed-lt 27 _ (omega arith))
          (xorshift_injective 30 _ _ e))))
