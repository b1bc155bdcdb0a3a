-- ===== src/Bits/Digits.antt =====
-- The equations of the native bit operations for the lowest bit and the bits above it.
use Prim.Native.Nat.{digits, bitwise, bit_and-bitwise, bit_or-bitwise, bit_xor-bitwise, differ}
use fuzzuf_cc.Prelude.{
  ℕ, zero, suc, ◌+◌, ◌*◌, ◌/◌, ◌%◌, ◌≤◌, ◌<◌, ◌≡◌, refl, ap, ◌∙◌, arith, min, max, bit_and, bit_or,
  bit_xor,
}

-- `above y` is the result for 0 and `y`, and `bit` combines two bits.
module _ (above : ℕ → ℕ) (bit : ℕ → ℕ → ℕ) where
  same_digits :
      (x fuel more y : ℕ)
      → x ≤ fuel
      → x ≤ more
      → digits above bit fuel x y ≡ digits above bit more x y
  same_digits zero zero zero y _ _ = refl
  same_digits zero zero (suc more) y _ _ = refl
  same_digits zero (suc fuel) zero y _ _ = refl
  same_digits zero (suc fuel) (suc more) y _ _ = refl
  same_digits (suc x) zero more y h _ = absurd (omega arith)
  same_digits (suc x) (suc fuel) zero y _ h = absurd (omega arith)
  same_digits (suc x) (suc fuel) (suc more) y h h' =
      ap (λ high. high * 2 + bit (suc x % 2) (y % 2))
        (same_digits (suc x / 2) fuel more (y / 2) (omega arith) (omega arith))

  low_bit :
      ((y : ℕ) → above y ≡ above (y / 2) * 2 + bit 0 (y % 2))
      → (x y : ℕ)
      → bitwise above bit x y ≡ bitwise above bit (x / 2) (y / 2) * 2 + bit (x % 2) (y % 2)
  low_bit start zero y = start y
  low_bit start (suc x) y =
      ap (λ high. high * 2 + bit (suc x % 2) (y % 2))
        (same_digits (suc x / 2) x (suc x / 2) (y / 2) (omega arith) (omega arith))

pub bit_or_step : (a b : ℕ) → bit_or a b ≡ bit_or (a / 2) (b / 2) * 2 + max (a % 2) (b % 2)
bit_or_step a b = simp bit_or-bitwise (low_bit (λ y. y) max (λ y. omega arith) a b)

pub bit_and_step : (a b : ℕ) → bit_and a b ≡ bit_and (a / 2) (b / 2) * 2 + min (a % 2) (b % 2)
bit_and_step a b = simp bit_and-bitwise (low_bit (λ y. 0) min (λ y. omega arith) a b)

parity_of_differ : (y x : ℕ) → x < 2 → y < 2 → differ x y ≡ (x + y) % 2
parity_of_differ zero zero h h' = refl
parity_of_differ zero (suc zero) h h' = refl
parity_of_differ zero (suc (suc x)) h h' = absurd (omega arith)
parity_of_differ (suc zero) zero h h' = refl
parity_of_differ (suc zero) (suc zero) h h' = refl
parity_of_differ (suc zero) (suc (suc x)) h h' = absurd (omega arith)
parity_of_differ (suc (suc y)) x h h' = absurd (omega arith)

differ_zero : (y : ℕ) → differ 0 (y % 2) ≡ y % 2
differ_zero y = parity_of_differ (y % 2) 0 (omega arith) (omega arith) ∙ omega arith

pub bit_xor_step : (a b : ℕ) → bit_xor a b ≡ bit_xor (a / 2) (b / 2) * 2 + (a + b) % 2
bit_xor_step a b = simp bit_xor-bitwise (
    low_bit (λ y. y) differ (λ y. omega (arith, differ_zero y)) a b
    ∙ ap (λ low. bitwise (λ y. y) differ (a / 2) (b / 2) * 2 + low)
        (parity_of_differ (b % 2) (a % 2) (omega arith) (omega arith) ∙ omega arith))
