-- ===== src/Bits/Fields.antt =====
-- Fields of a word: masked, shifted and joined.
use native.Mathlib.Nat.{pow-suc, div-one}
use fuzzuf_cc.Prelude.{
  min, ℕ, zero, suc, ◌+◌, ◌*◌, ◌/◌, ◌%◌, ◌^◌, ◌≤◌, ◌<◌, ◌≡◌, refl, ap, ◌∙◌, arith, bit_and, bit_or,
}
use fuzzuf_cc.Bits.Digits.{bit_and_step, bit_or_step}
use fuzzuf_cc.Bits.Shift.{and_mask, or_fields}
use fuzzuf_cc.Bits.Xor.{shift-suc}

or_comm_below : (n a b : ℕ) → a + b ≤ n → bit_or a b ≡ bit_or b a
or_comm_below zero a b h =
    let none_a : a ≡ 0 = omega arith in let none_b : b ≡ 0 = omega arith in rw (none_a, none_b) refl
or_comm_below (suc n) zero zero h = refl
or_comm_below (suc n) zero (suc b) h = omega (
  arith,
  bit_or_step 0 (suc b),
  bit_or_step (suc b) 0,
  or_comm_below n 0 (suc b / 2) (omega arith),
)
or_comm_below (suc n) (suc a) b h = omega (
  arith,
  bit_or_step (suc a) b,
  bit_or_step b (suc a),
  or_comm_below n (suc a / 2) (b / 2) (omega arith),
)

pub or_comm : (a b : ℕ) → bit_or a b ≡ bit_or b a
or_comm a b = or_comm_below (a + b) a b (omega arith)

-- `a & (m << k)` is `((a >> k) & m) << k`.
pub and_field : (k a m : ℕ) → bit_and a (m * 2 ^ k) ≡ bit_and (a / 2 ^ k) m * 2 ^ k
and_field zero a m = let whole : m * 1 ≡ m = omega arith in rw (whole, div-one a) (omega arith)
and_field (suc k) a m =
    bit_and_step a (m * 2 ^ suc k)
    ∙ ap (λ t. bit_and (a / 2) t * 2 + min (a % 2) (m * 2 ^ suc k % 2)) half
    ∙ omega (
      arith,
      and_field k (a / 2) m,
      ap (λ t. bit_and t m * 2 ^ suc k) (shift-suc k a),
      ap (λ (t : ℕ). m * t) (pow-suc 2 k),
      ap (λ (t : ℕ). bit_and (a / 2 / 2 ^ k) m * t) (pow-suc 2 k),
    )
  where
    half : m * 2 ^ suc k / 2 ≡ m * 2 ^ k
    half = omega (arith, ap (λ (t : ℕ). m * t) (pow-suc 2 k))

-- A field of a byte, at bit `k`.
pub and_byte : (k a : ℕ) → bit_and a (255 * 2 ^ k) ≡ a / 2 ^ k % 256 * 2 ^ k
and_byte k a = and_field k a 255 ∙ ap (λ t. t * 2 ^ k) (and_mask 8 (a / 2 ^ k))

-- `r | (q << k)` is a sum when `r` fits `k` bits.
pub or_above : (k r q : ℕ) → r < 2 ^ k → bit_or r (q * 2 ^ k) ≡ r + q * 2 ^ k
or_above k r q h = or_comm r (q * 2 ^ k) ∙ or_fields k q r h ∙ omega arith
