-- ===== src/Bits/Shift.antt =====
-- Mixing a number with a shift of itself loses nothing; setting a bit, masks and joined fields.
use native.Mathlib.Nat.{mod-one, pow-suc, div-le_self, one-le-pow}
use fuzzuf_cc.Prelude.{
  ℕ, zero, suc, ◌+◌, ◌-◌, ◌*◌, ◌/◌, ◌%◌, ◌^◌, ◌≤◌, ◌<◌, ◌≡◌, refl, sym, ap, ◌∙◌, arith, bit_and,
  bit_or, bit_xor,
}
use fuzzuf_cc.Bits.Digits.{bit_or_step, bit_and_step}
use fuzzuf_cc.Bits.Xor.{mod-suc, xor_comm, xor_assoc, eq_of_xor, xor-shift, shift-suc, xor_self}

-- A number that a shift leaves alone is 0.
eq-zero_of_shift : (k d : ℕ) → d ≡ d / 2 ^ suc k → d ≡ 0
eq-zero_of_shift k d e = omega (arith, shift-suc k d, div-le_self (d / 2) (2 ^ k))

-- `(a ^ b) ^ (c ^ d)` regrouped.
xor_swap : (a b c d : ℕ) → bit_xor (bit_xor a b) (bit_xor c d) ≡ bit_xor (bit_xor a c) (bit_xor b d)
xor_swap a b c d =
    xor_assoc a b (bit_xor c d)
    ∙ ap (λ t. bit_xor a t)
        (sym (xor_assoc b c d) ∙ ap (λ t. bit_xor t d) (xor_comm b c) ∙ xor_assoc c b d)
    ∙ sym (xor_assoc a c (bit_xor b d))

-- `x ^ (x >> k)` with `k` at least 1 determines `x`.
pub xorshift_injective : (k x y : ℕ) → bit_xor x (x / 2 ^ suc k) ≡ bit_xor y (y / 2 ^ suc k) → x ≡ y
xorshift_injective k x y e =
    eq_of_xor x y (eq-zero_of_shift k (bit_xor x y) (moved ∙ sym (xor-shift (suc k) x y)))
  where
    zero_sum : bit_xor (bit_xor x y) (bit_xor (x / 2 ^ suc k) (y / 2 ^ suc k)) ≡ 0
    zero_sum =
        xor_swap x y (x / 2 ^ suc k) (y / 2 ^ suc k)
        ∙ ap (λ t. bit_xor t (bit_xor y (y / 2 ^ suc k))) e
        ∙ xor_self (bit_xor y (y / 2 ^ suc k))

    moved : bit_xor x y ≡ bit_xor (x / 2 ^ suc k) (y / 2 ^ suc k)
    moved = eq_of_xor _ _ zero_sum

or-zero_below : (n a : ℕ) → a ≤ n → bit_or a 0 ≡ a
or-zero_below n zero h = refl
or-zero_below zero (suc a) h = absurd (omega arith)
or-zero_below (suc n) (suc a) h =
    omega (arith, bit_or_step (suc a) 0, or-zero_below n (suc a / 2) (omega arith))

pub or-zero : (a : ℕ) → bit_or a 0 ≡ a
or-zero a = or-zero_below a a (omega arith)

-- `a | 1` sets the lowest bit and leaves the others.
pub or-one : (a : ℕ) → bit_or a 1 ≡ a / 2 * 2 + 1
or-one a = omega (arith, bit_or_step a 1, or-zero (a / 2))

-- `(q << k) | r` is a sum when `r` fits `k` bits.
pub or_fields : (k q r : ℕ) → r < 2 ^ k → bit_or (q * 2 ^ k) r ≡ q * 2 ^ k + r
or_fields zero q r h = ground (arith, or-zero q)
or_fields (suc k) q r h = ground (
  arith,
  bit_or_step (q * 2 ^ suc k) r,
  ap (λ (t : ℕ). q * t) (pow-suc 2 k),
  pow-suc 2 k,
  or_fields k q (r / 2) (omega (arith, pow-suc 2 k)),
)

and-zero_below : (n a : ℕ) → a ≤ n → bit_and a 0 ≡ 0
and-zero_below n zero h = refl
and-zero_below zero (suc a) h = absurd (omega arith)
and-zero_below (suc n) (suc a) h =
    omega (arith, bit_and_step (suc a) 0, and-zero_below n (suc a / 2) (omega arith))

-- A mask of `k` low bits is the remainder by `2 ^ k`.
pub and_mask : (k a : ℕ) → bit_and a (2 ^ k - 1) ≡ a % 2 ^ k
and_mask zero a = and-zero_below a a (omega arith) ∙ sym (mod-one a)
and_mask (suc k) a = omega (
  arith,
  bit_and_step a (2 ^ suc k - 1),
  ap (λ m. bit_and (a / 2) m) half,
  and_mask k (a / 2),
  mod-suc k a,
  pow-suc 2 k,
  one-le-pow k 2 (omega arith),
)
  where
    half : (2 ^ suc k - 1) / 2 ≡ 2 ^ k - 1
    half = omega (arith, pow-suc 2 k, one-le-pow k 2 (omega arith))
