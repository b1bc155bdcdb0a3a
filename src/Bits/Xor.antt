-- ===== src/Bits/Xor.antt =====
-- `^` is an associative and commutative operation of which each number is its own inverse.
use native.Mathlib.Nat.{
  pow-suc, div-one, mod-one, div-div-eq-div-mul, mod-eq-sub-div-mul, div-mul-le_self,
}
use mathlib.Core.Path.{ap₂}
use fuzzuf_cc.Prelude.{
  ℕ, zero, suc, ◌+◌, ◌*◌, ◌/◌, ◌%◌, ◌^◌, ◌≤◌, ◌<◌, ◌≡◌, refl, sym, ap, ◌∙◌, arith, bit_xor,
}
use fuzzuf_cc.Bits.Digits.{bit_xor_step}

pub xor-half : (a b : ℕ) → bit_xor a b / 2 ≡ bit_xor (a / 2) (b / 2)
xor-half a b = omega (arith, bit_xor_step a b)

pub xor-parity : (a b : ℕ) → bit_xor a b % 2 ≡ (a + b) % 2
xor-parity a b = omega (arith, bit_xor_step a b)

-- Two numbers are equal by their halves and their parities.
pub eq_of_half : (x y : ℕ) → x / 2 ≡ y / 2 → x % 2 ≡ y % 2 → x ≡ y
eq_of_half x y h p = omega arith

-- The laws by induction on a bound: the halves have a smaller one.
xor_comm_below : (n a b : ℕ) → a + b ≤ n → bit_xor a b ≡ bit_xor b a
xor_comm_below zero zero zero h = refl
xor_comm_below zero (suc a) b h = absurd (omega arith)
xor_comm_below zero a (suc b) h = absurd (omega arith)
xor_comm_below (suc n) zero zero h = refl
xor_comm_below (suc n) a b h =
    omega
      (arith, bit_xor_step a b, bit_xor_step b a, xor_comm_below n (a / 2) (b / 2) (omega arith))

pub xor_comm : (a b : ℕ) → bit_xor a b ≡ bit_xor b a
xor_comm a b = xor_comm_below (a + b) a b (omega arith)

xor_assoc_below : (n a b c : ℕ) → a + b + c ≤ n → bit_xor (bit_xor a b) c ≡ bit_xor a (bit_xor b c)
xor_assoc_below zero zero zero zero h = refl
xor_assoc_below zero zero zero (suc c) h = absurd (omega arith)
xor_assoc_below zero zero (suc b) c h = absurd (omega arith)
xor_assoc_below zero (suc a) b c h = absurd (omega arith)
xor_assoc_below (suc n) zero zero zero h = refl
xor_assoc_below (suc n) a b c h =
    eq_of_half _ _
      (xor-half (bit_xor a b) c
        ∙ ap (λ t. bit_xor t (c / 2)) (xor-half a b)
        ∙ xor_assoc_below n (a / 2) (b / 2) (c / 2) (omega arith)
        ∙ sym (xor-half a (bit_xor b c) ∙ ap (λ t. bit_xor (a / 2) t) (xor-half b c)))
      (omega (
        arith,
        xor-parity (bit_xor a b) c,
        xor-parity a b,
        xor-parity a (bit_xor b c),
        xor-parity b c,
      ))

pub xor_assoc : (a b c : ℕ) → bit_xor (bit_xor a b) c ≡ bit_xor a (bit_xor b c)
xor_assoc a b c = xor_assoc_below (a + b + c) a b c (omega arith)

xor-zero_below : (n a : ℕ) → a ≤ n → bit_xor a 0 ≡ a
xor-zero_below n zero h = refl
xor-zero_below zero (suc a) h = absurd (omega arith)
xor-zero_below (suc n) (suc a) h =
    omega (arith, bit_xor_step (suc a) 0, xor-zero_below n (suc a / 2) (omega arith))

pub xor-zero : (a : ℕ) → bit_xor a 0 ≡ a
xor-zero a = xor-zero_below a a (omega arith)

xor_self_below : (n a : ℕ) → a ≤ n → bit_xor a a ≡ 0
xor_self_below n zero h = refl
xor_self_below zero (suc a) h = absurd (omega arith)
xor_self_below (suc n) (suc a) h =
    omega (arith, bit_xor_step (suc a) (suc a), xor_self_below n (suc a / 2) (omega arith))

pub xor_self : (a : ℕ) → bit_xor a a ≡ 0
xor_self a = xor_self_below a a (omega arith)

pub xor_cancel : (a b : ℕ) → bit_xor (bit_xor a b) b ≡ a
xor_cancel a b = xor_assoc a b b ∙ ap (λ t. bit_xor a t) (xor_self b) ∙ xor-zero a

-- Numbers that differ nowhere are equal.
pub eq_of_xor : (a b : ℕ) → bit_xor a b ≡ 0 → a ≡ b
eq_of_xor a b e = sym (xor_cancel a b) ∙ ap (λ t. bit_xor t b) e ∙ xor_comm 0 b ∙ xor-zero b

-- Shifts and masks, one bit at a time.
pub shift-suc : (k x : ℕ) → x / 2 ^ suc k ≡ x / 2 / 2 ^ k
shift-suc k x =
    let p : 2 ^ suc k ≡ 2 * 2 ^ k = omega (arith, pow-suc 2 k) in
    rw p (sym (div-div-eq-div-mul x 2 (2 ^ k)))

pub mod-suc : (k x : ℕ) → x % 2 ^ suc k ≡ x / 2 % 2 ^ k * 2 + x % 2
mod-suc k x = omega (
  arith,
  ap (λ q. q * 2 ^ suc k) (shift-suc k x),
  ap (λ p. x / 2 / 2 ^ k * p) (pow-suc 2 k),
  mod-eq-sub-div-mul x (2 ^ suc k),
  mod-eq-sub-div-mul (x / 2) (2 ^ k),
  div-mul-le_self (x / 2) (2 ^ k),
)

-- `(a ^ b) >> k` is `(a >> k) ^ (b >> k)`.
pub xor-shift : (k a b : ℕ) → bit_xor a b / 2 ^ k ≡ bit_xor (a / 2 ^ k) (b / 2 ^ k)
xor-shift zero a b = rw (div-one (bit_xor a b), div-one a, div-one b)
xor-shift (suc k) a b =
    shift-suc k (bit_xor a b)
    ∙ ap (λ t. t / 2 ^ k) (xor-half a b)
    ∙ xor-shift k (a / 2) (b / 2)
    ∙ sym (ap₂ bit_xor (shift-suc k a) (shift-suc k b))

-- `(a ^ b) % 2 ^ k` is `(a % 2 ^ k) ^ (b % 2 ^ k)`.
pub xor-mod : (k a b : ℕ) → bit_xor a b % 2 ^ k ≡ bit_xor (a % 2 ^ k) (b % 2 ^ k)
xor-mod zero a b = rw (mod-one (bit_xor a b), mod-one a, mod-one b)
xor-mod (suc k) a b =
    eq_of_half _ _
      (halves (bit_xor a b)
        ∙ ap (λ t. t % 2 ^ k) (xor-half a b)
        ∙ xor-mod k (a / 2) (b / 2)
        ∙ sym (xor-half (a % 2 ^ suc k) (b % 2 ^ suc k) ∙ ap₂ bit_xor (halves a) (halves b)))
      (omega (
        arith,
        mod-suc k (bit_xor a b),
        mod-suc k a,
        mod-suc k b,
        xor-parity a b,
        xor-parity (a % 2 ^ suc k) (b % 2 ^ suc k),
      ))
  where
    halves : (x : ℕ) → x % 2 ^ suc k / 2 ≡ x / 2 % 2 ^ k
    halves x = omega (arith, mod-suc k x)

-- Numbers of `k` bits give a number of `k` bits.
pub xor-lt : (k a b : ℕ) → a < 2 ^ k → b < 2 ^ k → bit_xor a b < 2 ^ k
xor-lt zero zero zero p q = omega arith
xor-lt zero zero (suc b) p q = absurd (omega arith)
xor-lt zero (suc a) b p q = absurd (omega arith)
xor-lt (suc k) a b p q = omega (
  arith,
  bit_xor_step a b,
  pow-suc 2 k,
  xor-lt k (a / 2) (b / 2) (omega (arith, pow-suc 2 k)) (omega (arith, pow-suc 2 k)),
)
