-- ===== src/Bytes.antt =====
-- Integers as the bytes that hold them in memory, the low byte first (x86-64).
use fuzzuf_cc.Prelude.{
  inr, inl, Bool-cases, false, ◌&&◌, ltb, Bool, true, ℕ, zero, suc, ◌+◌, ◌*◌, ◌/◌, ◌%◌, ◌^◌, ◌<◌,
  ◌≡◌, refl, List, [], ◌∷◌, ap, arith, length,
}
use native.Mathlib.Nat.{pow-suc}

abbrev pub from_bytes : List ℕ → ℕ
from_bytes [] = 0
from_bytes (b ∷ bs) = b + 256 * from_bytes bs

abbrev pub to_bytes : (n value : ℕ) → List ℕ
to_bytes zero value = []
to_bytes (suc n) value = value % 256 ∷ to_bytes n (value / 256)

abbrev pub IsBytes : List ℕ → Type 0
IsBytes [] = Unit
IsBytes (b ∷ bs) = (b < 256) × IsBytes bs

pub length-to_bytes : (n value : ℕ) → length (to_bytes n value) ≡ n
length-to_bytes zero value = refl
length-to_bytes (suc n) value = ap suc (length-to_bytes n (value / 256))

pub from_bytes-to_bytes : (n value : ℕ) → value < 256 ^ n → from_bytes (to_bytes n value) ≡ value
from_bytes-to_bytes zero value h = omega arith
from_bytes-to_bytes (suc n) value h = omega (arith, from_bytes-to_bytes n (value / 256) small)
  where
    small : value / 256 < 256 ^ n
    small = omega (arith, pow-suc 256 n)

pub to_bytes-IsBytes : (n value : ℕ) → IsBytes (to_bytes n value)
to_bytes-IsBytes zero value = tt
to_bytes-IsBytes (suc n) value = (omega arith, to_bytes-IsBytes n (value / 256))

pub from_bytes-lt : (bs : List ℕ) → IsBytes bs → from_bytes bs < 256 ^ length bs
from_bytes-lt [] h = omega arith
from_bytes-lt (b ∷ bs) h = omega (arith, from_bytes-lt bs h.1, pow-suc 256 (length bs))

abbrev pub are_bytes : List ℕ → Bool
are_bytes [] = true
are_bytes (b ∷ bs) = ltb b 256 && are_bytes bs

pub are_bytes-IsBytes : (bs : List ℕ) → are_bytes bs ≡ true → IsBytes bs
are_bytes-IsBytes [] h = tt
are_bytes-IsBytes (b ∷ bs) h = elim (Bool-cases (ltb b 256)) [
  | inl e ↦ (below b e, are_bytes-IsBytes bs (rest (ltb b 256) (are_bytes bs) h))
  | inr e ↦ absurd (never (ltb b 256) (are_bytes bs) e h)
]
  where
    below : (b : ℕ) → ltb b 256 ≡ true → b < 256
    below b e = ground arith

    rest : (a c : Bool) → (a && c) ≡ true → c ≡ true
    rest true c h = h
    rest false c h = ground arith

    never : (a c : Bool) → a ≡ false → (a && c) ≡ true → ⊥
    never a c e h = ground arith
