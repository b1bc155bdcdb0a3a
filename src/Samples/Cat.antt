-- ===== src/Samples/Cat.antt =====
-- What cat prints of its input.
use mathlib.Core.List.{append-nil}
use fuzzuf_cc.Prelude.{
  ℕ, zero, suc, ◌-◌, ◌<◌, ◌≡◌, ◌==◌, refl, ap, ◌∙◌, arith, false, List, [], ◌∷◌, ◌++◌, none, some,
  length, drop, replicate, Bool-cases, inl, inr, if◌then◌else◌,
}
use fuzzuf_cc.Prelude.Effect.{ok, fault}
use fuzzuf_cc.Samples.{
  buffer, echo, Program, with_text, Console, cat, text_of, stdout_label, stderr_label,
}

-- The bytes before the first 0.
abbrev pub before_zero : List ℕ → List ℕ
before_zero [] = []
before_zero (c ∷ cs) = let rest : List ℕ = before_zero cs in if c == 0 then [] else c ∷ rest

-- No byte is 0.
abbrev pub AreNonzero : List ℕ → Type 0
AreNonzero [] = Unit {0}
AreNonzero (c ∷ cs) = ((c == 0) ≡ false) × AreNonzero cs

drop-replicate : (n m : ℕ) → drop n (replicate m (let z : ℕ = 0 in z)) ≡ replicate (m - n) 0
drop-replicate zero m = ap (λ k. replicate k 0) (let e : m ≡ m - 0 = omega arith in e)
drop-replicate (suc n) zero = ap (λ k. replicate k 0) (let e : 0 ≡ 0 - suc n = omega arith in e)
drop-replicate (suc n) (suc m) =
    drop-replicate n m ∙ ap (λ k. replicate k 0) (let e : m - n ≡ suc m - suc n = omega arith in e)

text_of-before_zero : (bs rest : List ℕ) → text_of (bs ++ (0 ∷ rest)) ≡ some (before_zero bs)
text_of-before_zero [] rest = refl
text_of-before_zero (b ∷ bs) rest = elim (Bool-cases (b == 0)) [
  | inl e ↦ rw e refl
  | inr e ↦ rw (e, text_of-before_zero bs rest) refl
]

text_of-none : (bs : List ℕ) → AreNonzero bs → text_of bs ≡ none
text_of-none [] h = refl
text_of-none (b ∷ bs) h = rw (h.0, text_of-none bs h.1) refl

with_text-some :
    (buf : List ℕ) (k : List ℕ → Program ℕ) (text : List ℕ) (s : Console)
    → text_of buf ≡ some text
    → with_text buf k s ≡ k text s
with_text-some buf k text s h = rw (h, with_text) refl

with_text-none :
    (buf : List ℕ) (k : List ℕ → Program ℕ) (s : Console)
    → text_of buf ≡ none
    → with_text buf k s ≡ fault s
with_text-none buf k s h = rw (h, with_text) refl

-- When `read` gives fewer than 128 bytes, `cat` writes them up to the first 0 among them to both
-- streams, behind their labels, and returns 0.
pub cat-echoes :
    (strerror bytes : List ℕ) (s : Console)
    → length bytes < 128
    → cat strerror (some bytes) s
      ≡ ok 0 (record s {
        out = (stdout_label ++ before_zero bytes) ∷ s.out;
        err = (stderr_label ++ before_zero bytes) ∷ s.err;
      })
unfolding cat
cat-echoes strerror bytes s h = with_text-some (buffer bytes) echo (before_zero bytes) s (
    ap (λ t. text_of (bytes ++ t))
      (drop-replicate (length bytes) 128
        ∙ ap (λ k. replicate k 0)
            (let e : 128 - length bytes ≡ suc (127 - length bytes) = omega arith in e))
    ∙ text_of-before_zero bytes (replicate (127 - length bytes) 0))

-- When `read` gives 128 bytes of which none is 0, the string that `cat` prints has no end in the
-- buffer: a fault.
pub cat-unterminated :
    (strerror bytes : List ℕ) (s : Console)
    → length bytes ≡ 128
    → AreNonzero bytes
    → cat strerror (some bytes) s ≡ fault s
unfolding cat
cat-unterminated strerror bytes s h nonzero = with_text-none (buffer bytes) echo s (
    ap (λ t. text_of (bytes ++ t))
      (drop-replicate (length bytes) 128
        ∙ ap (λ k. replicate k 0) (let e : 128 - length bytes ≡ 0 = omega (arith, h) in e))
    ∙ ap text_of (append-nil bytes)
    ∙ text_of-none bytes nonzero)
