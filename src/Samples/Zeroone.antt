-- ===== src/Samples/Zeroone.antt =====
-- The digits that zeroone prints.
use fuzzuf_cc.Prelude.{
  ◌++◌, ℕ, ◌<◌, ◌≤◌, ◌≡◌, ◌==◌, refl, arith, List, [], ◌∷◌, some, length, get_or, map,
}
use fuzzuf_cc.Prelude.Effect.{ok, fault}
use fuzzuf_cc.Samples.{Console, zeroone, digit, result_label}

-- The digit of one character: the 0 behind the line counts as a character other than 1.
abbrev pub shown : List ℕ → ℕ → ℕ
shown line i = digit (get_or line i 0 == b'1')

-- When `fgets` gives at least 7 characters, `zeroone` prints 8 digits, which say of the first 8
-- characters whether they are a 1 (the 0 behind a line of 7 is not), and returns 0.
pub zeroone-digits :
    (line : List ℕ) (s : Console)
    → 7 ≤ length line
    → zeroone (some line) s
      ≡ ok 0 (record s {
        out =
            (result_label ++ (map (shown line) (0 ∷ 1 ∷ 2 ∷ 3 ∷ 4 ∷ 5 ∷ 6 ∷ 7 ∷ []) ++ (10 ∷ [])))
            ∷ s.out;
      })
unfolding zeroone
zeroone-digits [] s h = absurd (omega arith)
zeroone-digits (a ∷ []) s h = absurd (omega arith)
zeroone-digits (a ∷ b ∷ []) s h = absurd (omega arith)
zeroone-digits (a ∷ b ∷ c ∷ []) s h = absurd (omega arith)
zeroone-digits (a ∷ b ∷ c ∷ d ∷ []) s h = absurd (omega arith)
zeroone-digits (a ∷ b ∷ c ∷ d ∷ e ∷ []) s h = absurd (omega arith)
zeroone-digits (a ∷ b ∷ c ∷ d ∷ e ∷ f ∷ []) s h = absurd (omega arith)
zeroone-digits (a ∷ b ∷ c ∷ d ∷ e ∷ f ∷ g ∷ []) s h = refl
zeroone-digits (a ∷ b ∷ c ∷ d ∷ e ∷ f ∷ g ∷ i ∷ rest) s h = refl

-- When `fgets` gives fewer than 7 characters, `zeroone` uses a character that was never written: a
-- fault.
pub zeroone-unwritten :
    (line : List ℕ) (s : Console) → length line < 7 → zeroone (some line) s ≡ fault s
unfolding zeroone
zeroone-unwritten [] s h = refl
zeroone-unwritten (a ∷ []) s h = refl
zeroone-unwritten (a ∷ b ∷ []) s h = refl
zeroone-unwritten (a ∷ b ∷ c ∷ []) s h = refl
zeroone-unwritten (a ∷ b ∷ c ∷ d ∷ []) s h = refl
zeroone-unwritten (a ∷ b ∷ c ∷ d ∷ e ∷ []) s h = refl
zeroone-unwritten (a ∷ b ∷ c ∷ d ∷ e ∷ f ∷ []) s h = refl
zeroone-unwritten (a ∷ b ∷ c ∷ d ∷ e ∷ f ∷ g ∷ rest) s h = absurd (omega arith)
