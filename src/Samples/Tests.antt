-- ===== src/Samples/Tests.antt =====
-- Inputs of the sample programs.
use fuzzuf_cc.Prelude.{ℕ, zero, suc, ◌≡◌, refl, arith, [], ◌∷◌, ◌++◌, some, replicate}
use fuzzuf_cc.Prelude.Effect.{ok, fault}
use fuzzuf_cc.Samples.{Console, cat, zeroone, result_label}
use fuzzuf_cc.Samples.Cat.{AreNonzero, cat-unterminated}
use fuzzuf_cc.Samples.Zeroone.{zeroone-digits}

abbrev silent : Console
silent = record { out = []; err = [] }

cat-unterminated_example : cat [] (some (replicate 128 b'A')) silent ≡ fault silent
cat-unterminated_example = cat-unterminated [] (replicate 128 b'A') silent refl (nonzero 128)
  where
    nonzero : (n : ℕ) → AreNonzero (replicate n b'A')
    nonzero zero = tt
    nonzero (suc n) = (refl, nonzero n)

zeroone-digits_example :
    zeroone (some (b'1' ∷ b'0' ∷ b'1' ∷ b'1' ∷ b'0' ∷ b'0' ∷ b'1' ∷ b'1' ∷ [])) silent
    ≡ ok 0 (record silent {
      out =
          (result_label ++ (b'1' ∷ b'0' ∷ b'1' ∷ b'1' ∷ b'0' ∷ b'0' ∷ b'1' ∷ b'1' ∷ 10 ∷ [])) ∷ [];
    })
zeroone-digits_example =
    zeroone-digits (b'1' ∷ b'0' ∷ b'1' ∷ b'1' ∷ b'0' ∷ b'0' ∷ b'1' ∷ b'1' ∷ []) silent (omega arith)
