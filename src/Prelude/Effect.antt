-- ===== src/Prelude/Effect.antt =====
-- C code as a function of its state. A run returns, ends the process by `exit`, is killed by a
-- signal, fails an assertion, does what C leaves undefined, or uses up the fuel of a loop.
use Prim.Native.Nat.{ℕ}
use fuzzuf_cc.Prelude.Tests.{if◌then◌else◌}
use mathlib.Core.Bool.{Bool, true, false}
use mathlib.Core.Path.{◌≡◌, refl, ap, ◌∙◌}

pub data Run (S A : Type 0) : Type 0 where
  ok : A → S → Run S A
  exited : ℕ → S → Run S A
  killed : S → Run S A
  aborted : S → Run S A
  fault : S → Run S A
  out_of_fuel : S → Run S A

abbrev pub Cmd : Type 0 → Type 0 → Type 0
Cmd S A = S → Run S A

module _ {S : Type 0} where
  abbrev pub pure : {A : Type 0} → A → Cmd S A
  pure a s = ok a s

  abbrev pub get : Cmd S S
  get s = ok s s

  abbrev pub put : S → Cmd S (Unit {0})
  put s _ = ok tt s

  -- `exit (code)`
  abbrev pub exit : {A : Type 0} → ℕ → Cmd S A
  exit code s = exited code s

  module _ {A B : Type 0} where
    abbrev pub and_then : Run S A → (A → Cmd S B) → Run S B
    and_then (ok a s) k = k a s
    and_then (exited c s) k = exited c s
    and_then (killed s) k = killed s
    and_then (aborted s) k = aborted s
    and_then (fault s) k = fault s
    and_then (out_of_fuel s) k = out_of_fuel s

    infixl 5 ◌>>=◌ ◌>>◌
    abbrev pub ◌>>=◌ : Cmd S A → (A → Cmd S B) → Cmd S B
    ◌>>=◌ m f s = and_then (m s) f

    abbrev pub ◌>>◌ : Cmd S A → Cmd S B → Cmd S B
    ◌>>◌ m n s = and_then (m s) (λ _. n)

    pub and_then-ok :
        (r : Run S A) (k : A → Cmd S B) (a : A) (s : S) (q : Run S B)
        → r ≡ ok a s
        → k a s ≡ q
        → and_then r k ≡ q
    and_then-ok r k a s q e f = ap (λ t. and_then t k) e ∙ f

  -- The run returns, with a result of which `P` holds.
  abbrev pub Returns : {A : Type 0} → Run S A → (A → S → Type 0) → Type 0
  Returns (ok a s) P = P a s
  Returns (exited c s) P = ⊥
  Returns (killed s) P = ⊥
  Returns (aborted s) P = ⊥
  Returns (fault s) P = ⊥
  Returns (out_of_fuel s) P = ⊥

  pub Returns-and_then :
      {A B : Type 0} (r : Run S A) (k : A → Cmd S B) (P : A → S → Type 0) (Q : B → S → Type 0)
      → Returns r P
      → ((a : A) (s : S) → P a s → Returns (k a s) Q)
      → Returns (and_then r k) Q
  Returns-and_then (ok a s) k P Q h next = next a s h
  Returns-and_then (exited c s) k P Q h next = absurd h
  Returns-and_then (killed s) k P Q h next = absurd h
  Returns-and_then (aborted s) k P Q h next = absurd h
  Returns-and_then (fault s) k P Q h next = absurd h
  Returns-and_then (out_of_fuel s) k P Q h next = absurd h

  pub Returns_mono :
      {A : Type 0} (r : Run S A) (P Q : A → S → Type 0)
      → Returns r P
      → ((a : A) (s : S) → P a s → Q a s)
      → Returns r Q
  Returns_mono (ok a s) P Q h f = f a s h
  Returns_mono (exited c s) P Q h f = h
  Returns_mono (killed s) P Q h f = h
  Returns_mono (aborted s) P Q h f = h
  Returns_mono (fault s) P Q h f = h
  Returns_mono (out_of_fuel s) P Q h f = h

  pub Returns_if :
      {A : Type 0} (b : Bool) (m n : Cmd S A) (s : S) (P : A → S → Type 0)
      → (b ≡ true → Returns (m s) P)
      → (b ≡ false → Returns (n s) P)
      → Returns ((if b then m else n) s) P
  Returns_if true m n s P on off = on refl
  Returns_if false m n s P on off = off refl
