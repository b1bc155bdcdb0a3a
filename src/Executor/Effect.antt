-- ===== src/Executor/Effect.antt =====
-- C++ as a function of the state: a run is done, throws, ends the process by `std::terminate` or
-- `std::abort`, becomes another program by `execve`, or uses up the fuel of a loop.
use fuzzuf_cc.Prelude.{◌≡◌, ap, ◌∙◌, Bool, if◌then◌else◌}
use fuzzuf_cc.Executor.Types.{Client, Failure}

pub data Outcome (A : Type 0) : Type 0 where
  done : A → Client → Outcome A
  thrown : Failure → Client → Outcome A
  terminated : Client → Outcome A
  execed : Client → Outcome A
  out_of_fuel : Client → Outcome A

abbrev pub Cpp : Type 0 → Type 0
Cpp A = Client → Outcome A

abbrev pub and_then : {A B : Type 0} → Outcome A → (A → Cpp B) → Outcome B
and_then (done a c) k = k a c
and_then (thrown f c) k = thrown f c
and_then (terminated c) k = terminated c
and_then (execed c) k = execed c
and_then (out_of_fuel c) k = out_of_fuel c

infixl 5 ◌>>=◌ ◌>>◌
abbrev pub ◌>>=◌ : {A B : Type 0} → Cpp A → (A → Cpp B) → Cpp B
◌>>=◌ m k c = and_then (m c) k

abbrev pub ◌>>◌ : {A B : Type 0} → Cpp A → Cpp B → Cpp B
◌>>◌ m n c = and_then (m c) (λ _. n)

abbrev pub pure : {A : Type 0} → A → Cpp A
pure a c = done a c

abbrev pub throw : {A : Type 0} → Failure → Cpp A
throw f c = thrown f c

abbrev pub get : Cpp Client
get c = done c c

abbrev pub throw_if : Bool → Failure → Cpp (Unit {0})
throw_if b f = if b then throw f else pure tt

-- The members are destroyed when the constructor throws.
abbrev pub cleaned : {A : Type 0} → Outcome A → Cpp (Unit {0}) → Outcome A
cleaned (thrown f c) cleanup = and_then (cleanup c) (λ _. throw f)
cleaned (done a c) cleanup = done a c
cleaned (terminated c) cleanup = terminated c
cleaned (execed c) cleanup = execed c
cleaned (out_of_fuel c) cleanup = out_of_fuel c

-- A destructor may not throw.
abbrev pub noexcept : {A : Type 0} → Outcome A → Outcome A
noexcept (thrown f c) = terminated c
noexcept (done a c) = done a c
noexcept (terminated c) = terminated c
noexcept (execed c) = execed c
noexcept (out_of_fuel c) = out_of_fuel c

pub and_then-done :
    {A B : Type 0} (r : Outcome A) (k : A → Cpp B) (a : A) (c : Client) (q : Outcome B)
    → r ≡ done a c
    → k a c ≡ q
    → and_then r k ≡ q
and_then-done r k a c q e h = ap (λ t. and_then t k) e ∙ h
