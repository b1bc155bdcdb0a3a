-- ===== src/Exif/Heap/Balance.antt =====
-- The blocks on the heap, followed through a run.
use mathlib.Core.Path.{subst}
use fuzzuf_cc.Prelude.{
  sym, ◌==◌, ◌∷◌, none, some, ◌∙◌, ap, refl, length, ℕ, ◌+◌, ◌≡◌, arith, Bool, true, false, List,
  if◌then◌else◌, leb, Option,
}
use fuzzuf_cc.Prelude.Effect.{
  pure, Run, ok, exited, killed, aborted, fault, out_of_fuel, and_then, ◌>>=◌, ◌>>◌,
}
use fuzzuf_cc.Exif.Types.{Exif, Util, Printed}
use fuzzuf_cc.Exif.Heap.{
  without, is_allocated, Allocator, malloc, free, print, load, store, put_block,
}

-- If the run returns, `P` holds of its result; and it has freed nothing that was not allocated.
abbrev pub Leaves : {A : Type 0} → Run Exif A → (A → Exif → Type 0) → Type 0
Leaves (ok a t) P = P a t
Leaves (exited c t) P = Unit
Leaves (killed t) P = ⊥
Leaves (aborted t) P = Unit
Leaves (fault t) P = Unit
Leaves (out_of_fuel t) P = Unit

-- From the blocks `n`, the run leaves the blocks `f a` when it returns `a`.
pub record Keeps {A : Type 0} (n : List ℕ) (f : A → List ℕ) (m : Util A) : Type 0 where
  pub leaves : (s : Exif) → s.blocks ≡ n → Leaves (m s) (λ a t. t.blocks ≡ f a)

Leaves-and_then :
    {A B : Type 0} (r : Run Exif A) (k : A → Util B) (P : A → Exif → Type 0) (Q : B → Exif → Type 0)
    → Leaves r P
    → ((a : A) (t : Exif) → P a t → Leaves (k a t) Q)
    → Leaves (and_then r k) Q
Leaves-and_then (ok a t) k P Q h next = next a t h
Leaves-and_then (exited c t) k P Q h next = h
Leaves-and_then (killed t) k P Q h next = h
Leaves-and_then (aborted t) k P Q h next = h
Leaves-and_then (fault t) k P Q h next = h
Leaves-and_then (out_of_fuel t) k P Q h next = h

module _ {A B : Type 0} where
  pub bind-Keeps :
      {n : List ℕ} {f : A → List ℕ} {g : B → List ℕ} {m : Util A} {k : A → Util B}
      → Keeps n f m
      → ((a : A) → Keeps (f a) g (k a))
      → Keeps n g (m >>= k)
  bind-Keeps {m = m} {k = k} h next = record {
    leaves = λ s e. Leaves-and_then (m s) k _ _ (h.leaves s e) (λ a t e'. (next a).leaves t e');
  }

  pub then-Keeps :
      {n i : List ℕ} {g : B → List ℕ} {m : Util A} {k : Util B}
      → Keeps n (λ _. i) m
      → Keeps i g k
      → Keeps n g (m >> k)
  then-Keeps h next = bind-Keeps h (λ _. next)

module _ {A : Type 0} {n : List ℕ} {f : A → List ℕ} where
  pub if-Keeps :
      (b : Bool) {m k : Util A} → Keeps n f m → Keeps n f k → Keeps n f (if b then m else k)
  if-Keeps true h h' = h
  if-Keeps false h h' = h'

pub Leaves_if :
    {A : Type 0} (b : Bool) (r q : Run Exif A) (P : A → Exif → Type 0)
    → Leaves r P
    → Leaves q P
    → Leaves (if b then r else q) P
Leaves_if true r q P h h' = h
Leaves_if false r q P h h' = h'

pub Leaves_option :
    {A B : Type 0} (o : Option A) (r : Run Exif B) (k : A → Run Exif B) (P : B → Exif → Type 0)
    → Leaves r P
    → ((a : A) → Leaves (k a) P)
    → Leaves (elim o [ none ↦ r | some a ↦ k a ]) P
Leaves_option none r k P h h' = h
Leaves_option (some a) r k P h h' = h' a

-- A test that leaves the state alone or is a fault.
pub if_fault-Leaves :
    {A : Type 0} (b : Bool) (a : A) (t s : Exif) (P : A → Exif → Type 0)
    → P a t
    → Leaves (if b then ok a t else fault s) P
if_fault-Leaves true a t s P h = h
if_fault-Leaves false a t s P h = tt

-- What `malloc` leaves.
abbrev pub one_more : List ℕ → Option ℕ → List ℕ
one_more n none = n
one_more n (some address) = address ∷ n

module _ {n : List ℕ} where
  pub malloc-Keeps :
      (allocator : Allocator) (size : ℕ) → Keeps n (one_more n) (malloc allocator size)
  malloc-Keeps allocator size = record {
    leaves = λ s e. answered (allocator s.allocations size) s e;
  }
    where
      answered :
          {n : List ℕ} (b : Bool) (s : Exif)
          → s.blocks ≡ n
          → Leaves
              (let counted : Exif = record s { allocations = s.allocations + 1 } in
                if b
                then ok (some s.allocations) (record counted { blocks = s.allocations ∷ s.blocks })
                else ok none counted)
              (λ got t. t.blocks ≡ one_more n got)
      answered true s e = ap (λ bs. s.allocations ∷ bs) e
      answered false s e = e

  pub free-Keeps : (address : ℕ) → Keeps (address ∷ n) (λ _. n) (free address)
  free-Keeps address = record {
    leaves = λ s e.
        let self : (address == address) ≡ true = ground arith in
        subst
          (λ bs.
            Leaves
              (if is_allocated address bs
                then ok tt (record s { blocks = without address bs })
                else killed s)
              (λ (a : Unit {0}) t. t.blocks ≡ n))
          (sym e) (rw self refl);
  }

  pub print-Keeps : (p : Printed) → Keeps n (λ _. n) (print p)
  print-Keeps p = record { leaves = λ s e. e }

  pub load-Keeps : (size o : ℕ) → Keeps n (λ _. n) (load size o)
  unfolding load
  load-Keeps size o = record {
    leaves = λ s e. if_fault-Leaves (leb (o + size) (length s.tiff)) _ s s _ e;
  }

  pub store-Keeps : (size o v : ℕ) → Keeps n (λ _. n) (store size o v)
  unfolding store
  store-Keeps size o v = record {
    leaves = λ s e. if_fault-Leaves (leb (o + size) (length s.tiff)) _ _ s _ e;
  }

  pub put_block-Keeps :
      (size o v : ℕ) (block : List (Option ℕ)) → Keeps n (λ _. n) (put_block size o v block)
  unfolding put_block
  put_block-Keeps size o v block = record {
    leaves = λ s e. if_fault-Leaves (leb (o + size) (length block)) _ s s _ e;
  }

pub pure-Keeps : {A : Type 0} {n : List ℕ} {f : A → List ℕ} {a : A} → n ≡ f a → Keeps n f (pure a)
pure-Keeps h = record { leaves = λ s e. e ∙ h }

pub pure-Steady : {A : Type 0} {n : List ℕ} {a : A} → Keeps n (λ _. n) (pure a)
pure-Steady = record { leaves = λ s e. e }

pub option-Keeps :
    {A B : Type 0} {n : List ℕ} {f : B → List ℕ} (o : Option A) {m : Util B} {k : A → Util B}
    → Keeps n f m
    → ((a : A) → Keeps n f (k a))
    → Keeps n f (elim o [ none ↦ m | some a ↦ k a ])
option-Keeps none h h' = h
option-Keeps (some a) h h' = h' a

pub got-Keeps :
    {B : Type 0} {n : List ℕ} {f : B → List ℕ} (got : Option ℕ) {m : Util B} {k : ℕ → Util B}
    → Keeps n f m
    → ((address : ℕ) → Keeps (address ∷ n) f (k address))
    → Keeps (one_more n got) f (elim got [ none ↦ m | some address ↦ k address ])
got-Keeps none h h' = h
got-Keeps (some address) h h' = h' address
