-- ===== src/Ijon/Distance/Prefix.antt =====
-- The distances are the lengths of common prefixes.
use fuzzuf_cc.Prelude.{
  true, false, length-take, lt→ltb, ℕ, zero, suc, ◌+◌, ◌%◌, ◌^◌, ◌<◌, ◌≤◌, ◌≡◌, ◌≢◌, refl, ap, ◌∙◌,
  arith, List, [], ◌∷◌, ◌++◌, take, length, inl, inr, Bool-cases, ◌==◌, if◌then◌else◌, ◌-◌,
}
use fuzzuf_cc.Prelude.Effect.{ok}
use fuzzuf_cc.Ijon.State.{Ijon}
use fuzzuf_cc.Ijon.Distance.{strdist_loop, ijon_strdist, memdist_loop, ijon_memdist}

-- A number of elements that both lists have in common at the front, and no larger one.
pub record IsLongestPrefix (xs ys : List ℕ) (k : ℕ) : Type 0 where
  pub left : k ≤ length xs
  pub right : k ≤ length ys
  pub common : take k xs ≡ take k ys
  pub longest : (j : ℕ) → j ≤ length xs → j ≤ length ys → take j xs ≡ take j ys → j ≤ k

abbrev prefix_length : List ℕ → List ℕ → ℕ
prefix_length [] ys = 0
prefix_length (x ∷ xs) [] = 0
prefix_length (x ∷ xs) (y ∷ ys) = let rest = prefix_length xs ys in if x == y then suc rest else 0

same_head : (x y : ℕ) (xs ys : List ℕ) → (x ∷ xs) ≡ (y ∷ ys) → x ≡ y
same_head x y xs ys e = cc e

same_tail : (x y : ℕ) (xs ys : List ℕ) → (x ∷ xs) ≡ (y ∷ ys) → xs ≡ ys
same_tail x y xs ys e = cc e

cons-IsLongestPrefix :
    (x y k : ℕ) (xs ys : List ℕ)
    → IsLongestPrefix xs ys k
    → IsLongestPrefix (x ∷ xs) (y ∷ ys) (if x == y then suc k else 0)
cons-IsLongestPrefix x y k xs ys rest = elim (Bool-cases (x == y)) [
  | inl e ↦ rw e record {
    left = omega (arith, rest.left);
    right = omega (arith, rest.right);
    common = cc (same_char e, rest.common);
    longest = longer;
  }
  | inr e ↦
      rw e
        record { left = omega arith; right = omega arith; common = refl; longest = none_common e }
]
  where
    same_char : (x == y) ≡ true → x ≡ y
    same_char e = ground arith

    longer :
        (j : ℕ)
        → j ≤ length (x ∷ xs)
        → j ≤ length (y ∷ ys)
        → take j (x ∷ xs) ≡ take j (y ∷ ys)
        → j ≤ suc k
    longer zero p q e = omega arith
    longer (suc j) p q e = omega (
      arith,
      rest.longest j (omega arith) (omega arith) (same_tail x y (take j xs) (take j ys) e),
    )

    none_common :
        (x == y) ≡ false
        → (j : ℕ) → j ≤ length (x ∷ xs)
        → j ≤ length (y ∷ ys)
        → take j (x ∷ xs) ≡ take j (y ∷ ys)
        → j ≤ 0
    none_common r zero p q e = omega arith
    none_common r (suc j) p q e =
        let same : x ≡ y = same_head x y (take j xs) (take j ys) e in ground arith

prefix_length-IsLongestPrefix : (xs ys : List ℕ) → IsLongestPrefix xs ys (prefix_length xs ys)
prefix_length-IsLongestPrefix [] ys = record {
  left = omega arith;
  right = omega arith;
  common = refl;
  longest = λ j p q e. p;
}
prefix_length-IsLongestPrefix (x ∷ xs) [] = record {
  left = omega arith;
  right = omega arith;
  common = refl;
  longest = λ j p q e. q;
}
prefix_length-IsLongestPrefix (x ∷ xs) (y ∷ ys) =
    cons-IsLongestPrefix x y _ xs ys (prefix_length-IsLongestPrefix xs ys)

abbrev pub AllNonzero : List ℕ → Type 0
AllNonzero [] = Unit
AllNonzero (x ∷ xs) = (x ≢ 0) × AllNonzero xs

is_false : (x : ℕ) → x ≢ 0 → (x == 0) ≡ false
is_false x h = ground arith

strdist_loop-prefix_length :
    (i : ℕ) (xs ys a b : List ℕ) (s : Ijon)
    → AllNonzero xs
    → AllNonzero ys
    → i + length xs < 2 ^ 31
    → strdist_loop i (xs ++ 0 ∷ a) (ys ++ 0 ∷ b) s ≡ ok (i + prefix_length xs ys) s
unfolding strdist_loop
strdist_loop-prefix_length i [] [] a b s p q small = ap (λ k. ok k s) (omega arith)
strdist_loop-prefix_length i [] (y ∷ ys) a b s p q small = ap (λ k. ok k s) (omega arith)
strdist_loop-prefix_length i (x ∷ xs) [] a b s p q small = elim (Bool-cases (x == 0)) [
  | inl e ↦ rw e (ap (λ k. ok k s) (omega arith))
  | inr e ↦ rw e (ap (λ k. ok k s) (omega arith))
]
strdist_loop-prefix_length i (x ∷ xs) (y ∷ ys) a b s p q small = elim (Bool-cases (x == y)) [
  | inl e ↦
      rw (is_false x p.0, is_false y q.0, e, lt→ltb i (2 ^ 31 - 1) (omega arith))
        (strdist_loop-prefix_length (i + 1) xs ys a b s p.1 q.1 (omega arith)
          ∙ ap (λ k. ok k s) (omega arith))
  | inr e ↦ rw (is_false x p.0, is_false y q.0, e) (ap (λ k. ok k s) (omega arith))
]

memdist_loop-prefix_length :
    (n i : ℕ) (a b : List ℕ) (s : Ijon)
    → n ≤ length a
    → n ≤ length b
    → memdist_loop n i a b s ≡ ok ((i + prefix_length (take n a) (take n b)) % 2 ^ 32) s
unfolding memdist_loop
memdist_loop-prefix_length zero i a b s p q = ap (λ k. ok (k % 2 ^ 32) s) (omega arith)
memdist_loop-prefix_length (suc n) i [] b s p q = absurd (omega arith)
memdist_loop-prefix_length (suc n) i (x ∷ a) [] s p q = absurd (omega arith)
memdist_loop-prefix_length (suc n) i (x ∷ a) (y ∷ b) s p q = elim (Bool-cases (x == y)) [
  | inl e ↦ rw e (
      memdist_loop-prefix_length n (i + 1) a b s (omega arith) (omega arith)
      ∙ ap (λ k. ok (k % 2 ^ 32) s) (omega arith))
  | inr e ↦ rw e (ap (λ k. ok (k % 2 ^ 32) s) (omega arith))
]

-- For two terminated strings in memory, the first of fewer than 2 ^ 31 characters, the string
-- distance is the length of their longest common prefix, and nothing behind a 0 is read.
pub ijon_strdist-IsLongestPrefix :
    (xs ys a b : List ℕ) (s : Ijon)
    → AllNonzero xs
    → AllNonzero ys
    → length xs < 2 ^ 31
    → (k : ℕ) × (ijon_strdist (xs ++ 0 ∷ a) (ys ++ 0 ∷ b) s ≡ ok k s) × IsLongestPrefix xs ys k
unfolding ijon_strdist
ijon_strdist-IsLongestPrefix xs ys a b s p q small = (
  prefix_length xs ys,
  strdist_loop-prefix_length 0 xs ys a b s p q (omega arith) ∙ ap (λ k. ok k s) (omega arith),
  prefix_length-IsLongestPrefix xs ys,
)

-- For two objects of at least `len` bytes with `len` below 2 ^ 32, the memory distance is the
-- length of the longest common prefix of their first `len` bytes, and nothing behind is read.
pub ijon_memdist-IsLongestPrefix :
    (a b : List ℕ) (len : ℕ) (s : Ijon)
    → len ≤ length a
    → len ≤ length b
    → len < 2 ^ 32
    → (k : ℕ) × (ijon_memdist a b len s ≡ ok k s) × IsLongestPrefix (take len a) (take len b) k
unfolding ijon_memdist
ijon_memdist-IsLongestPrefix a b len s p q small = (
  prefix_length (take len a) (take len b),
  memdist_loop-prefix_length len 0 a b s p q ∙ ap (λ k. ok k s) (omega (arith, fits)),
  longest,
)
  where
    longest : IsLongestPrefix (take len a) (take len b) (prefix_length (take len a) (take len b))
    longest = prefix_length-IsLongestPrefix (take len a) (take len b)

    fits : prefix_length (take len a) (take len b) < 2 ^ 32
    fits = omega (arith, longest.left, length-take len a)
