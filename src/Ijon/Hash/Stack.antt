-- ===== src/Ijon/Hash/Stack.antt =====
-- The hash of the stack.
use fuzzuf_cc.Bits.Xor.{xor_assoc, xor-zero, xor_comm}
use fuzzuf_cc.Prelude.{
  sym, ◌∙◌, map, bit_xor, false, ltb, take-nil, ℕ, ◌≡◌, ◌≤◌, ◌%◌, ◌^◌, refl, ap, List, [], ◌∷◌,
  take, length, length-take, arith, zero, suc, if◌then◌else◌, Bool-cases, inl, inr, true,
}
use fuzzuf_cc.Prelude.Effect.{ok, aborted}
use fuzzuf_cc.Ijon.State.{Ijon}
use fuzzuf_cc.Ijon.Hash.{ijon_simple_hash, xor_hashes, ijon_hashstack_libgcc}

take_all : (n : ℕ) (xs : List ℕ) → length xs ≤ n → take n xs ≡ xs
take_all n [] h = take-nil n
take_all zero (x ∷ xs) h = absurd (omega arith)
take_all (suc n) (x ∷ xs) h = ap (λ t. x ∷ t) (take_all n xs (omega arith))

-- The exclusive or of numbers.
abbrev pub combined : List ℕ → ℕ
combined [] = 0
combined (x ∷ xs) = bit_xor x (combined xs)

xor_hashes-combined :
    (res : ℕ) (frames : List ℕ)
    → xor_hashes res frames ≡ bit_xor res (combined (map ijon_simple_hash frames))
xor_hashes-combined res [] = sym (xor-zero res)
xor_hashes-combined res (frame ∷ frames) =
    xor_hashes-combined (bit_xor res (ijon_simple_hash frame)) frames
    ∙ xor_assoc res (ijon_simple_hash frame) (combined (map ijon_simple_hash frames))

-- With a `backtrace n` that stores the innermost `n` frames of the stack, and a stack less than 16
-- deep, the hash is the exclusive or of the hashes of all its frames, cut to 32 bits; on a deeper
-- stack the assertion fails.
pub ijon_hashstack_libgcc-frames :
    (backtrace : ℕ → List ℕ) (stack : List ℕ) (s : Ijon)
    → ((n : ℕ) → backtrace n ≡ take n stack)
    → ijon_hashstack_libgcc backtrace s ≡ (
        if ltb (length stack) 16
        then ok (combined (map ijon_simple_hash stack) % 2 ^ 32) s
        else aborted s)
unfolding ijon_hashstack_libgcc
ijon_hashstack_libgcc-frames backtrace stack s h = elim (Bool-cases (ltb (length stack) 16)) [
  | inl e ↦
      rw
        (
          h 16,
          take_all 16 stack (short e),
          e,
          xor_hashes-combined 0 stack,
          xor_comm 0 (combined (map ijon_simple_hash stack)),
          xor-zero (combined (map ijon_simple_hash stack)),
        )
        refl
  | inr e ↦ rw (h 16, full e, e) refl
]
  where
    short : ltb (length stack) 16 ≡ true → length stack ≤ 16
    short e = ground arith

    full : ltb (length stack) 16 ≡ false → ltb (length (take 16 stack)) 16 ≡ false
    full e = ground (arith, length-take 16 stack)
