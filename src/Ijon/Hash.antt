-- ===== src/Ijon/Hash.antt =====
-- The hashes of features/ijon/ijon-llvm-rt.o.c.
use fuzzuf_cc.Prelude.{
  ℕ, zero, suc, ◌+◌, ◌-◌, ◌*◌, ◌/◌, ◌%◌, ◌^◌, ◌<◌, ◌≡◌, List, [], ◌∷◌, bit_xor, bit_or, ltb,
  if◌then◌else◌, length, Bool, true, false,
}
use fuzzuf_cc.Prelude.Effect.{ok, aborted}
use fuzzuf_cc.Ijon.State.{Runtime}
pub mod Injective
pub mod Stack

unfoldable pub ijon_simple_hash : ℕ → ℕ
ijon_simple_hash x =
    let y = bit_xor x (x / 2 ^ 30) * 0xbf58_476d_1ce4_e5b9 % 2 ^ 64 in
    let z = bit_xor y (y / 2 ^ 27) * 0x94d0_49bb_1331_11eb % 2 ^ 64 in bit_xor z (z / 2 ^ 31)

unfoldable pub ijon_hashint : (old val : ℕ) → ℕ
ijon_hashint old val = ijon_simple_hash (bit_or (old * 2 ^ 32) val) % 2 ^ 32

-- A `char`, which is signed on x86-64, as the `uint32_t` it is converted to.
abbrev pub char_to_u32 : ℕ → ℕ
char_to_u32 b = if ltb b 128 then b else 2 ^ 32 - 256 + b

abbrev pub hash_bytes : ℕ → List ℕ → ℕ
hash_bytes old [] = old
hash_bytes old (b ∷ bs) = hash_bytes (ijon_hashint old (char_to_u32 b)) bs

-- `val` and `len` as the list of the `len` bytes; `len` is cut to 32 bits by the first call.
unfoldable pub ijon_hashmem : ℕ → List ℕ → ℕ
ijon_hashmem old val = hash_bytes (ijon_hashint old (length val % 2 ^ 32)) val

-- A string as the list of its bytes before the 0.
unfoldable pub ijon_hashstr : ℕ → List ℕ → ℕ
ijon_hashstr old val = ijon_hashmem old val

abbrev pub xor_hashes : ℕ → List ℕ → ℕ
xor_hashes res [] = res
xor_hashes res (frame ∷ frames) = xor_hashes (bit_xor res (ijon_simple_hash frame)) frames

-- `backtrace n` is the list of the frames that it stores in a buffer of `n`.
unfoldable pub ijon_hashstack_libgcc : (backtrace : ℕ → List ℕ) → Runtime ℕ
ijon_hashstack_libgcc backtrace s =
    let frames = backtrace 16 in
    if ltb (length frames) 16 then ok (xor_hashes 0 frames % 2 ^ 32) s else aborted s
