-- ===== src/Samples.antt =====
-- Small programs under test: put/cat/cat.c, put/zeroone/zeroone.c and put/branch/branch.c. What
-- `read` or `fgets` gives is an argument.
pub mod Cat
pub mod Zeroone
mod Tests
use fuzzuf_cc.Prelude.{
  ℕ, zero, suc, ◌-◌, ◌+◌, ◌==◌, Bool, true, false, List, [], ◌∷◌, ◌++◌, Option, none, some, map,
  length, drop, replicate, get_or, if◌then◌else◌,
}
use fuzzuf_cc.Prelude.Effect.{Cmd, ok, fault, pure, ◌>>=◌, ◌>>◌}
use fuzzuf_cc.Bytes.{from_bytes}

-- What was written to the two streams, the latest first.
pub record Console : Type 0 where
  pub out : List (List ℕ)
  pub err : List (List ℕ)

abbrev pub Program : Type 0 → Type 0
Program A = Cmd Console A

abbrev pub to_stdout : List ℕ → Program (Unit {0})
to_stdout text c = ok tt (record c { out = text ∷ c.out })

abbrev pub to_stderr : List ℕ → Program (Unit {0})
to_stderr text c = ok tt (record c { err = text ∷ c.err })

-- What `%s` prints of an array: the characters before the 0, which has to be in the array.
abbrev pub text_of : List ℕ → Option (List ℕ)
text_of [] = none
text_of (c ∷ cs) =
    let rest : Option (List ℕ) = elim (text_of cs) [ none ↦ none | some text ↦ some (c ∷ text) ] in
    if c == 0 then some [] else rest

abbrev pub with_text : List ℕ → (List ℕ → Program ℕ) → Program ℕ
with_text buf then_with c = elim (text_of buf) [ none ↦ fault c | some text ↦ then_with text c ]

abbrev pub stdout_label : List ℕ
stdout_label = b's' ∷ b't' ∷ b'd' ∷ b'o' ∷ b'u' ∷ b't' ∷ b':' ∷ b' ' ∷ []

abbrev pub stderr_label : List ℕ
stderr_label = b's' ∷ b't' ∷ b'd' ∷ b'e' ∷ b'r' ∷ b'r' ∷ b':' ∷ b' ' ∷ []

-- What `perror` prints before the text of the error, which is an argument.
abbrev cannot_read : List ℕ
cannot_read =
    b'F' ∷ b'a' ∷ b'i' ∷ b'l' ∷ b'e' ∷ b'd' ∷ b' ' ∷ b't' ∷ b'o' ∷ b' ' ∷ b'r' ∷ b'e' ∷ b'a' ∷ b'd'
    ∷ b' ' ∷ b's' ∷ b't' ∷ b'd' ∷ b'i' ∷ b'n' ∷ b':' ∷ b':' ∷ b' ' ∷ []

-- The buffer of cat.c: 128 zeros, and what was read over them.
abbrev pub buffer : List ℕ → List ℕ
buffer bytes = bytes ++ drop (length bytes) (replicate 128 0)

abbrev pub echo : List ℕ → Program ℕ
echo text = to_stdout (stdout_label ++ text) >> to_stderr (stderr_label ++ text) >> pure 0

-- `main` of cat.c
unfoldable pub cat : (strerror : List ℕ) → Option (List ℕ) → Program ℕ
cat strerror none = to_stderr (cannot_read ++ (strerror ++ (10 ∷ []))) >> pure 1
cat strerror (some bytes) = with_text (buffer bytes) echo

-- The buffer of zeroone.c: what `fgets` stored, a 0, and bytes that were never written.
abbrev pub line_buffer : Option (List ℕ) → List (Option ℕ)
line_buffer none = replicate 256 none
line_buffer (some line) = map some line ++ (some 0 ∷ replicate (255 - length line) none)

-- `IFBRANCH (buf, idx, var)`
abbrev pub ifbranch : (buf : List (Option ℕ)) → (idx : ℕ) → Program Bool
ifbranch buf idx c = elim (get_or buf idx none) [ none ↦ fault c | some v ↦ ok (v == b'1') c ]

abbrev pub digit : Bool → ℕ
digit true = b'1'
digit false = b'0'

abbrev pub result_label : List ℕ
result_label = b'R' ∷ b'e' ∷ b's' ∷ b'u' ∷ b'l' ∷ b't' ∷ b':' ∷ b' ' ∷ []

-- `main` of zeroone.c
unfoldable pub zeroone : Option (List ℕ) → Program ℕ
zeroone answer =
    let buf : List (Option ℕ) = line_buffer answer in
    ifbranch buf 0 >>= λ a. ifbranch buf 1 >>= λ b. ifbranch buf 2 >>= λ c. ifbranch buf 3 >>= λ d.
    ifbranch buf 4 >>= λ e. ifbranch buf 5 >>= λ f. ifbranch buf 6 >>= λ g. ifbranch buf 7 >>= λ h.
    to_stdout (result_label ++ (map digit (a ∷ b ∷ c ∷ d ∷ e ∷ f ∷ g ∷ h ∷ []) ++ (10 ∷ [])))
    >> pure 0

-- The letter that branch.c prints for a number.
abbrev pub letter : ℕ → ℕ
letter x =
    if x == 0xf71937416337a87f
    then b'a'
    else if x == 0x721c0136911f0f7b
    then b'b'
    else if x == 0x159cd96c2024966b
    then b'c'
    else if x == 0x0ab36197f39b7a92
    then b'd'
    else if x == 0xef0b8afac2678ca7
    then b'e'
    else if x == 0xcfe369b9840cb3b0
    then b'f'
    else b'g'

-- `main` of branch.c
unfoldable pub branch : Option (List ℕ) → Program ℕ
branch none = pure 1
branch (some bytes) =
    if length bytes == 8 then to_stdout (letter (from_bytes bytes) ∷ 10 ∷ []) >> pure 0 else pure 1
