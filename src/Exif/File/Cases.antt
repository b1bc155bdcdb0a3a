-- ===== src/Exif/File/Cases.antt =====
-- A read either fails at the end of the file or advances.
use fuzzuf_cc.Prelude.{
  ◌∙◌, ℕ, ◌+◌, ◌≡◌, ◌≤◌, refl, arith, List, Option, none, some, length, take, drop, leb, ltb, inl,
  inr, true, Bool, Bool-cases, if◌then◌else◌,
}
use fuzzuf_cc.Prelude.Effect.{and_then, Returns}
use fuzzuf_cc.Exif.Types.{Exif, Util}
use fuzzuf_cc.Exif.File.{fread}

-- The same file, read on.
pub record After (s t : Exif) : Type 0 where
  pub same_file : t.file ≡ s.file
  pub not_before : s.position ≤ t.position

pub After-trans : (s t u : Exif) → After s t → After t u → After s u
After-trans s t u a b = record { same_file = b.same_file ∙ a.same_file; not_before = omega arith }

-- The state after `n` bytes were read.
abbrev pub advanced : (n : ℕ) → Exif → Exif
advanced n s = record s { position = s.position + n }

module _ (n : ℕ) (s : Exif) (k : Option (List ℕ) → Util Bool) (P : Bool → Exif → Type 0) where
  pub fread-Returns :
      ((t : Exif) → After s t → Returns (k none t) P)
      → ((bs : List ℕ) → s.position + n ≤ length s.file → Returns (k (some bs) (advanced n s)) P)
      → Returns (and_then (fread n s) k) P
  fread-Returns failed read = elim (Bool-cases (leb (s.position + n) (length s.file))) [
    | inl e ↦ rw e (read (take n (drop s.position s.file)) (inside _ _ e))
    | inr e ↦
        rw e (failed _ record { same_file = refl; not_before = behind s.position (length s.file) })
  ]
    where
      inside : (a b : ℕ) → leb a b ≡ true → a ≤ b
      inside a b e = ground arith

      behind : (a b : ℕ) → a ≤ (if ltb a b then b else a)
      behind a b = ground arith
