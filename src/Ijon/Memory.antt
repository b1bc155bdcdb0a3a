-- ===== src/Ijon/Memory.antt =====
-- Loads and stores through the pointers of the run time. Outside its region an access is a fault.
use fuzzuf_cc.Prelude.{
  lt→ltb, le→leb, ap, ◌∙◌, inr, inl, ◌≢◌, Bool-cases, ℕ, zero, suc, ◌+◌, ◌*◌, ◌≤◌, ◌<◌, ◌≡◌, refl,
  ◌⊎◌, true, List, [], ◌∷◌, arith, length, ltb, leb, ◌==◌, if◌then◌else◌,
}
use fuzzuf_cc.Prelude.Effect.{ok, fault}
use fuzzuf_cc.Bytes.{from_bytes, to_bytes, IsBytes}
use fuzzuf_cc.Ijon.State.{Ijon, Region, Ptr, Runtime, same_region, extent}

abbrev pub read_bytes : (n o : ℕ) → (ℕ → ℕ) → List ℕ
read_bytes zero o f = []
read_bytes (suc n) o f = f o ∷ read_bytes n (o + 1) f

abbrev pub write_bytes : (ℕ → ℕ) → (o : ℕ) → List ℕ → ℕ → ℕ
write_bytes f o [] j = f j
write_bytes f o (b ∷ bs) j = if j == o then b else write_bytes f (o + 1) bs j

abbrev pub write_region : (Region → ℕ → ℕ) → Region → (o : ℕ) → List ℕ → Region → ℕ → ℕ
write_region m r o bs r' j = if same_region r r' then write_bytes (m r) o bs j else m r' j

-- `p[i]` for a `u8 *p`.
unfoldable pub load8 : Ptr → ℕ → Runtime ℕ
load8 p i s =
    if ltb (p.offset + i) (extent s.shm_size p.region)
    then ok (s.memory p.region (p.offset + i)) s
    else fault s

unfoldable pub store8 : Ptr → ℕ → ℕ → Runtime (Unit {0})
store8 p i v s =
    if ltb (p.offset + i) (extent s.shm_size p.region)
    then ok tt (record s { memory = write_region s.memory p.region (p.offset + i) (v ∷ []) })
    else fault s

-- `p[i]` for a `uint64_t *p`.
unfoldable pub load64 : Ptr → ℕ → Runtime ℕ
load64 p i s =
    if leb (p.offset + 8 * i + 8) (extent s.shm_size p.region)
    then ok (from_bytes (read_bytes 8 (p.offset + 8 * i) (s.memory p.region))) s
    else fault s

unfoldable pub store64 : Ptr → ℕ → ℕ → Runtime (Unit {0})
store64 p i v s =
    if leb (p.offset + 8 * i + 8) (extent s.shm_size p.region)
    then ok tt
        (record s { memory = write_region s.memory p.region (p.offset + 8 * i) (to_bytes 8 v) })
    else fault s

-- What they give inside the region.
pub load8-ok :
    (p : Ptr) (i : ℕ) (s : Ijon)
    → p.offset + i < extent s.shm_size p.region
    → load8 p i s ≡ ok (s.memory p.region (p.offset + i)) s
unfolding load8
load8-ok p i s h = rw (lt→ltb _ _ h) refl

pub store8-ok :
    (p : Ptr) (i v : ℕ) (s : Ijon)
    → p.offset + i < extent s.shm_size p.region
    → store8 p i v s
      ≡ ok tt (record s { memory = write_region s.memory p.region (p.offset + i) (v ∷ []) })
unfolding store8
store8-ok p i v s h = rw (lt→ltb _ _ h) refl

pub load64-ok :
    (p : Ptr) (i : ℕ) (s : Ijon)
    → p.offset + 8 * i + 8 ≤ extent s.shm_size p.region
    → load64 p i s ≡ ok (from_bytes (read_bytes 8 (p.offset + 8 * i) (s.memory p.region))) s
unfolding load64
load64-ok p i s h = rw (le→leb _ _ h) refl

pub store64-ok :
    (p : Ptr) (i v : ℕ) (s : Ijon)
    → p.offset + 8 * i + 8 ≤ extent s.shm_size p.region
    → store64 p i v s
      ≡ ok tt
          (record s { memory = write_region s.memory p.region (p.offset + 8 * i) (to_bytes 8 v) })
unfolding store64
store64-ok p i v s h = rw (le→leb _ _ h) refl

-- A read sees what was written there, and what was there elsewhere.
pub read-ext :
    (n o : ℕ) (f g : ℕ → ℕ)
    → ((j : ℕ) → o ≤ j → j < o + n → f j ≡ g j)
    → read_bytes n o f ≡ read_bytes n o g
read-ext zero o f g h = refl
read-ext (suc n) o f g h = cc (
  h o (omega arith) (omega arith),
  read-ext n (o + 1) f g (λ j p q. h j (omega arith) (omega arith)),
)

pub write-outside :
    (f : ℕ → ℕ) (o : ℕ) (bs : List ℕ) (j : ℕ)
    → (j < o) ⊎ (o + length bs ≤ j)
    → write_bytes f o bs j ≡ f j
write-outside f o [] j h = refl
write-outside f o (b ∷ bs) j h = ground (arith, write-outside f (o + 1) bs j)

pub read-write :
    (f : ℕ → ℕ) (o : ℕ) (bs : List ℕ) → read_bytes (length bs) o (write_bytes f o bs) ≡ bs
read-write f o [] = refl
read-write f o (b ∷ bs) = cc (
  head,
  read-ext (length bs) (o + 1) (write_bytes f o (b ∷ bs)) (write_bytes f (o + 1) bs)
      (λ j p q. ground arith),
  read-write f (o + 1) bs,
)
  where
    head : (if o == o then b else write_bytes f (o + 1) bs o) ≡ b
    head = ground arith

pub read-write_outside :
    (f : ℕ → ℕ) (n o o' : ℕ) (bs : List ℕ)
    → (o' + n ≤ o) ⊎ (o + length bs ≤ o')
    → read_bytes n o' (write_bytes f o bs) ≡ read_bytes n o' f
read-write_outside f n o o' bs h = read-ext n o' _ _ (λ j p q. write-outside f o bs j (omega arith))

pub read-IsBytes : (n o : ℕ) (f : ℕ → ℕ) → ((j : ℕ) → f j < 256) → IsBytes (read_bytes n o f)
read-IsBytes zero o f h = tt
read-IsBytes (suc n) o f h = (h o, read-IsBytes n (o + 1) f h)

pub write-lt :
    (f : ℕ → ℕ) (o : ℕ) (bs : List ℕ) (j : ℕ)
    → ((i : ℕ) → f i < 256)
    → IsBytes bs
    → write_bytes f o bs j < 256
write-lt f o [] j h small = h j
write-lt f o (b ∷ bs) j h small = ground (arith, write-lt f (o + 1) bs j h)

pub same_region_refl : (r : Region) → same_region r r ≡ true
same_region_refl r = ground arith

pub same_region_sound : (r r' : Region) → same_region r r' ≡ true → r ≡ r'
same_region_sound r r' h = ground arith

pub write_region-there :
    (m : Region → ℕ → ℕ) (r : Region) (o : ℕ) (bs : List ℕ) (j : ℕ)
    → write_region m r o bs r j ≡ write_bytes (m r) o bs j
write_region-there m r o bs j = rw (same_region_refl r) refl

pub write_region-elsewhere :
    (m : Region → ℕ → ℕ) (r r' : Region) (o : ℕ) (bs : List ℕ) (j : ℕ)
    → (r ≢ r') ⊎ ((j < o) ⊎ (o + length bs ≤ j))
    → write_region m r o bs r' j ≡ m r' j
write_region-elsewhere m r r' o bs j h = elim (Bool-cases (same_region r r')) [
  | inl e ↦
      let same : r ≡ r' = same_region_sound r r' e in
      elim h [
        | inl other ↦ absurd (other same)
        | inr outside ↦ rw e (write-outside (m r) o bs j outside ∙ ap (λ q. m q j) same)
      ]
  | inr e ↦ rw e refl
]

pub write_region-lt :
    (m : Region → ℕ → ℕ) (r r' : Region) (o : ℕ) (bs : List ℕ) (j : ℕ)
    → ((q : Region) (i : ℕ) → m q i < 256)
    → IsBytes bs
    → write_region m r o bs r' j < 256
write_region-lt m r r' o bs j h small = elim (Bool-cases (same_region r r')) [
  | inl e ↦ rw e (write-lt (m r) o bs j (h r) small)
  | inr e ↦ rw e (h r' j)
]
