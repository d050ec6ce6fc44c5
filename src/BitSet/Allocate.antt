-- ===== src/BitSet/Allocate.antt =====
-- dylan_bit_set.c: allocateBlock and freeBlock.
use cs.Prelude.{
  ℕ, zero, suc, ◌+◌, ◌*◌, ◌<◌, ◌≡◌, ◌≢◌, refl, true, false, arith, length, ℤ, pos, minus_one, ◌==◌,
  inl, inr, Bool-cases, subst, if◌then◌else◌, not, ◌&&◌,
}
use native.Mathlib.Decide.{ℕ_discrete}
use cs.Prelude.Run.{ok}
use cs.BitSet.{BitSet, IsValid, rounds, allocate_from, allocate_block, free_block}
use cs.BitSet.Bits.{
  bit, marked, unmarked, get_bit-ok, set_bit-ok, clear_bit-ok, bit-marked, marked-IsValid,
  unmarked-marked, length-marked, length-unmarked, bit-unmarked, unmarked-IsValid,
}

-- What a call of `allocateBlock` may return and leave behind: the lowest clear bit, which is now
-- set, or -1 when every bit is set, and then the set is as it was.
pub data Allocated (b : BitSet) : ℤ → BitSet → Type 0 where
  found :
      (i : ℕ)
      → i < rounds b.count
      → bit b i ≡ false
      → ((j : ℕ) → j < i → bit b j ≡ true)
      → Allocated b (pos i) (marked b i)
  full : ((j : ℕ) → j < rounds b.count → bit b j ≡ true) → Allocated b minus_one b

allocate_from-Allocated :
    (n : ℕ) (b : BitSet) (i : ℕ)
    → IsValid b
    → i + n ≡ rounds b.count
    → ((j : ℕ) → j < i → bit b j ≡ true)
    → (z : ℤ) × (b' : BitSet) × (allocate_from n b i ≡ ok (z, b')) × Allocated b z b'
unfolding allocate_from
allocate_from-Allocated zero b i v e below =
    (minus_one, b, refl, full (λ j lt. below j (omega arith)))
allocate_from-Allocated (suc n) b i v e below = elim (Bool-cases (bit b i)) [
  | inl taken ↦
      let (z, b', runs, a) =
        allocate_from-Allocated n b (i + 1) v (omega arith)
          (λ j lt. elim (ℕ_discrete j i) [ yes p ↦ rw p taken | no ne ↦ below j (omega arith) ]) in
      (z, b', rw (allocate_from, get_bit-ok b i inside, taken) runs, a)
  | inr clear ↦ (
    pos i,
    marked b i,
    rw (allocate_from, get_bit-ok b i inside, clear, set_bit-ok b i inside),
    found i (omega arith) clear below,
  )
]
  where
    inside : i < 8 * length b.bytes
    inside = omega (arith, v.in_memory)

-- On a valid bit set allocateBlock does not fault; it returns the lowest clear bit and sets it,
-- or returns -1 with the set unchanged when every bit below the count is set.
pub allocate_block-Allocated :
    (b : BitSet)
    → IsValid b
    → (z : ℤ) × (b' : BitSet) × (allocate_block b ≡ ok (z, b')) × Allocated b z b'
unfolding allocate_block
allocate_block-Allocated b v =
    allocate_from-Allocated (rounds b.count) b 0 v (omega arith) (λ j lt. absurd (omega arith))

-- What a successful allocation of bit `i` means to a caller.
pub record Marks (b : BitSet) (i : ℕ) (b' : BitSet) : Type 0 where
  pub in_range : i < rounds b.count
  pub was_free : bit b i ≡ false
  pub lowest : (j : ℕ) → j < i → bit b j ≡ true
  pub now_set : bit b' i ≡ true
  pub others : (j : ℕ) → j ≢ i → bit b' j ≡ bit b j
  pub same_count : b'.count ≡ b.count
  pub same_length : length b'.bytes ≡ length b.bytes
  pub valid : IsValid b'

marked-Marks :
    (b : BitSet) (i : ℕ)
    → IsValid b
    → i < rounds b.count
    → bit b i ≡ false
    → ((j : ℕ) → j < i → bit b j ≡ true)
    → Marks b i (marked b i)
unfolding marked
marked-Marks b i v lt clear below =
    let inside : i < 8 * length b.bytes = omega (arith, v.in_memory) in
    record {
      in_range = lt;
      was_free = clear;
      lowest = below;
      now_set = rw (bit-marked b i inside i v.are_bytes) (ground arith);
      others = λ j ne. rw (bit-marked b i inside j v.are_bytes) (ground arith);
      same_count = refl;
      same_length = length-marked b i inside;
      valid = marked-IsValid b i inside v;
    }

Allocated-Marks :
    {b b' : BitSet} {z : ℤ} (i : ℕ) → IsValid b → Allocated b z b' → z ≡ pos i → Marks b i b'
Allocated-Marks {b} i v (found k lt clear below) e =
    let e' : k ≡ i = cc in
    subst (λ t. Marks b t (marked b k)) e' (marked-Marks b k v lt clear below)
Allocated-Marks i v (full all) e = absurd (cc)

Allocated-full :
    {b b' : BitSet} {z : ℤ}
    → Allocated b z b'
    → z ≡ minus_one
    → ((j : ℕ) → j < rounds b.count → bit b j ≡ true) × (b' ≡ b)
Allocated-full (found k lt clear below) e = absurd (cc)
Allocated-full (full all) e = (all, refl)

-- The outcome of a call is the one that `Allocated` describes.
Allocated-of_eq :
    (b : BitSet) {z : ℤ} {b' : BitSet}
    → IsValid b
    → allocate_block b ≡ ok (z, b')
    → Allocated b z b'
Allocated-of_eq b v e =
    let (z, b', runs, a) = allocate_block-Allocated b v in
    subst (λ (r : ℤ × BitSet). Allocated b r.0 r.1) (cc) a

-- If allocateBlock on a valid set returns an index, that bit was the lowest clear one and below
-- the count, it is now set, no other bit has changed, and the set stays valid with its size.
pub allocate_block-Marks :
    (b : BitSet) (i : ℕ) {b' : BitSet}
    → IsValid b
    → allocate_block b ≡ ok (pos i, b')
    → Marks b i b'
allocate_block-Marks b i v e = Allocated-Marks i v (Allocated-of_eq b v e) refl

-- If allocateBlock on a valid set returns -1, every bit below the count is set and the set has
-- not changed.
pub allocate_block-full :
    (b : BitSet) {b' : BitSet}
    → IsValid b
    → allocate_block b ≡ ok (minus_one, b')
    → ((j : ℕ) → j < rounds b.count → bit b j ≡ true) × (b' ≡ b)
allocate_block-full b v e = Allocated-full (Allocated-of_eq b v e) refl

-- `freeBlock` inside the memory: it refuses a clear bit with -1 and no change, and clears a set bit
-- and returns 0.
pub free_block-cases :
    (b : BitSet) (i : ℕ)
    → i < 8 * length b.bytes
    → free_block b i ≡ ok (if bit b i then (pos 0, unmarked b i) else (minus_one, b))
unfolding free_block
free_block-cases b i h = elim (Bool-cases (bit b i)) [
  | inl taken ↦ rw (free_block, get_bit-ok b i h, taken, clear_bit-ok b i h)
  | inr clear ↦ rw (free_block, get_bit-ok b i h, clear)
]

Allocated-undone :
    {b b' : BitSet} {z : ℤ} (i : ℕ)
    → IsValid b
    → Allocated b z b'
    → z ≡ pos i
    → free_block b' i ≡ ok (pos 0, b)
Allocated-undone {b} i v (found k lt clear below) e =
    let same : k ≡ i = cc in
    let m = marked-Marks b k v lt clear below in
    let inside : k < 8 * length b.bytes = omega (arith, v.in_memory) in
    rw (
      ← same,
      free_block-cases (marked b k) k (omega (arith, m.same_length)),
      m.now_set,
      unmarked-marked b k inside v.are_bytes clear,
    )
Allocated-undone i v (full all) e = absurd (cc)

-- On a valid bit set, freeBlock of the index that allocateBlock returned succeeds and restores
-- the set, byte for byte.
pub free_block-allocate_block :
    (b : BitSet) (i : ℕ) {b' : BitSet}
    → IsValid b
    → allocate_block b ≡ ok (pos i, b')
    → free_block b' i ≡ ok (pos 0, b)
free_block-allocate_block b i v e = Allocated-undone i v (Allocated-of_eq b v e) refl

-- `freeBlock` of a set bit of a valid set returns 0, clears that bit and no other, keeps the set
-- valid, and a second freeBlock of it returns -1 and changes nothing.
pub free_block-clears :
    (b : BitSet) (i : ℕ)
    → IsValid b
    → i < 8 * length b.bytes
    → bit b i ≡ true
    → (b' : BitSet) × (free_block b i ≡ ok (pos 0, b'))
      × (free_block b' i ≡ ok (minus_one, b'))
      × ((j : ℕ) → bit b' j ≡ (not (i == j) && bit b j))
      × IsValid b'
free_block-clears b i v h taken = (
  unmarked b i,
  rw (free_block-cases b i h, taken),
  rw (free_block-cases (unmarked b i) i (omega (arith, length-unmarked b i h)), off),
  λ j. bit-unmarked b i h j v.are_bytes,
  unmarked-IsValid b i h v,
)
  where
    off : bit (unmarked b i) i ≡ false
    off = rw (bit-unmarked b i h i v.are_bytes) (ground arith)
