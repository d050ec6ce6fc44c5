-- ===== src/BitSet/Count.antt =====
-- dylan_bit_set.c: how many blocks are free.
use cs.Prelude.{
  ℕ, zero, suc, ◌+◌, ◌≤◌, ◌<◌, ◌≡◌, refl, arith, pos, minus_one, if◌then◌else◌, true, sym, subst, ℤ,
  ◌↔◌,
}
use native.Mathlib.Decide.{ℕ_discrete}
use cs.Prelude.Run.{ok}
use cs.BitSet.{BitSet, IsValid, rounds, allocate_block}
use cs.BitSet.Bits.{bit}
use cs.BitSet.Allocate.{
  Allocated, found, full, allocate_block-Allocated, Marks, allocate_block-Marks,
  allocate_block-full,
}

-- The number of clear bits below `n`.
unfoldable pub free_below : BitSet → ℕ → ℕ
free_below b zero = 0
free_below b (suc n) = (if bit b n then 0 else 1) + free_below b n

free_below_same :
    (b b' : BitSet) (i n : ℕ) → Marks b i b' → n ≤ i → free_below b' n ≡ free_below b n
unfolding free_below
free_below_same b b' i zero m h = refl
free_below_same b b' i (suc n) m h =
    rw (m.others n (omega arith), free_below_same b b' i n m (omega arith))

free_below-Marks :
    (b b' : BitSet) (i n : ℕ) → Marks b i b' → i < n → free_below b' n + 1 ≡ free_below b n
unfolding free_below
free_below-Marks b b' i zero m h = elim h [ ]
free_below-Marks b b' i (suc n) m h = elim (ℕ_discrete i n) [
  | yes e ↦ rw (← e, m.now_set, m.was_free, free_below_same b b' i i m (omega arith)) (omega arith)
  | no ne ↦
      rw (m.others n (λ e. ne (sym e))) (omega (arith, free_below-Marks b b' i n m (omega arith)))
]

-- An allocation on a valid set that returns an index takes exactly one off the number of free
-- blocks.
pub free_below-allocate_block :
    (b : BitSet) (i : ℕ) {b' : BitSet}
    → IsValid b
    → allocate_block b ≡ ok (pos i, b')
    → free_below b' (rounds b'.count) + 1 ≡ free_below b (rounds b.count)
free_below-allocate_block b i {b'} v e =
    let m = allocate_block-Marks b i v e in
    subst (λ c. free_below b' (rounds c) + 1 ≡ free_below b (rounds b.count)) (sym m.same_count)
      (free_below-Marks b b' i (rounds b.count) m m.in_range)

free_below_zero : (b : BitSet) (n : ℕ) → ((j : ℕ) → j < n → bit b j ≡ true) → free_below b n ≡ 0
unfolding free_below
free_below_zero b zero all = refl
free_below_zero b (suc n) all =
    rw (all n (omega arith), free_below_zero b n (λ j lt. all j (omega arith)))

-- On a valid set allocateBlock returns -1 exactly when no bit below the count is clear.
pub allocate_block-fails_iff :
    (b : BitSet)
    → IsValid b
    → (allocate_block b ≡ ok (minus_one, b)) ↔ (free_below b (rounds b.count) ≡ 0)
allocate_block-fails_iff b v = (
  λ e. free_below_zero b (rounds b.count) (allocate_block-full b v e).0,
  λ none_free. outcome none_free (allocate_block-Allocated b v),
)
  where
    outcome :
        free_below b (rounds b.count) ≡ 0
        → (z : ℤ) × (b' : BitSet) × (allocate_block b ≡ ok (z, b')) × Allocated b z b'
        → allocate_block b ≡ ok (minus_one, b)
    outcome none_free (z, b', runs, found i lt clear below) =
        absurd (omega (arith, free_below-allocate_block b i v runs))
    outcome none_free (z, b', runs, full all) = runs
