-- ===== src/Volume/Reserve.antt =====
-- filesystem.c: the blocks that newfs reserves.
use cs.Prelude.{
  ℕ, zero, suc, ◌+◌, ◌<◌, ◌≤◌, ◌^◌, ◌≡◌, refl, ap, ◌∙◌, true, false, arith, ltb, length, ℤ, pos,
}
use native.Mathlib.Decide.{ℕ_discrete}
use cs.Prelude.Run.{ok}
use cs.BitSet.{BitSet, IsValid, rounds, allocate_block, alloc_bit_set}
use cs.BitSet.Bits.{bit}
use cs.BitSet.Allocate.{
  Allocated, found, full, Marks, allocate_block-Allocated, allocate_block-Marks,
}
use cs.BitSet.Persist.{alloc_bit_set-IsValid}
use cs.Volume.{reserve}

-- Exactly the first `n` bits are set.
abbrev pub FirstSet : BitSet → ℕ → Type 0
FirstSet b n = (j : ℕ) → bit b j ≡ ltb j n

-- Where exactly the first `i` bits are set and `i` is below the count, `allocateBlock` returns `i`.
next_block :
    (b : BitSet) (i : ℕ)
    → IsValid b
    → FirstSet b i
    → i < rounds b.count
    → (b' : BitSet) × (allocate_block b ≡ ok (pos i, b')) × Marks b i b' × FirstSet b' (i + 1)
next_block b i v first lt = outcome (allocate_block-Allocated b v)
  where
    at_end :
        (k : ℕ) → k < rounds b.count → bit b k ≡ false → ((j : ℕ) → j < k → bit b j ≡ true) → k ≡ i
    at_end k klt clear below = ground (arith, first k, first i, below i)

    after : {b' : BitSet} → Marks b i b' → FirstSet b' (i + 1)
    after {b'} m j = elim (ℕ_discrete j i) [
      | yes e ↦ rw e (m.now_set ∙ ground arith)
      | no ne ↦ m.others j ne ∙ first j ∙ ground arith
    ]

    outcome :
        (z : ℤ) × (b' : BitSet) × (allocate_block b ≡ ok (z, b')) × Allocated b z b'
        → (b' : BitSet) × (allocate_block b ≡ ok (pos i, b')) × Marks b i b' × FirstSet b' (i + 1)
    outcome (z, b', runs, found k klt clear below) =
        let e = at_end k klt clear below in
        let runs' : allocate_block b ≡ ok (pos i, b') = rw (← e) runs in
        let m = allocate_block-Marks b i v runs' in (b', runs', m, after m)
    outcome (z, b', runs, full all) = absurd (ground (arith, all i, first i))

pub reserve-FirstSet :
    (n : ℕ) (b : BitSet) (i : ℕ)
    → IsValid b
    → FirstSet b i
    → i + n ≤ rounds b.count
    → (b' : BitSet) × (reserve n b ≡ ok b')
      × FirstSet b' (i + n)
      × IsValid b'
      × (b'.count ≡ b.count)
      × (length b'.bytes ≡ length b.bytes)
unfolding reserve
reserve-FirstSet zero b i v first h = (b, refl, λ j. first j ∙ ground arith, v, refl, refl)
reserve-FirstSet (suc n) b i v first h =
    let (b1, runs, m, first1) = next_block b i v first (omega arith) in
    let (b2, rest, first2, valid, count, size) =
      reserve-FirstSet n b1 (i + 1) m.valid first1 (omega (arith, ap rounds m.same_count)) in
    (
      b2,
      rw (reserve, runs) rest,
      λ j. first2 j ∙ ground arith,
      valid,
      count ∙ m.same_count,
      size ∙ m.same_length,
    )

-- On the fresh set for fewer than 2 ^ 31 blocks of at least one byte, the loop of newfs that
-- reserves n blocks, n at most the count, passes its assertions and sets exactly the first n
-- bits.
pub reserve-alloc_bit_set :
    (n count block_size : ℕ)
    → count < 2 ^ 31
    → 0 < block_size
    → n ≤ count
    → (b' : BitSet) × (reserve n (alloc_bit_set count block_size) ≡ ok b')
      × ((j : ℕ) → bit b' j ≡ ltb j n)
      × IsValid b'
      × (b'.count ≡ pos count)
unfolding alloc_bit_set
reserve-alloc_bit_set n count block_size small some_bytes h =
    let (valid, clear) = alloc_bit_set-IsValid count block_size small some_bytes in
    let (b', runs, first, v, c, size) =
      reserve-FirstSet n (alloc_bit_set count block_size) 0 valid (λ j. clear j ∙ ground arith)
        (omega arith) in
    (b', runs, λ j. first j ∙ ground arith, v, c)
