-- ===== src/BlockMap/Agreement.antt =====
-- my_Blocks_c++/blockMap.cc and dylblock/dylan_bit_set.c: the two allocators.
use cs.Prelude.{
  ℕ, zero, suc, ◌+◌, ◌*◌, ◌<◌, ◌≡◌, refl, sym, ap, ◌∙◌, subst, Bool, true, false, some, List, [],
  ◌∷◌, length, get_elem?, set, length-set, arith, ◌==◌, if◌then◌else◌, ℤ, pos, minus_one,
  Bool-cases, inl, inr,
}
use cs.Prelude.Run.{ok}
use cs.BitSet
use cs.BitSet.{BitSet, IsValid, rounds, allocate_from, allocate_block}
use cs.BitSet.Bits.{
  bit, marked, unmarked, get_bit-ok, set_bit-ok, bit-marked, bit-unmarked, marked-IsValid,
  unmarked-IsValid,
}
use cs.BitSet.Allocate.{free_block-cases}
use cs.BlockMap.{BlockMap, set_bit, clear_bit, get_bit, alloc_from, alloc_block, free_block}

-- A bit set of the C program holds the bits of a block map of the C++ program.
pub record Holds (b : BitSet) (m : BlockMap) : Type 0 where
  pub valid : IsValid b
  pub size : m.sz ≡ rounds b.count
  pub all_there : length m.bools ≡ m.sz
  pub same : (j : ℕ) → j < m.sz → get_elem? m.bools j ≡ some (bit b j)

Holds-inside : {b : BitSet} {m : BlockMap} → Holds b m → (i : ℕ) → i < m.sz → i < 8 * length b.bytes
Holds-inside h i lt = let low = h.valid.in_memory in let size = h.size in omega arith

get_elem?-set_if :
    (bs : List Bool) (i j : ℕ) (v f : Bool)
    → get_elem? bs j ≡ some f
    → get_elem? (set bs i v) j ≡ some (if i == j then v else f)
get_elem?-set_if [] i j v f e = absurd (cc)
get_elem?-set_if (x ∷ bs) zero zero v f e = ground arith
get_elem?-set_if (x ∷ bs) zero (suc j) v f e = ground arith
get_elem?-set_if (x ∷ bs) (suc i) zero v f e = ground arith
get_elem?-set_if (x ∷ bs) (suc i) (suc j) v f e = ground (arith, get_elem?-set_if bs i j v f e)

-- The map with an entry overwritten holds the bits of the set in which the bit has the value.
changed-Holds :
    {b b' : BitSet} {m : BlockMap} (i : ℕ) (v : Bool)
    → Holds b m
    → IsValid b'
    → b'.count ≡ b.count
    → ((j : ℕ) → bit b' j ≡ (if i == j then v else bit b j))
    → Holds b' (record m { bools = set m.bools i v })
changed-Holds {b} {b'} {m} i v h valid count bits = record {
  valid = valid;
  size = h.size ∙ ap rounds (sym count);
  all_there = length-set m.bools i v ∙ h.all_there;
  same =
      λ j below. get_elem?-set_if m.bools i j v (bit b j) (h.same j below) ∙ ap some (sym (bits j));
}

module _ (b : BitSet) (m : BlockMap) (i : ℕ) (h : Holds b m) (lt : i < m.sz) where
  get_bit-Holds : get_bit m i ≡ ok (bit b i)
  unfolding get_bit
  get_bit-Holds = rw (get_bit, h.same i lt) refl

  set_bit-Holds :
      bit b i ≡ false → set_bit m i ≡ ok (pos 0, record m { bools = set m.bools i true })
  unfolding set_bit
  set_bit-Holds clear = rw (set_bit, h.same i lt, clear) refl

  clear_bit-Holds :
      clear_bit m i
      ≡ ok (if bit b i then (pos 0, record m { bools = set m.bools i false }) else (minus_one, m))
  unfolding clear_bit
  clear_bit-Holds = rw (clear_bit, h.same i lt) refl

  marked-Holds : Holds (marked b i) (record m { bools = set m.bools i true })
  unfolding marked
  marked-Holds =
      let inside = Holds-inside h i lt in
      changed-Holds i true h (marked-IsValid b i inside h.valid) refl
        (λ j. bit-marked b i inside j h.valid.are_bytes ∙ grind arith)

  unmarked-Holds : Holds (unmarked b i) (record m { bools = set m.bools i false })
  unfolding unmarked
  unmarked-Holds =
      let inside = Holds-inside h i lt in
      changed-Holds i false h (unmarked-IsValid b i inside h.valid) refl
        (λ j. bit-unmarked b i inside j h.valid.are_bytes ∙ grind arith)

alloc_from-Holds :
    (n : ℕ) (b : BitSet) (m : BlockMap) (i : ℕ)
    → Holds b m
    → i + n ≡ m.sz
    → (z : ℤ) × (b' : BitSet) × (m' : BlockMap) × (allocate_from n b i ≡ ok (z, b'))
      × (alloc_from n m i ≡ ok (z, m'))
      × (m'.sz ≡ m.sz)
      × Holds b' m'
unfolding allocate_from alloc_from
alloc_from-Holds zero b m i h e = (minus_one, b, m, refl, refl, refl, h)
alloc_from-Holds (suc n) b m i h e =
    let lt : i < m.sz = omega arith in
    let inside = Holds-inside h i lt in
    elim (Bool-cases (bit b i)) [
      | inl taken ↦
          let (z, b', m', runs, runs', sz, h') = alloc_from-Holds n b m (i + 1) h (omega arith) in
          (
            z,
            b',
            m',
            rw (allocate_from, get_bit-ok b i inside, taken) runs,
            rw (alloc_from, get_bit-Holds b m i h lt, taken) runs',
            sz,
            h',
          )
      | inr clear ↦ (
        pos i,
        marked b i,
        record m { bools = set m.bools i true },
        rw (allocate_from, get_bit-ok b i inside, clear, set_bit-ok b i inside) refl,
        rw (alloc_from, get_bit-Holds b m i h lt, clear, set_bit-Holds b m i h lt clear) refl,
        refl,
        marked-Holds b m i h lt,
      )
    ]

-- Where a bit set of the C program and a block map of the C++ version hold the same set, allocateBlock
-- and allocBlock take the same block, or none, and they hold the same set again.
pub alloc_block-Holds :
    (b : BitSet) (m : BlockMap)
    → Holds b m
    → (z : ℤ) × (b' : BitSet) × (m' : BlockMap) × (allocate_block b ≡ ok (z, b'))
      × (alloc_block m ≡ ok (z, m'))
      × (m'.sz ≡ m.sz)
      × Holds b' m'
unfolding allocate_block alloc_block
alloc_block-Holds b m h =
    let (z, b', m', runs, runs', sz, h') = alloc_from-Holds m.sz b m 0 h (omega arith) in
    (z, b', m', subst (λ n. allocate_from n b 0 ≡ ok (z, b')) h.size runs, runs', sz, h')

-- Where they hold the same set, the two freeBlock of a block of the device leave them with the same
-- set again.
pub free_block-Holds :
    (b : BitSet) (m : BlockMap) (i : ℕ)
    → Holds b m
    → i < m.sz
    → (z : ℤ) × (b' : BitSet) × (m' : BlockMap) × (BitSet.free_block b i ≡ ok (z, b'))
      × (free_block m i ≡ ok m')
      × (m'.sz ≡ m.sz)
      × Holds b' m'
unfolding free_block
free_block-Holds b m i h lt =
    let inside = Holds-inside h i lt in
    elim (Bool-cases (bit b i)) [
      | inl taken ↦ (
        pos 0,
        unmarked b i,
        record m { bools = set m.bools i false },
        free_block-cases b i inside ∙ rw taken refl,
        rw (free_block, clear_bit-Holds b m i h lt, taken) refl,
        refl,
        unmarked-Holds b m i h lt,
      )
      | inr clear ↦ (
        minus_one,
        b,
        m,
        free_block-cases b i inside ∙ rw clear refl,
        rw (free_block, clear_bit-Holds b m i h lt, clear) refl,
        refl,
        h,
      )
    ]
