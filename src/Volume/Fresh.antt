-- ===== src/Volume/Fresh.antt =====
-- filesystem.c: the block map of newfs, with the blocks that it reserves.
use cs.Prelude.{
  ℕ, zero, suc, ◌+◌, ◌-◌, ◌*◌, ◌/◌, ◌≤◌, ◌<◌, ◌^◌, ◌≡◌, ◌∙◌, arith, length, pos, ltb, ℤ,
}
use cs.Prelude.Run.{ok}
use cs.Prelude.Always.{Always}
use cs.Device.{BlockDevice}
use cs.BitSet.{
  BitSet, ceil_div, set_bit, alloc_bit_set, allocate_from, allocate_block, rounds,
  bitset_magic_number,
}
use cs.BitSet.Bits.{bit}
use cs.BitSet.Persist.{alloc_bit_set-IsValid}
use cs.Volume.{reserve}
use cs.Volume.Reserve.{reserve-FirstSet}

allocate_from_magic :
    (n : ℕ) (b : BitSet) (i : ℕ)
    → Always (λ r. r.1.bitset_magic ≡ b.bitset_magic) (allocate_from n b i)
unfolding allocate_from set_bit
allocate_from_magic zero b i r e = grind arith
allocate_from_magic (suc n) b i r e =
    let later : (q : ℤ × BitSet)
        → allocate_from n b (i + 1) ≡ ok q
        → q.1.bitset_magic ≡ b.bitset_magic =
      λ q e'. allocate_from_magic n b (i + 1) q e' in
    grind (arith, later)

reserve_magic : (n : ℕ) (b : BitSet) → Always (λ b'. b'.bitset_magic ≡ b.bitset_magic) (reserve n b)
unfolding reserve allocate_block
reserve_magic zero b b' e = grind arith
reserve_magic (suc n) b b' e =
    let first : (q : ℤ × BitSet) → allocate_block b ≡ ok q → q.1.bitset_magic ≡ b.bitset_magic =
      λ q e'. allocate_from_magic (rounds b.count) b 0 q e' in
    let later : (b1 : BitSet) (b2 : BitSet)
        → reserve n b1 ≡ ok b2
        → b2.bitset_magic ≡ b1.bitset_magic =
      λ b1 b2 e'. reserve_magic n b1 b2 e' in
    grind (arith, first, later)

div_mono : (a b s : ℕ) → 0 < s → a ≤ b → a / s ≤ b / s
div_mono a b s h le = grind arith

pub blocks_mono : (x y s : ℕ) → 0 < s → x ≤ y → ceil_div x s * s ≤ ceil_div y s * s
blocks_mono x y s h le = let m = div_mono (x + s - 1) (y + s - 1) s h (omega arith) in grind arith

pub some_block : (x s : ℕ) → 0 < x → 0 < s → s ≤ ceil_div x s * s
some_block x s h h' = let m = div_mono s (x + s - 1) s h' (omega arith) in grind arith

-- The blocks that newfs reserves, on the fresh map.
pub reserved :
    (bd : BlockDevice) (k : ℕ)
    → bd.block_count < 2 ^ 31
    → 0 < bd.bytes_per_block
    → k ≤ bd.block_count
    → (map : BitSet) × (reserve k (alloc_bit_set bd.block_count bd.bytes_per_block) ≡ ok map)
      × ((j : ℕ) → bit map j ≡ ltb j k)
      × (map.bitset_magic ≡ bitset_magic_number)
      × (map.count ≡ pos bd.block_count)
      × (length map.bytes ≡ length (alloc_bit_set bd.block_count bd.bytes_per_block).bytes)
unfolding alloc_bit_set
reserved bd k small some_bytes le =
    let fresh = alloc_bit_set bd.block_count bd.bytes_per_block in
    let (valid, clear) = alloc_bit_set-IsValid bd.block_count bd.bytes_per_block small some_bytes in
    let (map, runs, first, v, count, size) =
      reserve-FirstSet k fresh 0 valid (λ j. clear j ∙ ground arith) (omega arith) in
    (map, runs, λ j. first j ∙ ground arith, reserve_magic k fresh map runs, count, size)
