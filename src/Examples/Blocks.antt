-- ===== src/Examples/Blocks.antt =====
-- Examples of block_device.c and of the allocator of dylan_bit_set.c.
use cs.Prelude.{ℕ, ◌≡◌, refl, true, List, [], ◌∷◌, arith, ℤ, pos, minus_one}
use cs.Prelude.Bytes.{zeros}
use cs.Prelude.Bits.{bit_at}
use cs.Prelude.Run.{ok}
use cs.Device.{write_block}
use cs.Device.Transfer.{Written, write_block-Written}
use cs.BitSet.{BitSet, allocate_block, free_block}
use cs.BitSet.Bits.{bit}
use cs.BitSet.Allocate.{Allocated, allocate_block-Allocated, free_block-allocate_block}
use cs.Examples.{disk, disk-IsValid, young_map, young_map-IsValid, full_map}

-- A block of 256 bytes, and two of them.
abbrev block : List ℕ
block = 7 ∷ zeros 255

abbrev two_blocks : List ℕ
two_blocks = 7 ∷ zeros 511

write_block-Written_example :
    ((write_block disk (pos 3) block).0 ≡ true)
    × Written disk 3 block (write_block disk (pos 3) block).1
write_block-Written_example = write_block-Written disk 3 block disk-IsValid (omega arith) refl

-- The map after the first allocation in `young_map`.
abbrev next_map : BitSet
next_map = record young_map { bytes = 3 ∷ 0 ∷ [] }

takes_one : allocate_block young_map ≡ ok (pos 1, next_map)
unfolding allocate_block
takes_one = refl

fails_full : allocate_block full_map ≡ ok (minus_one, full_map)
unfolding allocate_block
fails_full = refl

allocate_block-Allocated_example :
    (z : ℤ) × (b' : BitSet) × (allocate_block young_map ≡ ok (z, b')) × Allocated young_map z b'
allocate_block-Allocated_example = allocate_block-Allocated young_map young_map-IsValid

free_block-allocate_block_example : free_block next_map 1 ≡ ok (pos 0, young_map)
free_block-allocate_block_example =
    free_block-allocate_block young_map 1 young_map-IsValid takes_one

bit_zero : bit young_map 0 ≡ true
unfolding bit bit_at
bit_zero = refl
