-- ===== src/BitSet.antt =====
-- dylan_bit_set.c: a bit set in memory, the allocator of block numbers on top of it, and its image
-- on a block device. The set is the C struct with the bytes that were allocated behind its header;
-- a bit outside them is a fault. Bit indices are the `int`s that are not negative.
pub mod Bits
pub mod Allocate
pub mod Count
pub mod Persist
use cs.Prelude.{
  ℕ, zero, suc, ◌+◌, ◌-◌, ◌*◌, ◌/◌, ◌%◌, ◌≤◌, ◌<◌, ◌^◌, Bool, true, false, not, Option, none, some,
  List, ◌++◌, ◌==◌, if◌then◌else◌, get_elem?, set, length, ℤ, pos, negsuc, minus_one, IsInt,
  int_of_bits, bits_of_int, drop, ltb,
}
use cs.Prelude.Bits.{bit_on, bit_off, bit_at}
use cs.Prelude.Bytes.{le_bytes, field_at, AllBytes, zeros}
use cs.Prelude.Run.{Run, ok, fault, assert, ◌>>=◌, ◌>>◌}
use cs.Device.{BlockDevice}
use cs.Device.Blocks.{write_blocks, read_blocks}

-- `ceilDiv`
abbrev pub ceil_div : ℕ → ℕ → ℕ
ceil_div n d = (n + d - 1) / d

-- BITSET_MAGIC
abbrev pub bitset_magic_number : ℕ
bitset_magic_number = 0xB175E700

-- `sizeof(BitSet)`: two `int`s and one byte, padded, and where the bytes begin.
abbrev pub sizeof_bit_set : ℕ
sizeof_bit_set = 12

abbrev pub header_bytes : ℕ
header_bytes = 8

pub record BitSet : Type 0 where
  pub bitset_magic : ℕ
  pub count : ℤ
  pub bytes : List ℕ

-- How often a loop `for (i = 0; i < count; i++)` runs.
abbrev pub rounds : ℤ → ℕ
rounds (pos n) = n
rounds (negsuc n) = 0

-- The blocks of memory that `allocBitSet` asks for.
abbrev pub blocks_in_bitset : ℕ → ℕ → ℕ
blocks_in_bitset num_bits block_size = ceil_div (sizeof_bit_set + ceil_div num_bits 8) block_size

-- `allocBitSet`
unfoldable pub alloc_bit_set : ℕ → ℕ → BitSet
alloc_bit_set num_bits block_size = record {
  bitset_magic = bitset_magic_number;
  count = pos num_bits;
  bytes = zeros (blocks_in_bitset num_bits block_size * block_size - header_bytes);
}

-- `setBit`
unfoldable pub set_bit : BitSet → ℕ → Run BitSet
unfolding bit_on
set_bit b i = elim (get_elem? b.bytes (i / 8)) [
  | none ↦ fault
  | some c ↦ ok (record b { bytes = set b.bytes (i / 8) (bit_on c (i % 8)) })
]

-- `clearBit`
unfoldable pub clear_bit : BitSet → ℕ → Run BitSet
unfolding bit_off
clear_bit b i = elim (get_elem? b.bytes (i / 8)) [
  | none ↦ fault
  | some c ↦ ok (record b { bytes = set b.bytes (i / 8) (bit_off c (i % 8)) })
]

-- `getBit`
unfoldable pub get_bit : BitSet → ℕ → Run Bool
unfolding bit_at
get_bit b i = elim (get_elem? b.bytes (i / 8)) [ none ↦ fault | some c ↦ ok (bit_at c (i % 8)) ]

-- The loop of `allocateBlock` from index `i` on, with the number of rounds left.
unfoldable pub allocate_from : ℕ → BitSet → ℕ → Run (ℤ × BitSet)
unfolding get_bit set_bit
allocate_from zero b i = ok (minus_one, b)
allocate_from (suc n) b i =
    let rest = allocate_from n b (i + 1) in
    get_bit b i >>= λ taken. if taken then rest else (set_bit b i >>= λ b'. ok (pos i, b'))

-- `allocateBlock`
unfoldable pub allocate_block : BitSet → Run (ℤ × BitSet)
unfolding allocate_from
allocate_block b = allocate_from (rounds b.count) b 0

-- `freeBlock`
unfoldable pub free_block : BitSet → ℕ → Run (ℤ × BitSet)
unfolding get_bit clear_bit
free_block b i = get_bit b i >>= λ taken.
    if taken then (clear_bit b i >>= λ b'. ok (pos 0, b')) else ok (minus_one, b)

-- `getBlocksInBlockMap`
unfoldable pub get_blocks_in_block_map : BlockDevice → ℕ
get_blocks_in_block_map bd = ceil_div (ceil_div bd.block_count 8) bd.bytes_per_block

-- The memory of a bit set, read as bytes, and the cast back.
unfoldable pub memory_of : BitSet → List ℕ
memory_of b = le_bytes 4 b.bitset_magic ++ (le_bytes 4 (bits_of_int b.count) ++ b.bytes)

unfoldable pub bit_set_of : List ℕ → BitSet
bit_set_of memory = record {
  bitset_magic = field_at 0 4 memory;
  count = int_of_bits (field_at 4 4 memory);
  bytes = drop header_bytes memory;
}

-- `readBlockMap`: `none` is NULL. A wrong magic number is only reported. Where the memory of the blocks
-- is smaller than the header, the test of the magic number reads outside it.
unfoldable pub read_block_map : BlockDevice → ℕ → Run (Option BitSet)
unfolding get_blocks_in_block_map read_blocks bit_set_of
read_block_map bd first_block =
    let n = get_blocks_in_block_map bd in
    read_blocks n bd first_block (n * bd.bytes_per_block) >>= λ got. elim got [
      | none ↦ ok none
      | some memory ↦
          if ltb (n * bd.bytes_per_block) header_bytes then fault else ok (some (bit_set_of memory))
    ]

-- `writeBlockMap`: whether it returns 0, and the device after it.
unfoldable pub write_block_map : BlockDevice → BitSet → ℕ → Run (Bool × BlockDevice)
unfolding get_blocks_in_block_map write_blocks memory_of
write_block_map bd b first_block =
    assert (b.bitset_magic == bitset_magic_number)
    >> write_blocks (get_blocks_in_block_map bd) bd first_block (memory_of b)

-- The bits that the loops visit lie in memory, and the bytes are bytes.
pub record IsValid (b : BitSet) : Type 0 where
  pub in_memory : rounds b.count ≤ 8 * length b.bytes
  pub count_int : IsInt b.count
  pub are_bytes : AllBytes b.bytes
