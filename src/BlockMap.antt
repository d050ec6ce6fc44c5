-- ===== src/BlockMap.antt =====
-- my_Blocks_c++/blockMap.cc: the block map of the C++ version, a vector of Booleans, and its image in
-- one block of a device. An index outside the vector or the block buffer is a fault. Sizes and
-- indices are the `int`s that are not negative.
pub mod Agreement
pub mod Runs
pub mod Bools
pub mod Buffer
pub mod Image
pub mod Dump
use cs.Prelude.{
  ℕ, zero, suc, ◌+◌, ◌*◌, ◌/◌, ◌%◌, ◌<◌, Bool, true, false, not, ◌&&◌, Option, none, some, List, [],
  ◌∷◌, ◌++◌, ltb, if◌then◌else◌, get_elem?, set, replicate, length, drop, ℤ, pos, negsuc, minus_one,
  mul_int, max,
}
use cs.Prelude.Bits.{bit_on, bit_off, bit_at}
use cs.Prelude.Run.{Run, ok, fault, ◌>>=◌}
use cs.Device.{BlockDevice, read_at, write_at}

-- BlockMap
pub record BlockMap : Type 0 where
  pub sz : ℕ
  pub bools : List Bool

-- `allocBlockMap`
unfoldable pub alloc_block_map : ℕ → BlockMap
alloc_block_map num_bits = record { sz = num_bits; bools = replicate num_bits false }

-- `setBit`: its result, and the map after it.
unfoldable pub set_bit : BlockMap → ℕ → Run (ℤ × BlockMap)
set_bit b i = elim (get_elem? b.bools i) [
  | none ↦ fault
  | some v ↦ ok (if v then (minus_one, b) else (pos 0, record b { bools = set b.bools i true }))
]

-- `clearBit`
unfoldable pub clear_bit : BlockMap → ℕ → Run (ℤ × BlockMap)
clear_bit b i = elim (get_elem? b.bools i) [
  | none ↦ fault
  | some v ↦ ok (if v then (pos 0, record b { bools = set b.bools i false }) else (minus_one, b))
]

-- `getBit`
unfoldable pub get_bit : BlockMap → ℕ → Run Bool
get_bit b i = elim (get_elem? b.bools i) [ none ↦ fault | some v ↦ ok v ]

-- The loop of `allocBlock` from index `i` on, with the number of rounds left.
unfoldable pub alloc_from : ℕ → BlockMap → ℕ → Run (ℤ × BlockMap)
unfolding get_bit set_bit
alloc_from zero b i = ok (minus_one, b)
alloc_from (suc n) b i =
    let rest = alloc_from n b (i + 1) in
    get_bit b i >>= λ taken. if taken then rest else (set_bit b i >>= λ r. ok (pos i, r.1))

-- `allocBlock`
unfoldable pub alloc_block : BlockMap → Run (ℤ × BlockMap)
unfolding alloc_from
alloc_block b = alloc_from b.sz b 0

-- `freeBlock`
unfoldable pub free_block : BlockMap → ℕ → Run BlockMap
unfolding clear_bit
free_block b i = clear_bit b i >>= λ r. ok r.1

-- `BlockDevice::readBlock`: the buffer after it. A failure is only reported. A seek to a negative
-- offset, after which the source reads on where it is, is a fault.
unfoldable pub read_buffer : BlockDevice → ℤ → List ℕ → Run (List ℕ)
unfolding read_at
read_buffer bd n buff = elim (mul_int n bd.bytes_per_block) [
  | negsuc m ↦ fault
  | pos off ↦
      let got = read_at bd.device_handle off bd.bytes_per_block in
      ok (got ++ drop (length got) buff)
]

-- `BlockDevice::writeBlock`: the device after it.
unfoldable pub write_buffer : BlockDevice → ℤ → List ℕ → Run BlockDevice
unfolding write_at
write_buffer bd n buff = elim (mul_int n bd.bytes_per_block) [
  | negsuc m ↦ fault
  | pos off ↦
      ok (record bd { device_handle = write_at bd.device_handle off bd.bytes_per_block buff })
]

-- GET_BIT of a buffer.
unfoldable pub buffer_bit : List ℕ → ℕ → Run Bool
unfolding bit_at
buffer_bit cs i = elim (get_elem? cs (i / 8)) [ none ↦ fault | some c ↦ ok (bit_at c (i % 8)) ]

-- SET_BIT or CLEAR_BIT of a buffer.
unfoldable pub put_bit : List ℕ → ℕ → Bool → Run (List ℕ)
unfolding bit_on bit_off
put_bit cs i v = elim (get_elem? cs (i / 8)) [
  | none ↦ fault
  | some c ↦ ok (set cs (i / 8) (if v then bit_on c (i % 8) else bit_off c (i % 8)))
]

-- The loop of `readBlockMap` from bit `i` on, with the rounds left: the bits.
unfoldable pub load_bits : ℕ → List ℕ → ℕ → List Bool → Run (List Bool)
unfolding buffer_bit
load_bits zero cs i bs = ok bs
load_bits (suc n) cs i bs = buffer_bit cs i >>= λ v.
    if ltb i (length bs) then load_bits n cs (i + 1) (set bs i v) else fault

-- `readBlockMap`, with what stands in the block buffer before.
unfoldable pub read_block_map : BlockDevice → BlockMap → ℕ → List ℕ → Run BlockMap
unfolding read_buffer load_bits
read_block_map bd b disk_loc before = do
  inarr ← read_buffer bd (pos disk_loc) before
  bs ← load_bits b.sz inarr 0 b.bools
  ok (record b { bools = bs })

-- The loop of `writeBlockMap` from bit `i` on, with the rounds left: the bits of the map, and behind
-- them clear bits up to the number of bytes of a block.
unfoldable pub store_bits : ℕ → BlockMap → ℕ → List ℕ → Run (List ℕ)
unfolding get_bit put_bit
store_bits zero b i cs = ok cs
store_bits (suc n) b i cs = (if ltb i b.sz then get_bit b i else ok false) >>= λ v.
    put_bit cs i v >>= λ cs'. store_bits n b (i + 1) cs'

-- `writeBlockMap`, with what stands in the block buffer before.
unfoldable pub write_block_map : BlockDevice → BlockMap → ℕ → List ℕ → Run BlockDevice
unfolding write_buffer store_bits
write_block_map bd b disk_loc before = do
  outarr ← store_bits (max bd.bytes_per_block b.sz) b 0 before
  write_buffer bd (pos disk_loc) outarr
