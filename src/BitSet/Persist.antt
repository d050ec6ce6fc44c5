-- ===== src/BitSet/Persist.antt =====
-- dylan_bit_set.c: the fresh set, and the image of a set on a device.
use cs.Prelude.{
  ℕ, suc, ◌+◌, ◌-◌, ◌*◌, ◌/◌, ◌%◌, ◌≤◌, ◌<◌, ◌^◌, ◌≡◌, refl, ap, ap₂, subst, ◌∙◌, true, false, Bool,
  some, List, arith, length, take, ltb, if◌then◌else◌, length-take, take-length, get_elem?_outside,
  pos, IsInt, int_of_bits, bits_of_int, bits_of_int-lt, int_of_bits-bits_of_int, ◌==◌,
}
use cs.Prelude.Bits.{bit_at-zero}
use cs.Prelude.Bytes.{le_value-le_bytes_32, length-zeros, get_or-zeros, AllBytes-zeros}
use cs.Prelude.Run.{ok, fault}
use cs.Device.{BlockDevice}
use cs.Device
use cs.Device.Blocks.{read_blocks, write_blocks}
use cs.Device.Blocks.Laws.{Stored, write_blocks-Stored}
use cs.BitSet.{
  BitSet, IsValid, ceil_div, alloc_bit_set, blocks_in_bitset, memory_of, bit_set_of, header_bytes,
  bitset_magic_number, get_blocks_in_block_map, read_block_map, write_block_map, get_bit,
}
use cs.BitSet.Bits.{bit}

ceil_div_covers : (n d : ℕ) → 0 < d → n ≤ ceil_div n d * d
ceil_div_covers n d h = grind arith

-- The set that allocBitSet makes for fewer than 2 ^ 31 bits, with blocks of at least one byte, is
-- valid and has no bit set.
pub alloc_bit_set-IsValid :
    (n s : ℕ)
    → n < 2 ^ 31
    → 0 < s
    → IsValid (alloc_bit_set n s) × ((j : ℕ) → bit (alloc_bit_set n s) j ≡ false)
unfolding alloc_bit_set bit
alloc_bit_set-IsValid n s small h =
    let size = blocks_in_bitset n s * s - header_bytes in
    (
      record {
        in_memory = omega (arith, ceil_div_covers (12 + ceil_div n 8) s h, length-zeros size);
        count_int = small;
        are_bytes = AllBytes-zeros size;
      },
      λ j. rw (get_or-zeros size (j / 8)) (bit_at-zero (j % 8)),
    )

-- The image of a set in memory.
pub length-memory_of : (b : BitSet) → length (memory_of b) ≡ header_bytes + length b.bytes
unfolding memory_of
length-memory_of b = omega arith

-- Eight bytes of header and `n` more.
abbrev past_header : ℕ → ℕ
past_header n = suc (suc (suc (suc (suc (suc (suc (suc n)))))))

bit_set_of-past_header :
    (b : BitSet) (n : ℕ)
    → b.bitset_magic < 2 ^ 32
    → IsInt b.count
    → bit_set_of (take (past_header n) (memory_of b)) ≡ record b { bytes = take n b.bytes }
unfolding bit_set_of memory_of
bit_set_of-past_header b n magic int = λ i. record {
  bitset_magic = le_value-le_bytes_32 b.bitset_magic magic i;
  count =
      (ap int_of_bits (le_value-le_bytes_32 (bits_of_int b.count) (bits_of_int-lt b.count))
          ∙ int_of_bits-bits_of_int b.count int)
        i;
  bytes = take n b.bytes;
}

-- The cast of the first `k` bytes of a set's memory: the header is whole, the bits are cut off.
pub bit_set_of-take :
    (b : BitSet) (k : ℕ)
    → b.bitset_magic < 2 ^ 32
    → IsInt b.count
    → header_bytes ≤ k
    → bit_set_of (take k (memory_of b)) ≡ record b { bytes = take (k - header_bytes) b.bytes }
bit_set_of-take b k magic int h =
    let e : past_header (k - header_bytes) ≡ k = omega arith in
    subst
      (λ t.
        bit_set_of (take t (memory_of b)) ≡ record b { bytes = take (k - header_bytes) b.bytes })
      e (bit_set_of-past_header b (k - header_bytes) magic int)

-- The bytes of the blocks that `getBlocksInBlockMap` counts.
abbrev pub map_bytes : BlockDevice → ℕ
map_bytes bd = get_blocks_in_block_map bd * bd.bytes_per_block

pub same_map_blocks :
    (c d : BlockDevice)
    → c.block_count ≡ d.block_count
    → c.bytes_per_block ≡ d.bytes_per_block
    → get_blocks_in_block_map c ≡ get_blocks_in_block_map d
unfolding get_blocks_in_block_map
same_map_blocks c d p q = ap₂ (λ n m. ceil_div (ceil_div n 8) m) p q

read_block_map-of_blocks :
    (bd : BlockDevice) (first n : ℕ) {memory : List ℕ}
    → get_blocks_in_block_map bd ≡ n
    → header_bytes ≤ n * bd.bytes_per_block
    → read_blocks n bd first (n * bd.bytes_per_block) ≡ ok (some memory)
    → read_block_map bd first ≡ ok (some (bit_set_of memory))
unfolding read_block_map
read_block_map-of_blocks bd first n {memory} e enough runs =
    let size = ap (λ t. t * bd.bytes_per_block) e in
    let whole : ltb (get_blocks_in_block_map bd * bd.bytes_per_block) header_bytes ≡ false =
      ground (arith, size) in
    rw (read_block_map, e, runs)
      (ap (λ t. if t then fault else ok (some (bit_set_of memory))) whole)

write_block_map-of_blocks :
    (bd : BlockDevice) (b : BitSet) (first : ℕ) {r : Bool × BlockDevice}
    → b.bitset_magic ≡ bitset_magic_number
    → write_blocks (get_blocks_in_block_map bd) bd first (memory_of b) ≡ ok r
    → write_block_map bd b first ≡ ok r
unfolding write_block_map
write_block_map-of_blocks bd b first magic runs =
    let e : (b.bitset_magic == bitset_magic_number) ≡ true = ground arith in
    rw (write_block_map, e) runs

-- On a valid device with room, where the counted blocks hold the header at least, writeBlockMap
-- of a set with its magic number, a count that is an int and at least the bytes of these blocks
-- succeeds, changes only those blocks, and readBlockMap gives the set with its bytes cut off at
-- their end.
pub read_block_map-write_block_map :
    (bd : BlockDevice) (b : BitSet) (first : ℕ)
    → Device.IsValid bd
    → first + get_blocks_in_block_map bd ≤ bd.block_count
    → b.bitset_magic ≡ bitset_magic_number
    → IsInt b.count
    → header_bytes ≤ map_bytes bd
    → map_bytes bd ≤ header_bytes + length b.bytes
    → (bd' : BlockDevice) × (write_block_map bd b first ≡ ok (true, bd'))
      × Stored bd (get_blocks_in_block_map bd) first (memory_of b) bd'
      × (read_block_map bd' first
          ≡ ok (some (record b { bytes = take (map_bytes bd - header_bytes) b.bytes })))
read_block_map-write_block_map bd b first v inside magic int low high =
    let n = get_blocks_in_block_map bd in
    let (bd', runs, st) =
      write_blocks-Stored n bd first (memory_of b) v inside (omega (arith, length-memory_of b)) in
    let back =
      st.reads_back (n * bd'.bytes_per_block) (omega (arith, ap (λ t. n * t) st.same_bytes)) in
    (
      bd',
      write_block_map-of_blocks bd b first magic runs,
      st,
      read_block_map-of_blocks bd' first n (same_map_blocks bd' bd st.same_count st.same_bytes)
            (omega (arith, low, ap (λ t. n * t) st.same_bytes)) back
          ∙ ap (λ t. ok (some t)) (bit_set_of-take b (map_bytes bd) (omega arith) int low),
    )

-- On a valid device with room, where the counted blocks hold exactly the memory of a set with its
-- magic number and a count that is an int, readBlockMap gives back the set that writeBlockMap
-- wrote.
pub read_block_map-round_trip :
    (bd : BlockDevice) (b : BitSet) (first : ℕ)
    → Device.IsValid bd
    → first + get_blocks_in_block_map bd ≤ bd.block_count
    → b.bitset_magic ≡ bitset_magic_number
    → IsInt b.count
    → header_bytes ≤ map_bytes bd
    → map_bytes bd ≡ header_bytes + length b.bytes
    → (bd' : BlockDevice) × (write_block_map bd b first ≡ ok (true, bd'))
      × (read_block_map bd' first ≡ ok (some b))
read_block_map-round_trip bd b first v inside magic int low exact =
    let (bd', wrote, st, read) =
      read_block_map-write_block_map bd b first v inside magic int low (omega arith) in
    let all : take (map_bytes bd - header_bytes) b.bytes ≡ b.bytes =
      let e : map_bytes bd - header_bytes ≡ length b.bytes = omega arith in
      rw e (take-length b.bytes) in
    (bd', wrote, read ∙ ap (λ t. ok (some (record b { bytes = t }))) all)

get_bit-outside : (b : BitSet) (i : ℕ) → length b.bytes ≤ i / 8 → get_bit b i ≡ fault
unfolding get_bit
get_bit-outside b i h = rw (get_bit, get_elem?_outside b.bytes (i / 8) h)

count_small : (bd : BlockDevice) → Device.IsValid bd → bd.block_count < 2 ^ 31
count_small bd v = grind arith

-- For a valid device with room for its block map whose bits fill the blocks that
-- getBlocksInBlockMap counts to within the eight bytes of the header, the fresh map is written
-- without an error, and the map that is read back faults on the bit of the last block.
pub block_map_loses_last_block :
    (bd : BlockDevice) (first : ℕ)
    → Device.IsValid bd
    → first + get_blocks_in_block_map bd ≤ bd.block_count
    → header_bytes ≤ map_bytes bd
    → map_bytes bd < header_bytes + ceil_div bd.block_count 8
    → let b = alloc_bit_set bd.block_count bd.bytes_per_block in
      (bd' : BlockDevice) × (write_block_map bd b first ≡ ok (true, bd'))
      × ((b' : BitSet) × (read_block_map bd' first ≡ ok (some b'))
          × (b'.count ≡ pos bd.block_count)
          × (get_bit b' (bd.block_count - 1) ≡ fault))
unfolding alloc_bit_set
block_map_loses_last_block bd first v inside low short =
    let n = bd.block_count in
    let s = bd.bytes_per_block in
    let b = alloc_bit_set n s in
    let size = length-zeros (blocks_in_bitset n s * s - header_bytes) in
    let covers = ceil_div_covers (12 + ceil_div n 8) s v.some_bytes in
    let small : n < 2 ^ 31 = count_small bd v in
    let k = map_bytes bd - header_bytes in
    let (bd', wrote, st, read) =
      read_block_map-write_block_map bd b first v inside refl small low (omega arith) in
    (
      bd',
      wrote,
      (
        record b { bytes = take k b.bytes },
        read,
        refl,
        get_bit-outside _ (n - 1) (omega (arith, length-take k b.bytes)),
      ),
    )
