-- ===== src/FileSystem/Access/Address.antt =====
-- inode.c: getDiskAddressOfBlock on a file system in order.
use cs.Prelude.{
  ℕ, zero, suc, ◌<◌, ◌≡◌, sym, subst, true, Bool, some, arith, length, get_elem?, ltb, ℤ, pos,
  minus_one, if◌then◌else◌,
}
use cs.Prelude.Run.{ok}
use cs.Device
use cs.Device.{BlockDevice}
use cs.BitSet.{BitSet, rounds, allocate_block}
use cs.BitSet
use cs.BitSet.Bits.{bit}
use cs.BitSet.Count.{free_below}
use cs.INode.{INode, block_ptrs_per_inode}
use cs.FileSystem.{FileSystem, inode_at}
use cs.FileSystem.Access.{
  is_positive, block_ptr, allocate_ptr, disk_address_at_level, get_disk_address_of_block,
}

-- Block `b` of the inode stands at the address `a` of the device.
pub record StandsAt (x : INode) (b a : ℕ) : Type 0 where
  pub pointer : get_elem? x.block_ptrs b ≡ some (pos a)
  pub positive : 0 < a

-- Inode `k` is `x`, and can be read and written: the device and the block map are valid and of one
-- size, the master block is allocated, and the blocks of the inode are allocated blocks of the
-- device, no two of them the same.
pub record Ready (fs : FileSystem) (k : ℕ) (x : INode) : Type 0 where
  pub device : Device.IsValid fs.block_device
  pub map : BitSet.IsValid fs.block_map
  pub covers : rounds fs.block_map.count ≡ fs.block_device.block_count
  pub master : bit fs.block_map 0 ≡ true
  pub here : inode_at fs k ≡ ok x
  pub flat : x.level ≡ 0
  pub ptrs : length x.block_ptrs ≡ block_ptrs_per_inode
  pub inside :
      (b a : ℕ) → StandsAt x b a → (a < fs.block_device.block_count) × (bit fs.block_map a ≡ true)
  pub apart : (b c a : ℕ) → StandsAt x b a → StandsAt x c a → b ≡ c

-- The number of free blocks.
abbrev pub free_blocks : FileSystem → ℕ
free_blocks fs = free_below fs.block_map (rounds fs.block_map.count)

-- The lookup of a block of an inode of level 0, its inode given.
pub lookup_flat :
    (fs : FileSystem) (k b : ℕ) (alloc : Bool) (x : INode) {p : ℤ}
    → inode_at fs k ≡ ok x
    → x.level ≡ 0
    → b < block_ptrs_per_inode
    → get_elem? x.block_ptrs b ≡ some p
    → get_disk_address_of_block fs k b alloc ≡ (
        if is_positive p
        then ok (p, fs)
        else (if alloc then allocate_ptr fs k x b else ok (minus_one, fs)))
unfolding get_disk_address_of_block disk_address_at_level block_ptr
lookup_flat fs k b alloc x {p} here flat lt e =
    let small : ltb b block_ptrs_per_inode ≡ true = ground arith in
    let result =
      if is_positive p
      then ok (p, fs)
      else (if alloc then allocate_ptr fs k x b else ok (minus_one, fs)) in
    rw (get_disk_address_of_block, here)
      (subst (λ l. disk_address_at_level fs k b alloc l ≡ result) (sym flat)
        (rw (disk_address_at_level, small, here, block_ptr, e)))

-- A block with an address is found, with or without leave to allocate.
pub address-StandsAt :
    (fs : FileSystem) (k b a : ℕ) (alloc : Bool) (x : INode)
    → Ready fs k x
    → b < block_ptrs_per_inode
    → StandsAt x b a
    → get_disk_address_of_block fs k b alloc ≡ ok (pos a, fs)
address-StandsAt fs k b zero alloc x r lt s = absurd (omega (arith, s.positive))
address-StandsAt fs k b (suc a) alloc x r lt s =
    lookup_flat fs k b alloc x r.here r.flat lt s.pointer
