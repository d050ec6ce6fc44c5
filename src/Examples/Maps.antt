-- ===== src/Examples/Maps.antt =====
-- Examples of the images that the block map, the inode map and the master block have on a device.
use cs.Prelude.{◌-◌, ◌≡◌, refl, true, some, List, ◌∷◌, ◌++◌, arith, pos, take, ◌^◌}
use cs.Prelude.Bytes.{zeros}
use cs.Prelude.Run.{ok, fault}
use cs.Device
use cs.Device.{File, BlockDevice}
use cs.Device.Transfer.{Written}
use cs.Device.Blocks.Laws.{Stored}
use cs.BitSet.{
  BitSet, bitset_magic_number, get_blocks_in_block_map, memory_of, read_block_map, write_block_map,
  alloc_bit_set, get_bit,
}
use cs.BitSet.Persist.{map_bytes, read_block_map-write_block_map, block_map_loses_last_block}
use cs.INode.{INode, map_memory, write_inode_map, read_inode_map, fresh_from}
use cs.INode.Map.{AllFit}
use cs.INode.Transfer.{read_inode_map-write_inode_map, inode_map_overrun}
use cs.MasterBlock
use cs.MasterBlock.{master_memory, read_master_block, write_master_block, sizeof_master_block}
use cs.MasterBlock.Image.{read_master_block-write_master_block}
use cs.Examples.{disk, disk-IsValid, master}

pub one_block : get_blocks_in_block_map disk ≡ 1
unfolding get_blocks_in_block_map
one_block = refl

-- A map whose memory is one block of the disk, and a longer one.
abbrev pub block_map : BitSet
block_map = record { bitset_magic = bitset_magic_number; count = pos 16; bytes = 1 ∷ zeros 247 }

abbrev long_map : BitSet
long_map = record block_map { bytes = 1 ∷ zeros 299 }

read_block_map-write_block_map_example :
    (bd' : BlockDevice) × (write_block_map disk long_map 1 ≡ ok (true, bd'))
    × Stored disk (get_blocks_in_block_map disk) 1 (memory_of long_map) bd'
    × (read_block_map bd' 1
        ≡ ok (some (record long_map { bytes = take (map_bytes disk - 8) long_map.bytes })))
read_block_map-write_block_map_example =
    read_block_map-write_block_map disk long_map 1 disk-IsValid (omega (arith, one_block)) refl
      (omega arith) (omega (arith, one_block)) (omega (arith, one_block))

-- A device of 1024 blocks of 128 bytes, whose bits fill one block.
abbrev tight_file : File
tight_file = record { size = 131072; byte = λ j. 0; limit = 2 ^ 20; closes = true }

abbrev tight : BlockDevice
tight = record { device_handle = tight_file; block_count = 1024; bytes_per_block = 128 }

tight-IsValid : Device.IsValid tight
tight-IsValid = record {
  whole = refl;
  room = omega arith;
  fits = omega arith;
  some_bytes = omega arith;
}

tight_block : get_blocks_in_block_map tight ≡ 1
unfolding get_blocks_in_block_map
tight_block = refl

block_map_loses_last_block_example :
    (bd' : BlockDevice) × (write_block_map tight (alloc_bit_set 1024 128) 1 ≡ ok (true, bd'))
    × ((b' : BitSet) × (read_block_map bd' 1 ≡ ok (some b'))
        × (b'.count ≡ pos 1024)
        × (get_bit b' 1023 ≡ fault))
block_map_loses_last_block_example =
    block_map_loses_last_block tight 1 tight-IsValid (omega (arith, tight_block))
      (omega (arith, tight_block)) (omega (arith, tight_block))

-- Two inodes fill a block of the disk, three do not fill two.
abbrev two_inodes : List INode
two_inodes = fresh_from 2 0

abbrev three_inodes : List INode
three_inodes = fresh_from 3 0

two_inodes-AllFit : AllFit two_inodes
two_inodes-AllFit = ((ground arith, ground arith), ((ground arith, ground arith), tt))

three_inodes-AllFit : AllFit three_inodes
three_inodes-AllFit = ((ground arith, ground arith), two_more)
  where
    two_more : AllFit (fresh_from 2 1)
    two_more = ((ground arith, ground arith), ((ground arith, ground arith), tt))

read_inode_map-write_inode_map_example :
    (bd' : BlockDevice) × (write_inode_map disk two_inodes 2 2 ≡ ok (true, bd'))
    × Stored disk 1 2 (map_memory two_inodes) bd'
    × (read_inode_map bd' 2 2 ≡ ok (some two_inodes))
read_inode_map-write_inode_map_example =
    read_inode_map-write_inode_map disk two_inodes 2 disk-IsValid two_inodes-AllFit refl
      (omega arith)

inode_map_overrun_example :
    (write_inode_map disk three_inodes 2 3 ≡ fault) × (read_inode_map disk 2 3 ≡ fault)
inode_map_overrun_example =
    inode_map_overrun disk three_inodes 2 disk-IsValid three_inodes-AllFit (omega arith)
      (omega arith)

pub master-Fits : MasterBlock.Fits master
master-Fits = record {
  magic_u64 = omega arith;
  bytes_int = omega arith;
  blocks_int = omega arith;
  inodes_int = omega arith;
  block_map_int = omega arith;
  inode_map_int = omega arith;
  root_int = omega arith;
}

read_master_block-write_master_block_example :
    ((write_master_block disk master 0).0 ≡ true)
    × Written disk 0 (master_memory master ++ zeros 224) (write_master_block disk master 0).1
    × (read_master_block (write_master_block disk master 0).1 0 ≡ ok (some master))
read_master_block-write_master_block_example =
    read_master_block-write_master_block disk master 0 disk-IsValid master-Fits refl (omega arith)
      (omega arith)
