-- ===== src/Examples.antt =====
-- Data for the runs and examples in the modules below: a device of sixteen blocks of 256 bytes, block
-- maps for it, and a file system on it.
mod Blocks
mod Maps
mod Inodes
mod Files
mod Directories
mod Volumes
mod Shells
mod Commands
mod Newfs
mod CppMaps
mod Consoles
mod Nodes
use cs.Prelude.{◌+◌, ◌*◌, ◌^◌, ◌<◌, ◌≡◌, true, false, List, [], ◌∷◌, pos, refl, arith}
use cs.Prelude.Bytes.{zeros}
use cs.Device
use cs.Device.{File, BlockDevice}
use cs.BitSet
use cs.BitSet.{BitSet, bitset_magic_number}
use cs.INode.{INode, fresh_inode, fresh_from, file_type, allocated_status}
use cs.MasterBlock.{MasterBlock, my_magic}
use cs.FileSystem.{FileSystem, null}

abbrev pub disk_file : File
disk_file = record { size = 4096; byte = λ j. 0; limit = 2 ^ 20; closes = true }

abbrev pub disk : BlockDevice
disk = record { device_handle = disk_file; block_count = 16; bytes_per_block = 256 }

pub disk-IsValid : Device.IsValid disk
disk-IsValid = record {
  whole = refl;
  room = omega arith;
  fits = omega arith;
  some_bytes = omega arith;
}

-- The first block taken, and every block taken.
abbrev pub young_map : BitSet
young_map = record { bitset_magic = bitset_magic_number; count = pos 16; bytes = 1 ∷ 0 ∷ [] }

abbrev pub full_map : BitSet
full_map = record { bitset_magic = bitset_magic_number; count = pos 16; bytes = 255 ∷ 255 ∷ [] }

pub young_map-IsValid : BitSet.IsValid young_map
young_map-IsValid = record {
  in_memory = omega arith;
  count_int = omega arith;
  are_bytes = (omega arith, (omega arith, tt));
}

pub full_map-IsValid : BitSet.IsValid full_map
full_map-IsValid = record {
  in_memory = omega arith;
  count_int = omega arith;
  are_bytes = (omega arith, (omega arith, tt));
}

-- A file without blocks.
abbrev pub empty_file : INode
empty_file = record (fresh_inode 0) { type = file_type; status = allocated_status }

abbrev pub master : MasterBlock
master = record {
  magic_number = my_magic;
  bytes_per_block = 256;
  block_count = 16;
  inode_count = 2;
  block_map_address = 1;
  inode_map_address = 2;
  root_dir_inode = 0;
}

-- Two inodes: a file, and a free one.
abbrev pub volume : FileSystem
volume = record {
  block_device = disk;
  master_block = master;
  block_map = young_map;
  inode_map = empty_file ∷ fresh_inode 1 ∷ [];
  root_dir = null;
}
