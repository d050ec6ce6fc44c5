-- ===== src/Examples/Volumes.antt =====
-- Examples of newfs and mount, and of their failures.
use cs.Prelude.{◌≡◌, refl, none, arith}
use cs.Device.{missing, open_block_device}
use cs.Volume.Mounting.{IsMountable}
use cs.FileSystem.{FileSystem}
use cs.Examples.{volume, disk-IsValid}
use cs.Examples.Maps.{block_map, one_block, master-Fits}

does_not_open : open_block_device (missing 4096) ≡ none
unfolding open_block_device
does_not_open = refl

-- The volume with a block map that fills its block.
abbrev pub whole_volume : FileSystem
whole_volume = record volume { block_map = block_map }

pub whole_volume-IsMountable : IsMountable whole_volume
whole_volume-IsMountable = record {
  device = disk-IsValid;
  master = master-Fits;
  magic = refl;
  count = refl;
  bytes = refl;
  big = omega arith;
  map_magic = refl;
  map_int = omega arith;
  map_low = omega (arith, one_block);
  map_high = omega (arith, one_block);
  inodes = ((ground arith, ground arith), ((ground arith, ground arith), tt));
  some_inodes = omega arith;
  inode_count = refl;
  whole = refl;
  address = omega (arith, one_block);
  room = omega (arith, one_block);
  root = omega arith;
}
