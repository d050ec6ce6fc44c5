-- ===== src/MasterBlock/Image.antt =====
-- master_block.c: the master block on the device.
use cs.Prelude.{ℕ, ◌+◌, ◌-◌, ◌<◌, ◌≤◌, ◌≡◌, true, false, some, List, ◌++◌, ltb, arith, length}
use cs.Prelude.Bytes.{zeros, length-zeros, le_value-le_bytes_32, le_value-le_bytes_64}
use cs.Prelude.Run.{ok}
use cs.Device.{BlockDevice, Entry, denied, missing, write_block, read_block}
use cs.Device
use cs.Device.Transfer.{Written, write_block-Written}
use cs.MasterBlock.{
  MasterBlock, Fits, master_memory, master_of, nonnegative, read_master_block, write_master_block,
  sizeof_master_block,
}

-- The structure in front of any memory reads back.
pub master_of-master_memory :
    (mb : MasterBlock) (rest : List ℕ) → Fits mb → master_of (master_memory mb ++ rest) ≡ mb
unfolding master_of master_memory
master_of-master_memory mb rest f = λ i. record {
  magic_number = le_value-le_bytes_64 mb.magic_number f.magic_u64 i;
  bytes_per_block = le_value-le_bytes_32 mb.bytes_per_block (omega arith) i;
  block_count = le_value-le_bytes_32 mb.block_count (omega (arith, f.blocks_int)) i;
  inode_count = le_value-le_bytes_32 mb.inode_count (omega (arith, f.inodes_int)) i;
  block_map_address = le_value-le_bytes_32 mb.block_map_address (omega (arith, f.block_map_int)) i;
  inode_map_address = le_value-le_bytes_32 mb.inode_map_address (omega (arith, f.inode_map_int)) i;
  root_dir_inode = le_value-le_bytes_32 mb.root_dir_inode (omega (arith, f.root_int)) i;
}

length-master_memory :
    (mb : MasterBlock) (n : ℕ) → length (master_memory mb ++ zeros n) ≡ sizeof_master_block + n
unfolding master_memory
length-master_memory mb n = omega (arith, length-zeros n)

pub Fits-nonnegative : (mb : MasterBlock) → Fits mb → nonnegative mb ≡ true
unfolding nonnegative
Fits-nonnegative mb f =
    ground
      (arith, f.bytes_int, f.blocks_int, f.inodes_int, f.block_map_int, f.inode_map_int, f.root_int)

-- On a valid device with blocks that hold the structure, a master block whose fields fit and
-- whose block size is the device's is written and then read back as it was, and no other block
-- changes.
pub read_master_block-write_master_block :
    (bd : BlockDevice) (mb : MasterBlock) (loc : ℕ)
    → Device.IsValid bd
    → Fits mb
    → mb.bytes_per_block ≡ bd.bytes_per_block
    → sizeof_master_block ≤ bd.bytes_per_block
    → loc < bd.block_count
    → let (done, bd') = write_master_block bd mb loc in
      (done ≡ true)
      × Written bd loc (master_memory mb ++ zeros (mb.bytes_per_block - sizeof_master_block)) bd'
      × (read_master_block bd' loc ≡ ok (some mb))
unfolding write_master_block read_master_block
read_master_block-write_master_block bd mb loc v f same big inside =
    let image = master_memory mb ++ zeros (mb.bytes_per_block - sizeof_master_block) in
    let size = length-master_memory mb (mb.bytes_per_block - sizeof_master_block) in
    let (done, w) = write_block-Written bd loc image v inside (omega arith) in
    let enough : ltb (length image) sizeof_master_block ≡ false = ground arith in
    let back = master_of-master_memory mb (zeros (mb.bytes_per_block - sizeof_master_block)) f in
    (done, w, rw (read_master_block, w.reads_back, back, Fits-nonnegative mb f, enough))
