-- ===== src/MasterBlock.antt =====
-- master_block.h and master_block.c. The `int` fields are the ones that are not negative; a device
-- whose master block holds a negative one is outside the model, and reading it is a fault.
pub mod Image
use cs.Prelude.{
  ℕ, ◌+◌, ◌-◌, ◌<◌, ◌^◌, Bool, true, false, ◌&&◌, Option, none, some, List, ◌++◌, ◌==◌, ltb,
  if◌then◌else◌, length, pos,
}
use cs.Prelude.Bytes.{le_bytes, field_at, zeros}
use cs.Prelude.Run.{Run, ok, fault, assert, ◌>>=◌, ◌>>◌}
use cs.Device.{
  Entry, BlockDevice, open_block_device, setup_block_device, read_first_bytes, read_block,
  write_block,
}

-- MY_MAGIC
abbrev pub my_magic : ℕ
my_magic = 0xF00DCAFE

-- sizeof(MasterBlock)
abbrev pub sizeof_master_block : ℕ
sizeof_master_block = 32

-- MasterBlock
pub record MasterBlock : Type 0 where
  pub magic_number : ℕ
  pub bytes_per_block : ℕ
  pub block_count : ℕ
  pub inode_count : ℕ
  pub block_map_address : ℕ
  pub inode_map_address : ℕ
  pub root_dir_inode : ℕ

-- `allocMasterBlock`; a block of memory shorter than the structure is overrun.
unfoldable pub alloc_master_block : ℕ → ℕ → ℕ → Run MasterBlock
alloc_master_block bytes_per_block block_count block_map_address =
    assert (ltb 0 bytes_per_block)
    >> (if ltb bytes_per_block sizeof_master_block
        then fault
        else ok (record {
          magic_number = my_magic;
          bytes_per_block = bytes_per_block;
          block_count = block_count;
          inode_count = 0;
          block_map_address = block_map_address;
          inode_map_address = 0;
          root_dir_inode = 0;
        }))

-- The structure in memory, and the structure that the first bytes of a memory hold.
unfoldable pub master_memory : MasterBlock → List ℕ
master_memory mb =
    le_bytes 8 mb.magic_number
    ++ (le_bytes 4 mb.bytes_per_block
        ++ (le_bytes 4 mb.block_count
            ++ (le_bytes 4 mb.inode_count
                ++ (le_bytes 4 mb.block_map_address
                    ++ (le_bytes 4 mb.inode_map_address ++ le_bytes 4 mb.root_dir_inode)))))

unfoldable pub master_of : List ℕ → MasterBlock
master_of m = record {
  magic_number = field_at 0 8 m;
  bytes_per_block = field_at 8 4 m;
  block_count = field_at 12 4 m;
  inode_count = field_at 16 4 m;
  block_map_address = field_at 20 4 m;
  inode_map_address = field_at 24 4 m;
  root_dir_inode = field_at 28 4 m;
}

abbrev pub fits_int : ℕ → Bool
fits_int n = ltb n (2 ^ 31)

-- No field is negative.
unfoldable pub nonnegative : MasterBlock → Bool
nonnegative mb =
    fits_int mb.bytes_per_block
    && fits_int mb.block_count
    && fits_int mb.inode_count
    && fits_int mb.block_map_address
    && fits_int mb.inode_map_address
    && fits_int mb.root_dir_inode

-- `bootstrapDevice`: none is NULL. A device that does not open is read through a NULL pointer before
-- the test for it.
unfoldable pub bootstrap_device : Entry → Run (Option BlockDevice)
bootstrap_device e = elim (open_block_device e) [
  | none ↦ fault
  | some bd ↦
      let got = read_first_bytes bd sizeof_master_block in
      let temp_master = master_of got in
      if length got == sizeof_master_block
      then (if temp_master.magic_number == my_magic
          then (assert (nonnegative temp_master)
              >> ok (
                  some (setup_block_device bd temp_master.block_count temp_master.bytes_per_block)))
          else ok none)
      else ok none
]

-- `readMasterBlock`: none is NULL. A block shorter than the structure is overrun by the reader.
unfoldable pub read_master_block : BlockDevice → ℕ → Run (Option MasterBlock)
read_master_block bd mbloc =
    let (done, got) = read_block bd (pos mbloc) in
    if done
    then (assert (nonnegative (master_of got))
        >> (if ltb (length got) sizeof_master_block then fault else ok (some (master_of got))))
    else ok none

-- `writeMasterBlock`: the structure stands in front of a zeroed block of memory.
unfoldable pub write_master_block : BlockDevice → MasterBlock → ℕ → Bool × BlockDevice
write_master_block bd mb mbloc =
    write_block bd (pos mbloc)
      (master_memory mb ++ zeros (mb.bytes_per_block - sizeof_master_block))

-- The fields fit in their C types.
pub record Fits (mb : MasterBlock) : Type 0 where
  pub magic_u64 : mb.magic_number < 2 ^ 64
  pub bytes_int : mb.bytes_per_block < 2 ^ 31
  pub blocks_int : mb.block_count < 2 ^ 31
  pub inodes_int : mb.inode_count < 2 ^ 31
  pub block_map_int : mb.block_map_address < 2 ^ 31
  pub inode_map_int : mb.inode_map_address < 2 ^ 31
  pub root_int : mb.root_dir_inode < 2 ^ 31
