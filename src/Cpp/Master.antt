-- ===== src/Cpp/Master.antt =====
-- my_Blocks_c++/header_files/master_block.hh and master_block.cc. Sizes and counts are the `int`s that
-- are not negative.
pub mod Layout
use cs.Prelude.{ℕ, zero, suc, ◌+◌, ◌-◌, ◌*◌, ◌/◌, min, List, ◌++◌, ltb, if◌then◌else◌, pos, take}
use cs.Prelude.Bytes.{le_bytes}
use cs.Prelude.Run.{Run, ok, fault, ◌>>=◌}
use cs.Device.{BlockDevice}
use cs.BlockMap.{read_buffer, write_buffer}

-- The initial value of magic_number, which nothing changes.
abbrev pub magic_number : ℕ
magic_number = 0xDEEDFEED

-- sizeof(MasterBlock)
abbrev pub sizeof_master_block : ℕ
sizeof_master_block = 32

-- MasterBlock
pub record MasterBlock : Type 0 where
  pub bytes_per_block : ℕ
  pub block_count : ℕ
  pub inode_cnt : ℕ
  pub protect : ℕ
  pub disk_address : ℕ
  pub disk_address_inode_map : ℕ

-- The loop of the constructor, with the rounds that it may take: a loop that takes more counts
-- protect up without an end, past what an `int` holds.
unfoldable pub count_protect : ℕ → ℕ → ℕ → ℕ → Run ℕ
count_protect zero number_of_blocks bytes_per_block protect =
    if ltb 0 number_of_blocks then fault else ok protect
count_protect (suc n) number_of_blocks bytes_per_block protect =
    let rest = count_protect n (number_of_blocks - bytes_per_block) bytes_per_block (protect + 1) in
    if ltb 0 number_of_blocks then rest else ok protect

-- iNodeCnt. Where nodeCap is negative the product is not positive, and the last test gives 0.
unfoldable pub node_count : ℕ → ℕ → ℕ → ℕ
node_count bytes_per_block block_count protect =
    if ltb block_count (protect + 1)
    then 0
    else min ((block_count - (protect + 1)) / 4 * (bytes_per_block / 128)) 128

-- `allocMasterBlock` with the constructor. The structure is built in a memory of one byte more than a
-- block has.
unfoldable pub alloc_master_block : ℕ → ℕ → ℕ → Run MasterBlock
unfolding count_protect node_count
alloc_master_block bytes_per_block number_of_blocks block_map_address =
    if ltb (bytes_per_block + 1) sizeof_master_block
    then fault
    else (count_protect number_of_blocks number_of_blocks bytes_per_block 0 >>= λ protect.
        ok (record {
          bytes_per_block = bytes_per_block;
          block_count = number_of_blocks;
          inode_cnt = node_count bytes_per_block number_of_blocks protect;
          protect = protect;
          disk_address = block_map_address;
          disk_address_inode_map = block_map_address + protect;
        }))

-- The structure in memory.
unfoldable pub master_memory : MasterBlock → List ℕ
master_memory mb =
    le_bytes 8 magic_number
    ++ (le_bytes 4 mb.bytes_per_block
        ++ (le_bytes 4 mb.block_count
            ++ (le_bytes 4 mb.inode_cnt
                ++ (le_bytes 4 mb.protect
                    ++ (le_bytes 4 mb.disk_address ++ le_bytes 4 mb.disk_address_inode_map)))))

-- `writeMasterBlock`, with what stands behind the structure in its memory: the device after it. A
-- block of bytes is written from where the structure begins.
unfoldable pub write_master_block : BlockDevice → MasterBlock → ℕ → List ℕ → Run BlockDevice
unfolding write_buffer master_memory
write_master_block bd mb disk_location behind =
    write_buffer bd (pos disk_location) (take bd.bytes_per_block (master_memory mb ++ behind))

-- `readMasterBlock`, with what stands in its buffer before: the result, and the structure of the
-- caller. The block is read into the buffer, which is then left behind; the buffer is not where the
-- structure is.
unfoldable pub read_master_block : BlockDevice → MasterBlock → ℕ → List ℕ → Run (ℕ × MasterBlock)
unfolding read_buffer
read_master_block bd mb disk_location before =
    read_buffer bd (pos disk_location) before >>= λ readbuff. ok (0, mb)
