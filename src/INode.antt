-- ===== src/INode.antt =====
-- inode.h and inode.c: the inode structure, its image in memory, and the map of all inodes.
pub mod Image
pub mod Map
pub mod Transfer
use cs.Prelude.{
  ℕ, zero, suc, ◌+◌, ◌-◌, ◌*◌, ◌<◌, ◌≡◌, Bool, true, false, Option, none, some, List, [], ◌∷◌, ◌++◌,
  ◌==◌, ltb, if◌then◌else◌, length, ℤ, pos, negsuc, IsInt, int_of_bits, bits_of_int, ◌^◌, take,
  drop,
}
use cs.Prelude.Bytes.{le_bytes, le_value, field_at, zeros}
use cs.Prelude.Run.{Run, ok, fault, assert, ◌>>=◌, ◌>>◌}
use cs.Device.{BlockDevice}
use cs.Device.Blocks.{write_blocks, read_blocks}
use cs.BitSet.{ceil_div}

-- BLOCK_PTRS_PER_INODE_STRUCT
abbrev pub block_ptrs_per_inode : ℕ
block_ptrs_per_inode = 16

-- INodeStatus, with the values that no enumerator names.
pub data InodeStatus : Type 0 where
  unused_status allocated_status free_status : InodeStatus
  other_status : ℕ → InodeStatus

-- INodeType, with the values that no enumerator names.
pub data InodeType : Type 0 where
  unused_type file_type directory_type symlink_type pipe_type : InodeType
  other_type : ℕ → InodeType

-- INode
pub record INode : Type 0 where
  pub inode_num : ℤ
  pub owner_uid : ℕ
  pub gid : ℕ
  pub type : InodeType
  pub perms : ℕ
  pub status : InodeStatus
  pub link_count : ℕ
  pub cdate : ℕ
  pub mdate : ℕ
  pub level : ℕ
  pub num_bytes : ℕ
  pub block_ptrs : List ℤ

-- The values of the enumerators.
abbrev pub status_value : InodeStatus → ℕ
status_value unused_status = 0
status_value allocated_status = 1
status_value free_status = 2
status_value (other_status n) = n

abbrev pub status_of : ℕ → InodeStatus
status_of n =
    if n == 0
    then unused_status
    else if n == 1
    then allocated_status
    else if n == 2
    then free_status
    else other_status n

abbrev pub type_value : InodeType → ℕ
type_value unused_type = 0
type_value file_type = 1
type_value directory_type = 2
type_value symlink_type = 3
type_value pipe_type = 4
type_value (other_type n) = n

abbrev pub type_of : ℕ → InodeType
type_of n =
    if n == 0
    then unused_type
    else if n == 1
    then file_type
    else if n == 2
    then directory_type
    else if n == 3
    then symlink_type
    else if n == 4
    then pipe_type
    else other_type n

abbrev pub is_free : InodeStatus → Bool
is_free s = status_value s == 2

abbrev pub is_directory : InodeType → Bool
is_directory t = type_value t == 2

-- sizeof(INode), with the padding of a 64-bit target.
abbrev pub sizeof_inode : ℕ
sizeof_inode = 128

-- The block pointers as bytes, and back.
unfoldable pub ptrs_memory : List ℤ → List ℕ
ptrs_memory [] = []
ptrs_memory (p ∷ ps) = le_bytes 4 (bits_of_int p) ++ ptrs_memory ps

unfoldable pub ptrs_of : ℕ → List ℕ → List ℤ
ptrs_of zero memory = []
ptrs_of (suc n) memory = int_of_bits (le_value (take 4 memory)) ∷ ptrs_of n (drop 4 memory)

-- The inode as it lies in memory; padding is zero, as `calloc` left it.
unfoldable pub inode_memory : INode → List ℕ
unfolding ptrs_memory
inode_memory x =
    le_bytes 4 (bits_of_int x.inode_num)
    ++ (le_bytes 4 x.owner_uid
        ++ (le_bytes 4 x.gid
            ++ (le_bytes 4 (type_value x.type)
                ++ (le_bytes 2 x.perms
                    ++ (zeros 2
                        ++ (le_bytes 4 (status_value x.status)
                            ++ (le_bytes 2 x.link_count
                                ++ (zeros 6
                                    ++ (le_bytes 8 x.cdate
                                        ++ (le_bytes 8 x.mdate
                                            ++ (le_bytes 2 x.level
                                                ++ (zeros 6
                                                    ++ (le_bytes 8 x.num_bytes
                                                        ++ ptrs_memory x.block_ptrs)))))))))))))

unfoldable pub inode_of : List ℕ → INode
unfolding ptrs_of
inode_of m = record {
  inode_num = int_of_bits (field_at 0 4 m);
  owner_uid = field_at 4 4 m;
  gid = field_at 8 4 m;
  type = type_of (field_at 12 4 m);
  perms = field_at 16 2 m;
  status = status_of (field_at 20 4 m);
  link_count = field_at 24 2 m;
  cdate = field_at 32 8 m;
  mdate = field_at 40 8 m;
  level = field_at 48 2 m;
  num_bytes = field_at 56 8 m;
  block_ptrs = ptrs_of block_ptrs_per_inode (drop 64 m);
}

-- The memory of an array of inodes, and the array that a memory of `n` inodes holds.
unfoldable pub map_memory : List INode → List ℕ
unfolding inode_memory
map_memory [] = []
map_memory (x ∷ xs) = inode_memory x ++ map_memory xs

unfoldable pub map_of : ℕ → List ℕ → List INode
unfolding inode_of
map_of zero m = []
map_of (suc n) m = inode_of (take sizeof_inode m) ∷ map_of n (drop sizeof_inode m)

-- What `calloc` makes of an inode, and what `allocateINodeMap` makes of the `i`-th one.
abbrev pub null_ptrs : ℕ → List ℤ
null_ptrs zero = []
null_ptrs (suc n) = pos 0 ∷ null_ptrs n

abbrev pub blank_inode : INode
blank_inode = record {
  inode_num = pos 0;
  owner_uid = 0;
  gid = 0;
  type = unused_type;
  perms = 0;
  status = unused_status;
  link_count = 0;
  cdate = 0;
  mdate = 0;
  level = 0;
  num_bytes = 0;
  block_ptrs = null_ptrs 16;
}

abbrev pub fresh_inode : ℕ → INode
fresh_inode i = record blank_inode {
  inode_num = pos i;
  status = free_status;
  owner_uid = 0x1337f337;
}

-- The loop of `allocateINodeMap`, from index `i` on.
abbrev pub fresh_from : ℕ → ℕ → List INode
fresh_from zero i = []
fresh_from (suc n) i = fresh_inode i ∷ fresh_from n (i + 1)

abbrev pub blanks : ℕ → List INode
blanks zero = []
blanks (suc n) = blank_inode ∷ blanks n

-- `allocateINodeMap`
unfoldable pub allocate_inode_map : ℕ → Bool → Run (List INode)
allocate_inode_map num_inodes init =
    assert (ltb 1 num_inodes) >> ok (if init then fresh_from num_inodes 0 else blanks num_inodes)

-- How many blocks `writeINodeMap` and `readINodeMap` move.
abbrev pub blocks_in_inode_map : ℕ → ℕ → ℕ
blocks_in_inode_map inode_count bytes = ceil_div (inode_count * sizeof_inode) bytes

-- `writeINodeMap`: whether it returns 0, and the device after it.
unfoldable pub write_inode_map : BlockDevice → List INode → ℕ → ℕ → Run (Bool × BlockDevice)
unfolding write_blocks map_memory
write_inode_map bd inm disk_addr inode_count =
    write_blocks (blocks_in_inode_map inode_count bd.bytes_per_block) bd disk_addr (map_memory inm)

-- `readINodeMap` into an array of `inode_count` inodes, which the blocks read fill whole or overrun;
-- `none` is the return value -1.
unfoldable pub read_inode_map : BlockDevice → ℕ → ℕ → Run (Option (List INode))
unfolding read_blocks map_of
read_inode_map bd disk_addr inode_count =
    read_blocks (blocks_in_inode_map inode_count bd.bytes_per_block) bd disk_addr
      (inode_count * sizeof_inode)
    >>= λ got. ok (elim got [ none ↦ none | some memory ↦ some (map_of inode_count memory) ])

-- The fields fit in their C types, and an inode has its sixteen pointers.
pub record Fits (x : INode) : Type 0 where
  pub num_int : IsInt x.inode_num
  pub owner_u32 : x.owner_uid < 2 ^ 32
  pub gid_u32 : x.gid < 2 ^ 32
  pub type_named : type_of (type_value x.type) ≡ x.type
  pub type_u32 : type_value x.type < 2 ^ 32
  pub perms_u16 : x.perms < 2 ^ 16
  pub status_named : status_of (status_value x.status) ≡ x.status
  pub status_u32 : status_value x.status < 2 ^ 32
  pub links_u16 : x.link_count < 2 ^ 16
  pub cdate_u64 : x.cdate < 2 ^ 64
  pub mdate_u64 : x.mdate < 2 ^ 64
  pub level_u16 : x.level < 2 ^ 16
  pub bytes_u64 : x.num_bytes < 2 ^ 64
  pub ptrs : length x.block_ptrs ≡ block_ptrs_per_inode
