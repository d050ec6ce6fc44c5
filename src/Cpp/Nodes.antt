-- ===== src/Cpp/Nodes.antt =====
-- my_Blocks_c++/header_files/inode.hh and inode.cc: the inodes of the C++ version and their map on the
-- device. Numbers and addresses that the source counts in an `int16_t` wrap as the machine wraps
-- them. The clock is an argument.
pub mod Image
pub mod Transfer
pub mod Padded
pub mod RoundTrip
pub mod Overrun
pub mod Blank
pub mod Allocate
pub mod Address
use cs.Prelude.{
  ℕ, zero, suc, ◌+◌, ◌-◌, ◌*◌, ◌/◌, ◌%◌, ◌^◌, ◌<◌, ◌≡◌, Bool, true, false, Option, none, some, List,
  [], ◌∷◌, ◌++◌, ltb, leb, ◌==◌, if◌then◌else◌, get_elem?, set, length, take, drop, ℤ, pos, negsuc,
  minus_one,
}
use cs.Prelude.Bytes.{le_bytes, le_value, field_at, zeros}
use cs.Prelude.Run.{Run, ok, fault, assert, ◌>>=◌, ◌>>◌}
use cs.Device.{BlockDevice}
use cs.BlockMap.{BlockMap, alloc_block, read_buffer, write_buffer}

-- `int16_t`: the value of a residue modulo 2 ^ 16, and the residue of a value.
abbrev pub short_of_bits : ℕ → ℤ
short_of_bits r = if ltb r (2 ^ 15) then pos r else negsuc (2 ^ 16 - 1 - r)

abbrev pub bits_of_short : ℤ → ℕ
bits_of_short (pos n) = n % 2 ^ 16
bits_of_short (negsuc n) = 2 ^ 16 - 1 - n % 2 ^ 16

-- BLOCK_PTRS_PER_INODE_STRUCT and PADDING_PER_INODE
abbrev pub block_pointers : ℕ
block_pointers = 16

abbrev pub padding_per_inode : ℕ
padding_per_inode = 40

-- inode_type_t, with the values that no enumerator names.
pub data NodeType : Type 0 where
  plain_file directory symlink : NodeType
  other_type : ℕ → NodeType

abbrev pub node_type_value : NodeType → ℕ
node_type_value plain_file = 0
node_type_value directory = 1
node_type_value symlink = 2
node_type_value (other_type n) = n

abbrev pub node_type_of : ℕ → NodeType
node_type_of n =
    if n == 0
    then plain_file
    else if n == 1
    then directory
    else if n == 2
    then symlink
    else other_type n

-- iNode
pub record INode : Type 0 where
  pub inode_num : ℤ
  pub owner_uid : ℕ
  pub gid : ℕ
  pub type : NodeType
  pub perms : ℕ
  pub status : ℕ
  pub link_count : ℕ
  pub cdate : ℕ
  pub mdate : ℕ
  pub level : ℕ
  pub num_bytes : ℕ
  pub block_ptrs : List ℤ
  pub padding : List ℕ

-- sizeof(iNode)
abbrev pub sizeof_node : ℕ
sizeof_node = 128

-- The array of pointers in memory.
unfoldable pub pointers_memory : List ℤ → List ℕ
pointers_memory [] = []
pointers_memory (p ∷ ps) = le_bytes 2 (bits_of_short p) ++ pointers_memory ps

unfoldable pub pointers_of : ℕ → List ℕ → List ℤ
pointers_of zero m = []
pointers_of (suc n) m = short_of_bits (le_value (take 2 m)) ∷ pointers_of n (drop 2 m)

-- The structure in memory, and the structure that a memory holds.
unfoldable pub node_memory : INode → List ℕ
unfolding pointers_memory
node_memory x =
    le_bytes 2 (bits_of_short x.inode_num)
    ++ (zeros 2
        ++ (le_bytes 4 x.owner_uid
            ++ (le_bytes 4 x.gid
                ++ (le_bytes 4 (node_type_value x.type)
                    ++ (le_bytes 2 x.perms
                        ++ (le_bytes 2 x.status
                            ++ (le_bytes 2 x.link_count
                                ++ (zeros 2
                                    ++ (le_bytes 8 x.cdate
                                        ++ (le_bytes 8 x.mdate
                                            ++ (le_bytes 2 x.level
                                                ++ (zeros 6
                                                    ++ (le_bytes 8 x.num_bytes
                                                        ++ (pointers_memory x.block_ptrs
                                                            ++ x.padding))))))))))))))

unfoldable pub node_of : List ℕ → INode
unfolding pointers_of
node_of m = record {
  inode_num = short_of_bits (field_at 0 2 m);
  owner_uid = field_at 4 4 m;
  gid = field_at 8 4 m;
  type = node_type_of (field_at 12 4 m);
  perms = field_at 16 2 m;
  status = field_at 18 2 m;
  link_count = field_at 20 2 m;
  cdate = field_at 24 8 m;
  mdate = field_at 32 8 m;
  level = field_at 40 2 m;
  num_bytes = field_at 48 8 m;
  block_ptrs = pointers_of block_pointers (drop 56 m);
  padding = drop 88 m;
}

-- The memory of the array my_nodes, and the array that a memory of `n` inodes holds.
unfoldable pub nodes_memory : List INode → List ℕ
unfolding node_memory
nodes_memory [] = []
nodes_memory (x ∷ xs) = node_memory x ++ nodes_memory xs

unfoldable pub nodes_of : ℕ → List ℕ → List INode
unfolding node_of
nodes_of zero m = []
nodes_of (suc n) m = node_of (take sizeof_node m) ∷ nodes_of n (drop sizeof_node m)

-- What `calloc` makes of the array.
abbrev pub null_pointers : ℕ → List ℤ
null_pointers zero = []
null_pointers (suc n) = pos 0 ∷ null_pointers n

abbrev pub blank_node : INode
blank_node = record {
  inode_num = pos 0;
  owner_uid = 0;
  gid = 0;
  type = plain_file;
  perms = 0;
  status = 0;
  link_count = 0;
  cdate = 0;
  mdate = 0;
  level = 0;
  num_bytes = 0;
  block_ptrs = null_pointers 16;
  padding = zeros 40;
}

abbrev pub blank_nodes : ℕ → List INode
blank_nodes zero = []
blank_nodes (suc n) = blank_node ∷ blank_nodes n

-- `allocateiNodeMap` with the constructor. The iNodeMap, a pointer of eight bytes, is built in a
-- memory of one byte more than the inodes take.
unfoldable pub allocate_inode_map : ℕ → Run (List INode)
allocate_inode_map num_inodes =
    assert (ltb 7 (num_inodes * sizeof_node + 1)) >> ok (blank_nodes num_inodes)

-- `disk_address + i`
unfoldable pub block_after : ℤ → ℕ → ℤ
block_after (pos a) i = pos (a + i)
block_after (negsuc a) i = if leb i a then negsuc (a - i) else pos (i - a - 1)

-- The loop of `writeiNodeMap` from block `i` on, with the rounds left. A block that is not whole in
-- the array is a fault.
unfoldable pub store_nodes : ℕ → BlockDevice → List ℕ → ℤ → ℕ → ℕ → Run BlockDevice
unfolding write_buffer block_after
store_nodes zero bd memory disk_address ipb i = ok bd
store_nodes (suc n) bd memory disk_address ipb i =
    let offset = i * ipb * sizeof_node in
    let buf = take bd.bytes_per_block (drop offset memory) in
    assert (leb (offset + bd.bytes_per_block) (length memory))
    >> (write_buffer bd (block_after disk_address i) buf >>= λ bd'.
        store_nodes n bd' memory disk_address ipb (i + 1))

-- The loop of `readiNodeMap` from block `i` on, with the rounds left: the memory of the array.
unfoldable pub load_nodes : ℕ → BlockDevice → List ℕ → ℤ → ℕ → ℕ → Run (List ℕ)
unfolding read_buffer block_after
load_nodes zero bd memory disk_address ipb i = ok memory
load_nodes (suc n) bd memory disk_address ipb i =
    let offset = i * ipb * sizeof_node in
    let buf = take bd.bytes_per_block (drop offset memory) in
    assert (leb (offset + bd.bytes_per_block) (length memory))
    >> (read_buffer bd (block_after disk_address i) buf >>= λ got.
        load_nodes n bd (take offset memory ++ (got ++ drop (offset + bd.bytes_per_block) memory))
          disk_address ipb (i + 1))

-- `ipb` and `blks`. A division by zero is a fault.
abbrev pub nodes_per_block : ℕ → ℕ
nodes_per_block bytes_per_block = bytes_per_block / sizeof_node

abbrev pub blocks_for : ℕ → ℕ → ℕ
blocks_for num_inodes ipb = num_inodes / ipb + (if num_inodes % ipb == 0 then 0 else 1)

-- `writeiNodeMap`: the device after it.
unfoldable pub write_inode_map : BlockDevice → List INode → ℕ → ℕ → Run BlockDevice
unfolding store_nodes nodes_memory
write_inode_map bd inode_map disk_address num_inodes =
    let ipb = nodes_per_block bd.bytes_per_block in
    assert (ltb 0 ipb)
    >> store_nodes (blocks_for num_inodes ipb) bd (nodes_memory inode_map)
        (short_of_bits (disk_address % 2 ^ 16)) ipb 0

-- `readiNodeMap` into an array: the array after it.
unfoldable pub read_inode_map : BlockDevice → List INode → ℕ → ℕ → Run (List INode)
unfolding load_nodes nodes_memory nodes_of
read_inode_map bd inode_map disk_address num_inodes =
    let ipb = nodes_per_block bd.bytes_per_block in
    assert (ltb 0 ipb)
    >> (load_nodes (blocks_for num_inodes ipb) bd (nodes_memory inode_map)
          (short_of_bits (disk_address % 2 ^ 16)) ipb 0
        >>= λ memory. ok (nodes_of (length inode_map) memory))

-- `my_nodes[i]`
unfoldable pub node_at : List INode → ℕ → Run INode
node_at m i = elim (get_elem? m i) [ none ↦ fault | some x ↦ ok x ]

-- The loop of `allocateiNode` from index `i` on, with the rounds left.
unfoldable pub find_node : ℕ → List INode → ℕ → ℕ → Run (ℤ × List INode)
unfolding node_at
find_node zero m now i = ok (minus_one, m)
find_node (suc n) m now i =
    let rest = find_node n m now (i + 1) in
    node_at m i >>= λ x.
    if x.status == 0 then ok (pos i, set m i (record x { status = 1; mdate = now })) else rest

-- `allocateiNode`
unfoldable pub allocate_inode : List INode → ℕ → ℕ → Run (ℤ × List INode)
unfolding find_node
allocate_inode m amnt now = find_node amnt m now 0

-- `freeiNode`
unfoldable pub free_inode : List INode → ℕ → Run (List INode)
unfolding node_at
free_inode m inode_to_free =
    node_at m inode_to_free >>= λ x. ok (set m inode_to_free (record x { status = 0 }))

-- `setiNode`
unfoldable pub set_inode : List INode → ℕ → Run (List INode)
unfolding node_at
set_inode m i = node_at m i >>= λ x. ok (set m i (record x { status = 1 }))
