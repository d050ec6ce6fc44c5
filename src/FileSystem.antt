-- ===== src/FileSystem.antt =====
-- filesystem.h: the mounted file system, with getINode, allocateINode and freeINode. A pointer to an
-- inode of the map is its index; a pointer outside the map is a fault when it is followed.
pub mod Inodes
pub mod Access
use cs.Prelude.{
  ℕ, zero, suc, ◌+◌, ◌<◌, Bool, true, false, not, Option, none, some, List, ◌==◌, ltb,
  if◌then◌else◌, get_elem?, set, length, ◌≡◌,
}
use cs.Prelude.Run.{Run, ok, fault, assert, ◌>>=◌, ◌>>◌}
use cs.Device.{BlockDevice}
use cs.BitSet.{BitSet}
use cs.INode.{INode, allocated_status, free_status, is_free}
use cs.MasterBlock.{MasterBlock}

-- DirectoryEntry of directory_cache.h, with NULL: the children of a directory are a list linked by
-- `next_sibling` and owned by it. The name is its bytes, without the final zero.
pub data DirectoryEntry : Type 0 where
  null : DirectoryEntry
  entry :
      (inode_ptr : ℕ) (name : List ℕ) (is_dirty : Bool)
      (maybe_children next_sibling : DirectoryEntry)
      → DirectoryEntry

-- FileSystem
pub record FileSystem : Type 0 where
  pub block_device : BlockDevice
  pub master_block : MasterBlock
  pub block_map : BitSet
  pub inode_map : List INode
  pub root_dir : DirectoryEntry

-- `*inode`
unfoldable pub inode_at : FileSystem → ℕ → Run INode
inode_at fs i = elim (get_elem? fs.inode_map i) [ none ↦ fault | some x ↦ ok x ]

-- The file system with inode `i` overwritten.
unfoldable pub put_inode : FileSystem → ℕ → INode → FileSystem
put_inode fs i x = record fs { inode_map = set fs.inode_map i x }

-- `getINode`: the pointer, after the check of the index.
unfoldable pub get_inode : FileSystem → ℕ → Run ℕ
get_inode fs i = assert (ltb i fs.master_block.inode_count) >> ok i

-- The loop of `allocateINode` from index `i` on, with the number of rounds left.
unfoldable pub allocate_inode_from : ℕ → FileSystem → ℕ → Run (ℕ × FileSystem)
unfolding inode_at put_inode
allocate_inode_from zero fs i = ok (0, fs)
allocate_inode_from (suc n) fs i =
    let rest = allocate_inode_from n fs (i + 1) in
    inode_at fs i >>= λ x.
    if is_free x.status
    then ok (i, put_inode fs i (record x { status = allocated_status; owner_uid = 0xcafef00d }))
    else rest

-- `allocateINode`
unfoldable pub allocate_inode : FileSystem → Run (ℕ × FileSystem)
unfolding allocate_inode_from
allocate_inode fs = allocate_inode_from fs.master_block.inode_count fs 0

-- `freeINode`, with its two assertions.
unfoldable pub free_inode : FileSystem → ℕ → Run FileSystem
unfolding inode_at put_inode
free_inode fs i = do
  x ← inode_at fs i
  assert (not (is_free x.status))
  assert (x.link_count == 0)
  ok (put_inode fs i (record x { owner_uid = 0xfeedfeed; status = free_status }))

-- The map has the inodes that the master block counts.
pub record HasInodes (fs : FileSystem) : Type 0 where
  pub all_there : fs.master_block.inode_count ≡ length fs.inode_map
