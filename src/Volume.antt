-- ===== src/Volume.antt =====
-- filesystem.c: newfs, mount and unmount.
pub mod Reserve
pub mod Rooted
pub mod Bootstrap
pub mod Mounting
pub mod Fresh
pub mod Making
use cs.Prelude.{
  ℕ, zero, suc, ◌+◌, ◌*◌, ◌<◌, ◌≤◌, Bool, true, false, ◌&&◌, Option, none, some, List, [], ltb, leb,
  if◌then◌else◌, ℤ, pos, negsuc,
}
use cs.Prelude.Run.{Run, ok, fault, assert, ◌>>=◌, ◌>>◌}
use cs.Device.{Entry, regular, BlockDevice, create_block_device, close_block_device}
use cs.BitSet.{
  BitSet, alloc_bit_set, allocate_block, get_blocks_in_block_map, read_block_map, write_block_map,
}
use cs.INode.{
  INode, directory_type, sizeof_inode, allocate_inode_map, blocks_in_inode_map, write_inode_map,
  read_inode_map,
}
use cs.MasterBlock.{
  MasterBlock, alloc_master_block, bootstrap_device, read_master_block, write_master_block,
  sizeof_master_block,
}
use cs.FileSystem.{FileSystem, DirectoryEntry, null, inode_at, put_inode, get_inode, allocate_inode}
use cs.Directory.{add_root, flush_directory_cache}

-- The loop of `newfs` that takes the first blocks, each with its assertion.
unfoldable pub reserve : ℕ → BitSet → Run BitSet
reserve zero b = ok b
reserve (suc n) b = allocate_block b >>= λ r. elim r.0 [ negsuc z ↦ fault | pos i ↦ reserve n r.1 ]

-- How many blocks `newfs` reserves: the master block, the block map and the inode map.
unfoldable pub prealloc_blocks : BlockDevice → ℕ → ℕ
prealloc_blocks bd inode_count =
    get_blocks_in_block_map bd + 1 + blocks_in_inode_map inode_count bd.bytes_per_block

-- The allocation of the root directory by `newfs`.
unfoldable pub make_root : FileSystem → Run FileSystem
make_root fs = do
  (root, fs1) ← allocate_inode fs
  i ← get_inode fs1 root
  x ← inode_at fs1 i
  let fs2 = add_root (put_inode fs1 i (record x { type = directory_type })) i
  ok (record fs2 { master_block = record fs2.master_block { root_dir_inode = root } })

-- The end of `newfs`: what is written, and whether it returns 0. The device is closed at the end of
-- the path that succeeds only; the host's file is what the device holds either way.
unfoldable pub write_out : FileSystem → ℕ → Run (Bool × Entry)
write_out fs inode_count =
    let (mb_ok, bd1) = write_master_block fs.block_device fs.master_block 0 in
    if mb_ok
    then (write_block_map bd1 fs.block_map 1 >>= λ m.
        if m.0
        then (write_inode_map m.1 fs.inode_map fs.master_block.inode_map_address inode_count
            >>= λ w.
                if w.0
                then (flush_directory_cache (record fs { block_device = w.1 }) fs.root_dir >>= λ f.
                    ok (true, (close_block_device f.1.block_device).1))
                else ok (false, regular w.1.device_handle))
        else ok (false, regular m.1.device_handle))
    else ok (false, regular bd1.device_handle)

-- `newfs` behind the creation of the device.
unfoldable pub format : BlockDevice → ℕ → Run (Bool × Entry)
format bd inode_count =
    let failed : Run (Bool × Entry) = ok (false, regular bd.device_handle) in
    if ltb bd.bytes_per_block sizeof_master_block
    then failed
    else (if ltb bd.bytes_per_block sizeof_inode then failed else (do
      mb ← alloc_master_block bd.bytes_per_block bd.block_count 1
      let bs = alloc_bit_set bd.block_count bd.bytes_per_block
      inm ← allocate_inode_map inode_count true
      let n = prealloc_blocks bd inode_count
      if leb bd.block_count n then failed else (do
        bs' ← reserve n bs
        fs ← make_root (record {
          block_device = bd;
          master_block = record mb {
            inode_count = inode_count;
            inode_map_address = get_blocks_in_block_map bd + 1;
          };
          block_map = bs';
          inode_map = inm;
          root_dir = null;
        })
        write_out fs inode_count)))

-- `newfs`: whether it returns 0, and what the host has under the name then.
unfoldable pub newfs : Entry → ℕ → ℕ → ℕ → Run (Bool × Entry)
newfs host block_size block_count inode_count =
    let (made, host') = create_block_device host block_size block_count in
    elim made [ none ↦ ok (false, host') | some bd ↦ format bd inode_count ]

-- `mount` behind the master block and the block map: `root` is where the inode map is read to.
unfoldable pub load_inodes : BlockDevice → MasterBlock → BitSet → Run FileSystem
load_inodes bd mb map = do
  assert (ltb 0 mb.inode_count)
  assert (ltb 1 mb.inode_map_address)
  blank ← allocate_inode_map mb.inode_count false
  got ← read_inode_map bd mb.inode_map_address mb.inode_count
  elim got [
    | none ↦ fault
    | some inm ↦
        let fs : FileSystem = record {
          block_device = bd;
          master_block = mb;
          block_map = map;
          inode_map = inm;
          root_dir = null;
        } in
        get_inode fs mb.root_dir_inode >>= λ i. ok (add_root fs i)
  ]

-- `mount`. On each of its failures it sets its result to NULL and then follows it: a fault.
unfoldable pub mount : Entry → Run FileSystem
mount host = do
  device ← bootstrap_device host
  elim device [
    | none ↦ fault
    | some bd ↦ read_master_block bd 0 >>= λ master. elim master [
      | none ↦ fault
      | some mb ↦
          read_block_map bd 1 >>= λ map. elim map [ none ↦ fault | some b ↦ load_inodes bd mb b ]
    ]
  ]

-- `unmount`: whether it reports success, and what the host has then.
unfoldable pub unmount : FileSystem → Run (Bool × Entry)
unmount fs = do
  (root, fs1) ← flush_directory_cache fs fs.root_dir
  (wrote_map, bd1) ← write_block_map fs1.block_device fs1.block_map 1
  (wrote_inodes, bd2) ←
      write_inode_map bd1 fs1.inode_map fs1.master_block.inode_map_address
        fs1.master_block.inode_count
  let (closed, host) = close_block_device bd2
  ok (wrote_map && closed && wrote_inodes, host)
