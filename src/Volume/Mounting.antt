-- ===== src/Volume/Mounting.antt =====
-- filesystem.c: the end of newfs, and mount of what it wrote.
use cs.Prelude.{
  ℕ, zero, suc, ◌+◌, ◌-◌, ◌*◌, ◌%◌, ◌≤◌, ◌<◌, ◌≡◌, ap, ap₂, sym, ◌∙◌, subst, true, some, List,
  arith, length, take, pos, inl, IsInt, ltb,
}
use cs.Prelude.Run.{ok}
use cs.Device
use cs.Device.{
  Entry, File, BlockDevice, regular, window, read_block, read_at, read_first_bytes,
  setup_block_device, open_block_device, open_existing, close_block_device,
}
use cs.MasterBlock
use cs.MasterBlock.{
  MasterBlock, my_magic, sizeof_master_block, master_memory, master_of, nonnegative,
  bootstrap_device, read_master_block, write_master_block,
}
use cs.MasterBlock.Image.{read_master_block-write_master_block}
use cs.BitSet.{
  BitSet, header_bytes, bitset_magic_number, get_blocks_in_block_map, read_block_map,
  write_block_map,
}
use cs.BitSet.Persist.{same_map_blocks, map_bytes, read_block_map-write_block_map}
use cs.INode.{
  INode, sizeof_inode, blocks_in_inode_map, write_inode_map, read_inode_map, allocate_inode_map,
}
use cs.INode.Map.{AllFit}
use cs.INode.Transfer.{read_inode_map-write_inode_map}
use cs.FileSystem.{FileSystem, null, get_inode}
use cs.Directory.{add_root, flush_directory_cache, flush_at, write_directory, any_dirty}
use cs.Volume.{write_out, load_inodes, mount}
use cs.Volume.Bootstrap.{bootstrap_device-ok, read_block_map-same, read_master_block-same}

-- What newfs has put together for a device, so that it can be written and mounted.
pub record IsMountable (fs : FileSystem) : Type 0 where
  pub device : Device.IsValid fs.block_device
  pub master : MasterBlock.Fits fs.master_block
  pub magic : fs.master_block.magic_number ≡ my_magic
  pub count : fs.master_block.block_count ≡ fs.block_device.block_count
  pub bytes : fs.master_block.bytes_per_block ≡ fs.block_device.bytes_per_block
  pub big : sizeof_master_block ≤ fs.block_device.bytes_per_block
  pub map_magic : fs.block_map.bitset_magic ≡ bitset_magic_number
  pub map_int : IsInt fs.block_map.count
  pub map_low : header_bytes ≤ map_bytes fs.block_device
  pub map_high : map_bytes fs.block_device ≤ header_bytes + length fs.block_map.bytes
  pub inodes : AllFit fs.inode_map
  pub some_inodes : 1 < length fs.inode_map
  pub inode_count : fs.master_block.inode_count ≡ length fs.inode_map
  pub whole : (length fs.inode_map * sizeof_inode) % fs.block_device.bytes_per_block ≡ 0
  pub address : fs.master_block.inode_map_address ≡ 1 + get_blocks_in_block_map fs.block_device
  pub room :
      1
        + get_blocks_in_block_map fs.block_device
        + blocks_in_inode_map (length fs.inode_map) fs.block_device.bytes_per_block
      ≤ fs.block_device.block_count
  pub root : fs.master_block.root_dir_inode < fs.master_block.inode_count

-- The file system that mount finds: the block map is cut off at its blocks, and the cache holds the
-- root alone.
abbrev pub mounted : FileSystem → BlockDevice → FileSystem
mounted fs bd =
    add_root
      (record fs {
        block_device = bd;
        block_map = record fs.block_map {
          bytes = take (map_bytes fs.block_device - header_bytes) fs.block_map.bytes;
        };
        root_dir = null;
      })
      fs.master_block.root_dir_inode

load_inodes-ok :
    (bd : BlockDevice) (mb : MasterBlock) (map : BitSet) (inm : List INode)
    → 1 < mb.inode_count
    → 1 < mb.inode_map_address
    → mb.root_dir_inode < mb.inode_count
    → read_inode_map bd mb.inode_map_address mb.inode_count ≡ ok (some inm)
    → load_inodes bd mb map
      ≡ ok (
          add_root
            (record {
              block_device = bd;
              master_block = mb;
              block_map = map;
              inode_map = inm;
              root_dir = null;
            })
            mb.root_dir_inode)
unfolding load_inodes allocate_inode_map get_inode
load_inodes-ok bd mb map inm several address root read =
    let a : ltb 0 mb.inode_count ≡ true = ground arith in
    let b : ltb 1 mb.inode_map_address ≡ true = ground arith in
    let c : ltb 1 mb.inode_count ≡ true = ground arith in
    let d : ltb mb.root_dir_inode mb.inode_count ≡ true = ground arith in
    rw (load_inodes, a, b, c, read, d)

mount-of_reads :
    (host : Entry) (bd : BlockDevice) (mb : MasterBlock) (map : BitSet) {fs : FileSystem}
    → bootstrap_device host ≡ ok (some bd)
    → read_master_block bd 0 ≡ ok (some mb)
    → read_block_map bd 1 ≡ ok (some map)
    → load_inodes bd mb map ≡ ok fs
    → mount host ≡ ok fs
unfolding mount
mount-of_reads host bd mb map boot master blocks rest = rw (mount, boot, master, blocks) rest

-- The end of newfs, where its three writes succeed and the cache holds a fresh root alone.
write_out-runs :
    (fs : FileSystem) (i count : ℕ) {bd2 bd3 : BlockDevice}
    → (write_master_block fs.block_device fs.master_block 0).0 ≡ true
    → write_block_map (write_master_block fs.block_device fs.master_block 0).1 fs.block_map 1
      ≡ ok (true, bd2)
    → write_inode_map bd2 fs.inode_map fs.master_block.inode_map_address count ≡ ok (true, bd3)
    → write_out (add_root fs i) count ≡ ok (true, regular bd3.device_handle)
unfolding write_out add_root flush_directory_cache flush_at write_directory any_dirty
    close_block_device
write_out-runs fs i count one two three = rw (write_out, one, two, three)

-- The end of newfs, what mount finds then, and the device that it is found on: it is valid and has the
-- blocks of the one that was written.
pub write_out-mounts :
    (fs : FileSystem) (i : ℕ)
    → IsMountable fs
    → (bd : BlockDevice) × (write_out (add_root fs i) (length fs.inode_map)
        ≡ ok (true, regular bd.device_handle))
      × (mount (regular bd.device_handle) ≡ ok (mounted fs bd))
      × Device.IsValid bd
      × (bd.block_count ≡ fs.block_device.block_count)
      × (bd.bytes_per_block ≡ fs.block_device.bytes_per_block)
unfolding add_root
write_out-mounts fs i v =
    let bd = fs.block_device in
    let mb = fs.master_block in
    let inm = fs.inode_map in
    let nb = get_blocks_in_block_map bd in
    let some_map : 0 < nb = some_blocks nb bd.bytes_per_block v.map_low in
    let room = v.room in
    let (done, w, master) =
      read_master_block-write_master_block bd mb 0 v.device v.master v.bytes v.big (omega arith) in
    let bd1 = (write_master_block bd mb 0).1 in
    let nb1 : get_blocks_in_block_map bd1 ≡ nb = same_map_blocks bd1 bd w.same_count w.same_bytes in
    let size1 : map_bytes bd1 ≡ map_bytes bd = ap₂ (λ m b. m * b) nb1 w.same_bytes in
    let (bd2, wrote2, st2, map2) =
      read_block_map-write_block_map bd1 fs.block_map 1 w.valid (omega (arith, nb1, w.same_count))
        v.map_magic v.map_int (omega (arith, size1, v.map_low))
        (omega (arith, size1, v.map_high)) in
    let bytes2 : bd2.bytes_per_block ≡ bd.bytes_per_block = st2.same_bytes ∙ w.same_bytes in
    let count2 : bd2.block_count ≡ bd.block_count = st2.same_count ∙ w.same_count in
    let addr = mb.inode_map_address in
    let inside : addr + blocks_in_inode_map (length inm) bd.bytes_per_block ≤ bd2.block_count =
      omega (arith, v.address, count2) in
    let (bd3, wrote3, st3, inodes3) =
      read_inode_map-write_inode_map bd2 inm addr st2.valid v.inodes
        (subst (λ b. (length inm * sizeof_inode) % b ≡ 0) (sym bytes2) v.whole)
        (subst (λ b. addr + blocks_in_inode_map (length inm) b ≤ bd2.block_count) (sym bytes2)
          inside) in
    let count3 : bd3.block_count ≡ bd.block_count = st3.same_count ∙ count2 in
    let bytes3 : bd3.bytes_per_block ≡ bd.bytes_per_block = st3.same_bytes ∙ bytes2 in
    let first : read_block bd3 (pos 0) ≡ read_block bd1 (pos 0) =
      st3.others 0 (omega (arith, count2)) (inl (omega (arith, v.address)))
      ∙ st2.others 0 (omega (arith, w.same_count)) (inl (omega arith)) in
    let nb2 : get_blocks_in_block_map bd2 ≡ nb = same_map_blocks bd2 bd count2 bytes2 in
    let nb3 : get_blocks_in_block_map bd3 ≡ nb = same_map_blocks bd3 bd count3 bytes3 in
    let map3 =
      read_block_map-same bd3 bd2 1 nb nb3 nb2 st3.same_bytes
        (λ m lo hi. st3.others m (omega (arith, count2)) (inl (omega (arith, v.address)))) in
    let read3 =
      subst (λ n. read_inode_map bd3 addr n ≡ ok (some inm)) (sym v.inode_count) inodes3 in
    (
      bd3,
      write_out-runs fs i (length inm) done wrote2 wrote3,
      mount-of_reads (regular bd3.device_handle) bd3 mb
          (record fs.block_map { bytes = take (map_bytes bd - header_bytes) fs.block_map.bytes })
          (bootstrap_device-ok bd3 mb (mb.bytes_per_block - sizeof_master_block) st3.valid
            (omega (arith, count3)) (omega (arith, bytes3, v.big)) v.master v.magic
            (v.count ∙ sym count3) (v.bytes ∙ sym bytes3) (first ∙ w.reads_back))
          (read_master_block-same bd3 bd1 0 first ∙ master)
          (map3
            ∙ map2
            ∙ ap
                (λ k. ok (
                  some
                    (record fs.block_map { bytes = take (k - header_bytes) fs.block_map.bytes })))
                size1)
          (load_inodes-ok bd3 mb
            (record fs.block_map { bytes = take (map_bytes bd - header_bytes) fs.block_map.bytes })
            inm (omega (arith, v.inode_count, v.some_inodes)) (omega (arith, v.address)) v.root
            read3),
      st3.valid,
      count3,
      bytes3,
    )
  where
    some_blocks : (n b : ℕ) → header_bytes ≤ n * b → 0 < n
    some_blocks zero b h = absurd (omega arith)
    some_blocks (suc n) b h = omega arith

-- For a file system whose parts fit together (a valid device, the master block for it, a block
-- map that reaches to the end of its blocks, an inode map that fills its blocks, and room for
-- them one behind the other) and whose directory cache holds a root alone, the end of newfs
-- writes it with success, and mount of the host file gives the same master block and inode map,
-- the block map cut off at its blocks, and the root of the master block.
pub mount-write_out :
    (fs : FileSystem) (i : ℕ)
    → IsMountable fs
    → (bd : BlockDevice) × (write_out (add_root fs i) (length fs.inode_map)
        ≡ ok (true, regular bd.device_handle))
      × (mount (regular bd.device_handle) ≡ ok (mounted fs bd))
mount-write_out fs i v =
    let (bd, writes, mounts, valid, count, bytes) = write_out-mounts fs i v in (bd, writes, mounts)
