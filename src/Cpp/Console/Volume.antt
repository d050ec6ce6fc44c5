-- ===== src/Cpp/Console/Volume.antt =====
-- my_Blocks_c++/my_shell.cpp: what the commands newfs, mount and unmount do to a device.
use cs.Prelude.{ℕ, ◌+◌, none, some, List, [], ◌∷◌, ◌++◌, length, drop, ℤ, pos, negsuc, int_of_bits}
use cs.Prelude.Bytes.{field_at}
use cs.Prelude.Run.{Run, ok, fault, ◌>>=◌}
use cs.Device.{Entry, regular, BlockDevice, open_create, read_at}
use cs.BlockMap.{BlockMap, alloc_block_map, set_bit, read_block_map, write_block_map}
use cs.Cpp.Host.{construct_device, remove, closed}
use cs.Cpp.Master.{
  MasterBlock, alloc_master_block, read_master_block, write_master_block, sizeof_master_block,
}
use cs.Cpp.Nodes.{INode, allocate_inode_map, read_inode_map, write_inode_map}

-- The clock during a command, and what stands in the memory that the command leaves uninitialized: in
-- the buffer of grabBlock, in the buffer of readMasterBlock, behind the master block, and in the
-- buffer of readBlockMap or writeBlockMap.
pub record World : Type 0 where
  pub now : ℕ
  pub grab_buffer : List ℕ
  pub master_buffer : List ℕ
  pub behind_master : List ℕ
  pub map_buffer : List ℕ

-- bdv, bmp, mbl and imp
pub record Mounted : Type 0 where
  pub bdv : BlockDevice
  pub bmp : BlockMap
  pub mbl : MasterBlock
  pub imp : List INode

-- MBLOC and MAPADDR
abbrev pub mbloc : ℕ
mbloc = 0

abbrev pub mapaddr : ℕ
mapaddr = 1

-- The loop of newfs over the inodes, from index `i` on.
unfoldable pub init_nodes : ℕ → ℕ → List INode → List INode
init_nodes now i [] = []
init_nodes now i (x ∷ xs) =
    record x { inode_num = pos i; cdate = now; mdate = now; num_bytes = 0; owner_uid = 0xdeedfeed }
    ∷ init_nodes now (i + 1) xs

-- newfs, up to the writing.
unfoldable pub prepare : World → Entry → ℕ → ℕ → Run Mounted
unfolding construct_device remove alloc_master_block init_nodes
prepare w e bpb bcnt = do
  let bdv = (construct_device (remove e) bpb bcnt).0
  mbl ← alloc_master_block bpb bcnt mapaddr
  imp ← allocate_inode_map mbl.inode_cnt
  (one, bmp) ← set_bit (alloc_block_map bcnt) mbl.disk_address_inode_map
  (two, bmp) ← set_bit bmp mbl.disk_address
  (three, bmp) ← set_bit bmp 0
  ok (record { bdv = bdv; bmp = bmp; mbl = mbl; imp = init_nodes w.now 0 imp })

-- The block map and the inode map written, as newfs and unmount write them.
unfoldable pub write_maps : World → Mounted → Run BlockDevice
unfolding write_block_map write_inode_map
write_maps w s = do
  bdv ← write_block_map s.bdv s.bmp s.mbl.disk_address w.map_buffer
  write_inode_map bdv s.imp s.mbl.disk_address_inode_map s.mbl.inode_cnt

-- newfs, for what the host has under the name: what it has then.
unfoldable pub make_volume : World → Entry → ℕ → ℕ → Run Entry
unfolding prepare write_maps write_master_block closed
make_volume w e bpb bcnt = do
  s ← prepare w e bpb bcnt
  bdv ← write_master_block s.bdv s.mbl mbloc w.behind_master
  bdv ← write_maps w (record s { bdv = bdv })
  ok (closed (construct_device (remove e) bpb bcnt).1 bdv)

-- `grabBlock`: blockCount and bytesPerBlock of the structure at the start of the file, where a short
-- read leaves what was there; and what the host has under the name then.
unfoldable pub grab_block : Entry → List ℕ → (ℤ × ℤ) × Entry
unfolding open_create read_at
grab_block e before = elim (open_create e) [
  | none ↦ ((int_of_bits (field_at 12 4 before), int_of_bits (field_at 8 4 before)), e)
  | some f ↦
      let got = read_at f 0 sizeof_master_block in
      let readbuff = got ++ drop (length got) before in
      ((int_of_bits (field_at 12 4 readbuff), int_of_bits (field_at 8 4 readbuff)), regular f)
]

-- A negative count or size is outside the model.
abbrev pub natural : ℤ → Run ℕ
natural (pos n) = ok n
natural (negsuc n) = fault

-- mount, once the device is constructed.
unfoldable pub load_volume : World → BlockDevice → ℕ → ℕ → Run Mounted
unfolding alloc_master_block read_master_block read_block_map
load_volume w bdv bpb bcnt = do
  mbl ← alloc_master_block bpb bcnt mapaddr
  (result, mbl) ← read_master_block bdv mbl mbloc w.master_buffer
  bmp ← read_block_map bdv (alloc_block_map bcnt) mbl.disk_address w.map_buffer
  imp ← allocate_inode_map mbl.inode_cnt
  imp ← read_inode_map bdv imp mbl.disk_address_inode_map mbl.inode_cnt
  ok (record { bdv = bdv; bmp = bmp; mbl = mbl; imp = imp })

-- mount, for what the host has under the name: what is mounted, and what the host has then.
unfoldable pub mount_volume : World → Entry → Run (Mounted × Entry)
unfolding grab_block construct_device load_volume
mount_volume w e = do
  let grabbed = grab_block e w.grab_buffer
  bcnt ← natural grabbed.0.0
  bpb ← natural grabbed.0.1
  let constructed = construct_device grabbed.1 bpb bcnt
  s ← load_volume w constructed.0 bpb bcnt
  ok (s, constructed.1)

-- unmount, for what the host has under the name: what it has then. The master block is not written.
unfoldable pub unmount_volume : World → Entry → Mounted → Run Entry
unfolding write_maps closed
unmount_volume w e s = write_maps w s >>= λ bdv. ok (closed e bdv)
