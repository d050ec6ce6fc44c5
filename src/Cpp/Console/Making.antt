-- ===== src/Cpp/Console/Making.antt =====
-- my_Blocks_c++/my_shell.cpp: newfs, and mount behind newfs or unmount.
pub mod Parts
use cs.Prelude.{
  ℕ, zero, suc, ◌+◌, ◌-◌, ◌*◌, ◌/◌, ◌%◌, ◌^◌, ◌<◌, ◌≤◌, ◌≡◌, refl, ap, ◌∙◌, sym, subst, Bool, true,
  false, ◌||◌, some, List, [], ◌∷◌, ◌++◌, arith, length, take, pos, ℤ, set, get_or, get_elem?,
  replicate, length-replicate, length-set, length-take, ◌==◌, if◌then◌else◌, Bool-cases, inl, inr,
  minus_one,
}
use cs.Prelude.Run.{ok}
use cs.Device
use cs.Device.{File, Entry, regular, missing, BlockDevice, write_block, open_create}
use cs.Device.Transfer.{Written, write_block-Written}
use cs.BitSet.{ceil_div}
use cs.BlockMap.{BlockMap, alloc_block_map, set_bit}
use cs.BlockMap.Bools.{get_elem?-get_or, get_or-set_if}
use cs.BlockMap.Buffer.{write_buffer_of}
use cs.Cpp.Host.{construct_device, device_on, remove, closed}
use cs.Cpp.Host.Constructed.{construct_device-IsValid}
use cs.Cpp.Master.{sizeof_master_block, master_memory, node_count, write_master_block}
use cs.Cpp.Master.Layout.{laid_out, alloc_master_block-laid_out, node_count-le}
use cs.Cpp.Nodes.{INode, nodes_per_block, sizeof_node, blank_nodes}
use cs.Cpp.Nodes.Image.{AllFit}
use cs.Cpp.Nodes.Blank.{allocate_inode_map-blank}
use native.Mathlib.Decide.{dec_lt}
use cs.Cpp.Console.Remount.{
  node_count-zero, volume_of, nodes_at, Fitting, HasHeader, Suits, write_maps-Saved,
}
use cs.Cpp.Console.Remount.Loading.{mount_volume-Saved}
use cs.Cpp.Console.Volume.{
  World, Mounted, init_nodes, prepare, write_maps, make_volume, mount_volume, unmount_volume,
  mapaddr, mbloc,
}
use cs.Cpp.Console.Making.Parts.{
  first_map, init_nodes-fit, first_nodes, prepare-runs, header-Written, node_count-needs,
  first_map-size,
}

unmount_volume-runs :
    (w : World) (f : File) (s : Mounted) (bd : BlockDevice)
    → write_maps w s ≡ ok bd
    → unmount_volume w (regular f) s ≡ ok (regular bd.device_handle)
unfolding unmount_volume closed
unmount_volume-runs w f s bd wrote = rw (unmount_volume, wrote) refl

-- For a mounted volume of the C++ shell whose parts fit together, on a device that begins with
-- its master block, unmount writes it, and mount of what it leaves gives the same master block,
-- block map and inodes, whose parts fit together again.
pub mount_volume-unmount_volume :
    (w w' : World) (f : File) (b n : ℕ) (bdv : BlockDevice) (bmp : BlockMap) (imp : List INode)
    → Fitting b n bdv bmp imp
    → HasHeader b n bdv
    → Suits w b
    → Suits w' b
    → (e : Entry) × (c : BlockDevice) × (unmount_volume w (regular f) (volume_of b n bdv bmp imp)
        ≡ ok e)
      × (mount_volume w' e ≡ ok (volume_of b n c bmp imp, regular c.device_handle))
      × Fitting b n c bmp imp
      × HasHeader b n c
mount_volume-unmount_volume w w' f b n bdv bmp imp r header suits suits' =
    let (bd, wrote, saved) = write_maps-Saved w r header suits in
    let (c, mounts, there) = mount_volume-Saved w' saved suits' in
    (
      regular bd.device_handle,
      c,
      unmount_volume-runs w f (volume_of b n bdv bmp imp) bd wrote,
      mounts,
      there.fitting,
      there.header,
    )

make_volume-runs :
    (w : World) (e : Entry) (f : File) (b n : ℕ) (s : Mounted) (bd1 bd2 : BlockDevice)
    → (construct_device (remove e) b n).1 ≡ regular f
    → prepare w e b n ≡ ok s
    → write_master_block s.bdv s.mbl mbloc w.behind_master ≡ ok bd1
    → write_maps w (record s { bdv = bd1 }) ≡ ok bd2
    → make_volume w e b n ≡ ok (regular bd2.device_handle)
unfolding make_volume closed
make_volume-runs w e f b n s bd1 bd2 there prepared one two =
    rw (make_volume, prepared, one, two, there) refl

-- The newfs of the C++ shell, for n blocks of b bytes under a name whose file opens and has room,
-- where the size is below 2 ^ 31, 128 divides b, the bits of the block map fit in a block, there
-- is room for inodes and they fill their blocks, the inode map begins below block 2 ^ 15, the
-- clock fits 64 bits, and the memory behind the master block reaches to the end of a block,
-- succeeds; mount of what it leaves gives the master block of the constructor, the map in which
-- the first block, the block of the map and the first block of the inodes are taken, and the
-- inodes as newfs sets them up, on a device that begins with the master block and can be written
-- and read back.
pub mount_volume-make_volume :
    (w w' : World) (e : Entry) (f : File) (b n : ℕ)
    → open_create (remove e) ≡ some f
    → n * b < 2 ^ 31
    → n * b ≤ f.limit
    → b % sizeof_node ≡ 0
    → n ≤ 8 * b
    → 0 < node_count b n (ceil_div n b)
    → node_count b n (ceil_div n b) % nodes_per_block b ≡ 0
    → nodes_at b n < 2 ^ 15
    → w.now < 2 ^ 64
    → b ≤ sizeof_master_block + length w.behind_master
    → Suits w b
    → Suits w' b
    → (e1 : Entry) × (c : BlockDevice) × (make_volume w e b n ≡ ok e1)
      × (mount_volume w' e1
          ≡ ok (volume_of b n c (first_map b n) (first_nodes w b n), regular c.device_handle))
      × Fitting b n c (first_map b n) (first_nodes w b n)
      × HasHeader b n c
mount_volume-make_volume w w' e f b n opens small room whole map_fits some_nodes full short clock
      behind suits suits' =
    let k = node_count b n (ceil_div n b) in
    let large = node_count-needs b n (ceil_div n b) some_nodes in
    let (g, made, valid, bytes_of, limit_of) =
      construct_device-IsValid (remove e) f b n opens (omega arith) small room in
    let (fit, len) =
      init_nodes-fit w.now 0 k clock (omega (arith, node_count-le b n (ceil_div n b))) in
    let parts : (bd : BlockDevice)
        → Device.IsValid bd
        → bd.bytes_per_block ≡ b
        → bd.block_count ≡ n
        → Fitting b n bd (first_map b n) (first_nodes w b n) =
      λ bd v bytes count. record {
        valid = v;
        bytes = bytes;
        count = count;
        whole = whole;
        map_fits = map_fits;
        map_size = refl;
        map_bits = first_map-size b n;
        fit = fit;
        nodes = len;
        some_nodes = omega (arith, len);
        full = subst (λ t. t % nodes_per_block b ≡ 0) (sym len) full;
        short = short;
      } in
    let below : nodes_at b n < n = omega (arith, node_count-zero b n (ceil_div n b) some_nodes) in
    let (bd1, wrote1, w1) = header-Written g b n w.behind_master valid (omega arith) behind in
    let (bd2, wrote2, saved) =
      write_maps-Saved w (parts bd1 w1.valid w1.same_bytes w1.same_count)
        (w.behind_master, w1.reads_back) suits in
    let (c, mounts, there) = mount_volume-Saved w' saved suits' in
    (
      regular bd2.device_handle,
      c,
      make_volume-runs w e g b n
          (volume_of b n (device_on g b n) (first_map b n) (first_nodes w b n)) bd1 bd2
          (ap (λ (t : BlockDevice × Entry). t.1) made)
          (prepare-runs w e (regular g) b n (device_on g b n) made large some_nodes below) wrote1
          wrote2,
      mounts,
      there.fitting,
      there.header,
    )
