-- ===== src/Cpp/Console/Remount/Loading.antt =====
-- my_Blocks_c++/my_shell.cpp: mount of a device where a volume stands.
use cs.Prelude.{
  ℕ, zero, suc, ◌+◌, ◌*◌, ◌%◌, ◌^◌, ◌<◌, ◌≤◌, ◌≡◌, refl, ap, ap₂, ◌∙◌, sym, subst, true, false,
  List, [], ◌∷◌, ◌++◌, arith, length, take, drop, pos, ℤ, int_of_bits, length-replicate,
}
use cs.Prelude.Bytes.{le_bytes, le_value, le_value-le_bytes_32, field_at}
use cs.Prelude.Run.{ok}
use cs.Device.{Entry, regular, BlockDevice, read_block, read_at, read_first_bytes, open_create}
use cs.Device.Blocks.Laws.{Stored}
use cs.BitSet.{ceil_div}
use cs.Volume.Bootstrap.{read_first_bytes-block}
use cs.BlockMap.{BlockMap, alloc_block_map, read_block_map}
use cs.BlockMap.Image.{block_map_loaded}
use cs.BlockMap.Buffer.{read_buffer_of}
use cs.Cpp.Host.{construct_device}
use cs.Cpp.Host.Constructed.{Alike, construct_device-Alike, Stored-Alike}
use cs.Cpp.Master.{
  MasterBlock, sizeof_master_block, master_memory, node_count, alloc_master_block,
  read_master_block,
}
use cs.Cpp.Master.Layout.{laid_out, alloc_master_block-laid_out}
use cs.Cpp.Nodes.{
  INode, nodes_per_block, blocks_for, read_inode_map, nodes_memory, sizeof_node, blank_nodes,
  allocate_inode_map,
}
use cs.Cpp.Nodes.RoundTrip.{read_inode_map-Stored}
use cs.Cpp.Nodes.Blank.{length-blank_nodes, AllFit-blank_nodes, allocate_inode_map-blank}
use cs.Cpp.Console.Remount.{
  volume_of, nodes_at, Saved, Suits, some_bytes, big, inside, protects, Fitting-of,
}
use cs.Cpp.Console.Volume.{World, Mounted, grab_block, load_volume, mount_volume, mapaddr, mbloc}

Saved-Alike :
    {b n : ℕ} {bd c : BlockDevice} {bmp : BlockMap} {imp : List INode}
    → Saved b n bd bmp imp
    → Alike bd c
    → Saved b n c bmp imp
Saved-Alike {b} {n} {imp = imp} s a =
    let r = s.fitting in
    let (behind, first) = s.header in
    let (cs, map, len, bits) = s.map_there in
    let (bd1, v1, bytes1, count1, st) = s.nodes_there in
    let room = inside r in
    let some_protect : 0 < ceil_div n b = protects r in
    record {
      fitting = Fitting-of r a.valid a.same_bytes a.same_count;
      header = (behind, a.reads 0 (omega (arith, r.count)) ∙ first);
      map_there = (cs, a.reads mapaddr (omega (arith, r.count)) ∙ map, len, bits);
      nodes_there = (
        bd1,
        v1,
        bytes1,
        count1,
        Stored-Alike (blocks_for (length imp) (nodes_per_block b)) (nodes_at b n) (nodes_memory imp)
            (omega (arith, count1)) st a,
      );
    }

read_master_block-keeps :
    (bd : BlockDevice) (mb : MasterBlock) (junk cs : List ℕ)
    → read_block bd (pos mbloc) ≡ (true, cs)
    → read_master_block bd mb mbloc junk ≡ ok (0, mb)
unfolding read_master_block
read_master_block-keeps bd mb junk cs reads =
    rw (read_master_block, read_buffer_of bd (pos mbloc) junk cs reads) refl

load_volume-runs :
    (w : World) (bd : BlockDevice) (b n : ℕ) (mbl : MasterBlock) (old imp : List INode)
    (bmp : BlockMap)
    → alloc_master_block b n mapaddr ≡ ok mbl
    → read_master_block bd mbl mbloc w.master_buffer ≡ ok (0, mbl)
    → read_block_map bd (alloc_block_map n) mbl.disk_address w.map_buffer ≡ ok bmp
    → allocate_inode_map mbl.inode_cnt ≡ ok old
    → read_inode_map bd old mbl.disk_address_inode_map mbl.inode_cnt ≡ ok imp
    → load_volume w bd b n ≡ ok (record { bdv = bd; bmp = bmp; mbl = mbl; imp = imp })
unfolding load_volume
load_volume-runs w bd b n mbl old imp bmp made master map blank nodes =
    rw (made, master, map, blank, nodes) refl

-- mount of a device where a volume stands.
load_volume-Saved :
    (w : World) {b n : ℕ} {bd : BlockDevice} {bmp : BlockMap} {imp : List INode}
    → Saved b n bd bmp imp
    → Suits w b
    → load_volume w bd b n ≡ ok (volume_of b n bd bmp imp)
unfolding alloc_block_map
load_volume-Saved w {b} {n} {bd} {bmp} {imp} s suits =
    let r = s.fitting in
    let (behind, first) = s.header in
    let (cs, map, len, bits) = s.map_there in
    let (bd1, v1, bytes1, count1, st) = s.nodes_there in
    let room = inside r in
    let k = node_count b n (ceil_div n b) in
    let loaded : read_block_map bd (alloc_block_map n) mapaddr w.map_buffer ≡ ok bmp =
      block_map_loaded bd bmp (alloc_block_map n) mapaddr cs w.map_buffer map
        (r.map_bits ∙ sym r.map_size) (omega (arith, r.map_size, len, r.map_fits)) bits
        (sym r.map_size) (length-replicate n false ∙ sym r.map_size) (suits.map_size ∙ sym len) in
    let st1 : Stored bd1 (blocks_for (length imp) (nodes_per_block bd1.bytes_per_block))
        (nodes_at b n) (nodes_memory imp) bd =
      subst
        (λ t.
          Stored bd1 (blocks_for (length imp) (nodes_per_block t)) (nodes_at b n) (nodes_memory imp)
            bd)
        (sym bytes1) st in
    let nodes : read_inode_map bd (blank_nodes k) (nodes_at b n) (length imp) ≡ ok imp =
      read_inode_map-Stored bd1 bd imp (blank_nodes k) (nodes_at b n) v1 r.fit
        (AllFit-blank_nodes k) (length-blank_nodes k ∙ sym r.nodes)
        (subst (λ t. t % sizeof_node ≡ 0) (sym bytes1) r.whole)
        (subst (λ t. length imp % nodes_per_block t ≡ 0) (sym bytes1) r.full)
        (subst (λ t. nodes_at b n + blocks_for (length imp) (nodes_per_block t) ≤ bd1.block_count)
          (sym bytes1) (omega (arith, count1)))
        r.short st1 in
    load_volume-runs w bd b n (laid_out b n mapaddr) (blank_nodes k) imp bmp
      (alloc_master_block-laid_out b n mapaddr (omega (arith, big r)))
      (read_master_block-keeps bd (laid_out b n mapaddr) w.master_buffer _ first) loaded
      (allocate_inode_map-blank k (omega (arith, r.nodes, r.some_nodes)))
      (subst (λ t. read_inode_map bd (blank_nodes k) (nodes_at b n) t ≡ ok imp) r.nodes nodes)

take-take : (m n : ℕ) (xs : List ℕ) → m ≤ n → take m (take n xs) ≡ take m xs
take-take zero n xs h = refl
take-take (suc m) zero xs h = absurd (omega arith)
take-take (suc m) (suc n) [] h = refl
take-take (suc m) (suc n) (x ∷ xs) h = ap (λ t. x ∷ t) (take-take m n xs (omega arith))

factor_below : (b n k : ℕ) → 0 < b → b * n < k → n < k
factor_below b n k h lt = grind arith

int_of_small : (n : ℕ) → n < 2 ^ 31 → int_of_bits n ≡ pos n
int_of_small n h = ground arith

-- The counts that stand behind the magic number, in front of whatever else.
grabbed :
    (b n : ℕ) (rest : List ℕ)
    → b < 2 ^ 31
    → n < 2 ^ 31
    → (int_of_bits (field_at 12 4 (master_memory (laid_out b n mapaddr) ++ rest)) ≡ pos n)
      × (int_of_bits (field_at 8 4 (master_memory (laid_out b n mapaddr) ++ rest)) ≡ pos b)
unfolding master_memory
grabbed b n rest small_b small_n =
    let in_n : le_value (le_bytes 4 n) ≡ n = le_value-le_bytes_32 n (omega arith) in
    let in_b : le_value (le_bytes 4 b) ≡ b = le_value-le_bytes_32 b (omega arith) in
    (ap int_of_bits in_n ∙ int_of_small n small_n, ap int_of_bits in_b ∙ int_of_small b small_b)

grab_block-reads :
    (bd : BlockDevice) (before front left : List ℕ) {n b : ℤ}
    → read_at bd.device_handle 0 sizeof_master_block ≡ front
    → drop (length (read_at bd.device_handle 0 sizeof_master_block)) before ≡ left
    → int_of_bits (field_at 12 4 (front ++ left)) ≡ n
    → int_of_bits (field_at 8 4 (front ++ left)) ≡ b
    → grab_block (regular bd.device_handle) before ≡ ((n, b), regular bd.device_handle)
unfolding grab_block open_create
grab_block-reads bd before front left got rest of_n of_b =
    ap₂ (λ x y. ((x, y), regular bd.device_handle))
      (ap (λ t. int_of_bits (field_at 12 4 t)) (ap₂ ◌++◌ got rest) ∙ of_n)
      (ap (λ t. int_of_bits (field_at 8 4 t)) (ap₂ ◌++◌ got rest) ∙ of_b)

-- What grabBlock finds on a device where a volume stands.
grab_block-Saved :
    {b n : ℕ} {bd : BlockDevice} {bmp : BlockMap} {imp : List INode} (before : List ℕ)
    → Saved b n bd bmp imp
    → grab_block (regular bd.device_handle) before ≡ ((pos n, pos b), regular bd.device_handle)
unfolding read_first_bytes master_memory
grab_block-Saved {b} {n} {bd} before s =
    let r = s.fitting in
    let (behind, first) = s.header in
    let M = master_memory (laid_out b n mapaddr) in
    let size = big r in
    let room = inside r in
    let some = protects r in
    let fits = r.valid.fits in
    let counted : b * n < 2 ^ 31 = omega (arith, ap₂ (λ x y. x * y) r.count r.bytes) in
    let small_n : n < 2 ^ 31 = factor_below b n (2 ^ 31) (some_bytes r) counted in
    let small_b : b < 2 ^ 31 = factor_below n b (2 ^ 31) (omega arith) (omega arith) in
    let got : read_at bd.device_handle 0 sizeof_master_block ≡ take sizeof_master_block M =
      read_first_bytes-block bd r.valid (omega (arith, r.count)) (omega (arith, r.bytes)) first
      ∙ take-take sizeof_master_block b (M ++ behind) (omega arith) in
    let left = drop (length (read_at bd.device_handle 0 sizeof_master_block)) before in
    let (of_n, of_b) = grabbed b n left small_b small_n in
    grab_block-reads bd before M left got refl of_n of_b

mount_volume-runs :
    (w : World) (e e1 e2 : Entry) (b n : ℕ) (c : BlockDevice) {s : Mounted}
    → grab_block e w.grab_buffer ≡ ((pos n, pos b), e1)
    → construct_device e1 b n ≡ (c, e2)
    → load_volume w c b n ≡ ok s
    → mount_volume w e ≡ ok (s, e2)
unfolding mount_volume
mount_volume-runs w e e1 e2 b n c grabs made loads = rw (mount_volume, grabs, made, loads) refl

-- mount of a file with a volume gives the volume, on a device like the one that was written.
pub mount_volume-Saved :
    (w : World) {b n : ℕ} {bd : BlockDevice} {bmp : BlockMap} {imp : List INode}
    → Saved b n bd bmp imp
    → Suits w b
    → (c : BlockDevice) × (mount_volume w (regular bd.device_handle)
        ≡ ok (volume_of b n c bmp imp, regular c.device_handle))
      × Saved b n c bmp imp
mount_volume-Saved w {b} {n} {bd} s suits =
    let r = s.fitting in
    let (c, made, alike) = construct_device-Alike bd r.valid in
    let made' : construct_device (regular bd.device_handle) b n ≡ (c, regular c.device_handle) =
      ap₂ (construct_device (regular bd.device_handle)) (sym r.bytes) (sym r.count) ∙ made in
    let saved = Saved-Alike s alike in
    (
      c,
      mount_volume-runs w (regular bd.device_handle) (regular bd.device_handle)
          (regular c.device_handle) b n c (grab_block-Saved w.grab_buffer s) made'
          (load_volume-Saved w saved suits),
      saved,
    )
