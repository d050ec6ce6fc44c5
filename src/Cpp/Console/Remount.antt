-- ===== src/Cpp/Console/Remount.antt =====
-- my_Blocks_c++/my_shell.cpp: mount of a device whose maps have been written.
pub mod Loading
use cs.Prelude.{
  ℕ, zero, suc, ◌+◌, ◌-◌, ◌*◌, ◌/◌, ◌%◌, ◌^◌, ◌<◌, ◌≤◌, ◌≡◌, refl, ap, ap₂, ◌∙◌, sym, subst, Bool,
  true, false, some, List, [], ◌∷◌, ◌++◌, arith, length, take, drop, ltb, pos, inl, ℤ, int_of_bits,
  replicate, length-replicate,
}
use cs.Prelude.Bytes.{AllBytes, le_bytes, le_value, le_value-le_bytes_32}
use cs.Prelude.Run.{Run, ok, ◌>>=◌}
use cs.Device
use cs.Device.{
  File, Entry, regular, BlockDevice, read_block, read_at, read_first_bytes, open_create,
}
use cs.Device.Transfer.{Written}
use cs.Device.Blocks.Laws.{Stored}
use cs.BitSet.{ceil_div}
use cs.Volume.Bootstrap.{read_first_bytes-block}
use cs.BlockMap.{BlockMap, alloc_block_map, read_block_map, write_block_map, read_buffer}
use cs.BitSet.Bits.{bit}
use cs.BlockMap.Image.{block_map_stored, block_map_loaded}
use cs.BlockMap.Buffer.{as_set, value, read_buffer_of}
use cs.Cpp.Host.{construct_device}
use cs.Cpp.Host.Constructed.{Alike, construct_device-Alike, Stored-Alike}
use cs.Cpp.Master.{
  MasterBlock, sizeof_master_block, master_memory, node_count, alloc_master_block,
  read_master_block, magic_number,
}
use native.Mathlib.Decide.{dec_lt}
use cs.Cpp.Master.Layout.{
  ceil_div_upper, laid_out, alloc_master_block-laid_out, blocks_for-le, node_count-quarter,
}
use cs.Cpp.Nodes.{
  INode, nodes_per_block, blocks_for, write_inode_map, read_inode_map, nodes_memory, sizeof_node,
  blank_nodes, allocate_inode_map,
}
use cs.Cpp.Nodes.Image.{AllFit}
use cs.Cpp.Nodes.RoundTrip.{write_inode_map-Stored, read_inode_map-Stored}
use cs.Cpp.Nodes.Blank.{length-blank_nodes, AllFit-blank_nodes, allocate_inode_map-blank}
use cs.Cpp.Console.Volume.{
  World, Mounted, write_maps, grab_block, natural, load_volume, mount_volume, mapaddr, mbloc,
}

-- A volume of `n` blocks of `b` bytes.
abbrev pub volume_of : ℕ → ℕ → BlockDevice → BlockMap → List INode → Mounted
volume_of b n bdv bmp imp = record { bdv = bdv; bmp = bmp; mbl = laid_out b n mapaddr; imp = imp }

-- The block where the inode map of a volume begins.
abbrev pub nodes_at : ℕ → ℕ → ℕ
nodes_at b n = mapaddr + ceil_div n b

-- The parts of a volume fit together, so that they can be written and read back.
pub record Fitting (b n : ℕ) (bdv : BlockDevice) (bmp : BlockMap) (imp : List INode) : Type 0 where
  pub valid : Device.IsValid bdv
  pub bytes : bdv.bytes_per_block ≡ b
  pub count : bdv.block_count ≡ n
  pub whole : b % sizeof_node ≡ 0
  pub map_fits : n ≤ 8 * b
  pub map_size : bmp.sz ≡ n
  pub map_bits : length bmp.bools ≡ n
  pub fit : AllFit imp
  pub nodes : length imp ≡ node_count b n (ceil_div n b)
  pub some_nodes : 0 < length imp
  pub full : length imp % nodes_per_block b ≡ 0
  pub short : nodes_at b n < 2 ^ 15

-- The first block of the device begins with the structure of the volume.
abbrev pub HasHeader : ℕ → ℕ → BlockDevice → Type 0
HasHeader b n bdv =
    (behind : List ℕ) × (read_block bdv (pos 0)
      ≡ (true, take b (master_memory (laid_out b n mapaddr) ++ behind)))

-- A volume that stands on its device.
pub record Saved (b n : ℕ) (bdv : BlockDevice) (bmp : BlockMap) (imp : List INode) : Type 0 where
  pub fitting : Fitting b n bdv bmp imp
  pub header : HasHeader b n bdv
  pub map_there :
      (cs : List ℕ) × (read_block bdv (pos mapaddr) ≡ (true, cs))
      × (length cs ≡ b)
      × ((j : ℕ) → j < bmp.sz → bit (as_set cs) j ≡ value bmp j)
  pub nodes_there :
      (bd : BlockDevice) × Device.IsValid bd
      × (bd.bytes_per_block ≡ b)
      × (bd.block_count ≡ n)
      × Stored bd
          (blocks_for (length imp) (nodes_per_block b))
          (nodes_at b n)
          (nodes_memory imp)
          bdv

-- What the memory that is not initialized has to be for blocks of `b` bytes.
pub record Suits (w : World) (b : ℕ) : Type 0 where
  pub map_size : length w.map_buffer ≡ b
  pub map_bytes : AllBytes w.map_buffer

pub node_count-zero : (b n p : ℕ) → 0 < node_count b n p → p + 1 < n
unfolding node_count
node_count-zero b n p h = ground arith

module _ {b n : ℕ} {bdv : BlockDevice} {bmp : BlockMap} {imp : List INode}
    (r : Fitting b n bdv bmp imp) where
  pub some_bytes : 0 < b
  some_bytes = omega (arith, r.valid.some_bytes, r.bytes)

  pub big : sizeof_node ≤ b
  big = omega (arith, some_bytes, r.whole)

  pub inside : nodes_at b n + blocks_for (length imp) (nodes_per_block b) ≤ n
  inside =
      let p = ceil_div n b in
      let quarter =
        blocks_for-le (node_count b n p) ((n - (p + 1)) / 4) (nodes_per_block b)
          (omega (arith, big)) (node_count-quarter b n p) in
      let fits : p + 1 < n = node_count-zero b n p (omega (arith, r.some_nodes, r.nodes)) in
      omega (arith, ap (λ t. blocks_for t (nodes_per_block b)) r.nodes)

  pub protects : 0 < ceil_div n b
  protects =
      let le = ceil_div_upper n b some_bytes in
      elim (dec_lt 0 (ceil_div n b)) [
        | yes p ↦ p
        | no p ↦
            let none : ceil_div n b ≡ 0 = omega arith in
            absurd (omega (arith, ap (λ t. t * b) none, inside))
      ]

  pub Fitting-of :
      {c : BlockDevice}
      → Device.IsValid c
      → c.bytes_per_block ≡ bdv.bytes_per_block
      → c.block_count ≡ bdv.block_count
      → Fitting b n c bmp imp
  Fitting-of v same_bytes same_count = record {
    valid = v;
    bytes = same_bytes ∙ r.bytes;
    count = same_count ∙ r.count;
    whole = r.whole;
    map_fits = r.map_fits;
    map_size = r.map_size;
    map_bits = r.map_bits;
    fit = r.fit;
    nodes = r.nodes;
    some_nodes = r.some_nodes;
    full = r.full;
    short = r.short;
  }

write_maps-runs :
    (w : World) (s : Mounted) (bd1 : BlockDevice) (k : ℕ) {bd2 : BlockDevice}
    → s.mbl.inode_cnt ≡ k
    → write_block_map s.bdv s.bmp s.mbl.disk_address w.map_buffer ≡ ok bd1
    → write_inode_map bd1 s.imp s.mbl.disk_address_inode_map k ≡ ok bd2
    → write_maps w s ≡ ok bd2
unfolding write_maps
write_maps-runs w s bd1 k e one two = rw (one, e) two

-- The maps of a volume whose device has its structure are written, and stand there then.
pub write_maps-Saved :
    (w : World) {b n : ℕ} {bdv : BlockDevice} {bmp : BlockMap} {imp : List INode}
    → Fitting b n bdv bmp imp
    → HasHeader b n bdv
    → Suits w b
    → (bd2 : BlockDevice) × (write_maps w (volume_of b n bdv bmp imp) ≡ ok bd2)
      × Saved b n bd2 bmp imp
write_maps-Saved w {b} {n} {bdv} {bmp} {imp} r (behind, first) suits =
    let room = inside r in
    let some_protect : 0 < ceil_div n b = protects r in
    let (cs, bd1, wrote1, w1, len_cs, bits, beyond) =
      block_map_stored bdv bmp mapaddr w.map_buffer r.valid (omega (arith, r.count))
        (r.map_bits ∙ sym r.map_size) (omega (arith, r.map_size, r.bytes, r.map_fits))
        (suits.map_size ∙ sym r.bytes) suits.map_bytes in
    let bytes1 : bd1.bytes_per_block ≡ b = w1.same_bytes ∙ r.bytes in
    let count1 : bd1.block_count ≡ n = w1.same_count ∙ r.count in
    let (bd2, wrote2, st0) =
      write_inode_map-Stored bd1 imp (nodes_at b n) w1.valid r.fit
        (subst (λ t. t % sizeof_node ≡ 0) (sym bytes1) r.whole)
        (subst (λ t. length imp % nodes_per_block t ≡ 0) (sym bytes1) r.full)
        (subst (λ t. nodes_at b n + blocks_for (length imp) (nodes_per_block t) ≤ bd1.block_count)
          (sym bytes1) (omega (arith, count1)))
        r.short in
    let st : Stored bd1 (blocks_for (length imp) (nodes_per_block b)) (nodes_at b n)
        (nodes_memory imp) bd2 =
      subst
        (λ t.
          Stored bd1 (blocks_for (length imp) (nodes_per_block t)) (nodes_at b n) (nodes_memory imp)
            bd2)
        bytes1 st0 in
    let same1 : read_block bd2 (pos mapaddr) ≡ (true, cs) =
      st.others mapaddr (omega (arith, count1)) (inl (omega arith)) ∙ w1.reads_back in
    let same0 : read_block bd2 (pos 0)
        ≡ (true, take b (master_memory (laid_out b n mapaddr) ++ behind)) =
      st.others 0 (omega (arith, count1)) (inl (omega arith))
      ∙ w1.others 0 (omega (arith, r.count)) (omega arith)
      ∙ first in
    (
      bd2,
      write_maps-runs w (volume_of b n bdv bmp imp) bd1 (length imp) (sym r.nodes) wrote1 wrote2,
      record {
        fitting =
            Fitting-of r st.valid (st.same_bytes ∙ w1.same_bytes) (st.same_count ∙ w1.same_count);
        header = (behind, same0);
        map_there = (cs, same1, len_cs ∙ r.bytes, bits);
        nodes_there = (bd1, w1.valid, bytes1, count1, st);
      },
    )
