-- ===== src/INode/Transfer.antt =====
-- inode.c: the inode map on the device.
use cs.Prelude.{
  ℕ, ◌+◌, ◌*◌, ◌%◌, ◌<◌, ◌≤◌, ◌≡◌, ◌≢◌, ap, ◌∙◌, sym, true, some, List, arith, length, take,
  take-length,
}
use cs.Prelude.Run.{ok, fault}
use cs.Device.{BlockDevice}
use cs.Device
use cs.Device.Blocks.{read_blocks}
use cs.Device.Blocks.Laws.{Stored, write_blocks-Stored, write_blocks-short, read_blocks-short}
use cs.BitSet.{ceil_div}
use cs.INode.{
  INode, map_memory, map_of, sizeof_inode, blocks_in_inode_map, write_inode_map, read_inode_map,
}
use cs.INode.Map.{AllFit, length-map_memory, map_of-map_memory}

ceil_div_exact : (n d : ℕ) → 0 < d → n % d ≡ 0 → ceil_div n d * d ≡ n
ceil_div_exact n d h e = grind arith

ceil_div_over : (n d : ℕ) → 0 < d → n % d ≢ 0 → n < ceil_div n d * d
ceil_div_over n d h ne = grind arith

read_inode_map-of_blocks :
    (bd : BlockDevice) (addr count n : ℕ) {memory : List ℕ}
    → blocks_in_inode_map count bd.bytes_per_block ≡ n
    → read_blocks n bd addr (count * sizeof_inode) ≡ ok (some memory)
    → read_inode_map bd addr count ≡ ok (some (map_of count memory))
unfolding read_inode_map
read_inode_map-of_blocks bd addr count n {memory} e runs =
    let r : read_blocks (blocks_in_inode_map count bd.bytes_per_block) bd addr
          (count * sizeof_inode)
        ≡ ok (some memory) =
      ap (λ n. read_blocks n bd addr (count * sizeof_inode)) e ∙ runs in
    rw (read_inode_map, r)

-- On a valid device with room, an inode map whose inodes fit their C types and whose size the
-- block size divides is written by writeINodeMap and read back by readINodeMap as it was; only
-- its blocks change.
pub read_inode_map-write_inode_map :
    (bd : BlockDevice) (inm : List INode) (addr : ℕ)
    → Device.IsValid bd
    → AllFit inm
    → (length inm * sizeof_inode) % bd.bytes_per_block ≡ 0
    → addr + blocks_in_inode_map (length inm) bd.bytes_per_block ≤ bd.block_count
    → (bd' : BlockDevice) × (write_inode_map bd inm addr (length inm) ≡ ok (true, bd'))
      × Stored bd (blocks_in_inode_map (length inm) bd.bytes_per_block) addr (map_memory inm) bd'
      × (read_inode_map bd' addr (length inm) ≡ ok (some inm))
unfolding write_inode_map
read_inode_map-write_inode_map bd inm addr v fit whole inside =
    let n = blocks_in_inode_map (length inm) bd.bytes_per_block in
    let exact = ceil_div_exact (length inm * sizeof_inode) bd.bytes_per_block v.some_bytes whole in
    let size = length-map_memory inm fit in
    let (bd', wrote, st) = write_blocks-Stored n bd addr (map_memory inm) v inside (omega arith) in
    let all : take (n * bd.bytes_per_block) (map_memory inm) ≡ map_memory inm =
      let e : n * bd.bytes_per_block ≡ length (map_memory inm) = exact ∙ sym size in
      rw e (take-length (map_memory inm)) in
    (
      bd',
      wrote,
      st,
      read_inode_map-of_blocks bd' addr (length inm) n
            (ap (blocks_in_inode_map (length inm)) st.same_bytes)
            (st.reads_back (length inm * sizeof_inode) (omega arith) ∙ ap (λ m. ok (some m)) all)
          ∙ ap (λ m. ok (some m)) (map_of-map_memory inm fit),
    )

-- On a valid device with room, where the block size does not divide the size of an inode map
-- whose inodes fit, writeINodeMap and readINodeMap of it run past the end of the array.
pub inode_map_overrun :
    (bd : BlockDevice) (inm : List INode) (addr : ℕ)
    → Device.IsValid bd
    → AllFit inm
    → (length inm * sizeof_inode) % bd.bytes_per_block ≢ 0
    → addr + blocks_in_inode_map (length inm) bd.bytes_per_block ≤ bd.block_count
    → (write_inode_map bd inm addr (length inm) ≡ fault)
      × (read_inode_map bd addr (length inm) ≡ fault)
unfolding write_inode_map read_inode_map
inode_map_overrun bd inm addr v fit ragged inside =
    let n = blocks_in_inode_map (length inm) bd.bytes_per_block in
    let over = ceil_div_over (length inm * sizeof_inode) bd.bytes_per_block v.some_bytes ragged in
    (
      write_blocks-short n bd addr (map_memory inm) v inside
          (omega (arith, length-map_memory inm fit)),
      rw (read_inode_map, read_blocks-short n bd addr (length inm * sizeof_inode) v inside over),
    )
