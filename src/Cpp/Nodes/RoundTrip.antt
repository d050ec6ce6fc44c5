-- ===== src/Cpp/Nodes/RoundTrip.antt =====
-- my_Blocks_c++/inode.cc: the map of inodes written and read back.
use cs.Prelude.{
  ℕ, ◌+◌, ◌*◌, ◌/◌, ◌%◌, ◌^◌, ◌<◌, ◌≤◌, ◌≡◌, refl, ap, ◌∙◌, sym, subst, true, some, List, [], ◌++◌,
  append-nil, arith, length, take, drop, take-length, pos, ltb, ◌==◌,
}
use cs.Prelude.Run.{ok}
use cs.Device.{BlockDevice, read_block, write_block}
use cs.Device
use cs.Device.Blocks.{read_blocks}
use cs.Device.Blocks.Laws.{Stored}
use cs.BlockMap.Bools.{drop-length}
use cs.Cpp.Nodes.{
  INode, nodes_memory, nodes_of, sizeof_node, load_nodes, short_of_bits, nodes_per_block,
  blocks_for, write_inode_map, read_inode_map,
}
use cs.Cpp.Nodes.Transfer.{store_nodes-Stored, load_nodes-read_blocks}
use cs.Cpp.Nodes.Image.{AllFit, length-nodes_memory, nodes_of-nodes_memory}

-- What reads back of a memory of whole blocks that was written.
read_back_whole :
    {bd bd' : BlockDevice} (n addr : ℕ) (memory : List ℕ)
    → Stored bd n addr memory bd'
    → n * bd.bytes_per_block ≡ length memory
    → (bytes : List ℕ) → read_blocks n bd' (addr + 0) (n * bd.bytes_per_block) ≡ ok (some bytes)
    → bytes ≡ memory
read_back_whole {bd} {bd'} n addr memory st size bytes reads =
    let room = n * bd.bytes_per_block in
    let zero_on : addr + 0 ≡ addr = omega arith in
    let stored = st.reads_back room (omega arith) in
    let same : read_blocks n bd' addr room ≡ ok (some bytes) =
      subst (λ t. read_blocks n bd' t room ≡ ok (some bytes)) zero_on reads in
    let taken : bytes ≡ take room memory = cc in
    taken ∙ ap (λ t. take t memory) size ∙ take-length memory

-- The blocks of a map of whole blocks are its bytes.
blocks_whole :
    (len ipb b : ℕ)
    → 0 < ipb
    → b ≡ ipb * sizeof_node
    → len % ipb ≡ 0
    → blocks_for len ipb * b ≡ len * sizeof_node
blocks_whole len ipb b h whole e =
    let k = len / ipb in
    let exact : len ≡ k * ipb = grind arith in
    let full : (len % ipb == 0) ≡ true = ground arith in
    let assoc : k * (ipb * sizeof_node) ≡ k * ipb * sizeof_node = grind arith in
    let plain : k + 0 ≡ k = omega arith in
    rw (full, plain, whole, assoc) (ap (λ t. t * sizeof_node) (sym exact))

-- readiNodeMap, when the memory has been loaded.
read_inode_map-loads :
    (bd : BlockDevice) (old : List INode) (addr num ipb : ℕ) {memory : List ℕ}
    → nodes_per_block bd.bytes_per_block ≡ ipb
    → 0 < ipb
    → addr < 2 ^ 15
    → load_nodes (blocks_for num ipb) bd (nodes_memory old) (pos addr) ipb 0 ≡ ok memory
    → read_inode_map bd old addr num ≡ ok (nodes_of (length old) memory)
unfolding read_inode_map
read_inode_map-loads bd old addr num ipb same some_nodes short loads =
    let tested : ltb 0 ipb ≡ true = ground arith in
    let address : short_of_bits (addr % 2 ^ 16) ≡ pos addr = ground arith in
    rw (read_inode_map, same, tested, address, loads) refl

-- readiNodeMap of a device where the memory of a map of whole blocks has been stored.
pub read_inode_map-Stored :
    (bd bd' : BlockDevice) (xs old : List INode) (addr : ℕ)
    → Device.IsValid bd
    → AllFit xs
    → AllFit old
    → length old ≡ length xs
    → bd.bytes_per_block % sizeof_node ≡ 0
    → length xs % nodes_per_block bd.bytes_per_block ≡ 0
    → addr + blocks_for (length xs) (nodes_per_block bd.bytes_per_block) ≤ bd.block_count
    → addr < 2 ^ 15
    → Stored bd
        (blocks_for (length xs) (nodes_per_block bd.bytes_per_block))
        addr
        (nodes_memory xs)
        bd'
    → read_inode_map bd' old addr (length xs) ≡ ok xs
read_inode_map-Stored bd bd' xs old addr v fit fit_old len whole full inside short st =
    let b = bd.bytes_per_block in
    let ipb = nodes_per_block b in
    let n = blocks_for (length xs) ipb in
    let exact : b ≡ ipb * sizeof_node = omega arith in
    let some_nodes : 0 < ipb = omega (arith, v.some_bytes) in
    let size : n * b ≡ length (nodes_memory xs) =
      blocks_whole (length xs) ipb b some_nodes exact full ∙ sym (length-nodes_memory xs fit) in
    let size_old : n * b ≡ length (nodes_memory old) =
      size
      ∙ length-nodes_memory xs fit
      ∙ ap (λ t. t * sizeof_node) (sym len)
      ∙ sym (length-nodes_memory old fit_old) in
    let same : bd'.bytes_per_block ≡ b = st.same_bytes in
    let (bytes, reads, loads) =
      load_nodes-read_blocks n bd' [] (nodes_memory old) addr ipb 0 (n * b) st.valid (same ∙ exact)
        (omega (arith, st.same_count)) (omega arith) (omega (arith, ap (λ t. n * t) same))
        (omega (arith, ap (λ t. n * t) same)) in
    let back : bytes ≡ nodes_memory xs =
      read_back_whole n addr (nodes_memory xs) st size bytes reads in
    let tail : drop (n * bd'.bytes_per_block) (nodes_memory old) ≡ [] =
      drop-length (n * bd'.bytes_per_block) (nodes_memory old)
        (omega (arith, ap (λ t. n * t) same)) in
    let loaded : load_nodes n bd' (nodes_memory old) (pos addr) ipb 0 ≡ ok (nodes_memory xs) =
      loads ∙ ap ok (ap (λ t. bytes ++ t) tail ∙ append-nil bytes ∙ back) in
    let out : nodes_of (length old) (nodes_memory xs) ≡ xs =
      ap (λ t. nodes_of t (nodes_memory xs)) len ∙ nodes_of-nodes_memory xs fit in
    read_inode_map-loads bd' old addr (length xs) ipb (ap nodes_per_block same) some_nodes short
      loaded
    ∙ ap ok out

-- writeiNodeMap of a map of whole blocks stores its memory.
pub write_inode_map-Stored :
    (bd : BlockDevice) (xs : List INode) (addr : ℕ)
    → Device.IsValid bd
    → AllFit xs
    → bd.bytes_per_block % sizeof_node ≡ 0
    → length xs % nodes_per_block bd.bytes_per_block ≡ 0
    → addr + blocks_for (length xs) (nodes_per_block bd.bytes_per_block) ≤ bd.block_count
    → addr < 2 ^ 15
    → (bd' : BlockDevice) × (write_inode_map bd xs addr (length xs) ≡ ok bd')
      × Stored bd
          (blocks_for (length xs) (nodes_per_block bd.bytes_per_block))
          addr
          (nodes_memory xs)
          bd'
unfolding write_inode_map
write_inode_map-Stored bd xs addr v fit whole full inside short =
    let b = bd.bytes_per_block in
    let ipb = nodes_per_block b in
    let n = blocks_for (length xs) ipb in
    let exact : b ≡ ipb * sizeof_node = omega arith in
    let some_nodes : 0 < ipb = omega (arith, v.some_bytes) in
    let tested : ltb 0 ipb ≡ true = ground arith in
    let address : short_of_bits (addr % 2 ^ 16) ≡ pos addr = ground arith in
    let size : n * b ≡ length (nodes_memory xs) =
      blocks_whole (length xs) ipb b some_nodes exact full ∙ sym (length-nodes_memory xs fit) in
    let zero_on : addr + 0 ≡ addr = omega arith in
    let none_off : 0 * b ≡ 0 = omega arith in
    let (bd', wrote, st) =
      store_nodes-Stored n bd (nodes_memory xs) addr ipb 0 v exact (omega arith)
        (let e : (0 + n) * b ≡ n * b = grind arith in omega arith) in
    (
      bd',
      rw (write_inode_map, tested, address) wrote,
      subst (λ t. Stored bd n t (nodes_memory xs) bd') zero_on
          (subst (λ t. Stored bd n (addr + 0) (drop t (nodes_memory xs)) bd') none_off st),
    )

-- A map of inodes that all fit their fields, whose blocks are whole multiples of an inode and of the
-- map, on a valid device with room for it at an address below 2 ^ 15: writeiNodeMap succeeds, and
-- readiNodeMap into any map of that length that fits gives it back.
pub node_map_round_trip :
    (bd : BlockDevice) (xs old : List INode) (addr : ℕ)
    → Device.IsValid bd
    → AllFit xs
    → AllFit old
    → length old ≡ length xs
    → bd.bytes_per_block % sizeof_node ≡ 0
    → length xs % nodes_per_block bd.bytes_per_block ≡ 0
    → addr + blocks_for (length xs) (nodes_per_block bd.bytes_per_block) ≤ bd.block_count
    → addr < 2 ^ 15
    → (bd' : BlockDevice) × (write_inode_map bd xs addr (length xs) ≡ ok bd')
      × (read_inode_map bd' old addr (length xs) ≡ ok xs)
      × Stored bd
          (blocks_for (length xs) (nodes_per_block bd.bytes_per_block))
          addr
          (nodes_memory xs)
          bd'
node_map_round_trip bd xs old addr v fit fit_old len whole full inside short =
    let (bd', wrote, st) = write_inode_map-Stored bd xs addr v fit whole full inside short in
    (
      bd',
      wrote,
      read_inode_map-Stored bd bd' xs old addr v fit fit_old len whole full inside short st,
      st,
    )
