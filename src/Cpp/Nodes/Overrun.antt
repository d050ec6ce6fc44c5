-- ===== src/Cpp/Nodes/Overrun.antt =====
-- my_Blocks_c++/inode.cc: maps whose last block is not whole in the array.
use cs.Prelude.{
  ℕ, zero, suc, ◌+◌, ◌-◌, ◌*◌, ◌%◌, ◌^◌, ◌<◌, ◌≤◌, ◌≡◌, ◌≢◌, ◌⊎◌, inl, inr, refl, ap, ◌∙◌, sym,
  true, false, List, ◌++◌, arith, length, take, drop, length-take, length-drop, length-append, min,
  ℤ, leb, ltb, Bool-cases, mul_int, pos, negsuc,
}
use cs.Prelude.Run.{Run, ok, fault, ◌>>=◌}
use cs.Device.{BlockDevice, read_at}
use cs.Device.Transfer.{length-window}
use cs.BlockMap.{read_buffer, write_buffer}
use cs.Cpp.Nodes.{
  INode, nodes_memory, sizeof_node, store_nodes, load_nodes, block_after, short_of_bits,
  nodes_per_block, blocks_for, write_inode_map, read_inode_map,
}
use cs.Cpp.Nodes.Image.{AllFit, length-nodes_memory}
use cs.Cpp.Nodes.Padded.{last_block_over, store_nodes-padded, load_nodes-padded}
use cs.Prelude.Bytes.{zeros, length-zeros}
use cs.Device

>>=-fault {ℓ κ} :
    {V : Type ℓ} {W : Type κ} (m : Run V) (k : V → Run W)
    → ((v : V) → m ≡ ok v → k v ≡ fault)
    → (m >>= k) ≡ fault
>>=-fault fault k h = refl
>>=-fault (ok v) k h = h v refl

write_buffer-keeps :
    (bd : BlockDevice) (n : ℤ) (buff : List ℕ) (bd' : BlockDevice)
    → write_buffer bd n buff ≡ ok bd'
    → bd'.bytes_per_block ≡ bd.bytes_per_block
unfolding write_buffer
write_buffer-keeps bd n buff bd' e = grind arith

length-read_at-le : (bd : BlockDevice) (off n : ℕ) → length (read_at bd.device_handle off n) ≤ n
unfolding read_at
length-read_at-le bd off n =
    let f = bd.device_handle in omega (arith, length-window f.byte off (min n (f.size - off)))

length-over :
    (got buff : List ℕ) (b : ℕ)
    → length got ≤ b
    → length buff ≡ b
    → length (got ++ drop (length got) buff) ≡ b
length-over got buff b le e =
    omega (arith, length-append got (drop (length got) buff), length-drop (length got) buff)

read_buffer-length :
    (bd : BlockDevice) (n : ℤ) (buff got : List ℕ)
    → length buff ≡ bd.bytes_per_block
    → read_buffer bd n buff ≡ ok got
    → length got ≡ bd.bytes_per_block
unfolding read_buffer
read_buffer-length bd n buff got e runs = split (mul_int n bd.bytes_per_block) runs
  where
    split :
        (z : ℤ)
        → elim z as (λ z. Run (List ℕ)) [
          | negsuc m ↦ fault
          | pos off ↦ ok (
              read_at bd.device_handle off bd.bytes_per_block
              ++ drop (length (read_at bd.device_handle off bd.bytes_per_block)) buff)
        ]
          ≡ ok got
        → length got ≡ bd.bytes_per_block
    split (negsuc m) runs = absurd (cc)
    split (pos off) runs =
        let bytes = read_at bd.device_handle off bd.bytes_per_block in
        let same : bytes ++ drop (length bytes) buff ≡ got = cc in
        ap length (sym same)
        ∙ length-over bytes buff bd.bytes_per_block (length-read_at-le bd off bd.bytes_per_block) e

-- The loop of writeiNodeMap with a last block that ends behind the array.
store_nodes-short :
    (n : ℕ) (bd : BlockDevice) (memory : List ℕ) (addr : ℤ) (ipb i : ℕ)
    → length memory < (i + n) * ipb * sizeof_node + bd.bytes_per_block
    → store_nodes (suc n) bd memory addr ipb i ≡ fault
unfolding store_nodes
store_nodes-short zero bd memory addr ipb i short =
    let same : i + 0 ≡ i = omega arith in
    let over : leb (i * ipb * sizeof_node + bd.bytes_per_block) (length memory) ≡ false =
      ground (arith, ap (λ t. t * ipb * sizeof_node) same) in
    rw (store_nodes, over)
store_nodes-short (suc n) bd memory addr ipb i short =
    let off = i * ipb * sizeof_node in
    elim (Bool-cases (leb (off + bd.bytes_per_block) (length memory))) [
      | inr over ↦ rw (store_nodes, over)
      | inl fits ↦
          rw (store_nodes, fits)
            (>>=-fault
              (write_buffer bd (block_after addr i) (take bd.bytes_per_block (drop off memory)))
              (λ (bd' : BlockDevice). store_nodes (suc n) bd' memory addr ipb (i + 1))
              (λ bd' e. store_nodes-short n bd' memory addr ipb (i + 1) (
                let kept =
                  write_buffer-keeps bd (block_after addr i)
                    (take bd.bytes_per_block (drop off memory)) bd' e in
                let same : i + 1 + n ≡ i + suc n = omega arith in
                omega (arith, ap (λ t. t * ipb * sizeof_node) same))))
    ]

-- The loop of readiNodeMap with a last block that ends behind the array.
load_nodes-short :
    (n : ℕ) (bd : BlockDevice) (memory : List ℕ) (addr : ℤ) (ipb i : ℕ)
    → length memory < (i + n) * ipb * sizeof_node + bd.bytes_per_block
    → load_nodes (suc n) bd memory addr ipb i ≡ fault
unfolding load_nodes
load_nodes-short zero bd memory addr ipb i short =
    let same : i + 0 ≡ i = omega arith in
    let over : leb (i * ipb * sizeof_node + bd.bytes_per_block) (length memory) ≡ false =
      ground (arith, ap (λ t. t * ipb * sizeof_node) same) in
    rw (load_nodes, over)
load_nodes-short (suc n) bd memory addr ipb i short =
    let off = i * ipb * sizeof_node in
    let b = bd.bytes_per_block in
    let buf = take b (drop off memory) in
    let after = λ (got : List ℕ). take off memory ++ (got ++ drop (off + b) memory) in
    elim (Bool-cases (leb (off + b) (length memory))) [
      | inr over ↦ rw (load_nodes, over)
      | inl fits ↦
          let inside : off + b ≤ length memory = ground arith in
          let full : length buf ≡ b =
            omega (arith, length-take b (drop off memory), length-drop off memory) in
          rw (load_nodes, fits)
            (>>=-fault (read_buffer bd (block_after addr i) buf)
              (λ (got : List ℕ). load_nodes (suc n) bd (after got) addr ipb (i + 1))
              (λ got e. load_nodes-short n bd (after got) addr ipb (i + 1) (
                let size = read_buffer-length bd (block_after addr i) buf got full e in
                let same : i + 1 + n ≡ i + suc n = omega arith in
                omega (
                  arith,
                  ap (λ t. t * ipb * sizeof_node) same,
                  length-append (take off memory) (got ++ drop (off + b) memory),
                  length-append got (drop (off + b) memory),
                  length-take off memory,
                  length-drop (off + b) memory,
                ))))
    ]

-- On a valid device with at least 128 bytes in a block, for a map with at least one inode, all of
-- which fit their C types, at an address below 2 ^ 15 with room for its blocks, where 128 does
-- not divide the block size or the inodes do not fill their blocks, writeiNodeMap and
-- readiNodeMap of the C++ version fault; their loops over the same array, followed by the bytes
-- of a block, end well.
pub node_map_overrun :
    (bd : BlockDevice) (xs : List INode) (addr : ℕ)
    → Device.IsValid bd
    → AllFit xs
    → 0 < length xs
    → sizeof_node ≤ bd.bytes_per_block
    → (bd.bytes_per_block % sizeof_node ≢ 0) ⊎ (length xs % nodes_per_block bd.bytes_per_block ≢ 0)
    → addr < 2 ^ 15
    → addr + blocks_for (length xs) (nodes_per_block bd.bytes_per_block) ≤ bd.block_count
    → let b = bd.bytes_per_block in
      let blks = blocks_for (length xs) (nodes_per_block b) in
      let padded = nodes_memory xs ++ zeros b in
      (write_inode_map bd xs addr (length xs) ≡ fault)
      × (read_inode_map bd xs addr (length xs) ≡ fault)
      × ((bd' : BlockDevice) × (store_nodes blks bd padded (pos addr) (nodes_per_block b) 0
            ≡ ok bd'))
      × ((memory : List ℕ) × (load_nodes blks bd padded (pos addr) (nodes_per_block b) 0
            ≡ ok memory))
unfolding write_inode_map read_inode_map
node_map_overrun bd xs addr v fit some_nodes big ragged short_addr inside =
    let b = bd.bytes_per_block in
    let ipb = nodes_per_block b in
    let some_ipb : 0 < ipb = omega arith in
    let tested : ltb 0 ipb ≡ true = ground arith in
    let (n, blocks, over, begins) =
      last_block_over (length xs) b ipb some_nodes some_ipb refl ragged in
    let size = length-nodes_memory xs fit in
    let zero_on : 0 + n ≡ n = omega arith in
    let short : length (nodes_memory xs) < (0 + n) * ipb * sizeof_node + b =
      omega (arith, size, ap (λ t. t * ipb * sizeof_node) zero_on) in
    let a = short_of_bits (addr % 2 ^ 16) in
    let blks = blocks_for (length xs) ipb in
    let whole : (0 + blks) * ipb ≡ n * ipb + ipb = ap (λ t. (0 + t) * ipb) blocks ∙ (grind arith) in
    let long : (0 + blks) * ipb * sizeof_node + b
        ≤ length (nodes_memory xs ++ zeros b) + ipb * sizeof_node =
      omega
        (arith, whole, begins, size, length-append (nodes_memory xs) (zeros b), length-zeros b) in
    (
      rw (write_inode_map, tested, blocks) (store_nodes-short n bd (nodes_memory xs) a ipb 0 short),
      rw (read_inode_map, tested, blocks, load_nodes-short n bd (nodes_memory xs) a ipb 0 short)
          refl,
      store_nodes-padded blks bd (nodes_memory xs ++ zeros b) addr ipb 0 v (omega arith) long,
      load_nodes-padded blks bd (nodes_memory xs ++ zeros b) addr ipb 0 v (omega arith) long,
    )
