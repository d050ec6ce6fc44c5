-- ===== src/Cpp/Nodes/Padded.antt =====
-- my_Blocks_c++/inode.cc: where the blocks of a map end, and the loops of writeiNodeMap and
-- readiNodeMap over an array that is followed by enough memory.
use cs.Prelude.{
  ℕ, zero, suc, ◌+◌, ◌-◌, ◌*◌, ◌/◌, ◌%◌, ◌<◌, ◌≢◌, ◌⊎◌, inl, inr, ap, ◌==◌, false, ◌≤◌, ◌≡◌, refl,
  ◌∙◌, true, List, ◌++◌, arith, length, take, drop, length-take, length-drop, length-append, pos,
  leb,
}
use native.Mathlib.Decide.{dec_lt, ℕ_discrete}
use cs.Prelude.Run.{ok}
use cs.Device.{BlockDevice, read_block, write_block}
use cs.Device
use cs.Device.Transfer.{write_block-Written, read_block-inside, block_bytes, length-window}
use cs.BlockMap.Buffer.{read_buffer_of, write_buffer_of}
use cs.Cpp.Nodes.{sizeof_node, store_nodes, load_nodes, block_after, blocks_for}

-- The last block of a map that does not fill its blocks begins in the array and ends behind it.
pub last_block_over :
    (len b ipb : ℕ)
    → 0 < len
    → 0 < ipb
    → ipb ≡ b / sizeof_node
    → (b % sizeof_node ≢ 0) ⊎ (len % ipb ≢ 0)
    → (n : ℕ) × (blocks_for len ipb ≡ suc n)
      × (len * sizeof_node < n * ipb * sizeof_node + b)
      × (n * ipb ≤ len)
last_block_over len b ipb some_nodes h e ragged =
    let k = len / ipb in
    let r = len % ipb in
    let whole : len ≡ k * ipb + r = grind arith in
    elim (ℕ_discrete r 0) [
      | yes full ↦
          let longer : ipb * sizeof_node < b = elim ragged [
            | inl odd ↦ grind arith
            | inr odd ↦ absurd (odd full)
          ] in
          let some_blocks : 0 < k = elim (dec_lt 0 k) [
            | yes p ↦ p
            | no p ↦
                let none : k ≡ 0 = omega arith in absurd (omega (arith, ap (λ t. t * ipb) none))
          ] in
          let before : k ≡ suc (k - 1) = omega arith in
          let times : k * ipb ≡ (k - 1) * ipb + ipb = ap (λ t. t * ipb) before ∙ (grind arith) in
          let test : (len % ipb == 0) ≡ true = ground arith in
          (k - 1, rw test (omega arith), omega arith, omega arith)
      | no over ↦
          let under : r < ipb = grind arith in
          let test : (len % ipb == 0) ≡ false = ground arith in
          (k, rw test (omega arith), omega arith, omega arith)
    ]

pub store_nodes-padded :
    (n : ℕ) (bd : BlockDevice) (memory : List ℕ) (a ipb i : ℕ)
    → Device.IsValid bd
    → a + i + n ≤ bd.block_count
    → (i + n) * ipb * sizeof_node + bd.bytes_per_block ≤ length memory + ipb * sizeof_node
    → (bd' : BlockDevice) × (store_nodes n bd memory (pos a) ipb i ≡ ok bd')
unfolding store_nodes
store_nodes-padded zero bd memory a ipb i v inside long = (bd, refl)
store_nodes-padded (suc n) bd memory a ipb i v inside long =
    let b = bd.bytes_per_block in
    let off = i * ipb * sizeof_node in
    let buf = take b (drop off memory) in
    let later : off + n * ipb * sizeof_node + b ≤ length memory = grind arith in
    let fits : leb (off + b) (length memory) ≡ true = ground arith in
    let (done, one) =
      write_block-Written bd (a + i) buf v (omega arith)
        (omega (arith, length-take b (drop off memory), length-drop off memory)) in
    let w = (write_block bd (pos (a + i)) buf).1 in
    let (bd', runs) =
      store_nodes-padded n w memory a ipb (i + 1) one.valid (omega (arith, one.same_count))
        (grind (arith, one.same_bytes)) in
    (bd', rw (store_nodes, fits, block_after, write_buffer_of bd (pos (a + i)) buf done) runs)

pub load_nodes-padded :
    (n : ℕ) (bd : BlockDevice) (memory : List ℕ) (a ipb i : ℕ)
    → Device.IsValid bd
    → a + i + n ≤ bd.block_count
    → (i + n) * ipb * sizeof_node + bd.bytes_per_block ≤ length memory + ipb * sizeof_node
    → (memory' : List ℕ) × (load_nodes n bd memory (pos a) ipb i ≡ ok memory')
unfolding load_nodes
load_nodes-padded zero bd memory a ipb i v inside long = (memory, refl)
load_nodes-padded (suc n) bd memory a ipb i v inside long =
    let b = bd.bytes_per_block in
    let off = i * ipb * sizeof_node in
    let buf = take b (drop off memory) in
    let later : off + n * ipb * sizeof_node + b ≤ length memory = grind arith in
    let fits : leb (off + b) (length memory) ≡ true = ground arith in
    let reads = read_block-inside (a + i) v (omega arith) in
    let got = block_bytes bd (a + i) in
    let read = got ++ drop (length got) buf in
    let after = take off memory ++ (read ++ drop (off + b) memory) in
    let size : length got ≡ b = length-window bd.device_handle.byte ((a + i) * b) b in
    let same : length after ≡ length memory = omega (
      arith,
      length-append (take off memory) (read ++ drop (off + b) memory),
      length-append read (drop (off + b) memory),
      length-append got (drop (length got) buf),
      length-take off memory,
      length-drop (off + b) memory,
      length-drop (length got) buf,
      length-take b (drop off memory),
      length-drop off memory,
    ) in
    let (memory', runs) =
      load_nodes-padded n bd after a ipb (i + 1) v (omega arith) (grind (arith, same)) in
    (
      memory',
      rw (load_nodes, fits, block_after, read_buffer_of bd (pos (a + i)) buf got reads) runs,
    )
