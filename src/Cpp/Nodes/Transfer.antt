-- ===== src/Cpp/Nodes/Transfer.antt =====
-- my_Blocks_c++/inode.cc: writeiNodeMap and readiNodeMap, beside the loops over whole blocks of a
-- memory area.
use cs.Prelude.{
  ℕ, zero, suc, ◌+◌, ◌-◌, ◌*◌, ◌≤◌, ◌≡◌, refl, ap, ◌∙◌, sym, subst, true, some, List, [], ◌∷◌, ◌++◌,
  append-nil, append_assoc, arith, length, take, drop, length-take, length-drop, length-append,
  take-append, drop-append, pos, leb,
}
use cs.Prelude.Run.{ok}
use cs.Device.{BlockDevice, read_block, write_block}
use cs.Device
use cs.Device.Transfer.{write_block-Written, read_block-inside, block_bytes, length-window}
use cs.Device.Blocks.{read_blocks}
use cs.Device.Blocks.Laws.{Stored, Stored-suc, read_blocks-suc}
use cs.BlockMap.{read_buffer}
use cs.BlockMap.Bools.{drop-length}
use cs.BlockMap.Buffer.{read_buffer_of, write_buffer_of}
use cs.Cpp.Nodes.{sizeof_node, store_nodes, load_nodes, block_after}

pub drop-drop : (a b : ℕ) (xs : List ℕ) → drop b (drop a xs) ≡ drop (a + b) xs
drop-drop zero b xs = let e : 0 + b ≡ b = omega arith in rw e
drop-drop (suc a) zero [] = let e : suc a + 0 ≡ suc a = omega arith in rw e
drop-drop (suc a) (suc b) [] = let e : suc a + suc b ≡ suc (a + suc b) = omega arith in rw e
drop-drop (suc a) b (x ∷ xs) =
    let e : suc a + b ≡ suc (a + b) = omega arith in rw e (drop-drop a b xs)

-- The offset of block `i` in the array, where blocks hold whole inodes.
offset_of : (i ipb b : ℕ) → b ≡ ipb * sizeof_node → i * ipb * sizeof_node ≡ i * b
offset_of i ipb b e = rw e (grind arith)

store_nodes-suc :
    (n : ℕ) (bd : BlockDevice) (memory : List ℕ) (a ipb i : ℕ) {bd' : BlockDevice}
    → bd.bytes_per_block ≡ ipb * sizeof_node
    → i * bd.bytes_per_block + bd.bytes_per_block ≤ length memory
    → (write_block bd
        (pos (a + i))
        (take bd.bytes_per_block (drop (i * bd.bytes_per_block) memory))).0
      ≡ true
    → store_nodes n
        (write_block bd
          (pos (a + i))
          (take bd.bytes_per_block (drop (i * bd.bytes_per_block) memory))).1
        memory
        (pos a)
        ipb
        (i + 1)
      ≡ ok bd'
    → store_nodes (suc n) bd memory (pos a) ipb i ≡ ok bd'
unfolding store_nodes block_after
store_nodes-suc n bd memory a ipb i whole inside done rest =
    let b = bd.bytes_per_block in
    let fits : leb (i * b + b) (length memory) ≡ true = ground arith in
    rw
      (
        store_nodes,
        offset_of i ipb b whole,
        fits,
        block_after,
        write_buffer_of bd (pos (a + i)) (take b (drop (i * b) memory)) done,
      )
      rest

-- The loop of writeiNodeMap over blocks that hold whole inodes writes them one behind the other.
pub store_nodes-Stored :
    (n : ℕ) (bd : BlockDevice) (memory : List ℕ) (a ipb i : ℕ)
    → Device.IsValid bd
    → bd.bytes_per_block ≡ ipb * sizeof_node
    → a + i + n ≤ bd.block_count
    → (i + n) * bd.bytes_per_block ≤ length memory
    → (bd' : BlockDevice) × (store_nodes n bd memory (pos a) ipb i ≡ ok bd')
      × Stored bd n (a + i) (drop (i * bd.bytes_per_block) memory) bd'
unfolding store_nodes read_blocks
store_nodes-Stored zero bd memory a ipb i v whole h len = (
  bd,
  refl,
  record {
    valid = v;
    same_count = refl;
    same_bytes = refl;
    others = λ m p q. refl;
    reads_back = λ room p. let e : 0 * bd.bytes_per_block ≡ 0 = omega arith in rw e;
  },
)
store_nodes-Stored (suc n) bd memory a ipb i v whole h len =
    let b = bd.bytes_per_block in
    let buf = take b (drop (i * b) memory) in
    let reach : i * b + b + n * b ≤ length memory = grind arith in
    let (done, one) =
      write_block-Written bd (a + i) buf v (omega arith)
        (omega (arith, length-take b (drop (i * b) memory), length-drop (i * b) memory)) in
    let w = (write_block bd (pos (a + i)) buf).1 in
    let left : (i + 1 + n) * w.bytes_per_block ≤ length memory = rw one.same_bytes (grind arith) in
    let (bd', runs, rest) =
      store_nodes-Stored n w memory a ipb (i + 1) one.valid (one.same_bytes ∙ whole)
        (omega (arith, one.same_count)) left in
    let behind : drop ((i + 1) * w.bytes_per_block) memory ≡ drop b (drop (i * b) memory) =
      rw one.same_bytes (
        ap (λ t. drop t memory) (let e : (i + 1) * b ≡ i * b + b = grind arith in e)
        ∙ sym (drop-drop (i * b) b memory)) in
    let next : a + (i + 1) ≡ a + i + 1 = omega arith in
    (
      bd',
      store_nodes-suc n bd memory a ipb i whole (omega arith) done runs,
      Stored-suc n (a + i) (drop (i * b) memory) (omega arith) one (
          subst (λ t. Stored w n (a + i + 1) t bd') behind
            (subst (λ t. Stored w n t (drop ((i + 1) * w.bytes_per_block) memory) bd') next rest)),
    )

load_nodes-suc :
    (n : ℕ) (bd : BlockDevice) (pre old : List ℕ) (a ipb i : ℕ) {got done : List ℕ}
    → bd.bytes_per_block ≡ ipb * sizeof_node
    → length pre ≡ i * bd.bytes_per_block
    → bd.bytes_per_block ≤ length old
    → read_block bd (pos (a + i)) ≡ (true, got)
    → length got ≡ bd.bytes_per_block
    → load_nodes n bd ((pre ++ got) ++ drop bd.bytes_per_block old) (pos a) ipb (i + 1) ≡ ok done
    → load_nodes (suc n) bd (pre ++ old) (pos a) ipb i ≡ ok done
unfolding load_nodes block_after
load_nodes-suc n bd pre old a ipb i {got} whole at room reads size rest =
    let b = bd.bytes_per_block in
    let buf = take b (drop (i * b) (pre ++ old)) in
    let fits : leb (i * b + b) (length (pre ++ old)) ≡ true =
      ground (arith, length-append pre old) in
    let behind : drop (i * b) (pre ++ old) ≡ old =
      subst (λ t. drop t (pre ++ old) ≡ old) at (drop-append pre old) in
    let front : take (i * b) (pre ++ old) ≡ pre =
      subst (λ t. take t (pre ++ old) ≡ pre) at (take-append pre old) in
    let far : drop (i * b + b) (pre ++ old) ≡ drop b old =
      sym (drop-drop (i * b) b (pre ++ old)) ∙ ap (drop b) behind in
    let full : length buf ≡ length got =
      omega (arith, length-take b (drop (i * b) (pre ++ old)), ap length behind) in
    let buffer : read_buffer bd (pos (a + i)) buf ≡ ok got =
      read_buffer_of bd (pos (a + i)) buf got reads
      ∙ ap (λ t. ok (got ++ t)) (drop-length (length got) buf full)
      ∙ ap ok (append-nil got) in
    rw (load_nodes, offset_of i ipb b whole, fits, block_after, buffer, front, far)
      (rw (sym (append_assoc pre got (drop b old))) rest)

-- The loop of readiNodeMap over blocks that hold whole inodes reads them one behind the other.
pub load_nodes-read_blocks :
    (n : ℕ) (bd : BlockDevice) (pre old : List ℕ) (a ipb i room : ℕ)
    → Device.IsValid bd
    → bd.bytes_per_block ≡ ipb * sizeof_node
    → a + i + n ≤ bd.block_count
    → length pre ≡ i * bd.bytes_per_block
    → n * bd.bytes_per_block ≤ length old
    → n * bd.bytes_per_block ≤ room
    → (bytes : List ℕ) × (read_blocks n bd (a + i) room ≡ ok (some bytes))
      × (load_nodes n bd (pre ++ old) (pos a) ipb i
          ≡ ok (pre ++ (bytes ++ drop (n * bd.bytes_per_block) old)))
unfolding load_nodes read_blocks
load_nodes-read_blocks zero bd pre old a ipb i room v whole h at len fits =
    ([], refl, let e : 0 * bd.bytes_per_block ≡ 0 = omega arith in rw e)
load_nodes-read_blocks (suc n) bd pre old a ipb i room v whole h at len fits =
    let b = bd.bytes_per_block in
    let got = block_bytes bd (a + i) in
    let size : length got ≡ b = length-window bd.device_handle.byte ((a + i) * b) b in
    let first = read_block-inside (a + i) v (omega arith) in
    let split : suc n * b ≡ b + n * b = omega arith in
    let next : a + (i + 1) ≡ a + i + 1 = omega arith in
    let (bytes, reads, loads) =
      load_nodes-read_blocks n bd (pre ++ got) (drop b old) a ipb (i + 1) (room - b) v whole
        (omega arith)
        (length-append pre got ∙ (let e : (i + 1) * b ≡ i * b + b = grind arith in omega arith))
        (omega (arith, length-drop b old)) (omega arith) in
    let reads' : read_blocks n bd (a + i + 1) (room - b) ≡ ok (some bytes) =
      subst (λ t. read_blocks n bd t (room - b) ≡ ok (some bytes)) next reads in
    (
      got ++ bytes,
      read_blocks-suc n bd (a + i) room (omega arith) first reads',
      load_nodes-suc n bd pre old a ipb i whole at (omega arith) first size loads
          ∙ ap ok (
              append_assoc pre got (bytes ++ drop (n * b) (drop b old))
              ∙ ap (λ t. pre ++ t)
                  (sym (append_assoc got bytes (drop (n * b) (drop b old)))
                    ∙ ap (λ t. (got ++ bytes) ++ t)
                        (drop-drop b (n * b) old ∙ ap (λ t. drop t old) (sym split)))),
    )
