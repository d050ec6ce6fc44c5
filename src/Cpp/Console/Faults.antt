-- ===== src/Cpp/Console/Faults.antt =====
-- my_Blocks_c++/my_shell.cpp: how the shell goes astray.
use cs.Prelude.{
  ℕ, zero, suc, ◌+◌, ◌-◌, ◌*◌, ◌/◌, replicate, ◌<◌, ◌≤◌, ◌≡◌, refl, sym, ap, subst, Bool, true,
  false, none, List, [], ◌∷◌, arith, ltb, pos, set,
}
use native.Mathlib.Decide.{dec_lt}
use cs.Prelude.Run.{ok, fault}
use cs.Device.{Entry}
use cs.BitSet.{ceil_div}
use cs.BlockMap.{BlockMap, alloc_block, alloc_from, get_bit, set_bit}
use cs.Text.{is_delim}
use cs.Cpp.Host.{construct_device, remove}
use cs.Cpp.Master.{alloc_master_block, node_count, sizeof_master_block}
use cs.Cpp.Console.Remount.{volume_of}
use cs.Cpp.Console.Making.Parts.{first_map, first_nodes, prepare-runs}
use cs.Cpp.Master.Layout.{blocks_for-le, node_count-quarter, alloc_master_block-laid_out}
use cs.Cpp.Nodes.{allocate_inode_map, nodes_per_block, blocks_for}
use cs.Cpp.Console.Words.{first_word, first_delimiters}
use cs.Cpp.Console.Volume.{World, Mounted, prepare, make_volume, mapaddr}
use cs.Cpp.Console.{Console, console_step}

node_count-small : (b n p : ℕ) → b < 128 → node_count b n p ≡ 0
unfolding node_count
node_count-small b n p h =
    let none : b / 128 ≡ 0 = omega arith in
    let empty : (n - (p + 1)) / 4 * (b / 128) ≡ 0 = rw none (omega arith) in ground arith

alloc_master_block-tiny :
    (b n addr : ℕ) → ltb (b + 1) sizeof_master_block ≡ true → alloc_master_block b n addr ≡ fault
unfolding alloc_master_block
alloc_master_block-tiny b n addr over = rw (alloc_master_block, over) refl

allocate_inode_map-none : allocate_inode_map 0 ≡ fault
unfolding allocate_inode_map
allocate_inode_map-none = refl

-- Newfs of the C++ shell with fewer than 128 bytes in a block faults, on every host and for every
-- number of blocks.
pub make_volume-small : (w : World) (e : Entry) (b n : ℕ) → b < 128 → make_volume w e b n ≡ fault
unfolding make_volume prepare
make_volume-small w e b n h = elim (dec_lt b 31) [
  | yes tiny ↦
      let over : ltb (b + 1) sizeof_master_block ≡ true = ground arith in
      let runs : alloc_master_block b n mapaddr ≡ fault =
        alloc_master_block-tiny b n mapaddr over in
      rw (make_volume, prepare, runs) refl
  | no enough ↦
      let none_there : node_count b n (ceil_div n b) ≡ 0 = node_count-small b n (ceil_div n b) h in
      rw
        (
          make_volume,
          prepare,
          alloc_master_block-laid_out b n mapaddr (omega arith),
          none_there,
          allocate_inode_map-none,
        )
        refl
]

-- Only delimiters.
abbrev pub AllDelimiters : List ℕ → Type 0
AllDelimiters [] = Unit
AllDelimiters (c ∷ cs) = (is_delim first_delimiters c ≡ true) × AllDelimiters cs

first_word-none : (line : List ℕ) → AllDelimiters line → first_word first_delimiters [] line ≡ none
unfolding first_word
first_word-none [] h = refl
first_word-none (c ∷ cs) h = rw (first_word, h.0) (first_word-none cs h.1)

-- A line of delimiters only is a fault, since strcmp follows the NULL that strtok gives.
pub console_step-no_word :
    (w : World) (c : Console) (line : List ℕ) → AllDelimiters line → console_step w c line ≡ fault
unfolding console_step
console_step-no_word w c line blank = rw (console_step, first_word-none line blank) refl

alloc_block-fourth :
    (k : ℕ) (bs : List Bool)
    → alloc_block (record { sz = suc (suc (suc (suc k))); bools = true ∷ true ∷ true ∷ false ∷ bs })
      ≡ ok (pos 3, record { sz = suc (suc (suc (suc k))); bools = true ∷ true ∷ true ∷ true ∷ bs })
unfolding alloc_block alloc_from get_bit set_bit
alloc_block-fourth k bs = refl

needs_nodes : (x ipb : ℕ) → 1 < blocks_for x ipb → 0 < x
needs_nodes zero ipb h = absurd (ground arith)
needs_nodes (suc x) ipb h = omega arith

ceil_div_one : (n b : ℕ) → 0 < n → n ≤ b → ceil_div n b ≡ 1
ceil_div_one n b h le = grind arith

-- The map of newfs for a device whose block map has one block.
first_map-alloc :
    (b n k : ℕ)
    → n ≡ suc (suc (suc (suc k)))
    → ceil_div n b ≡ 1
    → (m : BlockMap) × (alloc_block (first_map b n) ≡ ok (pos 3, m))
first_map-alloc b n k e one =
    let after : BlockMap = record {
      sz = suc (suc (suc (suc k)));
      bools = true ∷ true ∷ true ∷ true ∷ replicate k false;
    } in
    (
      after,
      subst
          (λ c.
            alloc_block (record {
              sz = n;
              bools = set (set (set (replicate n false) (mapaddr + c) true) mapaddr true) 0 true;
            })
            ≡ ok (pos 3, after))
          (sym one)
          (subst
            (λ t.
              alloc_block (record {
                sz = t;
                bools = set (set (set (replicate t false) 2 true) 1 true) 0 true;
              })
              ≡ ok (pos 3, after))
            (sym e) (alloc_block-fourth k (replicate k false))),
    )

-- For blocks of at least 128 bytes and no more blocks than a block has bytes, where the inodes
-- need more than one block, the map that newfs of the C++ shell prepares gives block 3 to the
-- first allocBlock, which lies inside the inode map.
pub alloc_block-in_inode_map :
    (w : World) (e : Entry) (b n : ℕ)
    → 128 ≤ b
    → n ≤ b
    → 1 < blocks_for (node_count b n 1) (nodes_per_block b)
    → (s : Mounted) × (m : BlockMap) × (prepare w e b n ≡ ok s)
      × (alloc_block s.bmp ≡ ok (pos 3, m))
      × (s.mbl.disk_address_inode_map ≡ 2)
      × (3 < s.mbl.disk_address_inode_map + blocks_for s.mbl.inode_cnt (nodes_per_block b))
alloc_block-in_inode_map w e b n large fits several =
    let quarter =
      blocks_for-le (node_count b n 1) ((n - 2) / 4) (nodes_per_block b) (omega (arith, large))
        (node_count-quarter b n 1) in
    let enough : 10 ≤ n = omega arith in
    let one : ceil_div n b ≡ 1 = ceil_div_one n b (omega arith) fits in
    let count : node_count b n (ceil_div n b) ≡ node_count b n 1 = ap (node_count b n) one in
    let some_nodes : 0 < node_count b n 1 =
      needs_nodes (node_count b n 1) (nodes_per_block b) several in
    let (m, runs) = first_map-alloc b n (n - 4) (omega arith) one in
    let made = construct_device (remove e) b n in
    (
      volume_of b n made.0 (first_map b n) (first_nodes w b n),
      m,
      prepare-runs w e made.1 b n made.0 refl large (omega (arith, count)) (omega arith),
      runs,
      omega arith,
      (let t : blocks_for (node_count b n (ceil_div n b)) (nodes_per_block b)
              ≡ blocks_for (node_count b n 1) (nodes_per_block b) =
            ap (λ c. blocks_for c (nodes_per_block b)) count in
          omega arith),
    )
