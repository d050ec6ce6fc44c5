-- ===== src/Cpp/Console/Making/Parts.antt =====
-- my_Blocks_c++/my_shell.cpp: what newfs puts together before it writes, and its first block.
use cs.Prelude.{
  ℕ, zero, suc, ◌+◌, ◌-◌, ◌*◌, ◌/◌, ◌^◌, ◌<◌, ◌≤◌, ◌≡◌, refl, ap, ◌∙◌, sym, Bool, true, false, some,
  List, [], ◌∷◌, ◌++◌, arith, length, take, pos, ℤ, set, get_or, get_elem?, replicate,
  length-replicate, length-set, length-take, Bool-cases, inl, inr, minus_one,
}
use cs.Prelude.Run.{ok}
use cs.Device
use cs.Device.{File, Entry, regular, missing, BlockDevice, write_block, open_create}
use cs.Device.Transfer.{Written, write_block-Written}
use cs.BitSet.{ceil_div}
use cs.BlockMap.{BlockMap, alloc_block_map, set_bit}
use cs.BlockMap.Bools.{get_elem?-get_or}
use cs.BlockMap.Buffer.{write_buffer_of}
use cs.Cpp.Host.{construct_device, device_on, remove}
use cs.Cpp.Master.{sizeof_master_block, master_memory, node_count, write_master_block}
use cs.Cpp.Master.Layout.{laid_out, alloc_master_block-laid_out}
use cs.Cpp.Nodes.{INode, blank_nodes}
use cs.Cpp.Nodes.Image.{AllFit}
use cs.Cpp.Nodes.Blank.{allocate_inode_map-blank}
use native.Mathlib.Decide.{dec_lt}
use cs.Cpp.Console.Remount.{volume_of, nodes_at}
use cs.Cpp.Console.Volume.{World, init_nodes, prepare, mapaddr, mbloc}

set_same : (bs : List Bool) (i : ℕ) (v : Bool) → get_elem? bs i ≡ some v → set bs i v ≡ bs
set_same [] i v e = refl
set_same (x ∷ bs) zero v e = ground arith
set_same (x ∷ bs) (suc i) v e = ap (λ t. x ∷ t) (set_same bs i v e)

-- setBit of an index of the map, whether its bit is set or not.
set_bit-sets :
    (b : BlockMap) (i : ℕ)
    → i < length b.bools
    → (z : ℤ) × (set_bit b i ≡ ok (z, record b { bools = set b.bools i true }))
unfolding set_bit
set_bit-sets b i lt =
    let at = get_elem?-get_or b.bools i lt in
    elim (Bool-cases (get_or b.bools i false)) [
      | inl on ↦
          let there : get_elem? b.bools i ≡ some true = at ∙ ap some on in
          (
            minus_one,
            rw (set_bit, there)
                (ap (λ t. ok (minus_one, record b { bools = t }))
                  (sym (set_same b.bools i true there))),
          )
      | inr off ↦
          let there : get_elem? b.bools i ≡ some false = at ∙ ap some off in
          (pos 0, rw (set_bit, there) refl)
    ]

-- The block map of newfs.
abbrev pub first_map : ℕ → ℕ → BlockMap
first_map b n = record {
  sz = n;
  bools = set (set (set (replicate n false) (nodes_at b n) true) mapaddr true) 0 true;
}

pub init_nodes-fit :
    (now i n : ℕ)
    → now < 2 ^ 64
    → i + n ≤ 128
    → AllFit (init_nodes now i (blank_nodes n)) × (length (init_nodes now i (blank_nodes n)) ≡ n)
unfolding init_nodes
init_nodes-fit now i zero small le = (tt, refl)
init_nodes-fit now i (suc n) small le =
    let (fit, len) = init_nodes-fit now (i + 1) n small (omega arith) in
    ((ground arith, fit), ap suc len)

-- What newfs has put together when it begins to write.
abbrev pub first_nodes : World → ℕ → ℕ → List INode
first_nodes w b n = init_nodes w.now 0 (blank_nodes (node_count b n (ceil_div n b)))

pub prepare-runs :
    (w : World) (e e1 : Entry) (b n : ℕ) (bdv : BlockDevice)
    → construct_device (remove e) b n ≡ (bdv, e1)
    → 128 ≤ b
    → 0 < node_count b n (ceil_div n b)
    → nodes_at b n < n
    → prepare w e b n ≡ ok (volume_of b n bdv (first_map b n) (first_nodes w b n))
unfolding prepare alloc_block_map
prepare-runs w e e1 b n bdv made big_enough some_nodes lt =
    let c = nodes_at b n in
    let zeros = replicate n false in
    let one = set zeros c true in
    let two = set one mapaddr true in
    let len = length-replicate n false in
    let (z0, s0) = set_bit-sets (record { sz = n; bools = zeros }) c (omega (arith, len)) in
    let (z1, s1) =
      set_bit-sets (record { sz = n; bools = one }) mapaddr
        (omega (arith, len, length-set zeros c true)) in
    let (z2, s2) =
      set_bit-sets (record { sz = n; bools = two }) 0
        (omega (arith, len, length-set zeros c true, length-set one mapaddr true)) in
    rw
      (
        prepare,
        made,
        alloc_master_block-laid_out b n mapaddr (omega arith),
        allocate_inode_map-blank (node_count b n (ceil_div n b)) some_nodes,
        s0,
        s1,
        s2,
      )
      refl

pub header-Written :
    (g : File) (b n : ℕ) (behind : List ℕ)
    → Device.IsValid (device_on g b n)
    → 0 < n
    → b ≤ sizeof_master_block + length behind
    → (bd : BlockDevice) × (write_master_block (device_on g b n) (laid_out b n mapaddr) mbloc behind
        ≡ ok bd)
      × Written (device_on g b n) mbloc (take b (master_memory (laid_out b n mapaddr) ++ behind)) bd
unfolding write_master_block master_memory
header-Written g b n behind v some_blocks enough =
    let bdv = device_on g b n in
    let M = master_memory (laid_out b n mapaddr) ++ behind in
    let long : length M ≡ sizeof_master_block + length behind = omega arith in
    let (done, w) =
      write_block-Written bdv mbloc (take b M) v some_blocks (omega (arith, length-take b M)) in
    ((write_block bdv (pos mbloc) (take b M)).1, write_buffer_of bdv (pos mbloc) (take b M) done, w)

pub node_count-needs : (b n p : ℕ) → 0 < node_count b n p → 128 ≤ b
unfolding node_count
node_count-needs b n p h = elim (dec_lt b 128) [
  | no enough ↦ omega arith
  | yes less ↦
      let none : b / 128 ≡ 0 = omega arith in
      let empty : (n - (p + 1)) / 4 * (b / 128) ≡ 0 = rw none (omega arith) in absurd (ground arith)
]

pub first_map-size : (b n : ℕ) → length (first_map b n).bools ≡ n
first_map-size b n =
    let zeros = replicate n false in
    let one = set zeros (nodes_at b n) true in
    let two = set one mapaddr true in
    length-set two 0 true
    ∙ length-set one mapaddr true
    ∙ length-set zeros (nodes_at b n) true
    ∙ length-replicate n false
