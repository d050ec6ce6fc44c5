-- ===== src/Cpp/Console/Invariant.antt =====
-- my_Blocks_c++/my_shell.cpp: what holds of a mounted volume, whatever lines the shell has taken.
pub mod Commands
use cs.Prelude.{
  ℕ, zero, suc, ◌+◌, ◌≡◌, refl, ap, ◌∙◌, Bool, true, false, List, arith, length, length-set,
  length-replicate, set, ltb, if◌then◌else◌, ℤ, pos,
}
use cs.Cpp.Console.{Console, Pointers, unmounted, freed, live}
use cs.Cpp.Console.Commands.{Reply}
use cs.Prelude.Run.{Run, ok, fault, ◌>>=◌}
use cs.Prelude.Always.{Always, ok-Always, >>=-Always, branch-Always, fault-Always}
use cs.Device.{BlockDevice, Entry}
use cs.BlockMap.{
  BlockMap, alloc_block_map, get_bit, set_bit, clear_bit, alloc_from, free_block, read_block_map,
  load_bits, buffer_bit,
}
use cs.Cpp.Master.{read_master_block}
use cs.Cpp.Nodes.{
  INode, nodes_of, blank_nodes, find_node, free_inode, set_inode, allocate_inode_map,
  read_inode_map,
}
use cs.Cpp.Nodes.Blank.{length-blank_nodes}
use cs.Cpp.Host.{construct_device}
use cs.Cpp.Console.Volume.{World, grab_block, natural, Mounted, load_volume, mount_volume}

-- The block map has its bits, and the array has the inodes of the master block.
pub record IsWhole (s : Mounted) : Type 0 where
  pub bits : length s.bmp.bools ≡ s.bmp.sz
  pub nodes : length s.imp ≡ s.mbl.inode_cnt

abbrev pub SameBits : BlockMap → BlockMap → Type 0
SameBits b b' = (b'.sz ≡ b.sz) × (length b'.bools ≡ length b.bools)

pub set_bit-SameBits : (b : BlockMap) (i : ℕ) → Always (λ r. SameBits b r.1) (set_bit b i)
unfolding set_bit
set_bit-SameBits b i r e = grind (arith, length-set b.bools i true)

clear_bit-SameBits : (b : BlockMap) (i : ℕ) → Always (λ r. SameBits b r.1) (clear_bit b i)
unfolding clear_bit
clear_bit-SameBits b i r e = grind (arith, length-set b.bools i false)

pub alloc_from-SameBits :
    (n : ℕ) (b : BlockMap) (i : ℕ) → Always (λ r. SameBits b r.1) (alloc_from n b i)
unfolding alloc_from
alloc_from-SameBits zero b i = λ r e. grind arith
alloc_from-SameBits (suc n) b i =
    >>=-Always (λ r. SameBits b r.1) (get_bit b i)
      (λ (taken : Bool).
        if taken then alloc_from n b (i + 1) else (set_bit b i >>= λ r. ok (pos i, r.1)))
      (λ taken e.
        branch-Always (λ r. SameBits b r.1) taken (alloc_from n b (i + 1))
          (set_bit b i >>= λ r. ok (pos i, r.1)) (λ on. alloc_from-SameBits n b (i + 1))
          (λ off.
            >>=-Always (λ r. SameBits b r.1) (set_bit b i) (λ (r : ℤ × BlockMap). ok (pos i, r.1))
              (λ r e'. ok-Always (λ r. SameBits b r.1) (pos i, r.1) (set_bit-SameBits b i r e'))))

pub free_block-SameBits : (b : BlockMap) (i : ℕ) → Always (SameBits b) (free_block b i)
unfolding free_block
free_block-SameBits b i =
    >>=-Always (SameBits b) (clear_bit b i) (λ (r : ℤ × BlockMap). ok r.1)
      (λ r e. ok-Always (SameBits b) r.1 (clear_bit-SameBits b i r e))

length-load_bits :
    (n : ℕ) (cs : List ℕ) (i : ℕ) (bs : List Bool)
    → Always (λ bs'. length bs' ≡ length bs) (load_bits n cs i bs)
unfolding load_bits
length-load_bits zero cs i bs = λ bs' e. grind arith
length-load_bits (suc n) cs i bs =
    let P : List Bool → Type 0 = λ bs'. length bs' ≡ length bs in
    >>=-Always P (buffer_bit cs i)
      (λ (v : Bool). if ltb i (length bs) then load_bits n cs (i + 1) (set bs i v) else fault)
      (λ v e.
        branch-Always P (ltb i (length bs)) (load_bits n cs (i + 1) (set bs i v)) fault
          (λ in_range bs' e'. length-load_bits n cs (i + 1) (set bs i v) bs' e' ∙ length-set bs i v)
          (λ out. fault-Always P))

read_block_map-SameBits :
    (bd : BlockDevice) (b : BlockMap) (loc : ℕ) (junk : List ℕ)
    → Always (SameBits b) (read_block_map bd b loc junk)
unfolding read_block_map
read_block_map-SameBits bd b loc junk b' e =
    let later : (cs : List ℕ) (bs : List Bool)
        → load_bits b.sz cs 0 b.bools ≡ ok bs
        → length bs ≡ length b.bools =
      λ cs bs e'. length-load_bits b.sz cs 0 b.bools bs e' in
    grind (arith, later)

length-nodes_of : (n : ℕ) (m : List ℕ) → length (nodes_of n m) ≡ n
unfolding nodes_of
length-nodes_of zero m = refl
length-nodes_of (suc n) m = ap suc (length-nodes_of n _)

abbrev pub SameNodes : List INode → List INode → Type 0
SameNodes m m' = length m' ≡ length m

pub find_node-SameNodes :
    (n : ℕ) (m : List INode) (now i : ℕ) → Always (λ r. SameNodes m r.1) (find_node n m now i)
unfolding find_node
find_node-SameNodes zero m now i r e = grind arith
find_node-SameNodes (suc n) m now i r e =
    let later : (q : ℤ × List INode) → find_node n m now (i + 1) ≡ ok q → length q.1 ≡ length m =
      λ q e'. find_node-SameNodes n m now (i + 1) q e' in
    grind (arith, later, length-set)

pub free_inode-SameNodes : (m : List INode) (i : ℕ) → Always (SameNodes m) (free_inode m i)
unfolding free_inode
free_inode-SameNodes m i r e = grind (arith, length-set)

pub set_inode-SameNodes : (m : List INode) (i : ℕ) → Always (SameNodes m) (set_inode m i)
unfolding set_inode
set_inode-SameNodes m i r e = grind (arith, length-set)

read_inode_map-SameNodes :
    (bd : BlockDevice) (m : List INode) (addr num : ℕ)
    → Always (SameNodes m) (read_inode_map bd m addr num)
unfolding read_inode_map
read_inode_map-SameNodes bd m addr num r e = grind (arith, length-nodes_of)

load_volume-IsWhole :
    (w : World) (bd : BlockDevice) (b n : ℕ) → Always IsWhole (load_volume w bd b n)
unfolding load_volume alloc_block_map allocate_inode_map read_master_block
load_volume-IsWhole w bd b n s e =
    let map : (loc : ℕ) (m : BlockMap)
        → read_block_map bd (alloc_block_map n) loc w.map_buffer ≡ ok m
        → SameBits (alloc_block_map n) m =
      λ loc m e'. read_block_map-SameBits bd (alloc_block_map n) loc w.map_buffer m e' in
    let nodes : (k addr : ℕ) (m : List INode)
        → read_inode_map bd (blank_nodes k) addr k ≡ ok m
        → length m ≡ length (blank_nodes k) =
      λ k addr m e'. read_inode_map-SameNodes bd (blank_nodes k) addr k m e' in
    grind (arith, map, nodes, length-blank_nodes, length-replicate)

pub mount_volume-IsWhole : (w : World) (e : Entry) → Always (λ r. IsWhole r.0) (mount_volume w e)
unfolding mount_volume
mount_volume-IsWhole w e =
    let P : Mounted × Entry → Type 0 = λ r. IsWhole r.0 in
    let grabbed = grab_block e w.grab_buffer in
    let loads = λ (bcnt bpb : ℕ).
      let constructed = construct_device grabbed.1 bpb bcnt in
      load_volume w constructed.0 bpb bcnt >>= λ s. ok (s, constructed.1) in
    >>=-Always P (natural grabbed.0.0) (λ (bcnt : ℕ). natural grabbed.0.1 >>= loads bcnt)
      (λ bcnt e0. >>=-Always P (natural grabbed.0.1) (loads bcnt) (λ bpb e1.
        let constructed = construct_device grabbed.1 bpb bcnt in
        >>=-Always P (load_volume w constructed.0 bpb bcnt) (λ (s : Mounted). ok (s, constructed.1))
          (λ s e2.
            ok-Always P (s, constructed.1) (load_volume-IsWhole w constructed.0 bpb bcnt s e2))))

-- What is mounted, if anything, is whole.
abbrev pub AllWhole : Pointers → Type 0
AllWhole unmounted = Unit
AllWhole freed = Unit
AllWhole (live name s) = IsWhole s

abbrev pub Kept : Run (List Reply × Console) → Type 0
Kept = Always (λ r. AllWhole r.1.pointers)
