-- ===== src/Cpp/Console/Invariant/Commands.antt =====
-- my_Blocks_c++/my_shell.cpp: the commands keep a volume whole.
use cs.Prelude.{ℕ, ◌≡◌, ◌∙◌, List, [], ◌∷◌, arith, length-set, leb, if◌then◌else◌, ℤ}
use cs.Prelude.Run.{Run, ok, fault, ◌>>=◌}
use cs.Prelude.Always.{Always, ok-Always, >>=-Always, branch-Always, fault-Always}
use cs.BlockMap.{BlockMap, set_bit, alloc_from, alloc_block, free_block}
use cs.Cpp.Nodes.{INode, find_node, allocate_inode, free_inode, set_inode}
use cs.Cpp.Console.{Console, unmounted, freed, live, on_volume}
use cs.Cpp.Console.Commands.{
  Reply, no, need_to_mount, run_show_map, run_show_full_map, run_show_nodes, run_take_block,
  run_give_block, run_mark_block, run_take_node, run_give_node, run_mark_node, touch,
  run_block_address, addr_to_inode, run_node_dates,
}
use cs.Cpp.Console.Words.{number}
use cs.Cpp.Console.Volume.{World, Mounted}
use cs.Cpp.Console.Invariant.{
  AllWhole, Kept, IsWhole, SameBits, SameNodes, set_bit-SameBits, alloc_from-SameBits,
  free_block-SameBits, find_node-SameNodes, free_inode-SameNodes, set_inode-SameNodes,
}

abbrev Keeps : (Mounted → Run (List Reply × Mounted)) → Type 0
Keeps f = (s : Mounted) → IsWhole s → Always (λ r. IsWhole r.1) (f s)

pub on_volume-Kept :
    (c : Console) (f : Mounted → Run (List Reply × Mounted))
    → Keeps f
    → AllWhole c.pointers
    → Kept (on_volume c f)
on_volume-Kept c f keeps g =
    let P : List Reply × Console → Type 0 = λ r. AllWhole r.1.pointers in
    (elim c.pointers
        as (λ p.
          AllWhole p
          → Kept (elim p [
            | unmounted ↦ ok (need_to_mount ∷ [], c)
            | freed ↦ fault
            | live name s ↦ f s >>= λ r. ok (r.0, record c { pointers = live name r.1 })
          ])) [
            | unmounted ↦ λ h. ok-Always P (need_to_mount ∷ [], c) g
            | freed ↦ λ h. fault-Always P
            | live name s ↦ λ h.
                >>=-Always P (f s)
                  (λ (r : List Reply × Mounted). ok (r.0, record c { pointers = live name r.1 }))
                  (λ r e. ok-Always P (r.0, record c { pointers = live name r.1 }) (keeps s h r e))
          ])
      g

pub run_show_map-Keeps : Keeps run_show_map
unfolding run_show_map
run_show_map-Keeps s h r e = grind arith

pub run_show_full_map-Keeps : Keeps run_show_full_map
unfolding run_show_full_map
run_show_full_map-Keeps s h r e = grind arith

pub run_show_nodes-Keeps : Keeps run_show_nodes
unfolding run_show_nodes
run_show_nodes-Keeps s h r e = grind arith

pub run_take_block-Keeps : Keeps run_take_block
unfolding run_take_block alloc_block
run_take_block-Keeps s h r e =
    let later : (q : ℤ × BlockMap) → alloc_from s.bmp.sz s.bmp 0 ≡ ok q → SameBits s.bmp q.1 =
      λ q e'. alloc_from-SameBits s.bmp.sz s.bmp 0 q e' in
    grind (arith, later)

pub run_give_block-Keeps : (rest : List ℕ) → Keeps (run_give_block rest)
unfolding run_give_block
run_give_block-Keeps rest s h r e =
    let later : (i : ℕ) (m : BlockMap) → free_block s.bmp i ≡ ok m → SameBits s.bmp m =
      λ i m e'. free_block-SameBits s.bmp i m e' in
    grind (arith, later)

pub run_mark_block-Keeps : (rest : List ℕ) → Keeps (run_mark_block rest)
unfolding run_mark_block
run_mark_block-Keeps rest s h r e =
    let later : (i : ℕ) (q : ℤ × BlockMap) → set_bit s.bmp i ≡ ok q → SameBits s.bmp q.1 =
      λ i q e'. set_bit-SameBits s.bmp i q e' in
    grind (arith, later)

pub run_take_node-Keeps : (w : World) → Keeps (run_take_node w)
unfolding run_take_node allocate_inode
run_take_node-Keeps w s h r e =
    let later : (q : ℤ × List INode)
        → find_node s.mbl.inode_cnt s.imp w.now 0 ≡ ok q
        → SameNodes s.imp q.1 =
      λ q e'. find_node-SameNodes s.mbl.inode_cnt s.imp w.now 0 q e' in
    grind (arith, later)

touch-SameNodes : (now : ℕ) (m : List INode) (i : ℕ) → Always (SameNodes m) (touch now m i)
unfolding touch
touch-SameNodes now m i r e = grind (arith, length-set)

-- A command that changes an inode by its number, and then its date.
node_command-Keeps :
    (w : World) (rest : List ℕ) (f : List INode → ℕ → Run (List INode))
    → ((m : List INode) (i : ℕ) → Always (SameNodes m) (f m i))
    → (s : Mounted) → IsWhole s
    → Always {V = List Reply × Mounted}
        (λ r. IsWhole r.1)
        (number rest 0 >>= λ freeint.
          if leb s.mbl.inode_cnt freeint
          then ok (no ∷ [], s)
          else (f s.imp freeint >>= λ m.
              touch w.now m freeint >>= λ m'. ok ([], record s { imp = m' })))
node_command-Keeps w rest f same s h =
    let P : List Reply × Mounted → Type 0 = λ r. IsWhole r.1 in
    let dated : ℕ → List INode → Run (List Reply × Mounted) =
      λ i m. touch w.now m i >>= λ m'. ok ([], record s { imp = m' }) in
    >>=-Always P (number rest 0)
      (λ (i : ℕ). if leb s.mbl.inode_cnt i then ok (no ∷ [], s) else (f s.imp i >>= dated i))
      (λ i e0.
        branch-Always P (leb s.mbl.inode_cnt i) (ok (no ∷ [], s)) (f s.imp i >>= dated i)
          (λ out. ok-Always P (no ∷ [], s) h)
          (λ in_range. >>=-Always P (f s.imp i) (dated i) (λ m e1.
            >>=-Always P (touch w.now m i) (λ (m' : List INode). ok ([], record s { imp = m' }))
              (λ m' e2.
                ok-Always P ([], record s { imp = m' })
                  (record {
                    bits = h.bits;
                    nodes = touch-SameNodes w.now m i m' e2 ∙ same s.imp i m e1 ∙ h.nodes;
                  })))))

pub run_give_node-Keeps : (w : World) (rest : List ℕ) → Keeps (run_give_node w rest)
unfolding run_give_node
run_give_node-Keeps w rest = node_command-Keeps w rest free_inode free_inode-SameNodes

pub run_mark_node-Keeps : (w : World) (rest : List ℕ) → Keeps (run_mark_node w rest)
unfolding run_mark_node
run_mark_node-Keeps w rest = node_command-Keeps w rest set_inode set_inode-SameNodes

pub run_node_dates-Keeps : (rest : List ℕ) → Keeps (run_node_dates rest)
unfolding run_node_dates
run_node_dates-Keeps rest s h r e = grind arith

-- getDiskAddressOfBlock follows a pointer to what is gone.
pub run_block_address-faults : (rest : List ℕ) (s : Mounted) → run_block_address rest s ≡ fault
unfolding run_block_address addr_to_inode
run_block_address-faults rest s = grind arith

pub run_block_address-Keeps : (rest : List ℕ) → Keeps (run_block_address rest)
run_block_address-Keeps rest s h r e = let faults = run_block_address-faults rest s in absurd (cc)
