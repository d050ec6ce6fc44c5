-- ===== src/Cpp/Console/Commands.antt =====
-- my_Blocks_c++/my_shell.cpp: the commands on the volume that is mounted, and what the shell prints.
use cs.Prelude.{
  ℕ, zero, suc, ◌+◌, Bool, false, Option, none, some, List, [], ◌∷◌, leb, ◌==◌, not, if◌then◌else◌,
  ℤ, set,
}
use cs.Prelude.Run.{Run, ok, fault, ◌>>=◌}
use cs.BlockMap.{alloc_block, free_block, set_bit}
use cs.BlockMap.Dump.{dump_map, dump_map_full}
use cs.Cpp.Nodes.{INode, node_at, allocate_inode, free_inode, set_inode}
use cs.Cpp.Nodes.Address.{get_disk_address_of_block}
use cs.Cpp.Console.Words.{number}
use cs.Cpp.Console.Volume.{World, Mounted}

-- What the shell prints.
pub data Reply : Type 0 where
  need_to_mount already_mounted low_bytes no forgot_to_unmount bye valid_commands unknown_command :
      Reply
  bits : List Bool → Bool → Reply
  nodes : List (ℕ × ℤ) → Reply
  address : ℤ → Reply
  dates : ℕ → ℕ → Reply

-- `dumpiMapFull` from inode `i` on, with the rounds left: the statuses with the numbers.
unfoldable pub dump_nodes : ℕ → List INode → ℕ → Run (List (ℕ × ℤ))
unfolding node_at
dump_nodes zero m i = ok []
dump_nodes (suc n) m i =
    node_at m i >>= λ x. dump_nodes n m (i + 1) >>= λ rest. ok ((x.status, x.inode_num) ∷ rest)

unfoldable pub run_show_map : Mounted → Run (List Reply × Mounted)
unfolding dump_map
run_show_map s = dump_map s.bmp >>= λ r. ok (bits r.0 r.1 ∷ [], s)

unfoldable pub run_show_full_map : Mounted → Run (List Reply × Mounted)
unfolding dump_map_full
run_show_full_map s = dump_map_full s.bmp >>= λ r. ok (bits r false ∷ [], s)

unfoldable pub run_show_nodes : Mounted → Run (List Reply × Mounted)
unfolding dump_nodes
run_show_nodes s = dump_nodes s.mbl.inode_cnt s.imp 0 >>= λ r. ok (nodes r ∷ [], s)

unfoldable pub run_take_block : Mounted → Run (List Reply × Mounted)
run_take_block s = alloc_block s.bmp >>= λ r. ok (address r.0 ∷ [], record s { bmp = r.1 })

unfoldable pub run_give_block : List ℕ → Mounted → Run (List Reply × Mounted)
unfolding number
run_give_block rest s = number rest 0 >>= λ freeint.
    if leb s.bmp.sz freeint
    then ok (no ∷ [], s)
    else (free_block s.bmp freeint >>= λ bmp. ok ([], record s { bmp = bmp }))

unfoldable pub run_mark_block : List ℕ → Mounted → Run (List Reply × Mounted)
unfolding number
run_mark_block rest s = number rest 0 >>= λ freeint.
    if leb s.bmp.sz freeint
    then ok (no ∷ [], s)
    else (set_bit s.bmp freeint >>= λ r. ok ([], record s { bmp = r.1 }))

unfoldable pub run_take_node : World → Mounted → Run (List Reply × Mounted)
unfolding allocate_inode
run_take_node w s = allocate_inode s.imp s.mbl.inode_cnt w.now >>= λ r.
    ok (address r.0 ∷ [], record s { imp = r.1 })

-- `my_nodes[i].mdate = time (NULL)`
unfoldable pub touch : ℕ → List INode → ℕ → Run (List INode)
unfolding node_at
touch now m i = node_at m i >>= λ x. ok (set m i (record x { mdate = now }))

unfoldable pub run_give_node : World → List ℕ → Mounted → Run (List Reply × Mounted)
unfolding number free_inode touch
run_give_node w rest s = number rest 0 >>= λ freeint.
    if leb s.mbl.inode_cnt freeint
    then ok (no ∷ [], s)
    else (free_inode s.imp freeint >>= λ m.
        touch w.now m freeint >>= λ m'. ok ([], record s { imp = m' }))

unfoldable pub run_mark_node : World → List ℕ → Mounted → Run (List Reply × Mounted)
unfolding number set_inode touch
run_mark_node w rest s = number rest 0 >>= λ freeint.
    if leb s.mbl.inode_cnt freeint
    then ok (no ∷ [], s)
    else (set_inode s.imp freeint >>= λ m.
        touch w.now m freeint >>= λ m'. ok ([], record s { imp = m' }))

-- `addrToInode` gives the address of a variable of its own, which is gone when it returns: none.
unfoldable pub addr_to_inode : List INode → ℕ → Run (Option INode)
unfolding node_at
addr_to_inode m index = node_at m index >>= λ s. ok none

-- getBlockAddr: getDiskAddressOfBlock follows what addrToInode gives.
unfoldable pub run_block_address : List ℕ → Mounted → Run (List Reply × Mounted)
unfolding number addr_to_inode
run_block_address rest s = do
  ind ← number rest 0
  offset ← number rest 1
  allocy ← number rest 2
  inode ← addr_to_inode s.imp ind
  elim inode [
    | none ↦ fault
    | some x ↦ get_disk_address_of_block x offset (not (allocy == 0)) s.bmp >>= λ r.
        ok (address r.0 ∷ [], record s { bmp = r.1 })
  ]

unfoldable pub run_node_dates : List ℕ → Mounted → Run (List Reply × Mounted)
unfolding number node_at
run_node_dates rest s =
    number rest 0 >>= λ ind. node_at s.imp ind >>= λ x. ok (dates x.cdate x.mdate ∷ [], s)
