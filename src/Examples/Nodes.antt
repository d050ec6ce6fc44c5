-- ===== src/Examples/Nodes.antt =====
-- Examples of the master block and the inodes of the C++ version.
use cs.Prelude.{
  ℕ, ◌++◌, ◌+◌, ◌*◌, ◌-◌, ◌<◌, ◌≤◌, ◌≡◌, ◌≢◌, refl, true, false, List, [], ◌∷◌, arith, inr, ℤ, pos,
}
use cs.Prelude.Run.{ok, fault}
use cs.BlockMap.{BlockMap, alloc_block}
use cs.Cpp.Master.{MasterBlock, alloc_master_block}
use cs.Cpp.Master.Layout.{alloc_master_block-bounds}
use cs.Cpp.Nodes.{
  INode, blank_node, blank_nodes, nodes_per_block, blocks_for, write_inode_map, read_inode_map,
  allocate_inode, nodes_memory, store_nodes, load_nodes,
}
use cs.Cpp.Nodes.Address.{get_disk_address_of_block}
use cs.Cpp.Nodes.Blank.{AllFit-blank_nodes}
use cs.Cpp.Nodes.Overrun.{node_map_overrun}
use cs.Cpp.Nodes.Allocate.{AllocatedNode, allocate_inode-AllocatedNode}
use cs.Cpp.Nodes.Address.{get_disk_address_forgets}
use cs.Examples.{disk, disk-IsValid}
use cs.Device.{BlockDevice}
use cs.Prelude.Bytes.{zeros}

alloc_master_block-bounds_example :
    (mb : MasterBlock) × (alloc_master_block 256 32 1 ≡ ok mb)
    × (mb.disk_address_inode_map ≡ 1 + mb.protect)
    × (32 ≤ mb.protect * 256)
    × (mb.protect * 256 < 32 + 256)
    × (mb.inode_cnt ≤ 128)
    × (4 * blocks_for mb.inode_cnt (nodes_per_block 256) ≤ 32 - (mb.protect + 1))
alloc_master_block-bounds_example = alloc_master_block-bounds 256 32 1 (omega arith)

-- Three inodes on blocks that hold two.
node_map_overrun_example :
    (write_inode_map disk (blank_nodes 3) 2 3 ≡ fault)
    × (read_inode_map disk (blank_nodes 3) 2 3 ≡ fault)
    × ((bd' : BlockDevice) × (store_nodes 2 disk
            (nodes_memory (blank_nodes 3) ++ zeros 256)
            (pos 2)
            2
            0
          ≡ ok bd'))
    × ((memory : List ℕ) × (load_nodes 2 disk
            (nodes_memory (blank_nodes 3) ++ zeros 256)
            (pos 2)
            2
            0
          ≡ ok memory))
node_map_overrun_example =
    node_map_overrun disk (blank_nodes 3) 2 disk-IsValid (AllFit-blank_nodes 3) (omega arith)
      (omega arith) (inr (omega arith)) (omega arith) (omega arith)

allocate_inode-AllocatedNode_example :
    (z : ℤ) × (m' : List INode) × (allocate_inode (blank_nodes 2) 2 7 ≡ ok (z, m'))
    × AllocatedNode (blank_nodes 2) 2 7 z m'
allocate_inode-AllocatedNode_example =
    allocate_inode-AllocatedNode (blank_nodes 2) 2 7 (omega arith)

abbrev first_taken : BlockMap
first_taken = record { sz = 3; bools = true ∷ false ∷ false ∷ [] }

abbrev second_taken : BlockMap
second_taken = record { sz = 3; bools = true ∷ true ∷ false ∷ [] }

abbrev all_taken : BlockMap
all_taken = record { sz = 3; bools = true ∷ true ∷ true ∷ [] }

first_lookup : get_disk_address_of_block blank_node 0 true first_taken ≡ ok (pos 1, second_taken)
unfolding get_disk_address_of_block alloc_block
first_lookup = refl

second_lookup : get_disk_address_of_block blank_node 0 true second_taken ≡ ok (pos 2, all_taken)
unfolding get_disk_address_of_block alloc_block
second_lookup = refl

get_disk_address_forgets_example : pos 2 ≢ pos 1
get_disk_address_forgets_example =
    get_disk_address_forgets blank_node 0 first_taken second_taken all_taken (pos 0) 1 (pos 2) refl
      (omega arith) refl refl first_lookup second_lookup
