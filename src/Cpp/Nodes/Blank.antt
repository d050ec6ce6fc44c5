-- ===== src/Cpp/Nodes/Blank.antt =====
-- my_Blocks_c++/inode.cc: a fresh map of inodes.
use cs.Prelude.{ℕ, zero, suc, ◌+◌, ◌*◌, ◌<◌, ◌≡◌, refl, ap, true, length, ltb, arith}
use cs.Prelude.Run.{ok}
use cs.Cpp.Nodes.{blank_nodes, blank_node, allocate_inode_map, sizeof_node}
use cs.Cpp.Nodes.Image.{Fits}
use cs.Cpp.Nodes.Image.{AllFit}

pub length-blank_nodes : (n : ℕ) → length (blank_nodes n) ≡ n
length-blank_nodes zero = refl
length-blank_nodes (suc n) = ap suc (length-blank_nodes n)

pub blank_node-Fits : Fits blank_node
blank_node-Fits = ground arith

pub AllFit-blank_nodes : (n : ℕ) → AllFit (blank_nodes n)
AllFit-blank_nodes zero = tt
AllFit-blank_nodes (suc n) = (blank_node-Fits, AllFit-blank_nodes n)

pub allocate_inode_map-blank : (n : ℕ) → 0 < n → allocate_inode_map n ≡ ok (blank_nodes n)
unfolding allocate_inode_map
allocate_inode_map-blank n h =
    let enough : ltb 7 (n * sizeof_node + 1) ≡ true = ground arith in
    rw (allocate_inode_map, enough) refl
