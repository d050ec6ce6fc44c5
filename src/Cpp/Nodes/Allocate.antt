-- ===== src/Cpp/Nodes/Allocate.antt =====
-- my_Blocks_c++/inode.cc: allocateiNode.
use cs.Prelude.{
  ℕ, zero, suc, ◌+◌, ◌<◌, ◌≤◌, ◌≡◌, ◌≢◌, refl, List, arith, length, set, get_elem?_of_lt, ◌==◌, ℤ,
  pos, minus_one, true, false,
}
use native.Mathlib.Decide.{ℕ_discrete}
use cs.Prelude.Run.{ok}
use cs.Cpp.Nodes.{INode, node_at, find_node, allocate_inode}

-- The inode at an index is there and in use.
abbrev pub IsTaken : List INode → ℕ → Type 0
IsTaken m j = (x : INode) × (node_at m j ≡ ok x) × (x.status ≢ 0)

-- What `allocateiNode` of `amnt` inodes may return and leave behind.
pub data AllocatedNode (m : List INode) (amnt now : ℕ) : ℤ → List INode → Type 0 where
  found :
      (i : ℕ) (x : INode)
      → i < amnt
      → node_at m i ≡ ok x
      → x.status ≡ 0
      → ((j : ℕ) → j < i → IsTaken m j)
      → AllocatedNode m amnt now (pos i) (set m i (record x { status = 1; mdate = now }))
  exhausted : ((j : ℕ) → j < amnt → IsTaken m j) → AllocatedNode m amnt now minus_one m

find_node-AllocatedNode :
    (n amnt : ℕ) (m : List INode) (now i : ℕ)
    → amnt ≤ length m
    → i + n ≡ amnt
    → ((j : ℕ) → j < i → IsTaken m j)
    → (z : ℤ) × (m' : List INode) × (find_node n m now i ≡ ok (z, m'))
      × AllocatedNode m amnt now z m'
unfolding find_node node_at
find_node-AllocatedNode zero amnt m now i le e below =
    (minus_one, m, refl, exhausted (λ j lt. below j (omega arith)))
find_node-AllocatedNode (suc n) amnt m now i le e below =
    let (x, at) = get_elem?_of_lt m i (omega arith) in
    let there : node_at m i ≡ ok x = rw (node_at, at) refl in
    elim (ℕ_discrete x.status 0) [
      | yes free ↦
          let test : (x.status == 0) ≡ true = ground arith in
          (
            pos i,
            set m i (record x { status = 1; mdate = now }),
            rw (find_node, there, test) refl,
            found i x (omega arith) there free below,
          )
      | no taken ↦
          let test : (x.status == 0) ≡ false = ground arith in
          let (z, m', runs, a) =
            find_node-AllocatedNode n amnt m now (i + 1) le (omega arith) (λ j lt.
              elim (ℕ_discrete j i) [
                | yes p ↦ (x, rw p there, taken)
                | no ne ↦ below j (omega arith)
              ]) in
          (z, m', rw (find_node, there, test) runs, a)
    ]

-- For a number of inodes that the array has, allocateiNode of the C++ version does not fault; it
-- returns the lowest inode among them with status 0, which now has status 1 and the date of the
-- clock, or -1 with nothing changed when all are in use.
pub allocate_inode-AllocatedNode :
    (m : List INode) (amnt now : ℕ)
    → amnt ≤ length m
    → (z : ℤ) × (m' : List INode) × (allocate_inode m amnt now ≡ ok (z, m'))
      × AllocatedNode m amnt now z m'
unfolding allocate_inode
allocate_inode-AllocatedNode m amnt now le =
    find_node-AllocatedNode amnt amnt m now 0 le (omega arith) (λ j lt. absurd (omega arith))
