-- ===== src/Examples/Inodes.antt =====
-- Examples of the allocation of inodes.
use cs.Prelude.{ℕ, zero, suc, ◌<◌, ◌≡◌, ◌≢◌, refl, [], ◌∷◌, arith}
use cs.Prelude.Run.{ok, fault}
use cs.INode.{free_status}
use cs.FileSystem.{FileSystem, inode_at, allocate_inode, free_inode}
use cs.FileSystem.Inodes.{
  AllocatedINode, IsTakenAt, allocate_inode-AllocatedINode, free_inode-taken,
}
use cs.Examples.{volume, empty_file}

allocate_inode-AllocatedINode_example :
    (z : ℕ) × (fs' : FileSystem) × (allocate_inode volume ≡ ok (z, fs'))
    × AllocatedINode volume z fs'
allocate_inode-AllocatedINode_example =
    allocate_inode-AllocatedINode volume (record { all_there = refl })

-- Both inodes are in use.
abbrev crowded : FileSystem
crowded = record volume { inode_map = empty_file ∷ empty_file ∷ [] }

crowded-IsTakenAt : (j : ℕ) → j < 2 → IsTakenAt crowded j
unfolding inode_at
crowded-IsTakenAt zero h = (empty_file, refl, refl)
crowded-IsTakenAt (suc zero) h = (empty_file, refl, refl)
crowded-IsTakenAt (suc (suc j)) h = absurd (omega arith)

first_inode : inode_at volume 0 ≡ ok empty_file
unfolding inode_at
first_inode = refl

free_inode-taken_example :
    (fs' : FileSystem) × (free_inode volume 0 ≡ ok fs')
    × (inode_at fs' 0 ≡ ok (record empty_file { owner_uid = 0xfeedfeed; status = free_status }))
    × ((j : ℕ) → j ≢ 0 → inode_at fs' j ≡ inode_at volume j)
    × (free_inode fs' 0 ≡ fault)
free_inode-taken_example = free_inode-taken volume 0 empty_file first_inode refl refl
