-- ===== src/Shell/Blocks.antt =====
-- my_shell.c: the commands on single blocks and inodes.
use cs.Prelude.{
  ℕ, zero, suc, ◌+◌, Bool, Option, List, [], ◌∷◌, ◌==◌, if◌then◌else◌, length, pos, negsuc,
}
use cs.Prelude.Run.{Run, ok, ◌>>=◌}
use cs.BitSet.{BitSet, rounds, allocate_block, free_block, get_bit}
use cs.FileSystem.{allocate_inode, free_inode}
use cs.FileSystem.Access.{inode_write}
use cs.Text.{atoi}
use cs.Shell.{Session, Reply, bits, allocated, unable, yay, short_write, word, natural}

-- The command allocBlock.
unfoldable pub run_alloc_block : Session → Run (List Reply × Session)
run_alloc_block s = allocate_block s.fs.block_map >>= λ r. ok (
  elim r.0 [ pos n ↦ allocated r.0 ∷ [] | negsuc n ↦ unable ∷ [] ],
  record s { fs = record s.fs { block_map = r.1 } },
)

-- The command freeBlock, with a block number.
unfoldable pub run_free_block : Session → List (Option (List ℕ)) → Run (List Reply × Session)
unfolding word
run_free_block s arguments = do
  number ← word arguments 1
  block_to_free ← natural (atoi number)
  (result, map) ← free_block s.fs.block_map block_to_free
  ok ([], record s { fs = record s.fs { block_map = map } })

-- The loop of blockMap from bit `i` on, with the number of rounds left.
unfoldable pub map_bits : ℕ → BitSet → ℕ → Run (List Bool)
map_bits zero b i = ok []
map_bits (suc n) b i = do set ← get_bit b i; rest ← map_bits n b (i + 1); ok (set ∷ rest)

-- The command blockMap.
unfoldable pub run_block_map : Session → Run (List Reply × Session)
unfolding map_bits
run_block_map s =
    map_bits (rounds s.fs.block_map.count) s.fs.block_map 0 >>= λ all. ok (bits all ∷ [], s)

-- The command allocINode, which takes 0 for a success.
unfoldable pub run_alloc_inode : Session → Run (List Reply × Session)
run_alloc_inode s =
    allocate_inode s.fs >>= λ r. ok (allocated (pos r.0) ∷ [], record s { fs = r.1 })

-- The command freeINode, with an inode number.
unfoldable pub run_free_inode : Session → List (Option (List ℕ)) → Run (List Reply × Session)
unfolding word
run_free_inode s arguments = do
  number ← word arguments 1
  inode_to_free ← natural (atoi number)
  fs ← free_inode s.fs inode_to_free
  ok ([], record s { fs = fs })

-- What the command write writes.
abbrev pub first_write : List ℕ
first_write =
    b'h' ∷ b'e' ∷ b'l' ∷ b'l' ∷ b'o' ∷ b',' ∷ b' ' ∷ b'w' ∷ b'o' ∷ b'r' ∷ b'l' ∷ b'd' ∷ b' ' ∷ b'-'
    ∷ b' ' ∷ b't' ∷ b'h' ∷ b'i' ∷ b's' ∷ b' ' ∷ b'i' ∷ b's' ∷ b' ' ∷ b'm' ∷ b'y' ∷ b' ' ∷ b'f'
    ∷ b'i' ∷ b'r' ∷ b's' ∷ b't' ∷ b' ' ∷ b'w' ∷ b'r' ∷ b'i' ∷ b't' ∷ b'e' ∷ []

-- The command write, with an inode number.
unfoldable pub run_write : Session → List (Option (List ℕ)) → Run (List Reply × Session)
unfolding word
run_write s arguments = do
  number ← word arguments 1
  inode_to_write_to ← natural (atoi number)
  (bytes_written, fs) ← inode_write s.fs inode_to_write_to 0 (length first_write) first_write
  ok (
    (if bytes_written == length first_write then yay else short_write bytes_written) ∷ [],
    record s { fs = fs },
  )
