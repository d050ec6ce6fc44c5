-- ===== src/Examples/Files.antt =====
-- Examples of reads and writes of a file.
use cs.Prelude.{
  true, ℕ, zero, suc, ◌≡◌, ◌≤◌, length, refl, some, List, [], ◌∷◌, arith, get_elem?, ℤ, pos,
}
use cs.Prelude.Bits.{bit_at}
use cs.Prelude.Run.{ok}
use cs.BitSet.Bits.{bit}
use cs.BitSet.Count.{free_below}
use cs.INode.{INode, null_ptrs}
use cs.FileSystem.{FileSystem, inode_at}
use cs.FileSystem.Access.{inode_read, inode_write}
use cs.FileSystem.Access.Address.{Ready, StandsAt, free_blocks}
use cs.FileSystem.Access.Grant.{Addressed, address-Addressed}
use cs.FileSystem.Access.Offset.{
  effect, inode_read_forgets_first_block, inode_write_forgets_first_block,
}
use cs.FileSystem.Access.RoundTrip.{inode_read-inode_write}
use cs.FileSystem.Access.Bounds.{inode_read_bound}
use cs.FileSystem.Access.Full.{refused, inode_write-full}
use cs.BitSet
use cs.BitSet.{BitSet, rounds}
use cs.Examples.{
  young_map, full_map, full_map-IsValid, disk-IsValid, young_map-IsValid, volume, empty_file,
}

null_ptrs-zero : (n b : ℕ) {p : ℤ} → get_elem? (null_ptrs n) b ≡ some p → p ≡ pos 0
null_ptrs-zero zero b e = absurd (cc)
null_ptrs-zero (suc n) zero e = cc
null_ptrs-zero (suc n) (suc b) e = null_ptrs-zero n b e

no_blocks : (b a : ℕ) → StandsAt empty_file b a → ⊥
no_blocks b a s = grind (arith, null_ptrs-zero 16 b s.pointer, s.positive)

-- The volume with another block map in which the master block is taken.
volume_with-Ready :
    (map : BitSet)
    → BitSet.IsValid map
    → rounds map.count ≡ 16
    → bit map 0 ≡ true
    → Ready (record volume { block_map = map }) 0 empty_file
unfolding inode_at
volume_with-Ready map valid count taken = record {
  device = disk-IsValid;
  map = valid;
  covers = count;
  master = taken;
  here = refl;
  flat = refl;
  ptrs = refl;
  inside = λ b a s. absurd (no_blocks b a s);
  apart = λ b c a s t. absurd (no_blocks b a s);
}

pub volume-Ready : Ready volume 0 empty_file
unfolding bit bit_at
volume-Ready = volume_with-Ready young_map young_map-IsValid refl refl

abbrev full_volume : FileSystem
full_volume = record volume { block_map = full_map }

full_volume-Ready : Ready full_volume 0 empty_file
unfolding bit bit_at
full_volume-Ready = volume_with-Ready full_map full_map-IsValid refl refl

none_free : free_blocks full_volume ≡ 0
unfolding free_below bit bit_at
none_free = refl

pub fifteen_free : free_blocks volume ≡ 15
unfolding free_below bit bit_at
fifteen_free = refl

abbrev text : List ℕ
text = 72 ∷ 101 ∷ 108 ∷ 108 ∷ 111 ∷ []

-- The five bytes lie in two blocks.
inode_read-inode_write_example :
    (fs' : FileSystem) × (x' : INode) × (inode_write volume 0 254 5 text ≡ ok (5, fs'))
    × (inode_read fs' 0 254 5 ≡ ok (5, text))
    × Ready fs' 0 x'
    × (x'.num_bytes ≡ 259)
    × (fs'.master_block ≡ volume.master_block)
inode_read-inode_write_example =
    inode_read-inode_write volume 0 empty_file 254 5 text volume-Ready (omega arith) refl
      (omega arith) (omega (arith, fifteen_free))

address-Addressed_example :
    (a : ℕ) × (fs' : FileSystem) × (x' : INode) × Addressed volume 0 7 a empty_file fs' x'
address-Addressed_example =
    address-Addressed volume 0 7 empty_file volume-Ready (omega arith) (omega (arith, fifteen_free))

inode_read_forgets_first_block_example : inode_read volume 0 517 20 ≡ inode_read volume 0 5 20
inode_read_forgets_first_block_example =
    inode_read_forgets_first_block volume 0 2 5 20 (omega arith)

inode_write_forgets_first_block_example :
    effect (inode_write volume 0 517 5 text) ≡ effect (inode_write volume 0 5 5 text)
inode_write_forgets_first_block_example =
    inode_write_forgets_first_block volume 0 2 5 5 text (omega arith)

inode_write-full_example :
    inode_write full_volume 0 300 5 text ≡ ok (0, refused full_volume 0 empty_file 0)
inode_write-full_example =
    inode_write-full full_volume 0 300 5 empty_file text full_volume-Ready refl refl none_free refl

-- The write above, and the read behind it.
done :
    (fs' : FileSystem) × (x' : INode) × (inode_write volume 0 254 5 text ≡ ok (5, fs'))
    × (inode_read fs' 0 254 5 ≡ ok (5, text))
    × Ready fs' 0 x'
    × (x'.num_bytes ≡ 259)
    × (fs'.master_block ≡ volume.master_block)
done =
    inode_read-inode_write volume 0 empty_file 254 5 text volume-Ready (omega arith) refl
      (omega arith) (omega (arith, fifteen_free))

inode_read_bound_example : (5 ≤ 5) × (length text ≤ 5)
inode_read_bound_example = inode_read_bound done.0 0 254 5 done.3
