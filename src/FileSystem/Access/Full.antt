-- ===== src/FileSystem/Access/Full.antt =====
-- inode.c: iNodeWrite on a full device.
use cs.Prelude.{
  ℕ, suc, ◌+◌, ◌-◌, ◌*◌, ◌/◌, ◌<◌, ◌≡◌, ◌∙◌, subst, true, false, some, List, arith, length, min,
  take, drop, get_elem?, set, ltb, ℤ, minus_one,
}
use cs.Prelude.Run.{ok}
use cs.BitSet.Count.{allocate_block-fails_iff}
use cs.INode.{INode, block_ptrs_per_inode}
use cs.FileSystem.{FileSystem, put_inode}
use cs.FileSystem.Access.{
  is_positive, allocate_ptr, get_disk_address_of_block, stopped, write_round, write_loop,
  num_blocks, inode_write,
}
use cs.FileSystem.Access.Address.{Ready, free_blocks, lookup_flat}

-- The file system after the failure: the slot of block `b` holds -1.
abbrev pub refused : FileSystem → ℕ → INode → ℕ → FileSystem
refused fs k x b = put_inode fs k (record x { block_ptrs = set x.block_ptrs b minus_one })

address-full :
    (fs : FileSystem) (k b : ℕ) (x : INode) {p : ℤ}
    → Ready fs k x
    → b < block_ptrs_per_inode
    → get_elem? x.block_ptrs b ≡ some p
    → is_positive p ≡ false
    → free_blocks fs ≡ 0
    → get_disk_address_of_block fs k b true ≡ ok (minus_one, refused fs k x b)
unfolding allocate_ptr
address-full fs k b x r lt at absent full =
    let fails = (allocate_block-fails_iff fs.block_map r.map).1 full in
    lookup_flat fs k b true x r.here r.flat lt at ∙ rw (absent, allocate_ptr, fails)

write_round-full :
    (fs fs' : FileSystem) (k i off : ℕ) (bytes : List ℕ)
    → get_disk_address_of_block fs k i true ≡ ok (minus_one, fs')
    → write_round fs k i off bytes ≡ ok (stopped fs')
unfolding write_round
write_round-full fs fs' k i off bytes found = rw (write_round, found)

write_loop-full :
    (fs fs' : FileSystem) (k num n off : ℕ) (buffer : List ℕ)
    → num ≡ length buffer
    → get_disk_address_of_block fs k 0 true ≡ ok (minus_one, fs')
    → write_loop fs k num buffer (suc n) 0 off 0 ≡ ok (false, 0, fs')
unfolding write_loop
write_loop-full fs fs' k num n off buffer len found =
    let count = min (fs.block_device.bytes_per_block - off) (num - 0) in
    let fits : ltb (length buffer) (0 + count) ≡ false = ground arith in
    rw (write_loop, fits, write_round-full fs fs' k 0 off (take count (drop 0 buffer)) found)

-- On a file system in order without a free block, an iNodeWrite of a whole buffer to an inode
-- whose first slot has no address returns 0; the slot then holds -1, and nothing else has
-- changed.
pub inode_write-full :
    (fs : FileSystem) (k start num : ℕ) (x : INode) (buffer : List ℕ) {p : ℤ}
    → Ready fs k x
    → get_elem? x.block_ptrs 0 ≡ some p
    → is_positive p ≡ false
    → free_blocks fs ≡ 0
    → num ≡ length buffer
    → inode_write fs k start num buffer ≡ ok (0, refused fs k x 0)
unfolding inode_write
inode_write-full fs k start num x buffer r at absent full len =
    let b = fs.block_device.bytes_per_block in
    let some_bytes = r.device.some_bytes in
    let positive : ltb 0 b ≡ true = ground arith in
    let rounds : suc ((start + num) / b - start / b) ≡ num_blocks start num b = omega arith in
    let loop : write_loop fs k num buffer (num_blocks start num b) 0 (start - start / b * b) 0
        ≡ ok (false, 0, refused fs k x 0) =
      subst
        (λ n.
          write_loop fs k num buffer n 0 (start - start / b * b) 0
          ≡ ok (false, 0, refused fs k x 0))
        rounds
        (write_loop-full fs (refused fs k x 0) k num ((start + num) / b - start / b)
          (start - start / b * b) buffer len
          (address-full fs k 0 x r (omega arith) at absent full)) in
    rw (inode_write, positive, loop)
