-- ===== src/FileSystem/Access/Offset.antt =====
-- inode.c: what iNodeRead and iNodeWrite make of the start offset.
use cs.Prelude.{
  ℕ, ◌+◌, ◌-◌, ◌*◌, ◌/◌, ◌<◌, ◌≡◌, refl, ap, ap₂, ◌∙◌, true, false, Bool, List, ltb, arith,
  if◌then◌else◌, [],
}
use native.Mathlib.Nat.{add_assoc, mul-add-div_right}
use cs.Prelude.Run.{Run, ok, fault, assert, ◌>>=◌, ◌>>◌}
use cs.Device.{BlockDevice}
use cs.BitSet.{BitSet}
use cs.FileSystem.{FileSystem, inode_at, put_inode}
use cs.FileSystem.Access.{inode_read, inode_write, read_loop, write_loop, num_blocks, extend}

-- The offset in the first block and the number of rounds do not depend on the first block.
offset_in_block : (q r b : ℕ) → 0 < b → q * b + r - (q * b + r) / b * b ≡ r - r / b * b
offset_in_block q r b h = rw (mul-add-div_right h q r) (omega arith)

rounds_in_block : (q r n b : ℕ) → 0 < b → num_blocks (q * b + r) n b ≡ num_blocks r n b
rounds_in_block q r n b h = omega (
  arith,
  mul-add-div_right h q r,
  mul-add-div_right h q (r + n),
  ap (λ t. t / b) (add_assoc (q * b) r n),
)

-- On blocks of at least one byte, an iNodeRead that starts whole blocks further on gives what the
-- read that starts in the first block gives.
pub inode_read_forgets_first_block :
    (fs : FileSystem) (k q r n : ℕ)
    → 0 < fs.block_device.bytes_per_block
    → inode_read fs k (q * fs.block_device.bytes_per_block + r) n ≡ inode_read fs k r n
unfolding inode_read
inode_read_forgets_first_block fs k q r n h =
    let b = fs.block_device.bytes_per_block in
    ap₂ (λ rounds offset. assert (ltb 0 b) >> read_loop fs k n rounds 0 offset 0 [])
      (rounds_in_block q r n b h) (offset_in_block q r b h)

-- What a write returns, and the device and the block map that it leaves.
abbrev pub effect : Run (ℕ × FileSystem) → Run (ℕ × BlockDevice × BitSet)
effect r = r >>= λ out. ok (out.0, out.1.block_device, out.1.block_map)

extend-effect :
    (fs : FileSystem) (k m e e' : ℕ)
    → effect (extend fs k e >>= λ fs'. ok (m, fs')) ≡ effect (extend fs k e' >>= λ fs'. ok (m, fs'))
unfolding extend put_inode inode_at
extend-effect fs k m e e' = ground arith

-- What `iNodeWrite` does behind its loop.
after_loop : ℕ → ℕ → Bool × ℕ × FileSystem → Run (ℕ × FileSystem)
after_loop k start r =
    if r.0 then (extend r.2 k (start + r.1) >>= λ fs'. ok (r.1, fs')) else ok (r.1, r.2)

after_loop-effect :
    (k s s' : ℕ) (m : Run (Bool × ℕ × FileSystem))
    → effect (m >>= after_loop k s) ≡ effect (m >>= after_loop k s')
unfolding after_loop
after_loop-effect k s s' fault = refl
after_loop-effect k s s' (ok (true, n, fs)) = extend-effect fs k n (s + n) (s' + n)
after_loop-effect k s s' (ok (false, n, fs)) = refl

-- On blocks of at least one byte, an iNodeWrite that starts whole blocks further on returns the
-- count and leaves the device and the block map of the write that starts in the first block.
pub inode_write_forgets_first_block :
    (fs : FileSystem) (k q r n : ℕ) (buffer : List ℕ)
    → 0 < fs.block_device.bytes_per_block
    → effect (inode_write fs k (q * fs.block_device.bytes_per_block + r) n buffer)
      ≡ effect (inode_write fs k r n buffer)
unfolding inode_write after_loop
inode_write_forgets_first_block fs k q r n buffer h =
    let b = fs.block_device.bytes_per_block in
    let loop = λ (rounds offset : ℕ). write_loop fs k n buffer rounds 0 offset 0 in
    ap₂
      (λ rounds offset.
        effect (assert (ltb 0 b) >> (loop rounds offset >>= after_loop k (q * b + r))))
      (rounds_in_block q r n b h) (offset_in_block q r b h)
    ∙ assert_same (ltb 0 b) _ _
        (after_loop-effect k (q * b + r) r (loop (num_blocks r n b) (r - r / b * b)))
  where
    assert_same :
        (t : Bool) (m m' : Run (ℕ × FileSystem))
        → effect m ≡ effect m'
        → effect (assert t >> m) ≡ effect (assert t >> m')
    assert_same true m m' e = e
    assert_same false m m' e = refl
