-- ===== src/FileSystem/Access.antt =====
-- inode.c: from a byte range of a file to blocks of the device. Byte offsets and counts are the
-- `int`s that are not negative, and their sum is taken to stay in `int`.
pub mod Offset
pub mod Address
pub mod Grant
pub mod Copy
pub mod Step
pub mod File
pub mod RoundTrip
pub mod Full
pub mod Bounds
use cs.Prelude.{
  ℕ, zero, suc, ◌+◌, ◌-◌, ◌*◌, ◌/◌, ◌<◌, min, Bool, true, false, Option, none, some, List, ◌++◌,
  ltb, if◌then◌else◌, get_elem?, set, length, take, drop, ℤ, pos, negsuc, minus_one, [],
}
use cs.Prelude.Bytes.{zeros}
use cs.Prelude.Run.{Run, ok, fault, assert, ◌>>=◌, ◌>>◌}
use cs.Device.{BlockDevice, read_block, write_block}
use cs.BitSet.{allocate_block}
use cs.INode.{INode, block_ptrs_per_inode}
use cs.FileSystem.{FileSystem, inode_at, put_inode}

-- `p > 0`
abbrev pub is_positive : ℤ → Bool
is_positive (pos zero) = false
is_positive (pos (suc n)) = true
is_positive (negsuc n) = false

-- `inode->block_ptrs[b]`
unfoldable pub block_ptr : INode → ℕ → Run ℤ
block_ptr x b = elim (get_elem? x.block_ptrs b) [ none ↦ fault | some p ↦ ok p ]

-- The assignment `inode->block_ptrs[b] = allocateBlock(…)`, which also returns the address.
unfoldable pub allocate_ptr : FileSystem → ℕ → INode → ℕ → Run (ℤ × FileSystem)
allocate_ptr fs k x b = do
  (address, map) ← allocate_block fs.block_map
  ok (
    address,
    put_inode (record fs { block_map = map }) k
        (record x { block_ptrs = set x.block_ptrs b address }),
  )

-- `getDiskAddressOfBlockRecursive`
unfoldable pub disk_address_at_level : FileSystem → ℕ → ℕ → Bool → ℕ → Run (ℤ × FileSystem)
disk_address_at_level fs k b alloc_if_absent zero =
    if ltb b block_ptrs_per_inode
    then (do
      x ← inode_at fs k
      p ← block_ptr x b
      if is_positive p
          then ok (p, fs)
          else (if alloc_if_absent then allocate_ptr fs k x b else ok (minus_one, fs)))
    else ok (minus_one, fs)
disk_address_at_level fs k b alloc_if_absent (suc level) = ok (minus_one, fs)

-- `getDiskAddressOfBlock`: the address of block `b` of inode `k`, and the file system after it.
unfoldable pub get_disk_address_of_block : FileSystem → ℕ → ℕ → Bool → Run (ℤ × FileSystem)
get_disk_address_of_block fs k b alloc_if_absent = do
  x ← inode_at fs k
  disk_address_at_level fs k b alloc_if_absent x.level

-- The block buffer of `iNodeRead`: zero bytes where the block is not on the device; none where the
-- device fails.
unfoldable pub fetch : BlockDevice → ℤ → Option (List ℕ)
fetch bd (pos a) = let (done, tbuf) = read_block bd (pos a) in if done then some tbuf else none
fetch bd (negsuc a) = some (zeros bd.bytes_per_block)

-- The loop of `iNodeRead`: rounds left, `i`, `blockOffset`, `buffOffset` and the bytes copied so far.
-- The lookup allocates nothing, so the file system that it returns is the one given.
unfoldable pub read_loop : FileSystem → ℕ → ℕ → ℕ → ℕ → ℕ → ℕ → List ℕ → Run (ℕ × List ℕ)
read_loop fs k num_bytes zero i block_offset buff_offset buffer = ok (buff_offset, buffer)
read_loop fs k num_bytes (suc n) i block_offset buff_offset buffer =
    let byte_count =
      min (fs.block_device.bytes_per_block - block_offset) (num_bytes - buff_offset) in
    get_disk_address_of_block fs k i false >>= λ found. elim (fetch fs.block_device found.0) [
      | none ↦ ok (buff_offset, buffer)
      | some tbuf ↦
          read_loop fs k num_bytes n (i + 1) 0 (buff_offset + byte_count)
            (buffer ++ take byte_count (drop block_offset tbuf))
    ]

-- `firstBlock` .. `lastBlock` of the source, counted.
abbrev pub num_blocks : ℕ → ℕ → ℕ → ℕ
num_blocks start num_bytes bytes = (start + num_bytes) / bytes - start / bytes + 1

-- `iNodeRead` of inode `k`: the number of bytes read, and the bytes put in front of the buffer.
unfoldable pub inode_read : FileSystem → ℕ → ℕ → ℕ → Run (ℕ × List ℕ)
inode_read fs k start num_bytes =
    let bytes = fs.block_device.bytes_per_block in
    assert (ltb 0 bytes)
    >> read_loop fs k num_bytes (num_blocks start num_bytes bytes) 0 (start - start / bytes * bytes)
        0 []

-- `byteCount` bytes of the user's buffer copied over the block buffer.
unfoldable pub patch : List ℕ → ℕ → List ℕ → List ℕ
patch tbuf block_offset data_bytes =
    take block_offset tbuf ++ (data_bytes ++ drop (block_offset + length data_bytes) tbuf)

-- How a round of the loop of `iNodeWrite` ends: with the file system, or an early return.
pub data Round : Type 0 where
  again stopped : FileSystem → Round

-- The body of the loop of `iNodeWrite`, for `byte_count` bytes.
unfoldable pub write_round : FileSystem → ℕ → ℕ → ℕ → List ℕ → Run Round
write_round fs k i block_offset data_bytes = get_disk_address_of_block fs k i true >>= λ found.
    let fs' = found.1 in
    elim found.0 [
      | negsuc a ↦ ok (stopped fs')
      | pos a ↦
          let (done, tbuf) = read_block fs'.block_device (pos a) in
          let (wrote, bd) =
            write_block fs'.block_device (pos a) (patch tbuf block_offset data_bytes) in
          if done
          then ok (
              if wrote
              then again (record fs' { block_device = bd })
              else stopped (record fs' { block_device = bd }))
          else ok (stopped fs')
    ]

-- The loop of `iNodeWrite`; the first component of the result is false on an early return.
unfoldable pub write_loop :
    FileSystem → ℕ → ℕ → List ℕ → ℕ → ℕ → ℕ → ℕ → Run (Bool × ℕ × FileSystem)
write_loop fs k num_bytes buffer zero i block_offset buff_offset = ok (true, buff_offset, fs)
write_loop fs k num_bytes buffer (suc n) i block_offset buff_offset =
    let byte_count =
      min (fs.block_device.bytes_per_block - block_offset) (num_bytes - buff_offset) in
    if ltb (length buffer) (buff_offset + byte_count)
    then fault
    else (write_round fs k i block_offset (take byte_count (drop buff_offset buffer)) >>= λ r.
        elim r [
          | stopped fs' ↦ ok (false, buff_offset, fs')
          | again fs' ↦ write_loop fs' k num_bytes buffer n (i + 1) 0 (buff_offset + byte_count)
        ])

-- The update of the length behind the loop.
unfoldable pub extend : FileSystem → ℕ → ℕ → Run FileSystem
extend fs k end_offset = do
  x ← inode_at fs k
  ok (
      if ltb x.num_bytes end_offset
      then put_inode fs k (record x { num_bytes = end_offset })
      else fs)

-- `iNodeWrite` to inode `k`: the number of bytes written, and the file system after it.
unfoldable pub inode_write : FileSystem → ℕ → ℕ → ℕ → List ℕ → Run (ℕ × FileSystem)
inode_write fs k start num_bytes buffer =
    let bytes = fs.block_device.bytes_per_block in
    assert (ltb 0 bytes)
    >> (write_loop fs k num_bytes buffer (num_blocks start num_bytes bytes) 0
          (start - start / bytes * bytes) 0
        >>= λ r.
            if r.0 then (extend r.2 k (start + r.1) >>= λ fs'. ok (r.1, fs')) else ok (r.1, r.2))
