-- ===== src/Device/Blocks.antt =====
-- The loops that move a memory area over consecutive blocks, as writeBlockMap, writeINodeMap,
-- readBlockMap and readINodeMap run them.
pub mod Laws
use cs.Prelude.{
  ℕ, zero, suc, ◌+◌, ◌-◌, Bool, true, false, Option, none, some, List, [], ◌++◌, ltb, if◌then◌else◌,
  length, take, drop, pos,
}
use cs.Prelude.Run.{Run, ok, fault, ◌>>=◌}
use cs.Device.{BlockDevice, read_block, write_block}

-- `n` blocks of memory are written from block `addr` on; the loop stops at the first failure. A
-- block that does not lie in the memory is a fault.
unfoldable pub write_blocks : ℕ → BlockDevice → ℕ → List ℕ → Run (Bool × BlockDevice)
write_blocks zero bd addr memory = ok (true, bd)
write_blocks (suc n) bd addr memory =
    if ltb (length memory) bd.bytes_per_block
    then fault
    else (let (done, bd') = write_block bd (pos addr) (take bd.bytes_per_block memory) in
        let rest = write_blocks n bd' (addr + 1) (drop bd.bytes_per_block memory) in
        if done then rest else ok (false, bd'))

-- `n` blocks are read from block `addr` on into a memory area with room for `room` bytes; `none` is
-- a failed read. A block that does not fit in the area is a fault.
unfoldable pub read_blocks : ℕ → BlockDevice → ℕ → ℕ → Run (Option (List ℕ))
read_blocks zero bd addr room = ok (some [])
read_blocks (suc n) bd addr room =
    if ltb room bd.bytes_per_block
    then fault
    else (let (done, got) = read_block bd (pos addr) in
        let rest = read_blocks n bd (addr + 1) (room - bd.bytes_per_block) in
        if done
        then (do more ← rest; ok (elim more [ none ↦ none | some bytes ↦ some (got ++ bytes) ]))
        else ok none)
