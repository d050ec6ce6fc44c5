-- ===== src/Cpp/Nodes/Address.antt =====
-- my_Blocks_c++/inode.cc: getDiskAddressOfBlock, called again.
use cs.Prelude.{
  if◌then◌else◌, none, ℕ, zero, suc, ◌+◌, ◌<◌, ◌≡◌, ◌≢◌, refl, sym, ap, ◌∙◌, Bool, true, false,
  some, arith, get_elem?, get_elem?-set_self, get_elem?_inside, ℤ, pos, ltb, Option-cases, ◌==◌,
}
use cs.Prelude.Run.{Run, fault, ok}
use cs.BlockMap.{BlockMap, get_bit, set_bit, alloc_from, alloc_block}
use cs.Cpp.Nodes.{INode, block_pointers}
use cs.Prelude.{negsuc, minus_one}

-- The test of a block pointer, and the pointer.
abbrev pub present : ℤ → Bool
present (pos n) = ltb 0 n
present (negsuc n) = false

-- `getDiskAddressOfBlockRecursive`
unfoldable pub address_at_level : INode → ℕ → Bool → ℕ → BlockMap → Run (ℤ × BlockMap)
address_at_level inode b alloc_if_absent level block_map =
    if level == 0
    then (if ltb b block_pointers
        then elim (get_elem? inode.block_ptrs b) [
          | none ↦ fault
          | some p ↦
              if present p
              then ok (p, block_map)
              else if alloc_if_absent
              then alloc_block block_map
              else ok (minus_one, block_map)
        ]
        else ok (minus_one, block_map))
    else ok (minus_one, block_map)

-- `getDiskAddressOfBlock`
unfoldable pub get_disk_address_of_block : INode → ℕ → Bool → BlockMap → Run (ℤ × BlockMap)
unfolding address_at_level
get_disk_address_of_block inode b alloc_if_absent bm =
    address_at_level inode b alloc_if_absent inode.level bm

get_bit-inside :
    (b : BlockMap) (i : ℕ) (v : Bool) → get_bit b i ≡ ok v → get_elem? b.bools i ≡ some v
unfolding get_bit
get_bit-inside b i v e = grind (arith, Option-cases (get_elem? b.bools i))

-- What an allocation that returns an index has found there, and leaves there.
alloc_from-marks :
    (n : ℕ) (b : BlockMap) (k i : ℕ) (b' : BlockMap)
    → alloc_from n b k ≡ ok (pos i, b')
    → (get_elem? b.bools i ≡ some false) × (get_elem? b'.bools i ≡ some true)
unfolding alloc_from get_bit set_bit
alloc_from-marks zero b k i b' e = absurd (cc)
alloc_from-marks (suc n) b k i b' e = grind (
  arith,
  alloc_from-marks n b (k + 1) i b',
  get_elem?-set_self b.bools k true,
  get_elem?_inside b.bools k,
)

-- An allocation behind one never returns the same index.
alloc_block_twice :
    (b b' b'' : BlockMap) (i : ℕ) (z : ℤ)
    → alloc_block b ≡ ok (pos i, b')
    → alloc_block b' ≡ ok (z, b'')
    → z ≢ pos i
unfolding alloc_block
alloc_block_twice b b' b'' i z e e' same =
    let marked = (alloc_from-marks b.sz b 0 i b' e).1 in
    let again : alloc_block b' ≡ ok (pos i, b'') = e' ∙ ap (λ t. ok (t, b'')) same in
    let clear = (alloc_from-marks b'.sz b' 0 i b'' again).0 in absurd (cc)

-- A block without an address, with leave to allocate.
get_disk_address-allocates :
    (inode : INode) (b : ℕ) (bm : BlockMap) (p : ℤ)
    → inode.level ≡ 0
    → b < block_pointers
    → get_elem? inode.block_ptrs b ≡ some p
    → present p ≡ false
    → get_disk_address_of_block inode b true bm ≡ alloc_block bm
unfolding get_disk_address_of_block address_at_level
get_disk_address-allocates inode b bm p level low at absent =
    let ground_level : (inode.level == 0) ≡ true = ground arith in
    let test : ltb b block_pointers ≡ true = ground arith in
    rw (get_disk_address_of_block, address_at_level, ground_level, test, at, absent) refl

-- For a block of an inode of level 0 that has no address, two calls of getDiskAddressOfBlock of
-- the C++ version with leave to allocate, one behind the other, never give the same address.
pub get_disk_address_forgets :
    (inode : INode) (b : ℕ) (bm bm' bm'' : BlockMap) (p : ℤ) (i : ℕ) (z : ℤ)
    → inode.level ≡ 0
    → b < block_pointers
    → get_elem? inode.block_ptrs b ≡ some p
    → present p ≡ false
    → get_disk_address_of_block inode b true bm ≡ ok (pos i, bm')
    → get_disk_address_of_block inode b true bm' ≡ ok (z, bm'')
    → z ≢ pos i
get_disk_address_forgets inode b bm bm' bm'' p i z level low at absent first second =
    let one = get_disk_address-allocates inode b bm p level low at absent in
    let two = get_disk_address-allocates inode b bm' p level low at absent in
    alloc_block_twice bm bm' bm'' i z (sym one ∙ first) (sym two ∙ second)
