-- ===== src/Examples/CppMaps.antt =====
-- Examples of the block map of the C++ version.
use cs.Prelude.{ℕ, max, ◌≤◌, ◌≡◌, refl, true, false, List, [], ◌∷◌, replicate, arith, ℤ, pos}
use cs.Prelude.Bytes.{zeros, length-zeros, AllBytes-zeros}
use cs.Prelude.Run.{ok}
use cs.Device.{BlockDevice, read_block}
use cs.BitSet.{BitSet, alloc_bit_set}
use cs.BitSet.Bits.{bit}
use cs.BlockMap.{BlockMap, alloc_block_map, read_block_map, write_block_map}
use cs.BlockMap.Agreement.{Holds}
use cs.BlockMap.Runs.{Call, allocate, release, run_set, run_map, allocators-Holds}
use cs.BlockMap.Image.{block_map_round_trip}
use cs.BlockMap.Buffer.{as_set}
use cs.Examples.{disk, disk-IsValid}

abbrev calls : List Call
calls = allocate ∷ allocate ∷ release 0 ∷ allocate ∷ []

allocators-Holds_example :
    (zs : List ℤ) × (b : BitSet) × (m : BlockMap) × (run_set calls (alloc_bit_set 16 256)
      ≡ ok (zs, b))
    × (run_map calls (alloc_block_map 16) ≡ ok (zs, m))
    × Holds b m
allocators-Holds_example =
    allocators-Holds 16 256 calls (omega arith) (omega arith) (omega arith, tt)

abbrev some_blocks : BlockMap
some_blocks = record { sz = 4; bools = true ∷ false ∷ true ∷ true ∷ [] }

abbrev no_blocks : BlockMap
no_blocks = record { sz = 4; bools = replicate 4 false }

block_map_round_trip_example :
    (bd' : BlockDevice) × (cs : List ℕ) × (write_block_map disk some_blocks 3 (zeros 256) ≡ ok bd')
    × (read_block_map bd' no_blocks 3 (zeros 256) ≡ ok some_blocks)
    × (read_block bd' (pos 3) ≡ (true, cs))
    × ((j : ℕ) → max 256 4 ≤ j → bit (as_set cs) j ≡ bit (as_set (zeros 256)) j)
block_map_round_trip_example =
    block_map_round_trip disk some_blocks no_blocks 3 (zeros 256) (zeros 256) disk-IsValid
      (omega arith) refl (omega arith) refl refl (length-zeros 256) (AllBytes-zeros 256)
      (length-zeros 256)
