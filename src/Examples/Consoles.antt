-- ===== src/Examples/Consoles.antt =====
-- Examples of the shell of the C++ version, on a host with a name for nothing yet.
use cs.Prelude.{
  ℕ, ◌+◌, ◌^◌, ◌<◌, ◌≡◌, ◌≢◌, refl, some, sym, ap, ◌∙◌, Bool, mul_int, true, false, List, [], ◌∷◌,
  ◌++◌, arith, pos,
}
use cs.Prelude.Bytes.{zeros, length-zeros, AllBytes-zeros}
use cs.Prelude.Run.{Run, ok, fault}
use cs.Cpp.Host.{remove}
use cs.Device.{open_create, File, Entry, missing, regular, BlockDevice}
use cs.BlockMap.{BlockMap, alloc_block, alloc_block_map, set_bit}
use cs.BitSet.{ceil_div}
use cs.Cpp.Master.{node_count}
use cs.Cpp.Nodes.{allocate_inode_map, read_inode_map, nodes_per_block, blocks_for}
use cs.Cpp.Console.Words.{newfs_name, mount_name}
use cs.Cpp.Console.Volume.{World, Mounted, prepare, make_volume, mount_volume, unmount_volume}
use cs.Cpp.Console.Remount.{volume_of, Fitting, HasHeader, Suits}
use cs.Cpp.Console.Making.{mount_volume-make_volume, mount_volume-unmount_volume}
use cs.Cpp.Console.Making.Parts.{first_map, first_nodes}
use cs.Cpp.Console.Faults.{make_volume-small, alloc_block-in_inode_map}
use cs.Cpp.Console.Reach.{console_loop-AllWhole}
use cs.Cpp.Console.Invariant.{AllWhole}
use cs.Cpp.Console.Safety.{carry_out_ends, takes_block}
use cs.Cpp.Console.{
  Console, Pointers, freed, unmounted, live, take_block, is_mounted, run_make, carry_out,
  console_loop,
}
use cs.Cpp.Console.Commands.{Reply}

-- A host that gives clear memory, at noon.
abbrev world : World
world = record {
  now = 43200;
  grab_buffer = zeros 32;
  master_buffer = zeros 256;
  behind_master = zeros 256;
  map_buffer = zeros 256;
}

world-Suits : Suits world 256
world-Suits = record { map_size = length-zeros 256; map_bytes = AllBytes-zeros 256 }

abbrev new_file : File
new_file = record { size = 0; byte = λ j. 0; limit = 2 ^ 20; closes = true }

fourteen : node_count 256 32 (ceil_div 32 256) ≡ 14
unfolding node_count
fourteen = refl

opens : open_create (remove (missing (2 ^ 20))) ≡ some new_file
unfolding open_create remove
opens = refl

mount_volume-make_volume_example :
    (e1 : Entry) × (c : BlockDevice) × (make_volume world (missing (2 ^ 20)) 256 32 ≡ ok e1)
    × (mount_volume world e1
        ≡ ok (
          volume_of 256 32 c (first_map 256 32) (first_nodes world 256 32),
          regular c.device_handle,
        ))
    × Fitting 256 32 c (first_map 256 32) (first_nodes world 256 32)
    × HasHeader 256 32 c
mount_volume-make_volume_example =
    mount_volume-make_volume world world (missing (2 ^ 20)) new_file 256 32 opens (omega arith)
      (omega arith) refl (omega arith) (omega (arith, fourteen)) (omega (arith, fourteen))
      (omega arith) (omega arith) (omega (arith, length-zeros 256)) world-Suits world-Suits

made :
    (c : BlockDevice) × Fitting 256 32 c (first_map 256 32) (first_nodes world 256 32)
    × HasHeader 256 32 c
made =
    let (e1, c, makes, mounts, fitting, header) =
      mount_volume-make_volume world world (missing (2 ^ 20)) new_file 256 32 opens (omega arith)
        (omega arith) refl (omega arith) (omega (arith, fourteen)) (omega (arith, fourteen))
        (omega arith) (omega arith) (omega (arith, length-zeros 256)) world-Suits world-Suits in
    (c, fitting, header)

mount_volume-unmount_volume_example :
    (e : Entry) × (c : BlockDevice) × (unmount_volume world
        (regular new_file)
        (volume_of 256 32 made.0 (first_map 256 32) (first_nodes world 256 32))
      ≡ ok e)
    × (mount_volume world e
        ≡ ok (
          volume_of 256 32 c (first_map 256 32) (first_nodes world 256 32),
          regular c.device_handle,
        ))
    × Fitting 256 32 c (first_map 256 32) (first_nodes world 256 32)
    × HasHeader 256 32 c
mount_volume-unmount_volume_example =
    mount_volume-unmount_volume world world new_file 256 32 made.0 (first_map 256 32)
      (first_nodes world 256 32) made.1 made.2 world-Suits world-Suits

make_volume-small_example : make_volume world (missing (2 ^ 20)) 100 32 ≡ fault
make_volume-small_example = make_volume-small world (missing (2 ^ 20)) 100 32 (omega arith)

seven : blocks_for (node_count 256 32 1) (nodes_per_block 256) ≡ 7
unfolding node_count
seven = refl

alloc_block-in_inode_map_example :
    (s : Mounted) × (m : BlockMap) × (prepare world (missing (2 ^ 20)) 256 32 ≡ ok s)
    × (alloc_block s.bmp ≡ ok (pos 3, m))
    × (s.mbl.disk_address_inode_map ≡ 2)
    × (3 < s.mbl.disk_address_inode_map + blocks_for s.mbl.inode_cnt (nodes_per_block 256))
alloc_block-in_inode_map_example =
    alloc_block-in_inode_map world (missing (2 ^ 20)) 256 32 (omega arith) (omega arith)
      (omega (arith, seven))

-- A shell on a host where every name is free, and the words of two lines.
abbrev start : Console
start = record { files = λ name. missing (2 ^ 20); pointers = unmounted; is_done = false }

abbrev newfs_words : List ℕ
newfs_words = b'd' ∷ b' ' ∷ b'1' ∷ b'2' ∷ b'8' ∷ b' ' ∷ b'8' ∷ []

abbrev two_lines : List (World × List ℕ)
two_lines =
    (world, newfs_name ++ (b' ' ∷ newfs_words)) ∷ (world, mount_name ++ (b' ' ∷ b'd' ∷ [])) ∷ []

abbrev outcome : Run (List Reply × Console) → List Reply × Console
outcome (ok r) = r
outcome fault = ([], start)

-- The shell behind the two lines, and what it printed.
abbrev printed : List Reply
printed = (outcome (console_loop start two_lines)).0

abbrev holding : Console
holding = (outcome (console_loop start two_lines)).1

two_lines-run : console_loop start two_lines ≡ ok (printed, holding)
unfolding console_loop allocate_inode_map set_bit alloc_block_map mul_int read_inode_map
two_lines-run = refl

console_loop-AllWhole_example : AllWhole holding.pointers
console_loop-AllWhole_example =
    console_loop-AllWhole start holding two_lines printed tt two_lines-run

abbrev is_freed : Pointers → Bool
is_freed unmounted = false
is_freed freed = true
is_freed (live name s) = false

holding-live : is_freed holding.pointers ≡ false
unfolding console_loop allocate_inode_map set_bit alloc_block_map mul_int read_inode_map
holding-live = refl

not_freed : (p : Pointers) → is_freed p ≡ false → p ≢ freed
not_freed p e same = let clash : false ≡ true = sym e ∙ ap is_freed same in cc

carry_out_ends_example : (r : List Reply × Console) × (carry_out world holding take_block [] ≡ ok r)
carry_out_ends_example =
    carry_out_ends start holding two_lines printed world take_block [] tt two_lines-run
      (not_freed holding.pointers holding-live) (takes_block [])

abbrev remade : List Reply × Console
remade = outcome (run_make world holding newfs_words)

holding-mounted : is_mounted holding.pointers ≡ true
unfolding console_loop allocate_inode_map set_bit alloc_block_map mul_int read_inode_map
holding-mounted = refl

newfs_again : run_make world holding newfs_words ≡ ok (remade.0, remade.1)
unfolding run_make console_loop allocate_inode_map set_bit alloc_block_map mul_int read_inode_map
newfs_again = refl
