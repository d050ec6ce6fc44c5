-- ===== src/Cpp/Console.antt =====
-- my_Blocks_c++/my_shell.cpp: the shell of the C++ version. A line of input is its bytes; what the
-- shell prints is a list of replies. readline and its history are outside, and so are the texts of
-- help and of the farewell.
pub mod Words
pub mod Volume
pub mod Remount
pub mod Making
pub mod Invariant
pub mod Reach
pub mod Safety
pub mod Faults
pub mod Commands
use cs.Prelude.{
  ℕ, zero, suc, ◌+◌, Bool, true, false, Option, none, some, List, [], ◌∷◌, ◌++◌, ltb, leb, ◌==◌,
  not, if◌then◌else◌, ℤ, set,
}
use cs.Prelude.Run.{Run, ok, fault, ◌>>=◌}
use cs.Device.{Entry}
use cs.BlockMap.{alloc_block, free_block, set_bit}
use cs.BlockMap.Dump.{dump_map, dump_map_full}
use cs.Shell.{same_text, with_file}
use cs.Cpp.Nodes.{INode, node_at, allocate_inode, free_inode, set_inode}
use cs.Cpp.Nodes.Address.{get_disk_address_of_block}
use Words.{
  first_delimiters, first_word, argument, number, block_map_name, block_map_full_name,
  inode_map_full_name, newfs_name, alloc_block_name, free_block_name, set_block_name,
  alloc_inode_name, free_inode_name, set_inode_name, get_block_addr_name, node_info_name,
  mount_name, unmount_name, help_name, quit_name,
}
use Volume.{World, Mounted, make_volume, mount_volume, unmount_volume}
use Commands.{
  Reply, need_to_mount, already_mounted, low_bytes, forgot_to_unmount, bye, valid_commands,
  unknown_command, run_show_map, run_show_full_map, run_show_nodes, run_take_block, run_give_block,
  run_mark_block, run_take_node, run_give_node, run_mark_node, run_block_address, run_node_dates,
}

-- What the pointers of the shell stand for while mounted is 0, and while it is 1: a volume, by the
-- name that it was mounted under, or memory that newfs has freed.
pub data Pointers : Type 0 where
  unmounted freed : Pointers
  live : List ℕ → Mounted → Pointers

-- The shell, and the files of its host. A name is a file of its own.
pub record Console : Type 0 where
  pub files : List ℕ → Entry
  pub pointers : Pointers
  pub is_done : Bool

-- The commands.
pub data Request : Type 0 where
  show_map show_full_map show_nodes make take_block give_block mark_block take_node give_node
        mark_node block_address node_dates mount_it unmount_it help quit other :
      Request

-- The command that a first word names.
unfoldable pub request_of : List ℕ → Request
unfolding same_text
request_of w =
    if same_text w block_map_name
    then show_map
    else if same_text w block_map_full_name
    then show_full_map
    else if same_text w inode_map_full_name
    then show_nodes
    else if same_text w newfs_name
    then make
    else if same_text w alloc_block_name
    then take_block
    else if same_text w free_block_name
    then give_block
    else if same_text w set_block_name
    then mark_block
    else if same_text w alloc_inode_name
    then take_node
    else if same_text w free_inode_name
    then give_node
    else if same_text w set_inode_name
    then mark_node
    else if same_text w get_block_addr_name
    then block_address
    else if same_text w node_info_name
    then node_dates
    else if same_text w mount_name
    then mount_it
    else if same_text w unmount_name
    then unmount_it
    else if same_text w help_name
    then help
    else if same_text w quit_name
    then quit
    else other

-- A command on the volume that is mounted. What it does through freed pointers is a fault.
abbrev pub on_volume : Console → (Mounted → Run (List Reply × Mounted)) → Run (List Reply × Console)
on_volume c f = elim c.pointers [
  | unmounted ↦ ok (need_to_mount ∷ [], c)
  | freed ↦ fault
  | live name s ↦ f s >>= λ r. ok (r.0, record c { pointers = live name r.1 })
]

abbrev pub is_mounted : Pointers → Bool
is_mounted unmounted = false
is_mounted freed = true
is_mounted (live name s) = true

-- newfs. What it makes it also deletes: while mounted is 1, the pointers are of freed memory then.
unfoldable pub run_make : World → Console → List ℕ → Run (List Reply × Console)
unfolding argument number make_volume
run_make w c rest = do
  name ← argument rest 0
  bpb ← number rest 1
  bcnt ← number rest 2
  made ← make_volume w (c.files name) bpb bcnt
  ok (
    (if is_mounted c.pointers then already_mounted ∷ [] else [])
        ++ (if ltb bpb 15 then low_bytes ∷ [] else []),
    record c {
      files = with_file c.files name made;
      pointers = if is_mounted c.pointers then freed else unmounted;
    },
  )

-- mount, also where something is mounted, which is then forgotten.
unfoldable pub run_mount_it : World → Console → List ℕ → Run (List Reply × Console)
unfolding argument mount_volume
run_mount_it w c rest = do
  name ← argument rest 0
  (s, e) ← mount_volume w (c.files name)
  ok ([], record c { files = with_file c.files name e; pointers = live name s })

unfoldable pub run_unmount_it : World → Console → Run (List Reply × Console)
unfolding unmount_volume
run_unmount_it w c = elim c.pointers [
  | unmounted ↦ ok (need_to_mount ∷ [], c)
  | freed ↦ fault
  | live name s ↦ unmount_volume w (c.files name) s >>= λ e.
      ok ([], record c { files = with_file c.files name e; pointers = unmounted })
]

-- What the loop does for a command.
unfoldable pub carry_out : World → Console → Request → List ℕ → Run (List Reply × Console)
unfolding run_make run_mount_it run_unmount_it
carry_out w c show_map rest = on_volume c run_show_map
carry_out w c show_full_map rest = on_volume c run_show_full_map
carry_out w c show_nodes rest = on_volume c run_show_nodes
carry_out w c make rest = run_make w c rest
carry_out w c take_block rest = on_volume c run_take_block
carry_out w c give_block rest = on_volume c (run_give_block rest)
carry_out w c mark_block rest = on_volume c (run_mark_block rest)
carry_out w c take_node rest = on_volume c (run_take_node w)
carry_out w c give_node rest = on_volume c (run_give_node w rest)
carry_out w c mark_node rest = on_volume c (run_mark_node w rest)
carry_out w c block_address rest = on_volume c (run_block_address rest)
carry_out w c node_dates rest = elim c.pointers [
  | unmounted ↦ ok ([], c)
  | freed ↦ fault
  | live name s ↦ on_volume c (run_node_dates rest)
]
carry_out w c mount_it rest = run_mount_it w c rest
carry_out w c unmount_it rest = run_unmount_it w c
carry_out w c help rest = ok (valid_commands ∷ [], c)
carry_out w c quit rest = ok (
  (if is_mounted c.pointers then forgot_to_unmount ∷ [] else []) ++ (bye ∷ []),
  record c { is_done = true },
)
carry_out w c other rest = ok (unknown_command ∷ [], c)

-- The body of the loop for a line. strcmp follows the NULL of a line without a word.
unfoldable pub console_step : World → Console → List ℕ → Run (List Reply × Console)
unfolding first_word request_of carry_out
console_step w c line = elim (first_word first_delimiters [] line) [
  | none ↦ fault
  | some (word, rest) ↦ carry_out w c (request_of word) rest
]

-- The loop over the lines of the input, up to its end or to quit.
unfoldable pub console_loop : Console → List (World × List ℕ) → Run (List Reply × Console)
unfolding console_step
console_loop c [] = ok ([], c)
console_loop c ((w, line) ∷ lines) =
    if c.is_done
    then ok ([], c)
    else (console_step w c line >>= λ r.
        console_loop r.1 lines >>= λ rest. ok (r.0 ++ rest.0, rest.1))
