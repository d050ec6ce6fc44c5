-- ===== src/Shell/Mine.antt =====
-- my_shell.c: the loop of the shell with all commands.
use cs.Prelude.{ℕ, true, false, Option, none, some, List, [], ◌∷◌, ◌++◌, ◌==◌, ltb, if◌then◌else◌}
use cs.Prelude.Run.{Run, ok, ◌>>=◌}
use cs.Text.{break_words}
use cs.Shell.{
  Host, Session, Shell, Reply, usage, mount_first, unmount_first, names, equals, word, run_newfs,
  run_mount, run_unmount, in_session,
}
use cs.Shell.Words.{
  quit_name, newfs_name, mount_name, unmount_name, mkdir_name, ls_name, cd_name, alloc_block_name,
  free_block_name, block_map_name, alloc_inode_name, free_inode_name, write_name, echo_name,
}
use cs.Shell.Directories.{run_mkdir, run_ls, run_cd_up}
use cs.Shell.Blocks.{
  run_alloc_block, run_free_block, run_block_map, run_alloc_inode, run_free_inode, run_write,
}

-- The commands.
pub data Command : Type 0 where
  quit make_volume mount_device unmount_device mkdir ls cd take_block give_block show_map take_inode
        give_inode write_first echo other :
      Command

-- The command that a first word names.
unfoldable pub command_of : List ℕ → Command
unfolding equals
command_of w =
    if equals quit_name w false
    then quit
    else if equals newfs_name w true
    then make_volume
    else if equals mount_name w true
    then mount_device
    else if equals unmount_name w true
    then unmount_device
    else if equals mkdir_name w true
    then mkdir
    else if equals ls_name w true
    then ls
    else if equals cd_name w true
    then cd
    else if equals alloc_block_name w true
    then take_block
    else if equals free_block_name w true
    then give_block
    else if equals block_map_name w true
    then show_map
    else if equals alloc_inode_name w true
    then take_inode
    else if equals free_inode_name w true
    then give_inode
    else if equals write_name w true
    then write_first
    else if equals echo_name w true
    then echo
    else other

abbrev pub max_args : ℕ
max_args = 32

-- `delim`
abbrev pub blanks_between : List ℕ
blanks_between = b' ' ∷ 9 ∷ []

-- A command that wants a mounted device.
abbrev pub when_mounted : Shell → (Session → Run (List Reply × Session)) → Run (List Reply × Shell)
when_mounted sh f = elim sh.session [
  | none ↦ ok (mount_first ∷ [], sh)
  | some s ↦ f s >>= λ r. ok (r.0, in_session sh r.1)
]

-- The words that are there.
abbrev pub some_words : List (Option (List ℕ)) → List (List ℕ)
some_words [] = []
some_words (none ∷ ws) = some_words ws
some_words (some w ∷ ws) = w ∷ some_words ws

abbrev pub finished : Shell → Shell
finished sh = record sh { is_done = true }

-- What the loop does for a command.
unfoldable pub perform :
    Host → Shell → Command → ℕ → List (Option (List ℕ)) → Run (List Reply × Shell)
unfolding run_newfs run_mount run_unmount
perform host sh quit n arguments = elim sh.session [
  | none ↦ ok ([], finished sh)
  | some s ↦ run_unmount sh s >>= λ r. ok (r.0, finished r.1)
]
perform host sh make_volume n arguments = run_newfs sh n arguments
perform host sh mount_device n arguments = elim sh.session [
  | none ↦ run_mount sh n arguments
  | some s ↦ ok (unmount_first ∷ [], sh)
]
perform host sh unmount_device n arguments = elim sh.session [
  | none ↦ ok (mount_first ∷ [], sh)
  | some s ↦ run_unmount sh s
]
perform host sh mkdir n arguments = when_mounted sh (λ s. run_mkdir host s n arguments)
perform host sh ls n arguments = when_mounted sh run_ls
perform host sh cd n arguments = when_mounted sh (λ s. run_cd_up host s n arguments)
perform host sh take_block n arguments = when_mounted sh run_alloc_block
perform host sh give_block n arguments =
    if n == 2 then when_mounted sh (λ s. run_free_block s arguments) else ok (usage ∷ [], sh)
perform host sh show_map n arguments = when_mounted sh run_block_map
perform host sh take_inode n arguments = when_mounted sh run_alloc_inode
perform host sh give_inode n arguments =
    if n == 2 then when_mounted sh (λ s. run_free_inode s arguments) else ok (usage ∷ [], sh)
perform host sh write_first n arguments =
    if ltb 2 n then when_mounted sh (λ s. run_write s arguments) else ok (usage ∷ [], sh)
perform host sh echo n arguments = ok (names (some_words arguments) ∷ [], sh)
perform host sh other n arguments = ok ([], sh)

-- The body of the loop for a line. The first test reads the first word also where there is none.
unfoldable pub my_step : Host → Shell → List ℕ → Run (List Reply × Shell)
unfolding word command_of perform
my_step host sh [] = ok ([], sh)
my_step host sh (c ∷ line) =
    let (num_words, arguments) = break_words (c ∷ line) max_args blanks_between in
    word arguments 0 >>= λ w. perform host sh (command_of w) num_words arguments

-- The loop over the lines of the input, up to its end or until the shell is done.
unfoldable pub my_loop : Host → Shell → List (List ℕ) → Run (List Reply × Shell)
unfolding my_step
my_loop host sh [] = ok ([], sh)
my_loop host sh (line ∷ lines) =
    if sh.is_done
    then ok ([], sh)
    else (my_step host sh line >>= λ r.
        my_loop host r.1 lines >>= λ rest. ok (r.0 ++ rest.0, rest.1))
