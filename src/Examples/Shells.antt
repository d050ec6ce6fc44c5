-- ===== src/Examples/Shells.antt =====
-- Examples of the shells.
use cs.Prelude.{ℕ, ◌+◌, ◌≡◌, ◌⊎◌, ◌++◌, refl, subst, true, none, some, List, [], ◌∷◌}
use cs.Prelude.Run.{ok}
use cs.Device.{Entry, missing, regular, File, BlockDevice}
use cs.FileSystem.{FileSystem}
use cs.Volume.{mount, write_out}
use cs.Directory.{add_root}
use cs.Volume.Mounting.{mounted, mount-write_out}
use cs.Shell.{Shell, Host, usage, equals, starts_with, word, run_mount, file_of}
use cs.Shell.Mine.{max_args, blanks_between, my_step, command_of, perform, my_loop}
use cs.Shell.Small.{new_step}
use cs.Text.{break_words, fill_words, tokens, tokens_from, is_delim}
use cs.Shell.Invariant.Loop.{session_stands}
use cs.Shell.Invariant.Reach.{Reaches, start, line, my_shell, started, Reaches-InTree, loop-Reaches}
use cs.Shell.Agreement.{IsShared, mount_unmounted, my_step-new_step}
use cs.Directory.Apart.{same_place}
use cs.Examples.Volumes.{whole_volume, whole_volume-IsMountable}

-- A malloc with some bytes to spare, and entries that share no name in memory.
abbrev pub roomy : Host
roomy = record { malloc_bytes = λ n. n + 8; same_name = λ tree. same_place }

-- A host with one file.
abbrev one_file : File → List ℕ → Entry
one_file f name = regular f

abbrev mount_d : List ℕ
mount_d = b'm' ∷ b'o' ∷ b'u' ∷ b'n' ∷ b't' ∷ b' ' ∷ b'd' ∷ []

mount_step :
    (f : File) {fs : FileSystem}
    → mount (regular f) ≡ ok fs
    → my_step roomy (started (one_file f)) mount_d
      ≡ ok (
        [],
        record (started (one_file f)) {
          session = some (record { device_name = b'd' ∷ []; fs = fs; directory = some [] });
        },
      )
unfolding my_step perform command_of equals starts_with word run_mount file_of break_words
    fill_words tokens tokens_from is_delim
mount_step f e = rw e refl

-- A volume that was written, and a shell that has mounted it.
pub written :
    (bd : BlockDevice) × (write_out (add_root whole_volume 0) 2
      ≡ ok (true, regular bd.device_handle))
    × (mount (regular bd.device_handle) ≡ ok (mounted whole_volume bd))
written = mount-write_out whole_volume 0 whole_volume-IsMountable

abbrev in_shell : BlockDevice → Shell
in_shell bd = record (started (one_file bd.device_handle)) {
  session =
      some (record { device_name = b'd' ∷ []; fs = mounted whole_volume bd; directory = some [] });
}

mounted-Reaches :
    Reaches my_shell roomy
      (started (one_file (written.0).device_handle))
      (mount_d ∷ [])
      []
      (in_shell written.0)
mounted-Reaches =
    line [] [] (started (one_file (written.0).device_handle)) mount_d [] (in_shell written.0) start
      refl (mount_step (written.0).device_handle written.2)

Reaches-InTree_example : session_stands (in_shell written.0).session ≡ true
Reaches-InTree_example =
    Reaches-InTree my_shell roomy (one_file (written.0).device_handle) mounted-Reaches

-- Lines without a device: a command that lacks its name, the end, and a line behind it.
abbrev mount_alone : List ℕ
mount_alone = b'm' ∷ b'o' ∷ b'u' ∷ b'n' ∷ b't' ∷ []

abbrev pub q : List ℕ
q = b'q' ∷ []

abbrev pub idle : Shell
idle = started (λ name. missing 4096)

two_lines :
    my_loop roomy idle (mount_alone ∷ q ∷ q ∷ []) ≡ ok (usage ∷ [], record idle { is_done = true })
unfolding my_loop my_step perform command_of equals starts_with word run_mount break_words
    fill_words tokens tokens_from is_delim
two_lines = refl

loop-Reaches_example :
    (taken : List (List ℕ)) × (left : List (List ℕ)) × (mount_alone ∷ q ∷ q ∷ [] ≡ taken ++ left)
    × Reaches my_shell roomy idle taken (usage ∷ []) (record idle { is_done = true })
    × ((left ≡ []) ⊎ (true ≡ true))
loop-Reaches_example = loop-Reaches my_shell roomy idle (mount_alone ∷ q ∷ q ∷ []) two_lines

mount-IsShared :
    (w : List ℕ)
    → word (break_words mount_d max_args blanks_between).1 0 ≡ ok w
    → IsShared none (command_of w)
unfolding word break_words fill_words tokens tokens_from is_delim command_of equals starts_with
mount-IsShared w e =
    subst (λ t. IsShared none (command_of t)) (let same : mount_alone ≡ w = cc in same)
      mount_unmounted

my_step-new_step_example : my_step roomy idle mount_d ≡ new_step roomy idle mount_d
my_step-new_step_example = my_step-new_step roomy idle mount_d mount-IsShared
