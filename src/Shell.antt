-- ===== src/Shell.antt =====
-- my_shell.c and new_shell.c: the state of a shell, and the commands that both have. A line of input is
-- its bytes. What the shell prints of its own is a list of replies. Numbers in a command that are
-- negative are outside the model, where the source does not itself go astray on them: a fault.
pub mod Words
pub mod Directories
pub mod Blocks
pub mod Mine
pub mod Small
pub mod Invariant
pub mod Agreement
pub mod Lines
pub mod Tree
use cs.Prelude.{
  ℕ, zero, suc, ◌+◌, ◌<◌, ◌≤◌, Bool, true, false, not, ◌&&◌, Option, none, some, List, [], ◌∷◌,
  ◌==◌, ltb, if◌then◌else◌, get_elem?, length, ℤ, pos, negsuc,
}
use cs.Prelude.Run.{Run, ok, fault, ◌>>=◌}
use cs.Device.{Entry, missing, regular, denied, BlockDevice}
use cs.FileSystem.{FileSystem, DirectoryEntry}
use cs.Directory.Place.{Place}
use cs.Text.{atoi}
use cs.Volume.{newfs, mount, unmount}

-- What a shell prints.
pub data Reply : Type 0 where
  usage created newfs_error mount_first unmount_first not_a_directory no_such_directory in_root :
      Reply
  names : List (List ℕ) → Reply
  bits : List Bool → Reply
  allocated : ℤ → Reply
  unable yay : Reply
  short_write : ℕ → Reply
  valid_commands : Reply

-- What `malloc` gives for a size, and whether the names of two entries of a tree are one string in
-- memory: what the shells do depends on both.
pub record Host : Type 0 where
  pub malloc_bytes : ℕ → ℕ
  pub same_name : DirectoryEntry → Place → Place → Bool

-- main_filesystem and main_current_dir of a shell that has mounted a device; `none` is NULL.
pub record Session : Type 0 where
  pub device_name : List ℕ
  pub fs : FileSystem
  pub directory : Option Place

-- A shell, and the files of its host. A name is a file of its own.
pub record Shell : Type 0 where
  pub files : List ℕ → Entry
  pub session : Option Session
  pub is_done : Bool

-- `strncmp(a, b, strlen(a)) == 0`
unfoldable pub starts_with : List ℕ → List ℕ → Bool
starts_with [] b = true
starts_with (x ∷ a) [] = false
starts_with (x ∷ a) (y ∷ b) = (x == y) && starts_with a b

-- `equals`
unfoldable pub equals : List ℕ → List ℕ → Bool → Bool
equals a b noprefix = if noprefix && not (length a == length b) then false else starts_with a b

-- `strcmp(a, b) == 0`
unfoldable pub same_text : List ℕ → List ℕ → Bool
same_text [] [] = true
same_text [] (y ∷ b) = false
same_text (x ∷ a) [] = false
same_text (x ∷ a) (y ∷ b) = (x == y) && same_text a b

-- `*arguments[i]`
unfoldable pub word : List (Option (List ℕ)) → ℕ → Run (List ℕ)
word arguments i = elim (get_elem? arguments i) [
  | none ↦ fault
  | some w ↦ elim w [ none ↦ fault | some s ↦ ok s ]
]

abbrev pub natural : ℤ → Run ℕ
natural (pos n) = ok n
natural (negsuc n) = fault

-- The file under a name: the mounted device writes through to the file that it was opened on.
unfoldable pub file_of : Shell → List ℕ → Entry
file_of sh name = elim sh.session [
  | none ↦ sh.files name
  | some s ↦
      if same_text s.device_name name
      then regular s.fs.block_device.device_handle
      else sh.files name
]

abbrev pub with_file : (List ℕ → Entry) → List ℕ → Entry → List ℕ → Entry
with_file files name e other = if same_text name other then e else files other

-- The session when the file under a name has changed.
abbrev pub reopened : Session → List ℕ → Entry → Session
reopened s name (regular f) =
    if same_text s.device_name name
    then record s {
      fs = record s.fs { block_device = record s.fs.block_device { device_handle = f } };
    }
    else s
reopened s name (missing n) = s
reopened s name denied = s

unfoldable pub store : Shell → List ℕ → Entry → Shell
store sh name e = record sh {
  files = with_file sh.files name e;
  session = elim sh.session [ none ↦ none | some s ↦ some (reopened s name e) ];
}

-- The inodes that a shell asks newfs for.
abbrev pub default_inode_count : ℕ
default_inode_count = 16

-- The command newfs.
unfoldable pub run_newfs : Shell → ℕ → List (Option (List ℕ)) → Run (List Reply × Shell)
unfolding word file_of store
run_newfs sh num_words arguments =
    if num_words == 4
    then (do
      device_name ← word arguments 1
      size ← word arguments 2
      count ← word arguments 3
      block_size ← natural (atoi size)
      block_count ← natural (atoi count)
      (made, e) ← newfs (file_of sh device_name) block_size block_count default_inode_count
      ok ((if made then created else newfs_error) ∷ [], store sh device_name e))
    else ok (usage ∷ [], sh)

-- The command mount, where nothing is mounted.
unfoldable pub run_mount : Shell → ℕ → List (Option (List ℕ)) → Run (List Reply × Shell)
unfolding word file_of
run_mount sh num_words arguments =
    if num_words == 2
    then (do
      device_name ← word arguments 1
      fs ← mount (file_of sh device_name)
      ok (
        [],
        record sh {
          session = some (record { device_name = device_name; fs = fs; directory = some [] });
        },
      ))
    else ok (usage ∷ [], sh)

-- The command unmount, where a device is mounted.
unfoldable pub run_unmount : Shell → Session → Run (List Reply × Shell)
run_unmount sh s = unmount s.fs >>= λ r.
    ok ([], record sh { files = with_file sh.files s.device_name r.1; session = none })

-- A change of the session.
abbrev pub in_session : Shell → Session → Shell
in_session sh s = record sh { session = some s }
