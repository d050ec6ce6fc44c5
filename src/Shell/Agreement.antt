-- ===== src/Shell/Agreement.antt =====
-- my_shell.c and new_shell.c: the commands on which the two programs agree.
use cs.Prelude.{ℕ, ◌≡◌, refl, true, false, Option, none, some, List, [], ◌∷◌, arith}
use cs.Prelude.Run.{Run, ok, >>=-ext}
use cs.Text.{break_words}
use cs.Shell.{Host, Session, Shell, Reply, starts_with, equals, word}
use cs.Shell.Words.{quit_name, newfs_name, mount_name, unmount_name, mkdir_name, ls_name}
use cs.Shell.Mine.{
  Command, quit, make_volume, mount_device, unmount_device, mkdir, ls, max_args, blanks_between,
  command_of, perform, my_step,
}
use cs.Shell.Small.{unmounted_step, mounted_step, new_step}

-- The commands that both programs have in a state.
pub data IsShared : Option Session → Command → Type 0 where
  quit_any : (o : Option Session) → IsShared o quit
  newfs_unmounted : IsShared none make_volume
  mount_unmounted : IsShared none mount_device
  unmount_mounted : (s : Session) → IsShared (some s) unmount_device
  mkdir_mounted : (s : Session) → IsShared (some s) mkdir
  ls_mounted : (s : Session) → IsShared (some s) ls

pub quit_apart :
    (w : List ℕ)
    → equals quit_name w false ≡ true
    → (equals newfs_name w true ≡ false) × (equals mount_name w true ≡ false)
unfolding equals starts_with
quit_apart [] e = absurd (ground arith)
quit_apart (c ∷ w) e = (ground arith, ground arith)

-- What the tests for the words have said when a command was found.
quit_tests : (w : List ℕ) → command_of w ≡ quit → equals quit_name w false ≡ true
unfolding command_of
quit_tests w e = ground arith

newfs_tests : (w : List ℕ) → command_of w ≡ make_volume → equals newfs_name w true ≡ true
unfolding command_of
newfs_tests w e = ground arith

mount_tests :
    (w : List ℕ)
    → command_of w ≡ mount_device
    → (equals newfs_name w true ≡ false) × (equals mount_name w true ≡ true)
unfolding command_of
mount_tests w e = (ground arith, ground arith)

unmount_tests :
    (w : List ℕ)
    → command_of w ≡ unmount_device
    → (equals quit_name w false ≡ false) × (equals unmount_name w true ≡ true)
unfolding command_of
unmount_tests w e = (ground arith, ground arith)

mkdir_tests :
    (w : List ℕ)
    → command_of w ≡ mkdir
    → (equals quit_name w false ≡ false)
      × (equals unmount_name w true ≡ false)
      × (equals mkdir_name w true ≡ true)
unfolding command_of
mkdir_tests w e = (ground arith, ground arith, ground arith)

ls_tests :
    (w : List ℕ)
    → command_of w ≡ ls
    → (equals quit_name w false ≡ false)
      × (equals unmount_name w true ≡ false)
      × (equals mkdir_name w true ≡ false)
      × (equals ls_name w true ≡ true)
unfolding command_of
ls_tests w e = (ground arith, ground arith, ground arith, ground arith)

-- What new_shell does with a first word.
abbrev small :
    Host → Shell → Option Session → List ℕ → ℕ → List (Option (List ℕ)) → Run (List Reply × Shell)
small host sh o w n arguments = elim o [
  | none ↦ unmounted_step sh w n arguments
  | some s ↦ mounted_step host sh s w n arguments
]

agree :
    (host : Host) (sh : Shell) (o : Option Session) (c : Command) (w : List ℕ) (n : ℕ)
    (arguments : List (Option (List ℕ)))
    → sh.session ≡ o
    → command_of w ≡ c
    → IsShared o c
    → perform host sh c n arguments ≡ small host sh o w n arguments
unfolding perform unmounted_step mounted_step
agree host sh _ _ w n arguments i e (quit_any none) =
    let q = quit_tests w e in rw (i, (quit_apart w q).0, (quit_apart w q).1, q) refl
agree host sh _ _ w n arguments i e (quit_any (some s)) = rw (i, quit_tests w e) refl
agree host sh _ _ w n arguments i e newfs_unmounted = rw (newfs_tests w e) refl
agree host sh _ _ w n arguments i e mount_unmounted =
    rw (i, (mount_tests w e).0, (mount_tests w e).1) refl
agree host sh _ _ w n arguments i e (unmount_mounted s) =
    rw (i, (unmount_tests w e).0, (unmount_tests w e).1) refl
agree host sh _ _ w n arguments i e (mkdir_mounted s) =
    rw (i, (mkdir_tests w e).0, (mkdir_tests w e).1, (mkdir_tests w e).2) refl
agree host sh _ _ w n arguments i e (ls_mounted s) =
    rw (i, (ls_tests w e).0, (ls_tests w e).1, (ls_tests w e).2, (ls_tests w e).3) refl

-- On a line whose first word, if it has one, names a command that both shells have (q; newfs and
-- mount with nothing mounted; unmount, mkdir and ls with a device mounted), the two shells print
-- the same and end in the same state.
pub my_step-new_step :
    (host : Host) (sh : Shell) (l : List ℕ)
    → ((w : List ℕ)
        → word (break_words l max_args blanks_between).1 0 ≡ ok w
        → IsShared sh.session (command_of w))
    → my_step host sh l ≡ new_step host sh l
unfolding my_step new_step
my_step-new_step host sh [] h = refl
my_step-new_step host sh (c ∷ l) h =
    let words = break_words (c ∷ l) max_args blanks_between in
    >>=-ext (word words.1 0) _ _
      (λ w e. agree host sh sh.session (command_of w) w words.0 words.1 refl refl (h w e))
