-- ===== src/Shell/Invariant/Loop.antt =====
-- my_shell.c and new_shell.c: what the loops keep of the current directory.
use cs.Prelude.{
  ℕ, ◌≡◌, refl, ap, Bool, true, false, not, Option, none, some, List, [], ◌∷◌, arith, if◌then◌else◌,
  ◌==◌, ltb,
}
use cs.Prelude.Run.{Run, ok, ◌>>=◌}
use cs.Prelude.Always.{Always, ok-Always, >>=-Always, if-Always}
use cs.Device.{Entry, missing, regular, denied}
use cs.Text.{break_words, atoi}
use cs.Volume.{newfs, mount, unmount}
use cs.Volume.Rooted.{mount-IsRooted}
use cs.Shell.{
  Host, Session, Shell, Reply, usage, created, newfs_error, word, natural, equals, run_newfs,
  run_mount, run_unmount, in_session, store, with_file, reopened, file_of, default_inode_count,
  mount_first, unmount_first, names, valid_commands,
}
use cs.Shell.Words.{quit_name, newfs_name, mount_name, unmount_name, mkdir_name, ls_name, cd_name}
use cs.Shell.Directories.{run_mkdir, run_ls, run_cd}
use cs.Shell.Mine.{
  Command, quit, make_volume, mount_device, unmount_device, mkdir, ls, cd, take_block, give_block,
  show_map, take_inode, give_inode, write_first, echo, other, max_args, blanks_between,
  when_mounted, some_words, finished, perform, command_of, my_step,
}
use cs.Shell.Small.{unmounted_step, mounted_step, new_step}
use cs.Shell.Invariant.{
  Stands, stands_in, run_mkdir-Stands, run_ls-Stands, run_cd-Stands, run_cd_up-Stands,
  run_alloc_block-Stands, run_free_block-Stands, run_block_map-Stands, run_alloc_inode-Stands,
  run_free_inode-Stands, run_write-Stands,
}

-- The current directory of the session, if there is one, is NULL or an entry of its tree.
abbrev pub session_stands : Option Session → Bool
session_stands none = true
session_stands (some s) = stands_in s

-- What a line leaves.
abbrev pub InTree : List Reply × Shell → Type 0
InTree r = session_stands r.1.session ≡ true

reopened-stands :
    (o : Option Session) (name : List ℕ) (e : Entry)
    → session_stands o ≡ true
    → session_stands (elim o [ none ↦ none | some s ↦ some (reopened s name e) ]) ≡ true
reopened-stands none name e h = refl
reopened-stands (some s) name (regular f) h = ground arith
reopened-stands (some s) name (missing n) h = h
reopened-stands (some s) name denied h = h

run_newfs-InTree :
    (sh : Shell) (n : ℕ) (arguments : List (Option (List ℕ)))
    → session_stands sh.session ≡ true
    → Always InTree (run_newfs sh n arguments)
unfolding run_newfs store
run_newfs-InTree sh n arguments h =
    if-Always InTree (n == 4) _ _
      (>>=-Always InTree (word arguments 1) _ (λ name e.
        >>=-Always InTree (word arguments 2) _ (λ size e.
          >>=-Always InTree (word arguments 3) _ (λ count e.
            >>=-Always InTree (natural (atoi size)) _ (λ bytes e.
              >>=-Always InTree (natural (atoi count)) _ (λ blocks e.
                >>=-Always InTree (newfs (file_of sh name) bytes blocks default_inode_count) _
                  (λ q e.
                    ok-Always InTree
                      ((if q.0 then created else newfs_error) ∷ [], store sh name q.1)
                      (reopened-stands sh.session name q.1 h))))))))
      (ok-Always InTree (usage ∷ [], sh) h)

run_mount-InTree :
    (sh : Shell) (n : ℕ) (arguments : List (Option (List ℕ)))
    → session_stands sh.session ≡ true
    → Always InTree (run_mount sh n arguments)
unfolding run_mount
run_mount-InTree sh n arguments h =
    if-Always InTree (n == 2) _ _
      (>>=-Always InTree (word arguments 1) _ (λ name e.
        >>=-Always InTree (mount (file_of sh name)) _ (λ fs e.
          ok-Always InTree
            (
              [],
              record sh {
                session = some (record { device_name = name; fs = fs; directory = some [] });
              },
            )
            (ap not (mount-IsRooted (file_of sh name) fs e)))))
      (ok-Always InTree (usage ∷ [], sh) h)

run_unmount-InTree : (sh : Shell) (s : Session) → Always InTree (run_unmount sh s)
unfolding run_unmount
run_unmount-InTree sh s = >>=-Always InTree (unmount s.fs) _ (λ r e.
    ok-Always InTree
      ([], record sh { files = with_file sh.files s.device_name r.1; session = none }) refl)

-- A command on the session of a shell.
session-InTree :
    (sh : Shell) (m : Run (List Reply × Session))
    → Always Stands m
    → Always InTree (m >>= λ r. ok (r.0, in_session sh r.1))
session-InTree sh m f =
    >>=-Always InTree m _ (λ r e. ok-Always InTree (r.0, in_session sh r.1) (f r e))

on_session-InTree :
    (o : Option Session) (a : Run (List Reply × Shell)) (k : Session → Run (List Reply × Shell))
    → session_stands o ≡ true
    → Always InTree a
    → ((s : Session) → stands_in s ≡ true → Always InTree (k s))
    → Always InTree (elim o [ none ↦ a | some s ↦ k s ])
on_session-InTree none a k h f g v e = f v e
on_session-InTree (some s) a k h f g v e = g s h v e

when_mounted-InTree :
    (sh : Shell) (f : Session → Run (List Reply × Session))
    → session_stands sh.session ≡ true
    → ((s : Session) → stands_in s ≡ true → Always Stands (f s))
    → Always InTree (when_mounted sh f)
when_mounted-InTree sh f h g =
    on_session-InTree sh.session _ _ h (ok-Always InTree (mount_first ∷ [], sh) h)
      (λ s st. session-InTree sh (f s) (g s st))

perform-InTree :
    (host : Host) (sh : Shell) (c : Command) (n : ℕ) (arguments : List (Option (List ℕ)))
    → session_stands sh.session ≡ true
    → Always InTree (perform host sh c n arguments)
unfolding perform
perform-InTree host sh quit n arguments h =
    on_session-InTree sh.session _ _ h (ok-Always InTree ([], finished sh) h) (λ s st.
      >>=-Always InTree (run_unmount sh s) _
        (λ r e. ok-Always InTree (r.0, finished r.1) (run_unmount-InTree sh s r e)))
perform-InTree host sh make_volume n arguments h = run_newfs-InTree sh n arguments h
perform-InTree host sh mount_device n arguments h =
    on_session-InTree sh.session _ _ h (run_mount-InTree sh n arguments h)
      (λ s st. ok-Always InTree (unmount_first ∷ [], sh) h)
perform-InTree host sh unmount_device n arguments h =
    on_session-InTree sh.session _ _ h (ok-Always InTree (mount_first ∷ [], sh) h)
      (λ s st. run_unmount-InTree sh s)
perform-InTree host sh mkdir n arguments h =
    when_mounted-InTree sh _ h (λ s st. run_mkdir-Stands host s n arguments st)
perform-InTree host sh ls n arguments h = when_mounted-InTree sh _ h run_ls-Stands
perform-InTree host sh cd n arguments h =
    when_mounted-InTree sh _ h (λ s st. run_cd_up-Stands host s n arguments st)
perform-InTree host sh take_block n arguments h = when_mounted-InTree sh _ h run_alloc_block-Stands
perform-InTree host sh give_block n arguments h =
    if-Always InTree (n == 2) _ _
      (when_mounted-InTree sh _ h (λ s st. run_free_block-Stands s arguments st))
      (ok-Always InTree (usage ∷ [], sh) h)
perform-InTree host sh show_map n arguments h = when_mounted-InTree sh _ h run_block_map-Stands
perform-InTree host sh take_inode n arguments h = when_mounted-InTree sh _ h run_alloc_inode-Stands
perform-InTree host sh give_inode n arguments h =
    if-Always InTree (n == 2) _ _
      (when_mounted-InTree sh _ h (λ s st. run_free_inode-Stands s arguments st))
      (ok-Always InTree (usage ∷ [], sh) h)
perform-InTree host sh write_first n arguments h =
    if-Always InTree (ltb 2 n) _ _
      (when_mounted-InTree sh _ h (λ s st. run_write-Stands s arguments st))
      (ok-Always InTree (usage ∷ [], sh) h)
perform-InTree host sh echo n arguments h =
    ok-Always InTree (names (some_words arguments) ∷ [], sh) h
perform-InTree host sh other n arguments h = ok-Always InTree ([], sh) h

pub my_step-InTree :
    (host : Host) (sh : Shell) (line : List ℕ)
    → session_stands sh.session ≡ true
    → Always InTree (my_step host sh line)
unfolding my_step
my_step-InTree host sh [] h = ok-Always InTree ([], sh) h
my_step-InTree host sh (c ∷ line) h =
    let words = break_words (c ∷ line) max_args blanks_between in
    >>=-Always InTree (word words.1 0) _
      (λ w e. perform-InTree host sh (command_of w) words.0 words.1 h)

unmounted_step-InTree :
    (sh : Shell) (w : List ℕ) (n : ℕ) (arguments : List (Option (List ℕ)))
    → session_stands sh.session ≡ true
    → Always InTree (unmounted_step sh w n arguments)
unfolding unmounted_step
unmounted_step-InTree sh w n arguments h =
    if-Always InTree (equals newfs_name w true) _ _ (run_newfs-InTree sh n arguments h) (
      if-Always InTree (equals mount_name w true) _ _ (run_mount-InTree sh n arguments h) (
        if-Always InTree (equals quit_name w false) _ _ (ok-Always InTree ([], finished sh) h)
          (ok-Always InTree (valid_commands ∷ [], sh) h)))

mounted_step-InTree :
    (host : Host) (sh : Shell) (s : Session) (w : List ℕ) (n : ℕ)
    (arguments : List (Option (List ℕ)))
    → session_stands sh.session ≡ true
    → stands_in s ≡ true
    → Always InTree (mounted_step host sh s w n arguments)
unfolding mounted_step
mounted_step-InTree host sh s w n arguments h st =
    if-Always InTree (equals quit_name w false) _ _
      (>>=-Always InTree (run_unmount sh s) _
        (λ r e. ok-Always InTree (r.0, finished r.1) (run_unmount-InTree sh s r e)))
      (if-Always InTree (equals unmount_name w true) _ _ (run_unmount-InTree sh s) (
        if-Always InTree (equals mkdir_name w true) _ _
          (session-InTree sh (run_mkdir host s n arguments)
            (run_mkdir-Stands host s n arguments st))
          (if-Always InTree (equals ls_name w true) _ _
            (session-InTree sh (run_ls s) (run_ls-Stands s st))
            (if-Always InTree (equals cd_name w true) _ _
              (session-InTree sh (run_cd s n arguments) (run_cd-Stands s n arguments st))
              (ok-Always InTree ([], sh) h)))))

pub new_step-InTree :
    (host : Host) (sh : Shell) (line : List ℕ)
    → session_stands sh.session ≡ true
    → Always InTree (new_step host sh line)
unfolding new_step
new_step-InTree host sh [] h = ok-Always InTree ([], sh) h
new_step-InTree host sh (c ∷ line) h =
    let words = break_words (c ∷ line) max_args blanks_between in
    >>=-Always InTree (word words.1 0) _ (λ w e.
      on_session-InTree sh.session _ _ h (unmounted_step-InTree sh w words.0 words.1 h)
        (λ s st. mounted_step-InTree host sh s w words.0 words.1 h st))
