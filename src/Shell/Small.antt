-- ===== src/Shell/Small.antt =====
-- new_shell.c: the loop of the shell whose commands depend on whether a device is mounted.
use cs.Prelude.{ℕ, true, false, Option, none, some, List, [], ◌∷◌, ◌++◌, if◌then◌else◌}
use cs.Prelude.Run.{Run, ok, ◌>>=◌}
use cs.Text.{break_words}
use cs.Shell.{
  Host, Session, Shell, Reply, valid_commands, equals, word, run_newfs, run_mount, run_unmount,
  in_session,
}
use cs.Shell.Words.{quit_name, newfs_name, mount_name, unmount_name, mkdir_name, ls_name, cd_name}
use cs.Shell.Directories.{run_mkdir, run_ls, run_cd}
use cs.Shell.Mine.{max_args, blanks_between, finished}

-- The branch of the loop where nothing is mounted.
unfoldable pub unmounted_step :
    Shell → List ℕ → ℕ → List (Option (List ℕ)) → Run (List Reply × Shell)
unfolding equals run_newfs run_mount
unmounted_step sh w n arguments =
    if equals newfs_name w true
    then run_newfs sh n arguments
    else if equals mount_name w true
    then run_mount sh n arguments
    else if equals quit_name w false
    then ok ([], finished sh)
    else ok (valid_commands ∷ [], sh)

-- The session after a command, in its shell.
abbrev pub back_in : Shell → Run (List Reply × Session) → Run (List Reply × Shell)
back_in sh m = m >>= λ r. ok (r.0, in_session sh r.1)

-- The branch of the loop where a device is mounted.
unfoldable pub mounted_step :
    Host → Shell → Session → List ℕ → ℕ → List (Option (List ℕ)) → Run (List Reply × Shell)
unfolding equals run_unmount run_mkdir run_ls run_cd
mounted_step host sh s w n arguments =
    if equals quit_name w false
    then (run_unmount sh s >>= λ r. ok (r.0, finished r.1))
    else if equals unmount_name w true
    then run_unmount sh s
    else if equals mkdir_name w true
    then back_in sh (run_mkdir host s n arguments)
    else if equals ls_name w true
    then back_in sh (run_ls s)
    else if equals cd_name w true
    then back_in sh (run_cd s n arguments)
    else ok ([], sh)

-- The body of the loop for a line.
unfoldable pub new_step : Host → Shell → List ℕ → Run (List Reply × Shell)
unfolding word unmounted_step mounted_step
new_step host sh [] = ok ([], sh)
new_step host sh (c ∷ line) =
    let (num_words, arguments) = break_words (c ∷ line) max_args blanks_between in
    word arguments 0 >>= λ w. elim sh.session [
      | none ↦ unmounted_step sh w num_words arguments
      | some s ↦ mounted_step host sh s w num_words arguments
    ]

-- The loop over the lines of the input.
unfoldable pub new_loop : Host → Shell → List (List ℕ) → Run (List Reply × Shell)
unfolding new_step
new_loop host sh [] = ok ([], sh)
new_loop host sh (line ∷ lines) =
    if sh.is_done
    then ok ([], sh)
    else (new_step host sh line >>= λ r.
        new_loop host r.1 lines >>= λ rest. ok (r.0 ++ rest.0, rest.1))
