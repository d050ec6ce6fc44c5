-- ===== src/Shell/Lines.antt =====
-- my_shell.c and new_shell.c: lines without a word, and lines that end a shell.
use cs.Prelude.{
  ℕ, ◌≡◌, ◌∙◌, refl, ap, true, false, Option, none, some, List, [], ◌∷◌, ◌++◌, append-nil,
}
use cs.Prelude.Run.{Run, ok, fault, ◌>>=◌}
use cs.Prelude.Always.{Always, ok-Always, option-Always, >>=-Always}
use cs.Text.{break_words, fill_words, tokens, tokens_from, is_delim}
use cs.Shell.{Host, Session, Shell, Reply, equals, word, run_unmount}
use cs.Shell.Words.{quit_name}
use cs.Shell.Mine.{max_args, blanks_between, finished, command_of, perform, my_step, my_loop}
use cs.Shell.Small.{unmounted_step, mounted_step, new_step, new_loop}
use cs.Shell.Agreement.{quit_apart}
use cs.Shell.Invariant.Reach.{Program, my_shell, new_shell, step, loop}

-- A string of delimiters.
abbrev pub IsBlank : List ℕ → Type 0
IsBlank [] = Unit
IsBlank (c ∷ l) = (is_delim blanks_between c ≡ true) × IsBlank l

tokens_from-blank : (l : List ℕ) → IsBlank l → tokens_from blanks_between [] l ≡ []
unfolding tokens_from
tokens_from-blank [] h = refl
tokens_from-blank (c ∷ l) (b, h) = rw b (tokens_from-blank l h)

no_word : (l : List ℕ) → IsBlank l → word (break_words l max_args blanks_between).1 0 ≡ fault
unfolding break_words tokens fill_words word
no_word l h = rw (tokens_from-blank l h) refl

-- On a line of blanks alone, which is not empty, both shells follow the NULL that breakWords
-- leaves for the first word.
pub step-blank :
    (p : Program) (host : Host) (sh : Shell) (c : ℕ) (l : List ℕ)
    → IsBlank (c ∷ l)
    → step p host sh (c ∷ l) ≡ fault
unfolding my_step new_step
step-blank my_shell host sh c l h = rw (no_word (c ∷ l) h) refl
step-blank new_shell host sh c l h = rw (no_word (c ∷ l) h) refl

-- How a shell ends: it unmounts the device that it has mounted.
abbrev pub ended : Shell → Run (List Reply × Shell)
ended sh = elim sh.session [
  | none ↦ ok ([], finished sh)
  | some s ↦ run_unmount sh s >>= λ r. ok (r.0, finished r.1)
]

my_step-quit :
    (host : Host) (sh : Shell) (l : List ℕ) (w : List ℕ)
    → word (break_words l max_args blanks_between).1 0 ≡ ok w
    → equals quit_name w false ≡ true
    → my_step host sh l ≡ ended sh
unfolding my_step command_of perform
my_step-quit host sh [] w e q = let none_there = no_word [] tt in absurd (cc)
my_step-quit host sh (c ∷ l) w e q = rw (e, q) refl

new_on_quit :
    (host : Host) (sh : Shell) (o : Option Session) (w : List ℕ) (n : ℕ)
    (arguments : List (Option (List ℕ)))
    → sh.session ≡ o
    → equals quit_name w false ≡ true
    → elim o [
      | none ↦ unmounted_step sh w n arguments
      | some s ↦ mounted_step host sh s w n arguments
    ]
      ≡ elim o [
        | none ↦ ok ([], finished sh)
        | some s ↦ run_unmount sh s >>= λ r. ok (r.0, finished r.1)
      ]
unfolding unmounted_step mounted_step
new_on_quit host sh none w n arguments i q = rw ((quit_apart w q).0, (quit_apart w q).1, q) refl
new_on_quit host sh (some s) w n arguments i q = rw q refl

new_step-quit :
    (host : Host) (sh : Shell) (l : List ℕ) (w : List ℕ)
    → word (break_words l max_args blanks_between).1 0 ≡ ok w
    → equals quit_name w false ≡ true
    → new_step host sh l ≡ ended sh
unfolding new_step
new_step-quit host sh [] w e q = let none_there = no_word [] tt in absurd (cc)
new_step-quit host sh (c ∷ l) w e q =
    let words = break_words (c ∷ l) max_args blanks_between in
    rw e (new_on_quit host sh sh.session w words.0 words.1 refl q)

step-quit :
    (p : Program) (host : Host) (sh : Shell) (l : List ℕ) (w : List ℕ)
    → word (break_words l max_args blanks_between).1 0 ≡ ok w
    → equals quit_name w false ≡ true
    → step p host sh l ≡ ended sh
step-quit my_shell host sh l w e q = my_step-quit host sh l w e q
step-quit new_shell host sh l w e q = new_step-quit host sh l w e q

loop_done :
    (p : Program) (host : Host) (sh : Shell) (ls : List (List ℕ))
    → sh.is_done ≡ true
    → loop p host sh ls ≡ ok ([], sh)
unfolding my_loop new_loop
loop_done my_shell host sh [] d = refl
loop_done new_shell host sh [] d = refl
loop_done my_shell host sh (l ∷ ls) d = rw d refl
loop_done new_shell host sh (l ∷ ls) d = rw d refl

loop-step :
    (p : Program) (host : Host) (sh : Shell) (l : List ℕ) (ls : List (List ℕ))
    → sh.is_done ≡ false
    → loop p host sh (l ∷ ls)
      ≡ (step p host sh l >>= λ r. loop p host r.1 ls >>= λ rest. ok (r.0 ++ rest.0, rest.1))
unfolding my_loop new_loop
loop-step my_shell host sh l ls d = rw d refl
loop-step new_shell host sh l ls d = rw d refl

abbrev IsOver : List Reply × Shell → Type 0
IsOver r = r.1.is_done ≡ true

ended-IsOver : (sh : Shell) → Always IsOver (ended sh)
ended-IsOver sh =
    option-Always IsOver sh.session _ _ (ok-Always IsOver ([], finished sh) refl) (λ s e.
      >>=-Always IsOver (run_unmount sh s) _ (λ r e. ok-Always IsOver (r.0, finished r.1) refl))

-- Behind a call that ends the shell the loop stops.
then_over :
    (p : Program) (host : Host) (ls : List (List ℕ)) (m : Run (List Reply × Shell))
    → Always IsOver m
    → (m >>= λ r. loop p host r.1 ls >>= λ rest. ok (r.0 ++ rest.0, rest.1)) ≡ m
then_over p host ls fault f = refl
then_over p host ls (ok (said, sh)) f = rw (loop_done p host sh ls (f (said, sh) refl)) (
    let said_all : List Reply → Run (List Reply × Shell) = λ t. ok (t, sh) in
    ap said_all (append-nil said))

-- On a line whose first word begins with q, a shell that is not done unmounts the device that it
-- has mounted, if any, and its loop ends without reading the lines behind it.
pub loop-quit :
    (p : Program) (host : Host) (sh : Shell) (l : List ℕ) (ls : List (List ℕ)) (w : List ℕ)
    → sh.is_done ≡ false
    → word (break_words l max_args blanks_between).1 0 ≡ ok w
    → equals quit_name w false ≡ true
    → loop p host sh (l ∷ ls) ≡ ended sh
loop-quit p host sh l ls w d e q =
    loop-step p host sh l ls d
    ∙ rw (step-quit p host sh l w e q) (then_over p host ls (ended sh) (ended-IsOver sh))
