-- ===== src/Shell/Invariant/Reach.antt =====
-- my_shell.c and new_shell.c: the shells as state machines.
use cs.Prelude.{
  ℕ, ◌≡◌, ◌⊎◌, inl, inr, ap, refl, true, false, none, List, [], ◌∷◌, ◌++◌, subst, sym, append-nil,
  append_assoc, if◌then◌else◌,
}
use cs.Prelude.Run.{Run, ok, ◌>>=◌}
use cs.Prelude.Always.{Always, >>=-Always, branch-Always, ok-Always}
use cs.Device.{Entry}
use cs.Shell.{Host, Shell, Reply}
use cs.Shell.Mine.{my_step, my_loop}
use cs.Shell.Small.{new_step, new_loop}
use cs.Shell.Invariant.Loop.{session_stands, InTree, my_step-InTree, new_step-InTree}

-- The two programs.
pub data Program : Type 0 where
  my_shell new_shell : Program

abbrev pub step : Program → Host → Shell → List ℕ → Run (List Reply × Shell)
step my_shell = my_step
step new_shell = new_step

abbrev pub loop : Program → Host → Shell → List (List ℕ) → Run (List Reply × Shell)
loop my_shell = my_loop
loop new_shell = new_loop

-- A shell as main starts it, on the files of the host.
abbrev pub started : (List ℕ → Entry) → Shell
started files = record { files = files; session = none; is_done = false }

-- What a shell becomes on the lines that it takes, in their order, and what it prints on the way: a
-- line is taken while the shell is not done.
pub data Reaches (p : Program) (host : Host) (sh : Shell)
    : List (List ℕ) → List Reply → Shell → Type 0 where
  start : Reaches p host sh [] [] sh
  line :
      (taken : List (List ℕ)) (said : List Reply) (at : Shell) (l : List ℕ) (more : List Reply)
      (next : Shell)
      → Reaches p host sh taken said at
      → at.is_done ≡ false
      → step p host at l ≡ ok (more, next)
      → Reaches p host sh (taken ++ (l ∷ [])) (said ++ more) next

step-InTree :
    (p : Program) (host : Host) (sh : Shell) (l : List ℕ)
    → session_stands sh.session ≡ true
    → Always InTree (step p host sh l)
step-InTree my_shell host sh l h = my_step-InTree host sh l h
step-InTree new_shell host sh l h = new_step-InTree host sh l h

-- Whatever lines either shell has taken from its start, the current directory of a mounted file
-- system is NULL or an entry of its tree.
pub Reaches-InTree :
    (p : Program) (host : Host) (files : List ℕ → Entry) {taken : List (List ℕ)} {said : List Reply}
    {sh : Shell}
    → Reaches p host (started files) taken said sh
    → session_stands sh.session ≡ true
Reaches-InTree p host files start = refl
Reaches-InTree p host files (line taken said at l more next r go e) =
    step-InTree p host at l (Reaches-InTree p host files r) (more, next) e

-- A call on the lines that are left ends behind some of them: those before are taken, one by one, and
-- what is left then is nothing unless the shell is done.
pub record Ends (p : Program) (host : Host) (from : Shell) (before lines : List (List ℕ))
    (said : List Reply) (r : List Reply × Shell) : Type 0 where
  pub taken : List (List ℕ)
  pub left : List (List ℕ)
  pub split : lines ≡ taken ++ left
  pub reached : Reaches p host from (before ++ taken) (said ++ r.0) r.1
  pub over : (left ≡ []) ⊎ (r.1.is_done ≡ true)

-- A call that takes no line.
Ends-stop :
    (p : Program) (host : Host) (from sh : Shell) (before lines : List (List ℕ)) (said : List Reply)
    → Reaches p host from before said sh
    → (lines ≡ []) ⊎ (sh.is_done ≡ true)
    → Ends p host from before lines said ([], sh)
Ends-stop p host from sh before lines said h over = record {
  taken = [];
  left = lines;
  split = refl;
  reached =
      subst (λ t. Reaches p host from t (said ++ []) sh) (sym (append-nil before))
        (subst (λ t. Reaches p host from before t sh) (sym (append-nil said)) h);
  over = over;
}

-- A call that takes a line, and then goes on.
Ends-line :
    (p : Program) (host : Host) (from : Shell) (before lines : List (List ℕ)) (said : List Reply)
    (l : List ℕ) (more : List Reply) (q : List Reply × Shell)
    → Ends p host from (before ++ (l ∷ [])) lines (said ++ more) q
    → Ends p host from before (l ∷ lines) said (more ++ q.0, q.1)
Ends-line p host from before lines said l more q e = record {
  taken = l ∷ e.taken;
  left = e.left;
  split = ap (λ t. l ∷ t) e.split;
  reached =
      subst (λ t. Reaches p host from t (said ++ (more ++ q.0)) q.1)
        (append_assoc before (l ∷ []) e.taken)
        (subst (λ t. Reaches p host from ((before ++ (l ∷ [])) ++ e.taken) t q.1)
          (append_assoc said more q.0) e.reached);
  over = e.over;
}

-- What the loop of a program does with a line and the lines behind it.
loop_on :
    (p : Program) (host : Host) (from sh : Shell) (before lines : List (List ℕ)) (said : List Reply)
    (l : List ℕ) (rest : Shell → Run (List Reply × Shell))
    → Reaches p host from before said sh
    → ((said' : List Reply) (sh' : Shell)
        → Reaches p host from (before ++ (l ∷ [])) said' sh'
        → Always (Ends p host from (before ++ (l ∷ [])) lines said') (rest sh'))
    → Always (Ends p host from before (l ∷ lines) said) (
        if sh.is_done
        then ok ([], sh)
        else (step p host sh l >>= λ r. rest r.1 >>= λ q. ok (r.0 ++ q.0, q.1)))
loop_on p host from sh before lines said l rest h again =
    let P : List Reply × Shell → Type 0 = Ends p host from before (l ∷ lines) said in
    branch-Always P sh.is_done _ _
      (λ d. ok-Always P ([], sh) (Ends-stop p host from sh before (l ∷ lines) said h (inr d)))
      (λ d. >>=-Always P (step p host sh l) _ (λ r e. >>=-Always P (rest r.1) _ (λ q e'.
        ok-Always P (r.0 ++ q.0, q.1)
          (Ends-line p host from before lines said l r.0 q
            (again (said ++ r.0) r.1 (line before said sh l r.0 r.1 h d e) q e')))))

my_loop-Ends :
    (host : Host) (from sh : Shell) (before : List (List ℕ)) (said : List Reply)
    (lines : List (List ℕ))
    → Reaches my_shell host from before said sh
    → Always (Ends my_shell host from before lines said) (my_loop host sh lines)
unfolding my_loop
my_loop-Ends host from sh before said [] h =
    ok-Always (Ends my_shell host from before [] said) ([], sh)
      (Ends-stop my_shell host from sh before [] said h (inl refl))
my_loop-Ends host from sh before said (l ∷ lines) h =
    loop_on my_shell host from sh before lines said l (λ sh'. my_loop host sh' lines) h
      (λ said' sh' h'. my_loop-Ends host from sh' (before ++ (l ∷ [])) said' lines h')

new_loop-Ends :
    (host : Host) (from sh : Shell) (before : List (List ℕ)) (said : List Reply)
    (lines : List (List ℕ))
    → Reaches new_shell host from before said sh
    → Always (Ends new_shell host from before lines said) (new_loop host sh lines)
unfolding new_loop
new_loop-Ends host from sh before said [] h =
    ok-Always (Ends new_shell host from before [] said) ([], sh)
      (Ends-stop new_shell host from sh before [] said h (inl refl))
new_loop-Ends host from sh before said (l ∷ lines) h =
    loop_on new_shell host from sh before lines said l (λ sh'. new_loop host sh' lines) h
      (λ said' sh' h'. new_loop-Ends host from sh' (before ++ (l ∷ [])) said' lines h')

-- When the loop of either shell ends, it has taken the lines one by one from the first on, each
-- by a step from a shell that was not done, and leaves the shell that these steps reach, with the
-- replies of the steps in their order; the lines that it has not taken are none, or the shell is
-- done.
pub loop-Reaches :
    (p : Program) (host : Host) (from : Shell) (lines : List (List ℕ)) {r : List Reply × Shell}
    → loop p host from lines ≡ ok r
    → (taken : List (List ℕ)) × (left : List (List ℕ)) × (lines ≡ taken ++ left)
      × Reaches p host from taken r.0 r.1
      × ((left ≡ []) ⊎ (r.1.is_done ≡ true))
loop-Reaches my_shell host from lines {r} e =
    let ends = my_loop-Ends host from from [] [] lines start r e in
    (ends.taken, ends.left, ends.split, ends.reached, ends.over)
loop-Reaches new_shell host from lines {r} e =
    let ends = new_loop-Ends host from from [] [] lines start r e in
    (ends.taken, ends.left, ends.split, ends.reached, ends.over)
