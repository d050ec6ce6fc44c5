-- ===== src/Shell/Invariant.antt =====
-- my_shell.c and new_shell.c: what every command keeps of the current directory.
pub mod Loop
pub mod Reach
use cs.Prelude.{
  ℕ, zero, suc, ◌+◌, ◌<◌, ◌≡◌, refl, ap, sym, ◌∙◌, subst, Bool, true, false, not, ◌&&◌, Option,
  none, some, List, [], ◌∷◌, ◌++◌, arith, if◌then◌else◌, ◌==◌, ltb, length, Bool-cases, inl, inr, ℤ,
  pos, negsuc,
}
use cs.Prelude.Run.{Run, ok, fault, assert, ◌>>=◌, ◌>>◌}
use cs.Prelude.Always.{Always, ok-Always, >>=-Always, if-Always}
use cs.BitSet.{BitSet, allocate_block, free_block, rounds}
use cs.FileSystem.{
  FileSystem, DirectoryEntry, null, entry, allocate_inode_from, allocate_inode, free_inode,
  put_inode, get_inode, inode_at,
}
use cs.FileSystem.Access.{inode_write}
use cs.FileSystem.Access.Bounds.{inode_write-Bounded}
use cs.INode.{INode, directory_type}
use cs.Directory.{is_null, add_child, children_of}
use cs.Directory.Place.{
  Place, Turn, down, over, visit, put_at, visit-append, visit-down, visit-put_at,
}
use cs.Directory.Shape.{add_child-entry}
use cs.Shell.{
  Host, Session, Reply, word, names, natural, usage, in_root, same_text, no_such_directory,
}
use cs.Shell.Directories.{
  with_entry, children_at, children_here, make_directory, run_mkdir, run_ls, run_cd, run_cd_up,
  sibling_names, cd_search, is_root, dot_dot, cd_up, dir_parent_search,
}
use cs.Shell.Directories.Standing.{
  stands, Standing, children_at-Standing, cd_search-stands, dir_parent_search-stands,
  search_children-stands,
}
use cs.Shell.Blocks.{
  run_alloc_block, run_free_block, run_block_map, map_bits, run_alloc_inode, run_free_inode,
  run_write, first_write,
}

-- The current directory is NULL or an entry of the tree.
abbrev pub stands_in : Session → Bool
stands_in s = stands s.fs.root_dir s.directory

-- What a command leaves.
abbrev pub Stands : List Reply × Session → Type 0
Stands r = stands_in r.1 ≡ true

allocate_inode_from_root :
    (n : ℕ) (fs : FileSystem) (i : ℕ) {r : ℕ × FileSystem}
    → allocate_inode_from n fs i ≡ ok r
    → r.1.root_dir ≡ fs.root_dir
unfolding allocate_inode_from inode_at put_inode
allocate_inode_from_root zero fs i e = grind arith
allocate_inode_from_root (suc n) fs i e =
    let later : (r : ℕ × FileSystem)
        → allocate_inode_from n fs (i + 1) ≡ ok r
        → r.1.root_dir ≡ fs.root_dir =
      λ r e'. allocate_inode_from_root n fs (i + 1) e' in
    grind (arith, later)

pub run_alloc_block-Stands : (s : Session) → stands_in s ≡ true → Always Stands (run_alloc_block s)
unfolding run_alloc_block
run_alloc_block-Stands s h r e = grind arith

pub run_free_block-Stands :
    (s : Session) (arguments : List (Option (List ℕ)))
    → stands_in s ≡ true
    → Always Stands (run_free_block s arguments)
unfolding run_free_block
run_free_block-Stands s arguments h r e = grind arith

pub run_block_map-Stands : (s : Session) → stands_in s ≡ true → Always Stands (run_block_map s)
unfolding run_block_map
run_block_map-Stands s h r e = grind arith

pub run_alloc_inode-Stands : (s : Session) → stands_in s ≡ true → Always Stands (run_alloc_inode s)
unfolding run_alloc_inode allocate_inode
run_alloc_inode-Stands s h r e =
    let same : (q : ℕ × FileSystem) → allocate_inode s.fs ≡ ok q → q.1.root_dir ≡ s.fs.root_dir =
      λ q e'. allocate_inode_from_root s.fs.master_block.inode_count s.fs 0 e' in
    grind (arith, same)

pub run_free_inode-Stands :
    (s : Session) (arguments : List (Option (List ℕ)))
    → stands_in s ≡ true
    → Always Stands (run_free_inode s arguments)
unfolding run_free_inode free_inode put_inode
run_free_inode-Stands s arguments h r e = grind arith

pub run_write-Stands :
    (s : Session) (arguments : List (Option (List ℕ)))
    → stands_in s ≡ true
    → Always Stands (run_write s arguments)
unfolding run_write
run_write-Stands s arguments h r e =
    let same : (k : ℕ) (q : ℕ × FileSystem)
        → inode_write s.fs k 0 (length first_write) first_write ≡ ok q
        → q.1.root_dir ≡ s.fs.root_dir =
      λ k q e'. (inode_write-Bounded s.fs k 0 (length first_write) first_write e').keeps.root in
    grind (arith, same)

make_directory-stands :
    (host : Host) (s : Session) (p : Place) (dir : DirectoryEntry) (name : List ℕ) {s' : Session}
    → s.directory ≡ some p
    → is_null (visit s.fs.root_dir p) ≡ false
    → make_directory host s p dir name ≡ ok s'
    → stands_in s' ≡ true
unfolding make_directory put_inode
make_directory-stands host s p dir name {s'} at there e =
    let put : (d : DirectoryEntry) → visit (put_at s.fs.root_dir p d) p ≡ d =
      λ d. visit-put_at s.fs.root_dir d p there in
    let made : (d : DirectoryEntry) (i : ℕ) → add_child dir name i ≡ ok d → is_null d ≡ false =
      λ d i e'. add_child-entry dir name i e' in
    grind (arith, put, made)

-- The facts about the children of the current directory, for the tactics.
children_here_facts :
    (s : Session) (q : Place × DirectoryEntry × Session)
    → stands_in s ≡ true
    → children_at s s.directory ≡ ok q
    → (q.2.directory ≡ some q.0)
      × (visit q.2.fs.root_dir q.0 ≡ q.1)
      × (is_null (visit q.2.fs.root_dir q.0) ≡ false)
children_here_facts s q h e =
    let found : Standing s q.0 q.1 q.2 = children_at-Standing s s.directory refl h e in
    (found.kept, found.there, ap is_null found.there ∙ found.found)

pub run_mkdir-Stands :
    (host : Host) (s : Session) (n : ℕ) (arguments : List (Option (List ℕ)))
    → stands_in s ≡ true
    → Always Stands (run_mkdir host s n arguments)
unfolding run_mkdir
run_mkdir-Stands host s n arguments h =
    if-Always Stands (n == 2) _ _
      (>>=-Always Stands (children_here s) _ (λ q e.
        >>=-Always Stands (word arguments 1) _ (λ name e'.
          >>=-Always Stands (make_directory host q.2 q.0 q.1 name) _ (λ s2 e2.
            ok-Always Stands ([], s2)
              (make_directory-stands host q.2 q.0 q.1 name (children_here_facts s q h e).0
                (children_here_facts s q h e).2 e2)))))
      (ok-Always Stands (usage ∷ [], s) h)

-- The current directory still stands after a read of its children.
read_stands :
    (s : Session) (q : Place × DirectoryEntry × Session)
    → stands_in s ≡ true
    → children_at s s.directory ≡ ok q
    → stands_in q.2 ≡ true
read_stands s q h e =
    let (kept, there, found) = children_here_facts s q h e in
    ap (stands q.2.fs.root_dir) kept ∙ ap not found

pub run_ls-Stands : (s : Session) → stands_in s ≡ true → Always Stands (run_ls s)
unfolding run_ls
run_ls-Stands s h = >>=-Always Stands (children_here s) _ (λ q e.
    ok-Always Stands (names (sibling_names (children_of q.1)) ∷ [], q.2) (read_stands s q h e))

found-Stands :
    (s : Session) (said : List Reply) (found : Option Place)
    → stands_in s ≡ true
    → stands s.fs.root_dir found ≡ true
    → Always Stands (
        ok (elim found [
          | none ↦ (said ++ (no_such_directory ∷ []), s)
          | some q ↦ (said, record s { directory = some q })
        ]))
found-Stands s said none h f r e = ok-Always Stands (said ++ (no_such_directory ∷ []), s) h r e
found-Stands s said (some q) h f r e =
    ok-Always Stands (said, record s { directory = some q }) f r e

here_found :
    (s : Session) (q : Place × DirectoryEntry × Session) (target : List ℕ)
    {f : List Reply × Option Place}
    → stands_in s ≡ true
    → children_here s ≡ ok q
    → cd_search q.2.fs target (q.0 ++ (down ∷ [])) (children_of q.1) ≡ ok f
    → stands q.2.fs.root_dir f.1 ≡ true
here_found s q target h e found =
    let (kept, there, some_entry) = children_here_facts s q h e in
    cd_search-stands q.2.fs target q.2.fs.root_dir (q.0 ++ (down ∷ [])) (children_of q.1)
      (visit-down q.2.fs.root_dir q.0 ∙ ap children_of there) found

pub run_cd-Stands :
    (s : Session) (n : ℕ) (arguments : List (Option (List ℕ)))
    → stands_in s ≡ true
    → Always Stands (run_cd s n arguments)
unfolding run_cd
run_cd-Stands s n arguments h =
    if-Always Stands (n == 2) _ _
      (>>=-Always Stands (word arguments 1) _ (λ target e.
        >>=-Always Stands (children_here s) _ (λ q e'.
          >>=-Always Stands (cd_search q.2.fs target (q.0 ++ (down ∷ [])) (children_of q.1)) _
            (λ f e2.
              found-Stands q.2 f.0 f.1 (read_stands s q h e') (here_found s q target h e' e2)))))
      (ok-Always Stands (usage ∷ [], s) h)

cd_up-Stands :
    (host : Host) (s : Session) (p : Place) (dir : DirectoryEntry)
    → stands_in s ≡ true
    → is_null (visit s.fs.root_dir p) ≡ false
    → Always Stands (cd_up host s p dir)
unfolding cd_up
cd_up-Stands host s p dir h there =
    if-Always Stands (is_root p) _ _ (ok-Always Stands (in_root ∷ [], s) h) (
      >>=-Always Stands (dir_parent_search host s.fs p dir) _ (λ q e.
        ok-Always Stands ([], record s { directory = q })
          (dir_parent_search-stands host s.fs p dir there e)))

pub run_cd_up-Stands :
    (host : Host) (s : Session) (n : ℕ) (arguments : List (Option (List ℕ)))
    → stands_in s ≡ true
    → Always Stands (run_cd_up host s n arguments)
unfolding run_cd_up
run_cd_up-Stands host s n arguments h =
    if-Always Stands (n == 2) _ _
      (>>=-Always Stands (word arguments 1) _ (λ target e.
        >>=-Always Stands (children_here s) _ (λ q e'.
          if-Always Stands (same_text dot_dot target) _ _
            (cd_up-Stands host q.2 q.0 q.1 (read_stands s q h e') (children_here_facts s q h e').2)
            (>>=-Always Stands (cd_search q.2.fs target (q.0 ++ (down ∷ [])) (children_of q.1)) _
              (λ f e2.
                found-Stands q.2 f.0 f.1 (read_stands s q h e') (here_found s q target h e' e2))))))
      (ok-Always Stands (usage ∷ [], s) h)
