-- ===== src/Shell/Directories/Standing.antt =====
-- my_shell.c and new_shell.c: the current directory is an entry of the tree.
use cs.Prelude.{
  ℕ, ◌≡◌, refl, subst, Bool, true, false, not, ◌&&◌, Option, none, some, List, [], ◌∷◌, ◌++◌, arith,
  if◌then◌else◌, ℤ,
}
use cs.Prelude.Run.{Run, ok, fault, ◌>>=◌}
use cs.INode.{INode}
use cs.FileSystem.{FileSystem, DirectoryEntry, null, entry, inode_at}
use cs.Directory.{is_null, children_of, get_children}
use cs.Directory.Place.{
  Place, down, over, visit, visit_first, visit_behind, visit-down, visit_root, visit-put_at,
}
use cs.Directory.Shape.{get_children-entry}
use cs.BlockCache.{same_block}
use cs.Shell.{Host, Session, Reply}
use cs.Shell.Directories.{
  children_at, after_read, cd_search, search_children, dir_parent_search, with_entry,
}

-- A current directory is NULL or an entry of the tree.
abbrev pub stands : DirectoryEntry → Option Place → Bool
stands root none = true
stands root (some p) = not (is_null (visit root p))

-- What a call for the children of the current directory has done.
pub record Standing (s : Session) (p : Place) (dir : DirectoryEntry) (s1 : Session) : Type 0 where
  pub from : s.directory ≡ some p
  pub kept : s1.directory ≡ some p
  pub there : visit s1.fs.root_dir p ≡ dir
  pub found : is_null dir ≡ false

read_at :
    (s : Session) (q : Place) (m : Run (DirectoryEntry × FileSystem)) {p : Place}
    {dir : DirectoryEntry} {s1 : Session}
    → s.directory ≡ some q
    → is_null (visit s.fs.root_dir q) ≡ false
    → ((r : DirectoryEntry × FileSystem) → m ≡ ok r → is_null r.0 ≡ false)
    → (m >>= after_read s q) ≡ ok (p, dir, s1)
    → Standing s p dir s1
read_at s q fault at there f e = absurd (cc)
read_at s q (ok (d, fs)) {p} {dir} {s1} at there f e =
    subst (λ (t : Place × DirectoryEntry × Session). Standing s t.0 t.1 t.2) (same e)
      (record {
        from = at;
        kept = at;
        there = visit-put_at s.fs.root_dir d q there;
        found = f (d, fs) refl;
      })
  where
    same :
        {r : Place × DirectoryEntry × Session}
        → after_read s q (d, fs) ≡ ok r
        → (q, d, with_entry s fs q d) ≡ r
    same e = cc

pub children_at-Standing :
    (s : Session) (at : Option Place) {p : Place} {dir : DirectoryEntry} {s1 : Session}
    → s.directory ≡ at
    → stands s.fs.root_dir at ≡ true
    → children_at s at ≡ ok (p, dir, s1)
    → Standing s p dir s1
children_at-Standing s none i st e = absurd (cc)
children_at-Standing s (some q) i st e =
    read_at s q (get_children s.fs (visit s.fs.root_dir q)) i (grind arith)
      (λ r g. get_children-entry s.fs (visit s.fs.root_dir q) g) e

pub cd_search-stands :
    (fs : FileSystem) (target : List ℕ) (root : DirectoryEntry) (here : Place)
    (kids : DirectoryEntry) {said : List Reply} {found : Option Place}
    → visit root here ≡ kids
    → cd_search fs target here kids ≡ ok (said, found)
    → stands root found ≡ true
unfolding cd_search inode_at
cd_search-stands fs target root here null {said} {found} v e = grind arith
cd_search-stands fs target root here (entry i name d kids next) {said} {found} v e =
    let behind : visit root (here ++ (over ∷ [])) ≡ next = visit_behind root here v in
    let self : is_null (visit root here) ≡ false = rw v refl in
    let later : (said' : List Reply) (q : Option Place)
        → cd_search fs target (here ++ (over ∷ [])) next ≡ ok (said', q)
        → stands root q ≡ true =
      λ said' q e'. cd_search-stands fs target root (here ++ (over ∷ [])) next behind e' in
    grind (arith, later)

-- What the loop of `dirParentSearch` does with the result of its call for the entries below.
search_on :
    (root : DirectoryEntry) (first behind : Run (Option Place)) (here prev : Place) (m : Run INode)
    (test : INode → Bool) {found : Option Place}
    → ((q : Option Place) → first ≡ ok q → stands root q ≡ true)
    → ((q : Option Place) → behind ≡ ok q → stands root q ≡ true)
    → stands root (some prev) ≡ true
    → (first >>= λ check. elim check [
      | some q ↦ ok (some q)
      | none ↦ m >>= λ x. if test x then ok (some prev) else behind
    ])
      ≡ ok found
    → stands root found ≡ true
search_on root fault behind here prev m test f g h e = absurd (cc)
search_on root (ok (some q)) behind here prev m test f g h e = grind (arith, f)
search_on root (ok none) behind here prev fault test f g h e = absurd (cc)
search_on root (ok none) behind here prev (ok x) test f g h e = grind (arith, g)

pub search_children-stands :
    (host : Host) (fs : FileSystem) (seek : Place) (z : ℤ) (root : DirectoryEntry)
    (prev here : Place) (node : DirectoryEntry) {found : Option Place}
    → is_null (visit root prev) ≡ false
    → visit root here ≡ node
    → search_children host fs seek z prev here node ≡ ok found
    → stands root found ≡ true
unfolding search_children
search_children-stands host fs seek z root prev here null h v e = grind arith
search_children-stands host fs seek z root prev here (entry i name d kids next) h v e =
    let behind : visit root (here ++ (over ∷ [])) ≡ next = visit_behind root here v in
    let below : visit root (here ++ (down ∷ [])) ≡ kids = visit_first root here v in
    let self : is_null (visit root here) ≡ false = rw v refl in
    let inside : (q : Option Place)
        → search_children host fs seek z here (here ++ (down ∷ [])) kids ≡ ok q
        → stands root q ≡ true =
      λ q e'.
        search_children-stands host fs seek z root here (here ++ (down ∷ [])) kids self below e' in
    search_on root
      (if is_null kids
        then ok none
        else search_children host fs seek z here (here ++ (down ∷ [])) kids)
      (search_children host fs seek z prev (here ++ (over ∷ [])) next) here prev (inode_at fs i)
      (λ x. same_block x.inode_num z && host.same_name fs.root_dir here seek)
      (λ q e'. grind (arith, inside))
      (λ q e'.
        search_children-stands host fs seek z root prev (here ++ (over ∷ [])) next h behind e')
      (rw h refl) e

pub dir_parent_search-stands :
    (host : Host) (fs : FileSystem) (seek : Place) (dir : DirectoryEntry) {found : Option Place}
    → is_null (visit fs.root_dir seek) ≡ false
    → dir_parent_search host fs seek dir ≡ ok found
    → stands fs.root_dir found ≡ true
unfolding dir_parent_search
dir_parent_search-stands host fs seek null h e = absurd (cc)
dir_parent_search-stands host fs seek (entry i name d kids next) h e = from_root (inode_at fs i) e
  where
    from_root :
        (m : Run INode) {found : Option Place}
        → (m >>= λ x.
            search_children host fs seek x.inode_num [] (down ∷ []) (children_of fs.root_dir))
          ≡ ok found
        → stands fs.root_dir found ≡ true
    from_root fault e = absurd (cc)
    from_root (ok x) e =
        search_children-stands host fs seek x.inode_num fs.root_dir [] (down ∷ [])
          (children_of fs.root_dir) (visit_root fs.root_dir seek h) (visit-down fs.root_dir []) e
