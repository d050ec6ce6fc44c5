-- ===== src/Shell/Directories.antt =====
-- my_shell.c and new_shell.c: the commands mkdir, ls and cd.
pub mod Standing
pub mod Parent
pub mod Return
pub mod Making
pub mod Search
use cs.Prelude.{
  ℕ, ◌+◌, ◌<◌, Bool, true, false, ◌&&◌, Option, none, some, List, [], ◌∷◌, ◌++◌, ◌==◌, ltb,
  if◌then◌else◌, length, ℤ,
}
use cs.Prelude.Run.{Run, ok, fault, assert, ◌>>=◌, ◌>>◌}
use cs.INode.{INode, directory_type, is_directory}
use cs.FileSystem.{
  FileSystem, DirectoryEntry, null, entry, inode_at, put_inode, get_inode, allocate_inode,
}
use cs.Directory.{add_child, children_of, get_children, is_null}
use cs.Directory.Place.{Place, Turn, down, over, visit, put_at}
use cs.BlockCache.{same_block}
use cs.Shell.{
  Host, Session, Reply, usage, not_a_directory, no_such_directory, in_root, names, same_text, word,
}

-- The session with the entry at a place of the tree overwritten.
abbrev pub with_entry : Session → FileSystem → Place → DirectoryEntry → Session
with_entry s fs p dir = record s { fs = record fs { root_dir = put_at s.fs.root_dir p dir } }

abbrev pub after_read :
    Session → Place → DirectoryEntry × FileSystem → Run (Place × DirectoryEntry × Session)
after_read s p (dir, fs) = ok (p, dir, with_entry s fs p dir)

-- `getChildren` of an entry of the tree: its place, the entry, and the session after it.
abbrev pub children_at : Session → Option Place → Run (Place × DirectoryEntry × Session)
children_at s none = fault
children_at s (some p) = get_children s.fs (visit s.fs.root_dir p) >>= after_read s p

-- `getChildren(main_current_dir, main_filesystem)`
abbrev pub children_here : Session → Run (Place × DirectoryEntry × Session)
children_here s = children_at s s.directory

-- The new directory of mkdir, after the children of the current one were read.
unfoldable pub make_directory : Host → Session → Place → DirectoryEntry → List ℕ → Run Session
make_directory host s p dir name = do
  (new_inode_num, fs) ← allocate_inode s.fs
  new_inode ← get_inode fs new_inode_num
  x ← inode_at fs new_inode
  assert (ltb (length name) (host.malloc_bytes (length name)))
  dir' ← add_child dir name new_inode
  ok (with_entry s (put_inode fs new_inode (record x { type = directory_type })) p dir')

-- The command mkdir.
unfoldable pub run_mkdir : Host → Session → ℕ → List (Option (List ℕ)) → Run (List Reply × Session)
unfolding word make_directory
run_mkdir host s num_words arguments =
    if num_words == 2
    then (do
      (p, dir, s1) ← children_here s
      name ← word arguments 1
      s2 ← make_directory host s1 p dir name
      ok ([], s2))
    else ok (usage ∷ [], s)

-- The names of an entry and of its siblings behind it.
abbrev pub sibling_names : DirectoryEntry → List (List ℕ)
sibling_names null = []
sibling_names (entry i name d kids next) = name ∷ sibling_names next

-- The command ls.
unfoldable pub run_ls : Session → Run (List Reply × Session)
run_ls s = children_here s >>= λ r. ok (names (sibling_names (children_of r.1)) ∷ [], r.2)

-- The loop of cd over the children, the first of which stands at `here`: where the target is, if it is
-- found, and what is printed on the way.
unfoldable pub cd_search :
    FileSystem → List ℕ → Place → DirectoryEntry → Run (List Reply × Option Place)
unfolding same_text inode_at
cd_search fs target here null = ok ([], none)
cd_search fs target here (entry i name d kids next) =
    let rest = cd_search fs target (here ++ (over ∷ [])) next in
    if same_text name target
    then (inode_at fs i >>= λ x.
        if is_directory x.type
        then ok ([], some here)
        else (rest >>= λ r. ok (not_a_directory ∷ r.0, r.1)))
    else rest

-- The command cd of new_shell.c.
unfoldable pub run_cd : Session → ℕ → List (Option (List ℕ)) → Run (List Reply × Session)
unfolding word cd_search
run_cd s num_words arguments =
    if num_words == 2
    then (do
      target_dir ← word arguments 1
      (p, dir, s1) ← children_here s
      (said, found) ← cd_search s1.fs target_dir (p ++ (down ∷ [])) (children_of dir)
      ok (elim found [
        | none ↦ (said ++ (no_such_directory ∷ []), s1)
        | some q ↦ (said, record s1 { directory = some q })
      ]))
    else ok (usage ∷ [], s)

-- The loop of `dirParentSearch` over the children of the entry at `prev`, the first of which stands
-- at `here`, for the entry at `seekdir`, whose inode has the number `seek_num`; `none` is NULL.
unfoldable pub search_children :
    Host → FileSystem → Place → ℤ → Place → Place → DirectoryEntry → Run (Option Place)
unfolding inode_at
search_children host fs seekdir seek_num prev here null = ok none
search_children host fs seekdir seek_num prev here (entry i name d kids next) =
    let below = search_children host fs seekdir seek_num here (here ++ (down ∷ [])) kids in
    let behind = search_children host fs seekdir seek_num prev (here ++ (over ∷ [])) next in
    (if is_null kids then ok none else below) >>= λ check. elim check [
      | some q ↦ ok (some q)
      | none ↦ inode_at fs i >>= λ x.
          if same_block x.inode_num seek_num && host.same_name fs.root_dir here seekdir
          then ok (some prev)
          else behind
    ]

-- `dirParentSearch` from the root, for the entry at a place, whose inode is read once, before the loop.
unfoldable pub dir_parent_search : Host → FileSystem → Place → DirectoryEntry → Run (Option Place)
unfolding search_children
dir_parent_search host fs seekdir null = fault
dir_parent_search host fs seekdir (entry i name d kids next) = inode_at fs i >>= λ x.
    search_children host fs seekdir x.inode_num [] (down ∷ []) (children_of fs.root_dir)

abbrev pub dot_dot : List ℕ
dot_dot = b'.' ∷ b'.' ∷ []

-- Whether a place is the root's.
abbrev pub is_root : Place → Bool
is_root [] = true
is_root (t ∷ p) = false

-- The branch of cd in my_shell.c for "..".
unfoldable pub cd_up : Host → Session → Place → DirectoryEntry → Run (List Reply × Session)
unfolding dir_parent_search
cd_up host s p dir =
    if is_root p
    then ok (in_root ∷ [], s)
    else (dir_parent_search host s.fs p dir >>= λ q. ok ([], record s { directory = q }))

-- The command cd of my_shell.c.
unfoldable pub run_cd_up : Host → Session → ℕ → List (Option (List ℕ)) → Run (List Reply × Session)
unfolding word cd_search cd_up
run_cd_up host s num_words arguments =
    if num_words == 2
    then (do
      target_dir ← word arguments 1
      (p, dir, s1) ← children_here s
      if same_text dot_dot target_dir
          then cd_up host s1 p dir
          else (cd_search s1.fs target_dir (p ++ (down ∷ [])) (children_of dir) >>= λ r.
              ok (elim r.1 [
                | none ↦ (r.0 ++ (no_such_directory ∷ []), s1)
                | some q ↦ (r.0, record s1 { directory = some q })
              ])))
    else ok (usage ∷ [], s)
