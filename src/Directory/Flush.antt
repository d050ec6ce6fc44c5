-- ===== src/Directory/Flush.antt =====
-- directory_cache.c: what flushDirectoryCache leaves of a tree.
use cs.Prelude.{ℕ, ◌≡◌, false, List}
use cs.Prelude.Run.{Run}
use cs.Prelude.Always.{Always}
use cs.FileSystem.{FileSystem, DirectoryEntry, null, entry}
use cs.FileSystem.Access.Bounds.{Keeps}
use cs.Directory.{any_dirty, clean_all}

-- A tree with no entry marked.
abbrev pub unmarked : DirectoryEntry → DirectoryEntry
unmarked null = null
unmarked (entry i name dirty kids next) = entry i name false (unmarked kids) (unmarked next)

-- What writeDirectory leaves: the marks of the entry and of its children are clear.
record Written (fs : FileSystem) (i : ℕ) (name : List ℕ) (kids next : DirectoryEntry)
    (r : DirectoryEntry × FileSystem) : Type 0 where
  left : r.0 ≡ entry i name false (clean_all kids) next
  keeps : Keeps fs r.1

-- No sibling from an entry on is marked, and no child of theirs.
abbrev pub AreSettled : DirectoryEntry → Type 0
AreSettled null = Unit
AreSettled (entry i name dirty kids next) =
    (dirty ≡ false) × (any_dirty kids ≡ false) × AreSettled next

-- What a flush leaves of a list of siblings: the tree but for the marks, no mark on them and on their
-- children, and the parts of the file system that no write has business with.
pub record Flushed (fs : FileSystem) (d : DirectoryEntry) (r : DirectoryEntry × FileSystem)
    : Type 0 where
  pub same : unmarked r.0 ≡ unmarked d
  pub settled : AreSettled r.0
  pub keeps : Keeps fs r.1
