-- ===== src/Shell/Directories/Making.antt =====
-- my_shell.c and new_shell.c: the new directory of mkdir.
use cs.Prelude.{ℕ, ◌<◌, ◌≡◌, ◌≢◌, ◌⊎◌, List, [], ◌∷◌, ◌++◌}
use cs.Prelude.Run.{ok}
use cs.INode.{INode, directory_type}
use cs.FileSystem.{FileSystem, DirectoryEntry, null, entry, inode_at}
use cs.FileSystem.Inodes.{IsFreeAt, IsTakenAt}
use cs.Directory.{children_of}
use cs.Directory.Place.{Place, visit}
use cs.Shell.{Session}

-- The children from an entry on: the inode and the name of each, and what is cached below it.
abbrev pub links : DirectoryEntry → List (ℕ × List ℕ × DirectoryEntry)
links null = []
links (entry i own d below next) = (i, own, below) ∷ links next

-- Where the inode of mkdir comes from: it was free, or every inode was taken, and it is the first.
abbrev pub Source : Session → ℕ → Type 0
Source s n =
    IsFreeAt s.fs n ⊎ ((n ≡ 0) × ((j : ℕ) → j < s.fs.master_block.inode_count → IsTakenAt s.fs j))

-- What mkdir leaves: behind the children that were there one of the name, which stands for inode `n`
-- and has nothing below it; the inode is a directory.
pub record Made (s : Session) (p : Place) (kids : DirectoryEntry) (name : List ℕ) (n : ℕ)
    (x : INode) (s' : Session) : Type 0 where
  pub listed : links (children_of (visit s'.fs.root_dir p)) ≡ links kids ++ ((n, name, null) ∷ [])
  pub inode : inode_at s'.fs n ≡ ok x
  pub typed : x.type ≡ directory_type
  pub source : Source s n
  pub others : (j : ℕ) → n ≢ j → inode_at s'.fs j ≡ inode_at s.fs j
  pub stays : s'.directory ≡ s.directory
