-- ===== src/Examples/Commands.antt =====
-- Examples of the lines and the commands of the shells.
use cs.Prelude.{Option, ℕ, ◌≡◌, refl, true, false, some, List, [], ◌∷◌}
use cs.Prelude.Run.{ok}
use cs.INode.{INode, fresh_inode, directory_type}
use cs.FileSystem.{FileSystem, DirectoryEntry, null, entry, inode_at}
use cs.Directory.Place.{Place, down}
use cs.Directory.Apart.{same_place}
use cs.Text.{break_words, fill_words, tokens, tokens_from, is_delim}
use cs.Shell.{Reply, Host, Session, equals, starts_with, word}
use cs.Shell.Mine.{max_args, blanks_between}
use cs.Shell.Invariant.Reach.{my_shell, loop}
use cs.Shell.Lines.{ended, loop-quit}
use cs.Shell.Directories.Search.{Searched, no_entry, one_entry, cd_search-Searched}
use cs.Shell.Directories.{cd_search}
use cs.Examples.{volume, empty_file}
use cs.Examples.Shells.{roomy, idle, q}

abbrev quota : List ℕ
quota = b'q' ∷ b'u' ∷ b'o' ∷ b't' ∷ b'a' ∷ []

quota-word : word (break_words quota max_args blanks_between).1 0 ≡ ok quota
unfolding word break_words fill_words tokens tokens_from is_delim
quota-word = refl

quota_quits : equals q quota false ≡ true
unfolding equals starts_with
quota_quits = refl

loop-quit_example : loop my_shell roomy idle (quota ∷ q ∷ []) ≡ ended idle
loop-quit_example = loop-quit my_shell roomy idle quota (q ∷ []) quota refl quota-word quota_quits

-- A volume whose root has the directory "a".
abbrev a : List ℕ
a = b'a' ∷ []

abbrev child : DirectoryEntry
child = entry 1 a true null null

abbrev folder : INode
folder = record (fresh_inode 1) { type = directory_type }

abbrev tree : FileSystem
tree = record volume {
  inode_map = empty_file ∷ folder ∷ [];
  root_dir = entry 0 (34 ∷ 34 ∷ []) true child null;
}

abbrev at : Place → Session
at p = record { device_name = b'd' ∷ []; fs = tree; directory = some p }

second : inode_at tree 1 ≡ ok folder
unfolding inode_at
second = refl

abbrev index : DirectoryEntry → ℕ
index null = 0
index (entry i name d kids next) = i

abbrev tight : Host
tight = record { malloc_bytes = λ n. n; same_name = λ t. same_place }

cd_search-Searched_example :
    (said : List Reply) × (found : Option Place) × (cd_search tree a (down ∷ []) child
      ≡ ok (said, found))
    × Searched tree a (down ∷ []) child found
cd_search-Searched_example =
    cd_search-Searched tree a (down ∷ []) child
      (one_entry 1 a true null null folder second no_entry)
