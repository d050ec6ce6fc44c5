-- ===== src/Examples/Directories.antt =====
-- Examples of directories and their text.
use cs.Prelude.{ℕ, zero, suc, ◌≡◌, refl, true, false, List, [], ◌∷◌, arith, length}
use cs.Prelude.Run.{ok, fault}
use cs.Text.{is_delim, decimal}
use cs.Text.Words.{Line, ArePlain, lines}
use cs.INode.{fresh_inode}
use cs.FileSystem.{FileSystem, DirectoryEntry, null, entry, inode_at}
use cs.Directory.{add_children, write_directory, read_directory, clean_all}
use cs.Directory.Lines.{children, add_children-overrun}
use cs.Directory.RoundTrip.{Lists, no_more, one_more, read_directory-write_directory}
use cs.Examples.{volume, empty_file}
use cs.Examples.Files.{volume-Ready, fifteen_free}

-- Two names, "a" and "ls", for the inodes 1 and 0.
abbrev listing : List Line
listing = (97 ∷ [], 1) ∷ (108 ∷ 115 ∷ [], 0) ∷ []

listing-ArePlain : ArePlain listing
unfolding is_delim
listing-ArePlain = (
  (omega arith, ((omega arith, refl, refl), tt)),
  ((omega arith, ((omega arith, refl, refl), ((omega arith, refl, refl), tt))), tt),
)

abbrev second : DirectoryEntry
second = entry 0 (108 ∷ 115 ∷ []) true null null

abbrev kids : DirectoryEntry
kids = entry 1 (97 ∷ []) true null second

kids-Lists : Lists volume kids listing
unfolding inode_at
kids-Lists =
    one_more 1 (97 ∷ []) true null second (fresh_inode 1) 1 ((108 ∷ 115 ∷ [], 0) ∷ []) refl refl
      (one_more 0 (108 ∷ 115 ∷ []) true null null empty_file 0 [] refl refl no_more)

short_lines : length (lines listing) ≡ 9
unfolding decimal
short_lines = refl

read_directory-write_directory_example :
    (fs' : FileSystem) × (write_directory volume (entry 0 (34 ∷ 34 ∷ []) true kids null)
      ≡ ok (entry 0 (34 ∷ 34 ∷ []) false (clean_all kids) null, fs'))
    × (read_directory fs' 0 (entry 0 (34 ∷ 34 ∷ []) false null null)
        ≡ ok (entry 0 (34 ∷ 34 ∷ []) false (children listing) null))
read_directory-write_directory_example =
    read_directory-write_directory volume 0 1 empty_file (34 ∷ 34 ∷ []) (97 ∷ []) true true null
      second null listing volume-Ready refl (omega (arith, fifteen_free)) kids-Lists
      listing-ArePlain (omega arith, (omega arith, tt)) (omega (arith, short_lines)) (omega arith)

-- Nine entries named "a", whose 36 bytes leave room in a block of 128.
abbrev copies : ℕ → List Line
copies zero = []
copies (suc n) = (97 ∷ [], 1) ∷ copies n

copies-ArePlain : (n : ℕ) → ArePlain (copies n)
unfolding is_delim
copies-ArePlain zero = tt
copies-ArePlain (suc n) = ((omega arith, ((omega arith, refl, refl), tt)), copies-ArePlain n)

add_children-overrun_example :
    add_children 128 (entry 0 (34 ∷ 34 ∷ []) true null null) (lines (copies 9)) ≡ fault
add_children-overrun_example =
    add_children-overrun 128 (entry 0 (34 ∷ 34 ∷ []) true null null) (copies 9) (copies-ArePlain 9)
      (omega arith)
