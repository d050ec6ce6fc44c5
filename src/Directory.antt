-- ===== src/Directory.antt =====
-- directory_cache.c: the directory tree in memory, and its text on the device.
pub mod Lines
pub mod RoundTrip
pub mod Place
pub mod Apart
pub mod Shape
pub mod Flush
use cs.Prelude.{
  ℕ, zero, suc, ◌-◌, ◌*◌, ◌/◌, Bool, true, false, not, ◌&&◌, ◌||◌, Option, none, some, List, [],
  ◌∷◌, ◌++◌, ltb, if◌then◌else◌, length, pos, negsuc,
}
use cs.Prelude.Bytes.{zeros}
use cs.Prelude.Run.{Run, ok, fault, assert, ◌>>=◌, ◌>>◌}
use cs.INode.{is_directory}
use cs.FileSystem.{FileSystem, DirectoryEntry, null, entry, inode_at}
use cs.FileSystem.Access.{inode_read, inode_write}
use cs.Text.{c_string, count_occurrences, break_words, atoi, decimal}

-- The walk of `addChild` along the siblings, and the new entry behind the last.
unfoldable pub append_sibling : DirectoryEntry → DirectoryEntry → DirectoryEntry
append_sibling null newkid = newkid
append_sibling (entry i name dirty kids next) newkid =
    entry i name dirty kids (append_sibling next newkid)

-- `addChild`
unfoldable pub add_child : DirectoryEntry → List ℕ → ℕ → Run DirectoryEntry
unfolding append_sibling
add_child null name inode = fault
add_child (entry i own dirty kids next) name inode =
    ok (entry i own dirty (append_sibling kids (entry inode name true null null)) next)

-- `addRoot`
unfoldable pub add_root : FileSystem → ℕ → FileSystem
add_root fs inode = record fs { root_dir = entry inode (b'"' ∷ b'"' ∷ []) true null null }

-- The loop of `writeDirectory` over the children: what `writestring` holds at its end, when it holds
-- `text` before. A line or a text that does not fit its block of memory, with its final zero byte,
-- overruns it.
unfoldable pub render : FileSystem → DirectoryEntry → List ℕ → Run (List ℕ)
unfolding inode_at decimal
render fs null text = ok text
render fs (entry i name dirty kids next) text = inode_at fs i >>= λ x.
    let strboy = name ++ (b'|' ∷ (decimal x.inode_num ++ (10 ∷ []))) in
    if ltb (length strboy) fs.master_block.bytes_per_block
      && ltb (length (text ++ strboy)) fs.master_block.bytes_per_block
    then render fs next (text ++ strboy)
    else fault

-- The marks that the same loop clears.
unfoldable pub clean_all : DirectoryEntry → DirectoryEntry
clean_all null = null
clean_all (entry i name dirty kids next) = entry i name false kids (clean_all next)

-- The zero bytes behind a text in a block of `n` bytes.
abbrev pub in_block : ℕ → List ℕ → List ℕ
in_block n text = text ++ zeros (n - length text)

-- `writeDirectory`: the entry and the file system after it.
unfoldable pub write_directory : FileSystem → DirectoryEntry → Run (DirectoryEntry × FileSystem)
write_directory fs null = fault
write_directory fs (entry i name dirty null next) = ok (entry i name false null next, fs)
write_directory fs (entry i name dirty (entry j kid d k s) next) =
    let kids = entry j kid d k s in
    let n = fs.master_block.bytes_per_block in
    render fs kids [] >>= λ text. inode_write fs i 0 n (in_block n text) >>= λ r.
    ok (entry i name false (clean_all kids) next, r.1)

-- Whether one of the siblings is dirty.
unfoldable pub any_dirty : DirectoryEntry → Bool
any_dirty null = false
any_dirty (entry i name dirty kids next) = dirty || any_dirty next

abbrev pub is_null : DirectoryEntry → Bool
is_null null = true
is_null (entry i name dirty kids next) = false

-- `flushDirectoryCache`. Where it calls itself on the children none of them is dirty: either it has
-- just written the directory, which clears their marks, or it has looked. So that call is made on
-- the children with their marks taken as clear, which is what the flag `clean` says.
unfoldable pub flush_at : Bool → DirectoryEntry → FileSystem → Run (DirectoryEntry × FileSystem)
flush_at clean null fs = ok (null, fs)
flush_at clean (entry i name mark kids next) fs =
    let dirty = mark && not clean in
    flush_at clean next fs >>= λ r.
    (if dirty
      then write_directory r.1 (entry i name dirty kids r.0)
      else ok (entry i name dirty kids r.0, r.1))
    >>= λ w.
        if any_dirty kids && (not dirty)
        then write_directory w.1 (entry i name dirty kids r.0)
        else (flush_at true kids w.1 >>= λ k. ok (entry i name false k.0 r.0, k.1))

unfoldable pub flush_directory_cache :
    FileSystem → DirectoryEntry → Run (DirectoryEntry × FileSystem)
flush_directory_cache fs null = fault
flush_directory_cache fs (entry i name dirty kids next) =
    flush_at false (entry i name dirty kids next) fs

-- The loop of `getChildren` over the words: each name and number makes a child. A missing number is
-- a NULL that `atoi` reads, the words end at a NULL in the place of a name, and running off the array
-- is a fault. A negative number makes a pointer outside the map.
unfoldable pub add_words : DirectoryEntry → List (Option (List ℕ)) → Run DirectoryEntry
unfolding add_child atoi
add_words dir [] = fault
add_words dir (none ∷ words) = ok dir
add_words dir (some name ∷ []) = fault
add_words dir (some name ∷ none ∷ words) = fault
add_words dir (some name ∷ some number ∷ words) = elim (atoi number) [
  | negsuc n ↦ fault
  | pos n ↦ add_child dir name n >>= λ dir'. add_words dir' words
]

-- The NULLs that `calloc` leaves in the slots behind the words.
abbrev pub null_words : ℕ → List (Option (List ℕ))
null_words zero = []
null_words (suc n) = none ∷ null_words n

-- `sizeof(char *)`
abbrev pub pointer_bytes : ℕ
pointer_bytes = 8

abbrev pub delimiters : List ℕ
delimiters = 10 ∷ b' ' ∷ b'|' ∷ []

-- The children that `getChildren` makes of the text of a directory, with blocks of `n` bytes.
unfoldable pub add_children : ℕ → DirectoryEntry → List ℕ → Run DirectoryEntry
unfolding add_words
add_children n dir readstring =
    let items = count_occurrences readstring b'|' * 2 in
    if ltb (n / pointer_bytes) items
    then fault
    else add_words dir
        ((break_words readstring items delimiters).1 ++ null_words (n / pointer_bytes - items))

-- `getChildren`, the part that reads a directory that is not cached.
unfoldable pub read_directory : FileSystem → ℕ → DirectoryEntry → Run DirectoryEntry
unfolding add_children
read_directory fs inode dir =
    let n = fs.master_block.bytes_per_block in
    inode_read fs inode 0 n >>= λ r. elim (c_string (in_block n r.1)) [
      | none ↦ fault
      | some readstring ↦ add_children n dir readstring
    ]

abbrev pub children_of : DirectoryEntry → DirectoryEntry
children_of null = null
children_of (entry i name dirty kids next) = kids

-- `getChildren`: the directory with its children, and the file system after the flush.
unfoldable pub get_children : FileSystem → DirectoryEntry → Run (DirectoryEntry × FileSystem)
get_children fs null = fault
get_children fs (entry i name dirty kids next) = inode_at fs i >>= λ x.
    assert (is_directory x.type)
    >> ((if is_null kids
          then read_directory fs i (entry i name dirty kids next)
          else ok (entry i name dirty kids next))
        >>= λ dir.
            (if is_null (children_of dir) then add_child dir (b'.' ∷ []) i else ok dir) >>= λ dir'.
            flush_directory_cache fs dir')
