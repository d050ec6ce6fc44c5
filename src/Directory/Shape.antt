-- ===== src/Directory/Shape.antt =====
-- directory_cache.c: an entry that is flushed or read stays an entry.
use cs.Prelude.{ℕ, ◌≡◌, refl, Bool, true, false, List, arith}
use cs.Prelude.Run.{ok}
use cs.FileSystem.{FileSystem, DirectoryEntry, null, entry}
use cs.Directory.{
  add_child, append_sibling, write_directory, is_null, flush_at, flush_directory_cache,
  get_children,
}

write_directory-entry :
    (fs : FileSystem) (dir : DirectoryEntry) {r : DirectoryEntry × FileSystem}
    → write_directory fs dir ≡ ok r
    → is_null r.0 ≡ false
unfolding write_directory
write_directory-entry fs null e = absurd (cc)
write_directory-entry fs (entry i name d null next) e = ground arith
write_directory-entry fs (entry i name d (entry j kid m k s) next) e = ground arith

flush_at-entry :
    (clean : Bool) (i : ℕ) (name : List ℕ) (mark : Bool) (kids next : DirectoryEntry)
    (fs : FileSystem) {r : DirectoryEntry × FileSystem}
    → flush_at clean (entry i name mark kids next) fs ≡ ok r
    → is_null r.0 ≡ false
unfolding flush_at
flush_at-entry clean i name mark kids next fs e = grind (arith, write_directory-entry)

flush_directory_cache-entry :
    (fs : FileSystem) (dir : DirectoryEntry) {r : DirectoryEntry × FileSystem}
    → flush_directory_cache fs dir ≡ ok r
    → is_null r.0 ≡ false
unfolding flush_directory_cache
flush_directory_cache-entry fs null e = absurd (cc)
flush_directory_cache-entry fs (entry i name d kids next) e =
    flush_at-entry false i name d kids next fs e

pub get_children-entry :
    (fs : FileSystem) (dir : DirectoryEntry) {r : DirectoryEntry × FileSystem}
    → get_children fs dir ≡ ok r
    → is_null r.0 ≡ false
unfolding get_children
get_children-entry fs null e = absurd (cc)
get_children-entry fs (entry i name d kids next) e = grind (arith, flush_directory_cache-entry)

pub add_child-entry :
    (dir : DirectoryEntry) (name : List ℕ) (i : ℕ) {dir' : DirectoryEntry}
    → add_child dir name i ≡ ok dir'
    → is_null dir' ≡ false
unfolding add_child
add_child-entry null name i e = absurd (cc)
add_child-entry (entry j own d kids next) name i {dir'} e =
    let same : dir' ≡ entry j own d (append_sibling kids (entry i name true null null)) next = cc in
    rw same refl
