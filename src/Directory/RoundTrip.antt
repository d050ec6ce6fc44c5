-- ===== src/Directory/RoundTrip.antt =====
-- directory_cache.c: writeDirectory, and then the reading part of getChildren.
use cs.Prelude.{
  ℕ, ◌+◌, ◌*◌, ◌/◌, ◌≤◌, ◌<◌, ◌≡◌, ap, sym, ◌∙◌, subst, true, false, Bool, List, [], ◌∷◌, ◌++◌,
  append_assoc, append-nil, arith, length, length-append, pos, ltb, ◌&&◌,
}
use native.Mathlib.Nat.{div_self, zero-div}
use cs.Prelude.Run.{ok}
use cs.INode.{INode}
use cs.Text.{decimal}
use cs.Text.Words.{Line, ArePlain, lines}
use cs.FileSystem.{FileSystem, DirectoryEntry, null, entry, inode_at}
use cs.FileSystem.Access.{inode_read, inode_write, num_blocks}
use cs.FileSystem.Access.Address.{Ready, free_blocks}
use cs.FileSystem.Access.RoundTrip.{inode_read-inode_write}
use cs.Directory.{render, clean_all, in_block, write_directory, read_directory, pointer_bytes}
use cs.Directory.Lines.{AreInts, children, length-in_block, read_directory-lines}

-- The siblings have these names and inode numbers, in this order.
pub data Lists (fs : FileSystem) : DirectoryEntry → List Line → Type 0 where
  no_more : Lists fs null []
  one_more :
      (j : ℕ) (name : List ℕ) (d : Bool) (kids next : DirectoryEntry) (x : INode) (n : ℕ)
      (es : List Line)
      → inode_at fs j ≡ ok x
      → x.inode_num ≡ pos n
      → Lists fs next es
      → Lists fs (entry j name d kids next) ((name, n) ∷ es)

-- The line of one entry, in front of the others.
abbrev strboy : List ℕ → ℕ → List ℕ
strboy name n = name ++ (124 ∷ (decimal (pos n) ++ (10 ∷ [])))

lines-strboy :
    (name : List ℕ) (n : ℕ) (es : List Line) → strboy name n ++ lines es ≡ lines ((name, n) ∷ es)
lines-strboy name n es =
    append_assoc name (124 ∷ (decimal (pos n) ++ (10 ∷ []))) (lines es)
    ∙ ap (λ t. name ++ (124 ∷ t)) (append_assoc (decimal (pos n)) (10 ∷ []) (lines es))

-- The loop of writeDirectory makes the lines behind the text that is there.
render-lines :
    {fs : FileSystem} {kids : DirectoryEntry} {es : List Line}
    → Lists fs kids es
    → (text : List ℕ) → length (text ++ lines es) < fs.master_block.bytes_per_block
    → render fs kids text ≡ ok (text ++ lines es)
unfolding render
render-lines no_more text h = ap ok (sym (append-nil text))
render-lines {fs} (one_more j name d kids next x n es at num rest) text h =
    let line = strboy name n in
    let whole : (text ++ line) ++ lines es ≡ text ++ lines ((name, n) ∷ es) =
      append_assoc text line (lines es) ∙ ap (λ t. text ++ t) (lines-strboy name n es) in
    let size = ap length whole in
    let fits : (ltb (length line) fs.master_block.bytes_per_block
          && ltb (length (text ++ line)) fs.master_block.bytes_per_block)
        ≡ true =
      ground (arith, size, length-append (text ++ line) (lines es), length-append text line) in
    rw (render, at, num, fits)
      (render-lines rest (text ++ line) (omega (arith, size)) ∙ ap ok whole)

-- A transfer of one whole block takes two rounds.
two_rounds : (n : ℕ) → 0 < n → num_blocks 0 n n ≡ 2
two_rounds n h =
    let whole : (0 + n) / n ≡ 1 = ap (λ t. t / n) (omega arith) ∙ div_self h in
    omega (arith, whole, zero-div n)

write_directory-ok :
    (fs : FileSystem) {fs' : FileSystem} {text : List ℕ} {r : ℕ} (k j : ℕ) (name kid : List ℕ)
    (dirty d : Bool) (sub more next : DirectoryEntry)
    → render fs (entry j kid d sub more) [] ≡ ok text
    → inode_write fs k 0 fs.master_block.bytes_per_block
        (in_block fs.master_block.bytes_per_block text)
      ≡ ok (r, fs')
    → write_directory fs (entry k name dirty (entry j kid d sub more) next)
      ≡ ok (entry k name false (clean_all (entry j kid d sub more)) next, fs')
unfolding write_directory
write_directory-ok fs k j name kid dirty d sub more next made wrote =
    rw (write_directory, made, wrote)

-- The block size given as a number of its own.
read_directory-sized :
    (fs : FileSystem) (n k : ℕ) (own : List ℕ) (d : Bool) (next : DirectoryEntry) (es : List Line)
    {c : ℕ}
    → fs.master_block.bytes_per_block ≡ n
    → ArePlain es
    → AreInts es
    → length (lines es) < n
    → length es * 2 < n / pointer_bytes
    → inode_read fs k 0 n ≡ ok (c, in_block n (lines es))
    → read_directory fs k (entry k own d null next) ≡ ok (entry k own d (children es) next)
read_directory-sized fs n k own d next es {c} e p ints =
    subst
      (λ m.
        length (lines es) < m
        → length es * 2 < m / pointer_bytes
        → inode_read fs k 0 m ≡ ok (c, in_block m (lines es))
        → read_directory fs k (entry k own d null next) ≡ ok (entry k own d (children es) next))
      e (read_directory-lines fs k k own d next es p ints)

-- On a file system in order with two free blocks, whose master block has the block size of the
-- device, writeDirectory of a directory whose children have plain names and whose lines fit in a
-- block and in the slots for their words succeeds and clears the marks, and the reading part of
-- getChildren then makes children of the same names and inode numbers, in the same order.
pub read_directory-write_directory :
    (fs : FileSystem) (k j : ℕ) (x : INode) (name kid : List ℕ) (dirty d : Bool)
    (sub more next : DirectoryEntry) (es : List Line)
    → Ready fs k x
    → fs.master_block.bytes_per_block ≡ fs.block_device.bytes_per_block
    → 2 ≤ free_blocks fs
    → Lists fs (entry j kid d sub more) es
    → ArePlain es
    → AreInts es
    → length (lines es) < fs.master_block.bytes_per_block
    → length es * 2 < fs.master_block.bytes_per_block / pointer_bytes
    → (fs' : FileSystem) × (write_directory fs (entry k name dirty (entry j kid d sub more) next)
        ≡ ok (entry k name false (clean_all (entry j kid d sub more)) next, fs'))
      × (read_directory fs' k (entry k name false null next)
          ≡ ok (entry k name false (children es) next))
read_directory-write_directory fs k j x name kid dirty d sub more next es r same room listed p ints
      fits slots =
    let n = fs.master_block.bytes_per_block in
    let some_bytes : 0 < n = omega arith in
    let rounds : num_blocks 0 n fs.block_device.bytes_per_block ≡ 2 =
      subst (λ b. num_blocks 0 n b ≡ 2) same (two_rounds n some_bytes) in
    let (fs', x', wrote, read, ready, size, master) =
      inode_read-inode_write fs k x 0 n (in_block n (lines es)) r (omega arith)
        (sym (length-in_block n (lines es) (omega arith))) (omega (arith, rounds))
        (omega (arith, rounds)) in
    let shape : fs'.master_block.bytes_per_block ≡ n = ap (λ m. m.bytes_per_block) master in
    (
      fs',
      write_directory-ok fs k j name kid dirty d sub more next (render-lines listed [] fits) wrote,
      read_directory-sized fs' n k name false next es shape p ints fits slots read,
    )
