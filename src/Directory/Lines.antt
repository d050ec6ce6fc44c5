-- ===== src/Directory/Lines.antt =====
-- directory_cache.c: the lines of a directory, read back into its children.
use cs.Prelude.{
  ℕ, zero, suc, ◌-◌, ◌*◌, ◌/◌, ◌≤◌, ◌<◌, ◌^◌, ◌≡◌, refl, ap, sym, ◌∙◌, subst, true, false, Bool,
  Option, some, none, List, [], ◌∷◌, ◌++◌, append-nil, arith, length, length-append, pos, ltb, ◌==◌,
}
use cs.Prelude.Bytes.{zeros, length-zeros}
use cs.Prelude.Run.{Run, ok, fault, ◌>>=◌}
use cs.Text.{c_string, fill_words, count_words, break_words, decimal}
use cs.Text.Decimal.{All, All-append, atoi-decimal}
use cs.Text.Words.{
  Line, ArePlain, IsPlain, line_delimiters, lines, words, tokens-lines, count_occurrences-lines,
  decimal-IsPlain,
}
use cs.FileSystem.{FileSystem, DirectoryEntry, null, entry}
use cs.FileSystem.Access.{inode_read}
use cs.Directory.{
  append_sibling, add_child, in_block, add_words, null_words, add_children, read_directory,
  pointer_bytes,
}

-- The slots that breakWords fills with the words of the lines.
abbrev pub slots : List Line → List (Option (List ℕ))
slots [] = []
slots (e ∷ es) = some e.0 ∷ some (decimal (pos e.1)) ∷ slots es

-- The siblings that the lines make.
abbrev pub children : List Line → DirectoryEntry
children [] = null
children (e ∷ es) = entry e.1 e.0 true null (children es)

-- The numbers are `int`s.
abbrev pub AreInts : List Line → Type 0
AreInts [] = Unit
AreInts (e ∷ es) = (e.1 < 2 ^ 31) × AreInts es

fill_words-words : (es : List Line) → fill_words (length es * 2) (words es) ≡ slots es
unfolding fill_words
fill_words-words [] = refl
fill_words-words (e ∷ es) =
    let two_more : suc (suc (length es * 2)) ≡ length (e ∷ es) * 2 = omega arith in
    subst (λ n. fill_words n (words (e ∷ es)) ≡ slots (e ∷ es)) two_more
      (ap (λ t. some e.0 ∷ some (decimal (pos e.1)) ∷ t) (fill_words-words es))

append_sibling-behind :
    (k more : DirectoryEntry) (i : ℕ) (name : List ℕ) (d : Bool)
    → append_sibling (append_sibling k (entry i name d null null)) more
      ≡ append_sibling k (entry i name d null more)
unfolding append_sibling
append_sibling-behind null more i name d = refl
append_sibling-behind (entry j n e kids next) more i name d =
    ap (λ t. entry j n e kids t) (append_sibling-behind next more i name d)

append_sibling-null : (k : DirectoryEntry) → append_sibling k null ≡ k
unfolding append_sibling
append_sibling-null null = refl
append_sibling-null (entry j n e kids next) =
    ap (λ t. entry j n e kids t) (append_sibling-null next)

-- The loop of getChildren adds a child for each line behind the children that are there.
pub add_words-slots :
    (es : List Line) (i : ℕ) (own : List ℕ) (d : Bool) (kids next : DirectoryEntry)
    (rest : List (Option (List ℕ)))
    → AreInts es
    → add_words (entry i own d kids next) (slots es ++ (none ∷ rest))
      ≡ ok (entry i own d (append_sibling kids (children es)) next)
unfolding add_words add_child
add_words-slots [] i own d kids next rest h =
    ap (λ t. ok (entry i own d t next)) (sym (append_sibling-null kids))
add_words-slots (e ∷ es) i own d kids next rest h =
    rw (add_words, atoi-decimal (pos e.1) h.0)
      (add_words-slots es i own d (append_sibling kids (entry e.1 e.0 true null null)) next rest h.1
        ∙ ap (λ t. ok (entry i own d t next))
            (append_sibling-behind kids (children es) e.1 e.0 true))

-- A text without a zero byte, up to the zero byte behind it.
c_string-append : (s rest : List ℕ) → All (λ c. 0 < c) s → c_string (s ++ (0 ∷ rest)) ≡ some s
unfolding c_string
c_string-append [] rest h = refl
c_string-append (c ∷ s) rest h =
    let some_byte : (c == 0) ≡ false = ground (arith, h.0) in
    rw (c_string, some_byte, c_string-append s rest h.1)

c_string-in_block :
    (n : ℕ) (s : List ℕ) → All (λ c. 0 < c) s → length s < n → c_string (in_block n s) ≡ some s
c_string-in_block n s h lt =
    let more : suc (n - length s - 1) ≡ n - length s = omega arith in
    subst (λ m. c_string (s ++ zeros m) ≡ some s) more
      (c_string-append s (zeros (n - length s - 1)) h)

pub length-in_block : (n : ℕ) (s : List ℕ) → length s ≤ n → length (in_block n s) ≡ n
length-in_block n s h =
    omega (arith, length-append s (zeros (n - length s)), length-zeros (n - length s))

in_block-in_block : (n : ℕ) (s : List ℕ) → length s ≤ n → in_block n (in_block n s) ≡ in_block n s
in_block-in_block n s h =
    let full : n - length (in_block n s) ≡ 0 = omega (arith, length-in_block n s h) in
    ap (λ m. in_block n s ++ zeros m) full ∙ append-nil (in_block n s)

All-plain : (w : List ℕ) → All IsPlain w → All (λ c. 0 < c) w
All-plain [] h = tt
All-plain (c ∷ w) h = (h.0.0, All-plain w h.1)

lines-nonzero : (es : List Line) → ArePlain es → All (λ c. 0 < c) (lines es)
lines-nonzero [] h = tt
lines-nonzero (e ∷ es) h =
    All-append (λ c. 0 < c) e.0 (124 ∷ (decimal (pos e.1) ++ (10 ∷ lines es))) (All-plain e.0 h.0.1)
      (
        omega arith,
        All-append (λ c. 0 < c) (decimal (pos e.1)) (10 ∷ lines es)
            (All-plain (decimal (pos e.1)) (decimal-IsPlain e.1).1)
            (omega arith, lines-nonzero es h.1),
      )

count_words-slots : (es : List Line) → count_words (slots es) ≡ length es * 2
count_words-slots [] = refl
count_words-slots (e ∷ es) = omega (arith, count_words-slots es)

-- On the lines of plain names and of numbers, with two slots for each line, breakWords fills the
-- slots with the names and the numbers in their order, and returns how many they are.
pub break_words-lines :
    (es : List Line)
    → ArePlain es
    → break_words (lines es) (length es * 2) line_delimiters ≡ (length es * 2, slots es)
unfolding break_words
break_words-lines es h =
    let filled = ap (fill_words (length es * 2)) (tokens-lines es h) ∙ fill_words-words es in
    ap (λ out. (count_words out, out)) filled ∙ ap (λ n. (n, slots es)) (count_words-slots es)

null_words-cons : (n : ℕ) → 0 < n → null_words n ≡ none ∷ null_words (n - 1)
null_words-cons zero h = elim h [ ]
null_words-cons (suc n) h = ap (λ m. none ∷ null_words m) (omega arith)

-- The text of lines makes their children, where it fits the slots with one to spare.
add_children-lines :
    (n i : ℕ) (own : List ℕ) (d : Bool) (next : DirectoryEntry) (es : List Line)
    → ArePlain es
    → AreInts es
    → length es * 2 < n / pointer_bytes
    → add_children n (entry i own d null next) (lines es) ≡ ok (entry i own d (children es) next)
unfolding add_children append_sibling
add_children-lines n i own d next es p ints room =
    let enough : ltb (n / pointer_bytes) (length es * 2) ≡ false = ground arith in
    rw (add_children, count_occurrences-lines es p, enough)
      (rw
        (break_words-lines es p, null_words-cons (n / pointer_bytes - length es * 2) (omega arith))
        (add_words-slots es i own d null next (null_words (n / pointer_bytes - length es * 2 - 1))
          ints))

-- Where the lines of a directory have more than n / 8 words, their words overrun the array that
-- getChildren allocates for blocks of n bytes.
pub add_children-overrun :
    (n : ℕ) (dir : DirectoryEntry) (es : List Line)
    → ArePlain es
    → n / pointer_bytes < length es * 2
    → add_children n dir (lines es) ≡ fault
unfolding add_children
add_children-overrun n dir es p over =
    let full : ltb (n / pointer_bytes) (length es * 2) ≡ true = ground arith in
    rw (add_children, count_occurrences-lines es p, full)

-- A directory whose inode holds a text in its first block.
read_directory-text :
    (fs : FileSystem) (k : ℕ) (dir : DirectoryEntry) (text : List ℕ) {c : ℕ}
    → All (λ b. 0 < b) text
    → length text < fs.master_block.bytes_per_block
    → inode_read fs k 0 fs.master_block.bytes_per_block
      ≡ ok (c, in_block fs.master_block.bytes_per_block text)
    → read_directory fs k dir ≡ add_children fs.master_block.bytes_per_block dir text
unfolding read_directory
read_directory-text fs k dir text nonzero fits read =
    let n = fs.master_block.bytes_per_block in
    let parse : Option (List ℕ) → Run DirectoryEntry =
      λ o. elim o [ none ↦ fault | some s ↦ add_children n dir s ] in
    ap (λ (m : Run (ℕ × List ℕ)). m >>= λ r. parse (c_string (in_block n r.1))) read
    ∙ ap (λ t. parse (c_string t)) (in_block-in_block n text (omega arith))
    ∙ ap parse (c_string-in_block n text nonzero fits)

-- Where the inode holds the lines, with more slots than words, `getChildren` reads the children.
pub read_directory-lines :
    (fs : FileSystem) (k i : ℕ) (own : List ℕ) (d : Bool) (next : DirectoryEntry) (es : List Line)
    {c : ℕ}
    → ArePlain es
    → AreInts es
    → length (lines es) < fs.master_block.bytes_per_block
    → length es * 2 < fs.master_block.bytes_per_block / pointer_bytes
    → inode_read fs k 0 fs.master_block.bytes_per_block
      ≡ ok (c, in_block fs.master_block.bytes_per_block (lines es))
    → read_directory fs k (entry i own d null next) ≡ ok (entry i own d (children es) next)
read_directory-lines fs k i own d next es p ints fits room read =
    read_directory-text fs k (entry i own d null next) (lines es) (lines-nonzero es p) fits read
    ∙ add_children-lines fs.master_block.bytes_per_block i own d next es p ints room
