-- ===== src/Cpp/Console/Words.antt =====
-- my_Blocks_c++/my_shell.cpp: the words of a line, the numbers in it, and the names of the commands.
use cs.Prelude.{
  ℕ, ◌^◌, Bool, false, ◌&&◌, ◌||◌, Option, none, some, List, [], ◌∷◌, ◌++◌, ltb, leb, ◌==◌,
  if◌then◌else◌, get_elem?,
}
use cs.Prelude.Run.{Run, ok, fault, assert, ◌>>=◌, ◌>>◌}
use cs.Text.{is_delim, tokens, is_digit, digits_value}

-- The delimiters of the first word, and of the other words.
abbrev pub first_delimiters : List ℕ
first_delimiters = b' ' ∷ b',' ∷ b'.' ∷ b'-' ∷ []

abbrev pub delimiters : List ℕ
delimiters = b' ' ∷ b',' ∷ b'-' ∷ []

-- `strtok` of a string, with the word read so far: the first word, or none for NULL, and what stands
-- behind the delimiter that ends it.
unfoldable pub first_word : List ℕ → List ℕ → List ℕ → Option (List ℕ × List ℕ)
unfolding is_delim
first_word delim [] [] = none
first_word delim (w ∷ word) [] = some (w ∷ word, [])
first_word delim [] (c ∷ cs) = first_word delim (if is_delim delim c then [] else c ∷ []) cs
first_word delim (w ∷ word) (c ∷ cs) =
    let more = first_word delim ((w ∷ word) ++ (c ∷ [])) cs in
    if is_delim delim c then some (w ∷ word, cs) else more

-- The `i`-th of the words behind the first; NULL is a fault, since all who get it follow it.
unfoldable pub argument : List ℕ → ℕ → Run (List ℕ)
unfolding tokens
argument rest i = elim (get_elem? (tokens delimiters rest) i) [ none ↦ fault | some w ↦ ok w ]

abbrev pub is_space : ℕ → Bool
is_space c = (c == b' ') || (leb 9 c && leb c 13)

abbrev pub skip_spaces : List ℕ → List ℕ
skip_spaces [] = []
skip_spaces (c ∷ cs) = if is_space c then skip_spaces cs else c ∷ cs

abbrev pub skip_plus : List ℕ → List ℕ
skip_plus [] = []
skip_plus (c ∷ cs) = if c == b'+' then cs else c ∷ cs

abbrev pub starts_with_digit : List ℕ → Bool
starts_with_digit [] = false
starts_with_digit (c ∷ cs) = is_digit c

-- `std::stoi` of a word, which has no minus sign, since that is a delimiter. The exceptions, for a
-- text without a number and for one too large, are not caught: faults.
unfoldable pub stoi : List ℕ → Run ℕ
unfolding digits_value
stoi word =
    let digits = skip_plus (skip_spaces word) in
    let n = digits_value 0 digits in assert (starts_with_digit digits && ltb n (2 ^ 31)) >> ok n

unfoldable pub number : List ℕ → ℕ → Run ℕ
unfolding argument stoi
number rest i = argument rest i >>= stoi

-- The names of the commands.
abbrev pub block_map_name : List ℕ
block_map_name = b'b' ∷ b'l' ∷ b'o' ∷ b'c' ∷ b'k' ∷ b'M' ∷ b'a' ∷ b'p' ∷ []

abbrev pub block_map_full_name : List ℕ
block_map_full_name = block_map_name ++ (b'F' ∷ b'u' ∷ b'l' ∷ b'l' ∷ [])

abbrev pub inode_map_full_name : List ℕ
inode_map_full_name =
    b'i' ∷ b'N' ∷ b'o' ∷ b'd' ∷ b'e' ∷ b'M' ∷ b'a' ∷ b'p' ∷ b'F' ∷ b'u' ∷ b'l' ∷ b'l' ∷ []

abbrev pub newfs_name : List ℕ
newfs_name = b'n' ∷ b'e' ∷ b'w' ∷ b'f' ∷ b's' ∷ []

abbrev pub alloc_block_name : List ℕ
alloc_block_name = b'a' ∷ b'l' ∷ b'l' ∷ b'o' ∷ b'c' ∷ b'B' ∷ b'l' ∷ b'o' ∷ b'c' ∷ b'k' ∷ []

abbrev pub free_block_name : List ℕ
free_block_name = b'f' ∷ b'r' ∷ b'e' ∷ b'e' ∷ b'B' ∷ b'l' ∷ b'o' ∷ b'c' ∷ b'k' ∷ []

abbrev pub set_block_name : List ℕ
set_block_name = b's' ∷ b'e' ∷ b't' ∷ b'B' ∷ b'l' ∷ b'o' ∷ b'c' ∷ b'k' ∷ []

abbrev pub alloc_inode_name : List ℕ
alloc_inode_name = b'a' ∷ b'l' ∷ b'l' ∷ b'o' ∷ b'c' ∷ b'i' ∷ b'N' ∷ b'o' ∷ b'd' ∷ b'e' ∷ []

abbrev pub free_inode_name : List ℕ
free_inode_name = b'f' ∷ b'r' ∷ b'e' ∷ b'e' ∷ b'i' ∷ b'N' ∷ b'o' ∷ b'd' ∷ b'e' ∷ []

abbrev pub set_inode_name : List ℕ
set_inode_name = b's' ∷ b'e' ∷ b't' ∷ b'i' ∷ b'N' ∷ b'o' ∷ b'd' ∷ b'e' ∷ []

abbrev pub get_block_addr_name : List ℕ
get_block_addr_name =
    b'g' ∷ b'e' ∷ b't' ∷ b'B' ∷ b'l' ∷ b'o' ∷ b'c' ∷ b'k' ∷ b'A' ∷ b'd' ∷ b'd' ∷ b'r' ∷ []

abbrev pub node_info_name : List ℕ
node_info_name = b'n' ∷ b'o' ∷ b'd' ∷ b'e' ∷ b'I' ∷ b'n' ∷ b'f' ∷ b'o' ∷ []

abbrev pub mount_name : List ℕ
mount_name = b'm' ∷ b'o' ∷ b'u' ∷ b'n' ∷ b't' ∷ []

abbrev pub unmount_name : List ℕ
unmount_name = b'u' ∷ b'n' ∷ b'm' ∷ b'o' ∷ b'u' ∷ b'n' ∷ b't' ∷ []

abbrev pub help_name : List ℕ
help_name = b'h' ∷ b'e' ∷ b'l' ∷ b'p' ∷ []

abbrev pub quit_name : List ℕ
quit_name = b'q' ∷ b'u' ∷ b'i' ∷ b't' ∷ []
