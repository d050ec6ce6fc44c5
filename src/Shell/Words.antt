-- ===== src/Shell/Words.antt =====
-- my_shell.c: the words that name the commands.
use cs.Prelude.{ℕ, List, [], ◌∷◌}

abbrev pub quit_name : List ℕ
quit_name = b'q' ∷ []

abbrev pub newfs_name : List ℕ
newfs_name = b'n' ∷ b'e' ∷ b'w' ∷ b'f' ∷ b's' ∷ []

abbrev pub mount_name : List ℕ
mount_name = b'm' ∷ b'o' ∷ b'u' ∷ b'n' ∷ b't' ∷ []

abbrev pub unmount_name : List ℕ
unmount_name = b'u' ∷ b'n' ∷ b'm' ∷ b'o' ∷ b'u' ∷ b'n' ∷ b't' ∷ []

abbrev pub mkdir_name : List ℕ
mkdir_name = b'm' ∷ b'k' ∷ b'd' ∷ b'i' ∷ b'r' ∷ []

abbrev pub ls_name : List ℕ
ls_name = b'l' ∷ b's' ∷ []

abbrev pub cd_name : List ℕ
cd_name = b'c' ∷ b'd' ∷ []

abbrev pub alloc_block_name : List ℕ
alloc_block_name = b'a' ∷ b'l' ∷ b'l' ∷ b'o' ∷ b'c' ∷ b'B' ∷ b'l' ∷ b'o' ∷ b'c' ∷ b'k' ∷ []

abbrev pub free_block_name : List ℕ
free_block_name = b'f' ∷ b'r' ∷ b'e' ∷ b'e' ∷ b'B' ∷ b'l' ∷ b'o' ∷ b'c' ∷ b'k' ∷ []

abbrev pub block_map_name : List ℕ
block_map_name = b'b' ∷ b'l' ∷ b'o' ∷ b'c' ∷ b'k' ∷ b'M' ∷ b'a' ∷ b'p' ∷ []

abbrev pub alloc_inode_name : List ℕ
alloc_inode_name = b'a' ∷ b'l' ∷ b'l' ∷ b'o' ∷ b'c' ∷ b'I' ∷ b'N' ∷ b'o' ∷ b'd' ∷ b'e' ∷ []

abbrev pub free_inode_name : List ℕ
free_inode_name = b'f' ∷ b'r' ∷ b'e' ∷ b'e' ∷ b'I' ∷ b'N' ∷ b'o' ∷ b'd' ∷ b'e' ∷ []

abbrev pub write_name : List ℕ
write_name = b'w' ∷ b'r' ∷ b'i' ∷ b't' ∷ b'e' ∷ []

abbrev pub echo_name : List ℕ
echo_name = b'e' ∷ b'c' ∷ b'h' ∷ b'o' ∷ []
