-- ===== src/FileSystem/Access/Copy.antt =====
-- inode.c: the copy between the user's buffer and a block buffer.
use cs.Prelude.{
  ℕ, ◌+◌, ◌≤◌, ◌≡◌, subst, List, ◌++◌, arith, length, take, drop, length-append, length-take,
  length-drop, take-append, drop-append,
}
use cs.FileSystem.Access.{patch}

-- A copy inside the block buffer keeps its length.
pub length-patch :
    (t : List ℕ) (off : ℕ) (bytes : List ℕ)
    → off + length bytes ≤ length t
    → length (patch t off bytes) ≡ length t
unfolding patch
length-patch t off bytes h = omega (
  arith,
  length-append (take off t) (bytes ++ drop (off + length bytes) t),
  length-append bytes (drop (off + length bytes) t),
  length-take off t,
  length-drop (off + length bytes) t,
)

drop-append_at : (n : ℕ) (xs ys : List ℕ) → length xs ≡ n → drop n (xs ++ ys) ≡ ys
drop-append_at n xs ys e = subst (λ n. drop n (xs ++ ys) ≡ ys) e (drop-append xs ys)

-- The bytes that were copied are found where they were put.
pub drop-patch :
    (t : List ℕ) (off : ℕ) (bytes : List ℕ)
    → off ≤ length t
    → take (length bytes) (drop off (patch t off bytes)) ≡ bytes
unfolding patch
drop-patch t off bytes h =
    let front : length (take off t) ≡ off = omega (arith, length-take off t) in
    rw (drop-append_at off (take off t) (bytes ++ drop (off + length bytes) t) front)
      (take-append bytes (drop (off + length bytes) t))
