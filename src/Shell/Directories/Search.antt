-- ===== src/Shell/Directories/Search.antt =====
-- my_shell.c and new_shell.c: what cd finds among the children of a directory.
use cs.Prelude.{
  ℕ, zero, suc, ◌<◌, ◌≡◌, refl, sym, ap₂, subst, Bool, true, false, Option, none, some, List, [],
  ◌∷◌, ◌++◌, append-nil, append_assoc, arith, Bool-cases, inl, inr,
}
use cs.Prelude.Run.{ok}
use cs.INode.{INode, is_directory}
use cs.FileSystem.{FileSystem, DirectoryEntry, null, entry, inode_at}
use cs.Directory.Place.{Place, over, visit, visit-null, overs}
use cs.Shell.{Reply, same_text, not_a_directory}
use cs.Shell.Directories.{cd_search}

-- The inodes of an entry and of its siblings behind it can be read.
pub data IsReadable (fs : FileSystem) : DirectoryEntry → Type 0 where
  no_entry : IsReadable fs null
  one_entry :
      (i : ℕ) (name : List ℕ) (d : Bool) (kids next : DirectoryEntry) (x : INode)
      → inode_at fs i ≡ ok x
      → IsReadable fs next
      → IsReadable fs (entry i name d kids next)

-- A directory of a name.
pub data IsTarget (fs : FileSystem) (target : List ℕ) : DirectoryEntry → Type 0 where
  target_entry :
      (i : ℕ) (d : Bool) (kids next : DirectoryEntry) (x : INode)
      → inode_at fs i ≡ ok x
      → is_directory x.type ≡ true
      → IsTarget fs target (entry i target d kids next)

-- What a search among the siblings from `here` on may find: the first directory of the name, or none
-- where there is none.
pub data Searched (fs : FileSystem) (target : List ℕ) (here : Place) (kids : DirectoryEntry)
    : Option Place → Type 0 where
  nowhere :
      ((k : ℕ) → IsTarget fs target (visit kids (overs k)) → ⊥) → Searched fs target here kids none
  at_sibling :
      (k : ℕ)
      → IsTarget fs target (visit kids (overs k))
      → ((j : ℕ) → j < k → IsTarget fs target (visit kids (overs j)) → ⊥)
      → Searched fs target here kids (some (here ++ overs k))

same_text-eq : (a b : List ℕ) → same_text a b ≡ true → a ≡ b
unfolding same_text
same_text-eq [] [] e = refl
same_text-eq [] (y ∷ b) e = absurd (cc)
same_text-eq (x ∷ a) [] e = absurd (cc)
same_text-eq (x ∷ a) (y ∷ b) e = ap₂ ◌∷◌ (grind arith) (same_text-eq a b (grind arith))

same_text_refl : (a : List ℕ) → same_text a a ≡ true
unfolding same_text
same_text_refl [] = refl
same_text_refl (x ∷ a) = let rest = same_text_refl a in ground arith

-- A first sibling that is not the directory leaves the search to the others.
Searched-next :
    (fs : FileSystem) (target : List ℕ) (here : Place) (i : ℕ) (name : List ℕ) (d : Bool)
    (kids next : DirectoryEntry) {found : Option Place}
    → (IsTarget fs target (entry i name d kids next) → ⊥)
    → Searched fs target (here ++ (over ∷ [])) next found
    → Searched fs target here (entry i name d kids next) found
Searched-next fs target here i name d kids next not_it (nowhere none_there) = nowhere other
  where
    other : (k : ℕ) → IsTarget fs target (visit (entry i name d kids next) (overs k)) → ⊥
    other zero t = not_it t
    other (suc k) t = none_there k t
Searched-next fs target here i name d kids next not_it (at_sibling k it first) =
    subst (λ t. Searched fs target here (entry i name d kids next) (some t))
      (sym (append_assoc here (over ∷ []) (overs k))) (at_sibling (suc k) it other)
  where
    other :
        (j : ℕ) → j < suc k → IsTarget fs target (visit (entry i name d kids next) (overs j)) → ⊥
    other zero lt t = not_it t
    other (suc j) lt t = first j (omega arith) t

no_target : (fs : FileSystem) (target : List ℕ) → IsTarget fs target null → ⊥
no_target fs target t = elim t [ ]

not_a_folder :
    (fs : FileSystem) (target : List ℕ) (i : ℕ) (name : List ℕ) (d : Bool)
    (kids next : DirectoryEntry) (x : INode)
    → inode_at fs i ≡ ok x
    → is_directory x.type ≡ false
    → IsTarget fs target (entry i name d kids next)
    → ⊥
not_a_folder fs target i name d kids next x at file (target_entry _ _ _ _ y at' folder) =
    absurd (cc)

other_name :
    (fs : FileSystem) (target : List ℕ) (i : ℕ) (name : List ℕ) (d : Bool)
    (kids next : DirectoryEntry)
    → same_text name target ≡ false
    → IsTarget fs target (entry i name d kids next)
    → ⊥
other_name fs target i name d kids next apart (target_entry _ _ _ _ y at folder) =
    let same = same_text_refl target in absurd (cc)

module _ (fs : FileSystem) (target : List ℕ) {i : ℕ} {name : List ℕ} {d : Bool}
    {kids next : DirectoryEntry} where
  found_here :
      (here : Place) {x : INode}
      → inode_at fs i ≡ ok x
      → is_directory x.type ≡ true
      → same_text name target ≡ true
      → Searched fs target here (entry i name d kids next) (some here)
  found_here here {x} at folder same =
      subst (λ t. Searched fs target here (entry i name d kids next) (some t)) (append-nil here)
        (at_sibling 0
          (subst (λ t. IsTarget fs target (entry i t d kids next))
            (sym (same_text-eq name target same)) (target_entry i d kids next x at folder))
          (λ j lt. absurd (omega arith)))

-- Among children whose inodes can be read, the search of cd does not fault; it finds the first
-- that has the name of the target and is a directory, or none where there is none.
pub cd_search-Searched :
    (fs : FileSystem) (target : List ℕ) (here : Place) (kids : DirectoryEntry)
    → IsReadable fs kids
    → (said : List Reply) × (found : Option Place) × (cd_search fs target here kids
        ≡ ok (said, found))
      × Searched fs target here kids found
unfolding cd_search
cd_search-Searched fs target here null no_entry = (
  [],
  none,
  refl,
  nowhere (λ k t. no_target fs target (subst (IsTarget fs target) (visit-null (overs k)) t)),
)
cd_search-Searched fs target here (entry i name d kids next) (one_entry _ _ _ _ _ x at more) =
    let (said, found, runs, s) = cd_search-Searched fs target (here ++ (over ∷ [])) next more in
    elim (Bool-cases (same_text name target)) [
      | inl same ↦ elim (Bool-cases (is_directory x.type)) [
        | inl folder ↦ (
          [],
          some here,
          rw (cd_search, same, at, folder) refl,
          found_here fs target here at folder same,
        )
        | inr file ↦ (
          not_a_directory ∷ said,
          found,
          rw (cd_search, same, at, file, runs) refl,
          Searched-next fs target here i name d kids next
              (not_a_folder fs target i name d kids next x at file) s,
        )
      ]
      | inr apart ↦ (
        said,
        found,
        rw (cd_search, apart) runs,
        Searched-next fs target here i name d kids next
            (other_name fs target i name d kids next apart) s,
      )
    ]
