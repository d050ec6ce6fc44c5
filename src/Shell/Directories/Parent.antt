-- ===== src/Shell/Directories/Parent.antt =====
-- my_shell.c: dirParentSearch finds the parent of an entry.
use cs.Prelude.{
  ℕ, zero, suc, ◌≡◌, ◌∙◌, refl, sym, ap, subst, Bool, false, ◌&&◌, Option, none, some, List, [],
  ◌∷◌, ◌++◌, append-nil, append_assoc, if◌then◌else◌, ℤ,
}
use cs.Prelude.Run.{Run, ok, ◌>>=◌}
use cs.INode.{INode}
use cs.FileSystem.{FileSystem, DirectoryEntry, null, entry, inode_at}
use cs.Directory.{is_null, children_of}
use cs.Directory.Place.{
  Place, down, over, visit, visit-append, visit_first, visit_behind, visit_below, visit-null,
  visit-down, overs,
}
use cs.BlockCache.{same_block}
use cs.Shell.{Host}
use cs.Shell.Directories.{search_children, dir_parent_search}
use cs.Directory.Apart.{
  same_place, same_place_refl, Aside, Aside-on, Aside-same_place, Aside-here, Aside-over,
}

-- The entry that has the place `rest` on from `here` among its children, when the one at `prev` has
-- the place `here` there.
abbrev parent_from : Place → Place → Place → Place
parent_from prev here [] = prev
parent_from prev here (over ∷ r) = parent_from prev (here ++ (over ∷ [])) r
parent_from prev here (down ∷ r) = parent_from here (here ++ (down ∷ [])) r

-- The inodes of the entries can be read, and the test of `dirParentSearch` holds of one entry of the
-- tree alone, the one at `seek`.
pub record IsKnown (host : Host) (fs : FileSystem) (seek : Place) (z : ℤ) : Type 0 where
  pub inode :
      (p : Place) (i : ℕ) (name : List ℕ) (d : Bool) (kids next : DirectoryEntry)
      → visit fs.root_dir p ≡ entry i name d kids next
      → (x : INode) × (inode_at fs i ≡ ok x)
        × ((same_block x.inode_num z && host.same_name fs.root_dir p seek) ≡ same_place p seek)

skip_null :
    (kids : DirectoryEntry) (m : Run (Option Place))
    → m ≡ ok none
    → (if is_null kids then ok none else m) ≡ ok none
skip_null null m e = refl
skip_null (entry i name d kids next) m e = e

below_entry :
    (node : DirectoryEntry) (rest : Place)
    → is_null (visit node rest) ≡ false
    → is_null node ≡ false
below_entry node [] n = n
below_entry null (t ∷ rest) n = absurd (cc)
below_entry (entry i name d kids next) (t ∷ rest) n = refl

same_place-over : (here rest : Place) → same_place here (here ++ (over ∷ rest)) ≡ false
same_place-over [] rest = refl
same_place-over (down ∷ here) rest = same_place-over here rest
same_place-over (over ∷ here) rest = same_place-over here rest

module _ (host : Host) (fs : FileSystem) (seek : Place) (z : ℤ)
    (known : IsKnown host fs seek z) where
  -- The part of the loop for one entry, when its inode is known.
  on_entry :
      (here : Place) (i : ℕ) (name : List ℕ) (d : Bool) (kids next : DirectoryEntry)
      → visit fs.root_dir here ≡ entry i name d kids next
      → (prev : Place) (first behind : Run (Option Place))
      → (first ≡ ok none
          → (first >>= λ check. elim check [
            | some q ↦ ok (some q)
            | none ↦ inode_at fs i >>= λ x.
                if same_block x.inode_num z && host.same_name fs.root_dir here seek
                then ok (some prev)
                else behind
          ])
            ≡ (if same_place here seek then ok (some prev) else behind))
  on_entry here i name d kids next v prev first behind none_below =
      let (x, at, test) = known.inode here i name d kids next v in rw (none_below, at, test) refl

  search-Aside :
      (prev here : Place) (node : DirectoryEntry)
      → visit fs.root_dir here ≡ node
      → Aside here seek
      → search_children host fs seek z prev here node ≡ ok none
  unfolding search_children
  search-Aside prev here null v a = refl
  search-Aside prev here (entry i name d kids next) v a =
      on_entry here i name d kids next v prev
        (if is_null kids
          then ok none
          else search_children host fs seek z here (here ++ (down ∷ [])) kids)
        (search_children host fs seek z prev (here ++ (over ∷ [])) next)
        (skip_null kids (search_children host fs seek z here (here ++ (down ∷ [])) kids) (
          search-Aside here (here ++ (down ∷ [])) kids (visit_first fs.root_dir here v)
            (Aside-on here seek down a)))
      ∙ rw (Aside-same_place here seek a) (
          search-Aside prev (here ++ (over ∷ [])) next (visit_behind fs.root_dir here v)
            (Aside-on here seek over a))

  search-found :
      (prev here rest : Place) (node : DirectoryEntry)
      → visit fs.root_dir here ≡ node
      → is_null (visit node rest) ≡ false
      → here ++ rest ≡ seek
      → search_children host fs seek z prev here node ≡ ok (some (parent_from prev here rest))
  unfolding search_children
  search-found prev here [] null v n at = absurd (cc)
  search-found prev here (t ∷ rest) null v n at = absurd (cc)
  search-found prev here [] (entry i name d kids next) v n at =
      on_entry here i name d kids next v prev
        (if is_null kids
          then ok none
          else search_children host fs seek z here (here ++ (down ∷ [])) kids)
        (search_children host fs seek z prev (here ++ (over ∷ [])) next)
        (skip_null kids (search_children host fs seek z here (here ++ (down ∷ [])) kids) (
          search-Aside here (here ++ (down ∷ [])) kids (visit_first fs.root_dir here v)
            (subst (Aside (here ++ (down ∷ []))) (sym (append-nil here) ∙ at) (Aside-here here))))
      ∙ rw (ap (same_place here) (sym at ∙ append-nil here) ∙ same_place_refl here) refl
  search-found prev here (over ∷ rest) (entry i name d kids next) v n at =
      on_entry here i name d kids next v prev
        (if is_null kids
          then ok none
          else search_children host fs seek z here (here ++ (down ∷ [])) kids)
        (search_children host fs seek z prev (here ++ (over ∷ [])) next)
        (skip_null kids (search_children host fs seek z here (here ++ (down ∷ [])) kids) (
          search-Aside here (here ++ (down ∷ [])) kids (visit_first fs.root_dir here v)
            (subst (Aside (here ++ (down ∷ []))) at (Aside-over here rest))))
      ∙ rw (ap (same_place here) (sym at) ∙ same_place-over here rest) (
          search-found prev (here ++ (over ∷ [])) rest next (visit_behind fs.root_dir here v) n
            (append_assoc here (over ∷ []) rest ∙ at))
  search-found prev here (down ∷ rest) (entry i name d kids next) v n at =
      rw
        (
          below_entry kids rest n,
          search-found here (here ++ (down ∷ [])) rest kids (visit_first fs.root_dir here v) n
              (append_assoc here (down ∷ []) rest ∙ at),
        )
        refl

parent_from-overs : (prev here : Place) (k : ℕ) → parent_from prev here (overs k) ≡ prev
parent_from-overs prev here zero = refl
parent_from-overs prev here (suc k) = parent_from-overs prev (here ++ (over ∷ [])) k

parent_from-down :
    (prev here p : Place) (k : ℕ) → parent_from prev here (p ++ (down ∷ overs k)) ≡ here ++ p
parent_from-down prev here [] k =
    parent_from-overs here (here ++ (down ∷ [])) k ∙ sym (append-nil here)
parent_from-down prev here (down ∷ p) k =
    parent_from-down here (here ++ (down ∷ [])) p k ∙ append_assoc here (down ∷ []) p
parent_from-down prev here (over ∷ p) k =
    parent_from-down prev (here ++ (over ∷ [])) p k ∙ append_assoc here (over ∷ []) p

-- The search from the root for the entry at a place below the root.
search_root :
    (host : Host) (fs : FileSystem) (z : ℤ) (rest : Place)
    → IsKnown host fs (down ∷ rest) z
    → is_null (visit fs.root_dir (down ∷ rest)) ≡ false
    → search_children host fs (down ∷ rest) z [] (down ∷ []) (children_of fs.root_dir)
      ≡ ok (some (parent_from [] (down ∷ []) rest))
search_root host fs z rest known n =
    search-found host fs (down ∷ rest) z known [] (down ∷ []) rest (children_of fs.root_dir)
      (visit-down fs.root_dir []) (sym (ap is_null (visit_below fs.root_dir rest)) ∙ n) refl

pub dir_parent_search-child :
    (host : Host) (fs : FileSystem) (p : Place) (k : ℕ) {i : ℕ} {name : List ℕ} {d : Bool}
    {kids next : DirectoryEntry} {x : INode}
    → visit fs.root_dir (over ∷ []) ≡ null
    → visit fs.root_dir (p ++ (down ∷ overs k)) ≡ entry i name d kids next
    → inode_at fs i ≡ ok x
    → IsKnown host fs (p ++ (down ∷ overs k)) x.inode_num
    → dir_parent_search host fs (p ++ (down ∷ overs k)) (entry i name d kids next) ≡ ok (some p)
unfolding dir_parent_search
dir_parent_search-child host fs [] k {x = x} lone v at known = rw at (
    search_root host fs x.inode_num (overs k) known (rw v refl)
    ∙ ap (λ t. ok (some t)) (parent_from-overs [] (down ∷ []) k))
dir_parent_search-child host fs (down ∷ p) k {x = x} lone v at known = rw at (
    search_root host fs x.inode_num (p ++ (down ∷ overs k)) known (rw v refl)
    ∙ ap (λ t. ok (some t)) (parent_from-down [] (down ∷ []) p k))
dir_parent_search-child host fs (over ∷ p) k lone v at known =
    let q = p ++ (down ∷ overs k) in
    let nothing : visit fs.root_dir (over ∷ q) ≡ null =
      visit-append fs.root_dir (over ∷ []) q ∙ (ap (λ t. visit t q) lone ∙ visit-null q) in
    absurd (cc)
