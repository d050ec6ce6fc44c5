-- ===== src/Directory/Place.antt =====
-- directory_cache.h: pointers to entries of the tree in memory.
use cs.Prelude.{Bool, ℕ, zero, suc, ap, ◌≡◌, refl, ◌∙◌, false, List, [], ◌∷◌, ◌++◌}
use cs.FileSystem.{DirectoryEntry, null, entry}
use cs.Directory.{is_null, children_of}

-- The two links of an entry, and the links that lead to an entry from the root.
pub data Turn : Type 0 where
  down over : Turn

abbrev pub Place : Type 0
Place = List Turn

-- The entry at a place, with its siblings behind it.
abbrev pub visit : DirectoryEntry → Place → DirectoryEntry
visit dir [] = dir
visit null (t ∷ p) = null
visit (entry i name d kids next) (down ∷ p) = visit kids p
visit (entry i name d kids next) (over ∷ p) = visit next p

-- The tree with the entry at a place, and its siblings behind it, overwritten.
abbrev pub put_at : DirectoryEntry → Place → DirectoryEntry → DirectoryEntry
put_at dir [] new = new
put_at null (t ∷ p) new = null
put_at (entry i name d kids next) (down ∷ p) new = entry i name d (put_at kids p new) next
put_at (entry i name d kids next) (over ∷ p) new = entry i name d kids (put_at next p new)

pub visit-append : (dir : DirectoryEntry) (p q : Place) → visit dir (p ++ q) ≡ visit (visit dir p) q
visit-append dir [] q = refl
visit-append null (t ∷ p) [] = refl
visit-append null (t ∷ p) (u ∷ q) = refl
visit-append (entry i name d kids next) (down ∷ p) q = visit-append kids p q
visit-append (entry i name d kids next) (over ∷ p) q = visit-append next p q

-- What was put at a place of the tree stands there.
pub visit-put_at :
    (dir new : DirectoryEntry) (p : Place)
    → is_null (visit dir p) ≡ false
    → visit (put_at dir p new) p ≡ new
visit-put_at dir new [] h = refl
visit-put_at null new (t ∷ p) h = absurd (cc)
visit-put_at (entry i name d kids next) new (down ∷ p) h = visit-put_at kids new p h
visit-put_at (entry i name d kids next) new (over ∷ p) h = visit-put_at next new p h

-- The first child of an entry of the tree.
pub visit-down :
    (dir : DirectoryEntry) (p : Place) → visit dir (p ++ (down ∷ [])) ≡ children_of (visit dir p)
visit-down dir p = visit-append dir p (down ∷ []) ∙ first (visit dir p)
  where
    first : (node : DirectoryEntry) → visit node (down ∷ []) ≡ children_of node
    first null = refl
    first (entry i name d kids next) = refl

-- A tree with an entry in it has a root.
pub visit_root :
    (dir : DirectoryEntry) (p : Place) → is_null (visit dir p) ≡ false → is_null dir ≡ false
visit_root dir [] h = h
visit_root null (t ∷ p) h = h
visit_root (entry i name d kids next) (t ∷ p) h = refl

module _ (dir : DirectoryEntry) (p : Place) {i : ℕ} {name : List ℕ} {d : Bool}
    {kids next : DirectoryEntry} (here : visit dir p ≡ entry i name d kids next) where
  pub visit_first : visit dir (p ++ (down ∷ [])) ≡ kids
  visit_first = visit-append dir p (down ∷ []) ∙ ap (λ t. visit t (down ∷ [])) here

  pub visit_behind : visit dir (p ++ (over ∷ [])) ≡ next
  visit_behind = visit-append dir p (over ∷ []) ∙ ap (λ t. visit t (over ∷ [])) here

-- The links to the sibling that is `k` entries further on.
abbrev pub overs : ℕ → Place
overs zero = []
overs (suc k) = over ∷ overs k

pub visit_below :
    (dir : DirectoryEntry) (p : Place) → visit dir (down ∷ p) ≡ visit (children_of dir) p
visit_below null [] = refl
visit_below null (t ∷ p) = refl
visit_below (entry i name d kids next) p = refl

pub visit-null : (p : Place) → visit null p ≡ null
visit-null [] = refl
visit-null (t ∷ p) = refl
