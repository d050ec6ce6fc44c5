-- ===== src/BlockMap/Bools.antt =====
-- Lists of Booleans with false behind their end.
use cs.Prelude.{
  ℕ, zero, suc, ◌<◌, ◌≤◌, ◌≡◌, refl, ap₂, Bool, false, some, List, [], ◌∷◌, length, drop, get_elem?,
  get_or, set, arith, ◌==◌, if◌then◌else◌,
}

pub get_elem?-get_or :
    (bs : List Bool) (i : ℕ) → i < length bs → get_elem? bs i ≡ some (get_or bs i false)
get_elem?-get_or [] i h = absurd (omega arith)
get_elem?-get_or (x ∷ bs) zero h = refl
get_elem?-get_or (x ∷ bs) (suc i) h = get_elem?-get_or bs i (omega arith)

pub get_or_outside : (bs : List Bool) (i : ℕ) → length bs ≤ i → get_or bs i false ≡ false
get_or_outside [] i h = refl
get_or_outside (x ∷ bs) zero h = absurd (omega arith)
get_or_outside (x ∷ bs) (suc i) h = get_or_outside bs i (omega arith)

pub bools_ext :
    (xs ys : List Bool)
    → length xs ≡ length ys
    → ((j : ℕ) → j < length xs → get_or xs j false ≡ get_or ys j false)
    → xs ≡ ys
bools_ext [] [] len h = refl
bools_ext [] (y ∷ ys) len h = absurd (omega arith)
bools_ext (x ∷ xs) [] len h = absurd (omega arith)
bools_ext (x ∷ xs) (y ∷ ys) len h =
    ap₂ ◌∷◌ (h 0 (omega arith)) (bools_ext xs ys (omega arith) (λ j lt. h (suc j) (omega arith)))

pub get_or-set_if :
    (bs : List Bool) (i j : ℕ) (v : Bool)
    → i < length bs
    → get_or (set bs i v) j false ≡ (if i == j then v else get_or bs j false)
get_or-set_if [] i j v h = absurd (omega arith)
get_or-set_if (x ∷ bs) zero zero v h = ground arith
get_or-set_if (x ∷ bs) zero (suc j) v h = ground arith
get_or-set_if (x ∷ bs) (suc i) zero v h = ground arith
get_or-set_if (x ∷ bs) (suc i) (suc j) v h = ground (arith, get_or-set_if bs i j v (omega arith))

pub drop-length : (n : ℕ) (xs : List ℕ) → length xs ≡ n → drop n xs ≡ []
drop-length zero [] e = refl
drop-length zero (x ∷ xs) e = absurd (omega arith)
drop-length (suc n) [] e = refl
drop-length (suc n) (x ∷ xs) e = drop-length n xs (omega arith)
