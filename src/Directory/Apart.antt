-- ===== src/Directory/Apart.antt =====
-- directory_cache.h: pointers to entries are compared.
use cs.Prelude.{
  ◌≡◌, ◌≢◌, ◌∙◌, refl, sym, ap, Bool, true, false, ◌&&◌, [], ◌∷◌, ◌++◌, append-nil, append_assoc,
  Bool-cases, inl, inr,
}
use cs.Directory.Place.{Place, Turn, down, over}

abbrev pub same_turn : Turn → Turn → Bool
same_turn down down = true
same_turn over over = true
same_turn down over = false
same_turn over down = false

abbrev pub same_place : Place → Place → Bool
same_place [] [] = true
same_place [] (u ∷ q) = false
same_place (t ∷ p) [] = false
same_place (t ∷ p) (u ∷ q) = same_turn t u && same_place p q

pub same_place_refl : (p : Place) → same_place p p ≡ true
same_place_refl [] = refl
same_place_refl (down ∷ p) = same_place_refl p
same_place_refl (over ∷ p) = same_place_refl p

same_place-eq : (p q : Place) → same_place p q ≡ true → p ≡ q
same_place-eq [] [] h = refl
same_place-eq [] (u ∷ q) h = absurd (cc)
same_place-eq (t ∷ p) [] h = absurd (cc)
same_place-eq (down ∷ p) (down ∷ q) h = ap (λ r. down ∷ r) (same_place-eq p q h)
same_place-eq (over ∷ p) (over ∷ q) h = ap (λ r. over ∷ r) (same_place-eq p q h)
same_place-eq (down ∷ p) (over ∷ q) h = absurd (cc)
same_place-eq (over ∷ p) (down ∷ q) h = absurd (cc)

pub append_cancel : (p q r : Place) → p ++ q ≡ p ++ r → q ≡ r
append_cancel [] q r e = e
append_cancel (t ∷ p) q r e = append_cancel p q r (cc)

-- A place that does not lead on to another.
abbrev pub Aside : Place → Place → Type 0
Aside here seek = (r : Place) → here ++ r ≢ seek

pub Aside-on : (here seek : Place) (t : Turn) → Aside here seek → Aside (here ++ (t ∷ [])) seek
Aside-on here seek t a r e = a (t ∷ r) (sym (append_assoc here (t ∷ []) r) ∙ e)

pub Aside-same_place : (here seek : Place) → Aside here seek → same_place here seek ≡ false
Aside-same_place here seek a = elim (Bool-cases (same_place here seek)) [
  | inl same ↦ absurd (a [] (append-nil here ∙ same_place-eq here seek same))
  | inr apart ↦ apart
]

pub Aside-here : (here : Place) → Aside (here ++ (down ∷ [])) here
Aside-here here r e =
    let nothing : down ∷ r ≡ [] =
      append_cancel here (down ∷ r) []
        (sym (append_assoc here (down ∷ []) r) ∙ (e ∙ sym (append-nil here))) in
    absurd (cc)

pub Aside-over : (here r' : Place) → Aside (here ++ (down ∷ [])) (here ++ (over ∷ r'))
Aside-over here r' r e =
    let turned : down ∷ r ≡ over ∷ r' =
      append_cancel here (down ∷ r) (over ∷ r') (sym (append_assoc here (down ∷ []) r) ∙ e) in
    absurd (cc)
