-- ===== src/Text/Words.antt =====
-- filesystem.c and directory_cache.c: breakWords and countOccurrences on the lines of a directory.
use cs.Prelude.{
  ℕ, ◌+◌, ◌<◌, ◌≡◌, refl, ap, sym, ◌∙◌, true, false, List, [], ◌∷◌, ◌++◌, append_assoc, append-nil,
  arith, length, pos, ◌==◌,
}
use cs.Text.{count_occurrences, is_delim, emit, tokens_from, tokens, decimal, decimal_digits}
use cs.Text.Decimal.{All, IsDigit, decimal_digits-All, decimal_digits-cons}

-- The characters between which getChildren breaks: newline, blank and bar.
abbrev pub line_delimiters : List ℕ
line_delimiters = 10 ∷ 32 ∷ 124 ∷ []

-- A byte that may stand in a name: no zero byte and no delimiter.
abbrev pub IsPlain : ℕ → Type 0
IsPlain c = (0 < c) × (is_delim line_delimiters c ≡ false) × ((c == 124) ≡ false)

-- A name and an inode number.
abbrev pub Line : Type 0
Line = List ℕ × ℕ

-- The names are plain, and none is empty.
abbrev pub ArePlain : List Line → Type 0
ArePlain [] = Unit
ArePlain (e ∷ es) = ((0 < length e.0) × All IsPlain e.0) × ArePlain es

-- The text that writeDirectory makes, and the words in it.
abbrev pub lines : List Line → List ℕ
lines [] = []
lines (e ∷ es) = e.0 ++ (124 ∷ (decimal (pos e.1) ++ (10 ∷ lines es)))

abbrev pub words : List Line → List (List ℕ)
words [] = []
words (e ∷ es) = e.0 ∷ decimal (pos e.1) ∷ words es

-- A word up to a delimiter.
tokens_from-word :
    (w run : List ℕ) (d : ℕ) (rest : List ℕ)
    → All IsPlain w
    → is_delim line_delimiters d ≡ true
    → tokens_from line_delimiters run (w ++ (d ∷ rest))
      ≡ emit (run ++ w) (tokens_from line_delimiters [] rest)
unfolding tokens_from
tokens_from-word [] run d rest p e =
    rw (tokens_from, e)
      (ap (λ r. emit r (tokens_from line_delimiters [] rest)) (sym (append-nil run)))
tokens_from-word (c ∷ w) run d rest p e =
    rw (tokens_from, p.0.1)
      (tokens_from-word w (run ++ (c ∷ [])) d rest p.1 e
        ∙ ap (λ r. emit r (tokens_from line_delimiters [] rest)) (append_assoc run (c ∷ []) w))

All-digits : (w : List ℕ) → All IsDigit w → All IsPlain w
unfolding is_delim
All-digits [] h = tt
All-digits (c ∷ w) h =
    ((omega (arith, h.0), ground (arith, h.0), ground (arith, h.0)), All-digits w h.1)

emit-word : (w : List ℕ) (rest : List (List ℕ)) → 0 < length w → emit w rest ≡ w ∷ rest
emit-word [] rest h = absurd (omega arith)
emit-word (c ∷ w) rest h = refl

pub decimal-IsPlain : (n : ℕ) → (0 < length (decimal (pos n))) × All IsPlain (decimal (pos n))
unfolding decimal
decimal-IsPlain n =
    let (d, ds, e) = decimal_digits-cons 9 n in
    (rw e (omega arith), All-digits (decimal_digits 10 n) (decimal_digits-All 10 n))

bar : is_delim line_delimiters 124 ≡ true
unfolding is_delim
bar = refl

newline : is_delim line_delimiters 10 ≡ true
unfolding is_delim
newline = refl

-- Strtok breaks the lines of plain names and numbers into the names and the numbers, in their
-- order.
pub tokens-lines : (es : List Line) → ArePlain es → tokens line_delimiters (lines es) ≡ words es
unfolding tokens tokens_from
tokens-lines [] h = refl
tokens-lines (e ∷ es) h =
    let (some_digit, plain) = decimal-IsPlain e.1 in
    tokens_from-word e.0 [] 124 (decimal (pos e.1) ++ (10 ∷ lines es)) h.0.1 bar
    ∙ emit-word e.0 _ h.0.0
    ∙ ap (λ t. e.0 ∷ t)
        (tokens_from-word (decimal (pos e.1)) [] 10 (lines es) plain newline
          ∙ emit-word (decimal (pos e.1)) _ some_digit
          ∙ ap (λ t. decimal (pos e.1) ∷ t) (tokens-lines es h.1))

count-append :
    (xs ys : List ℕ) (c : ℕ)
    → count_occurrences (xs ++ ys) c ≡ count_occurrences xs c + count_occurrences ys c
unfolding count_occurrences
count-append [] ys c = omega arith
count-append (x ∷ xs) ys c = omega (arith, count-append xs ys c)

count-plain : (w : List ℕ) → All IsPlain w → count_occurrences w 124 ≡ 0
unfolding count_occurrences
count-plain [] h = refl
count-plain (c ∷ w) h = rw (h.0.2, count-plain w h.1)

-- There is a bar for each line.
pub count_occurrences-lines :
    (es : List Line) → ArePlain es → count_occurrences (lines es) 124 ≡ length es
unfolding count_occurrences
count_occurrences-lines [] h = refl
count_occurrences-lines (e ∷ es) h =
    let number = decimal (pos e.1) in
    omega (
      arith,
      count-append e.0 (124 ∷ (number ++ (10 ∷ lines es))) 124,
      count-append number (10 ∷ lines es) 124,
      count-plain e.0 h.0.1,
      count-plain number (decimal-IsPlain e.1).1,
      count_occurrences-lines es h.1,
    )
