-- ===== src/Text.antt =====
-- The C library's text functions that the directories use, over strings as lists of bytes, and
-- breakWords of filesystem.c.
pub mod Decimal
pub mod Words
use cs.Prelude.{
  ℕ, zero, suc, ◌+◌, ◌-◌, ◌*◌, ◌/◌, ◌%◌, Bool, false, ◌&&◌, ◌||◌, Option, none, some, List, [], ◌∷◌,
  ◌++◌, leb, ◌==◌, if◌then◌else◌, ℤ, pos, negsuc,
}

-- The bytes before the first zero byte; none if there is no zero byte.
unfoldable pub c_string : List ℕ → Option (List ℕ)
c_string [] = none
c_string (c ∷ cs) =
    if c == 0 then some [] else elim (c_string cs) [ none ↦ none | some s ↦ some (c ∷ s) ]

-- `countOccurrences` over the `bsize` bytes of the buffer.
unfoldable pub count_occurrences : List ℕ → ℕ → ℕ
count_occurrences [] c = 0
count_occurrences (b ∷ buf) c = (if b == c then 1 else 0) + count_occurrences buf c

-- Whether a byte is one of the delimiters.
unfoldable pub is_delim : List ℕ → ℕ → Bool
is_delim [] c = false
is_delim (d ∷ ds) c = (c == d) || is_delim ds c

-- `strtok`: the tokens of a string, the longest runs without a delimiter; the second argument is the
-- run read so far.
abbrev pub emit : List ℕ → List (List ℕ) → List (List ℕ)
emit [] rest = rest
emit (r ∷ run) rest = (r ∷ run) ∷ rest

unfoldable pub tokens_from : List ℕ → List ℕ → List ℕ → List (List ℕ)
unfolding is_delim
tokens_from delim run [] = emit run []
tokens_from delim run (c ∷ cs) =
    let next = tokens_from delim [] cs in
    let more = tokens_from delim (run ++ (c ∷ [])) cs in
    if is_delim delim c then emit run next else more

unfoldable pub tokens : List ℕ → List ℕ → List (List ℕ)
unfolding tokens_from
tokens delim s = tokens_from delim [] s

-- The loop of `breakWords`: `max_words` slots, each the next word or NULL.
unfoldable pub fill_words : ℕ → List (List ℕ) → List (Option (List ℕ))
fill_words zero words = []
fill_words (suc n) [] = none ∷ fill_words n []
fill_words (suc n) (w ∷ words) = some w ∷ fill_words n words

abbrev pub count_words : List (Option (List ℕ)) → ℕ
count_words [] = 0
count_words (none ∷ out) = count_words out
count_words (some w ∷ out) = suc (count_words out)

-- `breakWords`: the number of words, and the array.
unfoldable pub break_words : List ℕ → ℕ → List ℕ → ℕ × List (Option (List ℕ))
unfolding fill_words tokens
break_words s max_words delim =
    let out = fill_words max_words (tokens delim s) in (count_words out, out)

abbrev pub is_digit : ℕ → Bool
is_digit c = leb b'0' c && leb c b'9'

-- The digits in front of a string, as a number.
unfoldable pub digits_value : ℕ → List ℕ → ℕ
digits_value acc [] = acc
digits_value acc (c ∷ cs) = if is_digit c then digits_value (acc * 10 + (c - b'0')) cs else acc

-- `atoi` of a string that does not begin with white space.
unfoldable pub atoi : List ℕ → ℤ
unfolding digits_value
atoi [] = pos 0
atoi (c ∷ cs) =
    if c == b'-'
    then (elim (digits_value 0 cs) [ zero ↦ pos 0 | suc n ↦ negsuc n ])
    else (if c == b'+' then pos (digits_value 0 cs) else pos (digits_value 0 (c ∷ cs)))

-- `%d` of a number that is not negative. The fuel is a bound of the number of digits.
unfoldable pub decimal_digits : ℕ → ℕ → List ℕ
decimal_digits zero n = []
decimal_digits (suc fuel) n =
    let front = decimal_digits fuel (n / 10) in
    (if n / 10 == 0 then [] else front) ++ ((b'0' + n % 10) ∷ [])

unfoldable pub decimal : ℤ → List ℕ
unfolding decimal_digits
decimal (pos n) = decimal_digits 10 n
decimal (negsuc n) = b'-' ∷ decimal_digits 10 (suc n)
