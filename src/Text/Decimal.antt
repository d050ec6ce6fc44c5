-- ===== src/Text/Decimal.antt =====
-- directory_cache.c: the inode numbers of a directory, printed by "%d" and read by atoi.
use cs.Prelude.{
  ℕ, zero, suc, ◌+◌, ◌-◌, ◌*◌, ◌/◌, ◌%◌, ◌≤◌, ◌<◌, ◌≡◌, refl, ap, sym, ◌∙◌, subst, true, false,
  List, [], ◌∷◌, ◌++◌, append_assoc, append-nil, arith, ℤ, pos, negsuc, IsInt, ◌==◌, if◌then◌else◌,
  Bool-cases, inl, inr,
}
use cs.Text.{is_digit, digits_value, atoi, decimal_digits, decimal}

abbrev pub tens : ℕ → ℕ
tens zero = 1
tens (suc n) = 10 * tens n

-- One digit more.
digits_value-digit :
    (n : ℕ) (rest : List ℕ) → digits_value (n / 10) ((48 + n % 10) ∷ rest) ≡ digits_value n rest
unfolding digits_value
digits_value-digit n rest =
    let digit : is_digit (48 + n % 10) ≡ true = ground arith in
    let value : n / 10 * 10 + (48 + n % 10 - 48) ≡ n = omega arith in
    rw digit (ap (λ v. digits_value v rest) value)

-- Digits in front of a text are read as their number.
pub digits_value-decimal_digits :
    (fuel n : ℕ) (rest : List ℕ)
    → n < tens fuel
    → digits_value 0 (decimal_digits fuel n ++ rest) ≡ digits_value n rest
unfolding decimal_digits
digits_value-decimal_digits zero n rest h = let e : n ≡ 0 = omega arith in rw e
digits_value-decimal_digits (suc fuel) n rest h = elim (Bool-cases (n / 10 == 0)) [
  | inl e ↦
      let none_left : 0 ≡ n / 10 = ground arith in
      rw (decimal_digits, e)
        (ap (λ v. digits_value v ((48 + n % 10) ∷ rest)) none_left ∙ digits_value-digit n rest)
  | inr e ↦
      rw (decimal_digits, e, append_assoc (decimal_digits fuel (n / 10)) ((48 + n % 10) ∷ []) rest)
        (digits_value-decimal_digits fuel (n / 10) ((48 + n % 10) ∷ rest) (omega arith)
          ∙ digits_value-digit n rest)
]

-- Every byte of a list passes a test.
abbrev pub All : (ℕ → Type 0) → List ℕ → Type 0
All P [] = Unit
All P (c ∷ cs) = P c × All P cs

pub All-append : (P : ℕ → Type 0) (xs ys : List ℕ) → All P xs → All P ys → All P (xs ++ ys)
All-append P [] ys p q = q
All-append P (x ∷ xs) ys p q = (p.0, All-append P xs ys p.1 q)

-- The digits are digits, and there is a first one.
abbrev pub IsDigit : ℕ → Type 0
IsDigit c = (48 ≤ c) × (c < 58)

pub decimal_digits-All : (fuel n : ℕ) → All IsDigit (decimal_digits fuel n)
unfolding decimal_digits
decimal_digits-All zero n = tt
decimal_digits-All (suc fuel) n = elim (Bool-cases (n / 10 == 0)) [
  | inl e ↦ rw (decimal_digits, e) (((omega arith, omega arith), tt))
  | inr e ↦
      rw (decimal_digits, e)
        (All-append IsDigit (decimal_digits fuel (n / 10)) ((48 + n % 10) ∷ [])
          (decimal_digits-All fuel (n / 10)) ((omega arith, omega arith), tt))
]

first_of : (xs : List ℕ) (y : ℕ) → (d : ℕ) × (ds : List ℕ) × (xs ++ (y ∷ []) ≡ d ∷ ds)
first_of [] y = (y, [], refl)
first_of (x ∷ xs) y = (x, xs ++ (y ∷ []), refl)

pub decimal_digits-cons :
    (fuel n : ℕ) → (d : ℕ) × (ds : List ℕ) × (decimal_digits (suc fuel) n ≡ d ∷ ds)
unfolding decimal_digits
decimal_digits-cons fuel n =
    first_of (if n / 10 == 0 then [] else decimal_digits fuel (n / 10)) (48 + n % 10)

-- The ten digits of an `int` are its value.
ten_digits : (n : ℕ) → n < tens 10 → digits_value 0 (decimal_digits 10 n) ≡ n
unfolding digits_value
ten_digits n h =
    ap (digits_value 0) (sym (append-nil (decimal_digits 10 n)))
    ∙ digits_value-decimal_digits 10 n [] h

atoi-digits : (n : ℕ) → n < tens 10 → atoi (decimal_digits 10 n) ≡ pos n
unfolding atoi
atoi-digits n h =
    let (d, ds, e) = decimal_digits-cons 9 n in
    let (low, high) = (subst (All IsDigit) e (decimal_digits-All 10 n)).0 in
    let minus : (d == 45) ≡ false = ground arith in
    let plus : (d == 43) ≡ false = ground arith in
    let value : digits_value 0 (d ∷ ds) ≡ n = ap (digits_value 0) (sym e) ∙ ten_digits n h in
    ap atoi e ∙ rw (atoi, minus, plus) (ap pos value)

-- Atoi reads back the number that "%d" printed, for every int.
pub atoi-decimal : (z : ℤ) → IsInt z → atoi (decimal z) ≡ z
unfolding decimal atoi
atoi-decimal (pos n) h = atoi-digits n (omega arith)
atoi-decimal (negsuc n) h =
    ap (λ (v : ℕ). elim v as (λ x. ℤ) [ zero ↦ pos 0 | suc m ↦ negsuc m ])
      (ten_digits (suc n) (omega arith))
