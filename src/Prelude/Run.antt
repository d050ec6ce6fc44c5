-- ===== src/Prelude/Run.antt =====
-- What a call of C code ends in: a value, or a fault, which is an assertion that fails or an
-- access outside the memory that was allocated.
use mathlib.Core.Path.{◌≡◌, refl}
use mathlib.Core.Bool.{Bool, true, false}

pub data Run {ℓ} (A : Type ℓ) : Type ℓ where
  ok : A → Run A
  fault : Run A

infixl 5 ◌>>=◌ ◌>>◌
abbrev pub ◌>>=◌ {ℓ κ} : {V : Type ℓ} {W : Type κ} → Run V → (V → Run W) → Run W
fault >>= next = fault
ok v >>= next = next v

abbrev pub ◌>>◌ {κ} : {W : Type κ} → Run (Unit {0}) → Run W → Run W
check >> rest = check >>= λ done. rest

-- `assert`
abbrev pub assert : Bool → Run (Unit {0})
assert true = ok tt
assert false = fault

-- A call that ends behind an assertion is the call without it.
pub assert-ok {ℓ} : {A : Type ℓ} (c : Bool) (m : Run A) {v : A} → (assert c >> m) ≡ ok v → m ≡ ok v
assert-ok true m e = e
assert-ok false m e = absurd (cc)

-- Two calls that go on alike from where a third one ends.
pub >>=-ext {ℓ κ} :
    {V : Type ℓ} {W : Type κ} (m : Run V) (k k' : V → Run W)
    → ((v : V) → m ≡ ok v → k v ≡ k' v)
    → (m >>= k) ≡ (m >>= k')
>>=-ext fault k k' f = refl
>>=-ext (ok v) k k' f = f v refl
