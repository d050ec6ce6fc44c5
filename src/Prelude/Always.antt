-- ===== src/Prelude/Always.antt =====
-- Properties of whatever a call ends in, if it does not fault.
use mathlib.Core.Path.{◌≡◌, refl, subst}
use mathlib.Core.Option.{Option, none, some}
use mathlib.Core.Bool.{Bool, true, false}
use cs.Prelude.Tests.{if◌then◌else◌}
use cs.Prelude.Run.{Run, ok, fault, ◌>>=◌}

abbrev pub Always {ℓ} : {V : Type ℓ} → (V → Type 0) → Run V → Type ℓ
Always {V} P m = (v : V) → m ≡ ok v → P v

module _ {W : Type 0} (P : W → Type 0) where
  pub ok-Always : (w : W) → P w → Always P (ok w)
  ok-Always w p v e = subst P (let same : w ≡ v = cc in same) p

  pub >>=-Always :
      {V : Type 0} (m : Run V) (k : V → Run W)
      → ((q : V) → m ≡ ok q → Always P (k q))
      → Always P (m >>= k)
  >>=-Always fault k f v e = absurd (cc)
  >>=-Always (ok q) k f v e = f q refl v e

  pub if-Always : (c : Bool) (a b : Run W) → Always P a → Always P b → Always P (if c then a else b)
  if-Always true a b f g = f
  if-Always false a b f g = g

  pub option-Always :
      {V : Type 0} (o : Option V) (a : Run W) (k : V → Run W)
      → Always P a
      → ((v : V) → o ≡ some v → Always P (k v))
      → Always P (elim o [ none ↦ a | some v ↦ k v ])
  option-Always none a k f g v e = f v e
  option-Always (some q) a k f g v e = g q refl v e

  pub fault-Always : Always P fault
  fault-Always v e = absurd (cc)

  pub branch-Always :
      (c : Bool) (a b : Run W)
      → (c ≡ true → Always P a)
      → (c ≡ false → Always P b)
      → Always P (if c then a else b)
  branch-Always true a b f g = f refl
  branch-Always false a b f g = g refl
