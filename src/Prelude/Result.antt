-- ===== src/Prelude/Result.antt =====
-- The results of the calls of the source.
use mathlib.Core.Path.{subst}
use iree_amd_aie.Prelude.{◌≡◌, refl, Bool, true, false, if◌then◌else◌}

-- A call returns, reports `failure()`, or runs into undefined behaviour.
pub data Result {ℓ} (A : Type ℓ) : Type ℓ where
  ok : A → Result A
  failure fault : Result A

infixl 5 ◌>>=◌
abbrev pub ◌>>=◌ {ℓ κ} : {A : Type ℓ} {B : Type κ} → Result A → (A → Result B) → Result B
ok a >>= f = f a
failure >>= f = failure
fault >>= f = fault

-- A returned value satisfies `P`.
abbrev pub Ensures {ℓ κ} : {A : Type ℓ} → (A → Type κ) → Result A → Type κ
Ensures P (ok a) = P a
Ensures P failure = Unit
Ensures P fault = Unit

pub Ensures-any {ℓ} : {A : Type ℓ} (r : Result A) → Ensures (λ a. Unit {0}) r
Ensures-any (ok a) = tt
Ensures-any failure = tt
Ensures-any fault = tt

module _ {ℓ κ} {A : Type ℓ} (P : A → Type κ) where
  pub Ensures_at : (r : Result A) (a : A) → Ensures P r → r ≡ ok a → P a
  Ensures_at (ok b) a h e = subst P (cc) h
  Ensures_at failure a h e = cc
  Ensures_at fault a h e = cc

  pub Ensures-map {κ'} :
      (Q : A → Type κ') (r : Result A) → Ensures P r → ((a : A) → P a → Q a) → Ensures Q r
  Ensures-map Q (ok a) h k = k a h
  Ensures-map Q failure h k = tt
  Ensures-map Q fault h k = tt

  pub Ensures-if :
      (b : Bool) (x y : Result A)
      → (b ≡ true → Ensures P x)
      → (b ≡ false → Ensures P y)
      → Ensures P (if b then x else y)
  Ensures-if true x y p q = p refl
  Ensures-if false x y p q = q refl

  pub Ensures-bind {ℓ' κ'} :
      {B : Type ℓ'} (Q : B → Type κ') (r : Result A) (f : A → Result B)
      → Ensures P r
      → ((a : A) → P a → Ensures Q (f a))
      → Ensures Q (r >>= f)
  Ensures-bind Q (ok a) f h k = k a h
  Ensures-bind Q failure f h k = tt
  Ensures-bind Q fault f h k = tt
