-- ===== src/Prelude/Sets.antt =====
-- Searches over lists of numbers, and finite sets of numbers as lists in insertion order.
use Prim.Native.Nat.{ℕ, ◌+◌, ◌<◌}
use mathlib.Core.Path.{◌≡◌, refl, subst}
use mathlib.Core.Logic.{inl, inr}
use mathlib.Core.Bool.{Bool, true, false, not, ◌&&◌, ◌||◌}
use mathlib.Core.List.{List, [], ◌∷◌, ◌++◌}
use mathlib.Core.Option.{Option, none, some}
use native.Mathlib.Omega.{arith}
use iree_amd_aie.Prelude.Tests.{==_iff, ◌==◌, if◌then◌else◌, Bool-cases}
use iree_amd_aie.Prelude.Lists.{All}

module _ {ℓ} {A : Type ℓ} where
  -- The first element that passes the test.
  abbrev pub find_if : (A → Bool) → List A → Option A
  find_if p [] = none
  find_if p (x ∷ xs) = if p x then some x else find_if p xs

  abbrev pub count_if : (A → Bool) → List A → ℕ
  count_if p [] = 0
  count_if p (x ∷ xs) = (if p x then 1 else 0) + count_if p xs

  abbrev pub all_of : (A → Bool) → List A → Bool
  all_of p [] = true
  all_of p (x ∷ xs) = p x && all_of p xs

  pub find_if-passes : (p : A → Bool) (xs : List A) (x : A) → find_if p xs ≡ some x → p x ≡ true
  find_if-passes p [] x h = cc
  find_if-passes p (y ∷ ys) x h = ground (arith, find_if-passes p ys x)

-- Membership in a set of numbers.
abbrev pub mem : ℕ → List ℕ → Bool
mem x [] = false
mem x (y ∷ ys) = (y == x) || mem x ys

abbrev pub remove : ℕ → List ℕ → List ℕ
remove x [] = []
remove x (y ∷ ys) = if y == x then remove x ys else y ∷ remove x ys

-- A new member goes to the end.
abbrev pub insert : ℕ → List ℕ → List ℕ
insert x ys = if mem x ys then ys else ys ++ (x ∷ [])

pub mem-append : (x : ℕ) (xs ys : List ℕ) → mem x (xs ++ ys) ≡ (mem x xs || mem x ys)
mem-append x [] ys = refl
mem-append x (y ∷ xs) ys = ground (arith, mem-append x xs ys)

pub mem-insert : (x y : ℕ) (ys : List ℕ) → mem x (insert y ys) ≡ ((y == x) || mem x ys)
mem-insert x y ys = ground (arith, mem-append x ys (y ∷ []))

pub mem-remove : (x y : ℕ) (ys : List ℕ) → mem x (remove y ys) ≡ (not (y == x) && mem x ys)
mem-remove x y [] = ground arith
mem-remove x y (z ∷ ys) = ground (arith, mem-remove x y ys)

pub find_if-mem : (p : ℕ → Bool) (xs : List ℕ) (x : ℕ) → find_if p xs ≡ some x → mem x xs ≡ true
find_if-mem p [] x h = cc
find_if-mem p (y ∷ ys) x h = ground (arith, find_if-mem p ys x)

pub find_if-none :
    (p : ℕ → Bool) (xs : List ℕ) (x : ℕ) → find_if p xs ≡ none → mem x xs ≡ true → p x ≡ false
find_if-none p [] x h m = cc
find_if-none p (y ∷ ys) x h m = ground (arith, find_if-none p ys x)

-- No number stands twice in the list.
abbrev pub Nodup : List ℕ → Type 0
Nodup [] = Unit
Nodup (x ∷ xs) = (mem x xs ≡ false) × Nodup xs

-- Every number is less than those behind it.
abbrev pub Ascending : List ℕ → Type 0
Ascending [] = Unit
Ascending (x ∷ xs) = All (λ y. x < y) xs × Ascending xs

pub mem-All {ℓ} : (P : ℕ → Type ℓ) (xs : List ℕ) (x : ℕ) → All P xs → mem x xs ≡ true → P x
mem-All P [] x a m = absurd (ground arith)
mem-All P (y ∷ ys) x a m = elim (Bool-cases (y == x)) [
  | inl e ↦ subst P ((==_iff y x).0 e) a.0
  | inr n ↦ mem-All P ys x a.1 (ground arith)
]
