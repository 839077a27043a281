-- ===== src/Prelude/IntRing.antt =====
-- Products of signed integers, and the truncating division of C++.
use mathlib.Core.Path.{ap₂}
use mathlib.Core.Bool.{xor}
use iree_amd_aie.Prelude.{
  ℕ, zero, suc, ◌+◌, ◌*◌, ◌/◌, ◌≡◌, ◌≢◌, refl, sym, ◌∙◌, ap, Bool, true, false, arith, ltb, ◌==◌,
  ◌&&◌, if◌then◌else◌, Bool-cases, inl, inr,
}
use iree_amd_aie.Prelude.Int.{
  ℤ, pos, negsuc, pos_part, neg_part, ◌+ℤ◌, ◌-ℤ◌, ◌*ℤ◌, +ℤ_parts, int_laws,
}

pub *ℤ_parts :
    (a b : ℤ)
    → pos_part (a *ℤ b) + (pos_part a * neg_part b + neg_part a * pos_part b)
      ≡ neg_part (a *ℤ b) + (pos_part a * pos_part b + neg_part a * neg_part b)
unfolding ◌*ℤ◌
*ℤ_parts a b = ground arith

pub *ℤ_comm : (a b : ℤ) → a *ℤ b ≡ b *ℤ a
*ℤ_comm a b = omega (int_laws, *ℤ_parts a b, *ℤ_parts b a)

pub *ℤ_zero : (a : ℤ) → a *ℤ pos 0 ≡ pos 0
*ℤ_zero a = omega (int_laws, *ℤ_parts a (pos 0))

pub *ℤ_one : (a : ℤ) → a *ℤ pos 1 ≡ a
*ℤ_one a = omega (int_laws, *ℤ_parts a (pos 1))

pub *ℤ_add : (a b c : ℤ) → a *ℤ (b +ℤ c) ≡ a *ℤ b +ℤ a *ℤ c
*ℤ_add a b c = omega (
  int_laws,
  *ℤ_parts a (b +ℤ c),
  *ℤ_parts a b,
  *ℤ_parts a c,
  ap (λ t. pos_part a * t) (+ℤ_parts b c),
  ap (λ t. neg_part a * t) (+ℤ_parts b c),
)

pub *ℤ_assoc : (a b c : ℤ) → a *ℤ b *ℤ c ≡ a *ℤ (b *ℤ c)
*ℤ_assoc a b c = omega (
  int_laws,
  *ℤ_parts (a *ℤ b) c,
  *ℤ_parts a (b *ℤ c),
  ap (λ t. t * pos_part c) (*ℤ_parts a b),
  ap (λ t. t * neg_part c) (*ℤ_parts a b),
  ap (λ t. pos_part a * t) (*ℤ_parts b c),
  ap (λ t. neg_part a * t) (*ℤ_parts b c),
)

pub add-*ℤ : (a b c : ℤ) → (a +ℤ b) *ℤ c ≡ a *ℤ c +ℤ b *ℤ c
add-*ℤ a b c = *ℤ_comm (a +ℤ b) c ∙ *ℤ_add c a b ∙ ap₂ ◌+ℤ◌ (*ℤ_comm c a) (*ℤ_comm c b)

-- The equality test of `int64_t`.
unfoldable pub eqb_ℤ : ℤ → ℤ → Bool
eqb_ℤ a b = (pos_part a == pos_part b) && (neg_part a == neg_part b)

pub eqb_ℤ-eq : (a b : ℤ) → eqb_ℤ a b ≡ true → a ≡ b
unfolding eqb_ℤ
eqb_ℤ-eq a b h = ground arith

pub eqb_ℤ-refl : (a : ℤ) → eqb_ℤ a a ≡ true
unfolding eqb_ℤ
eqb_ℤ-refl a = ground arith

pub eqb_ℤ-ne : (a b : ℤ) → a ≢ b → eqb_ℤ a b ≡ false
eqb_ℤ-ne a b h = elim (Bool-cases (eqb_ℤ a b)) [ inl e ↦ absurd (h (eqb_ℤ-eq a b e)) | inr e ↦ e ]

unfoldable pub abs_ℕ : ℤ → ℕ
abs_ℕ a = pos_part a + neg_part a

-- `/` rounds towards zero.
unfoldable pub div_ℤ : ℤ → ℤ → ℤ
unfolding abs_ℕ ◌-ℤ◌ xor
div_ℤ a b =
    let q = pos (abs_ℕ a / abs_ℕ b) in
    if xor (ltb 0 (neg_part a)) (ltb 0 (neg_part b)) then pos 0 -ℤ q else q

-- `%` goes with it: `(a / b) * b + a % b` is `a`.
unfoldable pub mod_ℤ : ℤ → ℤ → ℤ
unfolding div_ℤ ◌-ℤ◌ ◌*ℤ◌
mod_ℤ a b = a -ℤ div_ℤ a b *ℤ b

mod_ℤ_lem : (a b : ℤ) → mod_ℤ a b ≡ a -ℤ div_ℤ a b *ℤ b
unfolding mod_ℤ
mod_ℤ_lem a b = refl

eq_of_sub_zero : (a b : ℤ) → a -ℤ b ≡ pos 0 → b ≡ a
eq_of_sub_zero a b h = omega (int_laws, ap pos_part h, ap neg_part h)

pub div-mul : (a b : ℤ) → mod_ℤ a b ≡ pos 0 → div_ℤ a b *ℤ b ≡ a
div-mul a b h = eq_of_sub_zero a (div_ℤ a b *ℤ b) (sym (mod_ℤ_lem a b) ∙ h)

mul-div_cancel : (m k : ℕ) → m * suc k / suc k ≡ m
mul-div_cancel m k = grind arith

-- A product divided by one of its factors.
pub mul-div : (a b : ℤ) → b ≢ pos 0 → div_ℤ (a *ℤ b) b ≡ a
unfolding div_ℤ ◌*ℤ◌
mul-div (pos m) (pos zero) h = absurd (h refl)
mul-div (pos m) (pos (suc k)) h = ground (arith, mul-div_cancel m k)
mul-div (pos zero) (negsuc k) h = ground (arith, mul-div_cancel 0 k)
mul-div (pos (suc m)) (negsuc k) h = ground (arith, mul-div_cancel (suc m) k)
mul-div (negsuc m) (pos zero) h = absurd (h refl)
mul-div (negsuc m) (pos (suc k)) h = ground (arith, mul-div_cancel (suc m) k)
mul-div (negsuc m) (negsuc k) h = ground (arith, mul-div_cancel (suc m) k)

division_runs :
    (div_ℤ (negsuc 6) (pos 2) ≡ negsuc 2)
    × (mod_ℤ (negsuc 6) (pos 2) ≡ negsuc 0)
    × (mod_ℤ (pos 7) (negsuc 1) ≡ pos 1)
unfolding div_ℤ mod_ℤ
division_runs = (refl, refl, refl)
