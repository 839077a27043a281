-- ===== src/Dma/Units/Match.antt =====
-- `matchStridesOfUnitDims` keeps the walk.
use mathlib.Core.Path.{ap₂}
use iree_amd_aie.Prelude.{
  ◌≡◌, refl, sym, ◌∙◌, true, Option, none, some, List, [], ◌∷◌, arith, Option-cases, inl, inr, All,
}
use iree_amd_aie.Prelude.Int.{ℤ, pos, pos_part, neg_part, ◌+ℤ◌, ◌*ℤ◌}
use iree_amd_aie.Prelude.IntRing.{eqb_ℤ, eqb_ℤ-eq, mod_ℤ, div-mul}
use iree_amd_aie.Dma.Pattern.{
  OpFoldResult, Dim, Pattern, ok, get_constant_int_value, eq_ofr, Ensures, Ensures_at, Ensures-if,
  Ensures-bind, Env, eval, eval-constant,
}
use iree_amd_aie.Dma.Walk.{rounds, sweep, base, walk, SameSweep, walk_of, sweep-cons}
use iree_amd_aie.Dma.Units.{match_constants, is_size_one, match_stride, match_strides_of_unit_dims}

-- A dimension of constant size one runs its body once.
pub is_size_one-eval : (ρ : Env) (d : Dim) → is_size_one d ≡ true → eval ρ d.size ≡ pos 1
is_size_one-eval ρ d h = elim (Option-cases (get_constant_int_value d.size)) [
  | inl e ↦ ground (arith)
  | inr (n, e) ↦ eval-constant ρ d.size n e ∙ eqb_ℤ-eq n (pos 1) (ground arith)
]

-- Two dimensions add the same offset, and loop alike.
pub record SameDim (ρ : Env) (d e : Dim) : Type 0 where
  pub offsets : eval ρ d.offset *ℤ eval ρ d.stride ≡ eval ρ e.offset *ℤ eval ρ e.stride
  pub sizes : d.size ≡ e.size
  pub loops :
      (inner : ℤ → List ℤ) (b : ℤ)
      → rounds (pos_part (eval ρ d.size)) (eval ρ d.stride) inner b
        ≡ rounds (pos_part (eval ρ e.size)) (eval ρ e.stride) inner b

SameDim-refl : (ρ : Env) (d : Dim) → SameDim ρ d d
SameDim-refl ρ d = record { offsets = refl; sizes = refl; loops = λ inner b. refl }

-- Dimensions of size one differ only in what they add.
SameDim-of_one :
    (ρ : Env) (d e : Dim)
    → eval ρ d.size ≡ pos 1
    → d.size ≡ e.size
    → eval ρ d.offset *ℤ eval ρ d.stride ≡ eval ρ e.offset *ℤ eval ρ e.stride
    → SameDim ρ d e
SameDim-of_one ρ d e p q o = record { offsets = o; sizes = q; loops = λ inner b. rw (← q, p) }

match_constants-SameDim :
    (ρ : Env) (d : Dim) (y : OpFoldResult) (offset stride c : Option ℤ)
    → eval ρ d.size ≡ pos 1
    → offset ≡ get_constant_int_value d.offset
    → stride ≡ get_constant_int_value d.stride
    → c ≡ get_constant_int_value y
    → Ensures (SameDim ρ d) (match_constants d y offset stride c)
unfolding match_constants
match_constants-SameDim ρ d y none stride c n eo es ec = SameDim-refl ρ d
match_constants-SameDim ρ d y (some o) none c n eo es ec = SameDim-refl ρ d
match_constants-SameDim ρ d y (some o) (some s) none n eo es ec = SameDim-refl ρ d
match_constants-SameDim ρ d y (some o) (some s) (some c) n eo es ec =
    Ensures-if (SameDim ρ d) (eqb_ℤ c (pos 0)) _ _ (λ _. tt)
      λ _.
        Ensures-if (SameDim ρ d) (eqb_ℤ (mod_ℤ (o *ℤ s) c) (pos 0)) _ _
          (λ e. SameDim-of_one ρ d _ n refl (
            rw
              (
                eval-constant ρ d.offset o (sym eo),
                eval-constant ρ d.stride s (sym es),
                eval-constant ρ y c (sym ec),
              )
              (sym (div-mul (o *ℤ s) c (eqb_ℤ-eq _ _ e)))))
          (λ _. SameDim-refl ρ d)

match_stride-SameDim :
    (ρ : Env) (d : Dim) (y : OpFoldResult) → Ensures (SameDim ρ d) (match_stride d y)
unfolding match_stride
match_stride-SameDim ρ d y =
    Ensures-if (SameDim ρ d) (eq_ofr d.stride y) _ _ (λ _. SameDim-refl ρ d)
      λ _.
        Ensures-if (SameDim ρ d) (is_size_one d) _ _
          (λ e. match_constants-SameDim ρ d y _ _ _ (is_size_one-eval ρ d e) refl refl refl)
          (λ _. SameDim-refl ρ d)

-- The two patterns have one base and one sweep.
pub record SamePattern (ρ : Env) (p q : Pattern) : Type 0 where
  pub bases : base ρ p ≡ base ρ q
  pub sweeps : SameSweep ρ p q

pub SamePattern-walk : (ρ : Env) (p q : Pattern) → SamePattern ρ p q → walk ρ p ≡ walk ρ q
SamePattern-walk ρ p q s = walk_of ρ p q s.sweeps s.bases

pub SamePattern-cons :
    (ρ : Env) (d e : Dim) (p q : Pattern)
    → SameDim ρ d e
    → SamePattern ρ p q
    → SamePattern ρ (d ∷ p) (e ∷ q)
SamePattern-cons ρ d e p q s t = record {
  bases = ap₂ ◌+ℤ◌ s.offsets t.bases;
  sweeps = λ b. s.loops (sweep ρ p) b ∙ sweep-cons ρ e p q t.sweeps b;
}

-- No size is negative at run time.
abbrev pub AreNonneg : Env → Pattern → Type 0
AreNonneg ρ = All (λ d. neg_part (eval ρ d.size) ≡ 0)

-- What the loop leaves of a pattern.
abbrev pub Matched : Env → Pattern → Pattern → Type 0
Matched ρ p q = SamePattern ρ p q × (AreNonneg ρ p → AreNonneg ρ q)

pub match_strides-Matched :
    (ρ : Env) (p : Pattern) (ys : List OpFoldResult)
    → Ensures (Matched ρ p) (match_strides_of_unit_dims p ys)
unfolding match_strides_of_unit_dims
match_strides-Matched ρ [] ys = (record { bases = refl; sweeps = λ b. refl }, λ a. a)
match_strides-Matched ρ (d ∷ p) [] = tt
match_strides-Matched ρ (d ∷ p) (y ∷ ys) =
    Ensures-bind (SameDim ρ d) (Matched ρ (d ∷ p)) (match_stride d y) _ (match_stride-SameDim ρ d y)
      λ d' s.
        Ensures-bind (Matched ρ p) (Matched ρ (d ∷ p)) (match_strides_of_unit_dims p ys) _
          (match_strides-Matched ρ p ys)
          λ p' t. (SamePattern-cons ρ d d' p p' s t.0, λ a. (rw (← s.sizes) a.0, t.1 a.1))

-- When matchStridesOfUnitDims returns, the pattern visits the same addresses in the same order.
pub match_strides-walk :
    (p q : Pattern) (strides_y : List OpFoldResult)
    → match_strides_of_unit_dims p strides_y ≡ ok q
    → (ρ : Env) → walk ρ q ≡ walk ρ p
match_strides-walk p q ys h ρ =
    sym (SamePattern-walk ρ p q (Ensures_at (Matched ρ p) _ q (match_strides-Matched ρ p ys) h).0)
