-- ===== src/Dma/Combine/Walk.antt =====
-- `combineAccessPatterns` puts the walks of two patterns behind one another.
use mathlib.Core.Path.{ap₂, fun_ext}
use iree_amd_aie.Prelude.{
  ℕ, suc, ◌<◌, ◌≡◌, refl, ap, ◌∙◌, Bool, false, [], ◌∷◌, ◌++◌, arith, length, map,
}
use iree_amd_aie.Prelude.Int.{ℤ, ◌+ℤ◌, ◌*ℤ◌, neg_part}
use iree_amd_aie.Dma.Pattern.{
  OpFoldResult, attr, constant, value, Pattern, Result, ok, failure, fault, Ensures, Ensures_at,
  Ensures-if, Ensures-bind, Env, eval,
}
use iree_amd_aie.Dma.Walk.{base, sweep, walk}
use iree_amd_aie.Dma.Units.{fold_unit_dims}
use iree_amd_aie.Dma.Units.Match.{AreNonneg}
use iree_amd_aie.Dma.Units.Fold.{fold_unit_dims-walk}
use iree_amd_aie.Dma.Combine.{simplified, simplify, try_fold, combine_access_patterns}
use iree_amd_aie.Dma.Combine.Merge.{Joins, merge_in_first-Joins}

eval-simplified : (ρ : Env) (a : OpFoldResult) → eval ρ (simplified a) ≡ eval ρ a
eval-simplified ρ (attr c) = refl
eval-simplified ρ (constant v c) = refl
eval-simplified ρ (value v) = refl

base-simplify : (ρ : Env) (p : Pattern) → base ρ (map simplify p) ≡ base ρ p
base-simplify ρ [] = refl
base-simplify ρ (d ∷ p) =
    ap₂ ◌+ℤ◌ (ap₂ ◌*ℤ◌ (eval-simplified ρ d.offset) (eval-simplified ρ d.stride))
      (base-simplify ρ p)

sweep-simplify : (ρ : Env) (p : Pattern) (b : ℤ) → sweep ρ (map simplify p) b ≡ sweep ρ p b
sweep-simplify ρ [] b = refl
sweep-simplify ρ (d ∷ p) b =
    rw (eval-simplified ρ d.size, eval-simplified ρ d.stride, fun_ext (sweep-simplify ρ p))

walk-simplify : (ρ : Env) (p : Pattern) → walk ρ (map simplify p) ≡ walk ρ p
walk-simplify ρ p = rw (base-simplify ρ p) (sweep-simplify ρ p (base ρ p))

AreNonneg-simplify : (ρ : Env) (p : Pattern) → AreNonneg ρ p → AreNonneg ρ (map simplify p)
AreNonneg-simplify ρ [] n = tt
AreNonneg-simplify ρ (d ∷ p) n =
    (ap neg_part (eval-simplified ρ d.size) ∙ n.0, AreNonneg-simplify ρ p n.1)

length-simplify : (p : Pattern) → length (map simplify p) ≡ length p
length-simplify [] = refl
length-simplify (d ∷ p) = ap suc (length-simplify p)

-- The fold that may fail keeps the walk.
try_fold-walk :
    (ρ : Env) (p : Pattern) → Ensures (λ q. walk ρ q ≡ walk ρ p) (try_fold p (fold_unit_dims p))
unfolding try_fold
try_fold-walk ρ p = cases (fold_unit_dims p) refl
  where
    cases :
        (r : Result Pattern)
        → fold_unit_dims p ≡ r
        → Ensures (λ q. walk ρ q ≡ walk ρ p) (try_fold p r)
    cases (ok q) e = (fold_unit_dims-walk p q e).1 ρ
    cases failure e = refl
    cases fault e = tt

abbrev Combined : (ℕ → Bool) → Env → Pattern → Pattern → Pattern → Type 0
Combined exceeds ρ a b q = (walk ρ q ≡ walk ρ a ++ walk ρ b) × (exceeds (length q) ≡ false)

-- When combineAccessPatterns succeeds on two patterns with no negative size, of which the first has
-- a dimension, the new pattern visits the addresses of the first and then those of the second, in
-- their order, and has no more dimensions than the caller's test admits.
pub combine_access_patterns-walk :
    (exceeds_nb_dims : ℕ → Bool) (a b c : Pattern) (ρ : Env)
    → 0 < length a
    → AreNonneg ρ a
    → AreNonneg ρ b
    → combine_access_patterns exceeds_nb_dims a b ≡ ok c
    → (walk ρ c ≡ walk ρ a ++ walk ρ b) × (exceeds_nb_dims (length c) ≡ false)
unfolding combine_access_patterns
combine_access_patterns-walk exceeds a b c ρ r na nb h =
    Ensures_at (Combined exceeds ρ a b) _ c whole h
  where
    whole : Ensures (Combined exceeds ρ a b) (combine_access_patterns exceeds a b)
    whole =
        Ensures-bind (Joins ρ (map simplify a) (map simplify b)) (Combined exceeds ρ a b) _ _
          (merge_in_first-Joins ρ (map simplify a) (map simplify b)
            (omega (arith, length-simplify a)) (AreNonneg-simplify ρ a na)
            (AreNonneg-simplify ρ b nb))
          λ m j.
            Ensures-bind (λ q. walk ρ q ≡ walk ρ m) (Combined exceeds ρ a b) _ _ (try_fold-walk ρ m)
              λ q k.
                Ensures-if (Combined exceeds ρ a b) (exceeds (length q)) _ _ (λ _. tt)
                  λ e. (k ∙ j ∙ ap₂ ◌++◌ (walk-simplify ρ a) (walk-simplify ρ b), e)
