-- ===== src/Dma/Linear/Expand.antt =====
-- `expandLargeDimIntoLinearDims` keeps the walk, and its inner loop ends.
use native.Mathlib.Nat.{div-add-mod, mod_self, div_self}
use mathlib.Core.Path.{subst}
use iree_amd_aie.Prelude.{
  ℕ, zero, suc, ◌*◌, ◌/◌, ◌≤◌, ◌<◌, ◌≡◌, refl, sym, ap, Bool, true, false, not, ◌||◌, Option, none,
  some, List, [], ◌∷◌, reverse, arith, leb, ◌==◌, Bool-cases, inl, inr, ◌≢◌, length, All,
  length-reverse, All-reverse,
}
use iree_amd_aie.Prelude.Int.{ℤ, pos, negsuc, ◌*ℤ◌, int_laws}
use iree_amd_aie.Prelude.IntRing.{*ℤ_comm, *ℤ_parts, abs_ℕ}
use iree_amd_aie.Dma.Pattern.{
  OpFoldResult, attr, Dim, Pattern, ok, fault, get_constant_int_value, Ensures, Ensures_at,
  Ensures-if, Ensures-map, Env, eval-constant,
}
use iree_amd_aie.Dma.Limits.{int64_max}
use iree_amd_aie.Dma.Walk.{walk}
use iree_amd_aie.Dma.Units.Match.{SamePattern, SamePattern-walk}
use iree_amd_aie.Dma.Linear.{
  find_factor_resulting_in_smaller_size, fits_int64, expand_dim, all_static, expand_one,
  expand_from, expand_large_dim_into_linear_dims,
}
use iree_amd_aie.Dma.Linear.Factor.{find_factor-IsLeastFactor}
use iree_amd_aie.Dma.Linear.Same.{
  SamePattern-refl, SamePattern-trans, onto, onto-SamePattern, onto-reverse, split-SamePattern,
}

find_factor_small :
    (size max_size : ℕ)
    → (leb size 1 || leb max_size 1) ≡ true
    → find_factor_resulting_in_smaller_size size max_size ≡ 1
unfolding find_factor_resulting_in_smaller_size
find_factor_small size m h = ground arith

-- A factor other than one and the size divides the size, and is between them.
find_factor_cases :
    (size max_size : ℕ)
    → let f = find_factor_resulting_in_smaller_size size max_size in
      ((f == 1) || (f == size)) ≡ false → (1 < f) × (f < size) × (f * (size / f) ≡ size)
find_factor_cases size m h = elim (Bool-cases (leb size 1 || leb m 1)) [
  | inl e ↦ absurd (ground (arith, find_factor_small size m e))
  | inr e ↦
      let l = find_factor-IsLeastFactor size m (ground arith) (ground arith) in
      let whole =
        l.least size (ground arith) (mod_self size)
          (rw (div_self {n = size} (ground arith)) (ground arith)) in
      let parts = div-add-mod size (find_factor_resulting_in_smaller_size size m) in
      (ground (arith, l.positive), ground (arith, whole), omega (arith, parts, l.divides))
]

leb-big : (f : ℕ) → 1 < f → leb f 1 ≡ false
leb-big f h = ground arith

-- What the round for one dimension leaves.
abbrev One : Env → Pattern → Option (Bool × Pattern) → Type 0
One ρ p none = Unit
One ρ p (some r) = SamePattern ρ p r.1

One-trans :
    (ρ : Env) (p q : Pattern) (r : Option (Bool × Pattern))
    → SamePattern ρ p q
    → One ρ q r
    → One ρ p r
One-trans ρ p q none h k = tt
One-trans ρ p q (some r) h k = SamePattern-trans ρ _ _ _ h k

-- What the inner loop leaves in the new vectors walks like the dimension that it takes apart.
expand_dim-One :
    (ρ : Env) (fuel : ℕ) (offset : OpFoldResult) (size : ℕ) (stride : ℤ) (max_size : ℕ)
    (new : Pattern) (found : Bool)
    → One ρ
        (record { offset = offset; size = attr (pos size); stride = attr stride } ∷ new)
        (expand_dim fuel offset size stride max_size new found)
unfolding expand_dim
expand_dim-One ρ zero offset size stride m new found = tt
expand_dim-One ρ (suc fuel) offset size stride m new found =
    elim (Bool-cases (
      (find_factor_resulting_in_smaller_size size m == 1)
      || (find_factor_resulting_in_smaller_size size m == size))) [
        | inl e ↦ rw e (SamePattern-refl ρ _)
        | inr e ↦
            let (big, small, parts) = find_factor_cases size m e in
            let n = size / find_factor_resulting_in_smaller_size size m in
            let first =
              record { offset = offset; size = attr (pos n); stride = attr stride } ∷ new in
            elim (Bool-cases (not (fits_int64 (stride *ℤ pos n)))) [
              | inl o ↦ rw (e, o) tt
              | inr o ↦
                  rw (e, o, leb-big _ big)
                    (One-trans ρ _ _ _
                      (split-SamePattern ρ _ _ _ offset (attr (pos 0)) offset (attr stride)
                        (attr (stride *ℤ pos n)) (find_factor_resulting_in_smaller_size size m) n
                        new (ap pos (sym parts)) refl refl (*ℤ_comm stride (pos n))
                        (omega (int_laws, *ℤ_parts (pos 0) (stride *ℤ pos n))))
                      (expand_dim-One ρ fuel (attr (pos 0))
                        (find_factor_resulting_in_smaller_size size m) (stride *ℤ pos n) m first
                        true))
            ]
      ]

abs_ℕ-mul : (a : ℤ) (n : ℕ) → abs_ℕ (a *ℤ pos n) ≡ abs_ℕ a * n
unfolding abs_ℕ ◌*ℤ◌
abs_ℕ-mul (pos m) n = ground arith
abs_ℕ-mul (negsuc m) n = ground arith

small-fits_int64 : (a : ℤ) → abs_ℕ a ≤ int64_max → fits_int64 a ≡ true
unfolding abs_ℕ
small-fits_int64 a h = ground (arith)

-- Where the stride times the size does not overflow, no stride of a part does.
expand_dim-returns :
    (fuel : ℕ) (offset : OpFoldResult) (size : ℕ) (stride : ℤ) (max_size : ℕ) (new : Pattern)
    (found : Bool)
    → size < fuel
    → abs_ℕ stride * size ≤ int64_max
    → (r : Bool × Pattern) × (expand_dim fuel offset size stride max_size new found ≡ some r)
unfolding expand_dim
expand_dim-returns zero offset size stride m new found h b = absurd (omega arith)
expand_dim-returns (suc fuel) offset size stride m new found h b =
    elim (Bool-cases (
      (find_factor_resulting_in_smaller_size size m == 1)
      || (find_factor_resulting_in_smaller_size size m == size))) [
        | inl e ↦ rw e (_, refl)
        | inr e ↦
            let (big, small, parts) = find_factor_cases size m e in
            let f = find_factor_resulting_in_smaller_size size m in
            let n = size / f in
            let whole : abs_ℕ (stride *ℤ pos n) * f ≡ abs_ℕ stride * size =
              regroup_factors (abs_ℕ stride) n f _ size (abs_ℕ-mul stride n) parts in
            let fits : fits_int64 (stride *ℤ pos n) ≡ true =
              small-fits_int64 (stride *ℤ pos n)
                (below_product _ f (omega (arith, big)) (omega (arith, whole, b))) in
            let (r, runs) =
              expand_dim-returns fuel (attr (pos 0)) f (stride *ℤ pos n) m
                (record { offset = offset; size = attr (pos n); stride = attr stride } ∷ new) true
                (omega (arith, small, h)) (omega (arith, whole, b)) in
            rw (e, fits, leb-big _ big) (r, runs)
      ]
  where
    regroup_factors : (a n f k size : ℕ) → k ≡ a * n → f * n ≡ size → k * f ≡ a * size
    regroup_factors a n f k size e g = rw (e, ← g) (ground arith)

    below_product : (k f : ℕ) → 1 ≤ f → k * f ≤ int64_max → k ≤ int64_max
    below_product k zero p q = omega arith
    below_product k (suc f) p q = omega arith

-- A dimension with its size and stride made attributes walks like itself.
constants-Same :
    (ρ : Env) (d : Dim) (size stride : ℤ) (new : Pattern)
    → get_constant_int_value d.size ≡ some size
    → get_constant_int_value d.stride ≡ some stride
    → SamePattern ρ
        (d ∷ new)
        (record { offset = d.offset; size = attr size; stride = attr stride } ∷ new)
constants-Same ρ d size stride new es et = record {
  bases = rw (eval-constant ρ d.stride stride et);
  sweeps = λ b. rw (eval-constant ρ d.size size es, eval-constant ρ d.stride stride et);
}

expand_one-One :
    (ρ : Env) (d : Dim) (size stride : Option ℤ) (m : ℕ) (new : Pattern) (found : Bool)
    → get_constant_int_value d.size ≡ size
    → get_constant_int_value d.stride ≡ stride
    → One ρ (d ∷ new) (expand_one d size stride m new found)
unfolding expand_one
expand_one-One ρ d none stride m new found es et = tt
expand_one-One ρ d (some (negsuc n)) stride m new found es et = tt
expand_one-One ρ d (some (pos n)) none m new found es et = tt
expand_one-One ρ d (some (pos n)) (some s) m new found es et =
    One-trans ρ _ _ (expand_dim (suc n) d.offset n s m new found)
      (constants-Same ρ d (pos n) s new es et) (expand_dim-One ρ (suc n) d.offset n s m new found)

expand_from-Same :
    (ρ : Env) (p : Pattern) (maxes : List ℕ) (new : Pattern) (found : Bool)
    → Ensures (SamePattern ρ (onto p new)) (expand_from p maxes new found)
unfolding expand_from
expand_from-Same ρ [] maxes new found =
    Ensures-if (SamePattern ρ new) found _ _ (λ _. SamePattern-refl ρ new) (λ _. tt)
expand_from-Same ρ (d ∷ p) [] new found = tt
expand_from-Same ρ (d ∷ p) (m ∷ maxes) new found =
    cases (expand_from-Same ρ p maxes) _ (expand_one-One ρ d _ _ m new found refl refl)
  where
    cases :
        ((n : Pattern) (f : Bool) → Ensures (SamePattern ρ (onto p n)) (expand_from p maxes n f))
        → (r : Option (Bool × Pattern)) → One ρ (d ∷ new) r
        → Ensures
            (SamePattern ρ (onto p (d ∷ new)))
            (elim r [ none ↦ fault | some t ↦ expand_from p maxes t.1 t.0 ])
    cases ih none h = tt
    cases ih (some t) h =
        Ensures-map (SamePattern ρ (onto p t.1)) (SamePattern ρ (onto p (d ∷ new))) _ (ih t.1 t.0)
          λ q s. SamePattern-trans ρ _ _ _ (onto-SamePattern ρ p (d ∷ new) t.1 h) s

-- When expandLargeDimIntoLinearDims succeeds, the new pattern visits the same addresses in the same
-- order, whatever the offsets that are not constant are, and for any maximal sizes.
pub expand_large_dim-walk :
    (p q : Pattern) (max_sizes : List ℕ)
    → expand_large_dim_into_linear_dims p max_sizes ≡ ok q
    → (ρ : Env) → walk ρ q ≡ walk ρ p
unfolding expand_large_dim_into_linear_dims
expand_large_dim-walk p q max_sizes h ρ = sym (SamePattern-walk ρ p q (Ensures_at _ _ q whole h))
  where
    whole : Ensures (SamePattern ρ p) (expand_large_dim_into_linear_dims p max_sizes)
    whole =
        Ensures-if (SamePattern ρ p) (all_static p) _ _
          (λ _.
            subst
              (λ s.
                Ensures (SamePattern ρ s) (expand_from (reverse p) (reverse max_sizes) [] false))
              (onto-reverse p) (expand_from-Same ρ (reverse p) (reverse max_sizes) [] false))
          (λ _. tt)

-- A dimension whose size and stride are constants, the size not negative and their product in the
-- range of an int64_t.
abbrev pub IsBounded : Dim → Type 0
IsBounded d =
    (n : ℕ) × (s : ℤ) × (get_constant_int_value d.size ≡ some (pos n))
    × (get_constant_int_value d.stride ≡ some s)
    × (abs_ℕ s * n ≤ int64_max)

expand_from-ends :
    (p : Pattern) (maxes : List ℕ) (new : Pattern) (found : Bool)
    → length p ≤ length maxes
    → All IsBounded p
    → expand_from p maxes new found ≢ fault
unfolding expand_from expand_one
expand_from-ends [] maxes new found l a = ground arith
expand_from-ends (d ∷ p) [] new found l a = absurd (omega arith)
expand_from-ends (d ∷ p) (m ∷ maxes) new found l a =
    let (n, s, es, et, bound) = a.0 in
    let (r, runs) = expand_dim-returns (suc n) d.offset n s m new found (omega arith) bound in
    rw (es, et, runs, expand_from) (expand_from-ends p maxes r.1 r.0 (omega arith) a.1)

-- expandLargeDimIntoLinearDims comes to its end, within its fuel, without an overflow of the stride
-- and without reading behind the maximal sizes, on a pattern of constant strides and constant sizes
-- that are not negative, with a maximal size for every dimension, where in each dimension the
-- magnitude of the stride times the size is at most the greatest int64_t.
pub expand_large_dim-ends :
    (p : Pattern) (max_sizes : List ℕ)
    → length p ≤ length max_sizes
    → All IsBounded p
    → expand_large_dim_into_linear_dims p max_sizes ≢ fault
unfolding expand_large_dim_into_linear_dims
expand_large_dim-ends p max_sizes l a = elim (Bool-cases (all_static p)) [
  | inl e ↦
      rw (e, expand_large_dim_into_linear_dims)
        (expand_from-ends (reverse p) (reverse max_sizes) [] false
          (omega (arith, length-reverse p, length-reverse max_sizes)) (All-reverse IsBounded p a))
  | inr e ↦ rw (e, expand_large_dim_into_linear_dims) (λ h. cc)
]
