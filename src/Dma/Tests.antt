-- ===== src/Dma/Tests.antt =====
-- The theorems on AMDAIEDmaUtils.cpp at concrete patterns.
use iree_amd_aie.Prelude.{
  ℕ, ◌^◌, ◌<◌, ◌≡◌, ◌≢◌, refl, Bool, true, false, none, some, [], ◌∷◌, ◌++◌, arith, length, ltb,
  ℕ_discrete, dec_lt,
}
use iree_amd_aie.Prelude.Int.{ℤ, pos, ◌+ℤ◌, ◌*ℤ◌}
use iree_amd_aie.Prelude.IntRing.{eqb_ℤ, abs_ℕ, div_ℤ, mod_ℤ}
use iree_amd_aie.Dma.Pattern.{attr, value, Dim, Pattern, ok, fault, Env}
use iree_amd_aie.Dma.Walk.{walk, sweep, base, repeat}
use iree_amd_aie.Dma.Units.{
  match_constants, match_stride, match_strides_of_unit_dims, add_offset, merge_into, merge_offset,
  folded_offset, keep, scan, fold_unit_dims,
}
use iree_amd_aie.Dma.Units.Match.{match_strides-walk}
use iree_amd_aie.Dma.Units.Fold.{fold_unit_dims-walk, merge_offset-base}
use iree_amd_aie.Dma.Linear.{
  factor_from, find_factor_resulting_in_smaller_size, expand_dim, expand_one, expand_from,
  expand_large_dim_into_linear_dims, shift_offset, fold_constants, fold_one, fold_from,
  fold_reversed, fold_linear_dims,
}
use iree_amd_aie.Dma.Linear.Factor.{IsLeastFactor, find_factor-IsLeastFactor}
use iree_amd_aie.Dma.Linear.Expand.{expand_large_dim-walk, IsBounded, expand_large_dim-ends}
use iree_amd_aie.Dma.Linear.Fold.{fold_linear_dims-walk}
use iree_amd_aie.Dma.Repeat.{fold_leading, fold_size, fold_dim, fold_count, fold_repetition_count}
use iree_amd_aie.Dma.Repeat.Fold.{fold_repetition_count-walk, fold_leading-walk}
use iree_amd_aie.Dma.Difference.{
  increment_val_to_const, update, update_all, get_global_offset_difference,
}
use iree_amd_aie.Dma.Difference.Sound.{get_global_offset_difference-base}
use iree_amd_aie.Dma.Combine.{
  align, extended_size, join, merge_matched, merge_aligned, merge_in_first, try_fold,
  combine_access_patterns,
}
use iree_amd_aie.Dma.Combine.Walk.{combine_access_patterns-walk}

abbrev dim : ℕ → ℕ → ℕ → Dim
dim offset size stride = record {
  offset = attr (pos offset);
  size = attr (pos size);
  stride = attr (pos stride);
}

abbrev zeros : Env
zeros v = pos 0

abbrev sevens : Env
sevens v = pos 7

matched : match_strides_of_unit_dims (dim 4 1 2 ∷ []) (attr (pos 4) ∷ []) ≡ ok (dim 2 1 4 ∷ [])
unfolding match_strides_of_unit_dims match_stride match_constants eqb_ℤ div_ℤ mod_ℤ abs_ℕ ◌*ℤ◌
    ℕ_discrete
matched = refl

match_strides-walk_example : walk zeros (dim 2 1 4 ∷ []) ≡ walk zeros (dim 4 1 2 ∷ [])
match_strides-walk_example =
    match_strides-walk (dim 4 1 2 ∷ []) (dim 2 1 4 ∷ []) (attr (pos 4) ∷ []) matched zeros

-- The remainder is taken by the stride 0 that is to be matched.
match_by_zero : match_strides_of_unit_dims (dim 3 1 7 ∷ []) (attr (pos 0) ∷ []) ≡ fault
unfolding match_strides_of_unit_dims match_stride match_constants eqb_ℤ ◌*ℤ◌ ℕ_discrete
match_by_zero = refl

unit_folded : fold_unit_dims (dim 1 1 50 ∷ dim 2 10 5 ∷ []) ≡ ok (dim 12 10 5 ∷ [])
unfolding fold_unit_dims scan folded_offset keep merge_offset merge_into add_offset eqb_ℤ div_ℤ
    mod_ℤ abs_ℕ ◌*ℤ◌ ◌+ℤ◌ ℕ_discrete
unit_folded = refl

fold_unit_dims-walk_example :
    (1 < 2) × ((ρ : Env) → walk ρ (dim 12 10 5 ∷ []) ≡ walk ρ (dim 1 1 50 ∷ dim 2 10 5 ∷ []))
fold_unit_dims-walk_example =
    fold_unit_dims-walk (dim 1 1 50 ∷ dim 2 10 5 ∷ []) (dim 12 10 5 ∷ []) unit_folded

offset_merged : merge_offset (pos 50) (dim 2 10 5 ∷ []) ≡ some (dim 12 10 5 ∷ [])
unfolding merge_offset merge_into add_offset eqb_ℤ div_ℤ mod_ℤ abs_ℕ ◌*ℤ◌ ◌+ℤ◌ ℕ_discrete
offset_merged = refl

merge_offset-base_example :
    (length (dim 12 10 5 ∷ []) ≡ length (dim 2 10 5 ∷ []))
    × ((ρ : Env)
        → walk ρ (dim 12 10 5 ∷ [])
          ≡ sweep ρ (dim 2 10 5 ∷ []) (pos 50 +ℤ base ρ (dim 2 10 5 ∷ [])))
merge_offset-base_example =
    merge_offset-base (pos 50) (dim 2 10 5 ∷ []) (dim 12 10 5 ∷ []) offset_merged

find_factor-IsLeastFactor_example :
    IsLeastFactor 1 12 5 (find_factor_resulting_in_smaller_size 12 5)
find_factor-IsLeastFactor_example = find_factor-IsLeastFactor 12 5 (omega arith) (omega arith)

expanded :
    expand_large_dim_into_linear_dims (dim 0 12 1 ∷ []) (5 ∷ []) ≡ ok (dim 0 3 4 ∷ dim 0 4 1 ∷ [])
unfolding expand_large_dim_into_linear_dims expand_from expand_one expand_dim
    find_factor_resulting_in_smaller_size factor_from ◌*ℤ◌ ℕ_discrete dec_lt
expanded = refl

expand_large_dim-walk_example :
    walk zeros (dim 0 3 4 ∷ dim 0 4 1 ∷ []) ≡ walk zeros (dim 0 12 1 ∷ [])
expand_large_dim-walk_example =
    expand_large_dim-walk (dim 0 12 1 ∷ []) (dim 0 3 4 ∷ dim 0 4 1 ∷ []) (5 ∷ []) expanded zeros

twelve-IsBounded : IsBounded (dim 0 12 1)
unfolding abs_ℕ
twelve-IsBounded = (12, pos 1, refl, refl, omega arith)

expand_large_dim-ends_example : expand_large_dim_into_linear_dims (dim 0 12 1 ∷ []) (5 ∷ []) ≢ fault
expand_large_dim-ends_example =
    expand_large_dim-ends (dim 0 12 1 ∷ []) (5 ∷ []) (omega arith) (twelve-IsBounded, tt)

-- A stride of 2 ^ 62 times the size 3 of the first part overflows.
stride_overflow : expand_large_dim_into_linear_dims (dim 0 12 (2 ^ 62) ∷ []) (5 ∷ []) ≡ fault
unfolding expand_large_dim_into_linear_dims expand_from expand_one expand_dim
    find_factor_resulting_in_smaller_size factor_from ◌*ℤ◌ ℕ_discrete dec_lt
stride_overflow = refl

abbrev any_size : ℕ → ℤ → Bool
any_size i n = true

linear_folded : fold_linear_dims any_size (dim 0 3 4 ∷ dim 0 4 1 ∷ []) ≡ ok (dim 0 12 1 ∷ [])
unfolding fold_linear_dims fold_reversed fold_from fold_one fold_constants eqb_ℤ ◌*ℤ◌ ℕ_discrete
linear_folded = refl

fold_linear_dims-walk_example :
    walk zeros (dim 0 12 1 ∷ []) ≡ walk zeros (dim 0 3 4 ∷ dim 0 4 1 ∷ [])
fold_linear_dims-walk_example =
    fold_linear_dims-walk any_size (dim 0 3 4 ∷ dim 0 4 1 ∷ []) (dim 0 12 1 ∷ []) zeros
      (refl, (refl, tt)) linear_folded

-- The offset 1 of the outer dimension is divided by the inner stride 0.
fold_by_zero : fold_linear_dims any_size (dim 1 4 0 ∷ dim 0 4 0 ∷ []) ≡ fault
unfolding fold_linear_dims fold_reversed fold_from fold_one fold_constants shift_offset eqb_ℤ ◌*ℤ◌
    ℕ_discrete
fold_by_zero = refl

repetition_folded :
    fold_repetition_count (dim 0 6 0 ∷ dim 0 4 1 ∷ []) (some (pos 3))
    ≡ ok (dim 0 2 0 ∷ dim 0 4 1 ∷ [])
unfolding fold_repetition_count fold_count fold_dim fold_size eqb_ℤ div_ℤ mod_ℤ abs_ℕ ◌*ℤ◌
    ℕ_discrete
repetition_folded = refl

fold_repetition_count-walk_example :
    walk zeros (dim 0 6 0 ∷ dim 0 4 1 ∷ []) ≡ repeat 3 (walk zeros (dim 0 2 0 ∷ dim 0 4 1 ∷ []))
fold_repetition_count-walk_example =
    fold_repetition_count-walk 3 (dim 0 6 0 ∷ dim 0 4 1 ∷ []) (dim 0 2 0 ∷ dim 0 4 1 ∷ []) zeros
      (omega arith) (refl, (refl, tt)) repetition_folded

leading_folded :
    fold_repetition_count (dim 0 6 0 ∷ dim 0 4 1 ∷ []) none ≡ ok (dim 0 1 0 ∷ dim 0 4 1 ∷ [])
unfolding fold_repetition_count fold_leading eqb_ℤ ℕ_discrete
leading_folded = refl

fold_leading-walk_example :
    walk zeros (dim 0 6 0 ∷ dim 0 4 1 ∷ []) ≡ repeat 6 (walk zeros (dim 0 1 0 ∷ dim 0 4 1 ∷ []))
unfolding eqb_ℤ ℕ_discrete
fold_leading-walk_example =
    fold_leading-walk (dim 0 6 0 ∷ dim 0 4 1 ∷ []) (dim 0 1 0 ∷ dim 0 4 1 ∷ []) zeros leading_folded

-- Offset `v + 5` with stride 1, where `v` is not known.
abbrev moving : ℕ → Pattern
moving n = record { offset = value 0; size = attr (pos 4); stride = attr (pos 1) } ∷ dim n 4 1 ∷ []

difference_of_5_and_2 : get_global_offset_difference (moving 5) (moving 2) ≡ ok (pos 3)
unfolding get_global_offset_difference update_all update increment_val_to_const eqb_ℤ ◌*ℤ◌ ◌+ℤ◌
    ℕ_discrete
difference_of_5_and_2 = refl

get_global_offset_difference-base_example : base sevens (moving 5) ≡ base sevens (moving 2) +ℤ pos 3
get_global_offset_difference-base_example =
    get_global_offset_difference-base (moving 5) (moving 2) (pos 3) difference_of_5_and_2 sevens

abbrev three_at_most : ℕ → Bool
three_at_most n = ltb 3 n

combined :
    combine_access_patterns three_at_most (dim 0 4 1 ∷ []) (dim 4 4 1 ∷ []) ≡ ok (dim 0 8 1 ∷ [])
unfolding combine_access_patterns merge_in_first align merge_aligned match_strides_of_unit_dims
    match_stride merge_matched get_global_offset_difference update_all update join extended_size
    try_fold fold_unit_dims scan folded_offset keep eqb_ℤ ◌*ℤ◌ ◌+ℤ◌ ℕ_discrete dec_lt
combined = refl

combine_access_patterns-walk_example :
    (walk zeros (dim 0 8 1 ∷ []) ≡ walk zeros (dim 0 4 1 ∷ []) ++ walk zeros (dim 4 4 1 ∷ []))
    × (three_at_most 1 ≡ false)
combine_access_patterns-walk_example =
    combine_access_patterns-walk three_at_most (dim 0 4 1 ∷ []) (dim 4 4 1 ∷ []) (dim 0 8 1 ∷ [])
      zeros (omega arith) (refl, tt) (refl, tt) combined
