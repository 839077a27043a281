-- ===== src/Dma/Linear.antt =====
-- AMDAIEDmaUtils.cpp: `findFactorResultingInSmallerSize`, `expandLargeDimIntoLinearDims` and
-- `foldLinearDims`. The source pushes new dimensions at the back of three vectors and reverses them
-- in the end; here they are put at the front of a list.
pub mod Factor
pub mod Same
pub mod Expand
pub mod Fold
use iree_amd_aie.Prelude.{
  ℕ, zero, suc, ◌+◌, ◌-◌, ◌*◌, ◌/◌, ◌%◌, Bool, true, false, not, ◌&&◌, ◌||◌, Option, none, some,
  List, [], ◌∷◌, reverse, leb, ◌==◌, if◌then◌else◌, length,
}
use iree_amd_aie.Prelude.Int.{ℤ, pos, negsuc, pos_part, neg_part, ◌+ℤ◌, ◌*ℤ◌}
use iree_amd_aie.Prelude.IntRing.{eqb_ℤ, div_ℤ}
use iree_amd_aie.Dma.Limits.{int64_max}
use iree_amd_aie.Dma.Pattern.{
  OpFoldResult, attr, Dim, Pattern, Result, ok, failure, fault, ◌>>=◌, get_constant_int_value,
  is_constant_int_value,
}

-- The loop of `findFactorResultingInSmallerSize`, with the rounds that are left.
unfoldable pub factor_from : ℕ → ℕ → ℕ → ℕ → ℕ
factor_from zero i size max_size = size
factor_from (suc n) i size max_size =
    let rest = factor_from n (i + 1) size max_size in
    if (size % i == 0) && leb (size / i) max_size then i else rest

-- Both arguments are asserted not to be negative.
unfoldable pub find_factor_resulting_in_smaller_size : ℕ → ℕ → ℕ
find_factor_resulting_in_smaller_size size max_size =
    if (size == 0) || (max_size == 0) || (size == 1) || (max_size == 1)
    then 1
    else if leb size max_size
    then 1
    else factor_from (size / 2 - 1) 2 size max_size

-- A value of `int64_t`.
abbrev pub fits_int64 : ℤ → Bool
fits_int64 a = leb (pos_part a) int64_max && leb (neg_part a) (int64_max + 1)

-- The `do ... while` loop over one dimension, on fuel, with what is found in `newOffsets`,
-- `newSizes` and `newStrides` so far, and whether a factor was found. `none` stands for too little
-- fuel and for the overflow of `stride *= newSize`, which is undefined.
unfoldable pub expand_dim : ℕ → OpFoldResult → ℕ → ℤ → ℕ → Pattern → Bool → Option (Bool × Pattern)
expand_dim zero offset size stride max_size new found = none
expand_dim (suc fuel) offset size stride max_size new found =
    let factor = find_factor_resulting_in_smaller_size size max_size in
    let new_size = size / factor in
    let first : Pattern =
      record { offset = offset; size = attr (pos new_size); stride = attr stride } ∷ new in
    let whole : Pattern =
      record { offset = offset; size = attr (pos size); stride = attr stride } ∷ new in
    let again =
      expand_dim fuel (attr (pos 0)) factor (stride *ℤ pos new_size) max_size first true in
    if (factor == 1) || (factor == size)
    then some (found, whole)
    else if not (fits_int64 (stride *ℤ pos new_size))
    then none
    else if leb factor 1
    then some (true, first)
    else again

-- `getConstantIntValues` of the sizes and the strides.
abbrev pub is_static : Dim → Bool
is_static d = elim (get_constant_int_value d.size) [
  | none ↦ false
  | some n ↦ elim (get_constant_int_value d.stride) [ none ↦ false | some s ↦ true ]
]

abbrev pub all_static : Pattern → Bool
all_static [] = true
all_static (d ∷ p) = is_static d && all_static p

-- One round of the outer loop: `findFactorResultingInSmallerSize` asserts the size not negative.
unfoldable pub expand_one : Dim → Option ℤ → Option ℤ → ℕ → Pattern → Bool → Option (Bool × Pattern)
expand_one d (some (pos size)) (some stride) max_size new found =
    expand_dim (suc size) d.offset size stride max_size new found
expand_one d _ _ max_size new found = none

-- The outer loop, over the dimensions and the maximal sizes from the back.
unfoldable pub expand_from : Pattern → List ℕ → Pattern → Bool → Result Pattern
expand_from [] max_sizes new found = if found then ok new else failure
expand_from (d ∷ p) [] new found = fault
expand_from (d ∷ p) (m ∷ max_sizes) new found =
    elim (expand_one d (get_constant_int_value d.size) (get_constant_int_value d.stride) m new
      found) [ none ↦ fault | some r ↦ expand_from p max_sizes r.1 r.0 ]

-- `success(expandableLinearDimsFound)`: a pattern that is not expanded is a failure.
unfoldable pub expand_large_dim_into_linear_dims : Pattern → List ℕ → Result Pattern
expand_large_dim_into_linear_dims p max_sizes =
    if all_static p then expand_from (reverse p) (reverse max_sizes) [] false else failure

-- One round of `foldLinearDims`: the dimension `d` is folded into the last new one, `e`, or put
-- before it. `newOffset * newStride / prevStride` is undefined for a previous stride of zero.
module _ (check_valid_size : ℕ → ℤ → Bool) where
  unfoldable pub shift_offset :
      ℤ → Dim → Dim → Pattern → ℤ → ℤ → Option ℤ → Option ℤ → Result (Bool × Pattern)
  shift_offset size d e new stride prev_stride (some offset) (some prev_offset) =
      if eqb_ℤ prev_stride (pos 0)
      then fault
      else ok (
        true,
        record e {
          size = attr size;
          offset = attr (prev_offset +ℤ div_ℤ (offset *ℤ stride) prev_stride);
        }
            ∷ new,
      )
  shift_offset size d e new stride prev_stride _ _ = ok (false, d ∷ e ∷ new)

  unfoldable pub fold_constants :
      Dim → Dim → Pattern → Option ℤ → Option ℤ → Option ℤ → Option ℤ → Result (Bool × Pattern)
  fold_constants d e new (some size) (some stride) (some prev_size) (some prev_stride) =
      if check_valid_size (length new) (size *ℤ prev_size)
        && eqb_ℤ (prev_stride *ℤ prev_size) stride
      then (if is_constant_int_value d.offset (pos 0)
          then ok (true, record e { size = attr (size *ℤ prev_size) } ∷ new)
          else shift_offset (size *ℤ prev_size) d e new stride prev_stride
              (get_constant_int_value d.offset) (get_constant_int_value e.offset))
      else ok (false, d ∷ e ∷ new)
  fold_constants d e new _ _ _ _ = fault

  -- The new dimensions are never empty: the source pushes the last one before the loop.
  unfoldable pub fold_one : Dim → Pattern → Result (Bool × Pattern)
  fold_one d [] = fault
  fold_one d (e ∷ new) =
      fold_constants d e new (get_constant_int_value d.size) (get_constant_int_value d.stride)
        (get_constant_int_value e.size) (get_constant_int_value e.stride)

  unfoldable pub fold_from : Pattern → Pattern → Bool → Result Pattern
  fold_from [] new found = if found then ok new else failure
  fold_from (d ∷ p) new found = fold_one d new >>= λ r. fold_from p r.1 (found || r.0)

  unfoldable pub fold_reversed : Pattern → Result Pattern
  fold_reversed [] = failure
  fold_reversed (d ∷ p) = fold_from p (d ∷ []) false

  unfoldable pub fold_linear_dims : Pattern → Result Pattern
  fold_linear_dims p = if all_static p then fold_reversed (reverse p) else failure
