-- ===== src/Dma/Repeat.antt =====
-- AMDAIEDmaUtils.cpp: `foldRepetitionCount` and `foldSingleDim`.
pub mod Fold
use iree_amd_aie.Prelude.{ℕ, Bool, true, false, Option, none, some, List, [], ◌∷◌, if◌then◌else◌}
use iree_amd_aie.Prelude.Int.{ℤ, pos, ltb_ℤ}
use iree_amd_aie.Prelude.IntRing.{eqb_ℤ, div_ℤ, mod_ℤ}
use iree_amd_aie.Dma.Pattern.{
  OpFoldResult, attr, Dim, Pattern, Result, ok, failure, fault, ◌>>=◌, get_constant_int_value,
  is_constant_int_value,
}

-- Without a count: all leading dimensions of stride zero get size one.
unfoldable pub fold_leading : Pattern → Pattern
fold_leading [] = []
fold_leading (d ∷ p) =
    if is_constant_int_value d.stride (pos 0)
    then record d { size = attr (pos 1) } ∷ fold_leading p
    else d ∷ p

-- The round of the loop on a dimension of constant size: the new size, and the count that is left.
-- `%` by zero is undefined. A failure leaves the source's sizes half changed; here it has no sizes.
unfoldable pub fold_size : ℤ → ℤ → Result (ℤ × ℤ)
fold_size count size =
    if ltb_ℤ size count
    then (if eqb_ℤ size (pos 0)
        then fault
        else if eqb_ℤ (mod_ℤ count size) (pos 0)
        then ok (pos 1, div_ℤ count size)
        else failure)
    else if eqb_ℤ count (pos 0)
    then fault
    else if eqb_ℤ (mod_ℤ size count) (pos 0)
    then ok (div_ℤ size count, pos 1)
    else failure

unfoldable pub fold_dim : ℤ → Dim → Option ℤ → Result (Dim × ℤ)
fold_dim count d none = failure
fold_dim count d (some size) =
    if is_constant_int_value d.stride (pos 0)
    then (fold_size count size >>= λ r. ok (record d { size = attr r.0 }, r.1))
    else failure

unfoldable pub fold_count : ℤ → Pattern → Result Pattern
fold_count count [] = if eqb_ℤ count (pos 1) then ok [] else failure
fold_count count (d ∷ p) =
    let folded = fold_dim count d (get_constant_int_value d.size) >>= λ r.
    fold_count r.1 p >>= λ q. ok (r.0 ∷ q) in
    if eqb_ℤ count (pos 1) then ok (d ∷ p) else folded

unfoldable pub fold_repetition_count : Pattern → Option ℤ → Result Pattern
fold_repetition_count p none = ok (fold_leading p)
fold_repetition_count p (some count) = fold_count count p

unfoldable pub fold_single_dim : Pattern → Result Pattern
fold_single_dim [] = failure
fold_single_dim (d ∷ []) =
    if is_constant_int_value d.offset (pos 0)
    then if is_constant_int_value d.stride (pos 1) then ok [] else failure
    else failure
fold_single_dim (d ∷ e ∷ p) = failure
