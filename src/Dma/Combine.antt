-- ===== src/Dma/Combine.antt =====
-- AMDAIEDmaUtils.cpp: `insertUnitDimension`, `mergeInFirst` and `combineAccessPatterns`.
pub mod Merge
pub mod Walk
use iree_amd_aie.Prelude.{
  ℕ, zero, suc, ◌+◌, Bool, true, false, ◌&&◌, Option, none, some, List, [], ◌∷◌, ◌==◌,
  if◌then◌else◌, length, map, get_elem?,
}
use iree_amd_aie.Prelude.Int.{ℤ, pos, ◌+ℤ◌, ◌*ℤ◌, ltb_ℤ}
use iree_amd_aie.Prelude.IntRing.{eqb_ℤ}
use iree_amd_aie.Dma.Pattern.{
  OpFoldResult, attr, constant, value, Dim, Pattern, Result, ok, failure, fault, ◌>>=◌,
  get_constant_int_value, eq_ofr,
}
use iree_amd_aie.Dma.Units.{is_size_one, match_strides_of_unit_dims, insert_at, fold_unit_dims}
use iree_amd_aie.Dma.Difference.{get_global_offset_difference}

abbrev pub strides_of : Pattern → List OpFoldResult
strides_of = map (λ d. d.stride)

abbrev pub sizes_of : Pattern → List OpFoldResult
sizes_of = map (λ d. d.size)

abbrev pub eq_option : Option OpFoldResult → Option OpFoldResult → Bool
eq_option (some a) (some b) = eq_ofr a b
eq_option _ _ = false

-- The `while` loop of `insertUnitDimension`: from the back to the first difference.
unfoldable pub unit_index : ℕ → List OpFoldResult → List OpFoldResult → ℕ
unit_index zero strides_x strides_y = 0
unit_index (suc i) strides_x strides_y =
    let rest = unit_index i strides_x strides_y in
    if eq_option (get_elem? strides_y (suc i)) (get_elem? strides_x i) then rest else suc i

unfoldable pub insert_unit_dim : ℕ → Pattern → Option OpFoldResult → Result Pattern
insert_unit_dim index x none = fault
insert_unit_dim index x (some stride) =
    ok (insert_at index (record { offset = attr (pos 0); size = attr (pos 1); stride = stride }) x)

unfoldable pub insert_unit_dimension : Pattern → List OpFoldResult → Result Pattern
insert_unit_dimension x strides_y =
    let index = unit_index (length x) (strides_of x) strides_y in
    insert_unit_dim index x (get_elem? strides_y index)

-- The first block of `mergeInFirst`: patterns of one rank, if the ranks differ by one at most.
unfoldable pub align : Pattern → Pattern → Result (Pattern × Pattern)
align a b =
    if length a + 1 == length b
    then (insert_unit_dimension a (strides_of b) >>= λ a'. ok (a', b))
    else if length b + 1 == length a
    then (insert_unit_dimension b (strides_of a) >>= λ b'. ok (a, b'))
    else if length a == length b
    then ok (a, b)
    else failure

abbrev pub eq_all : List OpFoldResult → List OpFoldResult → Bool
eq_all [] [] = true
eq_all (a ∷ as') (b ∷ bs) = eq_ofr a b && eq_all as' bs
eq_all _ _ = false

abbrev pub drop_front : Pattern → Pattern
drop_front [] = []
drop_front (d ∷ p) = p

-- The test of the special case: the second pattern begins where the first one ends.
unfoldable pub extended_size : Option ℤ → Option ℤ → Option ℤ → ℤ → Option ℤ
extended_size (some stride_a) (some size_a) (some size_b) difference =
    if eqb_ℤ difference (size_a *ℤ stride_a) then some (size_a +ℤ size_b) else none
extended_size _ _ _ difference = none

abbrev pub pair_dim : ℤ → Dim
pair_dim difference = record {
  offset = attr (pos 0);
  size = attr (pos 2);
  stride = attr difference;
}

-- The case where a new dimension is needed.
unfoldable pub add_pair_dim : Dim → Pattern → Dim → ℤ → Result Pattern
add_pair_dim a p b difference =
    if eq_ofr a.size b.size
    then (if ltb_ℤ difference (pos 0)
        then failure
        else if is_size_one a
        then ok (a ∷ pair_dim difference ∷ p)
        else ok (pair_dim difference ∷ a ∷ p))
    else failure

-- The end of `mergeInFirst`; the sizes at the front of an empty vector would be read out of range.
unfoldable pub join : Pattern → Pattern → ℤ → Result Pattern
join (a ∷ p) (b ∷ q) difference =
    elim (extended_size (get_constant_int_value a.stride) (get_constant_int_value a.size)
      (get_constant_int_value b.size) difference) [
        | some sum ↦ ok (record a { size = attr sum } ∷ p)
        | none ↦ add_pair_dim a p b difference
      ]
join _ _ difference = fault

abbrev pub are_compatible : Pattern → Pattern → Bool
are_compatible a b =
    eq_all (strides_of a) (strides_of b)
    && eq_all (sizes_of (drop_front a)) (sizes_of (drop_front b))

unfoldable pub merge_matched : Pattern → Pattern → Result Pattern
merge_matched a b =
    if are_compatible a b then (get_global_offset_difference b a >>= join a b) else failure

unfoldable pub merge_aligned : Pattern → Pattern → Result Pattern
merge_aligned a b = do
  a' ← match_strides_of_unit_dims a (strides_of b)
  b' ← match_strides_of_unit_dims b (strides_of a')
  merge_matched a' b'

-- `failure` stands for the result `false`.
unfoldable pub merge_in_first : Pattern → Pattern → Result Pattern
merge_in_first [] [] = ok []
merge_in_first a b = align a b >>= λ r. merge_aligned r.0 r.1

-- Constants become attributes.
abbrev pub simplified : OpFoldResult → OpFoldResult
simplified a = elim (get_constant_int_value a) [ some c ↦ attr c | none ↦ a ]

abbrev pub simplify : Dim → Dim
simplify d = record {
  offset = simplified d.offset;
  size = simplified d.size;
  stride = simplified d.stride;
}

-- `(void)foldUnitDims(...)`: a failure is ignored.
unfoldable pub try_fold : Pattern → Result Pattern → Result Pattern
try_fold p (ok q) = ok q
try_fold p failure = ok p
try_fold p fault = fault

unfoldable pub combine_access_patterns : (ℕ → Bool) → Pattern → Pattern → Result Pattern
combine_access_patterns exceeds_nb_dims a b = do
  merged ← merge_in_first (map simplify a) (map simplify b)
  folded ← try_fold merged (fold_unit_dims merged)
  if exceeds_nb_dims (length folded) then failure else ok folded
