-- ===== src/Dma/Units.antt =====
-- AMDAIEDmaUtils.cpp: `matchStridesOfUnitDims`, `mergeOffset` and `foldUnitDims`, which move the
-- offsets of unit dimensions about.
pub mod Match
pub mod Fold
use iree_amd_aie.Prelude.{
  ℕ, zero, suc, ◌+◌, Bool, true, false, not, ◌&&◌, Option, none, some, List, [], ◌∷◌, ◌==◌,
  if◌then◌else◌, length,
}
use iree_amd_aie.Prelude.Int.{ℤ, pos, ◌+ℤ◌, ◌*ℤ◌}
use iree_amd_aie.Prelude.IntRing.{eqb_ℤ, div_ℤ, mod_ℤ}
use iree_amd_aie.Dma.Pattern.{
  OpFoldResult, attr, Dim, Pattern, Result, ok, failure, fault, ◌>>=◌, get_constant_int_value,
  eq_ofr,
}

-- The innermost block of `matchStridesOfUnitDims`: `%` by zero is undefined.
unfoldable pub match_constants : Dim → OpFoldResult → Option ℤ → Option ℤ → Option ℤ → Result Dim
match_constants d stride_y (some offset) (some stride_x) (some c) =
    if eqb_ℤ c (pos 0)
    then fault
    else if eqb_ℤ (mod_ℤ (offset *ℤ stride_x) c) (pos 0)
    then ok (record d { offset = attr (div_ℤ (offset *ℤ stride_x) c); stride = stride_y })
    else ok d
match_constants d stride_y _ _ _ = ok d

abbrev pub is_size_one : Dim → Bool
is_size_one d = elim (get_constant_int_value d.size) [ some n ↦ eqb_ℤ n (pos 1) | none ↦ false ]

-- One round of the loop.
unfoldable pub match_stride : Dim → OpFoldResult → Result Dim
match_stride d stride_y =
    if eq_ofr d.stride stride_y
    then ok d
    else if is_size_one d
    then match_constants d stride_y (get_constant_int_value d.offset)
        (get_constant_int_value d.stride) (get_constant_int_value stride_y)
    else ok d

-- A read behind the end of `stridesY` is undefined.
unfoldable pub match_strides_of_unit_dims : Pattern → List OpFoldResult → Result Pattern
match_strides_of_unit_dims [] strides_y = ok []
match_strides_of_unit_dims (d ∷ p) [] = fault
match_strides_of_unit_dims (d ∷ p) (y ∷ strides_y) = do
  d' ← match_stride d y
  p' ← match_strides_of_unit_dims p strides_y
  ok (d' ∷ p')

-- The body of `mergeOffset`'s loop: the dimension with the offset added, if that is possible.
unfoldable pub add_offset : ℤ → Dim → Option ℤ → Option ℤ → Option Dim
add_offset offset_to_merge d (some offset) (some stride) =
    if not (eqb_ℤ stride (pos 0)) && eqb_ℤ (mod_ℤ offset_to_merge stride) (pos 0)
    then some (record d { offset = attr (offset +ℤ div_ℤ offset_to_merge stride) })
    else none
add_offset offset_to_merge d _ _ = none

abbrev pub cons_to : Dim → Option Pattern → Option Pattern
cons_to d none = none
cons_to d (some p) = some (d ∷ p)

unfoldable pub merge_into : ℤ → Pattern → Option Pattern
merge_into offset_to_merge [] = none
merge_into offset_to_merge (d ∷ p) =
    elim (add_offset offset_to_merge d (get_constant_int_value d.offset)
      (get_constant_int_value d.stride)) [
        | some d' ↦ some (d' ∷ p)
        | none ↦ cons_to d (merge_into offset_to_merge p)
      ]

-- `none` stands for the result `false`, with the offsets unchanged.
unfoldable pub merge_offset : ℤ → Pattern → Option Pattern
merge_offset offset_to_merge p =
    if eqb_ℤ offset_to_merge (pos 0) then some p else merge_into offset_to_merge p

-- What the loop of `foldUnitDims` collects.
pub record Scan : Type 0 where
  pub cumulative_offset : ℤ
  pub insertion_index : ℕ
  pub kept : Pattern

-- The constant that a dimension adds to the cumulative offset, if it is a unit dimension to fold.
unfoldable pub folded_offset : Dim → Option ℤ → Option ℤ → Option ℤ
folded_offset d (some offset) (some stride) =
    if is_size_one d then some (offset *ℤ stride) else none
folded_offset d _ _ = none

unfoldable pub keep : Dim → Scan → Scan
keep d s = record s {
  insertion_index = (if is_size_one d then 1 else 0) + s.insertion_index;
  kept = d ∷ s.kept;
}

unfoldable pub scan : Pattern → Scan
scan [] = record { cumulative_offset = pos 0; insertion_index = 0; kept = [] }
scan (d ∷ p) =
    elim (folded_offset d (get_constant_int_value d.offset) (get_constant_int_value d.stride)) [
      | some c ↦ record (scan p) { cumulative_offset = c +ℤ (scan p).cumulative_offset }
      | none ↦ keep d (scan p)
    ]

-- `insert(begin() + index, ...)` on the three vectors.
abbrev pub insert_at : ℕ → Dim → Pattern → Pattern
insert_at zero d p = d ∷ p
insert_at (suc n) d [] = d ∷ []
insert_at (suc n) d (e ∷ p) = e ∷ insert_at n d p

-- The dimension that holds a cumulative offset which no other dimension can take.
abbrev pub offset_dim : ℤ → Dim
offset_dim c = record { offset = attr (pos 1); size = attr (pos 1); stride = attr c }

-- `failure` leaves the pattern as it was.
unfoldable pub fold_unit_dims : Pattern → Result Pattern
fold_unit_dims p =
    let s = scan p in
    if length s.kept == length p then failure else elim (merge_offset s.cumulative_offset s.kept) [
      | some q ↦ ok q
      | none ↦
          if length s.kept + 1 == length p
          then failure
          else ok (insert_at s.insertion_index (offset_dim s.cumulative_offset) s.kept)
    ]
