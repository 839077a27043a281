-- ===== src/Dma/Limits/Positions.antt =====
-- The limits of a pattern, dimension by dimension, said without the vectors that the code fills.
pub mod Vectors
pub mod Accepts
use mathlib.Core.Path.{subst}
use mathlib.Core.List.{append-nil, append_assoc}
use iree_amd_aie.Prelude.{
  ℕ, zero, suc, ◌+◌, ◌-◌, ◌%◌, ◌^◌, ◌≤◌, ◌<◌, min, ◌≡◌, ◌⊎◌, refl, sym, ap, ◌∙◌, ◌↔◌, Bool, true,
  false, not, ◌&&◌, ◌||◌, Bool-cases, inl, inr, some, List, [], ◌∷◌, ◌++◌, ltb, ◌==◌, if◌then◌else◌,
  length, map, replicate, arith,
}
use iree_amd_aie.Prelude.Int.{ℤ, pos, ◌≤ℤ◌}
use iree_amd_aie.Prelude.IntRing.{eqb_ℤ, eqb_ℤ-eq, eqb_ℤ-refl}
use iree_amd_aie.Dma.Limits.{
  DmaDimConfig, int64_max, fill_n, get_max_sizes, get_max_strides, checked, is_valid_access_pattern,
}
use iree_amd_aie.Dma.Limits.Layout.{get_max-layout, layout, intra_sizes, fill_front, fill_part}
use iree_amd_aie.Dma.Limits.Ranks.{InRange, is_valid_access_pattern_iff}

-- The dimensions that count: those of size one or of stride zero do not.
abbrev pub count : List (ℤ × ℤ) → ℕ
count [] = 0
count ((size, stride) ∷ dims) =
    (if eqb_ℤ size (pos 1) || eqb_ℤ stride (pos 0) then 0 else 1) + count dims

-- The greatest size of the dimension with `j` dimensions behind it, of `n` in all: the innermost
-- ones are intra dimensions, the outermost of which has no limit, the next ones are inter
-- dimensions, and no further ones can be had.
abbrev pub size_limit : DmaDimConfig → ℕ → ℕ → ℕ
size_limit c n j =
    if c.circular
    then c.wrap_max
    else if ltb j c.nb_intra_dims
    then (if j + 1 == min c.nb_intra_dims n then int64_max else c.wrap_max)
    else if ltb j (c.nb_intra_dims + c.nb_inter_dims)
    then c.iter_wrap_max
    else 0

abbrev pub stride_limit : DmaDimConfig → ℕ → ℕ
stride_limit c j =
    if ltb j c.nb_intra_dims
    then (c.step_size_max + 1) % 2 ^ 32
    else if c.circular
    then int64_max
    else if ltb j (c.nb_intra_dims + c.nb_inter_dims)
    then (c.iter_step_size_max + 1) % 2 ^ 32
    else 0

-- Every dimension has size one, or stride zero, or a size and a stride within the limits `f` and `g`
-- of its position.
abbrev pub Limited : (ℕ → ℕ) → (ℕ → ℕ) → List (ℤ × ℤ) → Type 0
Limited f g [] = Unit
Limited f g ((size, stride) ∷ dims) =
    ((size ≡ pos 1)
      ⊎ (stride ≡ pos 0)
      ⊎ ((pos 0 ≤ℤ size)
          × (size ≤ℤ pos (f (count dims)))
          × (pos 0 ≤ℤ stride)
          × (stride ≤ℤ pos (g (count dims)))))
    × Limited f g dims

-- The limits of a DMA.
abbrev pub WithinLimits : DmaDimConfig → List (ℤ × ℤ) → Type 0
WithinLimits c dims = Limited (size_limit c (count dims)) (stride_limit c) dims

-- A vector by the number of entries behind each.
abbrev pub positions : (ℕ → ℕ) → ℕ → List ℕ
positions f zero = []
positions f (suc n) = f n ∷ positions f n
