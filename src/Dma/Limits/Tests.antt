-- ===== src/Dma/Limits/Tests.antt =====
-- The theorems on the limits at a concrete DMA.
use iree_amd_aie.Prelude.{
  ◌≤◌, ◌≡◌, refl, true, false, ◌↔◌, none, List, [], ◌∷◌, arith, length, ℕ_discrete, dec_lt,
}
use iree_amd_aie.Prelude.Int.{ℤ, pos}
use iree_amd_aie.Prelude.IntRing.{eqb_ℤ}
use iree_amd_aie.Dma.Limits.{
  DmaDimConfig, int64_max, fill_n, fill_limits, get_max_sizes, get_max_strides, out_of_range,
  any_out_of_range, checked, is_valid_access_pattern,
}
use iree_amd_aie.Dma.Limits.Layout.{get_max-layout}
use iree_amd_aie.Dma.Limits.Positions.{WithinLimits}
use iree_amd_aie.Dma.Limits.Positions.Accepts.{is_valid_access_pattern-WithinLimits}
use iree_amd_aie.Dma.Limits.Ranks.{is_valid_access_pattern-ranks}

abbrev shim : DmaDimConfig
shim = record {
  circular = false;
  max_nb_dims = 4;
  nb_inter_dims = 1;
  nb_intra_dims = 3;
  wrap_max = 1023;
  iter_wrap_max = 63;
  step_size_max = 1048575;
  iter_step_size_max = 1048575;
}

get_max-layout_example :
    (get_max_sizes shim none ≡ 63 ∷ int64_max ∷ 1023 ∷ 1023 ∷ [])
    × (get_max_strides shim none ≡ 1048576 ∷ 1048576 ∷ 1048576 ∷ 1048576 ∷ [])
get_max-layout_example = get_max-layout shim none refl

abbrev dims : List (ℤ × ℤ)
dims = (pos 64, pos 0) ∷ (pos 32, pos 1024) ∷ (pos 1, pos 7) ∷ (pos 512, pos 1) ∷ []

dims_accepted : is_valid_access_pattern shim dims ≡ true
unfolding is_valid_access_pattern any_out_of_range out_of_range checked get_max_sizes
    get_max_strides fill_limits fill_n eqb_ℤ ℕ_discrete dec_lt
dims_accepted = refl

is_valid_access_pattern-WithinLimits_example :
    (is_valid_access_pattern shim dims ≡ true) ↔ WithinLimits shim dims
is_valid_access_pattern-WithinLimits_example = is_valid_access_pattern-WithinLimits shim dims

is_valid_access_pattern-ranks_example : length (checked dims) ≤ 4
is_valid_access_pattern-ranks_example =
    is_valid_access_pattern-ranks shim dims refl
      (omega arith, (omega arith, (omega arith, (omega arith, tt)))) dims_accepted
