-- ===== src/Dma/Subsume/Tests.antt =====
-- The theorems on loop subsumption at a concrete nest of two loops, and a loop on which two offsets
-- depend.
use iree_amd_aie.Prelude.{
  ℕ, ◌≡◌, if◌then◌else◌, ◌==◌, mem, refl, inr, true, false, none, some, [], ◌∷◌, arith, ℕ_discrete,
  dec_lt,
}
use iree_amd_aie.Prelude.Int.{ℤ, pos, ◌+ℤ◌, ◌-ℤ◌, ◌*ℤ◌}
use iree_amd_aie.Prelude.IntRing.{eqb_ℤ, div_ℤ, abs_ℕ}
use iree_amd_aie.Dma.Pattern.{ok, fault, attr, value, Dim, Pattern, Ensures_at}
use iree_amd_aie.Dma.Walk.{walk}
use iree_amd_aie.Dma.Limits.{
  DmaDimConfig, exceeds_nb_dims, is_valid_access_pattern, checked, any_out_of_range, out_of_range,
  get_max_sizes, get_max_strides, fill_limits, fill_n,
}
use iree_amd_aie.Dma.Affine.{add, mul, const, dim, symbol, visit, visit_mul, add_bias}
use iree_amd_aie.Dma.Subsume.{
  Loop, Definitions, StridedOp, Options, npu_dma_cpy_nd, calculate_nb_iterations, definition_scale,
  add_dependency, scan_offsets, add_iteration_to_new_access_pattern, count_iterations,
  zero_stride_inside, violates_zero_stride, constant_dims, subsume_side, set_offset, set_offsets,
  subsume_loops, may_subsume, rewrite_with_loop_like_op_parent,
}
use iree_amd_aie.Dma.Subsume.Run.{run}
use iree_amd_aie.Dma.Subsume.Trip.{IsTripCount, calculate_nb_iterations-IsTripCount}
use iree_amd_aie.Dma.Subsume.Sound.{Unrolls, rewrite-Unrolls}
use iree_amd_aie.Dma.Subsume.Fits.{FitsUnlessEmpty, Fits, rewrite-Fits}

abbrev shim : DmaDimConfig
shim = record {
  circular = false;
  max_nb_dims = 4;
  nb_inter_dims = 1;
  nb_intra_dims = 3;
  wrap_max = 1023;
  iter_wrap_max = 63;
  step_size_max = 1048575;
  iter_step_size_max = 1048575;
}

abbrev opts : Options
opts = record { max_repeat_count = 256; only_zero_stride_on_outer_dim = true }

-- Value 2 is three times the second induction variable, and five.
abbrev scaled_by_three : Definitions
scaled_by_three v =
    if v == 2 then some (add (mul (dim 0) (const (pos 3))) (const (pos 5))) else none

abbrev outer : Loop
outer = record { lower_bound = pos 0; upper_bound = pos 4; step = pos 2; induction_values = 0 ∷ [] }

abbrev inner : Loop
inner = record {
  lower_bound = pos 1;
  upper_bound = pos 4;
  step = pos 1;
  induction_values = 1 ∷ 2 ∷ [];
}

abbrev dynamic_dim : ℕ → ℕ → ℕ → Dim
dynamic_dim v size stride = record {
  offset = value v;
  size = attr (pos size);
  stride = attr (pos stride);
}

abbrev fixed_dim : ℕ → ℕ → ℕ → Dim
fixed_dim offset size stride = record {
  offset = attr (pos offset);
  size = attr (pos size);
  stride = attr (pos stride);
}

abbrev tiles : StridedOp
tiles = record {
  kind = npu_dma_cpy_nd;
  source = dynamic_dim 0 2 64 ∷ dynamic_dim 2 8 1 ∷ [];
  target = [];
  source_config = shim;
  target_config = shim;
}

abbrev subsumed_source : Pattern
subsumed_source = fixed_dim 0 2 128 ∷ fixed_dim 0 3 3 ∷ fixed_dim 0 2 64 ∷ fixed_dim 8 8 1 ∷ []

abbrev tiles_subsumed : StridedOp
tiles_subsumed = record tiles { source = subsumed_source }

tiles_rewritten :
    rewrite_with_loop_like_op_parent opts scaled_by_three tiles (outer ∷ inner ∷ [])
    ≡ ok tiles_subsumed
unfolding rewrite_with_loop_like_op_parent may_subsume count_iterations calculate_nb_iterations
    violates_zero_stride zero_stride_inside subsume_loops subsume_side constant_dims
    add_iteration_to_new_access_pattern scan_offsets add_dependency definition_scale visit visit_mul
    add_bias set_offset set_offsets exceeds_nb_dims is_valid_access_pattern checked any_out_of_range
    out_of_range get_max_sizes get_max_strides fill_limits fill_n eqb_ℤ div_ℤ abs_ℕ ◌+ℤ◌ ◌-ℤ◌ ◌*ℤ◌
    ℕ_discrete dec_lt
tiles_rewritten = refl

abbrev zeros : ℕ → ℤ
zeros v = pos 0

inner_apart : (v : ℕ) → mem v outer.induction_values ≡ true → mem v inner.induction_values ≡ false
inner_apart v h = ground arith

rewrite-Unrolls_example :
    walk zeros subsumed_source ≡ run scaled_by_three zeros (outer ∷ inner ∷ []) tiles.source zeros
rewrite-Unrolls_example =
    (Ensures_at
        (λ new.
          Unrolls scaled_by_three (outer ∷ inner ∷ []) tiles.source new.source
          × Unrolls scaled_by_three (outer ∷ inner ∷ []) tiles.target new.target)
        (rewrite_with_loop_like_op_parent opts scaled_by_three tiles (outer ∷ inner ∷ []))
        tiles_subsumed
        (rewrite-Unrolls scaled_by_three opts tiles (outer ∷ inner ∷ [])
          ((inner_apart, tt), (tt, tt))
          (((tt, (tt, tt)), inr (omega arith)), (((tt, (tt, tt)), inr (omega arith)), tt))
          ((tt, inr (omega arith)), ((tt, inr (omega arith)), tt)))
        tiles_rewritten).0
      zeros zeros

calculate_nb_iterations-IsTripCount_example : IsTripCount inner (pos 3)
unfolding calculate_nb_iterations eqb_ℤ div_ℤ abs_ℕ ◌+ℤ◌ ◌-ℤ◌ ℕ_discrete dec_lt
calculate_nb_iterations-IsTripCount_example = calculate_nb_iterations-IsTripCount inner

rewrite-Fits_example : Fits shim subsumed_source
rewrite-Fits_example =
    (Ensures_at
      (λ new.
        FitsUnlessEmpty shim tiles.source new.source × FitsUnlessEmpty shim tiles.target new.target)
      (rewrite_with_loop_like_op_parent opts scaled_by_three tiles (outer ∷ inner ∷ []))
      tiles_subsumed (rewrite-Fits scaled_by_three opts tiles outer (inner ∷ [])) tiles_rewritten).0

-- A diagonal: both offsets are the induction variable.
abbrev diagonal : StridedOp
diagonal = record tiles { source = dynamic_dim 0 1 10 ∷ dynamic_dim 0 1 1 ∷ [] }

abbrev twice : Loop
twice = record { lower_bound = pos 0; upper_bound = pos 2; step = pos 1; induction_values = 0 ∷ [] }

abbrev diagonal_source : Pattern
diagonal_source = fixed_dim 0 2 10 ∷ fixed_dim 0 2 1 ∷ fixed_dim 0 1 10 ∷ fixed_dim 0 1 1 ∷ []

diagonal_rewritten :
    rewrite_with_loop_like_op_parent opts scaled_by_three diagonal (twice ∷ [])
    ≡ ok (record diagonal { source = diagonal_source })
unfolding rewrite_with_loop_like_op_parent may_subsume count_iterations calculate_nb_iterations
    violates_zero_stride zero_stride_inside subsume_loops subsume_side constant_dims
    add_iteration_to_new_access_pattern scan_offsets add_dependency definition_scale visit visit_mul
    add_bias set_offset set_offsets exceeds_nb_dims is_valid_access_pattern checked any_out_of_range
    out_of_range get_max_sizes get_max_strides fill_limits fill_n eqb_ℤ div_ℤ abs_ℕ ◌+ℤ◌ ◌-ℤ◌ ◌*ℤ◌
    ℕ_discrete dec_lt
diagonal_rewritten = refl

-- The two rounds visit two addresses, and the new pattern four.
diagonal_run :
    (run scaled_by_three zeros (twice ∷ []) diagonal.source zeros ≡ pos 0 ∷ pos 11 ∷ [])
    × (walk zeros diagonal_source ≡ pos 0 ∷ pos 1 ∷ pos 10 ∷ pos 11 ∷ [])
unfolding ◌+ℤ◌ ◌-ℤ◌ ◌*ℤ◌ ℕ_discrete dec_lt
diagonal_run = (refl, refl)

-- A loop without iterations is a failed assertion, and so is a product of a dimension and a symbol.
empty_loop : calculate_nb_iterations (record twice { upper_bound = pos 0 }) ≡ fault
unfolding calculate_nb_iterations ◌-ℤ◌
empty_loop = refl

product_with_symbol : visit (mul (dim 0) (symbol 0)) (record { scale = none; bias = none }) ≡ fault
unfolding visit visit_mul
product_with_symbol = refl
