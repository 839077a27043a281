-- ===== src/Dma/Subsume.antt =====
-- compiler/plugins/target/AMD-AIE/iree-amd-aie/Transforms/AMDAIEDmaLoopSubsumption.cpp: a strided DMA
-- operation in a loop becomes one operation before the loop, whose access patterns iterate. A value
-- is a number, and a set of values a list.
pub mod Pass
pub mod Run
pub mod Trip
pub mod Scan
pub mod Advance
pub mod Nest
pub mod Unroll
pub mod Front
pub mod Sound
pub mod Fits
mod Tests
use iree_amd_aie.Prelude.{
  ℕ, zero, suc, ◌+◌, ◌-◌, Bool, true, false, not, ◌&&◌, ◌||◌, Option, none, some, List, [], ◌∷◌,
  ◌++◌, map, ltb, if◌then◌else◌, length, mem, count_if, all_of,
}
use iree_amd_aie.Prelude.Int.{ℤ, pos, ◌+ℤ◌, ◌-ℤ◌, ◌*ℤ◌, ltb_ℤ}
use iree_amd_aie.Prelude.IntRing.{eqb_ℤ, div_ℤ}
use iree_amd_aie.Dma.Pattern.{
  Result, ok, failure, fault, ◌>>=◌, OpFoldResult, attr, constant, value, get_constant_int_value,
  is_constant_int_value, Dim, Pattern,
}
use iree_amd_aie.Dma.Limits.{DmaDimConfig, exceeds_nb_dims, is_valid_access_pattern}
use iree_amd_aie.Dma.Affine.{AffineExpr, RetrieveScaleAndBias, visit, bias_of}

-- One loop: its bounds, its step and the values that depend on its induction variable.
pub record Loop : Type 0 where
  pub lower_bound : ℤ
  pub upper_bound : ℤ
  pub step : ℤ
  pub induction_values : List ℕ

-- The expressions of the values that an `affine.apply` defines.
abbrev pub Definitions : Type 0
Definitions = ℕ → Option AffineExpr

-- The two assertions are faults.
unfoldable pub calculate_nb_iterations : Loop → Result ℤ
calculate_nb_iterations l =
    let diff = l.upper_bound -ℤ l.lower_bound in
    if ltb_ℤ (pos 0) diff && ltb_ℤ (pos 0) l.step
    then ok (pos 1 +ℤ div_ℤ (diff -ℤ pos 1) l.step)
    else fault

-- The value of a loop that an offset is, where it is one.
abbrev pub value_of : OpFoldResult → Option ℕ
value_of (attr c) = none
value_of (constant v c) = some v
value_of (value v) = some v

abbrev pub dependency : Loop → OpFoldResult → Option ℕ
dependency l o = elim (value_of o) [
  | none ↦ none
  | some v ↦ if mem v l.induction_values then some v else none
]

abbrev pub scale_and_bias : Option ℤ → ℤ → Result (ℤ × ℤ)
scale_and_bias none bias = failure
scale_and_bias (some s) bias = ok (s, bias)

-- `offsetStride` and `offsetBase` of a value, by its definition.
unfoldable pub definition_scale : Option AffineExpr → Result (ℤ × ℤ)
definition_scale none = ok (pos 1, pos 0)
definition_scale (some e) =
    visit e (record { scale = none; bias = none }) >>= λ r. scale_and_bias r.scale (bias_of r)

abbrev pub offset_scale : Definitions → ℕ → Result (ℤ × ℤ)
offset_scale definitions v = definition_scale (definitions v)

-- The vectors to insert in front, as dimensions, and the offsets to update.
pub record Insertion : Type 0 where
  pub inserted : Pattern
  pub updates : List (ℕ × ℤ)

abbrev pub new_dim : ℤ → ℤ → Dim
new_dim size stride = record { offset = attr (pos 0); size = attr size; stride = attr stride }

abbrev pub insert_dim : Insertion → Dim → Insertion
insert_dim t d = record t { inserted = t.inserted ++ (d ∷ []) }

abbrev pub update_offset : Insertion → ℕ → ℤ → Insertion
update_offset t i c = record t { updates = t.updates ++ ((i, c) ∷ []) }

-- An offset that depends on the loop, as `scale * iv + bias`; `stride` is its stride, if constant.
unfoldable pub add_dependency : Loop → ℤ → ℕ → Option ℤ → ℤ × ℤ → Insertion → Result Insertion
add_dependency l n i none (scale, bias) t = fault
add_dependency l n i (some stride) (scale, bias) t =
    let u = update_offset t i (bias +ℤ l.lower_bound *ℤ scale) in
    if eqb_ℤ n (pos 1) then ok u else ok (insert_dim u (new_dim n (stride *ℤ scale *ℤ l.step)))

-- The body of the loop over the offsets, for a value that depends on the loop.
abbrev pub add_value : Definitions → Loop → ℤ → ℕ → Dim → ℕ → Insertion → Result Insertion
add_value definitions l n i d v t = offset_scale definitions v >>= λ scale.
    add_dependency l n i (get_constant_int_value d.stride) scale t

-- The loop over the offsets; the first component is `loopDependency`.
unfoldable pub scan_offsets :
    Definitions → Loop → ℤ → ℕ → Pattern → Bool → Insertion → Result (Bool × Insertion)
scan_offsets definitions l n i [] dependent t = ok (dependent, t)
scan_offsets definitions l n i (d ∷ p) dependent t = elim (dependency l d.offset) [
  | none ↦ scan_offsets definitions l n (suc i) p dependent t
  | some v ↦
      add_value definitions l n i d v t >>= λ u. scan_offsets definitions l n (suc i) p true u
]

-- A loop on which no offset depends repeats the operation.
abbrev pub add_repetition : ℤ → Bool → Insertion → Insertion
add_repetition n dependent t =
    if not dependent && not (eqb_ℤ n (pos 1)) then insert_dim t (new_dim n (pos 0)) else t

unfoldable pub add_iteration_to_new_access_pattern :
    Definitions → Loop → Pattern → Insertion → Result Insertion
add_iteration_to_new_access_pattern definitions l p t = calculate_nb_iterations l >>= λ n.
    scan_offsets definitions l n 0 p false t >>= λ s. ok (add_repetition n s.0 s.1)

-- `NpuDmaCpyNdOp` and `NpuCircularDmaCpyNdOp`; only the second one has the trait `CircularDmaOp`.
pub data Kind : Type 0 where
  npu_dma_cpy_nd npu_circular_dma_cpy_nd : Kind

abbrev pub is_circular : Kind → Bool
is_circular npu_dma_cpy_nd = false
is_circular npu_circular_dma_cpy_nd = true

-- The number of loops with more than one iteration.
unfoldable pub count_iterations : Kind → ℕ → List Loop → Result ℕ
count_iterations kind max_repeat [] = ok 0
count_iterations kind max_repeat (l ∷ loops) = calculate_nb_iterations l >>= λ n.
    if eqb_ℤ n (pos 0)
    then failure
    else if ltb_ℤ (pos max_repeat) n && not (is_circular kind)
    then failure
    else count_iterations kind max_repeat loops >>= λ k. ok ((if ltb_ℤ (pos 1) n then 1 else 0) + k)

-- `getConstantIntValues` of the sizes.
abbrev pub static_sizes : Pattern → Bool
static_sizes p =
    all_of (λ d. elim (get_constant_int_value d.size) [ none ↦ false | some n ↦ true ]) p

abbrev pub has_room : DmaDimConfig → ℕ → Pattern → Bool
has_room c nb_non_unit_iterations p =
    static_sizes p
    && not (
        exceeds_nb_dims c (
          length p
          - count_if (λ d. is_constant_int_value d.size (pos 1)) p
          + nb_non_unit_iterations))

abbrev pub outer_stride_is_zero : Pattern → Bool
outer_stride_is_zero [] = false
outer_stride_is_zero (d ∷ p) = is_constant_int_value d.stride (pos 0)

-- The offsets that are operands.
abbrev pub dynamic_offsets : Pattern → List ℕ
dynamic_offsets [] = []
dynamic_offsets (d ∷ p) = elim (value_of d.offset) [
  | none ↦ dynamic_offsets p
  | some v ↦ v ∷ dynamic_offsets p
]

abbrev pub misses : Loop → List ℕ → Bool
misses l [] = false
misses l (v ∷ offsets) = all_of (λ w. not (mem w l.induction_values)) (v ∷ offsets)

-- The loop over the iterations after the first.
unfoldable pub zero_stride_inside : List Loop → List ℕ → List ℕ → Result Bool
zero_stride_inside [] source target = ok false
zero_stride_inside (l ∷ loops) source target = calculate_nb_iterations l >>= λ n.
    if not (eqb_ℤ n (pos 1)) && (misses l source || misses l target)
    then ok true
    else zero_stride_inside loops source target

abbrev pub tail {ℓ} : {A : Type ℓ} → List A → List A
tail [] = []
tail (x ∷ xs) = xs

-- What the check on strides of zero refuses.
unfoldable pub violates_zero_stride : List Loop → Pattern → Pattern → Result Bool
violates_zero_stride loops source target =
    if outer_stride_is_zero source || outer_stride_is_zero target
    then ok true
    else zero_stride_inside (tail loops) (dynamic_offsets source) (dynamic_offsets target)

-- Sizes and strides together, as `insertInFront` and `isValidAccessPattern` see them.
abbrev pub cons_dim : Option ℤ → Option ℤ → Result (List (ℤ × ℤ)) → Result (List (ℤ × ℤ))
cons_dim none stride rest = fault
cons_dim (some size) none rest = fault
cons_dim (some size) (some stride) rest = rest >>= λ dims. ok ((size, stride) ∷ dims)

unfoldable pub constant_dims : Pattern → Result (List (ℤ × ℤ))
constant_dims [] = ok []
constant_dims (d ∷ p) =
    cons_dim (get_constant_int_value d.size) (get_constant_int_value d.stride) (constant_dims p)

-- One loop on one side, an empty pattern being left alone.
unfoldable pub subsume_side :
    Definitions → DmaDimConfig → Loop → Pattern → Insertion → Result Insertion
subsume_side definitions c l [] t = ok t
subsume_side definitions c l (d ∷ p) t =
    add_iteration_to_new_access_pattern definitions l (d ∷ p) t >>= λ u.
    constant_dims (u.inserted ++ (d ∷ p)) >>= λ dims.
    if is_valid_access_pattern c dims then ok u else failure

unfoldable pub set_offset : ℕ → ℤ → Pattern → Pattern
set_offset i c [] = []
set_offset zero c (d ∷ p) = record d { offset = attr c } ∷ p
set_offset (suc i) c (d ∷ p) = d ∷ set_offset i c p

unfoldable pub set_offsets : List (ℕ × ℤ) → Pattern → Pattern
set_offsets [] p = p
set_offsets ((i, c) ∷ updates) p = set_offsets updates (set_offset i c p)

abbrev pub apply_insertion : Insertion → Pattern → Pattern
apply_insertion t p = t.inserted ++ set_offsets t.updates p

-- The sides of an operation, each with its limits.
pub record StridedOp : Type 0 where
  pub kind : Kind
  pub source : Pattern
  pub target : Pattern
  pub source_config : DmaDimConfig
  pub target_config : DmaDimConfig

abbrev pub nothing : Insertion
nothing = record { inserted = []; updates = [] }

-- The loop over the loops, on both sides.
unfoldable pub subsume_loops :
    Definitions → StridedOp → List Loop → Insertion → Insertion → Result (Insertion × Insertion)
subsume_loops definitions op [] s t = ok (s, t)
subsume_loops definitions op (l ∷ loops) s t =
    subsume_side definitions op.source_config l op.source s >>= λ s'.
    subsume_side definitions op.target_config l op.target t >>= λ t'.
    subsume_loops definitions op loops s' t'

-- The options of the pass and what it asks of the device.
pub record Options : Type 0 where
  pub max_repeat_count : ℕ
  pub only_zero_stride_on_outer_dim : Bool

-- The checks before the patterns are built.
unfoldable pub may_subsume : Options → StridedOp → List Loop → Result Bool
may_subsume opts op loops = count_iterations op.kind opts.max_repeat_count loops >>= λ n.
    if not (has_room op.source_config n op.source && has_room op.target_config n op.target)
    then ok false
    else if opts.only_zero_stride_on_outer_dim && not (is_circular op.kind)
    then (violates_zero_stride loops op.source op.target >>= λ bad. ok (not bad))
    else ok true

unfoldable pub rewrite_with_loop_like_op_parent :
    Options → Definitions → StridedOp → List Loop → Result StridedOp
rewrite_with_loop_like_op_parent opts definitions op loops =
    may_subsume opts op loops >>= λ allowed.
    if not allowed
    then failure
    else (subsume_loops definitions op loops nothing nothing >>= λ t. ok (record op {
      source = apply_insertion t.0 op.source;
      target = apply_insertion t.1 op.target;
    }))
