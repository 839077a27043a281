-- ===== src/Dma/Subsume/Fits.antt =====
-- The patterns of the operation before the loops are within the limits of its DMAs.
use iree_amd_aie.Prelude.{ℕ, zero, suc, ◌≡◌, refl, ap, ◌∙◌, not, List, [], ◌∷◌, ◌++◌, if◌then◌else◌}
use iree_amd_aie.Prelude.Int.{ℤ}
use iree_amd_aie.Dma.Pattern.{
  Result, ok, failure, fault, ◌>>=◌, Ensures, Ensures-if, Ensures-bind, Ensures-any, Pattern,
  get_constant_int_value,
}
use iree_amd_aie.Dma.Limits.{DmaDimConfig, is_valid_access_pattern}
use iree_amd_aie.Dma.Limits.Positions.{WithinLimits}
use iree_amd_aie.Dma.Limits.Positions.Accepts.{is_valid_access_pattern-WithinLimits}
use iree_amd_aie.Dma.Subsume.{
  Loop, Definitions, Insertion, StridedOp, Options, nothing, add_iteration_to_new_access_pattern,
  cons_dim, constant_dims, subsume_side, subsume_loops, set_offset, set_offsets, apply_insertion,
  may_subsume, rewrite_with_loop_like_op_parent,
}

-- The sizes and the strides are constants within the limits of the DMA.
abbrev pub Fits : DmaDimConfig → Pattern → Type 0
Fits c p = (dims : List (ℤ × ℤ)) × (constant_dims p ≡ ok dims) × WithinLimits c dims

-- An empty pattern stays as it is.
abbrev pub FitsUnlessEmpty : DmaDimConfig → Pattern → Pattern → Type 0
FitsUnlessEmpty c [] new = Unit
FitsUnlessEmpty c (d ∷ p) new = Fits c new

-- Offsets do not matter.
constant_dims-set_offset :
    (i : ℕ) (x : ℤ) (p : Pattern) → constant_dims (set_offset i x p) ≡ constant_dims p
unfolding constant_dims set_offset
constant_dims-set_offset i x [] = refl
constant_dims-set_offset zero x (d ∷ p) = refl
constant_dims-set_offset (suc i) x (d ∷ p) =
    ap (cons_dim (get_constant_int_value d.size) (get_constant_int_value d.stride))
      (constant_dims-set_offset i x p)

constant_dims-set_offsets :
    (u : List (ℕ × ℤ)) (p : Pattern) → constant_dims (set_offsets u p) ≡ constant_dims p
unfolding set_offsets
constant_dims-set_offsets [] p = refl
constant_dims-set_offsets ((i, x) ∷ u) p =
    constant_dims-set_offsets u (set_offset i x p) ∙ constant_dims-set_offset i x p

constant_dims-prepend :
    (f p q : Pattern)
    → constant_dims p ≡ constant_dims q
    → constant_dims (f ++ p) ≡ constant_dims (f ++ q)
unfolding constant_dims
constant_dims-prepend [] p q h = h
constant_dims-prepend (d ∷ f) p q h =
    ap (cons_dim (get_constant_int_value d.size) (get_constant_int_value d.stride))
      (constant_dims-prepend f p q h)

checked_dims :
    (c : DmaDimConfig) (p : Pattern) (u : Insertion) (r : Result (List (ℤ × ℤ)))
    → constant_dims (u.inserted ++ p) ≡ r
    → Ensures
        (λ w. Fits c (apply_insertion w p))
        (r >>= λ dims. if is_valid_access_pattern c dims then ok u else failure)
checked_dims c p u failure e = tt
checked_dims c p u fault e = tt
checked_dims c p u (ok dims) e =
    Ensures-if (λ w. Fits c (apply_insertion w p)) (is_valid_access_pattern c dims) (ok u) failure
      (λ valid. (
        dims,
        constant_dims-prepend u.inserted (set_offsets u.updates p) p
              (constant_dims-set_offsets u.updates p)
            ∙ e,
        (is_valid_access_pattern-WithinLimits c dims).0 valid,
      ))
      (λ invalid. tt)

module _ (definitions : Definitions) where
  subsume_side-Fits :
      (c : DmaDimConfig) (l : Loop) (p : Pattern) (t : Insertion)
      → Ensures (λ u. FitsUnlessEmpty c p (apply_insertion u p)) (subsume_side definitions c l p t)
  unfolding subsume_side
  subsume_side-Fits c l [] t = tt
  subsume_side-Fits c l (d ∷ p) t =
      Ensures-bind (λ u. Unit) (λ u. Fits c (apply_insertion u (d ∷ p)))
        (add_iteration_to_new_access_pattern definitions l (d ∷ p) t) _
        (Ensures-any (add_iteration_to_new_access_pattern definitions l (d ∷ p) t))
        (λ u _. checked_dims c (d ∷ p) u (constant_dims (u.inserted ++ (d ∷ p))) refl)

  abbrev BothFit : StridedOp → Insertion × Insertion → Type 0
  BothFit op r =
      FitsUnlessEmpty op.source_config op.source (apply_insertion r.0 op.source)
      × FitsUnlessEmpty op.target_config op.target (apply_insertion r.1 op.target)

  subsume_loops-Fit :
      (op : StridedOp) (loops : List Loop) (s t : Insertion)
      → (loops ≡ [] → BothFit op (s, t))
      → Ensures (BothFit op) (subsume_loops definitions op loops s t)
  unfolding subsume_loops
  subsume_loops-Fit op [] s t h = h refl
  subsume_loops-Fit op (l ∷ loops) s t h =
      Ensures-bind _ (BothFit op) (subsume_side definitions op.source_config l op.source s) _
        (subsume_side-Fits op.source_config l op.source s)
        (λ u f.
          Ensures-bind _ (BothFit op) (subsume_side definitions op.target_config l op.target t) _
            (subsume_side-Fits op.target_config l op.target t)
            (λ w g. subsume_loops-Fit op loops u w (λ e. (f, g))))

  -- rewriteWithLoopLikeOpParent, for at least one loop: where it succeeds, the sizes and the strides
  -- of the new patterns are constants, and every dimension has size one, or stride zero, or a size
  -- and a stride that are not negative and within the limits of the DMA of its side for its position,
  -- unless a pattern was empty before.
  pub rewrite-Fits :
      (opts : Options) (op : StridedOp) (l : Loop) (loops : List Loop)
      → Ensures
          (λ new.
            FitsUnlessEmpty op.source_config op.source new.source
            × FitsUnlessEmpty op.target_config op.target new.target)
          (rewrite_with_loop_like_op_parent opts definitions op (l ∷ loops))
  unfolding rewrite_with_loop_like_op_parent
  rewrite-Fits opts op l loops =
      Ensures-bind (λ allowed. Unit) _ (may_subsume opts op (l ∷ loops)) _
        (Ensures-any (may_subsume opts op (l ∷ loops)))
        (λ allowed _.
          Ensures-if _ (not allowed) failure _ (λ _. tt)
            (λ _.
              Ensures-bind (BothFit op) _ (subsume_loops definitions op (l ∷ loops) nothing nothing)
                _ (subsume_loops-Fit op (l ∷ loops) nothing nothing (λ e. cc)) (λ r e. e)))
