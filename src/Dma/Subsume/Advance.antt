-- ===== src/Dma/Subsume/Advance.antt =====
-- How the first address of a pattern moves from round to round of a loop.
use mathlib.Core.Path.{ap₂}
use mathlib.Core.Option.{some_inj}
use iree_amd_aie.Prelude.{
  ℕ, ◌≡◌, refl, sym, ap, ◌∙◌, false, Bool-cases, inl, inr, Option, none, some, mem,
}
use iree_amd_aie.Prelude.Int.{ℤ, pos, ◌+ℤ◌, ◌*ℤ◌, int_laws}
use iree_amd_aie.Prelude.IntRing.{*ℤ_parts, *ℤ_comm, *ℤ_assoc, *ℤ_add, add-*ℤ}
use iree_amd_aie.Dma.Pattern.{
  Result, ok, failure, fault, ◌>>=◌, Ensures, OpFoldResult, attr, constant, value,
  get_constant_int_value, Dim, Env, eval,
}
use iree_amd_aie.Dma.Affine.{
  AffineExpr, RetrieveScaleAndBias, visit, bias_of, value_at, visit-Reads, Reads,
}
use iree_amd_aie.Dma.Subsume.{Loop, Definitions, dependency, scale_and_bias, definition_scale}
use iree_amd_aie.Dma.Subsume.Run.{induced, enter}
use iree_amd_aie.Dma.Subsume.Scan.{ok_or_zero, scale_of, first_offset}

-- (s (x + k t) + b) c, as a function of k.
step_of_affine :
    (s x b c k t : ℤ) → (s *ℤ (x +ℤ k *ℤ t) +ℤ b) *ℤ c ≡ (b +ℤ x *ℤ s) *ℤ c +ℤ k *ℤ (c *ℤ s *ℤ t)
step_of_affine s x b c k t =
    ap (λ z. (z +ℤ b) *ℤ c) (*ℤ_add s x (k *ℤ t))
    ∙ add-*ℤ (s *ℤ x +ℤ s *ℤ (k *ℤ t)) b c
    ∙ ap (λ z. z +ℤ b *ℤ c) (add-*ℤ (s *ℤ x) (s *ℤ (k *ℤ t)) c)
    ∙ rotate (s *ℤ x *ℤ c) (s *ℤ (k *ℤ t) *ℤ c) (b *ℤ c)
    ∙ ap₂ ◌+ℤ◌ (sym (add-*ℤ b (s *ℤ x) c) ∙ ap (λ z. (b +ℤ z) *ℤ c) (*ℤ_comm s x)) moved
  where
    rotate : (a e f : ℤ) → a +ℤ e +ℤ f ≡ f +ℤ a +ℤ e
    rotate a e f = omega int_laws

    moved : s *ℤ (k *ℤ t) *ℤ c ≡ k *ℤ (c *ℤ s *ℤ t)
    moved =
        *ℤ_comm (s *ℤ (k *ℤ t)) c
        ∙ sym (*ℤ_assoc c s (k *ℤ t))
        ∙ sym (*ℤ_assoc (c *ℤ s) k t)
        ∙ ap (λ z. z *ℤ t) (*ℤ_comm (c *ℤ s) k)
        ∙ *ℤ_assoc k (c *ℤ s) t

+ℤ_zero : (a : ℤ) → a +ℤ pos 0 ≡ a
+ℤ_zero a = omega int_laws

-- The sizes and the strides are constants.
abbrev pub IsConstant : Dim → Type 0
IsConstant d =
    (n : ℤ) × (s : ℤ) × (get_constant_int_value d.size ≡ some n)
    × (get_constant_int_value d.stride ≡ some s)

-- `arith.constant` does not define an induction value.
abbrev pub IsFree : Loop → OpFoldResult → Type 0
IsFree l (attr c) = Unit
IsFree l (constant v c) = mem v l.induction_values ≡ false
IsFree l (value v) = Unit

module _ (symbols : ℕ → ℤ) (x : ℤ) where
  scale_and_bias-value :
      (e : AffineExpr) (r : RetrieveScaleAndBias) (scale : Option ℤ) (s b : ℤ)
      → r.scale ≡ scale
      → Reads symbols x e (record { scale = none; bias = none }) r
      → scale_and_bias scale (bias_of r) ≡ ok (s, b)
      → value_at symbols x e ≡ s *ℤ x +ℤ b
  scale_and_bias-value e r none s b f h k = cc
  scale_and_bias-value e r (some c) s b f h k =
      sym (+ℤ_zero (value_at symbols x e))
      ∙ h c f
      ∙ ap₂ (λ t u. t *ℤ x +ℤ u) (ap (λ z. (ok_or_zero z).0) k) (ap (λ z. (ok_or_zero z).1) k)

  read-value :
      (e : AffineExpr) (r : Result RetrieveScaleAndBias) (s b : ℤ)
      → Ensures (Reads symbols x e (record { scale = none; bias = none })) r
      → r >>= (λ t. scale_and_bias t.scale (bias_of t)) ≡ ok (s, b)
      → value_at symbols x e ≡ s *ℤ x +ℤ b
  read-value e (ok r) s b h k = scale_and_bias-value e r r.scale s b refl h k
  read-value e failure s b h k = cc
  read-value e fault s b h k = cc

  -- A scale and a bias are those of the value.
  definition_scale-induced :
      (definition : Option AffineExpr) (s b : ℤ)
      → definition_scale definition ≡ ok (s, b)
      → induced symbols x definition ≡ s *ℤ x +ℤ b
  unfolding definition_scale
  definition_scale-induced none s b h =
      one_x ∙ ap₂ (λ t u. t *ℤ x +ℤ u) (ap (λ z. (ok_or_zero z).0) h) (ap (λ z. (ok_or_zero z).1) h)
    where
      one_x : x ≡ pos 1 *ℤ x +ℤ pos 0
      one_x = omega (int_laws, *ℤ_parts (pos 1) x)
  definition_scale-induced (some e) s b h =
      read-value e (visit e (record { scale = none; bias = none })) s b
        (visit-Reads symbols x e (record { scale = none; bias = none }) refl) h

module _ (definitions : Definitions) (symbols : ℕ → ℤ) where
  module _ (l : Loop) (ρ : Env) where
    pub eval-enter-none :
        (o : OpFoldResult) (x : ℤ)
        → dependency l o ≡ none
        → eval (enter definitions symbols l x ρ) o ≡ eval ρ o
    eval-enter-none (attr c) x h = refl
    eval-enter-none (constant v c) x h = refl
    eval-enter-none (value v) x h = elim (Bool-cases (mem v l.induction_values)) [
      | inl e ↦ absurd (cc)
      | inr e ↦ rw (enter, e)
    ]

    eval-enter-some :
        (o : OpFoldResult) (v : ℕ) (x : ℤ)
        → dependency l o ≡ some v
        → IsFree l o
        → eval (enter definitions symbols l x ρ) o ≡ induced symbols x (definitions v)
    eval-enter-some (attr c) v x h f = cc
    eval-enter-some (constant w c) v x h f = absurd (cc)
    eval-enter-some (value w) v x h f = elim (Bool-cases (mem w l.induction_values)) [
      | inl e ↦ rw (enter, e) (ap (λ u. induced symbols x (definitions u)) (some_inj.0 (rw e at h)))
      | inr e ↦ absurd (cc)
    ]

    -- The value of a dependent offset in round `k`.
    pub dependent-step :
        (o : OpFoldResult) (v : ℕ) (stride k : ℤ)
        → dependency l o ≡ some v
        → IsFree l o
        → definition_scale (definitions v) ≡ ok (scale_of definitions l v)
        → eval (enter definitions symbols l (l.lower_bound +ℤ k *ℤ l.step) ρ) o *ℤ stride
          ≡ first_offset definitions l v *ℤ stride
            +ℤ k *ℤ (stride *ℤ (scale_of definitions l v).0 *ℤ l.step)
    dependent-step o v stride k e f h =
        let s : ℤ × ℤ = scale_of definitions l v in
        ap (λ z. z *ℤ stride)
          (eval-enter-some o v (l.lower_bound +ℤ k *ℤ l.step) e f
            ∙ definition_scale-induced symbols (l.lower_bound +ℤ k *ℤ l.step) (definitions v) s.0
                s.1 h)
        ∙ step_of_affine s.0 l.lower_bound s.1 stride k l.step
