-- ===== src/Dma/Affine.antt =====
-- AMDAIEDmaUtils.h: `RetrieveScaleAndBias`, which reads an affine expression of one dimension as a
-- scale and a bias.
use mathlib.Core.Option.{some_inj}
use iree_amd_aie.Prelude.{ℕ, ◌≡◌, refl, sym, Bool, true, false, Option, none, some, if◌then◌else◌}
use iree_amd_aie.Prelude.Int.{ℤ, pos, ◌+ℤ◌, ◌*ℤ◌, ltb_ℤ, int_laws, +ℤ_comm}
use iree_amd_aie.Prelude.IntRing.{*ℤ_comm, *ℤ_one}
use iree_amd_aie.Prelude.Result.{Result, ok, failure, fault, Ensures, Ensures-if, Ensures-map}

-- `mlir::AffineExpr`: `other` stands for the binary expressions mod, floordiv and ceildiv, whose
-- value is that of an operation `f`.
pub data AffineExpr : Type 0 where
  dim : ℕ → AffineExpr
  symbol : ℕ → AffineExpr
  const : ℤ → AffineExpr
  add : AffineExpr → AffineExpr → AffineExpr
  mul : AffineExpr → AffineExpr → AffineExpr
  other : (ℤ → ℤ → ℤ) → AffineExpr → AffineExpr → AffineExpr

-- The value, all dimensions being `x`.
abbrev pub value_at : (ℕ → ℤ) → ℤ → AffineExpr → ℤ
value_at σ x (dim i) = x
value_at σ x (symbol i) = σ i
value_at σ x (const c) = c
value_at σ x (add a b) = value_at σ x a +ℤ value_at σ x b
value_at σ x (mul a b) = value_at σ x a *ℤ value_at σ x b
value_at σ x (other f a b) = f (value_at σ x a) (value_at σ x b)

pub record RetrieveScaleAndBias : Type 0 where
  pub scale : Option ℤ
  pub bias : Option ℤ

abbrev pub constant_of : AffineExpr → Option ℤ
constant_of (const c) = some c
constant_of _ = none

abbrev pub is_dim : AffineExpr → Bool
is_dim (dim i) = true
is_dim _ = false

-- `getValue` of a cast that failed is a null dereference.
abbrev pub scaled : Option ℤ → RetrieveScaleAndBias → Result RetrieveScaleAndBias
scaled none r = fault
scaled (some c) r = ok (record r { scale = some c })

unfoldable pub visit_mul :
    AffineExpr → AffineExpr → RetrieveScaleAndBias → Result RetrieveScaleAndBias
visit_mul a b r =
    if is_dim a
    then scaled (constant_of b) r
    else if is_dim b
    then scaled (constant_of a) r
    else ok r

-- The operand beside the bias, `visit` being its visit.
abbrev pub visit_operand :
    AffineExpr
    → (RetrieveScaleAndBias → Result RetrieveScaleAndBias)
    → RetrieveScaleAndBias
    → Result RetrieveScaleAndBias
visit_operand (dim i) visit r = ok (record r { scale = some (pos 1) })
visit_operand (symbol i) visit r = failure
visit_operand (const c) visit r = failure
visit_operand (add a b) visit r = visit r
visit_operand (mul a b) visit r = visit r
visit_operand (other f a b) visit r = visit r

unfoldable pub add_bias :
    ℤ
    → AffineExpr
    → (RetrieveScaleAndBias → Result RetrieveScaleAndBias)
    → RetrieveScaleAndBias
    → Result RetrieveScaleAndBias
add_bias c e visit r =
    if ltb_ℤ c (pos 0) then failure else visit_operand e visit (record r { bias = some c })

-- `visitAddExpr`: a bias that is already there is refused, and the right operand is looked at first.
abbrev pub visit_add :
    Option ℤ
    → Option ℤ
    → Option ℤ
    → (ℤ → Result RetrieveScaleAndBias)
    → (ℤ → Result RetrieveScaleAndBias)
    → Result RetrieveScaleAndBias
visit_add (some d) b a on_right on_left = failure
visit_add none (some c) a on_right on_left = on_right c
visit_add none none (some c) on_right on_left = on_left c
visit_add none none none on_right on_left = failure

visit_add-Ensures {ℓ} :
    (P : RetrieveScaleAndBias → Type ℓ) (bias b a : Option ℤ)
    (on_right on_left : ℤ → Result RetrieveScaleAndBias)
    → ((c : ℤ) → bias ≡ none → b ≡ some c → Ensures P (on_right c))
    → ((c : ℤ) → bias ≡ none → a ≡ some c → Ensures P (on_left c))
    → Ensures P (visit_add bias b a on_right on_left)
visit_add-Ensures P (some d) b a on_right on_left h k = tt
visit_add-Ensures P none (some c) a on_right on_left h k = h c refl refl
visit_add-Ensures P none none (some c) on_right on_left h k = k c refl refl
visit_add-Ensures P none none none on_right on_left h k = tt

unfoldable pub visit : AffineExpr → RetrieveScaleAndBias → Result RetrieveScaleAndBias
visit (dim i) r = failure
visit (symbol i) r = failure
visit (const c) r = failure
visit (add a b) r =
    visit_add r.bias (constant_of b) (constant_of a) (λ c. add_bias c a (visit a) r)
      (λ c. add_bias c b (visit b) r)
visit (mul a b) r = visit_mul a b r
visit (other f a b) r = failure

abbrev pub bias_of : RetrieveScaleAndBias → ℤ
bias_of r = elim r.bias [ none ↦ pos 0 | some c ↦ c ]

+ℤ_zero : (a : ℤ) → a +ℤ pos 0 ≡ a
+ℤ_zero a = omega int_laws

module _ (σ : ℕ → ℤ) (x : ℤ) where
  constant_of-value : (e : AffineExpr) (c : ℤ) → constant_of e ≡ some c → value_at σ x e ≡ c
  constant_of-value (dim i) c h = cc
  constant_of-value (symbol i) c h = cc
  constant_of-value (const d) c h = cc
  constant_of-value (add a b) c h = cc
  constant_of-value (mul a b) c h = cc
  constant_of-value (other f a b) c h = cc

  is_dim-value : (e : AffineExpr) → is_dim e ≡ true → value_at σ x e ≡ x
  is_dim-value (dim i) h = cc
  is_dim-value (symbol i) h = cc
  is_dim-value (const d) h = cc
  is_dim-value (add a b) h = cc
  is_dim-value (mul a b) h = cc
  is_dim-value (other f a b) h = cc

  -- What a visit has read: the value and the bias before it are the scaled dimension and the bias.
  abbrev pub Reads : AffineExpr → RetrieveScaleAndBias → RetrieveScaleAndBias → Type 0
  Reads e r t = (s : ℤ) → t.scale ≡ some s → value_at σ x e +ℤ bias_of r ≡ s *ℤ x +ℤ bias_of t

  scaled-Reads :
      (e : AffineExpr) (o : Option ℤ) (r : RetrieveScaleAndBias)
      → ((c : ℤ) → o ≡ some c → value_at σ x e ≡ c *ℤ x)
      → Ensures (Reads e r) (scaled o r)
  scaled-Reads e none r k = tt
  scaled-Reads e (some c) r k = λ s h. rw (k c refl, some_inj.0 h)

  visit_mul-Reads :
      (a b : AffineExpr) (r : RetrieveScaleAndBias)
      → r.scale ≡ none
      → Ensures (Reads (mul a b) r) (visit_mul a b r)
  unfolding visit_mul
  visit_mul-Reads a b r fresh =
      Ensures-if (Reads (mul a b) r) (is_dim a) _ _
        (λ d.
          scaled-Reads (mul a b) (constant_of b) r
            (λ c h. rw (is_dim-value a d, constant_of-value b c h) (*ℤ_comm x c)))
        (λ n.
          Ensures-if (Reads (mul a b) r) (is_dim b) _ _
            (λ d.
              scaled-Reads (mul a b) (constant_of a) r
                (λ c h. rw (is_dim-value b d, constant_of-value a c h)))
            (λ m s e. cc))

  dim-Reads :
      (i : ℕ) (r : RetrieveScaleAndBias) → Reads (dim i) r (record r { scale = some (pos 1) })
  dim-Reads i r s h = rw (sym (some_inj.0 h), *ℤ_comm (pos 1) x, *ℤ_one x)

  operand-Reads :
      (a : AffineExpr) (r : RetrieveScaleAndBias)
      → Ensures (Reads a r) (visit a r)
      → Ensures (Reads a r) (visit_operand a (visit a) r)
  operand-Reads (dim i) r k = dim-Reads i r
  operand-Reads (symbol i) r k = tt
  operand-Reads (const c) r k = tt
  operand-Reads (add a b) r k = k
  operand-Reads (mul a b) r k = k
  operand-Reads (other f a b) r k = k

  -- An expression `e` that is `a` and a bias.
  add_bias-Reads :
      (e a : AffineExpr) (c : ℤ) (r : RetrieveScaleAndBias)
      → r.scale ≡ none
      → r.bias ≡ none
      → value_at σ x e ≡ value_at σ x a +ℤ c
      → ((t : RetrieveScaleAndBias) → t.scale ≡ none → Ensures (Reads a t) (visit a t))
      → Ensures (Reads e r) (add_bias c a (visit a) r)
  unfolding add_bias
  add_bias-Reads e a c r fresh unbiased v k =
      let s : RetrieveScaleAndBias = record r { bias = some c } in
      Ensures-if (Reads e r) (ltb_ℤ c (pos 0)) _ _ (λ _. tt)
        (λ _.
          Ensures-map (Reads a s) (Reads e r) (visit_operand a (visit a) s)
            (operand-Reads a s (k s fresh)) (λ t h j e. rw (unbiased, v, +ℤ_zero) (h j e)))

  pub visit-Reads :
      (e : AffineExpr) (r : RetrieveScaleAndBias) → r.scale ≡ none → Ensures (Reads e r) (visit e r)
  unfolding visit
  visit-Reads (dim i) r fresh = tt
  visit-Reads (symbol i) r fresh = tt
  visit-Reads (const c) r fresh = tt
  visit-Reads (add a b) r fresh =
      visit_add-Ensures (Reads (add a b) r) r.bias (constant_of b) (constant_of a) _ _
        (λ c e f.
          add_bias-Reads (add a b) a c r fresh e (rw (constant_of-value b c f)) (visit-Reads a))
        (λ c e f.
          add_bias-Reads (add a b) b c r fresh e
            (rw (constant_of-value a c f) (+ℤ_comm c (value_at σ x b))) (visit-Reads b))
  visit-Reads (mul a b) r fresh = visit_mul-Reads a b r fresh
  visit-Reads (other f a b) r fresh = tt
