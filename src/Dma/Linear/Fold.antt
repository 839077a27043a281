-- ===== src/Dma/Linear/Fold.antt =====
-- `foldLinearDims` keeps the walk of a pattern whose sizes are not negative.
use mathlib.Core.Path.{subst, ap₂}
use iree_amd_aie.Prelude.{
  ℕ, ◌*◌, ◌≡◌, ◌≢◌, refl, sym, ap, ◌∙◌, Bool, true, false, ◌&&◌, ◌||◌, Option, none, some, [], ◌∷◌,
  reverse, arith, length, All, All-reverse,
}
use iree_amd_aie.Prelude.Int.{ℤ, pos, negsuc, pos_part, neg_part, ◌+ℤ◌, ◌*ℤ◌, int_laws}
use iree_amd_aie.Prelude.IntRing.{
  eqb_ℤ, eqb_ℤ-eq, eqb_ℤ-refl, div_ℤ, mul-div, *ℤ_comm, *ℤ_assoc, add-*ℤ, *ℤ_parts,
}
use iree_amd_aie.Dma.Pattern.{
  OpFoldResult, attr, Dim, Pattern, ok, get_constant_int_value, is_constant_int_value, Ensures,
  Ensures_at, Ensures-if, Ensures-map, Ensures-bind, Env, eval, eval-constant, eval-is_constant,
}
use iree_amd_aie.Dma.Walk.{walk}
use iree_amd_aie.Dma.Units.Match.{SamePattern, SamePattern-walk}
use iree_amd_aie.Dma.Linear.{
  all_static, shift_offset, fold_constants, fold_one, fold_from, fold_reversed, fold_linear_dims,
}
use iree_amd_aie.Dma.Linear.Same.{
  SamePattern-refl, SamePattern-trans, onto, onto-SamePattern, onto-reverse, split-SamePattern,
}

-- The size is not negative at run time.
abbrev pub IsNonneg : Env → Dim → Type 0
IsNonneg ρ d = neg_part (eval ρ d.size) ≡ 0

abbrev HeadIsNonneg : Env → Pattern → Type 0
HeadIsNonneg ρ [] = Unit
HeadIsNonneg ρ (e ∷ new) = IsNonneg ρ e

nonneg-pos : (z : ℤ) → neg_part z ≡ 0 → z ≡ pos (pos_part z)
nonneg-pos (pos n) h = refl
nonneg-pos (negsuc n) h = absurd (omega arith)

pos-mul : (m n : ℕ) → pos m *ℤ pos n ≡ pos (m * n)
pos-mul m n = omega (int_laws, *ℤ_parts (pos m) (pos n))

SamePattern-sym : (ρ : Env) (p q : Pattern) → SamePattern ρ p q → SamePattern ρ q p
SamePattern-sym ρ p q s = record { bases = sym s.bases; sweeps = λ b. sym (s.sweeps b) }

-- What one round leaves.
abbrev Folded : Env → Pattern → Bool × Pattern → Type 0
Folded ρ p r = SamePattern ρ p r.1 × HeadIsNonneg ρ r.1

-- Folding is the reverse of splitting a loop, for any offset that adds the same.
fold-Folded :
    (ρ : Env) (d e : Dim) (new : Pattern) (offset : OpFoldResult) (found : Bool) (ns s np sp : ℤ)
    → get_constant_int_value d.size ≡ some ns
    → get_constant_int_value d.stride ≡ some s
    → get_constant_int_value e.size ≡ some np
    → get_constant_int_value e.stride ≡ some sp
    → IsNonneg ρ d
    → IsNonneg ρ e
    → sp *ℤ np ≡ s
    → eval ρ offset *ℤ sp ≡ eval ρ d.offset *ℤ s +ℤ eval ρ e.offset *ℤ sp
    → Folded ρ (d ∷ e ∷ new) (found, record e { offset = offset; size = attr (ns *ℤ np) } ∷ new)
fold-Folded ρ d e new offset found ns s np sp hn hs hnp hsp nd ne extent o =
    let eds = eval-constant ρ d.size ns hn in
    let edt = eval-constant ρ d.stride s hs in
    let ees = eval-constant ρ e.size np hnp in
    let eet = eval-constant ρ e.stride sp hsp in
    let pd = nonneg-pos (eval ρ d.size) nd in
    let pe = nonneg-pos (eval ρ e.size) ne in
    let product : ns *ℤ np ≡ pos (pos_part (eval ρ d.size) * pos_part (eval ρ e.size)) =
      ap₂ ◌*ℤ◌ (sym eds ∙ pd) (sym ees ∙ pe) ∙ pos-mul _ _ in
    (
      SamePattern-sym ρ _ _ (
          split-SamePattern ρ (attr (ns *ℤ np)) d.size e.size offset d.offset e.offset e.stride
            d.stride (pos_part (eval ρ d.size)) (pos_part (eval ρ e.size)) new product pd pe
            (edt ∙ sym extent ∙ *ℤ_comm sp np ∙ ap₂ ◌*ℤ◌ (sym ees ∙ pe) (sym eet))
            (rw (edt, eet) o)),
      rw product refl,
    )

ne-zero : (z : ℤ) → eqb_ℤ z (pos 0) ≡ false → z ≢ pos 0
ne-zero z h e = cc (subst (λ t. eqb_ℤ t (pos 0) ≡ false) e h, eqb_ℤ-refl (pos 0))

-- The offset of the outer dimension, in strides of the inner one.
div-extent : (o s np sp : ℤ) → sp ≢ pos 0 → sp *ℤ np ≡ s → div_ℤ (o *ℤ s) sp *ℤ sp ≡ o *ℤ s
div-extent o s np sp h e =
    let regroup : o *ℤ s ≡ o *ℤ np *ℤ sp =
      ap (λ t. o *ℤ t) (sym e ∙ *ℤ_comm sp np) ∙ sym (*ℤ_assoc o np sp) in
    rw (regroup, mul-div (o *ℤ np) sp h)

keep-Folded :
    (ρ : Env) (d e : Dim) (new : Pattern)
    → IsNonneg ρ d
    → Folded ρ (d ∷ e ∷ new) (false, d ∷ e ∷ new)
keep-Folded ρ d e new nd = (SamePattern-refl ρ (d ∷ e ∷ new), nd)

shift_offset-Folded :
    (check : ℕ → ℤ → Bool) (ρ : Env) (d e : Dim) (new : Pattern) (ns s np sp : ℤ) (o p : Option ℤ)
    → get_constant_int_value d.size ≡ some ns
    → get_constant_int_value d.stride ≡ some s
    → get_constant_int_value e.size ≡ some np
    → get_constant_int_value e.stride ≡ some sp
    → get_constant_int_value d.offset ≡ o
    → get_constant_int_value e.offset ≡ p
    → IsNonneg ρ d
    → IsNonneg ρ e
    → sp *ℤ np ≡ s
    → Ensures (Folded ρ (d ∷ e ∷ new)) (shift_offset check (ns *ℤ np) d e new s sp o p)
unfolding shift_offset
shift_offset-Folded check ρ d e new ns s np sp none p hn hs hnp hsp ho hp nd ne x =
    keep-Folded ρ d e new nd
shift_offset-Folded check ρ d e new ns s np sp (some o) none hn hs hnp hsp ho hp nd ne x =
    keep-Folded ρ d e new nd
shift_offset-Folded check ρ d e new ns s np sp (some o) (some p) hn hs hnp hsp ho hp nd ne x =
    Ensures-if (Folded ρ (d ∷ e ∷ new)) (eqb_ℤ sp (pos 0)) _ _ (λ _. tt)
      λ z.
        fold-Folded ρ d e new (attr (p +ℤ div_ℤ (o *ℤ s) sp)) true ns s np sp hn hs hnp hsp nd ne x
          (add-*ℤ p (div_ℤ (o *ℤ s) sp) sp
            ∙ ap (λ t. p *ℤ sp +ℤ t) (div-extent o s np sp (ne-zero sp z) x)
            ∙ rw (eval-constant ρ d.offset o ho, eval-constant ρ e.offset p hp) (omega int_laws))

fold_constants-Folded :
    (check : ℕ → ℤ → Bool) (ρ : Env) (d e : Dim) (new : Pattern) (n s np sp : Option ℤ)
    → get_constant_int_value d.size ≡ n
    → get_constant_int_value d.stride ≡ s
    → get_constant_int_value e.size ≡ np
    → get_constant_int_value e.stride ≡ sp
    → IsNonneg ρ d
    → IsNonneg ρ e
    → Ensures (Folded ρ (d ∷ e ∷ new)) (fold_constants check d e new n s np sp)
unfolding fold_constants
fold_constants-Folded check ρ d e new none s np sp hn hs hnp hsp nd ne = tt
fold_constants-Folded check ρ d e new (some n) none np sp hn hs hnp hsp nd ne = tt
fold_constants-Folded check ρ d e new (some n) (some s) none sp hn hs hnp hsp nd ne = tt
fold_constants-Folded check ρ d e new (some n) (some s) (some np) none hn hs hnp hsp nd ne = tt
fold_constants-Folded check ρ d e new (some n) (some s) (some np) (some sp) hn hs hnp hsp nd ne =
    Ensures-if (Folded ρ (d ∷ e ∷ new)) (check (length new) (n *ℤ np) && eqb_ℤ (sp *ℤ np) s) _ _
      (λ t.
        let x = eqb_ℤ-eq (sp *ℤ np) s (ground arith) in
        Ensures-if (Folded ρ (d ∷ e ∷ new)) (is_constant_int_value d.offset (pos 0)) _ _
          (λ z.
            fold-Folded ρ d e new e.offset true n s np sp hn hs hnp hsp nd ne x
              (rw (eval-is_constant ρ d.offset (pos 0) z) (omega (int_laws, *ℤ_parts (pos 0) s))))
          (λ z. shift_offset-Folded check ρ d e new n s np sp _ _ hn hs hnp hsp refl refl nd ne x))
      (λ _. keep-Folded ρ d e new nd)

module _ (check : ℕ → ℤ → Bool) (ρ : Env) where
  fold_one-Folded :
      (d : Dim) (new : Pattern)
      → IsNonneg ρ d
      → HeadIsNonneg ρ new
      → Ensures (Folded ρ (d ∷ new)) (fold_one check d new)
  unfolding fold_one
  fold_one-Folded d [] nd nh = tt
  fold_one-Folded d (e ∷ new) nd nh =
      fold_constants-Folded check ρ d e new _ _ _ _ refl refl refl refl nd nh

  fold_from-Same :
      (p new : Pattern) (found : Bool)
      → All (IsNonneg ρ) p
      → HeadIsNonneg ρ new
      → Ensures (SamePattern ρ (onto p new)) (fold_from check p new found)
  unfolding fold_from
  fold_from-Same [] new found a nh =
      Ensures-if (SamePattern ρ new) found _ _ (λ _. SamePattern-refl ρ new) (λ _. tt)
  fold_from-Same (d ∷ p) new found a nh =
      Ensures-bind (Folded ρ (d ∷ new)) (SamePattern ρ (onto p (d ∷ new))) (fold_one check d new) _
        (fold_one-Folded d new a.0 nh)
        λ r f.
          Ensures-map (SamePattern ρ (onto p r.1)) (SamePattern ρ (onto p (d ∷ new))) _
            (fold_from-Same p r.1 (found || r.0) a.1 f.1)
            λ q s. SamePattern-trans ρ _ _ _ (onto-SamePattern ρ p (d ∷ new) r.1 f.0) s

  fold_reversed-Same :
      (p : Pattern)
      → All (IsNonneg ρ) p
      → Ensures (SamePattern ρ (onto p [])) (fold_reversed check p)
  unfolding fold_reversed
  fold_reversed-Same [] a = tt
  fold_reversed-Same (d ∷ p) a = fold_from-Same p (d ∷ []) false a.1 a.0

-- When foldLinearDims succeeds on a pattern with no negative size, the new pattern visits the same
-- addresses in the same order, for any test of valid sizes and whatever the offsets that are not
-- constant are.
pub fold_linear_dims-walk :
    (check_valid_size : ℕ → ℤ → Bool) (p q : Pattern) (ρ : Env)
    → All (IsNonneg ρ) p
    → fold_linear_dims check_valid_size p ≡ ok q
    → walk ρ q ≡ walk ρ p
unfolding fold_linear_dims
fold_linear_dims-walk check p q ρ a h = sym (SamePattern-walk ρ p q (Ensures_at _ _ q whole h))
  where
    whole : Ensures (SamePattern ρ p) (fold_linear_dims check p)
    whole =
        Ensures-if (SamePattern ρ p) (all_static p) _ _
          (λ _.
            subst (λ s. Ensures (SamePattern ρ s) (fold_reversed check (reverse p)))
              (onto-reverse p)
              (fold_reversed-Same check ρ (reverse p) (All-reverse (IsNonneg ρ) p a)))
          (λ _. tt)
