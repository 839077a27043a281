-- ===== src/Dma/Limits/Positions/Accepts.antt =====
-- `isValidAccessPattern` accepts the patterns within the limits.
use mathlib.Core.Path.{subst}
use iree_amd_aie.Prelude.{
  ℕ, ◌≡◌, ◌⊎◌, refl, sym, ap, ◌∙◌, ◌↔◌, Bool, true, false, not, ◌&&◌, Bool-cases, inl, inr, some,
  List, [], ◌∷◌, length, map, arith,
}
use iree_amd_aie.Prelude.Int.{ℤ, pos, ◌≤ℤ◌}
use iree_amd_aie.Prelude.IntRing.{eqb_ℤ, eqb_ℤ-eq, eqb_ℤ-refl}
use iree_amd_aie.Dma.Limits.{DmaDimConfig, get_max_sizes, checked, is_valid_access_pattern}
use iree_amd_aie.Dma.Limits.Ranks.{InRange, is_valid_access_pattern_iff}
use iree_amd_aie.Dma.Limits.Positions.{
  count, size_limit, stride_limit, Limited, WithinLimits, positions,
}
use iree_amd_aie.Dma.Limits.Positions.Vectors.{get_max_sizes-positions, get_max_strides-positions}

length-checked : (dims : List (ℤ × ℤ)) → length (checked dims) ≡ count dims
unfolding checked
length-checked [] = refl
length-checked ((size, stride) ∷ dims) = ground (arith, length-checked dims)

-- The two vectors of the dimensions that count.
abbrev BothInRange : (ℕ → ℕ) → (ℕ → ℕ) → List (ℤ × ℤ) → Type 0
BothInRange f g dims =
    InRange (map (λ d. d.0) dims) (positions f (length dims))
    × InRange (map (λ d. d.1) dims) (positions g (length dims))

skipped :
    (size stride : ℤ)
    → (not (eqb_ℤ size (pos 1)) && not (eqb_ℤ stride (pos 0))) ≡ false
    → (size ≡ pos 1) ⊎ (stride ≡ pos 0)
skipped size stride h = elim (Bool-cases (eqb_ℤ size (pos 1))) [
  | inl e ↦ inl (eqb_ℤ-eq size (pos 1) e)
  | inr e ↦ inr (eqb_ℤ-eq stride (pos 0) (ground (arith, h, e)))
]

not_skipped :
    (size stride : ℤ)
    → (not (eqb_ℤ size (pos 1)) && not (eqb_ℤ stride (pos 0))) ≡ true
    → (size ≡ pos 1) ⊎ (stride ≡ pos 0)
    → ⊥
not_skipped size stride h (inl e) =
    clash (eqb_ℤ stride (pos 0)) (subst (λ z. eqb_ℤ z (pos 1) ≡ true) (sym e) (eqb_ℤ-refl (pos 1)))
  where
    clash : (b : Bool) → eqb_ℤ size (pos 1) ≡ true → ⊥
    clash b p = ground (arith, h, p)
not_skipped size stride h (inr e) =
    clash (subst (λ z. eqb_ℤ z (pos 0) ≡ true) (sym e) (eqb_ℤ-refl (pos 0)))
  where
    clash : eqb_ℤ stride (pos 0) ≡ true → ⊥
    clash p = ground (arith, h, p)

checked-Limited :
    (f g : ℕ → ℕ) (dims : List (ℤ × ℤ)) → BothInRange f g (checked dims) ↔ Limited f g dims
unfolding checked
checked-Limited f g [] = (λ h. tt, λ h. (tt, tt))
checked-Limited f g ((size, stride) ∷ dims) =
    let ih = checked-Limited f g dims in
    elim (Bool-cases (not (eqb_ℤ size (pos 1)) && not (eqb_ℤ stride (pos 0)))) [
      | inl e ↦ rw e (
        λ h. (
          inr (
              inr (
                h.0.0,
                subst (λ k. size ≤ℤ pos (f k)) (length-checked dims) h.0.1,
                h.1.0,
                subst (λ k. stride ≤ℤ pos (g k)) (length-checked dims) h.1.1,
              )),
          ih.0 (h.0.2, h.1.2),
        ),
        λ (h, rest). elim h [
          | inl s ↦ absurd (not_skipped size stride e (inl s))
          | inr t ↦ elim t [
            | inl s ↦ absurd (not_skipped size stride e (inr s))
            | inr b ↦
                let r = ih.1 rest in
                (
                  (b.0, subst (λ k. size ≤ℤ pos (f k)) (sym (length-checked dims)) b.1, r.0),
                  (b.2, subst (λ k. stride ≤ℤ pos (g k)) (sym (length-checked dims)) b.3, r.1),
                )
          ]
        ],
      )
      | inr e ↦ rw e (λ h. (unit (skipped size stride e), ih.0 h), λ (h, rest). ih.1 rest)
    ]
  where
    unit : {B : Type 0} → (size ≡ pos 1) ⊎ (stride ≡ pos 0) → (size ≡ pos 1) ⊎ (stride ≡ pos 0) ⊎ B
    unit (inl e) = inl e
    unit (inr e) = inr (inl e)

-- isValidAccessPattern accepts a pattern exactly when every dimension has size one, or stride zero,
-- or a size and a stride that are not negative and within the limits of its position among the
-- other dimensions: on an intra dimension, the maximal wrap, but no limit for the outermost one, and
-- the maximal step; on an inter dimension, the maximal iteration wrap and step; and 0 behind these.
-- On a circular DMA, every size is limited by the maximal wrap, and only the strides of the intra
-- dimensions by the maximal step.
pub is_valid_access_pattern-WithinLimits :
    (c : DmaDimConfig) (dims : List (ℤ × ℤ))
    → (is_valid_access_pattern c dims ≡ true) ↔ WithinLimits c dims
is_valid_access_pattern-WithinLimits c dims =
    let n = length (checked dims) in
    let iff = checked-Limited (size_limit c (count dims)) (stride_limit c) dims in
    let valid = is_valid_access_pattern_iff c dims in
    let sizes : get_max_sizes c (some n) ≡ positions (size_limit c (count dims)) n =
      get_max_sizes-positions c n ∙ ap (λ k. positions (size_limit c k) n) (length-checked dims) in
    let strides = get_max_strides-positions c n in
    (
      λ h. iff.0 (
        subst (InRange (map (λ d. d.0) (checked dims))) sizes (valid.0 h).0,
        subst (InRange (map (λ d. d.1) (checked dims))) strides (valid.0 h).1,
      ),
      λ h.
          let r = iff.1 h in
          valid.1 (
            subst (InRange (map (λ d. d.0) (checked dims))) (sym sizes) r.0,
            subst (InRange (map (λ d. d.1) (checked dims))) (sym strides) r.1,
          ),
    )
