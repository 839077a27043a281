-- ===== src/Dma/Limits/Ranks.antt =====
-- What `isValidAccessPattern` promises.
use mathlib.Core.Path.{subst}
use iree_amd_aie.Prelude.{
  ℕ, zero, suc, ◌+◌, ◌-◌, ◌≤◌, min, ◌≡◌, refl, ap, ◌↔◌, true, false, not, ◌&&◌, Bool-cases, inl,
  inr, some, List, [], ◌∷◌, ◌++◌, ltb, length, map, ltb→lt, replicate, All, arith, length-append,
  length-replicate,
}
use iree_amd_aie.Prelude.Int.{ℤ, pos, ◌≤ℤ◌}
use iree_amd_aie.Prelude.IntRing.{eqb_ℤ}
use iree_amd_aie.Dma.Limits.{
  DmaDimConfig, get_max_sizes, get_max_strides, out_of_range, any_out_of_range, checked,
  is_valid_access_pattern,
}
use iree_amd_aie.Dma.Limits.Layout.{get_max-layout, layout, intra_sizes}

length-intra_sizes : (k w : ℕ) → length (intra_sizes k w) ≡ k
length-intra_sizes zero w = refl
length-intra_sizes (suc k) w = ap suc (length-replicate k w)

length-layout :
    (n i e v : ℕ) (ys : List ℕ) → length ys ≡ i → i + e ≤ n → length (layout n i e v ys) ≡ n
length-layout n i e v ys h p = omega (
  arith,
  length-append (replicate (n - i - e) 0 ++ replicate e v) ys,
  length-append (replicate (n - i - e) 0) (replicate e v),
  length-replicate {A = ℕ} (n - i - e) 0,
  length-replicate e v,
)

pub length-get_max_sizes : (c : DmaDimConfig) (n : ℕ) → length (get_max_sizes c (some n)) ≡ n
unfolding get_max_sizes
length-get_max_sizes c n = elim (Bool-cases c.circular) [
  | inl h ↦ rw (get_max_sizes, h) (length-replicate n c.wrap_max)
  | inr h ↦ rw (get_max-layout c (some n) h).0 (
      length-layout n _ _ c.iter_wrap_max _ (length-intra_sizes (min c.nb_intra_dims n) c.wrap_max)
        (omega arith))
]

-- Where the values are as many as the limits, each is between 0 and its own limit.
abbrev pub InRange : List ℤ → List ℕ → Type 0
InRange [] ms = Unit
InRange (v ∷ vs) [] = Unit
InRange (v ∷ vs) (m ∷ ms) = (pos 0 ≤ℤ v) × (v ≤ℤ pos m) × InRange vs ms

out_of_range-InRange : (vs : List ℤ) (ms : List ℕ) → out_of_range vs ms ≡ false → InRange vs ms
unfolding out_of_range
out_of_range-InRange [] ms h = tt
out_of_range-InRange (v ∷ vs) [] h = tt
out_of_range-InRange (v ∷ vs) (m ∷ ms) h =
    (ground arith, ground arith, out_of_range-InRange vs ms (ground arith))

InRange-out_of_range : (vs : List ℤ) (ms : List ℕ) → InRange vs ms → out_of_range vs ms ≡ false
unfolding out_of_range
InRange-out_of_range [] ms h = refl
InRange-out_of_range (v ∷ vs) [] h = refl
InRange-out_of_range (v ∷ vs) (m ∷ ms) h = ground (arith, InRange-out_of_range vs ms h.2, h.0, h.1)

-- isValidAccessPattern accepts a pattern exactly when the sizes and the strides of the dimensions
-- that it checks are not negative and within the limits for so many dimensions, on any DMA.
pub is_valid_access_pattern_iff :
    (c : DmaDimConfig) (dims : List (ℤ × ℤ))
    → (is_valid_access_pattern c dims ≡ true) ↔ (
        InRange (map (λ d. d.0) (checked dims)) (get_max_sizes c (some (length (checked dims))))
        × InRange
            (map (λ d. d.1) (checked dims))
            (get_max_strides c (some (length (checked dims)))))
unfolding is_valid_access_pattern any_out_of_range
is_valid_access_pattern_iff c dims =
    rw (length-get_max_sizes c (length (checked dims)), none_left)
      (
        λ h. (
          out_of_range-InRange _ _ (ground (arith, h)),
          out_of_range-InRange _ _ (ground (arith, h)),
        ),
        λ h. ground (arith, InRange-out_of_range _ _ h.0, InRange-out_of_range _ _ h.1),
      )
  where
    none_left : length (checked dims) - length (checked dims) ≡ 0
    none_left = omega arith

checked-All : (P : ℤ × ℤ → Type 0) (dims : List (ℤ × ℤ)) → All P dims → All P (checked dims)
unfolding checked
checked-All P [] h = tt
checked-All P ((size, stride) ∷ dims) h =
    elim (Bool-cases (not (eqb_ℤ size (pos 1)) && not (eqb_ℤ stride (pos 0)))) [
      | inl e ↦ rw e (h.0, checked-All P dims h.1)
      | inr e ↦ rw e (checked-All P dims h.1)
    ]

-- A positive size does not fit a limit of zero.
zero_limit :
    (dims : List (ℤ × ℤ)) (k : ℕ) (xs ys : List ℕ)
    → 1 ≤ length dims
    → 1 ≤ k
    → All (λ d. pos 1 ≤ℤ d.0) dims
    → InRange (map (λ e. e.0) dims) (replicate k 0 ++ xs ++ ys)
    → ⊥
zero_limit [] k xs ys p q a h = omega arith
zero_limit (d ∷ dims) zero xs ys p q a h = omega arith
zero_limit (d ∷ dims) (suc k) xs ys p q a h = omega (arith, h.1, a.0)

-- On a DMA that is not circular, an accepted pattern of positive sizes has no more dimensions to
-- check than the DMA has intra and inter dimensions.
pub is_valid_access_pattern-ranks :
    (c : DmaDimConfig) (dims : List (ℤ × ℤ))
    → c.circular ≡ false
    → All (λ d. pos 1 ≤ℤ d.0) dims
    → is_valid_access_pattern c dims ≡ true
    → length (checked dims) ≤ c.nb_intra_dims + c.nb_inter_dims
is_valid_access_pattern-ranks c dims e a h =
    elim (Bool-cases (ltb (c.nb_intra_dims + c.nb_inter_dims) (length (checked dims)))) [
      | inl t ↦ absurd (
          zero_limit (checked dims)
            (n - min c.nb_intra_dims n - min c.nb_inter_dims (n - min c.nb_intra_dims n))
            (replicate (min c.nb_inter_dims (n - min c.nb_intra_dims n)) c.iter_wrap_max)
            (intra_sizes (min c.nb_intra_dims n) c.wrap_max) (ground arith)
            (omega (arith, ltb→lt _ _ t)) (checked-All _ dims a)
            (subst (InRange (map (λ d. d.0) (checked dims))) (get_max-layout c (some n) e).0
              ((is_valid_access_pattern_iff c dims).0 h).0))
      | inr t ↦ ground arith
    ]
  where
    n : ℕ
    n = length (checked dims)
