-- ===== src/Dma/Limits/Layout.antt =====
-- What the limits are, dimension by dimension.
use mathlib.Core.Path.{subst}
use mathlib.Core.List.{append-nil}
use native.Mathlib.Nat.{zero-add}
use iree_amd_aie.Prelude.{
  ℕ, zero, suc, ◌+◌, ◌-◌, ◌%◌, ◌^◌, min, ◌≡◌, refl, ap, ◌∙◌, false, Bool-cases, inl, inr, Option,
  List, [], ◌∷◌, ◌++◌, ltb, set, replicate, arith,
}
use iree_amd_aie.Dma.Limits.{
  DmaDimConfig, int64_max, fill_n, nb_dims, fill_limits, unlimit, get_max_sizes, get_max_strides,
}

pub fill_front :
    (c x v : ℕ) (ys : List ℕ) → fill_n (replicate c x ++ ys) 0 c v ≡ replicate c v ++ ys
unfolding fill_n
fill_front zero x v [] = refl
fill_front zero x v (y ∷ ys) = refl
fill_front (suc c) x v ys = ap (λ t. v ∷ t) (fill_front c x v ys)

suc-add : (a b : ℕ) → suc a + b ≡ suc (a + b)
suc-add a b = omega arith

-- Filling the part of a constant vector behind its first `s` entries.
fill_n-replicate :
    (s c x v : ℕ) (ys : List ℕ)
    → fill_n (replicate (s + c) x ++ ys) s c v ≡ replicate s x ++ replicate c v ++ ys
unfolding fill_n
fill_n-replicate zero c x v ys = rw (zero-add c) (fill_front c x v ys)
fill_n-replicate (suc s) c x v ys = rw (suc-add s c) (ap (λ t. x ∷ t) (fill_n-replicate s c x v ys))

pub fill_part :
    (n s c x v : ℕ) (ys : List ℕ)
    → n ≡ s + c
    → fill_n (replicate n x ++ ys) s c v ≡ replicate s x ++ replicate c v ++ ys
fill_part n s c x v ys e = rw e (fill_n-replicate s c x v ys)

-- The intra dimensions: the outermost one has no limit.
abbrev pub intra_sizes : ℕ → ℕ → List ℕ
intra_sizes zero w = []
intra_sizes (suc k) w = int64_max ∷ replicate k w

set_behind :
    (s x v w : ℕ) (ys : List ℕ) → set (replicate s x ++ v ∷ ys) s w ≡ replicate s x ++ w ∷ ys
set_behind zero x v w ys = refl
set_behind (suc s) x v w ys = ap (λ t. x ∷ t) (set_behind s x v w ys)

unlimit-replicate :
    (n s c w : ℕ)
    → n ≡ s + c
    → unlimit n s (replicate s 0 ++ replicate c w) ≡ replicate s 0 ++ intra_sizes c w
unlimit-replicate n s zero w e = elim (Bool-cases (ltb s n)) [
  | inl t ↦ absurd (ground arith)
  | inr t ↦ rw t refl
]
unlimit-replicate n s (suc c) w e = elim (Bool-cases (ltb s n)) [
  | inl t ↦ rw t (set_behind s 0 w int64_max (replicate c w))
  | inr t ↦ absurd (ground arith)
]

-- A vector of limits: what no dimension of the DMA is left for, the inter dimensions, and the intra
-- dimensions.
abbrev pub layout : ℕ → ℕ → ℕ → ℕ → List ℕ → List ℕ
layout n intra inter inter_value intra_values =
    replicate (n - intra - inter) 0 ++ replicate inter inter_value ++ intra_values

fill_limits-layout :
    (n ni nx v w : ℕ) (between : ℕ → List ℕ → List ℕ) (ys : List ℕ)
    → between (n - min ni n) (replicate (n - min ni n) 0 ++ replicate (min ni n) v)
      ≡ replicate (n - min ni n) 0 ++ ys
    → fill_limits n ni nx v w between ≡ layout n (min ni n) (min nx (n - min ni n)) w ys
unfolding fill_limits
fill_limits-layout n ni nx v w between ys h =
    rw (first, h)
      (fill_part (n - min ni n) (n - min ni n - min nx (n - min ni n)) (min nx (n - min ni n)) 0 w
        ys (omega arith))
  where
    first :
        fill_n (replicate n 0) (n - min ni n) (min ni n) v
        ≡ replicate (n - min ni n) 0 ++ replicate (min ni n) v
    first =
        subst
          (λ l.
            fill_n l (n - min ni n) (min ni n) v
            ≡ replicate (n - min ni n) 0 ++ replicate (min ni n) v)
          (append-nil (replicate n 0))
          (fill_part n (n - min ni n) (min ni n) 0 v [] (omega arith) ∙ append-nil _)

-- The limits of a DMA that is not circular, for a number of dimensions: the innermost ones are
-- intra dimensions, with the limits of the device, but for the outermost of them, whose size has
-- none; before them stand inter dimensions, and any further dimension has the limit 0.
pub get_max-layout :
    (c : DmaDimConfig) (maybe_nb_dims : Option ℕ)
    → c.circular ≡ false
    → (get_max_sizes c maybe_nb_dims
        ≡ layout
            (nb_dims c maybe_nb_dims)
            (min c.nb_intra_dims (nb_dims c maybe_nb_dims))
            (min c.nb_inter_dims
              (nb_dims c maybe_nb_dims - min c.nb_intra_dims (nb_dims c maybe_nb_dims)))
            c.iter_wrap_max
            (intra_sizes (min c.nb_intra_dims (nb_dims c maybe_nb_dims)) c.wrap_max))
      × (get_max_strides c maybe_nb_dims
          ≡ layout
              (nb_dims c maybe_nb_dims)
              (min c.nb_intra_dims (nb_dims c maybe_nb_dims))
              (min c.nb_inter_dims
                (nb_dims c maybe_nb_dims - min c.nb_intra_dims (nb_dims c maybe_nb_dims)))
              ((c.iter_step_size_max + 1) % 2 ^ 32)
              (replicate
                (min c.nb_intra_dims (nb_dims c maybe_nb_dims))
                ((c.step_size_max + 1) % 2 ^ 32)))
unfolding get_max_sizes get_max_strides
get_max-layout c m h = (
  rw (get_max_sizes, h)
      (fill_limits-layout n c.nb_intra_dims c.nb_inter_dims c.wrap_max c.iter_wrap_max (unlimit n)
        (intra_sizes (min c.nb_intra_dims n) c.wrap_max)
        (unlimit-replicate n (n - min c.nb_intra_dims n) (min c.nb_intra_dims n) c.wrap_max
          (omega arith))),
  rw (get_max_strides, h)
      (fill_limits-layout n c.nb_intra_dims c.nb_inter_dims ((c.step_size_max + 1) % 2 ^ 32)
        ((c.iter_step_size_max + 1) % 2 ^ 32) (λ start xs. xs)
        (replicate (min c.nb_intra_dims n) ((c.step_size_max + 1) % 2 ^ 32)) refl),
)
  where
    n : ℕ
    n = nb_dims c m
