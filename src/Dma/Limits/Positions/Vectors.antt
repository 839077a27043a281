-- ===== src/Dma/Limits/Positions/Vectors.antt =====
-- The vectors of limits that the code fills hold the limit of each position.
use mathlib.Core.Path.{subst}
use mathlib.Core.List.{append-nil, append_assoc}
use iree_amd_aie.Prelude.{
  ℕ, zero, suc, ◌+◌, ◌-◌, ◌%◌, ◌^◌, ◌≤◌, ◌<◌, min, ◌≡◌, refl, sym, ap, ◌∙◌, true, false, Bool-cases,
  inl, inr, some, List, [], ◌∷◌, ◌++◌, replicate, arith,
}
use iree_amd_aie.Dma.Limits.{DmaDimConfig, int64_max, fill_n, get_max_sizes, get_max_strides}
use iree_amd_aie.Dma.Limits.Layout.{get_max-layout, layout, intra_sizes, fill_front, fill_part}
use iree_amd_aie.Dma.Limits.Positions.{size_limit, stride_limit, positions}

suc-add : (a b : ℕ) → suc a + b ≡ suc (a + b)
suc-add a b = omega arith

positions-constant :
    (f : ℕ → ℕ) (v k m : ℕ)
    → ((j : ℕ) → m ≤ j → j < k + m → f j ≡ v)
    → positions f (k + m) ≡ replicate k v ++ positions f m
positions-constant f v zero m h = ap (positions f) (zero_left m)
  where
    zero_left : (a : ℕ) → 0 + a ≡ a
    zero_left a = omega arith
positions-constant f v (suc k) m h =
    rw (suc-add k m, h (k + m) (omega arith) (omega arith))
      (ap (λ t. v ∷ t) (positions-constant f v k m (λ j a b. h j a (omega (arith, b)))))

positions-part :
    (f : ℕ → ℕ) (n v k m : ℕ)
    → n ≡ k + m
    → ((j : ℕ) → m ≤ j → j < n → f j ≡ v)
    → positions f n ≡ replicate k v ++ positions f m
positions-part f n v k m e h =
    ap (positions f) e ∙ positions-constant f v k m (λ j a b. h j a (omega (arith, b, e)))

positions-all : (f : ℕ → ℕ) (n v : ℕ) → ((j : ℕ) → j < n → f j ≡ v) → positions f n ≡ replicate n v
positions-all f n v h =
    positions-part f n v n 0 (omega arith) (λ j a b. h j b) ∙ append-nil (replicate n v)

-- The zeros, the inter dimensions and the rest.
positions-layout :
    (f : ℕ → ℕ) (n i e v : ℕ) (ys : List ℕ)
    → i + e ≤ n
    → ((j : ℕ) → i + e ≤ j → j < n → f j ≡ 0)
    → ((j : ℕ) → i ≤ j → j < i + e → f j ≡ v)
    → positions f i ≡ ys
    → positions f n ≡ layout n i e v ys
positions-layout f n i e v ys p h k q =
    positions-part f n 0 (n - i - e) (e + i) (omega (arith, p)) (λ j a b. h j (omega (arith, a)) b)
    ∙ ap (λ t. replicate (n - i - e) 0 ++ t)
        (positions-part f (e + i) v e i refl (λ j a b. k j a (omega (arith, b)))
          ∙ ap (λ t. replicate e v ++ t) q)
    ∙ sym (append_assoc (replicate (n - i - e) 0) (replicate e v) ys)

module _ (c : DmaDimConfig) (n : ℕ) where
  positions-intra :
      (i : ℕ)
      → i ≡ min c.nb_intra_dims n
      → c.circular ≡ false
      → positions (size_limit c n) i ≡ intra_sizes i c.wrap_max
  positions-intra zero e h = refl
  positions-intra (suc k) e h =
      rw (outermost h)
        (ap (λ t. int64_max ∷ t) (positions-all (size_limit c n) k c.wrap_max (inner h)))
    where
      outermost : c.circular ≡ false → size_limit c n k ≡ int64_max
      outermost o = ground (arith, e, o)

      inner : c.circular ≡ false → (j : ℕ) → j < k → size_limit c n j ≡ c.wrap_max
      inner o j l = ground (arith, e, o, l)

  get_max_sizes-circular : c.circular ≡ true → get_max_sizes c (some n) ≡ replicate n c.wrap_max
  unfolding get_max_sizes
  get_max_sizes-circular h = rw (get_max_sizes, h) refl

  pub get_max_sizes-positions : get_max_sizes c (some n) ≡ positions (size_limit c n) n
  get_max_sizes-positions = elim (Bool-cases c.circular) [
    | inl h ↦ get_max_sizes-circular h ∙ sym (positions-all (size_limit c n) n c.wrap_max (round h))
    | inr h ↦
        (get_max-layout c (some n) h).0
        ∙ sym (
            positions-layout (size_limit c n) n (min c.nb_intra_dims n)
              (min c.nb_inter_dims (n - min c.nb_intra_dims n)) c.iter_wrap_max _ (omega arith)
              (outer h) (inter h) (positions-intra (min c.nb_intra_dims n) refl h))
  ]
    where
      round : c.circular ≡ true → (j : ℕ) → j < n → size_limit c n j ≡ c.wrap_max
      round h j l = ground (arith, h)

      outer :
          c.circular ≡ false
          → (j : ℕ) → min c.nb_intra_dims n + min c.nb_inter_dims (n - min c.nb_intra_dims n) ≤ j
          → j < n
          → size_limit c n j ≡ 0
      outer h j a b = ground (arith, h, a, b)

      inter :
          c.circular ≡ false
          → (j : ℕ) → min c.nb_intra_dims n ≤ j
          → j < min c.nb_intra_dims n + min c.nb_inter_dims (n - min c.nb_intra_dims n)
          → size_limit c n j ≡ c.iter_wrap_max
      inter h j a b = ground (arith, h, a, b)

  get_max_strides-circular :
      c.circular ≡ true
      → get_max_strides c (some n)
        ≡ fill_n
            (fill_n
              (replicate n 0)
              (n - min c.nb_intra_dims n)
              (min c.nb_intra_dims n)
              ((c.step_size_max + 1) % 2 ^ 32))
            0
            (n - min c.nb_intra_dims n)
            int64_max
  unfolding get_max_strides
  get_max_strides-circular h = rw (get_max_strides, h) refl

  pub get_max_strides-positions : get_max_strides c (some n) ≡ positions (stride_limit c) n
  get_max_strides-positions = elim (Bool-cases c.circular) [
    | inl h ↦
        get_max_strides-circular h
        ∙ ap (λ t. fill_n t 0 (n - i) int64_max) (filled h)
        ∙ fill_front (n - i) 0 int64_max (replicate i ((c.step_size_max + 1) % 2 ^ 32))
        ∙ sym (
            positions-part (stride_limit c) n int64_max (n - i) i (omega arith) (round h)
            ∙ ap (λ t. replicate (n - i) int64_max ++ t) intra)
    | inr h ↦
        (get_max-layout c (some n) h).1
        ∙ sym (
            positions-layout (stride_limit c) n i (min c.nb_inter_dims (n - i))
              ((c.iter_step_size_max + 1) % 2 ^ 32) _ (omega arith) (outer h) (inter h) intra)
  ]
    where
      i : ℕ
      i = min c.nb_intra_dims n

      intra : positions (stride_limit c) i ≡ replicate i ((c.step_size_max + 1) % 2 ^ 32)
      intra = positions-all (stride_limit c) i _ (λ j l. ground (arith, l))

      filled :
          c.circular ≡ true
          → fill_n (replicate n 0) (n - i) i ((c.step_size_max + 1) % 2 ^ 32)
            ≡ replicate (n - i) 0 ++ replicate i ((c.step_size_max + 1) % 2 ^ 32)
      filled h =
          subst
            (λ l.
              fill_n l (n - i) i ((c.step_size_max + 1) % 2 ^ 32)
              ≡ replicate (n - i) 0 ++ replicate i ((c.step_size_max + 1) % 2 ^ 32))
            (append-nil (replicate n 0))
            (fill_part n (n - i) i 0 ((c.step_size_max + 1) % 2 ^ 32) [] (omega arith)
              ∙ append-nil _)

      round : c.circular ≡ true → (j : ℕ) → i ≤ j → j < n → stride_limit c j ≡ int64_max
      round h j a b = ground (arith, h, a, b)

      outer :
          c.circular ≡ false
          → (j : ℕ) → i + min c.nb_inter_dims (n - i) ≤ j
          → j < n
          → stride_limit c j ≡ 0
      outer h j a b = ground (arith, h, a, b)

      inter :
          c.circular ≡ false
          → (j : ℕ) → i ≤ j
          → j < i + min c.nb_inter_dims (n - i)
          → stride_limit c j ≡ (c.iter_step_size_max + 1) % 2 ^ 32
      inter h j a b = ground (arith, h, a, b)
