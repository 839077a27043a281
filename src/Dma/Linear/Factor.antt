-- ===== src/Dma/Linear/Factor.antt =====
-- The factor that `findFactorResultingInSmallerSize` returns.
use native.Mathlib.Nat.{div-add-mod, mod_self, div_self}
use iree_amd_aie.Prelude.{
  ℕ, zero, suc, ◌+◌, ◌-◌, ◌*◌, ◌/◌, ◌%◌, ◌≤◌, ◌<◌, ◌≡◌, ap, ◌&&◌, arith, leb, ◌==◌, if◌then◌else◌,
  Bool-cases, inl, inr,
}
use iree_amd_aie.Dma.Linear.{factor_from, find_factor_resulting_in_smaller_size}

-- `f` divides `size` into parts that fit, and no smaller number from `low` on does.
pub record IsLeastFactor (low size max_size f : ℕ) : Type 0 where
  pub divides : size % f ≡ 0
  pub fits : size / f ≤ max_size
  pub positive : 1 ≤ f
  pub least : (g : ℕ) → low ≤ g → size % g ≡ 0 → size / g ≤ max_size → f ≤ g

half-lt-divisor : (size g : ℕ) → 1 ≤ size → size / 2 < g → size % g ≡ 0 → size ≤ g
half-lt-divisor size g p h d = go (size / g) (omega (arith, div-add-mod size g))
  where
    go : (q : ℕ) → g * q ≡ size → size ≤ g
    go zero e = absurd (omega arith)
    go (suc zero) e = omega arith
    go (suc (suc k)) e = absurd (omega arith)

factor_from-IsLeastFactor :
    (n i size max_size : ℕ)
    → 1 ≤ size
    → 1 ≤ max_size
    → 1 ≤ i
    → size / 2 < i + n
    → IsLeastFactor i size max_size (factor_from n i size max_size)
unfolding factor_from
factor_from-IsLeastFactor zero i size m p q r h = record {
  divides = mod_self size;
  fits = rw (div_self p) q;
  positive = p;
  least = λ g l d t. half-lt-divisor size g p (omega arith) d;
}
factor_from-IsLeastFactor (suc n) i size m p q r h =
    elim (Bool-cases ((size % i == 0) && leb (size / i) m)) [
      | inl e ↦ rw e (record {
        divides = ground arith;
        fits = ground arith;
        positive = r;
        least = λ g l d t. l;
      })
      | inr e ↦ rw e (
          let ih = factor_from-IsLeastFactor n (i + 1) size m p q (omega arith) (omega arith) in
          record {
            divides = ih.divides;
            fits = ih.fits;
            positive = ih.positive;
            least = λ g l d t. elim (Bool-cases (i == g)) [
              | inl s ↦ ground (arith)
              | inr s ↦ ih.least g (ground arith) d t
            ];
          })
    ]

find_factor-tests :
    (size max_size : ℕ)
    → 1 ≤ size
    → 2 ≤ max_size
    → find_factor_resulting_in_smaller_size size max_size
      ≡ (if leb size max_size then 1 else factor_from (size / 2 - 1) 2 size max_size)
unfolding find_factor_resulting_in_smaller_size
find_factor-tests size m p q = ground arith

-- For a positive size and a limit of at least two, findFactorResultingInSmallerSize returns the
-- least positive divisor of the size that splits it into parts within the limit.
pub find_factor-IsLeastFactor :
    (size max_size : ℕ)
    → 1 ≤ size
    → 2 ≤ max_size
    → IsLeastFactor 1 size max_size (find_factor_resulting_in_smaller_size size max_size)
find_factor-IsLeastFactor size m p q = elim (Bool-cases (leb size m)) [
  | inl e ↦
      rw (find_factor-tests size m p q, e)
        (record {
          divides = omega arith;
          fits = ground arith;
          positive = omega arith;
          least = λ g l d t. l;
        })
  | inr e ↦
      rw (find_factor-tests size m p q, e)
        (from_one
          (factor_from-IsLeastFactor (size / 2 - 1) 2 size m p (omega arith) (omega arith)
            (omega arith))
          (ground arith))
]
  where
    from_one : {f : ℕ} → IsLeastFactor 2 size m f → m < size → IsLeastFactor 1 size m f
    from_one l h = record {
      divides = l.divides;
      fits = l.fits;
      positive = l.positive;
      least = λ g p d t. elim (Bool-cases (g == 1)) [
        | inl e ↦ absurd (one g (ground arith) t h)
        | inr e ↦ l.least g (ground arith) d t
      ];
    }
      where
        one : (g : ℕ) → g ≡ 1 → size / g ≤ m → m < size → ⊥
        one g e t h = omega (arith, ap (λ x. size / x) e)
