-- ===== src/Prelude/Products.antt =====
-- Products and powers, which linear arithmetic does not read.
use native.Mathlib.Nat.{two-pow-succ, one-le-pow}
use iree_amd_aie.Prelude.{
  ℕ, zero, suc, ◌+◌, ◌*◌, ◌^◌, ◌≤◌, ◌<◌, ◌≡◌, ap, sym, ◌∙◌, ◌==◌, ==_iff, Bool-cases, inl, inr,
  arith,
}

suc_mul : (j n : ℕ) → suc j * n ≡ j * n + n
suc_mul j n = omega arith

-- A multiple and one more are at most a later multiple.
pub mul_below : (i j n : ℕ) → i < j → i * n + n ≤ j * n
mul_below i zero n h = omega arith
mul_below i (suc j) n h = elim (Bool-cases (i == j)) [
  | inl e ↦ omega (arith, suc_mul j n, ap (λ k. k * n) ((==_iff i j).0 e))
  | inr e ↦ omega (arith, suc_mul j n, mul_below i j n (ground arith))
]

pub two_pow_add : (a b : ℕ) → 2 ^ (a + b) ≡ 2 ^ a * 2 ^ b
two_pow_add zero b = omega (arith, ap (λ k. 2 ^ k) (zero_add b))
  where
    zero_add : (n : ℕ) → 0 + n ≡ n
    zero_add n = omega arith
two_pow_add (suc a) b =
    ap (λ k. 2 ^ k) (suc_add a b)
    ∙ two-pow-succ (a + b)
    ∙ ap (λ k. k + k) (two_pow_add a b)
    ∙ sym (ap (λ k. k * 2 ^ b) (two-pow-succ a) ∙ twice (2 ^ a) (2 ^ b))
  where
    suc_add : (n m : ℕ) → suc n + m ≡ suc (n + m)
    suc_add n m = omega arith

    twice : (n m : ℕ) → (n + n) * m ≡ n * m + n * m
    twice n m = omega arith

pub two_pow_pos : (n : ℕ) → 0 < 2 ^ n
two_pow_pos n = omega (arith, one-le-pow n 2 (omega arith))
