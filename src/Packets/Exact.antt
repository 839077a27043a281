-- ===== src/Packets/Exact.antt =====
-- The rule of a single id matches that id only.
use mathlib.Core.Path.{subst}
use native.Mathlib.Nat.{div-div-eq-div-mul, div-add-mod, div-one, mod-lt, two-pow-succ}
use iree_amd_aie.Prelude.{
  ℕ, zero, suc, ◌*◌, ◌/◌, ◌%◌, ◌^◌, ◌≤◌, ◌<◌, ◌≡◌, refl, sym, ap, ◌∙◌, Bool, true, false, ◌&&◌,
  Bool-cases, inl, inr, [], ◌∷◌, lt→ltb, ◌==◌, ==_iff, and_left, and_right, arith,
}
use iree_amd_aie.Packets.{Mask, bit, eq_bit, fold_mask, group_mask, eq_masked, matches}

eq_bit_refl : (b : Bool) → eq_bit b b ≡ true
eq_bit_refl true = refl
eq_bit_refl false = refl

eq_bit-eq : (a b : Bool) → eq_bit a b ≡ true → a ≡ b
eq_bit-eq true b h = sym h
eq_bit-eq false true h = cc
eq_bit-eq false false h = refl

-- Bit `i + 1` is bit `i` of the half.
bit-suc : (x i : ℕ) → bit x (suc i) ≡ bit (x / 2) i
bit-suc x i =
    ap (λ t. t % 2 == 1) (ap (λ m. x / m) (doubled i) ∙ sym (div-div-eq-div-mul x 2 (2 ^ i)))
  where
    doubled : (i : ℕ) → 2 ^ suc i ≡ 2 * 2 ^ i
    doubled i = omega (arith, two-pow-succ i)

bit-zero : (x : ℕ) → bit x 0 ≡ (x % 2 == 1)
bit-zero x = ap (λ t. t % 2 == 1) (div-one x)

odd_same : (x y : ℕ) → (x % 2 == 1) ≡ (y % 2 == 1) → x % 2 ≡ y % 2
odd_same x y h = elim (Bool-cases (x % 2 == 1)) [
  | inl e ↦ (==_iff (x % 2) 1).0 e ∙ sym ((==_iff (y % 2) 1).0 (sym h ∙ e))
  | inr e ↦ below (x % 2) (y % 2) (mod-lt x (omega arith)) (mod-lt y (omega arith)) e (sym h ∙ e)
]
  where
    below : (a b : ℕ) → a < 2 → b < 2 → (a == 1) ≡ false → (b == 1) ≡ false → a ≡ b
    below a b h k e f = ground arith

half_bound : (x n : ℕ) → x < 2 ^ suc n → x / 2 < 2 ^ n
half_bound x n h = omega (arith, div-add-mod x 2, two-pow-succ n)

bits_determine : (n x y : ℕ) → x < 2 ^ n → y < 2 ^ n → ((i : ℕ) → i < n → bit x i ≡ bit y i) → x ≡ y
bits_determine zero x y h k e = omega arith
bits_determine (suc n) x y h k e = omega (
  arith,
  div-add-mod x 2,
  div-add-mod y 2,
  odd_same x y (sym (bit-zero x) ∙ e 0 (omega arith) ∙ bit-zero y),
  bits_determine n (x / 2) (y / 2) (half_bound x n h) (half_bound y n k)
      (λ i b. sym (bit-suc x i) ∙ e (suc i) (omega arith) ∙ bit-suc y i),
)

eq_masked-bit :
    (n a b i : ℕ) (mask : Mask)
    → eq_masked n a b mask ≡ true
    → i < n
    → mask i ≡ true
    → bit a i ≡ bit b i
unfolding eq_masked
eq_masked-bit zero a b i mask h k m = absurd (omega arith)
eq_masked-bit (suc n) a b i mask h k m = elim (Bool-cases (i == n)) [
  | inl e ↦
      let here : i ≡ n = (==_iff i n).0 e in
      subst (λ j. bit a j ≡ bit b j) (sym here)
        (eq_bit-eq (bit a n) (bit b n)
          (unmasked (bit a n) (bit b n) (mask n) (ap mask (sym here) ∙ m) (and_left _ _ h)))
  | inr e ↦ eq_masked-bit n a b i mask (and_right _ _ h) (ground arith) m
]
  where
    unmasked : (p q r : Bool) → r ≡ true → eq_bit (p && r) (q && r) ≡ true → eq_bit p q ≡ true
    unmasked true true r m h = refl
    unmasked true false r m h = cc
    unmasked false true r m h = cc
    unmasked false false r m h = refl

single_mask : (n x i : ℕ) → i < n → group_mask n (x ∷ []) i ≡ true
unfolding group_mask fold_mask
single_mask n x i h = rw (lt→ltb i n h) (eq_bit_refl (bit x i))

-- For ids of `n` bits at most.
pub single-matches :
    (n x y : ℕ)
    → n ≤ 32
    → x < 2 ^ n
    → y < 2 ^ n
    → matches x (group_mask n (x ∷ [])) y ≡ true
    → y ≡ x
single-matches n x y w h k m =
    bits_determine n y x k h
      (λ i b. eq_masked-bit 32 y x i (group_mask n (x ∷ [])) m (omega arith) (single_mask n x i b))
