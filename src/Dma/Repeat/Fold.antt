-- ===== src/Dma/Repeat/Fold.antt =====
-- `foldRepetitionCount` divides the repetitions of the walk.
use mathlib.Core.List.{append-nil}
use iree_amd_aie.Prelude.{
  ℕ, ◌*◌, ◌/◌, ◌≤◌, ◌≡◌, All, refl, sym, ap, ◌∙◌, true, Option, none, some, [], ◌∷◌, arith,
  if◌then◌else◌, Bool-cases, inl, inr,
}
use iree_amd_aie.Prelude.Int.{ℤ, pos, negsuc, pos_part, neg_part, ◌+ℤ◌, ◌*ℤ◌, ltb_ℤ, int_laws}
use iree_amd_aie.Prelude.IntRing.{eqb_ℤ, eqb_ℤ-eq, div_ℤ, mod_ℤ, div-mul, *ℤ_parts}
use iree_amd_aie.Dma.Pattern.{
  attr, Dim, Pattern, ok, get_constant_int_value, is_constant_int_value, Ensures, Ensures_at,
  Ensures-if, Ensures-bind, Env, eval, eval-constant, eval-is_constant,
}
use iree_amd_aie.Dma.Walk.{sweep, base, walk, repeat, rounds-repeat, repeat-mul}
use iree_amd_aie.Dma.Repeat.{fold_leading, fold_size, fold_dim, fold_count, fold_repetition_count}

div-pos : (m n : ℕ) → div_ℤ (pos m) (pos n) ≡ pos (m / n)
unfolding div_ℤ
div-pos m n = ground arith

div-mul_pos : (m n : ℕ) → eqb_ℤ (mod_ℤ (pos m) (pos n)) (pos 0) ≡ true → m / n * n ≡ m
div-mul_pos m n h =
    let exact : pos (m / n) *ℤ pos n ≡ pos m =
      ap (λ t. t *ℤ pos n) (sym (div-pos m n)) ∙ div-mul (pos m) (pos n) (eqb_ℤ-eq _ _ h) in
    omega (int_laws, *ℤ_parts (pos (m / n)) (pos n), ap pos_part exact, ap neg_part exact)

-- A count and a size, both as numbers, are split into a new size and a count that is left.
record Splits (count size : ℕ) (r : ℤ × ℤ) : Type 0 where
  new_size : ℕ
  left : ℕ
  is_size : r.0 ≡ pos new_size
  is_left : r.1 ≡ pos left
  positive : 1 ≤ left
  product : size * left ≡ count * new_size

fold_size-Splits :
    (count size : ℕ) → 1 ≤ count → Ensures (Splits count size) (fold_size (pos count) (pos size))
unfolding fold_size
fold_size-Splits count size c =
    Ensures-if (Splits count size) (ltb_ℤ (pos size) (pos count)) _ _
      (λ l.
        Ensures-if (Splits count size) (eqb_ℤ (pos size) (pos 0)) _ _ (λ _. tt)
          λ _.
            Ensures-if (Splits count size) (eqb_ℤ (mod_ℤ (pos count) (pos size)) (pos 0)) _ _
              (λ e.
                let d = div-mul_pos count size e in
                record {
                  new_size = 1;
                  left = count / size;
                  is_size = refl;
                  is_left = div-pos count size;
                  positive = grind arith;
                  product = omega (arith, d);
                })
              (λ _. tt))
      (λ l.
        Ensures-if (Splits count size) (eqb_ℤ (pos count) (pos 0)) _ _ (λ _. tt)
          λ _.
            Ensures-if (Splits count size) (eqb_ℤ (mod_ℤ (pos size) (pos count)) (pos 0)) _ _
              (λ e.
                let d = div-mul_pos size count e in
                record {
                  new_size = size / count;
                  left = 1;
                  is_size = div-pos size count;
                  is_left = refl;
                  positive = omega arith;
                  product = omega (arith, d);
                })
              (λ _. tt))

-- The walk of `p` is that of `q`, `count` times over.
record Repeats (ρ : Env) (count : ℕ) (p q : Pattern) : Type 0 where
  bases : base ρ p ≡ base ρ q
  sweeps : (b : ℤ) → sweep ρ p b ≡ repeat count (sweep ρ q b)

Repeats-one : (ρ : Env) (p : Pattern) → Repeats ρ 1 p p
Repeats-one ρ p = record { bases = refl; sweeps = λ b. sym (append-nil (sweep ρ p b)) }

Repeats-is_one :
    (ρ : Env) (count : ℕ) (p : Pattern) → eqb_ℤ (pos count) (pos 1) ≡ true → Repeats ρ count p p
Repeats-is_one ρ count p e =
    let one : count ≡ 1 = omega (arith, ap pos_part (eqb_ℤ-eq (pos count) (pos 1) e)) in
    rw one (Repeats-one ρ p)

-- A dimension of stride zero before a repeated pattern.
Repeats-cons :
    (ρ : Env) (d : Dim) (p q : Pattern) (n a left count : ℕ)
    → eval ρ d.size ≡ pos n
    → eval ρ d.stride ≡ pos 0
    → n * left ≡ count * a
    → Repeats ρ left p q
    → Repeats ρ count (d ∷ p) (record d { size = attr (pos a) } ∷ q)
Repeats-cons ρ d p q n a left count en es e r = record {
  bases = ap (λ t. eval ρ d.offset *ℤ eval ρ d.stride +ℤ t) r.bases;
  sweeps = λ b. rw (
    en,
    es,
    rounds-repeat n (sweep ρ p) b,
    rounds-repeat a (sweep ρ q) b,
    r.sweeps b,
    repeat-mul n left (sweep ρ q b),
    repeat-mul count a (sweep ρ q b),
    e,
  );
}

-- What the loop's round on one dimension gives.
record SplitDim (ρ : Env) (count : ℕ) (d : Dim) (r : Dim × ℤ) : Type 0 where
  size : ℕ
  new_size : ℕ
  left : ℕ
  is_dim : r.0 ≡ record d { size = attr (pos new_size) }
  is_left : r.1 ≡ pos left
  positive : 1 ≤ left
  sized : eval ρ d.size ≡ pos size
  still : eval ρ d.stride ≡ pos 0
  product : size * left ≡ count * new_size

fold_dim-SplitDim :
    (ρ : Env) (count : ℕ) (d : Dim) (size : Option ℤ)
    → 1 ≤ count
    → get_constant_int_value d.size ≡ size
    → neg_part (eval ρ d.size) ≡ 0
    → Ensures (SplitDim ρ count d) (fold_dim (pos count) d size)
unfolding fold_dim
fold_dim-SplitDim ρ count d none c e n = tt
fold_dim-SplitDim ρ count d (some (negsuc k)) c e n =
    let v = eval-constant ρ d.size (negsuc k) e in absurd (omega (arith, ap neg_part v, n))
fold_dim-SplitDim ρ count d (some (pos k)) c e n =
    Ensures-if (SplitDim ρ count d) (is_constant_int_value d.stride (pos 0)) _ _
      (λ z.
        Ensures-bind (Splits count k) (SplitDim ρ count d) (fold_size (pos count) (pos k)) _
          (fold_size-Splits count k c)
          λ r s. record {
            size = k;
            new_size = s.new_size;
            left = s.left;
            is_dim = rw s.is_size refl;
            is_left = s.is_left;
            positive = s.positive;
            sized = eval-constant ρ d.size (pos k) e;
            still = eval-is_constant ρ d.stride (pos 0) z;
            product = s.product;
          })
      (λ _. tt)

fold_count-Repeats :
    (ρ : Env) (count : ℕ) (p : Pattern)
    → 1 ≤ count
    → All (λ d. neg_part (eval ρ d.size) ≡ 0) p
    → Ensures (Repeats ρ count p) (fold_count (pos count) p)
unfolding fold_count
fold_count-Repeats ρ count [] c a =
    Ensures-if (Repeats ρ count []) (eqb_ℤ (pos count) (pos 1)) _ _
      (λ e. Repeats-is_one ρ count [] e) (λ _. tt)
fold_count-Repeats ρ count (d ∷ p) c a =
    Ensures-if (Repeats ρ count (d ∷ p)) (eqb_ℤ (pos count) (pos 1)) _ _
      (λ e. Repeats-is_one ρ count (d ∷ p) e)
      λ _.
        Ensures-bind (SplitDim ρ count d) (Repeats ρ count (d ∷ p)) (fold_dim (pos count) d _) _
          (fold_dim-SplitDim ρ count d _ c refl a.0)
          λ r s.
            rw (s.is_left, s.is_dim)
              (Ensures-bind (Repeats ρ s.left p) (Repeats ρ count (d ∷ p))
                (fold_count (pos s.left) p) _ (fold_count-Repeats ρ s.left p s.positive a.1)
                λ q t.
                  Repeats-cons ρ d p q s.size s.new_size s.left count s.sized s.still s.product t)

-- When foldRepetitionCount succeeds with a positive count on a pattern with no negative size, the
-- walk of the old pattern is the walk of the new one, repeated as often as the count says.
pub fold_repetition_count-walk :
    (count : ℕ) (p q : Pattern) (ρ : Env)
    → 1 ≤ count
    → All (λ d. neg_part (eval ρ d.size) ≡ 0) p
    → fold_repetition_count p (some (pos count)) ≡ ok q
    → walk ρ p ≡ repeat count (walk ρ q)
unfolding fold_repetition_count
fold_repetition_count-walk count p q ρ c a h =
    let r = Ensures_at (Repeats ρ count p) _ q (fold_count-Repeats ρ count p c a) h in
    r.sweeps (base ρ p) ∙ ap (λ b. repeat count (sweep ρ q b)) r.bases

-- The product of the sizes of the leading dimensions whose stride is the constant zero.
abbrev pub leading_repetitions : Env → Pattern → ℕ
leading_repetitions ρ [] = 1
leading_repetitions ρ (d ∷ p) =
    if is_constant_int_value d.stride (pos 0)
    then pos_part (eval ρ d.size) * leading_repetitions ρ p
    else 1

fold_leading-Repeats :
    (ρ : Env) (p : Pattern) → Repeats ρ (leading_repetitions ρ p) p (fold_leading p)
unfolding fold_leading
fold_leading-Repeats ρ [] = Repeats-one ρ []
fold_leading-Repeats ρ (d ∷ p) = elim (Bool-cases (is_constant_int_value d.stride (pos 0))) [
  | inr e ↦ rw e (Repeats-one ρ (d ∷ p))
  | inl e ↦ rw e (leading (fold_leading-Repeats ρ p) (eval-is_constant ρ d.stride (pos 0) e))
]
  where
    leading :
        Repeats ρ (leading_repetitions ρ p) p (fold_leading p)
        → eval ρ d.stride ≡ pos 0
        → Repeats ρ
            (pos_part (eval ρ d.size) * leading_repetitions ρ p)
            (d ∷ p)
            (record d { size = attr (pos 1) } ∷ fold_leading p)
    leading ih z = record {
      bases = ap (λ t. eval ρ d.offset *ℤ eval ρ d.stride +ℤ t) ih.bases;
      sweeps = λ b. rw (
        z,
        rounds-repeat (pos_part (eval ρ d.size)) (sweep ρ p) b,
        append-nil (sweep ρ (fold_leading p) b),
        ih.sweeps b,
        repeat-mul (pos_part (eval ρ d.size)) (leading_repetitions ρ p)
            (sweep ρ (fold_leading p) b),
      );
    }

-- Without a count, foldRepetitionCount takes all the leading repetitions away: the walk of the old
-- pattern is that of the new one, as often as the product of the sizes of the leading dimensions of
-- constant stride zero says.
pub fold_leading-walk :
    (p q : Pattern) (ρ : Env)
    → fold_repetition_count p none ≡ ok q
    → walk ρ p ≡ repeat (leading_repetitions ρ p) (walk ρ q)
unfolding fold_repetition_count
fold_leading-walk p q ρ h =
    let r = Ensures_at (Repeats ρ (leading_repetitions ρ p) p) _ q (fold_leading-Repeats ρ p) h in
    r.sweeps (base ρ p) ∙ ap (λ b. repeat (leading_repetitions ρ p) (sweep ρ q b)) r.bases
