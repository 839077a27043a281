-- ===== src/Dma/Combine/Merge.antt =====
-- `mergeInFirst` puts the walks of two patterns behind one another.
use mathlib.Core.Path.{ap₂, fun_ext}
use mathlib.Core.List.{append-nil}
use iree_amd_aie.Prelude.{
  ℕ, zero, suc, ◌+◌, ◌≤◌, ◌<◌, ◌≡◌, refl, sym, ap, ◌∙◌, true, Option, none, some, List, [], ◌∷◌,
  ◌++◌, arith, ◌==◌, length, Bool-cases, inl, inr,
}
use iree_amd_aie.Prelude.Int.{ℤ, pos, pos_part, neg_part, ◌+ℤ◌, ◌*ℤ◌, ltb_ℤ, +ℤ_parts, int_laws}
use iree_amd_aie.Prelude.IntRing.{eqb_ℤ, eqb_ℤ-eq, *ℤ_parts}
use iree_amd_aie.Dma.Pattern.{
  OpFoldResult, attr, Dim, Pattern, Result, ok, failure, fault, ◌>>=◌, get_constant_int_value,
  eq_ofr, eq_ofr-eq, Ensures, Ensures-if, Ensures-bind, Ensures-map, Env, eval, eval-constant,
}
use iree_amd_aie.Dma.Walk.{rounds-add, sweep, base, walk, SameSweep, sweep-cons}
use iree_amd_aie.Dma.Units.{is_size_one, insert_at}
use iree_amd_aie.Dma.Units.Match.{
  is_size_one-eval, SamePattern-walk, AreNonneg, Matched, match_strides-Matched,
}
use iree_amd_aie.Dma.Linear.Same.{SamePattern-refl}
use iree_amd_aie.Dma.Difference.{get_global_offset_difference}
use iree_amd_aie.Dma.Difference.Sound.{get_global_offset_difference-base}
use iree_amd_aie.Dma.Combine.{
  strides_of, sizes_of, unit_index, insert_unit_dim, insert_unit_dimension, align, eq_all,
  drop_front, extended_size, pair_dim, add_pair_dim, join, are_compatible, merge_matched,
  merge_aligned, merge_in_first,
}

unit_index-le : (n : ℕ) (xs ys : List OpFoldResult) → unit_index n xs ys ≤ n
unfolding unit_index
unit_index-le zero xs ys = omega arith
unit_index-le (suc i) xs ys = ground (arith, unit_index-le i xs ys)

-- A dimension of size one and offset zero changes nothing.
insert_unit-Matched :
    (ρ : Env) (s : OpFoldResult) (n : ℕ) (x : Pattern)
    → n ≤ length x
    → Matched ρ x
        (insert_at n (record { offset = attr (pos 0); size = attr (pos 1); stride = s }) x)
insert_unit-Matched ρ s zero x h = (
  record {
    bases = omega (int_laws, *ℤ_parts (pos 0) (eval ρ s));
    sweeps = λ b. sym (append-nil (sweep ρ x b));
  },
  λ a. (refl, a),
)
insert_unit-Matched ρ s (suc n) [] h = absurd (omega arith)
insert_unit-Matched ρ s (suc n) (d ∷ x) h =
    let (same, nonneg) = insert_unit-Matched ρ s n x (omega arith) in
    let u : Dim = record { offset = attr (pos 0); size = attr (pos 1); stride = s } in
    (
      record {
        bases = ap (λ t. eval ρ d.offset *ℤ eval ρ d.stride +ℤ t) same.bases;
        sweeps = sweep-cons ρ d x (insert_at n u x) same.sweeps;
      },
      λ a. (a.0, nonneg a.1),
    )

insert_unit_dimension-Matched :
    (ρ : Env) (x : Pattern) (ys : List OpFoldResult)
    → Ensures (Matched ρ x) (insert_unit_dimension x ys)
unfolding insert_unit_dimension insert_unit_dim
insert_unit_dimension-Matched ρ x ys =
    cases (unit_index (length x) (strides_of x) ys) (unit_index-le (length x) (strides_of x) ys) _
  where
    cases :
        (n : ℕ)
        → n ≤ length x
        → (s : Option OpFoldResult) → Ensures (Matched ρ x) (insert_unit_dim n x s)
    cases n h none = tt
    cases n h (some s) = insert_unit-Matched ρ s n x h

Matched-refl : (ρ : Env) (x : Pattern) → Matched ρ x x
Matched-refl ρ x = (SamePattern-refl ρ x, λ a. a)

-- Both patterns keep their walk.
abbrev Aligned : Env → Pattern → Pattern → Pattern × Pattern → Type 0
Aligned ρ a b r = Matched ρ a r.0 × Matched ρ b r.1

align-Aligned : (ρ : Env) (a b : Pattern) → Ensures (Aligned ρ a b) (align a b)
unfolding align
align-Aligned ρ a b =
    Ensures-if (Aligned ρ a b) (length a + 1 == length b) _ _
      (λ _.
        Ensures-bind (Matched ρ a) (Aligned ρ a b) _ _
          (insert_unit_dimension-Matched ρ a (strides_of b)) λ a' m. (m, Matched-refl ρ b))
      λ _.
        Ensures-if (Aligned ρ a b) (length b + 1 == length a) _ _
          (λ _.
            Ensures-bind (Matched ρ b) (Aligned ρ a b) _ _
              (insert_unit_dimension-Matched ρ b (strides_of a)) λ b' m. (Matched-refl ρ a, m))
          λ _.
            Ensures-if (Aligned ρ a b) (length a == length b) _ _
              (λ _. (Matched-refl ρ a, Matched-refl ρ b)) (λ _. tt)

-- Patterns of equal sizes and strides sweep alike.
sweep-eq_all :
    (ρ : Env) (p q : Pattern)
    → eq_all (strides_of p) (strides_of q) ≡ true
    → eq_all (sizes_of p) (sizes_of q) ≡ true
    → SameSweep ρ p q
sweep-eq_all ρ [] [] s z b = refl
sweep-eq_all ρ [] (e ∷ q) s z b = cc
sweep-eq_all ρ (d ∷ p) [] s z b = cc
sweep-eq_all ρ (d ∷ p) (e ∷ q) s z b =
    let stride = eq_ofr-eq d.stride e.stride (ground arith) in
    let size = eq_ofr-eq d.size e.size (ground arith) in
    rw (stride, size, fun_ext (sweep-eq_all ρ p q (ground arith) (ground arith)))

-- The two walks behind one another.
abbrev pub Joins : Env → Pattern → Pattern → Pattern → Type 0
Joins ρ a b c = walk ρ c ≡ walk ρ a ++ walk ρ b

-- The sum that the special case finds.
abbrev Extends : Env → Dim → Dim → ℤ → ℤ → Type 0
Extends ρ a b difference sum =
    (sum ≡ eval ρ a.size +ℤ eval ρ b.size) × (difference ≡ eval ρ a.size *ℤ eval ρ a.stride)

abbrev Holds {ℓ κ} : {A : Type ℓ} → (A → Type κ) → Option A → Type κ
Holds P none = Unit
Holds P (some a) = P a

extended_size-Extends :
    (ρ : Env) (a b : Dim) (difference : ℤ) (s n m : Option ℤ)
    → get_constant_int_value a.stride ≡ s
    → get_constant_int_value a.size ≡ n
    → get_constant_int_value b.size ≡ m
    → Holds (Extends ρ a b difference) (extended_size s n m difference)
unfolding extended_size
extended_size-Extends ρ a b d none n m es en em = tt
extended_size-Extends ρ a b d (some s) none m es en em = tt
extended_size-Extends ρ a b d (some s) (some n) none es en em = tt
extended_size-Extends ρ a b d (some s) (some n) (some m) es en em =
    elim (Bool-cases (eqb_ℤ d (n *ℤ s))) [
      | inl e ↦
          rw (e, extended_size)
            (
              sym (ap₂ ◌+ℤ◌ (eval-constant ρ a.size n en) (eval-constant ρ b.size m em)),
              eqb_ℤ-eq d (n *ℤ s) e
                  ∙ sym (ap₂ ◌*ℤ◌ (eval-constant ρ a.size n en) (eval-constant ρ a.stride s es)),
            )
      | inr e ↦ rw (e, extended_size) tt
    ]

nonneg-pos : (z : ℤ) → neg_part z ≡ 0 → z ≡ pos (pos_part z)
nonneg-pos z h = ground arith

pos_part-add :
    (y z : ℤ) → neg_part y ≡ 0 → neg_part z ≡ 0 → pos_part (y +ℤ z) ≡ pos_part y + pos_part z
pos_part-add y z h k = omega (int_laws, +ℤ_parts y z, nonneg_sum y z h k)
  where
    nonneg_sum : (y z : ℤ) → neg_part y ≡ 0 → neg_part z ≡ 0 → neg_part (y +ℤ z) ≡ 0
    nonneg_sum y z h k = unfold ◌+ℤ◌ in ground arith

zero_front : (d x : ℤ) → pos 0 *ℤ d +ℤ x ≡ x
zero_front d x = omega (int_laws, *ℤ_parts (pos 0) d)

module _ (ρ : Env) (a b : Dim) (p q : Pattern) (difference : ℤ)
    (stride : eval ρ a.stride ≡ eval ρ b.stride) (inner : SameSweep ρ p q)
    (bases : base ρ (b ∷ q) ≡ base ρ (a ∷ p) +ℤ difference) where
  -- The loops run on, one after the other.
  extend-Joins :
      (sum : ℤ)
      → neg_part (eval ρ a.size) ≡ 0
      → neg_part (eval ρ b.size) ≡ 0
      → Extends ρ a b difference sum
      → Joins ρ (a ∷ p) (b ∷ q) (record a { size = attr sum } ∷ p)
  extend-Joins sum na nb e =
      let apart : difference ≡ pos (pos_part (eval ρ a.size)) *ℤ eval ρ a.stride =
        e.1 ∙ ap (λ t. t *ℤ eval ρ a.stride) (nonneg-pos (eval ρ a.size) na) in
      let rounds_sum : pos_part sum ≡ pos_part (eval ρ a.size) + pos_part (eval ρ b.size) =
        ap pos_part e.0 ∙ pos_part-add (eval ρ a.size) (eval ρ b.size) na nb in
      rw (bases, ← stride, ← fun_ext inner, rounds_sum, apart)
        (rounds-add (pos_part (eval ρ a.size)) (pos_part (eval ρ b.size)) (eval ρ a.stride)
          (sweep ρ p) (base ρ (a ∷ p)))

  -- The loops run twice, the difference apart.
  pair-Joins : eval ρ a.size ≡ eval ρ b.size → Joins ρ (a ∷ p) (b ∷ q) (pair_dim difference ∷ a ∷ p)
  pair-Joins size =
      rw (
        bases,
        ← stride,
        ← fun_ext inner,
        ← size,
        zero_front difference (base ρ (a ∷ p)),
        append-nil,
      )

  pair_inside-Joins :
      eval ρ a.size ≡ pos 1
      → eval ρ a.size ≡ eval ρ b.size
      → Joins ρ (a ∷ p) (b ∷ q) (a ∷ pair_dim difference ∷ p)
  pair_inside-Joins one size =
      rw (bases, ← stride, ← fun_ext inner, ← size, one, zero_front difference (base ρ p))
        (simp (append-nil))

-- The rest of the two patterns.
record Tails (ρ : Env) (a b : Pattern) (difference : ℤ) : Type 0 where
  strides : eq_all (strides_of a) (strides_of b) ≡ true
  sizes : eq_all (sizes_of (drop_front a)) (sizes_of (drop_front b)) ≡ true
  bases : base ρ b ≡ base ρ a +ℤ difference

join-Joins :
    (ρ : Env) (a b : Pattern) (difference : ℤ)
    → AreNonneg ρ a
    → AreNonneg ρ b
    → Tails ρ a b difference
    → Ensures (Joins ρ a b) (join a b difference)
unfolding join add_pair_dim
join-Joins ρ [] b d na nb t = tt
join-Joins ρ (a ∷ p) [] d na nb t = tt
join-Joins ρ (a ∷ p) (b ∷ q) d na nb t =
    cases _ (extended_size-Extends ρ a b d _ _ _ refl refl refl)
  where
    stride : eval ρ a.stride ≡ eval ρ b.stride
    stride = ap (eval ρ) (eq_ofr-eq a.stride b.stride (ground (arith, t.strides)))

    inner : SameSweep ρ p q
    inner = sweep-eq_all ρ p q (ground (arith, t.strides)) t.sizes

    cases :
        (r : Option ℤ)
        → Holds (Extends ρ a b d) r
        → Ensures (Joins ρ (a ∷ p) (b ∷ q)) (elim r [
          | some sum ↦ ok (record a { size = attr sum } ∷ p)
          | none ↦ add_pair_dim a p b d
        ])
    cases (some sum) e = extend-Joins ρ a b p q d stride inner t.bases sum na.0 nb.0 e
    cases none e =
        Ensures-if (Joins ρ (a ∷ p) (b ∷ q)) (eq_ofr a.size b.size) _ _
          (λ z.
            let size : eval ρ a.size ≡ eval ρ b.size = ap (eval ρ) (eq_ofr-eq a.size b.size z) in
            Ensures-if (Joins ρ (a ∷ p) (b ∷ q)) (ltb_ℤ d (pos 0)) _ _ (λ _. tt)
              λ _.
                Ensures-if (Joins ρ (a ∷ p) (b ∷ q)) (is_size_one a) _ _
                  (λ o.
                    pair_inside-Joins ρ a b p q d stride inner t.bases (is_size_one-eval ρ a o)
                      size)
                  (λ _. pair-Joins ρ a b p q d stride inner t.bases size))
          (λ _. tt)

merge_matched-Joins :
    (ρ : Env) (a b : Pattern)
    → AreNonneg ρ a
    → AreNonneg ρ b
    → Ensures (Joins ρ a b) (merge_matched a b)
unfolding merge_matched
merge_matched-Joins ρ a b na nb =
    Ensures-if (Joins ρ a b) (are_compatible a b) _ _
      (λ c.
        Ensures-bind (λ d. base ρ b ≡ base ρ a +ℤ d) (Joins ρ a b) _ (join a b)
          (difference (get_global_offset_difference b a) refl)
          λ d e.
            join-Joins ρ a b d na nb
              (record { strides = ground arith; sizes = ground arith; bases = e }))
      (λ _. tt)
  where
    difference :
        (r : Result ℤ)
        → get_global_offset_difference b a ≡ r
        → Ensures (λ d. base ρ b ≡ base ρ a +ℤ d) r
    difference (ok d) e = get_global_offset_difference-base b a d e ρ
    difference failure e = tt
    difference fault e = tt

merge_aligned-Joins :
    (ρ : Env) (a b : Pattern)
    → AreNonneg ρ a
    → AreNonneg ρ b
    → Ensures (Joins ρ a b) (merge_aligned a b)
unfolding merge_aligned
merge_aligned-Joins ρ a b na nb =
    Ensures-bind (Matched ρ a) (Joins ρ a b) _ _ (match_strides-Matched ρ a (strides_of b)) λ a' ma.
      Ensures-bind (Matched ρ b) (Joins ρ a b) _ _ (match_strides-Matched ρ b (strides_of a'))
        λ b' mb.
          Ensures-map (Joins ρ a' b') (Joins ρ a b) _
            (merge_matched-Joins ρ a' b' (ma.1 na) (mb.1 nb))
            λ c j. j ∙ sym (ap₂ ◌++◌ (SamePattern-walk ρ a a' ma.0) (SamePattern-walk ρ b b' mb.0))

align_merge-Joins :
    (ρ : Env) (a b : Pattern)
    → AreNonneg ρ a
    → AreNonneg ρ b
    → Ensures (Joins ρ a b) (align a b >>= λ r. merge_aligned r.0 r.1)
align_merge-Joins ρ a b na nb =
    Ensures-bind (Aligned ρ a b) (Joins ρ a b) _ _ (align-Aligned ρ a b) λ r m.
      Ensures-map (Joins ρ r.0 r.1) (Joins ρ a b) _
        (merge_aligned-Joins ρ r.0 r.1 (m.0.1 na) (m.1.1 nb))
        λ c j. j ∙ sym (ap₂ ◌++◌ (SamePattern-walk ρ a r.0 m.0.0) (SamePattern-walk ρ b r.1 m.1.0))

pub merge_in_first-Joins :
    (ρ : Env) (a b : Pattern)
    → 0 < length a
    → AreNonneg ρ a
    → AreNonneg ρ b
    → Ensures (Joins ρ a b) (merge_in_first a b)
unfolding merge_in_first
merge_in_first-Joins ρ [] b r na nb = absurd (omega arith)
merge_in_first-Joins ρ (d ∷ a) b r na nb = align_merge-Joins ρ (d ∷ a) b na nb
