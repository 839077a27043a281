-- ===== src/Dma/Units/Fold.antt =====
-- `mergeOffset` and `foldUnitDims` keep the walk, and the second reduces the rank.
use mathlib.Core.Path.{ap₂, subst}
use mathlib.Core.List.{append-nil}
use iree_amd_aie.Prelude.{
  ℕ, zero, suc, ◌+◌, ◌≤◌, ◌<◌, ◌≡◌, refl, sym, ap, ◌∙◌, not, ◌&&◌, Option, none, some, [], ◌∷◌,
  arith, ◌==◌, if◌then◌else◌, Bool-cases, inl, inr, length,
}
use iree_amd_aie.Prelude.Int.{ℤ, pos, ◌+ℤ◌, ◌*ℤ◌, +ℤ_assoc, +ℤ_comm, int_laws}
use iree_amd_aie.Prelude.IntRing.{eqb_ℤ, eqb_ℤ-eq, div_ℤ, mod_ℤ, div-mul, add-*ℤ, *ℤ_comm, *ℤ_one}
use iree_amd_aie.Dma.Pattern.{
  Dim, Pattern, ok, failure, get_constant_int_value, Ensures, Ensures_at, Ensures-if, Env, eval,
  eval-constant,
}
use iree_amd_aie.Dma.Walk.{sweep, base, walk, SameSweep, sweep-cons}
use iree_amd_aie.Dma.Units.{
  is_size_one, add_offset, cons_to, merge_into, merge_offset, Scan, folded_offset, keep, scan,
  insert_at, offset_dim, fold_unit_dims,
}
use iree_amd_aie.Dma.Units.Match.{is_size_one-eval, SamePattern, SamePattern-walk}

-- `q` walks like `p`, from a base that is `c` further on, and has as many dimensions.
pub record Moved (ρ : Env) (c : ℤ) (p q : Pattern) : Type 0 where
  pub bases : base ρ q ≡ c +ℤ base ρ p
  pub sweeps : SameSweep ρ p q
  pub ranks : length q ≡ length p

-- What an optional result satisfies.
abbrev Holds {ℓ κ} : {A : Type ℓ} → (A → Type κ) → Option A → Type κ
Holds P none = Unit
Holds P (some a) = P a

-- The dimension `e` is `d` with an offset that adds `c`.
record Shifted (ρ : Env) (c : ℤ) (d e : Dim) : Type 0 where
  adds : eval ρ e.offset *ℤ eval ρ e.stride ≡ c +ℤ eval ρ d.offset *ℤ eval ρ d.stride
  size : e.size ≡ d.size
  stride : e.stride ≡ d.stride

add_offset-Shifted :
    (ρ : Env) (c : ℤ) (d : Dim) (offset stride : Option ℤ)
    → offset ≡ get_constant_int_value d.offset
    → stride ≡ get_constant_int_value d.stride
    → Holds (Shifted ρ c d) (add_offset c d offset stride)
unfolding add_offset
add_offset-Shifted ρ c d none stride eo es = tt
add_offset-Shifted ρ c d (some o) none eo es = tt
add_offset-Shifted ρ c d (some o) (some s) eo es =
    elim (Bool-cases (not (eqb_ℤ s (pos 0)) && eqb_ℤ (mod_ℤ c s) (pos 0))) [
      | inl e ↦ rw e (record {
        adds =
            rw (eval-constant ρ d.offset o (sym eo), eval-constant ρ d.stride s (sym es))
              (add-*ℤ o (div_ℤ c s) s
                ∙ ap (λ t. o *ℤ s +ℤ t) (div-mul c s (eqb_ℤ-eq _ _ (ground arith)))
                ∙ +ℤ_comm (o *ℤ s) c);
        size = refl;
        stride = refl;
      })
      | inr e ↦ rw e tt
    ]

Moved-head :
    (ρ : Env) (c : ℤ) (d e : Dim) (p : Pattern) → Shifted ρ c d e → Moved ρ c (d ∷ p) (e ∷ p)
Moved-head ρ c d e p s = record {
  bases = ap (λ t. t +ℤ base ρ p) s.adds ∙ +ℤ_assoc c _ (base ρ p);
  sweeps = λ b. rw (s.size, s.stride);
  ranks = refl;
}

Moved-cons : (ρ : Env) (c : ℤ) (d : Dim) (p q : Pattern) → Moved ρ c p q → Moved ρ c (d ∷ p) (d ∷ q)
Moved-cons ρ c d p q m = record {
  bases = rw m.bases (omega int_laws);
  sweeps = sweep-cons ρ d p q m.sweeps;
  ranks = ap suc m.ranks;
}

merge_into-Moved : (ρ : Env) (c : ℤ) (p : Pattern) → Holds (Moved ρ c p) (merge_into c p)
unfolding merge_into
merge_into-Moved ρ c [] = tt
merge_into-Moved ρ c (d ∷ p) =
    head_cases (merge_into-Moved ρ c p) _ (add_offset-Shifted ρ c d _ _ refl refl)
  where
    tail_cases :
        (r : Option Pattern) → Holds (Moved ρ c p) r → Holds (Moved ρ c (d ∷ p)) (cons_to d r)
    tail_cases none h = tt
    tail_cases (some q) h = Moved-cons ρ c d p q h

    head_cases :
        Holds (Moved ρ c p) (merge_into c p)
        → (r : Option Dim) → Holds (Shifted ρ c d) r
        → Holds
            (Moved ρ c (d ∷ p))
            (elim r [ some d' ↦ some (d' ∷ p) | none ↦ cons_to d (merge_into c p) ])
    head_cases ih none h = tail_cases (merge_into c p) ih
    head_cases ih (some d') h = Moved-head ρ c d d' p h

merge_offset-Moved : (ρ : Env) (c : ℤ) (p : Pattern) → Holds (Moved ρ c p) (merge_offset c p)
unfolding merge_offset
merge_offset-Moved ρ c p = elim (Bool-cases (eqb_ℤ c (pos 0))) [
  | inl e ↦ rw e (record {
    bases = rw (eqb_ℤ-eq c (pos 0) e) (omega int_laws);
    sweeps = λ b. refl;
    ranks = refl;
  })
  | inr e ↦ rw e (merge_into-Moved ρ c p)
]

-- What the scan keeps and what it adds up make the walk.
record Scanned (ρ : Env) (p : Pattern) (s : Scan) : Type 0 where
  bases : base ρ p ≡ s.cumulative_offset +ℤ base ρ s.kept
  sweeps : SameSweep ρ p s.kept
  shorter : length s.kept ≤ length p
  inside : s.insertion_index ≤ length s.kept

-- A folded dimension has size one, and its offset and stride are constants.
record Folded (ρ : Env) (d : Dim) (c : ℤ) : Type 0 where
  adds : eval ρ d.offset *ℤ eval ρ d.stride ≡ c
  one : eval ρ d.size ≡ pos 1

folded_offset-Folded :
    (ρ : Env) (d : Dim) (offset stride : Option ℤ)
    → offset ≡ get_constant_int_value d.offset
    → stride ≡ get_constant_int_value d.stride
    → Holds (Folded ρ d) (folded_offset d offset stride)
unfolding folded_offset
folded_offset-Folded ρ d none stride eo es = tt
folded_offset-Folded ρ d (some o) none eo es = tt
folded_offset-Folded ρ d (some o) (some s) eo es = elim (Bool-cases (is_size_one d)) [
  | inl e ↦ rw e (record {
    adds = rw (eval-constant ρ d.offset o (sym eo), eval-constant ρ d.stride s (sym es));
    one = is_size_one-eval ρ d e;
  })
  | inr e ↦ rw e tt
]

scan-Scanned : (ρ : Env) (p : Pattern) → Scanned ρ p (scan p)
unfolding scan keep
scan-Scanned ρ [] = record {
  bases = omega int_laws;
  sweeps = λ b. refl;
  shorter = omega arith;
  inside = omega arith;
}
scan-Scanned ρ (d ∷ p) = cases (scan-Scanned ρ p) _ (folded_offset-Folded ρ d _ _ refl refl)
  where
    cases :
        Scanned ρ p (scan p)
        → (r : Option ℤ) → Holds (Folded ρ d) r
        → Scanned ρ (d ∷ p) (elim r [
          | some c ↦ record (scan p) { cumulative_offset = c +ℤ (scan p).cumulative_offset }
          | none ↦ keep d (scan p)
        ])
    cases ih none h = record {
      bases = rw ih.bases (omega int_laws);
      sweeps = sweep-cons ρ d p (scan p).kept ih.sweeps;
      shorter = omega (arith, ih.shorter);
      inside = ground (arith, ih.inside);
    }
    cases ih (some c) h = record {
      bases = ap₂ ◌+ℤ◌ h.adds ih.bases ∙ sym (+ℤ_assoc c _ _);
      sweeps = λ b. rw h.one (append-nil (sweep ρ p b) ∙ ih.sweeps b);
      shorter = omega (arith, ih.shorter);
      inside = ih.inside;
    }

insert_at-Moved :
    (ρ : Env) (c : ℤ) (n : ℕ) (p : Pattern)
    → n ≤ length p
    → (base ρ (insert_at n (offset_dim c) p) ≡ c +ℤ base ρ p)
      × SameSweep ρ p (insert_at n (offset_dim c) p)
      × (length (insert_at n (offset_dim c) p) ≡ length p + 1)
insert_at-Moved ρ c zero p h = (
  ap (λ t. t +ℤ base ρ p) (*ℤ_comm (pos 1) c ∙ *ℤ_one c),
  λ b. sym (append-nil (sweep ρ p b)),
  omega arith,
)
insert_at-Moved ρ c (suc n) [] h = absurd (omega arith)
insert_at-Moved ρ c (suc n) (d ∷ p) h =
    let (bases, sweeps, ranks) = insert_at-Moved ρ c n p (omega arith) in
    (
      rw bases (omega int_laws),
      sweep-cons ρ d p (insert_at n (offset_dim c) p) sweeps,
      omega (arith, ranks),
    )

-- One pattern walks like another of higher rank.
abbrev pub Reduces : Env → Pattern → Pattern → Type 0
Reduces ρ p q = SamePattern ρ p q × (length q < length p)

fold_unit_dims-Reduces : (ρ : Env) (p : Pattern) → Ensures (Reduces ρ p) (fold_unit_dims p)
unfolding fold_unit_dims
fold_unit_dims-Reduces ρ p =
    Ensures-if (Reduces ρ p) (length (scan p).kept == length p) _ _ (λ _. tt)
      λ fewer.
        merged (ground (arith, scan-Scanned ρ p)) _
          (merge_offset-Moved ρ (scan p).cumulative_offset (scan p).kept)
  where
    same_of :
        (q : Pattern)
        → base ρ q ≡ (scan p).cumulative_offset +ℤ base ρ (scan p).kept
        → SameSweep ρ (scan p).kept q
        → SamePattern ρ p q
    same_of q e h = record {
      bases = (scan-Scanned ρ p).bases ∙ sym e;
      sweeps = λ b. (scan-Scanned ρ p).sweeps b ∙ h b;
    }

    merged :
        length (scan p).kept < length p
        → (r : Option Pattern) → Holds (Moved ρ (scan p).cumulative_offset (scan p).kept) r
        → Ensures (Reduces ρ p) (elim r [
          | some q ↦ ok q
          | none ↦
              if length (scan p).kept + 1 == length p
              then failure
              else ok (
                  insert_at
                    (scan p).insertion_index
                    (offset_dim (scan p).cumulative_offset)
                    (scan p).kept)
        ])
    merged l (some q) m = (same_of q m.bases m.sweeps, omega (arith, m.ranks))
    merged l none m =
        let i =
          insert_at-Moved ρ (scan p).cumulative_offset (scan p).insertion_index (scan p).kept
            (scan-Scanned ρ p).inside in
        Ensures-if (Reduces ρ p) (length (scan p).kept + 1 == length p) _ _ (λ _. tt)
          λ e. (same_of _ i.0 i.1, ground (arith, i.2, e))

-- When foldUnitDims succeeds, the new pattern has fewer dimensions, as the source asserts, and
-- visits the same addresses in the same order, whatever the values that are not constant are.
pub fold_unit_dims-walk :
    (p q : Pattern)
    → fold_unit_dims p ≡ ok q
    → (length q < length p) × ((ρ : Env) → walk ρ q ≡ walk ρ p)
fold_unit_dims-walk p q h = (
  (Ensures_at (Reduces (λ v. pos 0) p) _ q (fold_unit_dims-Reduces _ p) h).1,
  λ ρ. sym (SamePattern-walk ρ p q (Ensures_at (Reduces ρ p) _ q (fold_unit_dims-Reduces ρ p) h).0),
)

-- When mergeOffset finds a dimension, the pattern walks the same steps from an address that is the
-- offset further on, in as many dimensions.
pub merge_offset-base :
    (c : ℤ) (p q : Pattern)
    → merge_offset c p ≡ some q
    → (length q ≡ length p) × ((ρ : Env) → walk ρ q ≡ sweep ρ p (c +ℤ base ρ p))
merge_offset-base c p q h = ((at (λ v. pos 0)).ranks, λ ρ. rw (at ρ).bases (sym ((at ρ).sweeps _)))
  where
    at : (ρ : Env) → Moved ρ c p q
    at ρ = subst (Holds (Moved ρ c p)) h (merge_offset-Moved ρ c p)
