-- ===== src/Dma/Linear/Same.antt =====
-- Patterns that walk alike, in the reversed lists that the loops go through.
use iree_amd_aie.Prelude.{ℕ, ◌*◌, ◌≡◌, refl, sym, ap, ◌∙◌, [], ◌∷◌, ◌++◌, reverse}
use iree_amd_aie.Prelude.Int.{pos, ◌+ℤ◌, ◌*ℤ◌, +ℤ_assoc}
use iree_amd_aie.Dma.Pattern.{OpFoldResult, Pattern, Env, eval}
use iree_amd_aie.Dma.Walk.{rounds-mul, sweep, base, sweep-cons}
use iree_amd_aie.Dma.Units.Match.{SamePattern}
use mathlib.Core.List.{append_assoc, append-nil, reverse-cons, reverse-reverse}

pub SamePattern-refl : (ρ : Env) (p : Pattern) → SamePattern ρ p p
SamePattern-refl ρ p = record { bases = refl; sweeps = λ b. refl }

pub SamePattern-trans :
    (ρ : Env) (p q r : Pattern) → SamePattern ρ p q → SamePattern ρ q r → SamePattern ρ p r
SamePattern-trans ρ p q r s t = record {
  bases = s.bases ∙ t.bases;
  sweeps = λ b. s.sweeps b ∙ t.sweeps b;
}

-- The dimensions that are still to come, from the back, before those that are done.
abbrev pub onto : Pattern → Pattern → Pattern
onto [] new = new
onto (d ∷ p) new = onto p (d ∷ new)

pub onto-SamePattern :
    (ρ : Env) (p q r : Pattern) → SamePattern ρ q r → SamePattern ρ (onto p q) (onto p r)
onto-SamePattern ρ [] q r s = s
onto-SamePattern ρ (d ∷ p) q r s = onto-SamePattern ρ p (d ∷ q) (d ∷ r) (record {
  bases = ap (λ t. eval ρ d.offset *ℤ eval ρ d.stride +ℤ t) s.bases;
  sweeps = sweep-cons ρ d q r s.sweeps;
})

onto-reverse_append : (p q : Pattern) → onto p q ≡ reverse p ++ q
onto-reverse_append [] q = refl
onto-reverse_append (d ∷ p) q =
    onto-reverse_append p (d ∷ q)
    ∙ sym (rw (reverse-cons d p) (append_assoc (reverse p) (d ∷ []) q))

pub onto-reverse : (p : Pattern) → onto (reverse p) [] ≡ p
onto-reverse p =
    onto-reverse_append (reverse p) [] ∙ append-nil (reverse (reverse p)) ∙ reverse-reverse p

-- A loop of `f * n` rounds is a loop of `f` over one of `n`, for a split of its offset.
pub split-SamePattern :
    (ρ : Env) (size outer inner : OpFoldResult)
    (offset outer_offset inner_offset stride outer_stride : OpFoldResult) (f n : ℕ) (new : Pattern)
    → eval ρ size ≡ pos (f * n)
    → eval ρ outer ≡ pos f
    → eval ρ inner ≡ pos n
    → eval ρ outer_stride ≡ pos n *ℤ eval ρ stride
    → eval ρ offset *ℤ eval ρ stride
      ≡ eval ρ outer_offset *ℤ eval ρ outer_stride +ℤ eval ρ inner_offset *ℤ eval ρ stride
    → SamePattern ρ (record { offset = offset; size = size; stride = stride } ∷ new) (
        record { offset = outer_offset; size = outer; stride = outer_stride }
        ∷ record { offset = inner_offset; size = inner; stride = stride }
        ∷ new)
split-SamePattern ρ size outer inner o oo io s os f n new es eo ei est e = record {
  bases = ap (λ t. t +ℤ base ρ new) e ∙ +ℤ_assoc _ _ (base ρ new);
  sweeps = λ b. rw (es, eo, ei, est) (sym (rounds-mul f n (eval ρ s) (sweep ρ new) b));
}
