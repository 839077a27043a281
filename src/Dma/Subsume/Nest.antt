-- ===== src/Dma/Subsume/Nest.antt =====
-- Several loops at once: the offsets that each of them sets, and the dimensions in front.
use mathlib.Core.Path.{ap₂}
use iree_amd_aie.Prelude.{
  ℕ, ◌≡◌, refl, sym, ap, ◌∙◌, Bool, true, false, Option, none, some, List, [], ◌∷◌, if◌then◌else◌,
  mem, All,
}
use iree_amd_aie.Prelude.Int.{ℤ, pos, pos_part, neg_part, ◌+ℤ◌, ◌*ℤ◌, int_laws}
use iree_amd_aie.Prelude.IntRing.{*ℤ_add, *ℤ_parts}
use iree_amd_aie.Dma.Pattern.{
  OpFoldResult, attr, constant, value, Dim, Pattern, Env, eval, eval-constant,
}
use iree_amd_aie.Dma.Walk.{base}
use iree_amd_aie.Dma.Subsume.{Loop, Definitions, dependency}
use iree_amd_aie.Dma.Subsume.Run.{enter}
use iree_amd_aie.Dma.Subsume.Scan.{
  first_offset, advance, stride_of, or_zero, patch_dim, patch, Scaled, AllScaled,
}
use iree_amd_aie.Dma.Subsume.Advance.{IsConstant, IsFree, eval-enter-none, dependent-step}

-- No value depends on two of the loops.
abbrev pub Apart : Loop → List Loop → Type 0
Apart l loops =
    All (λ m. (v : ℕ) → mem v l.induction_values ≡ true → mem v m.induction_values ≡ false) loops

abbrev pub AreSeparate : List Loop → Type 0
AreSeparate [] = Unit
AreSeparate (l ∷ loops) = Apart l loops × AreSeparate loops

-- The two ways to look a value up.
found :
    (l : Loop) (w v : ℕ) (b : Bool)
    → mem w l.induction_values ≡ b
    → ◌≡◌ {A = Option ℕ} (if b then some w else none) (some v)
    → mem w l.induction_values ≡ true
found l w v true e h = e
found l w v false e h = cc

not-dependency :
    (l m : Loop) (o : OpFoldResult) (v : ℕ)
    → dependency l o ≡ some v
    → ((w : ℕ) → mem w l.induction_values ≡ true → mem w m.induction_values ≡ false)
    → dependency m o ≡ none
not-dependency l m (attr c) v h k = refl
not-dependency l m (constant w c) v h k = rw (k w (found l w v (mem w l.induction_values) refl h))
not-dependency l m (value w) v h k = rw (k w (found l w v (mem w l.induction_values) refl h))

patched :
    {B : Type 0} (definitions : Definitions) (l : Loop) (field : Dim → B) (o : Option ℕ) (e : Dim)
    → ((c : ℤ) → field (record e { offset = attr c }) ≡ field e)
    → field (patch_dim definitions l o e) ≡ field e
patched definitions l field none e h = refl
patched definitions l field (some v) e h = h (first_offset definitions l v)

nothing : (k : ℤ) → pos 0 ≡ pos 0 +ℤ k *ℤ pos 0
nothing k = omega (int_laws, *ℤ_parts k (pos 0))

gather : (a b k x y : ℤ) → a +ℤ k *ℤ x +ℤ (b +ℤ k *ℤ y) ≡ a +ℤ b +ℤ k *ℤ (x +ℤ y)
gather a b k x y = omega (int_laws, ap pos_part (*ℤ_add k x y), ap neg_part (*ℤ_add k x y))

module _ (definitions : Definitions) where
  -- The dimension `e`, where the dimension `d` of the operation was.
  abbrev pub moved : List Loop → Dim → Dim → Dim
  moved [] d e = e
  moved (l ∷ loops) d e = moved loops d (patch_dim definitions l (dependency l d.offset) e)

  abbrev pub patch_all : List Loop → Pattern → Pattern → Pattern
  patch_all [] p q = q
  patch_all (l ∷ loops) p q = patch_all loops p (patch definitions l p q)

  pub patch_all-nil : (loops : List Loop) → patch_all loops [] [] ≡ []
  patch_all-nil [] = refl
  patch_all-nil (l ∷ loops) = patch_all-nil loops

  pub patch_all-cons :
      (loops : List Loop) (d e : Dim) (p q : Pattern)
      → patch_all loops (d ∷ p) (e ∷ q) ≡ moved loops d e ∷ patch_all loops p q
  patch_all-cons [] d e p q = refl
  patch_all-cons (l ∷ loops) d e p q =
      patch_all-cons loops d (patch_dim definitions l (dependency l d.offset) e) p
        (patch definitions l p q)

  moved-Apart :
      (l : Loop) (loops : List Loop) (d e : Dim) (v : ℕ)
      → dependency l d.offset ≡ some v
      → Apart l loops
      → moved loops d e ≡ e
  moved-Apart l [] d e v h a = refl
  moved-Apart l (m ∷ loops) d e v h a =
      rw (not-dependency l m d.offset v h a.0) (moved-Apart l loops d e v h a.1)

  pub moved-stride : (loops : List Loop) (d e : Dim) → (moved loops d e).stride ≡ e.stride
  moved-stride [] d e = refl
  moved-stride (l ∷ loops) d e =
      moved-stride loops d (patch_dim definitions l (dependency l d.offset) e)
      ∙ patched definitions l (λ f. f.stride) (dependency l d.offset) e (λ c. refl)

  pub moved-size : (loops : List Loop) (d e : Dim) → (moved loops d e).size ≡ e.size
  moved-size [] d e = refl
  moved-size (l ∷ loops) d e =
      moved-size loops d (patch_dim definitions l (dependency l d.offset) e)
      ∙ patched definitions l (λ f. f.size) (dependency l d.offset) e (λ c. refl)

  eval-patched :
      (ρ σ : Env) (l : Loop) (o : Option ℕ) (e : Dim)
      → eval σ e.offset ≡ eval ρ e.offset
      → eval σ (patch_dim definitions l o e).offset ≡ eval ρ (patch_dim definitions l o e).offset
  eval-patched ρ σ l none e h = h
  eval-patched ρ σ l (some v) e h = refl

  eval-moved :
      (ρ σ : Env) (loops : List Loop) (d e : Dim)
      → eval σ e.offset ≡ eval ρ e.offset
      → eval σ (moved loops d e).offset ≡ eval ρ (moved loops d e).offset
  eval-moved ρ σ [] d e h = h
  eval-moved ρ σ (l ∷ loops) d e h =
      eval-moved ρ σ loops d (patch_dim definitions l (dependency l d.offset) e)
        (eval-patched ρ σ l (dependency l d.offset) e h)

  -- The distance of two rounds.
  abbrev pub total : Loop → Pattern → ℤ
  total l [] = pos 0
  total l (d ∷ p) = advance definitions l d (dependency l d.offset) +ℤ total l p

  module _ (symbols : ℕ → ℤ) (l : Loop) (loops : List Loop) (apart : Apart l loops) (ρ : Env) where
    abbrev round : ℤ → Env
    round k = enter definitions symbols l (l.lower_bound +ℤ k *ℤ l.step) ρ

    abbrev term : Env → Dim → ℤ
    term σ d = eval σ d.offset *ℤ eval σ d.stride

    term-moved :
        (σ : Env) (d e : Dim)
        → IsConstant d
        → e.stride ≡ d.stride
        → term σ (moved loops d e) ≡ eval σ (moved loops d e).offset *ℤ stride_of d
    term-moved σ d e c h =
        let (n, s, is_size, is_stride) = c in
        ap (λ t. eval σ (moved loops d e).offset *ℤ t)
          (ap (eval σ) (moved-stride loops d e ∙ h)
            ∙ eval-constant σ d.stride s is_stride
            ∙ sym (ap or_zero is_stride))

    -- One dimension, from the first round to round `k`.
    dim-round :
        (d : Dim) (k : ℤ) (o : Option ℕ)
        → dependency l d.offset ≡ o
        → IsConstant d
        → IsFree l d.offset
        → Scaled definitions l d o
        → term (round k) (moved loops d d)
          ≡ term ρ (moved loops d (patch_dim definitions l o d)) +ℤ k *ℤ advance definitions l d o
    dim-round d k none e c f h =
        term-moved (round k) d d c refl
        ∙ ap (λ t. t *ℤ stride_of d)
            (eval-moved ρ (round k) loops d d
              (eval-enter-none definitions symbols l ρ d.offset (l.lower_bound +ℤ k *ℤ l.step) e))
        ∙ sym (term-moved ρ d d c refl)
        ∙ still (term ρ (moved loops d d)) k
      where
        still : (a k : ℤ) → a ≡ a +ℤ k *ℤ pos 0
        still a k = omega (int_laws, *ℤ_parts k (pos 0))
    dim-round d k (some v) e c f h =
        let first : Dim = patch_dim definitions l (some v) d in
        term-moved (round k) d d c refl
        ∙ ap (λ t. eval (round k) t.offset *ℤ stride_of d) (moved-Apart l loops d d v e apart)
        ∙ dependent-step definitions symbols l ρ d.offset v (stride_of d) k e f h.0
        ∙ ap (λ t. t +ℤ k *ℤ advance definitions l d (some v))
            (ap (λ t. eval ρ t.offset *ℤ stride_of d) (sym (moved-Apart l loops d first v e apart))
              ∙ sym (term-moved ρ d first c refl))

    pub base-round :
        (p : Pattern) (k : ℤ)
        → All IsConstant p
        → All (λ d. IsFree l d.offset) p
        → AllScaled definitions l p
        → base (round k) (patch_all loops p p)
          ≡ base ρ (patch_all loops p (patch definitions l p p)) +ℤ k *ℤ total l p
    base-round [] k c f h = rw patch_all-nil (nothing k)
    base-round (d ∷ p) k c f h =
        let o : Option ℕ = dependency l d.offset in
        ap (base (round k)) (patch_all-cons loops d d p p)
        ∙ ap₂ ◌+ℤ◌ (dim-round d k o refl c.0 f.0 h.0) (base-round p k c.1 f.1 h.1)
        ∙ gather (term ρ (moved loops d (patch_dim definitions l o d)))
            (base ρ (patch_all loops p (patch definitions l p p))) k (advance definitions l d o)
            (total l p)
        ∙ ap (λ t. base ρ t +ℤ k *ℤ total l (d ∷ p))
            (sym (patch_all-cons loops d (patch_dim definitions l o d) p (patch definitions l p p)))
