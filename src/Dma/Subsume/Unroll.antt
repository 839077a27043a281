-- ===== src/Dma/Subsume/Unroll.antt =====
-- The nest of loops around a pattern visits what one pattern with dimensions in front visits.
use mathlib.Core.Path.{fun_ext, ap₂}
use mathlib.Core.List.{append_assoc}
use iree_amd_aie.Prelude.{
  ℕ, zero, suc, ◌≡◌, refl, sym, ap, ◌∙◌, Bool-cases, inl, inr, Option, none, some, List, [], ◌∷◌,
  ◌++◌, if◌then◌else◌, All,
}
use iree_amd_aie.Prelude.Int.{ℤ, pos, pos_part, ◌+ℤ◌, ◌*ℤ◌, int_laws}
use iree_amd_aie.Prelude.IntRing.{eqb_ℤ, eqb_ℤ-eq, *ℤ_parts}
use iree_amd_aie.Dma.Pattern.{
  Result, ok, failure, fault, Ensures_at, OpFoldResult, get_constant_int_value, Dim, Pattern, Env,
  eval, eval-constant,
}
use iree_amd_aie.Dma.Walk.{rounds, sweep, base, walk, rounds-one, shift_zero, shift_suc}
use iree_amd_aie.Dma.Subsume.{Loop, Definitions, dependency, new_dim, calculate_nb_iterations}
use iree_amd_aie.Dma.Subsume.Run.{enter, run, for_loop}
use iree_amd_aie.Dma.Subsume.Trip.{IsTripCount, calculate_nb_iterations-IsTripCount}
use iree_amd_aie.Dma.Subsume.Scan.{patch_dim, patch, AllScaled}
use iree_amd_aie.Dma.Subsume.Advance.{IsConstant, IsFree}
use iree_amd_aie.Dma.Subsume.Nest.{
  Apart, AreSeparate, moved, patch_all, patch_all-nil, patch_all-cons, moved-size, moved-stride,
  total, base-round,
}

-- Patterns that differ in their offsets.
abbrev pub SameShape : Pattern → Pattern → Type 0
SameShape [] [] = Unit
SameShape [] (e ∷ q) = ⊥
SameShape (d ∷ p) [] = ⊥
SameShape (d ∷ p) (e ∷ q) = (d.size ≡ e.size) × (d.stride ≡ e.stride) × SameShape p q

SameShape-prepend : (f p q : Pattern) → SameShape p q → SameShape (f ++ p) (f ++ q)
SameShape-prepend [] p q h = h
SameShape-prepend (d ∷ f) p q h = (refl, refl, SameShape-prepend f p q h)

eval-fixed :
    (ρ σ : Env) (a b : OpFoldResult) (c : ℤ)
    → get_constant_int_value a ≡ some c
    → a ≡ b
    → eval ρ a ≡ eval σ b
eval-fixed ρ σ a b c h e = eval-constant ρ a c h ∙ sym (eval-constant σ a c h) ∙ ap (eval σ) e

sweep-SameShape :
    (ρ σ : Env) (p q : Pattern) → All IsConstant p → SameShape p q → sweep ρ p ≡ sweep σ q
sweep-SameShape ρ σ [] [] c h = refl
sweep-SameShape ρ σ [] (e ∷ q) c h = absurd h
sweep-SameShape ρ σ (d ∷ p) [] c h = absurd h
sweep-SameShape ρ σ (d ∷ p) (e ∷ q) c h =
    let (n, s, is_size, is_stride) = c.0 in
    fun_ext (λ b.
      ap (λ t. rounds (pos_part t) (eval ρ d.stride) (sweep ρ p) b)
        (eval-fixed ρ σ d.size e.size n is_size h.0)
      ∙ ap (λ t. rounds (pos_part (eval σ e.size)) t (sweep ρ p) b)
          (eval-fixed ρ σ d.stride e.stride s is_stride h.1)
      ∙ ap (λ t. rounds (pos_part (eval σ e.size)) (eval σ e.stride) t b)
          (sweep-SameShape ρ σ p q c.1 h.2))

-- A loop over addresses that move by `a`.
rounds-moving :
    (n : ℕ) (s a : ℤ) (f g : ℤ → List ℤ) (x b : ℤ)
    → ((j : ℕ) → f (x +ℤ pos j *ℤ s) ≡ g (b +ℤ pos j *ℤ a))
    → rounds n s f x ≡ rounds n a g b
rounds-moving zero s a f g x b h = refl
rounds-moving (suc n) s a f g x b h =
    ap₂ ◌++◌ (ap f (sym (shift_zero x s)) ∙ h 0 ∙ ap g (shift_zero b a)) (
      rounds-moving n s a f g (x +ℤ s) (b +ℤ a)
        (λ j. ap f (shift_suc j x s) ∙ h (suc j) ∙ ap g (sym (shift_suc j b a))))

abbrev pub trip_count : Result ℤ → ℤ
trip_count (ok n) = n
trip_count failure = pos 0
trip_count fault = pos 0

module _ (definitions : Definitions) where
  -- The dimension of one loop.
  abbrev pub front : ℤ → Loop → Pattern → Pattern
  front n l p = if eqb_ℤ n (pos 1) then [] else new_dim n (total definitions l p) ∷ []

  abbrev pub fronts : List Loop → Pattern → Pattern
  fronts [] p = []
  fronts (l ∷ loops) p = front (trip_count (calculate_nb_iterations l)) l p ++ fronts loops p

  -- What the rewrite has found out when it succeeds.
  pub record Subsumable (p : Pattern) (l : Loop) : Type 0 where
    pub trips : ℤ
    pub counted : calculate_nb_iterations l ≡ ok trips
    pub scaled : AllScaled definitions l p
    pub constants : All IsConstant p
    pub free : All (λ d. IsFree l d.offset) p

  moved-fields :
      (l : Loop) (loops : List Loop) (d : Dim) (o : Option ℕ)
      → ((moved definitions loops d d).size
          ≡ (moved definitions loops d (patch_dim definitions l o d)).size)
        × ((moved definitions loops d d).stride
            ≡ (moved definitions loops d (patch_dim definitions l o d)).stride)
  moved-fields l loops d none = (refl, refl)
  moved-fields l loops d (some v) =
      let e : Dim = patch_dim definitions l (some v) d in
      (
        moved-size definitions loops d d ∙ sym (moved-size definitions loops d e),
        moved-stride definitions loops d d ∙ sym (moved-stride definitions loops d e),
      )

  patch_all-SameShape :
      (l : Loop) (loops : List Loop) (p : Pattern)
      → SameShape
          (patch_all definitions loops p p)
          (patch_all definitions loops p (patch definitions l p p))
  patch_all-SameShape l loops [] = rw patch_all-nil tt
  patch_all-SameShape l loops (d ∷ p) =
      let (same_size, same_stride) = moved-fields l loops d (dependency l d.offset) in
      let e : Dim = patch_dim definitions l (dependency l d.offset) d in
      rw
        (
          patch_all-cons definitions loops d d p p,
          patch_all-cons definitions loops d e p (patch definitions l p p),
        )
        (same_size, same_stride, patch_all-SameShape l loops p)

  patch_all-IsConstant :
      (loops : List Loop) (p : Pattern)
      → All IsConstant p
      → All IsConstant (patch_all definitions loops p p)
  patch_all-IsConstant loops [] c = rw patch_all-nil tt
  patch_all-IsConstant loops (d ∷ p) c =
      let (n, s, is_size, is_stride) = c.0 in
      rw patch_all-cons (
        (
          n,
          s,
          ap get_constant_int_value (moved-size definitions loops d d) ∙ is_size,
          ap get_constant_int_value (moved-stride definitions loops d d) ∙ is_stride,
        ),
        patch_all-IsConstant loops p c.1,
      )

  base-front : (n : ℤ) (l : Loop) (p q : Pattern) (ρ : Env) → base ρ (front n l p ++ q) ≡ base ρ q
  base-front n l p q ρ = elim (Bool-cases (eqb_ℤ n (pos 1))) [
    | inl e ↦ rw e
    | inr e ↦ rw e (no_offset (total definitions l p) (base ρ q))
  ]
    where
      no_offset : (a b : ℤ) → pos 0 *ℤ a +ℤ b ≡ b
      no_offset a b = omega (int_laws, *ℤ_parts (pos 0) a)

  front-IsConstant :
      (n : ℤ) (l : Loop) (p q : Pattern) → All IsConstant q → All IsConstant (front n l p ++ q)
  front-IsConstant n l p q c = elim (Bool-cases (eqb_ℤ n (pos 1))) [
    | inl e ↦ rw e c
    | inr e ↦ rw e ((n, total definitions l p, refl, refl), c)
  ]

  base-fronts :
      (loops : List Loop) (p q : Pattern) (ρ : Env) → base ρ (fronts loops p ++ q) ≡ base ρ q
  base-fronts [] p q ρ = refl
  base-fronts (l ∷ loops) p q ρ =
      ap (base ρ)
        (append_assoc (front (trip_count (calculate_nb_iterations l)) l p) (fronts loops p) q)
      ∙ base-front (trip_count (calculate_nb_iterations l)) l p (fronts loops p ++ q) ρ
      ∙ base-fronts loops p q ρ

  fronts-IsConstant :
      (loops : List Loop) (p q : Pattern) → All IsConstant q → All IsConstant (fronts loops p ++ q)
  fronts-IsConstant [] p q c = c
  fronts-IsConstant (l ∷ loops) p q c = rw append_assoc (
      front-IsConstant (trip_count (calculate_nb_iterations l)) l p (fronts loops p ++ q)
        (fronts-IsConstant loops p q c))

  -- A loop around a pattern is a dimension in front.
  walk-front :
      (n : ℤ) (k : ℕ) (l : Loop) (p q : Pattern) (ρ : Env)
      → n ≡ pos (suc k)
      → walk ρ (front n l p ++ q) ≡ rounds (suc k) (total definitions l p) (sweep ρ q) (base ρ q)
  walk-front n k l p q ρ e = elim (Bool-cases (eqb_ℤ n (pos 1))) [
    | inl one ↦ rw one (
        sym (rounds-one (total definitions l p) (sweep ρ q) (base ρ q))
        ∙ ap (λ m. rounds m (total definitions l p) (sweep ρ q) (base ρ q))
            (single k (ap pos_part (sym e ∙ eqb_ℤ-eq n (pos 1) one))))
    | inr more ↦
        ap (λ b. sweep ρ (front n l p ++ q) b) (base-front n l p q ρ)
        ∙ rw more (ap (λ m. rounds (pos_part m) (total definitions l p) (sweep ρ q) (base ρ q)) e)
  ]
    where
      single : (k : ℕ) → suc k ≡ 1 → 1 ≡ suc k
      single k h = sym h

  module _ (symbols : ℕ → ℤ) where
    -- Round `j` of the outermost loop, the others being unrolled.
    walk-round :
        (l : Loop) (loops : List Loop) (p : Pattern) (ρ : Env) (j : ℕ)
        → Subsumable p l
        → Apart l loops
        → walk
            (enter definitions symbols l (l.lower_bound +ℤ pos j *ℤ l.step) ρ)
            (fronts loops p ++ patch_all definitions loops p p)
          ≡ sweep ρ (fronts loops p ++ patch_all definitions loops p (patch definitions l p p)) (
              base ρ (fronts loops p ++ patch_all definitions loops p (patch definitions l p p))
              +ℤ pos j *ℤ total definitions l p)
    walk-round l loops p ρ j s a =
        let σ : Env = enter definitions symbols l (l.lower_bound +ℤ pos j *ℤ l.step) ρ in
        let q : Pattern = patch_all definitions loops p p in
        let r : Pattern = patch_all definitions loops p (patch definitions l p p) in
        ap₂ (λ f b. f b)
          (sweep-SameShape σ ρ (fronts loops p ++ q) (fronts loops p ++ r)
            (fronts-IsConstant loops p q (patch_all-IsConstant loops p s.constants))
            (SameShape-prepend (fronts loops p) q r (patch_all-SameShape l loops p)))
          (base-fronts loops p q σ
            ∙ base-round definitions symbols l loops a ρ p (pos j) s.constants s.free s.scaled
            ∙ ap (λ b. b +ℤ pos j *ℤ total definitions l p) (sym (base-fronts loops p r ρ)))

    -- The nest of loops around a pattern is the walk of the new pattern.
    pub run-walk :
        (loops : List Loop) (p : Pattern) (ρ : Env)
        → All (Subsumable p) loops
        → AreSeparate loops
        → run definitions symbols loops p ρ
          ≡ walk ρ (fronts loops p ++ patch_all definitions loops p p)
    run-walk [] p ρ s a = refl
    run-walk (l ∷ loops) p ρ s a =
        let c = s.0 in
        let r : Pattern =
          fronts loops p ++ patch_all definitions loops p (patch definitions l p p) in
        let (k, e, trips) =
          Ensures_at (IsTripCount l) (calculate_nb_iterations l) c.trips
            (calculate_nb_iterations-IsTripCount l) c.counted in
        ap (for_loop l) (fun_ext (λ x. run-walk loops p (enter definitions symbols l x ρ) s.1 a.1))
        ∙ trips (λ x.
          walk (enter definitions symbols l x ρ)
            (fronts loops p ++ patch_all definitions loops p p))
        ∙ rounds-moving (suc k) l.step (total definitions l p)
            (λ x.
              walk (enter definitions symbols l x ρ)
                (fronts loops p ++ patch_all definitions loops p p))
            (sweep ρ r) l.lower_bound (base ρ r) (λ j. walk-round l loops p ρ j c a.0)
        ∙ sym (
            walk-front (trip_count (calculate_nb_iterations l)) k l p r ρ
              (ap trip_count c.counted ∙ e))
        ∙ ap (walk ρ) (
            sym (
              append_assoc (front (trip_count (calculate_nb_iterations l)) l p) (fronts loops p)
                (patch_all definitions loops p (patch definitions l p p))))
