-- ===== src/Dma/Subsume/Trip.antt =====
-- The number of iterations that calculateNbIterations computes is that of the loop.
use mathlib.Core.Path.{ap₂}
use mathlib.Core.Bool.{xor}
use native.Mathlib.Nat.{div-eq_of_lt, div-eq-sub-div}
use iree_amd_aie.Prelude.{
  ℕ, zero, suc, ◌+◌, ◌-◌, ◌/◌, ◌≤◌, ◌<◌, ◌≡◌, refl, sym, ap, ◌∙◌, true, ◌&&◌, List, [], ◌++◌,
  and_left, and_right, Bool-cases, inl, inr, lt→ltb, leb, arith,
}
use iree_amd_aie.Prelude.Int.{ℤ, pos, negsuc, pos_part, neg_part, ◌+ℤ◌, ◌-ℤ◌, ◌≤ℤ◌, ltb_ℤ, int_laws}
use iree_amd_aie.Prelude.IntRing.{div_ℤ, abs_ℕ}
use iree_amd_aie.Dma.Pattern.{Ensures, Ensures-if}
use iree_amd_aie.Dma.Walk.{rounds}
use iree_amd_aie.Dma.Subsume.{Loop, calculate_nb_iterations}
use iree_amd_aie.Dma.Subsume.Run.{while_below, for_loop}

-- ceil(d / s) for positive s.
abbrev trips : ℕ → ℕ → ℕ
trips zero s = 0
trips (suc d) s = suc (d / s)

-- A loop whose variable has reached the upper bound is over.
over :
    (fuel : ℕ) (l : Loop) (body : ℤ → List ℤ) (x : ℤ)
    → l.upper_bound ≤ℤ x
    → while_below fuel l body x ≡ []
over zero l body x h = refl
over (suc fuel) l body x h = ground arith

another_round :
    (fuel : ℕ) (l : Loop) (body : ℤ → List ℤ) (x : ℤ) (d : ℕ)
    → l.upper_bound ≡ x +ℤ pos (suc d)
    → while_below (suc fuel) l body x ≡ body x ++ while_below fuel l body (x +ℤ l.step)
another_round fuel l body x d u = rw (
    lt→ltb (pos_part x + neg_part l.upper_bound) (pos_part l.upper_bound + neg_part x)
      (omega (int_laws, ap pos_part u, ap neg_part u)))

next_bound :
    (l : Loop) (x : ℤ) (d s : ℕ)
    → s ≤ d
    → l.upper_bound ≡ x +ℤ pos d
    → l.upper_bound ≡ x +ℤ pos s +ℤ pos (d - s)
next_bound l x d s h u = u ∙ omega int_laws

passed_bound :
    (l : Loop) (x : ℤ) (d s : ℕ) → d ≤ s → l.upper_bound ≡ x +ℤ pos d → l.upper_bound ≤ℤ x +ℤ pos s
passed_bound l x d s h u = omega (int_laws, ap pos_part u, ap neg_part u)

-- ceil(d / s) less one is 0 or ceil((d - s) / s).
near_quotient : (d s : ℕ) → suc d ≤ s → d / s ≡ 0
near_quotient d s h = div-eq_of_lt (omega arith)

far_quotient : (d s : ℕ) → 0 < s → s < suc d → d / s ≡ trips (suc d - s) s
far_quotient d s p h =
    div-eq-sub-div p (omega arith) ∙ one_more ((d - s) / s) ∙ ap (λ t. trips t s) (later d s h)
  where
    one_more : (q : ℕ) → q + 1 ≡ suc q
    one_more q = omega arith

    later : (d s : ℕ) → s < suc d → suc (d - s) ≡ suc d - s
    later d s h = omega arith

while_below-rounds :
    (fuel : ℕ) (l : Loop) (body : ℤ → List ℤ) (x : ℤ) (d s : ℕ)
    → l.step ≡ pos s
    → 0 < s
    → d ≤ fuel
    → l.upper_bound ≡ x +ℤ pos d
    → while_below fuel l body x ≡ rounds (trips d s) (pos s) body x
while_below-rounds fuel l body x zero s e p h u =
    over fuel l body x (omega (int_laws, ap pos_part u, ap neg_part u))
while_below-rounds zero l body x (suc d) s e p h u = absurd (omega arith)
while_below-rounds (suc fuel) l body x (suc d) s e p h u =
    another_round fuel l body x d u
    ∙ ap (λ t. body x ++ while_below fuel l body (x +ℤ t)) e
    ∙ ap (λ rest. body x ++ rest)
        (elim (Bool-cases (leb (suc d) s)) [
          | inl near ↦
              rw (near_quotient d s (ground arith))
                (over fuel l body (x +ℤ pos s) (passed_bound l x (suc d) s (ground arith) u))
          | inr far ↦ rw (far_quotient d s p (ground arith)) (
              while_below-rounds fuel l body (x +ℤ pos s) (suc d - s) s e p (ground arith)
                (next_bound l x (suc d) s (ground arith) u))
        ])

positive : (a : ℤ) → ltb_ℤ (pos 0) a ≡ true → (d : ℕ) × (a ≡ pos (suc d))
positive (pos zero) h = absurd (ground arith)
positive (pos (suc d)) h = (d, refl)
positive (negsuc d) h = absurd (ground arith)

quotient : (d s : ℕ) → pos 1 +ℤ div_ℤ (pos (suc d) -ℤ pos 1) (pos (suc s)) ≡ pos (suc (d / suc s))
unfolding ◌+ℤ◌ ◌-ℤ◌ div_ℤ abs_ℕ xor
quotient d s = ground arith

-- `n` is the number of rounds of the loop, which is at least one.
abbrev pub IsTripCount : Loop → ℤ → Type 0
IsTripCount l n =
    (k : ℕ) × (n ≡ pos (suc k))
    × ((body : ℤ → List ℤ) → for_loop l body ≡ rounds (suc k) l.step body l.lower_bound)

-- calculateNbIterations of a loop, where it returns, is the number of rounds of the loop, which is
-- at least one.
pub calculate_nb_iterations-IsTripCount :
    (l : Loop) → Ensures (IsTripCount l) (calculate_nb_iterations l)
unfolding calculate_nb_iterations
calculate_nb_iterations-IsTripCount l =
    let range = l.upper_bound -ℤ l.lower_bound in
    Ensures-if (IsTripCount l) (ltb_ℤ (pos 0) range && ltb_ℤ (pos 0) l.step) _ _
      (λ h.
        let (d, e) = positive range (and_left (ltb_ℤ (pos 0) range) _ h) in
        let (s, f) = positive l.step (and_right (ltb_ℤ (pos 0) range) _ h) in
        (
          d / suc s,
          ap₂ (λ t u. pos 1 +ℤ div_ℤ (t -ℤ pos 1) u) e f ∙ quotient d s,
          λ body.
              while_below-rounds (pos_part range) l body l.lower_bound (suc d) (suc s) f
                (omega arith) (omega (arith, ap pos_part e))
                (omega (int_laws, ap pos_part e, ap neg_part e))
              ∙ ap (λ t. rounds (suc (d / suc s)) t body l.lower_bound) (sym f),
        ))
      (λ _. tt)
