-- ===== src/Dma/Subsume/Run.antt =====
-- What a nest of loops around a DMA does, written without the rewrite: the addresses of its rounds,
-- in order.
use iree_amd_aie.Prelude.{ℕ, zero, suc, Option, none, some, List, [], ◌∷◌, ◌++◌, if◌then◌else◌, mem}
use iree_amd_aie.Prelude.Int.{ℤ, pos_part, ◌+ℤ◌, ◌-ℤ◌, ltb_ℤ}
use iree_amd_aie.Dma.Pattern.{Pattern, Env}
use iree_amd_aie.Dma.Walk.{walk}
use iree_amd_aie.Dma.Affine.{AffineExpr, value_at}
use iree_amd_aie.Dma.Subsume.{Loop, Definitions}

-- The rounds from a value of the induction variable on, while it is below the upper bound.
abbrev pub while_below : ℕ → Loop → (ℤ → List ℤ) → ℤ → List ℤ
while_below zero l body x = []
while_below (suc fuel) l body x =
    let rest = while_below fuel l body (x +ℤ l.step) in
    if ltb_ℤ x l.upper_bound then body x ++ rest else []

-- The step is at least one, so that there are at most as many rounds as values in the range.
abbrev pub for_loop : Loop → (ℤ → List ℤ) → List ℤ
for_loop l body = while_below (pos_part (l.upper_bound -ℤ l.lower_bound)) l body l.lower_bound

-- What a value that depends on the induction variable is when that is `x`, by its definition.
abbrev pub induced : (ℕ → ℤ) → ℤ → Option AffineExpr → ℤ
induced symbols x none = x
induced symbols x (some e) = value_at symbols x e

module _ (definitions : Definitions) (symbols : ℕ → ℤ) where
  -- The values in a round.
  abbrev pub enter : Loop → ℤ → Env → Env
  enter l x ρ v = if mem v l.induction_values then induced symbols x (definitions v) else ρ v

  -- The first loop is the outermost.
  abbrev pub run : List Loop → Pattern → Env → List ℤ
  run [] p ρ = walk ρ p
  run (l ∷ loops) p ρ = for_loop l (λ x. run loops p (enter l x ρ))
