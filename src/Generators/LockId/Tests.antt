-- ===== src/Generators/LockId/Tests.antt =====
-- The theorems on LockIdGenerator at concrete maps.
use iree_amd_aie.Prelude.{ℕ, ◌≡◌, refl, some, [], ◌∷◌, arith, ℕ_discrete, dec_lt}
use iree_amd_aie.Generators.LockId.{
  LockMap, update, is_lock_id_assigned, skip_assigned, get_and_assign_lock_id,
}
use iree_amd_aie.Generators.LockId.Assign.{Outcome, get_and_assign_lock_id-Outcome}

abbrev three_locks : ℕ → ℕ → ℕ
three_locks col row = 3

-- Tile (1, 2) has its locks 0 and 2 assigned.
abbrev some_locks : LockMap
some_locks = update (λ c r. []) 1 2 (0 ∷ 2 ∷ [])

takes_the_gap : (get_and_assign_lock_id three_locks some_locks 1 2).0 ≡ some 1
unfolding get_and_assign_lock_id skip_assigned is_lock_id_assigned ℕ_discrete dec_lt
takes_the_gap = refl

get_and_assign_lock_id-Outcome_example :
    Outcome three_locks some_locks 1 2 (get_and_assign_lock_id three_locks some_locks 1 2)
get_and_assign_lock_id-Outcome_example =
    get_and_assign_lock_id-Outcome three_locks some_locks 1 2 (omega arith)
