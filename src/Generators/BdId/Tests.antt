-- ===== src/Generators/BdId/Tests.antt =====
-- The theorems on ChannelBdIdGenerator at concrete generators.
use iree_amd_aie.Prelude.{
  ℕ, zero, suc, ◌+◌, ◌≡◌, refl, ap, true, false, Option, none, some, List, [], ◌∷◌, arith, mem,
  Nodup, ℕ_discrete, dec_lt,
}
use iree_amd_aie.Generators.BdId.{
  BdIdAssignmentMode, smallest, incremental, ChannelBdIdGenerator, is_bd_id_assigned,
  get_num_available_bd_ids, select_bd_id, finish, get_and_assign_bd_id,
}
use iree_amd_aie.Generators.BdId.Assign.{Outcome, get_and_assign-Outcome}
use iree_amd_aie.Generators.BdId.Order.{
  Picks, take_ids, get_and_assign-Picks, get_num_available-get_and_assign, take_ids-Nodup,
}

abbrev valid_ids : ℕ → Option (List ℕ)
valid_ids zero = some (0 ∷ 1 ∷ 2 ∷ [])
valid_ids (suc channel) = none

-- Id 1 is assigned.
abbrev one_taken : ChannelBdIdGenerator
one_taken = record {
  channel_to_valid_bd_ids = valid_ids;
  assigned_bd_ids = 1 ∷ [];
  last_used_bd_id = 1;
}

abbrev two_taken : ChannelBdIdGenerator
two_taken = record one_taken { assigned_bd_ids = 1 ∷ 2 ∷ []; last_used_bd_id = 2 }

incremental_goes_on : get_and_assign_bd_id one_taken 0 incremental ≡ (some 2, two_taken)
unfolding get_and_assign_bd_id select_bd_id finish ℕ_discrete dec_lt
incremental_goes_on = refl

incremental_wraps : (get_and_assign_bd_id two_taken 0 incremental).0 ≡ some 0
unfolding get_and_assign_bd_id select_bd_id finish ℕ_discrete dec_lt
incremental_wraps = refl

get_and_assign-Outcome_example : Outcome one_taken 0 (get_and_assign_bd_id one_taken 0 incremental)
get_and_assign-Outcome_example = get_and_assign-Outcome one_taken 0 incremental

get_and_assign-Picks_example : Picks one_taken incremental 2 0
get_and_assign-Picks_example =
    get_and_assign-Picks one_taken 0 incremental (0 ∷ 1 ∷ 2 ∷ []) 2 0 refl
      ((omega arith, (omega arith, tt)), ((omega arith, tt), (tt, tt)))
      (ap (λ r. r.0) incremental_goes_on) refl refl

get_num_available-get_and_assign_example :
    get_num_available_bd_ids two_taken 0 + 1 ≡ get_num_available_bd_ids one_taken 0
get_num_available-get_and_assign_example =
    get_num_available-get_and_assign one_taken 0 incremental (0 ∷ 1 ∷ 2 ∷ []) 2 two_taken refl
      (refl, (refl, (refl, tt))) incremental_goes_on

abbrev three_calls : List (ℕ × BdIdAssignmentMode)
three_calls = (0, smallest) ∷ (1, smallest) ∷ (0, incremental) ∷ []

take_ids-Nodup_example :
    Nodup (take_ids one_taken three_calls)
    × ((x : ℕ)
        → is_bd_id_assigned one_taken x ≡ true
        → mem x (take_ids one_taken three_calls) ≡ false)
take_ids-Nodup_example = take_ids-Nodup one_taken three_calls
