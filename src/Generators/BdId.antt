-- ===== src/Generators/BdId.antt =====
-- runtime/src/iree-amd-aie/aie_runtime/Utils/ChannelBdIdGenerator.h and .cpp. The hash map is a
-- function from channels to their ids, the hash set the list of the assigned ids.
pub mod Assign
pub mod Order
mod Tests
use iree_amd_aie.Prelude.{
  ℕ, ◌+◌, ◌-◌, ◌^◌, ◌≡◌, Bool, true, false, not, ◌&&◌, Option, none, some, List, [], ◌∷◌, ltb, leb,
  ◌==◌, if◌then◌else◌, mem, count_if, find_if, remove, insert,
}

pub data BdIdAssignmentMode : Type 0 where
  smallest incremental : BdIdAssignmentMode

pub record ChannelBdIdGenerator : Type 0 where
  pub channel_to_valid_bd_ids : ℕ → Option (List ℕ)
  pub assigned_bd_ids : List ℕ
  pub last_used_bd_id : ℕ

-- The constructor from a map: nothing is assigned, and the last id is the largest `uint32_t`.
unfoldable pub init : (ℕ → Option (List ℕ)) → ChannelBdIdGenerator
init ids = record {
  channel_to_valid_bd_ids = ids;
  assigned_bd_ids = [];
  last_used_bd_id = 2 ^ 32 - 1;
}

abbrev pub is_bd_id_assigned : ChannelBdIdGenerator → ℕ → Bool
is_bd_id_assigned g id = mem id g.assigned_bd_ids

abbrev pub assign_bd_id : ChannelBdIdGenerator → ℕ → ChannelBdIdGenerator
assign_bd_id g id = record g { assigned_bd_ids = insert id g.assigned_bd_ids; last_used_bd_id = id }

abbrev pub release_bd_id : ChannelBdIdGenerator → ℕ → ChannelBdIdGenerator
release_bd_id g id = record g { assigned_bd_ids = remove id g.assigned_bd_ids }

unfoldable pub get_num_available_bd_ids : ChannelBdIdGenerator → ℕ → ℕ
get_num_available_bd_ids g channel = elim (g.channel_to_valid_bd_ids channel) [
  | none ↦ 0
  | some ids ↦ count_if (λ id. not (is_bd_id_assigned g id)) ids
]

-- The ids that the second loop of the incremental mode accepts, and the first.
abbrev pub wraps : ChannelBdIdGenerator → ℕ → Bool
wraps g id = leb id g.last_used_bd_id && not (is_bd_id_assigned g id)

abbrev pub follows : ChannelBdIdGenerator → ℕ → Bool
follows g id = ltb g.last_used_bd_id id && not (is_bd_id_assigned g id)

-- The id that the loops of `getAndAssignBdId` return, if one does.
unfoldable pub select_bd_id : ChannelBdIdGenerator → BdIdAssignmentMode → List ℕ → Option ℕ
select_bd_id g smallest ids = find_if (λ id. not (is_bd_id_assigned g id)) ids
select_bd_id g incremental ids = elim (find_if (follows g) ids) [
  | some id ↦ some id
  | none ↦ find_if (wraps g) ids
]

unfoldable pub finish : ChannelBdIdGenerator → Option ℕ → Option ℕ × ChannelBdIdGenerator
finish g none = (none, g)
finish g (some id) = (some id, assign_bd_id g id)

-- An empty list of ids returns `none` as the loops over it do.
unfoldable pub get_and_assign_bd_id :
    ChannelBdIdGenerator → ℕ → BdIdAssignmentMode → Option ℕ × ChannelBdIdGenerator
get_and_assign_bd_id g channel mode = elim (g.channel_to_valid_bd_ids channel) [
  | none ↦ (none, g)
  | some [] ↦ (none, g)
  | some (id ∷ ids) ↦ finish g (select_bd_id g mode (id ∷ ids))
]
