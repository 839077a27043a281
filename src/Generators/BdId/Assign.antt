-- ===== src/Generators/BdId/Assign.antt =====
-- What `getAndAssignBdId` returns, and when it fails.
use iree_amd_aie.Prelude.{
  ℕ, ◌≡◌, refl, Bool, true, false, ◌||◌, inl, inr, Option, none, some, List, [], ◌∷◌, arith, ◌==◌,
  mem, count_if, mem-insert, find_if-mem, find_if-passes, find_if-none, Option-cases,
}
use iree_amd_aie.Generators.BdId.{
  BdIdAssignmentMode, smallest, incremental, ChannelBdIdGenerator, is_bd_id_assigned,
  get_num_available_bd_ids, wraps, follows, select_bd_id, finish, get_and_assign_bd_id,
}

-- The id lies in the list and is free.
select-free :
    (g : ChannelBdIdGenerator) (mode : BdIdAssignmentMode) (ids : List ℕ) (id : ℕ)
    → select_bd_id g mode ids ≡ some id
    → (mem id ids ≡ true) × (is_bd_id_assigned g id ≡ false)
unfolding select_bd_id
select-free g smallest ids id h =
    (find_if-mem _ ids id h, ground (arith, find_if-passes _ ids id h))
select-free g incremental ids id h = ground (
  arith,
  find_if-mem (follows g) ids id,
  find_if-mem (wraps g) ids id,
  find_if-passes (follows g) ids id,
  find_if-passes (wraps g) ids id,
)

-- The loops give up only if every id is taken.
select-none :
    (g : ChannelBdIdGenerator) (mode : BdIdAssignmentMode) (ids : List ℕ) (id : ℕ)
    → select_bd_id g mode ids ≡ none
    → mem id ids ≡ true
    → is_bd_id_assigned g id ≡ true
unfolding select_bd_id
select-none g smallest ids id h m = ground (arith, find_if-none _ ids id h m)
select-none g incremental ids id h m =
    ground (arith, find_if-none (follows g) ids id, find_if-none (wraps g) ids id)

-- What a successful call leaves behind: a valid id that was free, now assigned and remembered as
-- the last one, and nothing else changed.
pub record Assigned (g : ChannelBdIdGenerator) (channel id : ℕ) (g' : ChannelBdIdGenerator)
    : Type 0 where
  pub ids : List ℕ
  pub valid : g.channel_to_valid_bd_ids channel ≡ some ids
  pub offered : mem id ids ≡ true
  pub free : is_bd_id_assigned g id ≡ false
  pub taken : (x : ℕ) → is_bd_id_assigned g' x ≡ ((id == x) || is_bd_id_assigned g x)
  pub last : g'.last_used_bd_id ≡ id
  pub kept : g'.channel_to_valid_bd_ids ≡ g.channel_to_valid_bd_ids

-- The two outcomes of a call.
pub data Outcome (g : ChannelBdIdGenerator) (channel : ℕ)
    : Option ℕ × ChannelBdIdGenerator → Type 0 where
  assigned :
      {id : ℕ} {g' : ChannelBdIdGenerator}
      → Assigned g channel id g'
      → Outcome g channel (some id, g')
  refused : get_num_available_bd_ids g channel ≡ 0 → Outcome g channel (none, g)

count-none :
    (p : ℕ → Bool) (xs : List ℕ) → ((x : ℕ) → mem x xs ≡ true → p x ≡ false) → count_if p xs ≡ 0
count-none p [] h = refl
count-none p (x ∷ xs) h = ground (arith, h x, count-none p xs (λ y m. h y (ground arith)))

finish-Outcome :
    (g : ChannelBdIdGenerator) (channel : ℕ) (ids : List ℕ)
    → g.channel_to_valid_bd_ids channel ≡ some ids
    → (r : Option ℕ)
    → ((id : ℕ) → r ≡ some id → (mem id ids ≡ true) × (is_bd_id_assigned g id ≡ false))
    → (r ≡ none → (id : ℕ) → mem id ids ≡ true → is_bd_id_assigned g id ≡ true)
    → Outcome g channel (finish g r)
unfolding finish get_num_available_bd_ids
finish-Outcome g channel ids v none s n =
    refused
      (rw (v, get_num_available_bd_ids) (count-none _ ids (λ x m. ground (arith, n refl x m))))
finish-Outcome g channel ids v (some id) s n = assigned (record {
  ids = ids;
  valid = v;
  offered = (s id refl).0;
  free = (s id refl).1;
  taken = λ x. mem-insert x id g.assigned_bd_ids;
  last = refl;
  kept = refl;
})

-- A call of getAndAssignBdId, in either mode, returns a free id of the channel and assigns it, or
-- returns nothing and leaves the generator as it was; then the channel has no free id.
pub get_and_assign-Outcome :
    (g : ChannelBdIdGenerator) (channel : ℕ) (mode : BdIdAssignmentMode)
    → Outcome g channel (get_and_assign_bd_id g channel mode)
unfolding get_and_assign_bd_id get_num_available_bd_ids
get_and_assign-Outcome g channel mode = elim (Option-cases (g.channel_to_valid_bd_ids channel)) [
  | inl e ↦ rw (e, get_and_assign_bd_id) (refused (rw (e, get_num_available_bd_ids)))
  | inr ([], e) ↦ rw (e, get_and_assign_bd_id) (refused (rw (e, get_num_available_bd_ids)))
  | inr (id ∷ ids, e) ↦
      rw (e, get_and_assign_bd_id)
        (finish-Outcome g channel (id ∷ ids) e _ (select-free g mode (id ∷ ids))
          (λ h x m. select-none g mode (id ∷ ids) x h m))
]
