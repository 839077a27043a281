-- ===== src/Generators/BdId/Order.antt =====
-- Which of the free ids `getAndAssignBdId` picks, for a list of ids in ascending order, as the
-- device model supplies it; how many are left; and that a series of calls repeats no id.
use iree_amd_aie.Prelude.{
  ℕ, ◌+◌, ◌≤◌, ◌<◌, ◌≡◌, refl, sym, ◌∙◌, Bool, true, false, not, ◌&&◌, ◌⊎◌, Option, none, some,
  List, [], ◌∷◌, arith, ◌==◌, ==_iff, if◌then◌else◌, mem, count_if, find_if, Nodup, Ascending,
  mem-All, find_if-passes, find_if-none,
}
use mathlib.Core.Path.{subst}
use iree_amd_aie.Generators.BdId.{
  BdIdAssignmentMode, smallest, incremental, ChannelBdIdGenerator, is_bd_id_assigned,
  get_num_available_bd_ids, wraps, follows, select_bd_id, finish, get_and_assign_bd_id,
}
use iree_amd_aie.Generators.BdId.Assign.{
  Assigned, Outcome, assigned, refused, get_and_assign-Outcome,
}

-- The first element that passes is the least, in an ascending list.
find_if-least :
    (p : ℕ → Bool) (xs : List ℕ) (x y : ℕ)
    → Ascending xs
    → find_if p xs ≡ some x
    → mem y xs ≡ true
    → p y ≡ true
    → x ≤ y
find_if-least p [] x y a f m t = cc
find_if-least p (z ∷ zs) x y a f m t =
    ground (arith, find_if-least p zs x y a.1, mem-All (λ w. z < w) zs y a.0)

-- Each mode's order among the free ids.
abbrev pub Picks : ChannelBdIdGenerator → BdIdAssignmentMode → ℕ → ℕ → Type 0
Picks g smallest id x = id ≤ x
Picks g incremental id x =
    (g.last_used_bd_id < x → (g.last_used_bd_id < id) × (id ≤ x))
    × (x ≤ g.last_used_bd_id → (g.last_used_bd_id < id) ⊎ (id ≤ x))

select-Picks :
    (g : ChannelBdIdGenerator) (mode : BdIdAssignmentMode) (ids : List ℕ) (id x : ℕ)
    → Ascending ids
    → select_bd_id g mode ids ≡ some id
    → mem x ids ≡ true
    → is_bd_id_assigned g x ≡ false
    → Picks g mode id x
unfolding select_bd_id
select-Picks g smallest ids id x a s m f = find_if-least _ ids id x a s m (ground arith)
select-Picks g incremental ids id x a s m f = ground (
  arith,
  find_if-least (follows g) ids id x a,
  find_if-least (wraps g) ids id x a,
  find_if-passes (follows g) ids id,
  find_if-passes (wraps g) ids id,
  find_if-none (follows g) ids x,
)

-- Over an ascending list of ids, the smallest mode picks the least free id. The incremental mode
-- picks the least free id above the last used one, and if there is none, the least free id.
pub get_and_assign-Picks :
    (g : ChannelBdIdGenerator) (channel : ℕ) (mode : BdIdAssignmentMode) (ids : List ℕ) (id x : ℕ)
    → g.channel_to_valid_bd_ids channel ≡ some ids
    → Ascending ids
    → (get_and_assign_bd_id g channel mode).0 ≡ some id
    → mem x ids ≡ true
    → is_bd_id_assigned g x ≡ false
    → Picks g mode id x
unfolding get_and_assign_bd_id finish
get_and_assign-Picks g channel mode [] id x v a s m f = cc
get_and_assign-Picks g channel mode (y ∷ ys) id x v a s m f =
    select-Picks g mode (y ∷ ys) id x a (ground arith) m f

count_if-drop :
    (p q : ℕ → Bool) (xs : List ℕ) (id : ℕ)
    → Nodup xs
    → ((x : ℕ) → q x ≡ (not (id == x) && p x))
    → p id ≡ true
    → count_if q xs + (if mem id xs then 1 else 0) ≡ count_if p xs
count_if-drop p q [] id u e t = refl
count_if-drop p q (x ∷ xs) id u e t = ground (arith, e x, count_if-drop p q xs id u.1 e t)

-- What an outcome says where an id came back.
abbrev AssignedAt : ChannelBdIdGenerator → ℕ → Option ℕ × ChannelBdIdGenerator → Type 0
AssignedAt g channel (none, g') = Unit
AssignedAt g channel (some id, g') = Assigned g channel id g'

Outcome-AssignedAt :
    {g : ChannelBdIdGenerator} {channel : ℕ} {r : Option ℕ × ChannelBdIdGenerator}
    → Outcome g channel r
    → AssignedAt g channel r
Outcome-AssignedAt (assigned a) = a
Outcome-AssignedAt (refused h) = tt

get_and_assign-Assigned :
    (g : ChannelBdIdGenerator) (channel : ℕ) (mode : BdIdAssignmentMode) (id : ℕ)
    (g' : ChannelBdIdGenerator)
    → get_and_assign_bd_id g channel mode ≡ (some id, g')
    → Assigned g channel id g'
get_and_assign-Assigned g channel mode id g' e =
    subst (AssignedAt g channel) e (Outcome-AssignedAt (get_and_assign-Outcome g channel mode))

-- Each success uses up exactly one of the ids that getNumAvailableBdIds counts for the channel,
-- where its list holds no id twice.
pub get_num_available-get_and_assign :
    (g : ChannelBdIdGenerator) (channel : ℕ) (mode : BdIdAssignmentMode) (ids : List ℕ) (id : ℕ)
    (g' : ChannelBdIdGenerator)
    → g.channel_to_valid_bd_ids channel ≡ some ids
    → Nodup ids
    → get_and_assign_bd_id g channel mode ≡ (some id, g')
    → get_num_available_bd_ids g' channel + 1 ≡ get_num_available_bd_ids g channel
unfolding get_num_available_bd_ids
get_num_available-get_and_assign g channel mode ids id g' v u e =
    let a = get_and_assign-Assigned g channel mode id g' e in
    let e' : g'.channel_to_valid_bd_ids channel ≡ some ids = rw a.kept v in
    let both : some ids ≡ some a.ids = sym v ∙ a.valid in
    let same : ids ≡ a.ids = cc in
    let offered : mem id ids ≡ true = rw same a.offered in
    let drop =
      count_if-drop (λ x. not (is_bd_id_assigned g x)) (λ x. not (is_bd_id_assigned g' x)) ids id u
        (λ x. ground (arith, a.taken x)) (ground (arith, a.free)) in
    rw (v, e', get_num_available_bd_ids) (ground (arith, drop))

-- The ids that a series of calls returns, in order.
abbrev pub take_ids : ChannelBdIdGenerator → List (ℕ × BdIdAssignmentMode) → List ℕ
take_ids g [] = []
take_ids g ((channel, mode) ∷ calls) =
    let (r, g') = get_and_assign_bd_id g channel mode in
    let rest = take_ids g' calls in elim r [ none ↦ rest | some id ↦ id ∷ rest ]

fresh_step :
    {g : ChannelBdIdGenerator} {channel : ℕ} {r : Option ℕ × ChannelBdIdGenerator}
    (f : ChannelBdIdGenerator → List ℕ) (x : ℕ)
    → Outcome g channel r
    → is_bd_id_assigned g x ≡ true
    → (is_bd_id_assigned r.1 x ≡ true → mem x (f r.1) ≡ false)
    → mem x (elim r.0 [ none ↦ f r.1 | some id ↦ id ∷ f r.1 ]) ≡ false
fresh_step f x (assigned {id = id} a) h k = ground (arith, k, a.taken x, a.free, ==_iff id x)
fresh_step f x (refused e) h k = k h

-- What was assigned before the calls is not returned by them.
take_ids-fresh :
    (g : ChannelBdIdGenerator) (calls : List (ℕ × BdIdAssignmentMode)) (x : ℕ)
    → is_bd_id_assigned g x ≡ true
    → mem x (take_ids g calls) ≡ false
take_ids-fresh g [] x h = refl
take_ids-fresh g ((channel, mode) ∷ calls) x h =
    fresh_step (λ g'. take_ids g' calls) x (get_and_assign-Outcome g channel mode) h
      (take_ids-fresh (get_and_assign_bd_id g channel mode).1 calls x)

Nodup-step :
    {g : ChannelBdIdGenerator} {channel : ℕ} {r : Option ℕ × ChannelBdIdGenerator}
    (f : ChannelBdIdGenerator → List ℕ)
    → Outcome g channel r
    → ((x : ℕ) → is_bd_id_assigned r.1 x ≡ true → mem x (f r.1) ≡ false)
    → Nodup (f r.1)
    → Nodup (elim r.0 [ none ↦ f r.1 | some id ↦ id ∷ f r.1 ])
Nodup-step f (assigned {id = id} a) k n = (k id (ground (arith, a.taken id)), n)
Nodup-step f (refused e) k n = n

-- A series of calls, over any channels and in any modes, returns no id twice, and none that was
-- assigned before, where none is released in between.
pub take_ids-Nodup :
    (g : ChannelBdIdGenerator) (calls : List (ℕ × BdIdAssignmentMode))
    → Nodup (take_ids g calls)
      × ((x : ℕ) → is_bd_id_assigned g x ≡ true → mem x (take_ids g calls) ≡ false)
take_ids-Nodup g [] = (tt, λ x h. refl)
take_ids-Nodup g ((channel, mode) ∷ calls) =
    let g' = (get_and_assign_bd_id g channel mode).1 in
    (
      Nodup-step (λ h. take_ids h calls) (get_and_assign-Outcome g channel mode)
          (take_ids-fresh g' calls) (take_ids-Nodup g' calls).0,
      take_ids-fresh g ((channel, mode) ∷ calls),
    )
