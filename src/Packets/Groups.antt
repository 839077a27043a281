-- ===== src/Packets/Groups.antt =====
-- iree_aie_router.cc: emitSlaveGroupsAndMasksRoutingConfig, which puts the packet ids of each slave
-- port into groups, one rule for each. A port is a number. The two maps are a function from ports,
-- `none` of a destination being an absent key.
use iree_amd_aie.Prelude.{
  ℕ, suc, Bool, true, false, ◌&&◌, Option, none, some, List, [], ◌∷◌, ◌++◌, ltb, ◌==◌,
  if◌then◌else◌, mem, all_of, length, insert, get_or, set,
}
use iree_amd_aie.Prelude.Result.{Result, ok, fault, ◌>>=◌}
use iree_amd_aie.Packets.{Masks, update_group_mask, verify_groups_by_mask}

pub record SlavePort : Type 0 where
  pub port : ℕ
  pub id : ℕ

-- `lhs < rhs` of `std::set`.
abbrev pub less_ids : List ℕ → List ℕ → Bool
less_ids [] [] = false
less_ids [] (y ∷ ys) = true
less_ids (x ∷ xs) [] = false
less_ids (x ∷ xs) (y ∷ ys) =
    let rest = less_ids xs ys in if ltb x y then true else if ltb y x then false else rest

-- `sortBySize`.
abbrev pub less_group : List ℕ → List ℕ → Bool
less_group a b = if length a == length b then less_ids a b else ltb (length a) (length b)

abbrev pub insert_group : List ℕ → List (List ℕ) → List (List ℕ)
insert_group g [] = g ∷ []
insert_group g (h ∷ groups) =
    let rest = insert_group g groups in if less_group g h then g ∷ h ∷ groups else h ∷ rest

-- The order is total on sets, so that the result of `std::sort` is that of any sort.
abbrev pub sort_onto : List (List ℕ) → List (List ℕ) → List (List ℕ)
sort_onto sorted [] = sorted
sort_onto sorted (g ∷ groups) = sort_onto (insert_group g sorted) groups

unfoldable pub sort_groups_by_size : List (List ℕ) → List (List ℕ)
sort_groups_by_size groups = sort_onto [] groups

-- The ascending list of a set with one more member.
abbrev pub insert_id : ℕ → List ℕ → List ℕ
insert_id x [] = x ∷ []
insert_id x (y ∷ ys) =
    let rest = insert_id x ys in if ltb x y then x ∷ y ∷ ys else if x == y then y ∷ ys else y ∷ rest

-- `physPortAndIDToPhysPort`: the destination ports of a flow, each once, by port and id.
abbrev pub Flows : Type 0
Flows = List (SlavePort × List ℕ)

abbrev pub ports_once : List ℕ → List ℕ → List ℕ
ports_once ports [] = ports
ports_once ports (p ∷ dsts) = ports_once (insert p ports) dsts

-- A flow that is already there is not replaced.
unfoldable pub destinations : Flows → SlavePort → Option (List ℕ)
destinations [] s = none
destinations ((src, dsts) ∷ flows) s =
    if (src.port == s.port) && (src.id == s.id)
    then some (ports_once [] dsts)
    else destinations flows s

abbrev pub same_destinations : List ℕ → List ℕ → Bool
same_destinations dests1 dests2 =
    (length dests1 == length dests2) && all_of (λ p. mem p dests2) dests1

abbrev pub at : Option (List ℕ) → Result (List ℕ)
at none = fault
at (some dests) = ok dests

abbrev pub next_index : Option ℕ → Option ℕ
next_index none = none
next_index (some i) = some (suc i)

-- The first group whose destinations are those of the slave. `at` throws on an absent key, and an
-- empty group has no first id.
unfoldable pub find_group : Flows → SlavePort → List (List ℕ) → Result (Option ℕ)
find_group flows s [] = ok none
find_group flows s ([] ∷ groups) = fault
find_group flows s ((first_id ∷ group) ∷ groups) = at (destinations flows s) >>= λ dests1.
    at (destinations flows (record { port = s.port; id = first_id })) >>= λ dests2.
    if same_destinations dests1 dests2
    then ok (some 0)
    else find_group flows s groups >>= λ i. ok (next_index i)

pub record PortRules : Type 0 where
  pub groups : List (List ℕ)
  pub masks : Masks

-- A group of its own.
unfoldable pub add_group : ℕ → ℕ → PortRules → PortRules
add_group num_mask_bits x r = record {
  groups = sort_groups_by_size (r.groups ++ ((x ∷ []) ∷ []));
  masks = update_group_mask num_mask_bits (x ∷ []) r.masks;
}

-- The attempt to merge an id into group `i`. Where it is not valid, the groups are put back and the
-- masks of the group are set again, before the id gets a group of its own.
unfoldable pub merge_or_add : ℕ → ℕ → Option ℕ → PortRules → Result PortRules
merge_or_add num_mask_bits x none r = ok (add_group num_mask_bits x r)
merge_or_add num_mask_bits x (some i) r =
    let group = insert_id x (get_or r.groups i []) in
    let masks = update_group_mask num_mask_bits group r.masks in
    let groups = sort_groups_by_size (set r.groups i group) in
    verify_groups_by_mask groups masks >>= λ valid.
    if valid
    then ok (record { groups = groups; masks = masks })
    else ok (
        add_group num_mask_bits x
          (record r { masks = update_group_mask num_mask_bits (get_or r.groups i []) masks }))

-- All ports.
abbrev pub Rules : Type 0
Rules = ℕ → PortRules

abbrev pub put : ℕ → PortRules → Rules → Rules
put p r rules q = if p == q then r else rules q

unfoldable pub emit_from : ℕ → Flows → List SlavePort → Rules → Result Rules
emit_from num_mask_bits flows [] rules = ok rules
emit_from num_mask_bits flows (s ∷ slaves) rules = find_group flows s (rules s.port).groups >>= λ i.
    merge_or_add num_mask_bits s.id i (rules s.port) >>= λ r.
    emit_from num_mask_bits flows slaves (put s.port r rules)

abbrev pub no_rules : Rules
no_rules p = record { groups = []; masks = λ id i. false }

-- Flows and slaves that were routed before come first.
unfoldable pub emit_slave_groups_and_masks :
    List SlavePort → Flows → List SlavePort → Flows → ℕ → Result Rules
emit_slave_groups_and_masks slave_ports flows prior_slave_ports prior_flows num_mask_bits =
    emit_from num_mask_bits (prior_flows ++ flows) (prior_slave_ports ++ slave_ports) no_rules
