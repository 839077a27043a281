-- ===== src/Packets/Returns.antt =====
-- emitSlaveGroupsAndMasksRoutingConfig returns, and its rules send every packet id to its own group.
use mathlib.Core.Path.{subst}
use iree_amd_aie.Prelude.{
  ℕ, suc, ◌+◌, ◌≤◌, ◌≡◌, refl, Bool, true, false, Bool-cases, inl, inr, Option, none, some, List,
  [], ◌∷◌, ◌++◌, ◌==◌, ==_iff, if◌then◌else◌, mem, get_elem?, All, arith,
}
use iree_amd_aie.Prelude.Result.{Result, ok, Ensures_at}
use iree_amd_aie.Packets.{verify_groups_by_mask}
use iree_amd_aie.Packets.Rules.{first_match, verify_groups-first_match}
use iree_amd_aie.Packets.Groups.{
  SlavePort, Flows, destinations, same_destinations, next_index, find_group, PortRules, Rules, put,
  emit_from, no_rules, emit_slave_groups_and_masks,
}
use iree_amd_aie.Packets.Order.{occurrences}
use iree_amd_aie.Packets.Merge.{IsProper, first}
use iree_amd_aie.Packets.Valid.{IsValid}
use iree_amd_aie.Packets.Emit.{
  IsIndex, find_group-IsIndex, Seen, see, see_all, nobody, AreNew, AreValid, step-AreValid,
  emit_from-AreValid,
}

-- The destinations of a port and an id are known.
abbrev IsKnown : Flows → ℕ → ℕ → Type 0
IsKnown flows p id =
    (dests : List ℕ) × (destinations flows (record { port = p; id = id }) ≡ some dests)

counted_in : (b : Bool) (k : ℕ) → 1 ≤ k → k ≡ (if b then 1 else 0) → b ≡ true
counted_in true k h e = refl
counted_in false k h e = absurd (omega arith)

-- A search that meets known flows only returns.
find_group-returns :
    (n : ℕ) (flows : Flows) (s : SlavePort) (groups : List (List ℕ))
    → IsKnown flows s.port s.id
    → All (IsProper n) groups
    → ((y : ℕ) → 1 ≤ occurrences y groups → IsKnown flows s.port y)
    → (i : Option ℕ) × (find_group flows s groups ≡ ok i)
unfolding find_group
find_group-returns n flows s [] d p k = (none, refl)
find_group-returns n flows s ([] ∷ groups) d p k = absurd (omega (arith, p.0.0))
find_group-returns n flows s ((f ∷ g) ∷ groups) d p k =
    let (dests1, e) = d in
    let (dests2, e') = k f (rw (first f g) (omega arith)) in
    let (i, r) = find_group-returns n flows s groups d p.1 (λ y h. k y (omega (arith, h))) in
    elim (Bool-cases (same_destinations dests1 dests2)) [
      | inl t ↦ (some 0, rw (find_group, e, e', t) refl)
      | inr t ↦ (next_index i, rw (find_group, e, e', t, r) refl)
    ]

module _ (n : ℕ) (flows : Flows) (small : n ≤ 32) where
  abbrev AllKnown : Seen → Type 0
  AllKnown done = (p y : ℕ) → mem y (done p) ≡ true → IsKnown flows p y

  see-AllKnown :
      (s : SlavePort) (done : Seen)
      → IsKnown flows s.port s.id
      → AllKnown done
      → AllKnown (see s done)
  see-AllKnown s done k a p y m = elim (Bool-cases (s.port == p)) [
    | inl e ↦ elim (Bool-cases (s.id == y)) [
      | inl f ↦
          subst (λ q. IsKnown flows q y) ((==_iff s.port p).0 e)
            (subst (IsKnown flows s.port) ((==_iff s.id y).0 f) k)
      | inr f ↦ a p y (rw (see, e, f) at m)
    ]
    | inr e ↦ a p y (rw (see, e) at m)
  ]

  emit_from-returns :
      (slaves : List SlavePort) (done : Seen) (rules : Rules)
      → AreNew n flows slaves done
      → AreValid n flows small done rules
      → AllKnown done
      → (result : Rules) × (emit_from n flows slaves rules ≡ ok result)
  unfolding emit_from
  emit_from-returns [] done rules a v k = (rules, refl)
  emit_from-returns (s ∷ slaves) done rules a v k =
      let valid = v s.port in
      let (i, found) = find_group-returns n flows s (rules s.port).groups a.2 valid.proper (λ y h.
        k s.port y (
          counted_in (mem y (done s.port)) (occurrences y (rules s.port).groups) h
            (valid.counted y))) in
      let index =
        Ensures_at (IsIndex (rules s.port).groups) (find_group flows s (rules s.port).groups) i
          (find_group-IsIndex flows s (rules s.port).groups) found in
      let (r, merged, valid') = step-AreValid n flows small s done rules i a.0 a.1 v index in
      let (result, returned) =
        emit_from-returns slaves (see s done) (put s.port r rules) a.3 valid'
          (see-AllKnown s done a.2 k) in
      (result, rw (found, merged) returned)

-- The rules of a port send an id to its own group.
abbrev pub HitsOwn : PortRules → ℕ → Type 0
HitsOwn r id =
    (k : ℕ) × (g : List ℕ) × (get_elem? r.groups k ≡ some g)
    × (mem id g ≡ true)
    × (first_match r.groups r.masks id ≡ some k)

in_some_group :
    (id : ℕ) (groups : List (List ℕ))
    → 1 ≤ occurrences id groups
    → (k : ℕ) × (g : List ℕ) × (get_elem? groups k ≡ some g) × (mem id g ≡ true)
in_some_group id [] h = absurd (omega arith)
in_some_group id (g ∷ groups) h = elim (Bool-cases (mem id g)) [
  | inl e ↦ (0, g, refl, e)
  | inr e ↦
      let (k, g', at_k, m) = in_some_group id groups (rest (occurrences id groups) (rw e at h)) in
      (suc k, g', at_k, m)
]
  where
    rest : (k : ℕ) → 1 ≤ 0 + k → 1 ≤ k
    rest k h = omega arith

counted_once : (b : Bool) (k : ℕ) → b ≡ true → k ≡ (if b then 1 else 0) → 1 ≤ k
counted_once true k h e = omega arith
counted_once false k h e = cc

IsValid-HitsOwn :
    (n id : ℕ) (done : List ℕ) (r : PortRules)
    → IsValid n done r
    → mem id done ≡ true
    → HitsOwn r id
IsValid-HitsOwn n id done r v m =
    let (k, g, at_k, inside) =
      in_some_group id r.groups
        (counted_once (mem id done) (occurrences id r.groups) m (v.counted id)) in
    (
      k,
      g,
      at_k,
      inside,
      verify_groups-first_match n r.masks r.groups g k id v.current v.accepted at_k inside,
    )

no_rules-IsValid : (n p : ℕ) → IsValid n (nobody p) (no_rules p)
unfolding verify_groups_by_mask
no_rules-IsValid n p = record {
  current = tt;
  accepted = refl;
  sorted = tt;
  proper = tt;
  counted = λ y. refl;
}

-- The rules are returned, and send the id of the port to its own group.
abbrev pub Routes : Result Rules → ℕ → ℕ → Type 0
Routes r p id = (rules : Rules) × (r ≡ ok rules) × HitsOwn (rules p) id

-- emitSlaveGroupsAndMasksRoutingConfig returns, and for a slave port of one of the two lists the
-- first rule that its packet id hits is the rule of a group with that id. No port and id come twice,
-- the ids have at most as many bits as the masks, which have 32 at most, and the flows of all slave
-- ports are known.
pub emit-Routes :
    (n : ℕ) (slaves prior_slaves : List SlavePort) (flows prior_flows : Flows) (p id : ℕ)
    → n ≤ 32
    → AreNew n (prior_flows ++ flows) (prior_slaves ++ slaves) nobody
    → mem id (see_all (prior_slaves ++ slaves) nobody p) ≡ true
    → Routes (emit_slave_groups_and_masks slaves flows prior_slaves prior_flows n) p id
unfolding emit_slave_groups_and_masks
emit-Routes n slaves prior_slaves flows prior_flows p id w a m =
    let all_flows : Flows = prior_flows ++ flows in
    let all_slaves : List SlavePort = prior_slaves ++ slaves in
    let (rules, returned) =
      emit_from-returns n all_flows w all_slaves nobody no_rules a (no_rules-IsValid n)
        (λ q y k. cc) in
    let valid =
      Ensures_at (AreValid n all_flows w (see_all all_slaves nobody))
        (emit_from n all_flows all_slaves no_rules) rules
        (emit_from-AreValid n all_flows w all_slaves nobody no_rules a (no_rules-IsValid n))
        returned in
    (rules, returned, IsValid-HitsOwn n id (see_all all_slaves nobody p) (rules p) (valid p) m)
