-- ===== src/Packets/Emit.antt =====
-- The rules that emitSlaveGroupsAndMasksRoutingConfig returns.
use mathlib.Core.Path.{subst}
use iree_amd_aie.Prelude.{
  ℕ, ◌^◌, ◌≤◌, ◌<◌, ◌≡◌, refl, ap, ◌∙◌, false, Bool-cases, inl, inr, Option, none, some, List, [],
  ◌∷◌, ◌==◌, ==_iff, if◌then◌else◌, mem, length, get_or, set, arith,
}
use iree_amd_aie.Prelude.Result.{Result, ok, Ensures, Ensures-if, Ensures-bind, Ensures-any}
use iree_amd_aie.Packets.{Masks, update_group_mask}
use iree_amd_aie.Packets.Groups.{
  SlavePort, Flows, destinations, at, same_destinations, next_index, find_group,
  sort_groups_by_size, insert_id, PortRules, merge_or_add, Rules, put, emit_from,
}
use iree_amd_aie.Packets.Valid.{
  IsValid, add_group-IsValid, merged-AreProper, merged-IsValid, reverted-IsValid,
}
use iree_amd_aie.Packets.Merge.{verify_groups-returns}

-- The index is that of a group.
abbrev pub IsIndex : List (List ℕ) → Option ℕ → Type 0
IsIndex groups none = Unit
IsIndex groups (some i) = i < length groups

-- The step for one id returns valid rules.
abbrev pub Steps : ℕ → List ℕ → Result PortRules → Type 0
Steps n done step = (r : PortRules) × (step ≡ ok r) × IsValid n done r

merge_or_add-IsValid :
    (n x : ℕ) (done : List ℕ) (i : Option ℕ) (r : PortRules)
    → n ≤ 32
    → x < 2 ^ n
    → mem x done ≡ false
    → IsValid n done r
    → IsIndex r.groups i
    → Steps n (x ∷ done) (merge_or_add n x i r)
unfolding merge_or_add
merge_or_add-IsValid n x done none r w b f v h = (_, refl, add_group-IsValid n x done w b f r v)
merge_or_add-IsValid n x done (some i) r w b f v h =
    let group : List ℕ = insert_id x (get_or r.groups i []) in
    let masks : Masks = update_group_mask n group r.masks in
    let groups : List (List ℕ) = sort_groups_by_size (set r.groups i group) in
    let reverted : PortRules = record r {
      masks = update_group_mask n (get_or r.groups i []) masks;
    } in
    let (valid, e) =
      verify_groups-returns n masks groups (merged-AreProper n x done w b f r v i h) in
    elim (Bool-cases valid) [
      | inl t ↦ (_, rw (e, t) refl, merged-IsValid n x done w b f r v i h (e ∙ ap (λ z. ok z) t))
      | inr t ↦ (
        _,
        rw (e, t) refl,
        add_group-IsValid n x done w b f reverted (reverted-IsValid n x done w b f r v i h),
      )
    ]

IsIndex-next :
    (g : List ℕ) (groups : List (List ℕ)) (i : Option ℕ)
    → IsIndex groups i
    → IsIndex (g ∷ groups) (next_index i)
IsIndex-next g groups none h = tt
IsIndex-next g groups (some i) h = omega arith

pub find_group-IsIndex :
    (flows : Flows) (s : SlavePort) (groups : List (List ℕ))
    → Ensures (IsIndex groups) (find_group flows s groups)
unfolding find_group
find_group-IsIndex flows s [] = tt
find_group-IsIndex flows s ([] ∷ groups) = tt
find_group-IsIndex flows s ((f ∷ g) ∷ groups) =
    Ensures-bind (λ d. Unit) _ (at (destinations flows s)) _ (Ensures-any _)
      (λ d _.
        Ensures-bind (λ d. Unit) _ (at (destinations flows (record { port = s.port; id = f }))) _
          (Ensures-any _)
          (λ e _.
            Ensures-if _ (same_destinations d e) _ _ (λ _. omega arith)
              (λ _.
                Ensures-bind (IsIndex groups) _ (find_group flows s groups) _
                  (find_group-IsIndex flows s groups) (λ i h. IsIndex-next (f ∷ g) groups i h))))

-- The ids of each port that are done.
abbrev pub Seen : Type 0
Seen = ℕ → List ℕ

abbrev pub see : SlavePort → Seen → Seen
see s done p = if s.port == p then s.id ∷ done p else done p

abbrev pub see_all : List SlavePort → Seen → Seen
see_all [] done = done
see_all (s ∷ slaves) done = see_all slaves (see s done)

abbrev pub nobody : Seen
nobody p = []

-- Each slave port is a new one, its id has `n` bits at most, and its flow is known.
abbrev pub AreNew : ℕ → Flows → List SlavePort → Seen → Type 0
AreNew n flows [] done = Unit
AreNew n flows (s ∷ slaves) done =
    (mem s.id (done s.port) ≡ false)
    × (s.id < 2 ^ n)
    × ((dests : List ℕ) × (destinations flows s ≡ some dests))
    × AreNew n flows slaves (see s done)

module _ (n : ℕ) (flows : Flows) (small : n ≤ 32) where
  abbrev pub AreValid : Seen → Rules → Type 0
  AreValid done rules = (p : ℕ) → IsValid n (done p) (rules p)

  put-AreValid :
      (s : SlavePort) (done : Seen) (rules : Rules) (r : PortRules)
      → AreValid done rules
      → IsValid n (s.id ∷ done s.port) r
      → AreValid (see s done) (put s.port r rules)
  put-AreValid s done rules r v h p = elim (Bool-cases (s.port == p)) [
    | inl e ↦ rw (see, put, e) (subst (λ q. IsValid n (s.id ∷ done q) r) ((==_iff s.port p).0 e) h)
    | inr e ↦ rw (see, put, e) (v p)
  ]

  -- The step for one slave port returns rules that are valid for it, too.
  pub step-AreValid :
      (s : SlavePort) (done : Seen) (rules : Rules) (i : Option ℕ)
      → mem s.id (done s.port) ≡ false
      → s.id < 2 ^ n
      → AreValid done rules
      → IsIndex (rules s.port).groups i
      → (r : PortRules) × (merge_or_add n s.id i (rules s.port) ≡ ok r)
        × AreValid (see s done) (put s.port r rules)
  step-AreValid s done rules i f b v h =
      let (r, e, valid) =
        merge_or_add-IsValid n s.id (done s.port) i (rules s.port) small b f (v s.port) h in
      (r, e, put-AreValid s done rules r v valid)

  pub emit_from-AreValid :
      (slaves : List SlavePort) (done : Seen) (rules : Rules)
      → AreNew n flows slaves done
      → AreValid done rules
      → Ensures (AreValid (see_all slaves done)) (emit_from n flows slaves rules)
  unfolding emit_from
  emit_from-AreValid [] done rules a v = v
  emit_from-AreValid (s ∷ slaves) done rules a v =
      Ensures-bind (IsIndex (rules s.port).groups) _ (find_group flows s (rules s.port).groups) _
        (find_group-IsIndex flows s (rules s.port).groups)
        (λ i h.
          let (r, e, valid) = step-AreValid s done rules i a.0 a.1 v h in
          rw e (emit_from-AreValid slaves (see s done) (put s.port r rules) a.3 valid))
