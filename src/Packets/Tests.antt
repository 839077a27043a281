-- ===== src/Packets/Tests.antt =====
-- The theorem on packet rules at two groups, and groups in the wrong order.
use iree_amd_aie.Prelude.{
  ℕ, ◌≡◌, refl, true, false, Bool-cases, inl, inr, some, List, [], ◌∷◌, ==_iff, mem, arith,
  ℕ_discrete, dec_lt,
}
use iree_amd_aie.Prelude.Result.{ok}
use iree_amd_aie.Packets.{
  Masks, eq_masked, group_mask, fold_mask, update_group_mask, none_match, verify_groups_by_mask,
}
use iree_amd_aie.Packets.Groups.{SlavePort, Flows, destinations, emit_slave_groups_and_masks}
use iree_amd_aie.Packets.Returns.{Routes, emit-Routes}
use iree_amd_aie.Packets.Rules.{first_match, AreCurrent, verify_groups-first_match}

abbrev narrow : List ℕ
narrow = 2 ∷ []

abbrev wide : List ℕ
wide = 3 ∷ 4 ∷ 5 ∷ []

abbrev masks : Masks
masks = update_group_mask 5 narrow (update_group_mask 5 wide (λ id i. false))

masks-AreCurrent : AreCurrent 5 masks (narrow ∷ wide ∷ [])
unfolding update_group_mask
masks-AreCurrent = (
  λ id h. rw h refl,
  (
    λ id h. elim (Bool-cases (mem id narrow)) [
      | inl e ↦ absurd (ground (arith, ==_iff 2 id, ==_iff 3 id, ==_iff 4 id, ==_iff 5 id))
      | inr e ↦ rw (e, h) refl
    ],
    tt,
  ),
)

narrow_first : verify_groups_by_mask (narrow ∷ wide ∷ []) masks ≡ ok true
unfolding verify_groups_by_mask none_match eq_masked update_group_mask group_mask fold_mask
    ℕ_discrete dec_lt
narrow_first = refl

wide_first : verify_groups_by_mask (wide ∷ narrow ∷ []) masks ≡ ok false
unfolding verify_groups_by_mask none_match eq_masked update_group_mask group_mask fold_mask
    ℕ_discrete dec_lt
wide_first = refl

verify_groups-first_match_example : first_match (narrow ∷ wide ∷ []) masks 4 ≡ some 1
verify_groups-first_match_example =
    verify_groups-first_match 5 masks (narrow ∷ wide ∷ []) wide 1 4 masks-AreCurrent narrow_first
      refl refl

-- On port 0 the ids 0, 3 and 5 go to port 7, and 1 to port 8; id 5 was routed before.
abbrev slave : ℕ → SlavePort
slave id = record { port = 0; id = id }

abbrev slaves : List SlavePort
slaves = slave 0 ∷ slave 3 ∷ slave 1 ∷ []

abbrev flows : Flows
flows = (slave 0, 7 ∷ []) ∷ (slave 3, 7 ∷ []) ∷ (slave 1, 8 ∷ []) ∷ []

abbrev prior_flows : Flows
prior_flows = (slave 5, 7 ∷ []) ∷ []

emit-Routes_example :
    Routes (emit_slave_groups_and_masks slaves flows (slave 5 ∷ []) prior_flows 5) 0 3
unfolding destinations ℕ_discrete dec_lt
emit-Routes_example =
    emit-Routes 5 slaves (slave 5 ∷ []) flows prior_flows 0 3 (omega arith)
      (
        refl,
        omega arith,
        (7 ∷ [], refl),
        (
          refl,
          omega arith,
          (7 ∷ [], refl),
          (refl, omega arith, (7 ∷ [], refl), (refl, omega arith, (8 ∷ [], refl), tt)),
        ),
      )
      refl
