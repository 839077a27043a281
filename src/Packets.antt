-- ===== src/Packets.antt =====
-- runtime/src/iree-amd-aie/aie_runtime/iree_aie_router.cc: the masks and the order of the packet
-- rules of one slave port. A mask is its bits, lowest first, a set of packet ids a list in
-- ascending order, and the map of masks is a function from ids.
pub mod Rules
pub mod Groups
pub mod Exact
pub mod Order
pub mod Merge
pub mod Valid
pub mod Emit
pub mod Returns
mod Tests
use iree_amd_aie.Prelude.{
  ℕ, zero, suc, ◌+◌, ◌/◌, ◌%◌, ◌^◌, Bool, true, false, not, ◌&&◌, ◌||◌, List, [], ◌∷◌, ltb, ◌==◌,
  if◌then◌else◌, mem, all_of,
}
use iree_amd_aie.Prelude.Result.{Result, ok, fault}

abbrev pub Mask : Type 0
Mask = ℕ → Bool

abbrev pub Masks : Type 0
Masks = ℕ → Mask

-- Bit `i` of an id.
abbrev pub bit : ℕ → ℕ → Bool
bit id i = id / 2 ^ i % 2 == 1

abbrev pub eq_bit : Bool → Bool → Bool
eq_bit true b = b
eq_bit false b = not b

-- `mask & ~(id ^ firstId)`.
abbrev pub mask_off : ℕ → Mask → ℕ → Mask
mask_off first_id mask id i = mask i && eq_bit (bit id i) (bit first_id i)

-- `for (id : group) mask = mask & ~(id ^ firstId)`.
unfoldable pub fold_mask : ℕ → Mask → List ℕ → Mask
fold_mask first_id mask [] = mask
fold_mask first_id mask (id ∷ group) = fold_mask first_id (mask_off first_id mask id) group

-- The mask starts with the lowest `num_mask_bits` bits.
unfoldable pub group_mask : ℕ → List ℕ → Mask
group_mask num_mask_bits [] = λ i. false
group_mask num_mask_bits (first_id ∷ group) =
    fold_mask first_id (λ i. ltb i num_mask_bits) (first_id ∷ group)

-- An empty group changes nothing, since it has no ids.
unfoldable pub update_group_mask : ℕ → List ℕ → Masks → Masks
update_group_mask num_mask_bits group slave_masks id =
    if mem id group then group_mask num_mask_bits group else slave_masks id

-- `(a & mask) == (b & mask)`, over the lowest `n` bits; the masks have 32.
unfoldable pub eq_masked : ℕ → ℕ → ℕ → Mask → Bool
eq_masked zero a b mask = true
eq_masked (suc n) a b mask = eq_bit (bit a n && mask n) (bit b n && mask n) && eq_masked n a b mask

abbrev pub matches : ℕ → Mask → ℕ → Bool
matches first_id mask id = eq_masked 32 id first_id mask

-- The two inner loops of `verifyGroupsByMask`: no id of a later group matches.
unfoldable pub none_match : ℕ → Mask → List (List ℕ) → Bool
none_match first_id mask [] = true
none_match first_id mask (group ∷ groups) =
    all_of (λ id. not (matches first_id mask id)) group && none_match first_id mask groups

-- A group without ids has no first id.
unfoldable pub verify_groups_by_mask : List (List ℕ) → Masks → Result Bool
verify_groups_by_mask [] slave_masks = ok true
verify_groups_by_mask ([] ∷ groups) slave_masks = fault
verify_groups_by_mask ((first_id ∷ group) ∷ groups) slave_masks =
    let rest = verify_groups_by_mask groups slave_masks in
    if none_match first_id (slave_masks first_id) groups then rest else ok false
