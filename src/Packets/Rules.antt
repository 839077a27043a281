-- ===== src/Packets/Rules.antt =====
-- The switch tries the packet rules in order, and the first that matches an id decides.
use mathlib.Core.Path.{subst}
use mathlib.Core.Option.{some_inj}
use iree_amd_aie.Prelude.{
  ℕ, zero, suc, ◌≡◌, refl, sym, ap, Bool, true, false, not, ◌&&◌, Bool-cases, inl, inr, Option,
  none, some, List, [], ◌∷◌, ltb, ◌==◌, ==_iff, if◌then◌else◌, mem, all_of, and_left, and_right,
  get_elem?, All, arith,
}
use iree_amd_aie.Prelude.Result.{Result, ok}
use iree_amd_aie.Packets.{
  Mask, Masks, bit, eq_bit, mask_off, fold_mask, group_mask, eq_masked, matches, none_match,
  verify_groups_by_mask,
}

abbrev up : Option ℕ → Option ℕ
up none = none
up (some k) = some (suc k)

-- The rule that an id hits: the index of the first group whose rule matches.
abbrev pub first_match : List (List ℕ) → Masks → ℕ → Option ℕ
first_match [] slave_masks id = none
first_match ([] ∷ groups) slave_masks id = up (first_match groups slave_masks id)
first_match ((first_id ∷ group) ∷ groups) slave_masks id =
    let rest = up (first_match groups slave_masks id) in
    if matches first_id (slave_masks first_id) id then some 0 else rest

fold_mask-init :
    (first_id i : ℕ) (group : List ℕ) (mask : Mask)
    → fold_mask first_id mask group i ≡ true
    → mask i ≡ true
unfolding fold_mask
fold_mask-init f i [] m h = h
fold_mask-init f i (x ∷ group) m h = ground (arith, fold_mask-init f i group (mask_off f m x) h)

-- A bit that is left in the mask is the same in all ids of the group.
fold_mask-agrees :
    (first_id i id : ℕ) (group : List ℕ) (mask : Mask)
    → mem id group ≡ true
    → fold_mask first_id mask group i ≡ true
    → eq_bit (bit id i) (bit first_id i) ≡ true
unfolding fold_mask
fold_mask-agrees f i id [] m e h = cc
fold_mask-agrees f i id (x ∷ group) m e h = elim (Bool-cases (x == id)) [
  | inl s ↦
      subst (λ y. eq_bit (bit y i) (bit f i) ≡ true) ((==_iff x id).0 s)
        (and_right (m i) (eq_bit (bit x i) (bit f i)) (fold_mask-init f i group (mask_off f m x) h))
  | inr s ↦ fold_mask-agrees f i id group (mask_off f m x) (ground (arith, e, s)) h
]

masked_same : (a b m : Bool) → (m ≡ true → eq_bit a b ≡ true) → eq_bit (a && m) (b && m) ≡ true
masked_same true true true h = refl
masked_same true true false h = refl
masked_same true false true h = h refl
masked_same true false false h = refl
masked_same false true true h = h refl
masked_same false true false h = refl
masked_same false false m h = refl

eq_masked-all :
    (n a b : ℕ) (mask : Mask)
    → ((i : ℕ) → mask i ≡ true → eq_bit (bit a i) (bit b i) ≡ true)
    → eq_masked n a b mask ≡ true
unfolding eq_masked
eq_masked-all zero a b mask h = refl
eq_masked-all (suc n) a b mask h =
    both _ _ (masked_same (bit a n) (bit b n) (mask n) (h n)) (eq_masked-all n a b mask h)
  where
    both : (x y : Bool) → x ≡ true → y ≡ true → x && y ≡ true
    both x y p q = rw (p, q) refl

-- Every id matches the rule of its own group.
matches_own :
    (n first_id id : ℕ) (group : List ℕ)
    → mem id (first_id ∷ group) ≡ true
    → matches first_id (group_mask n (first_id ∷ group)) id ≡ true
unfolding group_mask
matches_own n f id group e =
    eq_masked-all 32 id f _ λ i h. fold_mask-agrees f i id (f ∷ group) (λ j. ltb j n) e h

-- No id of a later group matches.
none_match-later :
    (first_id id k : ℕ) (mask : Mask) (groups : List (List ℕ)) (group : List ℕ)
    → none_match first_id mask groups ≡ true
    → get_elem? groups k ≡ some group
    → mem id group ≡ true
    → matches first_id mask id ≡ false
unfolding none_match
none_match-later f id k mask [] g h e m = cc
none_match-later f id zero mask (x ∷ groups) g h e m =
    in_group x (and_left _ _ h) (subst (λ y. mem id y ≡ true) (sym (some_inj.0 e)) m)
  where
    in_group :
        (y : List ℕ)
        → all_of (λ j. not (matches f mask j)) y ≡ true
        → mem id y ≡ true
        → matches f mask id ≡ false
    in_group [] a q = cc
    in_group (j ∷ y) a q = elim (Bool-cases (j == id)) [
      | inl s ↦ subst (λ t. matches f mask t ≡ false) ((==_iff j id).0 s) (off _ (and_left _ _ a))
      | inr s ↦ in_group y (and_right _ _ a) (ground (arith, q, s))
    ]
      where
        off : (b : Bool) → not b ≡ true → b ≡ false
        off true w = cc
        off false w = refl
none_match-later f id (suc k) mask (x ∷ groups) g h e m =
    none_match-later f id k mask groups g (and_right _ _ h) e m

-- Every group's masks are those that updateGroupMask sets.
abbrev pub AreCurrent : ℕ → Masks → List (List ℕ) → Type 0
AreCurrent n slave_masks =
    All (λ group. (id : ℕ) → mem id group ≡ true → slave_masks id ≡ group_mask n group)

-- Groups that are accepted.
pub accepted_parts :
    (b : Bool) (r : Result Bool)
    → (if b then r else ok false) ≡ ok true
    → (b ≡ true) × (r ≡ ok true)
accepted_parts true r h = (refl, h)
accepted_parts false r h = cc

-- For groups that verifyGroupsByMask accepts, with the masks that updateGroupMask sets, every id of
-- a group hits the rule of that group first: the rules of the groups before it do not match.
pub verify_groups-first_match :
    (num_mask_bits : ℕ) (slave_masks : Masks) (groups : List (List ℕ)) (group : List ℕ) (k id : ℕ)
    → AreCurrent num_mask_bits slave_masks groups
    → verify_groups_by_mask groups slave_masks ≡ ok true
    → get_elem? groups k ≡ some group
    → mem id group ≡ true
    → first_match groups slave_masks id ≡ some k
unfolding verify_groups_by_mask
verify_groups-first_match n masks [] g k id c v e m = cc
verify_groups-first_match n masks ([] ∷ groups) g k id c v e m = cc
verify_groups-first_match n masks ((f ∷ rest) ∷ groups) g zero id c v e m =
    rw
      (subst (λ w. matches f w id ≡ true) (sym (c.0 f (own f rest)))
        (matches_own n f id rest (subst (λ y. mem id y ≡ true) (sym (some_inj.0 e)) m)))
      refl
  where
    own : (a : ℕ) (as' : List ℕ) → mem a (a ∷ as') ≡ true
    own a as' = ground (arith, (==_iff a a).1 refl)
verify_groups-first_match n masks ((f ∷ rest) ∷ groups) g (suc k) id c v e m =
    let (here, later) = accepted_parts _ (verify_groups_by_mask groups masks) v in
    rw (none_match-later f id k (masks f) groups g here e m)
      (ap up (verify_groups-first_match n masks groups g k id c.1 later e m))
