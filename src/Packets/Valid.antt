-- ===== src/Packets/Valid.antt =====
-- Every step of emitSlaveGroupsAndMasksRoutingConfig keeps the groups of a port valid.
use mathlib.Core.Path.{subst}
use iree_amd_aie.Prelude.{
  ℕ, zero, suc, ◌+◌, ◌^◌, ◌≤◌, ◌<◌, ◌≡◌, refl, sym, ap, ◌∙◌, Bool, true, false, Bool-cases, inl,
  inr, List, [], ◌∷◌, ◌++◌, ◌==◌, ==_iff, if◌then◌else◌, mem, length, get_or, set, All, arith,
}
use iree_amd_aie.Prelude.Result.{ok}
use iree_amd_aie.Packets.{Masks, update_group_mask, verify_groups_by_mask}
use iree_amd_aie.Packets.Rules.{AreCurrent}
use iree_amd_aie.Packets.Groups.{sort_groups_by_size, insert_id, PortRules, add_group}
use iree_amd_aie.Packets.Order.{
  IsSorted, All-insert, All-sort, sort-IsSorted, sort-append, occurrences, occurrences-insert,
  occurrences-sort,
}
use iree_amd_aie.Packets.Merge.{
  IsProper, IsForeign, IsApart, AreCurrentOutside, AreCurrent-outside, mem-insert_id, mem-nobody,
  update-inside, update-outside, update-foreign, update-AreCurrent, verify_groups-congr,
  verify_groups-insert, first,
}

-- The groups of a port hold the ids `done`, each in one group, their masks are current, and their
-- rules send every id to its group.
pub record IsValid (n : ℕ) (done : List ℕ) (r : PortRules) : Type 0 where
  pub current : AreCurrent n r.masks r.groups
  pub accepted : verify_groups_by_mask r.groups r.masks ≡ ok true
  pub sorted : IsSorted r.groups
  pub proper : All (IsProper n) r.groups
  pub counted : (y : ℕ) → occurrences y r.groups ≡ (if mem y done then 1 else 0)

module _ (n x : ℕ) (done : List ℕ) (small : n ≤ 32) (bound : x < 2 ^ n)
    (fresh : mem x done ≡ false) where
  absent :
      (groups : List (List ℕ))
      → ((y : ℕ) → occurrences y groups ≡ (if mem y done then 1 else 0))
      → occurrences x groups ≡ 0
  absent groups c = rw fresh at (c x)

  single-IsProper : IsProper n (x ∷ [])
  single-IsProper = (omega arith, λ y m. ground (arith, m, bound))

  single-IsForeign : (groups : List (List ℕ)) → occurrences x groups ≡ 0 → IsForeign (x ∷ []) groups
  single-IsForeign groups o y m = ground (arith, m, o)

  count-new :
      (y k : ℕ)
      → k ≡ (if mem y done then 1 else 0)
      → (if mem y (x ∷ []) then 1 else 0) + k ≡ (if mem y (x ∷ done) then 1 else 0)
  count-new y k h = elim (Bool-cases (x == y)) [
    | inl e ↦ rw (e, h, subst (λ z. mem z done ≡ false) ((==_iff x y).0 e) fresh) (omega arith)
    | inr e ↦ rw (e, h) (omega arith)
  ]

  pub add_group-IsValid :
      (r : PortRules) → IsValid n done r → IsValid n (x ∷ done) (add_group n x r)
  unfolding add_group
  add_group-IsValid r v =
      let o = absent r.groups v.counted in
      let masks : Masks = update_group_mask n (x ∷ []) r.masks in
      let current : AreCurrent n masks r.groups =
        update-foreign n (x ∷ []) r.masks r.groups (single-IsForeign r.groups o)
          (AreCurrent-outside n (x ∷ []) r.masks r.groups v.current) in
      let placed = sym (sort-append r.groups (x ∷ []) v.sorted) in
      record {
        current =
            subst (AreCurrent n masks) placed (
              All-insert _ (x ∷ []) r.groups (λ y m. update-inside n (x ∷ []) r.masks y m) current);
        accepted =
            subst (λ gs. verify_groups_by_mask gs masks ≡ ok true) placed
              (verify_groups-insert n x masks r.groups small bound
                (update-inside n (x ∷ []) r.masks x (first x [])) current v.proper
                (mem-nobody x r.groups o)
                (verify_groups-congr n masks r.masks r.groups current v.current ∙ v.accepted));
        sorted = sort-IsSorted (r.groups ++ ((x ∷ []) ∷ []));
        proper =
            subst (All (IsProper n)) placed
              (All-insert (IsProper n) (x ∷ []) r.groups single-IsProper v.proper);
        counted = λ y.
            ap (occurrences y) (sym placed)
            ∙ occurrences-insert y (x ∷ []) r.groups
            ∙ count-new y (occurrences y r.groups) (v.counted y);
      }

  occurrences-merged :
      (i y : ℕ) (groups : List (List ℕ))
      → i < length groups
      → occurrences x groups ≡ 0
      → occurrences y (set groups i (insert_id x (get_or groups i [])))
        ≡ (if mem y (x ∷ []) then 1 else 0) + occurrences y groups
  occurrences-merged i y [] b o = absurd (omega arith)
  occurrences-merged zero y (g ∷ groups) b o = elim (Bool-cases (x == y)) [
    | inl e ↦
        let new : mem y g ≡ false =
          (mem-nobody y (g ∷ groups)
            (subst (λ z. occurrences z (g ∷ groups) ≡ 0) ((==_iff x y).0 e) o)).0 in
        rw (mem-insert_id, e, new) (omega arith)
    | inr e ↦ rw (mem-insert_id, e) (omega arith)
  ]
  occurrences-merged (suc i) y (g ∷ groups) b o =
      omega (arith, occurrences-merged i y groups (omega arith) (omega (arith, o)))

  set-IsProper :
      (i : ℕ) (g : List ℕ) (groups : List (List ℕ))
      → IsProper n g
      → All (IsProper n) groups
      → All (IsProper n) (set groups i g)
  set-IsProper i g [] p h = tt
  set-IsProper zero g (k ∷ groups) p h = (p, h.1)
  set-IsProper (suc i) g (k ∷ groups) p h = (h.0, set-IsProper i g groups p h.1)

  bounded-get_or :
      (i y : ℕ) (groups : List (List ℕ))
      → All (IsProper n) groups
      → mem y (get_or groups i []) ≡ true
      → y < 2 ^ n
  bounded-get_or i y [] p m = cc
  bounded-get_or zero y (g ∷ groups) p m = p.0.1 y m
  bounded-get_or (suc i) y (g ∷ groups) p m = bounded-get_or i y groups p.1 m

  length-insert_id : (g : List ℕ) → 0 < length (insert_id x g)
  length-insert_id [] = omega arith
  length-insert_id (y ∷ g) = ground arith

  merged-IsProper :
      (i : ℕ) (groups : List (List ℕ))
      → All (IsProper n) groups
      → IsProper n (insert_id x (get_or groups i []))
  merged-IsProper i groups p = (length-insert_id (get_or groups i []), λ y m. below y m)
    where
      below : (y : ℕ) → mem y (insert_id x (get_or groups i [])) ≡ true → y < 2 ^ n
      below y m = elim (Bool-cases (x == y)) [
        | inl e ↦ subst (λ z. z < 2 ^ n) ((==_iff x y).0 e) bound
        | inr e ↦
            bounded-get_or i y groups p
              (ground (arith, e, mem-insert_id x y (get_or groups i []), m))
      ]

  set-get_or : (i : ℕ) (groups : List (List ℕ)) → set groups i (get_or groups i []) ≡ groups
  set-get_or i [] = refl
  set-get_or zero (g ∷ groups) = refl
  set-get_or (suc i) (g ∷ groups) = ap (λ t. g ∷ t) (set-get_or i groups)

  at_most_one : (b : Bool) (k : ℕ) → k ≡ (if b then 1 else 0) → k ≤ 1
  at_most_one true k h = omega arith
  at_most_one false k h = omega arith

  apart : (r : PortRules) → IsValid n done r → IsApart r.groups
  apart r v y = at_most_one (mem y done) (occurrences y r.groups) (v.counted y)

  module _ (r : PortRules) (v : IsValid n done r) (i : ℕ) (in_range : i < length r.groups) where
    abbrev merged : List ℕ
    merged = insert_id x (get_or r.groups i [])

    abbrev merged_masks : Masks
    merged_masks = update_group_mask n merged r.masks

    merged-counted :
        (y : ℕ) → occurrences y (set r.groups i merged) ≡ (if mem y (x ∷ done) then 1 else 0)
    merged-counted y =
        occurrences-merged i y r.groups in_range (absent r.groups v.counted)
        ∙ count-new y (occurrences y r.groups) (v.counted y)

    pub merged-AreProper : All (IsProper n) (sort_groups_by_size (set r.groups i merged))
    merged-AreProper =
        All-sort (IsProper n) (set r.groups i merged)
          (set-IsProper i merged r.groups (merged-IsProper i r.groups v.proper) v.proper)

    pub merged-IsValid :
        verify_groups_by_mask (sort_groups_by_size (set r.groups i merged)) merged_masks ≡ ok true
        → IsValid n
            (x ∷ done)
            (record { groups = sort_groups_by_size (set r.groups i merged); masks = merged_masks })
    merged-IsValid h = record {
      current = All-sort _ (set r.groups i merged) (
          update-AreCurrent n i merged r.masks r.groups
            (λ y.
              at_most_one (mem y (x ∷ done)) (occurrences y (set r.groups i merged))
                (merged-counted y))
            (AreCurrent-outside n merged r.masks r.groups v.current) in_range);
      accepted = h;
      sorted = sort-IsSorted (set r.groups i merged);
      proper = merged-AreProper;
      counted = λ y. occurrences-sort y (set r.groups i merged) ∙ merged-counted y;
    }

    other : (y : ℕ) (h : List ℕ) → mem x h ≡ false → mem y h ≡ true → (x == y) ≡ false
    other y h f m = elim (Bool-cases (x == y)) [
      | inl e ↦ absurd (clash (subst (λ z. mem z h ≡ false) ((==_iff x y).0 e) f))
      | inr e ↦ e
    ]
      where
        clash : mem y h ≡ false → ⊥
        clash k = cc

    -- Groups that are put back, with the masks of the merged one set again.
    reverted-outside :
        (groups : List (List ℕ))
        → All (λ g. mem x g ≡ false) groups
        → AreCurrent n r.masks groups
        → AreCurrentOutside n (get_or r.groups i []) merged_masks groups
    reverted-outside [] f c = tt
    reverted-outside (h ∷ groups) f c = (
      λ y m o. update-outside n merged r.masks y (rw (mem-insert_id, other y h f.0 m) o) ∙ c.0 y m,
      reverted-outside groups f.1 c.1,
    )

    pub reverted-IsValid :
        IsValid n done
          (record r { masks = update_group_mask n (get_or r.groups i []) merged_masks })
    reverted-IsValid =
        let old : List ℕ = get_or r.groups i [] in
        let masks : Masks = update_group_mask n old merged_masks in
        let same = set-get_or i r.groups in
        let current : AreCurrent n masks r.groups = subst (AreCurrent n masks) same (
          update-AreCurrent n i old merged_masks r.groups (subst IsApart (sym same) (apart r v))
            (reverted-outside r.groups (mem-nobody x r.groups (absent r.groups v.counted))
              v.current)
            in_range) in
        record {
          current = current;
          accepted = verify_groups-congr n masks r.masks r.groups current v.current ∙ v.accepted;
          sorted = v.sorted;
          proper = v.proper;
          counted = v.counted;
        }
