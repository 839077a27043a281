-- ===== src/Packets/Merge.antt =====
-- The invariant of the groups of one slave port.
use mathlib.Core.Path.{subst, ap₂}
use iree_amd_aie.Prelude.{
  ℕ, zero, suc, ◌+◌, ◌^◌, ◌≤◌, ◌<◌, ◌≡◌, refl, sym, ap, ◌∙◌, Bool, true, false, not, ◌&&◌, ◌||◌,
  Bool-cases, inl, inr, List, [], ◌∷◌, ◌==◌, ==_iff, mem, length, set, All, and_left, and_right,
  all_of, if◌then◌else◌, arith,
}
use iree_amd_aie.Prelude.Result.{Result, ok}
use iree_amd_aie.Packets.{
  Mask, Masks, group_mask, update_group_mask, matches, none_match, verify_groups_by_mask,
}
use iree_amd_aie.Packets.Rules.{AreCurrent, accepted_parts}
use iree_amd_aie.Packets.Groups.{less_group, insert_group, insert_id}
use iree_amd_aie.Packets.Exact.{single-matches}
use iree_amd_aie.Packets.Order.{occurrences}

abbrev pub Ids : (ℕ → Type 0) → List ℕ → Type 0
Ids P g = (y : ℕ) → mem y g ≡ true → P y

-- Not empty, and of ids of `n` bits at most.
abbrev pub IsProper : ℕ → List ℕ → Type 0
IsProper n g = (0 < length g) × Ids (λ y. y < 2 ^ n) g

pub mem-insert_id : (x y : ℕ) (g : List ℕ) → mem y (insert_id x g) ≡ ((x == y) || mem y g)
mem-insert_id x y [] = refl
mem-insert_id x y (z ∷ g) = ground (arith, mem-insert_id x y g)

pub mem-nobody :
    (y : ℕ) (groups : List (List ℕ)) → occurrences y groups ≡ 0 → All (λ g. mem y g ≡ false) groups
mem-nobody y [] h = tt
mem-nobody y (g ∷ groups) h = elim (Bool-cases (mem y g)) [
  | inl e ↦ absurd (more (occurrences y groups) (rw e at h))
  | inr e ↦ (e, mem-nobody y groups (less (occurrences y groups) (rw e at h)))
]
  where
    more : (k : ℕ) → 1 + k ≡ 0 → ⊥
    more k h = omega arith

    less : (k : ℕ) → 0 + k ≡ 0 → k ≡ 0
    less k h = omega arith

-- Masks of ids outside of a group stay.
pub update-outside :
    (n : ℕ) (group : List ℕ) (masks : Masks) (y : ℕ)
    → mem y group ≡ false
    → update_group_mask n group masks y ≡ masks y
unfolding update_group_mask
update-outside n group masks y h = rw h

pub update-inside :
    (n : ℕ) (group : List ℕ) (masks : Masks) (y : ℕ)
    → mem y group ≡ true
    → update_group_mask n group masks y ≡ group_mask n group
unfolding update_group_mask
update-inside n group masks y h = rw h

-- Each id is in one group at most.
abbrev pub IsApart : List (List ℕ) → Type 0
IsApart groups = (y : ℕ) → occurrences y groups ≤ 1

IsApart-tail : (g : List ℕ) (groups : List (List ℕ)) → IsApart (g ∷ groups) → IsApart groups
IsApart-tail g groups a y = omega (arith, a y)

-- Groups that share no id with `g`.
abbrev pub IsForeign : List ℕ → List (List ℕ) → Type 0
IsForeign g groups = (y : ℕ) → mem y g ≡ true → occurrences y groups ≡ 0

foreign : (g : List ℕ) (groups : List (List ℕ)) → IsApart (g ∷ groups) → IsForeign g groups
foreign g groups a y m = one (occurrences y groups) (rw m at (a y))
  where
    one : (k : ℕ) → 1 + k ≤ 1 → k ≡ 0
    one k h = omega arith

-- The masks of ids that are not in `g` are those of their groups.
abbrev pub AreCurrentOutside : ℕ → List ℕ → Masks → List (List ℕ) → Type 0
AreCurrentOutside n g masks =
    All (λ h. (y : ℕ) → mem y h ≡ true → mem y g ≡ false → masks y ≡ group_mask n h)

pub AreCurrent-outside :
    (n : ℕ) (g : List ℕ) (masks : Masks) (groups : List (List ℕ))
    → AreCurrent n masks groups
    → AreCurrentOutside n g masks groups
AreCurrent-outside n g masks [] c = tt
AreCurrent-outside n g masks (h ∷ groups) c =
    (λ y m o. c.0 y m, AreCurrent-outside n g masks groups c.1)

pub update-foreign :
    (n : ℕ) (g : List ℕ) (masks : Masks) (groups : List (List ℕ))
    → IsForeign g groups
    → AreCurrentOutside n g masks groups
    → AreCurrent n (update_group_mask n g masks) groups
update-foreign n g masks [] f c = tt
update-foreign n g masks (h ∷ groups) f c = (
  λ y m. update-outside n g masks y (not_in y m) ∙ c.0 y m (not_in y m),
  update-foreign n g masks groups (λ y m. omega (arith, f y m)) c.1,
)
  where
    none_more : (k : ℕ) → 1 + k ≡ 0 → ⊥
    none_more k e = omega arith

    not_in : (y : ℕ) → mem y h ≡ true → mem y g ≡ false
    not_in y m = elim (Bool-cases (mem y g)) [
      | inl e ↦ absurd (none_more (occurrences y groups) (rw m at (f y e)))
      | inr e ↦ e
    ]

occurrences-set :
    (y i : ℕ) (g : List ℕ) (groups : List (List ℕ))
    → i < length groups
    → mem y g ≡ true
    → 1 ≤ occurrences y (set groups i g)
occurrences-set y i g [] b m = absurd (omega arith)
occurrences-set y zero g (h ∷ groups) b m = rw m (omega arith)
occurrences-set y (suc i) g (h ∷ groups) b m =
    omega (arith, occurrences-set y i g groups (omega arith) m)

-- The masks after an update of one group.
pub update-AreCurrent :
    (n i : ℕ) (g : List ℕ) (masks : Masks) (groups : List (List ℕ))
    → IsApart (set groups i g)
    → AreCurrentOutside n g masks groups
    → i < length groups
    → AreCurrent n (update_group_mask n g masks) (set groups i g)
update-AreCurrent n i g masks [] a c b = absurd (omega arith)
update-AreCurrent n zero g masks (h ∷ groups) a c b =
    (λ y m. update-inside n g masks y m, update-foreign n g masks groups (foreign g groups a) c.1)
update-AreCurrent n (suc i) g masks (h ∷ groups) a c b = (
  λ y m. update-outside n g masks y (not_in y m) ∙ c.0 y m (not_in y m),
  update-AreCurrent n i g masks groups (IsApart-tail h (set groups i g) a) c.1 (omega arith),
)
  where
    two : (k : ℕ) → 1 ≤ k → 1 + k ≤ 1 → ⊥
    two k p q = omega arith

    not_in : (y : ℕ) → mem y h ≡ true → mem y g ≡ false
    not_in y m = elim (Bool-cases (mem y g)) [
      | inl e ↦ absurd (
          two (occurrences y (set groups i g)) (occurrences-set y i g groups (omega arith) e)
            (rw m at (a y)))
      | inr e ↦ e
    ]

pub first : (f : ℕ) (g : List ℕ) → mem f (f ∷ g) ≡ true
first f g = ground (arith, (==_iff f f).1 refl)

-- Whether groups are accepted depends on the masks of their first ids only.
pub verify_groups-congr :
    (n : ℕ) (masks masks' : Masks) (groups : List (List ℕ))
    → AreCurrent n masks groups
    → AreCurrent n masks' groups
    → verify_groups_by_mask groups masks ≡ verify_groups_by_mask groups masks'
unfolding verify_groups_by_mask
verify_groups-congr n masks masks' [] c d = refl
verify_groups-congr n masks masks' ([] ∷ groups) c d = refl
verify_groups-congr n masks masks' ((f ∷ g) ∷ groups) c d =
    ap₂ (λ b r. if b then r else ok false)
      (ap (λ m. none_match f m groups) (c.0 f (first f g) ∙ sym (d.0 f (first f g))))
      (verify_groups-congr n masks masks' groups c.1 d.1)

-- Groups that are not empty are accepted or not.
pub verify_groups-returns :
    (n : ℕ) (masks : Masks) (groups : List (List ℕ))
    → All (IsProper n) groups
    → (b : Bool) × (verify_groups_by_mask groups masks ≡ ok b)
unfolding verify_groups_by_mask
verify_groups-returns n masks [] p = (true, refl)
verify_groups-returns n masks ([] ∷ groups) p = absurd (omega (arith, p.0.0))
verify_groups-returns n masks ((f ∷ g) ∷ groups) p =
    let (b, e) = verify_groups-returns n masks groups p.1 in
    elim (Bool-cases (none_match f (masks f) groups)) [
      | inl h ↦ (b, rw h e)
      | inr h ↦ (false, rw h refl)
    ]

accept :
    (b : Bool) (r : Result Bool) → b ≡ true → r ≡ ok true → (if b then r else ok false) ≡ ok true
accept b r p q = rw (p, q) refl

both : (a b : Bool) → a ≡ true → b ≡ true → a && b ≡ true
both a b p q = rw (p, q) refl

-- The rule of a single id matches no other id.
single-misses :
    (n x y : ℕ)
    → n ≤ 32
    → x < 2 ^ n
    → y < 2 ^ n
    → (x == y) ≡ false
    → not (matches x (group_mask n (x ∷ [])) y) ≡ true
single-misses n x y w b c d = elim (Bool-cases (matches x (group_mask n (x ∷ [])) y)) [
  | inl e ↦ absurd (clash (sym (single-matches n x y w b c e)))
  | inr e ↦ rw e refl
]
  where
    clash : x ≡ y → ⊥
    clash e = ground (arith, e, d)

single-misses_all :
    (n x : ℕ) (g : List ℕ)
    → n ≤ 32
    → x < 2 ^ n
    → Ids (λ y. y < 2 ^ n) g
    → mem x g ≡ false
    → all_of (λ y. not (matches x (group_mask n (x ∷ [])) y)) g ≡ true
single-misses_all n x [] w b p m = refl
single-misses_all n x (y ∷ g) w b p m =
    both _ _
      (single-misses n x y w b (p y (ground (arith, (==_iff y y).1 refl))) (ground (arith, m)))
      (single-misses_all n x g w b (λ z h. p z (ground (arith, h))) (ground (arith, m)))

none_match_nil : (x : ℕ) (mask : Mask) → none_match x mask [] ≡ true
unfolding none_match
none_match_nil x mask = refl

none_match-single :
    (n x : ℕ) (groups : List (List ℕ))
    → n ≤ 32
    → x < 2 ^ n
    → All (IsProper n) groups
    → All (λ g. mem x g ≡ false) groups
    → none_match x (group_mask n (x ∷ [])) groups ≡ true
unfolding none_match
none_match-single n x [] w b p m = refl
none_match-single n x (g ∷ groups) w b p m =
    both _ _ (single-misses_all n x g w b p.0.1 m.0) (none_match-single n x groups w b p.1 m.1)

none_match-insert :
    (f x : ℕ) (mask : Mask) (groups : List (List ℕ))
    → none_match f mask groups ≡ true
    → not (matches f mask x) ≡ true
    → none_match f mask (insert_group (x ∷ []) groups) ≡ true
unfolding none_match
none_match-insert f x mask [] h k = both _ _ (both _ _ k refl) refl
none_match-insert f x mask (g ∷ groups) h k = elim (Bool-cases (less_group (x ∷ []) g)) [
  | inl e ↦ rw e (both _ _ (both _ _ k refl) h)
  | inr e ↦ rw e (both _ _ (and_left _ _ h) (none_match-insert f x mask groups (and_right _ _ h) k))
]

-- A group that a single id does not come before is a single id itself.
earlier-misses :
    (n x f : ℕ) (masks : Masks) (g : List ℕ)
    → n ≤ 32
    → x < 2 ^ n
    → less_group (x ∷ []) (f ∷ g) ≡ false
    → masks f ≡ group_mask n (f ∷ g)
    → f < 2 ^ n
    → mem x (f ∷ g) ≡ false
    → not (matches f (masks f) x) ≡ true
earlier-misses n x f masks [] w b l c h m =
    subst (λ k. not (matches f k x) ≡ true) (sym c) (single-misses n f x w h b (ground (arith, m)))
earlier-misses n x f masks (y ∷ g) w b l c h m = absurd (ground (arith, l))

-- A single id among accepted groups.
pub verify_groups-insert :
    (n x : ℕ) (masks : Masks) (groups : List (List ℕ))
    → n ≤ 32
    → x < 2 ^ n
    → masks x ≡ group_mask n (x ∷ [])
    → AreCurrent n masks groups
    → All (IsProper n) groups
    → All (λ g. mem x g ≡ false) groups
    → verify_groups_by_mask groups masks ≡ ok true
    → verify_groups_by_mask (insert_group (x ∷ []) groups) masks ≡ ok true
unfolding verify_groups_by_mask
verify_groups-insert n x masks [] w b e c p m v = accept _ _ (none_match_nil x (masks x)) refl
verify_groups-insert n x masks ([] ∷ groups) w b e c p m v = absurd (omega (arith, p.0.0))
verify_groups-insert n x masks ((f ∷ g) ∷ groups) w b e c p m v =
    elim (Bool-cases (less_group (x ∷ []) (f ∷ g))) [
      | inl l ↦ rw l (
          accept _ _
            (subst (λ k. none_match x k ((f ∷ g) ∷ groups) ≡ true) (sym e)
              (none_match-single n x ((f ∷ g) ∷ groups) w b p m))
            v)
      | inr l ↦ rw l (
          accept _ _
            (none_match-insert f x (masks f) groups (accepted_parts _ _ v).0
              (earlier-misses n x f masks g w b l (c.0 f (first f g)) (p.0.1 f (first f g)) m.0))
            (verify_groups-insert n x masks groups w b e c.1 p.1 m.1 (accepted_parts _ _ v).1))
    ]
