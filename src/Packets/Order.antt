-- ===== src/Packets/Order.antt =====
-- sortGroupsBySize: the groups in the order of their sizes, and what sorting keeps.
use mathlib.Core.List.{append_assoc, append-nil}
use iree_amd_aie.Prelude.{
  ℕ, ◌+◌, ◌≡◌, refl, sym, ap, ◌∙◌, Bool, true, false, Bool-cases, inl, inr, List, [], ◌∷◌, ◌++◌,
  if◌then◌else◌, mem, All, All-append, arith,
}
use iree_amd_aie.Packets.Groups.{less_ids, less_group, insert_group, sort_onto, sort_groups_by_size}

less_ids_irrefl : (a : List ℕ) → less_ids a a ≡ false
less_ids_irrefl [] = refl
less_ids_irrefl (x ∷ a) = ground (arith, less_ids_irrefl a)

less_ids_trans : (a b c : List ℕ) → less_ids a b ≡ true → less_ids b c ≡ true → less_ids a c ≡ true
less_ids_trans [] [] c h k = cc
less_ids_trans [] (y ∷ b) [] h k = cc
less_ids_trans [] (y ∷ b) (z ∷ c) h k = refl
less_ids_trans (x ∷ a) [] c h k = cc
less_ids_trans (x ∷ a) (y ∷ b) [] h k = cc
less_ids_trans (x ∷ a) (y ∷ b) (z ∷ c) h k = ground (arith, less_ids_trans a b c)

less_group_irrefl : (a : List ℕ) → less_group a a ≡ false
less_group_irrefl a = ground (arith, less_ids_irrefl a)

less_group_trans :
    (a b c : List ℕ) → less_group a b ≡ true → less_group b c ≡ true → less_group a c ≡ true
less_group_trans a b c h k = ground (arith, less_ids_trans a b c)

-- No group is before one that stands earlier.
abbrev pub IsSorted : List (List ℕ) → Type 0
IsSorted [] = Unit
IsSorted (g ∷ groups) = All (λ h. less_group h g ≡ false) groups × IsSorted groups

module _ {ℓ} (P : List ℕ → Type ℓ) where
  pub All-insert :
      (g : List ℕ) (groups : List (List ℕ)) → P g → All P groups → All P (insert_group g groups)
  All-insert g [] p h = (p, tt)
  All-insert g (k ∷ groups) p h = elim (Bool-cases (less_group g k)) [
    | inl e ↦ rw e (p, h)
    | inr e ↦ rw e (h.0, All-insert g groups p h.1)
  ]

  All-sort_onto :
      (sorted groups : List (List ℕ))
      → All P sorted
      → All P groups
      → All P (sort_onto sorted groups)
  All-sort_onto sorted [] h k = h
  All-sort_onto sorted (g ∷ groups) h k =
      All-sort_onto (insert_group g sorted) groups (All-insert g sorted k.0 h) k.1

  pub All-sort : (groups : List (List ℕ)) → All P groups → All P (sort_groups_by_size groups)
  unfolding sort_groups_by_size
  All-sort groups h = All-sort_onto [] groups tt h

All-map {ℓ κ} :
    (P : List ℕ → Type ℓ) (Q : List ℕ → Type κ) (groups : List (List ℕ))
    → ((g : List ℕ) → P g → Q g)
    → All P groups
    → All Q groups
All-map P Q [] f h = tt
All-map P Q (g ∷ groups) f h = (f g h.0, All-map P Q groups f h.1)

-- Later groups than `k` are not before `g`, which is before `k`.
behind : (g k h : List ℕ) → less_group g k ≡ true → less_group h k ≡ false → less_group h g ≡ false
behind g k h e n = elim (Bool-cases (less_group h g)) [
  | inl l ↦ absurd (clash (less_group h k) (less_group_trans h g k l e) n)
  | inr l ↦ l
]
  where
    clash : (b : Bool) → b ≡ true → b ≡ false → ⊥
    clash b p q = cc

ahead : (g k : List ℕ) → less_group g k ≡ true → less_group k g ≡ false
ahead g k e = behind g k k e (less_group_irrefl k)

insert-IsSorted :
    (g : List ℕ) (groups : List (List ℕ)) → IsSorted groups → IsSorted (insert_group g groups)
insert-IsSorted g [] s = (tt, tt)
insert-IsSorted g (k ∷ groups) s = elim (Bool-cases (less_group g k)) [
  | inl e ↦
      rw e
        ((ahead g k e, All-map _ (λ h. less_group h g ≡ false) groups (λ h. behind g k h e) s.0), s)
  | inr e ↦
      rw e (All-insert (λ h. less_group h k ≡ false) g groups e s.0, insert-IsSorted g groups s.1)
]

sort_onto-IsSorted :
    (sorted groups : List (List ℕ)) → IsSorted sorted → IsSorted (sort_onto sorted groups)
sort_onto-IsSorted sorted [] s = s
sort_onto-IsSorted sorted (g ∷ groups) s =
    sort_onto-IsSorted (insert_group g sorted) groups (insert-IsSorted g sorted s)

pub sort-IsSorted : (groups : List (List ℕ)) → IsSorted (sort_groups_by_size groups)
unfolding sort_groups_by_size
sort-IsSorted groups = sort_onto-IsSorted [] groups tt

-- A group that belongs at the end goes there.
insert_last :
    (g : List ℕ) (groups : List (List ℕ))
    → All (λ h. less_group g h ≡ false) groups
    → insert_group g groups ≡ groups ++ (g ∷ [])
insert_last g [] h = refl
insert_last g (k ∷ groups) h = rw h.0 (ap (λ t. k ∷ t) (insert_last g groups h.1))

sort_onto_sorted :
    (front groups : List (List ℕ))
    → All (λ g. All (λ h. less_group g h ≡ false) front) groups
    → IsSorted groups
    → sort_onto front groups ≡ front ++ groups
sort_onto_sorted front [] c s = sym (append-nil front)
sort_onto_sorted front (g ∷ groups) c s =
    ap (λ t. sort_onto t groups) (insert_last g front c.0)
    ∙ sort_onto_sorted (front ++ (g ∷ [])) groups (extend groups c.1 s.0) s.1
    ∙ append_assoc front (g ∷ []) groups
  where
    extend :
        (hs : List (List ℕ))
        → All (λ h. All (λ k. less_group h k ≡ false) front) hs
        → All (λ h. less_group h g ≡ false) hs
        → All (λ h. All (λ k. less_group h k ≡ false) (front ++ (g ∷ []))) hs
    extend [] p q = tt
    extend (h ∷ hs) p q =
        (All-append (λ k. less_group h k ≡ false) front (g ∷ []) p.0 (q.0, tt), extend hs p.1 q.1)

sort_onto-append :
    (sorted groups : List (List ℕ)) (g : List ℕ)
    → sort_onto sorted (groups ++ (g ∷ [])) ≡ insert_group g (sort_onto sorted groups)
sort_onto-append sorted [] g = refl
sort_onto-append sorted (h ∷ groups) g = sort_onto-append (insert_group h sorted) groups g

sorted_empty : (groups : List (List ℕ)) → All (λ g. All (λ h. less_group g h ≡ false) []) groups
sorted_empty [] = tt
sorted_empty (g ∷ groups) = (tt, sorted_empty groups)

-- Sorting sorted groups with one more at the end inserts it.
pub sort-append :
    (groups : List (List ℕ)) (g : List ℕ)
    → IsSorted groups
    → sort_groups_by_size (groups ++ (g ∷ [])) ≡ insert_group g groups
unfolding sort_groups_by_size
sort-append groups g s =
    sort_onto-append [] groups g
    ∙ ap (insert_group g) (sort_onto_sorted [] groups (sorted_empty groups) s)

-- In how many groups an id is.
abbrev pub occurrences : ℕ → List (List ℕ) → ℕ
occurrences x [] = 0
occurrences x (g ∷ groups) = (if mem x g then 1 else 0) + occurrences x groups

pub occurrences-insert :
    (x : ℕ) (g : List ℕ) (groups : List (List ℕ))
    → occurrences x (insert_group g groups) ≡ occurrences x (g ∷ groups)
occurrences-insert x g [] = refl
occurrences-insert x g (k ∷ groups) = elim (Bool-cases (less_group g k)) [
  | inl e ↦ rw e
  | inr e ↦ rw e (omega (arith, occurrences-insert x g groups))
]

occurrences-sort_onto :
    (x : ℕ) (sorted groups : List (List ℕ))
    → occurrences x (sort_onto sorted groups) ≡ occurrences x sorted + occurrences x groups
occurrences-sort_onto x sorted [] = omega arith
occurrences-sort_onto x sorted (g ∷ groups) =
    omega
      (arith, occurrences-sort_onto x (insert_group g sorted) groups, occurrences-insert x g sorted)

pub occurrences-sort :
    (x : ℕ) (groups : List (List ℕ))
    → occurrences x (sort_groups_by_size groups) ≡ occurrences x groups
unfolding sort_groups_by_size
occurrences-sort x groups = omega (arith, occurrences-sort_onto x [] groups)
