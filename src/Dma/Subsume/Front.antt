-- ===== src/Dma/Subsume/Front.antt =====
-- The dimensions that one loop puts in front, when at most one offset depends on it.
use mathlib.Core.List.{append_assoc, append-nil}
use iree_amd_aie.Prelude.{
  ℕ, ◌+◌, ◌≤◌, ◌≡◌, ◌⊎◌, refl, sym, ap, ◌∙◌, Bool, true, false, not, ◌&&◌, Bool-cases, inl, inr,
  some, Option-cases, [], ◌∷◌, ◌++◌, if◌then◌else◌, ◌==◌, ==_iff, arith,
}
use iree_amd_aie.Prelude.Int.{ℤ, pos, ◌+ℤ◌, int_laws}
use iree_amd_aie.Prelude.IntRing.{eqb_ℤ, eqb_ℤ-refl}
use iree_amd_aie.Dma.Pattern.{Result, ok, failure, fault, ◌>>=◌, Ensures, Ensures-bind, Pattern}
use iree_amd_aie.Dma.Subsume.{
  Loop, Definitions, dependency, new_dim, Insertion, calculate_nb_iterations, scan_offsets,
  add_repetition, add_iteration_to_new_access_pattern,
}
use iree_amd_aie.Dma.Subsume.Scan.{
  advance, inserts, is_some, any_dependent, AllScaled, updates, Scanned, scan_offsets-Scanned,
}
use iree_amd_aie.Dma.Subsume.Nest.{total}
use iree_amd_aie.Dma.Subsume.Unroll.{front, trip_count}

-- The number of offsets that depend on a loop.
abbrev pub dependents : Loop → Pattern → ℕ
dependents l [] = 0
dependents l (d ∷ p) = (if is_some (dependency l d.offset) then 1 else 0) + dependents l p

-- One offset depends on the loop, or none, or the loop has one round.
abbrev pub IsSingle : Loop → Pattern → Type 0
IsSingle l p = (calculate_nb_iterations l ≡ ok (pos 1)) ⊎ (dependents l p ≤ 1)

module _ (definitions : Definitions) (l : Loop) where
  -- The dimensions of the scan, with the one of a repetition.
  abbrev inserted_for : ℤ → Pattern → Pattern
  inserted_for n p =
      inserts definitions l n p
      ++ (if not (any_dependent definitions l p) && not (eqb_ℤ n (pos 1))
          then new_dim n (pos 0) ∷ []
          else [])

  record Independent (n : ℤ) (p : Pattern) : Type 0 where
    no_inserts : inserts definitions l n p ≡ []
    no_dependent : any_dependent definitions l p ≡ false
    no_move : total definitions l p ≡ pos 0

  independent : (n : ℤ) (p : Pattern) → dependents l p ≡ 0 → Independent n p
  independent n [] h = record { no_inserts = refl; no_dependent = refl; no_move = refl }
  independent n (d ∷ p) h = elim (Option-cases (dependency l d.offset)) [
    | inl e ↦
        let rest = independent n p (nothing_more (dependents l p) (rw e at h)) in
        record {
          no_inserts = rw e rest.no_inserts;
          no_dependent = rw e rest.no_dependent;
          no_move = rw (e, rest.no_move) (omega int_laws);
        }
    | inr (v, e) ↦ absurd (more (dependents l p) (rw e at h))
  ]
    where
      nothing_more : (k : ℕ) → 0 + k ≡ 0 → k ≡ 0
      nothing_more k h = omega arith

      more : (k : ℕ) → 1 + k ≡ 0 → ⊥
      more k h = omega arith

  inserts-one :
      (n : ℤ) (p : Pattern)
      → eqb_ℤ n (pos 1) ≡ false
      → dependents l p ≡ 1
      → (inserts definitions l n p ≡ new_dim n (total definitions l p) ∷ [])
        × (any_dependent definitions l p ≡ true)
  inserts-one n [] m h = absurd (omega arith)
  inserts-one n (d ∷ p) m h = elim (Option-cases (dependency l d.offset)) [
    | inl e ↦
        let (alone, dependent) = inserts-one n p m (less (dependents l p) (rw e at h)) in
        rw e (alone ∙ ap (λ t. new_dim n t ∷ []) (add_zero (total definitions l p)), dependent)
    | inr (v, e) ↦
        let rest = independent n p (others (dependents l p) (rw e at h)) in
        rw (e, m, rest.no_inserts, rest.no_move)
          (ap (λ t. new_dim n t ∷ []) (zero_add (advance definitions l d (some v))), refl)
  ]
    where
      less : (k : ℕ) → 0 + k ≡ 1 → k ≡ 1
      less k h = omega arith

      others : (k : ℕ) → 1 + k ≡ 1 → k ≡ 0
      others k h = omega arith

      add_zero : (a : ℤ) → a ≡ pos 0 +ℤ a
      add_zero a = omega int_laws

      zero_add : (a : ℤ) → a ≡ a +ℤ pos 0
      zero_add a = omega int_laws

  inserts-unit : (n : ℤ) (p : Pattern) → eqb_ℤ n (pos 1) ≡ true → inserts definitions l n p ≡ []
  inserts-unit n [] m = refl
  inserts-unit n (d ∷ p) m = elim (Option-cases (dependency l d.offset)) [
    | inl e ↦ rw e (inserts-unit n p m)
    | inr (v, e) ↦ rw (e, m) (inserts-unit n p m)
  ]

  unit-front :
      (n : ℤ) (p : Pattern) → eqb_ℤ n (pos 1) ≡ true → inserted_for n p ≡ front definitions n l p
  unit-front n p m =
      rw (inserts-unit n p m, m) (no_repetition (not (any_dependent definitions l p)))
    where
      no_repetition :
          (b : Bool) → ◌≡◌ {A = Pattern} (if b && false then new_dim n (pos 0) ∷ [] else []) []
      no_repetition true = refl
      no_repetition false = refl

  inserted_for-front :
      (n : ℤ) (p : Pattern)
      → (n ≡ pos 1) ⊎ (dependents l p ≤ 1)
      → inserted_for n p ≡ front definitions n l p
  inserted_for-front n p (inl e) = unit-front n p (ap (λ m. eqb_ℤ m (pos 1)) e ∙ eqb_ℤ-refl (pos 1))
  inserted_for-front n p (inr h) = elim (Bool-cases (eqb_ℤ n (pos 1))) [
    | inl m ↦ unit-front n p m
    | inr m ↦ elim (Bool-cases (dependents l p == 0)) [
      | inl z ↦
          let rest = independent n p ((==_iff (dependents l p) 0).0 z) in
          rw (rest.no_inserts, rest.no_dependent, rest.no_move, m)
      | inr z ↦
          let (alone, dependent) = inserts-one n p m (ground arith) in rw (alone, dependent, m)
    ]
  ]

  add_repetition-inserted :
      (n : ℤ) (p : Pattern) (t u : Insertion)
      → u.inserted ≡ t.inserted ++ inserts definitions l n p
      → (add_repetition n (any_dependent definitions l p) u).inserted
        ≡ t.inserted ++ inserted_for n p
  add_repetition-inserted n p t u h =
      elim (Bool-cases (not (any_dependent definitions l p) && not (eqb_ℤ n (pos 1)))) [
        | inl e ↦ rw (add_repetition, e, h, append_assoc)
        | inr e ↦ rw (add_repetition, e, h, append-nil)
      ]

  add_repetition-updates :
      (n : ℤ) (dependent : Bool) (u : Insertion)
      → (add_repetition n dependent u).updates ≡ u.updates
  add_repetition-updates n dependent u =
      elim (Bool-cases (not dependent && not (eqb_ℤ n (pos 1)))) [
        | inl e ↦ rw (add_repetition, e)
        | inr e ↦ rw (add_repetition, e)
      ]

  -- The insertion `u` has the loop on top of `t`.
  pub record Iterated (p : Pattern) (t u : Insertion) : Type 0 where
    pub trips : ℤ
    pub counted : calculate_nb_iterations l ≡ ok trips
    pub insertions : u.inserted ≡ t.inserted ++ front definitions trips l p
    pub offsets : u.updates ≡ t.updates ++ updates definitions l 0 p
    pub scaled : AllScaled definitions l p

  single :
      (n : ℤ) (p : Pattern)
      → calculate_nb_iterations l ≡ ok n
      → IsSingle l p
      → (n ≡ pos 1) ⊎ (dependents l p ≤ 1)
  single n p e (inl f) = inl (ap trip_count (sym e ∙ f))
  single n p e (inr h) = inr h

  scan-Iterated :
      (p : Pattern) (t : Insertion) (trips : Result ℤ)
      → calculate_nb_iterations l ≡ trips
      → IsSingle l p
      → Ensures (Iterated p t) (
          trips >>= λ n.
          scan_offsets definitions l n 0 p false t >>= λ s. ok (add_repetition n s.0 s.1))
  scan-Iterated p t failure e h = tt
  scan-Iterated p t fault e h = tt
  scan-Iterated p t (ok n) e h =
      Ensures-bind (Scanned definitions l n 0 p false t) (Iterated p t)
        (scan_offsets definitions l n 0 p false t) _
        (scan_offsets-Scanned definitions l n 0 p false t)
        (λ s c. record {
          trips = n;
          counted = e;
          insertions =
              ap (λ b. (add_repetition n b s.1).inserted) c.flag
              ∙ add_repetition-inserted n p t s.1 c.insertions
              ∙ ap (λ f. t.inserted ++ f) (inserted_for-front n p (single n p e h));
          offsets = add_repetition-updates n s.0 s.1 ∙ c.offsets;
          scaled = c.scaled;
        })

  pub add_iteration-Iterated :
      (p : Pattern) (t : Insertion)
      → IsSingle l p
      → Ensures (Iterated p t) (add_iteration_to_new_access_pattern definitions l p t)
  unfolding add_iteration_to_new_access_pattern
  add_iteration-Iterated p t h = scan-Iterated p t (calculate_nb_iterations l) refl h
