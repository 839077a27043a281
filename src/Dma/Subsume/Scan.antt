-- ===== src/Dma/Subsume/Scan.antt =====
-- What the loop over the offsets (addIterationToNewAccessPattern) adds to the vectors, as functions
-- of the pattern.
use mathlib.Core.Path.{subst}
use mathlib.Core.List.{append_assoc, append-nil}
use iree_amd_aie.Prelude.{
  ℕ, suc, ◌≡◌, refl, sym, ap, ◌∙◌, Bool, true, false, ◌||◌, Bool-cases, inl, inr, Option, none,
  some, Option-cases, List, [], ◌∷◌, ◌++◌, if◌then◌else◌,
}
use iree_amd_aie.Prelude.Int.{ℤ, pos, ◌+ℤ◌, ◌*ℤ◌}
use iree_amd_aie.Prelude.IntRing.{eqb_ℤ}
use iree_amd_aie.Dma.Pattern.{
  Result, ok, failure, fault, ◌>>=◌, Ensures, Ensures-map, Ensures-if, Ensures-bind, attr,
  get_constant_int_value, Dim, Pattern,
}
use iree_amd_aie.Dma.Subsume.{
  Loop, Definitions, dependency, offset_scale, Insertion, new_dim, add_dependency, scan_offsets,
  set_offset, set_offsets,
}

abbrev pub or_zero : Option ℤ → ℤ
or_zero none = pos 0
or_zero (some c) = c

abbrev pub stride_of : Dim → ℤ
stride_of d = or_zero (get_constant_int_value d.stride)

abbrev pub ok_or_zero : Result (ℤ × ℤ) → ℤ × ℤ
ok_or_zero (ok x) = x
ok_or_zero failure = (pos 0, pos 0)
ok_or_zero fault = (pos 0, pos 0)

abbrev pub is_some : Option ℕ → Bool
is_some none = false
is_some (some v) = true

set_offsets-nil : (u : List (ℕ × ℤ)) → set_offsets u [] ≡ []
unfolding set_offsets set_offset
set_offsets-nil [] = refl
set_offsets-nil ((i, c) ∷ u) = set_offsets-nil u

pub set_offsets-append :
    (u w : List (ℕ × ℤ)) (q : Pattern) → set_offsets (u ++ w) q ≡ set_offsets w (set_offsets u q)
unfolding set_offsets
set_offsets-append [] w q = refl
set_offsets-append ((i, c) ∷ u) w q = set_offsets-append u w (set_offset i c q)

module _ (definitions : Definitions) (l : Loop) where
  abbrev pub scale_of : ℕ → ℤ × ℤ
  scale_of v = ok_or_zero (offset_scale definitions v)

  -- The offset in the first round.
  abbrev pub first_offset : ℕ → ℤ
  first_offset v = (scale_of v).1 +ℤ l.lower_bound *ℤ (scale_of v).0

  -- How far a round moves a dimension.
  abbrev pub advance : Dim → Option ℕ → ℤ
  advance d none = pos 0
  advance d (some v) = stride_of d *ℤ (scale_of v).0 *ℤ l.step

  abbrev pub insert_if : ℤ → Dim → Option ℕ → Pattern → Pattern
  insert_if n d none rest = rest
  insert_if n d (some v) rest =
      if eqb_ℤ n (pos 1) then rest else new_dim n (advance d (some v)) ∷ rest

  abbrev pub inserts : ℤ → Pattern → Pattern
  inserts n [] = []
  inserts n (d ∷ p) = insert_if n d (dependency l d.offset) (inserts n p)

  abbrev pub update_if : ℕ → Option ℕ → List (ℕ × ℤ) → List (ℕ × ℤ)
  update_if i none rest = rest
  update_if i (some v) rest = (i, first_offset v) ∷ rest

  abbrev pub updates : ℕ → Pattern → List (ℕ × ℤ)
  updates i [] = []
  updates i (d ∷ p) = update_if i (dependency l d.offset) (updates (suc i) p)

  abbrev pub any_dependent : Pattern → Bool
  any_dependent [] = false
  any_dependent (d ∷ p) = is_some (dependency l d.offset) || any_dependent p

  -- The scale and the stride of a dimension that depends on the loop are known.
  abbrev pub Scaled : Dim → Option ℕ → Type 0
  Scaled d none = Unit
  Scaled d (some v) =
      (offset_scale definitions v ≡ ok (scale_of v))
      × (get_constant_int_value d.stride ≡ some (stride_of d))

  abbrev pub AllScaled : Pattern → Type 0
  AllScaled [] = Unit
  AllScaled (d ∷ p) = Scaled d (dependency l d.offset) × AllScaled p

  pub record Scanned (n : ℤ) (i : ℕ) (p : Pattern) (dependent : Bool) (t : Insertion)
      (r : Bool × Insertion) : Type 0 where
    pub flag : r.0 ≡ (dependent || any_dependent p)
    pub insertions : r.1.inserted ≡ t.inserted ++ inserts n p
    pub offsets : r.1.updates ≡ t.updates ++ updates i p
    pub scaled : AllScaled p

  -- The insertion `u` has the value `v` of the dimension `d` on top of `t`.
  record Added (n : ℤ) (i : ℕ) (d : Dim) (v : ℕ) (t u : Insertion) : Type 0 where
    insertions : u.inserted ≡ t.inserted ++ insert_if n d (some v) []
    offsets : u.updates ≡ t.updates ++ ((i, first_offset v) ∷ [])
    scaled : Scaled d (some v)

  add_dependency-Added :
      (n : ℤ) (i : ℕ) (d : Dim) (v : ℕ) (t : Insertion) (stride : Option ℤ)
      → get_constant_int_value d.stride ≡ stride
      → offset_scale definitions v ≡ ok (scale_of v)
      → Ensures (Added n i d v t) (add_dependency l n i stride (scale_of v) t)
  unfolding add_dependency
  add_dependency-Added n i d v t none e f = tt
  add_dependency-Added n i d v t (some c) e f =
      Ensures-if (Added n i d v t) (eqb_ℤ n (pos 1)) _ _
        (λ one. record {
          insertions = rw one (sym (append-nil t.inserted));
          offsets = refl;
          scaled = (f, rw e);
        })
        (λ more. record { insertions = rw (more, e); offsets = refl; scaled = (f, rw e) })

  add_value-Added :
      (n : ℤ) (i : ℕ) (d : Dim) (v : ℕ) (t : Insertion) (scale : Result (ℤ × ℤ))
      → offset_scale definitions v ≡ scale
      → Ensures
          (Added n i d v t)
          (scale >>= λ s. add_dependency l n i (get_constant_int_value d.stride) s t)
  add_value-Added n i d v t failure e = tt
  add_value-Added n i d v t fault e = tt
  add_value-Added n i d v t (ok s) e =
      let known : scale_of v ≡ s = ap ok_or_zero e in
      subst
        (λ z.
          Ensures (Added n i d v t) (add_dependency l n i (get_constant_int_value d.stride) z t))
        known
        (add_dependency-Added n i d v t (get_constant_int_value d.stride) refl
          (e ∙ ap ok (sym known)))

  insert_if-append :
      (n : ℤ) (d : Dim) (v : ℕ) (front rest : Pattern)
      → front ++ insert_if n d (some v) [] ++ rest ≡ front ++ insert_if n d (some v) rest
  insert_if-append n d v front rest = elim (Bool-cases (eqb_ℤ n (pos 1))) [
    | inl e ↦ rw (e, append-nil)
    | inr e ↦ rw (e, append_assoc)
  ]

  or_false : (b : Bool) → b ≡ (b || false)
  or_false true = refl
  or_false false = refl

  or_true : (b : Bool) → (b || true) ≡ true
  or_true true = refl
  or_true false = refl

  pub scan_offsets-Scanned :
      (n : ℤ) (i : ℕ) (p : Pattern) (dependent : Bool) (t : Insertion)
      → Ensures (Scanned n i p dependent t) (scan_offsets definitions l n i p dependent t)
  unfolding scan_offsets
  scan_offsets-Scanned n i [] dependent t = record {
    flag = or_false dependent;
    insertions = sym (append-nil t.inserted);
    offsets = sym (append-nil t.updates);
    scaled = tt;
  }
  scan_offsets-Scanned n i (d ∷ p) dependent t = elim (Option-cases (dependency l d.offset)) [
    | inl e ↦
        rw (scan_offsets, e)
          (Ensures-map (Scanned n (suc i) p dependent t) (Scanned n i (d ∷ p) dependent t) _
            (scan_offsets-Scanned n (suc i) p dependent t)
            (λ r h. record {
              flag = rw e h.flag;
              insertions = rw e h.insertions;
              offsets = rw e h.offsets;
              scaled = (rw e tt, h.scaled);
            }))
    | inr (v, e) ↦
        rw (scan_offsets, e)
          (Ensures-bind (Added n i d v t) (Scanned n i (d ∷ p) dependent t) _ _
            (add_value-Added n i d v t (offset_scale definitions v) refl)
            (λ u a.
              Ensures-map (Scanned n (suc i) p true u) (Scanned n i (d ∷ p) dependent t) _
                (scan_offsets-Scanned n (suc i) p true u)
                (λ r h. record {
                  flag = rw (e, or_true) h.flag;
                  insertions =
                      rw (e, h.insertions, a.insertions)
                        (insert_if-append n d v t.inserted (inserts n p));
                  offsets = rw (e, h.offsets, a.offsets, append_assoc);
                  scaled = (rw e a.scaled, h.scaled);
                })))
  ]

  -- The updates of `p`, made on a pattern `q` of the same length.
  abbrev pub patch_dim : Option ℕ → Dim → Dim
  patch_dim none e = e
  patch_dim (some v) e = record e { offset = attr (first_offset v) }

  abbrev pub patch : Pattern → Pattern → Pattern
  patch [] q = q
  patch (d ∷ p) [] = []
  patch (d ∷ p) (e ∷ q) = patch_dim (dependency l d.offset) e ∷ patch p q

  set_offsets-later :
      (i : ℕ) (p q : Pattern) (e : Dim)
      → set_offsets (updates (suc i) p) (e ∷ q) ≡ e ∷ set_offsets (updates i p) q
  unfolding set_offsets set_offset
  set_offsets-later i [] q e = refl
  set_offsets-later i (d ∷ p) q e = elim (Option-cases (dependency l d.offset)) [
    | inl none_here ↦ rw none_here (set_offsets-later (suc i) p q e)
    | inr (v, here) ↦
        rw (here, set_offsets) (set_offsets-later (suc i) p (set_offset i (first_offset v) q) e)
  ]

  pub set_offsets-updates : (p q : Pattern) → set_offsets (updates 0 p) q ≡ patch p q
  unfolding set_offsets set_offset
  set_offsets-updates [] q = refl
  set_offsets-updates (d ∷ p) [] = set_offsets-nil (updates 0 (d ∷ p))
  set_offsets-updates (d ∷ p) (e ∷ q) = elim (Option-cases (dependency l d.offset)) [
    | inl none_here ↦
        rw none_here (set_offsets-later 0 p q e ∙ ap (λ t. e ∷ t) (set_offsets-updates p q))
    | inr (v, here) ↦
        rw (here, set_offsets)
          (set_offsets-later 0 p q (patch_dim (some v) e)
            ∙ ap (λ t. patch_dim (some v) e ∷ t) (set_offsets-updates p q))
  ]
