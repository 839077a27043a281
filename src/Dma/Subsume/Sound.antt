-- ===== src/Dma/Subsume/Sound.antt =====
-- The operation before the loops visits what the operation in the loops visits.
use mathlib.Core.Path.{ap₂}
use mathlib.Core.List.{append_assoc, append-nil}
use iree_amd_aie.Prelude.{
  ℕ, ◌≡◌, refl, sym, ap, ◌∙◌, not, Option, none, some, List, [], ◌∷◌, ◌++◌, All,
}
use iree_amd_aie.Prelude.Int.{ℤ}
use iree_amd_aie.Dma.Pattern.{
  Result, failure, Ensures, Ensures-map, Ensures-if, Ensures-bind, Ensures-any, Pattern, Env,
  get_constant_int_value,
}
use iree_amd_aie.Dma.Walk.{walk}
use iree_amd_aie.Dma.Limits.{DmaDimConfig, is_valid_access_pattern}
use iree_amd_aie.Dma.Subsume.{
  Loop, Definitions, Insertion, StridedOp, Options, nothing, add_iteration_to_new_access_pattern,
  cons_dim, constant_dims, subsume_side, subsume_loops, set_offsets, apply_insertion, may_subsume,
  rewrite_with_loop_like_op_parent,
}
use iree_amd_aie.Dma.Subsume.Run.{run}
use iree_amd_aie.Dma.Subsume.Scan.{updates, set_offsets-append, set_offsets-updates}
use iree_amd_aie.Dma.Subsume.Advance.{IsConstant, IsFree}
use iree_amd_aie.Dma.Subsume.Nest.{AreSeparate, patch_all}
use iree_amd_aie.Dma.Subsume.Unroll.{Subsumable, front, fronts, trip_count, run-walk}
use iree_amd_aie.Dma.Subsume.Front.{IsSingle, Iterated, add_iteration-Iterated}

cons_dim-Ensures :
    (P : Type 0) (size stride : Option ℤ) (rest : Result (List (ℤ × ℤ)))
    → ((n s : ℤ) → size ≡ some n → stride ≡ some s → Ensures (λ dims. P) rest)
    → Ensures (λ dims. P) (cons_dim size stride rest)
cons_dim-Ensures P none stride rest h = tt
cons_dim-Ensures P (some n) none rest h = tt
cons_dim-Ensures P (some n) (some s) rest h =
    Ensures-bind (λ dims. P) (λ dims. P) rest _ (h n s refl refl) (λ dims p. p)

-- A pattern whose dimensions are read out has constant sizes and strides.
constant_dims-IsConstant :
    (f p : Pattern) → Ensures (λ dims. All IsConstant p) (constant_dims (f ++ p))
unfolding constant_dims
constant_dims-IsConstant [] [] = tt
constant_dims-IsConstant [] (d ∷ p) =
    cons_dim-Ensures (All IsConstant (d ∷ p)) (get_constant_int_value d.size)
      (get_constant_int_value d.stride) (constant_dims p)
      (λ n s is_size is_stride.
        Ensures-map (λ dims. All IsConstant p) (λ dims. All IsConstant (d ∷ p)) (constant_dims p)
          (constant_dims-IsConstant [] p) (λ dims h. ((n, s, is_size, is_stride), h)))
constant_dims-IsConstant (d ∷ f) p =
    cons_dim-Ensures (All IsConstant p) (get_constant_int_value d.size)
      (get_constant_int_value d.stride) (constant_dims (f ++ p))
      (λ n s is_size is_stride. constant_dims-IsConstant f p)

-- What a loop may look like for a pattern: `arith.constant` values do not depend on it, and at most
-- one offset does, unless it has one round only.
abbrev pub IsRegular : Pattern → Loop → Type 0
IsRegular p l = All (λ d. IsFree l d.offset) p × IsSingle l p

module _ (definitions : Definitions) where
  -- From the insertion `t` to `u` the loops have been subsumed.
  record Subsumed (p : Pattern) (loops : List Loop) (t u : Insertion) : Type 0 where
    insertions : u.inserted ≡ t.inserted ++ fronts definitions loops p
    offsets :
        (q : Pattern)
        → set_offsets u.updates q ≡ patch_all definitions loops p (set_offsets t.updates q)
    subsumable : All (Subsumable definitions p) loops

  -- An empty pattern has nothing inserted.
  abbrev SideSubsumed : Pattern → List Loop → Insertion → Insertion → Type 0
  SideSubsumed [] loops t u = u ≡ t
  SideSubsumed (d ∷ p) loops t u = Subsumed (d ∷ p) loops t u

  subsume_side-SideSubsumed :
      (c : DmaDimConfig) (l : Loop) (p : Pattern) (t : Insertion)
      → IsRegular p l
      → Ensures (SideSubsumed p (l ∷ []) t) (subsume_side definitions c l p t)
  unfolding subsume_side
  subsume_side-SideSubsumed c l [] t h = refl
  subsume_side-SideSubsumed c l (d ∷ p) t h =
      Ensures-bind (Iterated definitions l (d ∷ p) t) (Subsumed (d ∷ p) (l ∷ []) t)
        (add_iteration_to_new_access_pattern definitions l (d ∷ p) t) _
        (add_iteration-Iterated definitions l (d ∷ p) t h.1)
        (λ u i.
          Ensures-bind (λ dims. All IsConstant (d ∷ p)) (Subsumed (d ∷ p) (l ∷ []) t)
            (constant_dims (u.inserted ++ (d ∷ p))) _ (constant_dims-IsConstant u.inserted (d ∷ p))
            (λ dims constants.
              Ensures-if (Subsumed (d ∷ p) (l ∷ []) t) (is_valid_access_pattern c dims) _ _
                (λ valid. record {
                  insertions =
                      i.insertions
                      ∙ ap (λ n. t.inserted ++ front definitions n l (d ∷ p))
                          (sym (ap trip_count i.counted))
                      ∙ ap (λ f. t.inserted ++ f) (sym (append-nil _));
                  offsets = λ q.
                      ap (λ w. set_offsets w q) i.offsets
                      ∙ set_offsets-append t.updates (updates definitions l 0 (d ∷ p)) q
                      ∙ set_offsets-updates definitions l (d ∷ p) (set_offsets t.updates q);
                  subsumable = (
                    record {
                      trips = i.trips;
                      counted = i.counted;
                      scaled = i.scaled;
                      constants = constants;
                      free = h.0;
                    },
                    tt,
                  );
                })
                (λ invalid. tt)))

  SideSubsumed-trans :
      (p : Pattern) (l : Loop) (loops : List Loop) (t u w : Insertion)
      → SideSubsumed p (l ∷ []) t u
      → SideSubsumed p loops u w
      → SideSubsumed p (l ∷ loops) t w
  SideSubsumed-trans [] l loops t u w h k = k ∙ h
  SideSubsumed-trans (d ∷ p) l loops t u w h k = record {
    insertions =
        k.insertions
        ∙ ap (λ f. f ++ fronts definitions loops (d ∷ p)) h.insertions
        ∙ append_assoc t.inserted (fronts definitions (l ∷ []) (d ∷ p))
            (fronts definitions loops (d ∷ p))
        ∙ ap (λ f. t.inserted ++ (f ++ fronts definitions loops (d ∷ p))) (append-nil _);
    offsets = λ q. k.offsets q ∙ ap (patch_all definitions loops (d ∷ p)) (h.offsets q);
    subsumable = (h.subsumable.0, k.subsumable);
  }

  SideSubsumed-refl : (p : Pattern) (t : Insertion) → SideSubsumed p [] t t
  SideSubsumed-refl [] t = refl
  SideSubsumed-refl (d ∷ p) t = record {
    insertions = sym (append-nil t.inserted);
    offsets = λ q. refl;
    subsumable = tt;
  }

  subsume_loops-SideSubsumed :
      (op : StridedOp) (loops : List Loop) (s t : Insertion)
      → All (IsRegular op.source) loops
      → All (IsRegular op.target) loops
      → Ensures
          (λ r. SideSubsumed op.source loops s r.0 × SideSubsumed op.target loops t r.1)
          (subsume_loops definitions op loops s t)
  unfolding subsume_loops
  subsume_loops-SideSubsumed op [] s t h k =
      (SideSubsumed-refl op.source s, SideSubsumed-refl op.target t)
  subsume_loops-SideSubsumed op (l ∷ loops) s t h k =
      Ensures-bind (SideSubsumed op.source (l ∷ []) s) _
        (subsume_side definitions op.source_config l op.source s) _
        (subsume_side-SideSubsumed op.source_config l op.source s h.0)
        (λ u i.
          Ensures-bind (SideSubsumed op.target (l ∷ []) t) _
            (subsume_side definitions op.target_config l op.target t) _
            (subsume_side-SideSubsumed op.target_config l op.target t k.0)
            (λ w j.
              Ensures-map _ _ (subsume_loops definitions op loops u w)
                (subsume_loops-SideSubsumed op loops u w h.1 k.1)
                (λ r e. (
                  SideSubsumed-trans op.source l loops s u r.0 i e.0,
                  SideSubsumed-trans op.target l loops t w r.1 j e.1,
                ))))

  -- What the new pattern of a side has to do with the old one.
  abbrev pub Unrolls : List Loop → Pattern → Pattern → Type 0
  Unrolls loops [] new = new ≡ []
  Unrolls loops (d ∷ p) new =
      (symbols : ℕ → ℤ) (ρ : Env) → walk ρ new ≡ run definitions symbols loops (d ∷ p) ρ

  apply_insertion-Unrolls :
      (loops : List Loop) (p : Pattern) (u : Insertion)
      → AreSeparate loops
      → SideSubsumed p loops nothing u
      → Unrolls loops p (apply_insertion u p)
  unfolding set_offsets
  apply_insertion-Unrolls loops [] u a h = rw h
  apply_insertion-Unrolls loops (d ∷ p) u a h = λ symbols ρ.
      ap (walk ρ) (ap₂ ◌++◌ h.insertions (h.offsets (d ∷ p)))
      ∙ sym (run-walk definitions symbols loops (d ∷ p) ρ h.subsumable a)

  -- rewriteWithLoopLikeOpParent: the new source pattern visits the addresses that the old one visits
  -- in the rounds of the loops, in the same order, and so does the target pattern; an empty pattern
  -- stays empty. Each loop is regular for both patterns, and no value depends on two loops.
  pub rewrite-Unrolls :
      (opts : Options) (op : StridedOp) (loops : List Loop)
      → AreSeparate loops
      → All (IsRegular op.source) loops
      → All (IsRegular op.target) loops
      → Ensures
          (λ new. Unrolls loops op.source new.source × Unrolls loops op.target new.target)
          (rewrite_with_loop_like_op_parent opts definitions op loops)
  unfolding rewrite_with_loop_like_op_parent
  rewrite-Unrolls opts op loops a h k =
      Ensures-bind (λ allowed. Unit) _ (may_subsume opts op loops) _
        (Ensures-any (may_subsume opts op loops))
        (λ allowed _.
          Ensures-if _ (not allowed) failure _ (λ _. tt)
            (λ _.
              Ensures-bind _ _ (subsume_loops definitions op loops nothing nothing) _
                (subsume_loops-SideSubsumed op loops nothing nothing h k)
                (λ r e. (
                  apply_insertion-Unrolls loops op.source r.0 a e.0,
                  apply_insertion-Unrolls loops op.target r.1 a e.1,
                ))))
