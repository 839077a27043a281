-- ===== src/Dma/Difference/Sound.antt =====
-- The difference that `getGlobalOffsetDifference` returns is right for all values.
use iree_amd_aie.Prelude.{
  ℕ, ◌≡◌, refl, ap, true, ◌&&◌, List, [], ◌∷◌, arith, ◌==◌, ==_iff, Bool-cases, inl, inr, all_of,
}
use iree_amd_aie.Prelude.Int.{ℤ, pos, negsuc, pos_part, neg_part, ◌+ℤ◌, ◌*ℤ◌, +ℤ_comm, int_laws}
use iree_amd_aie.Prelude.IntRing.{eqb_ℤ, eqb_ℤ-eq, *ℤ_parts, *ℤ_comm, *ℤ_assoc, add-*ℤ}
use iree_amd_aie.Dma.Pattern.{
  OpFoldResult, attr, constant, value, Pattern, ok, Ensures, Ensures_at, Ensures-if, Ensures-bind,
  Ensures-map, Env, eval,
}
use iree_amd_aie.Dma.Walk.{base}
use iree_amd_aie.Dma.Difference.{
  Operand, known, unknown, operand, increment_val_to_const, Pairs, has_pair, add_to_pair,
  increment_val_pairs, Terms, update, update_all, is_constant, get_global_offset_difference,
}

abbrev sum_consts : Env → List (ℕ × ℤ) → ℤ
sum_consts ρ [] = pos 0
sum_consts ρ ((v, k) ∷ m) = k *ℤ ρ v +ℤ sum_consts ρ m

abbrev sum_pairs : Env → Pairs → ℤ
sum_pairs ρ [] = pos 0
sum_pairs ρ ((v, w, k) ∷ m) = k *ℤ (ρ v *ℤ ρ w) +ℤ sum_pairs ρ m

-- What the terms stand for.
abbrev total : Env → Terms → ℤ
total ρ t = t.difference +ℤ sum_consts ρ t.val_to_const +ℤ sum_pairs ρ t.val_pairs

abbrev eval_operand : Env → Operand → ℤ
eval_operand ρ (known c) = c
eval_operand ρ (unknown v) = ρ v

sum_consts-increment :
    (ρ : Env) (v : ℕ) (k : ℤ) (m : List (ℕ × ℤ))
    → sum_consts ρ (increment_val_to_const v k m) ≡ sum_consts ρ m +ℤ k *ℤ ρ v
unfolding increment_val_to_const
sum_consts-increment ρ v k [] = omega int_laws
sum_consts-increment ρ v k ((w, l) ∷ m) = elim (Bool-cases (w == v)) [
  | inl e ↦ rw (e, add-*ℤ l k (ρ w), (==_iff w v).0 e) (omega int_laws)
  | inr e ↦ rw (e, sum_consts-increment ρ v k m) (omega int_laws)
]

sum_pairs-add :
    (ρ : Env) (v w : ℕ) (k : ℤ) (m : Pairs)
    → has_pair v w m ≡ true
    → sum_pairs ρ (add_to_pair v w k m) ≡ sum_pairs ρ m +ℤ k *ℤ (ρ v *ℤ ρ w)
unfolding add_to_pair
sum_pairs-add ρ v w k [] h = cc
sum_pairs-add ρ v w k ((a, b, l) ∷ m) h = elim (Bool-cases ((a == v) && (b == w))) [
  | inl e ↦
      let ea : a ≡ v = ground (arith) in
      let eb : b ≡ w = ground (arith) in rw (e, add-*ℤ l k (ρ a *ℤ ρ b), ea, eb) (omega int_laws)
  | inr e ↦ rw (e, sum_pairs-add ρ v w k m (ground arith)) (omega int_laws)
]

sum_pairs-increment :
    (ρ : Env) (v w : ℕ) (k : ℤ) (m : Pairs)
    → sum_pairs ρ (increment_val_pairs v w k m) ≡ sum_pairs ρ m +ℤ k *ℤ (ρ v *ℤ ρ w)
unfolding increment_val_pairs
sum_pairs-increment ρ v w k m = elim (Bool-cases (has_pair v w m)) [
  | inl e ↦ rw e (sum_pairs-add ρ v w k m e)
  | inr e ↦ elim (Bool-cases (has_pair w v m)) [
    | inl f ↦ rw (e, f, *ℤ_comm (ρ v) (ρ w)) (sum_pairs-add ρ w v k m f)
    | inr f ↦ rw (e, f) (+ℤ_comm _ _)
  ]
]

total-update :
    (ρ : Env) (o s : Operand) (sign : ℤ) (t : Terms)
    → total ρ (update o s sign t) ≡ total ρ t +ℤ sign *ℤ (eval_operand ρ o *ℤ eval_operand ρ s)
unfolding update
total-update ρ (unknown v) (unknown w) sign t =
    rw (sum_pairs-increment ρ v w sign t.val_pairs) (omega int_laws)
total-update ρ (known o) (known s) sign t = rw (← *ℤ_assoc sign o s) (omega int_laws)
total-update ρ (known o) (unknown w) sign t =
    rw (sum_consts-increment ρ w (sign *ℤ o) t.val_to_const, *ℤ_assoc sign o (ρ w)) (omega int_laws)
total-update ρ (unknown v) (known s) sign t =
    rw (sum_consts-increment ρ v (sign *ℤ s) t.val_to_const, *ℤ_assoc sign s (ρ v), *ℤ_comm s (ρ v))
      (omega int_laws)

eval-operand : (ρ : Env) (a : OpFoldResult) → eval_operand ρ (operand a) ≡ eval ρ a
eval-operand ρ (attr c) = refl
eval-operand ρ (constant v c) = refl
eval-operand ρ (value v) = refl

chain :
    (u t t1 t2 px py bx by : ℤ)
    → t1 ≡ t +ℤ pos 1 *ℤ px
    → t2 ≡ t1 +ℤ negsuc 0 *ℤ py
    → u +ℤ by ≡ t2 +ℤ bx
    → u +ℤ (py +ℤ by) ≡ t +ℤ (px +ℤ bx)
chain u t t1 t2 px py bx by e1 e2 e3 = omega (
  int_laws,
  ap pos_part e1,
  ap neg_part e1,
  ap pos_part e2,
  ap neg_part e2,
  ap pos_part e3,
  ap neg_part e3,
  *ℤ_parts (pos 1) px,
  *ℤ_parts (negsuc 0) py,
)

update_all-total :
    (ρ : Env) (x y : Pattern) (t : Terms)
    → Ensures (λ u. total ρ u +ℤ base ρ y ≡ total ρ t +ℤ base ρ x) (update_all x y t)
unfolding update_all
update_all-total ρ [] [] t = refl
update_all-total ρ [] (y ∷ ys) t = tt
update_all-total ρ (x ∷ xs) [] t = tt
update_all-total ρ (x ∷ xs) (y ∷ ys) t =
    let t1 = update (operand x.offset) (operand x.stride) (pos 1) t in
    let t2 = update (operand y.offset) (operand y.stride) (negsuc 0) t1 in
    let e1 : total ρ t1 ≡ total ρ t +ℤ pos 1 *ℤ (eval ρ x.offset *ℤ eval ρ x.stride) =
      rw (← eval-operand ρ x.offset, ← eval-operand ρ x.stride) (total-update ρ _ _ (pos 1) t) in
    let e2 : total ρ t2 ≡ total ρ t1 +ℤ negsuc 0 *ℤ (eval ρ y.offset *ℤ eval ρ y.stride) =
      rw (← eval-operand ρ y.offset, ← eval-operand ρ y.stride)
        (total-update ρ _ _ (negsuc 0) t1) in
    Ensures-map (λ u. total ρ u +ℤ base ρ ys ≡ total ρ t2 +ℤ base ρ xs)
      (λ u. total ρ u +ℤ base ρ (y ∷ ys) ≡ total ρ t +ℤ base ρ (x ∷ xs)) _
      (update_all-total ρ xs ys t2)
      λ u s.
        chain (total ρ u) (total ρ t) (total ρ t1) (total ρ t2) (eval ρ x.offset *ℤ eval ρ x.stride)
          (eval ρ y.offset *ℤ eval ρ y.stride) (base ρ xs) (base ρ ys) e1 e2 s

all_zero-consts :
    (ρ : Env) (m : List (ℕ × ℤ)) → all_of (λ e. eqb_ℤ e.1 (pos 0)) m ≡ true → sum_consts ρ m ≡ pos 0
all_zero-consts ρ [] h = refl
all_zero-consts ρ ((v, k) ∷ m) h =
    let zero_k = eqb_ℤ-eq k (pos 0) (ground arith) in
    rw (zero_k, all_zero-consts ρ m (ground arith)) (omega (int_laws, *ℤ_parts (pos 0) (ρ v)))

all_zero-pairs :
    (ρ : Env) (m : Pairs) → all_of (λ e. eqb_ℤ e.2 (pos 0)) m ≡ true → sum_pairs ρ m ≡ pos 0
all_zero-pairs ρ [] h = refl
all_zero-pairs ρ ((v, w, k) ∷ m) h =
    let zero_k = eqb_ℤ-eq k (pos 0) (ground arith) in
    rw (zero_k, all_zero-pairs ρ m (ground arith)) (omega (int_laws, *ℤ_parts (pos 0) (ρ v *ℤ ρ w)))

-- When getGlobalOffsetDifference returns a difference, the base address of the first pattern is that
-- of the second plus the difference, whatever the values that are not constant are.
pub get_global_offset_difference-base :
    (x y : Pattern) (d : ℤ)
    → get_global_offset_difference x y ≡ ok d
    → (ρ : Env) → base ρ x ≡ base ρ y +ℤ d
unfolding get_global_offset_difference
get_global_offset_difference-base x y d h ρ = Ensures_at (λ k. base ρ x ≡ base ρ y +ℤ k) _ d whole h
  where
    start : Terms
    start = record { difference = pos 0; val_to_const = []; val_pairs = [] }

    done :
        (u : Terms)
        → total ρ u +ℤ base ρ y ≡ pos 0 +ℤ pos 0 +ℤ pos 0 +ℤ base ρ x
        → is_constant u ≡ true
        → base ρ x ≡ base ρ y +ℤ u.difference
    done u e c =
        let consts = all_zero-consts ρ u.val_to_const (ground arith) in
        let pairs = all_zero-pairs ρ u.val_pairs (ground arith) in
        omega (
          int_laws,
          ap pos_part e,
          ap neg_part e,
          ap pos_part consts,
          ap neg_part consts,
          ap pos_part pairs,
          ap neg_part pairs,
        )

    whole : Ensures (λ k. base ρ x ≡ base ρ y +ℤ k) (get_global_offset_difference x y)
    whole =
        Ensures-bind (λ u. total ρ u +ℤ base ρ y ≡ total ρ start +ℤ base ρ x)
          (λ k. base ρ x ≡ base ρ y +ℤ k) (update_all x y start) _ (update_all-total ρ x y start)
          λ u e.
            Ensures-if (λ k. base ρ x ≡ base ρ y +ℤ k) (is_constant u) _ _ (λ c. done u e c)
              (λ _. tt)
