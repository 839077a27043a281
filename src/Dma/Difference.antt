-- ===== src/Dma/Difference.antt =====
-- AMDAIEDmaUtils.cpp: `getGlobalOffsetDifference`. The two hash maps of coefficients are lists of
-- entries with distinct keys.
pub mod Sound
use iree_amd_aie.Prelude.{
  ℕ, Bool, true, false, not, ◌&&◌, ◌||◌, List, [], ◌∷◌, ◌==◌, if◌then◌else◌, all_of,
}
use iree_amd_aie.Prelude.Int.{ℤ, pos, negsuc, ◌+ℤ◌, ◌*ℤ◌}
use iree_amd_aie.Prelude.IntRing.{eqb_ℤ}
use iree_amd_aie.Dma.Pattern.{
  OpFoldResult, attr, constant, value, Dim, Pattern, Result, ok, failure, fault, ◌>>=◌,
}

-- A constant, or a value that is not.
pub data Operand : Type 0 where
  known : ℤ → Operand
  unknown : ℕ → Operand

abbrev pub operand : OpFoldResult → Operand
operand (attr c) = known c
operand (constant v c) = known c
operand (value v) = unknown v

-- `incrementValToConst`.
unfoldable pub increment_val_to_const : ℕ → ℤ → List (ℕ × ℤ) → List (ℕ × ℤ)
increment_val_to_const v k [] = (v, k) ∷ []
increment_val_to_const v k ((w, l) ∷ m) =
    if w == v then (w, l +ℤ k) ∷ m else (w, l) ∷ increment_val_to_const v k m

abbrev pub Pairs : Type 0
Pairs = List (ℕ × ℕ × ℤ)

abbrev pub has_pair : ℕ → ℕ → Pairs → Bool
has_pair v w [] = false
has_pair v w ((a, b, l) ∷ m) = ((a == v) && (b == w)) || has_pair v w m

unfoldable pub add_to_pair : ℕ → ℕ → ℤ → Pairs → Pairs
add_to_pair v w k [] = []
add_to_pair v w k ((a, b, l) ∷ m) =
    if (a == v) && (b == w) then (a, b, l +ℤ k) ∷ m else (a, b, l) ∷ add_to_pair v w k m

-- `incrementValPairs`: the pair may be there in either order.
unfoldable pub increment_val_pairs : ℕ → ℕ → ℤ → Pairs → Pairs
increment_val_pairs v w sign m =
    if has_pair v w m
    then add_to_pair v w sign m
    else if has_pair w v m
    then add_to_pair w v sign m
    else (v, w, sign) ∷ m

pub record Terms : Type 0 where
  pub difference : ℤ
  pub val_to_const : List (ℕ × ℤ)
  pub val_pairs : Pairs

-- `updateGlobalOffsetDifference`.
unfoldable pub update : Operand → Operand → ℤ → Terms → Terms
update (unknown v) (unknown w) sign t = record t {
  val_pairs = increment_val_pairs v w sign t.val_pairs;
}
update (known o) (known s) sign t = record t { difference = t.difference +ℤ sign *ℤ o *ℤ s }
update (known o) (unknown w) sign t = record t {
  val_to_const = increment_val_to_const w (sign *ℤ o) t.val_to_const;
}
update (unknown v) (known s) sign t = record t {
  val_to_const = increment_val_to_const v (sign *ℤ s) t.val_to_const;
}

-- The loop; different ranks are asserted away.
unfoldable pub update_all : Pattern → Pattern → Terms → Result Terms
update_all [] [] t = ok t
update_all [] (y ∷ ys) t = fault
update_all (x ∷ xs) [] t = fault
update_all (x ∷ xs) (y ∷ ys) t = update_all xs ys (
    update (operand y.offset) (operand y.stride) (negsuc 0)
      (update (operand x.offset) (operand x.stride) (pos 1) t))

abbrev pub is_constant : Terms → Bool
is_constant t =
    all_of (λ e. eqb_ℤ e.1 (pos 0)) t.val_to_const && all_of (λ e. eqb_ℤ e.2 (pos 0)) t.val_pairs

-- `failure` stands for `std::nullopt`: the difference is not known to be constant.
unfoldable pub get_global_offset_difference : Pattern → Pattern → Result ℤ
get_global_offset_difference x y =
    update_all x y (record { difference = pos 0; val_to_const = []; val_pairs = [] }) >>= λ t.
    if is_constant t then ok t.difference else failure
