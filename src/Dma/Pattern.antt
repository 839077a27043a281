-- ===== src/Dma/Pattern.antt =====
-- The data of AMDAIEDmaUtils.cpp: an access pattern, which the source holds as three vectors of one
-- length (offsets, sizes, strides), is a list of dimensions, the outermost first. An `int64_t` is an
-- integer; an overflow, undefined in the source, is not modelled.
pub use iree_amd_aie.Prelude.Result.{
  Result, ok, failure, fault, ◌>>=◌, Ensures, Ensures_at, Ensures-map, Ensures-if, Ensures-bind,
  Ensures-any,
}
use iree_amd_aie.Prelude.{
  ℕ, ◌≡◌, Bool, true, false, ◌&&◌, Option, none, some, List, ◌==◌, ==_iff, arith,
}
use iree_amd_aie.Prelude.Int.{ℤ, pos}
use iree_amd_aie.Prelude.IntRing.{eqb_ℤ, eqb_ℤ-eq}

-- `mlir::OpFoldResult`: an index attribute, a value that `arith.constant` defines, or another value,
-- values by their number.
pub data OpFoldResult : Type 0 where
  attr : ℤ → OpFoldResult
  constant : ℕ → ℤ → OpFoldResult
  value : ℕ → OpFoldResult

-- `getConstantIntValue` of MLIR, which looks through `arith.constant`.
abbrev pub get_constant_int_value : OpFoldResult → Option ℤ
get_constant_int_value (attr c) = some c
get_constant_int_value (constant v c) = some c
get_constant_int_value (value v) = none

-- `isConstantIntValue` of MLIR.
abbrev pub is_constant_int_value : OpFoldResult → ℤ → Bool
is_constant_int_value (attr c) k = eqb_ℤ c k
is_constant_int_value (constant v c) k = eqb_ℤ c k
is_constant_int_value (value v) k = false

-- `operator==` of MLIR compares attributes and values by identity.
abbrev pub eq_ofr : OpFoldResult → OpFoldResult → Bool
eq_ofr (attr a) (attr b) = eqb_ℤ a b
eq_ofr (constant v a) (constant w b) = (v == w) && eqb_ℤ a b
eq_ofr (value v) (value w) = v == w
eq_ofr _ _ = false

pub eq_ofr-eq : (a b : OpFoldResult) → eq_ofr a b ≡ true → a ≡ b
eq_ofr-eq (attr a) (attr b) h = ground (arith, eqb_ℤ-eq a b)
eq_ofr-eq (attr a) (constant w b) h = cc
eq_ofr-eq (attr a) (value w) h = cc
eq_ofr-eq (constant v a) (attr b) h = cc
eq_ofr-eq (constant v a) (constant w b) h = ground (arith, eqb_ℤ-eq a b, ==_iff v w)
eq_ofr-eq (constant v a) (value w) h = cc
eq_ofr-eq (value v) (attr b) h = cc
eq_ofr-eq (value v) (constant w b) h = cc
eq_ofr-eq (value v) (value w) h = ground (arith, ==_iff v w)

pub record Dim : Type 0 where
  pub offset : OpFoldResult
  pub size : OpFoldResult
  pub stride : OpFoldResult

abbrev pub Pattern : Type 0
Pattern = List Dim

-- What the values of a program run are.
abbrev pub Env : Type 0
Env = ℕ → ℤ

abbrev pub eval : Env → OpFoldResult → ℤ
eval ρ (attr c) = c
eval ρ (constant v c) = c
eval ρ (value v) = ρ v

-- The constant that MLIR finds is the value at run time.
pub eval-constant :
    (ρ : Env) (a : OpFoldResult) (c : ℤ) → get_constant_int_value a ≡ some c → eval ρ a ≡ c
eval-constant ρ (attr d) c h = cc
eval-constant ρ (constant v d) c h = cc
eval-constant ρ (value v) c h = cc

pub eval-is_constant :
    (ρ : Env) (a : OpFoldResult) (c : ℤ) → is_constant_int_value a c ≡ true → eval ρ a ≡ c
eval-is_constant ρ (attr d) c h = eqb_ℤ-eq d c h
eval-is_constant ρ (constant v d) c h = eqb_ℤ-eq d c h
eval-is_constant ρ (value v) c h = cc

-- A dimension whose size and stride are constants, the size not negative.
abbrev pub IsSized : Dim → Type 0
IsSized d =
    (n : ℕ) × (s : ℤ) × (get_constant_int_value d.size ≡ some (pos n))
    × (get_constant_int_value d.stride ≡ some s)
