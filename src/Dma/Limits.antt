-- ===== src/Dma/Limits.antt =====
-- AMDAIEDmaUtils.h and .cpp: `DmaDimConfig` and `CircularDmaDimConfig`, the limits of a DMA. What the
-- device model says of a tile are fields.
pub mod Layout
pub mod Ranks
pub mod Positions
mod Tests
use iree_amd_aie.Prelude.{
  ℕ, zero, suc, ◌+◌, ◌-◌, ◌%◌, ◌^◌, min, Bool, true, false, not, ◌&&◌, ◌||◌, Option, none, some,
  List, [], ◌∷◌, ltb, if◌then◌else◌, length, map, set, drop, replicate,
}
use iree_amd_aie.Prelude.Int.{ℤ, pos, ltb_ℤ}
use iree_amd_aie.Prelude.IntRing.{eqb_ℤ}

-- `circular` is a `CircularDmaDimConfig`, which overrides the limits.
pub record DmaDimConfig : Type 0 where
  pub circular : Bool
  pub max_nb_dims : ℕ
  pub nb_inter_dims : ℕ
  pub nb_intra_dims : ℕ
  pub wrap_max : ℕ
  pub iter_wrap_max : ℕ
  pub step_size_max : ℕ
  pub iter_step_size_max : ℕ

-- What the constructor asks of the device model, for the memory spaces 0 (shim), 1 and 2.
pub record DeviceProps : Type 0 where
  pub num_addr_dim : ℕ → ℕ
  pub dma_nb_inter_dims : ℕ
  pub wraps : ℕ → ℕ
  pub iter_wraps : ℕ → ℕ
  pub step_sizes : ℕ → ℕ
  pub iter_step_sizes : ℕ → ℕ

-- The constructor asserts that the memory space is known. The sum is a `uint8_t`.
unfoldable pub init : Bool → DeviceProps → ℕ → Option DmaDimConfig
init circular device mem_space =
    let inter = if ltb 0 mem_space then 0 else device.dma_nb_inter_dims in
    if ltb 2 mem_space
    then none
    else some (record {
      circular = circular;
      max_nb_dims = (device.num_addr_dim mem_space + inter) % 2 ^ 8;
      nb_inter_dims = inter;
      nb_intra_dims = device.num_addr_dim mem_space;
      wrap_max = device.wraps mem_space;
      iter_wrap_max = device.iter_wraps mem_space;
      step_size_max = device.step_sizes mem_space;
      iter_step_size_max = device.iter_step_sizes mem_space;
    })

unfoldable pub exceeds_nb_dims : DmaDimConfig → ℕ → Bool
exceeds_nb_dims c dims = if c.circular then false else ltb c.max_nb_dims dims

abbrev pub int64_max : ℕ
int64_max = 2 ^ 63 - 1

-- `std::fill_n(xs.begin() + start, count, v)`.
unfoldable pub fill_n : List ℕ → ℕ → ℕ → ℕ → List ℕ
fill_n [] start count v = []
fill_n (x ∷ xs) (suc start) count v = x ∷ fill_n xs start count v
fill_n (x ∷ xs) zero zero v = x ∷ xs
fill_n (x ∷ xs) zero (suc count) v = v ∷ fill_n xs zero count v

abbrev pub nb_dims : DmaDimConfig → Option ℕ → ℕ
nb_dims c none = c.max_nb_dims
nb_dims c (some n) = n

-- The vector that both `DmaDimConfig` methods fill, with a step in between.
unfoldable pub fill_limits : ℕ → ℕ → ℕ → ℕ → ℕ → (ℕ → List ℕ → List ℕ) → List ℕ
fill_limits n nb_intra nb_inter intra_value inter_value between =
    let intra = min nb_intra n in
    let intra_start = n - intra in
    let inter = min nb_inter intra_start in
    fill_n (between intra_start (fill_n (replicate n 0) intra_start intra intra_value))
      (intra_start - inter) inter inter_value

-- The outermost intra dimension has no limit.
abbrev pub unlimit : ℕ → ℕ → List ℕ → List ℕ
unlimit n intra_start xs = if ltb intra_start n then set xs intra_start int64_max else xs

unfoldable pub get_max_sizes : DmaDimConfig → Option ℕ → List ℕ
get_max_sizes c maybe_nb_dims =
    let n = nb_dims c maybe_nb_dims in
    if c.circular
    then replicate n c.wrap_max
    else fill_limits n c.nb_intra_dims c.nb_inter_dims c.wrap_max c.iter_wrap_max (unlimit n)

-- The limits plus one are `uint32_t`.
unfoldable pub get_max_strides : DmaDimConfig → Option ℕ → List ℕ
get_max_strides c maybe_nb_dims =
    let n = nb_dims c maybe_nb_dims in
    let intra = min c.nb_intra_dims n in
    if c.circular
    then fill_n (fill_n (replicate n 0) (n - intra) intra ((c.step_size_max + 1) % 2 ^ 32)) 0
        (n - intra) int64_max
    else fill_limits n c.nb_intra_dims c.nb_inter_dims ((c.step_size_max + 1) % 2 ^ 32)
        ((c.iter_step_size_max + 1) % 2 ^ 32) (λ start xs. xs)

unfoldable pub out_of_range : List ℤ → List ℕ → Bool
out_of_range [] max_values = false
out_of_range (v ∷ values) [] = false
out_of_range (v ∷ values) (m ∷ max_values) =
    ltb_ℤ v (pos 0) || ltb_ℤ (pos m) v || out_of_range values max_values

unfoldable pub any_out_of_range : List ℤ → List ℕ → ℕ → Bool
any_out_of_range values max_values begin = out_of_range values (drop begin max_values)

-- The dimensions, as pairs of a size and a stride, that are checked.
unfoldable pub checked : List (ℤ × ℤ) → List (ℤ × ℤ)
checked [] = []
checked ((size, stride) ∷ dims) =
    if not (eqb_ℤ size (pos 1)) && not (eqb_ℤ stride (pos 0))
    then (size, stride) ∷ checked dims
    else checked dims

-- The sizes and the strides of `isValidAccessPattern` are asserted to be equally many.
unfoldable pub is_valid_access_pattern : DmaDimConfig → List (ℤ × ℤ) → Bool
is_valid_access_pattern c dims =
    let n = length (checked dims) in
    let max_sizes = get_max_sizes c (some n) in
    let front_to_drop = length max_sizes - n in
    if any_out_of_range (map (λ d. d.0) (checked dims)) max_sizes front_to_drop
    then false
    else not (
        any_out_of_range (map (λ d. d.1) (checked dims)) (get_max_strides c (some n)) front_to_drop)
