-- ===== src/Device.antt =====
-- runtime/src/iree-amd-aie/aie_runtime/iree_aie_runtime.cc: what the device model computes itself:
-- neighbouring memories, fields of addresses, headers of packets. The type of a tile and the
-- constants of the device come from the driver library and are parameters.
pub mod Affinity
pub mod Address
pub mod Header
mod Tests
use iree_amd_aie.Prelude.{
  ℕ, zero, suc, ◌+◌, ◌-◌, ◌*◌, ◌/◌, ◌%◌, ◌^◌, Bool, true, false, not, ◌&&◌, ◌||◌, Option, none,
  some, List, [], ◌∷◌, ltb, leb, ◌==◌, if◌then◌else◌,
}
use Prim.Native.Nat.{bit_or}

pub data TileType : Type 0 where
  aie_tile shim_noc shim_pl mem_tile max_type : TileType

pub record TileLoc : Type 0 where
  pub col : ℕ
  pub row : ℕ

abbrev pub is_mem_type : TileType → Bool
is_mem_type mem_tile = true
is_mem_type _ = false

abbrev pub is_max_type : TileType → Bool
is_max_type max_type = true
is_max_type _ = false

unfoldable pub is_same : TileLoc → TileLoc → Bool
is_same src dst = (src.col == dst.col) && (src.row == dst.row)

unfoldable pub is_west : TileLoc → TileLoc → Bool
is_west src dst = (src.col == dst.col + 1) && (src.row == dst.row)

-- `srcCol == dstCol - 1` is computed in `int`: no column is west of column 0.
unfoldable pub is_east : TileLoc → TileLoc → Bool
is_east src dst = (src.col + 1 == dst.col) && (src.row == dst.row)

unfoldable pub is_north : TileLoc → TileLoc → Bool
is_north src dst = (src.col == dst.col) && (src.row + 1 == dst.row)

unfoldable pub is_south : TileLoc → TileLoc → Bool
is_south src dst = (src.col == dst.col) && (src.row == dst.row + 1)

abbrev pub unless_max : (TileLoc → TileType) → TileLoc → Option TileLoc
unless_max tile_type t = if is_max_type (tile_type t) then none else some t

module _ (rows : ℕ) (tile_type : TileLoc → TileType) where
  unfoldable pub get_mem_west : TileLoc → Option TileLoc
  get_mem_west src =
      if src.col == 0
      then none
      else unless_max tile_type (record { col = src.col - 1; row = src.row })

  unfoldable pub get_mem_east : TileLoc → Option TileLoc
  get_mem_east src = some src

  unfoldable pub get_mem_north : TileLoc → Option TileLoc
  get_mem_north src =
      if leb rows (src.row + 1)
      then none
      else unless_max tile_type (record { col = src.col; row = src.row + 1 })

  unfoldable pub get_mem_south : TileLoc → Option TileLoc
  get_mem_south src =
      let t : TileLoc = record { col = src.col; row = src.row - 1 } in
      if src.row == 0
      then none
      else if (t.row == 0) || is_max_type (tile_type t) || is_mem_type (tile_type t)
      then none
      else some t

  unfoldable pub has_legal_mem_affinity : TileLoc → TileLoc → Bool
  has_legal_mem_affinity core mem =
      if is_mem_type (tile_type core)
      then is_east core mem || is_same core mem || is_west core mem
      else (is_south core mem && not (is_mem_type (tile_type mem)))
        || is_north core mem
        || is_west core mem
        || is_same core mem

-- Addresses: `x >> n` is a quotient and `x & ((1 << n) - 1)` a remainder by a power of two.
module _ (column_shift row_shift : ℕ) where
  unfoldable pub get_column_from_address : ℕ → ℕ
  get_column_from_address address = address / 2 ^ column_shift % 2 ^ (column_shift - row_shift)

  unfoldable pub get_row_from_address : ℕ → ℕ
  get_row_from_address address = address / 2 ^ row_shift % 2 ^ (column_shift - row_shift)

  unfoldable pub get_offset_from_address : ℕ → ℕ
  get_offset_from_address address = address % 2 ^ row_shift

-- `llvm::popcount`, over the lowest `n` bits.
unfoldable pub popcount : ℕ → ℕ → ℕ
popcount zero w = 0
popcount (suc n) w = w % 2 + popcount n (w / 2)

-- The two operands of the last `|` share no bit: it is a sum.
unfoldable pub set_odd_parity_bit : ℕ → ℕ
set_odd_parity_bit word =
    let lower31_bits = word % 2 ^ 31 in (popcount 31 lower31_bits + 1) % 2 * 2 ^ 31 + lower31_bits

-- `x << n` on `uint32_t`.
abbrev pub shift_left : ℕ → ℕ → ℕ
shift_left x n = x * 2 ^ n % 2 ^ 32

-- The constants of a device.
pub record Formats : Type 0 where
  pub rows : ℕ
  pub columns : ℕ
  pub packet_id_max_idx : ℕ
  pub packet_type_max : ℕ
  pub src_col_shift : ℕ
  pub src_row_shift : ℕ
  pub packet_type_shift : ℕ
  pub packet_stream_id_shift : ℕ
  pub stream_id_shift : ℕ
  pub operation_shift : ℕ
  pub beat_shift : ℕ
  pub address_shift : ℕ

unfoldable pub get_packet_header : Formats → ℕ → ℕ → ℕ → ℕ → Option ℕ
get_packet_header f stream_id packet_type src_row src_col =
    if leb f.rows src_row || leb f.columns src_col
    then none
    else if ltb f.packet_id_max_idx stream_id
    then none
    else if ltb f.packet_type_max packet_type
    then none
    else some (
        set_odd_parity_bit (
          bit_or
            (bit_or
              (bit_or (shift_left src_col f.src_col_shift) (shift_left src_row f.src_row_shift))
              (shift_left packet_type f.packet_type_shift))
            (shift_left stream_id f.packet_stream_id_shift)))

abbrev pub get_ctrl_pkt_max_address : Formats → ℕ
get_ctrl_pkt_max_address f = 2 ^ (f.beat_shift - f.address_shift) - 1

abbrev pub get_ctrl_pkt_max_length : Formats → ℕ
get_ctrl_pkt_max_length f = 2 ^ (f.operation_shift - f.beat_shift)

abbrev pub get_ctrl_pkt_max_opcode : Formats → ℕ
get_ctrl_pkt_max_opcode f = 2 ^ (f.stream_id_shift - f.operation_shift) - 1

unfoldable pub get_control_header : Formats → ℕ → ℕ → ℕ → ℕ → Option ℕ
get_control_header f address len opcode stream_id =
    if ltb (get_ctrl_pkt_max_address f) address
    then none
    else if ltb (get_ctrl_pkt_max_length f) len || (len == 0)
    then none
    else if ltb (get_ctrl_pkt_max_opcode f) opcode
    then none
    else if ltb f.packet_id_max_idx stream_id
    then none
    else some (
        set_odd_parity_bit (
          bit_or
            (bit_or
              (bit_or (shift_left stream_id f.stream_id_shift)
                (shift_left opcode f.operation_shift))
              (shift_left (len - 1) f.beat_shift))
            (shift_left address f.address_shift)))

-- `std::iota`.
abbrev pub iota : ℕ → ℕ → List ℕ
iota zero start = []
iota (suc n) start = start ∷ iota n (start + 1)

-- `none` is a fatal error; a channel that is not in the map has no list.
unfoldable pub get_channel_to_valid_bd_ids : TileType → Option (ℕ → Option (List ℕ))
get_channel_to_valid_bd_ids mem_tile = some (λ channel.
    if ltb channel 6
    then if channel % 2 == 0 then some (iota 24 0) else some (iota 24 24)
    else none)
get_channel_to_valid_bd_ids shim_noc =
    some (λ channel. if ltb channel 2 then some (iota 16 0) else none)
get_channel_to_valid_bd_ids _ = none
