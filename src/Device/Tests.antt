-- ===== src/Device/Tests.antt =====
-- The theorems on the device model at a concrete device.
use iree_amd_aie.Prelude.{
  ℕ, zero, suc, ◌≡◌, ◌≢◌, refl, ◌↔◌, inr, true, none, some, arith, ℕ_discrete,
}
use iree_amd_aie.Device.{
  TileType, aie_tile, shim_noc, mem_tile, TileLoc, get_mem_south, has_legal_mem_affinity,
  get_column_from_address, get_row_from_address, get_offset_from_address, Formats,
  get_packet_header, get_control_header,
}
use iree_amd_aie.Device.Affinity.{get_mem-has_legal_mem_affinity}
use iree_amd_aie.Device.Address.{address_of, address_of-fields}
use iree_amd_aie.Device.Header.{
  IsOdd, InControlRange, InPacketRange, get_packet_header_lem, get_control_header_lem,
}

abbrev type_in_row : ℕ → TileType
type_in_row zero = shim_noc
type_in_row (suc zero) = mem_tile
type_in_row (suc (suc row)) = aie_tile

abbrev npu : TileLoc → TileType
npu t = type_in_row t.row

abbrev tile : ℕ → ℕ → TileLoc
tile col row = record { col = col; row = row }

memory_south : get_mem_south 6 npu (tile 1 3) ≡ some (tile 1 2)
unfolding get_mem_south ℕ_discrete
memory_south = refl

memory_tile_south : get_mem_south 6 npu (tile 1 2) ≡ none
unfolding get_mem_south ℕ_discrete
memory_tile_south = refl

get_mem-has_legal_mem_affinity_example : has_legal_mem_affinity 6 npu (tile 1 3) (tile 1 2) ≡ true
get_mem-has_legal_mem_affinity_example =
    get_mem-has_legal_mem_affinity 6 npu (tile 1 3) (tile 1 2) refl (inr (inr memory_south))

address_of-fields_example :
    (get_column_from_address 25 20 (address_of 25 20 3 2 4096) ≡ 3)
    × (get_row_from_address 25 20 (address_of 25 20 3 2 4096) ≡ 2)
    × (get_offset_from_address 25 20 (address_of 25 20 3 2 4096) ≡ 4096)
address_of-fields_example =
    address_of-fields 25 20 3 2 4096 (omega arith) (omega arith) (omega arith) (omega arith)

abbrev formats : Formats
formats = record {
  rows = 6;
  columns = 5;
  packet_id_max_idx = 31;
  packet_type_max = 7;
  src_col_shift = 21;
  src_row_shift = 16;
  packet_type_shift = 12;
  packet_stream_id_shift = 0;
  stream_id_shift = 24;
  operation_shift = 22;
  beat_shift = 20;
  address_shift = 0;
}

get_packet_header_lem_example :
    ((get_packet_header formats 1 0 2 3 ≢ none) ↔ InPacketRange formats 1 0 2 3)
    × IsOdd (get_packet_header formats 1 0 2 3)
get_packet_header_lem_example = get_packet_header_lem formats 1 0 2 3

get_control_header_lem_example :
    ((get_control_header formats 1024 4 0 5 ≢ none) ↔ InControlRange formats 1024 4 0 5)
    × IsOdd (get_control_header formats 1024 4 0 5)
get_control_header_lem_example = get_control_header_lem formats 1024 4 0 5
