-- ===== src/Amsel/Tiles.antt =====
-- AMSelGenerator of runtime/src/iree-amd-aie/aie_runtime/amsel_generator.cc: a generator for each
-- tile. The tiles stand in the order in which solve visits them, which the hash map does not fix.
use iree_amd_aie.Prelude.Result.{Result, ok, failure, fault, ◌>>=◌}
use iree_amd_aie.Prelude.{ℕ, Option, none, some, List, [], ◌∷◌, ◌++◌, if◌then◌else◌}
use iree_amd_aie.Amsel.{
  PhysPortAndId, lookup, TileAmSelGenerator, add_tile_connection, get_amsel, solve,
}
use iree_amd_aie.Router.{TileLoc, eq_tile}

abbrev pub AmSelGenerator : Type 0
AmSelGenerator = List (TileLoc × TileAmSelGenerator)

abbrev pub new_tile : ℕ → ℕ → TileAmSelGenerator
new_tile num_arbiters num_msels = record {
  num_arbiters = num_arbiters;
  num_msels = num_msels;
  dst_ports = [];
  dst_port_to_phys_port_and_id = [];
  src_to_dst_ports = [];
  dst_to_src_ports = [];
  ports_to_amsels = [];
}

unfoldable pub init_tile_if_not_exists : AmSelGenerator → TileLoc → ℕ → ℕ → AmSelGenerator
init_tile_if_not_exists tiles loc num_arbiters num_msels = elim (lookup eq_tile loc tiles) [
  | some g ↦ tiles
  | none ↦ tiles ++ ((loc, new_tile num_arbiters num_msels) ∷ [])
]

abbrev pub set_tile : TileLoc → TileAmSelGenerator → AmSelGenerator → AmSelGenerator
set_tile loc h [] = []
set_tile loc h ((l, g) ∷ tiles) =
    if eq_tile l loc then ((l, h) ∷ tiles) else (l, g) ∷ set_tile loc h tiles

unfoldable pub add_connection_on :
    AmSelGenerator → TileLoc → PhysPortAndId → List PhysPortAndId → Result AmSelGenerator
add_connection_on tiles loc src dsts = elim (lookup eq_tile loc tiles) [
  | none ↦ failure
  | some g ↦ ok (set_tile loc (add_tile_connection g src dsts) tiles)
]

unfoldable pub get_amsel_on : AmSelGenerator → TileLoc → PhysPortAndId → Option (ℕ × ℕ)
get_amsel_on tiles loc p = elim (lookup eq_tile loc tiles) [ none ↦ none | some g ↦ get_amsel g p ]

-- The rest of the tiles, after the first.
abbrev pub then_rest :
    TileLoc
    → Result TileAmSelGenerator
    → Option (Result AmSelGenerator)
    → Option (Result AmSelGenerator)
then_rest loc (ok g) (some rest) = some (rest >>= λ tiles. ok ((loc, g) ∷ tiles))
then_rest loc (ok g) none = none
then_rest loc failure rest = some failure
then_rest loc fault rest = some fault

-- `none` stands for too little fuel.
unfoldable pub solve_tiles : ℕ → AmSelGenerator → Option (Result AmSelGenerator)
solve_tiles fuel [] = some (ok [])
solve_tiles fuel ((loc, g) ∷ tiles) =
    let rest = solve_tiles fuel tiles in
    elim (solve fuel g) [ none ↦ none | some r ↦ then_rest loc r rest ]
