-- ===== src/Router/Path.antt =====
-- iree_aie_router.cc: existsPathToDest. A channel is a number, and the sources and the destinations of
-- a setting, asserted to be equally many, are pairs.
pub mod Wires
pub mod Reach
use iree_amd_aie.Prelude.{
  ℕ, zero, suc, Bool, true, false, not, ◌&&◌, ◌||◌, Option, none, some, List, [], ◌∷◌, ◌++◌,
  if◌then◌else◌,
}
use iree_amd_aie.Prelude.Int.{ℤ, pos, negsuc, ◌+ℤ◌, ◌-ℤ◌}
use iree_amd_aie.Prelude.IntRing.{eqb_ℤ}
use iree_amd_aie.Prelude.Result.{Result, ok, failure, fault, ◌>>=◌}
use iree_amd_aie.Router.{
  StrmSwPortType, north, south, east, west, other, TileLoc, eq_tile, Port, eq_port, PhysPort,
  eq_phys_port,
}

abbrev pub SwitchSettings : Type 0
SwitchSettings = List (TileLoc × List (Port × Port))

-- The assertion that no coordinate is -1.
abbrev pub checked : TileLoc → StrmSwPortType → ℕ → Result (Option PhysPort)
checked tile bundle channel =
    if eqb_ℤ tile.col (negsuc 0) || eqb_ℤ tile.row (negsuc 0)
    then fault
    else ok
        (some (record { tile_loc = tile; port = record { bundle = bundle; channel = channel } }))

-- The port of the neighbour that a destination port is wired to.
abbrev pub neighbour : TileLoc → StrmSwPortType → ℕ → Result (Option PhysPort)
neighbour t east c = checked (record t { col = t.col +ℤ pos 1 }) west c
neighbour t west c = checked (record t { col = t.col -ℤ pos 1 }) east c
neighbour t north c = checked (record t { row = t.row +ℤ pos 1 }) south c
neighbour t south c = checked (record t { row = t.row -ℤ pos 1 }) north c
neighbour t (other b) c = ok none

abbrev pub next : PhysPort → Result (Option PhysPort)
next p = neighbour p.tile_loc p.port.bundle p.port.channel

-- The destinations of a source in a setting, and in all settings of a tile, in the order of the loops.
unfoldable pub destinations_in : Port → List (Port × Port) → List Port
destinations_in src [] = []
destinations_in src ((s, d) ∷ connections) =
    let rest = destinations_in src connections in if eq_port s src then d ∷ rest else rest

unfoldable pub destinations_of : PhysPort → SwitchSettings → List Port
destinations_of src [] = []
destinations_of src ((tile, connections) ∷ settings) =
    let rest = destinations_of src settings in
    if eq_tile tile src.tile_loc then destinations_in src.port connections ++ rest else rest

-- The loops over the destinations, up to the first one that leads to the final port.
unfoldable pub any_path : (PhysPort → Result Bool) → TileLoc → List Port → Result Bool
any_path search tile [] = ok false
any_path search tile (p ∷ ports) = search (record { tile_loc = tile; port = p }) >>= λ found.
    if found then ok true else any_path search tile ports

-- The loops over the settings, for the wired port.
abbrev pub through : (PhysPort → Result Bool) → SwitchSettings → Option PhysPort → Result Bool
through search settings none = ok false
through search settings (some src) = any_path search src.tile_loc (destinations_of src settings)

-- `failure` stands for too little fuel: the source has no bound on its recursion.
unfoldable pub exists_path_to_dest : ℕ → SwitchSettings → PhysPort → PhysPort → Result Bool
exists_path_to_dest zero settings final curr = failure
exists_path_to_dest (suc fuel) settings final curr =
    if eq_phys_port curr final
    then ok true
    else next curr >>= through (exists_path_to_dest fuel settings final) settings
