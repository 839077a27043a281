-- ===== src/Router.antt =====
-- runtime/src/iree-amd-aie/aie_runtime/iree_aie_router.cc: the flows that the router is given, and the
-- check that its switch settings lead from a source to a destination.
pub mod Equal
pub mod Path
pub mod Flow
mod Tests
use iree_amd_aie.Prelude.{ℕ, zero, suc, Bool, true, false, ◌&&◌, ◌==◌}
use iree_amd_aie.Prelude.Int.{ℤ}
use iree_amd_aie.Prelude.IntRing.{eqb_ℤ}

-- `StrmSwPortType`: the bundles to the neighbours, and the others by their number.
pub data StrmSwPortType : Type 0 where
  north south east west : StrmSwPortType
  other : ℕ → StrmSwPortType

abbrev pub eq_bundle : StrmSwPortType → StrmSwPortType → Bool
eq_bundle north north = true
eq_bundle south south = true
eq_bundle east east = true
eq_bundle west west = true
eq_bundle (other a) (other b) = a == b
eq_bundle _ _ = false

pub record TileLoc : Type 0 where
  pub col : ℤ
  pub row : ℤ

abbrev pub eq_tile : TileLoc → TileLoc → Bool
eq_tile a b = eqb_ℤ a.col b.col && eqb_ℤ a.row b.row

pub record Port : Type 0 where
  pub bundle : StrmSwPortType
  pub channel : ℕ

abbrev pub eq_port : Port → Port → Bool
eq_port a b = eq_bundle a.bundle b.bundle && (a.channel == b.channel)

-- A port of a tile.
pub record PhysPort : Type 0 where
  pub tile_loc : TileLoc
  pub port : Port

abbrev pub eq_phys_port : PhysPort → PhysPort → Bool
eq_phys_port a b = eq_tile a.tile_loc b.tile_loc && eq_port a.port b.port
