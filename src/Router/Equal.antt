-- ===== src/Router/Equal.antt =====
-- The equality tests of ports and tiles.
use mathlib.Core.Path.{ap₂}
use iree_amd_aie.Prelude.{◌≡◌, refl, ap, Bool, true, ◌&&◌, ==_iff, and_left, and_right}
use iree_amd_aie.Prelude.IntRing.{eqb_ℤ, eqb_ℤ-eq, eqb_ℤ-refl}
use iree_amd_aie.Router.{
  StrmSwPortType, north, south, east, west, other, eq_bundle, TileLoc, eq_tile, Port, eq_port,
  PhysPort, eq_phys_port,
}

eq_bundle-eq : (a b : StrmSwPortType) → eq_bundle a b ≡ true → a ≡ b
eq_bundle-eq north north h = refl
eq_bundle-eq south south h = refl
eq_bundle-eq east east h = refl
eq_bundle-eq west west h = refl
eq_bundle-eq (other a) (other b) h = ap other ((==_iff a b).0 h)
eq_bundle-eq north south h = cc
eq_bundle-eq north east h = cc
eq_bundle-eq north west h = cc
eq_bundle-eq north (other b) h = cc
eq_bundle-eq south north h = cc
eq_bundle-eq south east h = cc
eq_bundle-eq south west h = cc
eq_bundle-eq south (other b) h = cc
eq_bundle-eq east north h = cc
eq_bundle-eq east south h = cc
eq_bundle-eq east west h = cc
eq_bundle-eq east (other b) h = cc
eq_bundle-eq west north h = cc
eq_bundle-eq west south h = cc
eq_bundle-eq west east h = cc
eq_bundle-eq west (other b) h = cc
eq_bundle-eq (other a) north h = cc
eq_bundle-eq (other a) south h = cc
eq_bundle-eq (other a) east h = cc
eq_bundle-eq (other a) west h = cc

eq_bundle_refl : (a : StrmSwPortType) → eq_bundle a a ≡ true
eq_bundle_refl north = refl
eq_bundle_refl south = refl
eq_bundle_refl east = refl
eq_bundle_refl west = refl
eq_bundle_refl (other a) = (==_iff a a).1 refl

both : (a b : Bool) → a ≡ true → b ≡ true → a && b ≡ true
both a b p q = rw (p, q) refl

pub eq_port-eq : (a b : Port) → eq_port a b ≡ true → a ≡ b
eq_port-eq a b h =
    ap₂ (λ x y. record { bundle = x; channel = y })
      (eq_bundle-eq a.bundle b.bundle (and_left _ _ h))
      ((==_iff a.channel b.channel).0 (and_right (eq_bundle a.bundle b.bundle) _ h))

pub eq_port_refl : (a : Port) → eq_port a a ≡ true
eq_port_refl a = both _ _ (eq_bundle_refl a.bundle) ((==_iff a.channel a.channel).1 refl)

pub eq_tile-eq : (a b : TileLoc) → eq_tile a b ≡ true → a ≡ b
eq_tile-eq a b h =
    ap₂ (λ x y. record { col = x; row = y }) (eqb_ℤ-eq a.col b.col (and_left _ _ h))
      (eqb_ℤ-eq a.row b.row (and_right (eqb_ℤ a.col b.col) _ h))

pub eq_tile_refl : (a : TileLoc) → eq_tile a a ≡ true
eq_tile_refl a = both _ _ (eqb_ℤ-refl a.col) (eqb_ℤ-refl a.row)

pub eq_phys_port-eq : (a b : PhysPort) → eq_phys_port a b ≡ true → a ≡ b
eq_phys_port-eq a b h =
    ap₂ (λ x y. record { tile_loc = x; port = y })
      (eq_tile-eq a.tile_loc b.tile_loc (and_left _ _ h))
      (eq_port-eq a.port b.port (and_right (eq_tile a.tile_loc b.tile_loc) _ h))

pub eq_phys_port_refl : (a : PhysPort) → eq_phys_port a a ≡ true
eq_phys_port_refl a = both _ _ (eq_tile_refl a.tile_loc) (eq_port_refl a.port)
