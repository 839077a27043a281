-- ===== src/Device/Affinity.antt =====
-- The neighbours that the device model finds, against its test of memory affinity.
use mathlib.Core.Path.{subst}
use mathlib.Core.Option.{some_inj}
use iree_amd_aie.Prelude.{
  ℕ, ◌+◌, ◌-◌, ◌≡◌, ◌⊎◌, refl, true, false, not, ◌&&◌, ◌||◌, Bool-cases, inl, inr, some, arith, leb,
  ◌==◌, ==_iff,
}
use iree_amd_aie.Device.{
  TileType, TileLoc, is_mem_type, is_max_type, is_same, is_west, is_north, is_south, unless_max,
  get_mem_west, get_mem_east, get_mem_north, get_mem_south, has_legal_mem_affinity,
}

unless_max-some :
    (tile_type : TileLoc → TileType) (t mem : TileLoc) → unless_max tile_type t ≡ some mem → t ≡ mem
unless_max-some tile_type t mem h = elim (Bool-cases (is_max_type (tile_type t))) [
  | inl e ↦ ground (arith, h, e)
  | inr e ↦ ground (arith, h, e)
]

==_refl : (n : ℕ) → n == n ≡ true
==_refl n = (==_iff n n).1 refl

module _ (rows : ℕ) (tile_type : TileLoc → TileType) where
  west :
      (core mem : TileLoc) → get_mem_west rows tile_type core ≡ some mem → is_west core mem ≡ true
  unfolding get_mem_west is_west
  west core mem h = elim (Bool-cases (core.col == 0)) [
    | inl e ↦ ground (arith, h, e)
    | inr e ↦
        subst (λ t. is_west core t ≡ true)
          (unless_max-some tile_type (record { col = core.col - 1; row = core.row }) mem
            (ground (arith, h, e)))
          (ground (arith, ==_refl core.row))
  ]

  east :
      (core mem : TileLoc) → get_mem_east rows tile_type core ≡ some mem → is_same core mem ≡ true
  unfolding get_mem_east is_same
  east core mem h =
      subst (λ t. is_same core t ≡ true) (some_inj.0 h)
        (ground (arith, ==_refl core.row, ==_refl core.col))

  north :
      (core mem : TileLoc) → get_mem_north rows tile_type core ≡ some mem → is_north core mem ≡ true
  unfolding get_mem_north is_north
  north core mem h = elim (Bool-cases (leb rows (core.row + 1))) [
    | inl e ↦ ground (arith, h, e)
    | inr e ↦
        subst (λ t. is_north core t ≡ true)
          (unless_max-some tile_type (record { col = core.col; row = core.row + 1 }) mem
            (ground (arith, h, e)))
          (ground (arith, ==_refl core.col))
  ]

  south :
      (core mem : TileLoc)
      → get_mem_south rows tile_type core ≡ some mem
      → (is_south core mem && not (is_mem_type (tile_type mem))) ≡ true
  unfolding get_mem_south is_south
  south core mem h = elim (Bool-cases (core.row == 0)) [
    | inl e ↦ ground (arith, h, e)
    | inr e ↦
        elim (Bool-cases ((t.row == 0) || is_max_type (tile_type t) || is_mem_type (tile_type t))) [
          | inl u ↦ ground (arith, h, e, u)
          | inr u ↦
              subst (λ q. (is_south core q && not (is_mem_type (tile_type q))) ≡ true)
                (some_inj.0 (some_t (ground (arith, h, e, u)))) (ground (arith, ==_refl core.col))
        ]
  ]
    where
      t : TileLoc
      t = record { col = core.col; row = core.row - 1 }

      some_t : some t ≡ some mem → some t ≡ some mem
      some_t q = q

  -- Every memory that getMemWest, getMemEast, getMemNorth or getMemSouth finds for a tile that is
  -- not a memory tile is one that the tile has legal affinity to.
  pub get_mem-has_legal_mem_affinity :
      (core mem : TileLoc)
      → is_mem_type (tile_type core) ≡ false
      → ((get_mem_west rows tile_type core ≡ some mem)
          ⊎ (get_mem_east rows tile_type core ≡ some mem))
        ⊎ ((get_mem_north rows tile_type core ≡ some mem)
            ⊎ (get_mem_south rows tile_type core ≡ some mem))
      → has_legal_mem_affinity rows tile_type core mem ≡ true
  unfolding has_legal_mem_affinity
  get_mem-has_legal_mem_affinity core mem c (inl (inl h)) = ground (arith, c, west core mem h)
  get_mem-has_legal_mem_affinity core mem c (inl (inr h)) = ground (arith, c, east core mem h)
  get_mem-has_legal_mem_affinity core mem c (inr (inl h)) = ground (arith, c, north core mem h)
  get_mem-has_legal_mem_affinity core mem c (inr (inr h)) = ground (arith, c, south core mem h)
