-- ===== src/Amsel/Tests.antt =====
-- The theorems on master selects at a concrete switch.
use iree_amd_aie.Prelude.Result.{Result, ok, failure, fault, Ensures}
use iree_amd_aie.Prelude.{
  ℕ, ◌+◌, ◌<◌, ◌≤◌, ◌≡◌, refl, sym, ◌∙◌, ◌↔◌, Option, none, some, List, [], ◌∷◌, arith, ==_iff,
  ℕ_discrete, dec_lt,
}
use iree_amd_aie.Amsel.{
  PhysPortAndId, lookup, eq_list, MSelGenerator, init, add_connection, add_connections, get_msel,
  get_phys_port_msels, TileAmSelGenerator, add_destinations, add_tile_connection, get_amsel,
  collect, port_groups, merge_group, assign_groups, collect_amsels, solve,
  get_num_msels_for_connections, count_msels,
}
use iree_amd_aie.Amsel.Shared.{IsValid, Connected, add_connection-Connected}
use iree_amd_aie.Amsel.Runs.{add_connections-shared}
use iree_amd_aie.Amsel.Fuel.{work}
use iree_amd_aie.Amsel.Tiles.{
  AmSelGenerator, init_tile_if_not_exists, add_connection_on, get_amsel_on, solve_tiles,
}
use iree_amd_aie.Amsel.Solve.{not_visited, IsInRange, solve-IsInRange}
use iree_amd_aie.Router.{TileLoc}
use iree_amd_aie.Prelude.Int.{pos}
use iree_amd_aie.Prelude.IntRing.{eqb_ℤ}

abbrev port : ℕ → ℕ → PhysPortAndId
port p rest = record { port = p; rest = rest }

-- Sources 8 and 9 go to port 1.
abbrev connected : MSelGenerator
connected = record {
  num_msels = 4;
  cur_msel = 1;
  src_phys_port_and_ids = port 8 0 ∷ port 9 0 ∷ [];
  connection_to_msel = (1 ∷ [], 0) ∷ [];
  phys_port_to_connection = (port 9 0, 1 ∷ []) ∷ (port 8 0, 1 ∷ []) ∷ [];
}

two_sources :
    add_connections (init 4) ((port 8 0, port 1 5 ∷ []) ∷ (port 9 0, port 1 6 ∷ []) ∷ [])
    ≡ ok connected
unfolding add_connections add_connection ℕ_discrete dec_lt
two_sources = refl

connected-IsValid : IsValid connected
connected-IsValid = record {
  counter = omega arith;
  bound = λ k m h. below k m h;
  unshared = λ k l m h j. same k l m h j;
}
  where
    below : (k : List ℕ) (m : ℕ) → lookup eq_list k ((1 ∷ [], 0) ∷ []) ≡ some m → m < 1
    below [] m h = cc
    below (x ∷ []) m h = ground arith
    below (x ∷ y ∷ k) m h = ground arith

    same :
        (k l : List ℕ) (m : ℕ)
        → lookup eq_list k ((1 ∷ [], 0) ∷ []) ≡ some m
        → lookup eq_list l ((1 ∷ [], 0) ∷ []) ≡ some m
        → k ≡ l
    same k l m h j = only k m h ∙ sym (only l m j)
      where
        only : (q : List ℕ) (n : ℕ) → lookup eq_list q ((1 ∷ [], 0) ∷ []) ≡ some n → q ≡ 1 ∷ []
        only [] n e = cc
        only (x ∷ []) n e = ground (arith, ==_iff 1 x)
        only (x ∷ y ∷ q) n e = ground arith

add_connection-Connected_example :
    Ensures
      (λ h. IsValid h × Connected (port 7 0) (2 ∷ []) h)
      (add_connection connected (port 7 0) (port 2 5 ∷ []))
add_connection-Connected_example =
    add_connection-Connected connected (port 7 0) (port 2 5 ∷ []) connected-IsValid

add_connections-shared_example :
    (m : ℕ) × (get_msel connected (port 8 0) ≡ some m)
    × (m < 4)
    × ((get_msel connected (port 9 0) ≡ some m) ↔ (◌≡◌ {A = List ℕ} (1 ∷ []) (1 ∷ [])))
unfolding ℕ_discrete
add_connections-shared_example =
    add_connections-shared 4 ((port 8 0, port 1 5 ∷ []) ∷ (port 9 0, port 1 6 ∷ []) ∷ []) connected
      (port 8 0) (port 9 0) (1 ∷ []) (1 ∷ []) two_sources refl refl

abbrev selects : Result MSelGenerator → List (Option ℕ)
selects (ok g) = get_msel g (port 8 0) ∷ get_msel g (port 9 0) ∷ []
selects _ = []

-- The same two destination ports in another order take another select.
other_order :
    selects (
      add_connections
        (init 4)
        ((port 8 0, port 1 5 ∷ port 2 5 ∷ []) ∷ (port 9 0, port 2 6 ∷ port 1 6 ∷ []) ∷ []))
    ≡ some 0 ∷ some 1 ∷ []
unfolding add_connections add_connection get_msel ℕ_discrete dec_lt
other_order = refl

-- Two groups on two arbiters: the third source shares its destination with the first.
abbrev empty_tile : TileAmSelGenerator
empty_tile = record {
  num_arbiters = 2;
  num_msels = 4;
  dst_ports = [];
  dst_port_to_phys_port_and_id = [];
  src_to_dst_ports = [];
  dst_to_src_ports = [];
  ports_to_amsels = [];
}

abbrev tile : TileAmSelGenerator
tile =
    add_tile_connection
      (add_tile_connection (add_tile_connection empty_tile (port 7 0) (port 1 5 ∷ [])) (port 8 0)
        (port 2 5 ∷ []))
      (port 9 0) (port 1 6 ∷ port 3 6 ∷ [])

abbrev amsels_of : Option (Result TileAmSelGenerator) → List (Option (ℕ × ℕ))
amsels_of (some (ok g)) =
    get_amsel g (port 7 0) ∷ get_amsel g (port 8 0) ∷ get_amsel g (port 9 0) ∷ []
amsels_of _ = []

tile_solved : amsels_of (solve 20 tile) ≡ some (0, 0) ∷ some (1, 0) ∷ some (0, 1) ∷ []
unfolding solve port_groups collect assign_groups merge_group get_num_msels_for_connections
    count_msels add_connections add_connection collect_amsels get_phys_port_msels get_msel get_amsel
    add_tile_connection add_destinations ℕ_discrete dec_lt
tile_solved = refl

amount_for_tile : work tile not_visited ≡ 14
unfolding add_tile_connection add_destinations ℕ_discrete dec_lt
amount_for_tile = refl

enough_fuel : work tile not_visited + work tile not_visited ≤ 28
enough_fuel = rw amount_for_tile (omega arith)

solve-IsInRange_example :
    (r : Result TileAmSelGenerator) × (solve 28 tile ≡ some r) × Ensures (IsInRange tile) r
solve-IsInRange_example = solve-IsInRange 28 tile enough_fuel

abbrev loc : ℕ → ℕ → TileLoc
loc col row = record { col = pos col; row = pos row }

-- One of two tiles has a connection.
abbrev two_tiles : Result AmSelGenerator
two_tiles =
    add_connection_on
      (init_tile_if_not_exists (init_tile_if_not_exists [] (loc 0 1) 6 4) (loc 1 1) 6 4) (loc 1 1)
      (port 7 0) (port 1 5 ∷ [])

abbrev amsel_on : Result AmSelGenerator → Option (Option (ℕ × ℕ))
amsel_on (ok tiles) = elim (solve_tiles 20 tiles) [
  | none ↦ none
  | some r ↦ elim r [
    | ok solved ↦ some (get_amsel_on solved (loc 1 1) (port 7 0))
    | failure ↦ none
    | fault ↦ none
  ]
]
amsel_on _ = none

tiles_solved : amsel_on two_tiles ≡ some (some (0, 0))
unfolding solve port_groups collect assign_groups merge_group get_num_msels_for_connections
    count_msels add_connections add_connection collect_amsels get_phys_port_msels get_msel get_amsel
    add_tile_connection add_destinations solve_tiles get_amsel_on add_connection_on
    init_tile_if_not_exists ℕ_discrete dec_lt eqb_ℤ
tiles_solved = refl
