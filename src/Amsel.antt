-- ===== src/Amsel.antt =====
-- runtime/src/iree-amd-aie/aie_runtime/amsel_generator.h and .cpp: arbiters and master selects for
-- the packet flows of a tile. A port is a number. A hash map is a list of entries, the newest first;
-- every lookup by `at` is of a key that was added before, and an absent list is empty.
pub mod Shared
pub mod Fuel
pub mod Solve
pub mod Runs
pub mod Tiles
mod Tests
use iree_amd_aie.Prelude.Result.{Result, ok, failure, fault, ◌>>=◌}
use iree_amd_aie.Prelude.{
  ℕ, zero, suc, ◌+◌, Bool, true, false, not, ◌&&◌, ◌||◌, Option, none, some, List, [], ◌∷◌, ◌++◌,
  map, ltb, leb, ◌==◌, if◌then◌else◌, length, mem,
}

-- `PhysPortAndID`: its port, and the rest (tile, direction and packet id) as a number.
pub record PhysPortAndId : Type 0 where
  pub port : ℕ
  pub rest : ℕ

abbrev pub eq_port : PhysPortAndId → PhysPortAndId → Bool
eq_port p q = (p.port == q.port) && (p.rest == q.rest)

abbrev pub eq_list : List ℕ → List ℕ → Bool
eq_list [] [] = true
eq_list (x ∷ xs) (y ∷ ys) = (x == y) && eq_list xs ys
eq_list _ _ = false

abbrev pub lookup {ℓ κ} : {A : Type ℓ} {B : Type κ} → (A → A → Bool) → A → List (A × B) → Option B
lookup eq k [] = none
lookup eq k ((j, v) ∷ entries) = if eq j k then some v else lookup eq k entries

abbrev pub list_at {ℓ κ} :
    {A : Type ℓ} {B : Type κ} → (A → A → Bool) → A → List (A × List B) → List B
list_at eq k entries = elim (lookup eq k entries) [ none ↦ [] | some l ↦ l ]

abbrev pub ports_of : List PhysPortAndId → List ℕ
ports_of = map (λ p. p.port)

pub record MSelGenerator : Type 0 where
  pub num_msels : ℕ
  pub cur_msel : ℕ
  pub src_phys_port_and_ids : List PhysPortAndId
  pub connection_to_msel : List (List ℕ × ℕ)
  pub phys_port_to_connection : List (PhysPortAndId × List ℕ)

abbrev pub init : ℕ → MSelGenerator
init num_msels = record {
  num_msels = num_msels;
  cur_msel = 0;
  src_phys_port_and_ids = [];
  connection_to_msel = [];
  phys_port_to_connection = [];
}

-- The end of `addConnection`, with the counter and the map as they are then.
abbrev pub connect : MSelGenerator → PhysPortAndId → List ℕ → ℕ → List (List ℕ × ℕ) → MSelGenerator
connect g src dst_ports cur entries = record g {
  cur_msel = cur;
  connection_to_msel = entries;
  phys_port_to_connection = (src, dst_ports) ∷ g.phys_port_to_connection;
  src_phys_port_and_ids = g.src_phys_port_and_ids ++ (src ∷ []);
}

-- The counter stays at most `num_msels`, so that it does not wrap.
unfoldable pub add_connection :
    MSelGenerator → PhysPortAndId → List PhysPortAndId → Result MSelGenerator
add_connection g src dsts = elim (lookup eq_list (ports_of dsts) g.connection_to_msel) [
  | some m ↦ ok (connect g src (ports_of dsts) g.cur_msel g.connection_to_msel)
  | none ↦
      if leb g.num_msels g.cur_msel
      then failure
      else ok (
          connect g src (ports_of dsts) (g.cur_msel + 1)
            ((ports_of dsts, g.cur_msel) ∷ g.connection_to_msel))
]

-- The sources with their destinations.
unfoldable pub add_connections :
    MSelGenerator → List (PhysPortAndId × List PhysPortAndId) → Result MSelGenerator
add_connections g [] = ok g
add_connections g ((src, dsts) ∷ connections) =
    add_connection g src dsts >>= λ h. add_connections h connections

-- The loop over the connections, with the `uint8_t` that counts; it is asserted to be below its
-- greatest value before each round.
unfoldable pub count_msels :
    MSelGenerator → ℕ → List (PhysPortAndId × List PhysPortAndId) → Result ℕ
count_msels g needed [] = ok needed
count_msels g needed ((src, dsts) ∷ connections) =
    let rest =
      count_msels g
        (elim (lookup eq_list (ports_of dsts) g.connection_to_msel) [
          | none ↦ needed + 1
          | some m ↦ needed
        ])
        connections in
    if ltb needed 255 then rest else fault

unfoldable pub get_num_msels_for_connections :
    MSelGenerator → List (PhysPortAndId × List PhysPortAndId) → Result ℕ
get_num_msels_for_connections g connections = count_msels g 0 connections

unfoldable pub get_msel : MSelGenerator → PhysPortAndId → Option ℕ
get_msel g p = elim (lookup eq_port p g.phys_port_to_connection) [
  | none ↦ none
  | some key ↦ lookup eq_list key g.connection_to_msel
]

-- A missing msel is asserted away.
unfoldable pub get_phys_port_msels :
    MSelGenerator → List PhysPortAndId → Result (List (PhysPortAndId × ℕ))
get_phys_port_msels g [] = ok []
get_phys_port_msels g (p ∷ ports) = elim (get_msel g p) [
  | none ↦ fault
  | some m ↦ get_phys_port_msels g ports >>= λ res. ok ((p, m) ∷ res)
]

pub record TileAmSelGenerator : Type 0 where
  pub num_arbiters : ℕ
  pub num_msels : ℕ
  pub dst_ports : List ℕ
  pub dst_port_to_phys_port_and_id : List (ℕ × List PhysPortAndId)
  pub src_to_dst_ports : List (PhysPortAndId × List PhysPortAndId)
  pub dst_to_src_ports : List (PhysPortAndId × List PhysPortAndId)
  pub ports_to_amsels : List (PhysPortAndId × (ℕ × ℕ))

abbrev pub eq_ℕ : ℕ → ℕ → Bool
eq_ℕ a b = a == b

-- The loop over the destinations.
unfoldable pub add_destinations :
    TileAmSelGenerator → PhysPortAndId → List PhysPortAndId → TileAmSelGenerator
add_destinations g src [] = g
add_destinations g src (dst ∷ dsts) =
    add_destinations
      (record g {
        dst_to_src_ports =
            (dst, list_at eq_port dst g.dst_to_src_ports ++ (src ∷ [])) ∷ g.dst_to_src_ports;
        dst_port_to_phys_port_and_id =
            (dst.port, list_at eq_ℕ dst.port g.dst_port_to_phys_port_and_id ++ (dst ∷ []))
            ∷ g.dst_port_to_phys_port_and_id;
        dst_ports = g.dst_ports ++ (dst.port ∷ []);
      })
      src dsts

unfoldable pub add_tile_connection :
    TileAmSelGenerator → PhysPortAndId → List PhysPortAndId → TileAmSelGenerator
add_tile_connection g src dsts =
    add_destinations
      (record g {
        src_to_dst_ports =
            (src, list_at eq_port src g.src_to_dst_ports ++ dsts) ∷ g.src_to_dst_ports;
      })
      src dsts

unfoldable pub get_amsel : TileAmSelGenerator → PhysPortAndId → Option (ℕ × ℕ)
get_amsel g p = lookup eq_port p g.ports_to_amsels

-- What the search for groups has visited.
pub record Visited : Type 0 where
  pub phys_ports : List PhysPortAndId
  pub ports : List ℕ

abbrev pub contains_port : PhysPortAndId → List PhysPortAndId → Bool
contains_port p [] = false
contains_port p (q ∷ ports) = eq_port q p || contains_port p ports

abbrev pub sources_of : TileAmSelGenerator → List PhysPortAndId → List PhysPortAndId
sources_of g [] = []
sources_of g (p ∷ ports) = list_at eq_port p g.dst_to_src_ports ++ sources_of g ports

abbrev pub is_source : TileAmSelGenerator → PhysPortAndId → Bool
is_source g p = elim (lookup eq_port p g.src_to_dst_ports) [ none ↦ false | some l ↦ true ]

-- The `while` loop over the queue, on fuel: the group that it collects.
unfoldable pub collect :
    ℕ
    → TileAmSelGenerator
    → List PhysPortAndId
    → List PhysPortAndId
    → Visited
    → Option (List PhysPortAndId × Visited)
collect fuel g [] group v = some (group, v)
collect zero g (p ∷ q) group v = none
collect (suc fuel) g (p ∷ q) group v =
    let w = record v { phys_ports = p ∷ v.phys_ports } in
    let phys = list_at eq_ℕ p.port g.dst_port_to_phys_port_and_id in
    let skipped = collect fuel g q group v in
    let from_source =
      collect fuel g (q ++ list_at eq_port p g.src_to_dst_ports) (group ++ (p ∷ [])) w in
    let passed = collect fuel g q group w in
    let from_port =
      collect fuel g (q ++ phys ++ sources_of g phys) group
        (record w { ports = p.port ∷ w.ports }) in
    if contains_port p v.phys_ports
    then skipped
    else if is_source g p
    then from_source
    else if mem p.port w.ports
    then passed
    else from_port

-- The loop over the destination ports.
unfoldable pub port_groups :
    ℕ → TileAmSelGenerator → List ℕ → Visited → Option (List (List PhysPortAndId))
port_groups fuel g [] v = some []
port_groups fuel g (port ∷ ports) v =
    if mem port v.ports
    then port_groups fuel g ports v
    else elim (collect fuel g (list_at eq_ℕ port g.dst_port_to_phys_port_and_id) [] v) [
      | none ↦ none
      | some (group, w) ↦ elim (port_groups fuel g ports w) [
        | none ↦ none
        | some groups ↦ some (group ∷ groups)
      ]
    ]

-- The first arbiter that the connections can be merged into.
unfoldable pub merge_group :
    ℕ → List MSelGenerator → List (PhysPortAndId × List PhysPortAndId) → Result (List MSelGenerator)
merge_group num_msels [] connections = failure
merge_group num_msels (m ∷ arbiters) connections =
    let rest = merge_group num_msels arbiters connections in
    get_num_msels_for_connections m connections >>= λ needed.
    if ltb (m.cur_msel + needed) num_msels
    then (add_connections m connections >>= λ h. ok (h ∷ arbiters))
    else rest >>= λ hs. ok (m ∷ hs)

-- The arbiters in the order of their indices.
unfoldable pub assign_groups :
    TileAmSelGenerator
    → List (List PhysPortAndId)
    → List MSelGenerator
    → Result (List MSelGenerator)
assign_groups g [] arbiters = ok arbiters
assign_groups g (group ∷ groups) arbiters =
    let connections = map (λ src. (src, list_at eq_port src g.src_to_dst_ports)) group in
    if ltb (length arbiters) g.num_arbiters
    then (add_connections (init g.num_msels) connections >>= λ m.
        assign_groups g groups (arbiters ++ (m ∷ [])))
    else merge_group g.num_msels arbiters connections >>= λ hs. assign_groups g groups hs

unfoldable pub collect_amsels :
    ℕ
    → List MSelGenerator
    → List (PhysPortAndId × (ℕ × ℕ))
    → Result (List (PhysPortAndId × (ℕ × ℕ)))
collect_amsels arbiter [] res = ok res
collect_amsels arbiter (m ∷ arbiters) res =
    get_phys_port_msels m m.src_phys_port_and_ids >>= λ ports.
    collect_amsels (arbiter + 1) arbiters (map (λ e. (e.0, (arbiter, e.1))) ports ++ res)

-- `none` stands for too little fuel.
unfoldable pub solve : ℕ → TileAmSelGenerator → Option (Result TileAmSelGenerator)
solve fuel g = elim (port_groups fuel g g.dst_ports (record { phys_ports = []; ports = [] })) [
  | none ↦ none
  | some groups ↦ some (
      assign_groups g groups [] >>= λ arbiters.
      collect_amsels 0 arbiters [] >>= λ res. ok (record g { ports_to_amsels = res }))
]
