-- ===== src/Amsel/Solve.antt =====
-- The solution of the generator of a tile: it is found, and its indices are in range.
use iree_amd_aie.Prelude.Result.{
  Result, ok, failure, fault, ◌>>=◌, Ensures, Ensures-if, Ensures-bind, Ensures-any,
}
use iree_amd_aie.Prelude.{
  ℕ, suc, ◌+◌, ◌≤◌, ◌<◌, ◌≡◌, refl, ap, ◌∙◌, true, Bool-cases, inl, inr, Option, none, some,
  Option-cases, List, [], ◌∷◌, ◌++◌, map, ltb, leb, if_elim, length, length-append, arith,
}
use iree_amd_aie.Amsel.{
  PhysPortAndId, eq_port, eq_list, lookup, list_at, ports_of, MSelGenerator, init, add_connection,
  add_connections, get_num_msels_for_connections, get_msel, get_phys_port_msels, TileAmSelGenerator,
  get_amsel, Visited, merge_group, assign_groups, collect_amsels, solve,
}
use iree_amd_aie.Amsel.Shared.{IsValid, Connected, add_connection-Connected}
use iree_amd_aie.Amsel.Fuel.{work, port_groups-returns}

-- A valid generator of n master selects.
abbrev pub IsSound : ℕ → MSelGenerator → Type 0
IsSound n m = IsValid m × (m.num_msels ≡ n)

abbrev pub AreSound : ℕ → List MSelGenerator → Type 0
AreSound n [] = Unit
AreSound n (m ∷ arbiters) = IsSound n m × AreSound n arbiters

AreSound-append :
    (n : ℕ) (ms : List MSelGenerator) (m : MSelGenerator)
    → AreSound n ms
    → IsSound n m
    → AreSound n (ms ++ (m ∷ []))
AreSound-append n [] m hs h = (h, tt)
AreSound-append n (x ∷ ms) m (hx, hs) h = (hx, AreSound-append n ms m hs h)

pub init-IsSound : (n : ℕ) → IsSound n (init n)
init-IsSound n =
    (record { counter = omega arith; bound = λ k m h. cc; unshared = λ k l m h j. cc }, refl)

pub add_connection-num_msels :
    (g : MSelGenerator) (src : PhysPortAndId) (dsts : List PhysPortAndId)
    → Ensures (λ h. h.num_msels ≡ g.num_msels) (add_connection g src dsts)
unfolding add_connection
add_connection-num_msels g src dsts =
    elim (Option-cases (lookup eq_list (ports_of dsts) g.connection_to_msel)) [
      | inr (m, e) ↦ rw (add_connection, e) refl
      | inl e ↦ elim (Bool-cases (leb g.num_msels g.cur_msel)) [
        | inl f ↦ rw (add_connection, e, f) tt
        | inr f ↦ rw (add_connection, e, f) refl
      ]
    ]

pub Ensures-both {ℓ κ κ'} :
    {A : Type ℓ} (P : A → Type κ) (Q : A → Type κ') (r : Result A)
    → Ensures P r
    → Ensures Q r
    → Ensures (λ a. P a × Q a) r
Ensures-both P Q (ok a) p q = (p, q)
Ensures-both P Q failure p q = tt
Ensures-both P Q fault p q = tt

add_connections-IsSound :
    (n : ℕ) (g : MSelGenerator) (connections : List (PhysPortAndId × List PhysPortAndId))
    → IsSound n g
    → Ensures (IsSound n) (add_connections g connections)
unfolding add_connections
add_connections-IsSound n g [] h = h
add_connections-IsSound n g ((src, dsts) ∷ connections) h =
    Ensures-bind (λ m. (IsValid m × Connected src (ports_of dsts) m) × (m.num_msels ≡ g.num_msels))
      (IsSound n) (add_connection g src dsts) (λ m. add_connections m connections)
      (Ensures-both _ _ (add_connection g src dsts) (add_connection-Connected g src dsts h.0)
        (add_connection-num_msels g src dsts))
      (λ m k. add_connections-IsSound n m connections (k.0.0, k.1 ∙ h.1))

merge_group-AreSound :
    (n num : ℕ) (ms : List MSelGenerator) (connections : List (PhysPortAndId × List PhysPortAndId))
    → AreSound n ms
    → Ensures (λ hs. AreSound n hs × (length hs ≡ length ms)) (merge_group num ms connections)
unfolding merge_group
merge_group-AreSound n num [] connections h = tt
merge_group-AreSound n num (m ∷ ms) connections (h, hs) =
    Ensures-bind (λ needed. Unit {0}) (Merged (m ∷ ms))
      (get_num_msels_for_connections m connections) _
      (Ensures-any (get_num_msels_for_connections m connections))
      (λ needed _.
        Ensures-if (Merged (m ∷ ms)) (ltb (m.cur_msel + needed) num) _ _
          (λ fits.
            Ensures-bind (IsSound n) (Merged (m ∷ ms)) (add_connections m connections)
              (λ x. ok (x ∷ ms)) (add_connections-IsSound n m connections h)
              (λ x k. ((k, hs), refl)))
          (λ full.
            Ensures-bind (Merged ms) (Merged (m ∷ ms)) (merge_group num ms connections)
              (λ ys. ok (m ∷ ys)) (merge_group-AreSound n num ms connections hs)
              (λ ys k. ((h, k.0), ap suc k.1))))
  where
    Merged : List MSelGenerator → List MSelGenerator → Type 0
    Merged xs ys = AreSound n ys × (length ys ≡ length xs)

-- A group takes a new arbiter while there is one.
assign_groups-AreSound :
    (g : TileAmSelGenerator) (groups : List (List PhysPortAndId)) (ms : List MSelGenerator)
    → AreSound g.num_msels ms
    → length ms ≤ g.num_arbiters
    → Ensures
        (λ hs. AreSound g.num_msels hs × (length hs ≤ g.num_arbiters))
        (assign_groups g groups ms)
unfolding assign_groups
assign_groups-AreSound g [] ms h bound = (h, bound)
assign_groups-AreSound g (group ∷ groups) ms h bound =
    let connections : List (PhysPortAndId × List PhysPortAndId) =
      map (λ src. (src, list_at eq_port src g.src_to_dst_ports)) group in
    Ensures-if _ (ltb (length ms) g.num_arbiters) _ _
      (λ room.
        Ensures-bind (IsSound g.num_msels) _ (add_connections (init g.num_msels) connections)
          (λ m. assign_groups g groups (ms ++ (m ∷ [])))
          (add_connections-IsSound g.num_msels (init g.num_msels) connections
            (init-IsSound g.num_msels))
          (λ m k.
            assign_groups-AreSound g groups (ms ++ (m ∷ [])) (AreSound-append g.num_msels ms m h k)
              (below m room)))
      (λ full.
        Ensures-bind (λ hs. AreSound g.num_msels hs × (length hs ≡ length ms)) _
          (merge_group g.num_msels ms connections) (λ hs. assign_groups g groups hs)
          (merge_group-AreSound g.num_msels g.num_msels ms connections h)
          (λ hs k. assign_groups-AreSound g groups hs k.0 (omega (arith, k.1, bound))))
  where
    below :
        (m : MSelGenerator)
        → ltb (length ms) g.num_arbiters ≡ true
        → length (ms ++ (m ∷ [])) ≤ g.num_arbiters
    below m room = ground (arith, length-append ms (m ∷ []))

-- Entries whose selects are below n.
abbrev pub SelectsBelow : ℕ → List (PhysPortAndId × ℕ) → Type 0
SelectsBelow n [] = Unit
SelectsBelow n (e ∷ entries) = (e.1 < n) × SelectsBelow n entries

get_msel_lem :
    (g : MSelGenerator) (p : PhysPortAndId) (m : ℕ)
    → IsValid g
    → get_msel g p ≡ some m
    → m < g.num_msels
unfolding get_msel
get_msel_lem g p m v h = elim (Option-cases (lookup eq_port p g.phys_port_to_connection)) [
  | inl e ↦ absurd (missing e)
  | inr (key, e) ↦ omega (arith, v.counter, v.bound key m (found key e))
]
  where
    missing : lookup eq_port p g.phys_port_to_connection ≡ none → ⊥
    missing e = ground (arith, h, e)

    found :
        (key : List ℕ)
        → lookup eq_port p g.phys_port_to_connection ≡ some key
        → lookup eq_list key g.connection_to_msel ≡ some m
    found key e = rw (get_msel, e) at h

get_phys_port_msels-SelectsBelow :
    (n : ℕ) (g : MSelGenerator) (ports : List PhysPortAndId)
    → IsSound n g
    → Ensures (SelectsBelow n) (get_phys_port_msels g ports)
unfolding get_phys_port_msels
get_phys_port_msels-SelectsBelow n g [] s = tt
get_phys_port_msels-SelectsBelow n g (p ∷ ports) s = elim (Option-cases (get_msel g p)) [
  | inl e ↦ rw (get_phys_port_msels, e) tt
  | inr (m, e) ↦
      rw (get_phys_port_msels, e)
        (Ensures-bind (SelectsBelow n) (SelectsBelow n) (get_phys_port_msels g ports)
          (λ res. ok ((p, m) ∷ res)) (get_phys_port_msels-SelectsBelow n g ports s)
          (λ res k. (omega (arith, get_msel_lem g p m s.0 e, s.1), k)))
]

-- Entries whose arbiters are below a and whose selects are below n.
abbrev pub AreInRange : ℕ → ℕ → List (PhysPortAndId × (ℕ × ℕ)) → Type 0
AreInRange a n [] = Unit
AreInRange a n (e ∷ entries) = ((e.1.0 < a) × (e.1.1 < n)) × AreInRange a n entries

AreInRange-append :
    (a n arbiter : ℕ) (ports : List (PhysPortAndId × ℕ)) (res : List (PhysPortAndId × (ℕ × ℕ)))
    → arbiter < a
    → SelectsBelow n ports
    → AreInRange a n res
    → AreInRange a n (map (λ e. (e.0, (arbiter, e.1))) ports ++ res)
AreInRange-append a n arbiter [] res h s r = r
AreInRange-append a n arbiter (e ∷ ports) res h (m, s) r =
    ((h, m), AreInRange-append a n arbiter ports res h s r)

-- An arbiter and a select of the tile, or none.
abbrev pub IsWithin : ℕ → ℕ → Option (ℕ × ℕ) → Type 0
IsWithin a n none = Unit
IsWithin a n (some e) = (e.0 < a) × (e.1 < n)

lookup-IsWithin :
    (a n : ℕ) (p : PhysPortAndId) (res : List (PhysPortAndId × (ℕ × ℕ)))
    → AreInRange a n res
    → IsWithin a n (lookup eq_port p res)
lookup-IsWithin a n p [] r = tt
lookup-IsWithin a n p ((q, x) ∷ res) (k, r) =
    if_elim (IsWithin a n) (eq_port q p) _ _ (λ e. k) (λ e. lookup-IsWithin a n p res r)

collect_amsels-AreInRange :
    (a n arbiter : ℕ) (ms : List MSelGenerator) (res : List (PhysPortAndId × (ℕ × ℕ)))
    → AreSound n ms
    → arbiter + length ms ≤ a
    → AreInRange a n res
    → Ensures (AreInRange a n) (collect_amsels arbiter ms res)
unfolding collect_amsels
collect_amsels-AreInRange a n arbiter [] res h bound r = r
collect_amsels-AreInRange a n arbiter (m ∷ ms) res (h, hs) bound r =
    Ensures-bind (SelectsBelow n) (AreInRange a n) (get_phys_port_msels m m.src_phys_port_and_ids)
      (λ ports. collect_amsels (arbiter + 1) ms (map (λ e. (e.0, (arbiter, e.1))) ports ++ res))
      (get_phys_port_msels-SelectsBelow n m m.src_phys_port_and_ids h)
      (λ ports k.
        collect_amsels-AreInRange a n (arbiter + 1) ms _ hs (omega (arith, bound))
          (AreInRange-append a n arbiter ports res (omega (arith, bound)) k r))

abbrev pub not_visited : Visited
not_visited = record { phys_ports = []; ports = [] }

-- What a solved tile gives to any port is an arbiter and a select of the tile.
abbrev pub IsInRange : TileAmSelGenerator → TileAmSelGenerator → Type 0
IsInRange g h = (p : PhysPortAndId) → IsWithin g.num_arbiters g.num_msels (get_amsel h p)

assigned-IsInRange :
    (g : TileAmSelGenerator) (groups : List (List PhysPortAndId))
    → Ensures (IsInRange g) (
        assign_groups g groups [] >>= λ arbiters.
        collect_amsels 0 arbiters [] >>= λ res. ok (record g { ports_to_amsels = res }))
unfolding get_amsel
assigned-IsInRange g groups =
    Ensures-bind (λ hs. AreSound g.num_msels hs × (length hs ≤ g.num_arbiters)) (IsInRange g)
      (assign_groups g groups [])
      (λ arbiters. collect_amsels 0 arbiters [] >>= λ res. ok (record g { ports_to_amsels = res }))
      (assign_groups-AreSound g groups [] tt (omega arith))
      (λ hs k.
        Ensures-bind (AreInRange g.num_arbiters g.num_msels) (IsInRange g) (collect_amsels 0 hs [])
          (λ res. ok (record g { ports_to_amsels = res }))
          (collect_amsels-AreInRange g.num_arbiters g.num_msels 0 hs [] k.0 (omega (arith, k.1)) tt)
          (λ res r p. lookup-IsWithin g.num_arbiters g.num_msels p res r))

-- With fuel for twice the work of a tile, that of its connections and of its destination ports,
-- solve gives a result; if it is a solution, each pair that it gives to a port is an arbiter below
-- num_arbiters and a master select below num_msels.
pub solve-IsInRange :
    (fuel : ℕ) (g : TileAmSelGenerator)
    → work g not_visited + work g not_visited ≤ fuel
    → (r : Result TileAmSelGenerator) × (solve fuel g ≡ some r) × Ensures (IsInRange g) r
unfolding solve
solve-IsInRange fuel g h =
    let (groups, e) = port_groups-returns g fuel g.dst_ports not_visited h in
    (_, rw (solve, e) refl, assigned-IsInRange g groups)
