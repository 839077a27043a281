-- ===== src/Amsel/Fuel.antt =====
-- The search for groups ends: how much fuel is enough.
use mathlib.Core.Path.{subst, ap₂}
use mathlib.Core.Option.{some_inj}
use iree_amd_aie.Prelude.{
  ℕ, zero, suc, ◌+◌, ◌≤◌, ◌≡◌, refl, sym, Bool, true, false, ◌||◌, Bool-cases, inl, inr, Option,
  some, Option-cases, List, [], ◌∷◌, ◌++◌, ◌==◌, ==_iff, if◌then◌else◌, if_elim, length,
  length-append, mem, and_left, and_right, arith,
}
use iree_amd_aie.Amsel.{
  PhysPortAndId, eq_port, lookup, list_at, eq_ℕ, TileAmSelGenerator, Visited, contains_port,
  sources_of, is_source, collect, port_groups,
}

-- Keys with a test of equality, and the entries of a map whose keys were not seen.
module _ {K B : Type 0} (eq : K → K → Bool) (eq-eq : (a b : K) → eq a b ≡ true → a ≡ b)
    (eq-refl : (a : K) → eq a a ≡ true) (seen : K → List K → Bool)
    (seen-cons : (x y : K) (ys : List K) → seen x (y ∷ ys) ≡ (eq y x || seen x ys))
    (cost : B → ℕ) where
  abbrev pub weight : List K → List (K × B) → ℕ
  weight v [] = 0
  weight v ((k, l) ∷ entries) = (if seen k v then 0 else cost l) + weight v entries

  head_mono :
      (p k : K) (v : List K) (c : ℕ)
      → (if seen k (p ∷ v) then 0 else c) ≤ (if seen k v then 0 else c)
  head_mono p k v c = elim (Bool-cases (seen k v)) [
    | inl e ↦ rw (seen-cons, e, or_true (eq p k)) (omega arith)
    | inr e ↦ elim (Bool-cases (eq p k)) [
      | inl f ↦ rw (seen-cons, e, f) (omega arith)
      | inr f ↦ rw (seen-cons, e, f) (omega arith)
    ]
  ]
    where
      or_true : (b : Bool) → (b || true) ≡ true
      or_true true = refl
      or_true false = refl

  weight_mono :
      (p : K) (v : List K) (entries : List (K × B)) → weight (p ∷ v) entries ≤ weight v entries
  weight_mono p v [] = omega arith
  weight_mono p v ((k, l) ∷ entries) =
      omega (arith, head_mono p k v (cost l), weight_mono p v entries)

  -- A key that is seen for the first time takes its entry out.
  weight_visit :
      (p : K) (v : List K) (entries : List (K × B)) (l : B)
      → seen p v ≡ false
      → lookup eq p entries ≡ some l
      → weight (p ∷ v) entries + cost l ≤ weight v entries
  weight_visit p v [] l s h = cc
  weight_visit p v ((k, m) ∷ entries) l s h = elim (Bool-cases (eq k p)) [
    | inl e ↦
        let same : k ≡ p = eq-eq k p e in
        let old : seen k v ≡ false = subst (λ z. seen z v ≡ false) (sym same) s in
        let new : eq p k ≡ true = subst (λ z. eq z k ≡ true) same (eq-refl k) in
        let entry : m ≡ l = some_inj.0 (rw e at h) in
        rw (seen-cons, old, new, entry) (omega (arith, weight_mono p v entries))
    | inr e ↦ omega (arith, head_mono p k v (cost m), weight_visit p v entries l s (rw e at h))
  ]

pub eq_port-eq : (a b : PhysPortAndId) → eq_port a b ≡ true → a ≡ b
eq_port-eq a b h =
    ap₂ (λ x y. record { port = x; rest = y }) ((==_iff a.port b.port).0 (and_left _ _ h))
      ((==_iff a.rest b.rest).0 (and_right (a.port == b.port) _ h))

pub eq_port_refl : (a : PhysPortAndId) → eq_port a a ≡ true
eq_port_refl a = rw ((==_iff a.port a.port).1 refl, (==_iff a.rest a.rest).1 refl) refl

-- What the sources and the ports that are still to be visited put into the queue.
module _ (g : TileAmSelGenerator) where
  abbrev pub source_work : List PhysPortAndId → ℕ
  source_work v =
      weight eq_port eq_port-eq eq_port_refl contains_port (λ x y ys. refl) length v
        g.src_to_dst_ports

  abbrev pub port_cost : List PhysPortAndId → ℕ
  port_cost l = length (l ++ sources_of g l)

  abbrev pub port_work : List ℕ → ℕ
  port_work v =
      weight eq_ℕ (λ a b. (==_iff a b).0) (λ a. (==_iff a a).1 refl) mem (λ x y ys. refl) port_cost
        v g.dst_port_to_phys_port_and_id

  abbrev pub work : Visited → ℕ
  work v = source_work v.phys_ports + port_work v.ports

  -- The search returns, and no more work is left than before.
  abbrev Ends : Visited → Option (List PhysPortAndId × Visited) → Type 0
  Ends v o = (r : List PhysPortAndId × Visited) × (o ≡ some r) × (work r.1 ≤ work v)

  Ends-mono :
      (v w : Visited) (o : Option (List PhysPortAndId × Visited))
      → work w ≤ work v
      → Ends w o
      → Ends v o
  Ends-mono v w o h (r, e, less) = (r, e, omega (arith, h, less))

  source_mono : (p : PhysPortAndId) (v : List PhysPortAndId) → source_work (p ∷ v) ≤ source_work v
  source_mono p v =
      weight_mono eq_port eq_port-eq eq_port_refl contains_port (λ x y ys. refl) length p v
        g.src_to_dst_ports

  visit_source :
      (p : PhysPortAndId) (v : List PhysPortAndId)
      → contains_port p v ≡ false
      → length (list_at eq_port p g.src_to_dst_ports) + source_work (p ∷ v) ≤ source_work v
  visit_source p v s = elim (Option-cases (lookup eq_port p g.src_to_dst_ports)) [
    | inl e ↦ rw (list_at, e) (omega (arith, source_mono p v))
    | inr (l, e) ↦
        rw (list_at, e)
          (omega (
            arith,
            weight_visit eq_port eq_port-eq eq_port_refl contains_port (λ x y ys. refl) length p v
                g.src_to_dst_ports l s e,
          ))
  ]

  visit_port :
      (x : ℕ) (v : List ℕ)
      → mem x v ≡ false
      → port_cost (list_at eq_ℕ x g.dst_port_to_phys_port_and_id) + port_work (x ∷ v) ≤ port_work v
  visit_port x v s = elim (Option-cases (lookup eq_ℕ x g.dst_port_to_phys_port_and_id)) [
    | inl e ↦
        rw (list_at, e)
          (omega (
            arith,
            weight_mono eq_ℕ (λ a b. (==_iff a b).0) (λ a. (==_iff a a).1 refl) mem (λ x y ys. refl)
                port_cost x v g.dst_port_to_phys_port_and_id,
          ))
    | inr (l, e) ↦
        rw (list_at, e)
          (omega (
            arith,
            weight_visit eq_ℕ (λ a b. (==_iff a b).0) (λ a. (==_iff a a).1 refl) mem
                (λ x y ys. refl) port_cost x v g.dst_port_to_phys_port_and_id l s e,
          ))
  ]

  collect-Ends :
      (fuel : ℕ) (queue group : List PhysPortAndId) (v : Visited)
      → length queue + work v ≤ fuel
      → Ends v (collect fuel g queue group v)
  unfolding collect
  collect-Ends fuel [] group v h = ((group, v), refl, omega arith)
  collect-Ends zero (p ∷ queue) group v h = absurd (omega (arith, h))
  collect-Ends (suc fuel) (p ∷ queue) group v h =
      let w : Visited = record v { phys_ports = p ∷ v.phys_ports } in
      let u : Visited = record w { ports = p.port ∷ v.ports } in
      let dsts : List PhysPortAndId = list_at eq_port p g.src_to_dst_ports in
      let phys : List PhysPortAndId = list_at eq_ℕ p.port g.dst_port_to_phys_port_and_id in
      if_elim (Ends v) (contains_port p v.phys_ports) _ _
        (λ seen. collect-Ends fuel queue group v (omega (arith, h)))
        (λ new.
          if_elim (Ends v) (is_source g p) _ _
            (λ source. Ends-mono v w _ (omega (arith, source_mono p v.phys_ports)) (
              collect-Ends fuel (queue ++ dsts) (group ++ (p ∷ [])) w
                (omega (arith, h, length-append queue dsts, visit_source p v.phys_ports new))))
            (λ not_source.
              if_elim (Ends v) (mem p.port v.ports) _ _
                (λ passed.
                  Ends-mono v w _ (omega (arith, source_mono p v.phys_ports)) (
                    collect-Ends fuel queue group w (omega (arith, h, source_mono p v.phys_ports))))
                (λ fresh.
                  Ends-mono v u _
                    (omega (arith, source_mono p v.phys_ports, visit_port p.port v.ports fresh))
                    (collect-Ends fuel (queue ++ phys ++ sources_of g phys) group u (
                      omega (
                        arith,
                        h,
                        length-append (queue ++ phys) (sources_of g phys),
                        length-append queue phys,
                        length-append phys (sources_of g phys),
                        source_mono p v.phys_ports,
                        visit_port p.port v.ports fresh,
                      ))))))

  -- Every search starts with the work of one port.
  pub port_groups-returns :
      (fuel : ℕ) (ports : List ℕ) (v : Visited)
      → work v + work v ≤ fuel
      → (groups : List (List PhysPortAndId)) × (port_groups fuel g ports v ≡ some groups)
  unfolding port_groups
  port_groups-returns fuel [] v h = ([], refl)
  port_groups-returns fuel (x ∷ ports) v h = elim (Bool-cases (mem x v.ports)) [
    | inl e ↦
        let (groups, r) = port_groups-returns fuel ports v h in (groups, rw (port_groups, e) r)
    | inr e ↦
        let phys : List PhysPortAndId = list_at eq_ℕ x g.dst_port_to_phys_port_and_id in
        let (found, r, less) =
          collect-Ends fuel phys [] v
            (omega (arith, h, visit_port x v.ports e, length-append phys (sources_of g phys))) in
        let (groups, s) = port_groups-returns fuel ports found.1 (omega (arith, h, less)) in
        (found.0 ∷ groups, rw (port_groups, e, r, s) refl)
  ]
