-- ===== src/Amsel/Runs.antt =====
-- Sources share a master select after a run of addConnections exactly if they were last connected to
-- the same ports.
use mathlib.Core.Path.{subst}
use mathlib.Core.Option.{some_inj}
use iree_amd_aie.Prelude.Result.{ok, Ensures, Ensures_at, Ensures-bind}
use iree_amd_aie.Prelude.{
  ℕ, ◌<◌, ◌≡◌, refl, sym, ◌∙◌, ◌↔◌, Bool-cases, inl, inr, Option, none, some, Option-cases, List,
  [], ◌∷◌, leb, if◌then◌else◌, arith,
}
use iree_amd_aie.Amsel.{
  PhysPortAndId, eq_port, eq_list, lookup, ports_of, MSelGenerator, init, add_connection,
  add_connections, get_msel,
}
use iree_amd_aie.Amsel.Shared.{IsValid, Connected, add_connection-Connected, get_msel-shared}
use iree_amd_aie.Amsel.Solve.{Ensures-both, init-IsSound, add_connection-num_msels}

-- The ports that each source was last connected to.
abbrev pub Latest : Type 0
Latest = PhysPortAndId → Option (List ℕ)

abbrev pub not_connected : Latest
not_connected p = none

abbrev pub reconnect : PhysPortAndId → List ℕ → Latest → Latest
reconnect src ports latest p = if eq_port src p then some ports else latest p

abbrev pub latest_after : List (PhysPortAndId × List PhysPortAndId) → Latest → Latest
latest_after [] latest = latest
latest_after ((src, dsts) ∷ connections) latest =
    latest_after connections (reconnect src (ports_of dsts) latest)

record Tracks (n : ℕ) (latest : Latest) (g : MSelGenerator) : Type 0 where
  valid : IsValid g
  size : g.num_msels ≡ n
  mapped :
      (p : PhysPortAndId) (k : List ℕ)
      → lookup eq_port p g.phys_port_to_connection ≡ some k
      → (m : ℕ) × (lookup eq_list k g.connection_to_msel ≡ some m)
  last : (p : PhysPortAndId) → lookup eq_port p g.phys_port_to_connection ≡ latest p

-- Entries are added in front, so that no list of ports loses its select.
KeepsMapped : MSelGenerator → PhysPortAndId → List ℕ → MSelGenerator → Type 0
KeepsMapped g src ports h =
    (h.phys_port_to_connection ≡ (src, ports) ∷ g.phys_port_to_connection)
    × ((k : List ℕ) (m : ℕ)
        → lookup eq_list k g.connection_to_msel ≡ some m
        → (x : ℕ) × (lookup eq_list k h.connection_to_msel ≡ some x))

still_mapped :
    (k ports : List ℕ) (cur m : ℕ) (entries : List (List ℕ × ℕ))
    → lookup eq_list k entries ≡ some m
    → (x : ℕ) × (lookup eq_list k ((ports, cur) ∷ entries) ≡ some x)
still_mapped k ports cur m entries h = elim (Bool-cases (eq_list ports k)) [
  | inl e ↦ (cur, rw e refl)
  | inr e ↦ (m, rw e h)
]

add_connection-KeepsMapped :
    (g : MSelGenerator) (src : PhysPortAndId) (dsts : List PhysPortAndId)
    → Ensures (KeepsMapped g src (ports_of dsts)) (add_connection g src dsts)
unfolding add_connection KeepsMapped
add_connection-KeepsMapped g src dsts =
    elim (Option-cases (lookup eq_list (ports_of dsts) g.connection_to_msel)) [
      | inr (m, e) ↦ rw (add_connection, e) (refl, λ k x h. (x, h))
      | inl e ↦ elim (Bool-cases (leb g.num_msels g.cur_msel)) [
        | inl f ↦ rw (add_connection, e, f) tt
        | inr f ↦
            rw (add_connection, e, f)
              (refl, λ k x h. still_mapped k (ports_of dsts) g.cur_msel x g.connection_to_msel h)
      ]
    ]

-- What is known after addConnection.
abbrev Added : MSelGenerator → PhysPortAndId → List ℕ → MSelGenerator → Type 0
Added g src ports h =
    KeepsMapped g src ports h × ((IsValid h × Connected src ports h) × (h.num_msels ≡ g.num_msels))

Added-Tracks :
    (n : ℕ) (latest : Latest) (g h : MSelGenerator) (src : PhysPortAndId) (ports : List ℕ)
    → Tracks n latest g
    → Added g src ports h
    → Tracks n (reconnect src ports latest) h
unfolding KeepsMapped
Added-Tracks n latest g h src ports t (keeps, (sound, size)) = record {
  valid = sound.0;
  size = size ∙ t.size;
  mapped = λ p k e. by_source p k (sym (at_source p) ∙ e);
  last = at_source;
}
  where
    at_source :
        (p : PhysPortAndId)
        → lookup eq_port p h.phys_port_to_connection ≡ reconnect src ports latest p
    at_source p = rw (keeps.0, t.last p) refl

    by_source :
        (p : PhysPortAndId) (k : List ℕ)
        → reconnect src ports latest p ≡ some k
        → (m : ℕ) × (lookup eq_list k h.connection_to_msel ≡ some m)
    by_source p k e = elim (Bool-cases (eq_port src p)) [
      | inl s ↦
          let same : ports ≡ k = some_inj.0 (rw s at e) in
          (
            sound.1.msel,
            subst (λ z. lookup eq_list z h.connection_to_msel ≡ some sound.1.msel) same
                sound.1.of_ports,
          )
      | inr s ↦ let (m, f) = t.mapped p k (t.last p ∙ (rw s at e)) in keeps.1 k m f
    ]

add_connections-Tracks :
    (n : ℕ) (latest : Latest) (g : MSelGenerator)
    (connections : List (PhysPortAndId × List PhysPortAndId))
    → Tracks n latest g
    → Ensures (Tracks n (latest_after connections latest)) (add_connections g connections)
unfolding add_connections
add_connections-Tracks n latest g [] t = t
add_connections-Tracks n latest g ((src, dsts) ∷ connections) t =
    Ensures-bind (Added g src (ports_of dsts))
      (Tracks n (latest_after connections (reconnect src (ports_of dsts) latest)))
      (add_connection g src dsts) (λ h. add_connections h connections)
      (Ensures-both _ _ (add_connection g src dsts) (add_connection-KeepsMapped g src dsts) (
        Ensures-both _ _ (add_connection g src dsts) (add_connection-Connected g src dsts t.valid)
          (add_connection-num_msels g src dsts)))
      (λ h a.
        add_connections-Tracks n (reconnect src (ports_of dsts) latest) h connections
          (Added-Tracks n latest g h src (ports_of dsts) t a))

init-Tracks : (n : ℕ) → Tracks n not_connected (init n)
init-Tracks n = record {
  valid = (init-IsSound n).0;
  size = refl;
  mapped = λ p k e. cc;
  last = λ p. refl;
}

-- After addConnections on a new generator succeeds, a source that was connected has a master select
-- below the number of selects, and another one has the same select exactly if the ports that the two
-- were last connected to are the same, in the same order.
pub add_connections-shared :
    (n : ℕ) (connections : List (PhysPortAndId × List PhysPortAndId)) (g : MSelGenerator)
    (p q : PhysPortAndId) (k l : List ℕ)
    → add_connections (init n) connections ≡ ok g
    → latest_after connections not_connected p ≡ some k
    → latest_after connections not_connected q ≡ some l
    → (m : ℕ) × (get_msel g p ≡ some m) × (m < n) × ((get_msel g q ≡ some m) ↔ (k ≡ l))
unfolding get_msel
add_connections-shared n connections g p q k l run hp hq =
    let t : Tracks n (latest_after connections not_connected) g =
      Ensures_at _ _ g (add_connections-Tracks n not_connected (init n) connections (init-Tracks n))
        run in
    let at_p : lookup eq_port p g.phys_port_to_connection ≡ some k = t.last p ∙ hp in
    let at_q : lookup eq_port q g.phys_port_to_connection ≡ some l = t.last q ∙ hq in
    let (m, e) = t.mapped p k at_p in
    let selected : get_msel g p ≡ some m = rw (get_msel, at_p) e in
    (
      m,
      selected,
      omega (arith, t.valid.bound k m e, t.valid.counter, t.size),
      get_msel-shared g p q k l m t.valid at_p at_q selected,
    )
