-- ===== src/Router/Path/Reach.antt =====
-- existsPathToDest answers whether a port leads to another through the settings.
use iree_amd_aie.Prelude.{ℕ, ◌<◌, ◌≡◌, ◌⊎◌, refl, Bool, true, false, inl, inr, List, [], ◌∷◌}
use iree_amd_aie.Prelude.Result.{Result, ok, failure, fault}
use iree_amd_aie.Router.{TileLoc, Port, PhysPort}
use iree_amd_aie.Router.Path.{SwitchSettings}
use iree_amd_aie.Router.Path.Wires.{Wired, LeavesArray}

abbrev pub In : {A : Type 0} → A → List A → Type 0
In x [] = ⊥
In x (y ∷ ys) = (y ≡ x) ⊎ In x ys

-- One hop: the wire to a neighbour, and a connection of that tile from the port of the wire.
pub record Hop (settings : SwitchSettings) (p q : PhysPort) : Type 0 where
  pub source : PhysPort
  pub wired : Wired p source
  pub connections : List (Port × Port)
  pub set : In (source.tile_loc, connections) settings
  pub connected : In (source.port, q.port) connections
  pub same_tile : source.tile_loc ≡ q.tile_loc

-- The ports that a port leads to.
pub data Leads (settings : SwitchSettings) : PhysPort → PhysPort → Type 0 where
  here : (p : PhysPort) → Leads settings p p
  hop : (p q r : PhysPort) → Hop settings p q → Leads settings q r → Leads settings p r

-- A setting of the tile has the connection.
abbrev Connects : SwitchSettings → PhysPort → Port → Type 0
Connects settings src d =
    (connections : List (Port × Port)) × In (src.tile_loc, connections) settings
    × In (src.port, d) connections

-- A search answers whether `P` holds, unless it meets a fault, as there may be where `X` holds.
abbrev pub Answers : Type 0 → Type 0 → Result Bool → Type 0
Answers P X (ok true) = P
Answers P X (ok false) = (¬ P) × (¬ X)
Answers P X failure = ⊥
Answers P X fault = X

-- Some port of the list.
abbrev Some : TileLoc → (PhysPort → Type 0) → List Port → Type 0
Some tile R ports = (p : Port) × In p ports × R (record { tile_loc = tile; port = p })

pub Leads-cases :
    (settings : SwitchSettings) (p r : PhysPort)
    → Leads settings p r
    → (p ≡ r) ⊎ ((q : PhysPort) × Hop settings p q × Leads settings q r)
Leads-cases settings p r (here s) = inl refl
Leads-cases settings p r (hop s q t h l) = inr (q, h, l)

-- A port on the way whose wire would leave the array.
abbrev pub LeadsOut : SwitchSettings → PhysPort → Type 0
LeadsOut settings p = (q : PhysPort) × Leads settings p q × LeavesArray q

module _ (settings : SwitchSettings) where
  -- After one hop.
  abbrev Onward : (PhysPort → Type 0) → PhysPort → Type 0
  Onward R p = (q : PhysPort) × Hop settings p q × R q

  -- Every hop goes down.
  abbrev pub GoesDown : (PhysPort → ℕ) → Type 0
  GoesDown rank = (p q : PhysPort) → Hop settings p q → rank q < rank p
