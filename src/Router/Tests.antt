-- ===== src/Router/Tests.antt =====
-- The theorems on the router at concrete flows and settings, and the group ids of flows that share a
-- destination.
use iree_amd_aie.Prelude.{ℕ, ◌≡◌, refl, true, false, List, [], ◌∷◌, map, ℕ_discrete, dec_lt}
use iree_amd_aie.Prelude.Int.{pos, negsuc, ◌+ℤ◌, ◌-ℤ◌}
use iree_amd_aie.Prelude.IntRing.{eqb_ℤ}
use iree_amd_aie.Prelude.Result.{failure}
use iree_amd_aie.Router.{StrmSwPortType, north, south, other, PhysPort}
use iree_amd_aie.Router.Flow.{
  Flow, add_to_existing, find_group_id, group_id_for, add_flow, AreSeparate, Added, add_flow-Added,
}
use iree_amd_aie.Router.Path.{
  SwitchSettings, destinations_in, destinations_of, any_path, exists_path_to_dest,
}

abbrev at : ℕ → ℕ → StrmSwPortType → ℕ → PhysPort
at col row bundle channel = record {
  tile_loc = record { col = pos col; row = pos row };
  port = record { bundle = bundle; channel = channel };
}

abbrev dma : ℕ → ℕ → ℕ → PhysPort
dma col row channel = at col row (other 1) channel

abbrev packet_flows : List Flow
packet_flows = add_flow (dma 1 0 0) (dma 1 1 0) true (add_flow (dma 0 0 0) (dma 0 1 0) true [])

-- A third flow shares its destination with the first, but gets the group of the second.
shared_destination :
    map (λ f. f.packet_group_id) (add_flow (dma 2 0 0) (dma 0 1 0) true packet_flows)
    ≡ pos 0 ∷ pos 1 ∷ pos 1 ∷ []
unfolding add_flow add_to_existing group_id_for find_group_id eqb_ℤ ◌+ℤ◌ ℕ_discrete dec_lt
shared_destination = refl

-- A packet flow that shares its destination with a circuit flow gets the group of circuit flows.
shared_with_circuit :
    map
      (λ f. f.packet_group_id)
      (add_flow (dma 2 0 0) (dma 0 1 0) true (add_flow (dma 0 0 0) (dma 0 1 0) false []))
    ≡ negsuc 0 ∷ negsuc 0 ∷ []
unfolding add_flow add_to_existing group_id_for find_group_id eqb_ℤ ◌+ℤ◌ ℕ_discrete dec_lt
shared_with_circuit = refl

packet_flows-AreSeparate : AreSeparate packet_flows
unfolding add_flow add_to_existing eqb_ℤ ℕ_discrete
packet_flows-AreSeparate = ((refl, tt), (tt, tt))

add_flow-Added_example :
    Added (dma 0 0 0) (dma 2 1 0) packet_flows (add_flow (dma 0 0 0) (dma 2 1 0) true packet_flows)
add_flow-Added_example =
    add_flow-Added (dma 0 0 0) (dma 2 1 0) true packet_flows packet_flows-AreSeparate

-- The tile at (0, 1) connects its south port with its DMA.
abbrev settings : SwitchSettings
settings =
    (
      record { col = pos 0; row = pos 1 },
      (record { bundle = south; channel = 0 }, record { bundle = other 1; channel = 0 }) ∷ [],
    )
    ∷ []

-- Two tiles that send a stream back and forth.
abbrev cycle : SwitchSettings
cycle =
    (
      record { col = pos 0; row = pos 1 },
      (record { bundle = south; channel = 0 }, record { bundle = south; channel = 0 }) ∷ [],
    )
    ∷ (
      record { col = pos 0; row = pos 0 },
      (record { bundle = north; channel = 0 }, record { bundle = north; channel = 0 }) ∷ [],
    )
    ∷ []

endless : exists_path_to_dest 50 cycle (dma 0 1 0) (at 0 0 north 0) ≡ failure
unfolding exists_path_to_dest any_path destinations_of destinations_in eqb_ℤ ◌+ℤ◌ ◌-ℤ◌ ℕ_discrete
    dec_lt
endless = refl

abbrev bundle_rank : StrmSwPortType → ℕ
bundle_rank (other b) = 0
bundle_rank _ = 1

abbrev rank : PhysPort → ℕ
rank p = bundle_rank p.port.bundle
