-- ===== src/Generators/Channel/Tests.antt =====
-- The theorems on ChannelGenerator at concrete generators.
use iree_amd_aie.Prelude.{ℕ, ◌<◌, ◌≡◌, refl, none, some, [], ◌∷◌, ◌↔◌, arith, ==_iff, ℕ_discrete}
use iree_amd_aie.Generators.Channel.{
  first_available_circuit_flow, first_available_packet_flow, round_robin_packet_flow,
  ChannelGenerator, first_available_from, find_first_available_channel, front, select_channel,
  get_and_assign_producer_dma_channel, get_and_assign_consumer_dma_channel,
}
use iree_amd_aie.Generators.Channel.Exclusive.{IsValid, Admits, get_and_assign-IsValid}
use iree_amd_aie.Generators.Channel.Refusal.{Blocked, get_and_assign-none_iff}
use iree_amd_aie.Generators.Channel.RoundRobin.{round_robin, round_robin_cycle}

-- Producer channel 0 carries a packet flow and 1 a circuit flow; both consumer channels are free.
abbrev busy : ChannelGenerator
busy = record {
  num_producer_channels = 2;
  num_consumer_channels = 2;
  assigned_circuit_producer_channels = 1 ∷ [];
  assigned_circuit_consumer_channels = [];
  assigned_packet_producer_channels = 0 ∷ [];
  assigned_packet_consumer_channels = [];
}

busy-IsValid : IsValid busy
busy-IsValid = record {
  producers = record {
    circuit_in = λ c h. ground (arith, ==_iff 1 c);
    packet_in = λ c h. ground (arith, ==_iff 0 c);
    disjoint = λ c h. ground (arith, ==_iff 1 c, ==_iff 0 c);
  };
  consumers = record { circuit_in = λ c h. cc; packet_in = λ c h. cc; disjoint = λ c h. cc };
}

busy_requests :
    ((get_and_assign_producer_dma_channel busy first_available_circuit_flow).0 ≡ none)
    × ((get_and_assign_producer_dma_channel busy first_available_packet_flow).0 ≡ some 0)
    × ((get_and_assign_producer_dma_channel busy round_robin_packet_flow).0 ≡ some 0)
    × ((get_and_assign_consumer_dma_channel busy first_available_circuit_flow).0 ≡ some 0)
unfolding get_and_assign_producer_dma_channel get_and_assign_consumer_dma_channel select_channel
    find_first_available_channel first_available_from front ℕ_discrete
busy_requests = (refl, refl, refl, refl)

get_and_assign-IsValid_example :
    IsValid (get_and_assign_producer_dma_channel busy first_available_packet_flow).1
    × IsValid (get_and_assign_consumer_dma_channel busy first_available_packet_flow).1
    × ((c : ℕ)
        → (get_and_assign_producer_dma_channel busy first_available_packet_flow).0 ≡ some c
        → (c < 2) × Admits (1 ∷ []) (0 ∷ []) first_available_packet_flow c)
    × ((c : ℕ)
        → (get_and_assign_consumer_dma_channel busy first_available_packet_flow).0 ≡ some c
        → (c < 2) × Admits [] [] first_available_packet_flow c)
get_and_assign-IsValid_example =
    get_and_assign-IsValid busy first_available_packet_flow busy-IsValid

get_and_assign-none_iff_example :
    (((get_and_assign_producer_dma_channel busy first_available_circuit_flow).0 ≡ none)
      ↔ ((c : ℕ) → c < 2 → Blocked (1 ∷ []) (0 ∷ []) first_available_circuit_flow c))
    × (((get_and_assign_consumer_dma_channel busy first_available_circuit_flow).0 ≡ none)
        ↔ ((c : ℕ) → c < 2 → Blocked [] [] first_available_circuit_flow c))
get_and_assign-none_iff_example =
    get_and_assign-none_iff busy first_available_circuit_flow busy-IsValid

-- Three packet channels, all taken.
abbrev full_house : ChannelGenerator
full_house = record {
  num_producer_channels = 3;
  num_consumer_channels = 1;
  assigned_circuit_producer_channels = [];
  assigned_circuit_consumer_channels = [];
  assigned_packet_producer_channels = 2 ∷ 0 ∷ 1 ∷ [];
  assigned_packet_consumer_channels = [];
}

round_robin_cycle_example : round_robin 2 full_house ≡ (
  some 2 ∷ some 0 ∷ [],
  record full_house { assigned_packet_producer_channels = 1 ∷ 2 ∷ 0 ∷ [] },
)
unfolding find_first_available_channel first_available_from ℕ_discrete
round_robin_cycle_example =
    round_robin_cycle (2 ∷ 0 ∷ []) (1 ∷ []) full_house refl refl (refl, (refl, (refl, tt)))
