-- ===== src/Generators/Channel.antt =====
-- runtime/src/iree-amd-aie/aie_runtime/Utils/ChannelGenerator.h and .cpp. A set vector is a list
-- without repetitions, in insertion order. Channels are `uint8_t`; the loop counter stays below
-- the number of channels, so it does not wrap.
pub mod Exclusive
pub mod Refusal
pub mod RoundRobin
mod Tests
use iree_amd_aie.Prelude.{
  ℕ, zero, suc, ◌+◌, ◌<◌, Bool, true, false, not, ◌&&◌, ◌||◌, Option, none, some, List, [], ◌∷◌,
  ltb, leb, ◌==◌, if◌then◌else◌, mem, all_of, remove, insert,
}

pub data ChannelAssignmentMode : Type 0 where
  first_available_circuit_flow first_available_packet_flow round_robin_packet_flow :
      ChannelAssignmentMode

pub record ChannelGenerator : Type 0 where
  pub num_producer_channels : ℕ
  pub num_consumer_channels : ℕ
  pub assigned_circuit_producer_channels : List ℕ
  pub assigned_circuit_consumer_channels : List ℕ
  pub assigned_packet_producer_channels : List ℕ
  pub assigned_packet_consumer_channels : List ℕ

-- The constructor asserts that both numbers are positive.
unfoldable pub init : ℕ → ℕ → Option ChannelGenerator
init producers consumers =
    if ltb 0 producers && ltb 0 consumers
    then some (record {
      num_producer_channels = producers;
      num_consumer_channels = consumers;
      assigned_circuit_producer_channels = [];
      assigned_circuit_consumer_channels = [];
      assigned_packet_producer_channels = [];
      assigned_packet_consumer_channels = [];
    })
    else none

-- `for (channel = i; channel < i + n; ++channel)`.
unfoldable pub first_available_from : ℕ → ℕ → List (List ℕ) → Option ℕ
first_available_from zero i exclude_sets = none
first_available_from (suc n) i exclude_sets =
    let rest = first_available_from n (i + 1) exclude_sets in
    if all_of (λ s. not (mem i s)) exclude_sets then some i else rest

unfoldable pub find_first_available_channel : ℕ → List (List ℕ) → Option ℕ
find_first_available_channel num_channels exclude_sets =
    first_available_from num_channels 0 exclude_sets

unfoldable pub front : List ℕ → Option ℕ
front [] = none
front (x ∷ xs) = some x

-- The switch of both `getAndAssign` functions, over the sets of one direction.
unfoldable pub select_channel : ℕ → List ℕ → List ℕ → ChannelAssignmentMode → Option ℕ
select_channel num circuit packet first_available_circuit_flow =
    find_first_available_channel num (circuit ∷ packet ∷ [])
select_channel num circuit packet first_available_packet_flow =
    find_first_available_channel num (circuit ∷ [])
select_channel num circuit packet round_robin_packet_flow =
    elim (find_first_available_channel num (circuit ∷ packet ∷ [])) [
      | some channel ↦ some channel
      | none ↦ front packet
    ]

unfoldable pub assign_producer_dma_channel :
    ChannelGenerator → ℕ → ChannelAssignmentMode → ChannelGenerator
assign_producer_dma_channel g channel first_available_circuit_flow = record g {
  assigned_circuit_producer_channels = insert channel g.assigned_circuit_producer_channels;
}
assign_producer_dma_channel g channel first_available_packet_flow = record g {
  assigned_packet_producer_channels = insert channel g.assigned_packet_producer_channels;
}
assign_producer_dma_channel g channel round_robin_packet_flow = record g {
  assigned_packet_producer_channels =
      insert channel (remove channel g.assigned_packet_producer_channels);
}

unfoldable pub assign_consumer_dma_channel :
    ChannelGenerator → ℕ → ChannelAssignmentMode → ChannelGenerator
assign_consumer_dma_channel g channel first_available_circuit_flow = record g {
  assigned_circuit_consumer_channels = insert channel g.assigned_circuit_consumer_channels;
}
assign_consumer_dma_channel g channel first_available_packet_flow = record g {
  assigned_packet_consumer_channels = insert channel g.assigned_packet_consumer_channels;
}
assign_consumer_dma_channel g channel round_robin_packet_flow = record g {
  assigned_packet_consumer_channels =
      insert channel (remove channel g.assigned_packet_consumer_channels);
}

unfoldable pub get_and_assign_producer_dma_channel :
    ChannelGenerator → ChannelAssignmentMode → Option ℕ × ChannelGenerator
get_and_assign_producer_dma_channel g mode =
    elim (select_channel g.num_producer_channels g.assigned_circuit_producer_channels
      g.assigned_packet_producer_channels mode) [
        | none ↦ (none, g)
        | some channel ↦ (some channel, assign_producer_dma_channel g channel mode)
      ]

unfoldable pub get_and_assign_consumer_dma_channel :
    ChannelGenerator → ChannelAssignmentMode → Option ℕ × ChannelGenerator
get_and_assign_consumer_dma_channel g mode =
    elim (select_channel g.num_consumer_channels g.assigned_circuit_consumer_channels
      g.assigned_packet_consumer_channels mode) [
        | none ↦ (none, g)
        | some channel ↦ (some channel, assign_consumer_dma_channel g channel mode)
      ]
