-- ===== src/Generators/Channel/Refusal.antt =====
-- When a request for a channel is refused.
use iree_amd_aie.Prelude.{
  ℕ, ◌<◌, ◌≡◌, refl, true, ◌⊎◌, inl, inr, ◌↔◌, none, some, List, [], ◌∷◌, arith, mem, Option-cases,
}
use iree_amd_aie.Generators.Channel.{
  ChannelAssignmentMode, first_available_circuit_flow, first_available_packet_flow,
  round_robin_packet_flow, ChannelGenerator, find_first_available_channel, front, select_channel,
  get_and_assign_producer_dma_channel, get_and_assign_consumer_dma_channel,
}
use iree_amd_aie.Generators.Channel.Exclusive.{
  IsExclusive, IsValid, first_available_from-none, select-Admits,
}

-- The channels that a mode cannot take.
abbrev pub Blocked : List ℕ → List ℕ → ChannelAssignmentMode → ℕ → Type 0
Blocked circuit packet first_available_circuit_flow c =
    (mem c circuit ≡ true) ⊎ (mem c packet ≡ true)
Blocked circuit packet first_available_packet_flow c = mem c circuit ≡ true
Blocked circuit packet round_robin_packet_flow c = mem c circuit ≡ true

front-none : (xs : List ℕ) → front xs ≡ none → xs ≡ []
unfolding front
front-none [] h = refl
front-none (x ∷ xs) h = cc

select-none :
    (num : ℕ) (circuit packet : List ℕ) (mode : ChannelAssignmentMode) (c : ℕ)
    → select_channel num circuit packet mode ≡ none
    → c < num
    → Blocked circuit packet mode c
unfolding select_channel find_first_available_channel
select-none num circuit packet first_available_circuit_flow c h l =
    ground (arith, first_available_from-none num 0 (circuit ∷ packet ∷ []) c h)
select-none num circuit packet first_available_packet_flow c h l =
    ground (arith, first_available_from-none num 0 (circuit ∷ []) c h)
select-none num circuit packet round_robin_packet_flow c h l =
    ground (arith, first_available_from-none num 0 (circuit ∷ packet ∷ []) c, front-none packet)

Admits-Blocked :
    (num : ℕ) (circuit packet : List ℕ) (mode : ChannelAssignmentMode) (c : ℕ)
    → IsExclusive num circuit packet
    → select_channel num circuit packet mode ≡ some c
    → (c < num) × ¬ Blocked circuit packet mode c
Admits-Blocked num circuit packet first_available_circuit_flow c v e =
    let a = select-Admits num circuit packet first_available_circuit_flow c v e in
    (a.0, λ b. ground arith)
Admits-Blocked num circuit packet first_available_packet_flow c v e =
    let a = select-Admits num circuit packet first_available_packet_flow c v e in (a.0, λ b. cc)
Admits-Blocked num circuit packet round_robin_packet_flow c v e =
    let a = select-Admits num circuit packet round_robin_packet_flow c v e in (a.0, λ b. cc)

select-none_iff :
    (num : ℕ) (circuit packet : List ℕ) (mode : ChannelAssignmentMode)
    → IsExclusive num circuit packet
    → (select_channel num circuit packet mode ≡ none)
      ↔ ((c : ℕ) → c < num → Blocked circuit packet mode c)
select-none_iff num circuit packet mode v = (
  λ h c l. select-none num circuit packet mode c h l,
  λ all. elim (Option-cases (select_channel num circuit packet mode)) [
    | inl e ↦ e
    | inr (c, e) ↦ let a = Admits-Blocked num circuit packet mode c v e in absurd (a.1 (all c a.0))
  ],
)

-- On a generator whose assigned channels are in range and exclusive, a producer channel is refused
-- exactly when every producer channel is blocked: for a circuit flow by a circuit or a packet
-- flow, for a packet flow by a circuit flow, first available or round robin. So it is with
-- consumer channels.
pub get_and_assign-none_iff :
    (g : ChannelGenerator) (mode : ChannelAssignmentMode)
    → IsValid g
    → (((get_and_assign_producer_dma_channel g mode).0 ≡ none) ↔ (
        (c : ℕ)
        → c < g.num_producer_channels
        → Blocked g.assigned_circuit_producer_channels g.assigned_packet_producer_channels mode c))
      × (((get_and_assign_consumer_dma_channel g mode).0 ≡ none) ↔ (
          (c : ℕ)
          → c < g.num_consumer_channels
          → Blocked g.assigned_circuit_consumer_channels g.assigned_packet_consumer_channels mode
              c))
unfolding get_and_assign_producer_dma_channel get_and_assign_consumer_dma_channel
get_and_assign-none_iff g mode v =
    let p = select-none_iff _ _ _ mode v.producers in
    let c = select-none_iff _ _ _ mode v.consumers in
    (
      (λ h. p.0 (ground (arith, h)), λ all. ground (arith, p.1 all)),
      (λ h. c.0 (ground (arith, h)), λ all. ground (arith, c.1 all)),
    )
