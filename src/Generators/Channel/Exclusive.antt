-- ===== src/Generators/Channel/Exclusive.antt =====
-- A channel that carries a circuit flow carries nothing else.
use iree_amd_aie.Prelude.{
  ℕ, zero, suc, ◌+◌, ◌≤◌, ◌<◌, ◌≡◌, true, false, not, ◌⊎◌, inl, inr, ◌≢◌, Option, none, some, List,
  [], ◌∷◌, arith, ◌==◌, ==_iff, mem, all_of, remove, insert, mem-insert, mem-remove, Bool-cases,
  Option-cases,
}
use iree_amd_aie.Generators.Channel.{
  ChannelAssignmentMode, first_available_circuit_flow, first_available_packet_flow,
  round_robin_packet_flow, ChannelGenerator, first_available_from, find_first_available_channel,
  front, select_channel, assign_producer_dma_channel, assign_consumer_dma_channel,
  get_and_assign_producer_dma_channel, get_and_assign_consumer_dma_channel,
}

-- The loop's result is the least admissible channel of its range.
pub first_available_from-some :
    (n i : ℕ) (sets : List (List ℕ)) (c : ℕ)
    → first_available_from n i sets ≡ some c
    → (i ≤ c) × (c < i + n) × (all_of (λ s. not (mem c s)) sets ≡ true)
unfolding first_available_from
first_available_from-some zero i sets c h = cc
first_available_from-some (suc n) i sets c h =
    elim (Bool-cases (all_of (λ s. not (mem i s)) sets)) [
      | inl e ↦ let same : i ≡ c = ground (arith, h, e) in (omega arith, omega arith, rw (← same) e)
      | inr e ↦
          let r = first_available_from-some n (i + 1) sets c (ground (arith, h, e)) in
          (omega (arith, r.0), omega (arith, r.1), r.2)
    ]

pub first_available_from-none :
    (n i : ℕ) (sets : List (List ℕ)) (c : ℕ)
    → first_available_from n i sets ≡ none
    → i ≤ c
    → c < i + n
    → all_of (λ s. not (mem c s)) sets ≡ false
unfolding first_available_from
first_available_from-none zero i sets c h p q = absurd (omega arith)
first_available_from-none (suc n) i sets c h p q =
    elim (Bool-cases (all_of (λ s. not (mem i s)) sets)) [
      | inl e ↦ ground (arith, h, e)
      | inr e ↦ elim (Bool-cases (i == c)) [
        | inl s ↦ rw (← (==_iff i c).0 s) e
        | inr s ↦
            first_available_from-none n (i + 1) sets c (ground (arith, h, e)) (ground arith)
              (omega arith)
      ]
    ]

-- The sets of one direction: in range, and no channel in both.
pub record IsExclusive (num : ℕ) (circuit packet : List ℕ) : Type 0 where
  pub circuit_in : (c : ℕ) → mem c circuit ≡ true → c < num
  pub packet_in : (c : ℕ) → mem c packet ≡ true → c < num
  pub disjoint : (c : ℕ) → mem c circuit ≡ true → mem c packet ≡ false

-- The channels that a mode may take.
abbrev pub Admits : List ℕ → List ℕ → ChannelAssignmentMode → ℕ → Type 0
Admits circuit packet first_available_circuit_flow c =
    (mem c circuit ≡ false) × (mem c packet ≡ false)
Admits circuit packet first_available_packet_flow c = mem c circuit ≡ false
Admits circuit packet round_robin_packet_flow c = mem c circuit ≡ false

front-mem : (xs : List ℕ) (c : ℕ) → front xs ≡ some c → mem c xs ≡ true
unfolding front
front-mem [] c h = cc
front-mem (x ∷ xs) c h = ground (arith, ==_iff x c)

pub select-Admits :
    (num : ℕ) (circuit packet : List ℕ) (mode : ChannelAssignmentMode) (c : ℕ)
    → IsExclusive num circuit packet
    → select_channel num circuit packet mode ≡ some c
    → (c < num) × Admits circuit packet mode c
unfolding select_channel find_first_available_channel
select-Admits num circuit packet first_available_circuit_flow c v h =
    ground (arith, first_available_from-some num 0 (circuit ∷ packet ∷ []) c h)
select-Admits num circuit packet first_available_packet_flow c v h =
    ground (arith, first_available_from-some num 0 (circuit ∷ []) c h)
select-Admits num circuit packet round_robin_packet_flow c v h = ground (
  arith,
  first_available_from-some num 0 (circuit ∷ packet ∷ []) c,
  front-mem packet c,
  v.packet_in c,
  v.disjoint c,
)

-- The two sets after a channel is assigned.
abbrev circuit_after : ChannelAssignmentMode → ℕ → List ℕ → List ℕ
circuit_after first_available_circuit_flow c circuit = insert c circuit
circuit_after mode c circuit = circuit

abbrev packet_after : ChannelAssignmentMode → ℕ → List ℕ → List ℕ
packet_after first_available_circuit_flow c packet = packet
packet_after first_available_packet_flow c packet = insert c packet
packet_after round_robin_packet_flow c packet = insert c (remove c packet)

mem-circuit_after :
    (mode : ChannelAssignmentMode) (c x : ℕ) (circuit : List ℕ)
    → mem x (circuit_after mode c circuit) ≡ true
    → (mem x circuit ≡ true) ⊎ ((c ≡ x) × (mode ≡ first_available_circuit_flow))
mem-circuit_after first_available_circuit_flow c x circuit h =
    ground (arith, mem-insert x c circuit, ==_iff c x)
mem-circuit_after first_available_packet_flow c x circuit h = inl h
mem-circuit_after round_robin_packet_flow c x circuit h = inl h

mem-packet_after :
    (mode : ChannelAssignmentMode) (c x : ℕ) (packet : List ℕ)
    → mem x (packet_after mode c packet) ≡ true
    → (mem x packet ≡ true) ⊎ ((c ≡ x) × (mode ≢ first_available_circuit_flow))
mem-packet_after first_available_circuit_flow c x packet h = inl h
mem-packet_after first_available_packet_flow c x packet h = elim (Bool-cases (c == x)) [
  | inl e ↦ inr ((==_iff c x).0 e, λ m. cc)
  | inr e ↦ inl (ground (arith, mem-insert x c packet))
]
mem-packet_after round_robin_packet_flow c x packet h = elim (Bool-cases (c == x)) [
  | inl e ↦ inr ((==_iff c x).0 e, λ m. cc)
  | inr e ↦ inl (ground (arith, mem-insert x c (remove c packet), mem-remove x c packet))
]

after-IsExclusive :
    (num : ℕ) (circuit packet : List ℕ) (mode : ChannelAssignmentMode) (c : ℕ)
    → IsExclusive num circuit packet
    → (c < num) × Admits circuit packet mode c
    → IsExclusive num (circuit_after mode c circuit) (packet_after mode c packet)
after-IsExclusive num circuit packet first_available_circuit_flow c v a = record {
  circuit_in = λ x h. ground (arith, v.circuit_in x, mem-insert x c circuit, ==_iff c x);
  packet_in = v.packet_in;
  disjoint = λ x h. ground (arith, v.disjoint x, mem-insert x c circuit, ==_iff c x);
}
after-IsExclusive num circuit packet first_available_packet_flow c v a = record {
  circuit_in = v.circuit_in;
  packet_in = λ x h. ground (arith, v.packet_in x, mem-insert x c packet, ==_iff c x);
  disjoint = λ x h. ground (arith, v.disjoint x, mem-insert x c packet, ==_iff c x);
}
after-IsExclusive num circuit packet round_robin_packet_flow c v a = record {
  circuit_in = v.circuit_in;
  packet_in = λ x h.
      ground
        (arith, v.packet_in x, mem-insert x c (remove c packet), mem-remove x c packet, ==_iff c x);
  disjoint = λ x h.
      ground
        (arith, v.disjoint x, mem-insert x c (remove c packet), mem-remove x c packet, ==_iff c x);
}

-- Both directions of a generator.
pub record IsValid (g : ChannelGenerator) : Type 0 where
  pub producers :
      IsExclusive g.num_producer_channels g.assigned_circuit_producer_channels
        g.assigned_packet_producer_channels
  pub consumers :
      IsExclusive g.num_consumer_channels g.assigned_circuit_consumer_channels
        g.assigned_packet_consumer_channels

producer-cases :
    (g : ChannelGenerator) (mode : ChannelAssignmentMode) (c : ℕ)
    → IsValid g
    → (c < g.num_producer_channels)
      × Admits g.assigned_circuit_producer_channels g.assigned_packet_producer_channels mode c
    → IsValid (assign_producer_dma_channel g c mode)
unfolding assign_producer_dma_channel
producer-cases g first_available_circuit_flow c v a = record {
  producers = after-IsExclusive _ _ _ first_available_circuit_flow c v.producers a;
  consumers = v.consumers;
}
producer-cases g first_available_packet_flow c v a = record {
  producers = after-IsExclusive _ _ _ first_available_packet_flow c v.producers a;
  consumers = v.consumers;
}
producer-cases g round_robin_packet_flow c v a = record {
  producers = after-IsExclusive _ _ _ round_robin_packet_flow c v.producers a;
  consumers = v.consumers;
}

consumer-cases :
    (g : ChannelGenerator) (mode : ChannelAssignmentMode) (c : ℕ)
    → IsValid g
    → (c < g.num_consumer_channels)
      × Admits g.assigned_circuit_consumer_channels g.assigned_packet_consumer_channels mode c
    → IsValid (assign_consumer_dma_channel g c mode)
unfolding assign_consumer_dma_channel
consumer-cases g first_available_circuit_flow c v a = record {
  consumers = after-IsExclusive _ _ _ first_available_circuit_flow c v.consumers a;
  producers = v.producers;
}
consumer-cases g first_available_packet_flow c v a = record {
  consumers = after-IsExclusive _ _ _ first_available_packet_flow c v.consumers a;
  producers = v.producers;
}
consumer-cases g round_robin_packet_flow c v a = record {
  consumers = after-IsExclusive _ _ _ round_robin_packet_flow c v.consumers a;
  producers = v.producers;
}

-- A call on a generator whose assigned channels are in range, no channel being both a circuit and
-- a packet channel of one direction, keeps that so, for either direction and every mode. A channel
-- that it returns is in range and was not a circuit channel of that direction, and for a circuit
-- flow not a packet channel either.
pub get_and_assign-IsValid :
    (g : ChannelGenerator) (mode : ChannelAssignmentMode)
    → IsValid g
    → IsValid (get_and_assign_producer_dma_channel g mode).1
      × IsValid (get_and_assign_consumer_dma_channel g mode).1
      × ((c : ℕ)
          → (get_and_assign_producer_dma_channel g mode).0 ≡ some c
          → (c < g.num_producer_channels)
            × Admits g.assigned_circuit_producer_channels g.assigned_packet_producer_channels mode
                c)
      × ((c : ℕ)
          → (get_and_assign_consumer_dma_channel g mode).0 ≡ some c
          → (c < g.num_consumer_channels)
            × Admits g.assigned_circuit_consumer_channels g.assigned_packet_consumer_channels mode
                c)
unfolding get_and_assign_producer_dma_channel get_and_assign_consumer_dma_channel
get_and_assign-IsValid g mode v = (
  elim (Option-cases producer) [
    | inl e ↦ rw (e, get_and_assign_producer_dma_channel) v
    | inr (c, e) ↦
        rw (e, get_and_assign_producer_dma_channel)
          (producer-cases g mode c v (select-Admits _ _ _ mode c v.producers e))
  ],
  elim (Option-cases consumer) [
    | inl e ↦ rw (e, get_and_assign_consumer_dma_channel) v
    | inr (c, e) ↦
        rw (e, get_and_assign_consumer_dma_channel)
          (consumer-cases g mode c v (select-Admits _ _ _ mode c v.consumers e))
  ],
  λ c h. select-Admits _ _ _ mode c v.producers (ground (arith, h)),
  λ c h. select-Admits _ _ _ mode c v.consumers (ground (arith, h)),
)
  where
    producer : Option ℕ
    producer =
        select_channel g.num_producer_channels g.assigned_circuit_producer_channels
          g.assigned_packet_producer_channels mode

    consumer : Option ℕ
    consumer =
        select_channel g.num_consumer_channels g.assigned_circuit_consumer_channels
          g.assigned_packet_consumer_channels mode
