-- ===== src/Generators/Channel/RoundRobin.antt =====
-- The round robin mode: once no channel is free, the calls go round the packet channels.
use mathlib.Core.List.{append_assoc, append-nil}
use iree_amd_aie.Prelude.{
  ℕ, zero, suc, ◌+◌, ◌≡◌, refl, false, Option, none, some, List, [], ◌∷◌, ◌++◌, arith, ==_iff, mem,
  remove, mem-append, Nodup, length, map, sym, ◌∙◌,
}
use iree_amd_aie.Generators.Channel.{
  round_robin_packet_flow, ChannelGenerator, find_first_available_channel, first_available_from,
  front, select_channel, assign_producer_dma_channel, get_and_assign_producer_dma_channel,
}

remove-absent : (x : ℕ) (xs : List ℕ) → mem x xs ≡ false → remove x xs ≡ xs
remove-absent x [] h = refl
remove-absent x (y ∷ ys) h = ground (arith, remove-absent x ys)

-- No producer channel is free for a new circuit or packet flow.
abbrev pub IsFull : ChannelGenerator → Type 0
IsFull g =
    find_first_available_channel g.num_producer_channels
      (g.assigned_circuit_producer_channels ∷ g.assigned_packet_producer_channels ∷ [])
    ≡ none

first_available_from-ext :
    (n i : ℕ) (circuit packet packet' : List ℕ)
    → ((c : ℕ) → mem c packet ≡ mem c packet')
    → first_available_from n i (circuit ∷ packet ∷ [])
      ≡ first_available_from n i (circuit ∷ packet' ∷ [])
unfolding first_available_from
first_available_from-ext zero i circuit packet packet' e = refl
first_available_from-ext (suc n) i circuit packet packet' e =
    ground (arith, e i, first_available_from-ext n (i + 1) circuit packet packet' e)

mem-rotate : (x c : ℕ) (xs : List ℕ) → mem c (xs ++ (x ∷ [])) ≡ mem c (x ∷ xs)
mem-rotate x c xs = rw (mem-append c xs (x ∷ [])) (ground arith)

Nodup-rotate : (x : ℕ) (xs : List ℕ) → Nodup (x ∷ xs) → Nodup (xs ++ (x ∷ []))
Nodup-rotate x [] n = (refl, tt)
Nodup-rotate x (y ∷ ys) n = (
  ground (arith, mem-rotate x y ys, n.1.0, ==_iff x y, ==_iff y x),
  Nodup-rotate x ys (ground arith, n.1.1),
)

-- A full generator hands out the packet channel at the front, and moves it to the end.
round_robin_step :
    (g : ChannelGenerator) (x : ℕ) (xs : List ℕ)
    → IsFull g
    → g.assigned_packet_producer_channels ≡ x ∷ xs
    → mem x xs ≡ false
    → get_and_assign_producer_dma_channel g round_robin_packet_flow
      ≡ (some x, record g { assigned_packet_producer_channels = xs ++ (x ∷ []) })
unfolding get_and_assign_producer_dma_channel select_channel front assign_producer_dma_channel
round_robin_step g x xs f e m = ground (arith, f, e, remove-absent x xs m, ==_iff x x)

-- The channels that `k` round robin requests return, and the generator that they leave.
abbrev pub round_robin : ℕ → ChannelGenerator → List (Option ℕ) × ChannelGenerator
round_robin zero g = ([], g)
round_robin (suc k) g =
    let (c, g') = get_and_assign_producer_dma_channel g round_robin_packet_flow in
    let (cs, h) = round_robin k g' in (c ∷ cs, h)

abbrev rotated : ChannelGenerator → List ℕ → ChannelGenerator
rotated g p = record g { assigned_packet_producer_channels = p }

rotated-IsFull :
    (g : ChannelGenerator) (x : ℕ) (xs : List ℕ)
    → IsFull g
    → g.assigned_packet_producer_channels ≡ x ∷ xs
    → IsFull (rotated g (xs ++ (x ∷ [])))
unfolding find_first_available_channel
rotated-IsFull g x xs f e =
    let same =
      first_available_from-ext g.num_producer_channels 0 g.assigned_circuit_producer_channels
        g.assigned_packet_producer_channels (xs ++ (x ∷ [])) (λ c. rw (e, mem-rotate x c xs)) in
    sym same ∙ f

-- Once no producer channel is free, round robin requests hand out the packet channels in turn,
-- each front channel going to the end: after as many requests as `xs` is long, the channels `xs`
-- at the front have been handed out in order and follow the others, and nothing else has changed.
pub round_robin_cycle :
    (xs ys : List ℕ) (g : ChannelGenerator)
    → IsFull g
    → g.assigned_packet_producer_channels ≡ xs ++ ys
    → Nodup (xs ++ ys)
    → round_robin (length xs) g
      ≡ (map some xs, record g { assigned_packet_producer_channels = ys ++ xs })
round_robin_cycle [] ys g f e n = rw (append-nil, ← e)
round_robin_cycle (x ∷ xs) ys g f e n =
    let step = round_robin_step g x (xs ++ ys) f e n.0 in
    let turned = append_assoc xs ys (x ∷ []) in
    let rest =
      round_robin_cycle xs (ys ++ (x ∷ [])) (rotated g ((xs ++ ys) ++ (x ∷ [])))
        (rotated-IsFull g x (xs ++ ys) f e) turned (rw (← turned) (Nodup-rotate x (xs ++ ys) n)) in
    rw step (ground (arith, rest, append_assoc ys (x ∷ []) xs))
