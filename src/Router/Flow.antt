-- ===== src/Router/Flow.antt =====
-- iree_aie_router.cc: addFlow. The direction of a port goes with its place in the flow.
use mathlib.Core.Path.{subst}
use mathlib.Core.List.{append-nil}
use iree_amd_aie.Prelude.{
  ◌≡◌, refl, sym, ap, ◌∙◌, Bool, true, false, ◌||◌, Bool-cases, inl, inr, Option, none, some, List,
  [], ◌∷◌, ◌++◌, if◌then◌else◌, if_elim, All, All-append,
}
use iree_amd_aie.Prelude.Int.{ℤ, pos, negsuc, ◌+ℤ◌, ltb_ℤ}
use iree_amd_aie.Router.{PhysPort, eq_phys_port}
use iree_amd_aie.Router.Equal.{eq_phys_port-eq, eq_phys_port_refl}

pub record Flow : Type 0 where
  pub packet_group_id : ℤ
  pub src : PhysPort
  pub dsts : List PhysPort

abbrev max_ℤ : ℤ → ℤ → ℤ
max_ℤ a b = if ltb_ℤ a b then b else a

abbrev pub reaches : PhysPort → List PhysPort → Bool
reaches d [] = false
reaches d (e ∷ dsts) = eq_phys_port e d || reaches d dsts

abbrev pub prepend : Flow → Option (List Flow) → Option (List Flow)
prepend f none = none
prepend f (some changed) = some (f ∷ changed)

-- The flow that has the source gets the destination.
unfoldable pub add_to_existing : PhysPort → PhysPort → List Flow → Option (List Flow)
add_to_existing src dst [] = none
add_to_existing src dst (f ∷ flows) =
    let rest = add_to_existing src dst flows in
    if eq_phys_port f.src src
    then some (record f { dsts = f.dsts ++ (dst ∷ []) } ∷ flows)
    else prepend f rest

-- The loop over the flows, from a group id and whether one was found: a shared source ends it, a
-- shared destination does not, and the largest id so far is kept in both cases.
unfoldable pub find_group_id : PhysPort → PhysPort → List Flow → ℤ → Bool → ℤ × Bool
find_group_id src dst [] id found = (id, found)
find_group_id src dst (f ∷ flows) id found =
    let shared = find_group_id src dst flows (max_ℤ f.packet_group_id f.packet_group_id) true in
    let rest = find_group_id src dst flows (max_ℤ id f.packet_group_id) found in
    if eq_phys_port f.src src
    then (f.packet_group_id, true)
    else if reaches dst f.dsts
    then shared
    else rest

-- Circuit flows have the id -1.
unfoldable pub group_id_for : Bool → PhysPort → PhysPort → List Flow → ℤ
group_id_for is_packet_flow src dst flows =
    let (id, found) = find_group_id src dst flows (negsuc 0) false in
    if is_packet_flow then (if found then id else id +ℤ pos 1) else negsuc 0

abbrev pub or_append : Option (List Flow) → List Flow → Flow → List Flow
or_append (some changed) flows f = changed
or_append none flows f = flows ++ (f ∷ [])

unfoldable pub add_flow : PhysPort → PhysPort → Bool → List Flow → List Flow
add_flow src dst is_packet_flow flows = or_append (add_to_existing src dst flows) flows (record {
  packet_group_id = group_id_for is_packet_flow src dst flows;
  src = src;
  dsts = dst ∷ [];
})

-- The destinations of a source, in the order in which they came.
abbrev pub destinations : PhysPort → List Flow → List PhysPort
destinations s [] = []
destinations s (f ∷ flows) =
    let rest = destinations s flows in if eq_phys_port f.src s then f.dsts ++ rest else rest

-- No two flows share a source.
abbrev pub IsNewSource : PhysPort → List Flow → Type 0
IsNewSource s = All (λ f. eq_phys_port f.src s ≡ false)

abbrev pub AreSeparate : List Flow → Type 0
AreSeparate [] = Unit
AreSeparate (f ∷ flows) = IsNewSource f.src flows × AreSeparate flows

destinations-new :
    (s : PhysPort) (flows : List Flow) → IsNewSource s flows → destinations s flows ≡ []
destinations-new s [] h = refl
destinations-new s (f ∷ flows) h = rw h.0 (destinations-new s flows h.1)

-- What addFlow does to a list of flows.
pub record Added (src dst : PhysPort) (old new : List Flow) : Type 0 where
  pub separate : AreSeparate new
  pub extended : destinations src new ≡ destinations src old ++ (dst ∷ [])
  pub kept : (s : PhysPort) → eq_phys_port src s ≡ false → destinations s new ≡ destinations s old

-- What the search for the source returns.
abbrev Outcome : PhysPort → PhysPort → List Flow → Option (List Flow) → Type 0
Outcome src dst flows none = IsNewSource src flows
Outcome src dst flows (some new) =
    Added src dst flows new × ((s : PhysPort) → IsNewSource s flows → IsNewSource s new)

extended_first :
    (src dst : PhysPort) (f : Flow) (flows : List Flow)
    → AreSeparate (f ∷ flows)
    → eq_phys_port f.src src ≡ true
    → Outcome src dst (f ∷ flows) (some (record f { dsts = f.dsts ++ (dst ∷ []) } ∷ flows))
extended_first src dst f flows a e =
    let same : f.src ≡ src = eq_phys_port-eq f.src src e in
    let none_more : destinations src flows ≡ [] =
      destinations-new src flows (subst (λ s. IsNewSource s flows) same a.0) in
    (
      record {
        separate = a;
        extended =
            rw (e, none_more)
              (append-nil (f.dsts ++ (dst ∷ []))
                ∙ ap (λ l. l ++ (dst ∷ [])) (sym (append-nil f.dsts)));
        kept = λ s d. rw (subst (λ z. eq_phys_port z s ≡ false) (sym same) d);
      },
      λ s n. n,
    )

prepend-Outcome :
    (src dst : PhysPort) (f : Flow) (flows : List Flow) (o : Option (List Flow))
    → AreSeparate (f ∷ flows)
    → eq_phys_port f.src src ≡ false
    → Outcome src dst flows o
    → Outcome src dst (f ∷ flows) (prepend f o)
prepend-Outcome src dst f flows none a e h = (e, h)
prepend-Outcome src dst f flows (some new) a e h =
    let added = h.0 in
    (
      record {
        separate = (h.1 f.src a.0, added.separate);
        extended = rw e added.extended;
        kept = λ s d. elim (Bool-cases (eq_phys_port f.src s)) [
          | inl t ↦ rw t (ap (λ l. f.dsts ++ l) (added.kept s d))
          | inr t ↦ rw t (added.kept s d)
        ];
      },
      λ s n. (n.0, h.1 s n.1),
    )

add_to_existing-Outcome :
    (src dst : PhysPort) (flows : List Flow)
    → AreSeparate flows
    → Outcome src dst flows (add_to_existing src dst flows)
unfolding add_to_existing
add_to_existing-Outcome src dst [] a = tt
add_to_existing-Outcome src dst (f ∷ flows) a =
    if_elim (Outcome src dst (f ∷ flows)) (eq_phys_port f.src src) _ _
      (λ e. extended_first src dst f flows a e)
      (λ e.
        prepend-Outcome src dst f flows (add_to_existing src dst flows) a e
          (add_to_existing-Outcome src dst flows a.1))

not_same : (a b : PhysPort) → eq_phys_port b a ≡ false → eq_phys_port a b ≡ false
not_same a b h = elim (Bool-cases (eq_phys_port a b)) [
  | inl e ↦ absurd (clash (subst (λ z. eq_phys_port z a ≡ false) (sym (eq_phys_port-eq a b e)) h))
  | inr e ↦ e
]
  where
    clash : eq_phys_port a a ≡ false → ⊥
    clash h = differ (eq_phys_port a a) (eq_phys_port_refl a) h
      where
        differ : (b : Bool) → b ≡ true → b ≡ false → ⊥
        differ b p q = cc

append-Added :
    (src dst : PhysPort) (id : ℤ) (flows : List Flow)
    → AreSeparate flows
    → IsNewSource src flows
    → Added src dst flows
        (flows ++ (record { packet_group_id = id; src = src; dsts = dst ∷ [] } ∷ []))
append-Added src dst id [] a n = record {
  separate = (tt, tt);
  extended = rw (eq_phys_port_refl src);
  kept = λ s d. rw d;
}
append-Added src dst id (f ∷ flows) a n =
    let rest = append-Added src dst id flows a.1 n.1 in
    record {
      separate = (
        All-append (λ g. eq_phys_port g.src f.src ≡ false) flows _ a.0 (not_same src f.src n.0, tt),
        rest.separate,
      );
      extended = rw n.0 rest.extended;
      kept = λ s d. elim (Bool-cases (eq_phys_port f.src s)) [
        | inl t ↦ rw t (ap (λ l. f.dsts ++ l) (rest.kept s d))
        | inr t ↦ rw t (rest.kept s d)
      ];
    }

-- addFlow, for flows of different sources: the sources of the new flows are different, the
-- destinations of the source are those before and the new one after them, and those of any other
-- source are the same as before.
pub add_flow-Added :
    (src dst : PhysPort) (is_packet_flow : Bool) (flows : List Flow)
    → AreSeparate flows
    → Added src dst flows (add_flow src dst is_packet_flow flows)
unfolding add_flow
add_flow-Added src dst is_packet_flow flows a =
    finish (add_to_existing src dst flows) (add_to_existing-Outcome src dst flows a)
  where
    finish :
        (o : Option (List Flow))
        → Outcome src dst flows o
        → Added src dst flows (
            or_append o flows (record {
              packet_group_id = group_id_for is_packet_flow src dst flows;
              src = src;
              dsts = dst ∷ [];
            }))
    finish none h = append-Added src dst (group_id_for is_packet_flow src dst flows) flows a h
    finish (some new) h = h.0
