-- ===== src/Amsel/Shared.antt =====
-- The invariant of an MSelGenerator: sources share a master select exactly if they go to the same
-- ports.
use mathlib.Core.Option.{some_inj}
use iree_amd_aie.Prelude.Result.{Ensures}
use iree_amd_aie.Prelude.{
  ℕ, ◌+◌, ◌≤◌, ◌<◌, ◌≡◌, ◌⊎◌, refl, sym, ap, ◌∙◌, true, Bool-cases, and_left, and_right, inl, inr,
  none, some, Option-cases, List, [], ◌∷◌, leb, ==_iff, ◌↔◌, arith,
}
use iree_amd_aie.Amsel.{
  PhysPortAndId, eq_port, eq_list, lookup, ports_of, MSelGenerator, connect, add_connection,
  get_msel,
}

eq_list-eq : (xs ys : List ℕ) → eq_list xs ys ≡ true → xs ≡ ys
eq_list-eq [] [] h = refl
eq_list-eq [] (y ∷ ys) h = cc
eq_list-eq (x ∷ xs) [] h = cc
eq_list-eq (x ∷ xs) (y ∷ ys) h =
    let e : x ≡ y = (==_iff x y).0 (and_left _ _ h) in
    let es : xs ≡ ys = eq_list-eq xs ys (and_right _ _ h) in rw (e, es) refl

eq_list_refl : (xs : List ℕ) → eq_list xs xs ≡ true
eq_list_refl [] = refl
eq_list_refl (x ∷ xs) = rw ((==_iff x x).1 refl, eq_list_refl xs) refl

eq_port_refl : (p : PhysPortAndId) → eq_port p p ≡ true
eq_port_refl p = rw ((==_iff p.port p.port).1 refl, (==_iff p.rest p.rest).1 refl) refl

-- Master selects in use are below the counter, which is at most the number of selects, and belong
-- to one list of ports each.
pub record IsValid (g : MSelGenerator) : Type 0 where
  pub counter : g.cur_msel ≤ g.num_msels
  pub bound : (k : List ℕ) (m : ℕ) → lookup eq_list k g.connection_to_msel ≡ some m → m < g.cur_msel
  pub unshared :
      (k l : List ℕ) (m : ℕ)
      → lookup eq_list k g.connection_to_msel ≡ some m
      → lookup eq_list l g.connection_to_msel ≡ some m
      → k ≡ l

-- A source that is connected has the select of its ports.
pub record Connected (src : PhysPortAndId) (ports : List ℕ) (g : MSelGenerator) : Type 0 where
  pub msel : ℕ
  pub selected : get_msel g src ≡ some msel
  pub in_range : msel < g.num_msels
  pub of_ports : lookup eq_list ports g.connection_to_msel ≡ some msel

get_msel-connect :
    (g : MSelGenerator) (src : PhysPortAndId) (ports : List ℕ) (cur m : ℕ)
    (entries : List (List ℕ × ℕ))
    → lookup eq_list ports entries ≡ some m
    → get_msel (connect g src ports cur entries) src ≡ some m
unfolding get_msel
get_msel-connect g src ports cur m entries h = rw (get_msel, eq_port_refl src) h

newest :
    (k : List ℕ) (m : ℕ) (entries : List (List ℕ × ℕ))
    → lookup eq_list k ((k, m) ∷ entries) ≡ some m
newest k m entries = rw (eq_list_refl k) refl

-- The entries after a new one.
new_entry :
    (k l : List ℕ) (n m : ℕ) (entries : List (List ℕ × ℕ))
    → lookup eq_list l ((k, n) ∷ entries) ≡ some m
    → ((k ≡ l) × (n ≡ m)) ⊎ (lookup eq_list l entries ≡ some m)
new_entry k l n m entries h = elim (Bool-cases (eq_list k l)) [
  | inl e ↦ inl (eq_list-eq k l e, some_inj.0 (ground (arith, h, e)))
  | inr e ↦ inr (ground (arith, h, e))
]

-- A new select is the counter, which no list of ports had.
connect-IsValid :
    (g : MSelGenerator) (src : PhysPortAndId) (ports : List ℕ)
    → IsValid g
    → lookup eq_list ports g.connection_to_msel ≡ none
    → g.cur_msel < g.num_msels
    → IsValid (connect g src ports (g.cur_msel + 1) ((ports, g.cur_msel) ∷ g.connection_to_msel))
connect-IsValid g src ports v fresh room = record {
  counter = omega (arith, room);
  bound = λ k m h. elim (new_entry ports k g.cur_msel m g.connection_to_msel h) [
    | inl e ↦ omega (arith, e.1)
    | inr e ↦ omega (arith, v.bound k m e)
  ];
  unshared = λ k l m h j. elim (new_entry ports k g.cur_msel m g.connection_to_msel h) [
    | inl e ↦ elim (new_entry ports l g.cur_msel m g.connection_to_msel j) [
      | inl f ↦ sym e.0 ∙ f.0
      | inr f ↦ absurd (above m e.1 (v.bound l m f))
    ]
    | inr e ↦ elim (new_entry ports l g.cur_msel m g.connection_to_msel j) [
      | inl f ↦ absurd (above m f.1 (v.bound k m e))
      | inr f ↦ v.unshared k l m e f
    ]
  ];
}
  where
    above : (m : ℕ) → g.cur_msel ≡ m → m < g.cur_msel → ⊥
    above m e h = omega arith

-- A connection that addConnection adds to a valid generator leaves it valid, and its source has a
-- select in range, that of its destination ports.
pub add_connection-Connected :
    (g : MSelGenerator) (src : PhysPortAndId) (dsts : List PhysPortAndId)
    → IsValid g
    → Ensures (λ h. IsValid h × Connected src (ports_of dsts) h) (add_connection g src dsts)
unfolding add_connection
add_connection-Connected g src dsts v =
    elim (Option-cases (lookup eq_list (ports_of dsts) g.connection_to_msel)) [
      | inr (m, e) ↦
          rw (add_connection, e)
            (
              record { counter = v.counter; bound = v.bound; unshared = v.unshared },
              record {
                msel = m;
                selected =
                    get_msel-connect g src (ports_of dsts) g.cur_msel m g.connection_to_msel e;
                in_range = omega (arith, v.counter, v.bound _ m e);
                of_ports = e;
              },
            )
      | inl e ↦ elim (Bool-cases (leb g.num_msels g.cur_msel)) [
        | inl f ↦ rw (add_connection, e, f) tt
        | inr f ↦
            rw (add_connection, e, f)
              (
                connect-IsValid g src (ports_of dsts) v e (ground arith),
                record {
                  msel = g.cur_msel;
                  selected =
                      get_msel-connect g src (ports_of dsts) (g.cur_msel + 1) g.cur_msel _
                        (newest (ports_of dsts) g.cur_msel g.connection_to_msel);
                  in_range = ground arith;
                  of_ports = newest (ports_of dsts) g.cur_msel g.connection_to_msel;
                },
              )
      ]
    ]

-- In a valid generator two sources get one select exactly if they are connected to the same ports.
pub get_msel-shared :
    (g : MSelGenerator) (p q : PhysPortAndId) (k l : List ℕ) (m : ℕ)
    → IsValid g
    → lookup eq_port p g.phys_port_to_connection ≡ some k
    → lookup eq_port q g.phys_port_to_connection ≡ some l
    → get_msel g p ≡ some m
    → (get_msel g q ≡ some m) ↔ (k ≡ l)
unfolding get_msel
get_msel-shared g p q k l m v hp hq h = (
  λ j. v.unshared k l m (at p k hp ∙ h) (at q l hq ∙ j),
  λ e. sym (at q l hq) ∙ ap (λ t. lookup eq_list t g.connection_to_msel) (sym e) ∙ at p k hp ∙ h,
)
  where
    at :
        (r : PhysPortAndId) (key : List ℕ)
        → lookup eq_port r g.phys_port_to_connection ≡ some key
        → lookup eq_list key g.connection_to_msel ≡ get_msel g r
    at r key e = rw (get_msel, e) refl
