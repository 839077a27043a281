-- ===== src/Router/Path/Wires.antt =====
-- The wires between the stream switches of the array, said without the code: a port to a neighbour
-- is wired to the opposite port of the tile that lies in its direction, on the same channel.
use mathlib.Core.Path.{ap₂}
use iree_amd_aie.Prelude.{
  ℕ, ◌≡◌, ◌⊎◌, refl, sym, ap, ◌∙◌, Bool, true, false, ◌||◌, Bool-cases, inl, inr, Option, none,
  some, arith,
}
use iree_amd_aie.Prelude.Int.{ℤ, pos, negsuc, ◌+ℤ◌, ◌-ℤ◌, +ℤ_cancel, int_laws}
use iree_amd_aie.Prelude.IntRing.{eqb_ℤ, eqb_ℤ-eq, eqb_ℤ-refl}
use iree_amd_aie.Prelude.Result.{Result, ok, failure, fault}
use iree_amd_aie.Router.{StrmSwPortType, north, south, east, west, other, TileLoc, PhysPort}
use iree_amd_aie.Router.Path.{checked, neighbour, next}

-- The second tile lies in this direction of the first. Columns count to the east, rows to the north.
abbrev pub IsNextTo : StrmSwPortType → TileLoc → TileLoc → Type 0
IsNextTo east a b = (b.col ≡ a.col +ℤ pos 1) × (b.row ≡ a.row)
IsNextTo west a b = (a.col ≡ b.col +ℤ pos 1) × (b.row ≡ a.row)
IsNextTo north a b = (b.row ≡ a.row +ℤ pos 1) × (b.col ≡ a.col)
IsNextTo south a b = (a.row ≡ b.row +ℤ pos 1) × (b.col ≡ a.col)
IsNextTo (other k) a b = ⊥

abbrev pub opposite : StrmSwPortType → StrmSwPortType
opposite east = west
opposite west = east
opposite north = south
opposite south = north
opposite (other k) = other k

pub record Wired (p q : PhysPort) : Type 0 where
  pub next_to : IsNextTo p.port.bundle p.tile_loc q.tile_loc
  pub facing : q.port.bundle ≡ opposite p.port.bundle
  pub same_channel : q.port.channel ≡ p.port.channel

-- The wire would go to a column or a row of -1.
abbrev pub LeavesArray : PhysPort → Type 0
LeavesArray p =
    (t : TileLoc) × IsNextTo p.port.bundle p.tile_loc t × ((t.col ≡ negsuc 0) ⊎ (t.row ≡ negsuc 0))

-- What the code makes of the wire of a port.
abbrev pub NextIs : PhysPort → Result (Option PhysPort) → Type 0
NextIs p (ok none) = (¬ ((q : PhysPort) × Wired p q)) × (¬ (LeavesArray p))
NextIs p (ok (some s)) = Wired p s × ((q : PhysPort) → Wired p q → s ≡ q) × (¬ (LeavesArray p))
NextIs p failure = ⊥
NextIs p fault = LeavesArray p

tile-ext : (a b : TileLoc) → a.col ≡ b.col → a.row ≡ b.row → a ≡ b
tile-ext a b e f = ap₂ (λ x y. record { col = x; row = y }) e f

port-ext :
    (p q : PhysPort)
    → p.tile_loc ≡ q.tile_loc
    → p.port.bundle ≡ q.port.bundle
    → p.port.channel ≡ q.port.channel
    → p ≡ q
port-ext p q e f g =
    ap₂ (λ t z. record { tile_loc = t; port = z }) e
      (ap₂ (λ b c. record { bundle = b; channel = c }) f g)

clash : (b : Bool) → b ≡ true → b ≡ false → ⊥
clash b p q = cc

outside :
    (a b : ℤ) → (eqb_ℤ a (negsuc 0) || eqb_ℤ b (negsuc 0)) ≡ true → (a ≡ negsuc 0) ⊎ (b ≡ negsuc 0)
outside a b h = elim (Bool-cases (eqb_ℤ a (negsuc 0))) [
  | inl e ↦ inl (eqb_ℤ-eq a (negsuc 0) e)
  | inr e ↦ inr (eqb_ℤ-eq b (negsuc 0) (ground (arith, h, e)))
]

inside :
    (a b : ℤ)
    → (eqb_ℤ a (negsuc 0) || eqb_ℤ b (negsuc 0)) ≡ false
    → (a ≡ negsuc 0) ⊎ (b ≡ negsuc 0)
    → ⊥
inside a b h (inl e) = absurd (at_minus_one (eqb_ℤ b (negsuc 0)) (rw e at h))
  where
    at_minus_one : (k : Bool) → (eqb_ℤ (negsuc 0) (negsuc 0) || k) ≡ false → ⊥
    at_minus_one k g = clash _ (ground (arith, eqb_ℤ-refl (negsuc 0))) g
inside a b h (inr e) = absurd (at_minus_one (eqb_ℤ a (negsuc 0)) (rw e at h))
  where
    at_minus_one : (k : Bool) → (k || eqb_ℤ (negsuc 0) (negsuc 0)) ≡ false → ⊥
    at_minus_one k g = ground (arith, eqb_ℤ-refl (negsuc 0), g)

-- The tile in the direction of the port.
record IsOnlyNext (p : PhysPort) (t : TileLoc) : Type 0 where
  next_to : IsNextTo p.port.bundle p.tile_loc t
  only : (u : TileLoc) → IsNextTo p.port.bundle p.tile_loc u → t ≡ u

checked-NextIs :
    (p : PhysPort) (t : TileLoc)
    → IsOnlyNext p t
    → NextIs p (checked t (opposite p.port.bundle) p.port.channel)
checked-NextIs p t h = elim (Bool-cases (eqb_ℤ t.col (negsuc 0) || eqb_ℤ t.row (negsuc 0))) [
  | inl e ↦ rw e (t, h.next_to, outside t.col t.row e)
  | inr e ↦ rw e (
    record { next_to = h.next_to; facing = refl; same_channel = refl },
    λ q w. port-ext _ q (h.only q.tile_loc w.next_to) (sym w.facing) (sym w.same_channel),
    λ (u, n, out). inside t.col t.row e (at_t u (h.only u n) out),
  )
]
  where
    at_t :
        (u : TileLoc)
        → t ≡ u
        → (u.col ≡ negsuc 0) ⊎ (u.row ≡ negsuc 0)
        → (t.col ≡ negsuc 0) ⊎ (t.row ≡ negsuc 0)
    at_t u e (inl c) = inl (ap (λ z. z.col) e ∙ c)
    at_t u e (inr r) = inr (ap (λ z. z.row) e ∙ r)

below : (a b : ℤ) → a ≡ b +ℤ pos 1 → a -ℤ pos 1 ≡ b
below a b e = ap (λ z. z -ℤ pos 1) e ∙ +ℤ_cancel b (pos 1)

above : (a : ℤ) → a ≡ a -ℤ pos 1 +ℤ pos 1
above a = omega int_laws

neighbour-NextIs :
    (t : TileLoc) (b : StrmSwPortType) (c : ℕ)
    → NextIs (record { tile_loc = t; port = record { bundle = b; channel = c } }) (neighbour t b c)
neighbour-NextIs t east c =
    checked-NextIs (record { tile_loc = t; port = record { bundle = east; channel = c } })
      (record t { col = t.col +ℤ pos 1 })
      (record { next_to = (refl, refl); only = λ u h. tile-ext _ u (sym h.0) (sym h.1) })
neighbour-NextIs t west c =
    checked-NextIs (record { tile_loc = t; port = record { bundle = west; channel = c } })
      (record t { col = t.col -ℤ pos 1 })
      (record {
        next_to = (above t.col, refl);
        only = λ u h. tile-ext _ u (below t.col u.col h.0) (sym h.1);
      })
neighbour-NextIs t north c =
    checked-NextIs (record { tile_loc = t; port = record { bundle = north; channel = c } })
      (record t { row = t.row +ℤ pos 1 })
      (record { next_to = (refl, refl); only = λ u h. tile-ext _ u (sym h.1) (sym h.0) })
neighbour-NextIs t south c =
    checked-NextIs (record { tile_loc = t; port = record { bundle = south; channel = c } })
      (record t { row = t.row -ℤ pos 1 })
      (record {
        next_to = (above t.row, refl);
        only = λ u h. tile-ext _ u (sym h.1) (below t.row u.row h.0);
      })
neighbour-NextIs t (other k) c = (λ (q, w). w.next_to, λ (u, n, out). n)

pub next-NextIs : (p : PhysPort) → NextIs p (next p)
next-NextIs p = neighbour-NextIs p.tile_loc p.port.bundle p.port.channel
