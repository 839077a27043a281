-- ===== src/Buffers/Sequential.antt =====
-- The sequential scheme gives out the addresses from the stack on, one buffer after the other.
use iree_amd_aie.Prelude.Result.{ok, Ensures_at, Ensures-if}
use iree_amd_aie.Prelude.{
  ℕ, ◌+◌, ◌≤◌, ◌≡◌, refl, ap, inl, none, List, [], ◌∷◌, map, ltb, All, arith,
}
use iree_amd_aie.Buffers.{Buffer, assign_from, basic_allocation}
use iree_amd_aie.Buffers.Placement.{Apart, AllApart}
use iree_amd_aie.Buffers.Preset.{place_of, IsAssigned}

-- Addresses between two bounds.
abbrev pub Within : ℕ → ℕ → ℕ × ℕ → Type 0
Within low high p = (low ≤ p.0) × (p.0 + p.1 ≤ high)

assign_from_mono : (a : ℕ) (bs : List Buffer) → a ≤ (assign_from a bs).0
unfolding assign_from
assign_from_mono a [] = omega arith
assign_from_mono a (b ∷ bs) = omega (arith, assign_from_mono (a + b.size) bs)

widen :
    (low low' high : ℕ) (ps : List (ℕ × ℕ))
    → low ≤ low'
    → All (Within low' high) ps
    → All (Within low high) ps
widen low low' high [] h w = tt
widen low low' high (p ∷ ps) h w = ((omega (arith, w.0.0), w.0.1), widen low low' high ps h w.1)

apart : (a n high : ℕ) (ps : List (ℕ × ℕ)) → All (Within (a + n) high) ps → All (Apart (a, n)) ps
apart a n high [] w = tt
apart a n high (p ∷ ps) w = (inl w.0.0, apart a n high ps w.1)

assign_from-Within :
    (a : ℕ) (bs : List Buffer)
    → All IsAssigned (assign_from a bs).1
      × AllApart (map place_of (assign_from a bs).1)
      × All (Within a (assign_from a bs).0) (map place_of (assign_from a bs).1)
unfolding assign_from
assign_from-Within a [] = (tt, tt, tt)
assign_from-Within a (b ∷ bs) =
    let r = assign_from-Within (a + b.size) bs in
    let w = r.2 in
    (
      ((a, refl), r.0),
      (apart a b.size _ _ w, r.1),
      ((omega arith, assign_from_mono (a + b.size) bs), widen a (a + b.size) _ _ (omega arith) w),
    )

-- A buffer without its address.
abbrev pub unaddressed : Buffer → Buffer
unaddressed b = record b { address = none }

assign_from-unaddressed :
    (a : ℕ) (bs : List Buffer) → map unaddressed (assign_from a bs).1 ≡ map unaddressed bs
unfolding assign_from
assign_from-unaddressed a [] = refl
assign_from-unaddressed a (b ∷ bs) =
    ap (λ t. unaddressed b ∷ t) (assign_from-unaddressed (a + b.size) bs)

-- When basicAllocation succeeds, its result holds the buffers of the tile in their order, with
-- nothing changed but the address; every buffer has an address, no two share one, and all lie between
-- the end of the stack and the end of the memory.
pub basic_allocation-Within :
    (stack limit : ℕ) (buffers bs : List Buffer)
    → basic_allocation stack limit buffers ≡ ok bs
    → (map unaddressed bs ≡ map unaddressed buffers)
      × All IsAssigned bs
      × AllApart (map place_of bs)
      × All (Within stack limit) (map place_of bs)
unfolding basic_allocation
basic_allocation-Within stack limit buffers bs h =
    Ensures_at Good _ bs
      (Ensures-if Good (ltb limit (assign_from stack buffers).0) _ _ (λ t. tt)
        λ t. (
          assign_from-unaddressed stack buffers,
          r.0,
          r.1,
          narrow (assign_from stack buffers).0 _ (ground arith) r.2,
        ))
      h
  where
    Good : List Buffer → Type 0
    Good cs =
        (map unaddressed cs ≡ map unaddressed buffers)
        × All IsAssigned cs
        × AllApart (map place_of cs)
        × All (Within stack limit) (map place_of cs)

    r :
        All IsAssigned (assign_from stack buffers).1
        × AllApart (map place_of (assign_from stack buffers).1)
        × All
            (Within stack (assign_from stack buffers).0)
            (map place_of (assign_from stack buffers).1)
    r = assign_from-Within stack buffers

    narrow :
        (high : ℕ) (ps : List (ℕ × ℕ))
        → high ≤ limit
        → All (Within stack high) ps
        → All (Within stack limit) ps
    narrow high [] l w = tt
    narrow high (p ∷ ps) l w = ((w.0.0, omega (arith, w.0.1)), narrow high ps l w.1)
