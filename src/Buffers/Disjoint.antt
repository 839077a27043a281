-- ===== src/Buffers/Disjoint.antt =====
-- The second pass of the bank-aware scheme, and the whole of it: no address is given out twice,
-- where every buffer fits a bank.
use mathlib.Core.Path.{subst}
use mathlib.Core.List.{map-append}
use mathlib.Core.Option.{some_inj}
use native.Mathlib.Nat.{div-add-mod, div-eq_of_lt, add-div_right, mod-eq_of_lt, mod-lt}
use iree_amd_aie.Prelude.Result.{ok, Ensures, Ensures_at, Ensures-bind, Ensures-if}
use iree_amd_aie.Prelude.Products.{mul_below}
use iree_amd_aie.Prelude.{
  ℕ, zero, suc, ◌+◌, ◌-◌, ◌*◌, ◌/◌, ◌%◌, ◌≤◌, ◌<◌, ◌≡◌, refl, sym, ap, ◌∙◌, inl, inr, Option, none,
  some, Option-cases, List, [], ◌∷◌, ◌++◌, map, length, ltb, ◌==◌, set, get_elem?, All, All-append,
  arith, get_elem?-set_self,
}
use iree_amd_aie.Buffers.{
  Buffer, BankState, Banks, set_next, total_available, ceil_div, take_bank, try_window, find_window,
  update_next, write_ends, use_window, set_buffer_address, init_banks, reserve_stack, set_addresses,
  allocate_in_banks, bank_aware_allocation,
}
use iree_amd_aie.Buffers.Placement.{
  Apart, AllApart, AllApart-move, All-move, All-map, IsPlaced, place-IsPlaced, get_elem?-lt,
}
use iree_amd_aie.Buffers.Preset.{
  place_of, IsAssigned, Fits, Placed, AllChecked, check_buffers-AllChecked,
}
use iree_amd_aie.Buffers.Presets.{Sorts, All-perm, AreKept}
use iree_amd_aie.Buffers.Presets.Kept.{allocation-AreKept}

-- One bank is enough for a buffer that fits one.
ceil_div-one : (n m : ℕ) → 1 ≤ n → n ≤ m → ceil_div n m ≡ 1
ceil_div-one n m p q =
    ap (λ k. k / m) (split (omega arith))
    ∙ add-div_right (n - 1) {k = m} (omega arith)
    ∙ ap (λ k. k + 1) (div-eq_of_lt {n = n - 1} {m = m} (omega arith))
  where
    split : 1 ≤ n → n + m - 1 ≡ (n - 1) + m
    split h = omega arith

-- A window of one bank.
record OneBank (banks : Banks) (size : ℕ) (w : ℕ × List (ℕ × ℕ)) : Type 0 where
  bank : BankState
  there : get_elem? banks w.0 ≡ some bank
  fits : bank.next_addr + size ≤ bank.end_addr
  small : w.0 < length banks
  taken : w.1 ≡ (bank.next_addr, bank.next_addr + size) ∷ []

try_window-one :
    (i size : ℕ) (banks : Banks) (temp : List (ℕ × ℕ)) (r : Option BankState)
    → get_elem? banks (i % length banks) ≡ r
    → i < length banks
    → take_bank size r (λ rest. try_window 0 (i + 1) rest banks) ≡ some temp
    → OneBank banks size (i, temp)
unfolding take_bank try_window
try_window-one i size banks temp none e l h = cc
try_window-one i size banks temp (some s) e l h = record {
  bank = s;
  there = ap (λ k. get_elem? banks k) (sym (mod-eq_of_lt {n = i} {m = length banks} l)) ∙ e;
  fits = ground (arith, h);
  small = l;
  taken = ground (arith, h);
}

find_window-one :
    (k start size : ℕ) (banks : Banks) (w : ℕ × List (ℕ × ℕ))
    → 0 < length banks
    → find_window k start 1 size banks ≡ some w
    → OneBank banks size w
unfolding find_window try_window
find_window-one zero start size banks w l h = cc
find_window-one (suc k) start size banks w l h =
    elim (Option-cases (try_window 1 (start % length banks) size banks)) [
      | inl e ↦ find_window-one k (start + 1) size banks w l (ground (arith, h, e))
      | inr (temp, e) ↦ subst (OneBank banks size) (ground (arith, h, e)) (
          try_window-one (start % length banks) size banks temp _ refl
            (mod-lt start {m = length banks} l) e)
    ]

find_window-OneBank :
    (start size : ℕ) (banks : Banks) (w : ℕ × List (ℕ × ℕ))
    → find_window (length banks) start 1 size banks ≡ some w
    → OneBank banks size w
unfolding find_window
find_window-OneBank start size [] w h = cc
find_window-OneBank start size (s ∷ banks) w h =
    find_window-one (length (s ∷ banks)) start size (s ∷ banks) w (omega arith) h

set-set : {A : Type 0} (xs : List A) (i : ℕ) (x y : A) → set (set xs i x) i y ≡ set xs i y
set-set [] i x y = refl
set-set (z ∷ xs) zero x y = refl
set-set (z ∷ xs) (suc i) x y = ap (λ t. z ∷ t) (set-set xs i x y)

update_next-at :
    (banks : Banks) (i e : ℕ) (s : BankState)
    → get_elem? banks i ≡ some s
    → update_next banks i e ≡ set_next banks i s e
update_next-at banks i e s h = rw (update_next, h) refl

-- The bank's next address is written twice.
update_next-twice :
    (banks : Banks) (i e : ℕ) (s : BankState)
    → get_elem? banks i ≡ some s
    → update_next (update_next banks i e) i e ≡ set_next banks i s e
update_next-twice banks i e s h =
    ap (λ b. update_next b i e) (update_next-at banks i e s h)
    ∙ update_next-at (set_next banks i s e) i e (record s { next_addr = e })
        (get_elem?-set_self banks i _ (get_elem?-lt banks i s h))
    ∙ set-set banks i _ _

module _ (bank_size limit : ℕ) (banks : Banks) (ps : List (ℕ × ℕ))
    (v : IsPlaced bank_size limit banks ps) where
  use_window-Placed :
      (b : Buffer) (i : ℕ) (temp : List (ℕ × ℕ))
      → OneBank banks b.size (i, temp)
      → Ensures (λ r. Placed bank_size limit ps (r.0, r.2)) (use_window b 1 banks i temp)
  unfolding use_window write_ends
  use_window-Placed b i [] w = tt
  use_window-Placed b i (t ∷ u ∷ temp) w = absurd (no_two (ap length w.taken))
    where
      no_two : length (t ∷ u ∷ temp) ≡ 1 → ⊥
      no_two e = omega arith
  use_window-Placed b i (t ∷ []) w =
      let s = w.bank in
      let one : t ≡ (s.next_addr, s.next_addr + b.size) = cc in
      let banks' : update_next (update_next banks (i % length banks) t.1) i t.1
          ≡ set_next banks i s (s.next_addr + b.size) =
        ap (λ k. update_next (update_next banks k t.1) i t.1)
          (mod-eq_of_lt {n = i} {m = length banks} w.small)
        ∙ update_next-twice banks i t.1 s w.there
        ∙ ap (λ e. set_next banks i s e) (ap (λ p. p.1) one) in
      (
        (t.0, refl),
        subst (λ bs. IsPlaced bank_size limit bs ((t.0, b.size) ∷ ps)) (sym banks')
            (subst
              (λ a.
                IsPlaced bank_size limit (set_next banks i s (s.next_addr + b.size))
                  ((a, b.size) ∷ ps))
              (sym (ap (λ p. p.0) one))
              (place-IsPlaced bank_size limit banks i s s.next_addr b.size w.there (omega arith)
                w.fits ps v)),
      )

  pub set_buffer_address-Placed :
      (b : Buffer) (start : ℕ)
      → Fits bank_size b
      → Ensures
          (λ r. Placed bank_size limit ps (r.0, r.2))
          (set_buffer_address b bank_size start banks)
  unfolding set_buffer_address
  set_buffer_address-Placed b start f =
      let one = ceil_div-one b.size bank_size f.0 f.1 in
      Ensures-if (λ r. Placed bank_size limit ps (r.0, r.2)) (ltb (total_available banks) b.size) _
        _ (λ t. tt)
        λ t.
          Ensures-if (λ r. Placed bank_size limit ps (r.0, r.2)) (bank_size == 0) _ _ (λ u. tt)
            λ u.
              elim (Option-cases
                (find_window (length banks) start (ceil_div b.size bank_size) b.size banks)) [
                  | inl n ↦ rw n tt
                  | inr (w, h) ↦ rw h (
                      subst
                        (λ k.
                          Ensures (λ r. Placed bank_size limit ps (r.0, r.2))
                            (use_window b k banks w.0 w.1))
                        (sym one)
                        (use_window-Placed b w.0 w.1 (
                          find_window-OneBank start b.size banks w (
                            subst (λ k. find_window (length banks) start k b.size banks ≡ some w)
                              one h))))
                ]

-- Intervals with no address in common, within the memory.
abbrev pub AreDisjoint : ℕ → List (ℕ × ℕ) → Type 0
AreDisjoint limit ps = AllApart ps × All (λ p. p.0 + p.1 ≤ limit) ps

module _ (bank_size limit : ℕ) where
  IsPlaced-AreDisjoint :
      (banks : Banks) (ps : List (ℕ × ℕ)) → IsPlaced bank_size limit banks ps → AreDisjoint limit ps
  IsPlaced-AreDisjoint banks ps v = (
    v.apart,
    All-map ps
        (λ p t. let b = v.is_bank t.index t.bank t.there in omega (arith, t.to, b.next, b.within))
        v.taken,
  )

  set_addresses-AreDisjoint :
      (buffers : List Buffer) (start : ℕ) (banks : Banks) (ps : List (ℕ × ℕ))
      → All (Fits bank_size) buffers
      → IsPlaced bank_size limit banks ps
      → Ensures
          (λ bs. All IsAssigned bs × AreDisjoint limit (map place_of bs ++ ps))
          (set_addresses buffers bank_size start banks)
  unfolding set_addresses
  set_addresses-AreDisjoint [] start banks ps f v = (tt, IsPlaced-AreDisjoint banks ps v)
  set_addresses-AreDisjoint (b ∷ buffers) start banks ps f v =
      Ensures-bind (λ r. Placed bank_size limit ps (r.0, r.2)) _ _ _
        (set_buffer_address-Placed bank_size limit banks ps v b start f.0)
        λ r k.
          Ensures-bind
            (λ bs. All IsAssigned bs × AreDisjoint limit (map place_of bs ++ (place_of r.0 ∷ ps))) _
            _ _ (set_addresses-AreDisjoint buffers r.1 r.2 (place_of r.0 ∷ ps) f.1 k.1)
            λ bs j. (
              (k.0, j.0),
              (
                AllApart-move (map place_of bs) (place_of r.0) ps j.1.0,
                All-move _ (map place_of bs) (place_of r.0) ps j.1.1,
              ),
            )

-- The order of the lists does not matter.
All-swap :
    (P : ℕ × ℕ → Type 0) (xs ys zs : List (ℕ × ℕ))
    → All P (xs ++ (ys ++ zs))
    → All P (ys ++ xs ++ zs)
All-swap P xs [] zs h = h
All-swap P xs (y ∷ ys) zs h = let r = All-move P xs y (ys ++ zs) h in (r.0, All-swap P xs ys zs r.1)

AllApart-swap : (xs ys zs : List (ℕ × ℕ)) → AllApart (xs ++ (ys ++ zs)) → AllApart (ys ++ xs ++ zs)
AllApart-swap xs [] zs h = h
AllApart-swap xs (y ∷ ys) zs h =
    let r = AllApart-move xs y (ys ++ zs) h in
    (All-swap (Apart y) xs ys zs r.0, AllApart-swap xs ys zs r.1)

AreDisjoint-swap :
    (limit : ℕ) (bs cs : List Buffer) (ps : List (ℕ × ℕ))
    → AreDisjoint limit (map place_of bs ++ (map place_of cs ++ ps))
    → AreDisjoint limit (map place_of (cs ++ bs) ++ ps)
AreDisjoint-swap limit bs cs ps h =
    subst (λ l. AreDisjoint limit (l ++ ps)) (sym (map-append place_of cs bs))
      (
        AllApart-swap (map place_of bs) (map place_of cs) ps h.0,
        All-swap _ (map place_of bs) (map place_of cs) ps h.1,
      )

-- The banks at the start.
at_init :
    (n i j bank_size : ℕ) (s : BankState)
    → get_elem? (init_banks n i bank_size) j ≡ some s
    → (j < n) × (s.next_addr ≡ (i + j) * bank_size) × (s.end_addr ≡ (i + j + 1) * bank_size)
unfolding init_banks
at_init zero i j bank_size s h = cc
at_init (suc n) i zero bank_size s h =
    let e : i ≡ i + 0 = omega arith in
    (
      omega arith,
      ap (λ b. b.next_addr) (some_inj.0 (sym h)) ∙ ap (λ k. k * bank_size) e,
      ap (λ b. b.end_addr) (some_inj.0 (sym h)) ∙ ap (λ k. (k + 1) * bank_size) e,
    )
at_init (suc n) i (suc j) bank_size s h =
    let r = at_init n (i + 1) j bank_size s h in
    let e : i + 1 + j ≡ i + suc j = omega arith in
    (omega (arith, r.0), r.1 ∙ ap (λ k. k * bank_size) e, r.2 ∙ ap (λ k. (k + 1) * bank_size) e)

init_banks-IsPlaced :
    (n bank_size limit : ℕ)
    → n * bank_size ≤ limit
    → IsPlaced bank_size limit (init_banks n 0 bank_size) []
init_banks-IsPlaced n m limit p = record {
  is_bank = λ j s h.
      let r = at_init n 0 j m s h in
      let e : (0 + j) * m ≡ j * m = ap (λ k. k * m) (omega arith) in
      let f : (0 + j + 1) * m ≡ j * m + m = omega (arith, succ j) in
      record {
        start = omega (arith, r.1, e);
        next = omega (arith, r.1, r.2, e, f);
        end = r.2 ∙ f;
        within = omega (arith, r.2, f, mul_below j n m r.0);
      };
  taken = tt;
  apart = tt;
}
  where
    succ : (j : ℕ) → (0 + j + 1) * m ≡ j * m + m
    succ j = omega arith

-- The addresses of the stack.
abbrev pub reserved : Option ℕ → List (ℕ × ℕ)
reserved none = []
reserved (some stack_size) = (0, stack_size) ∷ []

reserve_stack-IsPlaced :
    (n bank_size limit stack_size : ℕ) (banks : Banks)
    → init_banks n 0 bank_size ≡ banks
    → stack_size ≤ bank_size
    → n * bank_size ≤ limit
    → 1 ≤ n
    → IsPlaced bank_size limit (reserve_stack stack_size banks) ((0, stack_size) ∷ [])
unfolding reserve_stack init_banks
reserve_stack-IsPlaced n m limit stack [] e p q l = absurd (none_left n e l)
  where
    none_left : (k : ℕ) → init_banks k 0 m ≡ [] → 1 ≤ k → ⊥
    none_left zero h u = omega arith
    none_left (suc k) h u = cc
reserve_stack-IsPlaced n m limit stack (s ∷ banks) e p q l =
    let r = at_init n 0 0 m s (ap (λ b. get_elem? b 0) e) in
    let z : s.next_addr ≡ 0 = r.1 ∙ omega arith in
    let w : s.end_addr ≡ m = r.2 ∙ omega arith in
    let v = subst (λ b. IsPlaced m limit b []) e (init_banks-IsPlaced n m limit q) in
    subst (λ a. IsPlaced m limit (set_next (s ∷ banks) 0 s (a + stack)) ((0, stack) ∷ [])) (sym z)
      (place-IsPlaced m limit (s ∷ banks) 0 s 0 stack refl (omega (arith, z)) (omega (arith, w)) []
        v)

module _ (sort : List Buffer → List Buffer) (sorts : Sorts sort) where
  allocate_in_banks-AreDisjoint :
      (bank_size limit : ℕ) (banks : Banks) (ps : List (ℕ × ℕ)) (buffers : List Buffer)
      → All (Fits bank_size) buffers
      → IsPlaced bank_size limit banks ps
      → Ensures
          (λ bs. All IsAssigned bs × AreDisjoint limit (map place_of bs ++ ps))
          (allocate_in_banks sort buffers bank_size banks)
  unfolding allocate_in_banks
  allocate_in_banks-AreDisjoint m limit banks ps buffers f v =
      Ensures-bind (AllChecked m limit ps) _ _ _
        (check_buffers-AllChecked m limit buffers banks ps f v)
        λ c k.
          Ensures-bind
            (λ bs.
              All IsAssigned bs
              × AreDisjoint limit (map place_of bs ++ (map place_of c.pre_allocated ++ ps)))
            _ _ _
            (set_addresses-AreDisjoint m limit (sort c.to_alloc) 0 c.banks
              (map place_of c.pre_allocated ++ ps) (All-perm (Fits m) (sorts c.to_alloc) k.to_fit)
              k.placed)
            λ bs j. (
              All-append IsAssigned c.pre_allocated bs k.assigned j.0,
              AreDisjoint-swap limit bs c.pre_allocated ps j.1,
            )

  allocation-AreDisjoint :
      (stack : Option ℕ) (limit n : ℕ) (buffers : List Buffer)
      → All (Fits (limit / n)) buffers
      → n * (limit / n) ≤ limit
      → Ensures
          (λ bs. All IsAssigned bs × AreDisjoint limit (map place_of bs ++ reserved stack))
          (bank_aware_allocation sort stack limit n buffers)
  unfolding bank_aware_allocation
  allocation-AreDisjoint none limit n buffers f room =
      Ensures-if _ (n == 0) _ _ (λ t. tt)
        λ t.
          allocate_in_banks-AreDisjoint (limit / n) limit (init_banks n 0 (limit / n)) [] buffers f
            (init_banks-IsPlaced n (limit / n) limit room)
  allocation-AreDisjoint (some stack) limit n buffers f room =
      Ensures-if _ (n == 0) _ _ (λ t. tt)
        λ t.
          Ensures-if _ (ltb (limit / n) stack) _ _ (λ u. tt)
            λ u.
              allocate_in_banks-AreDisjoint (limit / n) limit
                (reserve_stack stack (init_banks n 0 (limit / n))) ((0, stack) ∷ []) buffers f
                (reserve_stack-IsPlaced n (limit / n) limit stack (init_banks n 0 (limit / n)) refl
                  (ground arith) room (ground arith))

  -- When bankAwareAllocation succeeds and every buffer has a positive size that fits one bank, every
  -- buffer of the tile has an address, no two buffers share an address, none lies in the stack, and
  -- all end within the memory: with any preset addresses and banks, for any order that the sort
  -- gives. The result holds each buffer once, with its size; a preset address without a preset bank
  -- is kept, a preset bank is kept, and where both are preset the address is not below the preset
  -- one, but may be above.
  pub bank_aware_allocation-AreDisjoint :
      (stack : Option ℕ) (limit num_banks : ℕ) (buffers bs : List Buffer)
      → All (Fits (limit / num_banks)) buffers
      → bank_aware_allocation sort stack limit num_banks buffers ≡ ok bs
      → AreKept buffers bs
        × All IsAssigned bs
        × AreDisjoint limit (map place_of bs ++ reserved stack)
  bank_aware_allocation-AreDisjoint stack limit n buffers bs f h =
      let kept =
        Ensures_at (AreKept buffers) _ bs (allocation-AreKept sort sorts stack limit n buffers) h in
      let placed =
        Ensures_at _ _ bs
          (allocation-AreDisjoint stack limit n buffers f (omega (arith, div-add-mod limit n))) h in
      (kept, placed.0, placed.1)
