-- ===== src/Buffers/Preset.antt =====
-- The first pass of the bank-aware scheme, over the buffers with a preset address or bank.
use mathlib.Core.Path.{subst}
use iree_amd_aie.Prelude.Result.{
  Result, ok, failure, fault, ◌>>=◌, Ensures, Ensures-bind, Ensures-if,
}
use iree_amd_aie.Prelude.{
  ℕ, ◌+◌, ◌/◌, ◌≤◌, ◌≡◌, refl, sym, ◌∙◌, inl, inr, Bool, true, false, Bool-cases, Option, none,
  some, Option-cases, List, [], ◌∷◌, ◌++◌, map, ltb, ◌==◌, get_elem?, All, arith,
}
use iree_amd_aie.Buffers.{
  Buffer, Banks, add_in_bank, add_with_address, add_with_mem_bank, check_both,
  check_and_add_buffer_with_address, first_address, put_in_bank, check_and_add_buffer_with_mem_bank,
  check_address, check_buffer, Checked, add_checked, check_buffers,
}
use iree_amd_aie.Buffers.Placement.{IsPlaced, place-IsPlaced, IsPlaced-move}

-- The addresses of a buffer: a start and a size.
abbrev pub place_of : Buffer → ℕ × ℕ
place_of b = elim b.address [ some a ↦ (a, b.size) | none ↦ (0, b.size) ]

-- A buffer that has an address.
abbrev pub IsAssigned : Buffer → Type 0
IsAssigned b = (a : ℕ) × (b.address ≡ some a)

abbrev pub Fits : ℕ → Buffer → Type 0
Fits bank_size b = (1 ≤ b.size) × (b.size ≤ bank_size)

-- After a step that gives a buffer an address.
abbrev pub Placed : ℕ → ℕ → List (ℕ × ℕ) → Buffer × Banks → Type 0
Placed bank_size limit ps r = IsAssigned r.0 × IsPlaced bank_size limit r.1 (place_of r.0 ∷ ps)

-- As above, in the bank that the buffer names.
abbrev pub Kept : ℕ → ℕ → List (ℕ × ℕ) → Buffer → Buffer × Banks → Type 0
Kept bank_size limit ps b r = Placed bank_size limit ps r × (r.0.mem_bank ≡ b.mem_bank)

-- What the two calls on a buffer leave: it has an address, or nothing has changed.
abbrev pub Sorted : ℕ → ℕ → List (ℕ × ℕ) → Buffer → Bool × Buffer × Banks → Type 0
Sorted bank_size limit ps b (true, b', banks') = Placed bank_size limit ps (b', banks')
Sorted bank_size limit ps b (false, b', banks') = (b' ≡ b) × IsPlaced bank_size limit banks' ps

module _ (bank_size limit : ℕ) (banks : Banks) (ps : List (ℕ × ℕ))
    (v : IsPlaced bank_size limit banks ps) where
  add_in_bank-Placed :
      (b : Buffer) (addr i : ℕ)
      → b.address ≡ some addr
      → Ensures (Placed bank_size limit ps) (add_in_bank b addr i banks (get_elem? banks i))
  unfolding add_in_bank
  add_in_bank-Placed b addr i e = elim (Option-cases (get_elem? banks i)) [
    | inl n ↦ rw n tt
    | inr (s, h) ↦ rw h (
        Ensures-if (Placed bank_size limit ps) (ltb addr s.next_addr) _ _ (λ t. tt)
          λ t.
            Ensures-if (Placed bank_size limit ps) (ltb s.end_addr (addr + b.size)) _ _ (λ u. tt)
              λ u. (
                (addr, e),
                rw e (
                    place-IsPlaced bank_size limit banks i s addr b.size h (ground arith)
                      (ground arith) ps v),
              ))
  ]

  put_in_bank-Kept :
      (b : Buffer) (i : ℕ)
      → Ensures (Kept bank_size limit ps b) (put_in_bank b i banks (get_elem? banks i))
  unfolding put_in_bank
  put_in_bank-Kept b i = elim (Option-cases (get_elem? banks i)) [
    | inl n ↦ rw n tt
    | inr (s, h) ↦
        let start = first_address b.address s.next_addr in
        rw h (
          Ensures-if (Kept bank_size limit ps b) (ltb s.end_addr (start + b.size)) _ _ (λ t. tt)
            λ t. (
              (
                (start, refl),
                place-IsPlaced bank_size limit banks i s start b.size h
                    (behind b.address s.next_addr) (ground arith) ps v,
              ),
              refl,
            ))
  ]
    where
      behind : (a : Option ℕ) (n : ℕ) → n ≤ first_address a n
      behind none n = omega arith
      behind (some a) n = ground arith

  -- The second call on a buffer without a bank.
  with_address-Sorted :
      (b : Buffer) (address : Option ℕ)
      → b.address ≡ address
      → Ensures (Sorted bank_size limit ps b) (
          add_with_address b bank_size banks address none >>= λ r. elim r [
            | none ↦ ok (false, b, banks)
            | some q ↦ ok (true, q.0, q.1)
          ])
  unfolding add_with_address
  with_address-Sorted b none e = (refl, v)
  with_address-Sorted b (some a) e = elim (Bool-cases (bank_size == 0)) [
    | inl z ↦ rw z tt
    | inr z ↦ rw z (
        Ensures-bind (λ r. (q : Buffer × Banks) × (r ≡ some q) × Placed bank_size limit ps q)
          (Sorted bank_size limit ps b) _ _
          (Ensures-bind (Placed bank_size limit ps) _ _ _ (add_in_bank-Placed b a (a / bank_size) e)
            (λ q k. (q, refl, k)))
          λ r k. rw k.1 k.2)
  ]

-- The second call on a buffer that has a bank and an address changes nothing.
pub again-same :
    (bank_size i a : ℕ) (b : Buffer) (banks : Banks) (address mem_bank : Option ℕ)
    → address ≡ some a
    → mem_bank ≡ some i
    → Ensures (λ r. r ≡ some (b, banks)) (add_with_address b bank_size banks address mem_bank)
unfolding add_with_address
again-same bank_size i a b banks none mem_bank e m = cc
again-same bank_size i a b banks (some x) none e m = cc
again-same bank_size i a b banks (some x) (some j) e m =
    Ensures-if _ (bank_size == 0) _ _ (λ t. tt)
      λ t. Ensures-if (λ r. r ≡ some (b, banks)) (j == x / bank_size) _ _ (λ u. refl) λ u. tt

module _ (bank_size limit : ℕ) where
  check_both-Sorted :
      (b : Buffer) (banks : Banks) (ps : List (ℕ × ℕ)) (mem_bank : Option ℕ)
      → b.mem_bank ≡ mem_bank
      → IsPlaced bank_size limit banks ps
      → Ensures
          (Sorted bank_size limit ps b)
          (check_both b bank_size banks (add_with_mem_bank b banks mem_bank))
  unfolding check_both add_with_mem_bank check_and_add_buffer_with_address
  check_both-Sorted b banks ps none m v =
      subst
        (λ k. Ensures (Sorted bank_size limit ps b) (
          add_with_address b bank_size banks b.address k >>= λ r. elim r [
            | none ↦ ok (false, b, banks)
            | some q ↦ ok (true, q.0, q.1)
          ]))
        (sym m) (with_address-Sorted bank_size limit banks ps v b b.address refl)
  check_both-Sorted b banks ps (some i) m v =
      cases (put_in_bank b i banks (get_elem? banks i))
        (put_in_bank-Kept bank_size limit banks ps v b i)
    where
      cases :
          (r : Result (Buffer × Banks))
          → Ensures (Kept bank_size limit ps b) r
          → Ensures
              (Sorted bank_size limit ps b)
              (check_both b bank_size banks (r >>= λ q. ok (some q)))
      cases fault h = tt
      cases failure h =
          Ensures-bind (λ r. Unit {0}) (Sorted bank_size limit ps b)
            (check_address true bank_size (b, banks)) (λ r. failure)
            (anything (check_address true bank_size (b, banks))) (λ r k. tt)
        where
          anything : (r : Result (Bool × Buffer × Banks)) → Ensures (λ x. Unit {0}) r
          anything (ok x) = tt
          anything failure = tt
          anything fault = tt
      cases (ok q) h =
          Ensures-bind (λ r. r ≡ some q) (Sorted bank_size limit ps b) _ _
            (again-same bank_size i h.0.0.0 q.0 q.1 q.0.address q.0.mem_bank h.0.0.1 (h.1 ∙ m))
            λ r e. rw e h.0

  -- The lists that the loop leaves.
  pub record AllChecked (ps : List (ℕ × ℕ)) (c : Checked) : Type 0 where
    pub assigned : All IsAssigned c.pre_allocated
    pub to_fit : All (Fits bank_size) c.to_alloc
    pub placed : IsPlaced bank_size limit c.banks (map place_of c.pre_allocated ++ ps)

  check_rest :
      (b : Buffer) (ps : List (ℕ × ℕ)) (rest : Banks → Result Checked) (r : Bool × Buffer × Banks)
      → ((qs : List (ℕ × ℕ)) (banks : Banks)
          → IsPlaced bank_size limit banks qs
          → Ensures (AllChecked qs) (rest banks))
      → Fits bank_size b
      → Sorted bank_size limit ps b r
      → Ensures (AllChecked ps) (rest r.2 >>= λ c. ok (add_checked r.0 r.1 c))
  check_rest b ps rest (true, b', banks') all f k =
      Ensures-bind (AllChecked (place_of b' ∷ ps)) (AllChecked ps) _ _
        (all (place_of b' ∷ ps) banks' k.1)
        λ c j. record {
          assigned = (k.0, j.assigned);
          to_fit = j.to_fit;
          placed =
              IsPlaced-move bank_size limit c.banks (map place_of c.pre_allocated) (place_of b') ps
                j.placed;
        }
  check_rest b ps rest (false, b', banks') all f k =
      Ensures-bind (AllChecked ps) (AllChecked ps) _ _ (all ps banks' k.1) λ c j. record {
        assigned = j.assigned;
        to_fit = (subst (Fits bank_size) (sym k.0) f, j.to_fit);
        placed = j.placed;
      }

  pub check_buffers-AllChecked :
      (buffers : List Buffer) (banks : Banks) (ps : List (ℕ × ℕ))
      → All (Fits bank_size) buffers
      → IsPlaced bank_size limit banks ps
      → Ensures (AllChecked ps) (check_buffers buffers bank_size banks)
  unfolding check_buffers check_buffer check_and_add_buffer_with_mem_bank
  check_buffers-AllChecked [] banks ps f v = record { assigned = tt; to_fit = tt; placed = v }
  check_buffers-AllChecked (b ∷ buffers) banks ps f v =
      Ensures-bind (Sorted bank_size limit ps b) (AllChecked ps) _ _
        (check_both-Sorted b banks ps b.mem_bank refl v)
        λ r k.
          check_rest b ps (λ bs. check_buffers buffers bank_size bs) r
            (λ qs bs w. check_buffers-AllChecked buffers bs qs f.1 w) f.0 k
