-- ===== src/Buffers/Placement.antt =====
-- The buffers that have been given an address, and the banks.
use mathlib.Core.Path.{subst}
use mathlib.Core.Option.{some_inj}
use iree_amd_aie.Prelude.Products.{mul_below}
use iree_amd_aie.Prelude.{
  ℕ, zero, suc, ◌+◌, ◌*◌, ◌≤◌, ◌<◌, ◌≡◌, ◌⊎◌, inl, inr, some, List, [], ◌∷◌, ◌++◌, length, ltb,
  ltb→lt, ap, sym, ◌∙◌, ==_iff, false, get_elem?, All, arith, ◌==◌, Bool-cases, get_elem?-set_self,
  get_elem?-set_ne,
}
use iree_amd_aie.Buffers.{BankState, Banks, set_next}

-- Two intervals, a start and a size each, have no address in common.
abbrev pub Apart : ℕ × ℕ → ℕ × ℕ → Type 0
Apart p q = (p.0 + p.1 ≤ q.0) ⊎ (q.0 + q.1 ≤ p.0)

abbrev pub AllApart : List (ℕ × ℕ) → Type 0
AllApart [] = Unit
AllApart (p ∷ ps) = All (Apart p) ps × AllApart ps

-- A bank at its place, its next address within it.
pub record IsBank (bank_size limit i : ℕ) (s : BankState) : Type 0 where
  pub start : i * bank_size ≤ s.next_addr
  pub next : s.next_addr ≤ s.end_addr
  pub end : s.end_addr ≡ i * bank_size + bank_size
  pub within : s.end_addr ≤ limit

-- An interval in the used part of a bank.
pub record Taken (bank_size : ℕ) (banks : Banks) (p : ℕ × ℕ) : Type 0 where
  pub index : ℕ
  pub bank : BankState
  pub there : get_elem? banks index ≡ some bank
  pub from : index * bank_size ≤ p.0
  pub to : p.0 + p.1 ≤ bank.next_addr

pub record IsPlaced (bank_size limit : ℕ) (banks : Banks) (ps : List (ℕ × ℕ)) : Type 0 where
  pub is_bank : (i : ℕ) (s : BankState) → get_elem? banks i ≡ some s → IsBank bank_size limit i s
  pub taken : All (Taken bank_size banks) ps
  pub apart : AllApart ps

pub get_elem?-lt :
    {A : Type 0} (xs : List A) (i : ℕ) (x : A) → get_elem? xs i ≡ some x → i < length xs
get_elem?-lt [] i x h = cc
get_elem?-lt (y ∷ xs) zero x h = omega arith
get_elem?-lt (y ∷ xs) (suc i) x h = omega (arith, get_elem?-lt xs i x h)

pub All-map :
    {A : Type 0} {P Q : A → Type 0} (xs : List A) → ((x : A) → P x → Q x) → All P xs → All Q xs
All-map [] f h = tt
All-map (x ∷ xs) f h = (f x h.0, All-map xs f h.1)

Apart-sym : (p q : ℕ × ℕ) → Apart p q → Apart q p
Apart-sym p q (inl h) = inr h
Apart-sym p q (inr h) = inl h

pub All-move :
    (P : ℕ × ℕ → Type 0) (xs : List (ℕ × ℕ)) (p : ℕ × ℕ) (ys : List (ℕ × ℕ))
    → All P (xs ++ (p ∷ ys))
    → P p × All P (xs ++ ys)
All-move P [] p ys h = h
All-move P (x ∷ xs) p ys h = let r = All-move P xs p ys h.1 in (r.0, (h.0, r.1))

-- The order of the intervals does not matter.
pub AllApart-move :
    (xs : List (ℕ × ℕ)) (p : ℕ × ℕ) (ys : List (ℕ × ℕ))
    → AllApart (xs ++ (p ∷ ys))
    → AllApart (p ∷ xs ++ ys)
AllApart-move [] p ys h = h
AllApart-move (x ∷ xs) p ys h =
    let r = AllApart-move xs p ys h.1 in
    let q = All-move (Apart x) xs p ys h.0 in ((Apart-sym x p q.0, r.0), (q.1, r.1))

pub IsPlaced-move :
    (bank_size limit : ℕ) (banks : Banks) (xs : List (ℕ × ℕ)) (p : ℕ × ℕ) (ys : List (ℕ × ℕ))
    → IsPlaced bank_size limit banks (xs ++ (p ∷ ys))
    → IsPlaced bank_size limit banks (p ∷ xs ++ ys)
IsPlaced-move bank_size limit banks xs p ys v = record {
  is_bank = v.is_bank;
  taken = All-move _ xs p ys v.taken;
  apart = AllApart-move xs p ys v.apart;
}

-- Taking the addresses from `a` on, `n` of them, behind the next address of bank `i`.
module _ (bank_size limit : ℕ) (banks : Banks) (i : ℕ) (s : BankState) (a n : ℕ)
    (there : get_elem? banks i ≡ some s) (free : s.next_addr ≤ a) (fits : a + n ≤ s.end_addr) where
  after : Banks
  after = set_next banks i s (a + n)

  at_self : get_elem? after i ≡ some (record s { next_addr = a + n })
  unfolding after
  at_self = get_elem?-set_self banks i _ (get_elem?-lt banks i s there)

  at_other : (j : ℕ) → i == j ≡ false → get_elem? after j ≡ get_elem? banks j
  unfolding after
  at_other j e = get_elem?-set_ne banks _ (λ p. ground (arith, ==_iff i j))

  after-IsBank :
      ((j : ℕ) (t : BankState) → get_elem? banks j ≡ some t → IsBank bank_size limit j t)
      → (j : ℕ) (t : BankState) → get_elem? after j ≡ some t
      → IsBank bank_size limit j t
  after-IsBank f j t h = elim (Bool-cases (i == j)) [
    | inl e ↦
        let same : i ≡ j = (==_iff i j).0 e in
        let t' : record s { next_addr = a + n } ≡ t =
          some_inj.0 (sym at_self ∙ ap (λ k. get_elem? after k) same ∙ h) in
        let b = f i s there in
        subst (IsBank bank_size limit j) t' (
          subst (λ k. IsBank bank_size limit k (record s { next_addr = a + n })) same
            (record {
              start = omega (arith, b.start);
              next = fits;
              end = b.end;
              within = b.within;
            }))
    | inr e ↦ f j t (sym (at_other j e) ∙ h)
  ]

  after-Taken : (p : ℕ × ℕ) → Taken bank_size banks p → Taken bank_size after p
  after-Taken p t = elim (Bool-cases (i == t.index)) [
    | inl e ↦
        let same : i ≡ t.index = (==_iff i t.index).0 e in
        let bank : s ≡ t.bank =
          some_inj.0 (sym there ∙ ap (λ k. get_elem? banks k) same ∙ t.there) in
        record {
          index = i;
          bank = record s { next_addr = a + n };
          there = at_self;
          from = subst (λ k. k * bank_size ≤ p.0) (sym same) t.from;
          to = omega (arith, t.to, ap (λ b. b.next_addr) bank);
        }
    | inr e ↦ record {
      index = t.index;
      bank = t.bank;
      there = at_other t.index e ∙ t.there;
      from = t.from;
      to = t.to;
    }
  ]

  new-Apart :
      ((j : ℕ) (t : BankState) → get_elem? banks j ≡ some t → IsBank bank_size limit j t)
      → (p : ℕ × ℕ) → Taken bank_size banks p
      → Apart (a, n) p
  new-Apart f p t = elim (Bool-cases (i == t.index)) [
    | inl e ↦
        let bank : s ≡ t.bank =
          some_inj.0 (sym there ∙ ap (λ k. get_elem? banks k) ((==_iff i t.index).0 e) ∙ t.there) in
        inr (omega (arith, t.to, ap (λ b. b.next_addr) bank))
    | inr e ↦
        let b = f i s there in
        let c = f t.index t.bank t.there in
        elim (Bool-cases (ltb i t.index)) [
          | inl l ↦ inl (omega (arith, b.end, t.from, mul_below i t.index bank_size (ltb→lt _ _ l)))
          | inr l ↦ inr (
              omega
                (arith, b.start, c.next, c.end, t.to, mul_below t.index i bank_size (ground arith)))
        ]
  ]

  pub place-IsPlaced :
      (ps : List (ℕ × ℕ))
      → IsPlaced bank_size limit banks ps
      → IsPlaced bank_size limit (set_next banks i s (a + n)) ((a, n) ∷ ps)
  unfolding after
  place-IsPlaced ps v = record {
    is_bank = after-IsBank v.is_bank;
    taken = (
      record {
        index = i;
        bank = record s { next_addr = a + n };
        there = at_self;
        from = omega (arith, (v.is_bank i s there).start);
        to = omega arith;
      },
      All-map ps after-Taken v.taken,
    );
    apart = (All-map ps (new-Apart v.is_bank) v.taken, v.apart);
  }
