-- ===== src/Buffers/Presets/FirstPass.antt =====
-- The first pass keeps what is preset, and leaves the buffers without a preset as they are.
use mathlib.Core.Path.{subst}
use mathlib.Core.List.{Permᴰ}
use mathlib.Core.List.Permᴰ
use iree_amd_aie.Prelude.Result.{
  Result, ok, failure, fault, ◌>>=◌, Ensures, Ensures-bind, Ensures-if, Ensures-any,
}
use iree_amd_aie.Prelude.{
  ℕ, ◌+◌, ◌/◌, ◌≤◌, ◌≡◌, refl, sym, ◌∙◌, inl, inr, Bool, true, false, Option, none, some,
  Option-cases, List, [], ◌∷◌, ◌++◌, ltb, ◌==◌, get_elem?, All, arith,
}
use iree_amd_aie.Buffers.{
  Buffer, Banks, add_in_bank, add_with_address, add_with_mem_bank, check_both,
  check_and_add_buffer_with_address, first_address, put_in_bank, check_and_add_buffer_with_mem_bank,
  check_address, check_buffer, Checked, add_checked, check_buffers,
}
use iree_amd_aie.Buffers.Preset.{again-same}
use iree_amd_aie.Buffers.Presets.{KeepsPreset, AllKeep, IsFree}

abbrev AtLeast : Option ℕ → ℕ → Type 0
AtLeast none x = Unit
AtLeast (some a) x = a ≤ x

-- After the call for a preset bank.
abbrev InBank : Buffer → Buffer × Banks → Type 0
InBank b r =
    (r.0.size ≡ b.size)
    × (r.0.mem_bank ≡ b.mem_bank)
    × (x : ℕ) × (r.0.address ≡ some x)
    × AtLeast b.address x

put_in_bank-InBank :
    (b : Buffer) (i : ℕ) (banks : Banks)
    → Ensures (InBank b) (put_in_bank b i banks (get_elem? banks i))
unfolding put_in_bank
put_in_bank-InBank b i banks = elim (Option-cases (get_elem? banks i)) [
  | inl n ↦ rw n tt
  | inr (s, h) ↦ rw h (
      Ensures-if (InBank b) (ltb s.end_addr (first_address b.address s.next_addr + b.size)) _ _
        (λ t. tt) (λ t. (refl, refl, _, refl, behind b.address s.next_addr)))
]
  where
    behind : (a : Option ℕ) (n : ℕ) → AtLeast a (first_address a n)
    behind none n = tt
    behind (some a) n = ground arith

InBank-KeepsPreset :
    (b : Buffer) (r : Buffer × Banks) (address : Option ℕ) (i : ℕ)
    → b.address ≡ address
    → b.mem_bank ≡ some i
    → InBank b r
    → KeepsPreset b r.0
InBank-KeepsPreset b r none i e m k = (k.0, rw (e, m) (k.1 ∙ m))
InBank-KeepsPreset b r (some a) i e m (size, bank, x, at, least) =
    (size, rw (e, m) (bank ∙ m, x, at, rw e at least))

-- What both calls on a buffer leave.
abbrev Sorted : Buffer → Bool × Buffer × Banks → Type 0
Sorted b (true, new, banks) = KeepsPreset b new
Sorted b (false, new, banks) = (new ≡ b) × IsFree b

add_in_bank-same :
    (b : Buffer) (a i : ℕ) (banks : Banks)
    → Ensures
        (λ r. (r.0.size ≡ b.size) × (r.0.address ≡ b.address))
        (add_in_bank b a i banks (get_elem? banks i))
unfolding add_in_bank
add_in_bank-same b a i banks = elim (Option-cases (get_elem? banks i)) [
  | inl n ↦ rw n tt
  | inr (s, h) ↦ rw h (
      Ensures-if _ (ltb a s.next_addr) _ _ (λ t. tt)
        λ t. Ensures-if _ (ltb s.end_addr (a + b.size)) _ _ (λ u. tt) λ u. (refl, refl))
]

-- A call that finds a preset address.
abbrev FromAddress : Buffer → Option (Buffer × Banks) → Type 0
FromAddress b r =
    (q : Buffer × Banks) × (r ≡ some q) × (q.0.size ≡ b.size) × (q.0.address ≡ b.address)

with_address-Sorted :
    (b : Buffer) (bank_size : ℕ) (banks : Banks) (address : Option ℕ)
    → b.address ≡ address
    → b.mem_bank ≡ none
    → Ensures (Sorted b) (
        add_with_address b bank_size banks address none >>= λ r. elim r [
          | none ↦ ok (false, b, banks)
          | some q ↦ ok (true, q.0, q.1)
        ])
unfolding add_with_address
with_address-Sorted b size banks none e m = (refl, (e, m))
with_address-Sorted b size banks (some a) e m =
    Ensures-bind (FromAddress b) (Sorted b) _ _
      (Ensures-if (FromAddress b) (size == 0) _ _ (λ z. tt)
        (λ z.
          Ensures-bind (λ r. (r.0.size ≡ b.size) × (r.0.address ≡ b.address)) (FromAddress b) _ _
            (add_in_bank-same b a (a / size) banks) (λ q k. (q, refl, k.0, k.1))))
      (λ r k. rw k.1 (k.2, rw (e, m) (k.3 ∙ e)))

check_both-Sorted :
    (b : Buffer) (bank_size : ℕ) (banks : Banks) (mem_bank : Option ℕ)
    → b.mem_bank ≡ mem_bank
    → Ensures (Sorted b) (check_both b bank_size banks (add_with_mem_bank b banks mem_bank))
unfolding check_both add_with_mem_bank check_and_add_buffer_with_address
check_both-Sorted b size banks none m =
    subst
      (λ k. Ensures (Sorted b) (
        add_with_address b size banks b.address k >>= λ r. elim r [
          | none ↦ ok (false, b, banks)
          | some q ↦ ok (true, q.0, q.1)
        ]))
      (sym m) (with_address-Sorted b size banks b.address refl m)
check_both-Sorted b size banks (some i) m =
    cases (put_in_bank b i banks (get_elem? banks i)) (put_in_bank-InBank b i banks)
  where
    cases :
        (r : Result (Buffer × Banks))
        → Ensures (InBank b) r
        → Ensures (Sorted b) (check_both b size banks (r >>= λ q. ok (some q)))
    cases fault h = tt
    cases failure h =
        Ensures-bind (λ r. Unit {0}) (Sorted b) (check_address true size (b, banks)) (λ r. failure)
          (Ensures-any (check_address true size (b, banks))) (λ r k. tt)
    cases (ok q) h =
        Ensures-bind (λ r. r ≡ some q) (Sorted b) _ _
          (again-same size i h.2 q.0 q.1 q.0.address q.0.mem_bank h.3 (h.1 ∙ m))
          λ r e. rw e (InBank-KeepsPreset b q b.address i refl m h)

-- The buffers that have their address keep what was preset, and the others are as they were.
pub record Splits (buffers : List Buffer) (c : Checked) : Type 0 where
  pub preset : List Buffer
  pub order : Permᴰ (preset ++ c.to_alloc) buffers
  pub kept : AllKeep preset c.pre_allocated
  pub free : All IsFree c.to_alloc

Splits-add :
    (b : Buffer) (buffers : List Buffer) (r : Bool × Buffer × Banks) (c : Checked)
    → Sorted b r
    → Splits buffers c
    → Splits (b ∷ buffers) (add_checked r.0 r.1 c)
Splits-add b buffers (true, new, banks) c k s = record {
  preset = b ∷ s.preset;
  order = Permᴰ.cons refl s.order;
  kept = (k, s.kept);
  free = s.free;
}
Splits-add b buffers (false, new, banks) c k s = record {
  preset = s.preset;
  order = Permᴰ.trans (Permᴰ.middle new s.preset c.to_alloc) (Permᴰ.cons k.0 s.order);
  kept = s.kept;
  free = (rw k.0 k.1, s.free);
}

pub check_buffers-Splits :
    (buffers : List Buffer) (bank_size : ℕ) (banks : Banks)
    → Ensures (Splits buffers) (check_buffers buffers bank_size banks)
unfolding check_buffers check_buffer check_and_add_buffer_with_mem_bank
check_buffers-Splits [] size banks = record { preset = []; order = Permᴰ.nil; kept = tt; free = tt }
check_buffers-Splits (b ∷ buffers) size banks =
    Ensures-bind (Sorted b) (Splits (b ∷ buffers)) _ _
      (check_both-Sorted b size banks b.mem_bank refl)
      (λ r k.
        Ensures-bind (Splits buffers) (Splits (b ∷ buffers)) _ _
          (check_buffers-Splits buffers size r.2) (λ c s. Splits-add b buffers r c k s))
