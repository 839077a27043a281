-- ===== src/Buffers/Presets.antt =====
-- What the bank-aware scheme keeps of the buffers: all of them, their sizes, and what is preset.
pub mod FirstPass
pub mod Kept
use mathlib.Core.Path.{subst}
use mathlib.Core.List.{Permᴰ}
use mathlib.Core.List.Permᴰ
use iree_amd_aie.Prelude.Result.{
  Result, ok, failure, fault, ◌>>=◌, Ensures, Ensures-bind, Ensures-if, Ensures-any,
}
use iree_amd_aie.Prelude.{
  ℕ, ◌+◌, ◌/◌, ◌≤◌, ◌≡◌, refl, sym, ◌∙◌, inl, inr, Bool, true, false, Option, none, some,
  Option-cases, List, [], ◌∷◌, ◌++◌, ltb, ◌==◌, length, get_elem?, All, arith,
}
use iree_amd_aie.Buffers.{
  Buffer, Banks, total_available, ceil_div, find_window, use_window, set_buffer_address,
  add_in_bank, add_with_address, add_with_mem_bank, check_both, check_and_add_buffer_with_address,
  first_address, put_in_bank, check_and_add_buffer_with_mem_bank, check_address, check_buffer,
  Checked, add_checked, check_buffers, set_addresses, allocate_in_banks, bank_aware_allocation,
  init_banks, reserve_stack,
}
use iree_amd_aie.Buffers.Preset.{again-same}

-- A preset address alone is kept, and so is a preset bank; in a preset bank, the address is at least
-- the preset one.
abbrev pub Keeps : Option ℕ → Option ℕ → Buffer → Type 0
Keeps none none new = Unit
Keeps (some a) none new = new.address ≡ some a
Keeps none (some i) new = new.mem_bank ≡ some i
Keeps (some a) (some i) new = (new.mem_bank ≡ some i) × (x : ℕ) × (new.address ≡ some x) × (a ≤ x)

abbrev pub KeepsPreset : Buffer → Buffer → Type 0
KeepsPreset b new = (new.size ≡ b.size) × Keeps b.address b.mem_bank new

abbrev pub AllKeep : List Buffer → List Buffer → Type 0
AllKeep [] [] = Unit
AllKeep [] (b ∷ new) = ⊥
AllKeep (b ∷ buffers) [] = ⊥
AllKeep (b ∷ buffers) (b' ∷ new) = KeepsPreset b b' × AllKeep buffers new

pub AllKeep-append :
    (as' bs cs ds : List Buffer) → AllKeep as' bs → AllKeep cs ds → AllKeep (as' ++ cs) (bs ++ ds)
AllKeep-append [] [] cs ds h k = k
AllKeep-append [] (b ∷ bs) cs ds h k = absurd h
AllKeep-append (a ∷ as') [] cs ds h k = absurd h
AllKeep-append (a ∷ as') (b ∷ bs) cs ds h k = (h.0, AllKeep-append as' bs cs ds h.1 k)

-- Neither an address nor a bank is preset.
abbrev pub IsFree : Buffer → Type 0
IsFree b = (b.address ≡ none) × (b.mem_bank ≡ none)

pub IsFree-KeepsPreset : (b new : Buffer) → IsFree b → new.size ≡ b.size → KeepsPreset b new
IsFree-KeepsPreset b new f e = (e, rw (f.0, f.1) tt)

-- What `std::sort` is relied on for: its result is a permutation of its argument.
abbrev pub Sorts : (List Buffer → List Buffer) → Type 0
Sorts sort = (l : List Buffer) → Permᴰ (sort l) l

pub All-perm : (P : Buffer → Type 0) {xs ys : List Buffer} → Permᴰ ys xs → All P xs → All P ys
All-perm P Permᴰ.nil h = tt
All-perm P (Permᴰ.cons e p) h = (subst P (sym e) h.0, All-perm P p h.1)
All-perm P (Permᴰ.swap e f) h = (subst P (sym e) h.1.0, (subst P (sym f) h.0, h.1.1))
All-perm P (Permᴰ.trans p q) h = All-perm P p (All-perm P q h)

-- The buffers in the order of the result.
abbrev pub AreKept : List Buffer → List Buffer → Type 0
AreKept buffers new = (order : List Buffer) × Permᴰ order buffers × AllKeep order new
