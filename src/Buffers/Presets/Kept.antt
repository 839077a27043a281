-- ===== src/Buffers/Presets/Kept.antt =====
-- The second pass and the whole of the bank-aware scheme keep the buffers.
use mathlib.Core.List.{Permᴰ}
use mathlib.Core.List.Permᴰ
use iree_amd_aie.Prelude.Result.{Ensures, Ensures-bind, Ensures-if}
use iree_amd_aie.Prelude.{
  ℕ, ◌/◌, ◌≡◌, refl, inl, inr, Option, none, some, Option-cases, List, [], ◌∷◌, ◌++◌, ltb, ◌==◌,
  length, All,
}
use iree_amd_aie.Buffers.{
  Buffer, Banks, total_available, ceil_div, find_window, use_window, set_buffer_address,
  set_addresses, allocate_in_banks, bank_aware_allocation, init_banks, reserve_stack,
}
use iree_amd_aie.Buffers.Presets.{
  AllKeep, AllKeep-append, IsFree, IsFree-KeepsPreset, Sorts, All-perm, AreKept,
}
use iree_amd_aie.Buffers.Presets.FirstPass.{Splits, check_buffers-Splits}

use_window-size :
    (b : Buffer) (num : ℕ) (banks : Banks) (start : ℕ) (temp : List (ℕ × ℕ))
    → Ensures (λ r. r.0.size ≡ b.size) (use_window b num banks start temp)
unfolding use_window
use_window-size b num banks start [] = tt
use_window-size b num banks start (t ∷ temp) = refl

set_buffer_address-size :
    (b : Buffer) (bank_size start : ℕ) (banks : Banks)
    → Ensures (λ r. r.0.size ≡ b.size) (set_buffer_address b bank_size start banks)
unfolding set_buffer_address
set_buffer_address-size b size start banks =
    Ensures-if _ (ltb (total_available banks) b.size) _ _ (λ t. tt)
      λ t.
        Ensures-if _ (size == 0) _ _ (λ u. tt)
          λ u.
            elim (Option-cases
              (find_window (length banks) start (ceil_div b.size size) b.size banks)) [
                | inl n ↦ rw n tt
                | inr (w, h) ↦ rw h (use_window-size b (ceil_div b.size size) banks w.0 w.1)
              ]

set_addresses-AllKeep :
    (buffers : List Buffer) (bank_size start : ℕ) (banks : Banks)
    → All IsFree buffers
    → Ensures (AllKeep buffers) (set_addresses buffers bank_size start banks)
unfolding set_addresses
set_addresses-AllKeep [] size start banks f = tt
set_addresses-AllKeep (b ∷ buffers) size start banks f =
    Ensures-bind (λ r. r.0.size ≡ b.size) (AllKeep (b ∷ buffers)) _ _
      (set_buffer_address-size b size start banks)
      (λ r e.
        Ensures-bind (AllKeep buffers) (AllKeep (b ∷ buffers)) _ _
          (set_addresses-AllKeep buffers size r.1 r.2 f.1)
          (λ bs k. (IsFree-KeepsPreset b r.0 f.0 e, k)))

module _ (sort : List Buffer → List Buffer) (sorts : Sorts sort) where
  allocate_in_banks-AreKept :
      (buffers : List Buffer) (bank_size : ℕ) (banks : Banks)
      → Ensures (AreKept buffers) (allocate_in_banks sort buffers bank_size banks)
  unfolding allocate_in_banks
  allocate_in_banks-AreKept buffers size banks =
      Ensures-bind (Splits buffers) (AreKept buffers) _ _ (check_buffers-Splits buffers size banks)
        (λ c s.
          Ensures-bind (AllKeep (sort c.to_alloc)) (AreKept buffers) _ _
            (set_addresses-AllKeep (sort c.to_alloc) size 0 c.banks
              (All-perm IsFree (sorts c.to_alloc) s.free))
            (λ bs k. (
              s.preset ++ sort c.to_alloc,
              Permᴰ.trans (Permᴰ.append_left s.preset (sorts c.to_alloc)) s.order,
              AllKeep-append s.preset c.pre_allocated (sort c.to_alloc) bs s.kept k,
            )))

  pub allocation-AreKept :
      (stack : Option ℕ) (limit n : ℕ) (buffers : List Buffer)
      → Ensures (AreKept buffers) (bank_aware_allocation sort stack limit n buffers)
  unfolding bank_aware_allocation
  allocation-AreKept none limit n buffers =
      Ensures-if _ (n == 0) _ _ (λ t. tt)
        (λ t. allocate_in_banks-AreKept buffers (limit / n) (init_banks n 0 (limit / n)))
  allocation-AreKept (some stack) limit n buffers =
      Ensures-if _ (n == 0) _ _ (λ t. tt)
        λ t.
          Ensures-if _ (ltb (limit / n) stack) _ _ (λ u. tt)
            (λ u.
              allocate_in_banks-AreKept buffers (limit / n)
                (reserve_stack stack (init_banks n 0 (limit / n))))
