-- ===== src/Buffers/Tests.antt =====
-- The theorems on buffer addresses at concrete tiles.
use mathlib.Core.List.Permᴰ
use iree_amd_aie.Prelude.Result.{ok}
use iree_amd_aie.Prelude.{
  ℕ, ◌≡◌, refl, Option, none, some, List, [], ◌∷◌, ◌++◌, map, All, arith, ℕ_discrete, dec_lt,
}
use iree_amd_aie.Buffers.{
  Buffer, assign_from, basic_allocation, add_in_bank, add_with_address, put_in_bank,
  add_with_mem_bank, check_and_add_buffer_with_address, check_and_add_buffer_with_mem_bank,
  total_available, take_bank, try_window, find_window, write_ends, use_window, set_buffer_address,
  init_banks, reserve_stack, check_both, check_buffer, check_buffers, set_addresses,
  allocate_in_banks, bank_aware_allocation,
}
use iree_amd_aie.Buffers.Placement.{AllApart}
use iree_amd_aie.Buffers.Preset.{place_of, IsAssigned}
use iree_amd_aie.Buffers.Presets.{AreKept}
use iree_amd_aie.Buffers.Disjoint.{AreDisjoint, reserved, bank_aware_allocation-AreDisjoint}
use iree_amd_aie.Buffers.Sequential.{Within, unaddressed, basic_allocation-Within}

abbrev buffer : ℕ → Option ℕ → Option ℕ → Buffer
buffer n address mem_bank = record { size = n; address = address; mem_bank = mem_bank }

abbrev as_given : List Buffer → List Buffer
as_given l = l

-- The second buffer has an address, the third a bank.
abbrev three : List Buffer
three = buffer 8 none none ∷ buffer 4 (some 12) none ∷ buffer 3 none (some 2) ∷ []

abbrev three_placed : List Buffer
three_placed =
    buffer 4 (some 12) (some 1) ∷ buffer 3 (some 20) (some 2) ∷ buffer 8 (some 2) (some 0) ∷ []

three_allocated : bank_aware_allocation as_given (some 2) 30 3 three ≡ ok three_placed
unfolding bank_aware_allocation allocate_in_banks check_buffers check_buffer check_both
    check_and_add_buffer_with_mem_bank check_and_add_buffer_with_address add_with_mem_bank
    add_with_address add_in_bank put_in_bank set_addresses set_buffer_address total_available
    find_window try_window take_bank use_window write_ends init_banks reserve_stack ℕ_discrete
    dec_lt
three_allocated = refl

bank_aware_allocation-AreDisjoint_example :
    AreKept three three_placed
    × All IsAssigned three_placed
    × AreDisjoint 30 (map place_of three_placed ++ reserved (some 2))
bank_aware_allocation-AreDisjoint_example =
    bank_aware_allocation-AreDisjoint as_given (λ l. Permᴰ.refl l) (some 2) 30 3 three three_placed
      ((omega arith, omega arith), ((omega arith, omega arith), ((omega arith, omega arith), tt)))
      three_allocated

-- A buffer of 15 bytes, larger than a bank, takes the free parts of two banks that do not touch: its
-- addresses 0 to 14 reach into the preset buffer from 10 to 14.
large_buffer_overlaps :
    bank_aware_allocation as_given none 30 3 (buffer 5 (some 10) none ∷ buffer 15 none none ∷ [])
    ≡ ok (buffer 5 (some 10) (some 1) ∷ buffer 15 (some 0) (some 0) ∷ [])
unfolding bank_aware_allocation allocate_in_banks check_buffers check_buffer check_both
    check_and_add_buffer_with_mem_bank check_and_add_buffer_with_address add_with_mem_bank
    add_with_address add_in_bank put_in_bank set_addresses set_buffer_address total_available
    find_window try_window take_bank use_window write_ends init_banks reserve_stack ℕ_discrete
    dec_lt
large_buffer_overlaps = refl

-- A window that wraps round the last bank: 12 bytes from address 20 end behind the memory of 30.
large_buffer_leaves_memory :
    bank_aware_allocation as_given none 30 3 (buffer 9 (some 10) none ∷ buffer 12 none none ∷ [])
    ≡ ok (buffer 9 (some 10) (some 1) ∷ buffer 12 (some 20) (some 2) ∷ [])
unfolding bank_aware_allocation allocate_in_banks check_buffers check_buffer check_both
    check_and_add_buffer_with_mem_bank check_and_add_buffer_with_address add_with_mem_bank
    add_with_address add_in_bank put_in_bank set_addresses set_buffer_address total_available
    find_window try_window take_bank use_window write_ends init_banks reserve_stack ℕ_discrete
    dec_lt
large_buffer_leaves_memory = refl

-- A buffer with the preset address 2 in the preset bank 0 is moved behind the buffer before it.
preset_moved :
    bank_aware_allocation as_given none 30 3
      (buffer 8 none (some 0) ∷ buffer 1 (some 2) (some 0) ∷ [])
    ≡ ok (buffer 8 (some 0) (some 0) ∷ buffer 1 (some 8) (some 0) ∷ [])
unfolding bank_aware_allocation allocate_in_banks check_buffers check_buffer check_both
    check_and_add_buffer_with_mem_bank check_and_add_buffer_with_address add_with_mem_bank
    add_with_address add_in_bank put_in_bank set_addresses set_buffer_address total_available
    find_window try_window take_bank use_window write_ends init_banks reserve_stack ℕ_discrete
    dec_lt
preset_moved = refl

abbrev two_placed : List Buffer
two_placed = buffer 8 (some 2) none ∷ buffer 3 (some 10) none ∷ []

two_in_sequence :
    basic_allocation 2 16 (buffer 8 none none ∷ buffer 3 none none ∷ []) ≡ ok two_placed
unfolding basic_allocation assign_from dec_lt
two_in_sequence = refl

basic_allocation-Within_example :
    (map unaddressed two_placed ≡ map unaddressed (buffer 8 none none ∷ buffer 3 none none ∷ []))
    × All IsAssigned two_placed
    × AllApart (map place_of two_placed)
    × All (Within 2 16) (map place_of two_placed)
basic_allocation-Within_example =
    basic_allocation-Within 2 16 (buffer 8 none none ∷ buffer 3 none none ∷ []) two_placed
      two_in_sequence
