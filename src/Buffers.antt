-- ===== src/Buffers.antt =====
-- compiler/plugins/target/AMD-AIE/aie/AMDAIEAssignBufferAddresses.cpp: the addresses of the buffers
-- of one tile. Addresses are not negative, so that `max(0, end - next)` is a difference that stops
-- at zero; the products `(i + 1) * bankSize` are at most the size of the memory, a `uint32_t`.
mod Placement
pub mod Preset
pub mod Presets
pub mod Disjoint
pub mod Sequential
mod Tests
use iree_amd_aie.Prelude.Result.{Result, ok, failure, fault, ◌>>=◌}
use iree_amd_aie.Prelude.{
  ℕ, zero, suc, ◌+◌, ◌-◌, ◌*◌, ◌/◌, ◌%◌, min, max, Bool, true, false, not, ◌&&◌, ◌||◌, Option, none,
  some, List, [], ◌∷◌, ◌++◌, ltb, leb, ◌==◌, if◌then◌else◌, length, map, set, get_elem?,
}

-- A `BufferOp`: its allocation size and its attributes.
pub record Buffer : Type 0 where
  pub size : ℕ
  pub address : Option ℕ
  pub mem_bank : Option ℕ

pub record BankState : Type 0 where
  pub start_addr : ℕ
  pub end_addr : ℕ
  pub next_addr : ℕ

abbrev pub Banks : Type 0
Banks = List BankState

-- `basicAllocation`, from the end of the stack on.
unfoldable pub assign_from : ℕ → List Buffer → ℕ × List Buffer
assign_from address [] = (address, [])
assign_from address (b ∷ buffers) =
    let rest = assign_from (address + b.size) buffers in
    (rest.0, record b { address = some address } ∷ rest.1)

unfoldable pub basic_allocation : ℕ → ℕ → List Buffer → Result (List Buffer)
basic_allocation stack_size max_data_memory_size buffers =
    let assigned = assign_from stack_size buffers in
    if ltb max_data_memory_size assigned.0 then failure else ok assigned.1

-- `bankStates[i].nextAddr = next`.
abbrev pub set_next : Banks → ℕ → BankState → ℕ → Banks
set_next banks i s next = set banks i (record s { next_addr = next })

unfoldable pub add_in_bank : Buffer → ℕ → ℕ → Banks → Option BankState → Result (Buffer × Banks)
add_in_bank b addr i banks none = fault
add_in_bank b addr i banks (some s) =
    if ltb addr s.next_addr
    then failure
    else if ltb s.end_addr (addr + b.size)
    then failure
    else ok (record b { mem_bank = some i }, set_next banks i s (addr + b.size))

-- `checkAndAddBufferWithAddress` on the attributes of the buffer; the result `false` is `none`. The
-- preset bank is asserted to be that of the address.
unfoldable pub add_with_address :
    Buffer → ℕ → Banks → Option ℕ → Option ℕ → Result (Option (Buffer × Banks))
add_with_address b bank_size banks none mem_bank = ok none
add_with_address b bank_size banks (some addr) (some mem_bank) =
    if bank_size == 0
    then fault
    else if mem_bank == addr / bank_size
    then ok (some (b, banks))
    else fault
add_with_address b bank_size banks (some addr) none =
    if bank_size == 0
    then fault
    else (add_in_bank b addr (addr / bank_size) banks (get_elem? banks (addr / bank_size)) >>= λ r.
        ok (some r))

unfoldable pub check_and_add_buffer_with_address :
    Buffer → ℕ → Banks → Result (Option (Buffer × Banks))
check_and_add_buffer_with_address b bank_size banks =
    add_with_address b bank_size banks b.address b.mem_bank

-- The first address for a buffer in a bank: behind a preset address.
abbrev pub first_address : Option ℕ → ℕ → ℕ
first_address none next = next
first_address (some addr) next = if ltb next addr then addr else next

unfoldable pub put_in_bank : Buffer → ℕ → Banks → Option BankState → Result (Buffer × Banks)
put_in_bank b i banks none = fault
put_in_bank b i banks (some s) =
    let start = first_address b.address s.next_addr in
    if ltb s.end_addr (start + b.size)
    then failure
    else ok (record b { address = some start }, set_next banks i s (start + b.size))

unfoldable pub add_with_mem_bank : Buffer → Banks → Option ℕ → Result (Option (Buffer × Banks))
add_with_mem_bank b banks none = ok none
add_with_mem_bank b banks (some mem_bank) =
    put_in_bank b mem_bank banks (get_elem? banks mem_bank) >>= λ r. ok (some r)

unfoldable pub check_and_add_buffer_with_mem_bank :
    Buffer → Banks → Result (Option (Buffer × Banks))
check_and_add_buffer_with_mem_bank b banks = add_with_mem_bank b banks b.mem_bank

unfoldable pub total_available : Banks → ℕ
total_available [] = 0
total_available (s ∷ banks) = (s.end_addr - s.next_addr) + total_available banks

-- `std::ceil(float(a) / float(b))`, exact for the sizes of a tile's memory.
abbrev pub ceil_div : ℕ → ℕ → ℕ
ceil_div a b = (a + b - 1) / b

-- The loop over the banks of a window: the addresses taken in each, if the rest comes to zero.
unfoldable pub take_bank :
    ℕ → Option BankState → (ℕ → Option (List (ℕ × ℕ))) → Option (List (ℕ × ℕ))
take_bank remaining none continue = none
take_bank remaining (some s) continue =
    if leb s.end_addr s.next_addr
    then none
    else let allocated = min remaining (s.end_addr - s.next_addr) in
      elim (continue (remaining - allocated)) [
        | none ↦ none
        | some temp ↦ some ((s.next_addr, s.next_addr + allocated) ∷ temp)
      ]

unfoldable pub try_window : ℕ → ℕ → ℕ → Banks → Option (List (ℕ × ℕ))
try_window zero bank_index remaining banks = if remaining == 0 then some [] else none
try_window (suc n) bank_index remaining banks =
    take_bank remaining (get_elem? banks (bank_index % length banks))
      (λ rest. try_window n (bank_index + 1) rest banks)

-- The loop over the offsets, with the rounds that are left: the first window that can hold the
-- buffer.
unfoldable pub find_window : ℕ → ℕ → ℕ → ℕ → Banks → Option (ℕ × List (ℕ × ℕ))
find_window zero bank_start num size banks = none
find_window (suc n) bank_start num size banks =
    let start = bank_start % length banks in
    let rest = find_window n (bank_start + 1) num size banks in
    elim (try_window num start size banks) [ some temp ↦ some (start, temp) | none ↦ rest ]

abbrev pub update_next : Banks → ℕ → ℕ → Banks
update_next banks i next = elim (get_elem? banks i) [
  | none ↦ banks
  | some s ↦ set_next banks i s next
]

-- The loop that sets the next available address of all banks of the window.
unfoldable pub write_ends : ℕ → List (ℕ × ℕ) → Banks → Banks
write_ends bank_index [] banks = banks
write_ends bank_index (t ∷ temp) banks =
    write_ends (bank_index + 1) temp (update_next banks (bank_index % length banks) t.1)

abbrev pub last_end : ℕ × ℕ → List (ℕ × ℕ) → ℕ
last_end t [] = t.1
last_end t (u ∷ temp) = last_end u temp

-- What `setBufferAddress` does with a window; the first of no addresses does not exist.
unfoldable pub use_window : Buffer → ℕ → Banks → ℕ → List (ℕ × ℕ) → Result (Buffer × ℕ × Banks)
use_window b num banks start [] = fault
use_window b num banks start (t ∷ temp) = ok (
  record b { mem_bank = some start; address = some t.0 },
  (start + num) % length banks,
  update_next (write_ends start (t ∷ temp) banks) start (last_end t temp),
)

unfoldable pub set_buffer_address : Buffer → ℕ → ℕ → Banks → Result (Buffer × ℕ × Banks)
set_buffer_address b bank_size start_bank_index banks =
    let num = ceil_div b.size bank_size in
    if ltb (total_available banks) b.size
    then failure
    else if bank_size == 0
    then fault
    else elim (find_window (length banks) start_bank_index num b.size banks) [
      | none ↦ failure
      | some window ↦ use_window b num banks window.0 window.1
    ]

-- `bankStates.emplace_back(...)` for the banks from `i` on.
unfoldable pub init_banks : ℕ → ℕ → ℕ → Banks
init_banks zero i bank_size = []
init_banks (suc n) i bank_size =
    record { start_addr = i * bank_size; end_addr = (i + 1) * bank_size; next_addr = i * bank_size }
    ∷ init_banks n (i + 1) bank_size

-- The stack is at the bottom of the first bank.
unfoldable pub reserve_stack : ℕ → Banks → Banks
reserve_stack stack_size [] = []
reserve_stack stack_size (s ∷ banks) = record s { next_addr = s.next_addr + stack_size } ∷ banks

-- The second call of the loop over all buffers; `preset` is the result of the first.
abbrev pub check_address : Bool → ℕ → Buffer × Banks → Result (Bool × Buffer × Banks)
check_address preset bank_size (b, banks) =
    check_and_add_buffer_with_address b bank_size banks >>= λ r. elim r [
      | none ↦ ok (preset, b, banks)
      | some q ↦ ok (true, q.0, q.1)
    ]

-- Both calls are made before either result is looked at.
unfoldable pub check_both :
    Buffer → ℕ → Banks → Result (Option (Buffer × Banks)) → Result (Bool × Buffer × Banks)
check_both b bank_size banks fault = fault
check_both b bank_size banks failure = check_address true bank_size (b, banks) >>= λ r. failure
check_both b bank_size banks (ok none) = check_address false bank_size (b, banks)
check_both b bank_size banks (ok (some q)) = check_address true bank_size q

unfoldable pub check_buffer : Buffer → ℕ → Banks → Result (Bool × Buffer × Banks)
check_buffer b bank_size banks =
    check_both b bank_size banks (check_and_add_buffer_with_mem_bank b banks)

-- `preAllocatedBuffers`, `buffersToAlloc` and the banks.
pub record Checked : Type 0 where
  pub pre_allocated : List Buffer
  pub to_alloc : List Buffer
  pub banks : Banks

abbrev pub add_checked : Bool → Buffer → Checked → Checked
add_checked true b c = record c { pre_allocated = b ∷ c.pre_allocated }
add_checked false b c = record c { to_alloc = b ∷ c.to_alloc }

unfoldable pub check_buffers : List Buffer → ℕ → Banks → Result Checked
check_buffers [] bank_size banks = ok (record { pre_allocated = []; to_alloc = []; banks = banks })
check_buffers (b ∷ buffers) bank_size banks = check_buffer b bank_size banks >>= λ r.
    check_buffers buffers bank_size r.2 >>= λ c. ok (add_checked r.0 r.1 c)

-- An error takes the attributes of the buffers allocated so far away again.
unfoldable pub set_addresses : List Buffer → ℕ → ℕ → Banks → Result (List Buffer)
set_addresses [] bank_size start banks = ok []
set_addresses (b ∷ buffers) bank_size start banks =
    set_buffer_address b bank_size start banks >>= λ r.
    set_addresses buffers bank_size r.1 r.2 >>= λ bs. ok (r.0 ∷ bs)

-- `sort` is `std::sort`, by decreasing size, whose order of equal sizes is unspecified. The result
-- are the buffers with their attributes.
module _ (sort : List Buffer → List Buffer) where
  unfoldable pub allocate_in_banks : List Buffer → ℕ → Banks → Result (List Buffer)
  allocate_in_banks buffers bank_size banks = check_buffers buffers bank_size banks >>= λ c.
      set_addresses (sort c.to_alloc) bank_size 0 c.banks >>= λ bs. ok (c.pre_allocated ++ bs)

  -- No core is no stack size.
  unfoldable pub bank_aware_allocation : Option ℕ → ℕ → ℕ → List Buffer → Result (List Buffer)
  bank_aware_allocation stack max_data_memory_size num_banks buffers =
      let bank_size = max_data_memory_size / num_banks in
      let banks = init_banks num_banks 0 bank_size in
      if num_banks == 0 then fault else elim stack [
        | none ↦ allocate_in_banks buffers bank_size banks
        | some stack_size ↦
            if ltb bank_size stack_size
            then failure
            else allocate_in_banks buffers bank_size (reserve_stack stack_size banks)
      ]
