-- ===== src/Generators/LockId.antt =====
-- runtime/src/iree-amd-aie/aie_runtime/Utils/LockIdGenerator.h and .cpp. The device model's
-- `getNumLocks` is a parameter. A lock id is a `uint8_t`: an argument is taken modulo 256.
pub mod Assign
mod Tests
use iree_amd_aie.Prelude.{
  ℕ, zero, suc, ◌+◌, ◌-◌, ◌%◌, Bool, true, false, ◌&&◌, Option, none, some, List, [], ltb, leb,
  ◌==◌, if◌then◌else◌, mem, remove, insert,
}

-- The map from tiles to their locks: the empty set stands for a missing entry.
abbrev pub LockMap : Type 0
LockMap = ℕ → ℕ → List ℕ

abbrev pub update : LockMap → ℕ → ℕ → List ℕ → LockMap
update locks col row ids c r = if (c == col) && (r == row) then ids else locks c r

unfoldable pub is_lock_id_assigned : LockMap → ℕ → ℕ → ℕ → Bool
is_lock_id_assigned locks col row lock_id = mem (lock_id % 256) (locks col row)

unfoldable pub assign_lock_id : LockMap → ℕ → ℕ → ℕ → LockMap
assign_lock_id locks col row lock_id = update locks col row (insert (lock_id % 256) (locks col row))

unfoldable pub release_lock_id : LockMap → ℕ → ℕ → ℕ → LockMap
release_lock_id locks col row lock_id =
    update locks col row (remove (lock_id % 256) (locks col row))

-- `while (lockId < maxNumLocks && isLockIdAssigned(...)) lockId++`, with the rounds that are left.
unfoldable pub skip_assigned : ℕ → LockMap → ℕ → ℕ → ℕ → ℕ
skip_assigned zero locks col row lock_id = lock_id
skip_assigned (suc n) locks col row lock_id =
    let rest = skip_assigned n locks col row (lock_id + 1) in
    if is_lock_id_assigned locks col row lock_id then rest else lock_id

module _ (num_locks : ℕ → ℕ → ℕ) where
  unfoldable pub get_and_assign_lock_id : LockMap → ℕ → ℕ → Option ℕ × LockMap
  get_and_assign_lock_id locks col row =
      let lock_id = skip_assigned (num_locks col row) locks col row 0 in
      if leb (num_locks col row) lock_id
      then (none, locks)
      else (some (lock_id % 256), assign_lock_id locks col row lock_id)
