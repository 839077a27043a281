-- ===== src/Generators/LockId/Assign.antt =====
-- What `getAndAssignLockId` returns.
use iree_amd_aie.Prelude.{
  ℕ, zero, suc, ◌+◌, ◌≤◌, ◌<◌, ◌≡◌, true, false, not, ◌&&◌, ◌||◌, Option, none, some, arith, leb,
  ◌==◌, ==_iff, mem-insert, mem-remove, Bool-cases, inl, inr,
}
use native.Mathlib.Nat.{mod-eq_of_lt}
use iree_amd_aie.Generators.LockId.{
  LockMap, is_lock_id_assigned, assign_lock_id, release_lock_id, skip_assigned,
  get_and_assign_lock_id,
}

-- The loop stops at the first free id, or at the end.
skip-passed :
    (n : ℕ) (locks : LockMap) (col row i x : ℕ)
    → i ≤ x
    → x < skip_assigned n locks col row i
    → is_lock_id_assigned locks col row x ≡ true
unfolding skip_assigned
skip-passed zero locks col row i x p q = absurd (omega arith)
skip-passed (suc n) locks col row i x p q = elim (Bool-cases (i == x)) [
  | inl e ↦ ground (arith)
  | inr e ↦ ground (arith, skip-passed n locks col row (i + 1) x)
]

skip-stop :
    (n : ℕ) (locks : LockMap) (col row i : ℕ)
    → skip_assigned n locks col row i < i + n
    → is_lock_id_assigned locks col row (skip_assigned n locks col row i) ≡ false
unfolding skip_assigned
skip-stop zero locks col row i q = absurd (omega arith)
skip-stop (suc n) locks col row i q = ground (arith, skip-stop n locks col row (i + 1))

assigned-assign :
    (locks : LockMap) (col row id x : ℕ)
    → id < 256
    → x < 256
    → is_lock_id_assigned (assign_lock_id locks col row id) col row x
      ≡ ((id == x) || is_lock_id_assigned locks col row x)
unfolding is_lock_id_assigned assign_lock_id
assigned-assign locks col row id x p q =
    rw (mod-eq_of_lt {n = id} {m = 256} p, mod-eq_of_lt {n = x} {m = 256} q)
      (ground (arith, mem-insert x id (locks col row), ==_iff col col, ==_iff row row))

assigned-assign_other :
    (locks : LockMap) (col row id c r x : ℕ)
    → ((c == col) && (r == row)) ≡ false
    → is_lock_id_assigned (assign_lock_id locks col row id) c r x ≡ is_lock_id_assigned locks c r x
unfolding is_lock_id_assigned assign_lock_id
assigned-assign_other locks col row id c r x e = rw e

-- A released lock is free again, and no other lock changes.
pub is_assigned-release :
    (locks : LockMap) (col row id c r x : ℕ)
    → id < 256
    → x < 256
    → is_lock_id_assigned (release_lock_id locks col row id) c r x
      ≡ (not ((c == col) && (r == row) && (id == x)) && is_lock_id_assigned locks c r x)
unfolding is_lock_id_assigned release_lock_id
is_assigned-release locks col row id c r x p q =
    rw (mod-eq_of_lt {n = id} {m = 256} p, mod-eq_of_lt {n = x} {m = 256} q)
      (ground (arith, mem-remove x id (locks col row), ==_iff c col, ==_iff r row))

module _ (num_locks : ℕ → ℕ → ℕ) (locks : LockMap) (col row : ℕ) where
  -- A lock comes back.
  pub record Locked (id : ℕ) (locks' : LockMap) : Type 0 where
    pub in_range : id < num_locks col row
    pub free : is_lock_id_assigned locks col row id ≡ false
    pub least : (x : ℕ) → x < id → is_lock_id_assigned locks col row x ≡ true
    pub taken :
        (x : ℕ)
        → x < 256
        → is_lock_id_assigned locks' col row x ≡ ((id == x) || is_lock_id_assigned locks col row x)
    pub others :
        (c r x : ℕ)
        → ((c == col) && (r == row)) ≡ false
        → is_lock_id_assigned locks' c r x ≡ is_lock_id_assigned locks c r x

  pub data Outcome : Option ℕ × LockMap → Type 0 where
    locked : {id : ℕ} {locks' : LockMap} → Locked id locks' → Outcome (some id, locks')
    full :
        ((x : ℕ) → x < num_locks col row → is_lock_id_assigned locks col row x ≡ true)
        → Outcome (none, locks)

  -- Where a tile has at most 256 locks, getAndAssignLockId returns its least free lock, marks just
  -- that one as assigned and touches no other tile; or it returns none and changes nothing, and
  -- then every lock of the tile is assigned.
  pub get_and_assign_lock_id-Outcome :
      num_locks col row ≤ 256 → Outcome (get_and_assign_lock_id num_locks locks col row)
  unfolding get_and_assign_lock_id
  get_and_assign_lock_id-Outcome small = elim (Bool-cases (leb (num_locks col row) stop)) [
    | inl e ↦
        rw (e, get_and_assign_lock_id)
          (full
            (λ x h. skip-passed (num_locks col row) locks col row 0 x (omega arith) (ground arith)))
    | inr e ↦
        rw (e, get_and_assign_lock_id)
          (rw (mod-eq_of_lt {n = stop} {m = 256} (ground arith)) (locked (found (ground arith))))
  ]
    where
      stop : ℕ
      stop = skip_assigned (num_locks col row) locks col row 0

      found : stop < num_locks col row → Locked stop (assign_lock_id locks col row stop)
      found h = record {
        in_range = h;
        free = skip-stop (num_locks col row) locks col row 0 (omega arith);
        least = λ x l. skip-passed (num_locks col row) locks col row 0 x (omega arith) l;
        taken = λ x l. assigned-assign locks col row stop x (omega arith) l;
        others = λ c r x e. assigned-assign_other locks col row stop c r x e;
      }
