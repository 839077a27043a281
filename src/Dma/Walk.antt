-- ===== src/Dma/Walk.antt =====
-- What an access pattern means: the addresses that a DMA visits, in order. This is the independent
-- description that the rewrites are measured against.
use mathlib.Core.Path.{fun_ext}
use mathlib.Core.List.{append_assoc, append-nil}
use native.Mathlib.Nat.{zero-add, zero-mul}
use iree_amd_aie.Prelude.{ℕ, zero, suc, ◌+◌, ◌*◌, ◌≡◌, refl, sym, List, [], ◌∷◌, ◌++◌, arith}
use iree_amd_aie.Prelude.Int.{ℤ, pos, pos_part, ◌+ℤ◌, ◌*ℤ◌, int_laws}
use iree_amd_aie.Prelude.IntRing.{*ℤ_parts}
use iree_amd_aie.Dma.Pattern.{Dim, Pattern, Env, eval}

-- The rounds of a loop over one dimension, from address `b` on, `inner` being the inner loops.
abbrev pub rounds : ℕ → ℤ → (ℤ → List ℤ) → ℤ → List ℤ
rounds zero s inner b = []
rounds (suc n) s inner b = inner b ++ rounds n s inner (b +ℤ s)

-- The nest of loops over sizes and strides, a negative size running no round.
abbrev pub sweep : Env → Pattern → ℤ → List ℤ
sweep ρ [] b = b ∷ []
sweep ρ (d ∷ p) b = rounds (pos_part (eval ρ d.size)) (eval ρ d.stride) (sweep ρ p) b

-- The address of the first element.
abbrev pub base : Env → Pattern → ℤ
base ρ [] = pos 0
base ρ (d ∷ p) = eval ρ d.offset *ℤ eval ρ d.stride +ℤ base ρ p

abbrev pub walk : Env → Pattern → List ℤ
walk ρ p = sweep ρ p (base ρ p)

pub shift_zero : (b s : ℤ) → b +ℤ pos 0 *ℤ s ≡ b
shift_zero b s = omega (int_laws, *ℤ_parts (pos 0) s)

pub shift_suc : (n : ℕ) (b s : ℤ) → b +ℤ s +ℤ pos n *ℤ s ≡ b +ℤ pos (suc n) *ℤ s
shift_suc n b s = omega (int_laws, *ℤ_parts (pos n) s, *ℤ_parts (pos (suc n)) s)

suc_mul : (n m : ℕ) → suc n * m ≡ m + n * m
suc_mul n m = omega arith

suc-add : (n m : ℕ) → suc n + m ≡ suc (n + m)
suc-add n m = omega arith

pub rounds-one : (s : ℤ) (inner : ℤ → List ℤ) (b : ℤ) → rounds 1 s inner b ≡ inner b
rounds-one s inner b = append-nil (inner b)

pub rounds-add :
    (n m : ℕ) (s : ℤ) (inner : ℤ → List ℤ) (b : ℤ)
    → rounds (n + m) s inner b ≡ rounds n s inner b ++ rounds m s inner (b +ℤ pos n *ℤ s)
rounds-add zero m s inner b = rw (zero-add, shift_zero)
rounds-add (suc n) m s inner b =
    rw (suc-add, rounds-add n m s inner (b +ℤ s), append_assoc, shift_suc)

-- A loop of loops over one stride is one loop.
pub rounds-mul :
    (n m : ℕ) (s : ℤ) (inner : ℤ → List ℤ) (b : ℤ)
    → rounds n (pos m *ℤ s) (rounds m s inner) b ≡ rounds (n * m) s inner b
rounds-mul zero m s inner b = rw zero-mul
rounds-mul (suc n) m s inner b =
    rw (rounds-mul n m s inner (b +ℤ pos m *ℤ s), suc_mul n m)
      (sym (rounds-add m (n * m) s inner b))

-- A sequence of addresses, `k` times over.
abbrev pub repeat : ℕ → List ℤ → List ℤ
repeat zero l = []
repeat (suc k) l = l ++ repeat k l

-- A loop of stride zero repeats its body.
pub rounds-repeat :
    (n : ℕ) (inner : ℤ → List ℤ) (b : ℤ) → rounds n (pos 0) inner b ≡ repeat n (inner b)
rounds-repeat zero inner b = refl
rounds-repeat (suc n) inner b = rw (add_zero b, rounds-repeat n inner b)
  where
    add_zero : (c : ℤ) → c +ℤ pos 0 ≡ c
    add_zero c = omega int_laws

repeat-add : (n m : ℕ) (l : List ℤ) → repeat (n + m) l ≡ repeat n l ++ repeat m l
repeat-add zero m l = rw zero-add
repeat-add (suc n) m l = rw (suc-add, repeat-add n m l, append_assoc)

pub repeat-mul : (n m : ℕ) (l : List ℤ) → repeat n (repeat m l) ≡ repeat (n * m) l
repeat-mul zero m l = rw zero-mul
repeat-mul (suc n) m l = rw (repeat-mul n m l, suc_mul n m) (sym (repeat-add m (n * m) l))

-- Two patterns visit the same addresses from wherever they start.
abbrev pub SameSweep : Env → Pattern → Pattern → Type 0
SameSweep ρ p q = (b : ℤ) → sweep ρ p b ≡ sweep ρ q b

pub sweep-cons : (ρ : Env) (d : Dim) (p q : Pattern) → SameSweep ρ p q → SameSweep ρ (d ∷ p) (d ∷ q)
sweep-cons ρ d p q h b = rw (fun_ext h)

-- The walk depends only on the sweep and the base.
pub walk_of :
    (ρ : Env) (p q : Pattern) → SameSweep ρ p q → base ρ p ≡ base ρ q → walk ρ p ≡ walk ρ q
walk_of ρ p q h e = rw (e, h (base ρ q))
