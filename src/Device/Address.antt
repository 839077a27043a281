-- ===== src/Device/Address.antt =====
-- The fields of an address.
use native.Mathlib.Nat.{div-eq_of_lt, mod-eq_of_lt, mul-add-div_right, mul-add-mod_self_right}
use iree_amd_aie.Prelude.{ℕ, ◌+◌, ◌-◌, ◌*◌, ◌/◌, ◌%◌, ◌^◌, ◌≤◌, ◌<◌, ◌≡◌, ap, ◌∙◌, arith}
use iree_amd_aie.Prelude.Products.{mul_below, two_pow_add, two_pow_pos}
use iree_amd_aie.Device.{get_column_from_address, get_row_from_address, get_offset_from_address}

-- The address of an offset in a tile.
abbrev pub address_of : ℕ → ℕ → ℕ → ℕ → ℕ → ℕ
address_of column_shift row_shift column row offset =
    column * 2 ^ column_shift + (row * 2 ^ row_shift + offset)

shift_split : (cs rs : ℕ) → rs ≤ cs → 2 ^ cs ≡ 2 ^ (cs - rs) * 2 ^ rs
shift_split cs rs p = ap (λ k. 2 ^ k) (omega arith) ∙ two_pow_add (cs - rs) rs

-- getColumnFromAddress, getRowFromAddress and getOffsetFromAddress take apart an address that is put
-- together from a column, a row and an offset, each of which fits its field.
pub address_of-fields :
    (column_shift row_shift column row offset : ℕ)
    → row_shift ≤ column_shift
    → column < 2 ^ (column_shift - row_shift)
    → row < 2 ^ (column_shift - row_shift)
    → offset < 2 ^ row_shift
    → (get_column_from_address column_shift row_shift
          (address_of column_shift row_shift column row offset)
        ≡ column)
      × (get_row_from_address column_shift row_shift
            (address_of column_shift row_shift column row offset)
          ≡ row)
      × (get_offset_from_address column_shift row_shift
            (address_of column_shift row_shift column row offset)
          ≡ offset)
unfolding get_column_from_address get_row_from_address get_offset_from_address
address_of-fields cs rs c r o p hc hr ho = (
  ap (λ k. k % W)
        (mul-add-div_right {m = 2 ^ cs} (two_pow_pos cs) c (r * R + o)
          ∙ ap (λ k. c + k) (div-eq_of_lt {n = r * R + o} {m = 2 ^ cs} small)
          ∙ omega arith)
      ∙ mod-eq_of_lt {n = c} {m = W} hc,
  ap (λ k. k / R % W) shape
      ∙ ap (λ k. k % W)
          (mul-add-div_right {m = R} (two_pow_pos rs) (c * W) (r * R + o)
            ∙ ap (λ k. c * W + k)
                (mul-add-div_right {m = R} (two_pow_pos rs) r o
                  ∙ ap (λ k. r + k) (div-eq_of_lt {n = o} {m = R} ho)
                  ∙ omega arith))
      ∙ mul-add-mod_self_right c W r
      ∙ mod-eq_of_lt {n = r} {m = W} hr,
  ap (λ k. k % R) shape
      ∙ mul-add-mod_self_right (c * W) R (r * R + o)
      ∙ mul-add-mod_self_right r R o
      ∙ mod-eq_of_lt {n = o} {m = R} ho,
)
  where
    W : ℕ
    W = 2 ^ (cs - rs)

    R : ℕ
    R = 2 ^ rs

    small : r * R + o < 2 ^ cs
    small = omega (arith, mul_below r W R hr, shift_split cs rs p)

    assoc : (x y z : ℕ) → x * (y * z) ≡ x * y * z
    assoc x y z = grind arith

    shape : c * 2 ^ cs + (r * R + o) ≡ c * W * R + (r * R + o)
    shape = ap (λ k. k + (r * R + o)) (ap (λ k. c * k) (shift_split cs rs p) ∙ assoc c W R)
