-- ===== src/Device/Header.antt =====
-- The headers of packets: their ranges and their parity.
use native.Mathlib.Nat.{two-pow-succ}
use iree_amd_aie.Prelude.{
  ℕ, zero, suc, ◌+◌, ◌*◌, ◌/◌, ◌%◌, ◌^◌, ◌≤◌, ◌<◌, ◌≡◌, ◌≢◌, refl, ap, ◌∙◌, Bool, true, false, ◌||◌,
  Option, none, some, ◌↔◌, arith, ltb, leb, ◌==◌, if◌then◌else◌,
}
use iree_amd_aie.Device.{
  popcount, set_odd_parity_bit, Formats, get_packet_header, get_ctrl_pkt_max_address,
  get_ctrl_pkt_max_length, get_ctrl_pkt_max_opcode, get_control_header,
}

-- The highest bit adds itself to the count.
popcount-top : (n p w : ℕ) → w < 2 ^ n → p < 2 → popcount (suc n) (p * 2 ^ n + w) ≡ popcount n w + p
unfolding popcount
popcount-top zero p w h k = omega arith
popcount-top (suc n) p w h k =
    ap (λ x. x + popcount (suc n) ((p * 2 ^ suc n + w) / 2)) low
    ∙ ap (λ x. w % 2 + popcount (suc n) x) high
    ∙ ap (λ x. w % 2 + x) (popcount-top n p (w / 2) (omega (arith, two-pow-succ n)) k)
    ∙ omega arith
  where
    double : p * 2 ^ suc n ≡ p * 2 ^ n + p * 2 ^ n
    double = ap (λ x. p * x) (two-pow-succ n) ∙ distribute p (2 ^ n)
      where
        distribute : (a b : ℕ) → a * (b + b) ≡ a * b + a * b
        distribute a b = grind arith

    low : (p * 2 ^ suc n + w) % 2 ≡ w % 2
    low = omega (arith, double)

    high : (p * 2 ^ suc n + w) / 2 ≡ p * 2 ^ n + w / 2
    high = omega (arith, double)

-- The parity bit makes the number of ones odd and leaves the other 31 bits as they were.
pub set_odd_parity_bit-odd :
    (word : ℕ)
    → (popcount 32 (set_odd_parity_bit word) % 2 ≡ 1)
      × (set_odd_parity_bit word % 2 ^ 31 ≡ word % 2 ^ 31)
unfolding set_odd_parity_bit
set_odd_parity_bit-odd word = (
  ap (λ k. k % 2)
        (popcount-top 31 ((popcount 31 (word % 2 ^ 31) + 1) % 2) (word % 2 ^ 31) (omega arith)
          (omega arith))
      ∙ omega arith,
  omega arith,
)

-- A word with an odd number of ones.
abbrev pub IsOdd : Option ℕ → Type 0
IsOdd none = Unit
IsOdd (some header) = popcount 32 header % 2 ≡ 1

-- A header behind a chain of tests.
guarded :
    (b c d : Bool) (w : ℕ)
    → (((if b then none else if c then none else if d then none else some (set_odd_parity_bit w))
          ≢ none)
        ↔ ((b ≡ false) × (c ≡ false) × (d ≡ false)))
      × IsOdd
          (if b then none else if c then none else if d then none else some (set_odd_parity_bit w))
guarded true c d w = ((λ n. absurd (n refl), λ h. cc), tt)
guarded false true d w = ((λ n. absurd (n refl), λ h. cc), tt)
guarded false false true w = ((λ n. absurd (n refl), λ h. cc), tt)
guarded false false false w = ((λ n. (refl, refl, refl), λ h e. cc), (set_odd_parity_bit-odd w).0)

-- The arguments that getControlHeader takes.
abbrev pub InControlRange : Formats → ℕ → ℕ → ℕ → ℕ → Type 0
InControlRange f address len opcode stream_id =
    (address ≤ get_ctrl_pkt_max_address f)
    × (1 ≤ len)
    × (len ≤ get_ctrl_pkt_max_length f)
    × (opcode ≤ get_ctrl_pkt_max_opcode f)
    × (stream_id ≤ f.packet_id_max_idx)

abbrev pub InPacketRange : Formats → ℕ → ℕ → ℕ → ℕ → Type 0
InPacketRange f stream_id packet_type src_row src_col =
    (src_row < f.rows)
    × (src_col < f.columns)
    × (stream_id ≤ f.packet_id_max_idx)
    × (packet_type ≤ f.packet_type_max)

-- getPacketHeader fails exactly when the source tile, the stream id or the packet type is out of its
-- range, and every header that it returns has odd parity.
pub get_packet_header_lem :
    (f : Formats) (stream_id packet_type src_row src_col : ℕ)
    → ((get_packet_header f stream_id packet_type src_row src_col ≢ none)
        ↔ InPacketRange f stream_id packet_type src_row src_col)
      × IsOdd (get_packet_header f stream_id packet_type src_row src_col)
unfolding get_packet_header
get_packet_header_lem f s t r c =
    let g =
      guarded (leb f.rows r || leb f.columns c) (ltb f.packet_id_max_idx s)
        (ltb f.packet_type_max t) _ in
    (
      (
        λ n. ground (arith, g.0.0 n),
        λ h. g.0.1 (ground (arith, h.0, h.1), ground (arith, h.2), ground (arith, h.3)),
      ),
      g.1,
    )

control_guarded :
    (a b c d : Bool) (w : ℕ)
    → (((if a
            then none
            else if b
            then none
            else if c
            then none
            else if d
            then none
            else some (set_odd_parity_bit w))
          ≢ none)
        ↔ ((a ≡ false) × (b ≡ false) × (c ≡ false) × (d ≡ false)))
      × IsOdd (
          if a
          then none
          else if b
          then none
          else if c
          then none
          else if d
          then none
          else some (set_odd_parity_bit w))
control_guarded true b c d w = ((λ n. absurd (n refl), λ h. cc), tt)
control_guarded false b c d w =
    let g = guarded b c d w in
    ((λ n. (refl, (g.0.0 n).0, (g.0.0 n).1, (g.0.0 n).2), λ h. g.0.1 (h.1, h.2, h.3)), g.1)

-- getControlHeader fails exactly when the address, the length, the opcode or the stream id is out of
-- its range, a length of zero included, and every header that it returns has odd parity.
pub get_control_header_lem :
    (f : Formats) (address len opcode stream_id : ℕ)
    → ((get_control_header f address len opcode stream_id ≢ none)
        ↔ InControlRange f address len opcode stream_id)
      × IsOdd (get_control_header f address len opcode stream_id)
unfolding get_control_header
get_control_header_lem f address len opcode stream_id =
    let g =
      control_guarded (ltb (get_ctrl_pkt_max_address f) address)
        (ltb (get_ctrl_pkt_max_length f) len || (len == 0)) (ltb (get_ctrl_pkt_max_opcode f) opcode)
        (ltb f.packet_id_max_idx stream_id) _ in
    (
      (
        λ n.
            let e = g.0.0 n in
            (ground arith, ground arith, ground arith, ground arith, ground arith),
        λ h. g.0.1 (
          ground (arith, h.0),
          ground (arith, h.1, h.2),
          ground (arith, h.3),
          ground (arith, h.4),
        ),
      ),
      g.1,
    )
