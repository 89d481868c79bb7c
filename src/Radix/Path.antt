-- ===== src/Radix/Path.antt =====
-- The path of a network in a tree, from the bits of its address, and the fuel of the walks
-- (collector/lib/NRadix.cpp).
use native.Mathlib.Nat.{pow-suc}
use collector.Prelude.{
  ℕ, zero, suc, ◌+◌, ◌-◌, ◌/◌, ◌%◌, ◌^◌, ◌<◌, ◌≡◌, refl, Bool, true, not, none, some, List, [], ◌∷◌,
  arith, ltb, ◌==◌, xor, if◌then◌else◌, holds_up_to, holds-holds_up_to, dec_lt, ==_iff,
}
use collector.Net.Address.{Address}
use collector.Net.IpNet.{IpNet, net_mask_array, ones_mask}
use collector.Radix.{Cursor, start, test_bit, goes_right, in_mask, advance, walk_fuel}
use collector.Radix.Walk.{path, ends}

-- The bit of an address at a position from 0, the most significant one, to 127.
unfoldable pub address_bit : Address → ℕ → Bool
unfolding test_bit
address_bit a j = test_bit (if ltb j 64 then a.hi else a.lo) (2 ^ (63 - j % 64))

-- `count` bits of an address from a position on.
unfoldable pub address_bits : Address → ℕ → ℕ → List Bool
address_bits a j zero = []
address_bits a j (suc count) = address_bit a j ∷ address_bits a (j + 1) count

abbrev mask_word : ℕ → ℕ → ℕ
mask_word bits j =
    if ltb j 64
    then (if ltb bits 64 then ones_mask bits else 2 ^ 64 - 1)
    else if ltb bits 64
    then 0
    else if bits == 128
    then 2 ^ 64 - 1
    else ones_mask (bits % 64)

-- Where the walk for a network stands after j bits.
abbrev cursor_at : IpNet → ℕ → Cursor
cursor_at n j = record {
  addr = if ltb j 64 then n.address.hi ∷ n.address.lo ∷ [] else n.address.lo ∷ [];
  net_mask =
      if ltb j 64 then mask_word n.bits 0 ∷ mask_word n.bits 64 ∷ [] else mask_word n.bits 64 ∷ [];
  bit = 2 ^ (63 - j % 64);
  i = j / 64;
}

mask_row : ℕ → ℕ → Bool
mask_row bits j = not (xor (test_bit (mask_word bits j) (2 ^ (63 - j % 64))) (ltb j bits))

mask_table : holds_up_to (λ bits. holds_up_to (mask_row bits) 128) 129 ≡ true
unfolding holds_up_to mask_row test_bit
mask_table = refl

mask_at :
    (bits j : ℕ)
    → bits < 129
    → j < 128
    → test_bit (mask_word bits j) (2 ^ (63 - j % 64)) ≡ ltb j bits
unfolding mask_row
mask_at bits j hb hj = ground (
  arith,
  holds-holds_up_to (mask_row bits) 128 j hj
      (holds-holds_up_to (λ b. holds_up_to (mask_row b) 128) 129 bits hb mask_table),
)

half_row : ℕ → Bool
half_row j = 2 ^ (63 - j % 64) / 2 == (if j % 64 == 63 then 0 else 2 ^ (63 - (j + 1) % 64))

half_table : holds_up_to half_row 128 ≡ true
unfolding holds_up_to half_row
half_table = refl

half_at :
    (j : ℕ)
    → j < 128
    → 2 ^ (63 - j % 64) / 2 ≡ (if j % 64 == 63 then 0 else 2 ^ (63 - (j + 1) % 64))
unfolding half_row
half_at j h = (==_iff _ _).0 (holds-holds_up_to half_row 128 j h half_table)

pow_pos : (k : ℕ) → 0 < 2 ^ k
pow_pos zero = omega arith
pow_pos (suc k) = rw pow-suc (omega (arith, pow_pos k))

start-cursor_at : (n : IpNet) → start n ≡ cursor_at n 0
unfolding start net_mask_array
start-cursor_at n = ground arith

in_mask-cursor_at :
    (n : IpNet) (j : ℕ) → n.bits < 129 → j < 128 → in_mask (cursor_at n j) ≡ ltb j n.bits
unfolding in_mask
in_mask-cursor_at n j hb hj = ground (arith, mask_at n.bits j hb hj)

goes_right-cursor_at : (n : IpNet) (j : ℕ) → goes_right (cursor_at n j) ≡ address_bit n.address j
unfolding goes_right address_bit
goes_right-cursor_at n j = ground arith

advance-cursor_at :
    (n : IpNet) (j : ℕ)
    → j < 127
    → j < n.bits
    → advance n.bits (cursor_at n j) ≡ some (cursor_at n (j + 1))
unfolding advance
advance-cursor_at n j h b = ground (arith, half_at j (omega arith), pow_pos (63 - (j + 1) % 64))

advance_last : (n : IpNet) (j : ℕ) → j ≡ 127 → advance n.bits (cursor_at n j) ≡ none
unfolding advance
advance_last n j h = ground (arith, half_at j (omega arith))

address_bits_none : (a : Address) (j count : ℕ) → count ≡ 0 → address_bits a j count ≡ []
unfolding address_bits
address_bits_none a j zero h = refl
address_bits_none a j (suc count) h = absurd (omega arith)

path-from :
    (fuel : ℕ) (n : IpNet) (j count : ℕ)
    → n.bits < 129
    → j < 128
    → j + count ≡ n.bits
    → count < fuel
    → (path fuel n.bits (cursor_at n j) ≡ address_bits n.address j count)
      × (ends fuel n.bits (cursor_at n j) ≡ true)
unfolding path ends address_bits
path-from zero n j count hb hj e h = absurd (omega arith)
path-from (suc fuel) n j zero hb hj e h = ground (arith, in_mask-cursor_at n j hb hj)
path-from (suc fuel) n j (suc count) hb hj e h = elim (dec_lt j 127) [
  | yes lt ↦ ground (
    arith,
    in_mask-cursor_at n j hb hj,
    goes_right-cursor_at n j,
    advance-cursor_at n j lt,
    path-from fuel n (j + 1) count hb,
  )
  | no ge ↦ ground (
    arith,
    in_mask-cursor_at n j hb hj,
    goes_right-cursor_at n j,
    advance_last n j (omega arith),
    address_bits_none n.address (j + 1) count (omega arith),
  )
]

-- The walk for a network of at most 128 bits makes as many steps as the network has bits, by the bits
-- of its address, and ends within its fuel.
pub path-start :
    (n : IpNet)
    → n.bits < 129
    → (path walk_fuel n.bits (start n) ≡ address_bits n.address 0 n.bits)
      × (ends walk_fuel n.bits (start n) ≡ true)
path-start n h =
    rw start-cursor_at (path-from walk_fuel n 0 n.bits h (omega arith) (omega arith) (omega arith))
