-- ===== src/Net/Bytes.antt =====
-- Address(family, bytes) (collector/lib/NetworkConnection.h), of bytes in network order.
use collector.Prelude.{ℕ, ◌+◌, ◌-◌, ◌*◌, ◌^◌, List, [], ◌∷◌, length, take, drop}
use collector.Net.Address.{Address, Family, family_length}

-- Bytes as a number, the first one the most significant.
unfoldable pub big_endian : ℕ → List ℕ → ℕ
big_endian n [] = n
big_endian n (b ∷ rest) = big_endian (n * 256 + b) rest

-- The word of the first bytes, as many as 8, with zeros behind them.
unfoldable pub word_of : List ℕ → ℕ
unfolding big_endian
word_of bytes = big_endian 0 (take 8 bytes) * 2 ^ (8 * (8 - length (take 8 bytes)))

unfoldable pub address_of : Family → List ℕ → Address
unfolding word_of
address_of family bytes = record {
  family = family;
  hi = word_of (take (family_length family) bytes);
  lo = word_of (drop 8 (take (family_length family) bytes));
}
