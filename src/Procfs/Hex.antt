-- ===== src/Procfs/Hex.antt =====
-- IsHexChar, HexCharToVal, ReadHexBytes and ParseEndpoint (collector/lib/ProcfsScraper.cpp): the bytes
-- and endpoints of `net/tcp` files. Whether the host stores the low byte of a number first is a
-- parameter.
pub mod Digits
pub mod Laws
use collector.Prelude.{
  ℕ, zero, suc, ◌+◌, ◌-◌, ◌*◌, ◌/◌, ◌%◌, Bool, true, false, ◌&&◌, ◌||◌, not, Option, none, some,
  List, [], ◌∷◌, ◌++◌, leb, ◌==◌, if◌then◌else◌, length, take, drop,
}
use collector.KeyMap.{and_then}
use collector.Net.Address.{Family, family_length}
use collector.Net.Bytes.{address_of}
use collector.Net.Endpoint.{Endpoint, address_endpoint}
use collector.Procfs.Fields.{peek, isdigit, before_end}

unfoldable pub is_hex_char : ℕ → Bool
unfolding isdigit
is_hex_char c = if isdigit c then true else leb b'A' c && leb c b'F'

unfoldable pub hex_char_to_val : ℕ → ℕ
unfolding isdigit
hex_char_to_val c = if isdigit c then c - b'0' else 10 + (c - b'A')

-- std::reverse, of a list onto another.
abbrev pub reverse_onto : List ℕ → List ℕ → List ℕ
reverse_onto [] out = out
reverse_onto (b ∷ rest) out = reverse_onto rest (b ∷ out)

-- What is in the buffer after byte i, of the bytes with the last one first: the chunk that the byte
-- completes is turned around.
unfoldable pub end_chunk : ℕ → Bool → ℕ → List ℕ → List ℕ
end_chunk chunk_size reverse i buf =
    if reverse && i % chunk_size == chunk_size - 1
    then reverse_onto (take chunk_size buf) [] ++ drop chunk_size buf
    else buf

-- The loop of ReadHexBytes with `left` bytes to go after the first i, which are in `buf` with the last
-- one first.
unfoldable pub read_hex_from : ℕ → ℕ → Bool → ℕ → ℕ → List ℕ → List ℕ → ℕ × List ℕ
unfolding is_hex_char hex_char_to_val end_chunk
read_hex_from slack chunk_size reverse (suc left) i buf (high ∷ low ∷ p) =
    if not (before_end slack 2 (high ∷ low ∷ p))
    then (i, buf)
    else if not (is_hex_char high) || not (is_hex_char low)
    then (i, buf)
    else read_hex_from slack chunk_size reverse left (i + 1)
        (end_chunk chunk_size reverse i ((hex_char_to_val high * 16 + hex_char_to_val low) ∷ buf)) p
read_hex_from slack chunk_size reverse left i buf p = (i, buf)

-- The number of bytes read, and the bytes as they stand in the buffer.
unfoldable pub read_hex_bytes : ℕ → List ℕ → ℕ → ℕ → Bool → ℕ × List ℕ
unfolding read_hex_from
read_hex_bytes slack p chunk_size num_chunks reverse =
    let (nread, buf) = read_hex_from slack chunk_size reverse (chunk_size * num_chunks) 0 [] p in
    (nread, reverse_onto buf [])

-- The uint16_t that two bytes of memory are.
unfoldable pub native_uint16 : Bool → List ℕ → ℕ
native_uint16 little_endian bytes =
    if little_endian
    then peek bytes + peek (drop 1 bytes) * 256
    else peek bytes * 256 + peek (drop 1 bytes)

-- ParseEndpoint from the port on.
unfoldable pub parse_port : ℕ → Bool → List ℕ → Family → List ℕ → Option (Endpoint × List ℕ)
parse_port slack little_endian p family addr_data =
    let (nread, port) = read_hex_bytes slack p 2 1 little_endian in
    if not (nread == 2)
    then none
    else some (
      address_endpoint (address_of family addr_data) (native_uint16 little_endian port),
      drop (nread * 2) p,
    )

-- The endpoint, and the text after it.
unfoldable pub parse_endpoint : ℕ → Bool → List ℕ → Family → Option (Endpoint × List ℕ)
parse_endpoint slack little_endian p family =
    let addr_len = family_length family in
    let (nread, addr_data) = read_hex_bytes slack p 4 (addr_len / 4) little_endian in
    if not (nread == addr_len)
    then none
    else if not (peek (drop (nread * 2) p) == b':')
    then none
    else parse_port slack little_endian (drop 1 (drop (nread * 2) p)) family addr_data
