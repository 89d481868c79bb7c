-- ===== src/Notifier/Control/Roundtrip.antt =====
-- readNetworks against the bytes that EndpointToProto writes (collector/lib/NetworkStatusNotifier.cpp).
use collector.Prelude.{
  ℕ, ◌*◌, ◌%◌, ◌^◌, ◌≤◌, ◌<◌, ◌≡◌, refl, ap, ◌∙◌, true, false, Option, none, some, List, [], ◌∷◌,
  ◌++◌, map, arith, length, take, ltb, ◌==◌, if◌then◌else◌, Bool-cases, inl, inr,
}
use collector.Net.Address.{Address, Family, family_length, words, ipv6_address}
use collector.Net.IpNet.{IpNet, ip_net, copy_mask, is_null_net}
use collector.Notifier.Proto.{NetworkAddress, endpoint_to_proto, word_bytes, address_bytes}
use collector.Net.Endpoint.{is_null_endpoint}
use collector.Net.Bytes.{address_of, word_of, big_endian}
use collector.Notifier.Control.{read_networks, read_from, char_to_size}

abbrev pub ipv4 : ℕ → Address
ipv4 ip = record { family = Family.ipv4; hi = ip * 2 ^ 32; lo = 0 }

-- ip_network in the message on an endpoint, or nothing if it is not set.
abbrev pub network_of : Option NetworkAddress → List ℕ
network_of none = []
network_of (some a) = elim a.ip_network [ none ↦ [] | some bytes ↦ bytes ]

-- What EndpointToProto writes of a network, at any port.
abbrev pub written : IpNet → ℕ → List ℕ
written n port = network_of (endpoint_to_proto (record { network = n; port = port }))

unfoldable pub written_ipv4 : ℕ → List (ℕ × ℕ) → List ℕ
written_ipv4 port [] = []
written_ipv4 port ((ip, bits) ∷ rest) =
    written (ip_net (ipv4 ip) bits false) port ++ written_ipv4 port rest

unfoldable pub written_ipv6 : ℕ → List ((ℕ × ℕ) × ℕ) → List ℕ
written_ipv6 port [] = []
written_ipv6 port ((ip, bits) ∷ rest) =
    written (ip_net (ipv6_address ip.0 ip.1) bits false) port ++ written_ipv6 port rest

-- Addresses of 32 bits with prefix lengths from 1 to 32.
abbrev pub AreIpv4 : List (ℕ × ℕ) → Type 0
AreIpv4 [] = Unit {0}
AreIpv4 ((ip, bits) ∷ rest) = (ip < 2 ^ 32) × (0 < bits) × (bits ≤ 32) × AreIpv4 rest

-- Addresses of two words of 64 bits with prefix lengths from 1 to 128.
abbrev pub AreIpv6 : List ((ℕ × ℕ) × ℕ) → Type 0
AreIpv6 [] = Unit {0}
AreIpv6 ((ip, bits) ∷ rest) =
    (ip.0 < 2 ^ 64) × (ip.1 < 2 ^ 64) × (0 < bits) × (bits ≤ 128) × AreIpv6 rest

-- The bytes of a network.
abbrev net_bytes : Address → ℕ → List ℕ
net_bytes a bits = address_bytes a ++ (bits % 256) ∷ []

-- A network of some bits is not null, and its bytes are the address and the prefix length.
written-ip_net :
    (a : Address) (bits port : ℕ)
    → 0 < bits
    → bits ≤ family_length a.family * 8
    → written (ip_net a bits false) port ≡ net_bytes a bits
unfolding endpoint_to_proto ip_net is_null_endpoint is_null_net
written-ip_net a bits port h k =
    let whole : ltb (family_length a.family * 8) bits ≡ false = ground (arith, k) in
    let some_bits : ltb 0 bits ≡ true = ground (arith, h) in
    let not_null : (bits == 0) ≡ false = ground (arith, h) in
    elim (Bool-cases (port == 0)) [
      | inl no_port ↦ rw (whole, no_port, not_null, some_bits) refl
      | inr some_port ↦ rw (whole, some_port, some_bits) refl
    ]

-- The same, as the bytes of each network.
unfoldable plain_ipv4 : List (ℕ × ℕ) → List ℕ
plain_ipv4 [] = []
plain_ipv4 ((ip, bits) ∷ rest) = net_bytes (ipv4 ip) bits ++ plain_ipv4 rest

unfoldable plain_ipv6 : List ((ℕ × ℕ) × ℕ) → List ℕ
plain_ipv6 [] = []
plain_ipv6 ((ip, bits) ∷ rest) = net_bytes (ipv6_address ip.0 ip.1) bits ++ plain_ipv6 rest

written-plain_ipv4 :
    (port : ℕ) (nets : List (ℕ × ℕ)) → AreIpv4 nets → written_ipv4 port nets ≡ plain_ipv4 nets
unfolding written_ipv4 plain_ipv4
written-plain_ipv4 port [] h = refl
written-plain_ipv4 port ((ip, bits) ∷ rest) h =
    ap (λ l. l ++ written_ipv4 port rest)
      (written-ip_net (ipv4 ip) bits port h.1 (omega (arith, h.2)))
    ∙ ap (λ l. net_bytes (ipv4 ip) bits ++ l) (written-plain_ipv4 port rest h.3)

written-plain_ipv6 :
    (port : ℕ) (nets : List ((ℕ × ℕ) × ℕ)) → AreIpv6 nets → written_ipv6 port nets ≡ plain_ipv6 nets
unfolding written_ipv6 plain_ipv6
written-plain_ipv6 port [] h = refl
written-plain_ipv6 port ((ip, bits) ∷ rest) h =
    ap (λ l. l ++ written_ipv6 port rest)
      (written-ip_net (ipv6_address ip.0 ip.1) bits port h.2 (omega (arith, h.3)))
    ∙ ap (λ l. net_bytes (ipv6_address ip.0 ip.1) bits ++ l) (written-plain_ipv6 port rest h.4)

eight : (w : ℕ) → w < 2 ^ 64 → big_endian 0 (word_bytes w) ≡ w
unfolding big_endian
eight w h = ground arith

four : (w : ℕ) → w < 2 ^ 32 → big_endian 0 (take 4 (word_bytes (w * 2 ^ 32))) ≡ w
unfolding big_endian
four w h = ground arith

address_of-ipv4 :
    (ip bits : ℕ) (rest : List ℕ)
    → ip < 2 ^ 32
    → address_of Family.ipv4 (net_bytes (ipv4 ip) bits ++ rest) ≡ ipv4 ip
unfolding address_of address_bytes word_of big_endian
address_of-ipv4 ip bits rest h = ap (λ w. ipv4 w) (four ip h)

once : (n : ℕ) → n * 2 ^ 0 ≡ n
once n = omega arith

address_of-ipv6 :
    (high low bits : ℕ) (rest : List ℕ)
    → high < 2 ^ 64
    → low < 2 ^ 64
    → address_of Family.ipv6 (net_bytes (ipv6_address high low) bits ++ rest)
      ≡ ipv6_address high low
unfolding address_of address_bytes word_of big_endian
address_of-ipv6 high low bits rest h l =
    ap (λ w. ipv6_address w (big_endian 0 (word_bytes low) * 2 ^ 0))
      (once (big_endian 0 (word_bytes high)) ∙ eight high h)
    ∙ ap (λ w. ipv6_address high w) (once (big_endian 0 (word_bytes low)) ∙ eight low l)

-- A prefix length of 128 is a negative char, whose size_t is cut down to 128 again.
same_length :
    (most bits : ℕ)
    → most ≤ 128
    → bits ≤ most
    → (if ltb most (char_to_size (bits % 256)) then most else char_to_size (bits % 256))
      ≡ (if ltb most bits then most else bits)
same_length most bits h k = ground arith

length_bound : (f : Family) → family_length f * 8 ≤ 128
length_bound Family.unknown = omega arith
length_bound Family.ipv4 = omega arith
length_bound Family.ipv6 = omega arith

abbrev net_of : Address → ℕ → IpNet
net_of a kept = record {
  address = a;
  mask = copy_mask (words a) kept;
  bits = kept;
  is_addr = false;
}

ip_net-char_to_size :
    (a : Address) (bits : ℕ)
    → bits ≤ family_length a.family * 8
    → ip_net a (char_to_size (bits % 256)) false ≡ ip_net a bits false
unfolding ip_net
ip_net-char_to_size a bits h =
    ap (net_of a) (same_length (family_length a.family * 8) bits (length_bound a.family) h)

read-plain_ipv4 :
    (nets : List (ℕ × ℕ))
    → AreIpv4 nets
    → read_from (length nets) (plain_ipv4 nets) Family.ipv4
      ≡ map (λ n. ip_net (ipv4 n.0) n.1 false) nets
unfolding read_from plain_ipv4 address_bytes
read-plain_ipv4 [] h = refl
read-plain_ipv4 ((ip, bits) ∷ rest) h =
    ap
      (λ a.
        ip_net a (char_to_size (bits % 256)) false
        ∷ read_from (length rest) (plain_ipv4 rest) Family.ipv4)
      (address_of-ipv4 ip bits (plain_ipv4 rest) h.0)
    ∙ ap (λ n. n ∷ read_from (length rest) (plain_ipv4 rest) Family.ipv4)
        (ip_net-char_to_size (ipv4 ip) bits (omega (arith, h.2)))
    ∙ ap (λ ns. ip_net (ipv4 ip) bits false ∷ ns) (read-plain_ipv4 rest h.3)

length-plain_ipv4 : (nets : List (ℕ × ℕ)) → length (plain_ipv4 nets) ≡ 5 * length nets
unfolding plain_ipv4 address_bytes
length-plain_ipv4 [] = refl
length-plain_ipv4 ((ip, bits) ∷ rest) = omega (arith, length-plain_ipv4 rest)

read-plain_ipv6 :
    (nets : List ((ℕ × ℕ) × ℕ))
    → AreIpv6 nets
    → read_from (length nets) (plain_ipv6 nets) Family.ipv6
      ≡ map (λ n. ip_net (ipv6_address n.0.0 n.0.1) n.1 false) nets
unfolding read_from plain_ipv6 address_bytes
read-plain_ipv6 [] h = refl
read-plain_ipv6 ((ip, bits) ∷ rest) h =
    ap
      (λ a.
        ip_net a (char_to_size (bits % 256)) false
        ∷ read_from (length rest) (plain_ipv6 rest) Family.ipv6)
      (address_of-ipv6 ip.0 ip.1 bits (plain_ipv6 rest) h.0 h.1)
    ∙ ap (λ n. n ∷ read_from (length rest) (plain_ipv6 rest) Family.ipv6)
        (ip_net-char_to_size (ipv6_address ip.0 ip.1) bits (omega (arith, h.3)))
    ∙ ap (λ ns. ip_net (ipv6_address ip.0 ip.1) bits false ∷ ns) (read-plain_ipv6 rest h.4)

length-plain_ipv6 : (nets : List ((ℕ × ℕ) × ℕ)) → length (plain_ipv6 nets) ≡ 17 * length nets
unfolding plain_ipv6 address_bytes
length-plain_ipv6 [] = refl
length-plain_ipv6 ((ip, bits) ∷ rest) = omega (arith, length-plain_ipv6 rest)

-- Of IPv4 networks of 1 to 32 bits and IPv6 networks of 1 to 128, whatever the port: what EndpointToProto
-- writes in ip_network, one after the other, readNetworks reads as the same networks.
pub read_networks-written :
    (port : ℕ) (nets : List (ℕ × ℕ)) (nets6 : List ((ℕ × ℕ) × ℕ))
    → AreIpv4 nets
    → AreIpv6 nets6
    → (read_networks (written_ipv4 port nets) Family.ipv4
        ≡ map (λ n. ip_net (ipv4 n.0) n.1 false) nets)
      × (read_networks (written_ipv6 port nets6) Family.ipv6
          ≡ map (λ n. ip_net (ipv6_address n.0.0 n.0.1) n.1 false) nets6)
unfolding read_networks
read_networks-written port nets nets6 h h6 = (
  ap (λ bytes. read_networks bytes Family.ipv4) (written-plain_ipv4 port nets h)
      ∙ ap (λ count. read_from count (plain_ipv4 nets) Family.ipv4)
          (omega (arith, length-plain_ipv4 nets))
      ∙ read-plain_ipv4 nets h,
  ap (λ bytes. read_networks bytes Family.ipv6) (written-plain_ipv6 port nets6 h6)
      ∙ ap (λ count. read_from count (plain_ipv6 nets6) Family.ipv6)
          (omega (arith, length-plain_ipv6 nets6))
      ∙ read-plain_ipv6 nets6 h6,
)
