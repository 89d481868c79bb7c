-- ===== src/Net/Address.antt =====
-- class Address (collector/lib/NetworkConnection.h). The two words of data_ are kept as the numbers
-- that ntohll makes of them: `hi` is ntohll(data_[0]) and `lo` is ntohll(data_[1]). Swapping the bytes
-- of both sides changes no `==` and commutes with `&`, so each test is written with the source's
-- constants before their htonll.
use collector.Prelude.{
  ℕ, ◌+◌, ◌-◌, ◌*◌, ◌/◌, ◌^◌, ◌<◌, Bool, false, ◌&&◌, ◌||◌, not, List, [], ◌∷◌, ltb, ◌==◌,
  if◌then◌else◌,
}

pub data Family : Type 0 where
  unknown ipv4 ipv6 : Family

-- The enumerator's value.
abbrev pub family_code : Family → ℕ
family_code Family.unknown = 0
family_code Family.ipv4 = 1
family_code Family.ipv6 = 2

abbrev pub family_eq : Family → Family → Bool
family_eq a b = family_code a == family_code b

pub record Address : Type 0 where
  pub family : Family
  pub hi : ℕ
  pub lo : ℕ

-- Length(family), in bytes.
abbrev pub family_length : Family → ℕ
family_length Family.ipv4 = 4
family_length Family.ipv6 = 16
family_length Family.unknown = 0

abbrev pub words : Address → List ℕ
words a = a.hi ∷ a.lo ∷ []

-- Address(family) and Address().
abbrev pub any : Family → Address
any f = record { family = f; hi = 0; lo = 0 }

abbrev pub no_address : Address
no_address = any Family.unknown

-- Address(a, b, c, d), of four bytes.
abbrev pub ipv4_address : ℕ → ℕ → ℕ → ℕ → Address
ipv4_address a b c d = record {
  family = Family.ipv4;
  hi = (a * 2 ^ 24 + b * 2 ^ 16 + c * 2 ^ 8 + d) * 2 ^ 32;
  lo = 0;
}

-- Address(ipv6_high, ipv6_low), of words in host order.
abbrev pub ipv6_address : ℕ → ℕ → Address
ipv6_address high low = record { family = Family.ipv6; hi = high; lo = low }

-- The word and ~(~0 >> bits): its first `bits` bits, for bits up to 64.
abbrev pub high_bits : ℕ → ℕ → ℕ
high_bits word bits = word / 2 ^ (64 - bits) * 2 ^ (64 - bits)

unfoldable pub address_eq : Address → Address → Bool
address_eq a b = family_eq a.family b.family && (a.hi == b.hi && a.lo == b.lo)

unfoldable pub is_null : Address → Bool
is_null a = a.hi == 0 && a.lo == 0

unfoldable pub to_v6 : Address → Address
to_v6 a = elim a.family [
  | Family.ipv6 ↦ a
  | Family.ipv4 ↦ ipv6_address 0 (0x0000ffff00000000 + a.hi / 2 ^ 32)
  | Family.unknown ↦ no_address
]

unfoldable pub is_local : Address → Bool
is_local a = elim a.family [
  | Family.ipv4 ↦ high_bits a.hi 8 == 0x7f00000000000000
  | Family.ipv6 ↦
      if not (a.hi == 0) then false else a.lo == 1 || high_bits a.lo 40 == 0x0000ffff7f000000
  | Family.unknown ↦ false
]

unfoldable pub is_canonical_external_ip : Address → Bool
is_canonical_external_ip a = elim a.family [
  | Family.ipv4 ↦ high_bits a.hi 32 == 0xffffffff00000000
  | Family.ipv6 ↦ a.hi == 0xffffffffffffffff && a.lo == 0xffffffffffffffff
  | Family.unknown ↦ false
]

-- memcmp over the first length() bytes compares them as a big-endian number.
unfoldable pub address_gt : Address → Address → Bool
address_gt a b =
    if not (family_eq a.family b.family)
    then ltb (family_code b.family) (family_code a.family)
    else elim a.family [
      | Family.unknown ↦ false
      | Family.ipv4 ↦ ltb (b.hi / 2 ^ 32) (a.hi / 2 ^ 32)
      | Family.ipv6 ↦ ltb b.hi a.hi || a.hi == b.hi && ltb b.lo a.lo
    ]

-- The words are uint64_t.
pub record IsAddress (a : Address) : Type 0 where
  pub hi_fits : a.hi < 2 ^ 64
  pub lo_fits : a.lo < 2 ^ 64
