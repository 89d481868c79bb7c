-- ===== src/Net/IpNet.antt =====
-- class IPNet (collector/lib/NetworkConnection.h). mask_ holds full words as they are and the last
-- one in host order; here both are numbers in host order, as the words of an Address are.
use collector.Prelude.{
  ℕ, ◌-◌, ◌*◌, ◌%◌, ◌^◌, Bool, true, false, ◌&&◌, not, List, [], ◌∷◌, map, ltb, leb, ◌==◌,
  if◌then◌else◌,
}
use collector.Net.Address.{
  Address, Family, family_eq, family_length, words, high_bits, no_address, address_eq, is_null,
  address_gt,
}

pub record IpNet : Type 0 where
  pub address : Address
  pub mask : List ℕ
  pub bits : ℕ
  pub is_addr : Bool

-- The loop of the constructor that copies whole words while 64 bits or more are left, and the first
-- bits of the next word; mask_ is zero elsewhere.
unfoldable pub copy_mask : List ℕ → ℕ → List ℕ
copy_mask [] bits_left = []
copy_mask (word ∷ rest) bits_left =
    let copied = copy_mask rest (bits_left - 64) in
    if leb 64 bits_left
    then word ∷ copied
    else if ltb 0 bits_left
    then high_bits word bits_left ∷ map (λ _. 0) rest
    else 0 ∷ map (λ _. 0) rest

-- IPNet(address, bits, is_addr)
unfoldable pub ip_net : Address → ℕ → Bool → IpNet
unfolding copy_mask
ip_net address bits is_addr =
    let most = family_length address.family * 8 in
    let kept = if ltb most bits then most else bits in
    record {
      address = address;
      mask = copy_mask (words address) kept;
      bits = kept;
      is_addr = is_addr;
    }

-- IPNet()
unfoldable pub no_net : IpNet
unfolding ip_net
no_net = ip_net no_address 0 false

-- IPNet(address)
unfoldable pub address_net : Address → IpNet
unfolding ip_net
address_net address = ip_net address (8 * family_length address.family) true

abbrev pub net_family : IpNet → Family
net_family n = n.address.family

-- ~(0xFFFFFFFFFFFFFFFF >> bits), for bits below 64
abbrev pub ones_mask : ℕ → ℕ
ones_mask bits = 2 ^ 64 - 2 ^ (64 - bits)

unfoldable pub net_mask_array : IpNet → List ℕ
net_mask_array n =
    if ltb n.bits 64
    then ones_mask n.bits ∷ 0 ∷ []
    else if n.bits == 128
    then (2 ^ 64 - 1) ∷ (2 ^ 64 - 1) ∷ []
    else (2 ^ 64 - 1) ∷ ones_mask (n.bits % 64) ∷ []

-- The loop of Contains over the words of the address and of the mask.
unfoldable pub same_prefix : List ℕ → List ℕ → ℕ → Bool
same_prefix (word ∷ rest) (mask_word ∷ mask_rest) bits_left =
    let go = same_prefix rest mask_rest (bits_left - 64) in
    if leb 64 bits_left
    then (if word == mask_word then go else false)
    else if ltb 0 bits_left
    then high_bits word bits_left == mask_word
    else true
same_prefix _ _ bits_left = true

unfoldable pub contains : IpNet → Address → Bool
unfolding same_prefix
contains n address =
    if not (family_eq address.family n.address.family)
    then false
    else same_prefix (words address) n.mask n.bits

abbrev pub words_eq : List ℕ → List ℕ → Bool
words_eq [] [] = true
words_eq (v ∷ vs) (w ∷ ws) = v == w && words_eq vs ws
words_eq _ _ = false

unfoldable pub is_null_net : IpNet → Bool
unfolding is_null
is_null_net n = n.bits == 0 && is_null n.address

unfoldable pub ip_net_eq : IpNet → IpNet → Bool
ip_net_eq n other =
    if not (n.bits == other.bits)
    then false
    else if n.is_addr
    then address_eq n.address other.address
    else words_eq n.mask other.mask

unfoldable pub ip_net_gt : IpNet → IpNet → Bool
unfolding address_gt
ip_net_gt n that =
    if not (n.bits == that.bits) then ltb that.bits n.bits else address_gt n.address that.address
