-- ===== src/Net/Keys.antt =====
-- Addresses, networks, endpoints and connections as keys of hash containers. A container compares two
-- keys only if their hashes are equal. IPNet::Hash takes in the address of a network whose is_addr_ is
-- set and not that of another, so two networks that differ in is_addr_ are taken to have different
-- hashes; otherwise keys are compared by `==`.
use Prim.Native.String.{String}
use collector.Prelude.{ℕ, ◌≡◌, Bool, true, ◌&&◌, List, [], ◌∷◌, arith, refl, Option, none, some}
use collector.KeyMap.{KeyEq}
use collector.KeyMap.Keys.{nat_keys, string_keys, flag_eq, on, pair_keys}
use collector.Net.Address.{Address, Family, family_code, address_eq}
use collector.Net.IpNet.{IpNet, ip_net_eq, words_eq}
use collector.Net.Endpoint.{
  Endpoint, ContainerEndpoint, Connection, L4Proto, l4proto_code, Process, pointer_eq,
  advertised_originator_eq,
}

abbrev pub family_keys : KeyEq Family
family_keys = on family_code nat_keys

abbrev pub address_parts : Address → Family × (ℕ × ℕ)
address_parts a = (a.family, (a.hi, a.lo))

unfoldable pub address_keys : KeyEq Address
unfolding pair_keys
address_keys = on address_parts (pair_keys family_keys (pair_keys nat_keys nat_keys))

address_keys-eq : (a b : Address) → address_keys.same a b ≡ address_eq a b
unfolding address_keys address_eq
address_keys-eq a b = refl

unfoldable pub net_key_eq : IpNet → IpNet → Bool
unfolding ip_net_eq
net_key_eq n m = flag_eq n.is_addr m.is_addr && ip_net_eq n m

words_eq_refl : (v : List ℕ) → words_eq v v ≡ true
words_eq_refl [] = refl
words_eq_refl (x ∷ v) = ground (arith, words_eq_refl v)

words_eq_cong : (u v w : List ℕ) → words_eq u v ≡ true → words_eq u w ≡ words_eq v w
words_eq_cong [] [] w h = refl
words_eq_cong [] (y ∷ v) w h = cc
words_eq_cong (x ∷ u) [] w h = cc
words_eq_cong (x ∷ u) (y ∷ v) [] h = refl
words_eq_cong (x ∷ u) (y ∷ v) (z ∷ w) h = ground (arith, words_eq_cong u v w)

address_eq_refl : (a : Address) → address_eq a a ≡ true
unfolding address_eq
address_eq_refl a = ground arith

address_eq_cong : (a b c : Address) → address_eq a b ≡ true → address_eq a c ≡ address_eq b c
unfolding address_eq
address_eq_cong a b c h = ground arith

pub net_key_eq_refl : (n : IpNet) → net_key_eq n n ≡ true
unfolding net_key_eq
net_key_eq_refl n = ground (arith, words_eq_refl n.mask, address_eq_refl n.address)

pub net_key_eq_cong : (n m k : IpNet) → net_key_eq n m ≡ true → net_key_eq n k ≡ net_key_eq m k
unfolding net_key_eq
net_key_eq_cong n m k h =
    ground
      (arith, address_eq_cong n.address m.address k.address, words_eq_cong n.mask m.mask k.mask)

unfoldable pub net_keys : KeyEq IpNet
unfolding net_key_eq
net_keys = record { same = net_key_eq; same_refl = net_key_eq_refl; same_cong = net_key_eq_cong }

abbrev pub endpoint_parts : Endpoint → ℕ × IpNet
endpoint_parts e = (e.port, e.network)

unfoldable pub endpoint_keys : KeyEq Endpoint
unfolding pair_keys net_keys
endpoint_keys = on endpoint_parts (pair_keys nat_keys net_keys)

abbrev pub connection_parts : Connection → String × (Endpoint × (Endpoint × ℕ))
connection_parts c = (c.container, (c.local, (c.remote, c.flags)))

-- Connection::operator==
unfoldable pub connection_keys : KeyEq Connection
unfolding pair_keys endpoint_keys
connection_keys =
    on connection_parts
      (pair_keys string_keys (pair_keys endpoint_keys (pair_keys endpoint_keys nat_keys)))

abbrev pub proto_keys : KeyEq L4Proto
proto_keys = on l4proto_code nat_keys

pub pointer_eq_refl : (p : Option Process) → pointer_eq p p ≡ true
pointer_eq_refl none = refl
pointer_eq_refl (some p) = ground arith

pub pointer_eq_cong :
    (p q r : Option Process) → pointer_eq p q ≡ true → pointer_eq p r ≡ pointer_eq q r
pointer_eq_cong p q r h = ground arith

abbrev pub pointer_keys : KeyEq (Option Process)
pointer_keys = record {
  same = pointer_eq;
  same_refl = pointer_eq_refl;
  same_cong = pointer_eq_cong;
}

pub advertised_refl : (p : Option Process) → advertised_originator_eq p p ≡ true
advertised_refl none = refl
advertised_refl (some p) = ground (
  arith,
  string_keys.same_refl p.comm,
  string_keys.same_refl p.exe_path,
  string_keys.same_refl p.args,
)

pub advertised_cong :
    (p q r : Option Process)
    → advertised_originator_eq p q ≡ true
    → advertised_originator_eq p r ≡ advertised_originator_eq q r
advertised_cong none none r h = refl
advertised_cong none (some q) r h = cc
advertised_cong (some p) none r h = cc
advertised_cong (some p) (some q) none h = refl
advertised_cong (some p) (some q) (some r) h = ground (
  arith,
  string_keys.same_cong p.comm q.comm r.comm,
  string_keys.same_cong p.exe_path q.exe_path r.exe_path,
  string_keys.same_cong p.args q.args r.args,
)

abbrev pub advertised_originator_keys : KeyEq (Option Process)
advertised_originator_keys = record {
  same = advertised_originator_eq;
  same_refl = advertised_refl;
  same_cong = advertised_cong;
}

abbrev pub container_endpoint_parts :
    ContainerEndpoint → Option Process × (String × (Endpoint × L4Proto))
container_endpoint_parts c = (c.originator, (c.container, (c.endpoint, c.l4proto)))

-- ContainerEndpoint::operator==
unfoldable pub container_endpoint_keys : KeyEq ContainerEndpoint
unfolding pair_keys endpoint_keys
container_endpoint_keys =
    on container_endpoint_parts
      (pair_keys pointer_keys (pair_keys string_keys (pair_keys endpoint_keys proto_keys)))

-- AdvertisedEndpointEquality
unfoldable pub advertised_endpoint_keys : KeyEq ContainerEndpoint
unfolding pair_keys endpoint_keys
advertised_endpoint_keys = on container_endpoint_parts (
    pair_keys advertised_originator_keys
      (pair_keys string_keys (pair_keys endpoint_keys proto_keys)))
