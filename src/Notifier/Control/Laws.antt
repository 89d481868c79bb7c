-- ===== src/Notifier/Control/Laws.antt =====
-- What a control message makes of the known public addresses.
use collector.Prelude.{
  ℕ, ◌*◌, ◌%◌, ◌^◌, ◌≡◌, refl, ap, ◌∙◌, Bool, true, false, ◌&&◌, ◌||◌, Option, none, some, List, [],
  ◌∷◌, arith, ◌==◌, length, Bool-cases, Option-cases, inl, inr,
}
use collector.KeyMap.{UnorderedSet, member}
use collector.KeyMap.Laws.{same_cong_right}
use collector.Net.Address.{Address, Family, to_v6, ipv6_address}
use collector.Net.Keys.{address_keys}
use collector.Tracker.State.{Tracker}
use collector.Tracker.Config.{update_known_public_ips, update_known_ip_networks}
use collector.Notifier.Control.{
  ControlMessage, IpAddressList, address_list, set_insert, add_ipv4_ips, add_ipv6_ips,
  receive_public_ips, receive_ip_networks, on_recv_control_message,
}

-- Whether an address is one of a list of IPv4 addresses, or the IPv6 address of one.
unfoldable pub listed_ipv4 : Address → List ℕ → Bool
listed_ipv4 a [] = false
listed_ipv4 a (ip ∷ rest) =
    let addr : Address = record { family = Family.ipv4; hi = ip * 2 ^ 32; lo = 0 } in
    address_keys.same addr a || address_keys.same (to_v6 addr) a || listed_ipv4 a rest

-- Whether it is one of a list of pairs of words.
unfoldable pub listed_ipv6 : Address → List ℕ → Bool
listed_ipv6 a (high ∷ low ∷ rest) =
    address_keys.same (ipv6_address high low) a || listed_ipv6 a rest
listed_ipv6 a _ = false

-- A list of IPv6 addresses of odd length is left out.
abbrev pub listed : Address → IpAddressList → Bool
listed a ips =
    listed_ipv4 a ips.ipv4_addresses
    || ((length ips.ipv6_addresses % 2 == 0) && listed_ipv6 a ips.ipv6_addresses)

member_cong :
    (a b : Address) (s : UnorderedSet Address)
    → address_keys.same a b ≡ true
    → member address_keys a s ≡ member address_keys b s
unfolding member
member_cong a b [] h = refl
member_cong a b (c ∷ s) h = ground (
  arith,
  member_cong a b s h,
  address_keys.same_cong a b c h,
  same_cong_right address_keys c a b h,
)

member-set_insert :
    (a b : Address) (s : UnorderedSet Address)
    → member address_keys a (set_insert b s) ≡ (address_keys.same b a || member address_keys a s)
unfolding set_insert member
member-set_insert a b s = elim (Bool-cases (address_keys.same b a)) [
  | inl e ↦ ground (arith, e, member_cong b a s e)
  | inr e ↦ ground (arith, e)
]

member-add_ipv4_ips :
    (a : Address) (ips : List ℕ) (s : UnorderedSet Address)
    → member address_keys a (add_ipv4_ips ips s) ≡ (listed_ipv4 a ips || member address_keys a s)
unfolding add_ipv4_ips listed_ipv4
member-add_ipv4_ips a [] s = refl
member-add_ipv4_ips a (ip ∷ rest) s =
    let addr : Address = record { family = Family.ipv4; hi = ip * 2 ^ 32; lo = 0 } in
    ground (
      arith,
      member-add_ipv4_ips a rest (set_insert (to_v6 addr) (set_insert addr s)),
      member-set_insert a (to_v6 addr) (set_insert addr s),
      member-set_insert a addr s,
    )

or_swap : (x y z : Bool) → (y || (x || z)) ≡ ((x || y) || z)
or_swap x y z = ground arith

member-add_ipv6_ips :
    (a : Address) (ips : List ℕ) (s : UnorderedSet Address)
    → member address_keys a (add_ipv6_ips ips s) ≡ (listed_ipv6 a ips || member address_keys a s)
unfolding add_ipv6_ips listed_ipv6
member-add_ipv6_ips a [] s = refl
member-add_ipv6_ips a (x ∷ []) s = refl
member-add_ipv6_ips a (high ∷ low ∷ rest) s =
    let addr = ipv6_address high low in
    member-add_ipv6_ips a rest (set_insert addr s)
    ∙ ap (λ b. listed_ipv6 a rest || b) (member-set_insert a addr s)
    ∙ or_swap (address_keys.same addr a) (listed_ipv6 a rest) (member address_keys a s)

member-receive_public_ips :
    (a : Address) (ips : IpAddressList) (t : Tracker)
    → member address_keys a (receive_public_ips ips t).known_public_ips ≡ listed a ips
unfolding receive_public_ips update_known_public_ips member
member-receive_public_ips a ips t = ground (
  arith,
  member-add_ipv4_ips a ips.ipv4_addresses [],
  member-add_ipv6_ips a ips.ipv6_addresses (add_ipv4_ips ips.ipv4_addresses []),
)

-- Whether an address is known to be public after a message.
abbrev pub known_after : Option ControlMessage → Tracker → Address → Bool
known_after none t a = member address_keys a t.known_public_ips
known_after (some msg) t a = elim msg.ip_networks [
  | none ↦ member address_keys a t.known_public_ips
  | some _ ↦ listed a (address_list msg.public_ip_addresses)
]

-- After a message that has networks, the known public addresses are exactly those of the message: its
-- IPv4 addresses, the IPv6 addresses that they are mapped to, and its IPv6 addresses unless their list
-- has an odd length; none if it has no public addresses. A message without networks leaves the known
-- public addresses as they are, whether it has public addresses or not, and so does a null pointer.
pub member-on_recv_control_message :
    (msg : Option ControlMessage) (t : Tracker) (a : Address)
    → member address_keys a (on_recv_control_message msg t).known_public_ips ≡ known_after msg t a
unfolding on_recv_control_message receive_ip_networks update_known_ip_networks
member-on_recv_control_message none t a = refl
member-on_recv_control_message (some msg) t a = elim (Option-cases msg.ip_networks) [
  | inl e ↦ ground (arith, e)
  | inr (networks, e) ↦
      ground (arith, e, member-receive_public_ips a (address_list msg.public_ip_addresses) t)
]
