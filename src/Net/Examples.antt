-- ===== src/Net/Examples.antt =====
-- The private ranges at two addresses.
use collector.Prelude.{◌≡◌, false, arith}
use collector.Net.Address.{ipv4_address}
use collector.Net.Private.{is_public}
use collector.Net.Private.Ranges.{is_public-ipv4_address}

is_public-ipv4_address_example : is_public (ipv4_address 172 31 0 1) ≡ false
is_public-ipv4_address_example =
    is_public-ipv4_address 172 31 0 1 (omega arith) (omega arith) (omega arith) (omega arith)
