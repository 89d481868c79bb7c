-- ===== src/ExternalIps.antt =====
-- ExternalIPsConfig (collector/lib/ExternalIPsConfig.h and ExternalIPsConfig.cpp): in which directions
-- external addresses are reported one by one. The protobuf message is generated code; of its fields
-- the two that are read are kept.
use Prim.Native.Nat.{bit_and}
use collector.Prelude.{ℕ, Bool, Option, none, some, ◌==◌, if◌then◌else◌, not}

pub data Direction : Type 0 where
  none_enabled ingress egress both_enabled : Direction

-- The enumerator's value, a set of two bits.
abbrev pub direction_code : Direction → ℕ
direction_code none_enabled = 0
direction_code ingress = 1
direction_code egress = 2
direction_code both_enabled = 3

pub record ExternalIpsConfig : Type 0 where
  pub direction_enabled : Direction

unfoldable pub is_enabled : ExternalIpsConfig → Direction → Bool
is_enabled c direction =
    bit_and (direction_code direction) (direction_code c.direction_enabled)
    == direction_code direction

-- networking().external_ips() of sensor::CollectorConfig: whether `enabled` is ENABLED, and the
-- direction, of which every other value stands for both.
pub data ProtoDirection : Type 0 where
  proto_ingress proto_egress proto_other : ProtoDirection

pub record ExternalIpsProto : Type 0 where
  pub enabled : Bool
  pub direction : ProtoDirection

unfoldable pub external_ips_config : Option ExternalIpsProto → Bool → ExternalIpsConfig
external_ips_config none default_enabled = record {
  direction_enabled = if default_enabled then both_enabled else none_enabled;
}
external_ips_config (some external_ips) default_enabled =
    if not external_ips.enabled
    then record { direction_enabled = none_enabled }
    else elim external_ips.direction [
      | proto_ingress ↦ record { direction_enabled = ingress }
      | proto_egress ↦ record { direction_enabled = egress }
      | proto_other ↦ record { direction_enabled = both_enabled }
    ]
