-- ===== src/ConnStatus.antt =====
-- ConnStatus (collector/lib/ConnTracker.h): the time at which a connection was last seen and its
-- active flag, packed in one 64-bit word whose top bit is the flag.
pub mod Laws
use collector.Prelude.{
  ℕ, ◌+◌, ◌-◌, ◌*◌, ◌/◌, ◌%◌, ◌^◌, max, Bool, ◌||◌, ==_iff, ◌==◌, if◌then◌else◌,
}
use collector.Prelude.Int.{ℤ, pos, negsuc, ◌-ℤ◌, ltb_ℤ}

abbrev pub active_flag : ℕ
active_flag = 2 ^ 63

-- static_cast<uint64_t>(int64_t)
pub to_u64 : ℤ → ℕ
to_u64 (pos n) = n % 2 ^ 64
to_u64 (negsuc n) = 2 ^ 64 - 1 - n % 2 ^ 64

-- On a 64-bit word `word & ~active_flag` keeps the low 63 bits, and `word | active_flag` puts the
-- flag above them.
pub make_active : ℕ → Bool → ℕ
make_active word active = if active then word % active_flag + active_flag else word % active_flag

-- `word` is the field data_.
pub record ConnStatus : Type 0 where
  pub word : ℕ

unfoldable pub conn_status : ℤ → Bool → ConnStatus
unfolding make_active to_u64
conn_status microtimestamp active = record { word = make_active (to_u64 microtimestamp) active }

unfoldable pub last_active_time : ConnStatus → ℕ
last_active_time s = s.word % active_flag

unfoldable pub is_active : ConnStatus → Bool
is_active s = s.word / active_flag % 2 == 1

unfoldable pub set_active : ConnStatus → Bool → ConnStatus
unfolding make_active
set_active s active = record { word = make_active s.word active }

unfoldable pub merge_from : ConnStatus → ConnStatus → ConnStatus
merge_from s other = record { word = max s.word other.word }

unfoldable pub is_in_afterglow_period : ConnStatus → ℤ → ℤ → Bool
unfolding last_active_time
is_in_afterglow_period s time_micros afterglow_period_micros =
    ltb_ℤ (time_micros -ℤ pos (last_active_time s)) afterglow_period_micros

unfoldable pub was_recently_active : ConnStatus → ℤ → ℤ → Bool
unfolding is_active is_in_afterglow_period
was_recently_active s time_micros afterglow_period_micros =
    is_active s || is_in_afterglow_period s time_micros afterglow_period_micros
