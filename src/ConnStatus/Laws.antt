-- ===== src/ConnStatus/Laws.antt =====
-- The word of a ConnStatus as a pair of a time and a flag.
use collector.Prelude.{
  ℕ, ◌%◌, ◌^◌, ◌<◌, ◌≡◌, max, Bool, true, false, arith, ◌||◌, if◌then◌else◌, xor, ◌↔◌, ltb→lt,
  lt→ltb,
}
use collector.Prelude.Int.{ℤ, pos, ◌+ℤ◌, ◌<ℤ◌, ◌≤ℤ◌, -ℤ_parts, +ℤ_parts}
use collector.ConnStatus.{
  ConnStatus, conn_status, last_active_time, is_active, set_active, merge_from,
  is_in_afterglow_period,
}

-- The field is a uint64_t.
abbrev pub IsWord : ConnStatus → Type 0
IsWord s = s.word < 2 ^ 64

-- A status made of a time below 2 ^ 63 and a flag has that time and that flag, and is a 64-bit word.
conn_status-parts :
    (t : ℕ) (active : Bool)
    → t < 2 ^ 63
    → (last_active_time (conn_status (pos t) active) ≡ t)
      × (is_active (conn_status (pos t) active) ≡ active)
      × IsWord (conn_status (pos t) active)
unfolding conn_status last_active_time is_active
conn_status-parts t true h = ground arith
conn_status-parts t false h = ground arith

pub last_active_time-set_active :
    (s : ConnStatus) (b : Bool) → last_active_time (set_active s b) ≡ last_active_time s
unfolding last_active_time set_active
last_active_time-set_active s b = ground arith

pub is_active-set_active : (s : ConnStatus) (b : Bool) → is_active (set_active s b) ≡ b
unfolding is_active set_active
is_active-set_active s true = ground arith
is_active-set_active s false = ground arith

-- ConnStatus(s.LastActiveTime(), active)
pub restamp :
    (s : ConnStatus) (active : Bool)
    → (last_active_time (conn_status (pos (last_active_time s)) active) ≡ last_active_time s)
      × (is_active (conn_status (pos (last_active_time s)) active) ≡ active)
unfolding last_active_time
restamp s active =
    let parts = conn_status-parts (s.word % 2 ^ 63) active (omega arith) in (parts.0, parts.1)

-- A status is in its afterglow period exactly until the period after its last activity is over.
is_in_afterglow_period_iff :
    (s : ConnStatus) (t p : ℤ)
    → (is_in_afterglow_period s t p ≡ true) ↔ (t <ℤ pos (last_active_time s) +ℤ p)
unfolding is_in_afterglow_period
is_in_afterglow_period_iff s t p = (
  λ h. omega (
    arith,
    ltb→lt _ _ h,
    -ℤ_parts t (pos (last_active_time s)),
    +ℤ_parts (pos (last_active_time s)) p,
  ),
  λ h.
      lt→ltb _ _ (
        omega
          (arith, -ℤ_parts t (pos (last_active_time s)), +ℤ_parts (pos (last_active_time s)) p)),
)

-- What is in the period later was in it before.
pub is_in_afterglow_period_anti :
    (s : ConnStatus) (t u p : ℤ)
    → t ≤ℤ u
    → is_in_afterglow_period s u p ≡ true
    → is_in_afterglow_period s t p ≡ true
is_in_afterglow_period_anti s t u p le h =
    (is_in_afterglow_period_iff s t p).1 (omega (arith, (is_in_afterglow_period_iff s u p).0 h))

-- Of two 64-bit words, the merge is active if one of them is. Its time is the later one if both are
-- active or neither is, and that of the active one otherwise.
merge_from-parts :
    (a b : ConnStatus)
    → IsWord a
    → IsWord b
    → (is_active (merge_from a b) ≡ (is_active a || is_active b))
      × (last_active_time (merge_from a b) ≡ (
          if xor (is_active a) (is_active b)
          then (if is_active a then last_active_time a else last_active_time b)
          else max (last_active_time a) (last_active_time b)))
unfolding merge_from is_active last_active_time
merge_from-parts a b ha hb = ground arith
