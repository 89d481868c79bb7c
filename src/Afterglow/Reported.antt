-- ===== src/Afterglow/Reported.antt =====
-- What ComputeDeltaAfterglow (collector/lib/ConnTracker.h) reports at one key, as a time and a flag.
use collector.Prelude.{
  ◌≡◌, refl, ap, ◌∙◌, ℕ, Bool, true, false, not, Option, none, some, [], arith, ltb, if◌then◌else◌,
  ◌&&◌, ◌||◌,
}
use collector.Prelude.Int.{ℤ, pos, ◌-ℤ◌, ltb_ℤ}
use collector.KeyMap.{KeyEq, UnorderedMap, find, Unique}
use collector.ConnStatus.{
  ConnStatus, last_active_time, is_active, is_in_afterglow_period, was_recently_active,
}
use collector.ConnStatus.Laws.{restamp}
use collector.Afterglow.{change_conn_to_active_if_needed, compute_delta_afterglow}
use collector.Afterglow.Pointwise.{glow_delta_at, find-compute_delta_afterglow}

-- The time and the flag of a status.
abbrev pub parts : Option ConnStatus → Option (ℕ × Bool)
parts none = none
parts (some s) = some (last_active_time s, is_active s)

module _ (now before period : ℤ) where
  -- Within its period after it was last seen.
  abbrev pub within : ℤ → ConnStatus → Bool
  within t s = ltb_ℤ (t -ℤ pos (last_active_time s)) period

  abbrev pub counts_as_active : ℤ → ConnStatus → Bool
  counts_as_active t s = is_active s || within t s

  -- From the status in the new state and the one in the old state.
  abbrev pub reported : Option ConnStatus → Option ConnStatus → Option (ℕ × Bool)
  reported none none = none
  reported (some s) none = some (last_active_time s, counts_as_active now s)
  reported (some s) (some o) =
      if counts_as_active now s
      then (if counts_as_active before o then none else some (last_active_time s, true))
      else if counts_as_active before o || ltb (last_active_time o) (last_active_time s)
      then some (last_active_time s, false)
      else none
  reported none (some o) =
      if counts_as_active before o && not (within now o)
      then some (last_active_time o, false)
      else none

  parts-change :
      (s : ConnStatus)
      → parts (some (change_conn_to_active_if_needed s (was_recently_active s now period)))
        ≡ some (last_active_time s, counts_as_active now s)
  unfolding change_conn_to_active_if_needed was_recently_active is_in_afterglow_period
  parts-change s = ground (arith, restamp s true)

  parts-glow_delta_at :
      (new old : Option ConnStatus)
      → parts (glow_delta_at now before period new old) ≡ reported new old
  unfolding was_recently_active is_in_afterglow_period
  parts-glow_delta_at none none = refl
  parts-glow_delta_at (some s) none = parts-change s
  parts-glow_delta_at (some s) (some o) = ground (arith, parts-change s)
  parts-glow_delta_at none (some o) = ground (arith, restamp o false)

  module _ {ℓ} {K : Type ℓ} (E : KeyEq K) where
    -- For maps without repeated keys, ComputeDeltaAfterglow on an empty delta reports at a key that is new
    -- the time of its status, as active if it is active or was seen less than the period ago; at a key of
    -- both states the new time, as active if it counts as active now and did not at the last scrape, and as
    -- inactive if it counts as inactive now and did count as active, or has been seen since; at a key that
    -- has vanished its old time, as inactive, if it counted as active at the last scrape and the period has
    -- passed since it was seen; and nothing else.
    pub parts-compute_delta_afterglow :
        (j : K) (n o : UnorderedMap K ConnStatus)
        → Unique E n
        → Unique E o
        → parts (find E j (compute_delta_afterglow E now before period n o []))
          ≡ reported (find E j n) (find E j o)
    parts-compute_delta_afterglow j n o un uo =
        ap parts (find-compute_delta_afterglow now before period E j n o un uo)
        ∙ parts-glow_delta_at (find E j n) (find E j o)
