-- ===== src/Afterglow/Stream.antt =====
-- What the receiver of the deltas knows with afterglow: which connections are active or in their
-- afterglow period.
use collector.Prelude.{◌≡◌, refl, Bool, true, false, Option, none, some, [], arith}
use collector.Prelude.Int.{ℤ, ◌≤ℤ◌}
use collector.KeyMap.{KeyEq, UnorderedMap, find, Unique}
use collector.ConnStatus.{ConnStatus, is_active, was_recently_active}
use collector.ConnStatus.Laws.{restamp, is_in_afterglow_period_anti}
use collector.Delta.Stream.{updated}
use collector.Afterglow.{change_conn_to_active_if_needed, compute_delta_afterglow, update_old_state}
use collector.Afterglow.Pointwise.{
  glow_delta_at, remembered_at, find-compute_delta_afterglow, find-update_old_state,
}

-- Whether a remembered status counts as open at a time.
abbrev pub open_in : ℤ → ℤ → Option ConnStatus → Bool
open_in t p none = false
open_in t p (some s) = was_recently_active s t p

is_active-change_conn_to_active_if_needed :
    (s : ConnStatus) (t p : ℤ)
    → is_active (change_conn_to_active_if_needed s (was_recently_active s t p))
      ≡ was_recently_active s t p
unfolding change_conn_to_active_if_needed was_recently_active
is_active-change_conn_to_active_if_needed s t p = ground (arith, restamp s true)

open_in-glow_delta_at :
    (t l p : ℤ) (new old : Option ConnStatus)
    → l ≤ℤ t
    → updated (glow_delta_at t l p new old) (open_in l p old)
      ≡ open_in t p (remembered_at t p new old)
unfolding was_recently_active
open_in-glow_delta_at t l p none none h = refl
open_in-glow_delta_at t l p none (some o) h =
    ground (arith, restamp o false, is_in_afterglow_period_anti o l t p h)
open_in-glow_delta_at t l p (some s) none h =
    ground (arith, is_active-change_conn_to_active_if_needed s t p)
open_in-glow_delta_at t l p (some s) (some o) h =
    ground (arith, is_active-change_conn_to_active_if_needed s t p)

module _ {ℓ} {K : Type ℓ} (E : KeyEq K) (new_state old_state : UnorderedMap K ConnStatus)
    (new_unique : Unique E new_state) (old_unique : Unique E old_state)
    (time_micros time_at_last_scrape period : ℤ) where
  -- For states without repeated keys, if time has not gone back since the last scrape, a receiver that knew which objects of the old
  -- state were open then knows, after the delta, which ones of the state that is remembered for the
  -- next scrape are open now: those active or within the afterglow period.
  pub compute_delta_afterglow-updates :
      time_at_last_scrape ≤ℤ time_micros
      → (k : K)
      → updated
          (find E k (
            compute_delta_afterglow E time_micros time_at_last_scrape period new_state old_state
              []))
          (open_in time_at_last_scrape period (find E k old_state))
        ≡ open_in time_micros period
            (find E k (update_old_state E old_state new_state time_micros period))
  compute_delta_afterglow-updates h k =
      rw
        (
          find-compute_delta_afterglow time_micros time_at_last_scrape period E k new_state
              old_state new_unique old_unique,
          find-update_old_state E time_micros period k new_state old_state new_unique old_unique,
        )
        (open_in-glow_delta_at time_micros time_at_last_scrape period (find E k new_state)
          (find E k old_state) h)

  -- For states without repeated keys, an object that stays open from one scrape to the next is not in the delta: within the afterglow
  -- period neither its closing nor its coming back is reported.
  pub compute_delta_afterglow-quiet :
      (k : K)
      → open_in time_at_last_scrape period (find E k old_state) ≡ true
      → open_in time_micros period
          (find E k (update_old_state E old_state new_state time_micros period))
        ≡ true
      → find E k
          (compute_delta_afterglow E time_micros time_at_last_scrape period new_state old_state [])
        ≡ none
  unfolding was_recently_active
  compute_delta_afterglow-quiet k was is = ground (
    arith,
    find-compute_delta_afterglow time_micros time_at_last_scrape period E k new_state old_state
        new_unique old_unique,
    find-update_old_state E time_micros period k new_state old_state new_unique old_unique,
  )
