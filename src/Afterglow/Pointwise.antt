-- ===== src/Afterglow/Pointwise.antt =====
-- ComputeDeltaAfterglow and UpdateOldState at one key, against tables of their cases.
use collector.Prelude.{
  ◌≡◌, refl, Bool, true, false, not, Option, none, some, [], ◌∷◌, arith, ltb, xor, if◌then◌else◌,
  ◌&&◌,
}
use collector.Prelude.Int.{ℤ, pos}
use collector.KeyMap.{KeyEq, UnorderedMap, find, Unique, sweep, insert, assign}
use collector.KeyMap.Laws.{
  find_cong, find-insert, find-assign, insert-Unique, assign-Unique, find-sweep, sweep-Unique,
}
use collector.ConnStatus.{
  ConnStatus, conn_status, last_active_time, is_in_afterglow_period, was_recently_active,
}
use collector.Afterglow.{
  change_conn_to_active_if_needed, delta_for_a_connection_in_old_and_new_states,
  delta_for_a_connection_in_new_state, add_new, add_closed, compute_delta_afterglow,
  keep_in_afterglow, add_unexpired, update_old_state,
}

-- What is there stays, what is missing is added.
abbrev pub first : Option ConnStatus → Option ConnStatus → Option ConnStatus
first none s = s
first (some r) s = some r

module _ (time_micros time_at_last_scrape period : ℤ) where
  abbrev pub glows : ConnStatus → Bool
  glows s = was_recently_active s time_micros period

  abbrev pub glowed : ConnStatus → Bool
  glowed s = was_recently_active s time_at_last_scrape period

  abbrev pub opened_at : Option ConnStatus → Option ConnStatus → Option ConnStatus
  opened_at none old = none
  opened_at (some s) none = some (change_conn_to_active_if_needed s (glows s))
  opened_at (some s) (some o) =
      if xor (glows s) (glowed o)
      then some (change_conn_to_active_if_needed s (glows s))
      else if not (glows s) && ltb (last_active_time o) (last_active_time s)
      then some s
      else none

  abbrev pub expired_at : Option ConnStatus → Option ConnStatus → Option ConnStatus
  expired_at new none = none
  expired_at (some s) (some o) = none
  expired_at none (some o) =
      if glowed o && not (is_in_afterglow_period o time_micros period)
      then some (conn_status (pos (last_active_time o)) false)
      else none

  abbrev pub glow_delta_at : Option ConnStatus → Option ConnStatus → Option ConnStatus
  glow_delta_at new old = first (opened_at new old) (expired_at new old)

  module _ {ℓ} {K : Type ℓ} (E : KeyEq K) where
    open E use {same}

    abbrev step_new :
        K
        → ConnStatus
        → UnorderedMap K ConnStatus
        → UnorderedMap K ConnStatus
        → UnorderedMap K ConnStatus
    step_new key status old_state delta = elim (find E key old_state) [
      | some old_status ↦
          delta_for_a_connection_in_old_and_new_states E time_micros time_at_last_scrape period key
            status old_status delta
      | none ↦
          delta_for_a_connection_in_new_state E time_micros time_at_last_scrape period key status
            delta
    ]

    find-step_new :
        (k j : K) (s : ConnStatus) (old d : UnorderedMap K ConnStatus)
        → find E j (step_new k s old d) ≡ (
            if same k j then first (find E k d) (opened_at (some s) (find E k old)) else find E j d)
    unfolding delta_for_a_connection_in_old_and_new_states delta_for_a_connection_in_new_state
    find-step_new k j s old d = ground (
      arith,
      find-insert E k j s d,
      find-insert E k j (change_conn_to_active_if_needed s (glows s)) d,
      find_cong E k j d,
    )

    find-add_new :
        (j : K) (n old d : UnorderedMap K ConnStatus)
        → Unique E n
        → find E j (add_new E time_micros time_at_last_scrape period n old d)
          ≡ first (find E j d) (opened_at (find E j n) (find E j old))
    unfolding add_new find
    find-add_new j [] old d u = ground arith
    find-add_new j ((k, s) ∷ n) old d u = ground (
      arith,
      find-add_new j n old (step_new k s old d) u.1,
      find-step_new k j s old d,
      find_cong E k j n,
      find_cong E k j d,
      find_cong E k j old,
    )

    find-add_closed :
        (j : K) (o n d : UnorderedMap K ConnStatus)
        → Unique E o
        → find E j (add_closed E time_micros time_at_last_scrape period o n d)
          ≡ first (find E j d) (expired_at (find E j n) (find E j o))
    unfolding add_closed find
    find-add_closed j [] n d u = ground arith
    find-add_closed j ((k, s) ∷ o) n d u = ground (
      arith,
      find-add_closed j o n d u.1,
      find-add_closed j o n (insert E k (conn_status (pos (last_active_time s)) false) d) u.1,
      find-insert E k j (conn_status (pos (last_active_time s)) false) d,
      find_cong E k j n,
      find_cong E k j d,
      find_cong E k j o,
    )

    -- For maps without repeated keys, ComputeDeltaAfterglow on an empty delta holds at every key what
    -- the table says.
    pub find-compute_delta_afterglow :
        (j : K) (n o : UnorderedMap K ConnStatus)
        → Unique E n
        → Unique E o
        → find E j (compute_delta_afterglow E time_micros time_at_last_scrape period n o [])
          ≡ glow_delta_at (find E j n) (find E j o)
    unfolding compute_delta_afterglow find
    find-compute_delta_afterglow j n o un uo = ground (
      arith,
      find-add_closed j o n (add_new E time_micros time_at_last_scrape period n o []) uo,
      find-add_new j n o [] un,
    )

-- What UpdateOldState leaves at a key.
abbrev pub remembered_at : ℤ → ℤ → Option ConnStatus → Option ConnStatus → Option ConnStatus
remembered_at time_micros period (some s) old = some s
remembered_at time_micros period none none = none
remembered_at time_micros period none (some o) =
    if is_in_afterglow_period o time_micros period then some o else none

module _ {ℓ} {K : Type ℓ} (E : KeyEq K) where
  open E use {same}

  find-add_unexpired :
      (j : K) (n o : UnorderedMap K ConnStatus)
      → Unique E n
      → find E j (add_unexpired E n o) ≡ first (find E j n) (find E j o)
  unfolding add_unexpired find
  find-add_unexpired j [] o u = ground arith
  find-add_unexpired j ((k, s) ∷ n) o u = ground (
    arith,
    find-add_unexpired j n (insert E k s o) u.1,
    find-add_unexpired j n (assign E k s o) u.1,
    find-insert E k j s o,
    find-assign E k j s o,
    find_cong E k j n,
    find_cong E k j o,
  )

  add_unexpired-Unique :
      (n o : UnorderedMap K ConnStatus) → Unique E o → Unique E (add_unexpired E n o)
  unfolding add_unexpired
  add_unexpired-Unique [] o u = u
  add_unexpired-Unique ((k, s) ∷ n) o u =
      add_unexpired-Unique n _ (ground (arith, insert-Unique E k s o u, assign-Unique E k s o u))

  keep_in_afterglow-respects :
      (t p : ℤ) (a b : K) (s : ConnStatus)
      → same a b ≡ true
      → keep_in_afterglow E t p a s ≡ keep_in_afterglow E t p b s
  unfolding keep_in_afterglow
  keep_in_afterglow-respects t p a b s h = refl

  pub update_old_state-Unique :
      (t p : ℤ) (n o : UnorderedMap K ConnStatus)
      → Unique E o
      → Unique E (update_old_state E o n t p)
  unfolding update_old_state
  update_old_state-Unique t p n o u =
      add_unexpired-Unique n _
        (sweep-Unique E (keep_in_afterglow E t p) (keep_in_afterglow-respects t p) o u)

  -- For maps without repeated keys, UpdateOldState leaves the new status of a key that the new state
  -- knows, and of the others those that are in their afterglow period.
  pub find-update_old_state :
      (t p : ℤ) (j : K) (n o : UnorderedMap K ConnStatus)
      → Unique E n
      → Unique E o
      → find E j (update_old_state E o n t p) ≡ remembered_at t p (find E j n) (find E j o)
  unfolding update_old_state keep_in_afterglow
  find-update_old_state t p j n o un uo = ground (
    arith,
    find-add_unexpired j n (sweep (keep_in_afterglow E t p) o) un,
    find-sweep E (keep_in_afterglow E t p) (keep_in_afterglow-respects t p) j o uo,
  )
