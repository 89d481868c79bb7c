-- ===== src/Threads/StopRace/Ends.antt =====
-- That SignalServiceClient::Stop (collector/lib/SignalServiceClient.cpp) ends where the thread of the stream
-- does not wait.
use collector.Prelude.{
  ℕ, ◌+◌, ◌≤◌, ◌<◌, ◌≡◌, refl, true, false, List, arith, length, ◌⊎◌, inl, inr, if◌then◌else◌,
}
use collector.Threads.StopRace.{Waiter, Stopper, Race, Kind, Step, Run, waits}

-- The flag is set, and the thread is not in the wait.
abbrev pub IsFlagged : Race → Type 0
IsFlagged r =
    (r.should_stop ≡ true)
    × (waits r.waiter ≡ false)
    × ((r.stopper ≡ Stopper.flagged)
        ⊎ ((r.stopper ≡ Stopper.joined) × (r.waiter ≡ Waiter.returned)))

-- A bound on the steps that are left.
abbrev thread_steps : Waiter → ℕ
thread_steps Waiter.connecting = 5
thread_steps Waiter.tests = 2
thread_steps Waiter.woken = 1
thread_steps Waiter.trying = 1
thread_steps _ = 0

abbrev join_steps : Stopper → ℕ
join_steps Stopper.joined = 0
join_steps _ = 1

abbrev steps_left : Race → ℕ
steps_left r =
    thread_steps r.waiter
    + (if r.stream_active then 2 else 0)
    + (if r.write_failed then 1 else 0)
    + join_steps r.stopper

abbrev Shrinks : Race → Race → Type 0
Shrinks s t = IsFlagged t × (steps_left t < steps_left s)

Step-Shrinks : {kind : Kind} {s t : Race} → Step kind s t → IsFlagged s → Shrinks s t
Step-Shrinks (Step.pass r w c) h = ground (arith, w, h)
Step-Shrinks (Step.decide r w c) h = absurd (ground (arith, c, h))
Step-Shrinks (Step.block r w) h = absurd (ground (arith, w, h))
Step-Shrinks (Step.wake_spuriously r w) h = absurd (ground (arith, w, h))
Step-Shrinks (Step.leave r w f) h = ground (arith, w, h)
Step-Shrinks (Step.try_channel r w f) h = absurd (ground (arith, f, h))
Step-Shrinks (Step.give_up r w) h = ground (arith, w, h)
Step-Shrinks (Step.connect r w f) h = absurd (ground (arith, f, h))
Step-Shrinks (Step.establish r w) h = ground (arith, w, h)
Step-Shrinks (Step.fail_to_start r w) h = ground (arith, w, h)
Step-Shrinks (Step.fail_to_write r a f) h = ground (arith, a, f, h)
Step-Shrinks (Step.notify_failure r f) h = ground (arith, f, h)
Step-Shrinks (Step.notify_one r b) h = absurd (ground (arith, b, h))
Step-Shrinks (Step.set_flag r b) h = absurd (ground (arith, b, h))
Step-Shrinks (Step.join r b w) h = ground (arith, b, w, h)

Run-Shrinks :
    {s t : Race} {kinds : List Kind}
    → Run s kinds t
    → IsFlagged s
    → IsFlagged t × (length kinds + steps_left t ≤ steps_left s)
Run-Shrinks Run.here h = (h, omega arith)
Run-Shrinks (Run.next before last) h =
    let (flagged, bound) = Run-Shrinks before h in
    let (still, less) = Step-Shrinks last flagged in (still, omega (arith, bound, less))

abbrev pub GoesOn : Race → Type 0
GoesOn r = (kind : Kind) × (t : Race) × Step kind r t

flagged-parts :
    (r : Race) (w : Waiter) (p : Stopper)
    → r.waiter ≡ w
    → r.stopper ≡ p
    → IsFlagged r
    → (r.stopper ≡ Stopper.joined) ⊎ GoesOn r
flagged-parts r w Stopper.joined e f h = inl f
flagged-parts r Waiter.returned Stopper.flagged e f h = inr (Kind.plain, _, Step.join r f e)
flagged-parts r Waiter.tests p e f h = inr (Kind.plain, _, Step.pass r e (ground (arith, h)))
flagged-parts r Waiter.woken p e f h = inr (Kind.plain, _, Step.leave r e h.0)
flagged-parts r Waiter.trying p e f h = inr (Kind.plain, _, Step.give_up r e)
flagged-parts r Waiter.connecting p e f h = inr (Kind.plain, _, Step.fail_to_start r e)
flagged-parts r Waiter.decided p e f h = absurd (ground (arith, e, h))
flagged-parts r Waiter.blocked p e f h = absurd (ground (arith, e, h))
flagged-parts r Waiter.returned Stopper.begins e f h = absurd (ground (arith, f, h))
flagged-parts r Waiter.returned Stopper.notified e f h = absurd (ground (arith, f, h))

flagged-GoesOn : (r : Race) → IsFlagged r → (r.stopper ≡ Stopper.joined) ⊎ GoesOn r
flagged-GoesOn r h = flagged-parts r r.waiter r.stopper refl refl h

steps_left-bound : (r : Race) → steps_left r ≤ 9
steps_left-bound r = ground arith

-- Once the flag is set, if the thread is neither blocked nor about to be: no run, whatever PushSignals does,
-- has more than nine steps, and a run that has no further step has got past the join.
pub Run-GoesOn :
    {s t : Race} {kinds : List Kind}
    → Run s kinds t
    → IsFlagged s
    → (length kinds ≤ 9) × ((t.stopper ≡ Stopper.joined) ⊎ GoesOn t)
Run-GoesOn {s} {t} run h =
    let (flagged, bound) = Run-Shrinks run h in
    (omega (arith, bound, steps_left-bound s), flagged-GoesOn t flagged)
