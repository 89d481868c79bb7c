-- ===== src/Threads/StopRace.antt =====
-- SignalServiceClient::Stop against the thread that runs EstablishGRPCStream and against PushSignals
-- (collector/lib/SignalServiceClient.cpp), step by step. Stop notifies stream_interrupted_ before
-- StoppableThread::Stop (collector/lib/StoppableThread.cpp) sets the flag that the wait reads. The mutex of
-- the wait is its own, so a notification between its test and its blocking is lost.
pub mod Ends
use collector.Prelude.{
  ◌≡◌, ◌≢◌, refl, Bool, true, false, ◌||◌, not, List, [], ◌∷◌, arith, Bool-cases, inl, inr,
}

-- Where the thread of the stream is: it tests the condition of the wait, it has found it false, it is
-- blocked, it has left the wait, it waits for the channel, it sets up a stream, or it has returned.
pub data Waiter : Type 0 where
  tests decided blocked woken trying connecting returned : Waiter

-- Stop: before the notification, after it, after the flag is set, and after the join.
pub data Stopper : Type 0 where
  begins notified flagged joined : Stopper

-- `write_failed` is whether PushSignals has stored that the stream is not active and is still to notify.
pub record Race : Type 0 where
  pub stream_active : Bool
  pub should_stop : Bool
  pub waiter : Waiter
  pub stopper : Stopper
  pub write_failed : Bool

-- notify_one wakes a thread that is blocked.
abbrev pub notify : Waiter → Waiter
notify Waiter.blocked = Waiter.tests
notify w = w

-- !stream_active_ || should_stop()
abbrev pub condition : Race → Bool
condition r = not r.stream_active || r.should_stop

-- Whether a step can wake the thread without Stop.
pub data Kind : Type 0 where
  plain wakes : Kind

-- The steps of EstablishGRPCStreamSingle and its loop, of PushSignals and of Stop. A push that is written,
-- that is the first one of a stream or that finds no stream changes nothing here.
pub data Step : Kind → Race → Race → Type 0 where
  pass :
      (r : Race)
      → r.waiter ≡ Waiter.tests
      → condition r ≡ true
      → Step Kind.plain r (record r { waiter = Waiter.woken })
  decide :
      (r : Race)
      → r.waiter ≡ Waiter.tests
      → condition r ≡ false
      → Step Kind.plain r (record r { waiter = Waiter.decided })
  block :
      (r : Race)
      → r.waiter ≡ Waiter.decided
      → Step Kind.plain r (record r { waiter = Waiter.blocked })
  wake_spuriously :
      (r : Race)
      → r.waiter ≡ Waiter.blocked
      → Step Kind.wakes r (record r { waiter = Waiter.tests })
  leave :
      (r : Race)
      → r.waiter ≡ Waiter.woken
      → r.should_stop ≡ true
      → Step Kind.plain r (record r { waiter = Waiter.returned })
  try_channel :
      (r : Race)
      → r.waiter ≡ Waiter.woken
      → r.should_stop ≡ false
      → Step Kind.plain r (record r { waiter = Waiter.trying })
  give_up :
      (r : Race)
      → r.waiter ≡ Waiter.trying
      → Step Kind.plain r (record r { waiter = Waiter.returned })
  connect :
      (r : Race)
      → r.waiter ≡ Waiter.trying
      → r.should_stop ≡ false
      → Step Kind.plain r (record r { waiter = Waiter.connecting })
  establish :
      (r : Race)
      → r.waiter ≡ Waiter.connecting
      → Step Kind.plain r (record r { stream_active = true; waiter = Waiter.tests })
  fail_to_start :
      (r : Race)
      → r.waiter ≡ Waiter.connecting
      → Step Kind.plain r (record r { waiter = Waiter.tests })
  fail_to_write :
      (r : Race)
      → r.stream_active ≡ true
      → r.write_failed ≡ false
      → Step Kind.plain r (record r { stream_active = false; write_failed = true })
  notify_failure :
      (r : Race)
      → r.write_failed ≡ true
      → Step Kind.wakes r (record r { waiter = notify r.waiter; write_failed = false })
  notify_one :
      (r : Race)
      → r.stopper ≡ Stopper.begins
      → Step Kind.plain r (record r { waiter = notify r.waiter; stopper = Stopper.notified })
  set_flag :
      (r : Race)
      → r.stopper ≡ Stopper.notified
      → Step Kind.plain r (record r { should_stop = true; stopper = Stopper.flagged })
  join :
      (r : Race)
      → r.stopper ≡ Stopper.flagged
      → r.waiter ≡ Waiter.returned
      → Step Kind.plain r (record r { stopper = Stopper.joined })

-- A run, with the kinds of its steps, the last one first.
pub data Run (r : Race) : List Kind → Race → Type 0 where
  here : Run r [] r
  next :
      {kinds : List Kind} {kind : Kind} {s t : Race}
      → Run r kinds s
      → Step kind s t
      → Run r (kind ∷ kinds) t

abbrev pub all_plain : List Kind → Bool
all_plain [] = true
all_plain (Kind.plain ∷ kinds) = all_plain kinds
all_plain (Kind.wakes ∷ kinds) = false

-- The notification is over, and the wait goes on.
abbrev pub waits : Waiter → Bool
waits Waiter.decided = true
waits Waiter.blocked = true
waits _ = false

abbrev pub IsStuck : Race → Type 0
IsStuck r = (waits r.waiter ≡ true) × (r.stopper ≢ Stopper.begins) × (r.stopper ≢ Stopper.joined)

Step-IsStuck : {s t : Race} → Step Kind.plain s t → IsStuck s → IsStuck t
Step-IsStuck (Step.pass r w c) h = absurd (ground (arith, w, h))
Step-IsStuck (Step.decide r w c) h = absurd (ground (arith, w, h))
Step-IsStuck (Step.block r w) h = (refl, h.1, h.2)
Step-IsStuck (Step.leave r w f) h = absurd (ground (arith, w, h))
Step-IsStuck (Step.try_channel r w f) h = absurd (ground (arith, w, h))
Step-IsStuck (Step.give_up r w) h = absurd (ground (arith, w, h))
Step-IsStuck (Step.connect r w f) h = absurd (ground (arith, w, h))
Step-IsStuck (Step.establish r w) h = absurd (ground (arith, w, h))
Step-IsStuck (Step.fail_to_start r w) h = absurd (ground (arith, w, h))
Step-IsStuck (Step.fail_to_write r a f) h = h
Step-IsStuck (Step.notify_one r b) h = absurd (h.1 b)
Step-IsStuck (Step.set_flag r b) h = (h.0, ground arith, ground arith)
Step-IsStuck (Step.join r b w) h = absurd (ground (arith, w, h))

-- If the thread of the stream is blocked after the notification, or has found the condition false by then,
-- it stays so and Stop does not get past the join in every run in which PushSignals notifies of no failure
-- to write and the wait does not wake up of itself.
pub Run-IsStuck :
    {s t : Race} {kinds : List Kind}
    → Run s kinds t
    → all_plain kinds ≡ true
    → IsStuck s
    → IsStuck t
Run-IsStuck Run.here quiet h = h
Run-IsStuck (Run.next {kind = Kind.plain} before last) quiet h =
    Step-IsStuck last (Run-IsStuck before quiet h)
Run-IsStuck (Run.next {kind = Kind.wakes} before last) quiet h = absurd (ground (arith, quiet))
