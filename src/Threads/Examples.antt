-- ===== src/Threads/Examples.antt =====
-- Threads and clients at concrete inputs, and the run in which Stop does not end.
use collector.Prelude.{◌≡◌, ◌≤◌, ◌⊎◌, inl, length, refl, true, false, some, [], ◌∷◌, arith}
use collector.KeyMap.{and_then}
use collector.Threads.Stoppable.{
  Command, new_thread, run_commands, run_command, start, prepare_start, do_start, stop,
}
use collector.Threads.Client.{
  PushResult, new_client, Attempt, Action, run_actions, run_actions-phase_results,
}
use collector.Threads.StopRace.{Waiter, Stopper, Race, Kind, Step, Run, IsStuck, Run-IsStuck}
use collector.Threads.StopRace.Ends.{GoesOn, Run-GoesOn}

went :
    run_commands
      (Command.start_it true
        ∷ Command.stop_it
        ∷ Command.start_it false
        ∷ Command.start_it true
        ∷ [])
      (new_thread true)
    ≡ some
        (record { has_thread = true; should_stop = false; reading_end = true; writing_end = true })
unfolding run_commands run_command start prepare_start do_start stop
went = refl

abbrev good : Attempt
good = record {
  should_stop = false;
  channel_ready = true;
  should_stop_then = false;
  started = true;
}

run_actions-phase_results_example :
    and_then
      (run_actions
        (Action.push true
          ∷ Action.establish good
          ∷ Action.push true
          ∷ Action.push true
          ∷ Action.push false
          ∷ Action.push true
          ∷ [])
        (new_client false))
      (λ r. some r.0)
    ≡ some (
        PushResult.error ∷ PushResult.needs_refresh ∷ PushResult.processed ∷ PushResult.error
        ∷ PushResult.error ∷ [])
run_actions-phase_results_example =
    run_actions-phase_results
      (Action.push true
        ∷ Action.establish good
        ∷ Action.push true
        ∷ Action.push true
        ∷ Action.push false
        ∷ Action.push true
        ∷ [])
      (new_client false) (λ e. absurd (ground (arith, e)))

abbrev before : Race
before = record {
  stream_active = true;
  should_stop = false;
  waiter = Waiter.blocked;
  stopper = Stopper.begins;
  write_failed = false;
}

abbrev tested : Race
tested = record before { waiter = Waiter.tests; stopper = Stopper.notified }

abbrev doomed : Race
doomed = record tested { waiter = Waiter.decided }

abbrev late : Race
late = record doomed { should_stop = true; stopper = Stopper.flagged }

-- The thread is woken and finds the condition false again before the flag is set.
lost : Run before (Kind.plain ∷ Kind.plain ∷ []) doomed
lost = Run.next (Run.next Run.here (Step.notify_one before refl)) (Step.decide tested refl refl)

Run-IsStuck_example : IsStuck late
Run-IsStuck_example =
    Run-IsStuck (Run.next Run.here (Step.set_flag doomed refl)) refl
      (refl, ground arith, ground arith)

-- The flag is set while the thread sets up a stream.
abbrev in_time : Race
in_time = record {
  stream_active = false;
  should_stop = true;
  waiter = Waiter.connecting;
  stopper = Stopper.flagged;
  write_failed = false;
}

abbrev connected : Race
connected = record in_time { stream_active = true; waiter = Waiter.tests }

Run-GoesOn_example :
    (length (Kind.plain ∷ []) ≤ 9) × ((connected.stopper ≡ Stopper.joined) ⊎ GoesOn connected)
Run-GoesOn_example =
    Run-GoesOn (Run.next Run.here (Step.establish in_time refl)) (refl, refl, inl refl)
