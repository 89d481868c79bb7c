-- ===== src/Threads/Stoppable.antt =====
-- StoppableThread (collector/lib/StoppableThread.h, StoppableThread.cpp). A call that reads a null pointer
-- is `none`; whether pipe() succeeds is a parameter. join() returns, as the thread is taken to end once
-- it is told to stop.
use collector.Prelude.{
  ◌≡◌, subst, Bool, true, false, not, Option, none, some, List, [], ◌∷◌, arith, if◌then◌else◌,
  Bool-cases, Option-cases, inl, inr,
}
use collector.KeyMap.{and_then}

-- `has_thread` is whether thread_ is set; the ends of stop_pipe_ are open or closed.
pub record StoppableThread : Type 0 where
  pub has_thread : Bool
  pub should_stop : Bool
  pub reading_end : Bool
  pub writing_end : Bool

abbrev pub running : StoppableThread → Bool
running t = t.has_thread

unfoldable pub prepare_start : Bool → StoppableThread → Bool × StoppableThread
prepare_start pipe_succeeds t =
    if running t
    then (false, t)
    else if not pipe_succeeds
    then (false, record t { should_stop = false })
    else (true, record t { should_stop = false; reading_end = true; writing_end = true })

unfoldable pub do_start : StoppableThread → Bool × StoppableThread
do_start t = (true, record t { has_thread = true })

unfoldable pub start : Bool → StoppableThread → Bool × StoppableThread
start pipe_succeeds t =
    let (prepared, after) = prepare_start pipe_succeeds t in
    if not prepared then (false, after) else do_start after

-- Stop: the flag is set and the writing end closed before the thread is joined.
unfoldable pub stop : StoppableThread → Option StoppableThread
stop t =
    if not t.has_thread
    then none
    else some (record {
      has_thread = false;
      should_stop = true;
      reading_end = false;
      writing_end = false;
    })

-- PauseUntil, from what should_stop() is when the wait ends.
unfoldable pub pause_until : Bool → Bool
pause_until should_stop_at_end = not should_stop_at_end

-- What the owner of a thread does.
pub data Command : Type 0 where
  start_it : Bool → Command
  stop_it : Command

unfoldable pub run_command : Command → StoppableThread → Option StoppableThread
run_command (Command.start_it pipe_succeeds) t = some (start pipe_succeeds t).1
run_command Command.stop_it t = stop t

unfoldable pub run_commands : List Command → StoppableThread → Option StoppableThread
run_commands [] t = some t
run_commands (c ∷ commands) t = and_then (run_command c t) (run_commands commands)

-- StoppableThread(), with the flag that it leaves as it finds it.
abbrev pub new_thread : Bool → StoppableThread
new_thread should_stop = record {
  has_thread = false;
  should_stop = should_stop;
  reading_end = false;
  writing_end = false;
}

-- The pipe is open as long as there is a thread, which has not been told to stop.
abbrev pub IsThread : StoppableThread → Type 0
IsThread t =
    (t.reading_end ≡ t.has_thread)
    × (t.writing_end ≡ t.has_thread)
    × (t.has_thread ≡ true → t.should_stop ≡ false)

start-IsThread :
    (pipe_succeeds : Bool) (t : StoppableThread) → IsThread t → IsThread (start pipe_succeeds t).1
unfolding start prepare_start do_start
start-IsThread pipe_succeeds t h = ground (arith, h)

stop-IsThread :
    (t after : StoppableThread) → stop t ≡ some after → IsThread after × (after.should_stop ≡ true)
unfolding stop
stop-IsThread t after e = elim (Bool-cases t.has_thread) [
  | inl has ↦ ground (arith, has, e)
  | inr lacks ↦ absurd (ground (arith, lacks, e))
]

run_command-IsThread :
    (c : Command) (t after : StoppableThread)
    → IsThread t
    → run_command c t ≡ some after
    → IsThread after
unfolding run_command
run_command-IsThread (Command.start_it pipe_succeeds) t after h e =
    let same : (start pipe_succeeds t).1 ≡ after = ground (arith, e) in
    subst IsThread same (start-IsThread pipe_succeeds t h)
run_command-IsThread Command.stop_it t after h e = (stop-IsThread t after e).0

-- Whatever starts and stops a thread has been given, as long as none of them stops one that does not
-- run: its pipe is open while it runs and closed while it does not, and a thread that runs has not been
-- told to stop.
run_commands-IsThread :
    (commands : List Command) (t after : StoppableThread)
    → IsThread t
    → run_commands commands t ≡ some after
    → IsThread after
unfolding run_commands
run_commands-IsThread [] t after h e = subst IsThread (ground (arith, e)) h
run_commands-IsThread (c ∷ commands) t after h e = elim (Option-cases (run_command c t)) [
  | inl failed ↦ absurd (ground (arith, failed, e))
  | inr (next, went) ↦
      run_commands-IsThread commands next after (run_command-IsThread c t next h went)
        (ground (arith, went, e))
]
