-- ===== src/ProcessSignal/Handler.antt =====
-- ProcessSignalHandler (collector/lib/ProcessSignalHandler.cpp): the rate limit of the messages on processes,
-- and what is sent. A call that reads a null pointer is `none`; the counters have no bound.
pub mod Laws
use collector.Prelude.{
  ℕ, ◌+◌, Bool, true, false, not, Option, none, some, List, [], ◌∷◌, ◌++◌, if◌then◌else◌, take,
}
use collector.Prelude.Int.{ℤ}
use collector.Prelude.Text.{codes, string_of}
use collector.KeyMap.{and_then}
use collector.RateLimit.{RateLimitCache, cache_allow, reset_rate_limit_cache}
use collector.Threads.Client.{
  Client, PushResult, Attempt, establish_grpc_stream_single, push_signals, stop_client,
}
use collector.ProcessSignal.Formatter.{
  ThreadInfo, ExecEvent, ProcessSignal, event_to_proto_message, thread_to_proto_message,
}

unfoldable pub compute_process_key : ProcessSignal → List ℕ
compute_process_key s =
    s.container_id ++ b' ' ∷ (s.name ++ b' ' ∷ (take 256 s.args ++ b' ' ∷ s.exec_file_path))

-- The counters of CollectorStats on processes.
pub record ProcessStats : Type 0 where
  pub resolution_failures_by_evt : ℕ
  pub resolution_failures_by_tinfo : ℕ
  pub rate_limit_count : ℕ
  pub sent : ℕ
  pub send_failures : ℕ

pub record ProcessHandler : Type 0 where
  pub rate_limiter : RateLimitCache
  pub client : Client
  pub stats : ProcessStats

-- SignalHandler::Result: IGNORED, or what the client has returned.
pub data HandlerResult : Type 0 where
  ignored : HandlerResult
  pushed : PushResult → HandlerResult

-- The clock of the rate limiter at each time that it is read, and whether the message can be written.
pub record Moment : Type 0 where
  pub first_now : ℤ
  pub refill_now : ℤ
  pub fill_now : ℤ
  pub written : Bool

-- Which of the two counters counts a process that cannot be resolved.
pub data Origin : Type 0 where
  by_evt by_tinfo : Origin

abbrev pub note_failure : Origin → ProcessStats → ProcessStats
note_failure Origin.by_evt s = record s {
  resolution_failures_by_evt = s.resolution_failures_by_evt + 1;
}
note_failure Origin.by_tinfo s = record s {
  resolution_failures_by_tinfo = s.resolution_failures_by_tinfo + 1;
}

abbrev pub note_rate_limit : ProcessStats → ProcessStats
note_rate_limit s = record s { rate_limit_count = s.rate_limit_count + 1 }

abbrev pub note_push : PushResult → ProcessStats → ProcessStats
note_push PushResult.processed s = record s { sent = s.sent + 1 }
note_push PushResult.error s = record s { send_failures = s.send_failures + 1 }
note_push PushResult.needs_refresh s = s

-- The message goes to the client.
abbrev pub send_message :
    Bool → RateLimitCache → ProcessHandler → Option (HandlerResult × ProcessHandler)
send_message written limiter h = and_then (push_signals written h.client) (λ r. some (
  HandlerResult.pushed r.0,
  record { rate_limiter = limiter; client = r.1; stats = note_push r.0 h.stats },
))

-- What HandleSignal and HandleExistingProcess do with a message.
unfoldable pub handle_message :
    Moment
    → Origin
    → Option ProcessSignal
    → ProcessHandler
    → Option (HandlerResult × ProcessHandler)
handle_message m origin none h =
    some (HandlerResult.ignored, record h { stats = note_failure origin h.stats })
handle_message m origin (some s) h =
    and_then
      (cache_allow h.rate_limiter (string_of (compute_process_key s)) m.first_now m.refill_now
        m.fill_now)
      (λ a.
        if not a.1
        then some (
          HandlerResult.ignored,
          record h { rate_limiter = a.0; stats = note_rate_limit h.stats },
        )
        else send_message m.written a.0 h)

-- Stop
unfoldable pub stop_process_handler : ProcessHandler → Option ProcessHandler
stop_process_handler h =
    and_then (stop_client h.client)
      (λ c. some (record h { client = c; rate_limiter = reset_rate_limit_cache h.rate_limiter }))

-- What happens to a handler: an event, a process that was there before, or a round of the client's thread.
-- Events come with the identifier of their message.
pub data Happening : Type 0 where
  event : Moment → List ℕ → ExecEvent → Happening
  existing : Moment → List ℕ → Option ThreadInfo → Happening
  round : Attempt → Happening

module _ (span : List ℕ → ℕ) (disable_process_arguments : Bool) where
  -- HandleSignal
  abbrev pub handle_process_signal :
      Moment → List ℕ → ExecEvent → ProcessHandler → Option (HandlerResult × ProcessHandler)
  handle_process_signal m id evt =
      handle_message m Origin.by_evt (event_to_proto_message span disable_process_arguments id evt)

  -- HandleExistingProcess
  abbrev pub handle_existing_process :
      Moment → List ℕ → Option ThreadInfo → ProcessHandler → Option (HandlerResult × ProcessHandler)
  handle_existing_process m id tinfo =
      handle_message m Origin.by_tinfo (thread_to_proto_message span id tinfo)

  -- The results of the calls, and the handler. A round waits until the stream is not active.
  unfoldable pub run_handler :
      List Happening → ProcessHandler → Option (List HandlerResult × ProcessHandler)
  run_handler [] h = some ([], h)
  run_handler (Happening.event m id evt ∷ more) h =
      and_then (handle_process_signal m id evt h)
        (λ r. and_then (run_handler more r.1) (λ rest. some (r.0 ∷ rest.0, rest.1)))
  run_handler (Happening.existing m id tinfo ∷ more) h =
      and_then (handle_existing_process m id tinfo h)
        (λ r. and_then (run_handler more r.1) (λ rest. some (r.0 ∷ rest.0, rest.1)))
  run_handler (Happening.round a ∷ more) h = elim h.client.stream_active [
    | true ↦ run_handler more h
    | false ↦ run_handler more (record h { client = (establish_grpc_stream_single a h.client).1 })
  ]
