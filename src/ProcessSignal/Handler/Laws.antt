-- ===== src/ProcessSignal/Handler/Laws.antt =====
-- The counters of ProcessSignalHandler (collector/lib/ProcessSignalHandler.cpp).
use collector.Prelude.{
  ℕ, ◌+◌, ◌≤◌, ◌≡◌, refl, Bool, true, false, Option, none, some, List, [], ◌∷◌, arith,
  if◌then◌else◌, length, Bool-cases, inl, inr,
}
use collector.KeyMap.{and_then}
use collector.RateLimit.{RateLimitCache, TimeLimiter}
use collector.RateLimit.Cache.{cache_allow-bounded}
use collector.Prelude.Text.{string_of}
use collector.Threads.Client.{
  PushResult, IsClient, push-phase, push_phase, phase, establish-IsClient,
  establish_grpc_stream_single,
}
use collector.ProcessSignal.Formatter.{
  ProcessSignal, event_to_proto_message, thread_to_proto_message,
}
use collector.ProcessSignal.Handler.{
  ProcessStats, ProcessHandler, HandlerResult, Moment, Origin, Happening, note_failure,
  note_rate_limit, note_push, send_message, handle_message, compute_process_key, run_handler,
}

-- The rate limiter is there and within its capacity, and so are the pointers of an active client.
abbrev pub IsHandler : ProcessHandler → Type 0
IsHandler h =
    ((l : TimeLimiter) × (h.rate_limiter.limiter ≡ some l))
    × (length h.rate_limiter.cache ≤ h.rate_limiter.capacity)
    × IsClient h.client

abbrev pub is_sent : HandlerResult → Bool
is_sent (HandlerResult.pushed PushResult.processed) = true
is_sent _ = false

abbrev pub is_failure : HandlerResult → Bool
is_failure (HandlerResult.pushed PushResult.error) = true
is_failure _ = false

abbrev pub is_ignored : HandlerResult → Bool
is_ignored HandlerResult.ignored = true
is_ignored _ = false

abbrev pub tally : (HandlerResult → Bool) → List HandlerResult → ℕ
tally test [] = 0
tally test (r ∷ results) = (if test r then 1 else 0) + tally test results

abbrev pub dropped : ProcessStats → ℕ
dropped s = s.resolution_failures_by_evt + s.resolution_failures_by_tinfo + s.rate_limit_count

-- The counters have gone up by as much as the results say.
abbrev pub Counted : ProcessStats → ProcessStats → List HandlerResult → Type 0
Counted before after results =
    (after.sent ≡ before.sent + tally is_sent results)
    × (after.send_failures ≡ before.send_failures + tally is_failure results)
    × (dropped after ≡ dropped before + tally is_ignored results)

Counted-cons :
    (a b c : ProcessStats) (r : HandlerResult) (results : List HandlerResult)
    → Counted a b (r ∷ [])
    → Counted b c results
    → Counted a c (r ∷ results)
Counted-cons a b c r results (s, f, d) (t, g, e) =
    (omega (arith, s, t), omega (arith, f, g), omega (arith, d, e))

note_failure-Counted :
    (origin : Origin) (s : ProcessStats)
    → Counted s (note_failure origin s) (HandlerResult.ignored ∷ [])
note_failure-Counted Origin.by_evt s = (omega arith, omega arith, omega arith)
note_failure-Counted Origin.by_tinfo s = (omega arith, omega arith, omega arith)

note_push-Counted :
    (r : PushResult) (s : ProcessStats) → Counted s (note_push r s) (HandlerResult.pushed r ∷ [])
note_push-Counted PushResult.processed s = (omega arith, omega arith, omega arith)
note_push-Counted PushResult.error s = (omega arith, omega arith, omega arith)
note_push-Counted PushResult.needs_refresh s = (omega arith, omega arith, omega arith)

-- How a call ends: with a result, a handler that is one, and counters that fit the result.
abbrev Handled : ProcessHandler → Option (HandlerResult × ProcessHandler) → Type 0
Handled h call =
    (r : HandlerResult) × (after : ProcessHandler) × (call ≡ some (r, after))
    × IsHandler after
    × Counted h.stats after.stats (r ∷ [])

send_message-Handled :
    (written : Bool) (limiter : RateLimitCache) (h : ProcessHandler) (l : TimeLimiter)
    → limiter.limiter ≡ some l
    → length limiter.cache ≤ limiter.capacity
    → IsClient h.client
    → Handled h (send_message written limiter h)
send_message-Handled written limiter h l present fits client =
    let (after, pushed, left, kept) = push-phase written h.client client in
    let r = (push_phase written (phase h.client)).0 in
    (
      HandlerResult.pushed r,
      record { rate_limiter = limiter; client = after; stats = note_push r h.stats },
      rw pushed refl,
      ((l, present), fits, kept),
      note_push-Counted r h.stats,
    )

handle_message-Handled :
    (m : Moment) (origin : Origin) (message : Option ProcessSignal) (h : ProcessHandler)
    → IsHandler h
    → Handled h (handle_message m origin message h)
unfolding handle_message
handle_message-Handled m origin none h is = (
  HandlerResult.ignored,
  record h { stats = note_failure origin h.stats },
  refl,
  is,
  note_failure-Counted origin h.stats,
)
handle_message-Handled m origin (some s) h ((l, present), fits, client) =
    let (a, allowed, within, still, same) =
      cache_allow-bounded h.rate_limiter l (string_of (compute_process_key s)) m.first_now
        m.refill_now m.fill_now present fits in
    let small : length a.0.cache ≤ a.0.capacity = omega (arith, within, same) in
    elim (Bool-cases a.1) [
      | inr over ↦ (
        HandlerResult.ignored,
        record h { rate_limiter = a.0; stats = note_rate_limit h.stats },
        ground (arith, allowed, over),
        ((l, still), small, client),
        (omega arith, omega arith, omega arith),
      )
      | inl free ↦
          let (r, after, sent, is, counted) =
            send_message-Handled m.written a.0 h l still small client in
          (r, after, ground (arith, allowed, free, sent), is, counted)
    ]

-- How a run ends.
abbrev pub RunIsCounted : ProcessHandler → Option (List HandlerResult × ProcessHandler) → Type 0
RunIsCounted h run =
    (results : List HandlerResult) × (after : ProcessHandler) × (run ≡ some (results, after))
    × IsHandler after
    × Counted h.stats after.stats results

run-RunIsCounted :
    (h : ProcessHandler) (call : Option (HandlerResult × ProcessHandler))
    (more : ProcessHandler → Option (List HandlerResult × ProcessHandler))
    → Handled h call
    → ((next : ProcessHandler) → IsHandler next → RunIsCounted next (more next))
    → RunIsCounted h
        (and_then call (λ r. and_then (more r.1) (λ rest. some (r.0 ∷ rest.0, rest.1))))
run-RunIsCounted h call more (r, next, handled, is, counted) go_on =
    let (results, after, ran, still, all) = go_on next is in
    (
      r ∷ results,
      after,
      rw (handled, ran) refl,
      still,
      Counted-cons h.stats next.stats after.stats r results counted all,
    )

module _ (span : List ℕ → ℕ) (disabled : Bool) where
  -- Whatever events and processes a handler is given, and whatever its client's thread does in between,
  -- every call has a result, no null pointer is read, and the handler stays well-formed. The counter of
  -- sent messages has gone up by the number of results PROCESSED, that of failures to send by the results
  -- ERROR, and those of unresolved and of rate limited processes together by the results IGNORED.
  pub run_handler-RunIsCounted :
      (happenings : List Happening) (h : ProcessHandler)
      → IsHandler h
      → RunIsCounted h (run_handler span disabled happenings h)
  unfolding run_handler
  run_handler-RunIsCounted [] h is = ([], h, refl, is, (omega arith, omega arith, omega arith))
  run_handler-RunIsCounted (Happening.event m id evt ∷ more) h is =
      run-RunIsCounted h
        (handle_message m Origin.by_evt (event_to_proto_message span disabled id evt) h)
        (run_handler span disabled more)
        (handle_message-Handled m Origin.by_evt (event_to_proto_message span disabled id evt) h is)
        (run_handler-RunIsCounted more)
  run_handler-RunIsCounted (Happening.existing m id tinfo ∷ more) h is =
      run-RunIsCounted h
        (handle_message m Origin.by_tinfo (thread_to_proto_message span id tinfo) h)
        (run_handler span disabled more)
        (handle_message-Handled m Origin.by_tinfo (thread_to_proto_message span id tinfo) h is)
        (run_handler-RunIsCounted more)
  run_handler-RunIsCounted (Happening.round a ∷ more) h (limiter, fits, client) =
      elim (Bool-cases h.client.stream_active) [
        | inl active ↦
            rw (run_handler, active) (run_handler-RunIsCounted more h (limiter, fits, client))
        | inr idle ↦
            let next : ProcessHandler = record h {
              client = (establish_grpc_stream_single a h.client).1;
            } in
            rw (run_handler, idle)
              (run_handler-RunIsCounted more next
                (limiter, fits, establish-IsClient a h.client idle))
      ]
