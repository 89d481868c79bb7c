-- ===== src/Threads/Client.antt =====
-- SignalServiceClient (collector/lib/SignalServiceClient.h, SignalServiceClient.cpp). What the gRPC library
-- and the thread's flag say is a parameter; a call that reads a null pointer is `none`.
use collector.Prelude.{
  ◌≡◌, refl, Bool, true, false, ◌&&◌, not, Option, none, some, List, [], ◌∷◌, arith, if◌then◌else◌,
  Bool-cases, inl, inr,
}
use collector.KeyMap.{and_then}

-- SignalHandler::Result, of which PushSignals returns these.
pub data PushResult : Type 0 where
  processed error needs_refresh : PushResult

-- `has_context` and `has_writer` are whether context_ and writer_ are set.
pub record Client : Type 0 where
  pub stream_active : Bool
  pub has_context : Bool
  pub has_writer : Bool
  pub first_write : Bool

-- SignalServiceClient(channel), with the member that it leaves as it finds it.
abbrev pub new_client : Bool → Client
new_client first_write = record {
  stream_active = false;
  has_context = false;
  has_writer = false;
  first_write = first_write;
}

-- What a round of EstablishGRPCStream meets once the stream is not active or the thread is to stop.
pub record Attempt : Type 0 where
  pub should_stop : Bool
  pub channel_ready : Bool
  pub should_stop_then : Bool
  pub started : Bool

-- Whether to go on, and the client.
unfoldable pub establish_grpc_stream_single : Attempt → Client → Bool × Client
establish_grpc_stream_single a c =
    if a.should_stop
    then (false, c)
    else if not a.channel_ready
    then (false, c)
    else if a.should_stop_then
    then (false, c)
    else if not a.started
    then (true, record c { has_context = true; has_writer = false })
    else (
      true,
      record { stream_active = true; has_context = true; has_writer = true; first_write = true },
    )

-- PushSignals, when the writing succeeds or fails.
unfoldable pub push_signals : Bool → Client → Option (PushResult × Client)
push_signals written c =
    if not c.stream_active
    then some (PushResult.error, c)
    else if c.first_write
    then some (PushResult.needs_refresh, record c { first_write = false })
    else if not c.has_writer
    then none
    else if not written
    then some (PushResult.error, record c { has_writer = false; stream_active = false })
    else some (PushResult.processed, c)

-- Stop, after the thread has been joined.
unfoldable pub stop_client : Client → Option Client
stop_client c = if not c.has_context then none else some (record c { has_context = false })

-- What is done to a client while its thread is not told to stop. A round of EstablishGRPCStream waits
-- until the stream is not active.
pub data Action : Type 0 where
  establish : Attempt → Action
  push : Bool → Action

-- The results of the pushes, and the client.
unfoldable pub run_actions : List Action → Client → Option (List PushResult × Client)
run_actions [] c = some ([], c)
run_actions (Action.establish a ∷ actions) c = elim c.stream_active [
  | true ↦ run_actions actions c
  | false ↦ run_actions actions (establish_grpc_stream_single a c).1
]
run_actions (Action.push written ∷ actions) c =
    and_then (push_signals written c)
      (λ r. and_then (run_actions actions r.1) (λ more. some (r.0 ∷ more.0, more.1)))

-- A stream as its user sees it: there is none, or one to which nothing has been written, or one that is
-- written to.
pub data Phase : Type 0 where
  closed fresh open_stream : Phase

abbrev pub phase : Client → Phase
phase c =
    if not c.stream_active
    then Phase.closed
    else if c.first_write
    then Phase.fresh
    else Phase.open_stream

abbrev pub push_phase : Bool → Phase → PushResult × Phase
push_phase written Phase.closed = (PushResult.error, Phase.closed)
push_phase written Phase.fresh = (PushResult.needs_refresh, Phase.open_stream)
push_phase true Phase.open_stream = (PushResult.processed, Phase.open_stream)
push_phase false Phase.open_stream = (PushResult.error, Phase.closed)

abbrev pub succeeds : Attempt → Bool
succeeds a = not a.should_stop && (a.channel_ready && (not a.should_stop_then && a.started))

abbrev pub establish_phase : Attempt → Phase → Phase
establish_phase a Phase.closed = if succeeds a then Phase.fresh else Phase.closed
establish_phase a p = p

abbrev pub phase_results : List Action → Phase → List PushResult
phase_results [] p = []
phase_results (Action.establish a ∷ actions) p = phase_results actions (establish_phase a p)
phase_results (Action.push written ∷ actions) p =
    (push_phase written p).0 ∷ phase_results actions (push_phase written p).1

-- A stream that is active has a writer and a context.
abbrev pub IsClient : Client → Type 0
IsClient c = c.stream_active ≡ true → (c.has_writer ≡ true) × (c.has_context ≡ true)

pub establish-IsClient :
    (a : Attempt) (c : Client)
    → c.stream_active ≡ false
    → IsClient (establish_grpc_stream_single a c).1
unfolding establish_grpc_stream_single
establish-IsClient a c h = ground (arith, h)

establish-phase :
    (a : Attempt) (c : Client)
    → c.stream_active ≡ false
    → phase (establish_grpc_stream_single a c).1 ≡ establish_phase a (phase c)
unfolding establish_grpc_stream_single
establish-phase a c h = ground (arith, h)

-- One push: its result, and what is left.
pub push-phase :
    (written : Bool) (c : Client)
    → IsClient c
    → (after : Client) × (push_signals written c ≡ some ((push_phase written (phase c)).0, after))
      × (phase after ≡ (push_phase written (phase c)).1)
      × IsClient after
unfolding push_signals
push-phase written c h = elim (Bool-cases c.stream_active) [
  | inr idle ↦ (c, ground (arith, idle), ground (arith, idle), h)
  | inl active ↦ elim (Bool-cases c.first_write) [
    | inl first ↦ (
      record c { first_write = false },
      ground (arith, active, first),
      ground (arith, active, first),
      h,
    )
    | inr later ↦ elim (Bool-cases written) [
      | inl went ↦
          (c, ground (arith, active, later, went, h active), ground (arith, active, later, went), h)
      | inr failed ↦ (
        record c { has_writer = false; stream_active = false },
        ground (arith, active, later, failed, h active),
        ground (arith, active, later, failed),
        λ e. absurd (ground (arith, e)),
      )
    ]
  ]
]

-- A client whose active stream has a writer and a context refines the stream as its user sees it:
-- whatever streams are set up and messages pushed, no null pointer is read, and the results of the
-- pushes are those of the phases. So the first push of a stream needs a refresh, the others are processed
-- up to the first that cannot be written, and there are errors from there to the next stream.
pub run_actions-phase_results :
    (actions : List Action) (c : Client)
    → IsClient c
    → and_then (run_actions actions c) (λ r. some r.0) ≡ some (phase_results actions (phase c))
unfolding run_actions
run_actions-phase_results [] c h = refl
run_actions-phase_results (Action.establish a ∷ actions) c h = elim (Bool-cases c.stream_active) [
  | inl active ↦
      let same : establish_phase a (phase c) ≡ phase c = ground (arith, active) in
      rw (run_actions, same) (ground (arith, active, run_actions-phase_results actions c h))
  | inr idle ↦ ground (
    arith,
    idle,
    establish-phase a c idle,
    run_actions-phase_results actions (establish_grpc_stream_single a c).1
        (establish-IsClient a c idle),
  )
]
run_actions-phase_results (Action.push written ∷ actions) c h =
    let (after, pushed, left, kept) = push-phase written c h in
    ground (arith, pushed, left, run_actions-phase_results actions after kept)
