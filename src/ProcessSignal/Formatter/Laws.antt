-- ===== src/ProcessSignal/Formatter/Laws.antt =====
-- The texts in the messages on processes (collector/lib/ProcessSignalFormatter.cpp).
use collector.Prelude.{
  ℕ, Bool, true, false, Option, none, some, List, [], ◌∷◌, if◌then◌else◌, Bool-cases, inl, inr,
}
use collector.ProcessSignal.Sanitized.{sanitized_or, IsUtf8, sanitized_or-Valid, nil-Valid}
use collector.ProcessSignal.Formatter.{
  ThreadInfo, ExecEvent, ProcessSignal, is_usable, validate_process_details, text_or,
  extract_proc_args, event_args, event_to_proto_message, thread_to_proto_message,
}

-- The texts of a message, if there is one, are valid.
abbrev pub TextsAreValid : (List ℕ → Type 0) → Option ProcessSignal → Type 0
TextsAreValid Valid none = Unit
TextsAreValid Valid (some s) = Valid s.name × Valid s.exec_file_path × Valid s.args

module _ (span : List ℕ → ℕ) (Valid : List ℕ → Type 0) (utf8 : IsUtf8 span Valid) where
  usable-Valid :
      (text other : List ℕ)
      → Valid other
      → Valid (if is_usable text then sanitized_or span text else other)
  usable-Valid text other h = elim (Bool-cases (is_usable text)) [
    | inl usable ↦ rw usable (sanitized_or-Valid span Valid utf8 text)
    | inr not_usable ↦ rw not_usable h
  ]

  text_or-Valid : (text other : Option (List ℕ)) → Valid (text_or span text other)
  unfolding text_or
  text_or-Valid none none = nil-Valid span Valid utf8
  text_or-Valid none (some other) = usable-Valid other [] (nil-Valid span Valid utf8)
  text_or-Valid (some text) none = usable-Valid text [] (nil-Valid span Valid utf8)
  text_or-Valid (some text) (some other) =
      usable-Valid text (if is_usable other then sanitized_or span other else [])
        (usable-Valid other [] (nil-Valid span Valid utf8))

  event_args-Valid :
      (disabled : Bool) (args : Option (List ℕ)) → Valid (event_args span disabled args)
  unfolding event_args
  event_args-Valid disabled none = nil-Valid span Valid utf8
  event_args-Valid true (some args) = nil-Valid span Valid utf8
  event_args-Valid false (some args) = sanitized_or-Valid span Valid utf8 args

  extract_proc_args-Valid :
      Valid (b' ' ∷ []) → (args : List (List ℕ)) → Valid (extract_proc_args span args)
  unfolding extract_proc_args
  extract_proc_args-Valid blank [] = nil-Valid span Valid utf8
  extract_proc_args-Valid blank (arg ∷ []) = sanitized_or-Valid span Valid utf8 arg
  extract_proc_args-Valid blank (arg ∷ next ∷ args) =
      utf8.joined (sanitized_or span arg) (b' ' ∷ extract_proc_args span (next ∷ args))
        (sanitized_or-Valid span Valid utf8 arg)
        (utf8.joined (b' ' ∷ []) (extract_proc_args span (next ∷ args)) blank
          (extract_proc_args-Valid blank (next ∷ args)))

  event-TextsAreValid :
      (disabled : Bool) (id : List ℕ) (event : ExecEvent)
      → TextsAreValid Valid (event_to_proto_message span disabled id event)
  unfolding event_to_proto_message
  event-TextsAreValid disabled id event = elim (Bool-cases event.is_execve) [
    | inr other ↦ rw (event_to_proto_message, other) tt
    | inl execve ↦ elim (Bool-cases (validate_process_details event.thread)) [
      | inr invalid ↦ rw (event_to_proto_message, execve, invalid) tt
      | inl valid ↦
          rw (event_to_proto_message, execve, valid)
            (
              text_or-Valid event.comm event.exepath,
              text_or-Valid event.exepath event.comm,
              event_args-Valid disabled event.proc_args,
            )
    ]
  ]

  thread-TextsAreValid :
      (id : List ℕ) (tinfo : Option ThreadInfo)
      → Valid (b' ' ∷ [])
      → TextsAreValid Valid (thread_to_proto_message span id tinfo)
  unfolding thread_to_proto_message
  thread-TextsAreValid id none blank = tt
  thread-TextsAreValid id (some t) blank = elim (Bool-cases (validate_process_details (some t))) [
    | inr invalid ↦ rw (thread_to_proto_message, invalid) tt
    | inl valid ↦
        rw (thread_to_proto_message, valid)
          (
            text_or-Valid (some t.comm) (some t.exepath),
            text_or-Valid (some t.exepath) (some t.comm),
            extract_proc_args-Valid blank t.args,
          )
  ]

  -- Whatever an event or a thread says of a process, the name, the path and the arguments in its message
  -- are valid UTF-8, if a blank is.
  pub to_proto_message-TextsAreValid :
      (disabled : Bool) (id : List ℕ) (event : ExecEvent) (tinfo : Option ThreadInfo)
      → Valid (b' ' ∷ [])
      → TextsAreValid Valid (event_to_proto_message span disabled id event)
        × TextsAreValid Valid (thread_to_proto_message span id tinfo)
  to_proto_message-TextsAreValid disabled id event tinfo blank =
      (event-TextsAreValid disabled id event, thread-TextsAreValid id tinfo blank)
