-- ===== src/ProcessSignal/Examples.antt =====
-- The lineage of a process and the sanitizing of texts at concrete inputs.
use collector.Prelude.{
  ℕ, suc, ◌≤◌, ◌≡◌, refl, true, Option, none, some, List, [], ◌∷◌, arith, length, take, inl, inr,
  false, Each, Each-append, ◌++◌, ltb, if◌then◌else◌, Bool-cases,
}
use collector.Prelude.Int.{pos}
use collector.Prelude.Text.{codes, text_eq}
use collector.ProcessSignal.Sanitized.{sanitized_or, IsUtf8, sanitized_utf8, sanitize_from}
use collector.ProcessSignal.Lineage.{
  Ancestor, get_process_lineage, get_process_lineage-first_ten, collapse, inside, info_of, goes_on,
}
use collector.RateLimit.{rate_limit_cache, time_limiter}
use collector.Threads.Client.{Attempt, new_client}
use collector.ProcessSignal.Formatter.{
  ThreadInfo, ExecEvent, event_to_proto_message, thread_to_proto_message,
}
use collector.ProcessSignal.Formatter.Laws.{TextsAreValid, to_proto_message-TextsAreValid}
use collector.ProcessSignal.Handler.{ProcessHandler, Moment, Happening, run_handler}
use collector.ProcessSignal.Handler.Laws.{IsHandler, RunIsCounted, run_handler-RunIsCounted}

abbrev ancestor : ℕ → List ℕ → Ancestor
ancestor pid path = record {
  pid = pos pid;
  vpid = pos (suc pid);
  uid = 0;
  exepath = path;
  container_id = codes "c";
}

abbrev parents : List (Option Ancestor)
parents =
    some (ancestor 7 (codes "/bin/sh"))
    ∷ some (ancestor 6 (codes "/bin/sh"))
    ∷ some (ancestor 5 (codes "/bin/init"))
    ∷ none
    ∷ some (ancestor 4 (codes "/bin/host"))
    ∷ []

get_process_lineage-first_ten_example :
    get_process_lineage (some (some parents)) ≡ take 10 (collapse none (inside parents))
get_process_lineage-first_ten_example = get_process_lineage-first_ten parents

two_are_left :
    take 10 (collapse none (inside parents))
    ≡ info_of (ancestor 7 (codes "/bin/sh")) ∷ info_of (ancestor 5 (codes "/bin/init")) ∷ []
unfolding goes_on text_eq
two_are_left = refl

-- A library that takes plain ASCII characters only.
abbrev ascii_span : List ℕ → ℕ
ascii_span [] = 0
ascii_span (c ∷ str) = if ltb c 128 then suc (ascii_span str) else 0

IsAscii : List ℕ → Type 0
IsAscii str = Each (λ c. ltb c 128 ≡ true) str

ascii_span-within : (str : List ℕ) → ascii_span str ≤ length str
ascii_span-within [] = omega arith
ascii_span-within (c ∷ str) =
    let IH = ascii_span-within str in
    elim (Bool-cases (ltb c 128)) [
      | inl low ↦ rw low (omega (arith, IH))
      | inr high ↦ rw high (omega arith)
    ]

ascii_span-prefix : (str : List ℕ) → IsAscii (take (ascii_span str) str)
unfolding IsAscii
ascii_span-prefix [] = tt
ascii_span-prefix (c ∷ str) = elim (Bool-cases (ltb c 128)) [
  | inl low ↦ rw low (low, ascii_span-prefix str)
  | inr high ↦ rw high tt
]

ascii : IsUtf8 ascii_span IsAscii
unfolding IsAscii
ascii = record {
  within = ascii_span-within;
  prefix = ascii_span-prefix;
  mark = (refl, tt);
  joined = Each-append (λ c. ltb c 128 ≡ true);
}

blank-IsAscii : IsAscii (b' ' ∷ [])
unfolding IsAscii
blank-IsAscii = (refl, tt)

abbrev shell : ThreadInfo
shell = record {
  comm = codes "sh";
  exepath = codes "<NA>";
  args = codes "-c" ∷ (b'l' ∷ 200 ∷ []) ∷ [];
  pid = pos 7;
  uid = 0;
  gid = 0;
  clone_ts = 5;
  container_id = codes "c";
  parents = some parents;
}

abbrev exec : ExecEvent
exec = record {
  is_execve = true;
  comm = none;
  exepath = some (codes "/bin/" ++ 255 ∷ []);
  proc_args = some (codes "-l");
  pid = some (pos 7);
  uid = some 0;
  gid = none;
  ts = 6;
  container_id = codes "c";
  thread = some shell;
}

to_proto_message-TextsAreValid_example :
    TextsAreValid IsAscii (event_to_proto_message ascii_span false (codes "1") exec)
    × TextsAreValid IsAscii (thread_to_proto_message ascii_span (codes "1") (some shell))
to_proto_message-TextsAreValid_example =
    to_proto_message-TextsAreValid ascii_span IsAscii ascii false (codes "1") exec (some shell)
      blank-IsAscii

abbrev handler : ProcessHandler
handler = record {
  rate_limiter = rate_limit_cache 2 (pos 1) (pos 1);
  client = new_client true;
  stats = record {
    resolution_failures_by_evt = 0;
    resolution_failures_by_tinfo = 0;
    rate_limit_count = 0;
    sent = 0;
    send_failures = 0;
  };
}

handler-IsHandler : IsHandler handler
unfolding rate_limit_cache time_limiter
handler-IsHandler =
    ((time_limiter (pos 1) (pos 1), refl), omega arith, λ e. absurd (ground (arith, e)))

abbrev now : Moment
now = record { first_now = pos 1; refill_now = pos 1; fill_now = pos 1; written = true }

abbrev connected : Attempt
connected = record {
  should_stop = false;
  channel_ready = true;
  should_stop_then = false;
  started = true;
}

-- Without a stream there is an error; with one a refresh is asked for first.
abbrev happenings : List Happening
happenings =
    Happening.event now (codes "1") exec
    ∷ Happening.round connected
    ∷ Happening.existing now (codes "2") none
    ∷ Happening.existing now (codes "3") (some shell)
    ∷ Happening.event now (codes "4") exec
    ∷ []

run_handler-RunIsCounted_example :
    RunIsCounted handler (run_handler ascii_span false happenings handler)
run_handler-RunIsCounted_example =
    run_handler-RunIsCounted ascii_span false happenings handler handler-IsHandler

the_others_are_marks : sanitized_or ascii_span (b'a' ∷ 200 ∷ b'b' ∷ 255 ∷ []) ≡ codes "a?b?"
unfolding sanitized_utf8 sanitize_from
the_others_are_marks = refl
