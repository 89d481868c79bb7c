-- ===== src/ProcessSignal/Formatter.antt =====
-- ProcessSignalFormatter (collector/lib/ProcessSignalFormatter.cpp): the message on an event and on a process
-- that was there before. What the extractors of the sinsp library say of them is a record, and an extractor
-- that gives a null pointer is `none`. A field that is not set is empty or 0; times are in nanoseconds.
pub mod Laws
use collector.Prelude.{
  ℕ, Bool, true, false, ◌&&◌, not, Option, none, some, List, [], ◌∷◌, ◌++◌, if◌then◌else◌,
  Bool-cases, inl, inr,
}
use collector.Prelude.Int.{ℤ, pos}
use collector.Prelude.Text.{codes, text_eq, is_nil}
use collector.ProcessSignal.Sanitized.{sanitized_or}
use collector.ProcessSignal.Lineage.{Ancestor, LineageInfo, get_process_lineage}

pub record ThreadInfo : Type 0 where
  pub comm : List ℕ
  pub exepath : List ℕ
  pub args : List (List ℕ)
  pub pid : ℤ
  pub uid : ℕ
  pub gid : ℕ
  pub clone_ts : ℕ
  pub container_id : List ℕ
  pub parents : Option (List (Option Ancestor))

-- `is_execve` is whether the table of process signals knows its type.
pub record ExecEvent : Type 0 where
  pub is_execve : Bool
  pub comm : Option (List ℕ)
  pub exepath : Option (List ℕ)
  pub proc_args : Option (List ℕ)
  pub pid : Option ℤ
  pub uid : Option ℕ
  pub gid : Option ℕ
  pub ts : ℕ
  pub container_id : List ℕ
  pub thread : Option ThreadInfo

pub record ProcessSignal : Type 0 where
  pub id : List ℕ
  pub name : List ℕ
  pub exec_file_path : List ℕ
  pub args : List ℕ
  pub pid : ℤ
  pub uid : ℕ
  pub gid : ℕ
  pub time : ℕ
  pub container_id : List ℕ
  pub scraped : Bool
  pub lineage : List LineageInfo

abbrev pub is_not_available : List ℕ → Bool
is_not_available text = text_eq text (codes "<NA>")

abbrev pub is_usable : List ℕ → Bool
is_usable text = not (is_nil text) && not (is_not_available text)

-- ValidateProcessDetails
unfoldable pub validate_process_details : Option ThreadInfo → Bool
validate_process_details none = false
validate_process_details (some tinfo) =
    not (is_not_available tinfo.exepath && is_not_available tinfo.comm)

abbrev pub or_default {ℓ} : {A : Type ℓ} → A → Option A → A
or_default default none = default
or_default default (some value) = value

abbrev pub thread_lineage : Option ThreadInfo → List LineageInfo
thread_lineage none = get_process_lineage none
thread_lineage (some tinfo) = get_process_lineage (some tinfo.parents)

module _ (span : List ℕ → ℕ) where
  -- The first of two texts, or the second if that is missing, empty or not available.
  unfoldable pub text_or : Option (List ℕ) → Option (List ℕ) → List ℕ
  text_or none none = []
  text_or none (some other) = if is_usable other then sanitized_or span other else []
  text_or (some text) none = if is_usable text then sanitized_or span text else []
  text_or (some text) (some other) =
      if is_usable text
      then sanitized_or span text
      else if is_usable other
      then sanitized_or span other
      else []

  unfoldable pub extract_proc_args : List (List ℕ) → List ℕ
  extract_proc_args [] = []
  extract_proc_args (arg ∷ []) = sanitized_or span arg
  extract_proc_args (arg ∷ next ∷ args) =
      sanitized_or span arg ++ b' ' ∷ extract_proc_args (next ∷ args)

  unfoldable pub event_args : Bool → Option (List ℕ) → List ℕ
  event_args disable_process_arguments none = []
  event_args disable_process_arguments (some args) =
      if disable_process_arguments then [] else sanitized_or span args

  -- CreateProcessSignal of an event, with the identifier that UUIDStr gives.
  abbrev pub create_process_signal : Bool → List ℕ → ExecEvent → ProcessSignal
  create_process_signal disable_process_arguments id event = record {
    id = id;
    name = text_or event.comm event.exepath;
    exec_file_path = text_or event.exepath event.comm;
    args = event_args disable_process_arguments event.proc_args;
    pid = or_default (pos 0) event.pid;
    uid = or_default 0 event.uid;
    gid = or_default 0 event.gid;
    time = event.ts;
    container_id = event.container_id;
    scraped = false;
    lineage = thread_lineage event.thread;
  }

  -- CreateProcessSignal of a thread.
  abbrev pub create_scraped_signal : List ℕ → ThreadInfo → ProcessSignal
  create_scraped_signal id tinfo = record {
    id = id;
    name = text_or (some tinfo.comm) (some tinfo.exepath);
    exec_file_path = text_or (some tinfo.exepath) (some tinfo.comm);
    args = extract_proc_args tinfo.args;
    pid = tinfo.pid;
    uid = tinfo.uid;
    gid = tinfo.gid;
    time = tinfo.clone_ts;
    container_id = tinfo.container_id;
    scraped = true;
    lineage = get_process_lineage (some tinfo.parents);
  }

  -- ToProtoMessage of an event and of a thread.
  unfoldable pub event_to_proto_message : Bool → List ℕ → ExecEvent → Option ProcessSignal
  event_to_proto_message disable_process_arguments id event =
      if not event.is_execve
      then none
      else if not (validate_process_details event.thread)
      then none
      else some (create_process_signal disable_process_arguments id event)

  unfoldable pub thread_to_proto_message : List ℕ → Option ThreadInfo → Option ProcessSignal
  thread_to_proto_message id none = none
  thread_to_proto_message id (some tinfo) =
      if not (validate_process_details (some tinfo))
      then none
      else some (create_scraped_signal id tinfo)
