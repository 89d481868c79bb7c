-- ===== src/Procfs/Process.antt =====
-- ReadProcessExe, ReadProcessCmdline and ProcessScraper::Scrape (collector/lib/ProcfsScraper.cpp).
pub mod Laws
use collector.Prelude.{
  ℕ, Bool, true, false, ◌||◌, not, Option, none, some, List, [], ◌∷◌, ◌++◌, leb, ◌==◌,
  if◌then◌else◌, length,
}
use collector.KeyMap.{and_then}
use collector.Procfs.Fields.{peek}
use collector.Procfs.Links.{dir_container_id, c_string}

abbrev pub path_max : ℕ
path_max = 4096

-- What stands after the last '/', or everything if there is none.
unfoldable pub after_slash : List ℕ → List ℕ → List ℕ
after_slash found [] = found
after_slash found (c ∷ path) = elim (c == b'/') [
  | true ↦ after_slash path path
  | false ↦ after_slash found path
]

unfoldable pub comm_of : List ℕ → List ℕ
comm_of exe_path = if peek exe_path == b'/' then after_slash exe_path exe_path else exe_path

-- comm and exe_path, from what the link says.
unfoldable pub read_process_exe : Option (List ℕ) → Option (List ℕ × List ℕ)
read_process_exe none = none
read_process_exe (some link) =
    let exe_path = c_string link in
    if length link == 0 || leb path_max (length link)
    then none
    else some (comm_of exe_path, exe_path)

-- The variables of ReadProcessCmdline. exe stays as it was while did_exe is false.
pub record CmdlineState : Type 0 where
  pub did_exe : Bool
  pub arg_completed : Bool
  pub stringbuf : List ℕ
  pub exe : List ℕ

-- The body of the loop, for one character.
unfoldable pub cmdline_char : ℕ → CmdlineState → CmdlineState
cmdline_char c s =
    if not (c == 0)
    then record s {
      arg_completed = false;
      stringbuf = (if s.arg_completed then s.stringbuf ++ b' ' ∷ [] else s.stringbuf) ++ c ∷ [];
    }
    else if s.did_exe
    then record s { arg_completed = true }
    else record s { exe = s.stringbuf; stringbuf = []; did_exe = true }

unfoldable pub cmdline_loop : List ℕ → CmdlineState → CmdlineState
cmdline_loop [] s = s
cmdline_loop (c ∷ content) s = cmdline_loop content (cmdline_char c s)

-- exe and args, from the content of the file and from what exe was before.
unfoldable pub read_process_cmdline : Option (List ℕ) → List ℕ → Option (List ℕ × List ℕ)
read_process_cmdline none exe = none
read_process_cmdline (some content) exe =
    let after =
      cmdline_loop content
        (record { did_exe = false; arg_completed = false; stringbuf = []; exe = exe }) in
    some (after.exe, after.stringbuf)

pub record ProcessInfo : Type 0 where
  pub container_id : List ℕ
  pub comm : List ℕ
  pub exe : List ℕ
  pub exe_path : List ℕ
  pub args : List ℕ
  pub pid : ℕ

-- The files and links of a process's directory that Scrape reads.
pub record ProcessDir : Type 0 where
  pub cgroup : Option (List ℕ)
  pub exe : Option (List ℕ)
  pub cmdline : Option (List ℕ)

-- The last two calls of the condition that Scrape returns.
unfoldable pub scrape_cmdline : ProcessDir → ProcessInfo → Bool × ProcessInfo
scrape_cmdline dir info = elim (read_process_cmdline dir.cmdline info.exe) [
  | none ↦ (false, info)
  | some (exe, args) ↦ (true, record info { exe = exe; args = args })
]

unfoldable pub scrape_exe : ProcessDir → ProcessInfo → Bool × ProcessInfo
scrape_exe dir info = elim (read_process_exe dir.exe) [
  | none ↦ (false, info)
  | some (comm, exe_path) ↦ scrape_cmdline dir (record info { comm = comm; exe_path = exe_path })
]

-- ProcessScraper::Scrape, for a directory that may not open: whether it succeeds, and what it has
-- written then.
unfoldable pub scrape_process : Option ProcessDir → ℕ → ProcessInfo → Bool × ProcessInfo
scrape_process none pid info = (false, record info { pid = pid })
scrape_process (some dir) pid info = elim (dir_container_id dir.cgroup) [
  | none ↦ (false, record info { pid = pid })
  | some container_id ↦ scrape_exe dir (record info { pid = pid })
]
