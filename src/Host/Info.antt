-- ===== src/Host/Info.antt =====
-- class HostInfo (collector/lib/HostInfo.h, HostInfo.cpp). Each getter keeps what it finds in a member
-- and looks for it again while that is empty; so it takes the members and gives them back. What the
-- host's files, its environment and its libraries say is a parameter, and does not change.
pub mod Support
pub mod Laws
pub mod SecureBoot
pub mod Release
use collector.Prelude.{
  ℕ, zero, suc, ◌+◌, ◌-◌, Bool, true, false, ◌&&◌, ◌||◌, not, Option, none, some, List, [], ◌∷◌,
  ◌++◌, leb, ◌==◌, if◌then◌else◌, length, take, drop,
}
use collector.Prelude.Int.{ℤ, pos, negsuc}
use collector.Prelude.Text.{codes, text_eq, is_nil}
use collector.ContainerId.{starts_with, rfind}
use collector.Procfs.Fields.{peek, index_of, getlines}
use collector.Procfs.Links.{last_char}
use collector.Host.Version.{
  KernelVersion, no_kernel_version, from_host, has_ebpf_support, has_secure_boot_param,
}

pub data SecureBootStatus : Type 0 where
  unset not_determined disabled enabled : SecureBootStatus

-- static_cast<SecureBootStatus>, of a value that has passed the checks before it.
abbrev pub secure_boot_status_of : ℕ → SecureBootStatus
secure_boot_status_of zero = SecureBootStatus.unset
secure_boot_status_of (suc zero) = SecureBootStatus.not_determined
secure_boot_status_of (suc (suc zero)) = SecureBootStatus.disabled
secure_boot_status_of (suc (suc (suc n))) = SecureBootStatus.enabled

-- What the host says. A file that cannot be opened and a failing call are `none`, and so is a variable
-- of the environment that is not set. `can_read` is faccessat of a path below the root of the host, if
-- that is asked for, and of the collector's own root otherwise.
pub record Host : Type 0 where
  pub kernel_version_env : List ℕ
  pub uname : Option (List ℕ × List ℕ × List ℕ)
  pub node_hostname : Option (List ℕ)
  pub etc_hostname : Option (List ℕ)
  pub proc_hostname : Option (List ℕ)
  pub etc_os_release : Option (List ℕ)
  pub usr_os_release : Option (List ℕ)
  pub can_read : Bool → List ℕ → Bool
  pub ring_buffer_probe : ℤ
  pub tracing_probe : ℤ
  pub possible_cpus : ℤ
  pub efivars : Option (List (List ℕ × Option (List ℕ)))
  pub boot_params : Option (List ℕ)

-- The members.
pub record HostInfo : Type 0 where
  pub kernel_version : KernelVersion
  pub distro : List ℕ
  pub hostname : List ℕ
  pub build_id : List ℕ
  pub os_id : List ℕ
  pub secure_boot_status : SecureBootStatus

abbrev pub no_host_info : HostInfo
no_host_info = record {
  kernel_version = no_kernel_version;
  distro = [];
  hostname = [];
  build_id = [];
  os_id = [];
  secure_boot_status = SecureBootStatus.unset;
}

-- How a call may end: with a value, or not at all, by an exception of std::stoi, by a read outside of a
-- string or of a variable that is not set, or by a fatal message.
pub data Result {ℓ} (A : Type ℓ) : Type ℓ where
  returns : A → Result A
  out_of_range undefined fatal : Result A

abbrev pub bind {ℓ κ} : {A : Type ℓ} {B : Type κ} → Result A → (A → Result B) → Result B
bind (Result.returns a) f = f a
bind Result.out_of_range f = Result.out_of_range
bind Result.undefined f = Result.undefined
bind Result.fatal f = Result.fatal

-- A call on the members.
abbrev pub Call {ℓ} : Type ℓ → Type ℓ
Call A = HostInfo → Result (A × HostInfo)

-- str.find(pattern) != npos
abbrev pub occurs : List ℕ → List ℕ → Bool
occurs pattern str = elim (rfind pattern str) [ none ↦ false | some _ ↦ true ]

-- The quotes at both ends of a value; value[value.size() - 1] of an empty one is outside of it.
unfoldable pub strip_quotes : List ℕ → Result (List ℕ)
strip_quotes value =
    let unquoted = if peek value == b'"' then drop 1 value else value in
    if is_nil unquoted
    then Result.undefined
    else if last_char unquoted == b'"'
    then Result.returns (take (length unquoted - 1) unquoted)
    else Result.returns unquoted

-- The lines of a stream.
unfoldable pub filter_lines : List (List ℕ) → List ℕ → Result (List ℕ)
filter_lines [] name = Result.returns []
filter_lines (line ∷ lines) name = elim (index_of b'=' line) [
  | none ↦ filter_lines lines name
  | some idx ↦ elim (text_eq (take idx line) name) [
    | true ↦ strip_quotes (drop (idx + 1) line)
    | false ↦ filter_lines lines name
  ]
]

unfoldable pub filter_for_key : List ℕ → List ℕ → Result (List ℕ)
filter_for_key stream name = filter_lines (getlines stream) name

unfoldable pub get_os_release_value : Host → List ℕ → Result (List ℕ)
get_os_release_value host name = elim host.etc_os_release [
  | some release_file ↦ filter_for_key release_file name
  | none ↦ elim host.usr_os_release [
    | some release_file ↦ filter_for_key release_file name
    | none ↦ Result.returns []
  ]
]

abbrev pub of_option : Option KernelVersion → Result KernelVersion
of_option none = Result.out_of_range
of_option (some v) = Result.returns v

unfoldable pub get_kernel_version : Host → Call KernelVersion
get_kernel_version host s =
    if is_nil s.kernel_version.release
    then bind (of_option (from_host host.kernel_version_env host.uname))
        (λ v. Result.returns (v, record s { kernel_version = v }))
    else Result.returns (s.kernel_version, s)

abbrev pub or_linux : List ℕ → List ℕ
or_linux distro = if is_nil distro then codes "Linux" else distro

unfoldable pub get_distro : Host → Call (List ℕ)
get_distro host s =
    if is_nil s.distro
    then bind (get_os_release_value host (codes "PRETTY_NAME"))
        (λ v. Result.returns (or_linux v, record s { distro = or_linux v }))
    else Result.returns (s.distro, s)

unfoldable pub get_build_id : Host → Call (List ℕ)
get_build_id host s =
    if is_nil s.build_id
    then bind (get_os_release_value host (codes "BUILD_ID"))
        (λ v. Result.returns (v, record s { build_id = v }))
    else Result.returns (s.build_id, s)

unfoldable pub get_os_id : Host → Call (List ℕ)
get_os_id host s =
    if is_nil s.os_id
    then bind (get_os_release_value host (codes "ID"))
        (λ v. Result.returns (v, record s { os_id = v }))
    else Result.returns (s.os_id, s)

-- The first line of a file, or nothing.
abbrev first_line : List (List ℕ) → List ℕ
first_line [] = []
first_line (line ∷ lines) = line

unfoldable pub get_hostname_from_file : Option (List ℕ) → List ℕ
get_hostname_from_file none = []
get_hostname_from_file (some content) = first_line (getlines content)

-- The loop over the paths.
unfoldable pub find_hostname : List (Option (List ℕ)) → List ℕ
find_hostname [] = []
find_hostname (file ∷ files) =
    let rest = find_hostname files in
    if is_nil (get_hostname_from_file file) then rest else get_hostname_from_file file

-- From the environment, or from one of the files.
abbrev hostname_of : Host → List ℕ
hostname_of host = elim host.node_hostname [
  | some name ↦
      if is_nil name then find_hostname (host.etc_hostname ∷ host.proc_hostname ∷ []) else name
  | none ↦ find_hostname (host.etc_hostname ∷ host.proc_hostname ∷ [])
]

unfoldable pub get_hostname : Host → Call (List ℕ)
get_hostname host s =
    if not (is_nil s.hostname)
    then Result.returns (s.hostname, s)
    else if is_nil (hostname_of host)
    then Result.fatal
    else Result.returns (hostname_of host, record s { hostname = hostname_of host })

unfoldable pub is_cos : Host → Call Bool
is_cos host s = bind (get_os_id host s) (λ r.
    if not (text_eq r.0 (codes "cos"))
    then Result.returns (false, r.1)
    else bind (get_build_id host r.1) (λ b. Result.returns (not (is_nil b.0), b.1)))

-- A test of the os id, and one of the distribution.
abbrev os_id_is : List ℕ → Host → Call Bool
os_id_is id host s = bind (get_os_id host s) (λ r. Result.returns (text_eq r.0 id, r.1))

unfoldable pub is_core_os : Host → Call Bool
is_core_os host s = os_id_is (codes "coreos") host s

unfoldable pub is_ubuntu : Host → Call Bool
is_ubuntu host s = os_id_is (codes "ubuntu") host s

unfoldable pub is_docker_desktop : Host → Call Bool
is_docker_desktop host s =
    bind (get_distro host s) (λ r. Result.returns (text_eq r.0 (codes "Docker Desktop"), r.1))

unfoldable pub is_garden : Host → Call Bool
is_garden host s =
    bind (get_distro host s) (λ r. Result.returns (starts_with (codes "Garden Linux") r.0, r.1))

unfoldable pub is_minikube : Host → Call Bool
is_minikube host s =
    bind (get_hostname host s) (λ r. Result.returns (text_eq r.0 (codes "minikube"), r.1))
