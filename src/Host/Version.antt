-- ===== src/Host/Version.antt =====
-- struct KernelVersion (collector/lib/HostInfo.h). Strings are lists of character codes; std::regex and
-- std::stoi are written out for the one expression that is matched.
pub mod Laws
pub mod Short
use collector.Prelude.{
  ℕ, zero, suc, ◌+◌, ◌*◌, ◌/◌, ◌%◌, ◌^◌, Bool, true, false, ◌&&◌, ◌||◌, not, Option, none, some,
  List, [], ◌∷◌, ◌++◌, ltb, ◌==◌, if◌then◌else◌, drop,
}
use collector.Prelude.Text.{is_nil}
use collector.KeyMap.{and_then}
use collector.Procfs.Fields.{peek, isdigit, read_digits}

pub record KernelVersion : Type 0 where
  pub kernel : ℕ
  pub major : ℕ
  pub minor : ℕ
  pub build_id : ℕ
  pub release : List ℕ
  pub version : List ℕ
  pub machine : List ℕ

-- The groups of the expression that hold digits; the last one is empty where it does not match.
pub record ReleaseMatch : Type 0 where
  pub kernel : List ℕ
  pub major : List ℕ
  pub minor : List ℕ
  pub build_id : List ℕ

-- \d*
unfoldable pub digits_of : List ℕ → List ℕ
digits_of [] = []
digits_of (c ∷ str) = if isdigit c then c ∷ digits_of str else []

unfoldable pub after_digits : List ℕ → List ℕ
after_digits [] = []
after_digits (c ∷ str) = if isdigit c then after_digits str else c ∷ str

-- `.` matches all but the ends of lines.
unfoldable pub one_line : List ℕ → Bool
one_line [] = true
one_line (c ∷ str) = not (c == b'\n') && (not (c == b'\r') && one_line str)

-- (\d+) and then a dot: the digits and what follows.
unfoldable pub match_number : List ℕ → Option (List ℕ × List ℕ)
match_number str =
    let rest = after_digits str in
    if is_nil (digits_of str)
    then none
    else if not (peek rest == b'.')
    then none
    else some (digits_of str, drop 1 rest)

-- (-(\d+))?, what is captured of it.
unfoldable pub match_build : List ℕ → List ℕ
match_build rest = if peek rest == b'-' then digits_of (drop 1 rest) else []

-- From the third number on.
unfoldable pub match_minor : List ℕ → List ℕ → List ℕ → Option ReleaseMatch
match_minor kernel major str =
    let rest = after_digits str in
    if is_nil (digits_of str)
    then none
    else if not (one_line rest)
    then none
    else some (record {
      kernel = kernel;
      major = major;
      minor = digits_of str;
      build_id = match_build rest;
    })

unfoldable pub regex_match : List ℕ → Option ReleaseMatch
regex_match release =
    and_then (match_number release)
      (λ kernel. and_then (match_number kernel.1) (λ major. match_minor kernel.0 major.0 major.1))

-- std::stoi of digits: `none` is the exception out_of_range.
unfoldable pub stoi : List ℕ → Option ℕ
stoi str = let value = (read_digits 0 str).0 in if ltb value (2 ^ 31) then some value else none

-- The numbers of a match. There is no number in a group that does not match.
unfoldable pub numbers : List ℕ → List ℕ → List ℕ → ReleaseMatch → Option KernelVersion
numbers release version machine m = and_then (stoi m.kernel) (λ kernel.
    and_then (stoi m.major) (λ major. and_then (stoi m.minor) (λ minor.
      and_then (if is_nil m.build_id then some 0 else stoi m.build_id) (λ build_id. some (record {
        kernel = kernel;
        major = major;
        minor = minor;
        build_id = build_id;
        release = release;
        version = version;
        machine = machine;
      })))))

-- KernelVersion(release, version, machine): `none` if a number is too large.
unfoldable pub kernel_version : List ℕ → List ℕ → List ℕ → Option KernelVersion
kernel_version release version machine = elim (regex_match release) [
  | none ↦ some (record {
    kernel = 0;
    major = 0;
    minor = 0;
    build_id = 0;
    release = release;
    version = version;
    machine = machine;
  })
  | some m ↦ numbers release version machine m
]

-- KernelVersion()
abbrev pub no_kernel_version : KernelVersion
no_kernel_version = record {
  kernel = 0;
  major = 0;
  minor = 0;
  build_id = 0;
  release = [];
  version = [];
  machine = [];
}

-- FromHost, from the environment variable, which is empty if it is not set, and from the release,
-- version and machine of uname, if it succeeds.
unfoldable pub from_host : List ℕ → Option (List ℕ × List ℕ × List ℕ) → Option KernelVersion
from_host kernel_version_env none = kernel_version kernel_version_env [] []
from_host kernel_version_env (some (release, version, machine)) =
    kernel_version (if is_nil kernel_version_env then release else kernel_version_env) version
      machine

unfoldable pub has_ebpf_support : KernelVersion → Bool
has_ebpf_support v = if ltb v.kernel 4 || v.kernel == 4 && ltb v.major 14 then false else true

unfoldable pub has_secure_boot_param : KernelVersion → Bool
has_secure_boot_param v = if ltb v.kernel 4 || v.kernel == 4 && ltb v.major 11 then false else true

-- ss << n, with the digits before `out`. There are not more rounds than n has digits.
unfoldable pub print_from : ℕ → ℕ → List ℕ → List ℕ
print_from zero n out = (48 + n % 10) ∷ out
print_from (suc fuel) n out = elim (ltb n 10) [
  | true ↦ (48 + n) ∷ out
  | false ↦ print_from fuel (n / 10) ((48 + n % 10) ∷ out)
]

unfoldable pub print_number : ℕ → List ℕ → List ℕ
print_number n out = print_from n n out

unfoldable pub short_release : KernelVersion → List ℕ
short_release v =
    print_number v.kernel (b'.' ∷ print_number v.major (b'.' ∷ print_number v.minor []))
