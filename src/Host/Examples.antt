-- ===== src/Host/Examples.antt =====
-- A host with a kernel 5.14, and one with a firmware variable for Secure Boot.
use collector.Prelude.{ℕ, ◌≡◌, refl, none, some, List, [], ◌∷◌, arith}
use collector.Prelude.Int.{pos}
use collector.Prelude.Text.{codes, text_eq}
use collector.Procfs.Fields.{isdigit, index_of, getlines, getlines_from, read_digits}
use collector.Procfs.Links.{last_char}
use collector.Host.Version.{
  KernelVersion, digits_of, after_digits, one_line, match_number, match_build, match_minor,
  regex_match, stoi, numbers, kernel_version, from_host, has_ebpf_support, short_release,
  print_number, print_from,
}
use collector.Host.Version.Laws.{kernel_version-print_release}
use collector.Host.Version.Short.{kernel_version-short_release}
use collector.ContainerId.{starts_with}
use collector.Host.Info.{
  Host, no_host_info, Result, SecureBootStatus, strip_quotes, filter_lines, filter_for_key,
  get_os_release_value,
}
use collector.Host.Info.Support.{
  kernel_has_ebpf_support, is_rhel_76_kernel, any_readable, btf_locations,
  has_bpf_ring_buffer_support, has_bpf_tracing_support, num_possible_cpu,
}
use collector.Host.Info.Laws.{Ends, no_host_info-IsCached}
use collector.Host.Info.SecureBoot.{get_secure_boot_from_vars, get_secure_boot_from_vars-value}
use collector.Host.Info.Release.{print_entries, filter_for_key-print_entries}
use collector.Host.Heuristics.{CollectionMethod, process_host_heuristics, power_unsupported}
use collector.Host.Heuristics.Laws.{new_config, process_host_heuristics-verdict}

-- "5.14.0-70.el9"
kernel_version-print_release_example :
    kernel_version (codes "5.14.0-70.el9") [] []
    ≡ some (record {
      kernel = 5;
      major = 14;
      minor = 0;
      build_id = 70;
      release = codes "5.14.0-70.el9";
      version = [];
      machine = [];
    })
unfolding isdigit one_line
kernel_version-print_release_example =
    kernel_version-print_release (codes "5") (codes "14") (codes "0") (some (codes "70"))
      (codes ".el9") (record { filled = refl; digits = refl; fits = omega arith })
      (record { filled = refl; digits = refl; fits = omega arith })
      (record { filled = refl; digits = refl; fits = omega arith })
      (record { filled = refl; digits = refl; fits = omega arith }, refl) refl [] []

abbrev old_kernel : KernelVersion
old_kernel = record {
  kernel = 3;
  major = 10;
  minor = 0;
  build_id = 957;
  release = codes "3.10.0-957.el7.x86_64";
  version = [];
  machine = [];
}

kernel_version-short_release_example :
    kernel_version (codes "3.10.0") [] []
    ≡ some (record {
      kernel = 3;
      major = 10;
      minor = 0;
      build_id = 0;
      release = codes "3.10.0";
      version = [];
      machine = [];
    })
unfolding short_release print_number print_from
kernel_version-short_release_example =
    kernel_version-short_release old_kernel [] [] (omega arith, omega arith, omega arith)

abbrev os_release : List (List ℕ × List ℕ)
os_release =
    (codes "NAME", codes "Ubuntu") ∷ (codes "ID", codes "ubuntu") ∷ (codes "ID", codes "other") ∷ []

filter_for_key-print_entries_example :
    filter_for_key (print_entries os_release) (codes "ID") ≡ Result.returns (codes "ubuntu")
unfolding text_eq
filter_for_key-print_entries_example =
    filter_for_key-print_entries (codes "ID") os_release
      ((refl, refl), ((refl, refl), ((refl, refl), tt)))

-- It has a variable that says that Secure Boot is enabled.
abbrev host : Host
host = record {
  kernel_version_env = [];
  uname = some (codes "5.14.0-70.el9", codes "#1", codes "x86_64");
  node_hostname = some (codes "node");
  etc_hostname = none;
  proc_hostname = none;
  etc_os_release = some (print_entries os_release);
  usr_os_release = none;
  can_read = λ mounted path. text_eq path (codes "/sys/kernel/btf/vmlinux");
  ring_buffer_probe = pos 1;
  tracing_probe = pos 1;
  possible_cpus = pos 8;
  efivars = some (
      (codes "Boot0000-8be4", none)
      ∷ (codes "SecureBoot-8be4", some (6 ∷ 0 ∷ 0 ∷ 0 ∷ 1 ∷ []))
      ∷ []);
  boot_params = none;
}

get_secure_boot_from_vars-value_example :
    get_secure_boot_from_vars host ≡ Result.returns SecureBootStatus.not_determined
unfolding starts_with
get_secure_boot_from_vars-value_example =
    get_secure_boot_from_vars-value host ((codes "Boot0000-8be4", none) ∷ []) [] (codes "8be4")
      (6 ∷ 0 ∷ 0 ∷ 0 ∷ []) 1 refl refl refl

process_host_heuristics-verdict_example :
    Ends host
      (process_host_heuristics host CollectionMethod.core_bpf 0 no_host_info)
      (Result.returns (new_config 8))
unfolding from_host kernel_version regex_match match_number digits_of after_digits match_minor
    one_line match_build numbers stoi read_digits isdigit get_os_release_value filter_for_key
    filter_lines getlines getlines_from index_of text_eq strip_quotes last_char
    kernel_has_ebpf_support is_rhel_76_kernel has_ebpf_support any_readable btf_locations
    has_bpf_ring_buffer_support has_bpf_tracing_support num_possible_cpu power_unsupported
process_host_heuristics-verdict_example =
    process_host_heuristics-verdict host CollectionMethod.core_bpf 0 no_host_info
      (no_host_info-IsCached host)
