-- ===== src/Host/Info/Support.antt =====
-- What class HostInfo (collector/lib/HostInfo.h, HostInfo.cpp) finds out on the support of eBPF.
use collector.Prelude.{
  ℕ, zero, Bool, true, false, ◌&&◌, ◌||◌, List, [], ◌∷◌, ◌++◌, leb, ◌==◌, if◌then◌else◌, take,
}
use collector.Prelude.Int.{ℤ}
use collector.Prelude.Text.{codes, text_eq}
use collector.Host.Version.{KernelVersion, has_ebpf_support}
use collector.Host.Info.{bind, Call, occurs, get_kernel_version, get_os_id, Host, HostInfo, Result}

abbrev pub min_rhel_build_id : ℕ
min_rhel_build_id = 957

unfoldable pub is_rhel_76_kernel : KernelVersion → List ℕ → Bool
is_rhel_76_kernel kernel os_id =
    if text_eq os_id (codes "rhel") || text_eq os_id (codes "centos")
    then (if occurs (codes ".el7.") kernel.release
        then (if kernel.kernel == 3 && kernel.major == 10
            then leb min_rhel_build_id kernel.build_id
            else false)
        else false)
    else false

unfoldable pub kernel_has_ebpf_support : KernelVersion → List ℕ → Bool
kernel_has_ebpf_support kernel os_id =
    if is_rhel_76_kernel kernel os_id then true else has_ebpf_support kernel

-- The kernel and then the os id, and a test of both.
abbrev pub kernel_and_os : (KernelVersion → List ℕ → Bool) → Host → Call Bool
kernel_and_os test host s =
    bind (get_kernel_version host s)
      (λ k. bind (get_os_id host k.1) (λ r. Result.returns (test k.0 r.0, r.1)))

unfoldable pub is_rhel_76 : Host → Call Bool
is_rhel_76 host s = kernel_and_os is_rhel_76_kernel host s

unfoldable pub is_rhel_86 : Host → Call Bool
is_rhel_86 host s =
    kernel_and_os
      (λ kernel os_id.
        if text_eq os_id (codes "rhel") || text_eq os_id (codes "rhcos")
        then occurs (codes ".el8_6.") kernel.release
        else false)
      host s

unfoldable pub host_has_ebpf_support : Host → Call Bool
host_has_ebpf_support host s = kernel_and_os kernel_has_ebpf_support host s

-- The patterns of HasBTFSymbols for a release, and whether each is below the root of the host.
unfoldable pub btf_locations : List ℕ → List (List ℕ × Bool)
btf_locations release =
    (codes "/sys/kernel/btf/vmlinux", false)
    ∷ (codes "/boot/vmlinux-" ++ release, false)
    ∷ (codes "/lib/modules/" ++ (release ++ (codes "/vmlinux-" ++ release)), false)
    ∷ (codes "/lib/modules/" ++ (release ++ codes "/build/vmlinux"), false)
    ∷ (codes "/usr/lib/modules/" ++ (release ++ codes "/kernel/vmlinux"), true)
    ∷ (codes "/usr/lib/debug/boot/vmlinux-" ++ release, true)
    ∷ (codes "/usr/lib/debug/boot/vmlinux-" ++ (release ++ codes ".debug"), true)
    ∷ (codes "/usr/lib/debug/lib/modules/" ++ (release ++ codes "/vmlinux"), true)
    ∷ []

-- The loop; snprintf writes PATH_MAX - 1 characters at most.
unfoldable pub any_readable : Host → List (List ℕ × Bool) → Bool
any_readable host [] = false
any_readable host ((path, mounted) ∷ rest) =
    let later = any_readable host rest in
    if host.can_read mounted (take 4095 path) then true else later

unfoldable pub has_btf_symbols : Host → HostInfo → Bool
has_btf_symbols host s = any_readable host (btf_locations s.kernel_version.release)

-- res != 0
abbrev nonzero : ℤ → Bool
nonzero (ℤ.pos zero) = false
nonzero _ = true

unfoldable pub has_bpf_ring_buffer_support : Host → Bool
has_bpf_ring_buffer_support host = nonzero host.ring_buffer_probe

unfoldable pub has_bpf_tracing_support : Host → Bool
has_bpf_tracing_support host = nonzero host.tracing_probe

unfoldable pub num_possible_cpu : Host → ℕ
num_possible_cpu host = elim host.possible_cpus [ ℤ.pos n ↦ n | ℤ.negsuc n ↦ 0 ]
