-- ===== src/Host/Heuristics.antt =====
-- The heuristics and ProcessHostHeuristics (collector/lib/HostHeuristics.cpp), and HostConfig
-- (collector/lib/HostConfig.h). A fatal message ends the program.
pub mod Order
pub mod Laws
use collector.Prelude.{ℕ, Bool, true, false, ◌&&◌, not, Option, none, ltb, ◌==◌, if◌then◌else◌}
use collector.Prelude.Text.{codes, text_eq}
use collector.Host.Version.{KernelVersion}
use collector.Host.Info.{Host, HostInfo, Result, bind, Call, get_kernel_version, is_docker_desktop}
use collector.Host.Info.Support.{
  host_has_ebpf_support, has_btf_symbols, has_bpf_ring_buffer_support, has_bpf_tracing_support,
  num_possible_cpu,
}

pub data CollectionMethod : Type 0 where
  ebpf core_bpf : CollectionMethod

abbrev pub is_core_bpf : CollectionMethod → Bool
is_core_bpf CollectionMethod.ebpf = false
is_core_bpf CollectionMethod.core_bpf = true

pub record HostConfig : Type 0 where
  pub collection_method : Option CollectionMethod
  pub num_possible_cpus : ℕ

-- The part of CollectionHeuristic for CORE_BPF; for EBPF there is only a message.
unfoldable pub core_bpf_checks : Host → CollectionMethod → HostConfig → Call HostConfig
core_bpf_checks host method hconfig s =
    if not (is_core_bpf method)
    then Result.returns (hconfig, s)
    else if not (has_btf_symbols host s)
    then Result.fatal
    else if not (has_bpf_ring_buffer_support host)
    then Result.fatal
    else if not (has_bpf_tracing_support host)
    then Result.fatal
    else Result.returns (hconfig, s)

unfoldable pub collection_heuristic : Host → CollectionMethod → HostConfig → Call HostConfig
collection_heuristic host method hconfig s = bind (host_has_ebpf_support host s) (λ r.
    if not r.0
    then Result.fatal
    else bind (get_kernel_version host r.1) (λ k. core_bpf_checks host method hconfig k.1))

unfoldable pub docker_desktop_heuristic : Host → HostConfig → Call HostConfig
docker_desktop_heuristic host hconfig s =
    bind (is_docker_desktop host s)
      (λ r. if r.0 then Result.fatal else Result.returns (hconfig, r.1))

-- RHEL 8.6 on ppc64le.
unfoldable pub power_unsupported : KernelVersion → Bool
power_unsupported k =
    if not (text_eq k.machine (codes "ppc64le"))
    then false
    else k.kernel == 4 && (k.major == 18 && ltb k.build_id 477)

unfoldable pub power_heuristic : Host → HostConfig → Call HostConfig
power_heuristic host hconfig s =
    bind (get_kernel_version host s)
      (λ k. if power_unsupported k.0 then Result.fatal else Result.returns (hconfig, k.1))

unfoldable pub cpu_heuristic : Host → HostConfig → Call HostConfig
cpu_heuristic host hconfig s =
    Result.returns (record hconfig { num_possible_cpus = num_possible_cpu host }, s)

-- The loop over g_host_heuristics. `uninitialized` is the number of CPUs of a new HostConfig.
unfoldable pub process_host_heuristics : Host → CollectionMethod → ℕ → Call HostConfig
process_host_heuristics host method uninitialized s =
    bind
      (collection_heuristic host method
        (record { collection_method = none; num_possible_cpus = uninitialized }) s)
      (λ c.
        bind (docker_desktop_heuristic host c.0 c.1)
          (λ d. bind (power_heuristic host d.0 d.1) (λ p. cpu_heuristic host p.0 p.1)))
