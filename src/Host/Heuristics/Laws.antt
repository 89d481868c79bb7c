-- ===== src/Host/Heuristics/Laws.antt =====
-- The verdict of ProcessHostHeuristics (collector/lib/HostHeuristics.cpp) as a function of the host.
use collector.Prelude.{
  ℕ, ◌≡◌, refl, sym, subst, Bool, true, false, ◌&&◌, not, none, arith, if◌then◌else◌, Bool-cases,
  inl, inr,
}
use collector.Prelude.Text.{codes, text_eq}
use collector.Host.Version.{KernelVersion}
use collector.Host.Info.{
  Host, HostInfo, Result, bind, get_kernel_version, is_docker_desktop, get_distro,
}
use collector.Host.Info.Support.{
  host_has_ebpf_support, kernel_has_ebpf_support, kernel_and_os, any_readable, btf_locations,
  has_btf_symbols, has_bpf_ring_buffer_support, has_bpf_tracing_support, num_possible_cpu,
}
use collector.Host.Info.Laws.{
  kernel_of, distro_of, os_id_of, IsCached, Ends, Yields, Ends-bind, get_kernel_version-kernel_of,
  get_distro-distro_of, kernel_and_os-of,
}
use collector.Host.Heuristics.{
  CollectionMethod, is_core_bpf, HostConfig, core_bpf_checks, collection_heuristic,
  docker_desktop_heuristic, power_unsupported, power_heuristic, cpu_heuristic,
  process_host_heuristics,
}
use collector.Host.Heuristics.Order.{in_steps-at_once}

-- What CORE_BPF needs of a host.
abbrev pub core_bpf_available : Host → KernelVersion → Bool
core_bpf_available host kernel =
    any_readable host (btf_locations kernel.release)
    && (has_bpf_ring_buffer_support host && has_bpf_tracing_support host)

abbrev pub new_config : ℕ → HostConfig
new_config cpus = record { collection_method = none; num_possible_cpus = cpus }

-- Whether the collector can run, and the configuration if it can.
abbrev pub verdict : Host → CollectionMethod → Result HostConfig
verdict host method = bind (kernel_of host) (λ kernel. bind (os_id_of host) (λ os_id.
    if not (kernel_has_ebpf_support kernel os_id)
    then Result.fatal
    else if is_core_bpf method && not (core_bpf_available host kernel)
    then Result.fatal
    else bind (distro_of host) (λ distro.
      if text_eq distro (codes "Docker Desktop")
      then Result.fatal
      else if power_unsupported kernel
      then Result.fatal
      else Result.returns (new_config (num_possible_cpu host)))))

module _ (host : Host) where
  kernel_version-get_kernel_version :
      (s : HostInfo) (k : KernelVersion) (after : HostInfo)
      → get_kernel_version host s ≡ Result.returns (k, after)
      → after.kernel_version ≡ k
  unfolding get_kernel_version
  kernel_version-get_kernel_version s k after e = ground (arith, e)

  checks-Ends :
      (m b r t : Bool) (hconfig : HostConfig) (s : HostInfo)
      → IsCached host s
      → Ends host
          (if not m
            then Result.returns (hconfig, s)
            else if not b
            then Result.fatal
            else if not r
            then Result.fatal
            else if not t
            then Result.fatal
            else Result.returns (hconfig, s))
          (if m && not (b && (r && t)) then Result.fatal else Result.returns hconfig)
  checks-Ends false b r t hconfig s h = (refl, h)
  checks-Ends true false r t hconfig s h = refl
  checks-Ends true true false t hconfig s h = refl
  checks-Ends true true true false hconfig s h = refl
  checks-Ends true true true true hconfig s h = (refl, h)

  core_bpf_checks-available :
      (kernel : KernelVersion) (method : CollectionMethod) (hconfig : HostConfig) (s : HostInfo)
      → s.kernel_version ≡ kernel
      → IsCached host s
      → Ends host (core_bpf_checks host method hconfig s) (
          if is_core_bpf method && not (core_bpf_available host kernel)
          then Result.fatal
          else Result.returns hconfig)
  unfolding core_bpf_checks has_btf_symbols
  core_bpf_checks-available kernel method hconfig s e h = rw (sym e) (
      checks-Ends (is_core_bpf method) (any_readable host (btf_locations s.kernel_version.release))
        (has_bpf_ring_buffer_support host) (has_bpf_tracing_support host) hconfig s h)

  stop-Ends :
      (stop : Bool) (hconfig : HostConfig) (s : HostInfo)
      → IsCached host s
      → Ends host
          (if stop then Result.fatal else Result.returns (hconfig, s))
          (if stop then Result.fatal else Result.returns hconfig)
  stop-Ends true hconfig s h = refl
  stop-Ends false hconfig s h = (refl, h)

  -- What the heuristics say one after the other.
  abbrev after_collection : CollectionMethod → HostConfig → Bool → Result HostConfig
  after_collection method hconfig supported =
      if not supported
      then Result.fatal
      else bind (kernel_of host) (λ kernel.
        if is_core_bpf method && not (core_bpf_available host kernel)
        then Result.fatal
        else Result.returns hconfig)

  abbrev collection_of : CollectionMethod → HostConfig → Result HostConfig
  collection_of method hconfig =
      bind
        (bind (kernel_of host) (λ kernel.
          bind (os_id_of host) (λ os_id. Result.returns (kernel_has_ebpf_support kernel os_id))))
        (after_collection method hconfig)

  collection_heuristic-of :
      (method : CollectionMethod) (hconfig : HostConfig)
      → Yields host (collection_heuristic host method hconfig) (collection_of method hconfig)
  unfolding collection_heuristic host_has_ebpf_support
  collection_heuristic-of method hconfig s h =
      Ends-bind host (kernel_and_os kernel_has_ebpf_support host s) _ _
        (after_collection method hconfig) (kernel_and_os-of host kernel_has_ebpf_support s h)
        (λ supported t e f k. elim (Bool-cases supported) [
          | inr lacking ↦ rw lacking refl
          | inl there ↦ rw there (
              Ends-bind host (get_kernel_version host t) (kernel_of host) _ _
                (get_kernel_version-kernel_of host t k)
                (λ kernel u i j l.
                  core_bpf_checks-available kernel method hconfig u
                    (kernel_version-get_kernel_version t kernel u i) l))
        ])

  is_docker_desktop-of :
      Yields host
        (is_docker_desktop host)
        (bind (distro_of host) (λ distro. Result.returns (text_eq distro (codes "Docker Desktop"))))
  unfolding is_docker_desktop
  is_docker_desktop-of s h =
      Ends-bind host (get_distro host s) (distro_of host) _
        (λ distro. Result.returns (text_eq distro (codes "Docker Desktop")))
        (get_distro-distro_of host s h) (λ distro t e f k. (refl, k))

  abbrev docker_of : HostConfig → Result HostConfig
  docker_of hconfig =
      bind
        (bind (distro_of host) (λ distro. Result.returns (text_eq distro (codes "Docker Desktop"))))
        (λ docker. if docker then Result.fatal else Result.returns hconfig)

  docker_desktop_heuristic-of :
      (hconfig : HostConfig)
      → Yields host (docker_desktop_heuristic host hconfig) (docker_of hconfig)
  unfolding docker_desktop_heuristic
  docker_desktop_heuristic-of hconfig s h =
      Ends-bind host (is_docker_desktop host s) _ _
        (λ docker. if docker then Result.fatal else Result.returns hconfig)
        (is_docker_desktop-of s h) (λ docker t e f k. stop-Ends docker hconfig t k)

  abbrev power_of : HostConfig → Result HostConfig
  power_of hconfig =
      bind (kernel_of host)
        (λ kernel. if power_unsupported kernel then Result.fatal else Result.returns hconfig)

  power_heuristic-of :
      (hconfig : HostConfig) → Yields host (power_heuristic host hconfig) (power_of hconfig)
  unfolding power_heuristic
  power_heuristic-of hconfig s h =
      Ends-bind host (get_kernel_version host s) (kernel_of host) _ _
        (get_kernel_version-kernel_of host s h)
        (λ kernel t e f k. stop-Ends (power_unsupported kernel) hconfig t k)

  abbrev in_order : CollectionMethod → HostConfig → Result HostConfig
  in_order method hconfig = bind (collection_of method hconfig) (λ c. bind (docker_of c) (λ d.
      bind (power_of d)
        (λ p. Result.returns (record p { num_possible_cpus = num_possible_cpu host }))))

  process_host_heuristics-in_order :
      (method : CollectionMethod) (uninitialized : ℕ)
      → Yields host
          (process_host_heuristics host method uninitialized)
          (in_order method (new_config uninitialized))
  unfolding process_host_heuristics cpu_heuristic
  process_host_heuristics-in_order method uninitialized s h =
      Ends-bind host (collection_heuristic host method (new_config uninitialized) s) _ _ _
        (collection_heuristic-of method (new_config uninitialized) s h)
        (λ c t e f k.
          Ends-bind host (docker_desktop_heuristic host c t) _ _ _
            (docker_desktop_heuristic-of c t k)
            (λ d u i j l.
              Ends-bind host (power_heuristic host d u) _ _ _ (power_heuristic-of d u l)
                (λ p v m n o. (refl, o))))

  -- With members that are empty or what the host says, ProcessHostHeuristics ends as the verdict on the
  -- host: it fails where the kernel does not support eBPF, where CORE_BPF is asked for and its symbols,
  -- its ring buffer or its tracing are not there, on Docker Desktop and on a kernel 4.18 of a build
  -- below 477 on ppc64le, and otherwise gives the number of CPUs; and the members stay so.
  pub process_host_heuristics-verdict :
      (method : CollectionMethod) (uninitialized : ℕ) (s : HostInfo)
      → IsCached host s
      → Ends host (process_host_heuristics host method uninitialized s) (verdict host method)
  process_host_heuristics-verdict method uninitialized s h =
      subst (λ r. Ends host (process_host_heuristics host method uninitialized s) r)
        (in_steps-at_once kernel_has_ebpf_support
          (λ kernel. is_core_bpf method && not (core_bpf_available host kernel)) power_unsupported
          (λ distro. text_eq distro (codes "Docker Desktop")) (new_config uninitialized)
          (λ c. record c { num_possible_cpus = num_possible_cpu host }) (kernel_of host)
          (os_id_of host) (distro_of host))
        (process_host_heuristics-in_order method uninitialized s h)
