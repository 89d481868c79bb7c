-- ===== src/Host/Info/Laws.antt =====
-- The getters of HostInfo (collector/lib/HostInfo.cpp) against what the host says, whatever the members
-- hold of earlier calls.
use collector.Prelude.{
  ℕ, ◌≡◌, refl, sym, ◌⊎◌, inl, inr, Bool, true, false, List, arith, if◌then◌else◌,
}
use collector.Prelude.Text.{codes, is_nil}
use collector.Host.Version.{KernelVersion, from_host}
use collector.Host.Info.{
  Host, HostInfo, no_host_info, Result, bind, Call, of_option, or_linux, get_os_release_value,
  get_kernel_version, get_distro, get_build_id, get_os_id,
}
use collector.Host.Info.Support.{kernel_and_os}

abbrev pub kernel_of : Host → Result KernelVersion
kernel_of host = of_option (from_host host.kernel_version_env host.uname)

abbrev pub distro_of : Host → Result (List ℕ)
distro_of host =
    bind (get_os_release_value host (codes "PRETTY_NAME")) (λ v. Result.returns (or_linux v))

abbrev pub os_id_of : Host → Result (List ℕ)
os_id_of host = get_os_release_value host (codes "ID")

abbrev pub build_id_of : Host → Result (List ℕ)
build_id_of host = get_os_release_value host (codes "BUILD_ID")

-- A member is empty, or what the host says.
pub record IsCached (host : Host) (s : HostInfo) : Type 0 where
  pub kernel :
      (is_nil s.kernel_version.release ≡ true) ⊎ (kernel_of host ≡ Result.returns s.kernel_version)
  pub distro : (is_nil s.distro ≡ true) ⊎ (distro_of host ≡ Result.returns s.distro)
  pub build_id : (is_nil s.build_id ≡ true) ⊎ (build_id_of host ≡ Result.returns s.build_id)
  pub os_id : (is_nil s.os_id ≡ true) ⊎ (os_id_of host ≡ Result.returns s.os_id)

pub no_host_info-IsCached : (host : Host) → IsCached host no_host_info
no_host_info-IsCached host = record {
  kernel = inl refl;
  distro = inl refl;
  build_id = inl refl;
  os_id = inl refl;
}

module _ (host : Host) where
  -- A call ends as a reference says, and keeps the members what they are to be.
  abbrev pub Ends {ℓ} : {A : Type ℓ} → Result (A × HostInfo) → Result A → Type ℓ
  Ends (Result.returns (a, s)) reference = (reference ≡ Result.returns a) × IsCached host s
  Ends Result.out_of_range reference = reference ≡ Result.out_of_range
  Ends Result.undefined reference = reference ≡ Result.undefined
  Ends Result.fatal reference = reference ≡ Result.fatal

  abbrev pub Yields {ℓ} : {A : Type ℓ} → Call A → Result A → Type ℓ
  Yields call reference = (s : HostInfo) → IsCached host s → Ends (call s) reference

  -- Calls one after the other.
  pub Ends-bind {ℓ κ} :
      {A : Type ℓ} {B : Type κ} (first : Result (A × HostInfo)) (reference : Result A)
      (next : A × HostInfo → Result (B × HostInfo)) (then_reference : A → Result B)
      → Ends first reference
      → ((a : A) (s : HostInfo)
          → first ≡ Result.returns (a, s)
          → reference ≡ Result.returns a
          → IsCached host s
          → Ends (next (a, s)) (then_reference a))
      → Ends (bind first next) (bind reference then_reference)
  Ends-bind (Result.returns (a, s)) reference next then_reference h k = rw h.0 (k a s refl h.0 h.1)
  Ends-bind Result.out_of_range reference next then_reference h k = rw h refl
  Ends-bind Result.undefined reference next then_reference h k = rw h refl
  Ends-bind Result.fatal reference next then_reference h k = rw h refl

  -- A value that is looked for, and kept in the members.
  Ends-kept {ℓ} :
      {A : Type ℓ} (reference : Result A) (keep : A → HostInfo)
      → ((a : A) → reference ≡ Result.returns a → IsCached host (keep a))
      → Ends (bind reference (λ a. Result.returns (a, keep a))) reference
  Ends-kept (Result.returns a) keep h = (refl, h a refl)
  Ends-kept Result.out_of_range keep h = refl
  Ends-kept Result.undefined keep h = refl
  Ends-kept Result.fatal keep h = refl

  -- A value that is looked for while its member is empty.
  Ends-cached {ℓ} :
      {A : Type ℓ} (empty : Bool) (reference : Result A) (member : A) (keep : A → HostInfo)
      (s : HostInfo)
      → (empty ≡ true) ⊎ (reference ≡ Result.returns member)
      → IsCached host s
      → ((a : A) → reference ≡ Result.returns a → IsCached host (keep a))
      → Ends
          (if empty
            then bind reference (λ a. Result.returns (a, keep a))
            else Result.returns (member, s))
          reference
  Ends-cached true reference member keep s e h k = Ends-kept reference keep k
  Ends-cached false reference member keep s (inl e) h k = absurd (ground (arith, e))
  Ends-cached false reference member keep s (inr e) h k = (e, h)

  pub get_kernel_version-kernel_of : Yields (get_kernel_version host) (kernel_of host)
  unfolding get_kernel_version
  get_kernel_version-kernel_of s h =
      Ends-cached (is_nil s.kernel_version.release) (kernel_of host) s.kernel_version
        (λ v. record s { kernel_version = v }) s h.kernel h
        (λ v e. record {
          kernel = inr e;
          distro = h.distro;
          build_id = h.build_id;
          os_id = h.os_id;
        })

  pub get_os_id-os_id_of : Yields (get_os_id host) (os_id_of host)
  unfolding get_os_id
  get_os_id-os_id_of s h =
      Ends-cached (is_nil s.os_id) (os_id_of host) s.os_id (λ v. record s { os_id = v }) s h.os_id h
        (λ v e. record {
          kernel = h.kernel;
          distro = h.distro;
          build_id = h.build_id;
          os_id = inr e;
        })

  pub get_build_id-build_id_of : Yields (get_build_id host) (build_id_of host)
  unfolding get_build_id
  get_build_id-build_id_of s h =
      Ends-cached (is_nil s.build_id) (build_id_of host) s.build_id (λ v. record s { build_id = v })
        s h.build_id h
        (λ v e. record { kernel = h.kernel; distro = h.distro; build_id = inr e; os_id = h.os_id })

  or_linux-bind {ℓ} :
      {B : Type ℓ} (raw : Result (List ℕ)) (f : List ℕ → Result B)
      → bind (bind raw (λ v. Result.returns (or_linux v))) f ≡ bind raw (λ v. f (or_linux v))
  or_linux-bind (Result.returns v) f = refl
  or_linux-bind Result.out_of_range f = refl
  or_linux-bind Result.undefined f = refl
  or_linux-bind Result.fatal f = refl

  pub get_distro-distro_of : Yields (get_distro host) (distro_of host)
  unfolding get_distro
  get_distro-distro_of s h =
      let keep : List ℕ → HostInfo = λ v. record s { distro = v } in
      rw
        (sym (
          or_linux-bind {B = List ℕ × HostInfo} (get_os_release_value host (codes "PRETTY_NAME"))
            (λ v. Result.returns (v, keep v))))
        (Ends-cached (is_nil s.distro) (distro_of host) s.distro keep s h.distro h (λ v e. record {
          kernel = h.kernel;
          distro = inr e;
          build_id = h.build_id;
          os_id = h.os_id;
        }))

  -- The kernel and then the os id.
  pub kernel_and_os-of :
      (test : KernelVersion → List ℕ → Bool)
      → Yields (kernel_and_os test host) (
          bind
            (kernel_of host)
            (λ kernel. bind (os_id_of host) (λ os_id. Result.returns (test kernel os_id))))
  kernel_and_os-of test s h =
      Ends-bind (get_kernel_version host s) (kernel_of host)
        (λ k. bind (get_os_id host k.1) (λ r. Result.returns (test k.0 r.0, r.1)))
        (λ kernel. bind (os_id_of host) (λ os_id. Result.returns (test kernel os_id)))
        (get_kernel_version-kernel_of s h)
        (λ kernel t e f k.
          Ends-bind (get_os_id host t) (os_id_of host) (λ r. Result.returns (test kernel r.0, r.1))
            (λ os_id. Result.returns (test kernel os_id)) (get_os_id-os_id_of t k)
            (λ os_id u i j l. (refl, l)))
