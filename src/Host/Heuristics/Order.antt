-- ===== src/Host/Heuristics/Order.antt =====
-- The order in which the heuristics (collector/lib/HostHeuristics.cpp) read what the host says: the
-- kernel is read three times.
use collector.Prelude.{ℕ, ◌≡◌, refl, Bool, not, List, arith, if◌then◌else◌}
use collector.Host.Version.{KernelVersion}
use collector.Host.Info.{Result, bind}

module _ {ℓ} {A : Type ℓ} (supports : KernelVersion → List ℕ → Bool)
    (lacks power : KernelVersion → Bool) (docker : List ℕ → Bool) (initial : A)
    (final : A → A) where
  abbrev pub in_steps : Result KernelVersion → Result (List ℕ) → Result (List ℕ) → Result A
  in_steps kernel os_id distro =
      bind
        (bind (bind kernel (λ k. bind os_id (λ o. Result.returns (supports k o)))) (λ b.
          if not b
          then Result.fatal
          else bind kernel (λ k. if lacks k then Result.fatal else Result.returns initial)))
        (λ c.
          bind
            (bind (bind distro (λ d. Result.returns (docker d)))
              (λ b. if b then Result.fatal else Result.returns c))
            (λ d.
              bind (bind kernel (λ k. if power k then Result.fatal else Result.returns d))
                (λ p. Result.returns (final p))))

  abbrev pub at_once : Result KernelVersion → Result (List ℕ) → Result (List ℕ) → Result A
  at_once kernel os_id distro = bind kernel (λ k. bind os_id (λ o.
      if not (supports k o)
      then Result.fatal
      else if lacks k
      then Result.fatal
      else bind distro (λ d.
        if docker d
        then Result.fatal
        else if power k
        then Result.fatal
        else Result.returns (final initial))))

  in_steps-at_once_known :
      (k : KernelVersion) (o : List ℕ) (distro : Result (List ℕ))
      → in_steps (Result.returns k) (Result.returns o) distro
        ≡ at_once (Result.returns k) (Result.returns o) distro
  in_steps-at_once_known k o (Result.returns d) = ground arith
  in_steps-at_once_known k o Result.out_of_range = ground arith
  in_steps-at_once_known k o Result.undefined = ground arith
  in_steps-at_once_known k o Result.fatal = ground arith

  pub in_steps-at_once :
      (kernel : Result KernelVersion) (os_id distro : Result (List ℕ))
      → in_steps kernel os_id distro ≡ at_once kernel os_id distro
  in_steps-at_once (Result.returns k) (Result.returns o) distro = in_steps-at_once_known k o distro
  in_steps-at_once (Result.returns k) Result.out_of_range distro = refl
  in_steps-at_once (Result.returns k) Result.undefined distro = refl
  in_steps-at_once (Result.returns k) Result.fatal distro = refl
  in_steps-at_once Result.out_of_range os_id distro = refl
  in_steps-at_once Result.undefined os_id distro = refl
  in_steps-at_once Result.fatal os_id distro = refl
