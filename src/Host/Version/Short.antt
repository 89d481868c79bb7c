-- ===== src/Host/Version/Short.antt =====
-- ShortRelease of KernelVersion (collector/lib/HostInfo.h) and what is read of it.
use collector.Prelude.{
  ℕ, zero, suc, ◌+◌, ◌/◌, ◌%◌, ◌^◌, ◌≤◌, ◌<◌, ◌≡◌, refl, ap, ◌∙◌, sym, true, false, none, some,
  List, [], ◌∷◌, ◌++◌, arith, ltb, Bool-cases, inl, inr,
}
use mathlib.Core.List.{append-nil}
use collector.Prelude.Text.{is_nil}
use collector.Procfs.Fields.{isdigit}
use collector.Procfs.Fields.Laws.{all_chars, decimal_value}
use collector.Host.Version.{
  KernelVersion, one_line, kernel_version, print_from, print_number, short_release,
}
use collector.Host.Version.Laws.{IsInt, print_release, kernel_version-print_release}

decimal_value-print_from :
    (fuel n : ℕ) (out : List ℕ)
    → n ≤ fuel
    → decimal_value 0 (print_from fuel n out) ≡ decimal_value n out
unfolding print_from
decimal_value-print_from zero n out h = ap (λ v. decimal_value v out) (ground arith)
decimal_value-print_from (suc fuel) n out h = elim (Bool-cases (ltb n 10)) [
  | inl small ↦ rw (print_from, small) (ap (λ v. decimal_value v out) (ground arith))
  | inr large ↦
      rw (print_from, large)
        (decimal_value-print_from fuel (n / 10) ((48 + n % 10) ∷ out) (ground (arith, large))
          ∙ ap (λ v. decimal_value v out) (ground arith))
]

digits-print_from :
    (fuel n : ℕ) (out : List ℕ)
    → all_chars isdigit out ≡ true
    → (all_chars isdigit (print_from fuel n out) ≡ true) × (is_nil (print_from fuel n out) ≡ false)
unfolding print_from isdigit
digits-print_from zero n out h = ground (arith, h)
digits-print_from (suc fuel) n out h = elim (Bool-cases (ltb n 10)) [
  | inl small ↦ ground (arith, h, small)
  | inr large ↦
      rw (print_from, large)
        (digits-print_from fuel (n / 10) ((48 + n % 10) ∷ out) (ground (arith, h)))
]

print_from-append :
    (fuel n : ℕ) (out tail : List ℕ)
    → print_from fuel n (out ++ tail) ≡ print_from fuel n out ++ tail
unfolding print_from
print_from-append zero n out tail = refl
print_from-append (suc fuel) n out tail = elim (Bool-cases (ltb n 10)) [
  | inl small ↦ rw (print_from, small) refl
  | inr large ↦ rw (print_from, large) (print_from-append fuel (n / 10) ((48 + n % 10) ∷ out) tail)
]

print_number-IsInt : (n : ℕ) → n < 2 ^ 31 → IsInt (print_number n [])
unfolding print_number
print_number-IsInt n h = record {
  filled = (digits-print_from n n [] refl).1;
  digits = (digits-print_from n n [] refl).0;
  fits = rw (decimal_value-print_from n n [] (omega arith)) h;
}

short_release-print_release :
    (v : KernelVersion)
    → short_release v
      ≡ print_release
          (print_number v.kernel [])
          (print_number v.major [])
          (print_number v.minor [])
          none
          []
unfolding short_release print_number
short_release-print_release v =
    print_from-append v.kernel v.kernel [] _
    ∙ ap (λ t. print_number v.kernel [] ++ b'.' ∷ t)
        (print_from-append v.major v.major [] _
          ∙ ap (λ t. print_number v.major [] ++ b'.' ∷ t)
              (sym (append-nil (print_number v.minor []))))

-- The short release of a version whose numbers are ints is read as the same kernel, major and minor
-- numbers, without a build id.
pub kernel_version-short_release :
    (v : KernelVersion) (version machine : List ℕ)
    → (v.kernel < 2 ^ 31) × (v.major < 2 ^ 31) × (v.minor < 2 ^ 31)
    → kernel_version (short_release v) version machine
      ≡ some (record {
        kernel = v.kernel;
        major = v.major;
        minor = v.minor;
        build_id = 0;
        release = short_release v;
        version = version;
        machine = machine;
      })
unfolding print_number isdigit one_line
kernel_version-short_release v version machine (k, l, m) =
    rw
      (
        short_release-print_release v,
        kernel_version-print_release (print_number v.kernel []) (print_number v.major [])
            (print_number v.minor []) none [] (print_number-IsInt v.kernel k)
            (print_number-IsInt v.major l) (print_number-IsInt v.minor m) (refl, refl) refl version
            machine,
        decimal_value-print_from v.kernel v.kernel [] (omega arith),
        decimal_value-print_from v.major v.major [] (omega arith),
        decimal_value-print_from v.minor v.minor [] (omega arith),
      )
      refl
