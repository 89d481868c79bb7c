-- ===== src/Host/Version/Laws.antt =====
-- What KernelVersion (collector/lib/HostInfo.h) reads of a release.
use collector.Prelude.{
  ℕ, ◌^◌, ◌<◌, ◌≡◌, refl, true, false, Option, none, some, List, [], ◌∷◌, ◌++◌, arith, ◌==◌,
  if◌then◌else◌,
}
use mathlib.Core.List.{append-nil}
use collector.Prelude.Text.{is_nil}
use collector.Procfs.Fields.{peek, isdigit}
use collector.Procfs.Fields.Laws.{all_chars, decimal_value, read_digits-append}
use collector.Host.Version.{
  digits_of, after_digits, one_line, match_number, match_build, match_minor, regex_match, stoi,
  numbers, kernel_version,
}

-- Digits of which std::stoi makes an int.
pub record IsInt (ds : List ℕ) : Type 0 where
  pub filled : is_nil ds ≡ false
  pub digits : all_chars isdigit ds ≡ true
  pub fits : decimal_value 0 ds < 2 ^ 31

digits_of-append :
    (ds rest : List ℕ)
    → all_chars isdigit ds ≡ true
    → isdigit (peek rest) ≡ false
    → (digits_of (ds ++ rest) ≡ ds) × (after_digits (ds ++ rest) ≡ rest)
unfolding digits_of after_digits isdigit
digits_of-append [] [] h e = (refl, refl)
digits_of-append [] (c ∷ rest) h e = ground arith
digits_of-append (c ∷ ds) rest h e = ground (arith, digits_of-append ds rest)

stoi-digits : (ds : List ℕ) → IsInt ds → stoi ds ≡ some (decimal_value 0 ds)
unfolding stoi isdigit
stoi-digits ds int =
    let read = read_digits-append ds [] 0 int.digits refl in
    ground (arith, int.fits, read, append-nil ds)

match_number-digits :
    (ds rest : List ℕ) → IsInt ds → match_number (ds ++ b'.' ∷ rest) ≡ some (ds, rest)
unfolding match_number isdigit
match_number-digits ds rest int =
    let split = digits_of-append ds (b'.' ∷ rest) int.digits refl in
    rw (split.0, split.1, int.filled) refl

-- "-<build id>", or nothing.
abbrev pub print_build : Option (List ℕ) → List ℕ → List ℕ
print_build none tail = tail
print_build (some build) tail = b'-' ∷ (build ++ tail)

abbrev pub build_value : Option (List ℕ) → ℕ
build_value none = 0
build_value (some build) = decimal_value 0 build

abbrev pub IsBuild : Option (List ℕ) → List ℕ → Type 0
IsBuild none tail = ((peek tail == b'-') ≡ false) × (isdigit (peek tail) ≡ false)
IsBuild (some build) tail = IsInt build × (isdigit (peek tail) ≡ false)

match_build-print_build :
    (build : Option (List ℕ)) (tail : List ℕ)
    → IsBuild build tail
    → match_build (print_build build tail) ≡ elim build [ none ↦ [] | some b ↦ b ]
unfolding match_build
match_build-print_build none tail h = ground (arith, h.0)
match_build-print_build (some build) tail h = (digits_of-append build tail h.0.digits h.1).0

-- A release as Linux prints it.
abbrev pub print_release : List ℕ → List ℕ → List ℕ → Option (List ℕ) → List ℕ → List ℕ
print_release kernel major minor build tail =
    kernel ++ b'.' ∷ (major ++ b'.' ∷ (minor ++ print_build build tail))

module _ (kernel major minor : List ℕ) (build : Option (List ℕ)) (tail : List ℕ) (k : IsInt kernel)
    (l : IsInt major) (m : IsInt minor) (b : IsBuild build tail)
    (line : one_line (print_build build tail) ≡ true) where
  no_digit : isdigit (peek (print_build build tail)) ≡ false
  unfolding isdigit
  no_digit =
      elim build as (λ o. IsBuild o tail → isdigit (peek (print_build o tail)) ≡ false) [
        | none ↦ λ h. h.1
        | some _ ↦ λ h. refl
      ]
        b

  match_minor-release :
      match_minor kernel major (minor ++ print_build build tail)
      ≡ some (record {
        kernel = kernel;
        major = major;
        minor = minor;
        build_id = match_build (print_build build tail);
      })
  unfolding match_minor
  match_minor-release =
      let split = digits_of-append minor (print_build build tail) m.digits no_digit in
      rw (split.0, split.1, m.filled, line) refl

  regex_match-release :
      regex_match (print_release kernel major minor build tail)
      ≡ some (record {
        kernel = kernel;
        major = major;
        minor = minor;
        build_id = match_build (print_build build tail);
      })
  unfolding regex_match
  regex_match-release =
      rw
        (
          match_number-digits kernel (major ++ b'.' ∷ (minor ++ print_build build tail)) k,
          match_number-digits major (minor ++ print_build build tail) l,
        )
        match_minor-release

  build_number :
      (if is_nil (match_build (print_build build tail))
        then some 0
        else stoi (match_build (print_build build tail)))
      ≡ some (build_value build)
  build_number = rw (match_build-print_build build tail b) (
      elim build
          as (λ o.
            IsBuild o tail
            → (if is_nil (elim o [ none ↦ [] | some d ↦ d ])
                then some 0
                else stoi (elim o [ none ↦ [] | some d ↦ d ]))
              ≡ some (build_value o)) [
                | none ↦ λ h. refl
                | some d ↦ λ h. rw (h.0.filled) (stoi-digits d h.0)
              ]
        b)

  -- A release of three numbers with dots between them, and a hyphen and a build id or what starts with
  -- neither a hyphen nor a digit, all on one line, is read as these numbers, each below 2 ^ 31; without
  -- a build id it is 0.
  pub kernel_version-print_release :
      (version machine : List ℕ)
      → kernel_version (print_release kernel major minor build tail) version machine
        ≡ some (record {
          kernel = decimal_value 0 kernel;
          major = decimal_value 0 major;
          minor = decimal_value 0 minor;
          build_id = build_value build;
          release = print_release kernel major minor build tail;
          version = version;
          machine = machine;
        })
  unfolding kernel_version numbers
  kernel_version-print_release version machine =
      rw
        (
          kernel_version,
          regex_match-release,
          stoi-digits kernel k,
          stoi-digits major l,
          stoi-digits minor m,
          build_number,
        )
        refl
