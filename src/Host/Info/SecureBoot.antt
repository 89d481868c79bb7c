-- ===== src/Host/Info/SecureBoot.antt =====
-- GetSecureBootFromVars, GetSecureBootFromParams and GetSecureBootStatus (collector/lib/HostInfo.cpp).
use collector.Prelude.{
  ℕ, zero, suc, ◌≡◌, refl, Bool, true, false, ◌&&◌, ◌||◌, not, Option, none, some, List, [], ◌∷◌,
  ◌++◌, length, arith, ltb, ◌==◌, if◌then◌else◌,
}
use collector.Prelude.Text.{codes}
use collector.ContainerId.{starts_with}
use collector.Host.Version.{has_secure_boot_param}
use collector.Host.Info.{
  SecureBootStatus, secure_boot_status_of, Host, Result, bind, Call, get_kernel_version,
}

-- The byte at a position of a file, which is not set if the file ends before it.
unfoldable pub byte_of : ℕ → List ℕ → Option ℕ
byte_of n [] = none
byte_of zero (b ∷ bytes) = some b
byte_of (suc n) (b ∷ bytes) = byte_of n bytes

-- The value of the variable, the fifth byte.
unfoldable pub vars_status : Option ℕ → Result SecureBootStatus
vars_status none = Result.undefined
vars_status (some status) =
    if not (status == 0) && not (status == 1)
    then Result.returns SecureBootStatus.not_determined
    else Result.returns (secure_boot_status_of status)

unfoldable pub efi_key_status : Option (List ℕ) → Result SecureBootStatus
efi_key_status none = Result.returns SecureBootStatus.not_determined
efi_key_status (some efi_key) = vars_status (byte_of 4 efi_key)

-- The loop over the directory.
unfoldable pub find_efi_key : List (List ℕ × Option (List ℕ)) → Result SecureBootStatus
find_efi_key [] = Result.returns SecureBootStatus.not_determined
find_efi_key ((name, content) ∷ rest) = elim (starts_with (codes "SecureBoot-") name) [
  | true ↦ efi_key_status content
  | false ↦ find_efi_key rest
]

unfoldable pub get_secure_boot_from_vars : Host → Result SecureBootStatus
get_secure_boot_from_vars host = elim host.efivars [
  | none ↦ Result.returns SecureBootStatus.not_determined
  | some efivars ↦ find_efi_key efivars
]

abbrev pub secure_boot_offset : ℕ
secure_boot_offset = 0x1EC

unfoldable pub params_status : Option ℕ → Result SecureBootStatus
params_status none = Result.undefined
params_status (some status) =
    if ltb status 1 || ltb 3 status
    then Result.returns SecureBootStatus.not_determined
    else Result.returns (secure_boot_status_of status)

unfoldable pub get_secure_boot_from_params : Host → Result SecureBootStatus
get_secure_boot_from_params host = elim host.boot_params [
  | none ↦ Result.returns SecureBootStatus.not_determined
  | some boot_params ↦ params_status (byte_of secure_boot_offset boot_params)
]

abbrev is_unset : SecureBootStatus → Bool
is_unset SecureBootStatus.unset = true
is_unset _ = false

unfoldable pub get_secure_boot_status : Host → Call SecureBootStatus
get_secure_boot_status host s = bind (get_kernel_version host s) (λ k.
    let after = k.1 in
    if not (is_unset after.secure_boot_status)
    then Result.returns (after.secure_boot_status, after)
    else bind
        (if has_secure_boot_param k.0
          then get_secure_boot_from_params host
          else get_secure_boot_from_vars host)
        (λ status. Result.returns (status, record after { secure_boot_status = status })))

-- No name in the directory starts with SecureBoot-.
abbrev pub no_efi_key : List (List ℕ × Option (List ℕ)) → Bool
no_efi_key [] = true
no_efi_key ((name, content) ∷ rest) =
    not (starts_with (codes "SecureBoot-") name) && no_efi_key rest

-- The status of the values of the variable: 0 is off and 1 is on.
abbrev pub status_of_value : ℕ → SecureBootStatus
status_of_value zero = SecureBootStatus.unset
status_of_value (suc n) = SecureBootStatus.not_determined

vars_status-value : (value : ℕ) → vars_status (some value) ≡ Result.returns (status_of_value value)
unfolding vars_status
vars_status-value zero = refl
vars_status-value (suc zero) = refl
vars_status-value (suc (suc n)) = ground arith

abbrev pub variable : List ℕ → ℕ → List ℕ → List ℕ × Option (List ℕ)
variable guid value attributes = (codes "SecureBoot-" ++ guid, some (attributes ++ value ∷ []))

byte_of-value :
    (attributes : List ℕ) (value : ℕ)
    → length attributes ≡ 4
    → byte_of 4 (attributes ++ value ∷ []) ≡ some value
unfolding byte_of
byte_of-value [] value h = absurd (omega (arith, h))
byte_of-value (a ∷ []) value h = absurd (omega (arith, h))
byte_of-value (a ∷ b ∷ []) value h = absurd (omega (arith, h))
byte_of-value (a ∷ b ∷ c ∷ []) value h = absurd (omega (arith, h))
byte_of-value (a ∷ b ∷ c ∷ d ∷ []) value h = refl
byte_of-value (a ∷ b ∷ c ∷ d ∷ e ∷ attributes) value h = absurd (omega (arith, h))

find_efi_key-variable :
    (before after : List (List ℕ × Option (List ℕ))) (guid attributes : List ℕ) (value : ℕ)
    → no_efi_key before ≡ true
    → length attributes ≡ 4
    → find_efi_key (before ++ variable guid value attributes ∷ after)
      ≡ Result.returns (status_of_value value)
unfolding find_efi_key efi_key_status starts_with
find_efi_key-variable [] after guid attributes value h four =
    rw (byte_of-value attributes value four) (vars_status-value value)
find_efi_key-variable ((name, content) ∷ before) after guid attributes value h four =
    let further =
      find_efi_key-variable before after guid attributes value (ground (arith, h)) four in
    ground (arith, h, further)

-- Where the firmware's directory has a variable whose name starts with SecureBoot-, behind others that do
-- not, and it holds four bytes of attributes and a value, the status is UNSET for a value of 0, which is
-- off, and NOT_DETERMINED for any other, also for 1, which is on.
pub get_secure_boot_from_vars-value :
    (host : Host) (before after : List (List ℕ × Option (List ℕ))) (guid attributes : List ℕ)
    (value : ℕ)
    → host.efivars ≡ some (before ++ variable guid value attributes ∷ after)
    → no_efi_key before ≡ true
    → length attributes ≡ 4
    → get_secure_boot_from_vars host ≡ Result.returns (status_of_value value)
unfolding get_secure_boot_from_vars
get_secure_boot_from_vars-value host before after guid attributes value open_dir h four =
    rw (get_secure_boot_from_vars, open_dir)
      (find_efi_key-variable before after guid attributes value h four)
