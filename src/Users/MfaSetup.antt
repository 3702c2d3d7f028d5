-- ===== src/Users/MfaSetup.antt =====
-- Enrolment and disabling of the second factor: has_confirmed_device, begin_setup, confirm_setup and
-- disable of backend/users/services/mfa.py. The drawn secret, the drawn recovery codes (whose hashes
-- are new to the table) and the new row's key are arguments; the activity log is a list of names.
use django_base_x.Prelude.{
  ℕ, String, Bool, not, ◌&&◌, Option, none, some, List, [], ◌∷◌, ◌++◌, map, ltb, ◌==◌, is_some,
  is_none, if◌then◌else◌, any_where, filter_by, update_where, least_by, slice_to,
}
use django_base_x.Prelude.Result.{Result, ok, err}
use django_base_x.Users.Mfa.{Device, RecoveryCode, Library, hash_recovery_code, verify_totp}

pub data Refusal : Type 0 where
  already_enabled : Refusal
  invalid_code : Refusal

pub record Factors : Type 0 where
  pub devices : List Device
  pub codes : List RecoveryCode
  pub activity : List String

-- encrypt_secret and provisioning_uri
pub record Enrolling : Type 0 where
  pub encrypt : String → String
  pub provisioning_uri : String → String → String

unfoldable pub is_confirmed : ℕ → Device → Bool
is_confirmed user device = (device.user == user) && is_some device.confirmed_at

unfoldable pub is_pending : ℕ → Device → Bool
is_pending user device = (device.user == user) && is_none device.confirmed_at

unfoldable pub has_confirmed_device : ℕ → Factors → Bool
has_confirmed_device user factors = any_where (is_confirmed user) factors.devices

abbrev pub new_device : Enrolling → ℕ → ℕ → ℕ → String → String → Device
new_device enrolling now id user label secret = record {
  id = id;
  user = user;
  label = slice_to 64 label;
  created_at = now;
  secret = enrolling.encrypt secret;
  confirmed_at = none;
  last_used_at = none;
  last_used_timestep = 0;
}

unfoldable pub begin_setup :
    Enrolling
    → ℕ
    → ℕ
    → ℕ
    → String
    → String
    → String
    → Factors
    → Result Refusal ((String × String) × Factors)
begin_setup enrolling now id user email label secret factors =
    if has_confirmed_device user factors
    then err already_enabled
    else ok (
      (enrolling.provisioning_uri secret email, secret),
      record {
        devices =
            filter_by (λ d. not (is_pending user d)) factors.devices
            ++ (new_device enrolling now id user label secret ∷ []);
        codes = factors.codes;
        activity = factors.activity ++ ("auth.mfa_setup_started" ∷ []);
      },
    )

abbrev pub enrolled : ℕ → ℕ → Device → Device
enrolled now step device = record {
  id = device.id;
  user = device.user;
  label = device.label;
  created_at = device.created_at;
  secret = device.secret;
  confirmed_at = some now;
  last_used_at = some now;
  last_used_timestep = step;
}

-- filter(user=user, confirmed_at__isnull=True).order_by("-created_at").first()
abbrev pub newest_pending : ℕ → List Device → Option Device
newest_pending user devices =
    least_by (λ a b. ltb b.created_at a.created_at) (filter_by (is_pending user) devices)

abbrev pub new_code : Library → ℕ → String → RecoveryCode
new_code library user code = record {
  user = user;
  code_hash = hash_recovery_code library code;
  used_at = none;
}

abbrev pub confirmed : Library → ℕ → ℕ → ℕ → List String → Device → Factors → Factors
confirmed library now step user fresh device factors = record {
  devices = update_where (λ d. d.id == device.id) (enrolled now step) factors.devices;
  codes =
      filter_by (λ row. not (row.user == user)) factors.codes ++ map (new_code library user) fresh;
  activity = factors.activity ++ ("auth.mfa_enabled" ∷ []);
}

abbrev pub confirm_device :
    Library
    → ℕ
    → ℕ
    → ℕ
    → String
    → List String
    → Factors
    → Option Device
    → Result Refusal (List String × Factors)
confirm_device library now current user typed fresh factors none = err invalid_code
confirm_device library now current user typed fresh factors (some device) =
    elim (verify_totp (library.otp (library.decrypt device.secret)) typed device.last_used_timestep
      current) [
        | none ↦ err invalid_code
        | some step ↦ ok (fresh, confirmed library now step user fresh device factors)
      ]

unfoldable pub confirm_setup :
    Library → ℕ → ℕ → ℕ → String → List String → Factors → Result Refusal (List String × Factors)
confirm_setup library now current user typed fresh factors =
    confirm_device library now current user typed fresh factors
      (newest_pending user factors.devices)

unfoldable pub disable : ℕ → Factors → Factors
disable user factors = record {
  devices = filter_by (λ d. not (d.user == user)) factors.devices;
  codes = filter_by (λ row. not (row.user == user)) factors.codes;
  activity = factors.activity ++ ("auth.mfa_disabled" ∷ []);
}
