-- ===== src/Witnesses/Factors.antt =====
-- A one-time code that comes up again two steps later, and an enrolment.
use django_base_x.Prelude.{
  true, [], ◌∷◌, ◌≡◌, any_where, ℕ, String, some, none, ◌==◌, refl, if◌then◌else◌, arith, ◌<◌,
}
use django_base_x.Users.Mfa.{Device, Library, accept_totp, verify_totp, stepped}
use django_base_x.Prelude.Result.{ok}
use django_base_x.Users.MfaSetup.{
  Factors, Enrolling, begin_setup, confirm_setup, has_confirmed_device, is_pending,
}
use django_base_x.Users.MfaEnrolled.{begun_of, begin_setup-confirm_setup}
use django_base_x.Users.MfaReplay.{accept_totp-again}

abbrev repeated : String → ℕ → String
repeated secret step = if step == 100 then "271828" else if step == 102 then "271828" else "314159"

abbrev library : Library
library = record { decrypt = λ s. s; otp = repeated; upper = λ s. s; sha256 = λ s. s }

abbrev phone : Device
phone = record {
  id = 1;
  user = 7;
  label = "phone";
  created_at = 9;
  secret = "JBSWY3DP";
  confirmed_at = some 10;
  last_used_at = none;
  last_used_timestep = 40;
}

accept_totp-again_example : 101 < 102
unfolding accept_totp verify_totp django_base_x.Users.Mfa.joined
    django_base_x.Settings.Texts.is_space django_base_x.Users.Mfa.all_digits
    django_base_x.Settings.Texts.is_digit django_base_x.Users.Mfa.latest
    django_base_x.Users.Mfa.accepts
accept_totp-again_example =
    accept_totp-again library 3000 3060 100 102 7 "271 828" phone (stepped 3000 100 phone)
      (stepped 3060 102 phone) (omega arith) refl refl

abbrev enrolling : Enrolling
enrolling = record { encrypt = λ s. s; provisioning_uri = λ secret email. email }

-- An earlier attempt is pending, and another account has a device.
abbrev before : Factors
before = record {
  devices = record phone { confirmed_at = none } ∷ record phone { id = 2; user = 8 } ∷ [];
  codes = record { user = 7; code_hash = "ABCDEF234567"; used_at = none } ∷ [];
  activity = [];
}

begin_setup-confirm_setup_example :
    (after : Factors) × (confirm_setup library 3000 100 7 "271828"
        ("GHJKMN" ∷ [])
        (begun_of enrolling 2990 3 7 "tablet" "K5" before)
      ≡ ok ("GHJKMN" ∷ [], after))
    × (has_confirmed_device 7 after ≡ true)
unfolding begin_setup has_confirmed_device any_where django_base_x.Users.MfaSetup.is_confirmed
    begun_of verify_totp django_base_x.Users.Mfa.joined django_base_x.Settings.Texts.is_space
    django_base_x.Users.Mfa.all_digits django_base_x.Settings.Texts.is_digit
    django_base_x.Users.Mfa.latest django_base_x.Users.Mfa.accepts
begin_setup-confirm_setup_example =
    begin_setup-confirm_setup library enrolling (λ s. refl) 2990 3000 3 7 100 100 "a@b.c" "tablet"
      "K5" "271828" ("GHJKMN" ∷ []) ("a@b.c", "K5") before
      (begun_of enrolling 2990 3 7 "tablet" "K5" before) refl refl
