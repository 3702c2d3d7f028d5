-- ===== src/Users/Mfa.antt =====
-- The second factor: verify_totp of backend/users/mfa.py, and _accept_totp and _accept_recovery_code
-- of backend/users/services/mfa.py. pyotp, the decryption of a secret, str.upper and SHA-256
-- are parameters; a time step is the clock divided by 30 seconds.
use Prim.Native.Char.{code}
use django_base_x.Prelude.{
  ℕ, ◌+◌, ◌-◌, String, Bool, true, false, ◌&&◌, ◌||◌, Option, none, some, List, [], ◌∷◌, ltb, ◌==◌,
  str_eq, chars, count_where, update_where, is_some, is_none, if◌then◌else◌,
}
use django_base_x.Settings.Texts.{is_space, is_digit}

-- secret is the ciphertext.
pub record Device : Type 0 where
  pub id : ℕ
  pub user : ℕ
  pub label : String
  pub created_at : ℕ
  pub secret : String
  pub confirmed_at : Option ℕ
  pub last_used_at : Option ℕ
  pub last_used_timestep : ℕ

pub record RecoveryCode : Type 0 where
  pub user : ℕ
  pub code_hash : String
  pub used_at : Option ℕ

-- decrypt_secret under keys that are configured, TOTP(secret).generate_otp, str.upper and the hex
-- digest of SHA-256.
pub record Library : Type 0 where
  pub decrypt : String → String
  pub otp : String → ℕ → String
  pub upper : String → String
  pub sha256 : String → String

-- .replace(" ", "").replace("-", "")
unfoldable pub without_marks : String → String
without_marks String.[] = String.[]
without_marks (String.◌∷◌ c s) =
    let rest = without_marks s in
    if (code c == 32) || (code c == 45) then rest else String.◌∷◌ c rest

unfoldable pub normalize_recovery_code : Library → String → String
normalize_recovery_code library typed = without_marks (library.upper typed)

unfoldable pub hash_recovery_code : Library → String → String
hash_recovery_code library typed = library.sha256 (normalize_recovery_code library typed)

-- "".join(code.split())
unfoldable pub joined : String → String
joined String.[] = String.[]
joined (String.◌∷◌ c s) =
    let rest = joined s in if is_space (code c) then rest else String.◌∷◌ c rest

unfoldable pub all_digits : String → Bool
all_digits String.[] = true
all_digits (String.◌∷◌ c s) = is_digit (code c) && all_digits s

unfoldable pub accepts : (ℕ → String) → String → ℕ → ℕ → Bool
accepts otp typed last step = str_eq (otp step) typed && ltb last step

-- The loop over the candidate steps: the last one that is accepted.
unfoldable pub latest : (ℕ → String) → String → ℕ → List ℕ → Option ℕ → Option ℕ
latest otp typed last [] accepted = accepted
latest otp typed last (step ∷ steps) accepted =
    latest otp typed last steps (if accepts otp typed last step then some step else accepted)

-- Step 0 stands for the step -1 too: neither is above a last step.
abbrev pub window : ℕ → List ℕ
window current = (current - 1) ∷ current ∷ (current + 1) ∷ []

unfoldable pub verify_totp : (ℕ → String) → String → ℕ → ℕ → Option ℕ
verify_totp otp typed last current =
    let digits = joined typed in
    if (chars digits == 6) && all_digits digits
    then latest otp digits last (window current) none
    else none

abbrev pub stepped : ℕ → ℕ → Device → Device
stepped now step device = record {
  id = device.id;
  user = device.user;
  label = device.label;
  created_at = device.created_at;
  secret = device.secret;
  confirmed_at = device.confirmed_at;
  last_used_at = some now;
  last_used_timestep = step;
}

-- _accept_totp: the user's confirmed devices in order, up to the first that accepts
unfoldable pub accept_totp : Library → ℕ → ℕ → ℕ → String → List Device → Bool × List Device
accept_totp library now current user typed [] = (false, [])
accept_totp library now current user typed (device ∷ devices) =
    let rest = accept_totp library now current user typed devices in
    if (device.user == user) && is_some device.confirmed_at
    then elim (verify_totp (library.otp (library.decrypt device.secret)) typed
        device.last_used_timestep current) [
          | some step ↦ (true, stepped now step device ∷ devices)
          | none ↦ (rest.0, device ∷ rest.1)
        ]
    else (rest.0, device ∷ rest.1)

unfoldable pub is_hit : ℕ → String → RecoveryCode → Bool
is_hit user hash row = (row.user == user) && str_eq row.code_hash hash && is_none row.used_at

unfoldable pub used : ℕ → RecoveryCode → RecoveryCode
used now row = record { user = row.user; code_hash = row.code_hash; used_at = some now }

-- _accept_recovery_code
unfoldable pub accept_recovery_code :
    Library → ℕ → ℕ → String → List RecoveryCode → Bool × List RecoveryCode
accept_recovery_code library now user typed rows =
    let hash = hash_recovery_code library typed in
    (count_where (is_hit user hash) rows == 1, update_where (is_hit user hash) (used now) rows)
