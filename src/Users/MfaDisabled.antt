-- ===== src/Users/MfaDisabled.antt =====
-- What disable of backend/users/services/mfa.py leave of a user's factors.
use django_base_x.Prelude.{
  ℕ, String, false, not, List, [], ◌∷◌, ◌≡◌, refl, ◌==◌, arith, any_where, filter_by, count_where,
  update_where_none,
}
use django_base_x.Users.Mfa.{
  Device, RecoveryCode, Library, hash_recovery_code, accept_totp, accept_recovery_code, is_hit,
  used,
}
use django_base_x.Users.MfaSetup.{Factors, is_confirmed, has_confirmed_device, disable}

module _ (library : Library) (now current user : ℕ) (typed : String) where
  accept_totp-none :
      (devices : List Device)
      → let kept = filter_by (λ d. not (d.user == user)) devices in
        accept_totp library now current user typed kept ≡ (false, kept)
  unfolding accept_totp filter_by
  accept_totp-none [] = refl
  accept_totp-none (device ∷ devices) = ground (arith, accept_totp-none devices)

  is_hit-none :
      (hash : String) (rows : List RecoveryCode)
      → count_where (is_hit user hash) (filter_by (λ row. not (row.user == user)) rows) ≡ 0
  unfolding count_where filter_by is_hit
  is_hit-none hash [] = refl
  is_hit-none hash (row ∷ rows) = ground (arith, is_hit-none hash rows)

  confirmed-none :
      (devices : List Device)
      → any_where (is_confirmed user) (filter_by (λ d. not (d.user == user)) devices) ≡ false
  unfolding any_where filter_by is_confirmed
  confirmed-none [] = refl
  confirmed-none (device ∷ devices) = ground (arith, confirmed-none devices)

-- After disable a user has no confirmed device, and neither a one-time code nor a recovery code of
-- the user is accepted, whatever was stored before.
disable-refused :
    (library : Library) (now current user : ℕ) (typed : String) (factors : Factors)
    → (has_confirmed_device user (disable user factors) ≡ false)
      × (accept_totp library now current user typed (disable user factors).devices
          ≡ (false, (disable user factors).devices))
      × (accept_recovery_code library now user typed (disable user factors).codes
          ≡ (false, (disable user factors).codes))
unfolding has_confirmed_device disable accept_recovery_code
disable-refused library now current user typed factors =
    let hash = hash_recovery_code library typed in
    let kept = filter_by (λ row. not (row.user == user)) factors.codes in
    let none_hit = is_hit-none library now current user typed hash factors.codes in
    (
      confirmed-none library now current user typed factors.devices,
      accept_totp-none library now current user typed factors.devices,
      rw (none_hit, update_where_none (is_hit user hash) (used now) kept none_hit) refl,
    )
