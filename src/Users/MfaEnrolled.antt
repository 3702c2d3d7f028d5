-- ===== src/Users/MfaEnrolled.antt =====
-- begin_setup followed by confirm_setup, of backend/users/services/mfa.py.
use django_base_x.Prelude.{
  ℕ, String, true, not, some, List, [], ◌∷◌, ◌++◌, ◌≡◌, refl, sym, subst, ◌==◌, arith, any_where,
  filter_by, update_where, least_by,
}
use django_base_x.Prelude.Result.{ok}
use django_base_x.Users.Mfa.{Device, Library, verify_totp}
use django_base_x.Users.MfaSetup.{
  Factors, Enrolling, is_confirmed, is_pending, has_confirmed_device, new_device, begin_setup,
  newest_pending, enrolled, confirm_setup, confirm_device, confirmed,
}

pending-one :
    (user : ℕ) (device : Device)
    → is_pending user device ≡ true
    → (devices : List Device)
    → filter_by
        (is_pending user)
        (filter_by (λ d. not (is_pending user d)) devices ++ (device ∷ []))
      ≡ (device ∷ [])
unfolding filter_by
pending-one user device h [] = rw h refl
pending-one user device h (d ∷ devices) = ground (arith, pending-one user device h devices)

any_where-update_where_snoc :
    (user now step : ℕ) (device : Device)
    → (device.user == user) ≡ true
    → (devices : List Device)
    → any_where
        (is_confirmed user)
        (update_where (λ d. d.id == device.id) (enrolled now step) (devices ++ (device ∷ [])))
      ≡ true
unfolding any_where update_where is_confirmed
any_where-update_where_snoc user now step device h [] = ground arith
any_where-update_where_snoc user now step device h (d ∷ devices) =
    ground (arith, any_where-update_where_snoc user now step device h devices)

-- The rows after a begin_setup that succeeds.
unfoldable pub begun_of : Enrolling → ℕ → ℕ → ℕ → String → String → Factors → Factors
begun_of enrolling now id user label secret factors = record {
  devices =
      filter_by (λ d. not (is_pending user d)) factors.devices
      ++ (new_device enrolling now id user label secret ∷ []);
  codes = factors.codes;
  activity = factors.activity ++ ("auth.mfa_setup_started" ∷ []);
}

-- What begin_setup shows and stores, where it succeeds.
begin_setup-ok :
    (enrolling : Enrolling) (now id user : ℕ) (email label secret : String)
    (shown : String × String) (factors begun : Factors)
    → begin_setup enrolling now id user email label secret factors ≡ ok (shown, begun)
    → (shown.1 ≡ secret) × (begun ≡ begun_of enrolling now id user label secret factors)
unfolding begin_setup begun_of
begin_setup-ok enrolling now id user email label secret shown factors begun e = ground (arith, e)

newest_pending-begun :
    (enrolling : Enrolling) (now id user : ℕ) (label secret : String) (factors : Factors)
    → newest_pending user (begun_of enrolling now id user label secret factors).devices
      ≡ some (new_device enrolling now id user label secret)
unfolding begun_of least_by is_pending
newest_pending-begun enrolling now id user label secret factors =
    let is_new : is_pending user (new_device enrolling now id user label secret) ≡ true =
      ground arith in
    rw (pending-one user (new_device enrolling now id user label secret) is_new factors.devices)
      refl

confirm_device-verified :
    (library : Library) (now current user step : ℕ) (typed : String) (fresh : List String)
    (factors : Factors) (device : Device)
    → verify_totp
        (library.otp (library.decrypt device.secret))
        typed
        device.last_used_timestep
        current
      ≡ some step
    → confirm_device library now current user typed fresh factors (some device)
      ≡ ok (fresh, confirmed library now step user fresh device factors)
confirm_device-verified library now current user step typed fresh factors device e =
    rw (confirm_device, e) refl

confirm_setup-begun :
    (library : Library) (enrolling : Enrolling)
    → ((secret : String) → library.decrypt (enrolling.encrypt secret) ≡ secret)
    → (now then_at id user current step : ℕ) (label secret typed : String) (fresh : List String)
      (factors : Factors)
    → verify_totp (library.otp secret) typed 0 current ≡ some step
    → let begun = begun_of enrolling now id user label secret factors in
      let device = new_device enrolling now id user label secret in
      let after = confirmed library then_at step user fresh device begun in
      (confirm_setup library then_at current user typed fresh begun ≡ ok (fresh, after))
      × (has_confirmed_device user after ≡ true)
unfolding confirm_setup has_confirmed_device begun_of
confirm_setup-begun library enrolling same now then_at id user current step label secret typed fresh
      factors verified =
    let device = new_device enrolling now id user label secret in
    let read =
      subst (λ s. verify_totp (library.otp s) typed 0 current ≡ some step) (sym (same secret))
        verified in
    (
      rw (newest_pending-begun enrolling now id user label secret factors) (
          confirm_device-verified library then_at current user step typed fresh
            (begun_of enrolling now id user label secret factors) device read),
      any_where-update_where_snoc user then_at step device (ground arith)
          (filter_by (λ d. not (is_pending user d)) factors.devices),
    )

-- Where begin_setup succeeds, a code that verifies against the secret it showed enrols the new
-- device, when what encrypt_secret stores is what decrypt_secret reads: confirm_setup answers with
-- the fresh codes, and the user then has a confirmed device.
pub begin_setup-confirm_setup :
    (library : Library) (enrolling : Enrolling)
    → ((secret : String) → library.decrypt (enrolling.encrypt secret) ≡ secret)
    → (now then_at id user current step : ℕ) (email label secret typed : String)
      (fresh : List String) (shown : String × String) (factors begun : Factors)
    → begin_setup enrolling now id user email label secret factors ≡ ok (shown, begun)
    → verify_totp (library.otp shown.1) typed 0 current ≡ some step
    → (after : Factors) × (confirm_setup library then_at current user typed fresh begun
        ≡ ok (fresh, after))
      × (has_confirmed_device user after ≡ true)
begin_setup-confirm_setup library enrolling same now then_at id user current step email label secret
      typed fresh shown factors begun e verified =
    let (as_shown, as_begun) =
      begin_setup-ok enrolling now id user email label secret shown factors begun e in
    let verified' =
      subst (λ s. verify_totp (library.otp s) typed 0 current ≡ some step) as_shown verified in
    let (answer, enrols) =
      confirm_setup-begun library enrolling same now then_at id user current step label secret typed
        fresh factors verified' in
    subst
      (λ begun.
        (after : Factors) × (confirm_setup library then_at current user typed fresh begun
          ≡ ok (fresh, after))
        × (has_confirmed_device user after ≡ true))
      (sym as_begun)
      (
        confirmed library then_at step user fresh (new_device enrolling now id user label secret)
            (begun_of enrolling now id user label secret factors),
        answer,
        enrols,
      )
