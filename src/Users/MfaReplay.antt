-- ===== src/Users/MfaReplay.antt =====
-- What verify_totp of backend/users/mfa.py accepts, and what a code that was accepted can do again.
use django_base_x.Prelude.{
  update_where, count_where-update_where_self, update_where_none, Option-cases, ℕ, ◌+◌, ◌-◌, ◌≤◌,
  ◌<◌, String, true, false, ◌⊎◌, none, some, List, [], ◌∷◌, ◌≡◌, refl, sym, subst, inl, inr, arith,
}
use django_base_x.Users.Mfa.{
  Device, Library, RecoveryCode, joined, accepts, latest, window, verify_totp, accept_totp,
  hash_recovery_code, is_hit, used, accept_recovery_code, stepped,
}

module _ (otp : ℕ → String) (typed : String) (last current : ℕ) where
  latest-accepts :
      (step : ℕ)
      → latest otp typed last (window current) none ≡ some step
      → (accepts otp typed last step ≡ true) × (current ≤ step + 1) × (step ≤ current + 1)
  unfolding latest
  latest-accepts step e = ground arith

  windowed :
      (other : ℕ)
      → current ≤ other + 1
      → other ≤ current + 1
      → ((other ≡ current - 1) ⊎ (other ≡ current)) ⊎ (other ≡ current + 1)
  windowed other low high = omega arith

  latest-greatest :
      (step other : ℕ)
      → latest otp typed last (window current) none ≡ some step
      → accepts otp typed last other ≡ true
      → current ≤ other + 1
      → other ≤ current + 1
      → other ≤ step
  unfolding latest
  latest-greatest step other e h low high = elim (windowed other low high) [
    | inl (inl at) ↦ let h' = subst (λ o. accepts otp typed last o ≡ true) at h in ground arith
    | inl (inr at) ↦ let h' = subst (λ o. accepts otp typed last o ≡ true) at h in ground arith
    | inr at ↦ let h' = subst (λ o. accepts otp typed last o ≡ true) at h in ground arith
  ]

verify_totp-latest :
    (otp : ℕ → String) (typed : String) (last current step : ℕ)
    → verify_totp otp typed last current ≡ some step
    → latest otp (joined typed) last (window current) none ≡ some step
unfolding verify_totp
verify_totp-latest otp typed last current step e = ground arith

accepts-newer :
    (otp : ℕ → String) (typed : String) (last step : ℕ)
    → accepts otp typed last step ≡ true
    → last < step
unfolding accepts
accepts-newer otp typed last step h = ground arith

accepts-older :
    (otp : ℕ → String) (typed : String) (last newer step : ℕ)
    → accepts otp typed newer step ≡ true
    → last ≤ newer
    → accepts otp typed last step ≡ true
unfolding accepts
accepts-older otp typed last newer step h le = ground arith

bounded : (a b : ℕ) → (a ≤ b) ⊎ (b < a)
bounded a b = omega arith

latest-accepts_next :
    (otp : ℕ → String) (typed : String) (last current step next : ℕ)
    → latest otp typed last (window current) none ≡ some step
    → accepts otp typed step next ≡ true
    → current ≤ next + 1
    → current + 1 < next
latest-accepts_next otp typed last current step next e ok le = elim (bounded next (current + 1)) [
  | inr above ↦ above
  | inl below ↦
      let first = (latest-accepts otp typed last current step e).0 in
      let newer = accepts-newer otp typed last step first in
      let newest = accepts-newer otp typed step next ok in
      let older = accepts-older otp typed last step next ok (omega arith) in
      let greatest = latest-greatest otp typed last current step next e older le below in
      absurd (omega arith)
]

verify_totp-again :
    (otp : ℕ → String) (typed : String) (last current later step next : ℕ)
    → current ≤ later
    → verify_totp otp typed last current ≡ some step
    → verify_totp otp typed step later ≡ some next
    → current + 1 < next
verify_totp-again otp typed last current later step next le e e' =
    let (ok, low, high) =
      latest-accepts otp (joined typed) step later next
        (verify_totp-latest otp typed step later next e') in
    latest-accepts_next otp (joined typed) last current step next
      (verify_totp-latest otp typed last current step e) ok (omega arith)

-- What an accepted code leaves of the one device it was compared with.
accept_totp-one :
    (library : Library) (now current user : ℕ) (typed : String) (device after : Device)
    → accept_totp library now current user typed (device ∷ []) ≡ (true, after ∷ [])
    → (step : ℕ) × (verify_totp
          (library.otp (library.decrypt device.secret))
          typed
          device.last_used_timestep
          current
        ≡ some step)
      × (after ≡ stepped now step device)
unfolding accept_totp
accept_totp-one library now current user typed device after e =
    elim (Option-cases (
      verify_totp (library.otp (library.decrypt device.secret)) typed device.last_used_timestep
        current)) [
          | inl x ↦ absurd (ground (arith, x))
          | inr (step, x) ↦ (step, x, ground (arith, x))
        ]

-- Once a code of a user's only device was accepted, the code is accepted again, at a clock that has
-- not gone back, only as the code of a later step than any the first check compared it with.
pub accept_totp-again :
    (library : Library) (now anew current later user : ℕ) (typed : String)
    (device after again : Device)
    → current ≤ later
    → accept_totp library now current user typed (device ∷ []) ≡ (true, after ∷ [])
    → accept_totp library anew later user typed (after ∷ []) ≡ (true, again ∷ [])
    → current + 1 < again.last_used_timestep
accept_totp-again library now anew current later user typed device after again le e e' =
    let (step, x, put) = accept_totp-one library now current user typed device after e in
    let (next, x', put') = accept_totp-one library anew later user typed after again e' in
    let same =
      subst
        (λ d.
          verify_totp (library.otp (library.decrypt d.secret)) typed d.last_used_timestep later
          ≡ some next)
        put x' in
    subst (λ d. current + 1 < d.last_used_timestep) (sym put')
      (verify_totp-again (library.otp (library.decrypt device.secret)) typed
        device.last_used_timestep current later step next le x same)

used-is_hit :
    (user now : ℕ) (hash : String) (row : RecoveryCode) → is_hit user hash (used now row) ≡ false
unfolding is_hit used
used-is_hit user now hash row = ground arith

-- A recovery code entered again is refused and changes no row, whatever the first attempt answered.
accept_recovery_code-again :
    (library : Library) (now anew user : ℕ) (typed : String) (rows : List RecoveryCode)
    → accept_recovery_code library anew user typed
        (accept_recovery_code library now user typed rows).1
      ≡ (false, (accept_recovery_code library now user typed rows).1)
unfolding accept_recovery_code
accept_recovery_code-again library now anew user typed rows =
    rw
      (
        count_where-update_where_self (is_hit user (hash_recovery_code library typed)) (used now)
            (used-is_hit user now (hash_recovery_code library typed)) rows,
        update_where_none (is_hit user (hash_recovery_code library typed)) (used anew)
            (update_where (is_hit user (hash_recovery_code library typed)) (used now) rows)
            (count_where-update_where_self (is_hit user (hash_recovery_code library typed))
              (used now) (used-is_hit user now (hash_recovery_code library typed)) rows),
      )
      refl
