-- ===== src/Users/LockoutLaws.antt =====
-- What moves a lockout and what does not (backend/users/services/lockout.py).
use native.Mathlib.Nat.{pow-le-pow_right, mul-le-mul_left}
use django_base_x.Prelude.{
  ℕ, ◌-◌, ◌*◌, ◌^◌, ◌≤◌, ◌≡◌, refl, ap, ap₂, ◌∙◌, max, String, Bool, true, false, Option, none,
  some, List, [], ◌∷◌, ◌++◌, filter_by, arith, if◌then◌else◌,
}
use django_base_x.Prelude.Result.{ok, ◌>>=◌}
use django_base_x.Users.Lockout.{
  FailureReason, LoginAttempt, Policy, max_duration, history, is_counted, is_success_of,
  is_failure_of, is_failure_from, last_success, own_failures, first_time, ip_locked, over_threshold,
  newest, duration_of, is_locked,
}

filter_by-snoc :
    (p : LoginAttempt → Bool) (xs : List LoginAttempt) (x : LoginAttempt)
    → p x ≡ false
    → filter_by p (xs ++ (x ∷ [])) ≡ filter_by p xs
unfolding filter_by
filter_by-snoc p [] x f = ground (arith, f)
filter_by-snoc p (y ∷ xs) x f = ground (arith, filter_by-snoc p xs x f)

module _ (attempts : List LoginAttempt) (refused : LoginAttempt)
    (failed : refused.succeeded ≡ false)
    (reason : refused.failure_reason ≡ FailureReason.locked) where
  own_failures-snoc :
      (identifier : String) (since : ℕ)
      → own_failures identifier since (attempts ++ (refused ∷ []))
        ≡ own_failures identifier since attempts
  unfolding own_failures last_success
  own_failures-snoc identifier since =
      ap
        (λ l.
          filter_by (is_failure_of identifier since (first_time (newest l)))
            (attempts ++ (refused ∷ [])))
        (filter_by-snoc (is_success_of identifier since) attempts refused
          (unfold is_success_of in ground (arith, failed)))
      ∙ filter_by-snoc (is_failure_of identifier since (last_success identifier since attempts))
          attempts refused (unfold is_failure_of is_counted in ground (arith, failed, reason))

  ip_locked-snoc :
      (policy : Policy) (ip : Option String) (now : ℕ)
      → ip_locked policy ip now (attempts ++ (refused ∷ [])) ≡ ip_locked policy ip now attempts
  unfolding ip_locked
  ip_locked-snoc policy none now = refl
  ip_locked-snoc policy (some ip) now =
      ap (λ l. over_threshold policy l (policy.threshold * 5) now)
        (filter_by-snoc (is_failure_from ip (now - history)) attempts refused
          (unfold is_failure_from is_counted in ground (arith, failed, reason)))

  -- An attempt that was refused because of the lock changes no lock: neither of its address nor of
  -- its IP, nor any other, at any time.
  pub is_locked-refused :
      (policy : Policy) (identifier : String) (ip : Option String) (now : ℕ)
      → is_locked policy identifier ip now (attempts ++ (refused ∷ []))
        ≡ is_locked policy identifier ip now attempts
  unfolding is_locked
  is_locked-refused policy identifier ip now =
      ap₂
        (λ own by_ip. over_threshold policy own policy.threshold now >>= λ mine.
          if mine then ok true else by_ip)
        (own_failures-snoc identifier (now - history)) (ip_locked-snoc policy ip now)

-- Each further lock of a history lasts at least as long as the one before, from the configured
-- duration up to a day.
duration_of_mono :
    (base j k : ℕ)
    → base ≤ max_duration
    → j ≤ k
    → (base ≤ duration_of base j)
      × (duration_of base j ≤ duration_of base k)
      × (duration_of base k ≤ max_duration)
unfolding duration_of
duration_of_mono base j k small le =
    let grown : 2 ^ (max j 1 - 1) ≤ 2 ^ (max k 1 - 1) =
      pow-le-pow_right (omega arith) (omega (arith, le)) in
    let scaled : base * 2 ^ (max j 1 - 1) ≤ base * 2 ^ (max k 1 - 1) = mul-le-mul_left base grown in
    let one : 2 ^ 0 ≤ 2 ^ (max j 1 - 1) = pow-le-pow_right (omega arith) {i = 0} (omega arith) in
    let once : base * 2 ^ 0 ≤ base * 2 ^ (max j 1 - 1) = mul-le-mul_left base one in
    (ground (arith, once, small), ground (arith, scaled, le), ground arith)
