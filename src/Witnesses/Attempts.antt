-- ===== src/Witnesses/Attempts.antt =====
-- Three failures in a minute, and one more attempt while the address is locked.
use django_base_x.Prelude.{
  ℕ, ◌+◌, ◌≤◌, ◌≡◌, refl, String, Bool, true, false, Option, none, some, List, [], ◌∷◌, ◌++◌, arith,
}
use django_base_x.Prelude.Result.{ok}
use django_base_x.Jobs.Retry.{seconds}
use django_base_x.Users.Lockout.{FailureReason, LoginAttempt, Policy, is_locked}
use django_base_x.Users.LockoutLaws.{is_locked-refused}

abbrev wrong_at : ℕ → LoginAttempt
wrong_at t = record {
  identifier = "a@b.c";
  user = none;
  ip = some "10.0.0.1";
  user_agent = "";
  succeeded = false;
  failure_reason = FailureReason.bad_password;
  created_at = t;
}

abbrev three : List LoginAttempt
three = wrong_at (seconds 10) ∷ wrong_at (seconds 20) ∷ wrong_at (seconds 30) ∷ []

abbrev strict : Policy
strict = record { threshold = 3; window = seconds 300; duration = seconds 900 }

-- The address is locked after the third failure, until its duration has passed.
locked_then : is_locked strict "a@b.c" none (seconds 40) three ≡ ok true
unfolding is_locked django_base_x.Prelude.filter_by
locked_then = refl

open_later : is_locked strict "a@b.c" none (seconds 931) three ≡ ok false
unfolding is_locked django_base_x.Prelude.filter_by
open_later = refl

is_locked-refused_example :
    is_locked strict "a@b.c" none
      (seconds 940)
      (three ++ (record (wrong_at (seconds 50)) { failure_reason = FailureReason.locked } ∷ []))
    ≡ is_locked strict "a@b.c" none (seconds 940) three
is_locked-refused_example =
    is_locked-refused three
      (record (wrong_at (seconds 50)) { failure_reason = FailureReason.locked }) refl refl strict
      "a@b.c" none (seconds 940)
