-- ===== src/Users/Lockout.antt =====
-- Progressive lockout (backend/users/services/lockout.py), a query over the login attempts. The
-- settings LOCKOUT_THRESHOLD, LOCKOUT_WINDOW and LOCKOUT_DURATION are parameters, in microseconds.
use django_base_x.Prelude.{
  ℕ, ◌+◌, ◌-◌, ◌*◌, ◌/◌, ◌^◌, min, max, String, Bool, true, false, not, ◌&&◌, Option, none, some,
  List, [], ◌∷◌, leb, ltb, str_eq, filter_by, length, take, if◌then◌else◌,
}
use django_base_x.Prelude.Result.{Result, ok, err, ◌>>=◌}
use django_base_x.Errors.{Exc, index_error}
use django_base_x.Jobs.Retry.{seconds}

pub data FailureReason : Type 0 where
  bad_password unknown_user inactive mfa_failed locked no_failure : FailureReason

pub record LoginAttempt : Type 0 where
  pub identifier : String
  pub user : Option ℕ
  pub ip : Option String
  pub user_agent : String
  pub succeeded : Bool
  pub failure_reason : FailureReason
  pub created_at : ℕ

pub record Policy : Type 0 where
  pub threshold : ℕ
  pub window : ℕ
  pub duration : ℕ

abbrev pub history : ℕ
history = seconds 86400

abbrev pub max_duration : ℕ
max_duration = seconds 86400

-- filter(succeeded=False).exclude(failure_reason="locked")
unfoldable pub is_counted : LoginAttempt → Bool
is_counted a = not a.succeeded && elim a.failure_reason [ locked ↦ false | _ ↦ true ]

abbrev pub is_from : Option String → String → Bool
is_from none ip = false
is_from (some other) ip = str_eq other ip

-- order_by("-created_at").values_list("created_at")
unfoldable pub insert_time : ℕ → List ℕ → List ℕ
insert_time t [] = t ∷ []
insert_time t (x ∷ xs) = let rest = insert_time t xs in if leb x t then t ∷ x ∷ xs else x ∷ rest

unfoldable pub newest : List LoginAttempt → List ℕ
unfolding insert_time
newest [] = []
newest (a ∷ attempts) = insert_time a.created_at (newest attempts)

abbrev pub last_of : ℕ → List ℕ → ℕ
last_of t [] = t
last_of t (x ∷ xs) = last_of x xs

unfoldable pub duration_of : ℕ → ℕ → ℕ
duration_of base k =
    let doublings = max k 1 - 1 in
    if leb 32 doublings then max_duration else min (base * 2 ^ doublings) max_duration

-- An empty burst has no first element: a threshold of 0 raises.
unfoldable pub in_burst : Policy → ℕ → ℕ → ℕ → List ℕ → Result Exc Bool
unfolding duration_of
in_burst policy threshold count now [] = err index_error
in_burst policy threshold count now (latest ∷ burst) =
    if ltb (last_of latest burst + policy.window) latest
    then ok false
    else ok (ltb now (latest + duration_of policy.duration (count / threshold)))

unfoldable pub over_threshold : Policy → List LoginAttempt → ℕ → ℕ → Result Exc Bool
unfolding newest in_burst
over_threshold policy failures threshold now =
    let burst = take threshold (newest failures) in
    if ltb (length burst) threshold
    then ok false
    else in_burst policy threshold (length failures) now burst

-- The counted failures of the address in the history, since its last success.
unfoldable pub is_success_of : String → ℕ → LoginAttempt → Bool
is_success_of identifier since a =
    str_eq a.identifier identifier && (a.succeeded && leb since a.created_at)

unfoldable pub is_failure_of : String → ℕ → Option ℕ → LoginAttempt → Bool
unfolding is_counted
is_failure_of identifier since last_success a =
    is_counted a
    && (str_eq a.identifier identifier
        && (leb since a.created_at
            && elim last_success [ none ↦ true | some t ↦ ltb t a.created_at ]))

unfoldable pub is_failure_from : String → ℕ → LoginAttempt → Bool
unfolding is_counted
is_failure_from ip since a = is_counted a && (is_from a.ip ip && leb since a.created_at)

abbrev pub first_time : List ℕ → Option ℕ
first_time [] = none
first_time (t ∷ ts) = some t

unfoldable pub last_success : String → ℕ → List LoginAttempt → Option ℕ
unfolding newest is_success_of
last_success identifier since attempts =
    first_time (newest (filter_by (is_success_of identifier since) attempts))

unfoldable pub own_failures : String → ℕ → List LoginAttempt → List LoginAttempt
unfolding is_failure_of last_success
own_failures identifier since attempts =
    filter_by (is_failure_of identifier since (last_success identifier since attempts)) attempts

unfoldable pub ip_locked : Policy → Option String → ℕ → List LoginAttempt → Result Exc Bool
unfolding over_threshold is_failure_from
ip_locked policy none now attempts = ok false
ip_locked policy (some ip) now attempts =
    over_threshold policy (filter_by (is_failure_from ip (now - history)) attempts)
      (policy.threshold * 5) now

unfoldable pub is_locked : Policy → String → Option String → ℕ → List LoginAttempt → Result Exc Bool
unfolding over_threshold own_failures ip_locked
is_locked policy identifier ip now attempts = do
  mine ←
      over_threshold policy (own_failures identifier (now - history) attempts) policy.threshold now
  if mine then ok true else ip_locked policy ip now attempts
