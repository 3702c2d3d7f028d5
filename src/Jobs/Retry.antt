-- ===== src/Jobs/Retry.antt =====
-- The retry policy (backend/core/jobs/retry.py). Durations are whole microseconds, the resolution
-- of `timedelta`; the growth factor is a whole number. `rand` stands for
-- `λ ceiling. random.random() * ceiling`.
pub mod Bounds
use django_base_x.Prelude.{
  ℕ, ◌*◌, ◌-◌, ◌^◌, min, max, Bool, ◌&&◌, ◌||◌, Option, none, some, leb, ltb, ◌==◌, if◌then◌else◌,
}
use django_base_x.Prelude.Int.{ℤ, pos_part}
use django_base_x.Prelude.Result.{Result, ok, err}
use django_base_x.Errors.{Exc, value_error}

-- a number of seconds, in microseconds
abbrev pub seconds : ℕ → ℕ
seconds n = n * 1000000

unfoldable pub is_retryable_status : ℕ → Bool
is_retryable_status status =
    (status == 408 || status == 425 || status == 429) || (leb 500 status && leb status 599)

pub record RetryPolicy : Type 0 where
  pub max_attempts : ℕ
  pub base : ℕ
  pub factor : ℕ
  pub cap : ℕ

-- __post_init__: a negative duration is not representable here, the other two tests are.
unfoldable pub new_policy : ℕ → ℕ → ℕ → ℕ → Result Exc RetryPolicy
new_policy max_attempts base factor cap =
    if ltb max_attempts 1
    then err value_error
    else if ltb factor 1
    then err value_error
    else ok (record { max_attempts = max_attempts; base = base; factor = factor; cap = cap })

-- min(cap, base * factor ** (attempt - 1))
unfoldable pub ceiling : RetryPolicy → ℕ → ℕ
ceiling p attempt = min p.cap (p.base * p.factor ^ (attempt - 1))

-- The wait when an attempt remains: the upstream's Retry-After if it gave one, else full jitter.
unfoldable pub wait : RetryPolicy → ℕ → Option ℤ → (ℕ → ℕ) → ℕ
unfolding ceiling
wait p attempt (some after) rand = min (pos_part after) p.cap
wait p attempt none rand = rand (ceiling p attempt)

unfoldable pub next_delay : RetryPolicy → ℕ → Option ℤ → (ℕ → ℕ) → Result Exc (Option ℕ)
next_delay p attempt retry_after rand =
    if ltb attempt 1
    then err value_error
    else if leb p.max_attempts attempt
    then ok none
    else ok (some (wait p attempt retry_after rand))

-- What `is_transient` reads of an exception.
pub record Raised : Type 0 where
  pub transient : Option Bool
  pub status_code : Option ℕ
  -- isinstance(exc, (OperationalError, ConnectionError, TimeoutError))
  pub connection_trouble : Bool

unfoldable pub is_transient : Raised → Bool
unfolding is_retryable_status
is_transient exc = elim exc.transient [
  | some explicit ↦ explicit
  | none ↦ elim exc.status_code [
    | some status ↦ is_retryable_status status
    | none ↦ exc.connection_trouble
  ]
]

abbrev pub outbox_default_retry : RetryPolicy
outbox_default_retry = record {
  max_attempts = 5;
  base = seconds 60;
  factor = 5;
  cap = seconds 3600;
}
