-- ===== src/Jobs/Retry/Bounds.antt =====
-- The delays of backend/core/jobs/retry.py, against the cap and the attempts of the policy.
use native.Mathlib.Nat.{pow-le-pow_right, mul-le-mul_left}
use native.Mathlib.Decide.{dec_le}
use django_base_x.Prelude.{
  ℕ, ◌*◌, ◌-◌, ◌^◌, ◌≤◌, ◌<◌, ◌≡◌, ◌⊎◌, inl, inr, Option, none, some, arith,
}
use django_base_x.Prelude.Int.{ℤ}
use django_base_x.Prelude.Result.{ok}
use django_base_x.Jobs.Retry.{RetryPolicy, ceiling, wait, next_delay}

pub wait-le-cap :
    (p : RetryPolicy) (attempt : ℕ) (after : Option ℤ) (rand : ℕ → ℕ)
    → ((c : ℕ) → rand c ≤ c)
    → wait p attempt after rand ≤ p.cap
unfolding wait
wait-le-cap p attempt (some a) rand draw = omega arith
wait-le-cap p attempt none rand draw = omega (arith, draw (ceiling p attempt))

-- From the first attempt on the call returns: with `none` once the attempts made have reached
-- `max_attempts`, the first one counted, and before that with a delay of at most `cap`.
pub next_delay_bounded :
    (p : RetryPolicy) (attempt : ℕ) (after : Option ℤ) (rand : ℕ → ℕ)
    → ((c : ℕ) → rand c ≤ c)
    → 1 ≤ attempt
    → ((p.max_attempts ≤ attempt) × (next_delay p attempt after rand ≡ ok none))
      ⊎ ((attempt < p.max_attempts)
          × ((d : ℕ) × (next_delay p attempt after rand ≡ ok (some d)) × (d ≤ p.cap)))
unfolding next_delay
next_delay_bounded p attempt after rand draw h = elim (dec_le p.max_attempts attempt) [
  | yes spent ↦ inl (spent, ground arith)
  | no left ↦ inr (
    omega arith,
    (wait p attempt after rand, ground arith, wait-le-cap p attempt after rand draw),
  )
]

-- The backoff ceiling never shrinks from one attempt to the next.
ceiling_mono : (p : RetryPolicy) (a b : ℕ) → 1 ≤ p.factor → a ≤ b → ceiling p a ≤ ceiling p b
unfolding ceiling
ceiling_mono p a b h k =
    let grown : p.factor ^ (a - 1) ≤ p.factor ^ (b - 1) = pow-le-pow_right h (omega arith) in
    let scaled : p.base * p.factor ^ (a - 1) ≤ p.base * p.factor ^ (b - 1) =
      mul-le-mul_left p.base grown in
    omega (arith, scaled)
