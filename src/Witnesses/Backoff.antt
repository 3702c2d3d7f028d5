-- ===== src/Witnesses/Backoff.antt =====
-- The outbox's default backoff.
use django_base_x.Prelude.{ℕ, ◌≤◌, ◌<◌, ◌≡◌, ◌⊎◌, none, some, arith}
use django_base_x.Prelude.Result.{ok}
use django_base_x.Jobs.Retry.{next_delay, outbox_default_retry}
use django_base_x.Jobs.Retry.Bounds.{next_delay_bounded}

next_delay_bounded_example :
    ((5 ≤ 2) × (next_delay outbox_default_retry 2 none (λ c. c) ≡ ok none))
    ⊎ ((2 < 5)
        × ((d : ℕ) × (next_delay outbox_default_retry 2 none (λ c. c) ≡ ok (some d))
            × (d ≤ outbox_default_retry.cap)))
next_delay_bounded_example =
    next_delay_bounded outbox_default_retry 2 none (λ c. c) (λ c. omega arith) (omega arith)
