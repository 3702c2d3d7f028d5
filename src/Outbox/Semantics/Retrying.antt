-- ===== src/Outbox/Semantics/Retrying.antt =====
-- settle of backend/core/outbox/service.py on a RETRY.
use django_base_x.Prelude.{
  ℕ, ◌+◌, ◌≤◌, ◌<◌, ◌≡◌, ◌⊎◌, inl, inr, String, true, List, Option, some, none, arith, max,
  any_where, update_where,
}
use django_base_x.Prelude.Int.{ℤ}
use django_base_x.Prelude.Result.{ok}
use django_base_x.Findings.{FindingKind}
use django_base_x.Findings.Unique.{IsUnique}
use django_base_x.Jobs.Retry.{RetryPolicy, new_policy}
use django_base_x.Jobs.Retry.Bounds.{next_delay_bounded}
use django_base_x.Outbox.Outcome.{Outcome, OutcomeStatus}
use django_base_x.Outbox.Message.{Db, Topic, Status, topic_of, policy_of, row_delay, failed_kind}
use django_base_x.Outbox.Claim.{Claim}
use django_base_x.Outbox.Settle.{plan, retry_plan, is_held, ended, with_error, settle}
use django_base_x.Outbox.Semantics.Settling.{KindsOk, open_about, settle_held}

pub row_delay_cases :
    (rand : ℕ → ℕ) (spec : Topic) (attempt max_attempts : ℕ) (after : Option ℤ)
    → ((c : ℕ) → rand c ≤ c)
    → 1 ≤ (policy_of spec).factor
    → 1 ≤ attempt
    → 1 ≤ max_attempts
    → ((max_attempts ≤ attempt) × (row_delay rand spec attempt max_attempts after ≡ ok none))
      ⊎ ((attempt < max_attempts)
          × ((d : ℕ) × (row_delay rand spec attempt max_attempts after ≡ ok (some d))
              × (d ≤ (policy_of spec).cap)))
unfolding row_delay new_policy
row_delay_cases rand spec attempt max_attempts after draw h a b =
    let base = policy_of spec in
    let p : RetryPolicy = record {
      max_attempts = max 1 max_attempts;
      base = base.base;
      factor = base.factor;
      cap = base.cap;
    } in
    elim (next_delay_bounded p (max 1 attempt) after rand draw (omega arith)) [
      | inl (spent, e) ↦ inl (omega (arith, spent), ground (arith, e))
      | inr (left, found) ↦ inr (omega (arith, left), (found.0, ground (arith, found.1), found.2))
    ]

module _ (scrub : String → String) (rand : ℕ → ℕ) (kinds : List FindingKind) (known : KindsOk kinds)
    (topics : List Topic) (spec : Topic) (c : Claim) (o : Outcome) (now : ℕ) (db : Db) where
  -- A RETRY for a row that its claim still holds: when the attempt was the row's last, the message
  -- is the dead letter `failed` with exactly one open finding; otherwise it waits in `retry`, its
  -- next attempt at most the topic's cap away. `settle` returns either way.
  pub settle_retry :
      ((n : ℕ) → rand n ≤ n)
      → topic_of topics c.topic ≡ ok spec
      → 1 ≤ (policy_of spec).factor
      → 1 ≤ c.attempt
      → 1 ≤ c.max_attempts
      → o.status ≡ OutcomeStatus.retry
      → IsUnique db.findings
      → any_where (is_held c) db.rows ≡ true
      → ((c.max_attempts ≤ c.attempt)
          × ((db' : Db) × (settle scrub rand kinds topics c o now db
                ≡ ok (ended Status.failed, db'))
              × (db'.rows ≡ update_where (is_held c) (with_error scrub o Status.failed) db.rows)
              × (open_about failed_kind c.id db'.findings ≡ 1)))
        ⊎ ((c.attempt < c.max_attempts)
            × ((d : ℕ) × (d ≤ (policy_of spec).cap)
                × ((db' : Db) × (settle scrub rand kinds topics c o now db
                      ≡ ok (ended Status.retry, db'))
                    × (db'.rows
                        ≡ update_where
                            (is_held c)
                            (λ m. record (with_error scrub o Status.retry m) {
                              next_attempt_at = now + d;
                            })
                            db.rows)
                    × (db'.findings ≡ db.findings))))
  unfolding retry_plan plan
  settle_retry draw reg h a b is_retry u held =
      elim (row_delay_cases rand spec c.attempt c.max_attempts o.after draw h a b) [
        | inl (spent, e) ↦ inl (
          spent,
          settle_held scrub kinds known c o now rand topics spec (retry_plan scrub o now none) db
              reg (ground (arith, is_retry, e)) u held,
        )
        | inr (left, found) ↦ inr (
          left,
          (
            found.0,
            found.2,
            settle_held scrub kinds known c o now rand topics spec
                (retry_plan scrub o now (some found.0)) db reg (ground (arith, is_retry, found.1)) u
                held,
          ),
        )
      ]
