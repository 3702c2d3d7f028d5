-- ===== src/Outbox/Semantics/Sweeping.antt =====
-- Recovery of a stale lease (backend/core/outbox/recovery.py): what becomes of the message.
use django_base_x.Prelude.{
  ℕ, ◌+◌, ◌≤◌, ◌<◌, ◌≡◌, refl, ◌⊎◌, inl, inr, true, ◌&&◌, List, some, none, arith, ◌==◌, str_eq,
  first_where, update_where,
}
use django_base_x.Prelude.Result.{ok}
use django_base_x.Findings.{FindingKind}
use django_base_x.Findings.Unique.{IsUnique, raise_or_touch-one_open}
use django_base_x.Outbox.Message.{
  Message, Db, Topic, Status, at_least_once, at_most_once, is_stale, policy_of, unknown_kind,
  failed_kind, object_type,
}
use django_base_x.Outbox.Settle.{open_finding}
use django_base_x.Outbox.Recovery.{
  park, lease_evidence, save_parked, park_with_finding, reconcile_delay, reconcile_unknown,
  reconcile_as, reconcile, recover_one,
}
use django_base_x.Outbox.Semantics.Settling.{KindsOk, open_about}
use django_base_x.Outbox.Semantics.Retrying.{row_delay_cases}

module _ (rand : ℕ → ℕ) (kinds : List FindingKind) (known : KindsOk kinds) (topics : List Topic)
    (now pk : ℕ) (row : Message) (db : Db) (u : IsUnique db.findings)
    (stale : first_where (λ m. is_stale now m && m.id == pk) db.rows ≡ some row) where
  park_unknown :
      (db' : Db) × (park_with_finding kinds unknown_kind row Status.unknown now db ≡ ok db')
      × (db'.rows
          ≡ update_where (λ m. m.id == row.id) (park Status.unknown row.next_attempt_at) db.rows)
      × (open_about unknown_kind row.id db'.findings ≡ 1)
  unfolding park_with_finding open_finding save_parked
  park_unknown =
      let (s, made, u', one) =
        raise_or_touch-one_open kinds (λ x. x) known.unknown unknown_kind object_type row.id ""
          (some (lease_evidence row)) now db.findings (λ x v. v) u known.unknown_known in
      (
        save_parked row Status.unknown row.next_attempt_at (record db { findings = s }),
        rw made,
        refl,
        one,
      )

  park_failed :
      (db' : Db) × (park_with_finding kinds failed_kind row Status.failed now db ≡ ok db')
      × (db'.rows
          ≡ update_where (λ m. m.id == row.id) (park Status.failed row.next_attempt_at) db.rows)
      × (open_about failed_kind row.id db'.findings ≡ 1)
  unfolding park_with_finding open_finding save_parked
  park_failed =
      let (s, made, u', one) =
        raise_or_touch-one_open kinds (λ x. x) known.failed failed_kind object_type row.id ""
          (some (lease_evidence row)) now db.findings (λ x v. v) u known.failed_known in
      (
        save_parked row Status.failed row.next_attempt_at (record db { findings = s }),
        rw made,
        refl,
        one,
      )

  -- A stale row whose topic is not registered, or is at_most_once, is never sent again by the
  -- sweep: it becomes `unknown`, with exactly one open finding for a human.
  pub recover_unknown :
      ((first_where (λ s. str_eq s.topic row.topic) topics ≡ none)
        ⊎ ((spec : Topic) × (first_where (λ s. str_eq s.topic row.topic) topics ≡ some spec)
            × (spec.semantics ≡ at_most_once)))
      → (db' : Db) × (recover_one rand kinds topics now pk db ≡ ok (true, db'))
        × (db'.rows
            ≡ update_where (λ m. m.id == row.id) (park Status.unknown row.next_attempt_at) db.rows)
        × (open_about unknown_kind row.id db'.findings ≡ 1)
  unfolding recover_one reconcile reconcile_as reconcile_unknown
  recover_unknown (inl gone) =
      (park_unknown.0, ground (arith, stale, gone, park_unknown.1), park_unknown.2, park_unknown.3)
  recover_unknown (inr (spec, reg, once)) = (
    park_unknown.0,
    ground (arith, stale, reg, once, park_unknown.1),
    park_unknown.2,
    park_unknown.3,
  )

  -- A stale row of an at_least_once topic with a valid backoff: while an attempt is left it waits in
  -- `retry`, at most the topic's cap away, with no new finding; after the last one it is `failed`,
  -- with exactly one open finding.
  pub recover_at_least_once :
      (spec : Topic)
      → first_where (λ s. str_eq s.topic row.topic) topics ≡ some spec
      → spec.semantics ≡ at_least_once
      → ((n : ℕ) → rand n ≤ n)
      → 1 ≤ (policy_of spec).factor
      → 1 ≤ row.attempts
      → 1 ≤ row.max_attempts
      → ((row.max_attempts ≤ row.attempts)
          × ((db' : Db) × (recover_one rand kinds topics now pk db ≡ ok (true, db'))
              × (db'.rows
                  ≡ update_where
                      (λ m. m.id == row.id)
                      (park Status.failed row.next_attempt_at)
                      db.rows)
              × (open_about failed_kind row.id db'.findings ≡ 1)))
        ⊎ ((row.attempts < row.max_attempts)
            × ((d : ℕ) × (d ≤ (policy_of spec).cap)
                × (recover_one rand kinds topics now pk db
                    ≡ ok (true, save_parked row Status.retry (now + d) db))))
  unfolding recover_one reconcile reconcile_as reconcile_delay
  recover_at_least_once spec reg least draw h a b =
      elim (row_delay_cases rand spec row.attempts row.max_attempts none draw h a b) [
        | inl (spent, e) ↦ inl (
          spent,
          (
            park_failed.0,
            ground (arith, stale, reg, least, e, park_failed.1),
            park_failed.2,
            park_failed.3,
          ),
        )
        | inr (left, found) ↦
            inr (left, (found.0, found.2, ground (arith, stale, reg, least, found.1)))
      ]
